-- ===== src/ConnectionPool/Run.antt =====
-- Runs of a pool, and what the time to live comes to.
use ota_new.Common.{
  ℕ, ◌+◌, ◌%◌, ◌^◌, ◌≤◌, ◌<◌, ◌≡◌, ◌-◌, subst, true, false, ltb, length-append, refl, ap, ◌∙◌, List,
  [], ◌∷◌, ◌++◌, Option, some, Bool, length, All, arith, le→ltb,
}
use native.Mathlib.Nat.{mod-eq_of_lt}
use ota_new.ConnectionPool.{
  Connection, Pool, alive_until, take_valid, given, get_connection, release,
}
use ota_new.ConnectionPool.Lent.{
  IsUntimed, IsCounted, in_use, less32-sub, get_connection-IsCounted, release-IsCounted,
}

-- Runs of a pool: connections are taken, with fewer than 2^31 of them, and given back.
pub data Reach (alive max_request : ℕ) : Pool → List Connection → Type 0 where
  start :
      Reach alive max_request
        (record { conns = []; total = 0; max_alive_time = alive; max_request = max_request })
        []
  gets :
      {p : Pool} {lent : List Connection} (connected : ℕ → Bool) (now : ℕ) (fresh : Option ℕ)
      → length p.conns + length lent < 2 ^ 31
      → Reach alive max_request p lent
      → Reach alive max_request
          (get_connection connected now fresh p).1
          (in_use (get_connection connected now fresh p).0 lent)
  releases :
      {p : Pool} (connected : ℕ → Bool) (now : ℕ) (c : Connection) (before after : List Connection)
      → Reach alive max_request p (before ++ (c ∷ after))
      → Reach alive max_request (release connected now c p) (before ++ after)

-- After any run, `m_total` is the number of connections that are in the pool or in use, whatever was connected and when.
pub Reach-IsCounted :
    (alive max_request : ℕ) (p : Pool) (lent : List Connection)
    → Reach alive max_request p lent
    → IsCounted p lent
Reach-IsCounted alive max_request _ _ start = record {
  counted = omega arith;
  few = omega arith;
  untimed = tt;
  lent_untimed = tt;
}
Reach-IsCounted alive max_request _ _ (gets {p = p} {lent = lent} connected now fresh room r) =
    get_connection-IsCounted connected now fresh p lent (Reach-IsCounted alive max_request p lent r)
      room
Reach-IsCounted alive max_request _ _ (releases {p = p} connected now c before after r) =
    release-IsCounted connected now c p before after
      (Reach-IsCounted alive max_request p (before ++ (c ∷ after)) r)

young :
    (now alive : ℕ) (c : Connection)
    → IsUntimed c
    → alive ≤ now
    → alive < 2 ^ 64
    → ltb now (alive_until alive c) ≡ false
young now alive c h le lt =
    let until : alive_until alive c ≡ alive =
      ap (λ (k : ℕ). (k + alive) % 2 ^ 64) h
      ∙ mod-eq_of_lt {n = 0 + alive} {m = 2 ^ 64} (omega (arith, lt))
      ∙ omega arith in
    le→ltb now (alive_until alive c) (omega (arith, until, le))

-- What the loop finds behind connections that are not connected, where no age discards one.
first_connected :
    (connected : ℕ → Bool) (now alive : ℕ) (before after : List Connection) (c : Connection)
    → alive ≤ now
    → alive < 2 ^ 64
    → All IsUntimed (before ++ (c ∷ after))
    → All (λ d. connected d.id ≡ false) before
    → connected c.id ≡ true
    → take_valid connected now alive (before ++ (c ∷ after)) ≡ (length before, some c, after)
unfolding take_valid
first_connected connected now alive [] after c le lt (h, hs) gone there =
    rw (there, young now alive c h le lt, take_valid) refl
first_connected connected now alive (d ∷ before) after c le lt (h, hs) (out, gone) there =
    rw (out, first_connected connected now alive before after c le lt hs gone there, take_valid)
      (ap (λ (k : ℕ). (k, some c, after)) (omega arith))

-- After any run, at a time of at least `max_alive_time` on the clock: behind connections that are not connected,
-- `getConnection` hands out the first one that is, whatever its age, and makes no new one; the pool keeps those
-- behind it, and the count is less by those before it.
pub get_connection-ageless :
    (alive max_request : ℕ) (p : Pool) (lent : List Connection) (connected : ℕ → Bool) (now : ℕ)
    (fresh : Option ℕ) (before after : List Connection) (c : Connection)
    → Reach alive max_request p lent
    → p.max_alive_time ≤ now
    → p.max_alive_time < 2 ^ 32
    → p.conns ≡ before ++ (c ∷ after)
    → All (λ d. connected d.id ≡ false) before
    → connected c.id ≡ true
    → get_connection connected now fresh p
      ≡ (some c, record p { conns = after; total = p.total - length before })
unfolding get_connection
get_connection-ageless alive max_request p lent connected now fresh before after c r le lt e gone
      there =
    let v = Reach-IsCounted alive max_request p lent r in
    let found =
      ap (take_valid connected now p.max_alive_time) e
      ∙ first_connected connected now p.max_alive_time before after c le (omega (arith, lt))
          (subst (All IsUntimed) e v.untimed) gone there in
    let less =
      less32-sub p.total (length before)
        (omega (arith, v.counted, ap length e, length-append before (c ∷ after))) v.few in
    ap (given fresh p) found ∙ ap (λ (k : ℕ). (some c, record p { conns = after; total = k })) less
