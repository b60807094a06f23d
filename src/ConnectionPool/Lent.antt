-- ===== src/ConnectionPool/Lent.antt =====
-- The count of connections, and what the time to live comes to.
use ota_new.Common.{
  ℕ, ◌+◌, ◌-◌, ◌%◌, ◌^◌, ◌≤◌, ◌<◌, ◌≡◌, refl, subst, List, [], ◌∷◌, ◌++◌, Option, none, some, Bool,
  true, false, ◌||◌, not, if◌then◌else◌, ltb, length, All, arith, length-append, Bool-cases, inl,
  inr,
}
use native.Mathlib.Nat.{mod-eq_of_lt, add-mod_right}
use mathlib.Core.Option.{some-injective}
use ota_new.ConnectionPool.{
  Connection, Pool, less32, more32, alive_until, take_valid, connect, given, get_connection,
  release,
}

pub less32-sub : (t n : ℕ) → n ≤ t → t < 2 ^ 32 → less32 t n ≡ t - n
less32-sub t n le lt = grind (arith, add-mod_right, mod-eq_of_lt {n = t - n} {m = 2 ^ 32})

abbrev pub IsUntimed : Connection → Type 0
IsUntimed c = c.create_time ≡ 0

-- Of the connections that were made and not deleted, `lent` are in use.
pub record IsCounted (p : Pool) (lent : List Connection) : Type 0 where
  pub counted : p.total ≡ length p.conns + length lent
  pub few : p.total < 2 ^ 32
  pub untimed : All IsUntimed p.conns
  pub lent_untimed : All IsUntimed lent

-- What the loop finds.
record Splits (cs : List Connection) (r : ℕ × Option Connection × List Connection) : Type 0 where
  nothing : r.1 ≡ none → (length r.2 + r.0 ≡ length cs)
  something : (c : Connection) → r.1 ≡ some c → (length r.2 + r.0 + 1 ≡ length cs) × IsUntimed c
  untimed : All IsUntimed r.2

take_valid-Splits :
    (connected : ℕ → Bool) (now alive : ℕ) (cs : List Connection)
    → All IsUntimed cs
    → Splits cs (take_valid connected now alive cs)
unfolding take_valid
take_valid-Splits connected now alive [] h = record {
  nothing = λ e. refl;
  something = λ c e. absurd (ground (arith, e));
  untimed = tt;
}
take_valid-Splits connected now alive (c ∷ cs) (h, hs) =
    elim (Bool-cases (not (connected c.id) || ltb now (alive_until alive c))) [
      | inl out ↦
          let s = take_valid-Splits connected now alive cs hs in
          rw (out, take_valid)
            (record {
              nothing = λ e. omega (arith, s.nothing e);
              something = λ d e. (omega (arith, (s.something d e).0), (s.something d e).1);
              untimed = s.untimed;
            })
      | inr fine ↦
          rw (fine, take_valid)
            (record {
              nothing = λ e. absurd (ground (arith, e));
              something = λ d e. (omega arith, subst IsUntimed (some-injective _ _ e) h);
              untimed = hs;
            })
    ]

abbrev pub in_use : Option Connection → List Connection → List Connection
in_use none lent = lent
in_use (some c) lent = c ∷ lent

connect-IsCounted :
    (fresh : Option ℕ) (p : Pool) (lent : List Connection)
    → IsCounted p lent
    → p.total < 2 ^ 31
    → IsCounted (connect fresh p).1 (in_use (connect fresh p).0 lent)
connect-IsCounted none p lent v room = v
connect-IsCounted (some i) p lent v room =
    let up : more32 p.total ≡ p.total + 1 =
      mod-eq_of_lt {n = p.total + 1} {m = 2 ^ 32} (omega (arith, room)) in
    record {
      counted = omega (arith, up, v.counted);
      few = omega (arith, up, room);
      untimed = v.untimed;
      lent_untimed = (refl, v.lent_untimed);
    }

given-IsCounted :
    (fresh : Option ℕ) (p : Pool) (lent : List Connection) (n : ℕ) (found : Option Connection)
    (rest : List Connection)
    → IsCounted p lent
    → length p.conns + length lent < 2 ^ 31
    → Splits p.conns (n, found, rest)
    → IsCounted (given fresh p (n, found, rest)).1 (in_use (given fresh p (n, found, rest)).0 lent)
given-IsCounted fresh p lent n (some c) rest v room s =
    let (len, fresh_c) = s.something c refl in
    let down = less32-sub p.total n (omega (arith, len, v.counted)) v.few in
    record {
      counted = omega (arith, down, len, v.counted);
      few = omega (arith, down, v.few);
      untimed = s.untimed;
      lent_untimed = (fresh_c, v.lent_untimed);
    }
given-IsCounted fresh p lent n none rest v room s =
    let len = s.nothing refl in
    let down = less32-sub p.total n (omega (arith, len, v.counted)) v.few in
    connect-IsCounted fresh (record p { conns = rest; total = less32 p.total n }) lent
      (record {
        counted = omega (arith, down, len, v.counted);
        few = omega (arith, down, v.few);
        untimed = s.untimed;
        lent_untimed = v.lent_untimed;
      })
      (omega (arith, down, v.counted, room))

pub get_connection-IsCounted :
    (connected : ℕ → Bool) (now : ℕ) (fresh : Option ℕ) (p : Pool) (lent : List Connection)
    → IsCounted p lent
    → length p.conns + length lent < 2 ^ 31
    → IsCounted
        (get_connection connected now fresh p).1
        (in_use (get_connection connected now fresh p).0 lent)
unfolding get_connection
get_connection-IsCounted connected now fresh p lent v room =
    let r = take_valid connected now p.max_alive_time p.conns in
    given-IsCounted fresh p lent r.0 r.1 r.2 v room
      (take_valid-Splits connected now p.max_alive_time p.conns v.untimed)

All-drop :
    (before after : List Connection) (c : Connection)
    → All IsUntimed (before ++ (c ∷ after))
    → IsUntimed c × All IsUntimed (before ++ after)
All-drop [] after c (h, hs) = (h, hs)
All-drop (x ∷ before) after c (h, hs) = let (k, ks) = All-drop before after c hs in (k, (h, ks))

All-snoc :
    (cs : List Connection) (c : Connection)
    → All IsUntimed cs
    → IsUntimed c
    → All IsUntimed (cs ++ (c ∷ []))
All-snoc [] c h k = (k, tt)
All-snoc (x ∷ cs) c (h, hs) k = (h, All-snoc cs c hs k)

either-IsCounted :
    (b : Bool) {p q : Pool} (lent : List Connection)
    → IsCounted p lent
    → IsCounted q lent
    → IsCounted (if b then p else q) lent
either-IsCounted true lent h k = h
either-IsCounted false lent h k = k

pub release-IsCounted :
    (connected : ℕ → Bool) (now : ℕ) (c : Connection) (p : Pool) (before after : List Connection)
    → IsCounted p (before ++ (c ∷ after))
    → IsCounted (release connected now c p) (before ++ after)
unfolding release
release-IsCounted connected now c p before after v =
    let (fresh, others) = All-drop before after c v.lent_untimed in
    let all = length-append before (c ∷ after) in
    let left = length-append before after in
    let down = less32-sub p.total 1 (omega (arith, v.counted, all)) v.few in
    let back : Connection = record c { requests = (c.requests + 1) % 2 ^ 64 } in
    either-IsCounted _ (before ++ after)
      (record {
        counted = omega (arith, down, v.counted, all, left);
        few = omega (arith, down, v.few);
        untimed = v.untimed;
        lent_untimed = others;
      })
      (record {
        counted = omega (arith, v.counted, all, left, length-append p.conns (back ∷ []));
        few = v.few;
        untimed = All-snoc p.conns back v.untimed fresh;
        lent_untimed = others;
      })
