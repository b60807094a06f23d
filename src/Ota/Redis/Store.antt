-- ===== src/Ota/Redis/Store.antt =====
-- What the helpers of sherry/db/redis_util.cc leave in the database.
use ota_new.Common.{
  ℕ, ◌≡◌, ◌≢◌, refl, sym, ◌∙◌, Option, none, some, Bool, true, false, if◌then◌else◌, Bool-cases,
  inl, inr, Text, arith, ◌==◌,
}
use mathlib.Core.Option.{some-injective}
use ota_new.Ota.Redis.{
  ℤ, is_positive, Command, get, set, set_ex, del, exists, expire, lpush, brpop, raw, Reply, string,
  array, integer, nil, status, error, Redis, cmd, is_bad, got, redis_set_key_value,
  redis_reset_value, redis_del_key, redis_get_key_value, redis_key_exists, redis_safe_set_key_value,
}

-- The key that a command is about.
abbrev pub subject : Command → Option Text
subject (get k) = some k
subject (set k v) = some k
subject (set_ex k v n) = some k
subject (del k) = some k
subject (exists k) = some k
subject (expire k n) = some k
subject (lpush k v) = some k
subject (brpop k) = some k
subject (raw f) = none

-- What Redis documents of the commands: `lookup` is the text under a key. A command that is
-- answered has had its effect; one that is not may have had it or not, on its own key only.
pub record Store {S : Type 0} (redis : Redis S) : Type 0 where
  pub lookup : Text → S → Option Text
  pub frame :
      (name : Text) (c : Command) (k : Text) (s : S)
      → subject c ≢ some k
      → lookup k (redis.send name c s).1 ≡ lookup k s
  pub set_done :
      (name k v : Text) (s : S)
      → is_bad redis (redis.send name (set k v) s).0 ≡ false
      → lookup k (redis.send name (set k v) s).1 ≡ some v
  pub set_ex_done :
      (name k v : Text) (n : ℤ) (s : S)
      → is_bad redis (redis.send name (set_ex k v n) s).0 ≡ false
      → lookup k (redis.send name (set_ex k v n) s).1 ≡ some v
  pub get_found :
      (name k v : Text) (s : S)
      → (redis.send name (get k) s).0 ≡ some (string v)
      → lookup k s ≡ some v
  pub get_keeps :
      (name key k : Text) (s : S) → lookup k (redis.send name (get key) s).1 ≡ lookup k s

module _ {S : Type 0} {redis : Redis S} (store : Store redis) where
  pub cmd-frame :
      (name : Text) (c : Command) (k : Text) (s : S)
      → subject c ≢ some k
      → store.lookup k (cmd redis name c s).1 ≡ store.lookup k s
  unfolding cmd
  cmd-frame name c k s ne = elim (Bool-cases (redis.connects name s)) [
    | inl up ↦ rw (up, cmd) (store.frame name c k s ne)
    | inr down ↦ rw (down, cmd) refl
  ]

  abbrev set_command : Text → Text → ℤ → Command
  set_command key value expire_seconds =
      if is_positive expire_seconds then set_ex key value expire_seconds else set key value

  abbrev pub Writes : Text → Text → Command → Type 0
  Writes key value c =
      (name : Text) (s : S)
      → is_bad redis (redis.send name c s).0 ≡ false
      → store.lookup key (redis.send name c s).1 ≡ some value

  either-Writes :
      (key value : Text) (b : Bool) (c d : Command)
      → Writes key value c
      → Writes key value d
      → Writes key value (if b then c else d)
  either-Writes key value true c d wc wd = wc
  either-Writes key value false c d wc wd = wd

  set_command-Writes : (key value : Text) (n : ℤ) → Writes key value (set_command key value n)
  set_command-Writes key value n =
      either-Writes key value (is_positive n) (set_ex key value n) (set key value)
        (λ name s. store.set_ex_done name key value n s) (λ name s. store.set_done name key value s)

  pub cmd-Writes :
      (name key value : Text) (c : Command) (s : S)
      → Writes key value c
      → is_bad redis (cmd redis name c s).0 ≡ false
      → store.lookup key (cmd redis name c s).1 ≡ some value
  unfolding cmd
  cmd-Writes name key value c s w = elim (Bool-cases (redis.connects name s)) [
    | inl up ↦ rw (up, cmd) (w name s)
    | inr down ↦ rw (down, cmd) (λ h. cc)
  ]

  subject-set_command :
      (key value k : Text) (n : ℤ) → k ≢ key → subject (set_command key value n) ≢ some k
  subject-set_command key value k n ne = elim (Bool-cases (is_positive n)) [
    | inl b ↦ rw (b) (λ e. ne (sym (some-injective _ _ e)))
    | inr b ↦ rw (b) (λ e. ne (sym (some-injective _ _ e)))
  ]

  -- Of a call that set a key: the text is under it, and the other keys are as they were.
  abbrev Sets : Text → Text → S → ℕ × S → Type 0
  Sets key value s r =
      (r.0 ≡ 1 → store.lookup key r.1 ≡ some value)
      × ((k : Text) → k ≢ key → store.lookup k r.1 ≡ store.lookup k s)

  redis_set_key_value-Sets :
      (name key value : Text) (n : ℤ) (s : S)
      → Sets key value s (redis_set_key_value redis name key value n s)
  unfolding redis_set_key_value
  redis_set_key_value-Sets name key value n s = (
    λ ret.
        cmd-Writes name key value (set_command key value n) s (set_command-Writes key value n)
          (ground arith),
    λ k ne. cmd-frame name (set_command key value n) k s (subject-set_command key value k n ne),
  )

  abbrev Keeps : Text → S → S → Type 0
  Keeps key s s' = (k : Text) → k ≢ key → store.lookup k s' ≡ store.lookup k s

  Sets-after :
      (key value : Text) (s s' : S) (r : ℕ × S)
      → Keeps key s s'
      → Sets key value s' r
      → Sets key value s r
  Sets-after key value s s' r keeps (done, others) = (done, λ k ne. others k ne ∙ keeps k ne)

  redis_reset_value-Sets :
      (name key value : Text) (n : ℤ) (s : S)
      → Sets key value s (redis_reset_value redis name key value n s)
  unfolding redis_reset_value redis_del_key
  redis_reset_value-Sets name key value n s =
      Sets-after key value s (cmd redis name (del key) s).1
        (redis_set_key_value redis name key value n (cmd redis name (del key) s).1)
        (λ k ne. cmd-frame name (del key) k s (λ e. ne (sym (some-injective _ _ e))))
        (redis_set_key_value-Sets name key value n (cmd redis name (del key) s).1)

  either-Sets :
      (key value : Text) (s : S) (b : Bool) (x y : ℕ × S)
      → Sets key value s x
      → Sets key value s y
      → Sets key value s (if b then x else y)
  either-Sets key value s true x y p q = p
  either-Sets key value s false x y p q = q

  redis_safe_set_key_value-Sets :
      (name key value : Text) (n : ℤ) (s : S)
      → Sets key value s (redis_safe_set_key_value redis name key value n s)
  unfolding redis_safe_set_key_value redis_key_exists
  redis_safe_set_key_value-Sets name key value n s =
      let s' = (cmd redis name (exists key) s).1 in
      Sets-after key value s s' _
        (λ k ne. cmd-frame name (exists key) k s (λ e. ne (sym (some-injective _ _ e))))
        (either-Sets key value s' ((redis_key_exists redis name key s).0 == 1) _ _
          (redis_reset_value-Sets name key value n s')
          (redis_set_key_value-Sets name key value n s'))

  -- Where `redis_safe_set_key_value` returns 1 the new text is under the key, whatever was there
  -- and whatever the calls before it were answered, and the text under any other key is as it was.
  pub redis_safe_set_key_value-stores :
      (name key value : Text) (n : ℤ) (s : S) (k : Text)
      → k ≢ key
      → (redis_safe_set_key_value redis name key value n s).0 ≡ 1
      → (store.lookup key (redis_safe_set_key_value redis name key value n s).1 ≡ some value)
        × (store.lookup k (redis_safe_set_key_value redis name key value n s).1 ≡ store.lookup k s)
  redis_safe_set_key_value-stores name key value n s k ne one =
      let (stored, kept) = redis_safe_set_key_value-Sets name key value n s in
      (stored one, kept k ne)

  got-string : (r : Option Reply) (v : Text) → got redis r ≡ some v → r ≡ some (string v)
  got-string none v e = cc
  got-string (some (string w)) v e = cc
  got-string (some (array a)) v e = cc
  got-string (some (integer n)) v e = cc
  got-string (some nil) v e = cc
  got-string (some (status t)) v e = cc
  got-string (some (error t)) v e = cc

  pub cmd-get :
      (name key v : Text) (s : S)
      → (cmd redis name (get key) s).0 ≡ some (string v)
      → store.lookup key s ≡ some v
  unfolding cmd
  cmd-get name key v s = elim (Bool-cases (redis.connects name s)) [
    | inl up ↦ rw (up, cmd) (store.get_found name key v s)
    | inr down ↦ rw (down, cmd) (λ h. cc)
  ]

  pub get-Keeps :
      (name key k : Text) (s : S) → store.lookup k (cmd redis name (get key) s).1 ≡ store.lookup k s
  unfolding cmd
  get-Keeps name key k s = elim (Bool-cases (redis.connects name s)) [
    | inl up ↦ rw (up, cmd) (store.get_keeps name key k s)
    | inr down ↦ rw (down, cmd) refl
  ]

  -- A value that `redis_get_key_value` gives is the text under the key, and the call leaves the
  -- texts under all keys as they were.
  pub redis_get_key_value-reads :
      (name key v : Text) (s : S)
      → (redis_get_key_value redis name key s).0 ≡ some v
      → (store.lookup key s ≡ some v)
        × ((k : Text) → store.lookup k (redis_get_key_value redis name key s).1 ≡ store.lookup k s)
  unfolding redis_get_key_value
  redis_get_key_value-reads name key v s h =
      (cmd-get name key v s (got-string _ v h), λ k. get-Keeps name key k s)
