-- ===== src/Ota/Tests/Server.antt =====
-- A Redis server that keeps its texts in a function, for the tests; its client connects under the name `main`.
use ota_new.Common.{
  ◌≡◌, ◌≢◌, refl, sym, ap, Option, none, some, if◌then◌else◌, Bool-cases, inl, inr, Text, codes,
  str_eq, str_eq_refl, str_eq→≡,
}
use ota_new.Ota.Redis.{
  pos, Command, get, set, set_ex, del, exists, expire, lpush, brpop, raw, Reply, string, integer,
  nil, status, error, Redis,
}
use ota_new.Ota.Redis.Store.{Store, subject}

abbrev pub Memory : Type 0
Memory = Text → Option Text

abbrev pub put : Text → Option Text → Memory → Memory
put k v s j = if str_eq j k then v else s j

abbrev found : Option Text → Reply
found none = nil
found (some v) = string v

abbrev answer : Command → Memory → Option Reply × Memory
answer (get k) s = (some (found (s k)), s)
answer (set k v) s = (some (status (codes "OK")), put k (some v) s)
answer (set_ex k v n) s = (some (status (codes "OK")), put k (some v) s)
answer (del k) s = (some (integer (pos 1)), put k none s)
answer (exists k) s = (some (integer (pos 0)), s)
answer (expire k n) s = (some (integer (pos 1)), s)
answer (lpush k v) s = (some (integer (pos 1)), s)
answer (brpop k) s = (none, s)
answer (raw f) s = (some (error f), s)

abbrev pub server : Redis Memory
server = record { connects = λ name s. str_eq name (codes "main"); send = λ name c s. answer c s }

pub put_self : (k : Text) (v : Option Text) (s : Memory) → put k v s k ≡ v
put_self k v s = rw (str_eq_refl k) refl

put_other : (k j : Text) (v : Option Text) (s : Memory) → some k ≢ some j → put k v s j ≡ s j
put_other k j v s ne = elim (Bool-cases (str_eq j k)) [
  | inl same ↦ absurd (ne (ap some (sym (str_eq→≡ j k same))))
  | inr other ↦ rw other refl
]

pub answer-frame :
    (c : Command) (k : Text) (s : Memory) → subject c ≢ some k → (answer c s).1 k ≡ s k
answer-frame (get j) k s ne = refl
answer-frame (set j v) k s ne = put_other j k (some v) s ne
answer-frame (set_ex j v n) k s ne = put_other j k (some v) s ne
answer-frame (del j) k s ne = put_other j k none s ne
answer-frame (exists j) k s ne = refl
answer-frame (expire j n) k s ne = refl
answer-frame (lpush j v) k s ne = refl
answer-frame (brpop j) k s ne = refl
answer-frame (raw f) k s ne = refl

pub found-string : (o : Option Text) (v : Text) → some (found o) ≡ some (string v) → o ≡ some v
found-string none v e = cc
found-string (some w) v e = cc

abbrev pub memory : Store server
memory = record {
  lookup = λ k s. s k;
  frame = λ name c k s ne. answer-frame c k s ne;
  set_done = λ name k v s h. put_self k (some v) s;
  set_ex_done = λ name k v n s h. put_self k (some v) s;
  get_found = λ name k v s h. found-string (s k) v h;
  get_keeps = λ name key k s. refl;
}

abbrev pub nothing : Memory
nothing k = none
