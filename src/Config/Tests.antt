-- ===== src/Config/Tests.antt =====
-- Tests of the configuration, and examples of the theorems about it, with numbers of one digit and texts.
use ota_new.Common.{
  ℕ, ◌-◌, ◌≡◌, ◌≢◌, refl, [], ◌∷◌, Option, none, some, Bool, true, false, Text, codes, get_elem?,
  str_eq, ◌==◌, arith,
}
use ota_new.Config.{
  Casts, ConfigVar, Config, Node, scalar, mapping, end, member, found, thrown, null_ptr, lookup,
  lookup_base, lookup_as, cast_to, make_var, new_var, find_key, put_key, load_from_yaml, load_all,
  load_one, list_all_member, join_key, at, from_string, set_value,
}
use ota_new.Config.Kept.{Reach, here, next, look, load, init}
use ota_new.Config.Typed.{Reads, Tells}
use ota_new.Config.Paths.{told, assigned}
use ota_new.Config.Runs.{
  lookup_as-typed, load_from_yaml-refuses, lookup-orphans, load_from_yaml-reads,
}

data Kind : Type 0 where
  digit : Kind
  word : Kind

data Value : Type 0 where
  num : ℕ → Value
  txt : Text → Value

abbrev same_kind : Kind → Kind → Bool
same_kind digit digit = true
same_kind digit word = false
same_kind word digit = false
same_kind word word = true

abbrev kind_of : Value → Kind
kind_of (num n) = digit
kind_of (txt t) = word

abbrev cast : Kind → Text → Option Value
cast digit [] = none
cast digit (c ∷ cs) = some (num (c - 48))
cast word t = some (txt t)

abbrev same : Value → Value → Bool
same (num m) (num n) = m == n
same (num m) (txt t) = false
same (txt s) (num n) = false
same (txt s) (txt t) = str_eq s t

abbrev casts : Casts Kind Value
casts = record {
  same_kind = same_kind;
  kind_of = kind_of;
  cast = cast;
  same = same;
  print = λ n. [];
}

reads : Reads casts
reads digit [] v e = cc
reads digit (c ∷ cs) v e = ground (arith, e)
reads word t v e = ground (arith, e)

tells : Tells casts
tells digit digit h = refl
tells digit word h = cc
tells word digit h = cc
tells word word h = refl

abbrev port : Text
port = codes "tcp.port"

abbrev port9 : Text
port9 = codes "tcp.port9"

abbrev one : Config Kind Value
one = (lookup casts port (num 1) (init casts)).0

one_run : Reach casts (init casts) one
one_run = next here (look port (num 1))

-- tcp: { port: 7, port9: 5 }
abbrev yaml : Node
yaml = mapping (
    member (codes "tcp")
      (mapping (
        member (codes "port") (scalar (codes "7"))
          (member (codes "port9") (scalar (codes "5")) end)))
      end)

load_run : Option ℕ
load_run = elim (get_elem? (load_from_yaml casts yaml one).vars 0) [
  | none ↦ none
  | some x ↦ elim x.value [ num n ↦ some n | txt t ↦ none ]
]

load_runs : load_run ≡ some 7
unfolding load_run load_from_yaml list_all_member load_all load_one lookup lookup_base make_var
    find_key put_key at from_string set_value new_var join_key
load_runs = refl

bad_name : (lookup casts (codes "Port") (num 1) one).1 ≡ thrown
unfolding lookup lookup_base make_var find_key put_key
bad_name = refl

other_type : (lookup casts port (txt []) one).1 ≡ null_ptr
unfolding lookup lookup_base make_var find_key put_key cast_to new_var
other_type = refl

port_there : (lookup casts port (num 1) (init casts)).1 ≡ found 0
unfolding lookup lookup_base make_var find_key
port_there = refl

port9_there : (lookup casts port9 (num 1) (init casts)).1 ≡ found 0
unfolding lookup lookup_base make_var find_key
port9_there = refl

found_as : lookup_as casts digit port one ≡ some 0
unfolding lookup_as lookup lookup_base make_var find_key put_key cast_to new_var
found_as = refl

found_base : lookup_base casts port one ≡ some 0
unfolding lookup lookup_base make_var find_key put_key
found_base = refl

there : get_elem? one.vars 0 ≡ some (new_var casts port (num 1))
unfolding lookup lookup_base make_var find_key put_key
there = refl

lookup_as-typed_example :
    (x : ConfigVar Kind Value) × (get_elem? (load_from_yaml casts yaml one).vars 0 ≡ some x)
    × (x.kind ≡ digit)
    × (kind_of x.value ≡ digit)
lookup_as-typed_example =
    lookup_as-typed casts reads tells digit port 0 one_run found_as (next here (load yaml))

load_from_yaml-refuses_example :
    get_elem? (load_from_yaml casts yaml (lookup casts port9 (num 1) (init casts)).0).vars 0
    ≡ some (new_var casts port9 (num 1))
load_from_yaml-refuses_example =
    load_from_yaml-refuses casts reads port9 (num 1) 0 yaml here port9_there refl

lookup-orphans_example :
    (g : ℕ) × ((lookup casts port (num 2) (lookup casts port (num 1) (init casts)).0).1 ≡ found g)
    × (0 ≢ g)
    × (get_elem?
          (load_from_yaml casts yaml
            (lookup casts port (num 2) (lookup casts port (num 1) (init casts)).0).0).vars
          0
        ≡ some (new_var casts port (num 1)))
lookup-orphans_example = lookup-orphans casts reads port (num 1) (num 2) 0 yaml here port_there refl

load_from_yaml-reads_example :
    get_elem? (load_from_yaml casts yaml one).vars 0
    ≡ some (assigned casts (told casts port yaml) (new_var casts port (num 1)))
load_from_yaml-reads_example =
    load_from_yaml-reads casts reads port 0 yaml one_run refl found_base there
