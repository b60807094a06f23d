-- ===== src/Config.antt =====
-- sherry/config.h and config.cc: the variables of the configuration, their listeners, and the loading of a
-- YAML document. The conversions of LexicalCast and the printing of a node are parameters.
pub mod Kept
pub mod Loaded
pub mod Made
pub mod Paths
pub mod Runs
pub mod Typed
pub mod Tests
use ota_new.Common.{
  ℕ, zero, suc, ◌+◌, List, [], ◌∷◌, ◌++◌, Option, none, some, Bool, true, false, ◌&&◌, ◌||◌, not,
  ltb, leb, ◌==◌, if◌then◌else◌, length, get_elem?, set, Text, codes, str_eq, map,
}

-- A YAML node, as yaml-cpp reads it; the keys of a map are their scalars.
mutual
  pub data Node : Type 0 where
    null : Node
    scalar : Text → Node
    sequence : Items → Node
    mapping : Members → Node

  pub data Items : Type 0 where
    last : Items
    item : Node → Items → Items

  pub data Members : Type 0 where
    end : Members
    member : Text → Node → Members → Members

abbrev is_lower : ℕ → Bool
is_lower c = leb b'a' c && leb c b'z'

abbrev is_mark : ℕ → Bool
is_mark c = c == b'.' || c == b'_'

-- The characters that `Lookup` takes in a name, and those that `ListAllMember` takes.
abbrev pub is_name_char : ℕ → Bool
is_name_char c = is_lower c || (is_mark c || (leb b'0' c && leb c b'9'))

abbrev pub is_key_char : ℕ → Bool
is_key_char c = is_lower c || (is_mark c || (leb b'0' c && leb c b'8'))

abbrev pub every : (ℕ → Bool) → Text → Bool
every p [] = true
every p (c ∷ cs) = p c && every p cs

abbrev pub to_lower : ℕ → ℕ
to_lower c = if leb b'A' c && leb c b'Z' then c + 32 else c

abbrev pub is_empty : Text → Bool
is_empty [] = true
is_empty (c ∷ cs) = false

unfoldable pub join_key : Text → Text → Text
join_key prefix key = if is_empty prefix then key else prefix ++ (codes "." ++ key)

-- `ListAllMember`: a node whose name has another character is left out, with all below it.
unfoldable mutual
  unfolding join_key

  pub list_all_member : Text → Node → List (Text × Node)
  list_all_member prefix null = if every is_key_char prefix then (prefix, null) ∷ [] else []
  list_all_member prefix (scalar s) =
      if every is_key_char prefix then (prefix, scalar s) ∷ [] else []
  list_all_member prefix (sequence xs) =
      if every is_key_char prefix then (prefix, sequence xs) ∷ [] else []
  list_all_member prefix (mapping ms) =
      if every is_key_char prefix then (prefix, mapping ms) ∷ list_members prefix ms else []

  pub list_members : Text → Members → List (Text × Node)
  list_members prefix end = []
  list_members prefix (member key node ms) =
      list_all_member (join_key prefix key) node ++ list_members prefix ms

-- The types of the variables, with their values: typeid, `LexicalCast` from a text, where none is an
-- exception, `==`, and the text that `<<` prints for a node.
pub record Casts (K V : Type 0) : Type 0 where
  pub same_kind : K → K → Bool
  pub kind_of : V → K
  pub cast : K → Text → Option V
  pub same : V → V → Bool
  pub print : Node → Text

-- `ConfigVar`, with the keys of its listeners, and the calls of the listeners so far: the key, the old value
-- and the new one.
pub record ConfigVar (K V : Type 0) : Type 0 where
  pub name : Text
  pub kind : K
  pub value : V
  pub listeners : List ℕ
  pub calls : List (ℕ × V × V)

-- `Config`: the variables that were made, where a pointer is a place in the list, and `GetDatas`.
pub record Config (K V : Type 0) : Type 0 where
  pub vars : List (ConfigVar K V)
  pub datas : List (Text × ℕ)

-- What `Lookup` does: nullptr, the exception, or a variable.
pub data Found : Type 0 where
  null_ptr : Found
  thrown : Found
  found : ℕ → Found

unfoldable pub find_key : Text → List (Text × ℕ) → Option ℕ
find_key name [] = none
find_key name ((k, h) ∷ ds) = if str_eq k name then some h else find_key name ds

unfoldable pub put_key : Text → ℕ → List (Text × ℕ) → List (Text × ℕ)
put_key name h [] = (name, h) ∷ []
put_key name h ((k, g) ∷ ds) = if str_eq k name then (k, h) ∷ ds else (k, g) ∷ put_key name h ds

module _ {K V : Type 0} (casts : Casts K V) where
  abbrev pub Var : Type 0
  Var = ConfigVar K V

  -- `LookupBase`
  unfoldable pub lookup_base : Text → Config K V → Option ℕ
  lookup_base name c = find_key name c.datas

  -- `dynamic_pointer_cast<ConfigVar<T>>`
  unfoldable pub cast_to : K → ℕ → Config K V → Bool
  cast_to k h c = elim (get_elem? c.vars h) [ none ↦ false | some x ↦ casts.same_kind x.kind k ]

  -- `Lookup` without a default value.
  unfoldable pub lookup_as : K → Text → Config K V → Option ℕ
  unfolding lookup_base cast_to
  lookup_as k name c = elim (lookup_base name c) [
    | none ↦ none
    | some h ↦ if cast_to k h c then some h else none
  ]

  unfoldable pub new_var : Text → V → Var
  new_var name v = record {
    name = map to_lower name;
    kind = casts.kind_of v;
    value = v;
    listeners = [];
    calls = [];
  }

  -- From the check of the name on.
  unfoldable pub make_var : Text → V → Config K V → Config K V × Found
  unfolding new_var put_key
  make_var name v c =
      if every is_name_char name
      then (
        record {
          vars = c.vars ++ (new_var name v ∷ []);
          datas = put_key name (length c.vars) c.datas;
        },
        found (length c.vars),
      )
      else (c, thrown)

  -- `Lookup` with a default value, which makes a variable also where it has found one of the type.
  unfoldable pub lookup : Text → V → Config K V → Config K V × Found
  unfolding lookup_base cast_to make_var
  lookup name v c = elim (lookup_base name c) [
    | none ↦ make_var name v c
    | some h ↦ if cast_to (casts.kind_of v) h c then make_var name v c else (c, null_ptr)
  ]

  -- `setValue`: every listener is called, in the order of the keys, unless the value is the old one.
  unfoldable pub set_value : V → Var → Var
  set_value v x =
      if casts.same v x.value
      then x
      else record x { value = v; calls = x.calls ++ map (λ (k : ℕ). (k, x.value, v)) x.listeners }

  -- `fromString`, whose answer is false in every case.
  unfoldable pub from_string : Text → Var → Var × Bool
  unfolding set_value
  from_string s x = elim (casts.cast x.kind s) [
    | none ↦ (x, false)
    | some v ↦ (set_value v x, false)
  ]

  -- The keys count up over all variables of a type; `key` is the next one.
  unfoldable pub add_listener : ℕ → Var → Var
  add_listener key x = record x { listeners = x.listeners ++ (key ∷ []) }

  unfoldable pub drop_key : ℕ → List ℕ → List ℕ
  drop_key key [] = []
  drop_key key (k ∷ ks) = if k == key then drop_key key ks else k ∷ drop_key key ks

  unfoldable pub del_listener : ℕ → Var → Var
  unfolding drop_key
  del_listener key x = record x { listeners = drop_key key x.listeners }

  unfoldable pub clear_listener : Var → Var
  clear_listener x = record x { listeners = [] }

  -- A method of the variable that a pointer leads to.
  unfoldable pub at : ℕ → (Var → Var) → Config K V → Config K V
  at h f c = elim (get_elem? c.vars h) [
    | none ↦ c
    | some x ↦ record c { vars = set c.vars h (f x) }
  ]

  -- The text that is read of a node.
  abbrev pub text_of : Node → Text
  text_of (scalar s) = s
  text_of node = casts.print node

  unfoldable pub load_one : Text × Node → Config K V → Config K V
  unfolding lookup_base at from_string
  load_one (key, node) c = if is_empty key then c else elim (lookup_base (map to_lower key) c) [
    | none ↦ c
    | some h ↦ at h (λ x. (from_string (text_of node) x).0) c
  ]

  unfoldable pub load_all : List (Text × Node) → Config K V → Config K V
  unfolding load_one
  load_all [] c = c
  load_all (e ∷ es) c = load_all es (load_one e c)

  -- `LoadFromYaml`
  unfoldable pub load_from_yaml : Node → Config K V → Config K V
  unfolding load_all
  load_from_yaml root c = load_all (list_all_member [] root) c
