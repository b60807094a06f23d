-- ===== src/Servlet.antt =====
-- sherry/http/servlet.h and servlet.cc: which servlet answers a request. A servlet that is not there is `none`, and `fnmatch`
-- of the C library is a parameter, true where it returns 0.
mod Tests
pub mod Matched
use ota_new.Common.{
  List, [], ◌∷◌, ◌++◌, Option, none, some, Bool, true, false, if◌then◌else◌, Text, str_eq,
}

pub record Dispatch (S : Type 0) : Type 0 where
  pub datas : List (Text × Option S)
  pub globs : List (Text × Option S)
  pub default : Option S

module _ {S : Type 0} where
  -- `m_datas[uri] = slt`.
  unfoldable pub assign : Text → Option S → List (Text × Option S) → List (Text × Option S)
  assign uri slt [] = (uri, slt) ∷ []
  assign uri slt ((u, x) ∷ m) = if str_eq u uri then (u, slt) ∷ m else (u, x) ∷ assign uri slt m

  -- The first pair of the name, taken out: of the map it is the only one.
  unfoldable pub take_out : Text → List (Text × Option S) → List (Text × Option S)
  take_out uri [] = []
  take_out uri ((u, x) ∷ m) = if str_eq u uri then m else (u, x) ∷ take_out uri m

  -- `find`: the pointer of the first pair of the name, if there is one.
  unfoldable pub look_up : Text → List (Text × Option S) → Option (Option S)
  look_up uri [] = none
  look_up uri ((u, x) ∷ m) = if str_eq u uri then some x else look_up uri m

  -- The constructor, with its servlet for what is not found.
  unfoldable pub new_dispatch : S → Dispatch S
  new_dispatch not_found = record { datas = []; globs = []; default = some not_found }

  unfoldable pub add_servlet : Text → Option S → Dispatch S → Dispatch S
  unfolding assign
  add_servlet uri slt d = record d { datas = assign uri slt d.datas }

  unfoldable pub add_glob_servlet : Text → Option S → Dispatch S → Dispatch S
  unfolding take_out
  add_glob_servlet uri slt d = record d { globs = take_out uri d.globs ++ ((uri, slt) ∷ []) }

  unfoldable pub del_servlet : Text → Dispatch S → Dispatch S
  unfolding take_out
  del_servlet uri d = record d { datas = take_out uri d.datas }

  unfoldable pub del_glob_servlet : Text → Dispatch S → Dispatch S
  unfolding take_out
  del_glob_servlet uri d = record d { globs = take_out uri d.globs }

  abbrev pub or_null : Option (Option S) → Option S
  or_null none = none
  or_null (some x) = x

  unfoldable pub get_servlet : Text → Dispatch S → Option S
  unfolding look_up
  get_servlet uri d = or_null (look_up uri d.datas)

  unfoldable pub get_glob_servlet : Text → Dispatch S → Option S
  unfolding look_up
  get_glob_servlet uri d = or_null (look_up uri d.globs)

  module _ (fnmatch : Text → Text → Bool) where
    unfoldable pub first_glob : Text → List (Text × Option S) → Option S → Option S
    first_glob uri [] other = other
    first_glob uri ((pattern, x) ∷ globs) other =
        if fnmatch pattern uri then x else first_glob uri globs other

    unfoldable pub get_matched_servlet : Text → Dispatch S → Option S
    unfolding look_up first_glob
    get_matched_servlet uri d = elim (look_up uri d.datas) [
      | some x ↦ x
      | none ↦ first_glob uri d.globs d.default
    ]

    -- `handle`: the servlet is called if it is there, and the result is 0 in any case.
    unfoldable pub dispatch_handle : {W : Type 0} → (S → W → W) → Text → Dispatch S → W → W
    unfolding get_matched_servlet
    dispatch_handle call path d w = elim (get_matched_servlet path d) [
      | none ↦ w
      | some x ↦ call x w
    ]
