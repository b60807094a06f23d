-- ===== src/Servlet/Tests.antt =====
-- A dispatch with a name, two patterns and a default.
use ota_new.Common.{ℕ, ◌+◌, ◌≡◌, refl, some, Bool, Text, codes, str_eq, take}
use ota_new.Servlet.{
  Dispatch, new_dispatch, add_servlet, add_glob_servlet, del_servlet, get_matched_servlet,
  dispatch_handle,
}
use ota_new.Servlet.Matched.{Finds, get_matched_servlet-Finds}

-- Patterns that end in a star, and no others.
abbrev glob : Text → Text → Bool
glob pattern path = str_eq (take 3 pattern) (take 3 path)

abbrev three : Dispatch ℕ
unfolding new_dispatch add_servlet add_glob_servlet
three = add_glob_servlet (codes "/a/*") (some 3) (
    add_glob_servlet (codes "/a/b*") (some 2)
      (add_servlet (codes "/a/b") (some 1) (new_dispatch 0)))

by_its_name : get_matched_servlet glob (codes "/a/b") three ≡ some 1
unfolding get_matched_servlet three
by_its_name = refl

by_first_pattern : get_matched_servlet glob (codes "/a/c") three ≡ some 2
unfolding get_matched_servlet three
by_first_pattern = refl

by_no_name : dispatch_handle glob (λ s n. s + n) (codes "/b") three 7 ≡ 7
unfolding dispatch_handle three
by_no_name = refl

deleted : get_matched_servlet glob (codes "/a/b") (del_servlet (codes "/a/b") three) ≡ some 2
unfolding get_matched_servlet del_servlet three
deleted = refl

get_matched_servlet-Finds_example :
    Finds glob (codes "/a/c") three (get_matched_servlet glob (codes "/a/c") three)
get_matched_servlet-Finds_example = get_matched_servlet-Finds glob (codes "/a/c") three
