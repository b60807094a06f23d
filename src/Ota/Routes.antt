-- ===== src/Ota/Routes.antt =====
-- `OTAHttpManager::register_routes` of sherry/ota_http_manager.cc, and which handler a path comes to.
use ota_new.Common.{
  ◌≡◌, refl, Option, none, some, Bool, true, false, if◌then◌else◌, Text, codes, str_eq,
}
use ota_new.Servlet.{Dispatch, new_dispatch, add_servlet, add_glob_servlet, get_matched_servlet}

-- The handlers that are registered, and the servlet for what is not found.
pub data Handler : Type 0 where
  handle_notify handle_query handle_query_download handle_file_download handle_ota_page not_found :
      Handler

unfoldable pub register_routes : Dispatch Handler → Dispatch Handler
unfolding add_servlet add_glob_servlet
register_routes d = add_servlet (codes "/ota/") (some handle_ota_page) (
    add_glob_servlet (codes "/ota/file_download/*") (some handle_file_download) (
      add_servlet (codes "/ota/query_download") (some handle_query_download) (
        add_servlet (codes "/ota/query") (some handle_query)
          (add_servlet (codes "/ota/notify") (some handle_notify) d))))

-- The routes as a table.
abbrev pub route : (Text → Text → Bool) → Text → Handler
route fnmatch path =
    if str_eq (codes "/ota/notify") path
    then handle_notify
    else if str_eq (codes "/ota/query") path
    then handle_query
    else if str_eq (codes "/ota/query_download") path
    then handle_query_download
    else if str_eq (codes "/ota/") path
    then handle_ota_page
    else if fnmatch (codes "/ota/file_download/*") path
    then handle_file_download
    else not_found

module _ (fnmatch : Text → Text → Bool) (path : Text) where
  table :
      (a b c d e : Bool)
      → elim (if a
            then some (some handle_notify)
            else if b
            then some (some handle_query)
            else if c
            then some (some handle_query_download)
            else if d
            then some (some handle_ota_page)
            else none)
          as (λ x. Option Handler) [
            | some x ↦ x
            | none ↦ if e then some handle_file_download else some not_found
          ]
        ≡ some (
            if a
            then handle_notify
            else if b
            then handle_query
            else if c
            then handle_query_download
            else if d
            then handle_ota_page
            else if e
            then handle_file_download
            else not_found)
  table true b c d e = refl
  table false true c d e = refl
  table false false true d e = refl
  table false false false true e = refl
  table false false false false true = refl
  table false false false false false = refl

  -- The routes that the service registers on a new dispatch answer every path as the table says: there are
  -- handlers for five of them, and everything else, the stopping of a notifier as well, is not found.
  pub register_routes-route :
      get_matched_servlet fnmatch path (register_routes (new_dispatch not_found))
      ≡ some (route fnmatch path)
  unfolding register_routes get_matched_servlet new_dispatch
  register_routes-route =
      table (str_eq (codes "/ota/notify") path) (str_eq (codes "/ota/query") path)
        (str_eq (codes "/ota/query_download") path) (str_eq (codes "/ota/") path)
        (fnmatch (codes "/ota/file_download/*") path)
