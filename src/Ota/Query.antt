-- ===== src/Ota/Query.antt =====
-- sherry/ota_http_manager.cc: `handle_query`, `handle_query_download`, `handle_ota_page` and `set_ota_html`.
pub mod Stored
use ota_new.Common.{
  ℕ, zero, suc, List, [], ◌∷◌, Option, none, some, Bool, true, false, ◌&&◌, not, if◌then◌else◌,
  Text, codes,
}
use ota_new.Ota.Keys.{get_device_group_mudule_hash}
use ota_new.Ota.Http.{Request, Response, set_status, set_body, set_header}
use ota_new.Ota.Redis.{ℤ, pos, negsuc, Redis, redis_query_by_http}
use ota_new.Ota.HttpManager.{Json, set_options, missing_fields, invalid_json, is_options}

module _ {J S : Type 0} (json : Json J) (redis : Redis S) (pool : Text) where
  abbrev pub QueryAnswer : Type 0
  QueryAnswer = ℤ × Response × S

  -- `ret == -1`: nothing is stored.
  abbrev pub with_absent : Text → ℤ → Response → Response
  with_absent absent (pos n) rsp = rsp
  with_absent absent (negsuc zero) rsp = set_body absent rsp
  with_absent absent (negsuc (suc n)) rsp = rsp

  -- What the two handlers do with a device type and a name: the body where nothing is stored, and
  -- what is done to the answer in the end.
  unfoldable pub query_target :
      Text → Text → (Response → Response) → ℕ → Text → Response → S → QueryAnswer
  unfolding set_body
  query_target task absent finish device_type name rsp s =
      let (ret, rsp', s') =
        redis_query_by_http redis pool (get_device_group_mudule_hash task device_type name) rsp s in
      (ret, finish (with_absent absent ret rsp'), s')

  -- The `try` block.
  unfoldable pub with_device : (ℕ → Text → QueryAnswer) → Request → Response → S → QueryAnswer
  with_device call req rsp s = elim (json.parse req.body) [
    | none ↦ (pos 0, invalid_json rsp, s)
    | some j ↦
        if not (json.contains j (codes "device_type") && json.contains j (codes "name"))
        then (pos 0, missing_fields rsp, s)
        else elim (json.get_u16 j (codes "device_type")) [
          | none ↦ (pos 0, invalid_json rsp, s)
          | some device_type ↦ elim (json.get_text j (codes "name")) [
            | none ↦ (pos 0, invalid_json rsp, s)
            | some name ↦ call device_type name
          ]
        ]
  ]

  unfoldable pub handle_query : Request → Response → S → QueryAnswer
  unfolding with_device query_target set_header
  handle_query req rsp s =
      if is_options req
      then (pos 0, set_options rsp, s)
      else with_device
          (λ t n.
            query_target (codes "query") (codes "device not exists.")
              (set_header (codes "Content-Type") (codes "application/json")) t n rsp s)
          req rsp s

  unfoldable pub handle_query_download : Request → Response → S → QueryAnswer
  unfolding with_device query_target
  handle_query_download req rsp s =
      if is_options req
      then (pos 0, set_options rsp, s)
      else with_device
          (λ t n.
            query_target (codes "query_download") (codes "device is not downloading.") (λ r. r) t n
              rsp s)
          req rsp s

-- `page` is `m_ota_html_content`, which `set_ota_html` replaces.
unfoldable pub handle_ota_page : Text → Request → Response → ℕ × Response
unfolding set_status set_body set_header
handle_ota_page page req rsp = if is_options req then (0, set_options rsp) else elim page [
  | [] ↦ (0, set_body (codes "OTA page not available") (set_status 404 rsp))
  | c ∷ cs ↦ (
    0,
    set_body (c ∷ cs) (set_header (codes "Content-Type") (codes "text/html") (set_status 200 rsp)),
  )
]

unfoldable pub set_ota_html : Text → Text → Text
set_ota_html html page = html
