-- ===== src/Ota/HttpManager.antt =====
-- sherry/ota_http_manager.cc: the handlers of the HTTP routes. The JSON library, the file system and the
-- Redis server are parameters.
pub mod Published
use ota_new.Common.{
  ℕ, zero, suc, ◌+◌, ◌-◌, ◌*◌, ◌%◌, ◌^◌, List, [], ◌∷◌, ◌++◌, Option, none, some, Bool, true, false,
  ◌&&◌, not, if◌then◌else◌, Text, codes, decimal, str_eq, ◌==◌, leb, ltb, drop, length,
}
use ota_new.Ota.Keys.{get_device_group_mudule_hash, get_message_queue_hash}
use ota_new.Ota.Http.{
  Request, Response, Method, options_method, other_method, set_status, set_body, set_header,
  set_close, set_is_sending,
}
use ota_new.Ota.Redis
use ota_new.Ota.Redis.{
  ℤ, pos, negsuc, Redis, Reply, string, array, integer, nil, status, error, get, cmd, is_bad,
  redis_query_by_http, redis_push_message_queue_by_http,
}
use ota_new.Ota.Notifier.{get_notify_message}

infixl 5 ◌>>=◌
abbrev ◌>>=◌ {ℓ κ} : {A : Type ℓ} {B : Type κ} → Option A → (A → Option B) → Option B
◌>>=◌ none f = none
◌>>=◌ (some a) f = f a

-- nlohmann::json: `none` is an exception. `dump_msg` is the text of an object with the field "msg".
pub record Json (J : Type 0) : Type 0 where
  pub parse : Text → Option J
  pub contains : J → Text → Bool
  pub get_u16 : J → Text → Option ℕ
  pub get_text : J → Text → Option Text
  pub dump_msg : Text → Text

unfoldable pub set_options : Response → Response
unfolding set_status set_header
set_options rsp = set_header (codes "Access-Control-Allow-Headers") (codes "Content-Type") (
    set_header (codes "Access-Control-Allow-Methods") (codes "POST, GET, OPTIONS")
      (set_header (codes "Access-Control-Allow-Origin") (codes "*") (set_status 200 rsp)))

unfoldable pub refuse : Text → Response → Response
unfolding set_status set_body
refuse why rsp = set_status 400 (set_body why rsp)

abbrev pub missing_fields : Response → Response
missing_fields rsp = refuse (codes "request error: missing required fields") rsp

abbrev pub invalid_json : Response → Response
invalid_json rsp = refuse (codes "request error: invalid JSON") rsp

abbrev pub is_options : Request → Bool
is_options req = elim req.method [ options_method ↦ true | other_method ↦ false ]

-- `reply->type == REDIS_REPLY_STRING && reply->str`, of a reply that is there.
abbrev pub text_of : Option Reply → Option Text
text_of (some (string v)) = some v
text_of r = none

module _ {J S : Type 0} (json : Json J) (redis : Redis S) (pool : Text) where
  unfoldable pub set_http_response : ℕ → Text → Response → Response
  unfolding set_status set_body
  set_http_response code msg rsp = set_status code (set_body (json.dump_msg msg) rsp)

  abbrev pub Answer : Type 0
  Answer = ℕ × Response × S

  describe : ℕ → Text → Text → Text → Text
  describe device_type name version rest =
      codes "device_type = "
      ++ (decimal device_type
          ++ (codes ", name = " ++ (name ++ (codes ", version = " ++ (version ++ rest)))))

  -- From the check of the version in the reply on.
  unfoldable pub notify_reply : ℕ → Text → Text → Text → Response → Option Text → S → Answer
  unfolding describe set_http_response get_message_queue_hash
  notify_reply device_type name version command rsp published s =
      if elim published [ none ↦ false | some v ↦ str_eq v version ]
      then (
        1,
        set_http_response 200 (describe device_type name version (codes ", has been published."))
            rsp,
        s,
      )
      else redis_push_message_queue_by_http redis pool get_message_queue_hash command rsp s

  unfoldable pub ota_notify : ℕ → Text → Text → Text → Text → Response → S → Answer
  unfolding get_notify_message set_http_response notify_reply
  ota_notify device_type name version command now rsp s =
      if not (get_notify_message device_type name version now).0
      then (0, set_http_response 404 (codes "get notify message error") rsp, s)
      else (let (reply, s') =
            cmd redis pool (get (get_device_group_mudule_hash (codes "notify") device_type name))
              s in
          if is_bad redis reply
          then (0, set_http_response 500 (codes "system error.") rsp, s')
          else notify_reply device_type name version command rsp (text_of reply) s')

  -- The three fields of a command, which are converted before the call.
  unfoldable pub read_target : J → Option (ℕ × Text × Text)
  read_target j = do
    device_type ← json.get_u16 j (codes "device_type")
    name ← json.get_text j (codes "name")
    version ← json.get_text j (codes "version")
    some (device_type, name, version)

  unfoldable pub has_target : J → Bool
  has_target j =
      json.contains j (codes "device_type")
      && json.contains j (codes "version")
      && json.contains j (codes "name")

  -- The `try` block that `handle_notify` and `handle_stop_notify` share around their own call.
  unfoldable pub with_target : (ℕ → Text → Text → Answer) → Request → Response → S → Answer
  unfolding read_target has_target refuse
  with_target call req rsp s = elim (json.parse req.body) [
    | none ↦ (0, invalid_json rsp, s)
    | some j ↦ if not (has_target j) then (0, missing_fields rsp, s) else elim (read_target j) [
      | none ↦ (0, invalid_json rsp, s)
      | some (device_type, name, version) ↦ call device_type name version
    ]
  ]

  unfoldable pub handle_notify : Text → Request → Response → S → Answer
  unfolding with_target ota_notify set_options
  handle_notify now req rsp s =
      if is_options req
      then (0, set_options rsp, s)
      else with_target (λ t n v. ota_notify t n v req.body now rsp s) req rsp s

  -- From the check of the version in the reply on.
  unfoldable pub stop_reply : ℕ → Text → Text → Text → Response → Option Text → S → Answer
  unfolding set_http_response get_message_queue_hash
  stop_reply device_type name version command rsp published s = elim published [
    | none ↦ (0, set_http_response 500 (codes "unknown error.") rsp, s)
    | some v ↦
        if not (str_eq v version)
        then (
          0,
          set_http_response 204
              (codes "device_type = "
                ++ (decimal device_type
                    ++ (codes ", name = "
                        ++ (name
                            ++ (codes ", current version = "
                                ++ (v ++ (codes ", need-stoping version = " ++ version)))))))
              rsp,
          s,
        )
        else redis_push_message_queue_by_http redis pool get_message_queue_hash command rsp s
  ]

  -- The call of `Cmd` has no pool name: the format is taken for it, and the key for the format.
  unfoldable pub ota_stop_notify : ℕ → Text → Text → Text → Response → S → Answer
  unfolding set_http_response stop_reply
  ota_stop_notify device_type name version command rsp s =
      let key = get_device_group_mudule_hash (codes "stop_notify") device_type name in
      let (reply, s') = cmd redis (codes "GET %s") (Redis.raw key) s in
      if is_bad redis reply
      then (0, set_http_response 500 (codes "system error.") rsp, s')
      else stop_reply device_type name version command rsp (text_of reply) s'

  unfoldable pub handle_stop_notify : Request → Response → S → Answer
  unfolding with_target ota_stop_notify set_options
  handle_stop_notify req rsp s =
      if is_options req
      then (0, set_options rsp, s)
      else with_target (λ t n v. ota_stop_notify t n v req.body rsp s) req rsp s
