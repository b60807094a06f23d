-- ===== src/Ota/HttpManager/Published.antt =====
-- The HTTP side only reads what is published; and its request to stop never gets to Redis.
use ota_new.Common.{
  ℕ, ◌≡◌, ◌≢◌, refl, sym, ◌∙◌, Option, none, some, Bool, true, false, if◌then◌else◌, Bool-cases,
  Option-cases, inl, inr, Text, codes, Without, str_eq,
}
use mathlib.Core.Option.{some-injective}
use ota_new.Ota.Keys.{
  get_device_group_mudule_hash, get_message_queue_hash, get_message_queue_hash-apart,
}
use ota_new.Ota.Http.{Request, Response}
use ota_new.Ota.Redis.{Redis, get, lpush, cmd, is_bad, redis_push_message_queue_by_http}
use ota_new.Ota.Redis.Store.{Store, cmd-frame, get-Keeps}
use ota_new.Ota.Notifier.{get_notify_message}
use ota_new.Ota.HttpManager.{
  Json, text_of, notify_reply, ota_notify, ota_stop_notify, handle_notify, with_target, read_target,
  has_target, set_http_response, is_options,
}

module _ {J S : Type 0} (json : Json J) (redis : Redis S) (pool : Text) (store : Store redis) where
  -- The text under a key is as it was.
  abbrev Same : Text → S → S → Type 0
  Same k s s' = store.lookup k s' ≡ store.lookup k s

  either-Same :
      (k : Text) (s : S) (b : Bool) (x y : ℕ × Response × S)
      → Same k s x.2
      → Same k s y.2
      → Same k s (if b then x else y).2
  either-Same k s true x y p q = p
  either-Same k s false x y p q = q

  push-Same :
      (k command : Text) (rsp : Response) (s : S)
      → k ≢ get_message_queue_hash
      → Same k s
          (redis_push_message_queue_by_http redis pool get_message_queue_hash command rsp s).2
  unfolding redis_push_message_queue_by_http
  push-Same k command rsp s ne =
      cmd-frame store pool (lpush get_message_queue_hash command) k s
        (λ e. ne (sym (some-injective _ _ e)))

  notify_reply-Same :
      (k : Text) (t : ℕ) (n v command : Text) (rsp : Response) (published : Option Text) (s : S)
      → k ≢ get_message_queue_hash
      → Same k s (notify_reply json redis pool t n v command rsp published s).2
  unfolding notify_reply
  notify_reply-Same k t n v command rsp none s ne = push-Same k command rsp s ne
  notify_reply-Same k t n v command rsp (some w) s ne =
      either-Same k s (str_eq w v) _ _ refl (push-Same k command rsp s ne)

  ota_notify-Same :
      (k : Text) (t : ℕ) (n v command now : Text) (rsp : Response) (s : S)
      → k ≢ get_message_queue_hash
      → Same k s (ota_notify json redis pool t n v command now rsp s).2
  unfolding ota_notify get_notify_message
  ota_notify-Same k t n v command now rsp s ne =
      let key = get_device_group_mudule_hash (codes "notify") t n in
      let (reply, s') = cmd redis pool (get key) s in
      either-Same k s (is_bad redis reply) _ _ (get-Keeps store pool key k s)
        (notify_reply-Same k t n v command rsp (text_of reply) s' ne ∙ get-Keeps store pool key k s)

  with_target-Same :
      (k : Text) (call : ℕ → Text → Text → ℕ × Response × S) (req : Request) (rsp : Response)
      (s : S)
      → ((t : ℕ) (n v : Text) → Same k s (call t n v).2)
      → Same k s (with_target json redis pool call req rsp s).2
  unfolding with_target
  with_target-Same k call req rsp s h = elim (Option-cases (json.parse req.body)) [
    | inl bad ↦ rw (bad, with_target) refl
    | inr (j, good) ↦ elim (Bool-cases (has_target json redis pool j)) [
      | inl there ↦ elim (Option-cases (read_target json redis pool j)) [
        | inl typed ↦ rw (good, there, typed, with_target) refl
        | inr ((t, n, v), read) ↦ rw (good, there, read, with_target) (h t n v)
      ]
      | inr missing ↦ rw (good, missing, with_target) refl
    ]
  ]

  -- `handle_notify` changes the published version of no device type and name, whatever the request
  -- is and whatever Redis answers: it only queues a command.
  pub handle_notify-keeps :
      (now : Text) (req : Request) (rsp : Response) (s : S) (task : Text) (group_id : ℕ)
      (name : Text)
      → Without b':' task
      → store.lookup
          (get_device_group_mudule_hash task group_id name)
          (handle_notify json redis pool now req rsp s).2
        ≡ store.lookup (get_device_group_mudule_hash task group_id name) s
  unfolding handle_notify
  handle_notify-keeps now req rsp s task group_id name plain =
      let k = get_device_group_mudule_hash task group_id name in
      either-Same k s (is_options req) _ _ refl (
        with_target-Same k (λ t n v. ota_notify json redis pool t n v req.body now rsp s) req rsp s
          (λ t n v.
            ota_notify-Same k t n v req.body now rsp s
              (get_message_queue_hash-apart task group_id name plain)))

  -- Where no pool is named "GET %s", `ota_stop_notify` answers every request with the status 500
  -- and leaves Redis as it is: the command to stop is never queued.
  pub ota_stop_notify-fails :
      (device_type : ℕ) (name version command : Text) (rsp : Response) (s : S)
      → redis.connects (codes "GET %s") s ≡ false
      → ota_stop_notify json redis pool device_type name version command rsp s
        ≡ (0, set_http_response json redis pool 500 (codes "system error.") rsp, s)
  unfolding ota_stop_notify cmd
  ota_stop_notify-fails device_type name version command rsp s h = rw (h, cmd) refl
