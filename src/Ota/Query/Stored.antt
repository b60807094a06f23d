-- ===== src/Ota/Query/Stored.antt =====
-- What a query answers is what is stored.
use ota_new.Common.{ℕ, ◌≡◌, refl, sym, ap, ◌∙◌, Option, none, some, Text}
use ota_new.Ota.Keys.{get_device_group_mudule_hash}
use ota_new.Ota.Http.{Response, set_status, set_body}
use ota_new.Ota.Redis.{
  ℤ, pos, Redis, Reply, string, array, integer, nil, status, error, get, cmd, answer_query,
  redis_query_by_http,
}
use ota_new.Ota.Redis.Store.{Store, cmd-get, get-Keeps}
use ota_new.Ota.HttpManager.{Json}
use ota_new.Ota.Query.{query_target, with_absent}

module _ {J S : Type 0} (json : Json J) (redis : Redis S) (pool : Text) (store : Store redis) where
  answer_query-string :
      (r : Option Reply) (rsp : Response)
      → (answer_query redis r rsp).0 ≡ pos 1
      → r ≡ some (string (answer_query redis r rsp).1.body)
  unfolding set_status set_body
  answer_query-string none rsp e = cc
  answer_query-string (some (string v)) rsp e = refl
  answer_query-string (some nil) rsp e = cc
  answer_query-string (some (error t)) rsp e = cc
  answer_query-string (some (array a)) rsp e = cc
  answer_query-string (some (integer n)) rsp e = cc
  answer_query-string (some (status t)) rsp e = cc

  -- A query that returns 1 answers with the text that is stored for the task, the device type and
  -- the name, and leaves what is stored under every key as it was; `finish` stands for the header
  -- that a handler adds, which leaves the body.
  pub query_target-stored :
      (task absent : Text) (finish : Response → Response) (device_type : ℕ) (name : Text)
      (rsp : Response) (s : S) (k : Text)
      → ((r : Response) → (finish r).body ≡ r.body)
      → (query_target json redis pool task absent finish device_type name rsp s).0 ≡ pos 1
      → let (ret, rsp', s') =
          query_target json redis pool task absent finish device_type name rsp s in
        (store.lookup (get_device_group_mudule_hash task device_type name) s ≡ some rsp'.body)
        × (store.lookup k s' ≡ store.lookup k s)
  unfolding query_target redis_query_by_http
  query_target-stored task absent finish device_type name rsp s k plain one =
      let key = get_device_group_mudule_hash task device_type name in
      (
        cmd-get store pool key _ s (answer_query-string (cmd redis pool (get key) s).0 rsp one)
            ∙ ap some (
                sym (
                  plain _
                  ∙ ap
                      (λ (x : ℤ).
                        (with_absent json redis pool absent x
                          (redis_query_by_http redis pool key rsp s).1).body)
                      one)),
        get-Keeps store pool key k s,
      )
