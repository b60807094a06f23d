-- ===== src/Ota/Redis.antt =====
-- sherry/db/redis_util.cc and `RedisUtil::Cmd` of sherry/db/redis.cc. The connection pool and the server
-- behind hiredis are the parameter `Redis`; their state is `S`.
pub mod Store
use ota_new.Common.{
  ℕ, zero, suc, ◌+◌, List, [], ◌∷◌, Option, none, some, Bool, true, false, if◌then◌else◌, Text,
  codes, ltb, ◌==◌,
}
use ota_new.Ota.Http.{Response, set_status, set_body}

-- A C `int`: a return code, or a number of seconds.
pub data ℤ : Type 0 where
  pos negsuc : ℕ → ℤ

abbrev pub is_positive : ℤ → Bool
is_positive (pos n) = ltb 0 n
is_positive (negsuc n) = false

-- The commands that the code formats; `raw` is a format without arguments.
pub data Command : Type 0 where
  get : Text → Command
  set : Text → Text → Command
  set_ex : Text → Text → ℤ → Command
  del : Text → Command
  exists : Text → Command
  expire : Text → ℤ → Command
  lpush : Text → Text → Command
  brpop : Text → Command
  raw : Text → Command

-- `redisReply`: its type, with what the code reads of it. Of an array the code reads the number of
-- elements and the text of an element, where that is a string.
pub data Reply : Type 0 where
  string : Text → Reply
  array : List (Option Text) → Reply
  integer : ℤ → Reply
  nil : Reply
  status : Text → Reply
  error : Text → Reply

-- `RedisMgr` hands out a connection of a pool or a null pointer; `rds->cmd` replies or gives null.
pub record Redis (S : Type 0) : Type 0 where
  pub connects : Text → S → Bool
  pub send : Text → Command → S → Option Reply × S

module _ {S : Type 0} (redis : Redis S) where
  -- `RedisUtil::Cmd`
  unfoldable pub cmd : Text → Command → S → Option Reply × S
  cmd name c s = if redis.connects name s then redis.send name c s else (none, s)

  -- `!reply || reply->type == REDIS_REPLY_ERROR`
  abbrev pub is_bad : Option Reply → Bool
  is_bad none = true
  is_bad (some (error e)) = true
  is_bad (some r) = false

  unfoldable pub redis_set_key_value : Text → Text → Text → ℤ → S → ℕ × S
  unfolding cmd
  redis_set_key_value pool_name key value expire_seconds s =
      let c =
        if is_positive expire_seconds then set_ex key value expire_seconds else set key value in
      let (reply, s') = cmd pool_name c s in (if is_bad reply then 0 else 1, s')

  abbrev deleted : Option Reply → ℕ
  deleted (some (integer n)) = if is_positive n then 1 else 0
  deleted r = 0

  unfoldable pub redis_del_key : Text → Text → S → ℕ × S
  unfolding cmd
  redis_del_key pool_name key s = let (reply, s') = cmd pool_name (del key) s in (deleted reply, s')

  unfoldable pub redis_reset_value : Text → Text → Text → ℤ → S → ℕ × S
  unfolding redis_del_key redis_set_key_value
  redis_reset_value pool_name key value expire_seconds s =
      let (gone, s') = redis_del_key pool_name key s in
      redis_set_key_value pool_name key value expire_seconds s'

  abbrev pub got : Option Reply → Option Text
  got (some (string v)) = some v
  got r = none

  -- The value, where the call returns 1.
  unfoldable pub redis_get_key_value : Text → Text → S → Option Text × S
  unfolding cmd
  redis_get_key_value pool_name key s =
      let (reply, s') = cmd pool_name (get key) s in (got reply, s')

  unfoldable pub redis_key_exists : Text → Text → S → ℕ × S
  unfolding cmd
  redis_key_exists pool_name key s =
      let (reply, s') = cmd pool_name (exists key) s in (deleted reply, s')

  abbrev expires : Option Reply → ℕ
  expires (some (integer (pos n))) = if n == 1 then 1 else 0
  expires r = 0

  unfoldable pub redis_set_expire : Text → Text → ℤ → S → ℕ × S
  unfolding cmd
  redis_set_expire pool_name key expire_seconds s =
      let (reply, s') = cmd pool_name (expire key expire_seconds) s in (expires reply, s')

  abbrev pub answer_query : Option Reply → Response → ℤ × Response
  answer_query none rsp = (pos 0, set_status 500 rsp)
  answer_query (some (string v)) rsp = (pos 1, set_body v (set_status 200 rsp))
  answer_query (some nil) rsp = (negsuc 0, set_status 200 rsp)
  answer_query (some (error e)) rsp = (pos 0, set_status 500 rsp)
  answer_query (some r) rsp = (pos 0, rsp)

  unfoldable pub redis_query_by_http : Text → Text → Response → S → ℤ × Response × S
  unfolding cmd
  redis_query_by_http pool_name key rsp s =
      let (reply, s') = cmd pool_name (get key) s in
      let (ret, rsp') = answer_query reply rsp in (ret, rsp', s')

  abbrev answer_push : Option Reply → Response → ℕ × Response
  answer_push (some (integer n)) rsp =
      (1, set_body (codes "task submits successfully.") (set_status 200 rsp))
  answer_push r rsp = (0, set_status 500 rsp)

  unfoldable pub redis_push_message_queue_by_http :
      Text → Text → Text → Response → S → ℕ × Response × S
  unfolding cmd
  redis_push_message_queue_by_http pool_name key value rsp s =
      let (reply, s') = cmd pool_name (lpush key value) s in
      let (ret, rsp') = answer_push reply rsp in (ret, rsp', s')

  unfoldable pub redis_safe_set_key_value : Text → Text → Text → ℤ → S → ℕ × S
  unfolding redis_key_exists redis_reset_value redis_set_key_value
  redis_safe_set_key_value pool_name key value expire_seconds s =
      let (found, s') = redis_key_exists pool_name key s in
      if found == 1
      then redis_reset_value pool_name key value expire_seconds s'
      else redis_set_key_value pool_name key value expire_seconds s'
