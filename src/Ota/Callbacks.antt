-- ===== src/Ota/Callbacks.antt =====
-- sherry/ota_client_callback.cc, and the callbacks that the constructor in sherry/ota/ota_device.cc registers.
use ota_new.Common.{List, [], ◌∷◌, Option, none, some, if◌then◌else◌, Text, str_eq}
use ota_new.Ota.Redis.{ℤ, Redis, redis_safe_set_key_value}

-- What a callback captures: the pool, the key and the seconds that the payload is kept.
pub record Callback : Type 0 where
  pub redis_pool_name : Text
  pub redis_key : Text
  pub redis_expire_second : ℤ

abbrev pub Callbacks : Type 0
Callbacks = List (Text × Callback)

unfoldable pub regist_callback : Text → Callback → Callbacks → Callbacks
regist_callback topic cb [] = (topic, cb) ∷ []
regist_callback topic cb ((t, c) ∷ m) =
    if str_eq t topic then (t, cb) ∷ m else (t, c) ∷ regist_callback topic cb m

unfoldable pub find_callback : Text → Callbacks → Option Callback
find_callback topic [] = none
find_callback topic ((t, c) ∷ m) = if str_eq t topic then some c else find_callback topic m

-- The loop of the constructor over the topics; `none` is an index past the end of the other two.
unfoldable pub regist_all : Text → List Text → List Text → List ℤ → Callbacks → Option Callbacks
unfolding regist_callback
regist_all pool [] keys seconds m = some m
regist_all pool (t ∷ topics) [] seconds m = none
regist_all pool (t ∷ topics) (k ∷ keys) [] m = none
regist_all pool (t ∷ topics) (k ∷ keys) (n ∷ seconds) m = regist_all pool topics keys seconds (
    regist_callback t (record { redis_pool_name = pool; redis_key = k; redis_expire_second = n }) m)

module _ {S : Type 0} (redis : Redis S) where
  unfoldable pub on_message : Text → Text → Callbacks → S → S
  unfolding find_callback
  on_message topic payload m s = elim (find_callback topic m) [
    | none ↦ s
    | some cb ↦
        (redis_safe_set_key_value redis cb.redis_pool_name cb.redis_key payload
          cb.redis_expire_second s).1
  ]
