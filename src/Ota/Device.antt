-- ===== src/Ota/Device.antt =====
-- sherry/ota/ota_device.h and sherry/ota/ota_device.cc: the notification of one device type. The MQTT client
-- is left out: of the notifier only its timer is followed.
pub mod Notify
pub mod TimerSet
use ota_new.Common.{
  ℕ, ◌+◌, List, [], ◌∷◌, ◌++◌, Option, none, some, Bool, true, false, not, if◌then◌else◌, Text,
  codes, decimal,
}
use ota_new.Ota.Keys.{get_device_group_mudule_hash}
use ota_new.Ota.Redis
use ota_new.Ota.Redis.{Redis, Reply, get, set, del, cmd, is_bad}
use ota_new.Ota.HttpManager.{text_of}
use ota_new.Ota.Notifier
use ota_new.Ota.Notifier.{Notifier, OtaMessage, Timers, get_notify_message, set_message}

pub record Device : Type 0 where
  pub device_type : ℕ
  pub is_running : Bool
  pub notifier : Option Notifier

unfoldable pub notify_topic : ℕ → Text → Text
notify_topic device_type name =
    codes "/ota/" ++ (decimal device_type ++ (b'/' ∷ (name ++ codes "/notify")))

-- A device, the timers of the service and the state of Redis.
pub record World (S : Type 0) : Type 0 where
  pub device : Device
  pub timers : Timers
  pub redis_state : S

-- `reply->str && reply->str[0] != '\0'`
abbrev pub is_published : Option Text → Bool
is_published none = false
is_published (some []) = false
is_published (some (c ∷ cs)) = true

-- The notifier that is there, or a new one for the topic.
unfoldable pub notifier_for : Text → Option Notifier → Notifier
unfolding Notifier.init
notifier_for topic none = Notifier.init topic 10000
notifier_for topic (some n) = n

module _ {S : Type 0} where
  unfoldable pub stop_notifier : World S → World S
  unfolding Notifier.stop
  stop_notifier w = elim w.device.notifier [
    | none ↦ w
    | some n ↦
        let (n', timers') = Notifier.stop n w.timers in
        record w { device = record w.device { notifier = some n' }; timers = timers' }
  ]

  -- From `set_message` on; `id` is the address of the new timer and `now_ms` the clock.
  unfoldable pub begin_notify : ℕ → ℕ → OtaMessage → Notifier → World S → World S
  unfolding Notifier.start set_message
  begin_notify id now_ms msg n w =
      let (n', timers') = Notifier.start id now_ms (set_message msg n) w.timers in
      record w { device = record w.device { notifier = some n' }; timers = timers' }

module _ {S : Type 0} (redis : Redis S) (pool : Text) where
  -- Another version is published: its timer is stopped. `Cmd` takes the format for the pool's name.
  unfoldable pub withdraw : Text → World S → World S
  unfolding stop_notifier
  withdraw key w =
      let w' = stop_notifier w in
      record w' { redis_state = (cmd redis (codes "DEL %s") (Redis.raw key) w'.redis_state).1 }

  -- From the first publication on.
  unfoldable pub publish : ℕ → ℕ → OtaMessage → Text → Text → World S → ℕ × World S
  unfolding begin_notify notifier_for
  publish id now_ms msg name version w =
      let key = get_device_group_mudule_hash (codes "notify") w.device.device_type name in
      let n = notifier_for (notify_topic w.device.device_type name) w.device.notifier in
      let (reply, s) = cmd redis pool (set key version) w.redis_state in
      if is_bad redis reply
      then (0, record w { device = record w.device { notifier = none }; redis_state = s })
      else (1, begin_notify id now_ms msg n (record w { redis_state = s }))

  unfoldable pub ota_notify : ℕ → ℕ → Text → Text → Text → World S → ℕ × World S
  unfolding get_notify_message withdraw publish
  ota_notify id now_ms now name version w =
      let key = get_device_group_mudule_hash (codes "notify") w.device.device_type name in
      let (found, msg) = get_notify_message w.device.device_type name version now in
      let (reply, s) = cmd redis pool (get key) w.redis_state in
      let w' = record w { redis_state = s } in
      if not found
      then (0, w)
      else if is_bad redis reply
      then (0, w')
      else publish id now_ms msg name version
          (if is_published (text_of reply) then withdraw key w' else w')

  unfoldable pub ota_stop_notify : Text → Text → World S → ℕ × World S
  unfolding stop_notifier
  ota_stop_notify name version w =
      let key = get_device_group_mudule_hash (codes "notify") w.device.device_type name in
      let w' = stop_notifier w in
      let (reply, s) = cmd redis pool (del key) w'.redis_state in
      (if is_bad redis reply then 0 else 1, record w' { redis_state = s })
