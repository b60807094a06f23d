-- ===== src/Ota/Notifier.antt =====
-- sherry/ota_notifier.h and sherry/ota_notifier.cc: the message of an update, and the timer that publishes it.
use ota_new.Common.{ℕ, Option, none, some, Bool, true, Text, codes}
use ota_new.Timer
use ota_new.Timer.{TimerManager}

pub record OtaMessage : Type 0 where
  pub name : Text
  pub version : Text
  pub time : Text
  pub file_name : Text
  pub file_size : ℕ
  pub url_path : Text
  pub md5_value : Text
  pub launch_mode : ℕ
  pub upgrade_mode : ℕ

-- `get_notify_message`; `now` is `getCurrentTimeString`.
unfoldable pub get_notify_message : ℕ → Text → Text → Text → Bool × OtaMessage
get_notify_message device_type name version now = (
  true,
  record {
    name = name;
    version = version;
    time = now;
    file_name = codes "agsspds_20241110.zip";
    file_size = 6773120;
    url_path = codes "http://127.0.0.1:18882/download/ota/agsspds";
    md5_value = codes "ed076287532e86365e841e92bfc50d8c";
    launch_mode = 0;
    upgrade_mode = 1;
  },
)

-- `m_timer` is the id of the timer. Its callback is the topic that it publishes to: the callback
-- reads the message when it runs.
pub record Notifier : Type 0 where
  pub topic : Text
  pub interval_ms : ℕ
  pub msg : Option OtaMessage
  pub timer : Option ℕ

abbrev pub Timers : Type 0
Timers = TimerManager Text

unfoldable pub init : Text → ℕ → Notifier
init topic interval_ms = record {
  topic = topic;
  interval_ms = interval_ms;
  msg = none;
  timer = none;
}

unfoldable pub set_message : OtaMessage → Notifier → Notifier
set_message msg n = record n { msg = some msg }

-- `id` is the address of the new timer, `now` the clock.
unfoldable pub start : ℕ → ℕ → Notifier → Timers → Notifier × Timers
start id now n timers =
    let (_, timers') = Timer.add_timer id n.interval_ms n.topic true now timers in
    (record n { timer = some id }, timers')

unfoldable pub stop : Notifier → Timers → Notifier × Timers
stop n timers = elim n.timer [
  | none ↦ (n, timers)
  | some i ↦ (record n { timer = none }, (Timer.cancel i timers).1)
]
