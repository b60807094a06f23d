-- ===== src/Ota/Manager.antt =====
-- sherry/ota_mqtt_manager.cc: the devices of the service; and sherry/ota_command_dispatcher.cc.
pub mod Devices
use ota_new.Common.{
  ℕ, zero, suc, ◌+◌, ◌-◌, List, [], ◌∷◌, Option, none, some, Bool, true, false, not, if◌then◌else◌,
  Text, codes, str_eq, ◌==◌,
}
use ota_new.Ota.Redis.{Redis}
use ota_new.Ota.Notifier.{Timers}
use ota_new.Ota.Device
use ota_new.Ota.Device.{Device, World}
use ota_new.Ota.HttpManager.{Json}

-- `m_devices` by device type, `m_device_counts`, and what the devices share.
pub record Service (S : Type 0) : Type 0 where
  pub devices : List (ℕ × Device)
  pub device_counts : ℕ
  pub timers : Timers
  pub redis_state : S

unfoldable pub find_device : ℕ → List (ℕ × Device) → Option Device
find_device t [] = none
find_device t ((u, d) ∷ ds) = if u == t then some d else find_device t ds

unfoldable pub put_device : ℕ → Device → List (ℕ × Device) → List (ℕ × Device)
put_device t d [] = (t, d) ∷ []
put_device t d ((u, e) ∷ ds) = if u == t then (u, d) ∷ ds else (u, e) ∷ put_device t d ds

unfoldable pub erase_device : ℕ → List (ℕ × Device) → List (ℕ × Device)
erase_device t [] = []
erase_device t ((u, d) ∷ ds) = if u == t then ds else (u, d) ∷ erase_device t ds

-- A new device is not running and has no notifier.
abbrev pub new_device : ℕ → Device
new_device t = record { device_type = t; is_running = false; notifier = none }

module _ {S : Type 0} where
  -- There are at most 2^16 device types, so that the count does not wrap.
  unfoldable pub add_device : ℕ → Service S → Bool × Service S
  unfolding find_device put_device
  add_device t m = elim (find_device t m.devices) [
    | none ↦ (
      true,
      record m {
        devices = put_device t (new_device t) m.devices;
        device_counts = m.device_counts + 1;
      },
    )
    | some d ↦ (false, m)
  ]

  unfoldable pub remove_device : ℕ → Service S → Bool × Service S
  unfolding find_device erase_device
  remove_device t m = elim (find_device t m.devices) [
    | none ↦ (false, m)
    | some d ↦
        (true, record m { devices = erase_device t m.devices; device_counts = m.device_counts - 1 })
  ]

  unfoldable pub check_device : ℕ → Service S → Bool
  unfolding find_device
  check_device t m = elim (find_device t m.devices) [ none ↦ false | some d ↦ true ]

  -- A device's own call, on the device in the map and on what the devices share.
  unfoldable pub on_device : ℕ → (World S → ℕ × World S) → Service S → ℕ × Service S
  unfolding find_device put_device
  on_device t call m = elim (find_device t m.devices) [
    | none ↦ (0, m)
    | some d ↦
        let (ret, w) =
          call (record { device = d; timers = m.timers; redis_state = m.redis_state }) in
        (
          ret,
          record m {
            devices = put_device t w.device m.devices;
            timers = w.timers;
            redis_state = w.redis_state;
          },
        )
  ]

module _ {S : Type 0} (redis : Redis S) (pool : Text) where
  unfoldable pub ota_notify : ℕ → ℕ → Text → ℕ → Text → Text → Service S → ℕ × Service S
  unfolding on_device
  ota_notify id now_ms now device_type name version m =
      on_device device_type (Device.ota_notify redis pool id now_ms now name version) m

  unfoldable pub ota_stop_notify : ℕ → Text → Text → Service S → ℕ × Service S
  unfolding on_device
  ota_stop_notify device_type name version m =
      on_device device_type (Device.ota_stop_notify redis pool name version) m

  module _ {J : Type 0} (json : Json J) where
    -- `handle_notify` and `handle_stop_notify` of the dispatcher: an exception is logged.
    unfoldable pub handle_command :
        (ℕ → Text → Text → Service S → ℕ × Service S) → J → Service S → Service S
    handle_command call j m = elim (json.get_u16 j (codes "device_type")) [
      | none ↦ m
      | some device_type ↦ elim (json.get_text j (codes "name")) [
        | none ↦ m
        | some name ↦ elim (json.get_text j (codes "version")) [
          | none ↦ m
          | some version ↦ (call device_type name version m).1
        ]
      ]
    ]

    unfoldable pub dispatch : ℕ → ℕ → Text → Text → Service S → Service S
    unfolding ota_notify ota_stop_notify handle_command
    dispatch id now_ms now command_json m = elim (json.parse command_json) [
      | none ↦ m
      | some j ↦ elim (json.get_text j (codes "command")) [
        | none ↦ m
        | some command ↦
            if str_eq command (codes "notify")
            then handle_command (ota_notify id now_ms now) j m
            else if str_eq command (codes "stop_notify")
            then handle_command ota_stop_notify j m
            else m
      ]
    ]
