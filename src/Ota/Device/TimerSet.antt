-- ===== src/Ota/Device/TimerSet.antt =====
-- What a device does to the timers of the service.
use ota_new.Common.{
  ℕ, ◌≡◌, refl, none, some, Bool, true, false, if◌then◌else◌, Bool-cases, Option-cases, inl, inr,
  Text, codes, subst,
}
use ota_new.Timer.Order.{IsValid, Fresh, add_timer-IsValid, cancel-IsValid}
use ota_new.Timer.Presence.{cancel-Fresh, cancel-Fresh_back, add_timer-Fresh_back}
use ota_new.Ota.HttpManager.{text_of}
use ota_new.Timer.Waits.{cancel-twice}
use ota_new.Ota.Keys.{get_device_group_mudule_hash}
use ota_new.Ota.Redis.{Redis, set, cmd, is_bad}
use ota_new.Ota.Redis.Store.{Store}
use ota_new.Ota.Notifier
use ota_new.Ota.Notifier.{Notifier, OtaMessage, Timers, get_notify_message, set_message}
use ota_new.Ota.Device.{
  World, stop_notifier, notifier_for, begin_notify, withdraw, publish, is_published, notify_topic,
  ota_notify, ota_stop_notify,
}
use ota_new.Ota.Device.Notify.{asked, before}

module _ {S : Type 0} (redis : Redis S) (pool : Text) (store : Store redis) where
  start-IsValid :
      (id now_ms : ℕ) (n : Notifier) {timers : Timers}
      → IsValid timers
      → Fresh id timers.timers
      → IsValid (Notifier.start id now_ms n timers).1
  unfolding Notifier.start
  start-IsValid id now_ms n v f = add_timer-IsValid id n.interval_ms n.topic true now_ms v f

  -- The timers in order, and the address free.
  abbrev Ready : ℕ → World S → Type 0
  Ready id w = IsValid w.timers × Fresh id w.timers.timers

  publish-IsValid :
      (id now_ms : ℕ) (msg : OtaMessage) (name version : Text) (w : World S)
      → Ready id w
      → IsValid (publish redis pool id now_ms msg name version w).1.timers
  unfolding publish begin_notify
  publish-IsValid id now_ms msg name version w (v, f) =
      elim (Bool-cases (
        is_bad redis
          (cmd redis pool
            (set (get_device_group_mudule_hash (codes "notify") w.device.device_type name) version)
            w.redis_state).0)) [
              | inl bad ↦ rw (bad, publish) v
              | inr good ↦
                  rw (good, publish)
                    (start-IsValid id now_ms
                      (set_message msg
                        (notifier_for (notify_topic w.device.device_type name) w.device.notifier))
                      v f)
            ]

  stop-Ready :
      (id : ℕ) (n : Notifier) (timers : Timers)
      → IsValid timers
      → Fresh id timers.timers
      → IsValid (Notifier.stop n timers).1 × Fresh id (Notifier.stop n timers).1.timers
  unfolding Notifier.stop
  stop-Ready id n timers v f = elim (Option-cases n.timer) [
    | inl idle ↦ rw (idle, Notifier.stop) (v, f)
    | inr (i, on) ↦ rw (on, Notifier.stop) (cancel-IsValid i v, cancel-Fresh id i timers f)
  ]

  stop_notifier-Ready : (id : ℕ) (w : World S) → Ready id w → Ready id (stop_notifier w)
  unfolding stop_notifier
  stop_notifier-Ready id w (v, f) = elim (Option-cases w.device.notifier) [
    | inl idle ↦ rw (idle, stop_notifier) (v, f)
    | inr (n, held) ↦ rw (held, stop_notifier) (stop-Ready id n w.timers v f)
  ]

  either-Ready :
      (id : ℕ) (b : Bool) (x y : World S) → Ready id x → Ready id y → Ready id (if b then x else y)
  either-Ready id true x y p q = p
  either-Ready id false x y p q = q

  -- A notification keeps the timers of the service ordered and without duplicates, on each branch,
  -- where its new timer is at an address that no timer has.
  pub ota_notify-IsValid :
      (id now_ms : ℕ) (now name version : Text) (w : World S)
      → IsValid w.timers
      → Fresh id w.timers.timers
      → IsValid (ota_notify redis pool id now_ms now name version w).1.timers
  unfolding ota_notify get_notify_message withdraw
  ota_notify-IsValid id now_ms now name version w v f =
      elim (Bool-cases (is_bad redis (asked redis pool store name w).0)) [
        | inl bad ↦ rw (bad, ota_notify) v
        | inr good ↦
            rw (good, ota_notify)
              (publish-IsValid id now_ms
                (get_notify_message w.device.device_type name version now).1 name version
                (before redis pool store name w)
                (either-Ready id (is_published (text_of (asked redis pool store name w).0)) _ _
                  (stop_notifier-Ready id _ (v, f)) (v, f)))
      ]

  -- After `ota_stop_notify` the timer that the device's notifier held is not in the set, whatever
  -- Redis answers.
  pub ota_stop_notify-stops :
      (name version : Text) (w : World S) (n : Notifier) (i : ℕ)
      → IsValid w.timers
      → w.device.notifier ≡ some n
      → n.timer ≡ some i
      → Fresh i (ota_stop_notify redis pool name version w).1.timers.timers
  unfolding ota_stop_notify stop_notifier Notifier.stop
  ota_stop_notify-stops name version w n i v held on = rw (held, on) (cancel-twice i w.timers v).0

  -- `start` on a notifier whose timer is in the set leaves that timer there, and a `stop` after
  -- it takes out the new one only: nothing holds the first timer any more.
  pub start-leaks :
      (id now_ms i : ℕ) (n : Notifier) (timers : Timers)
      → IsValid timers
      → Fresh id timers.timers
      → n.timer ≡ some i
      → ¬ Fresh i timers.timers
      → let (n', timers') = Notifier.start id now_ms n timers in
        let (n'', timers'') = Notifier.stop n' timers' in
        (n''.timer ≡ none) × (¬ Fresh i timers''.timers)
  unfolding Notifier.start Notifier.stop
  start-leaks id now_ms i n timers v f on here = (
    refl,
    λ gone. here (
        add_timer-Fresh_back i id n.interval_ms n.topic true now_ms timers (
          cancel-Fresh_back i id _ (λ e. here (subst (λ (k : ℕ). Fresh k timers.timers) e f))
            gone)),
  )
