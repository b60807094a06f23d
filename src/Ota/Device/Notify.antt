-- ===== src/Ota/Device/Notify.antt =====
-- What a notification leaves: the message, its timer and the published version.
use ota_new.Common.{
  ℕ, ◌+◌, ◌%◌, ◌^◌, ◌≡◌, refl, Option, some, Bool, true, false, if◌then◌else◌, Bool-cases,
  Option-cases, inl, inr, Text, codes, arith, subst,
}
use ota_new.Ota.HttpManager.{text_of}
use ota_new.Ota.Keys.{get_device_group_mudule_hash}
use ota_new.Ota.Redis.{Redis, Reply, get, set, cmd, is_bad}
use ota_new.Ota.Redis.Store.{Store, cmd-Writes}
use ota_new.Timer.{find}
use ota_new.Timer.Order.{Fresh}
use ota_new.Timer.Presence.{cancel-Fresh, add_timer-find}
use ota_new.Ota.Notifier
use ota_new.Ota.Notifier.{Notifier, OtaMessage, get_notify_message, set_message}
use ota_new.Ota.Device.{
  World, notifier_for, notify_topic, stop_notifier, begin_notify, withdraw, publish, is_published,
  ota_notify,
}

module _ {S : Type 0} (redis : Redis S) (pool : Text) (store : Store redis) where
  -- What a notification that returned 1 has set up.
  pub record Notifies (id now_ms device_type : ℕ) (name version : Text) (w : World S) : Type 0 where
    pub notifier : Notifier
    pub held : w.device.notifier ≡ some notifier
    pub msg : OtaMessage
    pub message : notifier.msg ≡ some msg
    pub named : (msg.name ≡ name) × (msg.version ≡ version)
    pub timer : notifier.timer ≡ some id
    pub registered :
        find id w.timers.timers
        ≡ some (record {
          id = id;
          recurring = true;
          ms = notifier.interval_ms;
          next = (now_ms + notifier.interval_ms) % 2 ^ 64;
          cb = notifier.topic;
        })
    pub published :
        store.lookup (get_device_group_mudule_hash (codes "notify") device_type name) w.redis_state
        ≡ some version

  start-find :
      (id now_ms : ℕ) (msg : OtaMessage) (name : Text) (w : World S)
      → Fresh id w.timers.timers
      → let n =
          set_message msg
            (notifier_for (notify_topic w.device.device_type name) w.device.notifier) in
        find id (Notifier.start id now_ms n w.timers).1.timers
        ≡ some (record {
          id = id;
          recurring = true;
          ms = n.interval_ms;
          next = (now_ms + n.interval_ms) % 2 ^ 64;
          cb = n.topic;
        })
  unfolding Notifier.start
  start-find id now_ms msg name w f =
      let n =
        set_message msg (notifier_for (notify_topic w.device.device_type name) w.device.notifier) in
      add_timer-find id n.interval_ms n.topic true now_ms w.timers f

  publish-Notifies :
      (id now_ms t : ℕ) (msg : OtaMessage) (name version : Text) (w : World S)
      → w.device.device_type ≡ t
      → Fresh id w.timers.timers
      → (msg.name ≡ name) × (msg.version ≡ version)
      → (publish redis pool id now_ms msg name version w).0 ≡ 1
      → Notifies id now_ms t name version (publish redis pool id now_ms msg name version w).1
  unfolding publish
  publish-Notifies id now_ms t msg name version w same free named =
      elim (Bool-cases (
        is_bad redis
          (cmd redis pool
            (set (get_device_group_mudule_hash (codes "notify") w.device.device_type name) version)
            w.redis_state).0)) [
              | inl bad ↦ rw (bad, publish) (λ e. absurd (omega arith))
              | inr good ↦
                  rw (good, publish)
                    (λ e. record {
                      notifier = _;
                      held = unfold begin_notify in refl;
                      msg = msg;
                      message = refl;
                      named = named;
                      timer = refl;
                      registered = start-find id now_ms msg name w free;
                      published =
                          subst
                            (λ (u : ℕ).
                              store.lookup (get_device_group_mudule_hash (codes "notify") u name)
                                (cmd redis pool
                                  (set
                                    (get_device_group_mudule_hash (codes "notify")
                                      w.device.device_type name)
                                    version)
                                  w.redis_state).1
                              ≡ some version)
                            same
                            (cmd-Writes store pool
                              (get_device_group_mudule_hash (codes "notify") w.device.device_type
                                name)
                              version _ w.redis_state
                              (λ pool_name s. store.set_done pool_name _ version s) good);
                    })
            ]

  abbrev key_of : Text → World S → Text
  key_of name w = get_device_group_mudule_hash (codes "notify") w.device.device_type name

  -- What Redis says of the version that is published, and the world that `publish` begins in.
  abbrev pub asked : Text → World S → Option Reply × S
  asked name w = cmd redis pool (get (key_of name w)) w.redis_state

  abbrev pub before : Text → World S → World S
  before name w =
      let w' = record w { redis_state = (asked name w).1 } in
      if is_published (text_of (asked name w).0) then withdraw redis pool (key_of name w) w' else w'

  stop_notifier-Fresh :
      (id : ℕ) (w : World S) → Fresh id w.timers.timers → Fresh id (stop_notifier w).timers.timers
  unfolding stop_notifier Notifier.stop
  stop_notifier-Fresh id w f = elim (Option-cases w.device.notifier) [
    | inl idle ↦ rw (idle, stop_notifier) f
    | inr (n, held) ↦ elim (Option-cases n.timer) [
      | inl off ↦ rw (held, off, stop_notifier) f
      | inr (i, on) ↦ rw (held, on, stop_notifier) (cancel-Fresh id i w.timers f)
    ]
  ]

  either-Fresh :
      (id : ℕ) (b : Bool) (x y : World S)
      → Fresh id x.timers.timers
      → Fresh id y.timers.timers
      → Fresh id (if b then x else y).timers.timers
  either-Fresh id true x y p q = p
  either-Fresh id false x y p q = q

  before-Fresh :
      (id : ℕ) (name : Text) (w : World S)
      → Fresh id w.timers.timers
      → Fresh id (before name w).timers.timers
  unfolding withdraw
  before-Fresh id name w f =
      let w' = record w { redis_state = (asked name w).1 } in
      either-Fresh id (is_published (text_of (asked name w).0)) _ w' (stop_notifier-Fresh id w' f) f

  stop_notifier-type : (w : World S) → (stop_notifier w).device.device_type ≡ w.device.device_type
  unfolding stop_notifier
  stop_notifier-type w = elim (Option-cases w.device.notifier) [
    | inl idle ↦ rw (idle, stop_notifier) refl
    | inr (n, held) ↦ rw (held, stop_notifier) refl
  ]

  either_type :
      (t : ℕ) (b : Bool) (x y : World S)
      → x.device.device_type ≡ t
      → y.device.device_type ≡ t
      → (if b then x else y).device.device_type ≡ t
  either_type t true x y p q = p
  either_type t false x y p q = q

  before-type :
      (name : Text) (w : World S) → (before name w).device.device_type ≡ w.device.device_type
  unfolding withdraw
  before-type name w =
      let w' = record w { redis_state = (asked name w).1 } in
      either_type w.device.device_type (is_published (text_of (asked name w).0)) _ w'
        (stop_notifier-type w') refl

  -- A notification that returns 1, with the address of its new timer free, has put the version under the key
  -- of the device type and the name; the device holds a notifier with a message of that name and version;
  -- and the timer that it holds is in the set of timers, recurs, is due an interval from now and has the
  -- notifier's callback.
  pub ota_notify-Notifies :
      (id now_ms : ℕ) (now name version : Text) (w : World S)
      → Fresh id w.timers.timers
      → (ota_notify redis pool id now_ms now name version w).0 ≡ 1
      → Notifies id now_ms w.device.device_type name version
          (ota_notify redis pool id now_ms now name version w).1
  unfolding ota_notify get_notify_message
  ota_notify-Notifies id now_ms now name version w free =
      elim (Bool-cases (is_bad redis (asked name w).0)) [
        | inl bad ↦ rw (bad, ota_notify) (λ e. absurd (omega arith))
        | inr good ↦
            rw (good, ota_notify)
              (publish-Notifies id now_ms w.device.device_type
                (get_notify_message w.device.device_type name version now).1 name version
                (before name w) (before-type name w) (before-Fresh id name w free) (refl, refl))
      ]
