-- ===== src/Ota/Tests.antt =====
-- The theorems of the OTA service on a Redis server that keeps its texts in a function.
mod Server
use ota_new.Common.{
  length, All, ◌⊎◌, ◌+◌, ◌-◌, ◌≡◌, ◌≢◌, refl, sym, ap, List, [], ◌∷◌, ◌++◌, Option, none, some,
  true, false, Bool, if◌then◌else◌, Bool-cases, inl, inr, Text, codes, str_eq, str_eq_refl,
  str_eq→≡, decimal, Without, arith, take, map, ◌==◌, All,
}
use ota_new.Ota.Tests.Server.{Memory, put, server, memory, nothing}
use ota_new.Servlet.{get_matched_servlet, new_dispatch}
use ota_new.Ota.Routes.{register_routes, not_found, route, register_routes-route}
use ota_new.Timer.Order
use ota_new.Timer.Order.{Fresh}
use ota_new.Ota.Keys.{get_device_group_mudule_hash}
use ota_new.Ota.Http.{Request, Response, other_method}
use ota_new.Ota.Redis.{
  redis_query_by_http, pos, Command, get, set, set_ex, del, exists, expire, lpush, brpop, raw,
  Reply, string, array, integer, nil, status, error, Redis, cmd, redis_safe_set_key_value,
  redis_get_key_value,
}
use ota_new.Ota.Redis.Store.{redis_safe_set_key_value-stores, Store, subject}
use ota_new.Ota.Notifier.{Notifier, Timers}
use ota_new.Ota.HttpManager.{Json, handle_notify}
use ota_new.Ota.HttpManager.Published.{handle_notify-keeps}
use ota_new.Ota.Query.{query_target}
use ota_new.Ota.Download.{parse_path, target, Sending, done, waiting, send_all}
use ota_new.Ota.Download.Path.{parse_path-target}
use ota_new.Ota.Download.Delivery.{total, send_all-delivers}
use ota_new.Ota.Device.{World, ota_notify}
use ota_new.Ota.Device.Notify.{Notifies, ota_notify-Notifies}
use ota_new.Ota.Manager.{Service, new_device}
use ota_new.Ota.Manager.Devices
use ota_new.Ota.Manager.Devices.{add_device-IsValid, remove_device-IsValid, on_device-IsValid}
use ota_new.Ota.Consumer.{run}
use ota_new.Ota.Consumer.Commands.{is_error, commands_of, run-commands}

abbrev main : Text
main = codes "main"

abbrev json0 : Json (Unit {0})
json0 = record {
  parse = λ t. some tt;
  contains = λ j t. true;
  get_u16 = λ j t. some 1;
  get_text = λ j t. some (codes "v1");
  dump_msg = λ t. t;
}

abbrev rsp0 : Response
rsp0 = record { status = 200; headers = []; body = []; close = true; is_sending = false }

abbrev req0 : Request
req0 = record { method = other_method; path = codes "/ota/notify"; body = codes "{}" }

abbrev timers0 : Timers
timers0 = record { timers = []; tickled = false; previous_time = 0 }

abbrev idle_world : World Memory
idle_world = record { device = new_device 1; timers = timers0; redis_state = nothing }

notify_plain : Without b':' (codes "notify")
notify_plain =
    (omega arith, (omega arith, (omega arith, (omega arith, (omega arith, (omega arith, tt))))))

no_key : [] ≢ codes "k"
no_key e = cc

stored : (redis_safe_set_key_value server main (codes "k") (codes "v") (pos 60) nothing).0 ≡ 1
unfolding redis_safe_set_key_value
stored = refl

redis_safe_set_key_value-stores_example :
    ((redis_safe_set_key_value server main (codes "k") (codes "v") (pos 60) nothing).1 (codes "k")
      ≡ some (codes "v"))
    × ((redis_safe_set_key_value server main (codes "k") (codes "v") (pos 60) nothing).1 []
        ≡ nothing [])
redis_safe_set_key_value-stores_example =
    redis_safe_set_key_value-stores memory main (codes "k") (codes "v") (pos 60) nothing [] no_key
      stored

abbrev one_key : Memory
one_key = put (codes "k") (some (codes "v")) nothing

one_key_got : (redis_get_key_value server main (codes "k") one_key).0 ≡ some (codes "v")
unfolding redis_get_key_value
one_key_got = refl

parse_path-target_example :
    parse_path
      (codes "/ota/file_download/" ++ (decimal 12 ++ (b'/' ∷ (codes "a" ++ (b'/' ∷ codes "b")))))
    ≡ target 12 (codes "a") (codes "b")
parse_path-target_example =
    parse_path-target 12 (codes "a") (codes "b") (omega arith) (omega arith, tt) (omega arith, tt)

path_read : parse_path (codes "/ota/file_download/12/a/b") ≡ target 12 (codes "a") (codes "b")
unfolding parse_path
path_read = refl

abbrev sending0 : Sending
sending0 = record { file = codes "f"; offset = 0; left = 10 }

send_all-delivers_example : send_all (map pos (4 ∷ 3 ∷ [])) (waiting sending0) ≡ (
    if 10 - total (4 ∷ 3 ∷ []) == 0
    then done
    else waiting
        (record sending0 { offset = 0 + total (4 ∷ 3 ∷ []); left = 10 - total (4 ∷ 3 ∷ []) }))
send_all-delivers_example =
    send_all-delivers (4 ∷ 3 ∷ []) sending0 (omega arith) (omega arith) (omega arith)

notified : (ota_notify server main 9 100 [] (codes "a") (codes "v1") idle_world).0 ≡ 1
unfolding ota_notify cmd
notified = refl

ota_notify-Notifies_example :
    Notifies server main memory 9 100 1
      (codes "a")
      (codes "v1")
      (ota_notify server main 9 100 [] (codes "a") (codes "v1") idle_world).1
ota_notify-Notifies_example =
    ota_notify-Notifies server main memory 9 100 [] (codes "a") (codes "v1") idle_world tt notified

handle_notify-keeps_example :
    (handle_notify json0 server main [] req0 rsp0 nothing).2
      (get_device_group_mudule_hash (codes "notify") 1 (codes "a"))
    ≡ nothing (get_device_group_mudule_hash (codes "notify") 1 (codes "a"))
handle_notify-keeps_example =
    handle_notify-keeps json0 server main memory [] req0 rsp0 nothing (codes "notify") 1 (codes "a")
      notify_plain

abbrev queried : Memory
queried =
    put (get_device_group_mudule_hash (codes "query") 1 (codes "a")) (some (codes "v")) nothing

query_one :
    (query_target json0 server main
      (codes "query")
      (codes "absent")
      (λ r. r)
      1
      (codes "a")
      rsp0
      queried).0
    ≡ pos 1
unfolding query_target redis_query_by_http get_device_group_mudule_hash decimal
query_one = refl

abbrev replies0 : List (Option Reply)
replies0 = none ∷ some (array (none ∷ some (codes "c") ∷ [])) ∷ []

run-commands_example :
    (((run 0 replies0).1 ≡ false) × ((run 0 replies0).0 ≡ commands_of replies0))
    ⊎ (((run 0 replies0).1 ≡ true)
        × ((front errors later : List (Option Reply)) × (replies0 ≡ front ++ (errors ++ later))
            × All (λ r. is_error r ≡ true) errors
            × (length errors ≡ 11)
            × ((run 0 replies0).0 ≡ commands_of front)))
run-commands_example = run-commands replies0

-- A path below the one of the pattern.
abbrev below : Text → Text → Bool
below pattern path = str_eq (take 19 pattern) (take 19 path)

register_routes-route_example :
    get_matched_servlet below (codes "/ota/stop_notify") (register_routes (new_dispatch not_found))
    ≡ some (route below (codes "/ota/stop_notify"))
register_routes-route_example = register_routes-route below (codes "/ota/stop_notify")
