-- ===== src/Ota/Consumer.antt =====
-- `redis_message_queue_thread_run` of sherry/ota_mqtt_manager.cc: the thread that takes commands off the queue.
pub mod Commands
use ota_new.Common.{
  ℕ, sym, suc, ◌+◌, ◌≤◌, ◌≡◌, refl, ap, ◌∙◌, List, [], ◌∷◌, ◌++◌, Option, none, some, Bool, true,
  false, if◌then◌else◌, Text, ltb, ◌==◌, get_elem?, length, All, arith, Bool-cases, inl, inr, ◌⊎◌,
}
use ota_new.Ota.Redis.{Reply, array, nil, string, integer, status, error}

-- What one reply to BRPOP is to the thread: a command, a timeout, or an error.
pub data Popped : Type 0 where
  command : Text → Popped
  idle : Popped
  bad : Popped

unfoldable pub popped : Option Reply → Popped
popped none = bad
popped (some (array (k ∷ some v ∷ []))) = command v
popped (some (array xs)) = bad
popped (some nil) = idle
popped (some r) = bad

abbrev pub max_error_count : ℕ
max_error_count = 10

-- One round: what the later rounds do with the count at 0, and with one error more.
abbrev pub round : ℕ → Popped → List Text × Bool → List Text × Bool → List Text × Bool
round error_cnt (command v) reset counted = (v ∷ reset.0, reset.1)
round error_cnt idle reset counted = reset
round error_cnt bad reset counted =
    if ltb max_error_count (suc error_cnt) then ([], true) else counted

-- The replies until the service is stopped, with `error_cnt` before them: the commands that are handed
-- to the dispatcher, in order, and whether the thread gave up.
unfoldable pub run : ℕ → List (Option Reply) → List Text × Bool
unfolding popped
run error_cnt [] = ([], false)
run error_cnt (reply ∷ replies) =
    round error_cnt (popped reply) (run 0 replies) (run (suc error_cnt) replies)
