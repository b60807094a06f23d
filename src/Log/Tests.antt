-- ===== src/Log/Tests.antt =====
-- Tests of the patterns of the log, and examples of the theorems about them.
use ota_new.Common.{
  ◌≡◌, refl, List, [], ◌∷◌, ◌++◌, none, some, true, false, codes, arith, decimal, decimal_of, Text,
}
use ota_new.Log.{
  Item, message, level, name, newline, file, line, tab, fiber_id, thread_id, thread_name, date_time,
  word, item_of, init, LogFormatter, LogEvent, format_event,
}
use ota_new.Log.Logger.{
  Logger, new_logger, add_appender, set_pattern, log, add_plain, set_text, Reach, made, next,
  IsReady,
}
use ota_new.Log.Ready.{Reach-logs}
use ota_new.Log.Pattern.{Spells, nothing, item, text, init-Spells}
use ota_new.Log.Escape.{init-escape}

-- The pattern that every logger begins with.
abbrev default_items : List Item
default_items =
    date_time []
    ∷ tab
    ∷ thread_id
    ∷ tab
    ∷ thread_name
    ∷ tab
    ∷ fiber_id
    ∷ tab
    ∷ word (codes "[")
    ∷ level
    ∷ word (codes "]")
    ∷ tab
    ∷ word (codes "[")
    ∷ name
    ∷ word (codes "]")
    ∷ tab
    ∷ file
    ∷ word (codes ":")
    ∷ line
    ∷ tab
    ∷ message
    ∷ newline
    ∷ []

default_pattern :
    init (codes "%d%T%t%T%N%T%F%T[%p]%T[%c]%T%f:%l%T%m%n")
    ≡ some (record { items = default_items; has_error = false })
unfolding init
default_pattern = refl

-- The format of a time is refused for what stands in it, and its closing brace is printed.
time_format : elim (init (codes "%d{%Y}")) [ none ↦ false | some f ↦ f.has_error ] ≡ true
unfolding init
time_format = refl

closing_brace :
    init (codes "%d{a}")
    ≡ some (record { items = date_time (codes "a") ∷ (word (codes "}") ∷ []); has_error = false })
unfolding init
closing_brace = refl

abbrev event : LogEvent
event = record {
  content = codes "hi";
  level_text = codes "INFO";
  elapsed = 0;
  logger = codes "root";
  file_name = codes "a.cc";
  line_number = 12;
  fiber = 0;
  thread = 7;
  thread_label = codes "main";
}

printed :
    format_event (λ t. t) event (file ∷ (word (codes ":") ∷ (line ∷ (tab ∷ (message ∷ [])))))
    ≡ codes "a.cc:12\thi"
unfolding format_event decimal decimal_of
printed = refl

bracketed :
    Spells (codes "[%p]%m") (word (codes "[") ∷ (level ∷ (word (codes "]") ∷ (message ∷ []))))
unfolding item_of
bracketed = text (codes "[") (codes "%p]%m") refl refl (omega arith) refl (
    item b'p' (codes "]%m") refl refl refl (
      text (codes "]") (codes "%m") refl refl (omega arith) refl
        (item b'm' [] refl refl tt nothing)))

init-Spells_example :
    init (codes "[%p]%m")
    ≡ some (record {
      items = word (codes "[") ∷ (level ∷ (word (codes "]") ∷ (message ∷ [])));
      has_error = false;
    })
init-Spells_example =
    init-Spells (codes "[%p]%m") (word (codes "[") ∷ (level ∷ (word (codes "]") ∷ (message ∷ []))))
      bracketed

init-escape_example :
    (r : LogFormatter) × (init (codes "100" ++ (b'%' ∷ (b'%' ∷ codes " done"))) ≡ some r)
    × (r.has_error ≡ true)
init-escape_example = init-escape (codes "100") (codes " done") (omega arith) refl refl

abbrev root : Logger
root =
    add_appender (record { level = 0; formatter = none; has_formatter = false })
      (new_logger (codes "root"))

abbrev quiet : Logger
quiet = set_pattern (codes "%p:%m") (new_logger (codes "net"))

root_run : Reach root
root_run = next (made (codes "root")) (add_plain 0)

quiet_run : Reach quiet
quiet_run = next (made (codes "net")) (set_text (codes "%p:%m"))

-- A logger without appenders has the root print, by the pattern of the root.
root_prints :
    log (λ t. codes "now") 4 event (set_pattern (codes "%d %m") root) quiet
    ≡ some (codes "now hi" ∷ [])
unfolding log set_pattern add_appender new_logger format_event init
root_prints = refl

kept_pattern :
    (set_pattern (codes "%z") (set_pattern (codes "%m") root)).formatter ≡ init (codes "%m")
unfolding set_pattern add_appender new_logger init
kept_pattern = refl

Reach-logs_example :
    IsReady quiet × ((out : List Text) × (log (λ t. t) 4 event root quiet ≡ some out))
Reach-logs_example = Reach-logs (λ t. t) 4 event root_run quiet_run
