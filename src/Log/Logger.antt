-- ===== src/Log/Logger.antt =====
-- sherry/log.cc: the loggers, with their appenders and levels.
use ota_new.Common.{
  ℕ, ◌≡◌, List, [], ◌∷◌, ◌++◌, Option, none, some, Bool, true, false, if◌then◌else◌, leb, map, All,
  Text, codes, str_eq,
}
use ota_new.Log.{LogFormatter, LogEvent, init, format_event}

-- `LogAppender`: `formatter` is a pointer. A level is its number.
pub record LogAppender : Type 0 where
  pub level : ℕ
  pub formatter : Option LogFormatter
  pub has_formatter : Bool

abbrev pub new_appender : ℕ → LogAppender
new_appender k = record { level = k; formatter = none; has_formatter = false }

-- `LogAppender::setFormatter`.
abbrev pub set_own : Option LogFormatter → LogAppender → LogAppender
set_own o a = elim o [
  | none ↦ record a { formatter = none; has_formatter = false }
  | some f ↦ record a { formatter = some f; has_formatter = true }
]

pub record Logger : Type 0 where
  pub name : Text
  pub level : ℕ
  pub formatter : Option LogFormatter
  pub appenders : List LogAppender

abbrev pub default_pattern : Text
default_pattern = codes "%d%T%t%T%N%T%F%T[%p]%T[%c]%T%f:%l%T%m%n"

unfoldable pub new_logger : Text → Logger
unfolding init
new_logger name = record {
  name = name;
  level = 1;
  formatter = init default_pattern;
  appenders = [];
}

unfoldable pub add_appender : LogAppender → Logger → Logger
add_appender a l = elim a.formatter [
  | none ↦ record l { appenders = l.appenders ++ (record a { formatter = l.formatter } ∷ []) }
  | some f ↦ record l { appenders = l.appenders ++ (a ∷ []) }
]

-- `delAppender`, which looks at no appender but the first.
abbrev rest_of : List LogAppender → List LogAppender
rest_of [] = []
rest_of (a ∷ rest) = rest

unfoldable pub del_appender : Logger → Logger
del_appender l = record l { appenders = rest_of l.appenders }

unfoldable pub clear_appenders : Logger → Logger
clear_appenders l = record l { appenders = [] }

abbrev pub share : Option LogFormatter → LogAppender → LogAppender
share f a = if a.has_formatter then a else record a { formatter = f }

unfoldable pub set_formatter : Option LogFormatter → Logger → Logger
set_formatter f l = record l { formatter = f; appenders = map (share f) l.appenders }

-- `setFormatter` of a text; one with an error changes nothing. `init` is `none` for no text.
unfoldable pub set_pattern : Text → Logger → Logger
unfolding set_formatter
set_pattern val l = elim (init val) [
  | none ↦ l
  | some f ↦ if f.has_error then l else set_formatter (some f) l
]

-- `LoggerManager::getLogger`: the loggers, with a new one where there was none of the name.
unfoldable pub get_logger : Text → List Logger → List Logger × Logger
unfolding new_logger
get_logger name [] = (new_logger name ∷ [], new_logger name)
get_logger name (l ∷ ls) =
    let (more, found) = get_logger name ls in
    if str_eq l.name name then (l ∷ ls, l) else (l ∷ more, found)

module _ (strftime : Text → Text) where
  -- What an appender prints; `none` is a call through a null pointer.
  unfoldable pub print_to : ℕ → LogEvent → LogAppender → Option (List Text)
  print_to level e a =
      if leb a.level level
      then elim a.formatter [ none ↦ none | some f ↦ some (format_event strftime e f.items ∷ []) ]
      else some []

  abbrev both : Option (List Text) → Option (List Text) → Option (List Text)
  both none ys = none
  both (some xs) none = none
  both (some xs) (some ys) = some (xs ++ ys)

  unfoldable pub print_all : ℕ → LogEvent → List LogAppender → Option (List Text)
  unfolding print_to
  print_all level e [] = some []
  print_all level e (a ∷ rest) = both (print_to level e a) (print_all level e rest)

  -- `log` of the root, which has none above it.
  unfoldable pub log_root : ℕ → LogEvent → Logger → Option (List Text)
  unfolding print_all
  log_root level e l = if leb l.level level then print_all level e l.appenders else some []

  -- `log`: the root, which is `m_root`, prints for a logger without appenders.
  unfoldable pub log : ℕ → LogEvent → Logger → Logger → Option (List Text)
  unfolding log_root
  log level e root l =
      if leb l.level level
      then elim l.appenders [ [] ↦ log_root level e root | a ∷ rest ↦ print_all level e (a ∷ rest) ]
      else some []

-- The calls on a logger. The appenders that it is given are new, with a formatter of their own or none, and no formatter is null.
pub data Step (l : Logger) : Logger → Type 0 where
  add_plain :
      (k : ℕ)
      → Step l (add_appender (record { level = k; formatter = none; has_formatter = false }) l)
  add_own :
      (k : ℕ) (f : LogFormatter)
      → Step l (add_appender (record { level = k; formatter = some f; has_formatter = true }) l)
  del : Step l (del_appender l)
  clear : Step l (clear_appenders l)
  set_shared : (f : LogFormatter) → Step l (set_formatter (some f) l)
  set_text : (val : Text) → Step l (set_pattern val l)
  set_level : (k : ℕ) → Step l (record l { level = k })

pub data Reach : Logger → Type 0 where
  made : (name : Text) → Reach (new_logger name)
  next : {l m : Logger} → Reach l → Step l m → Reach m

-- An appender has a formatter, and one without its own has that of the logger.
abbrev pub Prints : LogFormatter → LogAppender → Type 0
Prints f a = (g : LogFormatter) × (a.formatter ≡ some g) × (a.has_formatter ≡ false → g ≡ f)

abbrev pub IsReady : Logger → Type 0
IsReady l = (f : LogFormatter) × (l.formatter ≡ some f) × All (Prints f) l.appenders
