-- ===== src/Log.antt =====
-- sherry/log.cc: the pattern of a formatter, and what it prints of an event. The time that strftime prints is a
-- parameter.
pub mod Pattern
pub mod Escape
pub mod Logger
pub mod Ready
pub mod Tests
use ota_new.Common.{
  ℕ, zero, suc, ◌+◌, List, [], ◌∷◌, ◌++◌, Option, none, some, Bool, true, false, ◌||◌, ◌&&◌, not,
  if◌then◌else◌, ◌==◌, leb, length, Text, codes, decimal, str_eq,
}
use ota_new.Http.{is_empty}

-- What was read of a pattern: text, or a directive with its format.
pub data Piece : Type 0 where
  literal : Text → Piece
  directive : (name format : Text) → Piece

abbrev pub is_alpha : ℕ → Bool
is_alpha c = (leb b'a' c && leb c b'z') || (leb b'A' c && leb c b'Z')

-- The loop behind a `%`: a directive with the text from which it goes on, or an error.
pub data Scan : Type 0 where
  scanned : (name format rest : Text) → Scan
  unclosed : Scan

-- `fmt_status` 1; the pattern is read on from the closing brace.
unfoldable pub scan_format : Text → Text → Text → Scan
scan_format name format [] = unclosed
scan_format name format (c ∷ cs) =
    let more = scan_format name (format ++ (c ∷ [])) cs in
    if c == b'}'
    then scanned name format (c ∷ cs)
    else if is_alpha c || c == b'{'
    then more
    else unclosed

-- `fmt_status` 0
unfoldable pub scan_name : Text → Text → Scan
unfolding scan_format
scan_name name [] = scanned name [] []
scan_name name (c ∷ cs) =
    let more = scan_name (name ++ (c ∷ [])) cs in
    if c == b'{'
    then scan_format name [] cs
    else if is_alpha c || c == b'}'
    then more
    else scanned name [] (c ∷ cs)

abbrev pub flush : Text → List Piece
flush nstr = if is_empty nstr then [] else literal nstr ∷ []

abbrev pub begins_percent : Text → Bool
begins_percent [] = false
begins_percent (c ∷ cs) = c == b'%'

-- The pieces, and whether there was an error.
abbrev pub Pieces : Type 0
Pieces = List Piece × Bool

abbrev pub before : List Piece → Bool → Option Pieces → Option Pieces
before ps failed none = none
before ps failed (some (qs, e)) = some (ps ++ qs, failed || e)

-- The loop over the pattern, on fuel; `nstr` is the text that no piece has yet.
unfoldable pub read_pieces : ℕ → Text → Text → Option Pieces
unfolding scan_name
read_pieces zero pattern nstr = none
read_pieces (suc fuel) [] nstr = some (flush nstr, false)
read_pieces (suc fuel) (c ∷ cs) nstr =
    let plain = read_pieces fuel cs (nstr ++ (c ∷ [])) in
    let behind : Option Pieces = elim (scan_name [] cs) [
      | scanned name format rest ↦
          before (flush nstr ++ (directive name format ∷ [])) false (read_pieces fuel rest [])
      | unclosed ↦ before (literal (codes "<<pattrn_error>>") ∷ []) true (read_pieces fuel cs nstr)
    ] in
    if not (c == b'%') || begins_percent cs then plain else behind

-- `FormatItem` and its classes.
pub data Item : Type 0 where
  message level elapse name newline file line tab fiber_id thread_id thread_name : Item
  date_time : (format : Text) → Item
  word : (t : Text) → Item

-- `s_format_items`
abbrev pub format_items : List (ℕ × Item)
format_items =
    (b'm', message)
    ∷ (b'p', level)
    ∷ (b'r', elapse)
    ∷ (b'c', name)
    ∷ (b'n', newline)
    ∷ (b'f', file)
    ∷ (b'l', line)
    ∷ (b'T', tab)
    ∷ (b'F', fiber_id)
    ∷ (b't', thread_id)
    ∷ (b'N', thread_name)
    ∷ []

unfoldable pub find_item : ℕ → List (ℕ × Item) → Option Item
find_item c [] = none
find_item c ((d, i) ∷ is) = if d == c then some i else find_item c is

-- The names are of one letter; only a time uses its format.
unfoldable pub item_of : Text → Text → Option Item
unfolding find_item
item_of [] format = none
item_of (c ∷ []) format = if c == b'd' then some (date_time format) else find_item c format_items
item_of (c ∷ (d ∷ r)) format = none

unfoldable pub items_of : List Piece → List Item × Bool
unfolding item_of
items_of [] = ([], false)
items_of (literal t ∷ ps) = let (is, e) = items_of ps in (word t ∷ is, e)
items_of (directive n format ∷ ps) =
    let (is, e) = items_of ps in
    elim (item_of n format) [
      | none ↦ (word (codes "<<error_format %" ++ (n ++ codes ">>")) ∷ is, true)
      | some i ↦ (i ∷ is, e)
    ]

pub record LogFormatter : Type 0 where
  pub items : List Item
  pub has_error : Bool

-- `LogFormatter::init`; `none` is the end of the fuel.
unfoldable pub init : Text → Option LogFormatter
unfolding read_pieces items_of
init pattern = elim (read_pieces (length pattern + 1) pattern []) [
  | none ↦ none
  | some (ps, failed) ↦
      let (is, unknown) = items_of ps in some (record { items = is; has_error = failed || unknown })
]

-- What an event holds. A level is its text.
pub record LogEvent : Type 0 where
  pub content : Text
  pub level_text : Text
  pub elapsed : ℕ
  pub logger : Text
  pub file_name : Text
  pub line_number : ℕ
  pub fiber : ℕ
  pub thread : ℕ
  pub thread_label : Text

module _ (strftime : Text → Text) where
  unfoldable pub show_item : LogEvent → Item → Text
  show_item e message = e.content
  show_item e level = e.level_text
  show_item e elapse = decimal e.elapsed
  show_item e name = e.logger
  show_item e newline = 10 ∷ []
  show_item e file = e.file_name
  show_item e line = decimal e.line_number
  show_item e tab = 9 ∷ []
  show_item e fiber_id = decimal e.fiber
  show_item e thread_id = decimal e.thread
  show_item e thread_name = e.thread_label
  show_item e (date_time format) =
      strftime (if is_empty format then codes "%Y-%m-%d %H:%M:%S" else format)
  show_item e (word t) = t

  -- `LogFormatter::format`
  unfoldable pub format_event : LogEvent → List Item → Text
  unfolding show_item
  format_event e [] = []
  format_event e (i ∷ is) = show_item e i ++ format_event e is
