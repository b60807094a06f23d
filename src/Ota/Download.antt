-- ===== src/Ota/Download.antt =====
-- sherry/ota_http_manager.cc: `handle_file_download`, `ota_file_download` and the sending of the file.
pub mod Path
pub mod Delivery
use ota_new.Common.{
  ℕ, zero, suc, ◌+◌, ◌-◌, ◌*◌, ◌%◌, ◌^◌, List, [], ◌∷◌, ◌++◌, Option, none, some, Bool, true, false,
  ◌&&◌, ◌||◌, not, if◌then◌else◌, Text, codes, decimal, ◌==◌, leb, ltb, drop,
}
use ota_new.Ota.Http.{
  Request, Response, set_status, set_body, set_header, set_close, set_is_sending,
}
use ota_new.Ota.Redis.{ℤ, pos, negsuc}
use ota_new.Ota.HttpManager.{set_options, is_options}

-- `std::stoi`: `none` is an exception, for no digits or a value that is no `int`.
abbrev is_space : ℕ → Bool
is_space c = (c == 32) || (leb 9 c && leb c 13)

abbrev is_digit : ℕ → Bool
is_digit c = leb 48 c && leb c 57

-- The value of the digits in front, or `none` where there are none yet.
unfoldable pub digits_value : Option ℕ → Text → Option ℕ
digits_value seen [] = seen
digits_value seen (c ∷ cs) =
    let more = digits_value (some (10 * (elim seen [ none ↦ 0 | some n ↦ n ]) + (c - 48))) cs in
    if is_digit c then more else seen

abbrev in_range : Bool → Option ℕ → Option ℤ
in_range negative none = none
in_range false (some n) = if ltb n (2 ^ 31) then some (pos n) else none
in_range true (some zero) = some (pos 0)
in_range true (some (suc n)) = if ltb n (2 ^ 31) then some (negsuc n) else none

abbrev signed : Text → Option ℤ
signed [] = none
signed (c ∷ cs) =
    if c == 45
    then in_range true (digits_value none cs)
    else if c == 43
    then in_range false (digits_value none cs)
    else in_range false (digits_value none (c ∷ cs))

unfoldable pub stoi : Text → Option ℤ
unfolding digits_value
stoi [] = none
stoi (c ∷ cs) = let rest = stoi cs in if is_space c then rest else signed (c ∷ cs)

-- The conversion of an `int` to a `uint16_t`.
abbrev pub to_u16 : ℤ → ℕ
to_u16 (pos n) = n % 2 ^ 16
to_u16 (negsuc n) = 2 ^ 16 - 1 - n % 2 ^ 16

-- One of the loops up to the next '/': what is before it, and what is behind it if there is one.
unfoldable pub segment : Text → Text × Option Text
segment [] = ([], none)
segment (c ∷ cs) =
    let (front, rest) = segment cs in if c == b'/' then ([], some cs) else (c ∷ front, rest)

pub data Target : Type 0 where
  invalid : Target
  thrown : Target
  target : ℕ → Text → Text → Target

-- The third loop has to end at the end of the path.
unfoldable pub read_version : ℤ → Text → Text × Option Text → Target
read_version n name (version, none) = target (to_u16 n) name version
read_version n name (version, some more) = invalid

unfoldable pub read_name : ℤ → Text × Option Text → Target
unfolding segment read_version
read_name n (name, none) = invalid
read_name n (name, some rest) = read_version n name (segment rest)

-- `stoi` is called before the rest of the path is looked at.
unfoldable pub read_type : Text × Option Text → Target
unfolding stoi read_name
read_type (device_type, none) = invalid
read_type (device_type, some rest) = elim (stoi device_type) [
  | none ↦ thrown
  | some n ↦ read_name n (segment rest)
]

-- The path is read from behind "/ota/file_download/", whatever stands there.
unfoldable pub parse_path : Text → Target
unfolding segment read_type
parse_path path = read_type (segment (drop 19 path))

unfoldable pub file_name : ℕ → Text → Text → Text
file_name device_type name version =
    codes "ota_" ++ (decimal device_type ++ (b'_' ∷ (version ++ (b'_' ∷ (name ++ codes ".jpg")))))

-- What a download waits for: the file that was opened and its size.
pub record Sending : Type 0 where
  pub file : Text
  pub offset : ℕ
  pub left : ℕ

-- `getFileDetail` opens a file and asks for its size: the size, or `none` where either fails.
module _ (file_size : Text → Option ℕ) (file_prev_path : Text) where
  unfoldable pub ota_file_download : ℕ → Text → Text → Response → Response × Option Sending
  unfolding set_status set_body set_header set_close set_is_sending file_name
  ota_file_download device_type name version rsp =
      let file = file_name device_type name version in
      elim (file_size (file_prev_path ++ file)) [
        | none ↦ (set_body (codes "no file.") (set_status 404 rsp), none)
        | some size ↦ (
          set_close true (
              set_header (codes "Content-Type") (codes "image/jpeg") (
                set_header (codes "Content-Disposition") (codes "attachment; filename=" ++ file) (
                  set_header (codes "X-Content-MD5") (codes "ed076287532e86365e841e92bfc50d8c") (
                    set_header (codes "Content-Length") (decimal size)
                      (set_status 200 (set_is_sending true rsp)))))),
          some (record { file = file_prev_path ++ file; offset = 0; left = size }),
        )
      ]

  -- `none` is the exception that leaves the handler.
  unfoldable pub handle_file_download : Request → Response → Option (ℕ × Response × Option Sending)
  unfolding ota_file_download parse_path set_status set_body
  handle_file_download req rsp =
      if is_options req then some (0, set_options rsp, none) else elim (parse_path req.path) [
        | invalid ↦
            some
              (0, set_body (codes "request error: invalid URI format") (set_status 400 rsp), none)
        | thrown ↦ none
        | target device_type name version ↦
            let (rsp', sending) = ota_file_download device_type name version rsp in
            some (0, rsp', sending)
      ]

pub data SendResult : Type 0 where
  done : SendResult
  failed : SendResult
  waiting : Sending → SendResult

-- `sendFile`, with the result of `sendfile`, which moves the offset by what it sent. The subtraction is
-- that of `size_t`.
unfoldable pub send_file : ℤ → Sending → SendResult
send_file (negsuc n) sending = failed
send_file (pos n) sending =
    let left = (sending.left + 2 ^ 64 - n) % 2 ^ 64 in
    if left == 0
    then done
    else waiting (record sending { offset = sending.offset + n; left = left })

-- The calls that the event loop makes, one for each time the socket takes data.
unfoldable pub send_all : List ℤ → SendResult → SendResult
unfolding send_file
send_all [] r = r
send_all (rt ∷ rts) done = done
send_all (rt ∷ rts) failed = failed
send_all (rt ∷ rts) (waiting sending) = send_all rts (send_file rt sending)
