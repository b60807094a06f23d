-- ===== src/Ota/Http.antt =====
-- sherry/http/http.h: what the handlers read of a request and write to a response.
use ota_new.Common.{ℕ, ◌+◌, List, [], ◌∷◌, Bool, if◌then◌else◌, ◌&&◌, Text, str_eq, leb, map}

pub data Method : Type 0 where
  options_method : Method
  other_method : Method

pub record Request : Type 0 where
  pub method : Method
  pub path : Text
  pub body : Text

-- A status is its number.
pub record Response : Type 0 where
  pub status : ℕ
  pub headers : List (Text × Text)
  pub body : Text
  pub close : Bool
  pub is_sending : Bool

unfoldable pub set_status : ℕ → Response → Response
set_status v r = record r { status = v }

unfoldable pub set_body : Text → Response → Response
set_body v r = record r { body = v }

unfoldable pub set_close : Bool → Response → Response
set_close v r = record r { close = v }

unfoldable pub set_is_sending : Bool → Response → Response
set_is_sending v r = record r { is_sending = v }

abbrev lower : ℕ → ℕ
lower c = if leb b'A' c && leb c b'Z' then c + 32 else c

-- The keys of the header map are compared without case.
abbrev same_header : Text → Text → Bool
same_header a b = str_eq (map lower a) (map lower b)

unfoldable pub put_header : Text → Text → List (Text × Text) → List (Text × Text)
put_header key val [] = (key, val) ∷ []
put_header key val ((k, v) ∷ hs) =
    if same_header k key then (k, val) ∷ hs else (k, v) ∷ put_header key val hs

unfoldable pub set_header : Text → Text → Response → Response
set_header key val r = record r { headers = put_header key val r.headers }
