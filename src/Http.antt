-- ===== src/Http.antt =====
-- sherry/http/http.cc: requests and responses with their headers, and how they are printed.
pub mod Methods
pub mod Statuses
pub mod Printed
pub mod Merged
pub mod Tests
use ota_new.Common.{
  ℕ, ◌+◌, ◌/◌, ◌%◌, List, [], ◌∷◌, ◌++◌, Option, none, some, Bool, true, false, ltb, leb, ◌&&◌,
  if◌then◌else◌, Text, codes, str_eq, decimal, map, length, bit_and,
}
use ota_new.Http.Methods.{HttpMethod, get, method_to_string}
use ota_new.Http.Statuses.{status_to_string}

abbrev to_lower : ℕ → ℕ
to_lower c = if leb b'A' c && leb c b'Z' then c + 32 else c

-- `strcasecmp`
abbrev pub same_case : Text → Text → Bool
same_case a b = str_eq (map to_lower a) (map to_lower b)

unfoldable pub less_case : Text → Text → Bool
less_case [] [] = false
less_case [] (d ∷ ds) = true
less_case (c ∷ cs) [] = false
less_case (c ∷ cs) (d ∷ ds) =
    if ltb (to_lower c) (to_lower d)
    then true
    else if ltb (to_lower d) (to_lower c)
    then false
    else less_case cs ds

-- `std::map` with `CaseInsensitiveLess`, by the order of its keys.
abbrev pub MapType : Type 0
MapType = List (Text × Text)

unfoldable pub get_value : Text → Text → MapType → Text
get_value key default [] = default
get_value key default ((k, v) ∷ m) = if same_case k key then v else get_value key default m

unfoldable pub has_value : Text → MapType → Option Text
has_value key [] = none
has_value key ((k, v) ∷ m) = if same_case k key then some v else has_value key m

-- A key that is there keeps its own spelling.
unfoldable pub set_value : Text → Text → MapType → MapType
unfolding less_case
set_value key val [] = (key, val) ∷ []
set_value key val ((k, v) ∷ m) =
    if same_case k key
    then (k, val) ∷ m
    else if less_case key k
    then (key, val) ∷ ((k, v) ∷ m)
    else (k, v) ∷ set_value key val m

unfoldable pub del_value : Text → MapType → MapType
del_value key [] = []
del_value key ((k, v) ∷ m) = if same_case k key then m else (k, v) ∷ del_value key m

pub record HttpRequest : Type 0 where
  pub method : HttpMethod
  pub version : ℕ
  pub close : Bool
  pub path : Text
  pub query : Text
  pub fragment : Text
  pub body : Text
  pub headers : MapType
  pub params : MapType
  pub cookies : MapType

unfoldable pub new_request : ℕ → Bool → HttpRequest
new_request v is_close = record {
  method = get;
  version = v;
  close = is_close;
  path = codes "/";
  query = [];
  fragment = [];
  body = [];
  headers = [];
  params = [];
  cookies = [];
}

abbrev pub is_empty : Text → Bool
is_empty [] = true
is_empty (c ∷ cs) = false

-- `HttpRequest::init`
unfoldable pub init : HttpRequest → HttpRequest
unfolding get_value
init r =
    let conn = get_value (codes "connection") [] r.headers in
    if is_empty conn
    then r
    else record r { close = if same_case conn (codes "keep-alive") then false else true }

-- "\r\n", and the "\n\r" that the headers of a response end with.
abbrev pub crlf : Text
crlf = 13 ∷ (10 ∷ [])

abbrev pub lfcr : Text
lfcr = 10 ∷ (13 ∷ [])

abbrev mark : Text → Text → Text
mark sign t = if is_empty t then [] else sign ++ t

-- `HTTP/` and the two halves of the version.
abbrev pub show_version : ℕ → Text
show_version v = decimal (v / 16) ++ (codes "." ++ decimal (bit_and v 0x0f))

abbrev pub keep_or_close : Bool → Text
keep_or_close c = if c then codes "close" else codes "keep-alive"

unfoldable pub request_line : HttpRequest → Text
request_line r =
    method_to_string r.method
    ++ (codes " "
        ++ (r.path
            ++ (mark (codes "?") r.query
                ++ (mark (codes "#") r.fragment ++ (codes " HTTP/" ++ show_version r.version)))))

-- The headers but "connection", each printed with what ends it.
unfoldable pub print_headers : Text → Text → MapType → Text
print_headers colon ends [] = []
print_headers colon ends ((k, v) ∷ m) =
    let rest = print_headers colon ends m in
    if same_case k (codes "connection") then rest else k ++ (colon ++ (v ++ (ends ++ rest)))

-- The length and the body, from the end of the headers on.
unfoldable pub print_body : Text → Text → Text
print_body name body =
    if is_empty body then crlf else name ++ (decimal (length body) ++ (crlf ++ (crlf ++ body)))

-- `HttpRequest::dump`
unfoldable pub dump_request : HttpRequest → Text
unfolding request_line print_headers print_body
dump_request r =
    request_line r
    ++ (crlf
        ++ ((codes "Connection: " ++ keep_or_close r.close)
            ++ (crlf
                ++ (print_headers (codes ":") crlf r.headers
                    ++ print_body (codes "Content-Length: ") r.body))))

pub record HttpResponse : Type 0 where
  pub status : ℕ
  pub version : ℕ
  pub close : Bool
  pub body : Text
  pub reason : Text
  pub headers : MapType
  pub is_sending : Bool

unfoldable pub new_response : ℕ → Bool → HttpResponse
new_response v is_close = record {
  status = 200;
  version = v;
  close = is_close;
  body = [];
  reason = [];
  headers = [];
  is_sending = false;
}

unfoldable pub status_line : HttpResponse → Text
status_line r =
    codes "HTTP/"
    ++ (show_version r.version
        ++ (codes " "
            ++ (decimal r.status
                ++ (codes " "
                    ++ (if is_empty r.reason then status_to_string r.status else r.reason)))))

-- `HttpResponse::dump`
unfoldable pub dump_response : HttpResponse → Text
unfolding status_line print_headers print_body
dump_response r =
    status_line r
    ++ (crlf
        ++ (print_headers (codes ": ") lfcr r.headers
            ++ ((codes "connection: " ++ keep_or_close r.close)
                ++ (crlf ++ print_body (codes "content-length: ") r.body))))
