-- ===== src/Http/Methods.antt =====
-- sherry/http/http.h and http.cc: the methods of HTTP with their texts.
use ota_new.Common.{
  ℕ, List, [], ◌∷◌, Bool, true, false, ◌&&◌, ◌==◌, if◌then◌else◌, Text, codes, str_eq, none, some,
  get_elem?, ◌≡◌, ◌≢◌, refl, ◌++◌,
}

-- `HttpMethod`
pub data HttpMethod : Type 0 where
  delete : HttpMethod
  get : HttpMethod
  head : HttpMethod
  post : HttpMethod
  put : HttpMethod
  connect : HttpMethod
  options : HttpMethod
  trace : HttpMethod
  copy : HttpMethod
  lock : HttpMethod
  mkcol : HttpMethod
  move : HttpMethod
  propfind : HttpMethod
  proppatch : HttpMethod
  search : HttpMethod
  unlock : HttpMethod
  bind : HttpMethod
  rebind : HttpMethod
  unbind : HttpMethod
  acl : HttpMethod
  report : HttpMethod
  mkactivity : HttpMethod
  checkout : HttpMethod
  merge : HttpMethod
  msearch : HttpMethod
  notify : HttpMethod
  subscribe : HttpMethod
  unsubscribe : HttpMethod
  patch : HttpMethod
  purge : HttpMethod
  mkcalendar : HttpMethod
  link : HttpMethod
  unlink : HttpMethod
  source : HttpMethod
  invalid_method : HttpMethod

-- The numbers of the enumeration.
unfoldable pub number_of : HttpMethod → ℕ
number_of delete = 0
number_of get = 1
number_of head = 2
number_of post = 3
number_of put = 4
number_of connect = 5
number_of options = 6
number_of trace = 7
number_of copy = 8
number_of lock = 9
number_of mkcol = 10
number_of move = 11
number_of propfind = 12
number_of proppatch = 13
number_of search = 14
number_of unlock = 15
number_of bind = 16
number_of rebind = 17
number_of unbind = 18
number_of acl = 19
number_of report = 20
number_of mkactivity = 21
number_of checkout = 22
number_of merge = 23
number_of msearch = 24
number_of notify = 25
number_of subscribe = 26
number_of unsubscribe = 27
number_of patch = 28
number_of purge = 29
number_of mkcalendar = 30
number_of link = 31
number_of unlink = 32
number_of source = 33
number_of invalid_method = 34

-- `HTTP_METHOD_MAP`
abbrev pub method_map : List (HttpMethod × Text)
method_map =
    (delete, codes "DELETE")
    ∷ (get, codes "GET")
    ∷ (head, codes "HEAD")
    ∷ (post, codes "POST")
    ∷ (put, codes "PUT")
    ∷ (connect, codes "CONNECT")
    ∷ (options, codes "OPTIONS")
    ∷ (trace, codes "TRACE")
    ∷ (copy, codes "COPY")
    ∷ (lock, codes "LOCK")
    ∷ (mkcol, codes "MKCOL")
    ∷ (move, codes "MOVE")
    ∷ (propfind, codes "PROPFIND")
    ∷ (proppatch, codes "PROPPATCH")
    ∷ (search, codes "SEARCH")
    ∷ (unlock, codes "UNLOCK")
    ∷ (bind, codes "BIND")
    ∷ (rebind, codes "REBIND")
    ∷ (unbind, codes "UNBIND")
    ∷ (acl, codes "ACL")
    ∷ (report, codes "REPORT")
    ∷ (mkactivity, codes "MKACTIVITY")
    ∷ (checkout, codes "CHECKOUT")
    ∷ (merge, codes "MERGE")
    ∷ (msearch, codes "M-SEARCH")
    ∷ (notify, codes "NOTIFY")
    ∷ (subscribe, codes "SUBSCRIBE")
    ∷ (unsubscribe, codes "UNSUBSCRIBE")
    ∷ (patch, codes "PATCH")
    ∷ (purge, codes "PURGE")
    ∷ (mkcalendar, codes "MKCALENDAR")
    ∷ (link, codes "LINK")
    ∷ (unlink, codes "UNLINK")
    ∷ (source, codes "SOURCE")
    ∷ []

-- `strcmp` with the texts in turn.
unfoldable pub find_method : List (HttpMethod × Text) → Text → HttpMethod
find_method [] m = invalid_method
find_method ((h, s) ∷ hs) m = if str_eq s m then h else find_method hs m

unfoldable pub string_to_method : Text → HttpMethod
unfolding find_method
string_to_method m = find_method method_map m

abbrev pub starts_with : Text → Text → Bool
starts_with [] t = true
starts_with (c ∷ cs) [] = false
starts_with (c ∷ cs) (d ∷ ds) = (c == d) && starts_with cs ds

-- `strncmp` with the texts in turn, each for its own length.
unfoldable pub find_prefix : List (HttpMethod × Text) → Text → HttpMethod
find_prefix [] m = invalid_method
find_prefix ((h, s) ∷ hs) m = if starts_with s m then h else find_prefix hs m

unfoldable pub chars_to_method : Text → HttpMethod
unfolding find_prefix
chars_to_method m = find_prefix method_map m

unfoldable pub text_at : List (HttpMethod × Text) → ℕ → Text
text_at hs i = elim (get_elem? hs i) [ none ↦ codes "<unknown>" | some e ↦ e.1 ]

unfoldable pub method_to_string : HttpMethod → Text
unfolding text_at number_of
method_to_string m = text_at method_map (number_of m)

-- What is printed for a method is read back as it, also with anything behind it.
pub method-round_trip :
    (m : HttpMethod) (rest : Text)
    → m ≢ invalid_method
    → (string_to_method (method_to_string m) ≡ m)
      × (chars_to_method (method_to_string m ++ rest) ≡ m)
unfolding string_to_method chars_to_method method_to_string
method-round_trip delete rest ne = (refl, refl)
method-round_trip invalid_method rest ne = absurd (ne refl)
method-round_trip m rest ne = (refl, refl)
