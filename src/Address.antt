-- ===== src/Address.antt =====
-- sherry/address.cc: the addresses that the library gives to sockets. What inet_pton reads of a text is an
-- argument.
pub mod Prefix
pub mod Port
pub mod Tests
use ota_new.Common.{
  ℕ, zero, suc, ◌+◌, ◌-◌, ◌*◌, ◌/◌, ◌%◌, ◌^◌, List, [], ◌∷◌, ◌++◌, Option, none, some, Bool, true,
  false, ◌&&◌, ltb, leb, ◌==◌, if◌then◌else◌, length, get_elem?, set, take, replicate, bit_and,
  bit_or, bit_xor, Text, codes, decimal, drop,
}
use ota_new.ByteArray.Codec.{le_bytes, byteswap}

-- `sockaddr_in`: port and address are words in the order of the network, read on a little-endian host.
pub record Ipv4Address : Type 0 where
  pub sin_port : ℕ
  pub s_addr : ℕ

-- `CreateMask` for a word of `w` bits. A shift by the width of the int has no meaning.
unfoldable pub create_mask : ℕ → ℕ → ℕ
create_mask w bits = (2 ^ (w - bits) + 2 ^ w - 1) % 2 ^ w

-- The 32 bits of the swapped port are cut to the 16 of `sin_port`.
unfoldable pub new_ipv4 : ℕ → ℕ → Ipv4Address
new_ipv4 address port = record { sin_port = byteswap 4 port % 2 ^ 16; s_addr = byteswap 4 address }

-- `IPv4Address::Create`: `parsed` is what inet_pton stores, none where it refuses the text.
unfoldable pub create_ipv4 : Option ℕ → ℕ → Option Ipv4Address
create_ipv4 none port = none
create_ipv4 (some parsed) port =
    some (record { sin_port = byteswap 4 port % 2 ^ 16; s_addr = parsed })

unfoldable pub get_port : Ipv4Address → ℕ
get_port a = byteswap 2 a.sin_port

unfoldable pub set_port : ℕ → Ipv4Address → Ipv4Address
set_port v a = record a { sin_port = byteswap 2 v }

-- `insert`
unfoldable pub show_ipv4 : Ipv4Address → Text
unfolding get_port
show_ipv4 a =
    let addr = byteswap 4 a.s_addr in
    decimal (addr / 2 ^ 24 % 256)
    ++ (codes "."
        ++ (decimal (addr / 2 ^ 16 % 256)
            ++ (codes "."
                ++ (decimal (addr / 2 ^ 8 % 256)
                    ++ (codes "."
                        ++ (decimal (addr % 256) ++ (codes ":" ++ decimal (get_port a))))))))

unfoldable pub broadcast_address : ℕ → Ipv4Address → Option Ipv4Address
unfolding create_mask
broadcast_address prefix_len a =
    if ltb 32 prefix_len
    then none
    else some (record a { s_addr = bit_or a.s_addr (byteswap 4 (create_mask 32 prefix_len)) })

unfoldable pub network_address : ℕ → Ipv4Address → Option Ipv4Address
unfolding create_mask
network_address prefix_len a =
    if ltb 32 prefix_len
    then none
    else some (record a { s_addr = bit_and a.s_addr (byteswap 4 (create_mask 32 prefix_len)) })

unfoldable pub subnet_mask : ℕ → Ipv4Address
unfolding create_mask
subnet_mask prefix_len = record {
  sin_port = 0;
  s_addr = bit_xor (byteswap 4 (create_mask 32 prefix_len)) (2 ^ 32 - 1);
}

-- `sockaddr_in6`: the address is its sixteen bytes.
pub record Ipv6Address : Type 0 where
  pub sin6_port : ℕ
  pub s6_addr : List ℕ

-- A write outside of `s6_addr` is a fault.
abbrev change : ℕ → (ℕ → ℕ) → List ℕ → Option (List ℕ)
change i f bs = elim (get_elem? bs i) [ none ↦ none | some b ↦ some (set bs i (f b)) ]

-- The loops that set the bytes behind and before the one that the prefix ends in.
unfoldable pub fill_after : ℕ → List ℕ → List ℕ
fill_after i bs = take i bs ++ replicate (length bs - i) 0xff

unfoldable pub fill_before : ℕ → List ℕ → List ℕ
fill_before i bs = replicate i 0xff ++ drop i bs

abbrev at : Ipv6Address → List ℕ → Ipv6Address
at a bs = record a { s6_addr = bs }

unfoldable pub broadcast_address6 : ℕ → Ipv6Address → Option Ipv6Address
unfolding create_mask fill_after
broadcast_address6 prefix_len a =
    elim (change (prefix_len / 8) (λ b. bit_or b (create_mask 8 (prefix_len % 8))) a.s6_addr) [
      | none ↦ none
      | some bs ↦ some (at a (fill_after (prefix_len / 8 + 1) bs))
    ]

unfoldable pub network_address6 : ℕ → Ipv6Address → Option Ipv6Address
unfolding create_mask
network_address6 prefix_len a =
    elim (change (prefix_len / 8) (λ b. bit_and b (create_mask 8 (prefix_len % 8))) a.s6_addr) [
      | none ↦ none
      | some bs ↦ some (at a bs)
    ]

unfoldable pub subnet_mask6 : ℕ → Option Ipv6Address
unfolding create_mask fill_before
subnet_mask6 prefix_len =
    elim (change (prefix_len / 8) (λ b. bit_xor (create_mask 8 (prefix_len % 8)) 0xff)
      (replicate 16 0)) [
        | none ↦ none
        | some bs ↦ some (record { sin6_port = 0; s6_addr = fill_before (prefix_len / 8) bs })
      ]

-- `UnixAddress`: `sun_path` holds 108 bytes, and `m_length` counts the two of the family as well.
pub record UnixAddress : Type 0 where
  pub sun_path : Text
  pub length_of : ℕ

abbrev is_abstract : Text → Bool
is_abstract [] = false
is_abstract (c ∷ cs) = c == 0

-- `none` is the exception. What the path does not fill is zero.
unfoldable pub new_unix : Text → Option UnixAddress
new_unix path =
    let n : ℕ = length path + 1 - (if is_abstract path then 1 else 0) in
    if ltb 108 n
    then none
    else some (record { sun_path = path ++ replicate (108 - length path) 0; length_of = n + 2 })

-- A C string ends before its first zero byte.
abbrev c_string : Text → Text
c_string [] = []
c_string (c ∷ cs) = if c == 0 then [] else c ∷ c_string cs

-- `insert`
unfoldable pub show_unix : UnixAddress → Text
show_unix a =
    if ltb 2 a.length_of && is_abstract a.sun_path
    then codes "\\0" ++ take (a.length_of - 2 - 1) (drop 1 a.sun_path)
    else c_string a.sun_path

-- `memcmp` over as many bytes as the shorter has, then the lengths: `operator<`.
unfoldable pub less_bytes : List ℕ → List ℕ → Bool
less_bytes [] [] = false
less_bytes [] (y ∷ ys) = true
less_bytes (x ∷ xs) [] = false
less_bytes (x ∷ xs) (y ∷ ys) = if ltb x y then true else if ltb y x then false else less_bytes xs ys
