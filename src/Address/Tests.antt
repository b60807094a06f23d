-- ===== src/Address/Tests.antt =====
-- Tests of the addresses, and examples of the theorems about them.
use ota_new.Common.{
  ◌+◌, ◌-◌, ◌*◌, ◌/◌, ◌%◌, ◌^◌, ◌<◌, ◌≡◌, refl, some, none, [], ◌∷◌, codes, replicate, arith,
  decimal, decimal_of,
}
use ota_new.ByteArray.Codec.{byteswap, le_bytes, of_le}
use ota_new.Address.{
  Ipv4Address, Ipv6Address, new_ipv4, get_port, show_ipv4, broadcast_address, network_address,
  subnet_mask, broadcast_address6, subnet_mask6, new_unix, show_unix, create_mask, fill_after,
  fill_before,
}
use ota_new.Address.Prefix.{host, broadcast_address-range, network_address-host}

-- 192.168.1.77
abbrev lan : Ipv4Address
lan = record { sin_port = 0x901f; s_addr = 0x4d01a8c0 }

lan_text : show_ipv4 lan ≡ codes "192.168.1.77:8080"
unfolding show_ipv4 byteswap le_bytes of_le get_port decimal decimal_of
lan_text = refl

loopback_text : show_ipv4 (new_ipv4 0x7f000001 8080) ≡ codes "127.0.0.1:0"
unfolding show_ipv4 new_ipv4 byteswap le_bytes of_le get_port decimal decimal_of
loopback_text = refl

abbrev local6 : Ipv6Address
local6 = record { sin6_port = 0; s6_addr = 0xfe ∷ (0x80 ∷ replicate 14 1) }

whole_prefix6 : broadcast_address6 128 local6 ≡ none
unfolding broadcast_address6
whole_prefix6 = refl

broadcast6_run :
    broadcast_address6 12 local6
    ≡ some (record { sin6_port = 0; s6_addr = 0xfe ∷ (0x8f ∷ replicate 14 0xff) })
unfolding broadcast_address6 create_mask fill_after
broadcast6_run = refl

mask6_run :
    subnet_mask6 12 ≡ some (record { sin6_port = 0; s6_addr = 0xff ∷ (0xf0 ∷ replicate 14 0) })
unfolding subnet_mask6 create_mask fill_before
mask6_run = refl

unix_run : elim (new_unix (codes "/tmp/s")) [ none ↦ [] | some a ↦ show_unix a ] ≡ codes "/tmp/s"
unfolding new_unix show_unix
unix_run = refl

broadcast_address-range_example :
    ((b : Ipv4Address) × (broadcast_address 24 lan ≡ some b)
      × (host b ≡ host lan / 2 ^ (32 - 24) * 2 ^ (32 - 24) + (2 ^ (32 - 24) - 1))
      × (b.sin_port ≡ lan.sin_port))
    × (host (subnet_mask 24) ≡ 2 ^ 32 - 2 ^ (32 - 24))
broadcast_address-range_example = broadcast_address-range 24 lan (omega arith) (omega arith)

network_address-host_example :
    (b : Ipv4Address) × (network_address 24 lan ≡ some b)
    × (host b ≡ host lan % 2 ^ (32 - 24))
    × (host b < 2 ^ (32 - 24))
network_address-host_example = network_address-host 24 lan (omega arith) (omega arith)
