-- ===== src/Address/Port.antt =====
-- The port of an IPv4 address.
use ota_new.Common.{ℕ, ◌/◌, ◌^◌, ◌<◌, ◌≡◌, arith}
use ota_new.ByteArray.Codec.{byteswap, le_bytes, of_le}
use ota_new.Address.{new_ipv4, get_port, set_port}

-- The port that an address is made with is lost: `getPort` gives the half of the 32 bits above it, 0 for
-- every port that there is. What `setPort` sets afterwards is read back.
pub new_ipv4-port :
    (address port v : ℕ)
    → port < 2 ^ 32
    → v < 2 ^ 16
    → (get_port (new_ipv4 address port) ≡ port / 2 ^ 16)
      × (get_port (set_port v (new_ipv4 address port)) ≡ v)
unfolding new_ipv4 get_port set_port byteswap le_bytes of_le
new_ipv4-port address port v h k = (omega arith, omega arith)
