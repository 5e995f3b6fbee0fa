-- ===== src/InetAddress/Tests.antt =====
-- The texts of some addresses.
use netfish.Prelude.{ℕ, ◌≡◌, refl, List, ◌∷◌, ◌++◌, some, arith}
use netfish.Prelude.Decimal.{codes, decimal, value_from}
use netfish.InetAddress.{from_port, from_ip, to_text}
use netfish.InetAddress.Dotted.{ntop, little_endian, little_endian-IsInet}
use netfish.InetAddress.Text.{before_colon, behind_colon, address, from_ip-to_text}

any_address : to_text little_endian (from_port little_endian 8080) ≡ codes "0.0.0.0:8080"
unfolding to_text from_port decimal
any_address = refl

loopback :
    to_text little_endian (from_ip little_endian (codes "127.0.0.1") 9876) ≡ codes "127.0.0.1:9876"
unfolding to_text from_ip decimal
loopback = refl

from_ip-to_text_example :
    (let text = to_text little_endian (address little_endian 16777343 9876) in
      from_ip little_endian (before_colon text) (value_from 0 (behind_colon text))
      ≡ address little_endian 16777343 9876)
    × ((host : List ℕ)
        → ntop 16777343 ≡ some host
        → to_text little_endian (from_ip little_endian host 9876) ≡ host ++ (b':' ∷ decimal 9876))
from_ip-to_text_example =
    from_ip-to_text little_endian little_endian-IsInet 16777343 9876 (omega arith) (omega arith)
