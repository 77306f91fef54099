-- ===== src/Discovery/Addr.antt =====
-- src/electrum/discovery.rs: addresses and services, and which addresses are remote. The tests
-- on addresses are those of `std::net`, over the four bytes or the 128 bits.
use splora.Common.{ℕ, ◌/◌, ◌^◌, Bool, true, false, not, ◌&&◌, ◌||◌, ◌==◌, leb, ℕ_discrete}
use splora.Common.Text.{Text, text_discrete}
use splora.Common.Maps.{Key}

pub data IpAddr : Type 0 where
  v4 : ℕ → ℕ → ℕ → ℕ → IpAddr
  v6 : ℕ → IpAddr

abbrev pub Hostname : Type 0
Hostname = Text

pub data ServerAddr : Type 0 where
  clearnet : IpAddr → ServerAddr
  onion : Hostname → ServerAddr

pub data Service : Type 0 where
  tcp ssl : ℕ → Service

unfoldable pub IpAddr-discrete : Discrete IpAddr
unfolding ℕ_discrete
IpAddr-discrete = hlevel ℕ_discrete

unfoldable pub ServerAddr-discrete : Discrete ServerAddr
unfolding ℕ_discrete text_discrete IpAddr-discrete
ServerAddr-discrete = hlevel (ℕ_discrete, text_discrete, IpAddr-discrete)

unfoldable pub Service-discrete : Discrete Service
unfolding ℕ_discrete
Service-discrete = hlevel ℕ_discrete

instance abbrev pub addr_key : Key ServerAddr
addr_key = record { eq? = ServerAddr-discrete }

unfoldable pub is_loopback : IpAddr → Bool
is_loopback (v4 a b c d) = a == 127
is_loopback (v6 n) = n == 1

unfoldable pub is_unspecified : IpAddr → Bool
is_unspecified (v4 a b c d) = (a == 0) && (b == 0) && (c == 0) && (d == 0)
is_unspecified (v6 n) = n == 0

unfoldable pub is_multicast : IpAddr → Bool
is_multicast (v4 a b c d) = leb 224 a && leb a 239
is_multicast (v6 n) = n / 2 ^ 120 == 255

unfoldable pub is_private : IpAddr → Bool
is_private (v4 a b c d) =
    (a == 10) || ((a == 172) && leb 16 b && leb b 31) || ((a == 192) && (b == 168))
is_private (v6 n) = false

-- `is_remote_addr`
unfoldable pub is_remote_addr : ServerAddr → Bool
unfolding is_loopback is_unspecified is_multicast is_private
is_remote_addr (onion host) = true
is_remote_addr (clearnet ip) =
    not (is_loopback ip) && not (is_unspecified ip) && not (is_multicast ip) && not (is_private ip)
