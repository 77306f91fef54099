-- ===== src/Discovery/Listing.antt =====
-- src/electrum/discovery.rs and src/electrum/mod.rs: what clients are sent of the healthy servers,
-- the texts of versions and services, and the height of a transaction. `show_ip` is the standard
-- library's text of an address. The services of a server come in any order.

use splora.Common.{
  ℕ, zero, suc, ◌+◌, ◌-◌, ◌*◌, ◌/◌, ◌%◌, ◌^◌, Bool, true, false, ◌&&◌, Option, none, some, List, [],
  ◌∷◌, ◌++◌, map, ◌==◌, leb, ltb, if◌then◌else◌, ◌>>=◌,
}
use splora.Common.Lines.{split_on}
use splora.Common.Text.{Text, codes}
use splora.Headers.{BlockId}
use splora.Discovery.Addr.{Hostname, IpAddr, ServerAddr, clearnet, onion, Service, tcp, ssl}
use splora.Discovery.{DiscoveryManager, ProtocolVersion, Server, ServerFeatures}

-- The decimal digits of a number, before the ones that are there. A number has fewer digits than
-- one more than itself.
unfoldable pub digits : ℕ → ℕ → Text → Text
digits zero n text = text
digits (suc fuel) n text =
    let more = digits fuel (n / 10) ((48 + n % 10) ∷ text) in
    if n / 10 == 0 then (48 + n % 10) ∷ text else more

abbrev pub show_number : ℕ → Text
show_number n = digits (suc n) n []

-- `Display for Service`
unfoldable pub show_service : Service → Text
unfolding digits
show_service (tcp port) = codes "t" ++ show_number port
show_service (ssl port) = codes "s" ++ show_number port

-- `Display for ProtocolVersion`
unfoldable pub show_version : ProtocolVersion → Text
unfolding digits
show_version v = show_number v.major ++ 46 ∷ show_number v.minor

-- `str::parse::<usize>`, after an optional plus sign: no digit, another character and an overflow
-- of 64 bits are errors.
unfoldable pub parse_digits : ℕ → Text → Option ℕ
parse_digits value [] = some value
parse_digits value (c ∷ s) =
    let next = value * 10 + (c - 48) in
    let rest = parse_digits next s in
    if leb 48 c && leb c 57 && ltb next (2 ^ 64) then rest else none

unfoldable pub parse_usize : Text → Option ℕ
unfolding parse_digits
parse_usize [] = none
parse_usize (c ∷ []) = parse_digits 0 (c ∷ [])
parse_usize (c ∷ d ∷ s) = if c == 43 then parse_digits 0 (d ∷ s) else parse_digits 0 (c ∷ d ∷ s)

abbrev pub version_of_parts : List Text → Option ProtocolVersion
version_of_parts (a ∷ b ∷ more) = do
  major ← parse_usize a
  minor ← parse_usize b
  some (record { major = major; minor = minor })
version_of_parts parts = none

-- `FromStr for ProtocolVersion`: what follows a second dot is passed over.
unfoldable pub parse_version : Text → Option ProtocolVersion
unfolding split_on parse_usize
parse_version s = version_of_parts (split_on 46 s)

-- `Server::new`
abbrev pub new_server : Hostname → ServerFeatures → Server
new_server hostname features = record { services = []; hostname = hostname; features = features }

unfoldable pub feature_strs : Server → List Text
unfolding show_version show_service
feature_strs s =
    (codes "v" ++ show_version s.features.protocol_max)
    ∷ ((elim s.features.pruning [ none ↦ [] | some p ↦ (codes "p" ++ show_number p) ∷ [] ])
        ++ map show_service s.services)

pub record ServerEntry : Type 0 where
  pub addr : Text
  pub hostname : Hostname
  pub strs : List Text

module _ (show_ip : IpAddr → Text) where
  -- `Display for ServerAddr`
  unfoldable pub show_addr : ServerAddr → Text
  show_addr (clearnet ip) = show_ip ip
  show_addr (onion hostname) = hostname

  unfoldable pub get_servers : DiscoveryManager → List ServerEntry
  unfolding show_addr feature_strs
  get_servers m =
      map
        (λ (addr, server). record {
          addr = show_addr addr;
          hostname = server.hostname;
          strs = feature_strs server;
        })
        m.healthy

-- An `isize` that is a height, or -1.
pub data ElectrumHeight : Type 0 where
  at : ℕ → ElectrumHeight
  minus_one : ElectrumHeight

unfoldable pub get_electrum_height : Option BlockId → Bool → ElectrumHeight
get_electrum_height (some b) has_unconfirmed_parents = at b.height
get_electrum_height none false = at 0
get_electrum_height none true = minus_one

-- How Electrum listens.
pub data ElectrumListenPlan : Type 0 where
  unix : Text → ElectrumListenPlan
  http_only : ElectrumListenPlan

unfoldable pub from_rpc_socket_file : Option Text → ElectrumListenPlan
from_rpc_socket_file (some path) = unix path
from_rpc_socket_file none = http_only
