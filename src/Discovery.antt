-- ===== src/Discovery.antt =====
-- src/electrum/discovery.rs, with the types of src/electrum/mod.rs: the peers that ask to be
-- listed, the queue of health checks, and the healthy servers that clients are sent. Times are
-- seconds. A text is the list of its characters. What leaves the process is a parameter: `parse_ip`
-- is `IpAddr::from_str` and `lookup_host` the name service. Checking has the health checks.
-- The `HashMap` of hosts comes in any order, and so do jobs of the same age in the binary heap.
pub mod Addr
pub mod Queue
pub mod Checking
pub mod Listing
pub mod Versions
pub mod Requests
pub mod Consistent
pub mod Checks
pub mod Duplicates
pub mod Announcing
use mathlib.Core.Option
use mathlib.Core.Bool.{decide}
use mathlib.Core.List.{filter_map}
use splora.Common.{
  ℕ, zero, suc, ◌+◌, ◌-◌, ◌≡◌, Bool, true, false, not, ◌&&◌, ◌||◌, Option, none, some, List, [],
  ◌∷◌, ◌++◌, map, ◌==◌, ltb, leb, if◌then◌else◌, length, take,
}
use splora.Common.Results.{Outcome, ok, err, panic, or_panic, or_err, ◌>>=◌}
use splora.Common.Maps
use splora.Common.Maps.{Map}
use splora.Common.Text.{Text, byte_len, codes, text_eq, ends_with, to_lowercase}
use splora.Discovery.Addr.{
  Hostname, IpAddr, ServerAddr, Service, addr_key, ServerAddr-discrete, Service-discrete,
  IpAddr-discrete, clearnet, onion, tcp, ssl, is_remote_addr,
}
use splora.Discovery.Queue
use splora.Discovery.Queue.{HealthCheck, is_healthy, should_retry, has_key}

abbrev pub health_check_freq : ℕ
health_check_freq = 3600

abbrev pub max_queue_size : ℕ
max_queue_size = 500

abbrev pub max_servers_per_request : ℕ
max_servers_per_request = 3

abbrev pub max_services_per_request : ℕ
max_services_per_request = 6

pub record ProtocolVersion : Type 0 where
  pub major : ℕ
  pub minor : ℕ

-- `Ord for ProtocolVersion`
unfoldable pub version_le : ProtocolVersion → ProtocolVersion → Bool
version_le v w = ltb v.major w.major || ((v.major == w.major) && leb v.minor w.minor)

pub record ServerPorts : Type 0 where
  pub tcp_port : Option ℕ
  pub ssl_port : Option ℕ

pub record ServerFeatures : Type 0 where
  pub hosts : List (Hostname × ServerPorts)
  pub genesis_hash : ℕ
  pub server_version : Text
  pub protocol_min : ProtocolVersion
  pub protocol_max : ProtocolVersion
  pub pruning : Option ℕ
  pub hash_function : Text

pub record Server : Type 0 where
  pub services : List Service
  pub hostname : Hostname
  pub features : ServerFeatures

pub record DiscoveryManager : Type 0 where
  pub queue : List HealthCheck
  pub healthy : Map ServerAddr Server
  pub our_version : ProtocolVersion
  pub our_addrs : List ServerAddr
  pub our_features : ServerFeatures
  pub announce : Bool
  pub tor_proxy : Bool

pub data DiscoveryError : Type 0 where
  incompatible_networks incompatible_versions incompatible_hash_function : DiscoveryError
  queue_size_exceeded resolution_failed no_tor_proxy unreachable no_add_peer : DiscoveryError

-- `ensure!`
abbrev pub ensure {ℓ} :
    {A : Type ℓ} → Bool → DiscoveryError → Outcome DiscoveryError A → Outcome DiscoveryError A
ensure true e rest = rest
ensure false e rest = err e

unfoldable pub verify_compatibility :
    DiscoveryManager → ServerFeatures → Outcome DiscoveryError (Unit {0})
unfolding version_le
verify_compatibility m f =
    ensure (f.genesis_hash == m.our_features.genesis_hash) incompatible_networks (
      ensure (version_le f.protocol_min m.our_version && version_le m.our_version f.protocol_max)
        incompatible_versions
        (ensure (text_eq f.hash_function (codes "sha256")) incompatible_hash_function (ok tt)))

abbrev pub contains_addr : List ServerAddr → ServerAddr → Bool
contains_addr [] a = false
contains_addr (b ∷ bs) a = decide (ServerAddr-discrete b a) || contains_addr bs a

-- `existing_services`: whether the queue has a job of the service at the address.
abbrev pub is_queued : List HealthCheck → ServerAddr → Service → Bool
is_queued [] addr service = false
is_queued (j ∷ js) addr service = has_key addr service j || is_queued js addr service

unfoldable pub port_services : ServerPorts → List Service
port_services p =
    (elim p.tcp_port [ none ↦ [] | some port ↦ tcp port ∷ [] ])
    ++ (elim p.ssl_port [ none ↦ [] | some port ↦ ssl port ∷ [] ])

-- The `flat_map`: a job for each service that is not queued yet.
unfoldable pub new_jobs :
    List HealthCheck → IpAddr → ServerAddr → Hostname → List Service → List HealthCheck
unfolding has_key decide Queue.new
new_jobs queue added_by addr hostname [] = []
new_jobs queue added_by addr hostname (s ∷ ss) =
    let rest = new_jobs queue added_by addr hostname ss in
    if is_queued queue addr s then rest else Queue.new addr hostname s (some added_by) ∷ rest

module _ (parse_ip : Text → Option IpAddr) (lookup_host : Text → Option IpAddr) where
  -- `ServerAddr::resolve`
  unfoldable pub resolve : Hostname → Outcome DiscoveryError ServerAddr
  resolve host = if ends_with (codes ".onion") host then ok (onion host) else elim (parse_ip host) [
    | some ip ↦ ok (clearnet ip)
    | none ↦ elim (lookup_host host) [ none ↦ err resolution_failed | some ip ↦ ok (clearnet ip) ]
  ]

  -- The `filter_map` of `add_server_request`: the address that a host of a request stands for.
  unfoldable pub admit :
      DiscoveryManager
      → IpAddr
      → Hostname × ServerPorts
      → Option (ServerAddr × Hostname × ServerPorts)
  unfolding resolve
  admit m added_by (name, ports) =
      let hostname = to_lowercase name in
      if ltb 100 (byte_len hostname) then none else elim (resolve hostname) [
        | err e ↦ none
        | panic ↦ none
        | ok addr ↦
            if not (is_remote_addr addr) || contains_addr m.our_addrs addr
            then none
            else elim addr [
              | onion h ↦ some (onion h, hostname, ports)
              | clearnet ip ↦
                  if decide (IpAddr-discrete ip added_by)
                  then some (clearnet ip, hostname, ports)
                  else none
            ]
      ]

  unfoldable pub candidates :
      DiscoveryManager → IpAddr → List (Hostname × ServerPorts) → List HealthCheck
  unfolding admit port_services new_jobs
  candidates m added_by [] = []
  candidates m added_by (h ∷ hs) =
      let rest = candidates m added_by hs in
      elim (admit m added_by h) [
        | none ↦ rest
        | some (addr, hostname, ports) ↦
            new_jobs m.queue added_by addr hostname (port_services ports) ++ rest
      ]

  unfoldable pub add_server_request :
      DiscoveryManager → IpAddr → ServerFeatures → Outcome DiscoveryError DiscoveryManager
  unfolding verify_compatibility candidates
  add_server_request m added_by features = do
    _ ← verify_compatibility m features
    ensure (ltb (length m.queue) max_queue_size) queue_size_exceeded (
        let jobs =
          take max_services_per_request
            (candidates m added_by (take max_servers_per_request features.hosts)) in
        ensure (leb (length m.queue + length jobs) max_queue_size) queue_size_exceeded
          (ok (record m { queue = m.queue ++ jobs })))

  unfoldable pub add_default_server :
      DiscoveryManager → Hostname → List Service → Outcome DiscoveryError DiscoveryManager
  unfolding resolve
  add_default_server m hostname services = do
    addr ← resolve hostname
    ok (record m { queue = m.queue ++ map (λ s. Queue.new addr hostname s none) services })
