-- ===== src/Tests/Peers.antt =====
-- Peers that ask to be listed, and the checks of their services.

use splora.Common.{
  ◌≤◌, ◌≡◌, refl, true, false, Option, none, some, List, [], ◌∷◌, ◌++◌, arith, length,
}
use splora.Common.Results.{ok}
use splora.Common.Maps
use splora.Common.Text.{Text, codes, text_eq, ends_with, to_lowercase}
use splora.Discovery.Addr.{
  IpAddr, v4, Hostname, ServerAddr, clearnet, Service, tcp, IpAddr-discrete, ServerAddr-discrete,
  Service-discrete, is_remote_addr,
}
use splora.Discovery.Queue
use splora.Discovery.Queue.{HealthCheck, is_healthy, has_key, count_jobs}
use splora.Discovery.{
  ProtocolVersion, ServerFeatures, DiscoveryManager, DiscoveryError, unreachable, no_add_peer,
  add_server_request, verify_compatibility,
}
use splora.Discovery.Checking.{finish_check, run_health_check}
use splora.Discovery.Consistent.{IsConsistent, listed, passes, is_ahead}
use splora.Discovery.Listing.{show_version, parse_version}
use splora.Discovery.Versions.{parse_version-show_version}
use splora.Discovery.Checks.{run_health_check-IsConsistent}
use splora.Discovery.Duplicates.{finish_check-panics}
use splora.Discovery.Announcing.{Shrinks, run_health_check-Shrinks}
use splora.Discovery.Requests.{add_server_request_bounds, all_jobs, may_add}

abbrev ip : IpAddr
ip = v4 8 8 4 4

abbrev parse_ip : Text → Option IpAddr
parse_ip t = some ip

abbrev lookup_host : Text → Option IpAddr
lookup_host t = none

abbrev version : ProtocolVersion
version = record { major = 1; minor = 4 }

abbrev features : ServerFeatures
features = record {
  hosts = (codes "Peer.example", record { tcp_port = some 50001; ssl_port = none }) ∷ [];
  genesis_hash = 1;
  server_version = codes "v";
  protocol_min = version;
  protocol_max = version;
  pruning = none;
  hash_function = codes "sha256";
}

abbrev job : HealthCheck
job = record {
  addr = clearnet ip;
  hostname = codes "peer.example";
  service = tcp 50001;
  is_default = false;
  added_by = some ip;
  last_check = none;
  last_healthy = none;
  consecutive_failures = 0;
}

abbrev manager : DiscoveryManager
manager = record {
  queue = [];
  healthy = [];
  our_version = version;
  our_addrs = [];
  our_features = features;
  announce = false;
  tor_proxy = false;
}

abbrev with_job : DiscoveryManager
with_job = record manager { queue = job ∷ [] }

add_server_request_bounds_example :
    (jobs : List HealthCheck) × (with_job ≡ record manager { queue = [] ++ jobs })
    × (length jobs ≤ 6)
    × (length ([] ++ jobs) ≤ 500)
    × (all_jobs (may_add manager ip) jobs ≡ true)
    × (verify_compatibility manager features ≡ ok tt)
unfolding add_server_request text_eq to_lowercase ends_with is_remote_addr IpAddr-discrete
add_server_request_bounds_example =
    add_server_request_bounds parse_ip lookup_host manager ip features with_job refl

with_job-IsConsistent : IsConsistent with_job.queue with_job.healthy
unfolding listed passes is_ahead is_healthy has_key Maps.get
with_job-IsConsistent = record {
  unique = λ a s. ground arith;
  timed = refl;
  agreed = λ a s. ground arith;
}

abbrev answers : ServerAddr → Hostname → Service → Option ServerFeatures
answers a h s = some features

run_health_check-IsConsistent_example :
    (m' : DiscoveryManager) × (e : Option DiscoveryError) × (run_health_check answers with_job 100
        101
      ≡ some (m', e))
    × IsConsistent m'.queue m'.healthy
run_health_check-IsConsistent_example =
    run_health_check-IsConsistent answers with_job 100 101 with_job-IsConsistent (omega arith)

-- Two jobs of one service, both healthy, and the server of both.
abbrev healthy_job : HealthCheck
healthy_job = record job { last_check = some 5; last_healthy = some 5 }

abbrev twice : DiscoveryManager
twice = record manager {
  queue = healthy_job ∷ [];
  healthy =
      (
        clearnet ip,
        record { services = tcp 50001 ∷ []; hostname = codes "peer.example"; features = features },
      )
      ∷ [];
}

abbrev silent : ServerAddr → Hostname → Service → Option ServerFeatures
silent a h s = none

-- After the failed check of one of them.
abbrev once : DiscoveryManager
once = record manager {
  queue =
      record healthy_job { last_check = some 4000; consecutive_failures = 1 } ∷ healthy_job ∷ [];
  healthy = [];
}

finish_check-panics_example : finish_check silent once healthy_job [] 4001 ≡ none
unfolding finish_check is_healthy Maps.get ServerAddr-discrete Service-discrete Queue.should_retry
    Maps.remove has_key
finish_check-panics_example =
    finish_check-panics silent silent twice once healthy_job healthy_job (healthy_job ∷ []) [] 4000
      4001 unreachable unreachable (some unreachable) refl refl refl refl refl refl

-- The first of the two, with `announce` set and a server that answers.
abbrev announcing : DiscoveryManager
announcing = record twice { announce = true }

abbrev announced : DiscoveryManager
announced = record once {
  queue = record healthy_job { last_check = some 4000; consecutive_failures = 1 } ∷ [];
  announce = true;
}

run_health_check-Shrinks_example : Shrinks announcing.healthy announced.healthy
unfolding run_health_check finish_check is_healthy Maps.get ServerAddr-discrete Service-discrete
    Queue.should_retry Maps.remove has_key Queue.pop
run_health_check-Shrinks_example =
    run_health_check-Shrinks answers announcing announced 3999 4000 (some no_add_peer) refl refl

-- Two names of one address in a request give two jobs of one service.
two_names :
    add_server_request parse_ip lookup_host manager ip (record features {
      hosts =
          (codes "a.example", record { tcp_port = some 50001; ssl_port = none })
          ∷ (codes "b.example", record { tcp_port = some 50001; ssl_port = none })
          ∷ [];
    })
    ≡ ok (record manager {
      queue =
          record job { hostname = codes "a.example" }
          ∷ record job { hostname = codes "b.example" }
          ∷ [];
    })
unfolding add_server_request text_eq to_lowercase ends_with is_remote_addr IpAddr-discrete
two_names = refl

parse_version-show_version_example : parse_version (show_version version) ≡ some version
parse_version-show_version_example = parse_version-show_version version (omega arith) (omega arith)
