-- ===== src/Discovery/Checking.antt =====
-- src/electrum/discovery.rs: the health checks of the peers. `probe` is what a server answers.
use mathlib.Core.Option
use mathlib.Core.Bool.{decide}
use splora.Common.{
  ℕ, ◌+◌, ◌-◌, Bool, false, ◌||◌, Option, none, some, List, [], ◌∷◌, ltb, if◌then◌else◌,
}
use splora.Common.Results.{Outcome, ok, err, panic, or_err, ◌>>=◌}
use splora.Common.Maps
use splora.Common.Maps.{Map}
use splora.Discovery.Addr.{
  Hostname, ServerAddr, Service, addr_key, Service-discrete, clearnet, onion,
}
use splora.Discovery.Queue
use splora.Discovery.Queue.{HealthCheck, is_healthy, should_retry, has_key}
use splora.Discovery.{
  Hostname, health_check_freq, ServerFeatures, Server, DiscoveryManager, DiscoveryError,
  verify_compatibility, unreachable, no_add_peer, no_tor_proxy,
}

abbrev pub contains_service : List Service → Service → Bool
contains_service [] s = false
contains_service (t ∷ ts) s = decide (Service-discrete t s) || contains_service ts s

-- `HashSet::insert` and `HashSet::remove` on services.
unfoldable pub insert_service : Service → List Service → List Service
unfolding decide
insert_service s ts = if contains_service ts s then ts else s ∷ ts

unfoldable pub remove_service : Service → List Service → List Service
unfolding decide
remove_service s [] = []
remove_service s (t ∷ ts) =
    let rest = remove_service s ts in if decide (Service-discrete t s) then rest else t ∷ rest

-- `elapsed` is less than the frequency: there was a check, and not long ago.
abbrev pub too_early : ℕ → HealthCheck → Bool
too_early now j = elim j.last_check [ none ↦ false | some t ↦ ltb (now - t) health_check_freq ]

-- `save_healthy_service`
unfoldable pub save_healthy_service :
    Map ServerAddr Server → HealthCheck → ServerFeatures → Map ServerAddr Server
unfolding insert_service
save_healthy_service healthy j features =
    let server : Server = elim (Maps.get j.addr healthy) [
      | none ↦ record { services = []; hostname = j.hostname; features = features }
      | some server ↦ server
    ] in
    Maps.insert j.addr (record server { services = insert_service j.service server.services })
      healthy

-- `remove_unhealthy_service`: the assertion and the `unreachable!` are panics.
unfoldable pub remove_unhealthy_service :
    Map ServerAddr Server → HealthCheck → Option (Map ServerAddr Server)
unfolding remove_service
remove_unhealthy_service healthy j = elim (Maps.get j.addr healthy) [
  | none ↦ none
  | some server ↦
      if contains_service server.services j.service
      then (elim (remove_service j.service server.services) [
        | [] ↦ some (Maps.remove j.addr healthy)
        | s ∷ ss ↦ some (Maps.insert j.addr (record server { services = s ∷ ss }) healthy)
      ])
      else none
]

module _ (probe : ServerAddr → Hostname → Service → Option ServerFeatures) where
  unfoldable pub check_server :
      DiscoveryManager → HealthCheck → Outcome DiscoveryError ServerFeatures
  unfolding verify_compatibility
  check_server m j =
      let reachable = (do
        features ← or_err unreachable (probe j.addr j.hostname j.service)
        _ ← verify_compatibility m features
        if m.announce then err no_add_peer else ok features) in
      elim j.addr [
        | clearnet ip ↦ reachable
        | onion h ↦ if m.tor_proxy then reachable else err no_tor_proxy
      ]

  -- The two ends of a check, at the time `after`. The error, if any, is beside the new state.
  unfoldable pub finish_check :
      DiscoveryManager
      → HealthCheck
      → List HealthCheck
      → ℕ
      → Option (DiscoveryManager × Option DiscoveryError)
  unfolding check_server save_healthy_service remove_unhealthy_service
  finish_check m j rest after = elim (check_server m j) [
    | panic ↦ none
    | ok features ↦ some (
      record m {
        queue =
            record j {
              last_check = some after;
              last_healthy = some after;
              consecutive_failures = 0;
            }
            ∷ rest;
        healthy = if is_healthy j then m.healthy else save_healthy_service m.healthy j features;
      },
      none,
    )
    | err e ↦
        let j' : HealthCheck = record j {
          last_check = some after;
          consecutive_failures = j.consecutive_failures + 1;
        } in
        let kept = if should_retry j' then j' ∷ rest else rest in
        Option.map (λ healthy. (record m { queue = kept; healthy = healthy }, some e))
          (if is_healthy j then remove_unhealthy_service m.healthy j else some m.healthy)
  ]

  -- `run_health_check`: `none` is a panic.
  unfoldable pub run_health_check :
      DiscoveryManager → ℕ → ℕ → Option (DiscoveryManager × Option DiscoveryError)
  unfolding finish_check
  run_health_check m now after = elim (Queue.pop m.queue) [
    | none ↦ some (m, none)
    | some (j, rest) ↦ if too_early now j then some (m, none) else finish_check m j rest after
  ]
