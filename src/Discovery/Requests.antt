-- ===== src/Discovery/Requests.antt =====
-- src/electrum/discovery.rs: what a request of a peer can put into the queue.

use mathlib.Core.Bool.{decide}
use splora.Common.{
  ℕ, ◌+◌, ◌≤◌, ◌≡◌, refl, sym, ap, ◌∙◌, Bool, true, false, not, ◌&&◌, Option, none, some, List, [],
  ◌∷◌, ◌++◌, ltb, leb, arith, inl, inr, Bool-cases, Option-cases, length, take, zero, suc,
  length-take, length-append,
}
use splora.Common.Results.{ok, err, returns, Outcome-cases, ok-injective}
use splora.Common.Text.{Text, byte_len}
use splora.Discovery.Addr.{
  Hostname, IpAddr, ServerAddr, clearnet, onion, Service, IpAddr-discrete, is_remote_addr,
}
use splora.Discovery.Queue
use splora.Discovery.Queue.{HealthCheck}
use splora.Discovery.{
  DiscoveryManager, ServerPorts, ServerFeatures, contains_addr, is_queued, new_jobs, candidates,
  admit, add_server_request, verify_compatibility, queue_size_exceeded, max_queue_size,
  max_services_per_request, max_servers_per_request, port_services,
}

-- The address of the peer itself, or an onion service.
unfoldable pub is_own : IpAddr → ServerAddr → Bool
unfolding decide
is_own ip (onion h) = true
is_own ip (clearnet a) = decide (IpAddr-discrete a ip)

-- A job that a request may add.
unfoldable pub may_add : DiscoveryManager → IpAddr → HealthCheck → Bool
unfolding decide is_own Queue.has_key
may_add m ip j =
    is_remote_addr j.addr
    && not (contains_addr m.our_addrs j.addr)
    && is_own ip j.addr
    && leb (byte_len j.hostname) 100
    && not (is_queued m.queue j.addr j.service)

abbrev pub all_jobs : (HealthCheck → Bool) → List HealthCheck → Bool
all_jobs p [] = true
all_jobs p (j ∷ js) = p j && all_jobs p js

all_jobs-take :
    (p : HealthCheck → Bool) (n : ℕ) (js : List HealthCheck)
    → all_jobs p js ≡ true
    → all_jobs p (take n js) ≡ true
all_jobs-take p zero js h = refl
all_jobs-take p (suc n) [] h = refl
all_jobs-take p (suc n) (j ∷ js) h = ground (arith, all_jobs-take p n js, h)

all_jobs-append :
    (p : HealthCheck → Bool) (js ks : List HealthCheck)
    → all_jobs p js ≡ true
    → all_jobs p ks ≡ true
    → all_jobs p (js ++ ks) ≡ true
all_jobs-append p [] ks h k = k
all_jobs-append p (j ∷ js) ks h k = ground (arith, all_jobs-append p js ks, h, k)

new_jobs-may_add :
    (m : DiscoveryManager) (ip : IpAddr) (addr : ServerAddr) (hostname : Hostname)
    (ss : List Service)
    → is_remote_addr addr ≡ true
    → contains_addr m.our_addrs addr ≡ false
    → is_own ip addr ≡ true
    → byte_len hostname ≤ 100
    → all_jobs (may_add m ip) (new_jobs m.queue ip addr hostname ss) ≡ true
unfolding new_jobs may_add Queue.new
new_jobs-may_add m ip addr hostname [] r o w l = refl
new_jobs-may_add m ip addr hostname (s ∷ ss) r o w l =
    ground (arith, new_jobs-may_add m ip addr hostname ss r o w l, r, o, w, l)

abbrev accepted : DiscoveryManager → IpAddr → Option (ServerAddr × Hostname × ServerPorts) → Bool
accepted m ip none = true
accepted m ip (some (addr, hostname, ports)) =
    is_remote_addr addr
    && not (contains_addr m.our_addrs addr)
    && is_own ip addr
    && leb (byte_len hostname) 100

verify_compatibility-returns :
    (m : DiscoveryManager) (f : ServerFeatures) → returns (verify_compatibility m f) ≡ true
unfolding verify_compatibility
verify_compatibility-returns m f = ground arith

module _ (parse_ip : Text → Option IpAddr) (lookup_host : Text → Option IpAddr) where
  admit-accepted :
      (m : DiscoveryManager) (ip : IpAddr) (h : Hostname × ServerPorts)
      → accepted m ip (admit parse_ip lookup_host m ip h) ≡ true
  unfolding admit is_own decide
  admit-accepted m ip (name, p) = ground arith

  admitted :
      (m : DiscoveryManager) (ip : IpAddr) (h : Hostname × ServerPorts) (addr : ServerAddr)
      (hostname : Hostname) (ports : ServerPorts)
      → admit parse_ip lookup_host m ip h ≡ some (addr, hostname, ports)
      → (is_remote_addr addr ≡ true)
        × (contains_addr m.our_addrs addr ≡ false)
        × (is_own ip addr ≡ true)
        × (byte_len hostname ≤ 100)
  admitted m ip h addr hostname ports e =
      let a : accepted m ip (some (addr, hostname, ports)) ≡ true =
        ap (accepted m ip) (sym e) ∙ admit-accepted m ip h in
      ground (arith, a)

  candidates-may_add :
      (m : DiscoveryManager) (ip : IpAddr) (hs : List (Hostname × ServerPorts))
      → all_jobs (may_add m ip) (candidates parse_ip lookup_host m ip hs) ≡ true
  unfolding candidates
  candidates-may_add m ip [] = refl
  candidates-may_add m ip (h ∷ hs) = elim (Option-cases (admit parse_ip lookup_host m ip h)) [
    | inl e ↦ rw (e, candidates) (candidates-may_add m ip hs)
    | inr ((addr, hostname, ports), e) ↦
        let (r, o, w, l) = admitted m ip h addr hostname ports e in
        rw (e, candidates)
          (all_jobs-append (may_add m ip) (new_jobs m.queue ip addr hostname (port_services ports))
            (candidates parse_ip lookup_host m ip hs)
            (new_jobs-may_add m ip addr hostname (port_services ports) r o w l)
            (candidates-may_add m ip hs))
  ]

  -- A request that is accepted adds at most six jobs behind the queue, which keeps within 500; each
  -- is for a service that was not queued, at a remote address that is not ours and is the
  -- requester's own if it is not an onion service, under a name of at most 100 bytes. Nothing else
  -- of the state changes.
  pub add_server_request_bounds :
      (m : DiscoveryManager) (ip : IpAddr) (f : ServerFeatures) (m' : DiscoveryManager)
      → add_server_request parse_ip lookup_host m ip f ≡ ok m'
      → (jobs : List HealthCheck) × (m' ≡ record m { queue = m.queue ++ jobs })
        × (length jobs ≤ 6)
        × (length (m.queue ++ jobs) ≤ 500)
        × (all_jobs (may_add m ip) jobs ≡ true)
        × (verify_compatibility m f ≡ ok tt)
  unfolding add_server_request
  add_server_request_bounds m ip f m' e =
      elim (Outcome-cases (verify_compatibility m f) (verify_compatibility-returns m f)) [
        | inr (x, v) ↦ let r : err x ≡ ok m' = rw (v, add_server_request) at e in ground (arith, r)
        | inl (t, v) ↦ elim (Bool-cases (ltb (length m.queue) max_queue_size)) [
          | inr full ↦
              let r : err queue_size_exceeded ≡ ok m' = rw (v, full, add_server_request) at e in
              ground (arith, r)
          | inl room ↦
              let jobs =
                take max_services_per_request
                  (candidates parse_ip lookup_host m ip (take max_servers_per_request f.hosts)) in
              elim (Bool-cases (leb (length m.queue + length jobs) max_queue_size)) [
                | inr full ↦
                    let r : err queue_size_exceeded ≡ ok m' =
                      rw (v, room, full, add_server_request) at e in
                    ground (arith, r)
                | inl fits ↦
                    let r : ok (record m { queue = m.queue ++ jobs }) ≡ ok m' =
                      rw (v, room, fits, add_server_request) at e in
                    (
                      jobs,
                      sym (ok-injective (record m { queue = m.queue ++ jobs }) m' r),
                      ground (
                        arith,
                        length-take 6 (
                            candidates parse_ip lookup_host m ip
                              (take max_servers_per_request f.hosts)),
                      ),
                      ground (arith, fits, length-append m.queue jobs),
                      all_jobs-take (may_add m ip) 6 _
                          (candidates-may_add m ip (take max_servers_per_request f.hosts)),
                      v,
                    )
              ]
        ]
      ]
