-- ===== src/Discovery/Consistent.antt =====
-- src/electrum/discovery.rs: what the queue and the healthy set have to agree on, and how the two
-- writes to the healthy set change what it lists.

use mathlib.Core.Bool.{decide}
use splora.Common.{
  ◌≤◌, ◌≡◌, refl, sym, ap, ◌∙◌, Bool, true, false, not, ◌&&◌, ◌||◌, Option, none, some, List, [],
  ◌∷◌, ltb, if◌then◌else◌, arith, inl, inr, Bool-cases, Option-cases,
}
use splora.Common.Maps
use splora.Common.Maps.{Map}
use splora.Discovery.Addr.{ServerAddr, Service, ServerAddr-discrete, Service-discrete, addr_key}
use splora.Discovery.Queue.{HealthCheck, is_healthy, has_key, count_jobs}
use splora.Discovery.{Server, ServerFeatures}
use splora.Discovery.Checking.{
  contains_service, insert_service, remove_service, save_healthy_service, remove_unhealthy_service,
}

-- Whether clients are sent the service at the address.
unfoldable pub listed : ServerAddr → Service → Map ServerAddr Server → Bool
unfolding decide
listed a s healthy = elim (Maps.get a healthy) [
  | none ↦ false
  | some server ↦ contains_service server.services s
]

-- A healthy job of the service at the address.
unfoldable pub passes : ServerAddr → Service → HealthCheck → Bool
unfolding has_key is_healthy
passes a s j = has_key a s j && is_healthy j

-- A job that was healthy after its last check.
unfoldable pub is_ahead : HealthCheck → Bool
is_ahead j = elim j.last_healthy [
  | none ↦ false
  | some t ↦ elim j.last_check [ none ↦ true | some c ↦ ltb c t ]
]

pub record IsConsistent (queue : List HealthCheck) (healthy : Map ServerAddr Server) : Type 0 where
  pub unique : (a : ServerAddr) (s : Service) → count_jobs (has_key a s) queue ≤ 1
  pub timed : count_jobs is_ahead queue ≡ 0
  pub agreed :
      (a : ServerAddr) (s : Service) → listed a s healthy ≡ ltb 0 (count_jobs (passes a s) queue)

contains-insert :
    (s t : Service) (ss : List Service)
    → contains_service (insert_service s ss) t
      ≡ (contains_service ss t || decide (Service-discrete s t))
unfolding insert_service decide
contains-insert s t ss = elim (Bool-cases (contains_service ss s)) [
  | inl e ↦
      elim (Service-discrete s t)
        as (λ d. contains_service (insert_service s ss) t ≡ (contains_service ss t || decide d)) [
          | yes p ↦ let e' : contains_service ss t ≡ true = rw p at e in ground (arith, e, e')
          | no q ↦ ground (arith, e)
        ]
  | inr e ↦ ground (arith, e)
]

pub contains-remove :
    (s t : Service) (ss : List Service)
    → contains_service (remove_service s ss) t
      ≡ (contains_service ss t && not (decide (Service-discrete s t)))
unfolding remove_service decide
contains-remove s t [] = refl
contains-remove s t (u ∷ us) = ground (arith, contains-remove s t us)

-- A write of one server, and what is listed then.
listed-insert :
    (a : ServerAddr) (s : Service) (b : ServerAddr) (server : Server)
    (healthy : Map ServerAddr Server)
    → listed a s (Maps.insert b server healthy) ≡ (
        if decide (ServerAddr-discrete b a)
        then contains_service server.services s
        else listed a s healthy)
unfolding listed decide
listed-insert a s b server healthy =
    elim (ServerAddr-discrete b a)
      as (λ d.
        listed a s (Maps.insert b server healthy)
        ≡ (if decide d then contains_service server.services s else listed a s healthy)) [
          | yes p ↦ ground (arith, Maps.get-insert b a server healthy, p)
          | no q ↦ ground (arith, Maps.get-insert b a server healthy, q)
        ]

listed-remove :
    (a : ServerAddr) (s : Service) (b : ServerAddr) (healthy : Map ServerAddr Server)
    → listed a s (Maps.remove b healthy)
      ≡ (if decide (ServerAddr-discrete b a) then false else listed a s healthy)
unfolding listed decide
listed-remove a s b healthy =
    elim (ServerAddr-discrete b a)
      as (λ d.
        listed a s (Maps.remove b healthy) ≡ (if decide d then false else listed a s healthy)) [
          | yes p ↦ ground (arith, Maps.get-remove b a healthy, p)
          | no q ↦ ground (arith, Maps.get-remove b a healthy, q)
        ]

listed-get :
    (a : ServerAddr) (s : Service) (b : ServerAddr) (healthy : Map ServerAddr Server)
    (o : Option Server)
    → Maps.get b healthy ≡ o
    → decide (ServerAddr-discrete b a) ≡ true
    → listed a s healthy
      ≡ elim o [ none ↦ false | some server ↦ contains_service server.services s ]
unfolding listed decide
listed-get a s b healthy o e d = elim (ServerAddr-discrete b a) [
  | yes p ↦
      ap (λ q. elim q [ none ↦ false | some server ↦ contains_service server.services s ])
        (ap (λ x. Maps.get x healthy) (sym p) ∙ e)
  | no q ↦ ground (arith, d)
]

pub listed-save :
    (a : ServerAddr) (s : Service) (healthy : Map ServerAddr Server) (j : HealthCheck)
    (f : ServerFeatures)
    → listed a s (save_healthy_service healthy j f) ≡ (listed a s healthy || has_key a s j)
unfolding save_healthy_service has_key decide
listed-save a s healthy j f = elim (Option-cases (Maps.get j.addr healthy)) [
  | inl e ↦ rw e ground (
    arith,
    listed-insert a s j.addr
        (record { services = insert_service j.service []; hostname = j.hostname; features = f })
        healthy,
    contains-insert j.service s [],
    listed-get a s j.addr healthy none e,
  )
  | inr (server, e) ↦ rw e ground (
    arith,
    listed-insert a s j.addr (record server { services = insert_service j.service server.services })
        healthy,
    contains-insert j.service s server.services,
    listed-get a s j.addr healthy (some server) e,
  )
]

same_addr : (a : ServerAddr) → decide (ServerAddr-discrete a a) ≡ true
unfolding decide
same_addr a = ground arith

-- What is listed when the services of one server are cut down to those that are left.
remove-left :
    (healthy : Map ServerAddr Server) (j : HealthCheck) (server : Server) (left : List Service)
    → Maps.get j.addr healthy ≡ some server
    → contains_service server.services j.service ≡ true
    → remove_service j.service server.services ≡ left
    → (healthy' : Map ServerAddr Server) × (remove_unhealthy_service healthy j ≡ some healthy')
      × ((a : ServerAddr) (s : Service)
          → listed a s healthy' ≡ (listed a s healthy && not (has_key a s j)))
unfolding remove_unhealthy_service has_key decide
remove-left healthy j server [] e c r = (
  Maps.remove j.addr healthy,
  ground (arith, e, c, r),
  λ a s. ground (
    arith,
    listed-remove a s j.addr healthy,
    listed-get a s j.addr healthy (some server) e,
    contains-remove j.service s server.services,
    r,
  ),
)
remove-left healthy j server (t ∷ ts) e c r = (
  Maps.insert j.addr (record server { services = t ∷ ts }) healthy,
  ground (arith, e, c, r),
  λ a s. ground (
    arith,
    listed-insert a s j.addr (record server { services = t ∷ ts }) healthy,
    listed-get a s j.addr healthy (some server) e,
    contains-remove j.service s server.services,
    r,
  ),
)

pub remove-listed :
    (healthy : Map ServerAddr Server) (j : HealthCheck)
    → listed j.addr j.service healthy ≡ true
    → (healthy' : Map ServerAddr Server) × (remove_unhealthy_service healthy j ≡ some healthy')
      × ((a : ServerAddr) (s : Service)
          → listed a s healthy' ≡ (listed a s healthy && not (has_key a s j)))
unfolding decide
remove-listed healthy j l = elim (Option-cases (Maps.get j.addr healthy)) [
  | inl e ↦ ground (arith, l, listed-get j.addr j.service j.addr healthy none e (same_addr j.addr))
  | inr (server, e) ↦
      remove-left healthy j server (remove_service j.service server.services) e
        (sym (listed-get j.addr j.service j.addr healthy (some server) e (same_addr j.addr)) ∙ l)
        refl
]
