-- ===== src/Discovery/Duplicates.antt =====
-- src/electrum/discovery.rs: what happens to a second job of a service that was taken off the
-- healthy set.
use mathlib.Core.Option
use mathlib.Core.Bool.{decide}
use splora.Common.{
  ℕ, ◌≡◌, refl, sym, ap, ◌∙◌, true, false, Option, none, some, List, arith, inl, inr, Bool-cases,
  Option-cases,
}
use splora.Common.Results.{err}
use splora.Common.Maps.{Map}
use splora.Discovery.Addr.{ServerAddr, Service}
use splora.Discovery.Queue.{HealthCheck, is_healthy, has_key}
use splora.Discovery.{DiscoveryManager, DiscoveryError, Hostname, Server, ServerFeatures}
use splora.Discovery.Checking.{remove_unhealthy_service, check_server, finish_check}
use splora.Discovery.Consistent.{listed, remove-listed}

-- The assertion and the `unreachable!`: a service that is not listed cannot be removed.
pub remove-unlisted :
    (healthy : Map ServerAddr Server) (j : HealthCheck)
    → listed j.addr j.service healthy ≡ false
    → remove_unhealthy_service healthy j ≡ none
unfolding listed remove_unhealthy_service decide
remove-unlisted healthy j l = ground (arith, l)

remove-twice :
    (healthy healthy' : Map ServerAddr Server) (j j' : HealthCheck)
    → remove_unhealthy_service healthy j ≡ some healthy'
    → has_key j'.addr j'.service j ≡ true
    → remove_unhealthy_service healthy' j' ≡ none
remove-twice healthy healthy' j j' r k = elim (Bool-cases (listed j.addr j.service healthy)) [
  | inr l ↦ absurd (Option.none-ne-some healthy' (sym (remove-unlisted healthy j l) ∙ r))
  | inl l ↦
      let (h, e, gone) = remove-listed healthy j l in
      let same : h ≡ healthy' = Option.some-injective h healthy' (sym e ∙ r) in
      remove-unlisted healthy' j'
        (ap (listed j'.addr j'.service) (sym same) ∙ ground (arith, gone j'.addr j'.service, k))
]

-- A failed check of a healthy service, seen from its result.
failure-removes :
    (probe : ServerAddr → Hostname → Service → Option ServerFeatures) (m m' : DiscoveryManager)
    (j : HealthCheck) (rest : List HealthCheck) (after : ℕ) (e : DiscoveryError)
    (x : Option DiscoveryError)
    → is_healthy j ≡ true
    → check_server probe m j ≡ err e
    → finish_check probe m j rest after ≡ some (m', x)
    → remove_unhealthy_service m.healthy j ≡ some m'.healthy
unfolding finish_check
failure-removes probe m m' j rest after e x h c f =
    elim (Option-cases (remove_unhealthy_service m.healthy j)) [
      | inl r ↦ absurd (Option.none-ne-some (m', x) (rw (c, h, r, finish_check) at f))
      | inr (healthy, r) ↦
          let q = Option.some-injective _ (m', x) (rw (c, h, r, finish_check) at f) in
          r ∙ ap (λ p. some p.0.healthy) q
    ]

-- Two healthy jobs of one service panic on the second failure: after a failed check of a healthy
-- job, a later check that fails on another healthy job of the same service, from that state, does
-- not return.
pub finish_check-panics :
    (probe probe' : ServerAddr → Hostname → Service → Option ServerFeatures)
    (m m' : DiscoveryManager) (j j' : HealthCheck) (rest rest' : List HealthCheck)
    (after after' : ℕ) (e e' : DiscoveryError) (x : Option DiscoveryError)
    → is_healthy j ≡ true
    → check_server probe m j ≡ err e
    → finish_check probe m j rest after ≡ some (m', x)
    → has_key j'.addr j'.service j ≡ true
    → is_healthy j' ≡ true
    → check_server probe' m' j' ≡ err e'
    → finish_check probe' m' j' rest' after' ≡ none
unfolding finish_check
finish_check-panics probe probe' m m' j j' rest rest' after after' e e' x h c f k h' c' =
    rw
      (
        c',
        h',
        remove-twice m.healthy m'.healthy j j' (failure-removes probe m m' j rest after e x h c f)
            k,
        finish_check,
      )
      refl
