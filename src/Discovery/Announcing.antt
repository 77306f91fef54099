-- ===== src/Discovery/Announcing.antt =====
-- src/electrum/discovery.rs: a manager that is to announce itself lists nobody.
use mathlib.Core.Option
use mathlib.Core.Path.{subst}
use splora.Common.{
  ℕ, Bool, true, false, ◌≡◌, ◌≢◌, sym, ap, ◌∙◌, Option, none, some, List, arith, inl, inr,
  Bool-cases, Option-cases,
}
use splora.Common.Results.{Outcome, ok, Outcome-cases}
use splora.Common.Maps.{Map}
use splora.Discovery.Addr.{ServerAddr, Service}
use splora.Discovery.Queue
use splora.Discovery.Queue.{HealthCheck, is_healthy, should_retry}
use splora.Discovery.{
  DiscoveryManager, DiscoveryError, Hostname, Server, ServerFeatures, verify_compatibility,
}
use splora.Discovery.Checking.{
  too_early, check_server, finish_check, run_health_check, remove_unhealthy_service,
}
use splora.Discovery.Consistent.{listed, remove-listed}
use splora.Discovery.Checks.{check_server-returns}
use splora.Discovery.Duplicates.{remove-unlisted}

true_ne_false : true ≢ false
true_ne_false h = ground (arith, h)

abbrev is_ok : Outcome DiscoveryError ServerFeatures → Bool
is_ok (ok f) = true
is_ok o = false

-- Every service that is listed was listed before.
abbrev pub Shrinks : Map ServerAddr Server → Map ServerAddr Server → Type 0
Shrinks healthy healthy' =
    (a : ServerAddr) (s : Service) → listed a s healthy' ≡ true → listed a s healthy ≡ true

remove-Shrinks :
    (healthy healthy' : Map ServerAddr Server) (j : HealthCheck)
    → remove_unhealthy_service healthy j ≡ some healthy'
    → Shrinks healthy healthy'
remove-Shrinks healthy healthy' j r a s l = elim (Bool-cases (listed j.addr j.service healthy)) [
  | inr n ↦ absurd (Option.none-ne-some healthy' (sym (remove-unlisted healthy j n) ∙ r))
  | inl y ↦
      let (h, e, rest) = remove-listed healthy j y in
      let same : h ≡ healthy' = Option.some-injective h healthy' (sym e ∙ r) in
      let l' : listed a s h ≡ true = ap (listed a s) same ∙ l in ground (arith, rest a s, l')
]

module _ (probe : ServerAddr → Hostname → Service → Option ServerFeatures) where
  announce-fails :
      (m : DiscoveryManager) (j : HealthCheck)
      → m.announce ≡ true
      → is_ok (check_server probe m j) ≡ false
  unfolding check_server verify_compatibility
  announce-fails m j a = ground (arith, a)

  finish_check-Shrinks :
      (m m' : DiscoveryManager) (j : HealthCheck) (rest : List HealthCheck) (after : ℕ)
      (x : Option DiscoveryError)
      → m.announce ≡ true
      → finish_check probe m j rest after ≡ some (m', x)
      → Shrinks m.healthy m'.healthy
  unfolding finish_check
  finish_check-Shrinks m m' j rest after x a f =
      elim (Outcome-cases (check_server probe m j) (check_server-returns probe m j)) [
        | inl (g, c) ↦ absurd (true_ne_false (sym (ap is_ok c) ∙ announce-fails m j a))
        | inr (e, c) ↦ elim (Bool-cases (is_healthy j)) [
          | inr h ↦
              let q = Option.some-injective _ (m', x) (rw (c, h, finish_check) at f) in
              subst (Shrinks m.healthy) (ap (λ p. p.0.healthy) q) (λ b s l. l)
          | inl h ↦ elim (Option-cases (remove_unhealthy_service m.healthy j)) [
            | inl r ↦ absurd (Option.none-ne-some (m', x) (rw (c, h, r, finish_check) at f))
            | inr (healthy, r) ↦
                let q = Option.some-injective _ (m', x) (rw (c, h, r, finish_check) at f) in
                subst (Shrinks m.healthy) (ap (λ p. p.0.healthy) q)
                  (remove-Shrinks m.healthy healthy j r)
          ]
        ]
      ]

  -- With `announce` set a health check never adds a service to the listed ones, whatever the server
  -- answers: each service that is listed after it was listed before.
  pub run_health_check-Shrinks :
      (m m' : DiscoveryManager) (now after : ℕ) (x : Option DiscoveryError)
      → m.announce ≡ true
      → run_health_check probe m now after ≡ some (m', x)
      → Shrinks m.healthy m'.healthy
  unfolding run_health_check
  run_health_check-Shrinks m m' now after x a f = elim (Option-cases (Queue.pop m.queue)) [
    | inl e ↦
        let q = Option.some-injective (m, none) (m', x) (rw (e, run_health_check) at f) in
        subst (Shrinks m.healthy) (ap (λ p. p.0.healthy) q) (λ b s l. l)
    | inr ((j, rest), e) ↦ elim (Bool-cases (too_early now j)) [
      | inl early ↦
          let q = Option.some-injective (m, none) (m', x) (rw (e, early, run_health_check) at f) in
          subst (Shrinks m.healthy) (ap (λ p. p.0.healthy) q) (λ b s l. l)
      | inr late ↦ finish_check-Shrinks m m' j rest after x a (rw (e, late, run_health_check) at f)
    ]
  ]
