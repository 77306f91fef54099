-- ===== src/Discovery/Checks.antt =====
-- src/electrum/discovery.rs: a health check keeps the queue and the healthy set in agreement, and
-- then never panics.

use mathlib.Core.Bool.{decide}
use splora.Common.{
  ℕ, ◌+◌, ◌≤◌, ◌≡◌, refl, ◌∙◌, Bool, true, false, not, ◌&&◌, Option, none, some, List, [], ◌∷◌, ltb,
  if◌then◌else◌, arith, inl, inr, Bool-cases, Option-cases,
}
use splora.Common.Results.{returns, Outcome-cases}
use splora.Common.Maps.{Map}
use splora.Discovery.Addr.{ServerAddr, Service}
use splora.Discovery.Queue
use splora.Discovery.Queue.{HealthCheck, is_healthy, should_retry, has_key, count_jobs}
use splora.Discovery.{
  DiscoveryManager, DiscoveryError, Hostname, Server, ServerFeatures, verify_compatibility,
}
use splora.Discovery.Checking.{
  save_healthy_service, remove_unhealthy_service, too_early, check_server, finish_check,
  run_health_check,
}
use splora.Discovery.Consistent.{IsConsistent, listed, passes, is_ahead, listed-save, remove-listed}

count-passes-le :
    (a : ServerAddr) (s : Service) (js : List HealthCheck)
    → count_jobs (passes a s) js ≤ count_jobs (has_key a s) js
unfolding passes
count-passes-le a s [] = omega arith
count-passes-le a s (j ∷ js) = ground (arith, count-passes-le a s js)

own_key : (j : HealthCheck) → has_key j.addr j.service j ≡ true
unfolding has_key decide
own_key j = ground arith

own_healthy : (j : HealthCheck) → is_healthy j ≡ true → passes j.addr j.service j ≡ true
unfolding passes
own_healthy j h = ground (arith, own_key j, h)

-- The job after a check that found the server, and after one that did not.
abbrev answered : ℕ → HealthCheck → HealthCheck
answered after j = record j {
  last_check = some after;
  last_healthy = some after;
  consecutive_failures = 0;
}

abbrev failed : ℕ → HealthCheck → HealthCheck
failed after j = record j {
  last_check = some after;
  consecutive_failures = j.consecutive_failures + 1;
}

answered-IsConsistent :
    (healthy : Map ServerAddr Server) (j : HealthCheck) (rest : List HealthCheck) (after : ℕ)
    (f : ServerFeatures)
    → IsConsistent (j ∷ rest) healthy
    → IsConsistent
        (answered after j ∷ rest)
        (if is_healthy j then healthy else save_healthy_service healthy j f)
unfolding has_key is_ahead passes is_healthy
answered-IsConsistent healthy j rest after f c = record {
  unique = c.unique;
  timed = ground (arith, c.timed);
  agreed = λ a s. ground (arith, c.agreed a s, listed-save a s healthy j f);
}

-- The last check, if any, was before this time.
abbrev earlier : Option ℕ → ℕ → Bool
earlier none after = true
earlier (some t) after = ltb t after

failed-passes :
    (a : ServerAddr) (s : Service) (after : ℕ) (j : HealthCheck)
    → is_ahead j ≡ false
    → earlier j.last_check after ≡ true
    → (passes a s (failed after j) ≡ false) × (is_ahead (failed after j) ≡ false)
unfolding is_ahead passes is_healthy
failed-passes a s after j h before = ground arith

not_ahead :
    (j : HealthCheck) (rest : List HealthCheck)
    → count_jobs is_ahead (j ∷ rest) ≡ 0
    → is_ahead j ≡ false
not_ahead j rest h = ground arith

module _ (healthy : Map ServerAddr Server) (j : HealthCheck) (rest : List HealthCheck) (after : ℕ)
    (c : IsConsistent (j ∷ rest) healthy) (before : earlier j.last_check after ≡ true) where
  abbrev kept : List HealthCheck
  kept = if should_retry (failed after j) then failed after j ∷ rest else rest

  kept_unique : (a : ServerAddr) (s : Service) → count_jobs (has_key a s) kept ≤ 1
  unfolding has_key
  kept_unique a s = ground (arith, c.unique a s)

  kept-passes :
      (a : ServerAddr) (s : Service) → count_jobs (passes a s) kept ≡ count_jobs (passes a s) rest
  kept-passes a s = ground (arith, failed-passes a s after j (not_ahead j rest c.timed) before)

  kept-timed : count_jobs is_ahead kept ≡ 0
  kept-timed =
      ground
        (arith, c.timed, failed-passes j.addr j.service after j (not_ahead j rest c.timed) before)

  lost-IsConsistent :
      (healthy' : Map ServerAddr Server)
      → is_healthy j ≡ true
      → ((a : ServerAddr) (s : Service)
          → listed a s healthy' ≡ (listed a s healthy && not (has_key a s j)))
      → IsConsistent kept healthy'
  unfolding passes
  lost-IsConsistent healthy' h l = record {
    unique = kept_unique;
    timed = kept-timed;
    agreed = λ a s.
        ground
          (arith, c.agreed a s, c.unique a s, l a s, h, kept-passes a s, count-passes-le a s rest);
  }

  still-IsConsistent : is_healthy j ≡ false → IsConsistent kept healthy
  unfolding passes
  still-IsConsistent h = record {
    unique = kept_unique;
    timed = kept-timed;
    agreed = λ a s. ground (arith, c.agreed a s, h, kept-passes a s);
  }

  failed-IsConsistent :
      (healthy' : Map ServerAddr Server) × ((if is_healthy j
          then remove_unhealthy_service healthy j
          else some healthy)
        ≡ some healthy')
      × IsConsistent kept healthy'
  failed-IsConsistent = elim (Bool-cases (is_healthy j)) [
    | inr h ↦ (healthy, rw h refl, still-IsConsistent h)
    | inl h ↦
        let (healthy', e, l) =
          remove-listed healthy j (ground (arith, c.agreed j.addr j.service, own_healthy j h)) in
        (healthy', rw h e, lost-IsConsistent healthy' h l)
  ]

pop-IsConsistent :
    (queue : List HealthCheck) (healthy : Map ServerAddr Server) (j : HealthCheck)
    (rest : List HealthCheck)
    → Queue.pop queue ≡ some (j, rest)
    → IsConsistent queue healthy
    → IsConsistent (j ∷ rest) healthy
pop-IsConsistent queue healthy j rest e c = record {
  unique = λ a s. ground (arith, Queue.count_jobs-pop (has_key a s) queue j rest e, c.unique a s);
  timed = Queue.count_jobs-pop is_ahead queue j rest e ∙ c.timed;
  agreed = λ a s. ground (arith, Queue.count_jobs-pop (passes a s) queue j rest e, c.agreed a s);
}

late-earlier :
    (now after : ℕ) (j : HealthCheck)
    → now ≤ after
    → too_early now j ≡ false
    → earlier j.last_check after ≡ true
late-earlier now after j le late = ground arith

module _ (probe : ServerAddr → Hostname → Service → Option ServerFeatures) where
  pub check_server-returns :
      (m : DiscoveryManager) (j : HealthCheck) → returns (check_server probe m j) ≡ true
  unfolding check_server verify_compatibility
  check_server-returns m j = ground arith

  finish_check-IsConsistent :
      (m : DiscoveryManager) (j : HealthCheck) (rest : List HealthCheck) (after : ℕ)
      → IsConsistent (j ∷ rest) m.healthy
      → earlier j.last_check after ≡ true
      → (m' : DiscoveryManager) × (e : Option DiscoveryError) × (finish_check probe m j rest after
          ≡ some (m', e))
        × IsConsistent m'.queue m'.healthy
  unfolding finish_check
  finish_check-IsConsistent m j rest after c before =
      elim (Outcome-cases (check_server probe m j) (check_server-returns m j)) [
        | inl (f, e) ↦ (
          record m {
            queue = answered after j ∷ rest;
            healthy = if is_healthy j then m.healthy else save_healthy_service m.healthy j f;
          },
          none,
          rw (e, finish_check) refl,
          answered-IsConsistent m.healthy j rest after f c,
        )
        | inr (x, e) ↦
            let (healthy', r, c') = failed-IsConsistent m.healthy j rest after c before in
            (
              record m { queue = kept m.healthy j rest after c before; healthy = healthy' },
              some x,
              rw (e, r, finish_check) refl,
              c',
            )
      ]

  -- With every service queued once and listed if and only if its job is healthy, a step of the
  -- health check never panics, and leaves the queue and the healthy set in this state again; the
  -- clock does not go back.
  pub run_health_check-IsConsistent :
      (m : DiscoveryManager) (now after : ℕ)
      → IsConsistent m.queue m.healthy
      → now ≤ after
      → (m' : DiscoveryManager) × (e : Option DiscoveryError) × (run_health_check probe m now after
          ≡ some (m', e))
        × IsConsistent m'.queue m'.healthy
  unfolding run_health_check Queue.pop
  run_health_check-IsConsistent m now after c le = elim (Option-cases (Queue.pop m.queue)) [
    | inl e ↦ (m, none, rw (e, run_health_check) refl, c)
    | inr ((j, rest), e) ↦ elim (Bool-cases (too_early now j)) [
      | inl early ↦ (m, none, rw (e, early, run_health_check) refl, c)
      | inr late ↦
          let (m', x, f, c') =
            finish_check-IsConsistent m j rest after (pop-IsConsistent m.queue m.healthy j rest e c)
              (late-earlier now after j le late) in
          (m', x, rw (e, late, f, run_health_check) refl, c')
    ]
  ]
