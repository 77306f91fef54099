-- ===== src/Discovery/Queue.antt =====
-- src/electrum/discovery.rs: the health check jobs, and the queue of them. The binary heap gives
-- the job that was checked longest ago, one that was never checked first.
use splora.Common.{
  ℕ, ◌+◌, ◌≡◌, refl, sym, ap, ◌∙◌, Bool, true, false, ◌&&◌, Option, none, some, List, [], ◌∷◌, ◌==◌,
  ltb, if◌then◌else◌, length, arith,
}
use mathlib.Core.Option
use mathlib.Core.Bool.{decide}
use splora.Discovery.Addr.{
  Hostname, IpAddr, ServerAddr, Service, ServerAddr-discrete, Service-discrete,
}

abbrev pub max_consecutive_failures : ℕ
max_consecutive_failures = 24

pub record HealthCheck : Type 0 where
  pub addr : ServerAddr
  pub hostname : Hostname
  pub service : Service
  pub is_default : Bool
  pub added_by : Option IpAddr
  pub last_check : Option ℕ
  pub last_healthy : Option ℕ
  pub consecutive_failures : ℕ

-- `HealthCheck::new`
unfoldable pub new : ServerAddr → Hostname → Service → Option IpAddr → HealthCheck
new addr hostname service added_by = record {
  addr = addr;
  hostname = hostname;
  service = service;
  is_default = elim added_by [ none ↦ true | some ip ↦ false ];
  added_by = added_by;
  last_check = none;
  last_healthy = none;
  consecutive_failures = 0;
}

abbrev same_time : Option ℕ → Option ℕ → Bool
same_time (some a) (some b) = a == b
same_time (some a) none = false
same_time none b = false

unfoldable pub is_healthy : HealthCheck → Bool
is_healthy j = same_time j.last_check j.last_healthy

unfoldable pub should_retry : HealthCheck → Bool
should_retry j =
    (elim j.last_healthy [ none ↦ j.is_default | some t ↦ true ])
    && ltb j.consecutive_failures max_consecutive_failures

abbrev before : Option ℕ → Option ℕ → Bool
before none none = false
before none (some b) = true
before (some a) none = false
before (some a) (some b) = ltb a b

-- `Ord for HealthCheck`: the other way round than the times.
unfoldable pub precedes : HealthCheck → HealthCheck → Bool
precedes j k = before j.last_check k.last_check

-- `BinaryHeap::pop` of a heap with `j` in it.
unfoldable pub pop_from : HealthCheck → List HealthCheck → HealthCheck × List HealthCheck
unfolding precedes
pop_from j [] = (j, [])
pop_from j (k ∷ ks) =
    let (top, rest) = pop_from (if precedes k j then k else j) ks in
    (top, (if precedes k j then j else k) ∷ rest)

unfoldable pub pop : List HealthCheck → Option (HealthCheck × List HealthCheck)
unfolding pop_from
pop [] = none
pop (j ∷ js) = some (pop_from j js)

-- How many jobs pass a test.
abbrev pub count_jobs : (HealthCheck → Bool) → List HealthCheck → ℕ
count_jobs p [] = 0
count_jobs p (j ∷ js) = (if p j then 1 else 0) + count_jobs p js

-- The jobs of one service at one address.
unfoldable pub has_key : ServerAddr → Service → HealthCheck → Bool
unfolding decide
has_key addr service j =
    decide (ServerAddr-discrete j.addr addr) && decide (Service-discrete j.service service)

-- Taking a job out of the heap loses none.
pub count_jobs-pop_from :
    (p : HealthCheck → Bool) (j : HealthCheck) (js : List HealthCheck)
    → count_jobs p ((pop_from j js).0 ∷ (pop_from j js).1) ≡ count_jobs p (j ∷ js)
unfolding pop_from
count_jobs-pop_from p j [] = refl
count_jobs-pop_from p j (k ∷ ks) =
    ground (arith, count_jobs-pop_from p j ks, count_jobs-pop_from p k ks)

pub length-pop_from :
    (j : HealthCheck) (js : List HealthCheck) → length (pop_from j js).1 ≡ length js
unfolding pop_from
length-pop_from j [] = refl
length-pop_from j (k ∷ ks) = ground (arith, length-pop_from j ks, length-pop_from k ks)

pub count_jobs-pop :
    (p : HealthCheck → Bool) (js : List HealthCheck) (j : HealthCheck) (rest : List HealthCheck)
    → pop js ≡ some (j, rest)
    → count_jobs p (j ∷ rest) ≡ count_jobs p js
unfolding pop
count_jobs-pop p [] j rest h = absurd (Option.none-ne-some (j, rest) h)
count_jobs-pop p (k ∷ ks) j rest h =
    let e : pop_from k ks ≡ (j, rest) = Option.some-injective (pop_from k ks) (j, rest) h in
    ap (λ q. count_jobs p (q.0 ∷ q.1)) (sym e) ∙ count_jobs-pop_from p k ks
