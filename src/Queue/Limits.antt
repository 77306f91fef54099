-- ===== src/Queue/Limits.antt =====
-- src/queue.rs: what a submission needs before it is saved.

use mathlib.Core.Path.{subst}
use splora.Common.{
  ℕ, true, false, ◌≡◌, refl, Option, none, some, List, arith, inl, inr, Bool-cases, Option-cases,
  ◌-◌, ◌%◌, ◌^◌, ◌<◌, ltb, leb, [], ◌∷◌, ◌++◌, length, ap, sym,
}
use splora.Common.Text.{Text, codes, strip_prefix, strip_prefix-eq-some, starts_with}
use splora.Common.Maps.{nat_key}
use splora.Common.Sort.{count_if}
use mathlib.Core.Option
use splora.Discovery.Addr.{IpAddr}
use splora.Queue.{
  QueueStore, valid_npub, ip_key, hits_of, retain_recent, rate_ok, limit_ip, limit_npub,
}

-- So few of these times are less than the window ago that another is allowed; times ahead count.
abbrev pub IsBelow : ℕ → ℕ → ℕ → List ℕ → Type 0
IsBelow max window now hits = count_if (λ t. ltb (now - t) window) hits % 2 ^ 32 < max

-- A client without an address has no limit of its own.
abbrev pub MayCall : QueueStore → Option IpAddr → ℕ → Type 0
MayCall store none now = Unit
MayCall store (some ip) now =
    IsBelow store.caps.per_ip store.caps.window_secs now (hits_of ip store.ip_hits)

length-retain_recent :
    (now window : ℕ) (hits : List ℕ)
    → length (retain_recent now window hits) ≡ count_if (λ t. ltb (now - t) window) hits
unfolding retain_recent
length-retain_recent now window [] = refl
length-retain_recent now window (t ∷ hits) = ground (arith, length-retain_recent now window hits)

rate_ok-IsBelow :
    (hits : List ℕ) (now window max : ℕ)
    → (rate_ok hits now window max).1 ≡ true
    → IsBelow max window now hits
unfolding rate_ok
rate_ok-IsBelow hits now window max h =
    let count = length-retain_recent now window hits in
    subst (λ n. n % 2 ^ 32 < max) count
      (elim (Bool-cases (leb max (length (retain_recent now window hits) % 2 ^ 32))) [
        | inl full ↦ absurd (ground (arith, ap (λ b. b) (rw full at h)))
        | inr free ↦ ground (arith, free)
      ])

IsBelow-rate_ok :
    (hits : List ℕ) (now window max : ℕ)
    → IsBelow max window now hits
    → (rate_ok hits now window max).1 ≡ true
unfolding rate_ok
IsBelow-rate_ok hits now window max h =
    let below : length (retain_recent now window hits) % 2 ^ 32 < max =
      subst (λ n. n % 2 ^ 32 < max) (sym (length-retain_recent now window hits)) h in
    let free : leb max (length (retain_recent now window hits) % 2 ^ 32) ≡ false =
      ground (arith, below) in
    rw free refl

pub MayCall-limit_ip :
    (store : QueueStore) (ip : Option IpAddr) (now : ℕ)
    → MayCall store ip now
    → (limit_ip store ip now).1 ≡ true
unfolding limit_ip
MayCall-limit_ip store none now h = refl
MayCall-limit_ip store (some ip) now h =
    IsBelow-rate_ok (hits_of ip store.ip_hits) now store.caps.window_secs store.caps.per_ip h

pub IsBelow-limit_npub :
    (store : QueueStore) (ip : Option IpAddr) (pk now : ℕ)
    → IsBelow store.caps.per_npub store.caps.window_secs now (hits_of pk store.npub_hits)
    → (limit_npub (limit_ip store ip now).0 pk now).1 ≡ true
unfolding limit_ip limit_npub
IsBelow-limit_npub store none pk now h =
    IsBelow-rate_ok (hits_of pk store.npub_hits) now store.caps.window_secs store.caps.per_npub h
IsBelow-limit_npub store (some ip) pk now h =
    IsBelow-rate_ok (hits_of pk store.npub_hits) now store.caps.window_secs store.caps.per_npub h

pub limit_ip-MayCall :
    (store : QueueStore) (ip : Option IpAddr) (now : ℕ)
    → (limit_ip store ip now).1 ≡ true
    → MayCall store ip now
unfolding limit_ip
limit_ip-MayCall store none now h = tt
limit_ip-MayCall store (some ip) now h =
    rate_ok-IsBelow (hits_of ip store.ip_hits) now store.caps.window_secs store.caps.per_ip h

pub limit_npub-IsBelow :
    (store : QueueStore) (ip : Option IpAddr) (pk now : ℕ)
    → (limit_npub (limit_ip store ip now).0 pk now).1 ≡ true
    → IsBelow store.caps.per_npub store.caps.window_secs now (hits_of pk store.npub_hits)
unfolding limit_ip limit_npub
limit_npub-IsBelow store none pk now h =
    rate_ok-IsBelow (hits_of pk store.npub_hits) now store.caps.window_secs store.caps.per_npub h
limit_npub-IsBelow store (some ip) pk now h =
    rate_ok-IsBelow (hits_of pk store.npub_hits) now store.caps.window_secs store.caps.per_npub h

module _ (parse_pubkey : Text → Option ℕ) where
  pub valid_npub_parts :
      (npub : Text) (pk : ℕ)
      → valid_npub parse_pubkey npub ≡ some pk
      → ((key : Text) × (npub ≡ codes "npub1" ++ key)) × (parse_pubkey npub ≡ some pk)
  unfolding valid_npub starts_with
  valid_npub_parts npub pk h = elim (Option-cases (strip_prefix (codes "npub1") npub)) [
    | inl other ↦ absurd (Option.none-ne-some pk (rw other at h))
    | inr (key, found) ↦ ((key, strip_prefix-eq-some (codes "npub1") npub key found), rw found at h)
  ]

  pub valid_npub_of :
      (npub key : Text) (pk : ℕ)
      → npub ≡ codes "npub1" ++ key
      → parse_pubkey npub ≡ some pk
      → valid_npub parse_pubkey npub ≡ some pk
  unfolding valid_npub starts_with strip_prefix
  valid_npub_of npub key pk e h =
      subst (λ t. parse_pubkey t ≡ some pk → valid_npub parse_pubkey t ≡ some pk) (sym e) (λ p. p) h
