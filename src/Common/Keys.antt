-- ===== src/Common/Keys.antt =====
-- Which keys a map by numbers has.
use mathlib.Core.Path.{◌≡◌, refl}
use mathlib.Core.Bool.{Bool, true, false, not, ◌&&◌, ◌||◌}
use mathlib.Core.Option.{none, some}
use Prim.Native.Nat.{ℕ}
use native.Mathlib.Omega.{arith}
use splora.Common.Tests.{◌==◌}
use splora.Common.Maps
use splora.Common.Maps.{
  Map, nat_key, contains_key, get-insert_self, get-insert_other, get-remove_self, get-remove_other,
}

module _ {V : Type 0} where
  pub contains_key-some :
      (a : ℕ) (v : V) (m : Map ℕ V) → Maps.get a m ≡ some v → contains_key a m ≡ true
  contains_key-some a v m e = rw (e, contains_key) refl

  pub get-contains_key :
      (a : ℕ) (m : Map ℕ V) → contains_key a m ≡ true → (v : V) × (Maps.get a m ≡ some v)
  get-contains_key a m h =
      elim (Maps.get a m)
          as (λ o.
            elim o as (λ _. Bool) [ none ↦ false | some v ↦ true ] ≡ true
            → (v : V) × (o ≡ some v)) [ none ↦ λ h. ground (arith, h) | some v ↦ λ h. (v, refl) ]
        h

  pub contains_key-insert :
      (a b : ℕ) (v : V) (m : Map ℕ V)
      → contains_key a (Maps.insert b v m) ≡ ((a == b) || contains_key a m)
  contains_key-insert a b v m = elim (nat_key.eq? a b) [
    | yes e ↦ rw (get-insert_self b a v m e, contains_key) (ground (arith, e))
    | no n ↦ rw (get-insert_other b a v m n, contains_key) (ground (arith, n))
  ]

  pub contains_key-remove :
      (a b : ℕ) (m : Map ℕ V)
      → contains_key a (Maps.remove b m) ≡ (not (a == b) && contains_key a m)
  contains_key-remove a b m = elim (nat_key.eq? a b) [
    | yes e ↦ rw (get-remove_self b a m e, contains_key) (ground (arith, e))
    | no n ↦ rw (get-remove_other b a m n, contains_key) (ground (arith, n))
  ]
