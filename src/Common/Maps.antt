-- ===== src/Common/Maps.antt =====
-- `HashMap` and `BTreeMap` as association lists: lookup, insert, remove and retain, with their
-- laws. A key type has a decidable equality.
use mathlib.Core.Path.{◌≡◌, refl, sym}
use mathlib.Core.Bool.{Bool, true, false}
use mathlib.Core.Logic.{◌≢◌, ite, if_pos, if_neg}
use mathlib.Core.Option.{Option, none, some}
use mathlib.Core.List.{List, [], ◌∷◌}
use Prim.Native.Nat.{ℕ, suc, ◌≤◌}
use native.Mathlib.Omega.{arith}
use native.Mathlib.Decide.{ℕ_discrete}
use splora.Common.Lists.{length}

pub record Key {ℓ} (K : Type ℓ) : Type ℓ where
  pub eq? : Discrete K

instance abbrev pub nat_key : Key ℕ
nat_key = record { eq? = ℕ_discrete }

abbrev pub Map {ℓ} : Type ℓ → Type ℓ → Type ℓ
Map K V = List (K × V)

module _ {ℓ} {K V : Type ℓ} ⦃k : Key K⦄ where
  unfoldable pub get : K → Map K V → Option V
  get a [] = none
  get a ((b, v) ∷ m) = ite (k.eq? a b) (some v) (get a m)

  -- The value replaces an old one of the same key.
  unfoldable pub insert : K → V → Map K V → Map K V
  insert a v [] = (a, v) ∷ []
  insert a v ((b, w) ∷ m) = ite (k.eq? a b) ((a, v) ∷ m) ((b, w) ∷ insert a v m)

  unfoldable pub remove : K → Map K V → Map K V
  remove a [] = []
  remove a ((b, w) ∷ m) = let rest = remove a m in ite (k.eq? a b) rest ((b, w) ∷ rest)

  abbrev pub contains_key : K → Map K V → Bool
  contains_key a m = elim (get a m) [ none ↦ false | some v ↦ true ]

  pub get_cons_self : (a b : K) (v : V) (m : Map K V) → a ≡ b → get a ((b, v) ∷ m) ≡ some v
  unfolding get
  get_cons_self a b v m e = rw (if_pos _ e)

  pub get_cons_other : (a b : K) (v : V) (m : Map K V) → a ≢ b → get a ((b, v) ∷ m) ≡ get a m
  unfolding get
  get_cons_other a b v m n = rw (if_neg _ n)

  pub get-nil : (a : K) → get a [] ≡ none
  unfolding get
  get-nil a = refl

  pub get-insert :
      (a b : K) (v : V) (m : Map K V) → get b (insert a v m) ≡ ite (k.eq? b a) (some v) (get b m)
  unfolding get insert
  get-insert a b v [] = refl
  get-insert a b v ((c, w) ∷ m) = ground (arith, get-insert a b v m)

  pub get-insert_self : (a b : K) (v : V) (m : Map K V) → b ≡ a → get b (insert a v m) ≡ some v
  get-insert_self a b v m e = rw (get-insert a b v m) (rw (if_pos _ e))

  pub get-insert_other : (a b : K) (v : V) (m : Map K V) → b ≢ a → get b (insert a v m) ≡ get b m
  get-insert_other a b v m n = rw (get-insert a b v m) (rw (if_neg _ n))

  pub get-remove : (a b : K) (m : Map K V) → get b (remove a m) ≡ ite (k.eq? b a) none (get b m)
  unfolding get remove
  get-remove a b [] = ground arith
  get-remove a b ((c, w) ∷ m) = ground (arith, get-remove a b m)

  pub get-remove_self : (a b : K) (m : Map K V) → b ≡ a → get b (remove a m) ≡ none
  get-remove_self a b m e = rw (get-remove a b m) (rw (if_pos _ e))

  pub get-remove_other : (a b : K) (m : Map K V) → b ≢ a → get b (remove a m) ≡ get b m
  get-remove_other a b m n = rw (get-remove a b m) (rw (if_neg _ n))

  pub length-remove-le : (a : K) (m : Map K V) → length (remove a m) ≤ length m
  unfolding remove
  length-remove-le a [] = omega arith
  length-remove-le a ((c, w) ∷ m) = ground (arith, length-remove-le a m)

  pub length-remove-lt :
      (a : K) (v : V) (m : Map K V) → get a m ≡ some v → suc (length (remove a m)) ≤ length m
  unfolding get remove
  length-remove-lt a v [] h = cc
  length-remove-lt a v ((c, w) ∷ m) h = ground (arith, length-remove-le a m, length-remove-lt a v m)

  abbrev pub HasDistinctKeys : Map K V → Type ℓ
  HasDistinctKeys [] = Unit
  HasDistinctKeys ((a, v) ∷ m) = (get a m ≡ none) × HasDistinctKeys m

  pub insert-HasDistinctKeys :
      (a : K) (v : V) (m : Map K V) → HasDistinctKeys m → HasDistinctKeys (insert a v m)
  unfolding insert get
  insert-HasDistinctKeys a v [] d = (refl, tt)
  insert-HasDistinctKeys a v ((b, w) ∷ m) d = elim (k.eq? a b) [
    | yes e ↦ rw (if_pos _ e) (rw e d.0, d.1)
    | no n ↦
        rw (if_neg _ n)
          (rw (get-insert_other a b v m (λ e. n (sym e))) d.0, insert-HasDistinctKeys a v m d.1)
  ]

  pub remove-HasDistinctKeys :
      (a : K) (m : Map K V) → HasDistinctKeys m → HasDistinctKeys (remove a m)
  unfolding remove
  remove-HasDistinctKeys a [] d = tt
  remove-HasDistinctKeys a ((b, w) ∷ m) d = elim (k.eq? a b) [
    | yes e ↦ rw (if_pos _ e) (remove-HasDistinctKeys a m d.1)
    | no n ↦
        let fresh : get b (remove a m) ≡ none =
          rw (get-remove a b m) (rw (if_neg _ (λ e. n (sym e))) d.0) in
        rw (if_neg _ n) (fresh, remove-HasDistinctKeys a m d.1)
  ]
