-- ===== src/Common/Sort.antt =====
-- `sort_unstable` on numbers, as an insertion sort, and the place of a sorted element.
use Prim.Native.Nat.{ℕ, zero, suc, ◌+◌, ◌*◌, ◌/◌, ◌≤◌, ◌<◌}
use mathlib.Core.Path.{◌≡◌, refl, ◌∙◌, subst}
use mathlib.Core.Bool.{Bool, false, ◌||◌}
use mathlib.Core.Option.{some, some-injective}
use mathlib.Core.List.{List, [], ◌∷◌}
use native.Mathlib.Omega.{arith}
use mathlib.Core.Logic.{inl, inr}
use splora.Common.Tests.{leb, ◌==◌, leb→le, Bool-cases, if◌then◌else◌}
use splora.Common.Lists.{length, get_elem?, get_elem?-some, All, All-get_elem?, mem?, AreDistinct}

insert : ℕ → List ℕ → List ℕ
insert a [] = a ∷ []
insert a (x ∷ xs) = if leb a x then a ∷ x ∷ xs else x ∷ insert a xs

unfoldable pub sort : List ℕ → List ℕ
unfolding insert
sort [] = []
sort (x ∷ xs) = insert x (sort xs)

-- How many elements pass the test.
abbrev pub count_if : (ℕ → Bool) → List ℕ → ℕ
count_if p [] = 0
count_if p (x ∷ xs) = (if p x then 1 else 0) + count_if p xs

abbrev IsSorted : List ℕ → Type 0
IsSorted [] = Unit
IsSorted (x ∷ xs) = All (λ y. x ≤ y) xs × IsSorted xs

count_if-insert :
    (p : ℕ → Bool) (a : ℕ) (xs : List ℕ) → count_if p (insert a xs) ≡ count_if p (a ∷ xs)
unfolding insert
count_if-insert p a [] = refl
count_if-insert p a (x ∷ xs) = ground (arith, count_if-insert p a xs)

pub count_if-sort : (p : ℕ → Bool) (xs : List ℕ) → count_if p (sort xs) ≡ count_if p xs
unfolding sort
count_if-sort p [] = refl
count_if-sort p (x ∷ xs) = omega (arith, count_if-insert p x (sort xs), count_if-sort p xs)

length-insert : (a : ℕ) (xs : List ℕ) → length (insert a xs) ≡ suc (length xs)
unfolding insert
length-insert a [] = refl
length-insert a (x ∷ xs) = ground (arith, length-insert a xs)

pub length-sort : (xs : List ℕ) → length (sort xs) ≡ length xs
unfolding sort
length-sort [] = refl
length-sort (x ∷ xs) = omega (arith, length-insert x (sort xs), length-sort xs)

All-insert : (b a : ℕ) (xs : List ℕ) → b ≤ a → All (λ y. b ≤ y) xs → All (λ y. b ≤ y) (insert a xs)
unfolding insert
All-insert b a [] h t = (h, tt)
All-insert b a (x ∷ xs) h t = ground (arith, All-insert b a xs h t.1)

All-le : (a b : ℕ) (xs : List ℕ) → a ≤ b → All (λ y. b ≤ y) xs → All (λ y. a ≤ y) xs
All-le a b [] h t = tt
All-le a b (x ∷ xs) h t = (omega (arith, t.0), All-le a b xs h t.1)

insert-IsSorted : (a : ℕ) (xs : List ℕ) → IsSorted xs → IsSorted (insert a xs)
unfolding insert
insert-IsSorted a [] s = (tt, tt)
insert-IsSorted a (x ∷ xs) s = elim (Bool-cases (leb a x)) [
  | inl low ↦ rw low ((leb→le a x low, All-le a x xs (leb→le a x low) s.0), s)
  | inr high ↦ rw high (All-insert x a xs (ground arith) s.0, insert-IsSorted a xs s.1)
]

sort-IsSorted : (xs : List ℕ) → IsSorted (sort xs)
unfolding sort
sort-IsSorted [] = tt
sort-IsSorted (x ∷ xs) = insert-IsSorted x (sort xs) (sort-IsSorted xs)

count_ge-All : (m : ℕ) (xs : List ℕ) → All (λ y. m ≤ y) xs → count_if (λ y. leb m y) xs ≡ length xs
count_ge-All m [] h = refl
count_ge-All m (x ∷ xs) h = ground (arith, count_ge-All m xs h.1, h.0)

-- In a sorted list the element at `k` has `k` elements at or below it beside itself, and the
-- rest at or above.
sorted_place :
    (xs : List ℕ) (k m : ℕ)
    → IsSorted xs
    → get_elem? xs k ≡ some m
    → (k < count_if (λ y. leb y m) xs) × (length xs ≤ k + count_if (λ y. leb m y) xs)
sorted_place [] k m s h = cc
sorted_place (x ∷ xs) zero m s h =
    let same : x ≡ m = some-injective x m h in
    subst
      (λ n.
        (0 < count_if (λ y. leb y n) (x ∷ xs))
        × (suc (length xs) ≤ 0 + count_if (λ y. leb n y) (x ∷ xs)))
      same (ground arith, ground (arith, count_ge-All x xs s.0))
sorted_place (x ∷ xs) (suc k) m s h =
    let low : x ≤ m = All-get_elem? (λ y. x ≤ y) xs k m s.0 h in
    ground (arith, low, sorted_place xs k m s.1 h)

-- The middle element of the sorted list is a median of the list.
pub sort_median :
    (xs : List ℕ)
    → 0 < length xs
    → (m : ℕ) × (get_elem? (sort xs) (length xs / 2) ≡ some m)
      × (length xs < 2 * count_if (λ y. leb y m) xs)
      × (length xs ≤ 2 * count_if (λ y. leb m y) xs)
sort_median xs h =
    let (m, at) = get_elem?-some (sort xs) (length xs / 2) (omega (arith, length-sort xs)) in
    let (below, above) = sorted_place (sort xs) (length xs / 2) m (sort-IsSorted xs) at in
    (
      m,
      at,
      omega (arith, below, count_if-sort (λ y. leb y m) xs),
      omega (arith, above, count_if-sort (λ y. leb m y) xs, length-sort xs),
    )

abbrev pub Ascends : List ℕ → Type 0
Ascends [] = Unit
Ascends (x ∷ xs) = All (λ y. x < y) xs × Ascends xs

All-lt : (a x : ℕ) (xs : List ℕ) → a < x → All (λ y. x < y) xs → All (λ y. a < y) xs
All-lt a x [] h hs = tt
All-lt a x (y ∷ xs) h hs = (omega (arith, hs.0), All-lt a x xs h hs.1)

insert-Ascends : (a : ℕ) (xs : List ℕ) → mem? a xs ≡ false → Ascends xs → Ascends (insert a xs)
unfolding insert
insert-Ascends a [] n h = (tt, tt)
insert-Ascends a (x ∷ xs) n h = elim (Bool-cases (leb a x)) [
  | inl low ↦ let lt : a < x = ground (arith, low, n) in rw low ((lt, All-lt a x xs lt h.0), h)
  | inr high ↦
      let rest = insert-Ascends a xs (ground (arith, n)) h.1 in
      rw high (All-insert (suc x) a xs (ground (arith, high)) h.0, rest)
]

mem?-insert : (a b : ℕ) (xs : List ℕ) → mem? a (insert b xs) ≡ ((a == b) || mem? a xs)
unfolding insert
mem?-insert a b [] = refl
mem?-insert a b (x ∷ xs) = ground (arith, mem?-insert a b xs)

pub mem?-sort : (a : ℕ) (xs : List ℕ) → mem? a (sort xs) ≡ mem? a xs
unfolding sort
mem?-sort a [] = refl
mem?-sort a (x ∷ xs) = ground (arith, mem?-insert a x (sort xs), mem?-sort a xs)

pub sort-Ascends : (xs : List ℕ) → AreDistinct xs → Ascends (sort xs)
unfolding sort
sort-Ascends [] d = tt
sort-Ascends (x ∷ xs) d = insert-Ascends x (sort xs) (mem?-sort x xs ∙ d.0) (sort-Ascends xs d.1)
