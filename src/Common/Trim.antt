-- ===== src/Common/Trim.antt =====
-- Trimming a text that a separator divides.
use mathlib.Core.Path.{◌≡◌, refl, ap, ◌∙◌}
use mathlib.Core.Logic.{inl, inr}
use mathlib.Core.Bool.{false}
use mathlib.Core.List.{[], ◌∷◌, ◌++◌}
use Prim.Native.Nat.{ℕ, ◌≤◌}
use native.Mathlib.Omega.{arith}
use splora.Common.Tests.{if◌then◌else◌, Bool-cases}
use splora.Common.Lists.{length}
use splora.Common.Text.{Text, is_empty, is_whitespace, trim_start, trim_end, trim, has_char}

length-trim_start : (s : Text) → length (trim_start s) ≤ length s
unfolding trim_start
length-trim_start [] = omega arith
length-trim_start (c ∷ s) = ground (arith, length-trim_start s)

-- A text that starts as it is trimmed starts with no white space.
no_whitespace : (c : ℕ) (s : Text) → trim_start (c ∷ s) ≡ c ∷ s → is_whitespace c ≡ false
unfolding trim_start
no_whitespace c s h = elim (Bool-cases (is_whitespace c)) [
  | inr w ↦ w
  | inl w ↦
      let r : trim_start s ≡ c ∷ s = rw w at h in ground (arith, length-trim_start s, ap length r)
]

trim_start-append :
    (a b : Text) → is_empty a ≡ false → trim_start a ≡ a → trim_start (a ++ b) ≡ a ++ b
unfolding trim_start
trim_start-append [] b e h = ground arith
trim_start-append (c ∷ a) b e h = let w = no_whitespace c a h in rw w refl

trim_end-kept : (b : Text) (k : ℕ) → is_whitespace k ≡ false → trim_end (k ∷ b) ≡ k ∷ trim_end b
unfolding trim_end
trim_end-kept b k w = ground (arith, w)

trim_end-append :
    (a b : Text) (k : ℕ) → is_whitespace k ≡ false → trim_end (a ++ k ∷ b) ≡ a ++ k ∷ trim_end b
unfolding trim_end
trim_end-append [] b k w = trim_end-kept b k w
trim_end-append (c ∷ []) b k w = rw (trim_end-kept b k w) refl
trim_end-append (c ∷ d ∷ a) b k w = rw (trim_end-append (d ∷ a) b k w) refl

-- Only the end of the second part is trimmed.
pub trim-append :
    (a b : Text) (k : ℕ)
    → is_whitespace k ≡ false
    → is_empty a ≡ false
    → trim_start a ≡ a
    → trim (a ++ k ∷ b) ≡ a ++ k ∷ trim_end b
unfolding trim
trim-append a b k w e h =
    ap trim_start (trim_end-append a b k w) ∙ trim_start-append a (k ∷ trim_end b) e h

pub trim_start-absent :
    (k : ℕ) (s : Text) → has_char k s ≡ false → has_char k (trim_start s) ≡ false
unfolding trim_start
trim_start-absent k [] h = refl
trim_start-absent k (c ∷ s) h = ground (arith, h, trim_start-absent k s)

pub trim_end-absent : (k : ℕ) (s : Text) → has_char k s ≡ false → has_char k (trim_end s) ≡ false
unfolding trim_end
trim_end-absent k [] h = refl
trim_end-absent k (c ∷ s) h = ground (arith, h, trim_end-absent k s)

-- `trim_end` of one more character, by what is left of the rest.
abbrev with_first : ℕ → Text → Text
with_first c [] = if is_whitespace c then [] else c ∷ []
with_first c (d ∷ t) = c ∷ d ∷ t

with_first-kept : (c : ℕ) (r : Text) → trim_end r ≡ r → trim_end (with_first c r) ≡ with_first c r
unfolding trim_end
with_first-kept c [] h = ground arith
with_first-kept c (d ∷ t) h = rw h refl

trim_end_idem : (s : Text) → trim_end (trim_end s) ≡ trim_end s
unfolding trim_end
trim_end_idem [] = refl
trim_end_idem (c ∷ s) = with_first-kept c (trim_end s) (trim_end_idem s)

pub trim-trim_end : (s : Text) → trim (trim_end s) ≡ trim s
unfolding trim
trim-trim_end s = ap trim_start (trim_end_idem s)
