-- ===== src/Common/Lines.antt =====
-- `str::lines`, `str::split` of a character and the writing of lines, with what reading back
-- written lines gives.
use mathlib.Core.Path.{◌≡◌, refl, ap, ◌∙◌}
use mathlib.Core.Logic.{inl, inr}
use mathlib.Core.Bool.{Bool, true, false, ◌&&◌, not}
use mathlib.Core.List.{List, [], ◌∷◌, ◌++◌, map}
use Prim.Native.Nat.{ℕ}
use native.Mathlib.Omega.{arith}
use splora.Common.Tests.{◌==◌, if◌then◌else◌, Bool-cases}
use splora.Common.Text.{Text, has_char, is_whitespace, trim_start, trim_end, trim}

abbrev pub cons_first : ℕ → List Text → List Text
cons_first c [] = (c ∷ []) ∷ []
cons_first c (l ∷ ls) = (c ∷ l) ∷ ls

abbrev pub starts_line_end : Text → Bool
starts_line_end [] = false
starts_line_end (c ∷ s) = c == 10

-- A carriage return before a line feed is part of the line's end.
unfoldable pub lines : Text → List Text
lines [] = []
lines (c ∷ s) =
    let rest = lines s in
    if c == 10
    then [] ∷ rest
    else if (c == 13) && starts_line_end s
    then rest
    else cons_first c rest

unfoldable pub split_on : ℕ → Text → List Text
split_on k [] = [] ∷ []
split_on k (c ∷ s) = let rest = split_on k s in if c == k then [] ∷ rest else cons_first c rest

unfoldable pub unlines : List Text → Text
unlines [] = []
unlines (l ∷ ls) = l ++ 10 ∷ unlines ls

abbrev pub first_line : Text → Text
first_line [] = []
first_line (c ∷ s) = let rest = first_line s in if c == 10 then [] else c ∷ rest

-- What follows the first line feed.
abbrev pub after_line : Text → Text
after_line [] = []
after_line (c ∷ s) = let rest = after_line s in if c == 10 then s else rest

abbrev pub none_has : ℕ → List Text → Bool
none_has k [] = true
none_has k (l ∷ ls) = not (has_char k l) && none_has k ls

trim_end-cons : (c : ℕ) (s t : Text) → trim_end s ≡ trim_end t → trim_end (c ∷ s) ≡ trim_end (c ∷ t)
unfolding trim_end
trim_end-cons c s t h =
    ap (λ r. elim r [ [] ↦ if is_whitespace c then [] else c ∷ [] | d ∷ u ↦ c ∷ d ∷ u ]) h

-- How the lines of a text with more after it begin.
pub record Lines (s : Text) (rest : List Text) (all : List Text) : Type 0 where
  pub first : Text
  pub others : List Text
  pub whole : all ≡ first ∷ (others ++ rest)
  pub first-trim : trim_end first ≡ trim_end (first_line s)
  pub kept : (k : ℕ) → has_char k s ≡ false → none_has k (first ∷ others) ≡ true
  pub later : (k : ℕ) → has_char k (after_line s) ≡ false → none_has k others ≡ true
  pub single : has_char 10 s ≡ false → others ≡ []

line_feed : (s : Text) (rest all : List Text) → Lines s rest all → Lines (10 ∷ s) rest ([] ∷ all)
line_feed s rest all r = record {
  first = [];
  others = r.first ∷ r.others;
  whole = ap (◌∷◌ []) r.whole;
  first-trim = refl;
  kept = λ k h. r.kept k (ground (arith, h));
  later = λ k h. r.kept k h;
  single = λ h. ground (arith, h);
}

plain :
    (c : ℕ) (s : Text) (rest all : List Text)
    → (c == 10) ≡ false
    → Lines s rest all
    → Lines (c ∷ s) rest (cons_first c all)
plain c s rest all n r = record {
  first = c ∷ r.first;
  others = r.others;
  whole = ap (cons_first c) r.whole;
  first-trim = rw n (trim_end-cons c r.first (first_line s) r.first-trim);
  kept = λ k h. ground (arith, h, r.kept k);
  later = λ k h. r.later k (rw n at h);
  single = λ h. r.single (ground (arith, h));
}

ends_empty :
    (c : ℕ) (s next : Text)
    → c ≡ 13
    → starts_line_end (s ++ 10 ∷ next) ≡ true
    → trim_end (first_line s) ≡ trim_end (first_line (c ∷ s))
unfolding trim_end is_whitespace
ends_empty c [] next e h = rw e refl
ends_empty c (d ∷ s) next e h = rw (e, h) refl

carriage_return :
    (c : ℕ) (s next : Text) (rest all : List Text)
    → c ≡ 13
    → starts_line_end (s ++ 10 ∷ next) ≡ true
    → Lines s rest all
    → Lines (c ∷ s) rest all
unfolding trim_end is_whitespace
carriage_return c s next rest all e h r = record {
  first = r.first;
  others = r.others;
  whole = r.whole;
  first-trim = r.first-trim ∙ ends_empty c s next e h;
  kept = λ k g. r.kept k (ground (arith, g));
  later = λ k g. r.later k (ground (arith, e, g));
  single = λ g. r.single (ground (arith, g));
}

pub lines-Lines : (s next : Text) → Lines s (lines next) (lines (s ++ 10 ∷ next))
unfolding lines
lines-Lines [] next = record {
  first = [];
  others = [];
  whole = refl;
  first-trim = refl;
  kept = λ k h. refl;
  later = λ k h. refl;
  single = λ h. refl;
}
lines-Lines (c ∷ s) next = elim (Bool-cases (c == 10)) [
  | inl e ↦
      let q : c ≡ 10 = ground (arith, e) in rw q (line_feed s (lines next) _ (lines-Lines s next))
  | inr e ↦ elim (Bool-cases ((c == 13) && starts_line_end (s ++ 10 ∷ next))) [
    | inl f ↦
        rw (e, f)
          (carriage_return c s next (lines next) _ (ground (arith, f)) (ground (arith, f))
            (lines-Lines s next))
    | inr f ↦ rw (e, f) (plain c s (lines next) _ e (lines-Lines s next))
  ]
]

pub trim-cong : (s t : Text) → trim_end s ≡ trim_end t → trim s ≡ trim t
unfolding trim
trim-cong s t h = ap trim_start h

first_line-single : (s : Text) → has_char 10 s ≡ false → first_line s ≡ s
first_line-single [] h = refl
first_line-single (c ∷ s) h =
    let n : (c == 10) ≡ false = ground (arith, h) in
    rw n (ap (◌∷◌ c) (first_line-single s (ground (arith, h))))

-- Lines without a line feed come back from the text that they were written to, up to the white
-- space around them.
pub trim-lines-unlines :
    (ls : List Text) → none_has 10 ls ≡ true → map trim (lines (unlines ls)) ≡ map trim ls
unfolding unlines lines
trim-lines-unlines [] h = refl
trim-lines-unlines (l ∷ ls) h =
    let r = lines-Lines l (unlines ls) in
    let single = first_line-single l (ground (arith, h)) in
    let o = r.single (ground (arith, h)) in
    ap (map trim) (r.whole ∙ ap (λ o. r.first ∷ (o ++ lines (unlines ls))) o)
    ∙ ap (λ t. t ∷ map trim (lines (unlines ls)))
        (trim-cong r.first l (r.first-trim ∙ ap trim_end single))
    ∙ ap (◌∷◌ (trim l)) (trim-lines-unlines ls (ground (arith, h)))

none_has-cons_first :
    (c : ℕ) (ls : List Text)
    → (c == 10) ≡ false
    → none_has 10 ls ≡ true
    → none_has 10 (cons_first c ls) ≡ true
none_has-cons_first c [] n h = ground arith
none_has-cons_first c (l ∷ ls) n h = ground arith

-- `lines` makes lines without a line feed.
pub lines-none_has : (s : Text) → none_has 10 (lines s) ≡ true
unfolding lines
lines-none_has [] = refl
lines-none_has (c ∷ s) = ground (arith, lines-none_has s, none_has-cons_first c (lines s))

pub split_on-absent : (k : ℕ) (s : Text) → has_char k s ≡ false → split_on k s ≡ s ∷ []
unfolding split_on
split_on-absent k [] h = refl
split_on-absent k (c ∷ s) h = ground (arith, split_on-absent k s, h)

pub split_on-append :
    (k : ℕ) (s t : Text) → has_char k s ≡ false → split_on k (s ++ k ∷ t) ≡ s ∷ split_on k t
unfolding split_on
split_on-append k [] t h = ground arith
split_on-append k (c ∷ s) t h = ground (arith, split_on-append k s t, h)

pub after_line-absent :
    (k : ℕ) (s : Text) → has_char k s ≡ false → has_char k (after_line s) ≡ false
after_line-absent k [] h = refl
after_line-absent k (c ∷ s) h = ground (arith, h, after_line-absent k s)

pub first_line-absent :
    (k : ℕ) (s : Text) → has_char k s ≡ false → has_char k (first_line s) ≡ false
first_line-absent k [] h = refl
first_line-absent k (c ∷ s) h = ground (arith, h, first_line-absent k s)

pub first_line-append :
    (a : Text) (k : ℕ) (b : Text)
    → has_char 10 a ≡ false
    → (k == 10) ≡ false
    → first_line (a ++ k ∷ b) ≡ a ++ k ∷ first_line b
first_line-append [] k b h n = rw n refl
first_line-append (c ∷ a) k b h n =
    let m : (c == 10) ≡ false = ground (arith, h) in
    rw m (ap (◌∷◌ c) (first_line-append a k b (ground (arith, h)) n))

pub after_line-append :
    (a : Text) (k : ℕ) (b : Text)
    → has_char 10 a ≡ false
    → (k == 10) ≡ false
    → after_line (a ++ k ∷ b) ≡ after_line b
after_line-append [] k b h n = rw n refl
after_line-append (c ∷ a) k b h n =
    let m : (c == 10) ≡ false = ground (arith, h) in
    rw m (after_line-append a k b (ground (arith, h)) n)
