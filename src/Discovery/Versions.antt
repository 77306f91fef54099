-- ===== src/Discovery/Versions.antt =====
-- src/electrum/mod.rs: a protocol version is read back from its text.

use splora.Common.{
  ℕ, zero, suc, ◌+◌, ◌-◌, ◌*◌, ◌/◌, ◌%◌, ◌^◌, ◌≤◌, ◌<◌, ◌≡◌, refl, sym, ap, ◌∙◌, true, false, ◌&&◌,
  some, [], ◌∷◌, ◌==◌, leb, ltb, arith, inl, inr, Bool-cases,
}
use splora.Common.Lines.{split_on-absent, split_on-append}
use splora.Common.Text.{Text, has_char}
use splora.Discovery.{ProtocolVersion}
use splora.Discovery.Listing.{
  digits, show_number, show_version, parse_digits, parse_usize, version_of_parts, parse_version,
}

parse_digits-digit :
    (value n : ℕ) (text : Text)
    → value * 10 + n % 10 ≡ n
    → n < 2 ^ 64
    → parse_digits value ((48 + n % 10) ∷ text) ≡ parse_digits n text
unfolding parse_digits
parse_digits-digit value n text e h =
    let next : value * 10 + ((48 + n % 10) - 48) ≡ n = omega (arith, e) in
    let fits : (leb 48 (48 + n % 10) && leb (48 + n % 10) 57 && ltb n (2 ^ 64)) ≡ true =
      ground (arith, h) in
    rw (next, fits) refl

parse_digits-digits :
    (fuel n : ℕ) (text : Text)
    → n < fuel
    → n < 2 ^ 64
    → parse_digits 0 (digits fuel n text) ≡ parse_digits n text
unfolding digits
parse_digits-digits zero n text f h = absurd (omega arith)
parse_digits-digits (suc fuel) n text f h = elim (Bool-cases (n / 10 == 0)) [
  | inl z ↦ rw z (parse_digits-digit 0 n text (ground (arith, z)) h)
  | inr z ↦ rw z (
      parse_digits-digits fuel (n / 10) ((48 + n % 10) ∷ text) (ground (arith, z)) (omega arith)
      ∙ parse_digits-digit (n / 10) n text (omega arith) h)
]

-- A character of a number's text is a digit.
first_digit :
    (fuel n : ℕ) (text : Text)
    → (d : ℕ) × (t : Text) × (digits (suc fuel) n text ≡ d ∷ t) × (48 ≤ d) × (d ≤ 57)
unfolding digits
first_digit zero n text = (48 + n % 10, text, ground arith, omega arith, omega arith)
first_digit (suc fuel) n text = elim (Bool-cases (n / 10 == 0)) [
  | inl z ↦ (48 + n % 10, text, rw z refl, omega arith, omega arith)
  | inr z ↦ rw z (first_digit fuel (n / 10) ((48 + n % 10) ∷ text))
]

digits-absent :
    (fuel n : ℕ) (text : Text) → has_char 46 text ≡ false → has_char 46 (digits fuel n text) ≡ false
unfolding digits
digits-absent zero n text h = h
digits-absent (suc fuel) n text h = elim (Bool-cases (n / 10 == 0)) [
  | inl z ↦ rw z (ground (arith, h))
  | inr z ↦ rw z (digits-absent fuel (n / 10) ((48 + n % 10) ∷ text) (ground (arith, h)))
]

parse_usize-digit : (d : ℕ) (t : Text) → 48 ≤ d → parse_usize (d ∷ t) ≡ parse_digits 0 (d ∷ t)
unfolding parse_usize
parse_usize-digit d [] h = refl
parse_usize-digit d (c ∷ t) h = let n : (d == 43) ≡ false = ground (arith, h) in rw n refl

parse_usize-show_number : (n : ℕ) → n < 2 ^ 64 → parse_usize (show_number n) ≡ some n
unfolding parse_digits
parse_usize-show_number n h =
    let (d, t, e, low, high) = first_digit n n [] in
    ap parse_usize e
    ∙ parse_usize-digit d t low
    ∙ ap (parse_digits 0) (sym e)
    ∙ parse_digits-digits (suc n) n [] (omega arith) h

version_of_two :
    (a b : Text) (m n : ℕ)
    → parse_usize a ≡ some m
    → parse_usize b ≡ some n
    → version_of_parts (a ∷ b ∷ []) ≡ some (record { major = m; minor = n })
version_of_two a b m n p q = rw (p, q) refl

-- The text of a protocol version whose numbers fit 64 bits is parsed to the version.
pub parse_version-show_version :
    (v : ProtocolVersion)
    → v.major < 2 ^ 64
    → v.minor < 2 ^ 64
    → parse_version (show_version v) ≡ some v
unfolding parse_version show_version
parse_version-show_version v major minor =
    let a = show_number v.major in
    let b = show_number v.minor in
    ap version_of_parts (
      split_on-append 46 a b (digits-absent (suc v.major) v.major [] refl)
      ∙ ap (◌∷◌ a) (split_on-absent 46 b (digits-absent (suc v.minor) v.minor [] refl)))
    ∙ version_of_two a b v.major v.minor (parse_usize-show_number v.major major)
        (parse_usize-show_number v.minor minor)
