-- ===== src/Fees/Histogram.antt =====
-- `make_fee_histogram`: the sizes of the bins.
use splora.Common.{
  ℕ, ◌+◌, ◌%◌, ◌^◌, ◌≤◌, ◌<◌, ◌≡◌, refl, ap, ◌∙◌, Bool, true, false, ◌&&◌, ◌||◌, some, List, [],
  ◌∷◌, leb, ltb, ◌==◌, if◌then◌else◌, arith, inl, inr, Bool-cases, leb→le,
}
use splora.Fees.{
  TxFeeInfo, vsize_bin_width, has_nan, insert, descending, closes, bins, make_fee_histogram,
}

-- The size of the transactions that pay at least this rate.
abbrev pub paying : ℕ → List TxFeeInfo → ℕ
paying r [] = 0
paying r (e ∷ es) = (if leb r e.fee_per_vbyte then e.vsize else 0) + paying r es

abbrev pub total : List TxFeeInfo → ℕ
total [] = 0
total (e ∷ es) = e.vsize + total es

-- The size of the bins down to this rate.
abbrev pub above : ℕ → List (ℕ × ℕ) → ℕ
above r [] = 0
above r ((rate, size) ∷ h) = (if leb r rate then size else 0) + above r h

abbrev pub has_bin : ℕ → List (ℕ × ℕ) → Bool
has_bin r [] = false
has_bin r ((rate, size) ∷ h) = (r == rate) || has_bin r h

-- Every bin but the last is above the width.
abbrev pub filled : List (ℕ × ℕ) → Bool
filled [] = true
filled (b ∷ []) = true
filled (b ∷ c ∷ h) = ltb vsize_bin_width b.1 && filled (c ∷ h)

filled-∷ :
    (b : ℕ × ℕ) (h : List (ℕ × ℕ))
    → ltb vsize_bin_width b.1 ≡ true
    → filled h ≡ true
    → filled (b ∷ h) ≡ true
filled-∷ b [] w f = refl
filled-∷ b (c ∷ h) w f = rw (w, f) refl

-- Rates fall, from this one on.
abbrev Falls : ℕ → List TxFeeInfo → Type 0
Falls last [] = Unit
Falls last (e ∷ es) = (e.fee_per_vbyte ≤ last) × Falls e.fee_per_vbyte es

paying-insert :
    (r : ℕ) (e : TxFeeInfo) (es : List TxFeeInfo) → paying r (insert e es) ≡ paying r (e ∷ es)
paying-insert r e [] = refl
paying-insert r e (x ∷ xs) = ground (arith, paying-insert r e xs)

paying-descending : (r : ℕ) (es : List TxFeeInfo) → paying r (descending es) ≡ paying r es
paying-descending r [] = refl
paying-descending r (e ∷ es) =
    paying-insert r e (descending es)
    ∙ ap (λ n. (if leb r e.fee_per_vbyte then e.vsize else 0) + n) (paying-descending r es)

insert-Falls :
    (last : ℕ) (e : TxFeeInfo) (es : List TxFeeInfo)
    → e.fee_per_vbyte ≤ last
    → Falls last es
    → Falls last (insert e es)
insert-Falls last e [] h f = (h, tt)
insert-Falls last e (x ∷ xs) h f = elim (Bool-cases (leb x.fee_per_vbyte e.fee_per_vbyte)) [
  | inr less ↦ rw less (f.0, insert-Falls x.fee_per_vbyte e xs (ground (arith, less)) f.1)
  | inl most ↦ rw most (h, (ground (arith, most), f.1))
]

total-insert : (e : TxFeeInfo) (es : List TxFeeInfo) → total (insert e es) ≡ e.vsize + total es
total-insert e [] = refl
total-insert e (x ∷ xs) = ground (arith, total-insert e xs)

total-descending : (es : List TxFeeInfo) → total (descending es) ≡ total es
total-descending [] = refl
total-descending (e ∷ es) = omega (arith, total-insert e (descending es), total-descending es)

abbrev infinity : ℕ
infinity = 2139095040

descending-Falls : (es : List TxFeeInfo) → has_nan es ≡ false → Falls infinity (descending es)
descending-Falls [] h = tt
descending-Falls (e ∷ es) h =
    insert-Falls infinity e (descending es) (ground (arith, h))
      (descending-Falls es (ground (arith, h)))

mod_small : (n : ℕ) → n < 2 ^ 32 → n % 2 ^ 32 ≡ n
mod_small n h = omega (arith, h)

paying-high : (r last : ℕ) (es : List TxFeeInfo) → Falls last es → last < r → paying r es ≡ 0
paying-high r last [] f h = refl
paying-high r last (e ∷ es) f h =
    let low : leb r e.fee_per_vbyte ≡ false = ground (arith, f.0) in
    ground (arith, low, paying-high r e.fee_per_vbyte es f.1 (omega (arith, f.0)))

-- The two ways of one step.
bins-closes :
    (e : TxFeeInfo) (es : List TxFeeInfo) (b last : ℕ)
    → closes b last e.fee_per_vbyte ≡ true
    → e.vsize < 2 ^ 32
    → bins (e ∷ es) b last ≡ (last, b) ∷ bins es e.vsize e.fee_per_vbyte
bins-closes e es b last c h =
    let size : (0 + e.vsize) % 2 ^ 32 ≡ e.vsize = omega (arith, h) in rw (c, size) refl

bins-continues :
    (e : TxFeeInfo) (es : List TxFeeInfo) (b last : ℕ)
    → closes b last e.fee_per_vbyte ≡ false
    → b + e.vsize < 2 ^ 32
    → bins (e ∷ es) b last ≡ bins es (b + e.vsize) e.fee_per_vbyte
bins-continues e es b last c h = rw (c, mod_small (b + e.vsize) h) refl

above-high :
    (r b last : ℕ) (es : List TxFeeInfo)
    → Falls last es
    → b + total es < 2 ^ 32
    → last < r
    → (above r (bins es b last) ≡ 0) × (has_bin r (bins es b last) ≡ false)
above-high r b last [] f s h = (ground arith, ground arith)
above-high r b last (e ∷ es) f s h = elim (Bool-cases (closes b last e.fee_per_vbyte)) [
  | inl c ↦
      let (a, n) =
        above-high r e.vsize e.fee_per_vbyte es f.1 (omega (arith, s)) (omega (arith, f.0)) in
      rw (bins-closes e es b last c (omega (arith, s))) (ground (arith, a), ground (arith, n))
  | inr c ↦
      rw (bins-continues e es b last c (omega (arith, s)))
        (above-high r (b + e.vsize) e.fee_per_vbyte es f.1 (omega (arith, s)) (omega (arith, f.0)))
]

bins-total :
    (b last : ℕ) (es : List TxFeeInfo)
    → b + total es < 2 ^ 32
    → above 0 (bins es b last) ≡ b + total es
bins-total b last [] s = ground arith
bins-total b last (e ∷ es) s = elim (Bool-cases (closes b last e.fee_per_vbyte)) [
  | inl c ↦
      rw (bins-closes e es b last c (omega (arith, s)))
        (ground (arith, bins-total e.vsize e.fee_per_vbyte es (omega (arith, s))))
  | inr c ↦
      rw (bins-continues e es b last c (omega (arith, s)))
        (ground (arith, bins-total (b + e.vsize) e.fee_per_vbyte es (omega (arith, s))))
]

has_bin-low :
    (r b last : ℕ) (es : List TxFeeInfo)
    → Falls last es
    → b + total es < 2 ^ 32
    → has_bin r (bins es b last) ≡ true
    → r ≤ last
has_bin-low r b last es f s h = elim (Bool-cases (leb r last)) [
  | inl low ↦ leb→le r last low
  | inr high ↦ ground (arith, (above-high r b last es f s (ground (arith, high))).1, h)
]

bins-above :
    (r b last : ℕ) (es : List TxFeeInfo)
    → last ≤ infinity
    → Falls last es
    → b + total es < 2 ^ 32
    → has_bin r (bins es b last) ≡ true
    → above r (bins es b last) ≡ b + paying r es
bins-above r b last [] i f s h = ground (arith, h)
bins-above r b last (e ∷ es) i f s h = elim (Bool-cases (closes b last e.fee_per_vbyte)) [
  | inl c ↦
      let step = bins-closes e es b last c (omega (arith, s)) in
      let rest = bins es e.vsize e.fee_per_vbyte in
      let differs : e.fee_per_vbyte < last = ground (arith, c, i, f.0) in
      let fits : e.vsize + total es < 2 ^ 32 = omega (arith, s) in
      let h' : has_bin r ((last, b) ∷ rest) ≡ true = rw step at h in
      let high = above-high r e.vsize e.fee_per_vbyte es f.1 fits in
      rw step (elim (Bool-cases (has_bin r rest)) [
        | inl later ↦
            let low : r ≤ e.fee_per_vbyte =
              has_bin-low r e.vsize e.fee_per_vbyte es f.1 fits later in
            let ih =
              bins-above r e.vsize e.fee_per_vbyte es (omega (arith, i, f.0)) f.1 fits later in
            ground (arith, low, differs, ih)
        | inr here ↦
            let same : r ≡ last = ground (arith, h', here) in
            let none_pay = paying-high r e.fee_per_vbyte es f.1 (omega (arith, same, differs)) in
            ground (arith, same, differs, none_pay, (high (omega (arith, same, differs))).0)
      ])
  | inr c ↦
      let step = bins-continues e es b last c (omega (arith, s)) in
      let fits : b + e.vsize + total es < 2 ^ 32 = omega (arith, s) in
      let h' : has_bin r (bins es (b + e.vsize) e.fee_per_vbyte) ≡ true = rw step at h in
      let low : r ≤ e.fee_per_vbyte = has_bin-low r (b + e.vsize) e.fee_per_vbyte es f.1 fits h' in
      let ih = bins-above r (b + e.vsize) e.fee_per_vbyte es (omega (arith, i, f.0)) f.1 fits h' in
      rw step (ground (arith, low, ih))
]

bins-filled :
    (b last : ℕ) (es : List TxFeeInfo) → b + total es < 2 ^ 32 → filled (bins es b last) ≡ true
bins-filled b last [] s = ground arith
bins-filled b last (e ∷ es) s = elim (Bool-cases (closes b last e.fee_per_vbyte)) [
  | inl c ↦ rw (bins-closes e es b last c (omega (arith, s))) (
      filled-∷ (last, b) (bins es e.vsize e.fee_per_vbyte) (ground (arith, c))
        (bins-filled e.vsize e.fee_per_vbyte es (omega (arith, s))))
  | inr c ↦
      rw (bins-continues e es b last c (omega (arith, s)))
        (bins-filled (b + e.vsize) e.fee_per_vbyte es (omega (arith, s)))
]

-- The first rate does not matter, since an empty bin is not closed.
bins-start : (es : List TxFeeInfo) → bins es 0 0 ≡ bins es 0 infinity
bins-start [] = refl
bins-start (e ∷ es) = refl

-- Without a NaN among the rates and with sizes that together stay below 2 ^ 32, the histogram is
-- made. Its bins hold the size of all entries, each bin but the last is above 50,000, and the bins
-- down to the rate of any one bin hold the size of the entries that pay at least this rate.
pub make_fee_histogram_cumulative :
    (es : List TxFeeInfo)
    → has_nan es ≡ false
    → total es < 2 ^ 32
    → (h : List (ℕ × ℕ)) × (make_fee_histogram es ≡ some h)
      × (above 0 h ≡ total es)
      × (filled h ≡ true)
      × ((r : ℕ) → has_bin r h ≡ true → above r h ≡ paying r es)
unfolding make_fee_histogram
make_fee_histogram_cumulative es n s =
    let ds = descending es in
    let whole = total-descending es in
    let fits : 0 + total ds < 2 ^ 32 = omega (arith, s, whole) in
    (
      bins ds 0 infinity,
      rw n (ap some (bins-start ds)),
      omega (arith, bins-total 0 infinity ds fits, whole),
      bins-filled 0 infinity ds fits,
      λ r b. omega (
        arith,
        bins-above r 0 infinity ds (omega arith) (descending-Falls es n) fits b,
        paying-descending r es,
      ),
    )
