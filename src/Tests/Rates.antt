-- ===== src/Tests/Rates.antt =====
-- A few fee rates and their histogram.
use splora.Common.{ℕ, ◌≡◌, refl, true, some, List, [], ◌∷◌, arith}
use splora.Fees.{TxFeeInfo, make_fee_histogram}
use splora.Fees.Histogram.{paying, above, filled, has_bin, total, make_fee_histogram_cumulative}

-- The rates 1.0, 2.0 and 4.0 and their bits.
abbrev entries : List TxFeeInfo
entries =
    record { fee = 30000; vsize = 30000; fee_per_vbyte = 1065353216 }
    ∷ record { fee = 240000; vsize = 60000; fee_per_vbyte = 1082130432 }
    ∷ record { fee = 80000; vsize = 40000; fee_per_vbyte = 1073741824 }
    ∷ []

histogram_of_three :
    make_fee_histogram entries ≡ some ((1082130432, 60000) ∷ (1065353216, 70000) ∷ [])
unfolding make_fee_histogram
histogram_of_three = refl

make_fee_histogram_cumulative_example :
    (h : List (ℕ × ℕ)) × (make_fee_histogram entries ≡ some h)
    × (above 0 h ≡ total entries)
    × (filled h ≡ true)
    × ((r : ℕ) → has_bin r h ≡ true → above r h ≡ paying r entries)
make_fee_histogram_cumulative_example = make_fee_histogram_cumulative entries refl (omega arith)
