-- ===== src/Fees.antt =====
-- src/util/fees.rs: the fee of a transaction, and the fee histogram of the mempool. A fee rate is a non-negative f32 and stands
-- here as its bits, which order such numbers as `partial_cmp` does.
use splora.Common.{
  ℕ, ◌+◌, ◌-◌, ◌/◌, ◌%◌, ◌^◌, Bool, ◌>>=◌, true, false, not, ◌&&◌, ◌||◌, Option, none, some, List,
  [], ◌∷◌, length, leb, ltb, ◌==◌, if◌then◌else◌,
}
use splora.Common.Maps.{Map}
use splora.Transactions.{TxOut, Transaction, is_coinbase_tx}
pub mod Histogram

pub record TxFeeInfo : Type 0 where
  pub fee : ℕ
  pub vsize : ℕ
  pub fee_per_vbyte : ℕ

-- `iter().sum()` of u64.
abbrev pub sum_values : List TxOut → ℕ
sum_values [] = 0
sum_values (o ∷ os) = (o.value + sum_values os) % 2 ^ 64

abbrev pub values {ℓ} : {K V : Type ℓ} → Map K V → List V
values [] = []
values ((k, v) ∷ m) = v ∷ values m

-- Without Liquid. The subtraction wraps around.
unfoldable pub get_tx_fee : Transaction → Map ℕ TxOut → ℕ
get_tx_fee tx prevouts =
    if is_coinbase_tx tx
    then 0
    else (sum_values (values prevouts) + 2 ^ 64 - sum_values tx.output) % 2 ^ 64

-- `fee_rate` is the quotient of two numbers as f32.
unfoldable pub new : (ℕ → ℕ → ℕ) → Transaction → Map ℕ TxOut → TxFeeInfo
new fee_rate tx prevouts =
    let fee = get_tx_fee tx prevouts in
    let vsize = tx.weight / 4 in
    record { fee = fee; vsize = vsize % 2 ^ 32; fee_per_vbyte = fee_rate fee vsize }

abbrev pub vsize_bin_width : ℕ
vsize_bin_width = 50000

-- The bits above those of infinity.
abbrev pub is_nan : ℕ → Bool
is_nan rate = ltb 2139095040 rate

abbrev pub has_nan : List TxFeeInfo → Bool
has_nan [] = false
has_nan (e ∷ es) = is_nan e.fee_per_vbyte || has_nan es

-- The sorted entries, from the last: the highest rate first.
abbrev pub insert : TxFeeInfo → List TxFeeInfo → List TxFeeInfo
insert e [] = e ∷ []
insert e (x ∷ xs) = if leb x.fee_per_vbyte e.fee_per_vbyte then e ∷ x ∷ xs else x ∷ insert e xs

abbrev pub descending : List TxFeeInfo → List TxFeeInfo
descending [] = []
descending (e ∷ es) = insert e (descending es)

-- A comparison with a NaN panics; one entry alone is not compared.
abbrev pub sorted : List TxFeeInfo → Option (List TxFeeInfo)
sorted es = if has_nan es && ltb 1 (length es) then none else some (descending es)

-- Whether the bin ends before an entry of this rate. NaN differs from every rate.
abbrev pub closes : ℕ → ℕ → ℕ → Bool
closes bin_size last rate = ltb vsize_bin_width bin_size && (not (last == rate) || is_nan last)

-- The loop, from the bin's size and the last rate on.
abbrev pub bins : List TxFeeInfo → ℕ → ℕ → List (ℕ × ℕ)
bins [] bin_size last = if ltb 0 bin_size then (last, bin_size) ∷ [] else []
bins (e ∷ es) bin_size last =
    let start = if closes bin_size last e.fee_per_vbyte then 0 else bin_size in
    let rest = bins es ((start + e.vsize) % 2 ^ 32) e.fee_per_vbyte in
    if closes bin_size last e.fee_per_vbyte then (last, bin_size) ∷ rest else rest

-- `none` is a panic.
unfoldable pub make_fee_histogram : List TxFeeInfo → Option (List (ℕ × ℕ))
make_fee_histogram entries = do es ← sorted entries; some (bins es 0 0)
