-- ===== src/Tests/Hashing.antt =====
-- A hash of block headers that has no collision and never gives the null hash: a number that the
-- fields are paired into.
use splora.Common.{ℕ, zero, suc, ◌+◌, ◌*◌, ◌≤◌, ◌<◌, ◌≡◌, ap, ◌⊎◌, inl, inr, arith}
use splora.Headers.{BlockHash, BlockHeader}
use splora.Headers.Distinct.{HashLaws}

unfoldable pub square : ℕ → ℕ
square zero = 0
square (suc n) = square n + 2 * n + 1

square_mono : (s t : ℕ) → s < t → square s + 2 * s + 1 ≤ square t
unfolding square
square_mono s zero h = absurd (omega arith)
square_mono s (suc t) h = ground (arith, h, square_mono s t)

unfoldable pub pair : ℕ → ℕ → ℕ
unfolding square
pair a b = square (a + b) + a

sums : (s t : ℕ) → (s < t) ⊎ ((t < s) ⊎ (s ≡ t))
sums s t = ground arith

pair-injective : (a b c d : ℕ) → pair a b ≡ pair c d → (a ≡ c) × (b ≡ d)
unfolding pair
pair-injective a b c d h = elim (sums (a + b) (c + d)) [
  | inl lt ↦ absurd (omega (arith, h, square_mono (a + b) (c + d) lt))
  | inr (inl gt) ↦ absurd (omega (arith, h, square_mono (c + d) (a + b) gt))
  | inr (inr eq) ↦
      let q : square (a + b) ≡ square (c + d) = ap square eq in
      (omega (arith, h, q), omega (arith, h, q, eq))
]

-- The fields, the last block's hash outermost.
unfoldable pub hash : BlockHeader → BlockHash
unfolding pair
hash h = suc (
    pair h.prev_blockhash (pair h.version (pair h.merkle_root (pair h.time (pair h.bits h.nonce)))))

hash-injective : (a b : BlockHeader) → hash a ≡ hash b → a ≡ b
unfolding hash
hash-injective a b h =
    let in_bits = λ (x : BlockHeader). pair x.bits x.nonce in
    let in_time = λ (x : BlockHeader). pair x.time (in_bits x) in
    let in_root = λ (x : BlockHeader). pair x.merkle_root (in_time x) in
    let in_version = λ (x : BlockHeader). pair x.version (in_root x) in
    let q : pair a.prev_blockhash (in_version a) ≡ pair b.prev_blockhash (in_version b) =
      omega (arith, h) in
    let (prev, r1) =
      pair-injective a.prev_blockhash (in_version a) b.prev_blockhash (in_version b) q in
    let (version, r2) = pair-injective a.version (in_root a) b.version (in_root b) r1 in
    let (merkle_root, r3) = pair-injective a.merkle_root (in_time a) b.merkle_root (in_time b) r2 in
    let (time, r4) = pair-injective a.time (in_bits a) b.time (in_bits b) r3 in
    let (bits, nonce) = pair-injective a.bits a.nonce b.bits b.nonce r4 in
    λ i. record {
      version = version i;
      prev_blockhash = prev i;
      merkle_root = merkle_root i;
      time = time i;
      bits = bits i;
      nonce = nonce i;
    }

pub hash_laws : HashLaws hash
unfolding hash
hash_laws = record { injective = hash-injective; not_null = λ a e. cc e }
