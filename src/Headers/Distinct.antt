-- ===== src/Headers/Distinct.antt =====
-- A chain that starts at the null hash repeats no hash, whatever it holds: with a hash function
-- that has no collision and never gives the null hash, equal hashes lead back to the start.
use splora.Common.{ℕ, zero, suc, ◌≡◌, refl, ap, sym, ◌∙◌, ◌≢◌, some, List, get_elem?}
use splora.Headers.{BlockHash, BlockHeader, HeaderEntry, null_hash}
use splora.Headers.Chained.{Chain, Chain-hash, Chain-prev_zero, Chain-prev_suc}

-- What the chain relies on of the double SHA-256 of a header.
pub record HashLaws (block_hash : BlockHeader → BlockHash) : Type 0 where
  pub injective : (a b : BlockHeader) → block_hash a ≡ block_hash b → a ≡ b
  pub not_null : (a : BlockHeader) → block_hash a ≢ null_hash

module _ (block_hash : BlockHeader → BlockHash) (laws : HashLaws block_hash) where
  same_header :
      (xs : List HeaderEntry) (i j : ℕ) (a b : HeaderEntry)
      → Chain block_hash 0 null_hash xs
      → get_elem? xs i ≡ some a
      → get_elem? xs j ≡ some b
      → a.hash ≡ b.hash
      → a.header ≡ b.header
  same_header xs i j a b h p q e = laws.injective a.header b.header (
      sym (Chain-hash block_hash 0 i null_hash xs a h p)
      ∙ e
      ∙ Chain-hash block_hash 0 j null_hash xs b h q)

  first_ne_later :
      (xs : List HeaderEntry) (j : ℕ) (a b : HeaderEntry)
      → Chain block_hash 0 null_hash xs
      → get_elem? xs 0 ≡ some a
      → get_elem? xs (suc j) ≡ some b
      → a.hash ≢ b.hash
  first_ne_later xs j a b h p q e =
      let (f, at, prev) = Chain-prev_suc block_hash 0 j null_hash xs b h q in
      laws.not_null f.header (
        sym (Chain-hash block_hash 0 j null_hash xs f h at)
        ∙ sym prev
        ∙ sym (ap (λ (x : BlockHeader). x.prev_blockhash) (same_header xs 0 (suc j) a b h p q e))
        ∙ Chain-prev_zero block_hash 0 null_hash xs a h p)

  pub hashes_distinct :
      (xs : List HeaderEntry) (i j : ℕ) (a b : HeaderEntry)
      → Chain block_hash 0 null_hash xs
      → get_elem? xs i ≡ some a
      → get_elem? xs j ≡ some b
      → a.hash ≡ b.hash
      → i ≡ j
  hashes_distinct xs zero zero a b h p q e = refl
  hashes_distinct xs zero (suc j) a b h p q e = absurd (first_ne_later xs j a b h p q e)
  hashes_distinct xs (suc i) zero a b h p q e = absurd (first_ne_later xs i b a h q p (sym e))
  hashes_distinct xs (suc i) (suc j) a b h p q e =
      let (f, pf, prev_a) = Chain-prev_suc block_hash 0 i null_hash xs a h p in
      let (g, qg, prev_b) = Chain-prev_suc block_hash 0 j null_hash xs b h q in
      ap suc (
        hashes_distinct xs i j f g h pf qg (
          sym prev_a
          ∙ ap (λ (x : BlockHeader). x.prev_blockhash) (same_header xs (suc i) (suc j) a b h p q e)
          ∙ prev_b))
