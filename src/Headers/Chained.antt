-- ===== src/Headers/Chained.antt =====
-- Chains of header entries: heights count up, hashes are those of the headers, and each header
-- names the hash before it. What chains keep under append, take and drop.
use splora.Common.{
  ℕ, zero, suc, ◌+◌, ◌≡◌, refl, some, List, [], ◌∷◌, ◌++◌, arith, length, get_elem?, take,
}
use splora.Headers.{BlockHash, BlockHeader, HeaderEntry, null_hash, last_hash}

-- The hash of the last entry, or `p` where there is none.
abbrev pub end_hash : BlockHash → List HeaderEntry → BlockHash
end_hash p [] = p
end_hash p (e ∷ es) = end_hash e.hash es

pub end_hash-cons :
    (p : BlockHash) (e : HeaderEntry) (es : List HeaderEntry)
    → end_hash p (e ∷ es) ≡ last_hash (e ∷ es)
end_hash-cons p e [] = refl
end_hash-cons p e (f ∷ es) = end_hash-cons p f es

pub end_hash-last_hash : (es : List HeaderEntry) → end_hash null_hash es ≡ last_hash es
end_hash-last_hash [] = refl
end_hash-last_hash (e ∷ es) = end_hash-cons null_hash e es

pub end_hash-append :
    (p : BlockHash) (xs ys : List HeaderEntry) → end_hash p (xs ++ ys) ≡ end_hash (end_hash p xs) ys
end_hash-append p [] ys = refl
end_hash-append p (x ∷ xs) ys = end_hash-append x.hash xs ys

module _ (block_hash : BlockHeader → BlockHash) where
  abbrev pub Chain : ℕ → BlockHash → List HeaderEntry → Type 0
  Chain i p [] = Unit
  Chain i p (e ∷ es) =
      (e.height ≡ i)
      × (e.hash ≡ block_hash e.header)
      × (e.header.prev_blockhash ≡ p)
      × Chain (suc i) e.hash es

  pub Chain-append :
      (i j : ℕ) (p : BlockHash) (xs ys : List HeaderEntry)
      → i + length xs ≡ j
      → Chain i p xs
      → Chain j (end_hash p xs) ys
      → Chain i p (xs ++ ys)
  Chain-append i j p [] ys e hx hy = let e' : i ≡ j = omega arith in rw e' hy
  Chain-append i j p (x ∷ xs) ys e (a, b, c, hx) hy =
      (a, b, c, Chain-append (suc i) j x.hash xs ys (omega arith) hx hy)

  pub Chain-take :
      (n i : ℕ) (p : BlockHash) (xs : List HeaderEntry) → Chain i p xs → Chain i p (take n xs)
  Chain-take zero i p xs h = tt
  Chain-take (suc n) i p [] h = tt
  Chain-take (suc n) i p (x ∷ xs) (a, b, c, h) = (a, b, c, Chain-take n (suc i) x.hash xs h)

  -- The height of an entry of a chain is its place.
  pub Chain-height :
      (i k : ℕ) (p : BlockHash) (xs : List HeaderEntry) (e : HeaderEntry)
      → Chain i p xs
      → get_elem? xs k ≡ some e
      → e.height ≡ i + k
  Chain-height i k p [] e h q = cc
  Chain-height i zero p (x ∷ xs) e (a, _, _, h) q = ground arith
  Chain-height i (suc k) p (x ∷ xs) e (a, _, _, h) q =
      omega (arith, Chain-height (suc i) k x.hash xs e h q)

  pub Chain-hash :
      (i k : ℕ) (p : BlockHash) (xs : List HeaderEntry) (e : HeaderEntry)
      → Chain i p xs
      → get_elem? xs k ≡ some e
      → e.hash ≡ block_hash e.header
  Chain-hash i k p [] e h q = cc
  Chain-hash i zero p (x ∷ xs) e (_, b, _, h) q = ground arith
  Chain-hash i (suc k) p (x ∷ xs) e (_, _, _, h) q = Chain-hash (suc i) k x.hash xs e h q

  pub Chain-prev_zero :
      (i : ℕ) (p : BlockHash) (xs : List HeaderEntry) (e : HeaderEntry)
      → Chain i p xs
      → get_elem? xs 0 ≡ some e
      → e.header.prev_blockhash ≡ p
  Chain-prev_zero i p [] e h q = cc
  Chain-prev_zero i p (x ∷ xs) e (_, _, c, h) q = ground arith

  pub Chain-prev_suc :
      (i k : ℕ) (p : BlockHash) (xs : List HeaderEntry) (e : HeaderEntry)
      → Chain i p xs
      → get_elem? xs (suc k) ≡ some e
      → (f : HeaderEntry) × (get_elem? xs k ≡ some f) × (e.header.prev_blockhash ≡ f.hash)
  Chain-prev_suc i k p [] e h q = cc
  Chain-prev_suc i zero p (x ∷ xs) e (_, _, _, h) q =
      (x, refl, Chain-prev_zero (suc i) x.hash xs e h q)
  Chain-prev_suc i (suc k) p (x ∷ xs) e (_, _, _, h) q = Chain-prev_suc (suc i) k x.hash xs e h q
