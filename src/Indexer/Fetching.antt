-- ===== src/Indexer/Fetching.antt =====
-- src/new_index/fetch.rs: the fetchers that ask the daemon for blocks, a hundred at a time. The
-- threaded one hands the same batches over a channel. `none` is a panic, where `Daemon` has an error.
use splora.Common.{
  ℕ, zero, suc, ◌≤◌, ◌≡◌, refl, sym, ap, ◌∙◌, Option, some, List, [], ◌∷◌, ◌++◌, ◌==◌, ◌>>=◌,
  >>=-eq-some, ◌>>◌, assert, assert-eq-some, arith, length, take, map, drop, length-drop,
}
use mathlib.Core.Option.{some-injective}
use splora.Headers.{BlockHash, BlockHeader, HeaderEntry}
use splora.Transactions.{Transaction}
use splora.Indexer.{BlockEntry}
use splora.Indexer.Updating.{Daemon}
use splora.Indexer.Writing.{hashes_of}
use splora.Indexer.Marking.{hashes_of_all}
use splora.Indexer.Forward.{entry_hashes, FetchLaw}

-- A block as the bitcoin crate reads it, with its size and weight.
pub record Block : Type 0 where
  pub header : BlockHeader
  pub txdata : List Transaction
  pub size : ℕ
  pub weight : ℕ

-- `chunks`, with as much fuel as entries.
unfoldable pub chunks : ℕ → ℕ → List HeaderEntry → List (List HeaderEntry)
chunks fuel n [] = []
chunks zero n (e ∷ es) = []
chunks (suc fuel) n (e ∷ es) = take n (e ∷ es) ∷ chunks fuel n (drop n (e ∷ es))

-- `zip`
abbrev pub block_entries : List Block → List HeaderEntry → List BlockEntry
block_entries [] entries = []
block_entries (b ∷ blocks) [] = []
block_entries (b ∷ blocks) (e ∷ entries) =
    record { header = b.header; txdata = b.txdata; entry = e; size = b.size; weight = b.weight }
    ∷ block_entries blocks entries

module _ (getblocks : List BlockHash → Option (List Block)) where
  unfoldable pub fetch_batch : List HeaderEntry → Option (List BlockEntry)
  fetch_batch entries = do
    blocks ← getblocks (map (λ (e : HeaderEntry). e.hash) entries)
    assert (length blocks == length entries)
    some (block_entries blocks entries)

  unfoldable pub fetch_batches : List (List HeaderEntry) → Option (List (List BlockEntry))
  unfolding fetch_batch
  fetch_batches [] = some []
  fetch_batches (entries ∷ rest) = do
    batch ← fetch_batch entries
    batches ← fetch_batches rest
    some (batch ∷ batches)

  unfoldable pub bitcoind_fetch : List HeaderEntry → Option (List (List BlockEntry))
  unfolding fetch_batches chunks
  bitcoind_fetch new_headers = fetch_batches (chunks (length new_headers) 100 new_headers)

hashes_of-block_entries :
    (blocks : List Block) (entries : List HeaderEntry)
    → length blocks ≡ length entries
    → hashes_of (block_entries blocks entries) ≡ entry_hashes entries
hashes_of-block_entries [] [] e = refl
hashes_of-block_entries [] (x ∷ entries) e = absurd (omega (arith, e))
hashes_of-block_entries (b ∷ blocks) [] e = absurd (omega (arith, e))
hashes_of-block_entries (b ∷ blocks) (x ∷ entries) e =
    ap (λ hs. x.hash ∷ hs) (hashes_of-block_entries blocks entries (omega (arith, e)))

entry_hashes-split :
    (n : ℕ) (es : List HeaderEntry)
    → entry_hashes (take n es) ++ entry_hashes (drop n es) ≡ entry_hashes es
entry_hashes-split zero es = refl
entry_hashes-split (suc n) [] = refl
entry_hashes-split (suc n) (e ∷ es) = ap (λ hs. e.hash ∷ hs) (entry_hashes-split n es)

module _ (getblocks : List BlockHash → Option (List Block)) where
  fetch_batch-hashes :
      (entries : List HeaderEntry) (batch : List BlockEntry)
      → fetch_batch getblocks entries ≡ some batch
      → hashes_of batch ≡ entry_hashes entries
  unfolding fetch_batch
  fetch_batch-hashes entries batch e =
      let (blocks, a, e1) =
        >>=-eq-some (getblocks (map (λ (x : HeaderEntry). x.hash) entries)) _ e in
      let (u, same, e2) = >>=-eq-some (assert (length blocks == length entries)) _ e1 in
      ap hashes_of (sym (some-injective (block_entries blocks entries) batch e2))
      ∙ hashes_of-block_entries blocks entries
          (ground (arith, assert-eq-some (length blocks == length entries) same))

  chunks-hashes :
      (fuel n : ℕ) (es : List HeaderEntry) (batches : List (List BlockEntry))
      → length es ≤ fuel
      → fetch_batches getblocks (chunks fuel (suc n) es) ≡ some batches
      → hashes_of_all batches ≡ entry_hashes es
  unfolding chunks fetch_batches
  chunks-hashes fuel n [] batches enough e = ap hashes_of_all (sym (some-injective [] batches e))
  chunks-hashes zero n (x ∷ es) batches enough e = absurd (omega (arith, enough))
  chunks-hashes (suc fuel) n (x ∷ es) batches enough e =
      let (batch, a, e1) = >>=-eq-some (fetch_batch getblocks (x ∷ take n es)) _ e in
      let (rest, b, e2) =
        >>=-eq-some (fetch_batches getblocks (chunks fuel (suc n) (drop n es))) _ e1 in
      ap hashes_of_all (sym (some-injective (batch ∷ rest) batches e2))
      ∙ ap (λ hs. hs ++ hashes_of_all rest) (fetch_batch-hashes (x ∷ take n es) batch a)
      ∙ ap (λ hs. (x.hash ∷ entry_hashes (take n es)) ++ hs)
          (chunks-hashes fuel n (drop n es) rest (omega (arith, enough, length-drop n es)) b)
      ∙ ap (λ hs. x.hash ∷ hs) (entry_hashes-split n es)

  -- Whatever blocks the daemon answers with, those that are handed over, in their batches, stand for
  -- the entries that were asked for, in the same order.
  pub bitcoind_fetch-hashes :
      (es : List HeaderEntry) (batches : List (List BlockEntry))
      → bitcoind_fetch getblocks es ≡ some batches
      → hashes_of_all batches ≡ entry_hashes es
  unfolding bitcoind_fetch
  bitcoind_fetch-hashes es batches e = chunks-hashes (length es) 99 es batches (omega arith) e

-- A daemon whose blocks come through this fetcher.
abbrev pub bitcoind :
    BlockHash
    → Option (List BlockHeader)
    → List BlockHeader
    → (List BlockHash → Option (List Block))
    → Daemon
bitcoind best all_headers headers_back getblocks = record {
  best = some best;
  all_headers = all_headers;
  headers_back = headers_back;
  fetch = bitcoind_fetch getblocks;
}

pub bitcoind-FetchLaw :
    (best : BlockHash) (all_headers : Option (List BlockHeader)) (headers_back : List BlockHeader)
    (getblocks : List BlockHash → Option (List Block))
    → FetchLaw (bitcoind best all_headers headers_back getblocks)
bitcoind-FetchLaw best all_headers headers_back getblocks = bitcoind_fetch-hashes getblocks
