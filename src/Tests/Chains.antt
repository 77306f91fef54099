-- ===== src/Tests/Chains.antt =====
-- A chain of three blocks, a block beside the last one, and what the theorems say of them.
use mathlib.Core.Option
use splora.Common.{
  ℕ, zero, suc, ◌*◌, ◌≤◌, ◌<◌, ◌≡◌, ◌≢◌, ◌⊎◌, ◌↔◌, refl, sym, ap, inl, inr, none, some, List, [],
  ◌∷◌, arith, Option-cases, length, leb, ℕ_discrete,
}
use splora.Common.Maps
use splora.Common.Maps.{Map, nat_key}
use splora.Headers.{
  BlockHash, BlockHeader, HeaderEntry, HeaderList, blockid_of, apply, linked, order, new,
  header_by_blockhash, get_mtp,
}
use splora.Headers.Reorg.{IsIndexed, IsValid, apply_reorg}
use splora.Headers.Order.{Accepts, apply-order}
use splora.Headers.Build.{IsKeyed, IsBuilt, Missing, new_total}
use splora.Headers.Lookup.{OnChain, header_by_blockhash_iff}
use splora.Headers.MedianTime.{AreTimes, get_mtp_median}
use splora.Common.Sort.{count_if}
use splora.ChainQuery.{TxConfRow, tx_confirming_block}
use splora.ChainQuery.Confirming.{Confirms, tx_confirming_block_sound, tx_confirming_block_complete}
use splora.Tests.Hashing.{hash, hash_laws, pair, square}

abbrev pub header : BlockHash → ℕ → BlockHeader
header prev nonce = record {
  version = 0;
  prev_blockhash = prev;
  merkle_root = 0;
  time = 0;
  bits = 0;
  nonce = nonce;
}

abbrev pub entry : ℕ → BlockHash → BlockHash → ℕ → HeaderEntry
entry height own prev nonce = record { height = height; hash = own; header = header prev nonce }

abbrev pub genesis : HeaderEntry
genesis = entry 0 1 0 0

abbrev pub second : HeaderEntry
second = entry 1 3 1 0

abbrev pub third : HeaderEntry
third = entry 2 13 3 0

-- A block beside `second`.
abbrev pub fork : HeaderEntry
fork = entry 1 6 1 1

abbrev pub main : HeaderList
main = record {
  headers = genesis ∷ second ∷ third ∷ [];
  heights = (1, 0) ∷ (3, 1) ∷ (13, 2) ∷ [];
  tip = 13;
}

hashes :
    (hash genesis.header ≡ 1)
    × (hash second.header ≡ 3)
    × (hash third.header ≡ 13)
    × (hash fork.header ≡ 6)
unfolding hash pair square
hashes = (refl, refl, refl, refl)

main-IsIndexed : IsIndexed main.heights main.headers
unfolding Maps.get ℕ_discrete
main-IsIndexed zero e h =
    ap (λ (x : HeaderEntry). Maps.get x.hash main.heights) (sym (Option.some-injective genesis e h))
main-IsIndexed (suc zero) e h =
    ap (λ (x : HeaderEntry). Maps.get x.hash main.heights) (sym (Option.some-injective second e h))
main-IsIndexed (suc (suc zero)) e h =
    ap (λ (x : HeaderEntry). Maps.get x.hash main.heights) (sym (Option.some-injective third e h))
main-IsIndexed (suc (suc (suc n))) e h = absurd (Option.none-ne-some e h)

pub main-IsValid : IsValid hash main
unfolding hash pair square
main-IsValid = record {
  linked = record {
    chain = (refl, refl, refl, (refl, refl, refl, (refl, refl, refl, tt)));
    indexed = main-IsIndexed;
  };
  at_tip = refl;
}

apply_reorg_example :
    (l' : HeaderList) × (apply main (fork ∷ []) ≡ some (l', third ∷ second ∷ [], some 1))
    × (l'.headers ≡ genesis ∷ fork ∷ [])
    × IsValid hash l'
unfolding hash pair square
apply_reorg_example =
    apply_reorg hash hash_laws main fork [] main-IsValid (omega arith) (refl, refl, refl, tt)

apply-order_example : Accepts hash main ((entry 1 6 1 1) ∷ [])
unfolding order hash pair square linked header_by_blockhash Maps.get ℕ_discrete
apply-order_example =
    apply-order hash hash_laws main (header 1 1 ∷ []) (fork ∷ []) main-IsValid refl

abbrev by_hash : Map BlockHash BlockHeader
by_hash = (3, header 1 0) ∷ (1, header 0 0) ∷ []

IsKeyed-cons :
    (b : BlockHash) (h : BlockHeader) (m : Map BlockHash BlockHeader)
    → hash h ≡ b
    → IsKeyed hash m
    → IsKeyed hash ((b, h) ∷ m)
unfolding Maps.get
IsKeyed-cons b h m q k d g e = elim (Option-cases (Maps.get d m)) [
  | inl n ↦ ground (arith, e, n, q)
  | inr (x, n) ↦ ground (arith, e, n, q, k d x n)
]

by_hash-IsKeyed : IsKeyed hash by_hash
unfolding Maps.get hash pair square
by_hash-IsKeyed =
    IsKeyed-cons 3 (header 1 0) ((1, header 0 0) ∷ []) refl
      (IsKeyed-cons 1 (header 0 0) [] refl (λ b h e. absurd (Option.none-ne-some h e)))

new_total_example :
    IsBuilt hash 3 (new hash by_hash 3) ⊎ ((new hash by_hash 3 ≡ none) × Missing by_hash 3)
new_total_example = new_total hash hash_laws by_hash 3 by_hash-IsKeyed

header_by_blockhash_iff_example :
    (header_by_blockhash main 3 ≡ some second) ↔ (OnChain main second × (second.hash ≡ second.hash))
header_by_blockhash_iff_example = header_by_blockhash_iff hash main 3 second main-IsValid

get_mtp_median_example :
    (ts : List ℕ) × (m : ℕ) × (get_mtp main 2 ≡ some m)
    × (length ts ≡ 3)
    × AreTimes main.headers 0 ts
    × (length ts < 2 * count_if (λ t. leb t m) ts)
    × (length ts ≤ 2 * count_if (λ t. leb m t) ts)
get_mtp_median_example = get_mtp_median main 2 (omega arith) (omega arith)

-- Two confirmation rows of a transaction, one of a block that is not on the chain.
abbrev rows : List TxConfRow
rows = record { txid = 7; blockhash = 6 } ∷ record { txid = 7; blockhash = 3 } ∷ []

tx_confirming_block_sound_example :
    (e : HeaderEntry) × OnChain main e × (blockid_of second ≡ blockid_of e) × Confirms rows 7 e.hash
unfolding tx_confirming_block header_by_blockhash Maps.get ℕ_discrete
tx_confirming_block_sound_example =
    tx_confirming_block_sound hash main main-IsValid rows 7 (blockid_of second) refl

tx_confirming_block_complete_example : tx_confirming_block rows main 7 ≢ none
tx_confirming_block_complete_example =
    tx_confirming_block_complete hash main main-IsValid rows 7 second refl (inr (inl (refl, refl)))
