-- ===== src/ChainQuery.antt =====
-- src/new_index/schema.rs, `ChainQuery`: the lookups over the indexed headers, and the confirming
-- block of a transaction. The lock on the headers is held for each whole lookup. A failed
-- assertion or subtraction below 0 is the outer `none`.
pub mod Confirming
pub mod Utxos
pub mod Stats
pub mod Scripts
use mathlib.Core.Option
use splora.Common.{
  ℕ, ◌+◌, ◌-◌, ◌≡◌, Bool, true, false, Option, none, some, List, [], ◌∷◌, ◌==◌, if◌then◌else◌,
  ◌>>=◌, length,
}
use splora.Headers.{
  BlockHash, BlockId, HeaderEntry, HeaderList, blockid_of, header_by_blockhash, header_by_height,
  get_tip,
}

abbrev pub Txid : Type 0
Txid = ℕ

-- A `TxConfRow`, `C{txid}{confirmed-blockhash}`.
pub record TxConfRow : Type 0 where
  pub txid : Txid
  pub blockhash : BlockHash

pub record BlockStatus : Type 0 where
  pub in_best_chain : Bool
  pub height : Option ℕ
  pub next_best : Option BlockHash

abbrev pub confirmed : ℕ → Option BlockHash → BlockStatus
confirmed height next_best = record {
  in_best_chain = true;
  height = some height;
  next_best = next_best;
}

abbrev pub orphaned : BlockStatus
orphaned = record { in_best_chain = false; height = none; next_best = none }

unfoldable pub height_by_hash : HeaderList → BlockHash → Option ℕ
height_by_hash l hash = Option.map (λ (e : HeaderEntry). e.height) (header_by_blockhash l hash)

unfoldable pub hash_by_height : HeaderList → ℕ → Option (Option BlockHash)
hash_by_height l height =
    Option.map (λ o. Option.map (λ (e : HeaderEntry). e.hash) o) (header_by_height l height)

unfoldable pub blockid_by_height : HeaderList → ℕ → Option (Option BlockId)
blockid_by_height l height = Option.map (λ o. Option.map blockid_of o) (header_by_height l height)

unfoldable pub blockid_by_hash : HeaderList → BlockHash → Option BlockId
blockid_by_hash l hash = Option.map blockid_of (header_by_blockhash l hash)

unfoldable pub best_height : HeaderList → Option ℕ
best_height l = if length l.headers == 0 then none else some (length l.headers - 1)

unfoldable pub best_header : HeaderList → Option HeaderEntry
best_header l = do tip ← get_tip l; header_by_blockhash l tip

-- The first row of the transaction whose block is on the best chain.
unfoldable pub tx_confirming_block : List TxConfRow → HeaderList → Txid → Option BlockId
tx_confirming_block [] l txid = none
tx_confirming_block (row ∷ rows) l txid =
    let rest = tx_confirming_block rows l txid in
    if row.txid == txid
    then elim (header_by_blockhash l row.blockhash) [ none ↦ rest | some e ↦ some (blockid_of e) ]
    else rest

unfoldable pub get_block_status : HeaderList → BlockHash → Option BlockStatus
get_block_status l hash = elim (header_by_blockhash l hash) [
  | none ↦ some orphaned
  | some header ↦
      Option.map (λ o. confirmed header.height (Option.map (λ (e : HeaderEntry). e.hash) o))
        (header_by_height l (header.height + 1))
]
