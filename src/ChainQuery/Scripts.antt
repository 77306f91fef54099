-- ===== src/ChainQuery/Scripts.antt =====
-- src/new_index/schema.rs: what `ChainQuery` answers of a script and of an output. Without Liquid.
-- The rows of the history and of the edges come in the order of the database.

use splora.Common.{
  ℕ, ◌+◌, Bool, true, false, ◌||◌, Option, none, some, List, [], ◌∷◌, map, ltb, if◌then◌else◌, take,
}
use splora.Common.Results.{Outcome, ok, panic, ◌>>=◌}
use splora.Common.Maps.{Map}
use splora.Headers.{BlockHash, BlockId, HeaderList}
use splora.ChainQuery.{Txid, TxConfRow, height_by_hash, blockid_by_height, tx_confirming_block}
use splora.ChainQuery.Utxos.{
  OutPoint, out_point, OutPoint-discrete, out_point_key, TxHistoryRow, get_txid, UtxoMap, UtxoError,
  utxo_delta,
}
use splora.ChainQuery.Stats.{min_history_items_to_cache}
use splora.Mempool.{Utxo, SpendingInput, unique}

-- A `TxEdgeRow`, `S{funding-txid:vout}{spending-txid:vin}`.
pub record TxEdgeRow : Type 0 where
  pub funding : OutPoint
  pub spending_txid : Txid
  pub spending_vin : ℕ

-- The first edge of the outpoint whose transaction is confirmed.
unfoldable pub lookup_spend :
    List TxConfRow → HeaderList → List TxEdgeRow → OutPoint → Option SpendingInput
lookup_spend conf headers [] outpoint = none
lookup_spend conf headers (edge ∷ edges) outpoint =
    let rest = lookup_spend conf headers edges outpoint in
    elim (OutPoint-discrete edge.funding outpoint) [
      | no n ↦ rest
      | yes e ↦ elim (tx_confirming_block conf headers edge.spending_txid) [
        | none ↦ rest
        | some b ↦
            some (record { txid = edge.spending_txid; vin = edge.spending_vin; confirmed = some b })
      ]
    ]

-- The `filter_map` of `_history_txids`.
abbrev pub with_blocks : List TxConfRow → HeaderList → List Txid → List (Txid × BlockId)
with_blocks conf headers [] = []
with_blocks conf headers (t ∷ ts) =
    let rest = with_blocks conf headers ts in
    elim (tx_confirming_block conf headers t) [ none ↦ rest | some b ↦ (t, b) ∷ rest ]

unfoldable pub history_txids :
    List TxConfRow → HeaderList → List TxHistoryRow → ℕ → List (Txid × BlockId)
history_txids conf headers history limit =
    take limit (with_blocks conf headers (unique (map get_txid history)))

-- A cached output has the height of its block, and its value.
abbrev pub CachedUtxoMap : Type 0
CachedUtxoMap = Map OutPoint (ℕ × ℕ)

abbrev pub make_utxo_cache : UtxoMap → CachedUtxoMap
make_utxo_cache [] = []
make_utxo_cache ((o, (b, value)) ∷ utxos) = (o, (b.height, value)) ∷ make_utxo_cache utxos

-- A height without a header is a panic.
unfoldable pub from_utxo_cache : HeaderList → CachedUtxoMap → Outcome UtxoError UtxoMap
from_utxo_cache headers [] = ok []
from_utxo_cache headers ((o, (height, value)) ∷ cached) =
    let rest = from_utxo_cache headers cached in
    elim (blockid_by_height headers height) [
      | none ↦ panic
      | some none ↦ panic
      | some (some b) ↦ do utxos ← rest; ok ((o, (b, value)) ∷ utxos)
    ]

-- The set to start from and the height to start at, and whether it was cached.
unfoldable pub start_set :
    HeaderList → Option (CachedUtxoMap × BlockHash) → Outcome UtxoError (UtxoMap × ℕ × Bool)
unfolding from_utxo_cache
start_set headers none = ok ([], 0, false)
start_set headers (some (cached, blockhash)) = elim (height_by_hash headers blockhash) [
  | none ↦ ok ([], 0, false)
  | some height ↦ do utxos ← from_utxo_cache headers cached; ok (utxos, height + 1, true)
]

-- What is cached after it.
unfoldable pub cache_utxos :
    Bool
    → UtxoMap × Option BlockHash × ℕ
    → Option (CachedUtxoMap × BlockHash)
    → Option (CachedUtxoMap × BlockHash)
cache_utxos had_cache (newutxos, none, processed_items) cached = cached
cache_utxos had_cache (newutxos, some lastblock, processed_items) cached =
    if had_cache || ltb min_history_items_to_cache processed_items
    then some (make_utxo_cache newutxos, lastblock)
    else cached

abbrev pub as_utxos : UtxoMap → List Utxo
as_utxos [] = []
as_utxos ((out_point txid vout, (b, value)) ∷ utxos) =
    record { txid = txid; vout = vout; confirmed = some b; value = value } ∷ as_utxos utxos

-- `ChainQuery::utxo` with the script's row of the cache, before and after.
unfoldable pub utxo :
    List TxConfRow
    → HeaderList
    → List TxHistoryRow
    → Option (CachedUtxoMap × BlockHash)
    → ℕ
    → Outcome UtxoError (List Utxo × Option (CachedUtxoMap × BlockHash))
unfolding start_set cache_utxos
utxo conf headers history cached limit = do
  (init, start_height, had_cache) ← start_set headers cached
  new ← utxo_delta conf headers history init start_height limit
  ok (as_utxos new.0, cache_utxos had_cache new cached)
