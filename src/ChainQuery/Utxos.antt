-- ===== src/ChainQuery/Utxos.antt =====
-- src/new_index/schema.rs: the unspent outputs of a script, brought up to date from a cached set by
-- the history since. The history comes from the database in the order of its keys.
pub mod Delta
pub mod Restoring
pub mod Cached
use mathlib.Core.Option
use mathlib.Core.List.{filter_map}
use splora.Common.{
  ℕ, suc, ◌+◌, ◌*◌, ◌≡◌, Bool, true, false, Option, none, some, List, [], ◌∷◌, ◌++◌, ◌==◌, ltb,
  if◌then◌else◌, length, ℕ_discrete,
}
use splora.Common.Results.{Outcome, ok, err}
use splora.Common.Maps
use splora.Common.Maps.{Key, Map}
use splora.Headers.{BlockHash, BlockId, HeaderList}
use splora.ChainQuery.{Txid, TxConfRow, tx_confirming_block}

pub data OutPoint : Type 0 where
  out_point : Txid → ℕ → OutPoint

unfoldable pub OutPoint-discrete : Discrete OutPoint
unfolding ℕ_discrete
OutPoint-discrete = hlevel ℕ_discrete

instance abbrev pub out_point_key : Key OutPoint
out_point_key = record { eq? = OutPoint-discrete }

-- Without the kinds of Liquid.
pub data TxHistoryInfo : Type 0 where
  spending : (txid vin prev_txid prev_vout value : ℕ) → TxHistoryInfo
  funding : (txid vout value : ℕ) → TxHistoryInfo

pub record TxHistoryRow : Type 0 where
  pub confirmed_height : ℕ
  pub txinfo : TxHistoryInfo

unfoldable pub get_txid : TxHistoryRow → Txid
get_txid row = elim row.txinfo [ spending t vin p pv v ↦ t | funding t vout v ↦ t ]

unfoldable pub get_funded_outpoint : TxHistoryInfo → OutPoint
get_funded_outpoint (spending txid vin prev_txid prev_vout value) = out_point prev_txid prev_vout
get_funded_outpoint (funding txid vout value) = out_point txid vout

abbrev pub UtxoMap : Type 0
UtxoMap = Map OutPoint (BlockId × ℕ)

pub data UtxoError : Type 0 where
  too_many_utxos too_many_txs : ℕ → UtxoError

-- The `match` of the loop.
unfoldable pub apply_row : UtxoMap → TxHistoryInfo → BlockId → UtxoMap
unfolding get_funded_outpoint
apply_row utxos (funding txid vout value) b =
    Maps.insert (get_funded_outpoint (funding txid vout value)) (b, value) utxos
apply_row utxos (spending txid vin prev_txid prev_vout value) b =
    Maps.remove (get_funded_outpoint (spending txid vin prev_txid prev_vout value)) utxos

-- The loop of `apply_utxo_delta`.
unfoldable pub delta_loop :
    ℕ
    → UtxoMap
    → Option BlockHash
    → ℕ
    → List (TxHistoryRow × BlockId)
    → Outcome UtxoError (UtxoMap × Option BlockHash × ℕ)
unfolding apply_row
delta_loop limit utxos last n [] = ok (utxos, last, n)
delta_loop limit utxos last n ((row, b) ∷ rows) =
    let utxos' = apply_row utxos row.txinfo b in
    let rest = delta_loop limit utxos' (some b.hash) (n + 1) rows in
    if ltb limit (length utxos')
    then err (too_many_utxos limit)
    else if ltb (limit * 500) (n + 1)
    then err (too_many_txs (limit * 500))
    else rest

unfoldable pub apply_utxo_delta :
    UtxoMap → List (TxHistoryRow × BlockId) → ℕ → Outcome UtxoError (UtxoMap × Option BlockHash × ℕ)
unfolding delta_loop
apply_utxo_delta utxos history limit = delta_loop limit utxos none 0 history

-- The rows whose transaction is confirmed at the row's own height.
unfoldable pub confirmed_rows :
    List TxConfRow → HeaderList → List TxHistoryRow → List (TxHistoryRow × BlockId)
unfolding get_txid
confirmed_rows conf headers [] = []
confirmed_rows conf headers (row ∷ rows) =
    let rest = confirmed_rows conf headers rows in
    elim (tx_confirming_block conf headers (get_txid row)) [
      | none ↦ rest
      | some b ↦ if b.height == row.confirmed_height then (row, b) ∷ rest else rest
    ]

-- `history_iter_scan`: the rows from the start height on.
unfoldable pub rows_from : ℕ → List TxHistoryRow → List TxHistoryRow
rows_from start [] = []
rows_from start (row ∷ rows) =
    let rest = rows_from start rows in if ltb row.confirmed_height start then rest else row ∷ rest

unfoldable pub utxo_delta :
    List TxConfRow
    → HeaderList
    → List TxHistoryRow
    → UtxoMap
    → ℕ
    → ℕ
    → Outcome UtxoError (UtxoMap × Option BlockHash × ℕ)
unfolding apply_utxo_delta confirmed_rows rows_from
utxo_delta conf headers history init start limit =
    apply_utxo_delta init (confirmed_rows conf headers (rows_from start history)) limit
