-- ===== src/ChainQuery/Utxos/Restoring.antt =====
-- src/new_index/schema.rs: a cached set of unspent outputs, restored from the headers.
use splora.Common.{
  ℕ, ◌+◌, ◌≡◌, refl, sym, ap, inl, inr, Option, some, List, [], ◌∷◌, ◌==◌, All, Bool-cases,
  Option-cases,
}
use mathlib.Core.Path.{subst}
use mathlib.Core.Logic.{if_pos, if_neg}
use splora.Common.Results.{ok, ok-injective}
use splora.Common.Maps
use splora.Common.Maps.{Map, get-nil}
use splora.Headers.{BlockHash, BlockHeader, BlockId, HeaderList, blockid_of}
use splora.Headers.Reorg.{IsValid}
use splora.Headers.Lookup.{getters_total}
use splora.ChainQuery.{Txid, TxConfRow, blockid_by_height, tx_confirming_block}
use splora.ChainQuery.Confirming.{tx_confirming_block_sound}
use splora.ChainQuery.Utxos.{
  OutPoint, OutPoint-discrete, out_point_key, TxHistoryInfo, spending, funding, TxHistoryRow,
  get_txid, get_funded_outpoint, UtxoMap, apply_row, delta_loop, confirmed_rows,
}
use splora.ChainQuery.Utxos.Delta.{Returned, loop_step}
use splora.ChainQuery.Scripts.{make_utxo_cache, from_utxo_cache}

-- The block of each output is the one that the headers have at its height.
abbrev pub AreAt : HeaderList → UtxoMap → Type 0
AreAt headers utxos =
    All
      (λ (u : OutPoint × (BlockId × ℕ)). blockid_by_height headers u.1.0.height ≡ some (some u.1.0))
      utxos

AreAt-insert :
    (headers : HeaderList) (o : OutPoint) (b : BlockId) (value : ℕ) (utxos : UtxoMap)
    → blockid_by_height headers b.height ≡ some (some b)
    → AreAt headers utxos
    → AreAt headers (Maps.insert o (b, value) utxos)
unfolding Maps.insert
AreAt-insert headers o b value [] at h = (at, tt)
AreAt-insert headers o b value ((p, u) ∷ utxos) at h = elim (OutPoint-discrete o p) [
  | yes e ↦ rw (if_pos _ e) (at, h.1)
  | no n ↦ rw (if_neg _ n) (h.0, AreAt-insert headers o b value utxos at h.1)
]

AreAt-remove :
    (headers : HeaderList) (o : OutPoint) (utxos : UtxoMap)
    → AreAt headers utxos
    → AreAt headers (Maps.remove o utxos)
unfolding Maps.remove
AreAt-remove headers o [] h = tt
AreAt-remove headers o ((p, u) ∷ utxos) h = elim (OutPoint-discrete o p) [
  | yes e ↦ rw (if_pos _ e) (AreAt-remove headers o utxos h.1)
  | no n ↦ rw (if_neg _ n) (h.0, AreAt-remove headers o utxos h.1)
]

AreAt-apply_row :
    (headers : HeaderList) (utxos : UtxoMap) (info : TxHistoryInfo) (b : BlockId)
    → blockid_by_height headers b.height ≡ some (some b)
    → AreAt headers utxos
    → AreAt headers (apply_row utxos info b)
unfolding apply_row
AreAt-apply_row headers utxos (funding txid vout value) b at h =
    AreAt-insert headers (get_funded_outpoint (funding txid vout value)) b value utxos at h
AreAt-apply_row headers utxos (spending txid vin p pv value) b at h =
    AreAt-remove headers (get_funded_outpoint (spending txid vin p pv value)) utxos h

pub AreAt-delta_loop :
    (headers : HeaderList) (limit : ℕ) (utxos : UtxoMap) (last : Option BlockHash) (n : ℕ)
    (rows : List (TxHistoryRow × BlockId)) (r : Returned)
    → delta_loop limit utxos last n rows ≡ ok r
    → All
        (λ (x : TxHistoryRow × BlockId). blockid_by_height headers x.1.height ≡ some (some x.1))
        rows
    → AreAt headers utxos
    → AreAt headers r.0
unfolding delta_loop
AreAt-delta_loop headers limit utxos last n [] r e at h =
    subst (AreAt headers) (ap (λ x. x.0) (ok-injective (utxos, last, n) r e)) h
AreAt-delta_loop headers limit utxos last n ((row, b) ∷ rows) r e at h =
    let (few, short, next) = loop_step limit utxos last n row b rows r e in
    AreAt-delta_loop headers limit (apply_row utxos row.txinfo b) (some b.hash) (n + 1) rows r next
      at.1 (AreAt-apply_row headers utxos row.txinfo b at.0 h)

-- A set whose blocks are those of the headers is got back from what is cached of it.
pub from_utxo_cache-make_utxo_cache :
    (headers : HeaderList) (utxos : UtxoMap)
    → AreAt headers utxos
    → from_utxo_cache headers (make_utxo_cache utxos) ≡ ok utxos
unfolding from_utxo_cache
from_utxo_cache-make_utxo_cache headers [] h = refl
from_utxo_cache-make_utxo_cache headers ((o, (b, value)) ∷ utxos) h =
    rw (h.0, from_utxo_cache-make_utxo_cache headers utxos h.1, from_utxo_cache) refl

module _ (block_hash : BlockHeader → BlockHash) (conf : List TxConfRow) (headers : HeaderList)
    (v : IsValid block_hash headers) where
  confirmed_at :
      (txid : Txid) (b : BlockId)
      → tx_confirming_block conf headers txid ≡ some b
      → blockid_by_height headers b.height ≡ some (some b)
  unfolding blockid_by_height blockid_of
  confirmed_at txid b e =
      let (x, on, same, confirms) = tx_confirming_block_sound block_hash headers v conf txid b e in
      subst (λ (y : BlockId). blockid_by_height headers y.height ≡ some (some y)) (sym same)
        (rw ((getters_total block_hash headers x.height v).1, on) refl)

  pub confirmed_rows_at :
      (rows : List TxHistoryRow)
      → All
          (λ (x : TxHistoryRow × BlockId). blockid_by_height headers x.1.height ≡ some (some x.1))
          (confirmed_rows conf headers rows)
  unfolding confirmed_rows
  confirmed_rows_at [] = tt
  confirmed_rows_at (r ∷ rows) =
      elim (Option-cases (tx_confirming_block conf headers (get_txid r))) [
        | inl gone ↦ rw (gone, confirmed_rows) (confirmed_rows_at rows)
        | inr (b, found) ↦ elim (Bool-cases (b.height == r.confirmed_height)) [
          | inr away ↦ rw (found, away, confirmed_rows) (confirmed_rows_at rows)
          | inl here ↦
              rw (found, here, confirmed_rows)
                (confirmed_at (get_txid r) b found, confirmed_rows_at rows)
        ]
      ]
