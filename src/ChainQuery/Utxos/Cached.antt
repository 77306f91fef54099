-- ===== src/ChainQuery/Utxos/Cached.antt =====
-- src/new_index/schema.rs: the unspent outputs that `utxo` answers with a cached set at hand.
use splora.Common.{ℕ, ◌≡◌, ◌⊎◌, Option, List, ◌*◌}
use splora.Common.Results.{Outcome, ok, err, panic}
use splora.Common.Maps
use splora.Common.Maps.{Map}
use splora.Headers.{BlockHash, BlockId}
use splora.ChainQuery.Utxos.{
  OutPoint, out_point_key, UtxoMap, UtxoError, too_many_utxos, too_many_txs,
}
use splora.ChainQuery.Scripts.{CachedUtxoMap, as_utxos}
use splora.Mempool.{Utxo}

-- The errors under this limit.
abbrev pub IsLimit : ℕ → UtxoError → Type 0
IsLimit limit e = (e ≡ too_many_utxos limit) ⊎ (e ≡ too_many_txs (limit * 500))

-- The outputs of a set that holds of each outpoint what is expected, or an error of the limit.
abbrev pub IsAnswer :
    ℕ
    → (OutPoint → Option (BlockId × ℕ))
    → Outcome UtxoError (List Utxo × Option (CachedUtxoMap × BlockHash))
    → Type 0
IsAnswer limit expected (ok (us, cached)) =
    (utxos : UtxoMap) × (us ≡ as_utxos utxos) × ((o : OutPoint) → Maps.get o utxos ≡ expected o)
IsAnswer limit expected (err e) = IsLimit limit e
IsAnswer limit expected panic = ⊥
