-- ===== src/Mempool/Removing.antt =====
-- `remove` of src/new_index/mempool.rs drops the removed transactions from the log.
use splora.Common.{◌≡◌, refl, sym, ap, ◌∙◌, true, false, not, ◌&&◌, some, List, [], ◌∷◌, arith}
use splora.Common.Lists.{All}
use splora.Common.Maps
use splora.Common.Maps.{
  Map, nat_key, contains_key, HasDistinctKeys, get-nil, get_cons_self, get_cons_other,
  remove-HasDistinctKeys,
}
use splora.Common.Keys.{get-contains_key, contains_key-remove}
use splora.ChainQuery.{Txid}
use splora.ChainQuery.Utxos.{OutPoint, out_point_key}
use splora.Transactions.{Transaction}
use splora.Fees.{TxFeeInfo}
use splora.Mempool.{Mempool}
use splora.Common.Lists.{mem?, AreDistinct}
use splora.Mempool.Index.{Deps, without_txs, retain_history, retain_edges, remove_txs, remove}
use splora.Mempool.Effects.{unless_of, retain_edges-unless_of}
use splora.Mempool.Retaining.{
  logged_entries-without, without-own, IsSpentIn-without, entries_of-retain,
  retain_history-HasDistinctKeys, get-retain_edges, retain_edges-HasDistinctKeys,
}
use splora.Mempool.Log.{Log, Refines, without, is_logged-without}

still_stored :
    (store : Map Txid Transaction) (t : Txid) (ts : List Txid)
    → mem? t ts ≡ false
    → All (λ u. contains_key u store ≡ true) ts
    → All (λ u. contains_key u (Maps.remove t store) ≡ true) ts
still_stored store t [] n c = tt
still_stored store t (u ∷ ts) n c = (
  ground (arith, contains_key-remove u t store, n, c.0),
  still_stored store t ts (ground (arith, n)) c.1,
)

-- The loop over the store and the fees: it ends without a panic when each transaction is stored
-- and listed once.
remove_txs_total :
    (store : Map Txid Transaction) (fees : Map Txid TxFeeInfo) (ts : List Txid)
    → AreDistinct ts
    → All (λ t. contains_key t store ≡ true) ts
    → HasDistinctKeys store
    → (store' : Map Txid Transaction) × (fees' : Map Txid TxFeeInfo) × (remove_txs store fees ts
        ≡ some (store', fees'))
      × ((t : Txid) → contains_key t store' ≡ (contains_key t store && not (mem? t ts)))
      × ((t : Txid) → contains_key t fees' ≡ (contains_key t fees && not (mem? t ts)))
      × HasDistinctKeys store'
unfolding remove_txs
remove_txs_total store fees [] d c k = (store, fees, refl, λ t. ground arith, λ t. ground arith, k)
remove_txs_total store fees (t ∷ ts) d c k =
    let (tx, at) = get-contains_key t store c.0 in
    let (store', fees', e, s, f, k') =
      remove_txs_total (Maps.remove t store) (Maps.remove t fees) ts d.1
        (still_stored store t ts d.0 c.1) (remove-HasDistinctKeys t store k) in
    (
      store',
      fees',
      rw at e,
      λ u. ground (arith, s u, contains_key-remove u t store),
      λ u. ground (arith, f u, contains_key-remove u t fees),
      k',
    )

-- `remove` ends without a panic when each transaction is stored and listed once. It leaves the
-- other transactions stored, and each edge but those of the removed ones as it was; history and fees
-- are those of the log without the removed ones.
pub remove-Refines :
    (d : Deps) (m : Mempool) (log : Log) (ts : List Txid)
    → AreDistinct ts
    → All (λ t. contains_key t m.txstore ≡ true) ts
    → Refines m log
    → (m' : Mempool) × (remove d m ts ≡ some m')
      × ((t : Txid) → contains_key t m'.txstore ≡ (contains_key t m.txstore && not (mem? t ts)))
      × ((o : OutPoint) → Maps.get o m'.edges ≡ unless_of ts (Maps.get o m.edges))
      × Refines m' (without ts log)
unfolding remove
remove-Refines d m log ts dis c r =
    let (store, fees, e, s, f, k) = remove_txs_total m.txstore m.feeinfo ts dis c r.ids in
    let m' = record m {
      txstore = store;
      feeinfo = fees;
      history = retain_history ts m.history;
      edges = retain_edges ts m.edges;
    } in
    (
      m',
      rw e refl,
      s,
      λ o. retain_edges-unless_of ts o m.edges r.outpoints,
      record {
        indexed = λ x.
            entries_of-retain ts x m.history r.scripts
            ∙ ap (without_txs ts) (r.indexed x)
            ∙ sym (logged_entries-without ts x log r.own);
        stored = λ t h. ground (arith, s t, is_logged-without t ts log, r.stored t, h);
        fees = λ t. ground (arith, f t, is_logged-without t ts log, r.fees t);
        spent = λ o t v h.
            let (old, stays) = get-retain_edges ts o t v m.edges r.outpoints h in
            IsSpentIn-without ts o t v log stays (r.spent o t v old);
        own = without-own ts log r.own;
        scripts = retain_history-HasDistinctKeys ts m.history r.scripts;
        outpoints = retain_edges-HasDistinctKeys ts m.edges r.outpoints;
        ids = k;
      },
    )
