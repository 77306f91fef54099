-- ===== src/Mempool/Adding.antt =====
-- `add` of src/new_index/mempool.rs appends the transactions that it processes to the log.
use splora.Common.{
  ℕ, suc, ◌≡◌, refl, sym, ap, ◌∙◌, inl, inr, true, false, some, List, [], ◌∷◌, ◌++◌, ◌==◌, arith,
  length, Bool-cases,
}
use mathlib.Core.Path.{subst}
use mathlib.Core.List.{append-nil}
use splora.Common.Lists.{All, IsIn}
use splora.Common.Maps
use splora.Common.Maps.{
  Map, nat_key, contains_key, HasDistinctKeys, get-insert, get-insert_self, get-insert_other,
  insert-HasDistinctKeys,
}
use splora.Common.Keys.{get-contains_key}
use splora.ChainQuery.{Txid}
use splora.ChainQuery.Utxos.{OutPoint, out_point_key}
use splora.Transactions.{TxOut, TxIn, Transaction, prevouts_from, extract_tx_prevouts, has_prevout}
use splora.Mempool.{Mempool}
use splora.Mempool.Index.{Deps, outpoints_of, store_txs, lookup_txos, add}
use splora.Mempool.Indexing.{log_tx, log_txs, Spent, index_txs-Refines}
use splora.Mempool.Effects.{or_kept, last_tx, new_ids, last_spend, get-store_txs, store_txs-new_ids}
use splora.Mempool.Storing.{
  store_txs-keeps, store_txs-fresh, store_txs-HasDistinctKeys, get_prevouts_total,
  get_prevouts-IsIn,
}
use splora.Mempool.Lookup.{get-lookup_txos}
use splora.Mempool.Log.{Log, Refines, prevout_of, resolve, logged_tx, logged_txs}

module _ (d : Deps) (store : Map Txid Transaction) (txos : Map OutPoint TxOut) where
  prevouts_from-resolve :
      (index : ℕ) (input : List TxIn)
      → ((o : OutPoint) → IsIn o (outpoints_of input) → Maps.get o txos ≡ prevout_of d store o)
      → prevouts_from index input txos ≡ resolve d store index input
  unfolding prevouts_from
  prevouts_from-resolve index [] h = refl
  prevouts_from-resolve index (i ∷ input) h = elim (Bool-cases (has_prevout i)) [
    | inr null ↦ rw null (prevouts_from-resolve (suc index) input (λ o n. h o (rw null n)))
    | inl real ↦
        let rest = prevouts_from-resolve (suc index) input (λ o n. h o (rw real (inr n))) in
        let here = h i.previous_output (rw real (inl refl)) in rw (real, here, rest) refl
  ]

  log_tx-logged :
      (t : Txid) (tx : Transaction)
      → Maps.get t store ≡ some tx
      → ((o : OutPoint) → IsIn o (outpoints_of tx.input) → Maps.get o txos ≡ prevout_of d store o)
      → log_tx d txos store t ≡ logged_tx d store t
  unfolding extract_tx_prevouts
  log_tx-logged t tx at h =
      rw (at, log_tx, logged_tx) (rw (prevouts_from-resolve 0 tx.input h) refl)

  log_txs-logged :
      (ts : List Txid)
      → ((t : Txid) (tx : Transaction) (o : OutPoint)
          → IsIn t ts
          → Maps.get t store ≡ some tx
          → IsIn o (outpoints_of tx.input)
          → Maps.get o txos ≡ prevout_of d store o)
      → All (λ t. contains_key t store ≡ true) ts
      → log_txs d txos store ts ≡ logged_txs d store ts
  log_txs-logged [] h c = refl
  log_txs-logged (t ∷ ts) h c =
      let (tx, at) = get-contains_key t store c.0 in
      let first = log_tx-logged t tx at (λ o n. h t tx o (inl refl) at n) in
      let rest = log_txs-logged ts (λ u ux o i. h u ux o (inr i)) c.1 in rw (first, rest) refl

-- The transactions that an `add` processes: the new ones whose outpoints are all known then.
abbrev pub added : Deps → Mempool → List Transaction → Log
added d m txs = logged_txs d (store_txs m.txstore txs).0 (store_txs m.txstore txs).1

stored-Refines :
    (m : Mempool) (log : Log) (txs : List Transaction)
    → Refines m log
    → Refines (record m { txstore = (store_txs m.txstore txs).0 }) log
stored-Refines m log txs r = record {
  indexed = r.indexed;
  stored = λ t h. store_txs-keeps t m.txstore txs (r.stored t h);
  fees = r.fees;
  spent = r.spent;
  own = r.own;
  scripts = r.scripts;
  outpoints = r.outpoints;
  ids = store_txs-HasDistinctKeys m.txstore txs r.ids;
}

pub add_logged :
    (d : Deps) (m : Mempool) (log : Log) (txs : List Transaction)
    → Refines m log
    → (m' : Mempool) × (add d m txs ≡ some (m', length (added d m txs)))
      × (m'.txstore ≡ (store_txs m.txstore txs).0)
      × Refines m' (log ++ added d m txs)
      × Spent m m' (added d m txs)
unfolding add
add_logged d m log [] r =
    let same : log ++ added d m [] ≡ log = append-nil log in
    (m, refl, refl, subst (Refines m) (sym same) r, λ o. refl)
add_logged d m log (tx ∷ txs) r =
    let nonempty : (length (tx ∷ txs) == 0) ≡ false = ground arith in
    let store = (store_txs m.txstore (tx ∷ txs)).0 in
    let fresh = (store_txs m.txstore (tx ∷ txs)).1 in
    let known = store_txs-fresh m.txstore (tx ∷ txs) in
    let (os, asked) = get_prevouts_total store fresh known in
    let txos = lookup_txos d store os in
    let same : log_txs d txos store fresh ≡ added d m (tx ∷ txs) =
      log_txs-logged d store txos fresh
        (λ t x o i at n.
          get-lookup_txos d store o os (get_prevouts-IsIn store fresh os t x o asked i at n))
        known in
    let (m', e, s, r', g) =
      index_txs-Refines d txos (record m { txstore = store }) log fresh known
        (stored-Refines m log (tx ∷ txs) r) in
    (
      m',
      rw (nonempty, asked) (e ∙ ap (λ l. some (m', length l)) same),
      s,
      subst (Refines m') (ap (λ l. log ++ l) same) r',
      subst (Spent (record m { txstore = store }) m') same g,
    )

-- `add` never panics. It stores every transaction, the last one of an id, beside what was stored. It
-- appends to the log, in their order, the transactions whose ids were not stored, each once, and of
-- whose outpoints each is a confirmed output or one of a stored transaction; it returns their number.
-- The edge of an outpoint is then that of its last spend by these, or the old one if none spends it.
pub add-Refines :
    (d : Deps) (m : Mempool) (log : Log) (txs : List Transaction)
    → Refines m log
    → (m' : Mempool) × (log' : Log) × (log' ≡ logged_txs d m'.txstore (new_ids m.txstore txs))
      × (add d m txs ≡ some (m', length log'))
      × ((t : Txid) → Maps.get t m'.txstore ≡ or_kept (last_tx t txs) (Maps.get t m.txstore))
      × ((o : OutPoint) → Maps.get o m'.edges ≡ or_kept (last_spend o log') (Maps.get o m.edges))
      × Refines m' (log ++ log')
add-Refines d m log txs r =
    let (m', e, s, r', g) = add_logged d m log txs r in
    (
      m',
      added d m txs,
      ap (λ store. logged_txs d store (store_txs m.txstore txs).1) (sym s)
          ∙ ap (logged_txs d m'.txstore) (store_txs-new_ids m.txstore txs),
      e,
      λ t. ap (Maps.get t) s ∙ get-store_txs t m.txstore txs,
      g,
      r',
    )
