-- ===== src/Mempool/Index.antt =====
-- src/new_index/mempool.rs: `add`, `remove`, `add_by_txid` and `update`, each write lock being one
-- step. `none` is a panic.
use splora.Common.{
  ℕ, suc, ◌+◌, ◌-◌, ◌*◌, ◌^◌, Bool, ◌||◌, Option, none, some, List, [], ◌∷◌, ◌++◌, ◌==◌, ltb, ◌>>=◌,
  if◌then◌else◌, take, length, get_elem?,
}
use splora.Common.Maps
use splora.Common.Maps.{Map, nat_key, contains_key}
use splora.ChainQuery.{Txid}
use splora.ChainQuery.Utxos.{OutPoint, out_point, out_point_key, TxHistoryInfo, spending, funding}
use splora.Transactions.{TxOut, TxIn, Transaction, has_prevout, is_spendable, extract_tx_prevouts}
use splora.Fees
use splora.Fees.{TxFeeInfo, values, sum_values}
use splora.Mempool.{Config, TxOverview, Mempool, txid_of, entries_of, unique_txids, new_stats}
use splora.Common.Lists.{mem?}

-- What the mempool asks of other code: the confirmed outputs in the database, the hash of a script,
-- the class of an opcode, and the quotient of a fee and a size.
pub record Deps : Type 0 where
  pub confirmed : OutPoint → Option TxOut
  pub script_hash : List ℕ → ℕ
  pub illegal : ℕ → Bool
  pub fee_rate : ℕ → ℕ → ℕ
  pub config : Config

-- `lookup_avail_txos`: those that the database has.
abbrev pub lookup_avail_txos : Deps → List OutPoint → Map OutPoint TxOut
lookup_avail_txos d [] = []
lookup_avail_txos d (o ∷ os) =
    let rest = lookup_avail_txos d os in
    elim (d.confirmed o) [ none ↦ rest | some txo ↦ Maps.insert o txo rest ]

abbrev pub mempool_txo : Map Txid Transaction → OutPoint → Option TxOut
mempool_txo txstore (out_point txid vout) = do tx ← Maps.get txid txstore; get_elem? tx.output vout

-- The outputs of stored transactions, for the outpoints that are not confirmed.
abbrev pub extend_txos :
    Map Txid Transaction → Map OutPoint TxOut → List OutPoint → Map OutPoint TxOut
extend_txos txstore confirmed [] = confirmed
extend_txos txstore confirmed (o ∷ os) =
    let rest = extend_txos txstore confirmed os in
    if contains_key o confirmed
    then rest
    else elim (mempool_txo txstore o) [ none ↦ rest | some txo ↦ Maps.insert o txo rest ]

unfoldable pub lookup_txos : Deps → Map Txid Transaction → List OutPoint → Map OutPoint TxOut
lookup_txos d txstore outpoints = extend_txos txstore (lookup_avail_txos d outpoints) outpoints

unfoldable pub lookup_txo : Deps → Mempool → OutPoint → Option TxOut
lookup_txo d m outpoint = Maps.get outpoint (lookup_txos d m.txstore (outpoint ∷ []))

abbrev pub outpoints_of : List TxIn → List OutPoint
outpoints_of [] = []
outpoints_of (i ∷ input) =
    let rest = outpoints_of input in if has_prevout i then i.previous_output ∷ rest else rest

unfoldable pub get_prevouts : Map Txid Transaction → List Txid → Option (List OutPoint)
get_prevouts txstore [] = some []
get_prevouts txstore (t ∷ ts) = do
  tx ← Maps.get t txstore
  rest ← get_prevouts txstore ts
  some (outpoints_of tx.input ++ rest)

-- Phase 1 of `add`: the store with the transactions, and the ids of those that are new.
unfoldable pub store_txs :
    Map Txid Transaction → List Transaction → Map Txid Transaction × List Txid
store_txs txstore [] = (txstore, [])
store_txs txstore (tx ∷ txs) =
    let (stored, fresh) = store_txs (Maps.insert tx.txid tx txstore) txs in
    (stored, if contains_key tx.txid txstore then fresh else tx.txid ∷ fresh)

-- Cap 0 stores nothing.
abbrev pub push_front_capped : List TxOverview → ℕ → TxOverview → List TxOverview
push_front_capped q cap item = if cap == 0 then q else take cap (item ∷ q)

abbrev pub overview_of : Txid → TxFeeInfo → Map ℕ TxOut → TxOverview
overview_of txid info prevouts = record {
  txid = txid;
  fee = info.fee;
  vsize = info.vsize;
  value = sum_values (values prevouts);
}

abbrev pub HistoryEntry : Type 0
HistoryEntry = ℕ × TxHistoryInfo

unfoldable pub funding_entries : Deps → Txid → ℕ → List TxOut → List HistoryEntry
funding_entries d txid index [] = []
funding_entries d txid index (o ∷ os) =
    let rest = funding_entries d txid (suc index) os in
    if is_spendable d.illegal o || d.config.index_unspendables
    then (d.script_hash o.script_pubkey, funding txid index o.value) ∷ rest
    else rest

abbrev pub spend_of : Txid → ℕ → OutPoint → ℕ → TxHistoryInfo
spend_of txid vin (out_point prev_txid prev_vout) value =
    spending txid vin prev_txid prev_vout value

-- `none` is the panic on an input that the transaction does not have.
unfoldable pub spending_entries :
    Deps → Txid → Transaction → Map ℕ TxOut → Option (List HistoryEntry)
spending_entries d txid tx [] = some []
spending_entries d txid tx ((index, prevout) ∷ prevouts) = do
  txi ← get_elem? tx.input index
  rest ← spending_entries d txid tx prevouts
  let entry = spend_of txid index txi.previous_output prevout.value
  some ((d.script_hash prevout.script_pubkey, entry) ∷ rest)

unfoldable pub push_entries :
    Map ℕ (List TxHistoryInfo) → List HistoryEntry → Map ℕ (List TxHistoryInfo)
push_entries history [] = history
push_entries history ((scripthash, entry) ∷ entries) =
    push_entries (Maps.insert scripthash (entries_of history scripthash ++ entry ∷ []) history)
      entries

unfoldable pub add_edges : Map OutPoint (Txid × ℕ) → Txid → ℕ → List TxIn → Map OutPoint (Txid × ℕ)
add_edges edges txid index [] = edges
add_edges edges txid index (i ∷ input) =
    add_edges (Maps.insert i.previous_output (txid, index) edges) txid (suc index) input

-- One round of phase 3 of `add`, with 1 if the transaction was processed.
unfoldable pub index_tx : Deps → Map OutPoint TxOut → Mempool → Txid → Option (Mempool × ℕ)
unfolding funding_entries spending_entries push_entries add_edges
index_tx d txos m txid = do
  tx ← Maps.get txid m.txstore
  elim (extract_tx_prevouts tx txos) [
    | none ↦ some (m, 0)
    | some prevouts ↦ do
      let info = Fees.new d.fee_rate tx prevouts
      spent ← spending_entries d txid tx prevouts
      let entries = funding_entries d txid 0 tx.output ++ spent
      some (
        record m {
          recent =
              push_front_capped m.recent d.config.mempool_recent_txs_size
                (overview_of txid info prevouts);
          feeinfo = Maps.insert txid info m.feeinfo;
          history = push_entries m.history entries;
          edges = add_edges m.edges txid 0 tx.input;
        },
        1,
      )
  ]

unfoldable pub index_txs : Deps → Map OutPoint TxOut → Mempool → List Txid → Option (Mempool × ℕ)
unfolding index_tx
index_txs d txos m [] = some (m, 0)
index_txs d txos m (t ∷ ts) = do
  (m', n) ← index_tx d txos m t
  (m'', rest) ← index_txs d txos m' ts
  some (m'', n + rest)

unfoldable pub add : Deps → Mempool → List Transaction → Option (Mempool × ℕ)
unfolding store_txs get_prevouts lookup_txos index_txs
add d m txs = if length txs == 0 then some (m, 0) else (do
  let (stored, fresh) = store_txs m.txstore txs
  prevouts ← get_prevouts stored fresh
  index_txs d (lookup_txos d stored prevouts) (record m { txstore = stored }) fresh)

pub data MempoolError : Type 0 where
  no_txids no_transactions missing_parents : MempoolError

-- `tx` is the daemon's answer, `none` where it has none.
unfoldable pub add_by_txid :
    Deps → Mempool → Txid → Option Transaction → Option (Mempool × Option MempoolError)
add_by_txid d m txid tx = if contains_key txid m.txstore then some (m, none) else elim tx [
  | none ↦ some (m, none)
  | some tx ↦ do
    (m', n) ← add d m (tx ∷ [])
    some (m', if n == 0 then some missing_parents else none)
]

unfoldable pub remove_txs :
    Map Txid Transaction
    → Map Txid TxFeeInfo
    → List Txid
    → Option (Map Txid Transaction × Map Txid TxFeeInfo)
remove_txs txstore feeinfo [] = some (txstore, feeinfo)
remove_txs txstore feeinfo (t ∷ ts) = do
  tx ← Maps.get t txstore
  remove_txs (Maps.remove t txstore) (Maps.remove t feeinfo) ts

-- `entries.retain`
abbrev pub without_txs : List Txid → List TxHistoryInfo → List TxHistoryInfo
without_txs ts [] = []
without_txs ts (e ∷ entries) =
    let rest = without_txs ts entries in if mem? (txid_of e) ts then rest else e ∷ rest

unfoldable pub retain_history : List Txid → Map ℕ (List TxHistoryInfo) → Map ℕ (List TxHistoryInfo)
retain_history ts [] = []
retain_history ts ((scripthash, entries) ∷ history) =
    let rest = retain_history ts history in
    elim (without_txs ts entries) [ [] ↦ rest | e ∷ (es → h) ↦ (scripthash, e ∷ es) ∷ rest ]

unfoldable pub retain_edges : List Txid → Map OutPoint (Txid × ℕ) → Map OutPoint (Txid × ℕ)
retain_edges ts [] = []
retain_edges ts ((o, e) ∷ edges) =
    let rest = retain_edges ts edges in if mem? e.0 ts then rest else (o, e) ∷ rest

unfoldable pub remove : Deps → Mempool → List Txid → Option Mempool
unfolding remove_txs retain_history retain_edges
remove d m to_remove = do
  (txstore, feeinfo) ← remove_txs m.txstore m.feeinfo to_remove
  some (record m {
    txstore = txstore;
    feeinfo = feeinfo;
    history = retain_history to_remove m.history;
    edges = retain_edges to_remove m.edges;
  })

abbrev pub difference : List Txid → List Txid → List Txid
difference [] us = []
difference (t ∷ ts) us = let rest = difference ts us in if mem? t us then rest else t ∷ rest

-- The last step of `update`, with the backlog statistics if they have expired.
unfoldable pub finish_update : Deps → ℕ → Mempool → List Transaction → Option Mempool
finish_update d now m txs = do
  (m', n) ← add d m txs
  let renewed = (do
    stats ← new_stats m'.feeinfo
    some (record m' { backlog_stats = stats; backlog_time = now }))
  if ltb (d.config.mempool_backlog_stats_ttl * 10 ^ 9) (now - m'.backlog_time)
      then renewed
      else some m'

-- With no other thread in between: `all` and `fetch` are the daemon's answers, `none` its errors.
unfoldable pub update :
    Deps
    → ℕ
    → Mempool
    → Option (List Txid)
    → (List Txid → Option (List Transaction))
    → Option (Mempool × Option MempoolError)
update d now m all fetch =
    let old_txids = unique_txids m in
    elim all [
      | none ↦ some (m, some no_txids)
      | some all_txids ↦ do
        m' ← remove d m (difference old_txids all_txids)
        elim (fetch (difference all_txids old_txids)) [
          | none ↦ some (m', some no_transactions)
          | some txs ↦ do m'' ← finish_update d now m' txs; some (m'', none)
        ]
    ]
