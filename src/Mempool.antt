-- ===== src/Mempool.antt =====
-- src/new_index/mempool.rs, without Liquid: the store of unconfirmed transactions with its index of
-- their history and spends, and what it answers. Index has the operations that change it. Metrics
-- are left out.
pub mod Index
pub mod Log
pub mod Effects
pub mod Entries
pub mod Indexing
pub mod Storing
pub mod Lookup
pub mod Adding
pub mod Retaining
pub mod Removing
pub mod Serving
pub mod Paging
pub mod System
pub mod Listed
pub mod Running
pub mod Orphans
use mathlib.Core.Option
use splora.Common.{
  ℕ, suc, ◌+◌, ◌%◌, ◌^◌, ◌≡◌, Bool, true, false, not, ◌||◌, ◌&&◌, Option, none, some, List, [], ◌∷◌,
  ◌++◌, map, ◌==◌, ltb, ◌>>=◌, if◌then◌else◌, take, drop,
}
use splora.Common.Lists.{mem?}
use splora.Common.Sort.{sort}
use splora.Common.Maps
use splora.Common.Maps.{Map, nat_key, contains_key}
use splora.Headers.{BlockId}
use splora.ChainQuery.{Txid}
use splora.ChainQuery.Utxos.{OutPoint, out_point, out_point_key, TxHistoryInfo, spending, funding}
use splora.Transactions.{TxOut, TxIn, Transaction}
use splora.Fees.{TxFeeInfo, values, make_fee_histogram}

-- What the mempool reads of the configuration.
pub record Config : Type 0 where
  pub mempool_recent_txs_size : ℕ
  pub mempool_backlog_stats_ttl : ℕ
  pub index_unspendables : Bool

pub record TxOverview : Type 0 where
  pub txid : Txid
  pub fee : ℕ
  pub vsize : ℕ
  pub value : ℕ

pub record BacklogStats : Type 0 where
  pub count : ℕ
  pub vsize : ℕ
  pub total_fee : ℕ
  pub fee_histogram : List (ℕ × ℕ)

abbrev pub default_stats : BacklogStats
default_stats = record { count = 0; vsize = 0; total_fee = 0; fee_histogram = (0, 0) ∷ [] }

-- `txstore` is sorted by its keys where they are listed. An instant is a number of nanoseconds.
pub record Mempool : Type 0 where
  pub txstore : Map Txid Transaction
  pub feeinfo : Map Txid TxFeeInfo
  pub history : Map ℕ (List TxHistoryInfo)
  pub edges : Map OutPoint (Txid × ℕ)
  pub recent : List TxOverview
  pub backlog_stats : BacklogStats
  pub backlog_time : ℕ

abbrev pub new : ℕ → Mempool
new time = record {
  txstore = [];
  feeinfo = [];
  history = [];
  edges = [];
  recent = [];
  backlog_stats = default_stats;
  backlog_time = time;
}

pub record Utxo : Type 0 where
  pub txid : Txid
  pub vout : ℕ
  pub confirmed : Option BlockId
  pub value : ℕ

pub record SpendingInput : Type 0 where
  pub txid : Txid
  pub vin : ℕ
  pub confirmed : Option BlockId

pub record ScriptStats : Type 0 where
  pub tx_count : ℕ
  pub funded_txo_count : ℕ
  pub spent_txo_count : ℕ
  pub funded_txo_sum : ℕ
  pub spent_txo_sum : ℕ

-- `TxHistoryInfo::get_txid`
abbrev pub txid_of : TxHistoryInfo → Txid
txid_of (spending txid vin prev_txid prev_vout value) = txid
txid_of (funding txid vout value) = txid

-- `Itertools::unique`, after those seen before.
unfoldable pub unique_from : List Txid → List Txid → List Txid
unique_from seen [] = []
unique_from seen (t ∷ ts) =
    let rest = t ∷ unique_from (t ∷ seen) ts in
    let skipped = unique_from seen ts in if mem? t seen then skipped else rest

abbrev pub unique : List Txid → List Txid
unique ts = unique_from [] ts

unfoldable pub lookup_txn : Mempool → Txid → Option Transaction
lookup_txn m txid = Maps.get txid m.txstore

unfoldable pub lookup_spend : Mempool → OutPoint → Option SpendingInput
lookup_spend m outpoint =
    Option.map (λ (e : Txid × ℕ). record { txid = e.0; vin = e.1; confirmed = none })
      (Maps.get outpoint m.edges)

abbrev pub has_spend : Mempool → OutPoint → Bool
has_spend m outpoint = contains_key outpoint m.edges

unfoldable pub get_tx_fee : Mempool → Txid → Option ℕ
get_tx_fee m txid = Option.map (λ (f : TxFeeInfo). f.fee) (Maps.get txid m.feeinfo)

abbrev pub spends_stored : Map Txid Transaction → List TxIn → Bool
spends_stored txstore [] = false
spends_stored txstore (i ∷ input) =
    elim i.previous_output [ out_point txid vout ↦ contains_key txid txstore ]
    || spends_stored txstore input

unfoldable pub has_unconfirmed_parents : Mempool → Txid → Bool
has_unconfirmed_parents m txid = elim (Maps.get txid m.txstore) [
  | none ↦ false
  | some tx ↦ spends_stored m.txstore tx.input
]

abbrev pub or_empty {ℓ} : {A : Type ℓ} → Option (List A) → List A
or_empty none = []
or_empty (some xs) = xs

-- The entries of a script, none for one without.
abbrev pub entries_of : Map ℕ (List TxHistoryInfo) → ℕ → List TxHistoryInfo
entries_of history scripthash = or_empty (Maps.get scripthash history)

abbrev pub entries_of_all : Map ℕ (List TxHistoryInfo) → List ℕ → List TxHistoryInfo
entries_of_all history [] = []
entries_of_all history (s ∷ scripthashes) =
    entries_of history s ++ entries_of_all history scripthashes

abbrev pub skip_until : Txid → List Txid → List Txid
skip_until last [] = []
skip_until last (t ∷ ts) = if last == t then t ∷ ts else skip_until last ts

-- `skip_while` and `skip`: the transactions after the last one seen.
abbrev pub after_seen : Option Txid → List Txid → List Txid
after_seen none ts = ts
after_seen (some last) ts = drop 1 (skip_until last ts)

-- `none` is the panic on a missing transaction.
unfoldable pub fetch : Map Txid Transaction → List Txid → Option (List Transaction)
fetch txstore [] = some []
fetch txstore (t ∷ ts) = do tx ← Maps.get t txstore; txs ← fetch txstore ts; some (tx ∷ txs)

-- `_history`
unfoldable pub page_of : Mempool → List TxHistoryInfo → Option Txid → ℕ → Option (List Transaction)
page_of m entries last_seen_txid limit =
    fetch m.txstore (take limit (after_seen last_seen_txid (unique (map txid_of entries))))

unfoldable pub history : Mempool → ℕ → Option Txid → ℕ → Option (List Transaction)
unfolding page_of
history m scripthash last_seen_txid limit = elim (Maps.get scripthash m.history) [
  | none ↦ some []
  | some entries ↦ page_of m entries last_seen_txid limit
]

unfoldable pub history_group : Mempool → List ℕ → Option Txid → ℕ → Option (List Transaction)
unfolding page_of
history_group m scripthashes last_seen_txid limit =
    page_of m (entries_of_all m.history scripthashes) last_seen_txid limit

unfoldable pub history_txids : Mempool → ℕ → ℕ → List Txid
history_txids m scripthash limit =
    take limit (unique (map txid_of (entries_of m.history scripthash)))

-- The outputs of the entries that no edge spends.
abbrev pub unspent : Mempool → List TxHistoryInfo → List Utxo
unspent m [] = []
unspent m (spending txid vin prev_txid prev_vout value ∷ entries) = unspent m entries
unspent m (funding txid vout value ∷ entries) =
    let rest = unspent m entries in
    if has_spend m (out_point txid vout)
    then rest
    else record { txid = txid; vout = vout; confirmed = none; value = value } ∷ rest

unfoldable pub utxo : Mempool → ℕ → List Utxo
utxo m scripthash = unspent m (entries_of m.history scripthash)

-- The `match` of the loop of `stats`.
abbrev pub count_entry : ScriptStats → TxHistoryInfo → ScriptStats
count_entry stats (funding txid vout value) = record stats {
  funded_txo_count = stats.funded_txo_count + 1;
  funded_txo_sum = (stats.funded_txo_sum + value) % 2 ^ 64;
}
count_entry stats (spending txid vin prev_txid prev_vout value) = record stats {
  spent_txo_count = stats.spent_txo_count + 1;
  spent_txo_sum = (stats.spent_txo_sum + value) % 2 ^ 64;
}

unfoldable pub stats_from : List Txid → ScriptStats → List TxHistoryInfo → ScriptStats
stats_from seen stats [] = stats
stats_from seen stats (e ∷ entries) =
    let known = mem? (txid_of e) seen in
    stats_from (if known then seen else txid_of e ∷ seen)
      (count_entry (if known then stats else record stats { tx_count = stats.tx_count + 1 }) e)
      entries

abbrev pub no_stats : ScriptStats
no_stats = record {
  tx_count = 0;
  funded_txo_count = 0;
  spent_txo_count = 0;
  funded_txo_sum = 0;
  spent_txo_sum = 0;
}

unfoldable pub stats : Mempool → ℕ → ScriptStats
unfolding stats_from
stats m scripthash = stats_from [] no_stats (entries_of m.history scripthash)

abbrev pub keys {ℓ} : {K V : Type ℓ} → Map K V → List K
keys [] = []
keys ((k, v) ∷ m) = k ∷ keys m

-- A `HashSet`, in no particular order.
abbrev pub unique_txids : Mempool → List Txid
unique_txids m = keys m.txstore

abbrev pub txids : Mempool → List Txid
txids m = sort (keys m.txstore)

-- The sorted keys behind an excluded bound.
abbrev pub beyond : Option Txid → List Txid → List Txid
beyond none ts = ts
beyond (some start) [] = []
beyond (some start) (t ∷ ts) =
    let rest = beyond (some start) ts in if ltb start t then t ∷ rest else rest

unfoldable pub txids_page : Mempool → ℕ → Option Txid → List Txid
txids_page m n start = take n (beyond start (txids m))

unfoldable pub txs_page : Mempool → ℕ → Option Txid → Option (List Transaction)
unfolding txids_page
txs_page m n start = fetch m.txstore (txids_page m n start)

-- The fold of `BacklogStats::new`, with sums of u32 and u64.
abbrev pub tally : ℕ × ℕ × ℕ → List TxFeeInfo → ℕ × ℕ × ℕ
tally acc [] = acc
tally (count, vsize, fee) (f ∷ fs) =
    tally ((count + 1) % 2 ^ 32, (vsize + f.vsize) % 2 ^ 32, (fee + f.fee) % 2 ^ 64) fs

-- `none` is the panic of the histogram.
unfoldable pub new_stats : Map Txid TxFeeInfo → Option BacklogStats
new_stats feeinfo = do
  histogram ← make_fee_histogram (values feeinfo)
  let (count, vsize, total_fee) = tally (0, 0, 0) (values feeinfo)
  some (record { count = count; vsize = vsize; total_fee = total_fee; fee_histogram = histogram })
