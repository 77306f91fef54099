-- ===== src/Query.antt =====
-- src/new_index/query.rs: `Query` answers from the chain and the mempool together, and keeps the
-- daemon's fee estimates. Without Liquid. What only calls the daemon is left out.
pub mod Outputs
use mathlib.Core.Option
use splora.Common.{
  ℕ, suc, ◌+◌, ◌-◌, ◌≡◌, Bool, true, false, not, Option, none, some, List, [], ◌∷◌, ◌++◌, ltb,
  if◌then◌else◌, length, map,
}
use splora.Common.Results.{Outcome, ok, err, panic, ◌>>=◌}
use splora.Common.Maps
use splora.Common.Maps.{Map, nat_key}
use splora.Headers.{BlockHash, BlockId, HeaderList}
use splora.ChainQuery.{Txid, TxConfRow, tx_confirming_block}
use splora.ChainQuery.Utxos.{OutPoint, out_point, TxHistoryRow, UtxoError}
use splora.ChainQuery.Scripts
use splora.ChainQuery.Scripts.{TxEdgeRow, CachedUtxoMap}
use splora.ChainQuery.Stats
use splora.Transactions.{TxOut, Transaction, is_spendable, TransactionStatus, status_of}
use splora.Mempool
use splora.Mempool.Index.{Deps, MempoolError, add_by_txid}
use splora.Mempool.{Mempool, Utxo, SpendingInput, ScriptStats, has_spend}

-- What the chain part reads: the confirmation rows, the edges and the headers.
pub record Chain : Type 0 where
  pub conf : List TxConfRow
  pub edges : List TxEdgeRow
  pub headers : HeaderList

-- `retain`
abbrev pub not_spent : Mempool → List Utxo → List Utxo
not_spent m [] = []
not_spent m (u ∷ utxos) =
    let rest = not_spent m utxos in if has_spend m (out_point u.txid u.vout) then rest else u ∷ rest

-- With the script's history and its row of the cache, before and after.
unfoldable pub utxo :
    Chain
    → Mempool
    → List TxHistoryRow
    → Option (CachedUtxoMap × BlockHash)
    → ℕ
    → ℕ
    → Outcome UtxoError (List Utxo × Option (CachedUtxoMap × BlockHash))
utxo c m history cached utxos_limit scripthash = do
  (utxos, cached') ← Scripts.utxo c.conf c.headers history cached utxos_limit
  ok (not_spent m utxos ++ Mempool.utxo m scripthash, cached')

unfoldable pub history_txids :
    Chain → Mempool → List TxHistoryRow → ℕ → ℕ → List (Txid × Option BlockId)
history_txids c m history scripthash limit =
    let confirmed_txids = Scripts.history_txids c.conf c.headers history limit in
    map (λ (p : Txid × BlockId). (p.0, some p.1)) confirmed_txids
    ++ map (λ (t : Txid). (t, none))
        (Mempool.history_txids m scripthash (limit - length confirmed_txids))

unfoldable pub stats :
    Chain
    → Mempool
    → List TxHistoryRow
    → Option (ScriptStats × BlockHash)
    → ℕ
    → (ScriptStats × ScriptStats) × Option (ScriptStats × BlockHash)
stats c m history cached scripthash =
    let (confirmed, cached') = Stats.stats c.conf c.headers history cached in
    ((confirmed, Mempool.stats m scripthash), cached')

unfoldable pub lookup_spend : Chain → Mempool → OutPoint → Option SpendingInput
lookup_spend c m outpoint = elim (Scripts.lookup_spend c.conf c.headers c.edges outpoint) [
  | some s ↦ some s
  | none ↦ Mempool.lookup_spend m outpoint
]

abbrev pub spends_from :
    (ℕ → Bool) → Chain → Mempool → Txid → ℕ → List TxOut → List (Option SpendingInput)
spends_from illegal c m txid vout [] = []
spends_from illegal c m txid vout (o ∷ os) =
    (if is_spendable illegal o then lookup_spend c m (out_point txid vout) else none)
    ∷ spends_from illegal c m txid (suc vout) os

unfoldable pub lookup_tx_spends :
    (ℕ → Bool) → Chain → Mempool → Transaction → List (Option SpendingInput)
lookup_tx_spends illegal c m tx = spends_from illegal c m tx.txid 0 tx.output

unfoldable pub get_tx_status : Chain → Txid → TransactionStatus
get_tx_status c txid = status_of (tx_confirming_block c.conf c.headers txid)

-- `txid` is what the daemon answers to the broadcast, `none` an error; `tx` is what it has of it. An
-- error of the mempool is only logged. The outer `none` is a panic.
unfoldable pub broadcast_raw :
    Deps → Mempool → Option Txid → Option Transaction → Option (Mempool × Option Txid)
broadcast_raw d m none tx = some (m, none)
broadcast_raw d m (some txid) tx =
    Option.map (λ (p : Mempool × Option MempoolError). (p.0, some txid)) (add_by_txid d m txid tx)

abbrev pub fee_estimates_ttl : ℕ
fee_estimates_ttl = 60

-- Rates are f64 values, which are only handed on. Times are seconds.
pub record Estimates : Type 0 where
  pub cached_estimates : Map ℕ ℕ
  pub cache_time : Option ℕ
  pub cached_relayfee : Option ℕ

abbrev pub is_fresh : ℕ → Estimates → Bool
is_fresh now q = elim q.cache_time [ none ↦ false | some t ↦ ltb (now - t) fee_estimates_ttl ]

-- `none` of the daemon's answer is an error, which is logged.
unfoldable pub update_fee_estimates : ℕ → Option (Map ℕ ℕ) → Estimates → Estimates
update_fee_estimates now none q = q
update_fee_estimates now (some estimates) q = record q {
  cached_estimates = estimates;
  cache_time = some now;
}

unfoldable pub get_relayfee : Option ℕ → Estimates → Option ℕ × Estimates
get_relayfee answer q = elim q.cached_relayfee [
  | some cached ↦ (some cached, q)
  | none ↦ elim answer [
    | none ↦ (none, q)
    | some relayfee ↦ (some relayfee, record q { cached_relayfee = some relayfee })
  ]
]

unfoldable pub estimate_fee_map : ℕ → Option (Map ℕ ℕ) → Estimates → Map ℕ ℕ × Estimates
unfolding update_fee_estimates
estimate_fee_map now answer q =
    if is_fresh now q
    then (q.cached_estimates, q)
    else (let q' = update_fee_estimates now answer q in (q'.cached_estimates, q'))

-- On a regtest network it is the relay fee.
unfoldable pub estimate_fee :
    Bool → ℕ → Option ℕ → Option (Map ℕ ℕ) → ℕ → Estimates → Option ℕ × Estimates
unfolding get_relayfee estimate_fee_map
estimate_fee is_regtest now relayfee answer conf_target q =
    if is_regtest
    then get_relayfee relayfee q
    else (let (estimates, q') = estimate_fee_map now answer q in
        (Maps.get conf_target estimates, q'))
