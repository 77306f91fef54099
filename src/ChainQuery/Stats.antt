-- ===== src/ChainQuery/Stats.antt =====
-- src/new_index/schema.rs: the statistics of a script, brought up to date from cached ones by the
-- history since. Without Liquid. The sums of u64 wrap around, as in `count_entry` of the mempool.
pub mod Restarting
pub mod Cached
use splora.Common.{
  ℕ, ◌+◌, ◌≡◌, Bool, true, false, ◌&&◌, Option, none, some, List, [], ◌∷◌, ◌==◌, ◌>>=◌, leb, ltb,
  if◌then◌else◌,
}
use splora.Common.Lists.{mem?}
use splora.Headers.{BlockHash, BlockId, HeaderList}
use splora.ChainQuery.{Txid, TxConfRow, height_by_hash}
use splora.ChainQuery.Utxos.{TxHistoryRow, get_txid, confirmed_rows, rows_from}
use splora.Mempool.{ScriptStats, no_stats, count_entry}

abbrev pub min_history_items_to_cache : ℕ
min_history_items_to_cache = 100

abbrev pub is_block : Option BlockHash → BlockHash → Bool
is_block none hash = false
is_block (some last) hash = last == hash

abbrev same_test : Bool → Bool → Bool
same_test true b = b
same_test false true = false
same_test false false = true

unfoldable pub is_sane : ScriptStats → Bool
is_sane s =
    leb s.spent_txo_count s.funded_txo_count
    && leb s.tx_count (s.spent_txo_count + s.funded_txo_count)
    && leb s.spent_txo_sum s.funded_txo_sum
    && same_test (s.funded_txo_count == s.spent_txo_count) (s.funded_txo_sum == s.spent_txo_sum)

-- The loop of `stats_delta`.
unfoldable pub stats_loop :
    ScriptStats
    → List Txid
    → Option BlockHash
    → List (TxHistoryRow × BlockId)
    → ScriptStats × Option BlockHash
unfolding get_txid
stats_loop stats seen_txids lastblock [] = (stats, lastblock)
stats_loop stats seen_txids lastblock ((row, b) ∷ rows) =
    let seen = if is_block lastblock b.hash then seen_txids else [] in
    let known = mem? (get_txid row) seen in
    stats_loop
      (count_entry (if known then stats else record stats { tx_count = stats.tx_count + 1 })
        row.txinfo)
      (if known then seen else get_txid row ∷ seen) (some b.hash) rows

unfoldable pub stats_delta :
    List TxConfRow
    → HeaderList
    → List TxHistoryRow
    → ScriptStats
    → ℕ
    → ScriptStats × Option BlockHash
unfolding stats_loop
stats_delta conf headers history init_stats start_height =
    stats_loop init_stats [] none (confirmed_rows conf headers (rows_from start_height history))

-- The cached statistics that are used, with the height of their block.
unfoldable pub usable : HeaderList → Option (ScriptStats × BlockHash) → Option (ScriptStats × ℕ)
usable headers none = none
usable headers (some (stats, blockhash)) =
    if is_sane stats
    then (do height ← height_by_hash headers blockhash; some (stats, height))
    else none

-- What is cached after it.
unfoldable pub cache_stats :
    ScriptStats × Option BlockHash
    → Option (ScriptStats × BlockHash)
    → Option (ScriptStats × BlockHash)
cache_stats (newstats, none) cached = cached
cache_stats (newstats, some lastblock) cached =
    if ltb min_history_items_to_cache (newstats.funded_txo_count + newstats.spent_txo_count)
    then some (newstats, lastblock)
    else cached

-- `ChainQuery::stats` with the script's row of the cache, before and after.
unfoldable pub stats :
    List TxConfRow
    → HeaderList
    → List TxHistoryRow
    → Option (ScriptStats × BlockHash)
    → ScriptStats × Option (ScriptStats × BlockHash)
unfolding stats_delta usable cache_stats
stats conf headers history cached =
    let new : ScriptStats × Option BlockHash = elim (usable headers cached) [
      | none ↦ stats_delta conf headers history no_stats 0
      | some (oldstats, height) ↦ stats_delta conf headers history oldstats (height + 1)
    ] in
    (new.0, cache_stats new cached)
