-- ===== src/Tests/Totals.antt =====
-- The statistics of a script with a funding in the second block, which are cached before the third
-- block spends it.
use splora.Common.{
  ℕ, ◌≤◌, ◌<◌, inl, All, ◌≡◌, refl, ◌∙◌, sym, some, none, List, [], ◌∷◌, ◌++◌, arith, ℕ_discrete,
}
use mathlib.Core.Option
use splora.Common.Maps
use splora.Common.Maps.{nat_key}
use splora.Headers.{HeaderList, header_by_blockhash, blockid_of}
use splora.ChainQuery.{TxConfRow, tx_confirming_block, height_by_hash}
use splora.ChainQuery.Utxos.{TxHistoryRow, spending, funding, get_txid, confirmed_rows, rows_from}
use splora.Mempool.{ScriptStats, no_stats}
use splora.ChainQuery.Stats.{stats, stats_delta, stats_loop}
use splora.ChainQuery.Stats.Cached.{stats_cached}
use splora.Tests.Chains.{genesis, second, main}

abbrev pub short : HeaderList
short = record { headers = genesis ∷ second ∷ []; heights = (1, 0) ∷ (3, 1) ∷ []; tip = 3 }

abbrev pub confirmations : List TxConfRow
confirmations = record { txid = 7; blockhash = 3 } ∷ []

abbrev pub more_confirmations : List TxConfRow
more_confirmations = record { txid = 7; blockhash = 3 } ∷ record { txid = 9; blockhash = 13 } ∷ []

abbrev pub counted : List TxHistoryRow
counted = record { confirmed_height = 1; txinfo = funding 7 0 50 } ∷ []

abbrev spend : List TxHistoryRow
spend = record { confirmed_height = 2; txinfo = spending 9 0 7 0 50 } ∷ []

abbrev total : ScriptStats
total = record no_stats { tx_count = 1; funded_txo_count = 1; funded_txo_sum = 50 }

total-counted : stats_delta confirmations short counted no_stats 0 ≡ (total, some 3)
unfolding stats_delta stats_loop confirmed_rows rows_from get_txid tx_confirming_block blockid_of
    header_by_blockhash Maps.get ℕ_discrete
total-counted = refl

pub still_confirmed :
    confirmed_rows confirmations short counted ≡ confirmed_rows more_confirmations main counted
unfolding confirmed_rows get_txid tx_confirming_block blockid_of header_by_blockhash Maps.get
    ℕ_discrete
still_confirmed = refl

pub height_of_second : height_by_hash main 3 ≡ some 1
unfolding height_by_hash header_by_blockhash Maps.get ℕ_discrete
height_of_second = refl

in_order :
    (h : ℕ)
    → height_by_hash main 3 ≡ some h
    → All (λ (r : TxHistoryRow). r.confirmed_height ≤ h) counted
      × All (λ (r : TxHistoryRow). h < r.confirmed_height) spend
in_order h at =
    let one : 1 ≡ h = Option.some-injective 1 h (sym height_of_second ∙ at) in
    ((omega (arith, one), tt), (omega (arith, one), tt))

stats_cached_example :
    (stats more_confirmations main (counted ++ spend) (some (total, 3))).0
    ≡ (stats more_confirmations main (counted ++ spend) none).0
stats_cached_example =
    stats_cached confirmations more_confirmations short main counted spend total 3
      (inl (total-counted, still_confirmed, in_order))
