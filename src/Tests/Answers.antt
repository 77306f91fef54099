-- ===== src/Tests/Answers.antt =====
-- The unspent outputs of a script with a confirmed output that a payment of the mempool spends.
use splora.Common.{◌≡◌, refl, none, List, [], ◌∷◌, not, ◌||◌, ◌&&◌, ℕ_discrete}
use splora.Common.Results.{ok}
use splora.Common.Maps
use splora.Common.Maps.{nat_key}
use splora.Headers.{header_by_blockhash, blockid_of}
use splora.ChainQuery.{tx_confirming_block}
use splora.ChainQuery.Utxos.{
  OutPoint, OutPoint-discrete, get_txid, confirmed_rows, rows_from, utxo_delta, apply_utxo_delta,
}
use splora.ChainQuery.Scripts
use splora.Mempool
use splora.Mempool.{Utxo, has_spend, entries_of}
use splora.Query.{Chain, utxo}
use splora.Query.Outputs.{lists, funds, utxo_iff}
use splora.Tests.Totals.{short, confirmations, counted}
use splora.Tests.Unconfirmed.{two}

abbrev chain : Chain
chain = record { conf = confirmations; edges = []; headers = short }

abbrev pending : List Utxo
pending =
    record { txid = 21; vout = 0; confirmed = none; value = 250 }
    ∷ record { txid = 20; vout = 0; confirmed = none; value = 500 }
    ∷ []

answered : utxo chain two counted none 10 118 ≡ ok (pending, none)
unfolding utxo Scripts.utxo utxo_delta apply_utxo_delta Mempool.utxo confirmed_rows rows_from
    get_txid tx_confirming_block blockid_of header_by_blockhash Maps.get Maps.insert ℕ_discrete
    OutPoint-discrete Scripts.start_set Scripts.cache_utxos
answered = refl

utxo_iff_example :
    (utxos : List Utxo) × (Scripts.utxo confirmations short counted none 10 ≡ ok (utxos, none))
    × ((o : OutPoint)
        → lists o pending
          ≡ ((lists o utxos || funds o (entries_of two.history 118)) && not (has_spend two o)))
utxo_iff_example = utxo_iff chain two counted none 10 118 (pending, none) answered
