-- ===== src/Tests/Outputs.antt =====
-- The unspent outputs of a script with two fundings and a spend, and of one whose set is cached before
-- the third block spends its output and funds another.
use splora.Common.{ℕ, ◌+◌, ◌≡◌, refl, none, some, List, [], ◌∷◌, length}
use splora.Common.Maps
use splora.Headers.{BlockId, blockid_of}
use splora.Tests.Hashing.{hash}
use splora.Tests.Chains.{second}
use mathlib.Core.Option
use splora.ChainQuery.Utxos.{
  OutPoint, out_point, OutPoint-discrete, out_point_key, spending, funding, TxHistoryRow, UtxoMap,
  apply_utxo_delta,
}
use splora.ChainQuery.Utxos.Delta.{last_outcome, or_old, last_block, apply_utxo_delta_outcome}

abbrev block : ℕ → BlockId
block height = record { height = height; hash = 100 + height; time = 0 }

abbrev earlier : List (TxHistoryRow × BlockId)
earlier =
    (record { confirmed_height = 1; txinfo = funding 7 0 50 }, block 1)
    ∷ (record { confirmed_height = 2; txinfo = funding 8 1 60 }, block 2)
    ∷ []

abbrev cached : UtxoMap
cached = (out_point 7 0, (block 1, 50)) ∷ (out_point 8 1, (block 2, 60)) ∷ []

apply_utxo_delta_outcome_example :
    (2 + 0 ≡ length earlier)
    × (some 102 ≡ last_block none earlier)
    × ((o : OutPoint) → Maps.get o cached ≡ or_old (last_outcome o earlier) (Maps.get o []))
unfolding apply_utxo_delta Maps.insert OutPoint-discrete
apply_utxo_delta_outcome_example = apply_utxo_delta_outcome [] earlier 10 (cached, some 102, 2) refl

-- Of `counted`.
abbrev first_set : UtxoMap
first_set = (out_point 7 0, (blockid_of second, 50)) ∷ []

abbrev change : List TxHistoryRow
change =
    record { confirmed_height = 2; txinfo = spending 9 0 7 0 50 }
    ∷ record { confirmed_height = 2; txinfo = funding 9 1 45 }
    ∷ []
