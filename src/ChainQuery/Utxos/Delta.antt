-- ===== src/ChainQuery/Utxos/Delta.antt =====
-- src/new_index/schema.rs: what the set of unspent outputs holds after a history.

use splora.Common.{
  ℕ, ◌+◌, ◌*◌, ◌≡◌, refl, sym, ap, ◌∙◌, Bool, true, false, Option, none, some, List, [], ◌∷◌, ◌++◌,
  ltb, if◌then◌else◌, length, arith, inl, inr, Bool-cases,
}
use mathlib.Core.Bool.{decide}
use mathlib.Core.Logic.{ite}
use splora.Common.Results.{ok, err, ok-injective}
use splora.Common.Maps
use splora.Headers.{BlockHash, BlockId}
use splora.ChainQuery.Utxos.{
  OutPoint, out_point, OutPoint-discrete, out_point_key, TxHistoryInfo, spending, funding,
  TxHistoryRow, get_funded_outpoint, UtxoMap, too_many_utxos, too_many_txs, apply_row, delta_loop,
  apply_utxo_delta,
}

-- What a row says of the output that it is about.
abbrev pub outcome_of : TxHistoryInfo → BlockId → Option (BlockId × ℕ)
outcome_of (funding txid vout value) b = some (b, value)
outcome_of (spending txid vin prev_txid prev_vout value) b = none

-- What the last row about an output says of it.
unfoldable pub last_outcome :
    OutPoint → List (TxHistoryRow × BlockId) → Option (Option (BlockId × ℕ))
unfolding decide
last_outcome o [] = none
last_outcome o ((row, b) ∷ rows) = elim (last_outcome o rows) [
  | some r ↦ some r
  | none ↦
      if decide (OutPoint-discrete o (get_funded_outpoint row.txinfo))
      then some (outcome_of row.txinfo b)
      else none
]

abbrev pub or_old : Option (Option (BlockId × ℕ)) → Option (BlockId × ℕ) → Option (BlockId × ℕ)
or_old none old = old
or_old (some r) old = r

ite-decide {ℓ} :
    {P : Type 0} {A : Type ℓ} (d : Dec P) (a b : A) → ite d a b ≡ (if decide d then a else b)
unfolding decide
ite-decide (yes p) a b = refl
ite-decide (no q) a b = refl

get-apply_row :
    (o : OutPoint) (utxos : UtxoMap) (info : TxHistoryInfo) (b : BlockId)
    → Maps.get o (apply_row utxos info b) ≡ (
        if decide (OutPoint-discrete o (get_funded_outpoint info))
        then outcome_of info b
        else Maps.get o utxos)
unfolding apply_row decide
get-apply_row o utxos (funding txid vout value) b =
    Maps.get-insert (get_funded_outpoint (funding txid vout value)) o (b, value) utxos
    ∙ ite-decide (OutPoint-discrete o (out_point txid vout)) (some (b, value)) (Maps.get o utxos)
get-apply_row o utxos (spending txid vin p pv value) b =
    Maps.get-remove (get_funded_outpoint (spending txid vin p pv value)) o utxos
    ∙ ite-decide (OutPoint-discrete o (out_point p pv)) none (Maps.get o utxos)

-- The block of the last row.
abbrev pub last_block : Option BlockHash → List (TxHistoryRow × BlockId) → Option BlockHash
last_block last [] = last
last_block last ((row, b) ∷ rows) = last_block (some b.hash) rows

abbrev pub Returned : Type 0
Returned = UtxoMap × Option BlockHash × ℕ

-- A row that the loop gets past.
pub loop_step :
    (limit : ℕ) (utxos : UtxoMap) (last : Option BlockHash) (n : ℕ) (row : TxHistoryRow)
    (b : BlockId) (rows : List (TxHistoryRow × BlockId)) (r : Returned)
    → delta_loop limit utxos last n ((row, b) ∷ rows) ≡ ok r
    → (ltb limit (length (apply_row utxos row.txinfo b)) ≡ false)
      × (ltb (limit * 500) (n + 1) ≡ false)
      × (delta_loop limit (apply_row utxos row.txinfo b) (some b.hash) (n + 1) rows ≡ ok r)
unfolding delta_loop
loop_step limit utxos last n row b rows r h =
    elim (Bool-cases (ltb limit (length (apply_row utxos row.txinfo b)))) [
      | inl many ↦ let q : err (too_many_utxos limit) ≡ ok r = rw many at h in ground (arith, q)
      | inr few ↦ elim (Bool-cases (ltb (limit * 500) (n + 1))) [
        | inl long ↦
            let q : err (too_many_txs (limit * 500)) ≡ ok r = rw (few, long) at h in
            ground (arith, q)
        | inr short ↦ (few, short, rw (few, short) at h)
      ]
    ]

combine :
    (later : Option (Option (BlockId × ℕ))) (own : Bool) (new old between : Option (BlockId × ℕ))
    → between ≡ (if own then new else old)
    → or_old later between
      ≡ or_old (elim later [ some r ↦ some r | none ↦ if own then some new else none ]) old
combine none true new old between h = h
combine none false new old between h = h
combine (some r) own new old between h = refl

loop-last_outcome :
    (limit : ℕ) (utxos : UtxoMap) (last : Option BlockHash) (n : ℕ)
    (rows : List (TxHistoryRow × BlockId)) (r : Returned)
    → delta_loop limit utxos last n rows ≡ ok r
    → (r.2 ≡ n + length rows)
      × (r.1 ≡ last_block last rows)
      × ((o : OutPoint) → Maps.get o r.0 ≡ or_old (last_outcome o rows) (Maps.get o utxos))
unfolding delta_loop last_outcome
loop-last_outcome limit utxos last n [] r h =
    let q = ok-injective (utxos, last, n) r h in
    (
      ap (λ x. x.2) (sym q) ∙ omega arith,
      ap (λ x. x.1) (sym q),
      λ o. ap (λ x. Maps.get o x.0) (sym q),
    )
loop-last_outcome limit utxos last n ((row, b) ∷ rows) r h =
    let (few, short, next) = loop_step limit utxos last n row b rows r h in
    let (count, block, outs) =
      loop-last_outcome limit (apply_row utxos row.txinfo b) (some b.hash) (n + 1) rows r next in
    (
      omega (arith, count),
      block,
      λ o.
          outs o
          ∙ combine (last_outcome o rows)
              (decide (OutPoint-discrete o (get_funded_outpoint row.txinfo)))
              (outcome_of row.txinfo b) (Maps.get o utxos)
              (Maps.get o (apply_row utxos row.txinfo b)) (get-apply_row o utxos row.txinfo b),
    )

-- A set that is brought up to date holds of each output what the last row about it says: the funding
-- block and value, nothing if it was spent, or what the old set held if no row is about it. All rows
-- are counted, and the block is that of the last one.
pub apply_utxo_delta_outcome :
    (utxos : UtxoMap) (history : List (TxHistoryRow × BlockId)) (limit : ℕ) (r : Returned)
    → apply_utxo_delta utxos history limit ≡ ok r
    → (r.2 ≡ length history)
      × (r.1 ≡ last_block none history)
      × ((o : OutPoint) → Maps.get o r.0 ≡ or_old (last_outcome o history) (Maps.get o utxos))
unfolding apply_utxo_delta
apply_utxo_delta_outcome utxos history limit r h =
    let (count, block, outs) = loop-last_outcome limit utxos none 0 history r h in
    (omega (arith, count), block, outs)

own_outcome :
    (later own : Option (Option (BlockId × ℕ))) (old : Option (BlockId × ℕ))
    → or_old (elim later [ some r ↦ some r | none ↦ own ]) old ≡ or_old later (or_old own old)
own_outcome none own old = refl
own_outcome (some r) own old = refl

pub last_outcome-append :
    (o : OutPoint) (rows more : List (TxHistoryRow × BlockId)) (old : Option (BlockId × ℕ))
    → or_old (last_outcome o more) (or_old (last_outcome o rows) old)
      ≡ or_old (last_outcome o (rows ++ more)) old
unfolding last_outcome
last_outcome-append o [] more old = refl
last_outcome-append o ((row, b) ∷ rows) more old =
    let own : Option (Option (BlockId × ℕ)) =
      if decide (OutPoint-discrete o (get_funded_outpoint row.txinfo))
      then some (outcome_of row.txinfo b)
      else none in
    ap (or_old (last_outcome o more)) (own_outcome (last_outcome o rows) own old)
    ∙ last_outcome-append o rows more (or_old own old)
    ∙ sym (own_outcome (last_outcome o (rows ++ more)) own old)
