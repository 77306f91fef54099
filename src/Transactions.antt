-- ===== src/Transactions.antt =====
-- src/util/transaction.rs, with the tests of src/util/script.rs: the outputs that a transaction
-- spends, and the status of a transaction. Without Liquid. A transaction carries the values that
-- the bitcoin crate computes of it, its hash and its weight.
use splora.Common.{
  ℕ, suc, ◌-◌, ◌^◌, Bool, true, false, not, ◌&&◌, Option, none, some, List, [], ◌∷◌, ◌==◌, ◌>>=◌,
  if◌then◌else◌, length,
}
use splora.Common.Maps
use splora.Common.Maps.{Map}
use splora.Headers.{BlockHash, BlockId}
use splora.ChainQuery.{Txid}
use splora.ChainQuery.Utxos.{OutPoint, out_point, out_point_key}

pub record TxOut : Type 0 where
  pub value : ℕ
  pub script_pubkey : List ℕ

pub record TxIn : Type 0 where
  pub previous_output : OutPoint

pub record Transaction : Type 0 where
  pub txid : Txid
  pub weight : ℕ
  pub input : List TxIn
  pub output : List TxOut

-- `OutPoint::is_null`: the null hash and the highest index.
abbrev pub is_null : OutPoint → Bool
is_null (out_point txid vout) = (txid == 0) && (vout == 2 ^ 32 - 1)

abbrev pub is_coinbase : TxIn → Bool
is_coinbase txin = is_null txin.previous_output

abbrev pub has_prevout : TxIn → Bool
has_prevout txin = not (is_null txin.previous_output)

-- `Transaction::is_coinbase`.
abbrev pub is_coinbase_tx : Transaction → Bool
is_coinbase_tx tx = elim tx.input [ i ∷ (is → h) ↦ (length is == 0) && is_coinbase i | [] ↦ false ]

-- `illegal` tells of a first byte whether its opcode is of the class of returns or illegal ones.
abbrev pub is_provably_unspendable : (ℕ → Bool) → List ℕ → Bool
is_provably_unspendable illegal [] = false
is_provably_unspendable illegal (b ∷ script) = illegal b

abbrev pub is_spendable : (ℕ → Bool) → TxOut → Bool
is_spendable illegal txout = not (is_provably_unspendable illegal txout.script_pubkey)

-- The loop of `extract_tx_prevouts`, from an index on; `none` is a missing outpoint.
unfoldable pub prevouts_from : ℕ → List TxIn → Map OutPoint TxOut → Option (Map ℕ TxOut)
prevouts_from index [] txos = some []
prevouts_from index (txi ∷ input) txos =
    let rest = prevouts_from (suc index) input txos in
    if has_prevout txi
    then (do txo ← Maps.get txi.previous_output txos; found ← rest; some ((index, txo) ∷ found))
    else rest

unfoldable pub extract_tx_prevouts : Transaction → Map OutPoint TxOut → Option (Map ℕ TxOut)
unfolding prevouts_from
extract_tx_prevouts tx txos = prevouts_from 0 tx.input txos

pub record TransactionStatus : Type 0 where
  pub confirmed : Bool
  pub block_height : Option ℕ
  pub block_hash : Option BlockHash
  pub block_time : Option ℕ

abbrev pub status_of : Option BlockId → TransactionStatus
status_of none = record {
  confirmed = false;
  block_height = none;
  block_hash = none;
  block_time = none;
}
status_of (some b) = record {
  confirmed = true;
  block_height = some b.height;
  block_hash = some b.hash;
  block_time = some b.time;
}
