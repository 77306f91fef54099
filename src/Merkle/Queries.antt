-- ===== src/Merkle/Queries.antt =====
-- src/util/electrum_merkle.rs: the three requests that answer with a Merkle branch. The txids of a
-- block are read from the database, a parameter here.
pub mod Laws
use mathlib.Core.Option
use splora.Common.{
  ℕ, zero, suc, ◌+◌, ◌≡◌, Bool, true, false, Option, none, some, List, [], ◌∷◌, ◌==◌, ltb,
  if◌then◌else◌, length, get_elem?,
}
use splora.Common.Results.{Outcome, ok, err, panic, or_panic, or_err, ◌>>=◌}
use splora.Headers.{BlockHash, HeaderList}
use splora.ChainQuery.{Txid, hash_by_height, best_height}
use splora.Merkle.{Hash, create_merkle_branch_and_root}

pub data ProofError : Type 0 where
  cp_below_height cp_above_best missing_headers missing_block missing_block_txids : ProofError
  missing_txid no_tx_in_position : ProofError

-- `iter().position(..)`
unfoldable pub position : Txid → List Txid → Option ℕ
position txid [] = none
position txid (t ∷ ts) = if t == txid then some 0 else Option.map suc (position txid ts)

-- `(start..start + count).map(hash_by_height).collect::<Option<Vec<_>>>()`
unfoldable pub collect_hashes : HeaderList → ℕ → ℕ → Outcome ProofError (List Hash)
collect_hashes l start zero = ok []
collect_hashes l start (suc count) =
    let rest = collect_hashes l (suc start) count in
    do
      found ← or_panic (hash_by_height l start)
      hash ← or_err missing_headers found
      hashes ← rest
      ok (hash ∷ hashes)

module _ (hash_pair : Hash → Hash → Hash) where
  unfoldable pub get_header_merkle_proof :
      HeaderList → ℕ → ℕ → Outcome ProofError (List Hash × Hash)
  get_header_merkle_proof l height cp_height =
      if ltb cp_height height then err cp_below_height else do
        best ← or_panic (best_height l)
        if ltb best cp_height then err cp_above_best else do
          hashes ← collect_hashes l 0 (cp_height + 1)
          or_panic (create_merkle_branch_and_root hash_pair hashes height)

  module _ (get_block_txids : BlockHash → Option (List Txid)) where
    unfoldable pub get_tx_merkle_proof : Txid → BlockHash → Outcome ProofError (List Hash × ℕ)
    get_tx_merkle_proof tx_hash block_hash = do
      txids ← or_err missing_block_txids (get_block_txids block_hash)
      pos ← or_err missing_txid (position tx_hash txids)
      (branch, _) ← or_panic (create_merkle_branch_and_root hash_pair txids pos)
      ok (branch, pos)

    unfoldable pub get_id_from_pos :
        HeaderList → ℕ → ℕ → Bool → Outcome ProofError (Txid × List Hash)
    get_id_from_pos l height tx_pos want_merkle = do
      found ← or_panic (hash_by_height l height)
      header_hash ← or_err missing_block found
      txids ← or_err missing_block_txids (get_block_txids header_hash)
      txid ← or_err no_tx_in_position (get_elem? txids tx_pos)
      if want_merkle
          then (do
            (branch, _) ← or_panic (create_merkle_branch_and_root hash_pair txids tx_pos)
            ok (txid, branch))
          else ok (txid, [])
