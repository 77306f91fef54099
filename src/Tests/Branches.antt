-- ===== src/Tests/Branches.antt =====
-- Merkle branches of the blocks of the test chain.

use splora.Common.{
  ℕ, ◌+◌, ◌*◌, ◌≡◌, ◌≢◌, ◌⊎◌, refl, Option, none, some, List, [], ◌∷◌, get_elem?, All,
}
use splora.Common.Results.{ok, err}
use splora.Headers.{BlockHash}
use splora.ChainQuery.{Txid}
use splora.Merkle.{Hash, create_merkle_branch_and_root}
use splora.Merkle.Proof.{verify, root_of, merkle_branch_proves}
use splora.Merkle.Queries.{missing_block_txids, missing_txid, get_tx_merkle_proof}
use splora.Merkle.Queries.Laws.{Proven, tx_proof}

abbrev hash_pair : Hash → Hash → Hash
hash_pair a b = 3 * a + 5 * b

merkle_branch_proves_example :
    (branch : List Hash) × (root : Hash) × (create_merkle_branch_and_root hash_pair
        (10 ∷ 20 ∷ 30 ∷ [])
        1
      ≡ some (branch, root))
    × (verify hash_pair 20 1 branch ≡ root)
    × (root_of hash_pair 4 (10 ∷ 20 ∷ 30 ∷ []) ≡ some root)
merkle_branch_proves_example = merkle_branch_proves hash_pair (10 ∷ 20 ∷ 30 ∷ []) 1 20 refl

abbrev stored : BlockHash → Option (List Txid)
stored h = some (5 ∷ 7 ∷ 9 ∷ [])

tx_proof_example :
    ((stored 3 ≡ none) × (get_tx_merkle_proof hash_pair stored 7 3 ≡ err missing_block_txids))
    ⊎ ((txids : List Txid) × (stored 3 ≡ some txids)
        × ((All (λ t. t ≢ 7) txids × (get_tx_merkle_proof hash_pair stored 7 3 ≡ err missing_txid))
            ⊎ ((pos : ℕ) × (branch : List Hash) × (root : Hash) × (get_tx_merkle_proof hash_pair
                    stored 7 3
                  ≡ ok (branch, pos))
                × (get_elem? txids pos ≡ some 7)
                × Proven hash_pair txids pos 7 branch root)))
tx_proof_example = tx_proof hash_pair stored 7 3
