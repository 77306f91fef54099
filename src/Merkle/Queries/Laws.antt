-- ===== src/Merkle/Queries/Laws.antt =====
-- The branches that the requests answer with prove their header or transaction, and the errors.
use mathlib.Core.Option
use mathlib.Core.Path.{subst}
use splora.Common.{
  ℕ, suc, ◌≡◌, ◌≢◌, ◌⊎◌, inl, inr, Option, none, some, List, [], ◌∷◌, ◌==◌, map, arith, length,
  get_elem?, All, Bool-cases, Option-cases,
}
use splora.Common.Results.{ok, err}
use splora.Headers.{BlockHash, HeaderEntry}
use splora.ChainQuery.{Txid}
use splora.Merkle.{Hash}
use splora.Merkle.Proof.{verify, root_of, merkle_branch_proves}
use splora.Merkle.Queries.{missing_block_txids, missing_txid, position, get_tx_merkle_proof}

abbrev pub hashes_of : List HeaderEntry → List Hash
hashes_of = map (λ (e : HeaderEntry). e.hash)

position_found :
    (txid : Txid) (ts : List Txid) (pos : ℕ)
    → position txid ts ≡ some pos
    → get_elem? ts pos ≡ some txid
unfolding position
position_found txid [] pos h = absurd (Option.none-ne-some pos h)
position_found txid (t ∷ ts) pos h = elim (Bool-cases (t == txid)) [
  | inl same ↦ ground arith
  | inr other ↦ elim (Option-cases (position txid ts)) [
    | inl lost ↦ absurd (ground arith)
    | inr (k, found) ↦
        let q : some (suc k) ≡ some pos = rw (other, found) at h in
        subst (λ p. get_elem? (t ∷ ts) p ≡ some txid) (Option.some-injective (suc k) pos q)
          (position_found txid ts k found)
  ]
]

position_missing : (txid : Txid) (ts : List Txid) → position txid ts ≡ none → All (λ t. t ≢ txid) ts
unfolding position
position_missing txid [] h = tt
position_missing txid (t ∷ ts) h = elim (Bool-cases (t == txid)) [
  | inl same ↦ absurd (ground arith)
  | inr other ↦ elim (Option-cases (position txid ts)) [
    | inl lost ↦ (λ e. ground arith, position_missing txid ts lost)
    | inr (k, found) ↦ absurd (ground arith)
  ]
]

module _ (hash_pair : Hash → Hash → Hash) where
  -- The branch leads this hash at this place to the root of these hashes.
  abbrev pub Proven : List Hash → ℕ → Hash → List Hash → Hash → Type 0
  Proven hashes index leaf branch root =
      (verify hash_pair leaf index branch ≡ root)
      × (root_of hash_pair (suc (length hashes)) hashes ≡ some root)

  -- The answer for a transaction of a stored block is the place of its occurrence with a branch
  -- that proves it there under the root of the block's txids; a block that is not stored and a
  -- block without the transaction are the two errors.
  pub tx_proof :
      (stored : BlockHash → Option (List Txid)) (txid : Txid) (hash : BlockHash)
      → ((stored hash ≡ none)
          × (get_tx_merkle_proof hash_pair stored txid hash ≡ err missing_block_txids))
        ⊎ ((txids : List Txid) × (stored hash ≡ some txids)
            × ((All (λ t. t ≢ txid) txids
                  × (get_tx_merkle_proof hash_pair stored txid hash ≡ err missing_txid))
                ⊎ ((pos : ℕ) × (branch : List Hash) × (root : Hash) × (get_tx_merkle_proof hash_pair
                        stored txid hash
                      ≡ ok (branch, pos))
                    × (get_elem? txids pos ≡ some txid)
                    × Proven txids pos txid branch root)))
  unfolding get_tx_merkle_proof
  tx_proof stored txid hash = elim (Option-cases (stored hash)) [
    | inl gone ↦ inl (gone, rw gone)
    | inr (txids, block) ↦ inr (
      txids,
      block,
      elim (Option-cases (position txid txids)) [
        | inl lost ↦ inl (position_missing txid txids lost, rw (block, lost))
        | inr (pos, place) ↦
            let at = position_found txid txids pos place in
            let (branch, root, done, proved, ref) =
              merkle_branch_proves hash_pair txids pos txid at in
            inr (pos, branch, root, rw (block, place, done), at, (proved, ref))
      ],
    )
  ]
