-- ===== src/Merkle.antt =====
-- src/util/electrum_merkle.rs: the Merkle branch and root that Electrum clients are sent. A hash
-- is a number, and `hash_pair` is the double SHA-256 of two concatenated hashes. Indexing past the
-- end is a panic, `none`.
pub mod Proof
pub mod Queries
use splora.Common.{
  ℕ, zero, suc, ◌+◌, ◌-◌, ◌/◌, ◌%◌, ◌≡◌, Bool, true, false, Option, none, some, List, [], ◌∷◌, ◌++◌,
  ◌==◌, ltb, leb, if◌then◌else◌, ◌>>=◌, length, get_elem?, last?, map,
}
use splora.Common.Results.{Outcome, ok, err, panic, or_panic, or_err}

abbrev pub Hash : Type 0
Hash = ℕ

-- `if !hashes.len().is_multiple_of(2) { hashes.push(last) }`
unfoldable pub pad : List Hash → List Hash
pad hashes =
    if length hashes % 2 == 0
    then hashes
    else elim (last? hashes) [ none ↦ hashes | some last ↦ hashes ++ last ∷ [] ]

-- The place of the other hash of the pair.
unfoldable pub sibling : ℕ → ℕ
sibling index = if index % 2 == 0 then index + 1 else index - 1

module _ (hash_pair : Hash → Hash → Hash) where
  -- `hashes.chunks(2).map(|pair| merklize(pair[0], pair[1]))`, which panics on a chunk of one.
  unfoldable pub merge_level : List Hash → Option (List Hash)
  merge_level [] = some []
  merge_level (a ∷ []) = none
  merge_level (a ∷ b ∷ rest) = do tail ← merge_level rest; some (hash_pair a b ∷ tail)

  -- The `while` loop. Each round leaves fewer hashes, so their number bounds the rounds.
  unfoldable pub branch_loop : ℕ → List Hash → ℕ → List Hash → Option (List Hash × Hash)
  unfolding pad sibling merge_level
  branch_loop zero hashes index merkle = none
  branch_loop (suc fuel) hashes index merkle =
      let padded = pad hashes in
      let rest = (do
        sib ← get_elem? padded (sibling index)
        next ← merge_level padded
        branch_loop fuel next (sibling index / 2) (merkle ++ sib ∷ [])) in
      if ltb 1 (length hashes) then rest else (do root ← get_elem? hashes 0; some (merkle, root))

  unfoldable pub create_merkle_branch_and_root : List Hash → ℕ → Option (List Hash × Hash)
  unfolding branch_loop
  create_merkle_branch_and_root hashes index = branch_loop (suc (length hashes)) hashes index []
