-- ===== src/Merkle/Proof.antt =====
-- The loop ends without panicking, and the branch it returns proves the leaf: hashing the leaf up
-- along the branch gives the root, and this root is the same for every leaf.
use mathlib.Core.Option
use mathlib.Core.List.{append_assoc, append-nil}
use splora.Common.{
  ℕ, zero, suc, ◌+◌, ◌*◌, ◌/◌, ◌%◌, ◌≡◌, ◌≤◌, ◌<◌, refl, sym, ap, ◌∙◌, inl, inr, true, false,
  Option, none, some, List, [], ◌∷◌, ◌++◌, ◌==◌, ltb, if◌then◌else◌, ◌>>=◌, length, get_elem?,
  last?, arith, Bool-cases, >>=-eq-some, ltb→lt, length-append, get_elem?-append_lt, get_elem?-lt,
}
use splora.Merkle.{Hash, pad, sibling, merge_level, branch_loop, create_merkle_branch_and_root}

last?-some : (xs : List Hash) → 0 < length xs → (x : Hash) × (last? xs ≡ some x)
last?-some [] h = absurd (omega arith)
last?-some (x ∷ []) h = (x, refl)
last?-some (x ∷ y ∷ xs) h = last?-some (y ∷ xs) (omega arith)

length-pad :
    (hs : List Hash)
    → (length (pad hs) % 2 ≡ 0) × (length hs ≤ length (pad hs)) × (length (pad hs) ≤ length hs + 1)
unfolding pad
length-pad hs = elim (Bool-cases (length hs % 2 == 0)) [
  | inl even ↦ rw even (ground arith, omega arith, omega arith)
  | inr odd ↦
      let (x, last) = last?-some hs (ground arith) in
      let two : length hs % 2 ≡ 1 = ground arith in
      rw (odd, last)
        (
          omega (arith, length-append hs (x ∷ []), two),
          omega (arith, length-append hs (x ∷ [])),
          omega (arith, length-append hs (x ∷ [])),
        )
]

get_elem?-pad :
    (hs : List Hash) (i : ℕ) (a : Hash) → get_elem? hs i ≡ some a → get_elem? (pad hs) i ≡ some a
unfolding pad
get_elem?-pad hs i a at = elim (Bool-cases (length hs % 2 == 0)) [
  | inl even ↦ rw even at
  | inr odd ↦
      let (x, last) = last?-some hs (omega (arith, get_elem?-lt hs i a at)) in
      rw (odd, last) (get_elem?-append_lt hs (x ∷ []) i (get_elem?-lt hs i a at) ∙ at)
]

sibling_step : (i : ℕ) → sibling (suc (suc i)) ≡ suc (suc (sibling i))
unfolding sibling
sibling_step i = ground arith

sibling-half : (i : ℕ) → sibling i / 2 ≡ i / 2
unfolding sibling
sibling-half i = ground arith

first_of_pair : (ys zs : List Hash) → some zs ≡ some ys → get_elem? ys 0 ≡ get_elem? zs 0
first_of_pair ys zs q = ap (λ l. get_elem? l 0) (sym (Option.some-injective zs ys q))

module _ (hash_pair : Hash → Hash → Hash) where
  next_of_pair :
      (x : Hash) (tail ys : List Hash) (i : ℕ) (leaf s : Hash)
      → (x ∷ tail) ≡ ys
      → get_elem? tail (i / 2) ≡ some (if i % 2 == 0 then hash_pair leaf s else hash_pair s leaf)
      → get_elem? ys (suc (suc i) / 2)
        ≡ some (if suc (suc i) % 2 == 0 then hash_pair leaf s else hash_pair s leaf)
  next_of_pair x tail ys i leaf s same up =
      let half : suc (suc i) / 2 ≡ suc (i / 2) = omega arith in
      let parity : suc (suc i) % 2 ≡ i % 2 = omega arith in rw (← same, half, parity) up

  -- A client hashes the leaf up along the branch; the bits of its index say on which side.
  unfoldable pub verify : Hash → ℕ → List Hash → Hash
  verify leaf index [] = leaf
  verify leaf index (s ∷ branch) =
      verify (if index % 2 == 0 then hash_pair leaf s else hash_pair s leaf) (index / 2) branch

  -- The root of the levels alone, with no branch.
  unfoldable pub root_of : ℕ → List Hash → Option Hash
  root_of zero hs = none
  root_of (suc fuel) hs =
      let rest = (do next ← merge_level hash_pair (pad hs); root_of fuel next) in
      if ltb 1 (length hs) then rest else get_elem? hs 0

  merge_total :
      (xs : List Hash)
      → length xs % 2 ≡ 0
      → (ys : List Hash) × (merge_level hash_pair xs ≡ some ys) × (2 * length ys ≡ length xs)
  unfolding merge_level
  merge_total [] h = ([], refl, refl)
  merge_total (a ∷ []) h = absurd (omega arith)
  merge_total (a ∷ b ∷ rest) h =
      let (ys, done, len) = merge_total rest (omega arith) in
      (hash_pair a b ∷ ys, rw done, omega arith)

  merge_at :
      (xs ys : List Hash) (i : ℕ) (leaf : Hash)
      → merge_level hash_pair xs ≡ some ys
      → get_elem? xs i ≡ some leaf
      → (s : Hash) × (get_elem? xs (sibling i) ≡ some s)
        × (get_elem? ys (i / 2) ≡ some (if i % 2 == 0 then hash_pair leaf s else hash_pair s leaf))
  unfolding merge_level sibling
  merge_at [] ys i leaf m at = absurd (Option.none-ne-some leaf at)
  merge_at (a ∷ []) ys i leaf m at = absurd (Option.none-ne-some ys m)
  merge_at (a ∷ b ∷ rest) ys zero leaf m at =
      let (tail, _, q) = >>=-eq-some (merge_level hash_pair rest) _ m in
      (
        b,
        refl,
        first_of_pair ys (hash_pair a b ∷ tail) q
            ∙ ap (λ x. some (hash_pair x b)) (Option.some-injective a leaf at),
      )
  merge_at (a ∷ b ∷ rest) ys (suc zero) leaf m at =
      let (tail, _, q) = >>=-eq-some (merge_level hash_pair rest) _ m in
      (
        a,
        refl,
        first_of_pair ys (hash_pair a b ∷ tail) q
            ∙ ap (λ x. some (hash_pair a x)) (Option.some-injective b leaf at),
      )
  merge_at (a ∷ b ∷ rest) ys (suc (suc i)) leaf m at =
      let (tail, merged, q) = >>=-eq-some (merge_level hash_pair rest) _ m in
      let (s, sib, up) = merge_at rest tail i leaf merged at in
      (
        s,
        rw (sibling_step i) sib,
        next_of_pair (hash_pair a b) tail ys i leaf s
            (Option.some-injective (hash_pair a b ∷ tail) ys q) up,
      )

  -- The loop returns a branch that leads the leaf to the root of the levels.
  abbrev Proves : ℕ → List Hash → ℕ → List Hash → Hash → Type 0
  Proves fuel hs i merkle leaf =
      (branch : List Hash) × (root : Hash) × (branch_loop hash_pair fuel hs i merkle
        ≡ some (merkle ++ branch, root))
      × (verify leaf i branch ≡ root)
      × (root_of fuel hs ≡ some root)

  loop_step :
      (fuel : ℕ) (hs next : List Hash) (i : ℕ) (merkle : List Hash) (leaf s : Hash)
      → ltb 1 (length hs) ≡ true
      → get_elem? (pad hs) (sibling i) ≡ some s
      → merge_level hash_pair (pad hs) ≡ some next
      → Proves fuel next
          (i / 2)
          (merkle ++ s ∷ [])
          (if i % 2 == 0 then hash_pair leaf s else hash_pair s leaf)
      → Proves (suc fuel) hs i merkle leaf
  unfolding branch_loop verify root_of
  loop_step fuel hs next i merkle leaf s more sib merged (branch, root, done, proved, ref) = (
    s ∷ branch,
    root,
    rw (more, sib, merged, sibling-half i)
        (done ∙ ap (λ b. some (b, root)) (append_assoc merkle (s ∷ []) branch)),
    proved,
    rw (more, merged) ref,
  )

  loop_last :
      (fuel : ℕ) (hs : List Hash) (i : ℕ) (merkle : List Hash) (leaf : Hash)
      → ltb 1 (length hs) ≡ false
      → get_elem? hs i ≡ some leaf
      → Proves (suc fuel) hs i merkle leaf
  unfolding branch_loop verify root_of
  loop_last fuel [] i merkle leaf last at = absurd (Option.none-ne-some leaf at)
  loop_last fuel (x ∷ []) zero merkle leaf last at = ([], leaf, cc (append-nil merkle), refl, at)
  loop_last fuel (x ∷ []) (suc i) merkle leaf last at = absurd (Option.none-ne-some leaf at)
  loop_last fuel (x ∷ y ∷ hs) i merkle leaf last at = absurd (ground arith)

  loop_lem :
      (fuel : ℕ) (hs : List Hash) (i : ℕ) (merkle : List Hash) (leaf : Hash)
      → length hs < fuel
      → get_elem? hs i ≡ some leaf
      → Proves fuel hs i merkle leaf
  loop_lem zero hs i merkle leaf room at = absurd (omega arith)
  loop_lem (suc fuel) hs i merkle leaf room at = elim (Bool-cases (ltb 1 (length hs))) [
    | inl more ↦
        let (even, low, high) = length-pad hs in
        let (next, merged, len) = merge_total (pad hs) even in
        let (s, sib, up) = merge_at (pad hs) next i leaf merged (get_elem?-pad hs i leaf at) in
        loop_step fuel hs next i merkle leaf s more sib merged (
          loop_lem fuel next (i / 2) (merkle ++ s ∷ []) _
            (omega (arith, ltb→lt 1 (length hs) more, len, high)) up)
    | inr last ↦ loop_last fuel hs i merkle leaf last at
  ]

  -- For every place of a list of hashes, the code returns a branch and a root without panicking:
  -- the hash at this place, hashed up along the branch by the bits of its place, gives the root,
  -- and this is the root of the list, computed by levels, the same one for every place.
  pub merkle_branch_proves :
      (hashes : List Hash) (index : ℕ) (leaf : Hash)
      → get_elem? hashes index ≡ some leaf
      → (branch : List Hash) × (root : Hash) × (create_merkle_branch_and_root hash_pair hashes index
          ≡ some (branch, root))
        × (verify leaf index branch ≡ root)
        × (root_of (suc (length hashes)) hashes ≡ some root)
  unfolding create_merkle_branch_and_root
  merkle_branch_proves hashes index leaf at =
      loop_lem (suc (length hashes)) hashes index [] leaf (omega arith) at
