-- ===== src/Headers/Order.antt =====
-- `order` numbers a run of raw headers; whatever it accepts, `apply` accepts, and the updated list
-- is well formed with the last header at its tip.
use mathlib.Core.Option
use mathlib.Core.List.{append-nil}
use mathlib.Core.Path.{subst}
use splora.Common.{
  ℕ, suc, ◌+◌, ◌≤◌, ◌≡◌, refl, sym, ◌∙◌, inl, inr, Option-cases, true, Option, none, some, List, [],
  ◌∷◌, ◌++◌, arith, ◌==◌, >>=-eq-some, Bool-cases, length, take, ==_iff, take_of_length-le,
  get_elem?-lt, assert, assert-eq-some,
}
use splora.Headers.{
  BlockHash, BlockHeader, HeaderEntry, HeaderList, null_hash, header_by_blockhash, linked, number,
  new_height, order, apply,
}
use splora.Headers.Chained.{Chain, end_hash}
use splora.Headers.Distinct.{HashLaws}
use splora.Headers.Reorg.{IsValid, end_hash-take, apply_reorg}
use splora.Headers.Lookup.{header_by_blockhash_iff}

module _ (block_hash : BlockHeader → BlockHash) where
  pub number-Chain :
      (i : ℕ) (h : BlockHeader) (hs : List BlockHeader)
      → linked block_hash (h ∷ hs) ≡ true
      → Chain block_hash i h.prev_blockhash (number block_hash i (h ∷ hs))
  unfolding linked number
  number-Chain i h [] l = (refl, refl, refl, tt)
  number-Chain i h (k ∷ hs) l =
      let back : k.prev_blockhash ≡ block_hash h = ground arith in
      let rest = number-Chain (suc i) k hs (ground arith) in
      (refl, refl, refl, (refl, refl, back, rest.3))

  new_height_lem :
      (l : HeaderList) (prev : BlockHash) (n : ℕ)
      → IsValid block_hash l
      → new_height block_hash l prev ≡ some n
      → (n ≤ length l.headers) × (prev ≡ end_hash null_hash (take n l.headers))
  unfolding new_height
  new_height_lem l prev n v q = elim (Bool-cases (prev == null_hash)) [
    | inl root ↦
        let r : some 0 ≡ some n = rw root at q in
        let zero_n = Option.some-injective 0 n r in
        subst (λ m. (m ≤ length l.headers) × (prev ≡ end_hash null_hash (take m l.headers))) zero_n
          (omega arith, (==_iff prev null_hash).0 root)
    | inr linked ↦ elim (Option-cases (header_by_blockhash l prev)) [
      | inl lost ↦
          let r : none ≡ some n = rw (linked, lost) at q in absurd (Option.none-ne-some n r)
      | inr (e, found) ↦
          let r : some (e.height + 1) ≡ some n = rw (linked, found) at q in
          let next : suc e.height ≡ n = omega (arith, Option.some-injective (e.height + 1) n r) in
          let (at, hash) = (header_by_blockhash_iff block_hash l prev e v).0 found in
          subst (λ m. (m ≤ length l.headers) × (prev ≡ end_hash null_hash (take m l.headers))) next
            (
              get_elem?-lt l.headers e.height e at,
              sym hash ∙ sym (end_hash-take null_hash e.height l.headers e at),
            )
    ]
  ]

-- `apply` does not panic on these entries, and leaves a well-formed list that ends in them.
abbrev pub Accepts : (BlockHeader → BlockHash) → HeaderList → List HeaderEntry → Type 0
Accepts block_hash l es =
    (l' : HeaderList) × (removed : List HeaderEntry) × (tip : Option BlockHash) × (apply l es
      ≡ some (l', removed, tip))
    × IsValid block_hash l'
    × (kept : ℕ) × (l'.headers ≡ take kept l.headers ++ es)

module _ (block_hash : BlockHeader → BlockHash) (laws : HashLaws block_hash) where
  pub apply-number :
      (l : HeaderList) (n : ℕ) (h : BlockHeader) (hs : List BlockHeader)
      → IsValid block_hash l
      → linked block_hash (h ∷ hs) ≡ true
      → (n ≤ length l.headers) × (h.prev_blockhash ≡ end_hash null_hash (take n l.headers))
      → Accepts block_hash l (number block_hash n (h ∷ hs))
  unfolding number
  apply-number l n h hs v link (fits, prev) =
      let e : HeaderEntry = record { height = n; hash = block_hash h; header = h } in
      let chain =
        subst (λ p. Chain block_hash n p (number block_hash n (h ∷ hs))) prev
          (number-Chain block_hash n h hs link) in
      let (l', done, hs', v') =
        apply_reorg block_hash laws l e (number block_hash (suc n) hs) v fits chain in
      (l', _, _, done, v', n, hs')

  -- On a well-formed list, whatever run of raw headers `order` accepts, `apply` accepts: it does
  -- not panic, and the new list is well formed and ends in exactly the ordered entries.
  pub apply-order :
      (l : HeaderList) (raw : List BlockHeader) (es : List HeaderEntry)
      → IsValid block_hash l
      → order block_hash l raw ≡ some es
      → Accepts block_hash l es
  unfolding order apply
  apply-order l [] es v q =
      let same = Option.some-injective [] es q in
      subst (Accepts block_hash l) same (
        l,
        [],
        none,
        refl,
        v,
        length l.headers,
        sym (
            append-nil (take (length l.headers) l.headers)
            ∙ take_of_length-le (length l.headers) l.headers (omega arith)),
      )
  apply-order l (h ∷ hs) es v q =
      let (u, checked, r) = >>=-eq-some (assert (linked block_hash (h ∷ hs))) _ q in
      let (n, found, s) = >>=-eq-some (new_height block_hash l h.prev_blockhash) _ r in
      subst (Accepts block_hash l) (Option.some-injective (number block_hash n (h ∷ hs)) es s) (
        apply-number l n h hs v (assert-eq-some (linked block_hash (h ∷ hs)) checked)
          (new_height_lem block_hash l h.prev_blockhash n v found))
