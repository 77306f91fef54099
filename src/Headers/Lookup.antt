-- ===== src/Headers/Lookup.antt =====
-- `header_by_blockhash` and the getters on a well-formed list: exactly the entries of the best
-- chain are found, whatever the index still holds of past reorgs.
use mathlib.Core.Option
use mathlib.Core.Path.{subst}
use splora.Common.{
  ℕ, ◌≡◌, refl, ap, ◌∙◌, ◌↔◌, inl, inr, Option-cases, none, some, arith, ◌==◌, if◌then◌else◌,
  >>=-eq-some, Bool-cases, get_elem?, ==_iff,
}
use splora.Common.Maps
use splora.Common.Maps.{nat_key}
use splora.Headers.{
  BlockHash, BlockHeader, HeaderEntry, HeaderList, null_hash, last_hash, header_by_blockhash,
  header_by_height, get_tip,
}
use splora.Headers.Chained.{Chain-height}
use splora.Headers.Reorg.{IsValid}

-- `e` stands on the best chain at its own height.
abbrev pub OnChain : HeaderList → HeaderEntry → Type 0
OnChain l e = get_elem? l.headers e.height ≡ some e

test_hash :
    (h : BlockHash) (x e : HeaderEntry)
    → (if h == x.hash then some x else none) ≡ some e
    → (x ≡ e) × (e.hash ≡ h)
test_hash h x e q = elim (Bool-cases (h == x.hash)) [
  | inl same ↦ let r : some x ≡ some e = rw same at q in (Option.some-injective x e r, ground arith)
  | inr other ↦ let r : none ≡ some e = rw other at q in absurd (Option.none-ne-some e r)
]

module _ (block_hash : BlockHeader → BlockHash) where
  -- In a well-formed list a hash finds an entry exactly where that entry stands on the best chain
  -- and has that hash: a block that a reorg took off the chain is not found any more.
  pub header_by_blockhash_iff :
      (l : HeaderList) (h : BlockHash) (e : HeaderEntry)
      → IsValid block_hash l
      → (header_by_blockhash l h ≡ some e) ↔ (OnChain l e × (e.hash ≡ h))
  unfolding header_by_blockhash
  header_by_blockhash_iff l h e v =
      (found, λ (at, same). subst (λ b. header_by_blockhash l b ≡ some e) same (back at))
    where
      found : header_by_blockhash l h ≡ some e → OnChain l e × (e.hash ≡ h)
      found q =
          let (k, indexed, r) = >>=-eq-some (Maps.get h l.heights) _ q in
          let (x, at, s) = >>=-eq-some (get_elem? l.headers k) _ r in
          let (same, hash) = test_hash h x e s in
          let at' : get_elem? l.headers k ≡ some e = at ∙ ap some same in
          let high = Chain-height block_hash 0 k null_hash l.headers e v.linked.chain at' in
          let place : k ≡ e.height = omega arith in
          (subst (λ n. get_elem? l.headers n ≡ some e) place at', hash)

      back : OnChain l e → header_by_blockhash l e.hash ≡ some e
      back at = rw (v.linked.indexed e.height e at, at, (==_iff e.hash e.hash).1 refl)

  -- On a well-formed list the getters do not panic: the tip is the hash of the last entry, and
  -- the entry at a height is that of the chain.
  pub getters_total :
      (l : HeaderList) (height : ℕ)
      → IsValid block_hash l
      → (get_tip l ≡ some (last_hash l.headers))
        × (header_by_height l height ≡ some (get_elem? l.headers height))
  unfolding get_tip header_by_height
  getters_total l height v = (
    rw ((==_iff l.tip (last_hash l.headers)).1 v.at_tip) (ap some v.at_tip),
    elim (Option-cases (get_elem? l.headers height)) [
      | inl out ↦ rw (out, header_by_height)
      | inr (e, at) ↦
          let high = Chain-height block_hash 0 height null_hash l.headers e v.linked.chain at in
          rw (at, header_by_height, (==_iff e.height height).1 (omega arith))
    ],
  )
