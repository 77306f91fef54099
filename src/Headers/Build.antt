-- ===== src/Headers/Build.antt =====
-- `HeaderList::new`: the walk from the tip back to the null hash ends, and what it finds is put
-- together to a well-formed list that ends in the tip.
use mathlib.Core.Option
use mathlib.Core.Path.{subst}
use splora.Common.{
  ℕ, zero, suc, ◌+◌, ◌<◌, ◌≡◌, refl, sym, ap, ◌∙◌, ◌⊎◌, inl, inr, Option-cases, true, false, Option,
  none, some, List, [], ◌∷◌, arith, ◌==◌, ◌>>=◌, Bool-cases, length, take, ==_iff, ◌≢◌,
}
use splora.Common.Maps
use splora.Common.Maps.{Map, nat_key, length-remove-lt, get-remove}
use splora.Headers.{
  BlockHash, BlockHeader, HeaderList, null_hash, linked, number, new_height, order, apply,
  walk_back, new, empty,
}
use splora.Headers.Chained.{end_hash, end_hash-append, end_hash-last_hash}
use splora.Headers.Distinct.{HashLaws}
use splora.Headers.Reorg.{IsValid}
use splora.Headers.Order.{apply-number}

-- The walk meets a hash that the map no longer has.
pub data Missing : Map BlockHash BlockHeader → BlockHash → Type 0 where
  here :
      (m : Map BlockHash BlockHeader) (b : BlockHash)
      → b ≢ null_hash
      → Maps.get b m ≡ none
      → Missing m b
  next :
      (m : Map BlockHash BlockHeader) (b : BlockHash) (h : BlockHeader)
      → b ≢ null_hash
      → Maps.get b m ≡ some h
      → Missing (Maps.remove b m) h.prev_blockhash
      → Missing m b

not_null : (b : BlockHash) → (b == null_hash) ≡ false → b ≢ null_hash
not_null b e = ground arith

-- With more fuel than the map has headers the walk fails only on a missing header.
walk_back-eq-none :
    (f : ℕ) (m : Map BlockHash BlockHeader) (b : BlockHash) (c : List BlockHeader)
    → length m < f
    → walk_back f m b c ≡ none
    → Missing m b
unfolding walk_back
walk_back-eq-none zero m b c room q = absurd (omega arith)
walk_back-eq-none (suc f) m b c room q = elim (Bool-cases (b == null_hash)) [
  | inl done ↦ let r : some c ≡ none = rw done at q in absurd (Option.some-ne-none c r)
  | inr more ↦ elim (Option-cases (Maps.get b m)) [
    | inl lost ↦ here m b (not_null b more) lost
    | inr (h, found) ↦
        let r : walk_back f (Maps.remove b m) h.prev_blockhash (h ∷ c) ≡ none =
          rw (more, found) at q in
        next m b h (not_null b more) found (
          walk_back-eq-none f (Maps.remove b m) h.prev_blockhash (h ∷ c)
            (omega (arith, length-remove-lt b h m found)) r)
  ]
]

module _ (block_hash : BlockHeader → BlockHash) where
  -- Every header stands under its own hash.
  abbrev pub IsKeyed : Map BlockHash BlockHeader → Type 0
  IsKeyed m = (b : BlockHash) (h : BlockHeader) → Maps.get b m ≡ some h → block_hash h ≡ b

  abbrev tip_of : BlockHeader → List BlockHeader → BlockHash
  tip_of h [] = block_hash h
  tip_of h (k ∷ ks) = tip_of k ks

  -- The headers walked so far lead from `b` up to the tip.
  abbrev Walked : BlockHash → BlockHash → List BlockHeader → Type 0
  Walked b tip [] = b ≡ tip
  Walked b tip (h ∷ hs) =
      (h.prev_blockhash ≡ b) × (linked block_hash (h ∷ hs) ≡ true) × (tip_of h hs ≡ tip)

  Walked-cons :
      (b tip : BlockHash) (h : BlockHeader) (c : List BlockHeader)
      → block_hash h ≡ b
      → Walked b tip c
      → Walked h.prev_blockhash tip (h ∷ c)
  unfolding linked
  Walked-cons b tip h [] e w = (refl, refl, e ∙ w)
  Walked-cons b tip h (k ∷ ks) e (back, l, t) = (refl, ground arith, t)

  IsKeyed-remove :
      (b : BlockHash) (m : Map BlockHash BlockHeader) → IsKeyed m → IsKeyed (Maps.remove b m)
  IsKeyed-remove b m keyed d h at = keyed d h (ground (arith, get-remove b d m))

  walk_back-Walked :
      (f : ℕ) (m : Map BlockHash BlockHeader) (b tip : BlockHash) (c chain : List BlockHeader)
      → IsKeyed m
      → Walked b tip c
      → walk_back f m b c ≡ some chain
      → Walked null_hash tip chain
  unfolding walk_back
  walk_back-Walked zero m b tip c chain keyed w q = absurd (Option.none-ne-some chain q)
  walk_back-Walked (suc f) m b tip c chain keyed w q = elim (Bool-cases (b == null_hash)) [
    | inl done ↦
        let r : some c ≡ some chain = rw done at q in
        subst (Walked null_hash tip) (Option.some-injective c chain r)
          (subst (λ x. Walked x tip c) ((==_iff b null_hash).0 done) w)
    | inr more ↦ elim (Option-cases (Maps.get b m)) [
      | inl lost ↦
          let r : none ≡ some chain = rw (more, lost) at q in absurd (Option.none-ne-some chain r)
      | inr (h, found) ↦
          let r : walk_back f (Maps.remove b m) h.prev_blockhash (h ∷ c) ≡ some chain =
            rw (more, found) at q in
          walk_back-Walked f (Maps.remove b m) h.prev_blockhash tip (h ∷ c) chain
            (IsKeyed-remove b m keyed) (Walked-cons b tip h c (keyed b h found) w) r
    ]
  ]

  end_hash-number :
      (p : BlockHash) (n : ℕ) (h : BlockHeader) (hs : List BlockHeader)
      → end_hash p (number block_hash n (h ∷ hs)) ≡ tip_of h hs
  unfolding number
  end_hash-number p n h [] = refl
  end_hash-number p n h (k ∷ ks) = end_hash-number (block_hash h) (suc n) k ks

  new_height_root :
      (h : BlockHeader)
      → h.prev_blockhash ≡ null_hash
      → new_height block_hash empty h.prev_blockhash ≡ some 0
  unfolding new_height
  new_height_root h root = rw ((==_iff h.prev_blockhash null_hash).1 root)

  empty-IsValid : IsValid block_hash empty
  empty-IsValid = record {
    linked = record { chain = tt; indexed = λ i e at. absurd (Option.none-ne-some e at) };
    at_tip = refl;
  }

  -- The call does not panic, and gives a well-formed list with this tip.
  abbrev pub IsBuilt : BlockHash → Option HeaderList → Type 0
  IsBuilt tip o = (l : HeaderList) × (o ≡ some l) × IsValid block_hash l × (l.tip ≡ tip)

module _ (block_hash : BlockHeader → BlockHash) (laws : HashLaws block_hash) where
  assemble :
      (tip : BlockHash) (chain : List BlockHeader)
      → Walked block_hash null_hash tip chain
      → IsBuilt block_hash tip
          (do entries ← order block_hash empty chain; (l, _, _) ← apply empty entries; some l)
  unfolding order
  assemble tip [] w = (empty, unfold apply in refl, empty-IsValid block_hash, w)
  assemble tip (h ∷ hs) (root, link, at) =
      let (l, removed, t, done, v, kept, parts) =
        apply-number block_hash laws empty 0 h hs (empty-IsValid block_hash) link
          (omega arith, root) in
      (
        l,
        rw (link, new_height_root block_hash h root, done),
        v,
        v.at_tip
            ∙ sym (end_hash-last_hash l.headers)
            ∙ ap (end_hash null_hash) parts
            ∙ end_hash-append null_hash (take kept []) (number block_hash 0 (h ∷ hs))
            ∙ end_hash-number block_hash (end_hash null_hash (take kept [])) 0 h hs
            ∙ at,
      )

  -- With every header under its own hash, the fuel of the walk is enough: `new` either returns a
  -- well-formed list whose tip is the given hash, or it panics since the walk met a hash that the
  -- map does not have.
  pub new_total :
      (m : Map BlockHash BlockHeader) (tip : BlockHash)
      → IsKeyed block_hash m
      → IsBuilt block_hash tip (new block_hash m tip)
        ⊎ ((new block_hash m tip ≡ none) × Missing m tip)
  unfolding new
  new_total m tip keyed = elim (Option-cases (walk_back (length m + 1) m tip [])) [
    | inl failed ↦ inr (rw failed, walk_back-eq-none (length m + 1) m tip [] (omega arith) failed)
    | inr (chain, walked) ↦ inl (
        rw walked (
          assemble tip chain
            (walk_back-Walked block_hash (length m + 1) m tip tip [] chain keyed refl walked)))
  ]
