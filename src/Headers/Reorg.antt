-- ===== src/Headers/Reorg.antt =====
-- `apply` on a well-formed list: it never panics on a chain that continues a kept part, it
-- returns what it rolled back, and every result is well formed.
use mathlib.Core.Path.{subst}
use splora.Common.{
  ℕ, zero, suc, ◌≤◌, ◌<◌, ◌≡◌, refl, sym, ap, ◌∙◌, ◌⊎◌, inl, inr, true, some, List, [], ◌∷◌, ◌++◌,
  reverse, arith, leb, ◌==◌, length, get_elem?, take, drop, length-take, length-append,
  get_elem?-take_lt, get_elem?-lt, le→leb, All, ==_iff, get_elem?-some, get_elem?-append_end,
}
use mathlib.Core.List.{append-nil, append_assoc}
use splora.Common.Maps
use splora.Common.Maps.{Map, nat_key, get-insert}
use splora.Headers.{
  BlockHash, BlockHeader, HeaderEntry, HeaderList, null_hash, last_hash, adjacent, expected_prev,
  push_header, push_headers, rollback_tip, apply,
}
use splora.Headers.Chained.{
  Chain, Chain-append, Chain-take, end_hash, end_hash-last_hash, end_hash-append,
}
use splora.Headers.Distinct.{HashLaws, hashes_distinct}

-- Every entry of the list is found by its hash. The index may hold more, of past reorgs.
abbrev pub IsIndexed : Map BlockHash ℕ → List HeaderEntry → Type 0
IsIndexed heights headers =
    (i : ℕ) (e : HeaderEntry) → get_elem? headers i ≡ some e → Maps.get e.hash heights ≡ some i

module _ (block_hash : BlockHeader → BlockHash) where
  pub record IsLinked (l : HeaderList) : Type 0 where
    pub chain : Chain block_hash 0 null_hash l.headers
    pub indexed : IsIndexed l.heights l.headers

  pub record IsValid (l : HeaderList) : Type 0 where
    pub linked : IsLinked l
    pub at_tip : l.tip ≡ last_hash l.headers

get_elem?-append_one :
    (xs : List HeaderEntry) (x e : HeaderEntry) (i : ℕ)
    → get_elem? (xs ++ x ∷ []) i ≡ some e
    → (get_elem? xs i ≡ some e) ⊎ ((i ≡ length xs) × (x ≡ e))
get_elem?-append_one [] x e zero h = inr (refl, ground arith)
get_elem?-append_one [] x e (suc i) h = cc
get_elem?-append_one (y ∷ xs) x e zero h = inl h
get_elem?-append_one (y ∷ xs) x e (suc i) h = elim (get_elem?-append_one xs x e i h) [
  | inl old ↦ inl old
  | inr (at, same) ↦ inr (ap suc at, same)
]

-- A chain passes the assertions on neighbours.
Chain-adjacent :
    (block_hash : BlockHeader → BlockHash) (i : ℕ) (p : BlockHash) (es : List HeaderEntry)
    → Chain block_hash i p es
    → adjacent es ≡ true
unfolding adjacent
Chain-adjacent bh i p [] h = refl
Chain-adjacent bh i p (a ∷ []) h = refl
Chain-adjacent bh i p (a ∷ b ∷ es) (high, hash, prev, rest) =
    ground (arith, Chain-adjacent bh (suc i) a.hash (b ∷ es) rest, rest.0, rest.2)

pub end_hash-take :
    (p : BlockHash) (n : ℕ) (xs : List HeaderEntry) (e : HeaderEntry)
    → get_elem? xs n ≡ some e
    → end_hash p (take (suc n) xs) ≡ e.hash
end_hash-take p n [] e h = cc
end_hash-take p zero (x ∷ xs) e h = ground arith
end_hash-take p (suc n) (x ∷ xs) e h = end_hash-take x.hash n xs e h

expected_prev-take :
    (l : HeaderList) (h : ℕ)
    → h ≤ length l.headers
    → expected_prev l h ≡ some (end_hash null_hash (take h l.headers))
unfolding expected_prev
expected_prev-take l zero h = refl
expected_prev-take l (suc n) h =
    let (e, at) = get_elem?-some l.headers n h in
    rw at (ap some (sym (end_hash-take null_hash n l.headers e at)))

length_one :
    (xs ys : List HeaderEntry) (e : HeaderEntry) → ys ≡ xs ++ e ∷ [] → length ys ≡ suc (length xs)
length_one xs ys e h = rw h (omega (arith, length-append xs (e ∷ [])))

end_one :
    (xs ys : List HeaderEntry) (e : HeaderEntry)
    → ys ≡ xs ++ e ∷ []
    → end_hash null_hash ys ≡ e.hash
end_one xs ys e h = rw h (end_hash-append null_hash xs (e ∷ []))

module _ (block_hash : BlockHeader → BlockHash) (laws : HashLaws block_hash) where
  insert-IsIndexed :
      (heights : Map BlockHash ℕ) (xs : List HeaderEntry) (x : HeaderEntry)
      → Chain block_hash 0 null_hash (xs ++ x ∷ [])
      → x.height ≡ length xs
      → IsIndexed heights xs
      → IsIndexed (Maps.insert x.hash x.height heights) (xs ++ x ∷ [])
  insert-IsIndexed heights xs x chain high old i e at = elim (get_elem?-append_one xs x e i at) [
    | inl before ↦ ground (
      arith,
      get-insert x.hash e.hash x.height heights,
      old i e before,
      get_elem?-lt xs i e before,
      hashes_distinct block_hash laws (xs ++ x ∷ []) i (length xs) e x chain at
          (get_elem?-append_end xs x),
    )
    | inr (here, same) ↦ ground (arith, get-insert x.hash e.hash x.height heights)
  ]

  push_lem :
      (l : HeaderList) (e : HeaderEntry)
      → IsLinked block_hash l
      → Chain block_hash (length l.headers) (end_hash null_hash l.headers) (e ∷ [])
      → (l' : HeaderList) × (push_header l e ≡ some l')
        × IsLinked block_hash l'
        × (l'.headers ≡ l.headers ++ e ∷ [])
        × (l'.tip ≡ e.hash)
  unfolding push_header
  push_lem l e v h =
      let whole =
        Chain-append block_hash 0 (length l.headers) null_hash l.headers (e ∷ []) (omega arith)
          v.chain h in
      (
        record {
          headers = l.headers ++ e ∷ [];
          heights = Maps.insert e.hash e.height l.heights;
          tip = e.hash;
        },
        rw ((==_iff e.height (length l.headers)).1 h.0),
        record {
          chain = whole;
          indexed = insert-IsIndexed l.heights l.headers e whole h.0 v.indexed;
        },
        refl,
        refl,
      )

  push_headers_lem :
      (es : List HeaderEntry) (l : HeaderList)
      → IsLinked block_hash l
      → Chain block_hash (length l.headers) (end_hash null_hash l.headers) es
      → (l' : HeaderList) × (push_headers l es ≡ some l')
        × IsLinked block_hash l'
        × (l'.headers ≡ l.headers ++ es)
        × (l'.tip ≡ end_hash l.tip es)
  unfolding push_headers
  push_headers_lem [] l v h = (l, refl, v, sym (append-nil l.headers), refl)
  push_headers_lem (e ∷ es) l v (a, b, c, rest) =
      let (m, pushed, v', hs, tip) = push_lem l e v (a, b, c, tt) in
      let (l', done, v'', hs', tip') =
        push_headers_lem es m v'
          (rw (length_one l.headers m.headers e hs, end_one l.headers m.headers e hs) rest) in
      (
        l',
        rw pushed done,
        v'',
        hs' ∙ ap (λ xs. xs ++ es) hs ∙ append_assoc l.headers (e ∷ []) es,
        tip' ∙ ap (λ p. end_hash p es) tip,
      )

  adjacent-Chain :
      (p : BlockHash) (e : HeaderEntry) (es : List HeaderEntry)
      → adjacent (e ∷ es) ≡ true
      → All (λ x. x.hash ≡ block_hash x.header) (e ∷ es)
      → e.header.prev_blockhash ≡ p
      → Chain block_hash e.height p (e ∷ es)
  unfolding adjacent
  adjacent-Chain p e [] h (he, _) c = (refl, he, c, tt)
  adjacent-Chain p e (f ∷ es) h (he, hes) c =
      let up : f.height ≡ suc e.height = ground arith in
      let back : f.header.prev_blockhash ≡ e.hash = ground arith in
      let rest = adjacent-Chain e.hash f es (ground arith) hes back in
      (refl, he, c, subst (λ n. Chain block_hash n e.hash (f ∷ es)) up rest)

  take-IsLinked :
      (l : HeaderList) (h : ℕ)
      → IsLinked block_hash l
      → IsLinked block_hash (record l { headers = take h l.headers })
  take-IsLinked l h v = record {
    chain = Chain-take block_hash h 0 null_hash l.headers v.chain;
    indexed = λ i e at.
        let fits : i < h =
          omega (arith, get_elem?-lt (take h l.headers) i e at, length-take h l.headers) in
        v.indexed i e (sym (get_elem?-take_lt h l.headers i fits) ∙ at);
  }

  apply_steps :
      (l l' : HeaderList) (e : HeaderEntry) (es : List HeaderEntry) (p : BlockHash)
      → adjacent (e ∷ es) ≡ true
      → expected_prev l e.height ≡ some p
      → (e.header.prev_blockhash == p) ≡ true
      → leb e.height (length l.headers) ≡ true
      → push_headers (record l { headers = take e.height l.headers }) (e ∷ es) ≡ some l'
      → apply l (e ∷ es)
        ≡ some (
          l',
          reverse (drop e.height l.headers),
          rollback_tip (take e.height l.headers) (drop e.height l.headers),
        )
  unfolding apply
  apply_steps l l' e es p adj exp prev fits pushed = rw (adj, exp, prev, fits, pushed)

  -- On a well-formed list, `apply` never panics on a chain that continues a kept part of it: it
  -- keeps the entries below the first new height and appends the chain, returns the other entries
  -- with the old tip first, and, where there are any, the hash of the last kept entry; the new
  -- list is well formed, so its tip is the last new hash.
  pub apply_reorg :
      (l : HeaderList) (e : HeaderEntry) (es : List HeaderEntry)
      → IsValid block_hash l
      → e.height ≤ length l.headers
      → Chain block_hash e.height (end_hash null_hash (take e.height l.headers)) (e ∷ es)
      → (l' : HeaderList) × (apply l (e ∷ es)
          ≡ some (
            l',
            reverse (drop e.height l.headers),
            rollback_tip (take e.height l.headers) (drop e.height l.headers),
          ))
        × (l'.headers ≡ take e.height l.headers ++ e ∷ es)
        × IsValid block_hash l'
  apply_reorg l e es v fits chain =
      let kept = take e.height l.headers in
      let full : length kept ≡ e.height = omega (arith, length-take e.height l.headers) in
      let (l', pushed, linked, hs, tip) =
        push_headers_lem (e ∷ es) (record l { headers = kept }) (take-IsLinked l e.height v.linked)
          (rw full chain) in
      (
        l',
        apply_steps l l' e es (end_hash null_hash kept)
            (Chain-adjacent block_hash e.height (end_hash null_hash kept) (e ∷ es) chain)
            (expected_prev-take l e.height fits) ((==_iff e.header.prev_blockhash _).1 chain.2)
            (le→leb e.height (length l.headers) fits) pushed,
        hs,
        record {
          linked = linked;
          at_tip =
              tip
              ∙ sym (end_hash-append null_hash kept (e ∷ es))
              ∙ ap (end_hash null_hash) (sym hs)
              ∙ end_hash-last_hash l'.headers;
        },
      )
