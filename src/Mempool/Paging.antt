-- ===== src/Mempool/Paging.antt =====
-- Paging through `txids_page` of src/new_index/mempool.rs.
use splora.Common.{
  ℕ, zero, suc, ◌+◌, ◌≤◌, ◌<◌, ◌≡◌, refl, sym, ap, ◌∙◌, inl, inr, false, Option, none, some, List,
  [], ◌∷◌, ◌++◌, ltb, arith, length, take, drop, last?, length-drop, Bool-cases, Option-cases,
  All-take,
}
use mathlib.Core.Path.{subst}
use mathlib.Core.Option.{some-injective, none-ne-some}
use splora.Common.Lists.{All, mem?}
use splora.Common.Sort.{Ascends, sort-Ascends, mem?-sort}
use splora.Common.Maps.{nat_key, contains_key, HasDistinctKeys}
use splora.ChainQuery.{Txid}
use splora.Mempool.{Mempool, keys, txids, beyond, txids_page}
use splora.Mempool.Listed.{keys-AreDistinct, mem?-keys}

-- What a client gathers that asks for `n` ids, then for `n` beyond the last one it got, and so on
-- until a page is empty.
abbrev pub gather : ℕ → Mempool → ℕ → Option Txid → List Txid
gather zero m n start = []
gather (suc rounds) m n start = elim (last? (txids_page m n start)) [
  | none ↦ []
  | some last ↦ txids_page m n start ++ gather rounds m n (some last)
]

All-last : (P : ℕ → Type 0) (l : List ℕ) (t : ℕ) → All P l → last? l ≡ some t → P t
All-last P [] t h e = absurd (none-ne-some t e)
All-last P (x ∷ []) t h e = subst P (some-injective x t e) h.0
All-last P (x ∷ y ∷ l) t h e = All-last P (y ∷ l) t h.1 e

beyond_of_All : (t : ℕ) (l : List ℕ) → All (λ y. t < y) l → beyond (some t) l ≡ l
beyond_of_All t [] h = refl
beyond_of_All t (x ∷ l) h = ground (arith, h.0, beyond_of_All t l h.1)

All-beyond : (t : ℕ) (l : List ℕ) → All (λ y. t < y) (beyond (some t) l)
All-beyond t [] = tt
All-beyond t (x ∷ l) = elim (Bool-cases (ltb t x)) [
  | inl over ↦ rw over (ground (arith, over), All-beyond t l)
  | inr under ↦ rw under (All-beyond t l)
]

All-beyond_of : (P : ℕ → Type 0) (s : Option ℕ) (l : List ℕ) → All P l → All P (beyond s l)
All-beyond_of P none l h = h
All-beyond_of P (some t) [] h = tt
All-beyond_of P (some t) (x ∷ l) h = elim (Bool-cases (ltb t x)) [
  | inl over ↦ rw over (h.0, All-beyond_of P (some t) l h.1)
  | inr under ↦ rw under (All-beyond_of P (some t) l h.1)
]

beyond-Ascends : (s : Option ℕ) (l : List ℕ) → Ascends l → Ascends (beyond s l)
beyond-Ascends none l h = h
beyond-Ascends (some t) [] h = tt
beyond-Ascends (some t) (x ∷ l) h = elim (Bool-cases (ltb t x)) [
  | inl over ↦ rw over (All-beyond_of (λ y. x < y) (some t) l h.0, beyond-Ascends (some t) l h.1)
  | inr under ↦ rw under (beyond-Ascends (some t) l h.1)
]

-- A later bound makes an earlier one superfluous.
beyond-beyond :
    (s t : ℕ) (l : List ℕ) → s ≤ t → beyond (some t) (beyond (some s) l) ≡ beyond (some t) l
beyond-beyond s t [] h = refl
beyond-beyond s t (x ∷ l) h = ground (arith, beyond-beyond s t l h)

-- Beyond the last of the first few are the others.
beyond-last :
    (n t : ℕ) (l : List ℕ)
    → Ascends l
    → last? (take (suc n) l) ≡ some t
    → beyond (some t) l ≡ drop (suc n) l
beyond-last n t [] h e = absurd (none-ne-some t e)
beyond-last zero t (x ∷ l) h e =
    let same : x ≡ t = some-injective x t e in
    let stays = beyond_of_All t l (subst (λ y. All (λ z. y < z) l) same h.0) in
    ground (arith, same, stays)
beyond-last (suc n) t (x ∷ []) h e = let same : x ≡ t = some-injective x t e in ground (arith, same)
beyond-last (suc n) t (x ∷ y ∷ l) h e =
    let lt : x < t =
      All-last (λ z. x < z) (take (suc n) (y ∷ l)) t (All-take (λ z. x < z) (suc n) (y ∷ l) h.0)
        e in
    let under : ltb t x ≡ false = ground (arith, lt) in rw under (beyond-last n t (y ∷ l) h.1 e)

page_grows : (n t : ℕ) (l : List ℕ) → last? (take (suc n) l) ≡ some t → 0 < length l
page_grows n t [] e = absurd (none-ne-some t e)
page_grows n t (x ∷ l) e = omega arith

take-append-drop : (n : ℕ) (l : List ℕ) → take n l ++ drop n l ≡ l
take-append-drop zero l = refl
take-append-drop (suc n) [] = refl
take-append-drop (suc n) (x ∷ l) = ap (◌∷◌ x) (take-append-drop n l)

last?-ne-none : (x : ℕ) (l : List ℕ) → last? (x ∷ l) ≡ none → ⊥
last?-ne-none x [] e = none-ne-some x (sym e)
last?-ne-none x (y ∷ l) e = last?-ne-none y l e

last?-none : (n : ℕ) (l : List ℕ) → last? (take (suc n) l) ≡ none → l ≡ []
last?-none n [] e = refl
last?-none n (x ∷ l) e = absurd (last?-ne-none x (take n l) e)

-- The bound that a page ends with leaves the rest of what the bound before left.
beyond-page :
    (n t : ℕ) (start : Option ℕ) (l : List ℕ)
    → Ascends l
    → last? (take (suc n) (beyond start l)) ≡ some t
    → beyond (some t) l ≡ drop (suc n) (beyond start l)
beyond-page n t none l h e = beyond-last n t l h e
beyond-page n t (some s) l h e =
    let rest = beyond (some s) l in
    let lt : s < t =
      All-last (λ z. s < z) (take (suc n) rest) t
        (All-take (λ z. s < z) (suc n) rest (All-beyond s l)) e in
    sym (beyond-beyond s t l (omega (arith, lt)))
    ∙ beyond-last n t rest (beyond-Ascends (some s) l h) e

-- The two ways of one round.
gather-none :
    (rounds n : ℕ) (m : Mempool) (start : Option Txid)
    → last? (txids_page m n start) ≡ none
    → gather (suc rounds) m n start ≡ []
gather-none rounds n m start e = rw (e, gather) refl

gather-some :
    (rounds n : ℕ) (m : Mempool) (start : Option Txid) (t : Txid)
    → last? (txids_page m n start) ≡ some t
    → gather (suc rounds) m n start ≡ txids_page m n start ++ gather rounds m n (some t)
gather-some rounds n m start t e = rw (e, gather) refl

gather-beyond :
    (rounds n : ℕ) (m : Mempool) (start : Option Txid)
    → Ascends (txids m)
    → length (beyond start (txids m)) < rounds
    → gather rounds m (suc n) start ≡ beyond start (txids m)
unfolding txids_page
gather-beyond zero n m start h f = absurd (omega (arith, f))
gather-beyond (suc rounds) n m start h f =
    let rest = beyond start (txids m) in
    elim (Option-cases (last? (take (suc n) rest))) [
      | inl e ↦ gather-none rounds (suc n) m start e ∙ sym (last?-none n rest e)
      | inr (t, e) ↦
          let next = beyond-page n t start (txids m) h e in
          let shorter : length (beyond (some t) (txids m)) < rounds =
            omega (arith, f, ap length next, length-drop (suc n) rest, page_grows n t rest e) in
          let later = gather-beyond rounds n m (some t) h shorter in
          gather-some rounds (suc n) m start t e
          ∙ ap (λ l. take (suc n) rest ++ l) (later ∙ next)
          ∙ take-append-drop (suc n) rest
    ]

-- A client that asks for pages of at least one id, each beyond the last id of the page before,
-- gathers every stored id, once and in order, in as many rounds as there are ids and one more, when
-- the store does not change meanwhile.
pub gather_all :
    (m : Mempool) (n : ℕ)
    → 0 < n
    → HasDistinctKeys m.txstore
    → (gather (length (txids m) + 1) m n none ≡ txids m)
      × Ascends (txids m)
      × ((t : Txid) → mem? t (txids m) ≡ contains_key t m.txstore)
gather_all m zero p d = absurd (omega (arith, p))
gather_all m (suc n) p d =
    let up = sort-Ascends (keys m.txstore) (keys-AreDistinct m.txstore d) in
    (
      gather-beyond (length (txids m) + 1) n m none up (omega arith),
      up,
      λ t. mem?-sort t (keys m.txstore) ∙ mem?-keys t m.txstore,
    )
