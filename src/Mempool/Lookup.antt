-- ===== src/Mempool/Lookup.antt =====
-- `lookup_txos` of src/new_index/mempool.rs finds a confirmed output or that of a stored transaction.
use splora.Common.{
  ◌≡◌, ◌≢◌, refl, sym, ap, ◌∙◌, inl, inr, true, false, none, some, List, [], ◌∷◌, Option-cases,
  Bool-cases,
}
use mathlib.Core.Option.{none-ne-some}
use splora.Common.Lists.{IsIn, IsIn-tail}
use splora.Common.Maps
use splora.Common.Maps.{
  Map, nat_key, contains_key, HasDistinctKeys, get-insert, get-insert_self, get-insert_other,
  insert-HasDistinctKeys,
}
use splora.ChainQuery.{Txid}
use splora.ChainQuery.Utxos.{OutPoint, out_point_key, OutPoint-discrete}
use splora.Transactions.{TxOut, Transaction}
use splora.Mempool.Index.{Deps, lookup_avail_txos, extend_txos, mempool_txo, lookup_txos}
use splora.Mempool.Log.{prevout_of}

avail-none :
    (d : Deps) (o : OutPoint) (os : List OutPoint)
    → d.confirmed o ≡ none
    → Maps.get o (lookup_avail_txos d os) ≡ none
unfolding Maps.get
avail-none d o [] e = refl
avail-none d o (p ∷ os) e = elim (Option-cases (d.confirmed p)) [
  | inl unconfirmed ↦ rw (unconfirmed, lookup_avail_txos) (avail-none d o os e)
  | inr (txo, c) ↦
      let other : o ≢ p = λ q. none-ne-some txo (sym e ∙ ap d.confirmed q ∙ c) in
      rw (c, lookup_avail_txos)
        (get-insert_other p o txo (lookup_avail_txos d os) other ∙ avail-none d o os e)
]

get-avail :
    (d : Deps) (o : OutPoint) (os : List OutPoint)
    → IsIn o os
    → Maps.get o (lookup_avail_txos d os) ≡ d.confirmed o
get-avail d o [] i = absurd i
get-avail d o (p ∷ os) i = elim (OutPoint-discrete o p) [
  | yes q ↦ elim (Option-cases (d.confirmed p)) [
    | inl unconfirmed ↦
        let e = ap d.confirmed q ∙ unconfirmed in
        rw (unconfirmed, lookup_avail_txos) (avail-none d o os e ∙ sym e)
    | inr (txo, c) ↦
        rw (c, lookup_avail_txos)
          (get-insert_self p o txo (lookup_avail_txos d os) q ∙ sym (ap d.confirmed q ∙ c))
  ]
  | no n ↦
      let rest = get-avail d o os (IsIn-tail o p os (λ e. n (sym e)) i) in
      elim (Option-cases (d.confirmed p)) [
        | inl unconfirmed ↦ rw (unconfirmed, lookup_avail_txos) rest
        | inr (txo, c) ↦
            rw (c, lookup_avail_txos) (get-insert_other p o txo (lookup_avail_txos d os) n ∙ rest)
      ]
]

module _ (store : Map Txid Transaction) (confirmed : Map OutPoint TxOut) where
  extend-known :
      (p : OutPoint) (os : List OutPoint)
      → contains_key p confirmed ≡ true
      → extend_txos store confirmed (p ∷ os) ≡ extend_txos store confirmed os
  extend-known p os c = rw c refl

  extend-missing :
      (p : OutPoint) (os : List OutPoint)
      → contains_key p confirmed ≡ false
      → mempool_txo store p ≡ none
      → extend_txos store confirmed (p ∷ os) ≡ extend_txos store confirmed os
  extend-missing p os c e = rw c (rw (e, extend_txos) refl)

  extend-found :
      (p : OutPoint) (os : List OutPoint) (txo : TxOut)
      → contains_key p confirmed ≡ false
      → mempool_txo store p ≡ some txo
      → extend_txos store confirmed (p ∷ os) ≡ Maps.insert p txo (extend_txos store confirmed os)
  extend-found p os txo c e = rw c (rw (e, extend_txos) refl)

  -- What one more outpoint does to the lookup of another.
  extend-other :
      (o p : OutPoint) (os : List OutPoint)
      → o ≢ p
      → Maps.get o (extend_txos store confirmed (p ∷ os))
        ≡ Maps.get o (extend_txos store confirmed os)
  extend-other o p os n = elim (Bool-cases (contains_key p confirmed)) [
    | inl known ↦ ap (Maps.get o) (extend-known p os known)
    | inr new ↦ elim (Option-cases (mempool_txo store p)) [
      | inl e ↦ ap (Maps.get o) (extend-missing p os new e)
      | inr (txo, e) ↦
          ap (Maps.get o) (extend-found p os txo new e)
          ∙ get-insert_other p o txo (extend_txos store confirmed os) n
    ]
  ]

  extend-kept :
      (o : OutPoint) (os : List OutPoint) (v : TxOut)
      → Maps.get o confirmed ≡ some v
      → Maps.get o (extend_txos store confirmed os) ≡ some v
  extend-kept o [] v e = e
  extend-kept o (p ∷ os) v e = elim (OutPoint-discrete o p) [
    | yes q ↦
        let c : contains_key p confirmed ≡ true =
          rw (sym (ap (λ x. Maps.get x confirmed) q) ∙ e, contains_key) refl in
        ap (Maps.get o) (extend-known p os c) ∙ extend-kept o os v e
    | no n ↦ extend-other o p os n ∙ extend-kept o os v e
  ]

  extend-none :
      (o : OutPoint) (os : List OutPoint)
      → Maps.get o confirmed ≡ none
      → mempool_txo store o ≡ none
      → Maps.get o (extend_txos store confirmed os) ≡ none
  extend-none o [] e m = e
  extend-none o (p ∷ os) e m = elim (OutPoint-discrete o p) [
    | yes q ↦
        let c : contains_key p confirmed ≡ false =
          rw (sym (ap (λ x. Maps.get x confirmed) q) ∙ e, contains_key) refl in
        ap (Maps.get o) (extend-missing p os c (sym (ap (mempool_txo store) q) ∙ m))
        ∙ extend-none o os e m
    | no n ↦ extend-other o p os n ∙ extend-none o os e m
  ]

  get-extend :
      (o : OutPoint) (os : List OutPoint)
      → Maps.get o confirmed ≡ none
      → IsIn o os
      → Maps.get o (extend_txos store confirmed os) ≡ mempool_txo store o
  get-extend o [] e i = absurd i
  get-extend o (p ∷ os) e i = elim (OutPoint-discrete o p) [
    | yes q ↦
        let c : contains_key p confirmed ≡ false =
          rw (sym (ap (λ x. Maps.get x confirmed) q) ∙ e, contains_key) refl in
        elim (Option-cases (mempool_txo store o)) [
          | inl m ↦ extend-none o (p ∷ os) e m ∙ sym m
          | inr (txo, m) ↦
              ap (Maps.get o) (extend-found p os txo c (sym (ap (mempool_txo store) q) ∙ m))
              ∙ get-insert_self p o txo (extend_txos store confirmed os) q
              ∙ sym m
        ]
    | no n ↦ extend-other o p os n ∙ get-extend o os e (IsIn-tail o p os (λ x. n (sym x)) i)
  ]

-- Each outpoint that is asked for is found as the specification says.
pub get-lookup_txos :
    (d : Deps) (store : Map Txid Transaction) (o : OutPoint) (os : List OutPoint)
    → IsIn o os
    → Maps.get o (lookup_txos d store os) ≡ prevout_of d store o
unfolding lookup_txos
get-lookup_txos d store o os i = elim (Option-cases (d.confirmed o)) [
  | inl e ↦
      get-extend store (lookup_avail_txos d os) o os (get-avail d o os i ∙ e) i
      ∙ rw (e, prevout_of) refl
  | inr (txo, e) ↦
      extend-kept store (lookup_avail_txos d os) o os txo (get-avail d o os i ∙ e)
      ∙ rw (e, prevout_of) refl
]
