-- ===== src/Mempool/Orphans.antt =====
-- A broadcast in src/new_index/mempool.rs whose parents are missing.
use splora.Common.{
  ℕ, ◌≡◌, refl, sym, ap, ◌∙◌, inl, inr, true, false, Option, none, some, List, [], ◌∷◌, ◌++◌, ◌==◌,
  >>=-eq-some, if◌then◌else◌, arith, length, Bool-cases,
}
use mathlib.Core.Path.{subst}
use mathlib.Core.Option.{some-injective, none-ne-some}
use splora.Common.Maps.{nat_key, contains_key}
use splora.ChainQuery.{Txid}
use splora.Transactions.{Transaction}
use splora.Mempool.{Mempool, new, unique_txids}
use splora.Common.Lists.{mem?}
use splora.Mempool.Index.{Deps, MempoolError, missing_parents, add, add_by_txid, difference}
use splora.Mempool.Log.{Log, Refines}
use splora.Mempool.Storing.{store_txs-stores}
use splora.Mempool.Adding.{added, add_logged}
use splora.Mempool.Listed.{mem?-keys}
use mathlib.Core.List.{append-nil}

reported :
    {m m' : Mempool} (a : Option MempoolError) (e : MempoolError)
    → ◌≡◌ {A = Mempool × Option MempoolError} (m, none) (m', some e)
    → ⊥
reported a e q = none-ne-some e (ap (λ p. p.1) q)

zero_of : (n : ℕ) → (if n == 0 then some missing_parents else none) ≡ some missing_parents → n ≡ 0
zero_of n h = elim (Bool-cases (n == 0)) [
  | inl z ↦ ground (arith, z)
  | inr nz ↦ absurd (none-ne-some missing_parents (rw nz at h))
]

nil_of_length : (l : Log) → length l ≡ 0 → l ≡ []
nil_of_length [] h = refl
nil_of_length (p ∷ l) h = absurd (omega (arith, h))

difference-mem :
    (t : Txid) (all us : List Txid) → mem? t us ≡ true → mem? t (difference all us) ≡ false
difference-mem t [] us h = refl
difference-mem t (a ∷ all) us h = ground (arith, difference-mem t all us, h)

-- A transaction that a broadcast could not add for a missing parent is stored and not indexed, and
-- stays so: the same broadcast again reports success and changes nothing, whatever outputs are
-- known by then, and while it is stored `update` does not ask for it again.
pub add_by_txid-missing_parents :
    (d : Deps) (m m' : Mempool) (log : Log) (tx : Transaction)
    → Refines m log
    → add_by_txid d m tx.txid (some tx) ≡ some (m', some missing_parents)
    → (contains_key tx.txid m'.txstore ≡ true)
      × Refines m' log
      × ((d' : Deps) (again : Option Transaction)
          → add_by_txid d' m' tx.txid again ≡ some (m', none))
      × ((all : List Txid) → mem? tx.txid (difference all (unique_txids m')) ≡ false)
unfolding add_by_txid
add_by_txid-missing_parents d m m' log tx r h = elim (Bool-cases (contains_key tx.txid m.txstore)) [
  | inl old ↦ absurd (reported none missing_parents (some-injective _ _ (rw old at h)))
  | inr new ↦
      let ((m1, n), a, h1) = >>=-eq-some (add d m (tx ∷ [])) _ (rw new at h) in
      let q =
        some-injective (m1, if n == 0 then some missing_parents else none)
          (m', some missing_parents) h1 in
      let none_added : n ≡ 0 = zero_of n (ap (λ p. p.1) q) in
      let same : m1 ≡ m' = ap (λ p. p.0) q in
      let (m2, e, s, r2, g) = add_logged d m log (tx ∷ []) r in
      let p = some-injective (m2, length (added d m (tx ∷ []))) (m1, n) (sym e ∙ a) in
      let nothing = nil_of_length (added d m (tx ∷ [])) (ap (λ x. x.1) p ∙ none_added) in
      let m2' : m2 ≡ m' = ap (λ x. x.0) p ∙ same in
      let stored : contains_key tx.txid m'.txstore ≡ true =
        ap (λ (k : Mempool). contains_key tx.txid k.txstore) (sym m2')
        ∙ ap (contains_key tx.txid) s
        ∙ (store_txs-stores m.txstore (tx ∷ [])).0 in
      (
        stored,
        subst (λ k. Refines k log) m2'
            (subst (Refines m2) (ap (λ l. log ++ l) nothing ∙ append-nil log) r2),
        λ d' again. rw stored refl,
        λ all. difference-mem tx.txid all (unique_txids m') (mem?-keys tx.txid m'.txstore ∙ stored),
      )
]
