-- ===== src/Indexer/Keeping.antt =====
-- src/new_index/schema.rs: what every part of `update` keeps, `update` keeps, errors included, and so
-- does any number of updates.
use splora.Common.{
  ℕ, ◌≡◌, ap, inl, inr, Option, none, some, List, [], ◌∷◌, ◌==◌, >>=-eq-some, assert, Option-cases,
}
use mathlib.Core.Path.{subst}
use mathlib.Core.Option.{some-injective}
use splora.Common.Maps
use splora.Common.Maps.{Map}
use splora.Headers.{BlockHash, BlockHeader, HeaderEntry, HeaderList, order, apply, get_tip}
use splora.Indexer.{BlockEntry, IndexerConfig, TxStoreValue, tip, tip_key, tx_store_key, CacheKey}
use splora.Indexer.Updating.{
  IndexError, Daemon, headers_to_add, headers_to_index, reorg, roll_back, index_new, roll_forward,
  update, get_new_headers,
}
use splora.Indexer.Writing.{
  Store, Operation, adding, deleting, deleting_with_history, index_all, add_all, drop_caches,
}
use splora.Indexer.Forward.{FetchLaw}

-- The store after `update` was called any number of times, whatever the calls returned.
pub data Updates (block_hash : BlockHeader → BlockHash) (c : IndexerConfig) (st : Store)
    : Store → Type 0 where
  here : Updates block_hash c st st
  next :
      (d : Daemon) {st1 st2 : Store} {e : Option IndexError}
      → Updates block_hash c st st1
      → FetchLaw d
      → update block_hash c d st1 ≡ some (st2, e)
      → Updates block_hash c st st2

-- The parts of an update keep `R`, which is between the store before and the store after.
pub record IsKept (c : IndexerConfig) (d : Daemon) (R : Store → Store → Type 0) : Type 0 where
  pub same : (st : Store) → R st st
  pub trans : (a b c : Store) → R a b → R b c → R a c
  pub deleted :
      (st st' : Store) (batches : List (List BlockEntry)) (scripts : List ℕ)
      → index_all c deleting_with_history st batches ≡ some (st', scripts)
      → R st st'
  pub indexed :
      (st st' : Store) (es : List HeaderEntry) (batches : List (List BlockEntry)) (scripts : List ℕ)
      → d.fetch (headers_to_index st es) ≡ some batches
      → index_all c adding st batches ≡ some (st', scripts)
      → R st st'
  pub stored :
      (op : Operation) (st : Store) (batches : List (List BlockEntry))
      → R st (add_all c op st batches)
  pub tipped :
      (st : Store) (v : TxStoreValue)
      → R st (record st { txstore = Maps.insert tip_key v st.txstore })
  pub untipped : (st : Store) → R st (record st { txstore = Maps.remove tip_key st.txstore })
  pub dropped : (st : Store) (cache : Map CacheKey (List ℕ)) → R st (record st { cache = cache })
  pub renamed : (st : Store) (headers : HeaderList) → R st (record st { indexed_headers = headers })

returned :
    {st st' : Store} {e e' : Option IndexError}
    → ◌≡◌ {A = Option (Store × Option IndexError)} (some (st, e)) (some (st', e'))
    → st ≡ st'
returned {st} {st'} {e} {e'} p =
    ap (λ (r : Store × Option IndexError). r.0) (some-injective (st, e) (st', e') p)

module _ (c : IndexerConfig) (d : Daemon) (R : Store → Store → Type 0) (k : IsKept c d R) where
  stopped :
      {st st' : Store} {e e' : Option IndexError}
      → ◌≡◌ {A = Option (Store × Option IndexError)} (some (st, e)) (some (st', e'))
      → R st st'
  stopped {st} p = subst (R st) (returned p) (k.same st)

  reorg-kept :
      (st st' : Store) (es : List HeaderEntry) (err : Option IndexError)
      → reorg c d st es ≡ some (st', err)
      → R st st'
  unfolding reorg
  reorg-kept st st' es err e = elim (Option-cases (d.fetch es)) [
    | inl f ↦ stopped (rw (f, reorg) at e)
    | inr (batches, f) ↦
        let ((st1, scripts), a, e1) =
          >>=-eq-some (index_all c deleting_with_history st batches) _ (rw (f, reorg) at e) in
        let st2 = add_all c deleting st1 batches in
        let st3 : Store = record st2 { cache = drop_caches st2.cache scripts } in
        let last : R st st3 = k.trans st st1 st3 (k.deleted st st1 batches scripts a) (
          k.trans st1 st2 st3 (k.stored deleting st1 batches)
            (k.dropped st2 (drop_caches st2.cache scripts))) in
        subst (R st) (returned e1) last
  ]

  roll_back-kept :
      (st st' : Store) (es : List HeaderEntry) (t : Option BlockHash) (err : Option IndexError)
      → roll_back c d st es t ≡ some (st', err)
      → R st st'
  unfolding roll_back
  roll_back-kept st st' [] t err e = stopped e
  roll_back-kept st st' (r ∷ es) (some t) err e =
      let st1 : Store = record st { txstore = Maps.insert tip_key (tip t) st.txstore } in
      k.trans st st1 st' (k.tipped st (tip t)) (reorg-kept st1 st' (r ∷ es) err e)
  roll_back-kept st st' (r ∷ es) none err e =
      let st1 : Store = record st { txstore = Maps.remove tip_key st.txstore } in
      k.trans st st1 st' (k.untipped st) (reorg-kept st1 st' (r ∷ es) err e)

  index_new-kept :
      (st st' : Store) (es : List HeaderEntry) (t : BlockHash) (err : Option IndexError)
      → index_new c d st es t ≡ some (st', err)
      → R st st'
  unfolding index_new
  index_new-kept st st' es t err e = elim (Option-cases (d.fetch (headers_to_index st es))) [
    | inl f ↦ stopped (rw (f, index_new) at e)
    | inr (batches, f) ↦
        let ((st1, scripts), a, e1) =
          >>=-eq-some (index_all c adding st batches) _ (rw (f, index_new) at e) in
        let st2 : Store = record st1 { txstore = Maps.insert tip_key (tip t) st1.txstore } in
        subst (R st) (returned e1)
          (k.trans st st1 st2 (k.indexed st st1 es batches scripts f a) (k.tipped st1 (tip t)))
  ]

  roll_forward-kept :
      (st st' : Store) (es : List HeaderEntry) (t : BlockHash) (err : Option IndexError)
      → roll_forward c d st es t ≡ some (st', err)
      → R st st'
  unfolding roll_forward
  roll_forward-kept st st' es t err e = elim (Option-cases (d.fetch (headers_to_add st es))) [
    | inl f ↦ stopped (rw (f, roll_forward) at e)
    | inr (batches, f) ↦
        let st1 = add_all c adding st batches in
        k.trans st st1 st' (k.stored adding st batches)
          (index_new-kept st1 st' es t err (rw (f, roll_forward) at e))
  ]

  finished-kept :
      (st st' : Store) (es : List HeaderEntry) (t : BlockHash) (found err : Option IndexError)
      → elim found [ some e ↦ some (st, some e) | none ↦ roll_forward c d st es t ]
        ≡ some (st', err)
      → R st st'
  finished-kept st st' es t none err e = roll_forward-kept st st' es t err e
  finished-kept st st' es t (some i) err e = stopped e

  pub update-kept :
      (block_hash : BlockHeader → BlockHash) (st st' : Store) (err : Option IndexError)
      → update block_hash c d st ≡ some (st', err)
      → R st st'
  unfolding update
  update-kept block_hash st st' err e = elim (Option-cases d.best) [
    | inl f ↦ stopped (rw (f, update) at e)
    | inr (best, b) ↦ elim (Option-cases (get_new_headers st.indexed_headers d best)) [
      | inl f ↦ stopped (rw (b, f, update) at e)
      | inr (found, g) ↦
          let e0 = rw (b, g, update) at e in
          let (new_headers, o, e1) = >>=-eq-some (order block_hash st.indexed_headers found) _ e0 in
          let ((headers, reorged, rb), a, e2) =
            >>=-eq-some (apply st.indexed_headers new_headers) _ e1 in
          let (t, top, e3) = >>=-eq-some (get_tip headers) _ e2 in
          let (u, same_tip, e4) = >>=-eq-some (assert (best == t)) _ e3 in
          let st0 : Store = record st { indexed_headers = headers } in
          let ((st1, found_error), back, e5) = >>=-eq-some (roll_back c d st0 reorged rb) _ e4 in
          k.trans st st1 st'
            (k.trans st st0 st1 (k.renamed st headers)
              (roll_back-kept st0 st1 reorged rb found_error back))
            (finished-kept st1 st' new_headers best found_error err e5)
    ]
  ]

pub Updates-kept :
    (block_hash : BlockHeader → BlockHash) (c : IndexerConfig) (R : Store → Store → Type 0)
    → ((d : Daemon) → FetchLaw d → IsKept c d R)
    → ((st : Store) → R st st)
    → ((a b c : Store) → R a b → R b c → R a c)
    → {st st' : Store} → Updates block_hash c st st'
    → R st st'
Updates-kept block_hash c R k same trans {st} here = same st
Updates-kept block_hash c R k same trans {st} (next d {st1} {st2} {e} us law r) =
    trans st st1 st2 (Updates-kept block_hash c R k same trans us)
      (update-kept c d R (k d law) block_hash st1 st2 e r)
