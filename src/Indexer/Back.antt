-- ===== src/Indexer/Back.antt =====
-- src/new_index/schema.rs: `reorg` takes blocks back, and `update` as a whole.
use splora.Common.{
  ◌≡◌, refl, sym, ap, ◌∙◌, inl, inr, true, not, ◌||◌, ◌&&◌, Option, none, some, List, [], ◌∷◌, ◌==◌,
  >>=-eq-some, assert, assert-eq-some, ==_iff, if◌then◌else◌, arith, Option-cases,
}
use mathlib.Core.Path.{subst}
use mathlib.Core.Option.{some-injective, none-ne-some}
use splora.Common.Lists.{mem?}
use splora.Common.Maps
use splora.Headers.{BlockHash, BlockHeader, HeaderEntry, HeaderList, order, apply, get_tip}
use splora.Indexer.{IndexerConfig, tip, tip_key, tx_store_key}
use splora.Indexer.Updating.{
  IndexError, no_tip, no_headers, Daemon, reorg, roll_back, roll_forward, update, get_new_headers,
}
use splora.Indexer.Writing.{Store, deleting, deleting_with_history, index_all}
use splora.Indexer.Done.{mark}
use splora.Indexer.Marking.{index_all-Marks, add_all-history, deleting-added}
use splora.Indexer.Forward.{entry_hashes, FetchLaw, failed, roll_forward_marks}

-- A reorg that succeeds takes exactly the blocks that it rolls back out of the marks of the history
-- and out of the blocks known as added, and it leaves the blocks known as indexed and the headers.
pub reorg_marks :
    (c : IndexerConfig) (d : Daemon) (st st' : Store) (reorged : List HeaderEntry) (h : BlockHash)
    → FetchLaw d
    → reorg c d st reorged ≡ some (st', none)
    → (mark h st'.history ≡ (if mem? h (entry_hashes reorged) then none else mark h st.history))
      × (mem? h st'.added_blockhashes
          ≡ (mem? h st.added_blockhashes && not (mem? h (entry_hashes reorged))))
      × (st'.indexed_blockhashes ≡ st.indexed_blockhashes)
      × (st'.indexed_headers ≡ st.indexed_headers)
unfolding reorg
reorg_marks c d st st' reorged h law e = elim (Option-cases (d.fetch reorged)) [
  | inl f ↦ absurd (failed st st' (rw (f, reorg) at e))
  | inr (batches, f) ↦
      let ((st1, scripts), a, e1) =
        >>=-eq-some (index_all c deleting_with_history st batches) _ (rw (f, reorg) at e) in
      let m = index_all-Marks c h deleting_with_history st st1 batches scripts a in
      let (hist, known, kept) = add_all-history c deleting st1 batches in
      let gone = deleting-added c h st1 batches in
      let fetched = ap (mem? h) (law reorged batches f) in
      let same = ap (λ (p : Store × Option IndexError). p.0) (some-injective _ (st', none) e1) in
      (
        ap (λ (s : Store). mark h s.history) (sym same)
            ∙ ap (mark h) hist
            ∙ m.history
            ∙ rw fetched refl,
        ap (λ (s : Store). mem? h s.added_blockhashes) (sym same)
            ∙ gone
            ∙ rw (fetched, m.added) refl,
        ap (λ (s : Store). s.indexed_blockhashes) (sym same) ∙ known ∙ m.indexed,
        ap (λ (s : Store). s.indexed_headers) (sym same) ∙ kept ∙ m.headers,
      )
]

-- The headers that the new ones took off the list are rolled back.
roll_back_marks :
    (c : IndexerConfig) (d : Daemon) (st st' : Store) (reorged : List HeaderEntry)
    (rollback_tip : Option BlockHash) (h : BlockHash)
    → FetchLaw d
    → roll_back c d st reorged rollback_tip ≡ some (st', none)
    → (mark h st'.history ≡ (if mem? h (entry_hashes reorged) then none else mark h st.history))
      × (mem? h st'.added_blockhashes
          ≡ (mem? h st.added_blockhashes && not (mem? h (entry_hashes reorged))))
      × (st'.indexed_blockhashes ≡ st.indexed_blockhashes)
      × (st'.indexed_headers ≡ st.indexed_headers)
unfolding roll_back
roll_back_marks c d st st' [] t h law e =
    let same =
      ap (λ (p : Store × Option IndexError). p.0) (some-injective (st, none) (st', none) e) in
    subst
      (λ (s : Store).
        (mark h s.history ≡ mark h st.history)
        × (mem? h s.added_blockhashes ≡ (mem? h st.added_blockhashes && true))
        × (s.indexed_blockhashes ≡ st.indexed_blockhashes)
        × (s.indexed_headers ≡ st.indexed_headers))
      same (refl, ground arith, refl, refl)
roll_back_marks c d st st' (r ∷ reorged) (some t) h law e =
    reorg_marks c d (record st { txstore = Maps.insert tip_key (tip t) st.txstore }) st'
      (r ∷ reorged) h law e
roll_back_marks c d st st' (r ∷ reorged) none h law e =
    reorg_marks c d (record st { txstore = Maps.remove tip_key st.txstore }) st' (r ∷ reorged) h law
      e

-- What an update that succeeded did with a block `h`, given the new headers and those taken back.
pub record Updated (h best : BlockHash) (new_headers reorged : List HeaderEntry) (st st' : Store)
    : Type 0 where
  pub history : mark h st'.history ≡ (
      if mem? h (entry_hashes new_headers) && not (mem? h st.indexed_blockhashes)
      then some tt
      else if mem? h (entry_hashes reorged)
      then none
      else mark h st.history)
  pub added : mem? h st'.added_blockhashes ≡ (
      mem? h (entry_hashes new_headers)
      || (mem? h st.added_blockhashes && not (mem? h (entry_hashes reorged))))
  pub indexed : st'.indexed_blockhashes ≡ st.indexed_blockhashes
  pub tip_row : Maps.get tip_key st'.txstore ≡ some (tip best)
  pub tip_header : get_tip st'.indexed_headers ≡ some best
  pub applied :
      (rollback_tip : Option BlockHash) × (apply st.indexed_headers new_headers
        ≡ some (st'.indexed_headers, reorged, rollback_tip))

pub failed_by :
    (i : IndexError) (st st' : Store)
    → ◌≡◌ {A = Option (Store × Option IndexError)} (some (st, some i)) (some (st', none))
    → ⊥
failed_by i st st' e =
    none-ne-some i (
      sym (ap (λ (p : Store × Option IndexError). p.1) (some-injective (st, some i) (st', none) e)))

went_on :
    (st st' : Store) (err : Option IndexError) (next : Option (Store × Option IndexError))
    → elim err [ some e ↦ some (st, some e) | none ↦ next ] ≡ some (st', none)
    → (err ≡ none) × (next ≡ some (st', none))
went_on st st' none next e = (refl, e)
went_on st st' (some i) next e = absurd (failed_by i st st' e)

module _ (c : IndexerConfig) (d : Daemon) (st st1 st' : Store) (headers : HeaderList) where
  rolled-Updated :
      (new_headers reorged : List HeaderEntry) (rb : Option BlockHash) (best h : BlockHash)
      → FetchLaw d
      → (t : Option BlockHash) × (apply st.indexed_headers new_headers ≡ some (headers, reorged, t))
      → get_tip headers ≡ some best
      → roll_back c d (record st { indexed_headers = headers }) reorged rb ≡ some (st1, none)
      → roll_forward c d st1 new_headers best ≡ some (st', none)
      → Updated h best new_headers reorged st st'
  rolled-Updated new_headers reorged rb best h law (t, a) top back forth =
      let (m, ad, ix, hs) =
        roll_back_marks c d (record st { indexed_headers = headers }) st1 reorged rb h law back in
      let (m', ad', ix', hs', tips) = roll_forward_marks c d st1 st' new_headers best h law forth in
      let same : st'.indexed_headers ≡ headers = hs' ∙ hs in
      record {
        history = m' ∙ rw (ix, m) refl;
        added = ad' ∙ rw ad refl;
        indexed = ix' ∙ ix;
        tip_row = tips;
        tip_header = ap get_tip same ∙ top;
        applied = (t, a ∙ ap (λ l. some (l, reorged, t)) (sym same));
      }

-- When an update succeeds, it was to the daemon's best block, which is the tip row and the tip of
-- the headers afterwards; the headers are the old ones with the new ones applied; and a block is
-- marked as indexed if it is new and was not known as indexed when the store was opened, else not
-- if it was taken back, else as before; it is known as added if it is new, or was and was not taken
-- back. The fetchers are taken to hand over the blocks that they are asked for.
pub update_marks :
    (block_hash : BlockHeader → BlockHash) (c : IndexerConfig) (d : Daemon) (st st' : Store)
    → FetchLaw d
    → update block_hash c d st ≡ some (st', none)
    → (best : BlockHash) × (found : List BlockHeader) × (new_headers : List HeaderEntry)
      × (reorged : List HeaderEntry) × (d.best ≡ some best)
      × (get_new_headers st.indexed_headers d best ≡ some found)
      × (order block_hash st.indexed_headers found ≡ some new_headers)
      × ((h : BlockHash) → Updated h best new_headers reorged st st')
unfolding update
update_marks block_hash c d st st' law e = elim (Option-cases d.best) [
  | inl f ↦ absurd (failed_by no_tip st st' (rw (f, update) at e))
  | inr (best, b) ↦ elim (Option-cases (get_new_headers st.indexed_headers d best)) [
    | inl f ↦ absurd (failed_by no_headers st st' (rw (b, f, update) at e))
    | inr (found, g) ↦
        let e0 = rw (b, g, update) at e in
        let (new_headers, o, e1) = >>=-eq-some (order block_hash st.indexed_headers found) _ e0 in
        let ((headers, reorged, rb), a, e2) =
          >>=-eq-some (apply st.indexed_headers new_headers) _ e1 in
        let (t, top, e3) = >>=-eq-some (get_tip headers) _ e2 in
        let (u, same_tip, e4) = >>=-eq-some (assert (best == t)) _ e3 in
        let ((st1, err), back, e5) =
          >>=-eq-some (roll_back c d (record st { indexed_headers = headers }) reorged rb) _ e4 in
        let (done, forth) = went_on st1 st' err (roll_forward c d st1 new_headers best) e5 in
        let tip_is : best ≡ t = (==_iff best t).0 (assert-eq-some (best == t) same_tip) in
        (
          best,
          found,
          new_headers,
          reorged,
          b,
          g,
          o,
          λ h.
              rolled-Updated c d st st1 st' headers new_headers reorged rb best h law (rb, a)
                (top ∙ ap some (sym tip_is)) (back ∙ ap (λ x. some (st1, x)) done) forth,
        )
  ]
]
