-- ===== src/Indexer/Forward.antt =====
-- src/new_index/schema.rs: `update` indexes the new blocks.
use splora.Common.{
  ◌≡◌, refl, sym, ap, ◌∙◌, inl, inr, not, ◌||◌, ◌&&◌, Option, none, some, List, [], ◌∷◌,
  >>=-eq-some, if◌then◌else◌, arith, Option-cases,
}
use mathlib.Core.Option.{some-injective, none-ne-some}
use splora.Common.Lists.{mem?}
use splora.Common.Maps
use splora.Common.Maps.{Map, get-insert_self}
use splora.Headers.{BlockHash, HeaderEntry}
use splora.ChainQuery.Utxos.{out_point_key}
use splora.Indexer.{
  BlockEntry, tip, tip_key, tx_store_key, history_key_key, cache_key, IndexerConfig,
}
use splora.Indexer.Updating.{
  IndexError, no_blocks, Daemon, headers_without, headers_to_add, headers_to_index, index_new,
  roll_forward,
}
use splora.Indexer.Writing.{Store, adding, add_all, index_all}
use splora.Indexer.Done.{mark}
use splora.Indexer.Marking.{hashes_of_all, index_all-Marks, add_all-history, adding-added}

abbrev pub entry_hashes : List HeaderEntry → List BlockHash
entry_hashes [] = []
entry_hashes (e ∷ es) = e.hash ∷ entry_hashes es

-- The fetcher hands over the blocks that it is asked for.
abbrev pub FetchLaw : Daemon → Type 0
FetchLaw d =
    (es : List HeaderEntry) (batches : List (List BlockEntry))
    → d.fetch es ≡ some batches
    → hashes_of_all batches ≡ entry_hashes es

pub mem?-without :
    (h : BlockHash) (known : List BlockHash) (es : List HeaderEntry)
    → mem? h (entry_hashes (headers_without known es))
      ≡ (mem? h (entry_hashes es) && not (mem? h known))
mem?-without h known [] = refl
mem?-without h known (e ∷ es) = ground (arith, mem?-without h known es)

pub failed :
    (st st' : Store)
    → ◌≡◌ {A = Option (Store × Option IndexError)} (some (st, some no_blocks)) (some (st', none))
    → ⊥
failed st st' e = none-ne-some no_blocks (
    sym (
      ap (λ (p : Store × Option IndexError). p.1)
        (some-injective (st, some no_blocks) (st', none) e)))

index_new_marks :
    (c : IndexerConfig) (d : Daemon) (st st' : Store) (es : List HeaderEntry) (t h : BlockHash)
    → FetchLaw d
    → index_new c d st es t ≡ some (st', none)
    → (mark h st'.history ≡ (
        if mem? h (entry_hashes es) && not (mem? h st.indexed_blockhashes)
        then some tt
        else mark h st.history))
      × (st'.added_blockhashes ≡ st.added_blockhashes)
      × (st'.indexed_blockhashes ≡ st.indexed_blockhashes)
      × (st'.indexed_headers ≡ st.indexed_headers)
      × (Maps.get tip_key st'.txstore ≡ some (tip t))
unfolding index_new
index_new_marks c d st st' es t h law e = elim (Option-cases (d.fetch (headers_to_index st es))) [
  | inl f ↦ absurd (failed st st' (rw (f, index_new) at e))
  | inr (batches, f) ↦
      let e0 = rw (f, index_new) at e in
      let ((st1, scripts), a, e1) = >>=-eq-some (index_all c adding st batches) _ e0 in
      let m = index_all-Marks c h adding st st1 batches scripts a in
      let same = ap (λ (p : Store × Option IndexError). p.0) (some-injective _ (st', none) e1) in
      let fetched : mem? h (hashes_of_all batches)
          ≡ (mem? h (entry_hashes es) && not (mem? h st.indexed_blockhashes)) =
        ap (mem? h) (law (headers_to_index st es) batches f)
        ∙ mem?-without h st.indexed_blockhashes es in
      (
        ap (λ (s : Store). mark h s.history) (sym same) ∙ m.history ∙ rw fetched refl,
        ap (λ (s : Store). s.added_blockhashes) (sym same) ∙ m.added,
        ap (λ (s : Store). s.indexed_blockhashes) (sym same) ∙ m.indexed,
        ap (λ (s : Store). s.indexed_headers) (sym same) ∙ m.headers,
        ap (λ (s : Store). Maps.get tip_key s.txstore) (sym same)
            ∙ get-insert_self tip_key tip_key (tip t) st1.txstore refl,
      )
]

-- When rolling forward to a tip succeeds, a block is marked as indexed if it is among the new ones
-- and was not known as indexed when the store was opened, and else as before; the blocks known as
-- added are the new ones with the old ones; the headers stay; and the store has the tip.
pub roll_forward_marks :
    (c : IndexerConfig) (d : Daemon) (st st' : Store) (es : List HeaderEntry) (t h : BlockHash)
    → FetchLaw d
    → roll_forward c d st es t ≡ some (st', none)
    → (mark h st'.history ≡ (
        if mem? h (entry_hashes es) && not (mem? h st.indexed_blockhashes)
        then some tt
        else mark h st.history))
      × (mem? h st'.added_blockhashes ≡ (mem? h (entry_hashes es) || mem? h st.added_blockhashes))
      × (st'.indexed_blockhashes ≡ st.indexed_blockhashes)
      × (st'.indexed_headers ≡ st.indexed_headers)
      × (Maps.get tip_key st'.txstore ≡ some (tip t))
unfolding roll_forward
roll_forward_marks c d st st' es t h law e = elim (Option-cases (d.fetch (headers_to_add st es))) [
  | inl f ↦ absurd (failed st st' (rw (f, roll_forward) at e))
  | inr (batches, f) ↦
      let st1 = add_all c adding st batches in
      let (m, a, i, hs, w) = index_new_marks c d st1 st' es t h law (rw (f, roll_forward) at e) in
      let (hist, known, kept) = add_all-history c adding st batches in
      let new_added : mem? h (hashes_of_all batches)
          ≡ (mem? h (entry_hashes es) && not (mem? h st.added_blockhashes)) =
        ap (mem? h) (law (headers_to_add st es) batches f)
        ∙ mem?-without h st.added_blockhashes es in
      (
        m ∙ ground (arith, ap (mem? h) known, ap (mark h) hist),
        ap (mem? h) a ∙ ground (arith, adding-added c h st batches, new_added),
        i ∙ known,
        hs ∙ kept,
        w,
      )
]
