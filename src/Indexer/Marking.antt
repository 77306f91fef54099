-- ===== src/Indexer/Marking.antt =====
-- src/new_index/schema.rs: which blocks `index` and `add` leave marked as indexed or added.
use splora.Common.{
  ℕ, ◌≡◌, refl, ap, ◌∙◌, inl, inr, true, not, ◌||◌, ◌&&◌, Option, none, some, List, [], ◌∷◌, ◌++◌,
  >>=-eq-some, assert, if◌then◌else◌, arith, Bool-cases,
}
use mathlib.Core.Path.{subst}
use mathlib.Core.Option.{some-injective}
use splora.Common.Lists.{mem?}
use splora.Headers.{BlockHash}
use splora.ChainQuery.Utxos.{out_point_key}
use splora.Indexer.{
  BlockEntry, tx_store_key, history_key_key, cache_key, IndexerConfig, get_previous_txos,
  index_blocks,
}
use splora.Indexer.Writing.{
  Store, Operation, adding, deleting, is_adding, hashes_of, remove_hashes, all_added, lookup_txos,
  add, index, add_all, index_all,
}
use splora.Indexer.Done.{mark, blocks-mark, write_history-mark, delete_history-mark}

abbrev pub hashes_of_all : List (List BlockEntry) → List BlockHash
hashes_of_all [] = []
hashes_of_all (blocks ∷ batches) = hashes_of blocks ++ hashes_of_all batches

abbrev pub marked : Operation → Option (Unit {0})
marked op = if is_adding op then some tt else none

pub mem?-append : (h : ℕ) (a b : List ℕ) → mem? h (a ++ b) ≡ (mem? h a || mem? h b)
mem?-append h [] b = refl
mem?-append h (x ∷ a) b = ground (arith, mem?-append h a b)

-- What indexing these blocks does to a mark, and what it leaves alone.
pub record Marks (op : Operation) (h : BlockHash) (hs : List BlockHash) (st st' : Store)
    : Type 0 where
  pub history : mark h st'.history ≡ (if mem? h hs then marked op else mark h st.history)
  pub indexed : st'.indexed_blockhashes ≡ st.indexed_blockhashes
  pub added : st'.added_blockhashes ≡ st.added_blockhashes
  pub headers : st'.indexed_headers ≡ st.indexed_headers
  pub txstore : st'.txstore ≡ st.txstore

module _ (c : IndexerConfig) (h : BlockHash) where
  index-Marks :
      (op : Operation) (st st' : Store) (blocks : List BlockEntry) (scripts : List ℕ)
      → index c op st blocks ≡ some (st', scripts)
      → Marks op h (hashes_of blocks) st st'
  unfolding index
  index-Marks op st st' blocks scripts e =
      let (txos, a, e1) = >>=-eq-some (lookup_txos st.txstore (get_previous_txos blocks)) _ e in
      let (u, b, e2) =
        >>=-eq-some (assert (if is_adding op then all_added st.added_blockhashes blocks else true))
          _ e1 in
      let (rows, r, e3) = >>=-eq-some (index_blocks c txos blocks) _ e2 in
      let marks_same = blocks-mark c h txos blocks rows r in
      let same = ap (λ (p : Store × List ℕ). p.0) (some-injective _ (st', scripts) e3) in
      subst (Marks op h (hashes_of blocks) st) same (record {
        history = elim (Bool-cases (is_adding op)) [
          | inl add ↦ rw (add) (write_history-mark h st.history rows ∙ rw marks_same refl)
          | inr del ↦ rw (del) (delete_history-mark h st.history rows ∙ rw marks_same refl)
        ];
        indexed = refl;
        added = refl;
        headers = refl;
        txstore = refl;
      })

  pub index_all-Marks :
      (op : Operation) (st st' : Store) (batches : List (List BlockEntry)) (scripts : List ℕ)
      → index_all c op st batches ≡ some (st', scripts)
      → Marks op h (hashes_of_all batches) st st'
  unfolding index_all
  index_all-Marks op st st' [] scripts e =
      subst (Marks op h [] st)
        (ap (λ (p : Store × List ℕ). p.0) (some-injective (st, []) (st', scripts) e))
        (record { history = refl; indexed = refl; added = refl; headers = refl; txstore = refl })
  index_all-Marks op st st' (blocks ∷ batches) scripts e =
      let ((st1, s1), a, e1) = >>=-eq-some (index c op st blocks) _ e in
      let ((st2, s2), b, e2) = >>=-eq-some (index_all c op st1 batches) _ e1 in
      let m1 = index-Marks op st st1 blocks s1 a in
      let m2 = index_all-Marks op st1 st2 batches s2 b in
      let same =
        ap (λ (p : Store × List ℕ). p.0) (some-injective (st2, s1 ++ s2) (st', scripts) e2) in
      subst (Marks op h (hashes_of_all (blocks ∷ batches)) st) same (record {
        history =
            m2.history
            ∙ ground (arith, m1.history, mem?-append h (hashes_of blocks) (hashes_of_all batches));
        indexed = m2.indexed ∙ m1.indexed;
        added = m2.added ∙ m1.added;
        headers = m2.headers ∙ m1.headers;
        txstore = m2.txstore ∙ m1.txstore;
      })

pub mem?-remove_hashes :
    (h : BlockHash) (hs gone : List BlockHash)
    → mem? h (remove_hashes hs gone) ≡ (mem? h hs && not (mem? h gone))
mem?-remove_hashes h [] gone = refl
mem?-remove_hashes h (x ∷ hs) gone = ground (arith, mem?-remove_hashes h hs gone)

module _ (c : IndexerConfig) where
  -- Adding transactions does not touch the history, what is known as indexed or the headers.
  add-history :
      (op : Operation) (st : Store) (blocks : List BlockEntry)
      → ((add c op st blocks).history ≡ st.history)
        × ((add c op st blocks).indexed_blockhashes ≡ st.indexed_blockhashes)
        × ((add c op st blocks).indexed_headers ≡ st.indexed_headers)
  unfolding add
  add-history op st blocks = elim (Bool-cases (is_adding op)) [
    | inl a ↦ rw a (refl, refl, refl)
    | inr d ↦ rw d (refl, refl, refl)
  ]

  pub add_all-history :
      (op : Operation) (st : Store) (batches : List (List BlockEntry))
      → ((add_all c op st batches).history ≡ st.history)
        × ((add_all c op st batches).indexed_blockhashes ≡ st.indexed_blockhashes)
        × ((add_all c op st batches).indexed_headers ≡ st.indexed_headers)
  unfolding add_all
  add_all-history op st [] = (refl, refl, refl)
  add_all-history op st (blocks ∷ batches) =
      let (x, y, z) = add_all-history op (add c op st blocks) batches in
      let (x', y', z') = add-history op st blocks in (x ∙ x', y ∙ y', z ∙ z')

  -- The hashes that are known as added.
  pub adding-added :
      (h : BlockHash) (st : Store) (batches : List (List BlockEntry))
      → mem? h (add_all c adding st batches).added_blockhashes
        ≡ (mem? h (hashes_of_all batches) || mem? h st.added_blockhashes)
  unfolding add_all add
  adding-added h st [] = refl
  adding-added h st (blocks ∷ batches) = ground (
    arith,
    adding-added h (add c adding st blocks) batches,
    mem?-append h (hashes_of blocks) (hashes_of_all batches),
    mem?-append h (hashes_of blocks) st.added_blockhashes,
  )

  pub deleting-added :
      (h : BlockHash) (st : Store) (batches : List (List BlockEntry))
      → mem? h (add_all c deleting st batches).added_blockhashes
        ≡ (mem? h st.added_blockhashes && not (mem? h (hashes_of_all batches)))
  unfolding add_all add
  deleting-added h st [] = ground arith
  deleting-added h st (blocks ∷ batches) = ground (
    arith,
    deleting-added h (add c deleting st blocks) batches,
    mem?-append h (hashes_of blocks) (hashes_of_all batches),
    mem?-remove_hashes h st.added_blockhashes (hashes_of blocks),
  )
