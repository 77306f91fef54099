-- ===== src/Indexer/Agreeing.antt =====
-- src/new_index/schema.rs: what the two sets of known blocks say of the databases, from `Store::open`
-- through every run of `update`.
use splora.Common.{
  ℕ, ◌≡◌, ◌≢◌, refl, sym, ap, ◌∙◌, inl, inr, Bool, ◌||◌, some, List, [], ◌∷◌, ◌==◌, >>=-eq-some,
  arith, Bool-cases,
}
use mathlib.Core.Option.{some-injective}
use mathlib.Core.Path.{subst}
use splora.Common.Lists.{mem?}
use splora.Common.Maps.{Map, contains_key, get-nil, get_cons_self, get_cons_other}
use splora.Headers.{BlockHash, BlockHeader}
use splora.Indexer.{
  BlockEntry, TxStoreKey, tx_key, conf_key, out_key, txids_key, meta_key, header_key, added_key,
  tip_key, TxStoreValue, HistoryKey, history_key, edge_key, address_key, indexed_key, tx_store_key,
  history_key_key, CacheKey, IndexerConfig, add_blocks,
}
use splora.Indexer.Updating.{Daemon}
use splora.Indexer.Writing.{
  Store, Operation, adding, deleting_with_history, is_adding, hashes_of, add, add_all,
}
use splora.Indexer.Marking.{mem?-append, mem?-remove_hashes, index_all-Marks, add_all-history}
use splora.Indexer.Forward.{FetchLaw}
use splora.Indexer.Added.{
  names, names-eq, names-ne, has, has-insert, has-remove, has-write_txstore, has-delete_txstore,
  adds-add_blocks,
}
use splora.Indexer.Opening.{load_added, load_indexed, load_headers, open_databases}
use splora.Indexer.Keeping.{Updates, IsKept, Updates-kept}

-- A block is known as added if and only if the transaction store marks it.
abbrev pub Agrees : BlockHash → Store → Type 0
Agrees h st = mem? h st.added_blockhashes ≡ has h st.txstore

add-Agrees :
    (c : IndexerConfig) (h : BlockHash) (op : Operation) (st : Store) (blocks : List BlockEntry)
    → Agrees h st
    → Agrees h (add c op st blocks)
unfolding add
add-Agrees c h op st blocks agree = elim (Bool-cases (is_adding op)) [
  | inl adds_them ↦ rw adds_them (
      mem?-append h (hashes_of blocks) st.added_blockhashes
      ∙ ground (
        arith,
        agree,
        has-write_txstore h st.txstore (add_blocks c blocks),
        adds-add_blocks c h blocks,
      ))
  | inr deletes_them ↦ rw deletes_them (
      mem?-remove_hashes h st.added_blockhashes (hashes_of blocks)
      ∙ ground (
        arith,
        agree,
        has-delete_txstore h st.txstore (add_blocks c blocks),
        adds-add_blocks c h blocks,
      ))
]

add_all-Agrees :
    (c : IndexerConfig) (h : BlockHash) (op : Operation) (st : Store)
    (batches : List (List BlockEntry))
    → Agrees h st
    → Agrees h (add_all c op st batches)
unfolding add_all
add_all-Agrees c h op st [] agree = agree
add_all-Agrees c h op st (blocks ∷ batches) agree =
    add_all-Agrees c h op (add c op st blocks) batches (add-Agrees c h op st blocks agree)

-- What updates keep.
abbrev pub Agreement : BlockHash → Store → Store → Type 0
Agreement h st st' =
    (st'.indexed_blockhashes ≡ st.indexed_blockhashes) × (Agrees h st → Agrees h st')

Agreement-trans :
    (h : BlockHash) (a b c : Store) → Agreement h a b → Agreement h b c → Agreement h a c
Agreement-trans h a b c (i, m) (i', m') = (i' ∙ i, λ agree. m' (m agree))

Agreement-IsKept :
    (c : IndexerConfig) (h : BlockHash) (d : Daemon) → FetchLaw d → IsKept c d (Agreement h)
Agreement-IsKept c h d law = record {
  same = λ st. (refl, λ agree. agree);
  trans = Agreement-trans h;
  deleted = λ st st' batches scripts a.
      let w = index_all-Marks c h deleting_with_history st st' batches scripts a in
      (w.indexed, λ agree. ap (mem? h) w.added ∙ agree ∙ ap (has h) (sym w.txstore));
  indexed = λ st st' es batches scripts f a.
      let w = index_all-Marks c h adding st st' batches scripts a in
      (w.indexed, λ agree. ap (mem? h) w.added ∙ agree ∙ ap (has h) (sym w.txstore));
  stored = λ op st batches.
      let (hist, known, kept) = add_all-history c op st batches in
      (known, add_all-Agrees c h op st batches);
  tipped = λ st v. (refl, λ agree. agree ∙ sym (has-insert h tip_key v st.txstore));
  untipped = λ st. (refl, λ agree. agree ∙ ground (arith, has-remove h tip_key st.txstore));
  dropped = λ st cache. (refl, λ agree. agree);
  renamed = λ st headers. (refl, λ agree. agree);
}

has-cons :
    (h : BlockHash) (k : TxStoreKey) (v : TxStoreValue) (db : Map TxStoreKey TxStoreValue)
    → has h ((k, v) ∷ db) ≡ (names h k || has h db)
has-cons h k v db = elim (Bool-cases (names h k)) [
  | inl same ↦
      rw (get_cons_self (added_key h) k v db (names-eq h k same), contains_key) (rw same refl)
  | inr other ↦
      rw (get_cons_other (added_key h) k v db (names-ne h k other), contains_key) (rw other refl)
]

mem?-load_added :
    (h : BlockHash) (db : Map TxStoreKey TxStoreValue) → mem? h (load_added db) ≡ has h db
unfolding load_added
mem?-load_added h [] =
    rw (get-nil {K = TxStoreKey} {V = TxStoreValue} (added_key h), contains_key) refl
mem?-load_added h ((tx_key t, v) ∷ db) = mem?-load_added h db ∙ sym (has-cons h (tx_key t) v db)
mem?-load_added h ((conf_key t b, v) ∷ db) =
    mem?-load_added h db ∙ sym (has-cons h (conf_key t b) v db)
mem?-load_added h ((out_key o, v) ∷ db) = mem?-load_added h db ∙ sym (has-cons h (out_key o) v db)
mem?-load_added h ((txids_key b, v) ∷ db) =
    mem?-load_added h db ∙ sym (has-cons h (txids_key b) v db)
mem?-load_added h ((meta_key b, v) ∷ db) = mem?-load_added h db ∙ sym (has-cons h (meta_key b) v db)
mem?-load_added h ((header_key b, v) ∷ db) =
    mem?-load_added h db ∙ sym (has-cons h (header_key b) v db)
mem?-load_added h ((added_key b, v) ∷ db) =
    ap (λ x. (h == b) || x) (mem?-load_added h db) ∙ sym (has-cons h (added_key b) v db)
mem?-load_added h ((tip_key, v) ∷ db) = mem?-load_added h db ∙ sym (has-cons h tip_key v db)

-- Whether the history marks the block as indexed.
abbrev pub is_indexed : BlockHash → Map HistoryKey (Unit {0}) → Bool
is_indexed h db = contains_key (indexed_key h) db

skip-is_indexed :
    (h : BlockHash) (k : HistoryKey) (v : Unit {0}) (db : Map HistoryKey (Unit {0}))
    → indexed_key h ≢ k
    → is_indexed h db ≡ is_indexed h ((k, v) ∷ db)
skip-is_indexed h k v db n = rw (get_cons_other (indexed_key h) k v db n, contains_key) refl

mem?-load_indexed :
    (h : BlockHash) (db : Map HistoryKey (Unit {0})) → mem? h (load_indexed db) ≡ is_indexed h db
unfolding load_indexed
mem?-load_indexed h [] =
    rw (get-nil {K = HistoryKey} {V = Unit {0}} (indexed_key h), contains_key) refl
mem?-load_indexed h ((history_key a b c d, v) ∷ db) =
    mem?-load_indexed h db ∙ skip-is_indexed h (history_key a b c d) v db (λ e. cc)
mem?-load_indexed h ((edge_key a b c d, v) ∷ db) =
    mem?-load_indexed h db ∙ skip-is_indexed h (edge_key a b c d) v db (λ e. cc)
mem?-load_indexed h ((address_key a, v) ∷ db) =
    mem?-load_indexed h db ∙ skip-is_indexed h (address_key a) v db (λ e. cc)
mem?-load_indexed h ((indexed_key b, v) ∷ db) = elim (Bool-cases (h == b)) [
  | inl same ↦
      let e : indexed_key h ≡ indexed_key b = ap indexed_key (ground (arith, same)) in
      rw (get_cons_self (indexed_key h) (indexed_key b) v db e, contains_key) (rw same refl)
  | inr other ↦ rw other (
      mem?-load_indexed h db
      ∙ skip-is_indexed h (indexed_key b) v db (λ e. ground (arith, e, other)))
]

-- From a store that is opened on any databases, after any updates with any daemon: a block is known
-- as added if and only if the transaction store has the row that marks it; but it is known as
-- indexed if and only if the history had its mark when the store was opened.
pub known_iff :
    (block_hash : BlockHeader → BlockHash) (c : IndexerConfig) (h : BlockHash)
    (txstore : Map TxStoreKey TxStoreValue) (history : Map HistoryKey (Unit {0}))
    (cache : Map CacheKey (List ℕ)) (opened st : Store)
    → open_databases block_hash txstore history cache ≡ some opened
    → Updates block_hash c opened st
    → (mem? h st.added_blockhashes ≡ has h st.txstore)
      × (mem? h st.indexed_blockhashes ≡ is_indexed h history)
unfolding open_databases
known_iff block_hash c h txstore history cache opened st e us =
    let (headers, l, e1) = >>=-eq-some (load_headers block_hash txstore) _ e in
    let same = some-injective _ opened e1 in
    let agree : Agrees h opened = subst (Agrees h) same (mem?-load_added h txstore) in
    let read : mem? h opened.indexed_blockhashes ≡ is_indexed h history =
      subst (λ (s : Store). mem? h s.indexed_blockhashes ≡ is_indexed h history) same
        (mem?-load_indexed h history) in
    let (i, keeps) =
      Updates-kept block_hash c (Agreement h) (Agreement-IsKept c h) (λ s. (refl, λ a. a))
        (Agreement-trans h) us in
    (keeps agree, ap (mem? h) i ∙ read)
