-- ===== src/Indexer/Lost.antt =====
-- src/new_index/schema.rs: the set of blocks known as indexed is what was found when the store was
-- opened, through every run of `update`, with any daemon, errors included.
use splora.Common.{◌≡◌, refl, ap, ◌∙◌, inl, inr, true, false, none, arith, Bool-cases}
use splora.Common.Lists.{mem?}
use splora.Headers.{BlockHash, BlockHeader}
use splora.Indexer.{IndexerConfig}
use splora.Indexer.Updating.{Daemon, headers_to_index}
use splora.Indexer.Writing.{Store, adding, deleting_with_history}
use splora.Indexer.Done.{mark}
use splora.Indexer.Marking.{hashes_of_all, index_all-Marks, add_all-history}
use splora.Indexer.Forward.{FetchLaw, mem?-without}
use splora.Indexer.Keeping.{Updates, IsKept, Updates-kept}

-- The set stays, and a block of it that is not marked stays so.
abbrev pub Keeps : BlockHash → Store → Store → Type 0
Keeps h st st' =
    (st'.indexed_blockhashes ≡ st.indexed_blockhashes)
    × (mem? h st.indexed_blockhashes ≡ true → mark h st.history ≡ none → mark h st'.history ≡ none)

Keeps-trans : (h : BlockHash) (a b c : Store) → Keeps h a b → Keeps h b c → Keeps h a c
Keeps-trans h a b c (i, m) (i', m') =
    (i' ∙ i, λ known none_yet. m' (ap (mem? h) i ∙ known) (m known none_yet))

Keeps-IsKept : (c : IndexerConfig) (h : BlockHash) (d : Daemon) → FetchLaw d → IsKept c d (Keeps h)
Keeps-IsKept c h d law = record {
  same = λ st. (refl, λ i m. m);
  trans = Keeps-trans h;
  deleted = λ st st' batches scripts a.
      let w = index_all-Marks c h deleting_with_history st st' batches scripts a in
      (
        w.indexed,
        λ i m. w.history ∙ elim (Bool-cases (mem? h (hashes_of_all batches))) [
          | inl gone ↦ rw gone refl
          | inr stays ↦ rw stays m
        ],
      );
  indexed = λ st st' es batches scripts f a.
      let w = index_all-Marks c h adding st st' batches scripts a in
      let skipped : mem? h st.indexed_blockhashes ≡ true → mem? h (hashes_of_all batches) ≡ false =
        λ i.
          ap (mem? h) (law (headers_to_index st es) batches f)
          ∙ mem?-without h st.indexed_blockhashes es
          ∙ ground (arith, i) in
      (w.indexed, λ i m. w.history ∙ rw (skipped i) m);
  stored = λ op st batches.
      let (hist, known, kept) = add_all-history c op st batches in
      (known, λ i m. ap (mark h) hist ∙ m);
  tipped = λ st v. (refl, λ i m. m);
  untipped = λ st. (refl, λ i m. m);
  dropped = λ st cache. (refl, λ i m. m);
  renamed = λ st headers. (refl, λ i m. m);
}

Updates-Keeps :
    (block_hash : BlockHeader → BlockHash) (c : IndexerConfig) (h : BlockHash) {st st' : Store}
    → Updates block_hash c st st'
    → Keeps h st st'
Updates-Keeps block_hash c h =
    Updates-kept block_hash c (Keeps h) (Keeps-IsKept c h) (λ st. (refl, λ i m. m)) (Keeps-trans h)

-- A block that was found indexed when the store was opened, and that is not marked after some
-- updates, since one of them took it back, is not marked after any more of them, whatever the daemon
-- answers and whatever they return, also when the block is back in the chain. The fetchers are taken
-- to hand over the blocks that they are asked for.
pub lost_block :
    (block_hash : BlockHeader → BlockHash) (c : IndexerConfig) (h : BlockHash)
    (opened st st' : Store)
    → mem? h opened.indexed_blockhashes ≡ true
    → Updates block_hash c opened st
    → mark h st.history ≡ none
    → Updates block_hash c st st'
    → mark h st'.history ≡ none
lost_block block_hash c h opened st st' known before unmarked us =
    let same = ap (mem? h) (Updates-Keeps block_hash c h before).0 in
    (Updates-Keeps block_hash c h us).1 (same ∙ known) unmarked
