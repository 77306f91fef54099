-- ===== src/Indexer/Stale.antt =====
-- src/new_index/schema.rs and src/daemon.rs: `update` while the daemon has gone back.
use splora.Common.{
  ◌≡◌, ◌≢◌, refl, false, none, some, List, [], ◌∷◌, ◌==◌, >>=-eq-some, arith, length, get_elem?,
  get_elem?-lt,
}
use splora.Common.Maps
use splora.Common.Maps.{nat_key}
use splora.Headers.{
  BlockHash, BlockHeader, HeaderEntry, HeaderList, header_by_blockhash, order, apply, get_tip,
}
use splora.Indexer.{IndexerConfig}
use splora.Indexer.Updating.{Daemon, walk_new, get_new_headers, update}
use splora.Indexer.Writing.{Store}

-- The daemon's best block is in the list already.
walk_new_known :
    (l : HeaderList) (best : BlockHash) (answers : List BlockHeader) (known : HeaderEntry)
    → header_by_blockhash l best ≡ some known
    → walk_new l best answers [] ≡ some []
unfolding walk_new
walk_new_known l best [] known e = rw (e, walk_new) refl
walk_new_known l best (a ∷ answers) known e = rw (e, walk_new) refl

found-not_empty :
    (l : HeaderList) (best : BlockHash) (known : HeaderEntry)
    → header_by_blockhash l best ≡ some known
    → (length l.headers == 0) ≡ false
unfolding header_by_blockhash
found-not_empty l best known e =
    let (height, a, e1) = >>=-eq-some (Maps.get best l.heights) _ e in
    let (header, b, e2) = >>=-eq-some (get_elem? l.headers height) _ e1 in
    ground (arith, get_elem?-lt l.headers height header b)

get_new_headers-known :
    (l : HeaderList) (d : Daemon) (best : BlockHash) (known : HeaderEntry)
    → header_by_blockhash l best ≡ some known
    → get_new_headers l d best ≡ some []
unfolding get_new_headers
get_new_headers-known l d best known e =
    rw (found-not_empty l best known e) (walk_new_known l best d.headers_back known e)

-- When the daemon's best block is one of the indexed headers below the tip, as it is while the daemon
-- has gone back and has no new block yet, `update` panics: there are no new headers to apply, and the
-- tip is not the best block.
pub update-stale_best :
    (block_hash : BlockHeader → BlockHash) (c : IndexerConfig) (d : Daemon) (st : Store)
    (best t : BlockHash) (known : HeaderEntry)
    → d.best ≡ some best
    → header_by_blockhash st.indexed_headers best ≡ some known
    → get_tip st.indexed_headers ≡ some t
    → best ≢ t
    → update block_hash c d st ≡ none
unfolding update order apply
update-stale_best block_hash c d st best t known b k top n =
    let other : (best == t) ≡ false = ground (arith, n) in
    rw (b, get_new_headers-known st.indexed_headers d best known k, update) (rw top (rw other refl))
