-- ===== src/Indexer/Updating.antt =====
-- src/new_index/schema.rs: `Indexer` and the walk of src/daemon.rs to the new headers. `none` is a
-- panic; an error is returned with the store as it is then.
use splora.Common.{
  Option, none, some, List, [], ◌∷◌, ◌==◌, ◌>>=◌, ◌>>◌, assert, if◌then◌else◌, length,
}
use splora.Common.Lists.{mem?}
use splora.Common.Maps
use splora.Common.Maps.{Map}
use splora.Headers.{
  BlockHash, null_hash, BlockHeader, HeaderEntry, HeaderList, header_by_blockhash, get_tip, apply,
  order,
}
use splora.ChainQuery.Utxos.{out_point_key}
use splora.Indexer.Writing.{
  Store, add_all, index_all, drop_caches, adding, deleting, deleting_with_history,
}
use splora.Indexer.{
  BlockEntry, tip_key, tip, tx_store_key, history_key_key, cache_key, IndexerConfig,
}

pub data IndexError : Type 0 where
  no_tip no_headers no_blocks : IndexError

-- What the daemon answers: its best block, all headers up to it, the headers from it backwards for
-- as long as the connection holds, and the blocks of entries, in batches.
pub record Daemon : Type 0 where
  pub best : Option BlockHash
  pub all_headers : Option (List BlockHeader)
  pub headers_back : List BlockHeader
  pub fetch : List HeaderEntry → Option (List (List BlockEntry))

-- The loop of `Daemon::get_new_headers`, with what is found already reversed.
unfoldable pub walk_new :
    HeaderList → BlockHash → List BlockHeader → List BlockHeader → Option (List BlockHeader)
walk_new l blockhash [] found = elim (header_by_blockhash l blockhash) [
  | some e ↦ some found
  | none ↦ if blockhash == null_hash then some found else none
]
walk_new l blockhash (h ∷ answers) found =
    let rest = walk_new l h.prev_blockhash answers (h ∷ found) in
    elim (header_by_blockhash l blockhash) [
      | some e ↦ some found
      | none ↦ if blockhash == null_hash then some found else rest
    ]

unfoldable pub get_new_headers : HeaderList → Daemon → BlockHash → Option (List BlockHeader)
unfolding walk_new
get_new_headers l d best =
    if length l.headers == 0 then d.all_headers else walk_new l best d.headers_back []

abbrev pub headers_without : List BlockHash → List HeaderEntry → List HeaderEntry
headers_without known [] = []
headers_without known (e ∷ es) =
    let rest = headers_without known es in if mem? e.hash known then rest else e ∷ rest

abbrev pub headers_to_add : Store → List HeaderEntry → List HeaderEntry
headers_to_add st = headers_without st.added_blockhashes

abbrev pub headers_to_index : Store → List HeaderEntry → List HeaderEntry
headers_to_index st = headers_without st.indexed_blockhashes

unfoldable pub reorg :
    IndexerConfig → Daemon → Store → List HeaderEntry → Option (Store × Option IndexError)
unfolding drop_caches
reorg c d st reorged = elim (d.fetch reorged) [
  | none ↦ some (st, some no_blocks)
  | some batches ↦ do
    (st1, scripts) ← index_all c deleting_with_history st batches
    let st2 = add_all c deleting st1 batches
    some (record st2 { cache = drop_caches st2.cache scripts }, none)
]

-- The rows of the tip and the reorg, when blocks were rolled back.
unfoldable pub roll_back :
    IndexerConfig
    → Daemon
    → Store
    → List HeaderEntry
    → Option BlockHash
    → Option (Store × Option IndexError)
roll_back c d st [] rollback_tip = some (st, none)
roll_back c d st (e ∷ reorged) (some t) =
    reorg c d (record st { txstore = Maps.insert tip_key (tip t) st.txstore }) (e ∷ reorged)
roll_back c d st (e ∷ reorged) none =
    reorg c d (record st { txstore = Maps.remove tip_key st.txstore }) (e ∷ reorged)

-- The history of the new blocks that are not known as indexed, and then the tip.
unfoldable pub index_new :
    IndexerConfig
    → Daemon
    → Store
    → List HeaderEntry
    → BlockHash
    → Option (Store × Option IndexError)
index_new c d st new_headers t = elim (d.fetch (headers_to_index st new_headers)) [
  | none ↦ some (st, some no_blocks)
  | some batches ↦ do
    (st', scripts) ← index_all c adding st batches
    some (record st' { txstore = Maps.insert tip_key (tip t) st'.txstore }, none)
]

unfoldable pub roll_forward :
    IndexerConfig
    → Daemon
    → Store
    → List HeaderEntry
    → BlockHash
    → Option (Store × Option IndexError)
roll_forward c d st new_headers t = elim (d.fetch (headers_to_add st new_headers)) [
  | none ↦ some (st, some no_blocks)
  | some batches ↦ index_new c d (add_all c adding st batches) new_headers t
]

module _ (block_hash : BlockHeader → BlockHash) where
  unfoldable pub update : IndexerConfig → Daemon → Store → Option (Store × Option IndexError)
  unfolding get_new_headers
  update c d st = elim d.best [
    | none ↦ some (st, some no_tip)
    | some best ↦ elim (get_new_headers st.indexed_headers d best) [
      | none ↦ some (st, some no_headers)
      | some found ↦ do
        new_headers ← order block_hash st.indexed_headers found
        (headers, reorged, rollback_tip) ← apply st.indexed_headers new_headers
        t ← get_tip headers
        assert (best == t)
        (st', e) ← roll_back c d (record st { indexed_headers = headers }) reorged rollback_tip
        elim e [ some e ↦ some (st', some e) | none ↦ roll_forward c d st' new_headers best ]
    ]
  ]
