-- ===== src/Indexer/Writing.antt =====
-- src/new_index/schema.rs: the store, and how `Indexer` adds blocks to it and takes them out. `none` is
-- a panic. Flushes and compactions are left out.
use splora.Common.{
  ℕ, Bool, true, false, Option, none, some, List, [], ◌∷◌, ◌++◌, ◌>>=◌, ◌>>◌, assert, if◌then◌else◌,
}
use splora.Common.Lists.{mem?}
use splora.Common.Maps
use splora.Common.Maps.{Map}
use splora.Headers.{BlockHash, HeaderList}
use splora.ChainQuery.Utxos.{OutPoint, out_point_key}
use splora.Transactions.{TxOut}
use splora.Indexer.{
  BlockEntry, TxStoreKey, out_key, TxStoreValue, txout, HistoryKey, history_key, edge_key,
  address_key, indexed_key, CacheKey, stats_cache, utxo_cache, tx_store_key, history_key_key,
  cache_key, IndexerConfig, TxStoreRow, add_blocks, get_previous_txos, index_blocks,
}

-- The two sets of hashes are read from the databases when the store is opened.
pub record Store : Type 0 where
  pub txstore : Map TxStoreKey TxStoreValue
  pub history : Map HistoryKey (Unit {0})
  pub cache : Map CacheKey (List ℕ)
  pub added_blockhashes : List BlockHash
  pub indexed_blockhashes : List BlockHash
  pub indexed_headers : HeaderList

pub data Operation : Type 0 where
  adding deleting deleting_with_history : Operation

abbrev pub is_adding : Operation → Bool
is_adding adding = true
is_adding deleting = false
is_adding deleting_with_history = false

-- `DB::write` and `DB::delete`
unfoldable pub write_txstore :
    Map TxStoreKey TxStoreValue → List TxStoreRow → Map TxStoreKey TxStoreValue
write_txstore db [] = db
write_txstore db ((k, v) ∷ rows) = write_txstore (Maps.insert k v db) rows

unfoldable pub delete_txstore :
    Map TxStoreKey TxStoreValue → List TxStoreRow → Map TxStoreKey TxStoreValue
delete_txstore db [] = db
delete_txstore db ((k, v) ∷ rows) = delete_txstore (Maps.remove k db) rows

unfoldable pub write_history :
    Map HistoryKey (Unit {0}) → List HistoryKey → Map HistoryKey (Unit {0})
write_history db [] = db
write_history db (k ∷ rows) = write_history (Maps.insert k tt db) rows

unfoldable pub delete_history :
    Map HistoryKey (Unit {0}) → List HistoryKey → Map HistoryKey (Unit {0})
delete_history db [] = db
delete_history db (k ∷ rows) = delete_history (Maps.remove k db) rows

-- `lookup_txo`: the value under the key of an outpoint is an output.
abbrev pub lookup_txo : Map TxStoreKey TxStoreValue → OutPoint → Option TxOut
lookup_txo db o = elim (Maps.get (out_key o) db) [ some (txout txo) ↦ some txo | _ ↦ none ]

-- `lookup_txos` and `lookup_txos_sequential` without allowing for missing ones.
unfoldable pub lookup_txos :
    Map TxStoreKey TxStoreValue → List OutPoint → Option (Map OutPoint TxOut)
lookup_txos db [] = some []
lookup_txos db (o ∷ os) = do
  txo ← lookup_txo db o
  rest ← lookup_txos db os
  some (Maps.insert o txo rest)

abbrev pub hashes_of : List BlockEntry → List BlockHash
hashes_of [] = []
hashes_of (b ∷ blocks) = b.entry.hash ∷ hashes_of blocks

-- `HashSet::remove` for each of the hashes.
abbrev pub remove_hashes : List BlockHash → List BlockHash → List BlockHash
remove_hashes [] gone = []
remove_hashes (h ∷ hs) gone =
    let rest = remove_hashes hs gone in if mem? h gone then rest else h ∷ rest

unfoldable pub add : IndexerConfig → Operation → Store → List BlockEntry → Store
unfolding write_txstore delete_txstore
add c op st blocks =
    let rows = add_blocks c blocks in
    if is_adding op
    then record st {
      txstore = write_txstore st.txstore rows;
      added_blockhashes = hashes_of blocks ++ st.added_blockhashes;
    }
    else record st {
      txstore = delete_txstore st.txstore rows;
      added_blockhashes = remove_hashes st.added_blockhashes (hashes_of blocks);
    }

abbrev pub all_added : List BlockHash → List BlockEntry → Bool
all_added added [] = true
all_added added (b ∷ blocks) = if mem? b.entry.hash added then all_added added blocks else false

-- What `script_callback` is called with.
abbrev pub script_hashes : List HistoryKey → List ℕ
script_hashes [] = []
script_hashes (history_key hash height position info ∷ rows) = hash ∷ script_hashes rows
script_hashes (edge_key a b c d ∷ rows) = script_hashes rows
script_hashes (address_key a ∷ rows) = script_hashes rows
script_hashes (indexed_key h ∷ rows) = script_hashes rows

-- The store after it, and the scripts that are sent when history is deleted.
unfoldable pub index : IndexerConfig → Operation → Store → List BlockEntry → Option (Store × List ℕ)
unfolding write_history delete_history
index c op st blocks = do
  txos ← lookup_txos st.txstore (get_previous_txos blocks)
  assert (if is_adding op then all_added st.added_blockhashes blocks else true)
  rows ← index_blocks c txos blocks
  some (
    record st {
      history =
          if is_adding op then write_history st.history rows else delete_history st.history rows;
    },
    elim op [ adding ↦ [] | deleting ↦ [] | deleting_with_history ↦ script_hashes rows ],
  )

-- The fetchers hand the blocks over in batches.
unfoldable pub add_all : IndexerConfig → Operation → Store → List (List BlockEntry) → Store
add_all c op st [] = st
add_all c op st (blocks ∷ batches) = add_all c op (add c op st blocks) batches

unfoldable pub index_all :
    IndexerConfig → Operation → Store → List (List BlockEntry) → Option (Store × List ℕ)
index_all c op st [] = some (st, [])
index_all c op st (blocks ∷ batches) = do
  (st', scripts) ← index c op st blocks
  (st'', rest) ← index_all c op st' batches
  some (st'', scripts ++ rest)

unfoldable pub drop_caches : Map CacheKey (List ℕ) → List ℕ → Map CacheKey (List ℕ)
drop_caches cache [] = cache
drop_caches cache (s ∷ scripts) =
    drop_caches (Maps.remove (utxo_cache s) (Maps.remove (stats_cache s) cache)) scripts
