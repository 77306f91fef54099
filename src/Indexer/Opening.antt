-- ===== src/Indexer/Opening.antt =====
-- src/new_index/schema.rs: `Store::open`, from what the three databases hold.
use splora.Common.{ℕ, Option, none, some, List, [], ◌∷◌, ◌>>=◌}
use splora.Common.Maps
use splora.Common.Maps.{Map}
use splora.Headers
use splora.Headers.{BlockHash, BlockHeader, HeaderList}
use splora.Indexer.{
  TxStoreKey, tx_key, conf_key, out_key, txids_key, meta_key, header_key, added_key, tip_key,
  TxStoreValue, nothing, raw_tx, txout, block_txids, block_meta, block_header, tip, HistoryKey,
  history_key, edge_key, address_key, indexed_key, tx_store_key, history_key_key, CacheKey,
}
use splora.Indexer.Writing.{Store}

-- `load_blockhashes` of the rows of added blocks.
unfoldable pub load_added : Map TxStoreKey TxStoreValue → List BlockHash
load_added [] = []
load_added ((tx_key t, v) ∷ db) = load_added db
load_added ((conf_key t b, v) ∷ db) = load_added db
load_added ((out_key o, v) ∷ db) = load_added db
load_added ((txids_key b, v) ∷ db) = load_added db
load_added ((meta_key b, v) ∷ db) = load_added db
load_added ((header_key b, v) ∷ db) = load_added db
load_added ((added_key b, v) ∷ db) = b ∷ load_added db
load_added ((tip_key, v) ∷ db) = load_added db

-- `load_blockhashes` of the rows of indexed blocks.
unfoldable pub load_indexed : Map HistoryKey (Unit {0}) → List BlockHash
load_indexed [] = []
load_indexed ((history_key a b c d, v) ∷ db) = load_indexed db
load_indexed ((edge_key a b c d, v) ∷ db) = load_indexed db
load_indexed ((address_key a, v) ∷ db) = load_indexed db
load_indexed ((indexed_key b, v) ∷ db) = b ∷ load_indexed db

-- `none` is a value that is not a header.
abbrev pub header_of : TxStoreValue → Option BlockHeader
header_of (block_header h) = some h
header_of nothing = none
header_of (raw_tx t) = none
header_of (txout o) = none
header_of (block_txids ts) = none
header_of (block_meta m) = none
header_of (tip h) = none

unfoldable pub load_blockheaders : Map TxStoreKey TxStoreValue → Option (Map BlockHash BlockHeader)
load_blockheaders [] = some []
load_blockheaders ((tx_key t, v) ∷ db) = load_blockheaders db
load_blockheaders ((conf_key t b, v) ∷ db) = load_blockheaders db
load_blockheaders ((out_key o, v) ∷ db) = load_blockheaders db
load_blockheaders ((txids_key b, v) ∷ db) = load_blockheaders db
load_blockheaders ((meta_key b, v) ∷ db) = load_blockheaders db
load_blockheaders ((header_key b, v) ∷ db) = do
  h ← header_of v
  rest ← load_blockheaders db
  some ((b, h) ∷ rest)
load_blockheaders ((added_key b, v) ∷ db) = load_blockheaders db
load_blockheaders ((tip_key, v) ∷ db) = load_blockheaders db

abbrev pub tip_of : TxStoreValue → Option BlockHash
tip_of (tip h) = some h
tip_of nothing = none
tip_of (raw_tx t) = none
tip_of (txout o) = none
tip_of (block_txids ts) = none
tip_of (block_meta m) = none
tip_of (block_header h) = none

module _ (block_hash : BlockHeader → BlockHash) where
  unfoldable pub load_headers : Map TxStoreKey TxStoreValue → Option HeaderList
  unfolding load_blockheaders
  load_headers txstore = elim (Maps.get tip_key txstore) [
    | none ↦ some Headers.empty
    | some v ↦ do
      tip_hash ← tip_of v
      headers_map ← load_blockheaders txstore
      Headers.new block_hash headers_map tip_hash
  ]

  unfoldable pub open_databases :
      Map TxStoreKey TxStoreValue → Map HistoryKey (Unit {0}) → Map CacheKey (List ℕ) → Option Store
  unfolding load_added load_indexed load_headers
  open_databases txstore history cache = do
    headers ← load_headers txstore
    some (record {
      txstore = txstore;
      history = history;
      cache = cache;
      added_blockhashes = load_added txstore;
      indexed_blockhashes = load_indexed history;
      indexed_headers = headers;
    })
