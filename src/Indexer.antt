-- ===== src/Indexer.antt =====
-- src/new_index/schema.rs, the indexer: the rows of a block in the transaction store and in the
-- history. Without Liquid. A key is written with its parts where the source serializes them, and
-- a value as what is read back from it. Writing and Updating have the operations.
pub mod Writing
pub mod Updating
pub mod Done
pub mod Marking
pub mod Forward
pub mod Back
pub mod Fetching
pub mod Keeping
pub mod Lost
pub mod Stale
pub mod Added
pub mod Opening
pub mod Agreeing
use splora.Common.{
  ℕ, zero, suc, ◌+◌, ◌%◌, ◌^◌, ◌≡◌, Bool, true, false, not, ◌||◌, ◌&&◌, Option, none, some, List,
  [], ◌∷◌, ◌++◌, map, ◌==◌, ◌>>=◌, if◌then◌else◌, ℕ_discrete, length,
}
use splora.Common.Maps
use splora.Common.Maps.{Key, Map}
use splora.Common.Text.{Text, text_discrete}
use splora.Headers.{BlockHash, BlockHeader, HeaderEntry, HeaderList}
use splora.ChainQuery.{Txid}
use splora.ChainQuery.Utxos.{
  OutPoint, out_point, OutPoint-discrete, out_point_key, TxHistoryInfo, spending, funding,
}
use splora.Transactions.{TxOut, TxIn, Transaction, has_prevout, is_spendable}
use splora.Mempool.Index.{outpoints_of, spend_of}

-- `FetchedBlock` with its entry; the weight is what the bitcoin crate computes.
pub record BlockEntry : Type 0 where
  pub header : BlockHeader
  pub txdata : List Transaction
  pub entry : HeaderEntry
  pub size : ℕ
  pub weight : ℕ

pub record BlockMeta : Type 0 where
  pub tx_count : ℕ
  pub size : ℕ
  pub weight : ℕ

-- The keys of the transaction store, by their first byte: T, C, O, X, M, B, D and t.
pub data TxStoreKey : Type 0 where
  tx_key : Txid → TxStoreKey
  conf_key : Txid → BlockHash → TxStoreKey
  out_key : OutPoint → TxStoreKey
  txids_key meta_key header_key added_key : BlockHash → TxStoreKey
  tip_key : TxStoreKey

pub data TxStoreValue : Type 0 where
  nothing : TxStoreValue
  raw_tx : Transaction → TxStoreValue
  txout : TxOut → TxStoreValue
  block_txids : List Txid → TxStoreValue
  block_meta : BlockMeta → TxStoreValue
  block_header : BlockHeader → TxStoreValue
  tip : BlockHash → TxStoreValue

-- The keys of the history, by their first byte: H, S, a and D. Their values are empty.
pub data HistoryKey : Type 0 where
  history_key : (hash confirmed_height tx_position : ℕ) → TxHistoryInfo → HistoryKey
  edge_key : (funding_txid funding_vout spending_txid spending_vin : ℕ) → HistoryKey
  address_key : Text → HistoryKey
  indexed_key : BlockHash → HistoryKey

-- The keys of the cache, by the kind of row.
pub data CacheKey : Type 0 where
  stats_cache utxo_cache : ℕ → CacheKey

unfoldable pub TxStoreKey-discrete : Discrete TxStoreKey
unfolding ℕ_discrete OutPoint-discrete
TxStoreKey-discrete = hlevel (ℕ_discrete, OutPoint-discrete)

unfoldable pub TxHistoryInfo-discrete : Discrete TxHistoryInfo
unfolding ℕ_discrete
TxHistoryInfo-discrete = hlevel ℕ_discrete

unfoldable pub HistoryKey-discrete : Discrete HistoryKey
unfolding ℕ_discrete TxHistoryInfo-discrete text_discrete
HistoryKey-discrete = hlevel (ℕ_discrete, TxHistoryInfo-discrete, text_discrete)

unfoldable pub CacheKey-discrete : Discrete CacheKey
unfolding ℕ_discrete
CacheKey-discrete = hlevel ℕ_discrete

instance abbrev pub tx_store_key : Key TxStoreKey
tx_store_key = record { eq? = TxStoreKey-discrete }

instance abbrev pub history_key_key : Key HistoryKey
history_key_key = record { eq? = HistoryKey-discrete }

instance abbrev pub cache_key : Key CacheKey
cache_key = record { eq? = CacheKey-discrete }

-- What the indexer reads of the configuration, and asks of other code: the hash of a script, the
-- class of an opcode and the address of a script on the network.
pub record IndexerConfig : Type 0 where
  pub light_mode : Bool
  pub address_search : Bool
  pub index_unspendables : Bool
  pub script_hash : List ℕ → ℕ
  pub illegal : ℕ → Bool
  pub to_address_str : List ℕ → Option Text

abbrev pub TxStoreRow : Type 0
TxStoreRow = TxStoreKey × TxStoreValue

abbrev pub txout_rows : IndexerConfig → Txid → ℕ → List TxOut → List TxStoreRow
txout_rows c txid index [] = []
txout_rows c txid index (o ∷ os) =
    let rest = txout_rows c txid (suc index) os in
    if is_spendable c.illegal o then (out_key (out_point txid index), txout o) ∷ rest else rest

unfoldable pub add_transaction : IndexerConfig → BlockHash → Transaction → List TxStoreRow
add_transaction c blockhash tx =
    (conf_key tx.txid blockhash, nothing)
    ∷ ((if c.light_mode then [] else (tx_key tx.txid, raw_tx tx) ∷ [])
        ++ txout_rows c tx.txid 0 tx.output)

abbrev pub add_transactions : IndexerConfig → BlockHash → List Transaction → List TxStoreRow
add_transactions c blockhash [] = []
add_transactions c blockhash (tx ∷ txs) =
    add_transaction c blockhash tx ++ add_transactions c blockhash txs

abbrev pub meta_of : BlockEntry → BlockMeta
meta_of b = record {
  tx_count = length b.txdata % 2 ^ 32;
  size = b.size;
  weight = b.weight % 2 ^ 32;
}

unfoldable pub add_block : IndexerConfig → BlockEntry → List TxStoreRow
unfolding add_transaction
add_block c b =
    let blockhash = b.entry.hash in
    add_transactions c blockhash b.txdata
    ++ ((if c.light_mode
          then []
          else (txids_key blockhash, block_txids (map (λ (tx : Transaction). tx.txid) b.txdata))
            ∷ (meta_key blockhash, block_meta (meta_of b))
            ∷ [])
        ++ (header_key blockhash, block_header b.header) ∷ (added_key blockhash, nothing) ∷ [])

unfoldable pub add_blocks : IndexerConfig → List BlockEntry → List TxStoreRow
unfolding add_block
add_blocks c [] = []
add_blocks c (b ∷ blocks) = add_block c b ++ add_blocks c blocks

abbrev pub outpoints_of_txs : List Transaction → List OutPoint
outpoints_of_txs [] = []
outpoints_of_txs (tx ∷ txs) = outpoints_of tx.input ++ outpoints_of_txs txs

-- A set in the source, which is only looked up.
unfoldable pub get_previous_txos : List BlockEntry → List OutPoint
get_previous_txos [] = []
get_previous_txos (b ∷ blocks) = outpoints_of_txs b.txdata ++ get_previous_txos blocks

-- `addr_search_row`
abbrev pub addr_search_rows : IndexerConfig → List ℕ → List HistoryKey
addr_search_rows c script =
    if c.address_search
    then elim (c.to_address_str script) [ none ↦ [] | some address ↦ address_key address ∷ [] ]
    else []

unfoldable pub funding_rows : IndexerConfig → Txid → ℕ → ℕ → ℕ → List TxOut → List HistoryKey
funding_rows c txid height position index [] = []
funding_rows c txid height position index (o ∷ os) =
    let rest = funding_rows c txid height position (suc index) os in
    if is_spendable c.illegal o || c.index_unspendables
    then history_key (c.script_hash o.script_pubkey) height position (funding txid index o.value)
      ∷ (addr_search_rows c o.script_pubkey ++ rest)
    else rest

abbrev pub edge_of : OutPoint → Txid → ℕ → HistoryKey
edge_of (out_point txid vout) spending_txid vin = edge_key txid vout spending_txid vin

-- `none` is the panic on a missing output.
unfoldable pub spending_rows :
    IndexerConfig → Txid → ℕ → ℕ → Map OutPoint TxOut → ℕ → List TxIn → Option (List HistoryKey)
spending_rows c txid height position txos index [] = some []
spending_rows c txid height position txos index (i ∷ input) =
    let rest = spending_rows c txid height position txos (suc index) input in
    let found = (do
      prev ← Maps.get i.previous_output txos
      rows ← rest
      some (
          history_key (c.script_hash prev.script_pubkey) height position
            (spend_of txid index i.previous_output prev.value)
          ∷ edge_of i.previous_output txid index
          ∷ rows)) in
    if has_prevout i then found else rest

unfoldable pub index_transaction :
    IndexerConfig → ℕ → Map OutPoint TxOut → ℕ → Transaction → Option (List HistoryKey)
unfolding funding_rows spending_rows
index_transaction c height txos position tx = do
  spent ← spending_rows c tx.txid height position txos 0 tx.input
  some (funding_rows c tx.txid height position 0 tx.output ++ spent)

-- The position is a u16.
unfoldable pub index_transactions :
    IndexerConfig → ℕ → Map OutPoint TxOut → ℕ → List Transaction → Option (List HistoryKey)
unfolding index_transaction
index_transactions c height txos position [] = some []
index_transactions c height txos position (tx ∷ txs) = do
  rows ← index_transaction c height txos (position % 2 ^ 16) tx
  rest ← index_transactions c height txos (suc position) txs
  some (rows ++ rest)

unfoldable pub index_blocks :
    IndexerConfig → Map OutPoint TxOut → List BlockEntry → Option (List HistoryKey)
unfolding index_transactions
index_blocks c txos [] = some []
index_blocks c txos (b ∷ blocks) = do
  rows ← index_transactions c b.entry.height txos 0 b.txdata
  rest ← index_blocks c txos blocks
  some (rows ++ (indexed_key b.entry.hash ∷ rest))
