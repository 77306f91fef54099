-- ===== src/Tests/Blocks.antt =====
-- An indexer that was opened on the chain of three blocks, and a daemon that goes to the block
-- beside it and back.
use splora.Common.{
  ℕ, ◌≡◌, refl, map, Bool, ◌+◌, true, false, Option, none, some, List, [], ◌∷◌, ◌==◌, arith,
  if◌then◌else◌, ℕ_discrete,
}
use splora.Common.Maps
use splora.Common.Maps.{nat_key}
use splora.Headers.{BlockHash, BlockHeader, HeaderEntry, header_by_blockhash, order, apply, get_tip}
use splora.ChainQuery.Utxos.{out_point, OutPoint-discrete, out_point_key, funding}
use splora.Transactions.{Transaction}
use splora.Indexer.{
  out_key, header_key, added_key, nothing, block_header, tip_key, txout, tip, history_key,
  indexed_key, tx_store_key, history_key_key, IndexerConfig, TxStoreKey-discrete,
  HistoryKey-discrete, CacheKey-discrete,
}
use splora.Indexer.Updating.{Daemon, IndexError, get_new_headers, update}
use splora.Indexer.Writing.{Store}
use splora.Headers.{linked, adjacent, push_headers, push_header, expected_prev, new_height, number}
use splora.Indexer.Updating.{roll_back, reorg, roll_forward, index_new, walk_new}
use splora.Indexer.Writing.{
  index_all, index, lookup_txos, add_all, add, delete_history, delete_txstore, drop_caches,
  write_history, write_txstore,
}
use splora.Indexer.{
  get_previous_txos, index_blocks, TxHistoryInfo-discrete, add_block, add_blocks, add_transaction,
  funding_rows, index_transaction, index_transactions, spending_rows,
}
use splora.Common.Text.{dec_of, text_discrete, text_eq}
use splora.Indexer.Done.{mark}
use splora.Indexer.Forward.{FetchLaw}
use splora.Indexer.Back.{Updated, update_marks}
use splora.Common.Lists.{mem?}
use splora.Indexer.Added.{has}
use splora.Indexer.Opening.{
  open_databases, load_headers, load_blockheaders, load_added, load_indexed,
}
use splora.Indexer.Agreeing.{is_indexed, known_iff}
use splora.Headers
use splora.Indexer.Fetching.{
  Block, bitcoind, bitcoind_fetch, chunks, fetch_batch, fetch_batches, bitcoind-FetchLaw,
}
use splora.Indexer.Keeping.{Updates, here, next}
use splora.Indexer.Lost.{lost_block}
use splora.Indexer.Stale.{update-stale_best}
use splora.Tests.Hashing.{hash, pair, square}
use splora.Tests.Chains.{genesis, second, third, fork, main}

abbrev config : IndexerConfig
config = record {
  light_mode = false;
  address_search = true;
  index_unspendables = false;
  script_hash = λ s. elim s [ [] ↦ 0 | b ∷ (r → h) ↦ b ];
  illegal = λ b. b == 106;
  to_address_str = λ s. none;
}

abbrev coinbase : ℕ → Transaction
coinbase txid = record {
  txid = txid;
  weight = 400;
  input = record { previous_output = out_point 0 4294967295 } ∷ [];
  output = record { value = 50; script_pubkey = 118 ∷ [] } ∷ [];
}

-- It spends the coinbase of the genesis block.
abbrev payment : Transaction
payment = record {
  txid = 200;
  weight = 400;
  input = record { previous_output = out_point 101 0 } ∷ [];
  output = record { value = 45; script_pubkey = 169 ∷ [] } ∷ [];
}

abbrev block : BlockHash → Block
block hash = record {
  header = if hash == 3 then second.header else if hash == 6 then fork.header else third.header;
  txdata = coinbase (100 + hash) ∷ (if hash == 3 then payment ∷ [] else []);
  size = 300;
  weight = 1200;
}

abbrev daemon : BlockHash → List BlockHeader → Daemon
daemon best back = bitcoind best none back (λ hashes. some (map block hashes))

abbrev away : Daemon
away = daemon 6 (fork.header ∷ [])

abbrev returned : Daemon
returned = daemon 13 (third.header ∷ second.header ∷ [])

daemon-FetchLaw : (best : BlockHash) (back : List BlockHeader) → FetchLaw (daemon best back)
daemon-FetchLaw best back = bitcoind-FetchLaw best none back (λ hashes. some (map block hashes))

abbrev opened : Store
opened = record {
  txstore =
      (out_key (out_point 101 0), txout (record { value = 50; script_pubkey = 118 ∷ [] }))
      ∷ (header_key 1, block_header genesis.header)
      ∷ (added_key 1, nothing)
      ∷ (header_key 3, block_header second.header)
      ∷ (added_key 3, nothing)
      ∷ (header_key 13, block_header third.header)
      ∷ (added_key 13, nothing)
      ∷ (tip_key, tip 13)
      ∷ [];
  history =
      (indexed_key 1, tt)
      ∷ (history_key 118 1 0 (funding 103 0 50), tt)
      ∷ (indexed_key 3, tt)
      ∷ (indexed_key 13, tt)
      ∷ [];
  cache = [];
  added_blockhashes = 1 ∷ 3 ∷ 13 ∷ [];
  indexed_blockhashes = 1 ∷ 3 ∷ 13 ∷ [];
  indexed_headers = main;
}

abbrev after : Option (Store × Option IndexError) → Store
after none = opened
after (some (st, e)) = st

abbrev succeeds : Option (Store × Option IndexError) → Bool
succeeds none = false
succeeds (some (st, none)) = true
succeeds (some (st, some e)) = false

succeeds-after :
    (r : Option (Store × Option IndexError)) → succeeds r ≡ true → r ≡ some (after r, none)
succeeds-after none e = cc
succeeds-after (some (st, none)) e = refl
succeeds-after (some (st, some i)) e = cc

abbrev moved : Store
moved = after (update hash config away opened)

abbrev back : Store
back = after (update hash config returned moved)

moves : succeeds (update hash config away opened) ≡ true
unfolding hash pair square bitcoind_fetch chunks fetch_batches fetch_batch update order apply
    get_tip ℕ_discrete OutPoint-discrete TxStoreKey-discrete HistoryKey-discrete CacheKey-discrete
    header_by_blockhash Maps.get linked adjacent push_headers push_header roll_back reorg index_all
    index lookup_txos get_previous_txos index_blocks Maps.insert roll_forward index_new add_all
    Maps.remove dec_of text_discrete text_eq expected_prev new_height number TxHistoryInfo-discrete
    add delete_history delete_txstore drop_caches get_new_headers walk_new write_history
    write_txstore add_block add_blocks add_transaction funding_rows index_transaction
    index_transactions spending_rows
moves = refl

goes_back : succeeds (update hash config returned moved) ≡ true
unfolding hash pair square bitcoind_fetch chunks fetch_batches fetch_batch update order apply
    get_tip ℕ_discrete OutPoint-discrete TxStoreKey-discrete HistoryKey-discrete CacheKey-discrete
    header_by_blockhash Maps.get linked adjacent push_headers push_header roll_back reorg index_all
    index lookup_txos get_previous_txos index_blocks Maps.insert roll_forward index_new add_all
    Maps.remove dec_of text_discrete text_eq expected_prev new_height number TxHistoryInfo-discrete
    add delete_history delete_txstore drop_caches get_new_headers walk_new write_history
    write_txstore add_block add_blocks add_transaction funding_rows index_transaction
    index_transactions spending_rows
goes_back = refl

away_lost : mark 3 moved.history ≡ none
unfolding hash pair square bitcoind_fetch chunks fetch_batches fetch_batch update order apply
    get_tip ℕ_discrete OutPoint-discrete TxStoreKey-discrete HistoryKey-discrete CacheKey-discrete
    header_by_blockhash Maps.get linked adjacent push_headers push_header roll_back reorg index_all
    index lookup_txos get_previous_txos index_blocks Maps.insert roll_forward index_new add_all
    Maps.remove dec_of text_discrete text_eq expected_prev new_height number TxHistoryInfo-discrete
    add delete_history delete_txstore drop_caches get_new_headers walk_new write_history
    write_txstore add_block add_blocks add_transaction funding_rows index_transaction
    index_transactions spending_rows
away_lost = refl

update_marks_example :
    (best : BlockHash) × (found : List BlockHeader) × (new_headers : List HeaderEntry)
    × (reorged : List HeaderEntry) × (away.best ≡ some best)
    × (get_new_headers main away best ≡ some found)
    × (order hash main found ≡ some new_headers)
    × ((h : BlockHash) → Updated h best new_headers reorged opened moved)
update_marks_example =
    update_marks hash config away opened moved (daemon-FetchLaw 6 (fork.header ∷ []))
      (succeeds-after (update hash config away opened) moves)

opened-Updates : Updates hash config opened moved
opened-Updates =
    next away here (daemon-FetchLaw 6 (fork.header ∷ []))
      (succeeds-after (update hash config away opened) moves)

moved-Updates : Updates hash config moved back
moved-Updates =
    next returned here (daemon-FetchLaw 13 (third.header ∷ second.header ∷ []))
      (succeeds-after (update hash config returned moved) goes_back)

opens : open_databases hash opened.txstore opened.history [] ≡ some opened
unfolding hash pair square open_databases load_headers load_blockheaders load_added load_indexed
    Headers.new Maps.get TxStoreKey-discrete Maps.remove linked apply adjacent push_headers
    push_header Maps.insert
opens = refl

known_iff_example :
    (mem? 3 back.added_blockhashes ≡ has 3 back.txstore)
    × (mem? 3 back.indexed_blockhashes ≡ is_indexed 3 opened.history)
known_iff_example = known_iff hash config 3 opened.txstore opened.history [] opened back opens (
    next returned opened-Updates (daemon-FetchLaw 13 (third.header ∷ second.header ∷ []))
      (succeeds-after (update hash config returned moved) goes_back))

-- The block is in the chain again, without its history.
back_in_chain : header_by_blockhash back.indexed_headers 3 ≡ some second
unfolding hash pair square bitcoind_fetch chunks fetch_batches fetch_batch update order apply
    get_tip ℕ_discrete OutPoint-discrete TxStoreKey-discrete HistoryKey-discrete CacheKey-discrete
    header_by_blockhash Maps.get linked adjacent push_headers push_header roll_back reorg index_all
    index lookup_txos get_previous_txos index_blocks Maps.insert roll_forward index_new add_all
    Maps.remove dec_of text_discrete text_eq expected_prev new_height number TxHistoryInfo-discrete
    add delete_history delete_txstore drop_caches get_new_headers walk_new write_history
    write_txstore add_block add_blocks add_transaction funding_rows index_transaction
    index_transactions spending_rows
back_in_chain = refl

lost_block_example : mark 3 back.history ≡ none
lost_block_example =
    lost_block hash config 3 opened moved back refl opened-Updates away_lost moved-Updates

-- The daemon has gone back to `second`.
update-stale_best_example : update hash config (daemon 3 []) opened ≡ none
unfolding header_by_blockhash Maps.get get_tip ℕ_discrete
update-stale_best_example =
    update-stale_best hash config (daemon 3 []) opened 3 13 second refl refl refl (omega arith)
