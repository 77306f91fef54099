-- ===== src/Lib.antt =====
-- splora: an indexer of a Bitcoin-like chain, with an Electrum and an HTTP front. This library
-- models the logic of twelve of its parts, written as in the source, and proves what makes each
-- correct. A path below is from the repository's root.
--
-- How the parts fit together. The indexer keeps the headers of the best chain in a `HeaderList`
-- (src/util/block.rs): new headers are put in order and applied, which may roll blocks back.
-- `update` (src/new_index/schema.rs) then deletes the rows of the blocks that were rolled back and
-- writes those of the new ones, to a store of transactions and to one of the histories of scripts.
-- The chain queries (src/new_index/schema.rs) look headers up and tell which block of the best
-- chain confirms a transaction; the Merkle proofs for Electrum clients
-- (src/util/electrum_merkle.rs) are made from them. The mempool (src/new_index/mempool.rs) stores
-- the unconfirmed transactions of the daemon and indexes them by script and by outpoint; the main
-- loop updates it while broadcasts add to it. Beside the index, `DiscoveryManager`
-- (src/electrum/discovery.rs) checks the peers that other servers report. The public HTTP front
-- (src/http_front/mod.rs) sends a request on to the unix socket of a network; a request is
-- authorized by a signed NIP-98 event of a key on the allowlist (src/auth.rs); new keys wait in
-- the approval queue (src/queue.rs) until the operator's commands move them to the allowlist file.
--
-- Files:
--   Common: Boolean tests, lists and sorting over the native numbers, keyed maps, results, text,
--     lines and files, each with its laws. Tests: the conditional and the chain of Option steps.
--   Headers: src/util/block.rs. `HeaderList` with `new`, `order`, `apply` and the getters, under
--     their names; `walk_back`, `push_header` and `push_headers` are the loops of `new` and
--     `apply`. Below it, Chained has the chains of entries, Distinct that a chain repeats no hash,
--     Reorg, Order, Lookup, Build and MedianTime the theorems.
--   ChainQuery: the header lookups, `tx_confirming_block` and `get_block_status` of
--     src/new_index/schema.rs; Utxos has `utxo_delta` there and Stats `stats`; Scripts has `utxo`,
--     `history_txids` and `lookup_spend`. Utxos/Restoring and Stats/Restarting are about going on
--     from what is cached; Confirming, Utxos/Delta, Utxos/Cached and Stats/Cached have the
--     theorems.
--   Merkle: `create_merkle_branch_and_root` of src/util/electrum_merkle.rs; Queries has its
--     requests, Proof and Queries/Laws the theorems.
--   Discovery: src/electrum/discovery.rs with the types of src/electrum/mod.rs. Addr has the
--     addresses, Queue the jobs and the heap, Checking the health checks, Listing the texts for
--     clients. Consistent and Checks are about the health checks, Duplicates about a service that
--     is queued twice, Announcing about a manager that announces itself, Requests about what a
--     peer can add, Versions about the text of a version.
--   Auth: src/auth.rs, the allowlist file and `verify_nip98`. TagScan, EventCheck and Verify have
--     the theorems.
--   Queue: src/queue.rs. Rows has the file's lines, Commands the operator's commands, Http the
--     replies. Changes has what happens to its rows, Limits what a submission needs, Saving what
--     it leaves, Keys the keys of allowlist lines, RoundTrip, Rate, Submit, Reload, Approval and
--     Approve the theorems.
--   Front: `route` and `dispatch` of src/http_front/mod.rs. Routing and Sending have the theorems.
--   Transactions: src/util/transaction.rs and the test of src/util/script.rs.
--   Fees: src/util/fees.rs, with f32 rates as their bits. Histogram has the theorem.
--   Mempool: src/new_index/mempool.rs. It has the state and what only reads it, Index the
--     operations that change it, System their steps under concurrency. Log has what the index
--     stands for: the list of the processed transactions. Storing, Lookup, Entries and Indexing
--     are about the phases of `add`, Retaining about those of `remove`, Effects about what both do
--     to the store and the edges, Listed about the ids that `update` lists; Adding, Removing,
--     Serving, Running, Orphans and Paging have the theorems.
--   Indexer: src/new_index/schema.rs. It has the rows of a block; Writing has the store with `add`
--     and `index`, Updating `reorg` and `update`, and `get_new_headers` of src/daemon.rs.
--     `roll_back`, `roll_forward` and `index_new` are the parts of `update`. Opening has
--     `Store::open`, Fetching the fetchers of src/new_index/fetch.rs that ask bitcoind for blocks.
--     Done, Marking and Added are about the rows that mark a block, Forward and Back about the
--     parts of an update, Keeping about what any number of updates keeps; Back, Lost, Agreeing and
--     Stale have the theorems.
--   Query: src/new_index/query.rs, what the chain and the mempool answer together, and the cached
--     fee rates. Outputs has the theorem.
--   Tests: concrete inputs.
--
-- State is passed explicitly: an operation returns the new record. A panic (a failed assertion, an
-- index out of bounds, an explicit panic) is `none` of an Option, or `panic` of `Outcome` where
-- the code has errors too. A `HashMap` is an association list. Numbers are unbounded but where the
-- code's width shows: the saturating sum and the `u32` length in the queue, the `u32` sizes of the
-- fee histogram, the position of a transaction in its block, the sums of statistics, and `usize`
-- when a version is parsed. Text is the list of its characters; lengths in bytes are those of
-- UTF-8. Lower case is that of ASCII letters.
--
-- Fuel: `walk_back` takes a header out of the map in each round, so one more round than headers is
-- enough; `branch_loop` at least halves its list, so one round more than hashes is enough;
-- `digits` has one round more than the number. The theorems on these show that the fuel does not
-- run out.
--
-- Parameters, for code of other crates: the hash of a header, which `HashLaws` takes to have no
-- collision and never to be the null hash; the hash of two hashes; the name service, the address
-- parser and the probe of a server; the parser of a public key, Base64, JSON, the signature check
-- and SHA-256; in `Deps` the confirmed outputs of the database, the hash of a script, the class of
-- an opcode and the quotient of two numbers as f32; in `IndexerConfig` the hash and the address of
-- a script and the class of an opcode; in `Daemon` what the daemon answers to one update and the
-- blocks that the fetchers hand over, which `FetchLaw` takes to be those that were asked for. A
-- transaction carries its id and weight, which the bitcoin crate computes.
--
-- Not modelled: the database and its bytes, the reading of blk files, flushes, the Electrum, REST
-- and websocket servers, Liquid assets, configuration, metrics and the binaries; threads and locks
-- but for the mempool's, each operation being one step; the order of a `HashMap`, which is that of
-- the list, and the order in which the heap gives jobs of the same age.
pub mod Common
pub mod Headers
pub mod ChainQuery
pub mod Merkle
pub mod Discovery
pub mod Auth
pub mod Queue
pub mod Front
pub mod Transactions
pub mod Fees
pub mod Mempool
pub mod Indexer
pub mod Query
pub mod Tests
