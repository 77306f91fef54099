-- ===== src/Indexer/Added.antt =====
-- src/new_index/schema.rs: which blocks have a row of the transaction store that marks them as added.
use splora.Common.{
  ℕ, suc, ◌≡◌, ◌≢◌, refl, ap, ◌∙◌, inl, inr, Bool, true, false, not, ◌||◌, ◌&&◌, List, [], ◌∷◌,
  ◌++◌, ◌==◌, arith, Bool-cases,
}
use splora.Common.Lists.{mem?}
use splora.Common.Maps
use splora.Common.Maps.{
  Map, contains_key, get-insert_self, get-insert_other, get-remove_self, get-remove_other,
}
use splora.Headers.{BlockHash}
use splora.ChainQuery.{Txid}
use splora.Transactions.{TxOut, Transaction, is_spendable}
use splora.Indexer.{
  BlockEntry, TxStoreKey, tx_key, conf_key, out_key, txids_key, meta_key, header_key, added_key,
  tip_key, TxStoreValue, tx_store_key, IndexerConfig, TxStoreRow, txout_rows, add_transaction,
  add_transactions, add_block, add_blocks,
}
use splora.Indexer.Writing.{write_txstore, delete_txstore, hashes_of}

-- The key marks this block.
abbrev pub names : BlockHash → TxStoreKey → Bool
names h (tx_key t) = false
names h (conf_key t b) = false
names h (out_key o) = false
names h (txids_key b) = false
names h (meta_key b) = false
names h (header_key b) = false
names h (added_key b) = h == b
names h tip_key = false

abbrev pub adds : BlockHash → List TxStoreRow → Bool
adds h [] = false
adds h ((k, v) ∷ rows) = names h k || adds h rows

pub names-eq : (h : BlockHash) (k : TxStoreKey) → names h k ≡ true → added_key h ≡ k
names-eq h (tx_key t) e = cc
names-eq h (conf_key t b) e = cc
names-eq h (out_key o) e = cc
names-eq h (txids_key b) e = cc
names-eq h (meta_key b) e = cc
names-eq h (header_key b) e = cc
names-eq h (added_key b) e = ap added_key (ground (arith, e))
names-eq h tip_key e = cc

pub names-ne : (h : BlockHash) (k : TxStoreKey) → names h k ≡ false → added_key h ≢ k
names-ne h k n e = ground (arith, n, ap (names h) e)

-- Whether the block is marked in the database.
abbrev pub has : BlockHash → Map TxStoreKey TxStoreValue → Bool
has h db = contains_key (added_key h) db

pub has-insert :
    (h : BlockHash) (k : TxStoreKey) (v : TxStoreValue) (db : Map TxStoreKey TxStoreValue)
    → has h (Maps.insert k v db) ≡ (names h k || has h db)
has-insert h k v db = elim (Bool-cases (names h k)) [
  | inl same ↦
      rw (get-insert_self k (added_key h) v db (names-eq h k same), contains_key) (rw same refl)
  | inr other ↦
      rw (get-insert_other k (added_key h) v db (names-ne h k other), contains_key) (rw other refl)
]

pub has-remove :
    (h : BlockHash) (k : TxStoreKey) (db : Map TxStoreKey TxStoreValue)
    → has h (Maps.remove k db) ≡ (has h db && not (names h k))
has-remove h k db = elim (Bool-cases (names h k)) [
  | inl same ↦
      rw (get-remove_self k (added_key h) db (names-eq h k same), contains_key)
        (rw same (ground arith))
  | inr other ↦
      rw (get-remove_other k (added_key h) db (names-ne h k other), contains_key)
        (rw other (ground arith))
]

pub has-write_txstore :
    (h : BlockHash) (db : Map TxStoreKey TxStoreValue) (rows : List TxStoreRow)
    → has h (write_txstore db rows) ≡ (adds h rows || has h db)
unfolding write_txstore
has-write_txstore h db [] = refl
has-write_txstore h db ((k, v) ∷ rows) =
    has-write_txstore h (Maps.insert k v db) rows ∙ ground (arith, has-insert h k v db)

pub has-delete_txstore :
    (h : BlockHash) (db : Map TxStoreKey TxStoreValue) (rows : List TxStoreRow)
    → has h (delete_txstore db rows) ≡ (has h db && not (adds h rows))
unfolding delete_txstore
has-delete_txstore h db [] = ground arith
has-delete_txstore h db ((k, v) ∷ rows) =
    has-delete_txstore h (Maps.remove k db) rows ∙ ground (arith, has-remove h k db)

module _ (c : IndexerConfig) (h : BlockHash) where
  adds-append : (a b : List TxStoreRow) → adds h (a ++ b) ≡ (adds h a || adds h b)
  adds-append [] b = refl
  adds-append ((k, v) ∷ a) b = ground (arith, adds-append a b)

  adds-txout_rows :
      (txid : Txid) (i : ℕ) (os : List TxOut) → adds h (txout_rows c txid i os) ≡ false
  adds-txout_rows txid i [] = refl
  adds-txout_rows txid i (o ∷ os) = elim (Bool-cases (is_spendable c.illegal o)) [
    | inl kept ↦ rw kept (adds-txout_rows txid (suc i) os)
    | inr skipped ↦ rw skipped (adds-txout_rows txid (suc i) os)
  ]

  adds-add_transaction :
      (b : BlockHash) (tx : Transaction) → adds h (add_transaction c b tx) ≡ false
  unfolding add_transaction
  adds-add_transaction b tx = elim (Bool-cases c.light_mode) [
    | inl light ↦ rw light (adds-txout_rows tx.txid 0 tx.output)
    | inr full ↦ rw full (adds-txout_rows tx.txid 0 tx.output)
  ]

  adds-add_transactions :
      (b : BlockHash) (txs : List Transaction) → adds h (add_transactions c b txs) ≡ false
  adds-add_transactions b [] = refl
  adds-add_transactions b (tx ∷ txs) =
      adds-append (add_transaction c b tx) (add_transactions c b txs)
      ∙ rw (adds-add_transaction b tx, adds-add_transactions b txs) refl

  adds-add_block : (b : BlockEntry) → adds h (add_block c b) ≡ (h == b.entry.hash)
  unfolding add_block
  adds-add_block b =
      adds-append (add_transactions c b.entry.hash b.txdata) _
      ∙ rw (adds-add_transactions b.entry.hash b.txdata) (elim (Bool-cases c.light_mode) [
        | inl light ↦ rw light (ground arith)
        | inr full ↦ rw full (ground arith)
      ])

  -- The rows of blocks mark these and no others.
  pub adds-add_blocks :
      (blocks : List BlockEntry) → adds h (add_blocks c blocks) ≡ mem? h (hashes_of blocks)
  unfolding add_blocks
  adds-add_blocks [] = refl
  adds-add_blocks (b ∷ blocks) =
      adds-append (add_block c b) (add_blocks c blocks)
      ∙ ground (arith, adds-add_block b, adds-add_blocks blocks)
