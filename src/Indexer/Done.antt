-- ===== src/Indexer/Done.antt =====
-- src/new_index/schema.rs: which blocks have a row that marks them as indexed.
use splora.Common.{
  ℕ, suc, ◌%◌, ◌^◌, ◌≡◌, ◌≢◌, refl, sym, ap, ◌∙◌, inl, inr, Bool, false, ◌||◌, Option, none, some,
  List, [], ◌∷◌, ◌++◌, ◌==◌, >>=-eq-some, if◌then◌else◌, arith, Bool-cases,
}
use mathlib.Core.Option.{some-injective}
use splora.Common.Lists.{mem?}
use splora.Common.Maps
use splora.Common.Maps.{Map, get-insert_self, get-insert_other, get-remove_self, get-remove_other}
use splora.Headers.{BlockHash}
use splora.ChainQuery.Utxos.{OutPoint, out_point, out_point_key}
use splora.Transactions.{TxOut, TxIn, Transaction, has_prevout, is_spendable}
use splora.Indexer.{
  BlockEntry, HistoryKey, history_key, edge_key, address_key, indexed_key, history_key_key,
  IndexerConfig, addr_search_rows, edge_of, funding_rows, spending_rows, index_transaction,
  index_transactions, index_blocks,
}
use splora.Indexer.Writing.{write_history, delete_history, hashes_of}

-- The rows mark this block.
abbrev pub marks : BlockHash → List HistoryKey → Bool
marks h [] = false
marks h (history_key a b c d ∷ rows) = marks h rows
marks h (edge_key a b c d ∷ rows) = marks h rows
marks h (address_key a ∷ rows) = marks h rows
marks h (indexed_key b ∷ rows) = (h == b) || marks h rows

marks-append : (h : BlockHash) (a b : List HistoryKey) → marks h (a ++ b) ≡ (marks h a || marks h b)
marks-append h [] b = refl
marks-append h (history_key x y z i ∷ a) b = marks-append h a b
marks-append h (edge_key x y z w ∷ a) b = marks-append h a b
marks-append h (address_key x ∷ a) b = marks-append h a b
marks-append h (indexed_key x ∷ a) b = ground (arith, marks-append h a b)

-- Whether the block is marked in the database.
abbrev pub mark : BlockHash → Map HistoryKey (Unit {0}) → Option (Unit {0})
mark h db = Maps.get (indexed_key h) db

pub write_history-mark :
    (h : BlockHash) (db : Map HistoryKey (Unit {0})) (rows : List HistoryKey)
    → mark h (write_history db rows) ≡ (if marks h rows then some tt else mark h db)
unfolding write_history
write_history-mark h db [] = refl
write_history-mark h db (history_key a b c d ∷ rows) =
    write_history-mark h (Maps.insert (history_key a b c d) tt db) rows
    ∙ ap (λ m. if marks h rows then some tt else m)
        (get-insert_other (history_key a b c d) (indexed_key h) tt db (λ e. cc))
write_history-mark h db (edge_key a b c d ∷ rows) =
    write_history-mark h (Maps.insert (edge_key a b c d) tt db) rows
    ∙ ap (λ m. if marks h rows then some tt else m)
        (get-insert_other (edge_key a b c d) (indexed_key h) tt db (λ e. cc))
write_history-mark h db (address_key a ∷ rows) =
    write_history-mark h (Maps.insert (address_key a) tt db) rows
    ∙ ap (λ m. if marks h rows then some tt else m)
        (get-insert_other (address_key a) (indexed_key h) tt db (λ e. cc))
write_history-mark h db (indexed_key b ∷ rows) =
    write_history-mark h (Maps.insert (indexed_key b) tt db) rows ∙ elim (Bool-cases (h == b)) [
      | inl same ↦
          let e : indexed_key h ≡ indexed_key b = ap indexed_key (ground (arith, same)) in
          rw (get-insert_self (indexed_key b) (indexed_key h) tt db e, same) (ground arith)
      | inr other ↦
          let n : indexed_key h ≢ indexed_key b = λ e. ground (arith, e, other) in
          rw (get-insert_other (indexed_key b) (indexed_key h) tt db n, other) refl
    ]

pub delete_history-mark :
    (h : BlockHash) (db : Map HistoryKey (Unit {0})) (rows : List HistoryKey)
    → mark h (delete_history db rows) ≡ (if marks h rows then none else mark h db)
unfolding delete_history
delete_history-mark h db [] = refl
delete_history-mark h db (history_key a b c d ∷ rows) =
    delete_history-mark h (Maps.remove (history_key a b c d) db) rows
    ∙ ap (λ m. if marks h rows then none else m)
        (get-remove_other (history_key a b c d) (indexed_key h) db (λ e. cc))
delete_history-mark h db (edge_key a b c d ∷ rows) =
    delete_history-mark h (Maps.remove (edge_key a b c d) db) rows
    ∙ ap (λ m. if marks h rows then none else m)
        (get-remove_other (edge_key a b c d) (indexed_key h) db (λ e. cc))
delete_history-mark h db (address_key a ∷ rows) =
    delete_history-mark h (Maps.remove (address_key a) db) rows
    ∙ ap (λ m. if marks h rows then none else m)
        (get-remove_other (address_key a) (indexed_key h) db (λ e. cc))
delete_history-mark h db (indexed_key b ∷ rows) =
    delete_history-mark h (Maps.remove (indexed_key b) db) rows ∙ elim (Bool-cases (h == b)) [
      | inl same ↦
          let e : indexed_key h ≡ indexed_key b = ap indexed_key (ground (arith, same)) in
          rw (get-remove_self (indexed_key b) (indexed_key h) db e, same) (ground arith)
      | inr other ↦
          let n : indexed_key h ≢ indexed_key b = λ e. ground (arith, e, other) in
          rw (get-remove_other (indexed_key b) (indexed_key h) db n, other) refl
    ]

module _ (c : IndexerConfig) (h : BlockHash) where
  addresses-mark : (script : List ℕ) → marks h (addr_search_rows c script) ≡ false
  addresses-mark script = elim (Bool-cases c.address_search) [
    | inr off ↦ rw off refl
    | inl on ↦
        rw on
          (elim (c.to_address_str script)
            as (λ a.
              marks h (elim a as (λ _. List HistoryKey) [
                | none ↦ []
                | some address ↦ address_key address ∷ []
              ])
              ≡ false) [ none ↦ refl | some a ↦ refl ])
  ]

  funding-mark :
      (txid height position i : ℕ) (os : List TxOut)
      → marks h (funding_rows c txid height position i os) ≡ false
  unfolding funding_rows
  funding-mark txid height position i [] = refl
  funding-mark txid height position i (o ∷ os) =
      let rest = funding-mark txid height position (suc i) os in
      elim (Bool-cases (is_spendable c.illegal o || c.index_unspendables)) [
        | inr skipped ↦ rw skipped rest
        | inl kept ↦ rw kept (
            marks-append h (addr_search_rows c o.script_pubkey)
              (funding_rows c txid height position (suc i) os)
            ∙ rw (addresses-mark o.script_pubkey, rest) refl)
      ]

  edge_of-mark :
      (o : OutPoint) (t v : ℕ) (rows : List HistoryKey)
      → marks h (edge_of o t v ∷ rows) ≡ marks h rows
  edge_of-mark (out_point a b) t v rows = refl

  spending-mark :
      (txid height position : ℕ) (txos : Map OutPoint TxOut) (i : ℕ) (input : List TxIn)
      (rows : List HistoryKey)
      → spending_rows c txid height position txos i input ≡ some rows
      → marks h rows ≡ false
  unfolding spending_rows
  spending-mark txid height position txos i [] rows e =
      ap (marks h) (sym (some-injective [] rows e))
  spending-mark txid height position txos i (x ∷ input) rows e = elim (Bool-cases (has_prevout x)) [
    | inr null ↦ spending-mark txid height position txos (suc i) input rows (rw null at e)
    | inl real ↦
        let (prev, a, e1) = >>=-eq-some (Maps.get x.previous_output txos) _ (rw real at e) in
        let (rest, b, e2) =
          >>=-eq-some (spending_rows c txid height position txos (suc i) input) _ e1 in
        ap (marks h) (sym (some-injective _ rows e2))
        ∙ edge_of-mark x.previous_output txid i rest
        ∙ spending-mark txid height position txos (suc i) input rest b
  ]

  transaction-mark :
      (height : ℕ) (txos : Map OutPoint TxOut) (position : ℕ) (tx : Transaction)
      (rows : List HistoryKey)
      → index_transaction c height txos position tx ≡ some rows
      → marks h rows ≡ false
  unfolding index_transaction
  transaction-mark height txos position tx rows e =
      let (spent, a, e1) =
        >>=-eq-some (spending_rows c tx.txid height position txos 0 tx.input) _ e in
      ap (marks h) (sym (some-injective _ rows e1))
      ∙ marks-append h (funding_rows c tx.txid height position 0 tx.output) spent
      ∙ rw
          (
            funding-mark tx.txid height position 0 tx.output,
            spending-mark tx.txid height position txos 0 tx.input spent a,
          )
          refl

  transactions-mark :
      (height : ℕ) (txos : Map OutPoint TxOut) (position : ℕ) (txs : List Transaction)
      (rows : List HistoryKey)
      → index_transactions c height txos position txs ≡ some rows
      → marks h rows ≡ false
  unfolding index_transactions
  transactions-mark height txos position [] rows e = ap (marks h) (sym (some-injective [] rows e))
  transactions-mark height txos position (tx ∷ txs) rows e =
      let (one, a, e1) = >>=-eq-some (index_transaction c height txos (position % 2 ^ 16) tx) _ e in
      let (rest, b, e2) = >>=-eq-some (index_transactions c height txos (suc position) txs) _ e1 in
      ap (marks h) (sym (some-injective _ rows e2))
      ∙ marks-append h one rest
      ∙ rw
          (
            transaction-mark height txos (position % 2 ^ 16) tx one a,
            transactions-mark height txos (suc position) txs rest b,
          )
          refl

  -- The rows of blocks mark these and no others.
  pub blocks-mark :
      (txos : Map OutPoint TxOut) (blocks : List BlockEntry) (rows : List HistoryKey)
      → index_blocks c txos blocks ≡ some rows
      → marks h rows ≡ mem? h (hashes_of blocks)
  unfolding index_blocks
  blocks-mark txos [] rows e = ap (marks h) (sym (some-injective [] rows e))
  blocks-mark txos (b ∷ blocks) rows e =
      let (one, a, e1) = >>=-eq-some (index_transactions c b.entry.height txos 0 b.txdata) _ e in
      let (rest, r, e2) = >>=-eq-some (index_blocks c txos blocks) _ e1 in
      ap (marks h) (sym (some-injective _ rows e2))
      ∙ marks-append h one (indexed_key b.entry.hash ∷ rest)
      ∙ rw (transactions-mark b.entry.height txos 0 b.txdata one a, blocks-mark txos blocks rest r)
          refl
