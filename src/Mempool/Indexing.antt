-- ===== src/Mempool/Indexing.antt =====
-- The loop of `add` in src/new_index/mempool.rs: each round logs one transaction or skips it.
use splora.Common.{
  ℕ, suc, ◌+◌, ◌≡◌, refl, sym, ap, ◌∙◌, inl, inr, true, none, some, List, [], ◌∷◌, ◌++◌, ◌>>=◌,
  arith, length, get_elem?-some, Option-cases, All-append, length-append,
}
use mathlib.Core.Path.{subst}
use mathlib.Core.List.{append_assoc, append-nil}
use splora.Common.Lists.{All}
use splora.Common.Maps
use splora.Common.Maps.{
  Map, nat_key, contains_key, HasDistinctKeys, get-insert, get-insert_self, get-insert_other,
  insert-HasDistinctKeys,
}
use splora.Common.Keys.{get-contains_key, contains_key-some, contains_key-insert}
use splora.ChainQuery.{Txid}
use splora.ChainQuery.Utxos.{OutPoint, out_point_key}
use splora.Transactions.{TxOut, Transaction, extract_tx_prevouts}
use splora.Fees
use splora.Mempool.{Mempool}
use splora.Mempool.Index.{
  Deps, HistoryEntry, funding_entries, spend_of, spending_entries, push_entries, add_edges,
  index_tx, index_txs, push_front_capped, overview_of,
}
use splora.Mempool.Entries.{
  entries_of-push, push-HasDistinctKeys, edges-HasDistinctKeys, get-add_edges, spend_of-of,
  AreBelow, prevouts-below,
}
use splora.Mempool.Effects.{
  or_kept, or_kept_assoc, last_spend, last_spend-append, add_edges-last_input,
}
use splora.Mempool.Log.{
  Log, entries_at, logged_entries, AreOf, Refines, processed, is_logged-append,
  logged_entries-append, IsSpentIn-append_left, IsSpentIn-append_right,
}

-- What one round logs, by the outputs looked up before.
abbrev pub log_tx : Deps → Map OutPoint TxOut → Map Txid Transaction → Txid → Log
log_tx d txos txstore t = elim (Maps.get t txstore) [
  | none ↦ []
  | some tx ↦ elim (extract_tx_prevouts tx txos) [
    | none ↦ []
    | some prevouts ↦ elim (spending_entries d t tx prevouts) [
      | none ↦ []
      | some spent ↦ processed d t tx spent ∷ []
    ]
  ]
]

abbrev pub log_txs : Deps → Map OutPoint TxOut → Map Txid Transaction → List Txid → Log
log_txs d txos txstore [] = []
log_txs d txos txstore (t ∷ ts) = log_tx d txos txstore t ++ log_txs d txos txstore ts

-- The edges after these transactions, for each outpoint.
abbrev pub Spent : Mempool → Mempool → Log → Type 0
Spent m m' log =
    (o : OutPoint) → Maps.get o m'.edges ≡ or_kept (last_spend o log) (Maps.get o m.edges)

module _ (d : Deps) where
  spending_total :
      (t : Txid) (tx : Transaction) (ps : Map ℕ TxOut)
      → AreBelow (length tx.input) ps
      → (es : List HistoryEntry) × (spending_entries d t tx ps ≡ some es) × AreOf t es
  unfolding spending_entries
  spending_total t tx [] h = ([], refl, tt)
  spending_total t tx ((k, o) ∷ ps) h =
      let (i, at) = get_elem?-some tx.input k h.0 in
      let (es, rest, own) = spending_total t tx ps h.1 in
      (
        (d.script_hash o.script_pubkey, spend_of t k i.previous_output o.value) ∷ es,
        rw (at, rest) refl,
        (spend_of-of t k i.previous_output o.value, own),
      )

  funding-AreOf : (t i : ℕ) (os : List TxOut) → AreOf t (funding_entries d t i os)
  unfolding funding_entries
  funding-AreOf t i [] = tt
  funding-AreOf t i (o ∷ os) = ground (arith, funding-AreOf t (suc i) os)

  -- The mempool after it.
  abbrev after_tx : Mempool → Txid → Transaction → Map ℕ TxOut → List HistoryEntry → Mempool
  after_tx m t tx ps spent = record m {
    recent =
        push_front_capped m.recent d.config.mempool_recent_txs_size
          (overview_of t (Fees.new d.fee_rate tx ps) ps);
    feeinfo = Maps.insert t (Fees.new d.fee_rate tx ps) m.feeinfo;
    history = push_entries m.history (processed d t tx spent).entries;
    edges = add_edges m.edges t 0 tx.input;
  }

  after_tx-Refines :
      (m : Mempool) (log : Log) (t : Txid) (tx : Transaction) (ps : Map ℕ TxOut)
      (spent : List HistoryEntry)
      → Maps.get t m.txstore ≡ some tx
      → AreOf t spent
      → Refines m log
      → Refines (after_tx m t tx ps spent) (log ++ processed d t tx spent ∷ [])
  after_tx-Refines m log t tx ps spent at own r = record {
    indexed = λ s.
        entries_of-push s m.history (processed d t tx spent).entries
        ∙ ap (λ l. l ++ entries_at s (processed d t tx spent).entries) (r.indexed s)
        ∙ sym (
            logged_entries-append s log (processed d t tx spent ∷ [])
            ∙ ap (λ l. logged_entries s log ++ l)
                (append-nil (entries_at s (processed d t tx spent).entries)));
    stored = λ u h. ground (
      arith,
      is_logged-append u log (processed d t tx spent ∷ []),
      h,
      r.stored u,
      contains_key-some t tx m.txstore at,
    );
    fees = λ u. ground (
      arith,
      is_logged-append u log (processed d t tx spent ∷ []),
      r.fees u,
      contains_key-insert u t (Fees.new d.fee_rate tx ps) m.feeinfo,
    );
    spent = λ o u v h. elim (get-add_edges o u v m.edges t 0 tx.input h) [
      | inl old ↦ IsSpentIn-append_left o u v log (processed d t tx spent ∷ []) (r.spent o u v old)
      | inr new ↦ IsSpentIn-append_right o u v log (processed d t tx spent ∷ []) (inl new)
    ];
    own = All-append _ log (processed d t tx spent ∷ []) r.own (
      All-append _ (funding_entries d t 0 tx.output) spent (funding-AreOf t 0 tx.output) own,
      tt,
    );
    scripts = push-HasDistinctKeys m.history (processed d t tx spent).entries r.scripts;
    outpoints = edges-HasDistinctKeys m.edges t 0 tx.input r.outpoints;
    ids = r.ids;
  }

  log_tx_missing :
      (txos : Map OutPoint TxOut) (store : Map Txid Transaction) (t : Txid) (tx : Transaction)
      → Maps.get t store ≡ some tx
      → extract_tx_prevouts tx txos ≡ none
      → log_tx d txos store t ≡ []
  log_tx_missing txos store t tx at e = rw (at, log_tx) (rw (e, log_tx) refl)

  log_tx_found :
      (txos : Map OutPoint TxOut) (store : Map Txid Transaction) (t : Txid) (tx : Transaction)
      (ps : Map ℕ TxOut) (spent : List HistoryEntry)
      → Maps.get t store ≡ some tx
      → extract_tx_prevouts tx txos ≡ some ps
      → spending_entries d t tx ps ≡ some spent
      → log_tx d txos store t ≡ processed d t tx spent ∷ []
  log_tx_found txos store t tx ps spent at e s =
      rw (at, log_tx) (rw (e, log_tx) (rw (s, log_tx) refl))

  index_tx_missing :
      (txos : Map OutPoint TxOut) (m : Mempool) (t : Txid) (tx : Transaction)
      → Maps.get t m.txstore ≡ some tx
      → extract_tx_prevouts tx txos ≡ none
      → index_tx d txos m t ≡ some (m, 0)
  unfolding index_tx
  index_tx_missing txos m t tx at e = rw (at) (rw (e, ◌>>=◌) refl)

  index_tx_found :
      (txos : Map OutPoint TxOut) (m : Mempool) (t : Txid) (tx : Transaction) (ps : Map ℕ TxOut)
      (spent : List HistoryEntry)
      → Maps.get t m.txstore ≡ some tx
      → extract_tx_prevouts tx txos ≡ some ps
      → spending_entries d t tx ps ≡ some spent
      → index_tx d txos m t ≡ some (after_tx m t tx ps spent, 1)
  unfolding index_tx
  index_tx_found txos m t tx ps spent at e s = rw (at) (rw (e, ◌>>=◌) (rw (s) refl))

  extract-below :
      (txos : Map OutPoint TxOut) (tx : Transaction) (ps : Map ℕ TxOut)
      → extract_tx_prevouts tx txos ≡ some ps
      → AreBelow (length tx.input) ps
  unfolding extract_tx_prevouts
  extract-below txos tx ps = prevouts-below 0 (length tx.input) tx.input txos ps (omega arith)

  -- One round of the loop: it never panics, and logs the transaction if its outpoints are known.
  index_tx-Refines :
      (txos : Map OutPoint TxOut) (m : Mempool) (log : Log) (t : Txid)
      → contains_key t m.txstore ≡ true
      → Refines m log
      → (m' : Mempool) × (index_tx d txos m t ≡ some (m', length (log_tx d txos m.txstore t)))
        × (m'.txstore ≡ m.txstore)
        × Refines m' (log ++ log_tx d txos m.txstore t)
        × Spent m m' (log_tx d txos m.txstore t)
  index_tx-Refines txos m log t c r =
      let (tx, at) = get-contains_key t m.txstore c in
      elim (Option-cases (extract_tx_prevouts tx txos)) [
        | inl missing ↦
            let none_logged = log_tx_missing txos m.txstore t tx at missing in
            (
              m,
              index_tx_missing txos m t tx at missing
                  ∙ ap (λ l. some (m, length l)) (sym none_logged),
              refl,
              subst (Refines m) (sym (append-nil log) ∙ ap (λ l. log ++ l) (sym none_logged)) r,
              subst (Spent m m) (sym none_logged) (λ o. refl),
            )
        | inr (ps, found) ↦
            let (spent, total, own) = spending_total t tx ps (extract-below txos tx ps found) in
            let one_logged = log_tx_found txos m.txstore t tx ps spent at found total in
            let m' = after_tx m t tx ps spent in
            (
              m',
              index_tx_found txos m t tx ps spent at found total
                  ∙ ap (λ l. some (m', length l)) (sym one_logged),
              refl,
              subst (Refines m') (ap (λ l. log ++ l) (sym one_logged))
                  (after_tx-Refines m log t tx ps spent at own r),
              subst (Spent m m') (sym one_logged)
                  (λ o. add_edges-last_input o m.edges t 0 tx.input),
            )
      ]

  pub index_txs-Refines :
      (txos : Map OutPoint TxOut) (m : Mempool) (log : Log) (ts : List Txid)
      → All (λ t. contains_key t m.txstore ≡ true) ts
      → Refines m log
      → (m' : Mempool) × (index_txs d txos m ts ≡ some (m', length (log_txs d txos m.txstore ts)))
        × (m'.txstore ≡ m.txstore)
        × Refines m' (log ++ log_txs d txos m.txstore ts)
        × Spent m m' (log_txs d txos m.txstore ts)
  unfolding index_txs
  index_txs-Refines txos m log [] c r = (m, refl, refl, rw (append-nil log) r, λ o. refl)
  index_txs-Refines txos m log (t ∷ ts) c r =
      let (m1, e1, s1, r1, g1) = index_tx-Refines txos m log t c.0 r in
      let one = log_tx d txos m.txstore t in
      let c' : All (λ u. contains_key u m1.txstore ≡ true) ts = rw s1 c.1 in
      let (m2, e2, s2, r2, g2) = index_txs-Refines txos m1 (log ++ one) ts c' r1 in
      let rest = log_txs d txos m.txstore ts in
      let same : log_txs d txos m1.txstore ts ≡ rest = rw s1 refl in
      (
        m2,
        rw (e1, e2)
            (ap (λ n. some (m2, n))
              (ap (λ l. length one + length l) same ∙ sym (length-append one rest))),
        s2 ∙ s1,
        subst (Refines m2)
            (append_assoc log one (log_txs d txos m1.txstore ts) ∙ ap (λ l. log ++ (one ++ l)) same)
            r2,
        λ o.
            g2 o
            ∙ ap (λ l. or_kept (last_spend o l) (Maps.get o m1.edges)) same
            ∙ ap (or_kept (last_spend o rest)) (g1 o)
            ∙ sym (or_kept_assoc (last_spend o rest) (last_spend o one) (Maps.get o m.edges))
            ∙ ap (λ x. or_kept x (Maps.get o m.edges)) (sym (last_spend-append o one rest)),
      )
