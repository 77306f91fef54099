-- ===== src/Mempool/Log.antt =====
-- The mempool as a log of the transactions that were processed, in their order: what the index of
-- src/new_index/mempool.rs stands for.
use splora.Common.{
  ℕ, suc, ◌≡◌, refl, ◌⊎◌, inl, inr, Bool, true, false, not, ◌||◌, ◌&&◌, Option, none, some, List,
  [], ◌∷◌, ◌++◌, ◌==◌, ◌>>=◌, if◌then◌else◌, arith,
}
use mathlib.Core.List.{append_assoc}
use splora.Common.Lists.{All}
use splora.Common.Maps
use splora.Common.Maps.{Map, nat_key, contains_key, HasDistinctKeys}
use splora.ChainQuery.{Txid}
use splora.ChainQuery.Utxos.{OutPoint, out_point_key, TxHistoryInfo}
use splora.Transactions.{TxOut, TxIn, Transaction, has_prevout}
use splora.Mempool.{Mempool, txid_of, entries_of}
use splora.Common.Lists.{mem?}
use splora.Mempool.Index.{Deps, HistoryEntry, mempool_txo, funding_entries, spending_entries}

pub record Processed : Type 0 where
  pub txid : Txid
  pub entries : List HistoryEntry
  pub input : List TxIn

abbrev pub Log : Type 0
Log = List Processed

abbrev pub is_logged : Txid → Log → Bool
is_logged t [] = false
is_logged t (p ∷ log) = (t == p.txid) || is_logged t log

-- The entries of one script.
abbrev pub entries_at : ℕ → List HistoryEntry → List TxHistoryInfo
entries_at scripthash [] = []
entries_at scripthash ((s, e) ∷ entries) =
    let rest = entries_at scripthash entries in if scripthash == s then e ∷ rest else rest

abbrev pub logged_entries : ℕ → Log → List TxHistoryInfo
logged_entries scripthash [] = []
logged_entries scripthash (p ∷ log) =
    entries_at scripthash p.entries ++ logged_entries scripthash log

-- The input with this index, counted from `index`, spends the outpoint.
abbrev pub Spends : OutPoint → ℕ → ℕ → List TxIn → Type 0
Spends o vin index [] = ⊥
Spends o vin index (i ∷ input) =
    ((i.previous_output ≡ o) × (index ≡ vin)) ⊎ Spends o vin (suc index) input

abbrev pub IsSpentIn : OutPoint → Txid → ℕ → Log → Type 0
IsSpentIn o t vin [] = ⊥
IsSpentIn o t vin (p ∷ log) = ((p.txid ≡ t) × Spends o vin 0 p.input) ⊎ IsSpentIn o t vin log

abbrev pub AreOf : Txid → List HistoryEntry → Type 0
AreOf t entries = All (λ (e : HistoryEntry). txid_of e.1 ≡ t) entries

-- The mempool's history and fees are those of the log, what is logged is stored, and every edge is
-- that of a spend in the log.
pub record Refines (m : Mempool) (log : Log) : Type 0 where
  pub indexed : (scripthash : ℕ) → entries_of m.history scripthash ≡ logged_entries scripthash log
  pub stored : (t : Txid) → is_logged t log ≡ true → contains_key t m.txstore ≡ true
  pub fees : (t : Txid) → contains_key t m.feeinfo ≡ is_logged t log
  pub spent :
      (o : OutPoint) (t vin : ℕ) → Maps.get o m.edges ≡ some (t, vin) → IsSpentIn o t vin log
  pub own : All (λ (p : Processed). AreOf p.txid p.entries) log
  pub scripts : HasDistinctKeys m.history
  pub outpoints : HasDistinctKeys m.edges
  pub ids : HasDistinctKeys m.txstore

-- The output that an outpoint stands for: a confirmed one, or that of a stored transaction.
abbrev pub prevout_of : Deps → Map Txid Transaction → OutPoint → Option TxOut
prevout_of d txstore o = elim (d.confirmed o) [ none ↦ mempool_txo txstore o | some txo ↦ some txo ]

-- The outputs that the inputs spend, by their index; `none` if one is not known.
abbrev pub resolve : Deps → Map Txid Transaction → ℕ → List TxIn → Option (Map ℕ TxOut)
resolve d txstore index [] = some []
resolve d txstore index (i ∷ input) =
    let rest = resolve d txstore (suc index) input in
    if has_prevout i
    then (do
      txo ← prevout_of d txstore i.previous_output
      found ← rest
      some ((index, txo) ∷ found))
    else rest

-- The record of a processed transaction.
abbrev pub processed : Deps → Txid → Transaction → List HistoryEntry → Processed
processed d t tx spent = record {
  txid = t;
  entries = funding_entries d t 0 tx.output ++ spent;
  input = tx.input;
}

-- What is logged of a stored transaction: nothing if one of its outpoints is not known.
abbrev pub logged_tx : Deps → Map Txid Transaction → Txid → Log
logged_tx d txstore t = elim (Maps.get t txstore) [
  | none ↦ []
  | some tx ↦ elim (resolve d txstore 0 tx.input) [
    | none ↦ []
    | some prevouts ↦ elim (spending_entries d t tx prevouts) [
      | none ↦ []
      | some spent ↦ processed d t tx spent ∷ []
    ]
  ]
]

abbrev pub logged_txs : Deps → Map Txid Transaction → List Txid → Log
logged_txs d txstore [] = []
logged_txs d txstore (t ∷ ts) = logged_tx d txstore t ++ logged_txs d txstore ts

abbrev pub without : List Txid → Log → Log
without ts [] = []
without ts (p ∷ log) = let rest = without ts log in if mem? p.txid ts then rest else p ∷ rest

pub is_logged-append :
    (t : Txid) (a b : Log) → is_logged t (a ++ b) ≡ (is_logged t a || is_logged t b)
is_logged-append t [] b = refl
is_logged-append t (p ∷ a) b = ground (arith, is_logged-append t a b)

pub logged_entries-append :
    (s : ℕ) (a b : Log) → logged_entries s (a ++ b) ≡ logged_entries s a ++ logged_entries s b
logged_entries-append s [] b = refl
logged_entries-append s (p ∷ a) b = simp (logged_entries-append s a b, append_assoc)

pub IsSpentIn-append_left :
    (o : OutPoint) (t v : ℕ) (a b : Log) → IsSpentIn o t v a → IsSpentIn o t v (a ++ b)
IsSpentIn-append_left o t v [] b h = absurd h
IsSpentIn-append_left o t v (p ∷ a) b (inl h) = inl h
IsSpentIn-append_left o t v (p ∷ a) b (inr h) = inr (IsSpentIn-append_left o t v a b h)

pub IsSpentIn-append_right :
    (o : OutPoint) (t v : ℕ) (a b : Log) → IsSpentIn o t v b → IsSpentIn o t v (a ++ b)
IsSpentIn-append_right o t v [] b h = h
IsSpentIn-append_right o t v (p ∷ a) b h = inr (IsSpentIn-append_right o t v a b h)

pub is_logged-without :
    (t : Txid) (ts : List Txid) (log : Log)
    → is_logged t (without ts log) ≡ (is_logged t log && not (mem? t ts))
is_logged-without t ts [] = refl
is_logged-without t ts (p ∷ log) = ground (arith, is_logged-without t ts log)
