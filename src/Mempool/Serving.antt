-- ===== src/Mempool/Serving.antt =====
-- What src/new_index/mempool.rs answers when it has the history of a log.
use splora.Common.{
  ℕ, ◌≡◌, refl, sym, ap, ◌∙◌, inl, inr, true, Option, none, some, List, [], ◌∷◌, ◌++◌, map, ◌==◌,
  arith, take, Option-cases, Bool-cases, All-take,
}
use mathlib.Core.Path.{subst}
use splora.Common.Lists.{All, All-drop}
use splora.Common.Maps
use splora.Common.Maps.{Map, nat_key, contains_key}
use splora.Common.Keys.{get-contains_key}
use splora.ChainQuery.{Txid}
use splora.ChainQuery.Utxos.{TxHistoryInfo}
use splora.Transactions.{Transaction}
use splora.Mempool.{
  Mempool, txid_of, or_empty, entries_of, entries_of_all, unique_from, unique, skip_until,
  after_seen, fetch, page_of, history, history_group,
}
use splora.Common.Lists.{mem?}
use splora.Mempool.Index.{HistoryEntry}
use splora.Mempool.Log.{Processed, Log, is_logged, entries_at, logged_entries, AreOf, Refines}

abbrev pub AllStored : Map Txid Transaction → List Txid → Type 0
AllStored store ts = All (λ t. contains_key t store ≡ true) ts

-- The lists of ids are cut and thinned out only.
module _ (P : Txid → Type 0) where
  unique-All : (seen ts : List Txid) → All P ts → All P (unique_from seen ts)
  unfolding unique_from
  unique-All seen [] h = tt
  unique-All seen (t ∷ ts) h = elim (Bool-cases (mem? t seen)) [
    | inl old ↦ rw old (unique-All seen ts h.1)
    | inr new ↦ rw new (h.0, unique-All (t ∷ seen) ts h.1)
  ]

  skip_until-All : (last : Txid) (ts : List Txid) → All P ts → All P (skip_until last ts)
  skip_until-All last [] h = tt
  skip_until-All last (t ∷ ts) h = elim (Bool-cases (last == t)) [
    | inl here ↦ rw here h
    | inr later ↦ rw later (skip_until-All last ts h.1)
  ]

  after_seen-All : (last : Option Txid) (ts : List Txid) → All P ts → All P (after_seen last ts)
  after_seen-All none ts h = h
  after_seen-All (some last) ts h = All-drop P 1 (skip_until last ts) (skip_until-All last ts h)

fetch_total :
    (store : Map Txid Transaction) (ts : List Txid)
    → AllStored store ts
    → (txs : List Transaction) × (fetch store ts ≡ some txs)
unfolding fetch
fetch_total store [] h = ([], refl)
fetch_total store (t ∷ ts) h =
    let (tx, at) = get-contains_key t store h.0 in
    let (txs, rest) = fetch_total store ts h.1 in (tx ∷ txs, rw (at, rest) refl)

page_total :
    (m : Mempool) (entries : List TxHistoryInfo) (last : Option Txid) (limit : ℕ)
    → AllStored m.txstore (map txid_of entries)
    → (txs : List Transaction) × (page_of m entries last limit ≡ some txs)
unfolding page_of
page_total m entries last limit h =
    let P : Txid → Type 0 = λ t. contains_key t m.txstore ≡ true in
    let ts = unique (map txid_of entries) in
    fetch_total m.txstore (take limit (after_seen last ts)) (
      All-take P limit (after_seen last ts)
        (after_seen-All P last ts (unique-All P [] (map txid_of entries) h)))

map-append_stored :
    (store : Map Txid Transaction) (a b : List TxHistoryInfo)
    → AllStored store (map txid_of a)
    → AllStored store (map txid_of b)
    → AllStored store (map txid_of (a ++ b))
map-append_stored store [] b ha hb = hb
map-append_stored store (e ∷ a) b ha hb = (ha.0, map-append_stored store a b ha.1 hb)

entries_at-stored :
    (store : Map Txid Transaction) (s t : ℕ) (es : List HistoryEntry)
    → contains_key t store ≡ true
    → AreOf t es
    → AllStored store (map txid_of (entries_at s es))
entries_at-stored store s t [] c h = tt
entries_at-stored store s t ((k, e) ∷ es) c h = elim (Bool-cases (s == k)) [
  | inl same ↦
      rw same (ap (λ x. contains_key x store) h.0 ∙ c, entries_at-stored store s t es c h.1)
  | inr other ↦ rw other (entries_at-stored store s t es c h.1)
]

logged_entries-stored :
    (store : Map Txid Transaction) (s : ℕ) (log : Log)
    → ((t : Txid) → is_logged t log ≡ true → contains_key t store ≡ true)
    → All (λ (p : Processed). AreOf p.txid p.entries) log
    → AllStored store (map txid_of (logged_entries s log))
logged_entries-stored store s [] c h = tt
logged_entries-stored store s (p ∷ log) c h =
    map-append_stored store (entries_at s p.entries) (logged_entries s log)
      (entries_at-stored store s p.txid p.entries (c p.txid (ground arith)) h.0)
      (logged_entries-stored store s log (λ t l. c t (ground (arith, l))) h.1)

module _ (m : Mempool) (log : Log) (r : Refines m log) where
  entries_of-stored : (s : ℕ) → AllStored m.txstore (map txid_of (entries_of m.history s))
  entries_of-stored s =
      subst (λ es. AllStored m.txstore (map txid_of es)) (sym (r.indexed s))
        (logged_entries-stored m.txstore s log r.stored r.own)

  pub history_total :
      (s : ℕ) (last : Option Txid) (limit : ℕ)
      → (txs : List Transaction) × (history m s last limit ≡ some txs)
  unfolding history
  history_total s last limit = elim (Option-cases (Maps.get s m.history)) [
    | inl e ↦ ([], rw (e, history) refl)
    | inr (entries, e) ↦
        let same : entries_of m.history s ≡ entries = ap or_empty e in
        let stored =
          subst (λ es. AllStored m.txstore (map txid_of es)) same (entries_of-stored s) in
        let (txs, p) = page_total m entries last limit stored in (txs, rw (e, history) p)
  ]

  group-stored : (ss : List ℕ) → AllStored m.txstore (map txid_of (entries_of_all m.history ss))
  group-stored [] = tt
  group-stored (s ∷ ss) =
      map-append_stored m.txstore (entries_of m.history s) (entries_of_all m.history ss)
        (entries_of-stored s) (group-stored ss)

  pub history_group_total :
      (ss : List ℕ) (last : Option Txid) (limit : ℕ)
      → (txs : List Transaction) × (history_group m ss last limit ≡ some txs)
  unfolding history_group
  history_group_total ss last limit =
      page_total m (entries_of_all m.history ss) last limit (group-stored ss)
