-- ===== src/Mempool/Effects.antt =====
-- src/new_index/mempool.rs: what `add` and `remove` do to the store and to the edges, for each
-- transaction and each outpoint, described without the loops of the code.
use splora.Common.{
  ℕ, suc, ◌≡◌, refl, sym, ap, ◌∙◌, inl, inr, true, false, ◌||◌, Option, none, some, List, [], ◌∷◌,
  ◌++◌, ◌==◌, map, if◌then◌else◌, arith, Bool-cases,
}
use mathlib.Core.Option
use mathlib.Core.Bool.{decide}
use splora.Common.Lists.{mem?}
use splora.Common.Maps
use splora.Common.Maps.{
  Map, nat_key, contains_key, HasDistinctKeys, get-nil, get_cons_self, get_cons_other,
  get-insert_self, get-insert_other,
}
use splora.Common.Keys.{contains_key-insert}
use splora.ChainQuery.{Txid}
use splora.ChainQuery.Utxos.{OutPoint, out_point_key, OutPoint-discrete}
use splora.Transactions.{TxIn, Transaction}
use splora.Mempool.{unique_from, unique}
use splora.Mempool.Index.{store_txs, add_edges, retain_edges}
use splora.Mempool.Log.{Log}

-- The newer one, if there is one.
abbrev pub or_kept {ℓ} : {A : Type ℓ} → Option A → Option A → Option A
or_kept none old = old
or_kept (some a) old = some a

-- The last of the transactions with this id.
abbrev pub last_tx : Txid → List Transaction → Option Transaction
last_tx t [] = none
last_tx t (tx ∷ txs) = or_kept (last_tx t txs) (if t == tx.txid then some tx else none)

abbrev not_stored : Map Txid Transaction → List Txid → List Txid
not_stored store [] = []
not_stored store (t ∷ ts) =
    let rest = not_stored store ts in if contains_key t store then rest else t ∷ rest

-- The ids that are not stored, each once and as they first come.
abbrev pub new_ids : Map Txid Transaction → List Transaction → List Txid
new_ids store txs = not_stored store (unique (map (λ (tx : Transaction). tx.txid) txs))

-- The last of the inputs that spends the outpoint, counted from `index`.
abbrev pub last_input : OutPoint → ℕ → List TxIn → Option ℕ
last_input o index [] = none
last_input o index (i ∷ input) =
    or_kept (last_input o (suc index) input)
      (if decide (OutPoint-discrete o i.previous_output) then some index else none)

-- The last spend of the outpoint in the log.
abbrev pub last_spend : OutPoint → Log → Option (Txid × ℕ)
last_spend o [] = none
last_spend o (p ∷ log) =
    or_kept (last_spend o log) (Option.map (λ v. (p.txid, v)) (last_input o 0 p.input))

-- An edge whose transaction is not among these.
abbrev pub unless_of : List Txid → Option (Txid × ℕ) → Option (Txid × ℕ)
unless_of ts none = none
unless_of ts (some (t, vin)) = if mem? t ts then none else some (t, vin)

pub or_kept_assoc {ℓ} :
    {A : Type ℓ} (a b c : Option A) → or_kept (or_kept a b) c ≡ or_kept a (or_kept b c)
or_kept_assoc none b c = refl
or_kept_assoc (some a) b c = refl

pub get-store_txs :
    (t : Txid) (store : Map Txid Transaction) (txs : List Transaction)
    → Maps.get t (store_txs store txs).0 ≡ or_kept (last_tx t txs) (Maps.get t store)
unfolding store_txs
get-store_txs t store [] = refl
get-store_txs t store (tx ∷ txs) =
    let here : Maps.get t (Maps.insert tx.txid tx store)
        ≡ or_kept (if t == tx.txid then some tx else none) (Maps.get t store) =
      elim (nat_key.eq? t tx.txid) [
        | yes e ↦
            let same : (t == tx.txid) ≡ true = ground (arith, e) in
            rw same (get-insert_self tx.txid t tx store e)
        | no n ↦
            let other : (t == tx.txid) ≡ false = ground (arith, n) in
            rw other (get-insert_other tx.txid t tx store n)
      ] in
    get-store_txs t (Maps.insert tx.txid tx store) txs
    ∙ ap (or_kept (last_tx t txs)) here
    ∙ sym
        (or_kept_assoc (last_tx t txs) (if t == tx.txid then some tx else none) (Maps.get t store))

mem?_same : (t u : Txid) (ts : List Txid) → (t == u) ≡ true → mem? u ts ≡ true → mem? t ts ≡ true
mem?_same t u ts e h = ap (λ x. mem? x ts) (ground (arith, e)) ∙ h

-- The store holds what it held and what was seen.
store_txs_unseen :
    (old store : Map Txid Transaction) (seen : List Txid) (txs : List Transaction)
    → ((t : Txid) → contains_key t store ≡ (mem? t seen || contains_key t old))
    → (store_txs store txs).1
      ≡ not_stored old (unique_from seen (map (λ (tx : Transaction). tx.txid) txs))
unfolding store_txs unique_from
store_txs_unseen old store seen [] h = refl
store_txs_unseen old store seen (tx ∷ txs) h = elim (Bool-cases (mem? tx.txid seen)) [
  | inl again ↦
      let held : contains_key tx.txid store ≡ true = ground (arith, h tx.txid, again) in
      let rest = store_txs_unseen old (Maps.insert tx.txid tx store) seen txs (λ t.
        ground
          (arith, contains_key-insert t tx.txid tx store, h t, mem?_same t tx.txid seen, again)) in
      rw (again, held) rest
  | inr first ↦
      let rest =
        store_txs_unseen old (Maps.insert tx.txid tx store) (tx.txid ∷ seen) txs
          (λ t. ground (arith, contains_key-insert t tx.txid tx store, h t)) in
      let held : contains_key tx.txid store ≡ contains_key tx.txid old =
        ground (arith, h tx.txid, first) in
      elim (Bool-cases (contains_key tx.txid old)) [
        | inl stored ↦ rw (first, held ∙ stored, stored) rest
        | inr new ↦ rw (first, held ∙ new, new) (ap (◌∷◌ tx.txid) rest)
      ]
]

pub store_txs-new_ids :
    (store : Map Txid Transaction) (txs : List Transaction)
    → (store_txs store txs).1 ≡ new_ids store txs
store_txs-new_ids store txs = store_txs_unseen store store [] txs (λ t. refl)

combine :
    (t : Txid) (later own : Option ℕ) (old between : Option (Txid × ℕ))
    → between ≡ or_kept (Option.map (λ v. (t, v)) own) old
    → or_kept (Option.map (λ v. (t, v)) later) between
      ≡ or_kept (Option.map (λ v. (t, v)) (or_kept later own)) old
combine t none own old between h = h
combine t (some v) own old between h = refl

pub add_edges-last_input :
    (o : OutPoint) (edges : Map OutPoint (Txid × ℕ)) (t i : ℕ) (input : List TxIn)
    → Maps.get o (add_edges edges t i input)
      ≡ or_kept (Option.map (λ v. (t, v)) (last_input o i input)) (Maps.get o edges)
unfolding add_edges decide
add_edges-last_input o edges t i [] = refl
add_edges-last_input o edges t i (x ∷ input) =
    let own : Option ℕ = if decide (OutPoint-discrete o x.previous_output) then some i else none in
    let here : Maps.get o (Maps.insert x.previous_output (t, i) edges)
        ≡ or_kept
            (Option.map (λ v. (t, v))
              (if decide (OutPoint-discrete o x.previous_output) then some i else none))
            (Maps.get o edges) =
      elim (OutPoint-discrete o x.previous_output)
        as (λ q.
          Maps.get o (Maps.insert x.previous_output (t, i) edges)
          ≡ or_kept (Option.map (λ v. (t, v)) (if decide q then some i else none))
              (Maps.get o edges)) [
                | yes e ↦ get-insert_self x.previous_output o (t, i) edges e
                | no n ↦ get-insert_other x.previous_output o (t, i) edges n
              ] in
    add_edges-last_input o (Maps.insert x.previous_output (t, i) edges) t (suc i) input
    ∙ combine t (last_input o (suc i) input) own (Maps.get o edges)
        (Maps.get o (Maps.insert x.previous_output (t, i) edges)) here

or_kept-none {ℓ} : {A : Type ℓ} (a : Option A) → or_kept a none ≡ a
or_kept-none none = refl
or_kept-none (some a) = refl

pub last_spend-append :
    (o : OutPoint) (a b : Log) → last_spend o (a ++ b) ≡ or_kept (last_spend o b) (last_spend o a)
last_spend-append o [] b = sym (or_kept-none (last_spend o b))
last_spend-append o (p ∷ a) b =
    let own : Option (Txid × ℕ) = Option.map (λ v. (p.txid, v)) (last_input o 0 p.input) in
    ap (λ r. or_kept r own) (last_spend-append o a b)
    ∙ or_kept_assoc (last_spend o b) (last_spend o a) own

unless_of_other :
    (ts : List Txid) (e : Txid × ℕ) → mem? e.0 ts ≡ false → unless_of ts (some e) ≡ some e
unless_of_other ts (t, v) n = rw n refl

unless_of_mine : (ts : List Txid) (e : Txid × ℕ) → mem? e.0 ts ≡ true → unless_of ts (some e) ≡ none
unless_of_mine ts (t, v) y = rw y refl

pub retain_edges-unless_of :
    (ts : List Txid) (o : OutPoint) (m : Map OutPoint (Txid × ℕ))
    → HasDistinctKeys m
    → Maps.get o (retain_edges ts m) ≡ unless_of ts (Maps.get o m)
unfolding retain_edges
retain_edges-unless_of ts o [] d =
    get-nil {K = OutPoint} {V = Txid × ℕ} o
    ∙ sym (ap (unless_of ts) (get-nil {K = OutPoint} {V = Txid × ℕ} o))
retain_edges-unless_of ts o ((p, e) ∷ m) d =
    let rest = retain_edges-unless_of ts o m d.1 in
    elim (OutPoint-discrete o p) [
      | yes q ↦
          let here = ap (unless_of ts) (get_cons_self o p e m q) in
          elim (Bool-cases (mem? e.0 ts)) [
            | inl gone ↦ rw gone (
                rest
                ∙ ap (λ x. unless_of ts (Maps.get x m)) q
                ∙ ap (unless_of ts) d.0
                ∙ sym (here ∙ unless_of_mine ts e gone))
            | inr kept ↦
                rw kept (
                  get_cons_self o p e (retain_edges ts m) q
                  ∙ sym (here ∙ unless_of_other ts e kept))
          ]
      | no n ↦
          let there = sym (ap (unless_of ts) (get_cons_other o p e m n)) in
          elim (Bool-cases (mem? e.0 ts)) [
            | inl gone ↦ rw gone (rest ∙ there)
            | inr kept ↦ rw kept (get_cons_other o p e (retain_edges ts m) n ∙ rest ∙ there)
          ]
    ]
