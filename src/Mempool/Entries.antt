-- ===== src/Mempool/Entries.antt =====
-- src/new_index/mempool.rs: one more entry of a script, one more edge, and the prevouts of a
-- transaction, as the loop of `add` meets them.
use splora.Common.{
  ℕ, suc, ◌+◌, ◌≤◌, ◌<◌, ◌≡◌, refl, sym, ap, ◌∙◌, ◌⊎◌, inl, inr, some, List, [], ◌∷◌, ◌++◌, ◌==◌,
  >>=-eq-some, if◌then◌else◌, arith, length, Bool-cases,
}
use mathlib.Core.Path.{subst}
use mathlib.Core.Option.{some-injective}
use mathlib.Core.Logic.{if_pos, if_neg}
use mathlib.Core.List.{append_assoc, append-nil}
use splora.Common.Lists.{All}
use splora.Common.Maps
use splora.Common.Maps.{
  Map, nat_key, contains_key, HasDistinctKeys, get-insert, get-insert_self, get-insert_other,
  insert-HasDistinctKeys,
}
use splora.ChainQuery.{Txid}
use splora.ChainQuery.Utxos.{OutPoint, out_point, out_point_key, OutPoint-discrete, TxHistoryInfo}
use splora.Transactions.{TxOut, TxIn, prevouts_from, has_prevout}
use splora.Mempool.{txid_of, or_empty, entries_of}
use splora.Mempool.Index.{HistoryEntry, spend_of, push_entries, add_edges}
use splora.Mempool.Log.{entries_at, Spends}

-- One more entry of a script.
pub entries_of-insert :
    (s k : ℕ) (es : List TxHistoryInfo) (h : Map ℕ (List TxHistoryInfo))
    → entries_of (Maps.insert k es h) s ≡ (if s == k then es else entries_of h s)
entries_of-insert s k es h = ap or_empty (get-insert k s es h) ∙ elim (nat_key.eq? s k) [
  | yes e ↦ rw (if_pos _ e) (ground (arith, e))
  | no n ↦ rw (if_neg _ n) (ground (arith, n))
]

pub entries_of-push :
    (s : ℕ) (h : Map ℕ (List TxHistoryInfo)) (es : List HistoryEntry)
    → entries_of (push_entries h es) s ≡ entries_of h s ++ entries_at s es
unfolding push_entries
entries_of-push s h [] = sym (append-nil (entries_of h s))
entries_of-push s h ((k, e) ∷ es) =
    entries_of-push s (Maps.insert k (entries_of h k ++ e ∷ []) h) es
    ∙ ap (λ l. l ++ entries_at s es) (entries_of-insert s k (entries_of h k ++ e ∷ []) h)
    ∙ elim (Bool-cases (s == k)) [
      | inl same ↦
          let e' : s ≡ k = ground (arith, same) in
          rw same (
            append_assoc (entries_of h k) (e ∷ []) (entries_at s es)
            ∙ ap (λ l. l ++ e ∷ entries_at s es) (ap (entries_of h) (sym e')))
      | inr other ↦ rw other refl
    ]

pub push-HasDistinctKeys :
    (h : Map ℕ (List TxHistoryInfo)) (es : List HistoryEntry)
    → HasDistinctKeys h
    → HasDistinctKeys (push_entries h es)
unfolding push_entries
push-HasDistinctKeys h [] d = d
push-HasDistinctKeys h ((k, e) ∷ es) d =
    push-HasDistinctKeys (Maps.insert k (entries_of h k ++ e ∷ []) h) es
      (insert-HasDistinctKeys k (entries_of h k ++ e ∷ []) h d)

pub edges-HasDistinctKeys :
    (edges : Map OutPoint (Txid × ℕ)) (t i : ℕ) (input : List TxIn)
    → HasDistinctKeys edges
    → HasDistinctKeys (add_edges edges t i input)
unfolding add_edges
edges-HasDistinctKeys edges t i [] d = d
edges-HasDistinctKeys edges t i (x ∷ input) d =
    edges-HasDistinctKeys (Maps.insert x.previous_output (t, i) edges) t (suc i) input
      (insert-HasDistinctKeys x.previous_output (t, i) edges d)

-- An edge is an old one, or that of an input.
pub get-add_edges :
    (o : OutPoint) (t' vin : ℕ) (edges : Map OutPoint (Txid × ℕ)) (t i : ℕ) (input : List TxIn)
    → Maps.get o (add_edges edges t i input) ≡ some (t', vin)
    → (Maps.get o edges ≡ some (t', vin)) ⊎ ((t ≡ t') × Spends o vin i input)
unfolding add_edges
get-add_edges o t' vin edges t i [] h = inl h
get-add_edges o t' vin edges t i (x ∷ input) h =
    elim (get-add_edges o t' vin (Maps.insert x.previous_output (t, i) edges) t (suc i) input h) [
      | inr (e, s) ↦ inr (e, inr s)
      | inl old ↦ elim (OutPoint-discrete o x.previous_output) [
        | yes e ↦
            let found : some (t, i) ≡ some (t', vin) =
              sym (get-insert_self x.previous_output o (t, i) edges e) ∙ old in
            let same = some-injective (t, i) (t', vin) found in
            inr (ap (λ p. p.0) same, inl (sym e, ap (λ p. p.1) same))
        | no n ↦ inl (sym (get-insert_other x.previous_output o (t, i) edges n) ∙ old)
      ]
    ]

pub spend_of-of : (t k : ℕ) (o : OutPoint) (v : ℕ) → txid_of (spend_of t k o v) ≡ t
spend_of-of t k (out_point a b) v = refl

-- Each prevout is that of one of the inputs.
abbrev pub AreBelow : ℕ → Map ℕ TxOut → Type 0
AreBelow n ps = All (λ (p : ℕ × TxOut). p.0 < n) ps

pub prevouts-below :
    (i n : ℕ) (input : List TxIn) (txos : Map OutPoint TxOut) (ps : Map ℕ TxOut)
    → i + length input ≤ n
    → prevouts_from i input txos ≡ some ps
    → AreBelow n ps
unfolding prevouts_from
prevouts-below i n [] txos [] f h = tt
prevouts-below i n [] txos (p ∷ ps) f h = cc
prevouts-below i n (x ∷ input) txos ps f h = elim (Bool-cases (has_prevout x)) [
  | inr null ↦ prevouts-below (suc i) n input txos ps (omega arith) (rw null at h)
  | inl real ↦
      let (txo, at, h') = >>=-eq-some (Maps.get x.previous_output txos) _ (rw real at h) in
      let (found, rest, h'') = >>=-eq-some (prevouts_from (suc i) input txos) _ h' in
      let same = some-injective ((i, txo) ∷ found) ps h'' in
      subst (AreBelow n) same
        (omega arith, prevouts-below (suc i) n input txos found (omega arith) rest)
]
