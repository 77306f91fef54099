-- ===== src/Query/Outputs.antt =====
-- src/new_index/query.rs: which outputs `utxo` lists.
use mathlib.Core.Bool.{decide}
use splora.Common.{
  ℕ, ◌≡◌, refl, sym, ap, ◌∙◌, inl, inr, Bool, true, false, not, ◌||◌, ◌&&◌, Option, none, List, [],
  ◌∷◌, ◌++◌, if◌then◌else◌, arith, Bool-cases,
}
use splora.Common.Results.{ok, >>=-eq-ok, ok-injective}
use splora.Headers.{BlockHash}
use splora.ChainQuery.Utxos.{
  OutPoint, out_point, OutPoint-discrete, out_point_key, TxHistoryRow, TxHistoryInfo, spending,
  funding,
}
use splora.ChainQuery.Scripts
use splora.ChainQuery.Scripts.{CachedUtxoMap}
use splora.Mempool
use splora.Mempool.{Mempool, Utxo, has_spend, unspent, entries_of}
use splora.Query.{Chain, not_spent, utxo}

abbrev pub is_output : OutPoint → Utxo → Bool
is_output o u = decide (OutPoint-discrete o (out_point u.txid u.vout))

-- The list has the output.
abbrev pub lists : OutPoint → List Utxo → Bool
lists o [] = false
lists o (u ∷ utxos) = is_output o u || lists o utxos

-- The entries fund the script with the output.
abbrev pub funds : OutPoint → List TxHistoryInfo → Bool
funds o [] = false
funds o (spending txid vin prev_txid prev_vout value ∷ entries) = funds o entries
funds o (funding txid vout value ∷ entries) =
    decide (OutPoint-discrete o (out_point txid vout)) || funds o entries

lists-append : (o : OutPoint) (a b : List Utxo) → lists o (a ++ b) ≡ (lists o a || lists o b)
lists-append o [] b = refl
lists-append o (u ∷ a) b = ground (arith, lists-append o a b)

decided :
    (o p : OutPoint) (m : Mempool)
    → decide (OutPoint-discrete o p) ≡ true
    → has_spend m o ≡ has_spend m p
unfolding decide
decided o p m h =
    elim (OutPoint-discrete o p) as (λ d. decide d ≡ true → has_spend m o ≡ has_spend m p) [
      | yes e ↦ λ h. ap (has_spend m) e
      | no n ↦ λ h. cc
    ]
      h

combined :
    (o : OutPoint) (u : Utxo) (s t b : Bool) (rest : List Utxo)
    → (is_output o u ≡ true → t ≡ s)
    → lists o rest ≡ (b && not t)
    → lists o (if s then rest else u ∷ rest) ≡ ((is_output o u || b) && not t)
combined o u s t b rest same r = elim (Bool-cases s) [
  | inl spent ↦ rw spent (elim (Bool-cases (is_output o u)) [
    | inl here ↦ ground (arith, r, same here, spent, here)
    | inr other ↦ ground (arith, r, other)
  ])
  | inr kept ↦ rw kept (elim (Bool-cases (is_output o u)) [
    | inl here ↦ ground (arith, r, same here, kept, here)
    | inr other ↦ ground (arith, r, other)
  ])
]

lists-not_spent :
    (o : OutPoint) (m : Mempool) (utxos : List Utxo)
    → lists o (not_spent m utxos) ≡ (lists o utxos && not (has_spend m o))
lists-not_spent o m [] = refl
lists-not_spent o m (u ∷ utxos) =
    let p = out_point u.txid u.vout in
    combined o u (has_spend m p) (has_spend m o) (lists o utxos) (not_spent m utxos) (decided o p m)
      (lists-not_spent o m utxos)

lists-unspent :
    (o : OutPoint) (m : Mempool) (entries : List TxHistoryInfo)
    → lists o (unspent m entries) ≡ (funds o entries && not (has_spend m o))
lists-unspent o m [] = refl
lists-unspent o m (spending txid vin prev_txid prev_vout value ∷ entries) =
    lists-unspent o m entries
lists-unspent o m (funding txid vout value ∷ entries) =
    let p = out_point txid vout in
    let u : Utxo = record { txid = txid; vout = vout; confirmed = none; value = value } in
    combined o u (has_spend m p) (has_spend m o) (funds o entries) (unspent m entries)
      (decided o p m) (lists-unspent o m entries)

-- When the unspent outputs of a script are listed, an output is among them if and only if the chain
-- lists it or an entry of the mempool funds the script with it, and no transaction of the mempool
-- spends it.
pub utxo_iff :
    (c : Chain) (m : Mempool) (history : List TxHistoryRow)
    (cached : Option (CachedUtxoMap × BlockHash)) (utxos_limit scripthash : ℕ)
    (r : List Utxo × Option (CachedUtxoMap × BlockHash))
    → utxo c m history cached utxos_limit scripthash ≡ ok r
    → (utxos : List Utxo) × (Scripts.utxo c.conf c.headers history cached utxos_limit
        ≡ ok (utxos, r.1))
      × ((o : OutPoint)
          → lists o r.0
            ≡ ((lists o utxos || funds o (entries_of m.history scripthash)) && not (has_spend m o)))
unfolding utxo Mempool.utxo
utxo_iff c m history cached utxos_limit scripthash r e =
    let ((utxos, cached'), a, e1) =
      >>=-eq-ok (Scripts.utxo c.conf c.headers history cached utxos_limit) _ e in
    let same = ok-injective _ r e1 in
    (
      utxos,
      a
          ∙ ap (λ x. ok (utxos, x))
              (ap (λ (p : List Utxo × Option (CachedUtxoMap × BlockHash)). p.1) same),
      λ o.
          ap (λ (p : List Utxo × Option (CachedUtxoMap × BlockHash)). lists o p.0) (sym same)
          ∙ lists-append o (not_spent m utxos) (unspent m (entries_of m.history scripthash))
          ∙ ground (
            arith,
            lists-not_spent o m utxos,
            lists-unspent o m (entries_of m.history scripthash),
          ),
    )
