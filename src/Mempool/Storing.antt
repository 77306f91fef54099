-- ===== src/Mempool/Storing.antt =====
-- Phase 1 of `add` in src/new_index/mempool.rs, which stores the transactions.
use splora.Common.{
  ◌≡◌, refl, sym, ap, ◌∙◌, inl, inr, true, some, List, [], ◌∷◌, ◌++◌, >>=-eq-some, arith,
  Bool-cases,
}
use mathlib.Core.Path.{subst}
use mathlib.Core.Option.{some-injective}
use splora.Common.Lists.{All, IsIn, IsIn-append_left, IsIn-append_right}
use splora.Common.Maps
use splora.Common.Maps.{
  Map, nat_key, contains_key, HasDistinctKeys, get-insert, get-insert_self, get-insert_other,
  insert-HasDistinctKeys,
}
use splora.Common.Keys.{get-contains_key, contains_key-insert}
use splora.ChainQuery.{Txid}
use splora.ChainQuery.Utxos.{OutPoint, out_point_key}
use splora.Transactions.{Transaction}
use splora.Mempool.Index.{outpoints_of, store_txs, get_prevouts}

-- Phase 1 keeps what is stored, stores every new transaction, and lists its id once.
pub store_txs-keeps :
    (t : Txid) (store : Map Txid Transaction) (txs : List Transaction)
    → contains_key t store ≡ true
    → contains_key t (store_txs store txs).0 ≡ true
unfolding store_txs
store_txs-keeps t store [] c = c
store_txs-keeps t store (tx ∷ txs) c =
    store_txs-keeps t (Maps.insert tx.txid tx store) txs
      (ground (arith, contains_key-insert t tx.txid tx store, c))

pub store_txs-stores :
    (store : Map Txid Transaction) (txs : List Transaction)
    → All (λ (tx : Transaction). contains_key tx.txid (store_txs store txs).0 ≡ true) txs
unfolding store_txs
store_txs-stores store [] = tt
store_txs-stores store (tx ∷ txs) = (
  store_txs-keeps tx.txid (Maps.insert tx.txid tx store) txs
      (ground (arith, contains_key-insert tx.txid tx.txid tx store)),
  store_txs-stores (Maps.insert tx.txid tx store) txs,
)

pub store_txs-fresh :
    (store : Map Txid Transaction) (txs : List Transaction)
    → All (λ t. contains_key t (store_txs store txs).0 ≡ true) (store_txs store txs).1
unfolding store_txs
store_txs-fresh store [] = tt
store_txs-fresh store (tx ∷ txs) = elim (Bool-cases (contains_key tx.txid store)) [
  | inl old ↦ rw old (store_txs-fresh (Maps.insert tx.txid tx store) txs)
  | inr new ↦ rw new (
    store_txs-keeps tx.txid (Maps.insert tx.txid tx store) txs
        (ground (arith, contains_key-insert tx.txid tx.txid tx store)),
    store_txs-fresh (Maps.insert tx.txid tx store) txs,
  )
]

pub store_txs-HasDistinctKeys :
    (store : Map Txid Transaction) (txs : List Transaction)
    → HasDistinctKeys store
    → HasDistinctKeys (store_txs store txs).0
unfolding store_txs
store_txs-HasDistinctKeys store [] d = d
store_txs-HasDistinctKeys store (tx ∷ txs) d =
    store_txs-HasDistinctKeys (Maps.insert tx.txid tx store) txs
      (insert-HasDistinctKeys tx.txid tx store d)

pub get_prevouts_total :
    (store : Map Txid Transaction) (ts : List Txid)
    → All (λ t. contains_key t store ≡ true) ts
    → (os : List OutPoint) × (get_prevouts store ts ≡ some os)
unfolding get_prevouts
get_prevouts_total store [] c = ([], refl)
get_prevouts_total store (t ∷ ts) c =
    let (tx, at) = get-contains_key t store c.0 in
    let (rest, e) = get_prevouts_total store ts c.1 in
    (outpoints_of tx.input ++ rest, rw (at, e) refl)

IsIn-parts :
    (store : Map Txid Transaction) (ts : List Txid) (rest : List OutPoint) (u t : Txid)
    (ux tx : Transaction) (o : OutPoint)
    → IsIn t (u ∷ ts)
    → Maps.get u store ≡ some ux
    → Maps.get t store ≡ some tx
    → IsIn o (outpoints_of tx.input)
    → (IsIn t ts → Maps.get t store ≡ some tx → IsIn o (outpoints_of tx.input) → IsIn o rest)
    → IsIn o (outpoints_of ux.input ++ rest)
IsIn-parts store ts rest u t ux tx o (inr i) uat at n later =
    IsIn-append_right o (outpoints_of ux.input) rest (later i at n)
IsIn-parts store ts rest u t ux tx o (inl e) uat at n later =
    let same : tx ≡ ux = some-injective tx ux (sym at ∙ ap (λ x. Maps.get x store) (sym e) ∙ uat) in
    IsIn-append_left o (outpoints_of ux.input) rest
      (subst (λ (x : Transaction). IsIn o (outpoints_of x.input)) same n)

-- Every outpoint of a listed transaction is asked for.
pub get_prevouts-IsIn :
    (store : Map Txid Transaction) (ts : List Txid) (os : List OutPoint) (t : Txid)
    (tx : Transaction) (o : OutPoint)
    → get_prevouts store ts ≡ some os
    → IsIn t ts
    → Maps.get t store ≡ some tx
    → IsIn o (outpoints_of tx.input)
    → IsIn o os
unfolding get_prevouts
get_prevouts-IsIn store [] os t tx o e i at n = absurd i
get_prevouts-IsIn store (u ∷ ts) os t tx o e i at n =
    let (ux, uat, e') = >>=-eq-some (Maps.get u store) _ e in
    let (rest, r, e'') = >>=-eq-some (get_prevouts store ts) _ e' in
    let same = some-injective (outpoints_of ux.input ++ rest) os e'' in
    subst (IsIn o) same
      (IsIn-parts store ts rest u t ux tx o i uat at n (get_prevouts-IsIn store ts rest t tx o r))
