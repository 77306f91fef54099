-- ===== src/Mempool/Listed.antt =====
-- src/new_index/mempool.rs: the ids that `update` lists, and those of them that are gone.
use splora.Common.{ℕ, ◌≡◌, refl, ◌∙◌, inl, inr, true, false, List, [], ◌∷◌, arith, Bool-cases}
use splora.Common.Maps.{
  Map, nat_key, contains_key, HasDistinctKeys, get-nil, get_cons_self, get_cons_other,
}
use splora.ChainQuery.{Txid}
use splora.Transactions.{Transaction}
use splora.Mempool.{keys}
use splora.Common.Lists.{mem?, AreDistinct}
use splora.Mempool.Index.{difference}
use splora.Mempool.Serving.{AllStored}

-- The ids that are listed are the keys of the store, each once.
pub mem?-keys : (t : Txid) (m : Map Txid Transaction) → mem? t (keys m) ≡ contains_key t m
mem?-keys t [] = rw (get-nil {K = ℕ} {V = Transaction} t, contains_key) refl
mem?-keys t ((k, v) ∷ m) = elim (nat_key.eq? t k) [
  | yes e ↦ rw (get_cons_self t k v m e, contains_key) (ground (arith, e))
  | no n ↦ rw (get_cons_other t k v m n, contains_key) (ground (arith, n, mem?-keys t m))
]

pub keys-AreDistinct : (m : Map Txid Transaction) → HasDistinctKeys m → AreDistinct (keys m)
keys-AreDistinct [] d = tt
keys-AreDistinct ((k, v) ∷ m) d =
    (mem?-keys k m ∙ rw (d.0, contains_key) refl, keys-AreDistinct m d.1)

pub keys-AllStored :
    (store : Map Txid Transaction) (ts : List Txid)
    → ((t : Txid) → mem? t ts ≡ true → contains_key t store ≡ true)
    → AllStored store ts
keys-AllStored store [] h = tt
keys-AllStored store (t ∷ ts) h =
    (h t (ground arith), keys-AllStored store ts (λ u i. h u (ground (arith, i))))

pub difference-subset :
    (t : Txid) (old all : List Txid) → mem? t old ≡ false → mem? t (difference old all) ≡ false
difference-subset t [] all h = refl
difference-subset t (u ∷ old) all h = ground (arith, difference-subset t old all, h)

pub difference-AreDistinct :
    (old all : List Txid) → AreDistinct old → AreDistinct (difference old all)
difference-AreDistinct [] all d = tt
difference-AreDistinct (t ∷ old) all d = elim (Bool-cases (mem? t all)) [
  | inl stays ↦ rw stays (difference-AreDistinct old all d.1)
  | inr gone ↦ rw gone (difference-subset t old all d.0, difference-AreDistinct old all d.1)
]

pub difference-AllStored :
    (store : Map Txid Transaction) (old all : List Txid)
    → AllStored store old
    → AllStored store (difference old all)
difference-AllStored store [] all h = tt
difference-AllStored store (t ∷ old) all h = elim (Bool-cases (mem? t all)) [
  | inl stays ↦ rw stays (difference-AllStored store old all h.1)
  | inr gone ↦ rw gone (h.0, difference-AllStored store old all h.1)
]
