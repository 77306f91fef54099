-- ===== src/Mempool/Running.antt =====
-- Every state that `update` and broadcasts of src/new_index/mempool.rs lead to, in any interleaving.
use splora.Common.{
  ℕ, ◌-◌, ◌*◌, ◌^◌, ◌≡◌, refl, sym, ap, ◌∙◌, ◌⊎◌, inl, inr, Option, none, some, List, [], ◌∷◌, ◌++◌,
  ◌==◌, >>=-eq-some, if◌then◌else◌, ltb, length, Bool-cases,
}
use mathlib.Core.Path.{subst}
use mathlib.Core.Option.{some-injective, none-ne-some}
use splora.Common.Maps
use splora.Common.Maps.{
  Map, nat_key, contains_key, HasDistinctKeys, get-nil, get_cons_self, get_cons_other,
}
use splora.ChainQuery.{Txid}
use splora.Transactions.{Transaction}
use splora.Mempool.{Mempool, BacklogStats, new_stats, new, keys, history, history_group}
use splora.Common.Lists.{AreDistinct}
use splora.Mempool.Index.{
  Deps, MempoolError, missing_parents, add, add_by_txid, remove, difference, finish_update,
  store_txs,
}
use splora.Mempool.Listed.{
  mem?-keys, keys-AreDistinct, keys-AllStored, difference-AreDistinct, difference-AllStored,
}
use splora.Mempool.Log.{Log, Refines, without}
use splora.Mempool.Storing.{store_txs-keeps}
use splora.Mempool.Adding.{added, add_logged}
use splora.Mempool.Removing.{remove-Refines}
use splora.Mempool.Serving.{AllStored, history_total, history_group_total}
use splora.Mempool.System.{
  Phase, idle, listed, fetching, System, Step, list, drop, finish, give_up, broadcast, Reach, start,
  later,
}

-- The ids that were listed are still stored, each once.
abbrev pub Waits : Phase → Mempool → Type 0
Waits idle m = Unit
Waits (listed old) m = AreDistinct old × AllStored m.txstore old
Waits fetching m = Unit

pub record IsRunning (s : System) : Type 0 where
  pub log : Log
  pub refines : Refines s.mempool log
  pub waits : Waits s.phase s.mempool

restated :
    (m : Mempool) (log : Log) (stats : BacklogStats) (now : ℕ)
    → Refines m log
    → Refines (record m { backlog_stats = stats; backlog_time = now }) log
restated m log stats now r = record {
  indexed = r.indexed;
  stored = r.stored;
  fees = r.fees;
  spent = r.spent;
  own = r.own;
  scripts = r.scripts;
  outpoints = r.outpoints;
  ids = r.ids;
}

module _ (d : Deps) (m : Mempool) where
  -- What an `add` leaves stored.
  AllStored-kept :
      (txs : List Transaction) (m' : Mempool) (ts : List Txid)
      → m'.txstore ≡ (store_txs m.txstore txs).0
      → AllStored m.txstore ts
      → AllStored m'.txstore ts
  AllStored-kept txs m' [] s h = tt
  AllStored-kept txs m' (t ∷ ts) s h =
      (ap (contains_key t) s ∙ store_txs-keeps t m.txstore txs h.0, AllStored-kept txs m' ts s h.1)

  -- A broadcast adds one transaction or none.
  add_by_txid-cases :
      (m' : Mempool) (txid : Txid) (tx : Option Transaction) (e : Option MempoolError)
      → add_by_txid d m txid tx ≡ some (m', e)
      → (m' ≡ m) ⊎ ((x : Transaction) × (n : ℕ) × (add d m (x ∷ []) ≡ some (m', n)))
  unfolding add_by_txid
  add_by_txid-cases m' txid none e h = elim (Bool-cases (contains_key txid m.txstore)) [
    | inl old ↦
        let q = some-injective (m, none) (m', e) (rw (old) at h) in inl (sym (ap (λ p. p.0) q))
    | inr new ↦
        let q = some-injective (m, none) (m', e) (rw (new) at h) in inl (sym (ap (λ p. p.0) q))
  ]
  add_by_txid-cases m' txid (some x) e h = elim (Bool-cases (contains_key txid m.txstore)) [
    | inl old ↦
        let q = some-injective (m, none) (m', e) (rw (old) at h) in inl (sym (ap (λ p. p.0) q))
    | inr new ↦
        let ((m1, n), a, h') = >>=-eq-some (add d m (x ∷ [])) _ (rw (new) at h) in
        let q = some-injective (m1, (if n == 0 then some missing_parents else none)) (m', e) h' in
        inr (x, n, a ∙ ap (λ (k : Mempool). some (k, n)) (ap (λ p. p.0) q))
  ]

  module _ (log : Log) (r : Refines m log) where
    -- What an `add` that returned is.
    pub add-kept :
        (txs : List Transaction) (m' : Mempool) (n : ℕ)
        → add d m txs ≡ some (m', n)
        → (m'.txstore ≡ (store_txs m.txstore txs).0) × Refines m' (log ++ added d m txs)
    add-kept txs m' n h =
        let (m1, e, s, r1, g) = add_logged d m log txs r in
        let q = ap (λ p. p.0) (some-injective (m1, length (added d m txs)) (m', n) (sym e ∙ h)) in
        (
          sym (ap (λ (k : Mempool). k.txstore) q) ∙ s,
          subst (λ k. Refines k (log ++ added d m txs)) q r1,
        )

    remove-kept :
        (old all : List Txid) (m' : Mempool)
        → Waits (listed old) m
        → remove d m (difference old all) ≡ some m'
        → Refines m' (without (difference old all) log)
    remove-kept old all m' w h =
        let (m1, e, s, g, r1) =
          remove-Refines d m log (difference old all) (difference-AreDistinct old all w.0)
            (difference-AllStored m.txstore old all w.1) r in
        subst (λ k. Refines k (without (difference old all) log)) (some-injective m1 m' (sym e ∙ h))
          r1

    finish-kept :
        (now : ℕ) (txs : List Transaction) (m' : Mempool)
        → finish_update d now m txs ≡ some m'
        → Refines m' (log ++ added d m txs)
    unfolding finish_update
    finish-kept now txs m' h =
        let ((m1, n), a, h1) = >>=-eq-some (add d m txs) _ h in
        let r1 = (add-kept txs m1 n a).1 in
        elim (Bool-cases
          (ltb (d.config.mempool_backlog_stats_ttl * 10 ^ 9) (now - m1.backlog_time))) [
            | inr fresh ↦
                subst (λ k. Refines k (log ++ added d m txs))
                  (some-injective m1 m' (rw fresh at h1)) r1
            | inl expired ↦
                let (stats, b, h2) = >>=-eq-some (new_stats m1.feeinfo) _ (rw expired at h1) in
                subst (λ k. Refines k (log ++ added d m txs)) (some-injective _ m' h2)
                  (restated m1 (log ++ added d m txs) stats now r1)
          ]

    Waits-kept :
        (p : Phase) (txs : List Transaction) (m' : Mempool)
        → m'.txstore ≡ (store_txs m.txstore txs).0
        → Waits p m
        → Waits p m'
    Waits-kept idle txs m' s w = tt
    Waits-kept fetching txs m' s w = tt
    Waits-kept (listed old) txs m' s w = (w.0, AllStored-kept txs m' old s w.1)

pub Step-IsRunning : {s t : System} → Step s t → IsRunning s → IsRunning t
Step-IsRunning (list m) i = record {
  log = i.log;
  refines = i.refines;
  waits = (
    keys-AreDistinct m.txstore i.refines.ids,
    keys-AllStored m.txstore (keys m.txstore) (λ t h. sym (mem?-keys t m.txstore) ∙ h),
  );
}
Step-IsRunning (drop d m m' old all h) i = record {
  log = without (difference old all) i.log;
  refines = remove-kept d m i.log i.refines old all m' i.waits h;
  waits = tt;
}
Step-IsRunning (finish d now m m' txs h) i = record {
  log = i.log ++ added d m txs;
  refines = finish-kept d m i.log i.refines now txs m' h;
  waits = tt;
}
Step-IsRunning (give_up m p) i = record { log = i.log; refines = i.refines; waits = tt }
Step-IsRunning (broadcast d m m' p txid tx e h) i = elim (add_by_txid-cases d m m' txid tx e h) [
  | inl same ↦ record {
    log = i.log;
    refines = subst (λ k. Refines k i.log) (sym same) i.refines;
    waits = subst (Waits p) (sym same) i.waits;
  }
  | inr (x, n, a) ↦
      let (s, r) = add-kept d m i.log i.refines (x ∷ []) m' n a in
      record {
        log = i.log ++ added d m (x ∷ []);
        refines = r;
        waits = Waits-kept d m i.log i.refines p (x ∷ []) m' s i.waits;
      }
]

pub start-Refines : (now : ℕ) → Refines (new now) []
unfolding Maps.get
start-Refines now = record {
  indexed = λ s. refl;
  stored = λ t h. cc;
  fees = λ t. refl;
  spent = λ o t v h. absurd (none-ne-some (t, v) h);
  own = tt;
  scripts = tt;
  outpoints = tt;
  ids = tt;
}

pub Reach-IsRunning : {now : ℕ} {s : System} → Reach now s → IsRunning s
Reach-IsRunning {now} start = record { log = []; refines = start-Refines now; waits = tt }
Reach-IsRunning (later r st) = Step-IsRunning st (Reach-IsRunning r)

-- In every state that the main loop's steps and broadcasts lead to, in any order: neither history
-- panics on a missing transaction, `add` never panics, and where the main loop is about to remove
-- what the daemon no longer has, `remove` does not panic on a transaction that is gone.
pub Reach-never_panics :
    {now : ℕ} {s : System}
    → Reach now s
    → ((scripthash : ℕ) (last : Option Txid) (limit : ℕ)
        → (txs : List Transaction) × (history s.mempool scripthash last limit ≡ some txs))
      × ((scripthashes : List ℕ) (last : Option Txid) (limit : ℕ)
          → (txs : List Transaction) × (history_group s.mempool scripthashes last limit ≡ some txs))
      × ((d : Deps) (txs : List Transaction)
          → (m' : Mempool) × (n : ℕ) × (add d s.mempool txs ≡ some (m', n)))
      × ((d : Deps) (old all : List Txid)
          → s.phase ≡ listed old
          → (m' : Mempool) × (remove d s.mempool (difference old all) ≡ some m'))
Reach-never_panics {s = s} r =
    let i = Reach-IsRunning r in
    (
      history_total s.mempool i.log i.refines,
      history_group_total s.mempool i.log i.refines,
      λ d txs.
          let (m', e, kept, refined, g) = add_logged d s.mempool i.log txs i.refines in
          (m', length (added d s.mempool txs), e),
      λ d old all p.
          let w : Waits (listed old) s.mempool = subst (λ q. Waits q s.mempool) p i.waits in
          let (m', e, kept, g, refined) =
            remove-Refines d s.mempool i.log (difference old all)
              (difference-AreDistinct old all w.0)
              (difference-AllStored s.mempool.txstore old all w.1) i.refines in
          (m', e),
    )
