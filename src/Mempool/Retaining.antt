-- ===== src/Mempool/Retaining.antt =====
-- The `retain` calls of `remove` in src/new_index/mempool.rs, against a shorter log.
use splora.Common.{
  ℕ, ◌≡◌, ◌≢◌, refl, sym, ap, ◌∙◌, ◌⊎◌, inl, inr, false, none, some, List, [], ◌∷◌, ◌++◌,
  if◌then◌else◌, arith, Bool-cases,
}
use mathlib.Core.Path.{subst}
use mathlib.Core.Option.{some-injective, none-ne-some}
use splora.Common.Lists.{All}
use splora.Common.Maps
use splora.Common.Maps.{
  Map, nat_key, contains_key, HasDistinctKeys, get-nil, get_cons_self, get_cons_other,
  remove-HasDistinctKeys,
}
use splora.ChainQuery.{Txid}
use splora.ChainQuery.Utxos.{OutPoint, out_point_key, OutPoint-discrete, TxHistoryInfo}
use splora.Mempool.{txid_of, or_empty, entries_of}
use splora.Common.Lists.{mem?}
use splora.Mempool.Index.{HistoryEntry, without_txs, retain_history, retain_edges}
use splora.Mempool.Log.{Processed, Log, entries_at, logged_entries, IsSpentIn, AreOf, without}

module _ (ts : List Txid) where
  without_txs-append :
      (a b : List TxHistoryInfo) → without_txs ts (a ++ b) ≡ without_txs ts a ++ without_txs ts b
  without_txs-append [] b = refl
  without_txs-append (e ∷ a) b = ground (arith, without_txs-append a b)

  entries_at-of :
      (s t : ℕ) (es : List HistoryEntry)
      → AreOf t es
      → without_txs ts (entries_at s es) ≡ (if mem? t ts then [] else entries_at s es)
  entries_at-of s t [] h = ground arith
  entries_at-of s t ((k, e) ∷ es) h =
      let rest = entries_at-of s t es h.1 in
      let own : mem? (txid_of e) ts ≡ mem? t ts = ap (λ x. mem? x ts) h.0 in
      elim (Bool-cases (mem? t ts)) [
        | inl gone ↦ rw gone (ground (arith, rest, own, gone))
        | inr kept ↦ rw kept (ground (arith, rest, own, kept))
      ]

  pub logged_entries-without :
      (s : ℕ) (log : Log)
      → All (λ (p : Processed). AreOf p.txid p.entries) log
      → logged_entries s (without ts log) ≡ without_txs ts (logged_entries s log)
  logged_entries-without s [] h = refl
  logged_entries-without s (p ∷ log) h =
      let rest = logged_entries-without s log h.1 in
      let own = entries_at-of s p.txid p.entries h.0 in
      let split = without_txs-append (entries_at s p.entries) (logged_entries s log) in
      elim (Bool-cases (mem? p.txid ts)) [
        | inl gone ↦
            let own' : without_txs ts (entries_at s p.entries) ≡ [] = rw gone at own in
            rw gone (rest ∙ sym (split ∙ rw own' refl))
        | inr kept ↦
            let own' : without_txs ts (entries_at s p.entries) ≡ entries_at s p.entries =
              rw kept at own in
            rw kept (sym (split ∙ rw own' (ap (λ l. entries_at s p.entries ++ l) (sym rest))))
      ]

  pub without-own :
      (log : Log)
      → All (λ (p : Processed). AreOf p.txid p.entries) log
      → All (λ (p : Processed). AreOf p.txid p.entries) (without ts log)
  without-own [] h = tt
  without-own (p ∷ log) h = elim (Bool-cases (mem? p.txid ts)) [
    | inl gone ↦ rw gone (without-own log h.1)
    | inr kept ↦ rw kept (h.0, without-own log h.1)
  ]

  pub IsSpentIn-without :
      (o : OutPoint) (t v : ℕ) (log : Log)
      → mem? t ts ≡ false
      → IsSpentIn o t v log
      → IsSpentIn o t v (without ts log)
  IsSpentIn-without o t v [] n h = absurd h
  IsSpentIn-without o t v (p ∷ log) n (inl h) =
      let kept : mem? p.txid ts ≡ false = ap (λ x. mem? x ts) h.0 ∙ n in rw kept (inl h)
  IsSpentIn-without o t v (p ∷ log) n (inr h) = elim (Bool-cases (mem? p.txid ts)) [
    | inl gone ↦ rw gone (IsSpentIn-without o t v log n h)
    | inr kept ↦ rw kept (inr (IsSpentIn-without o t v log n h))
  ]

  -- A script is dropped when none of its entries is left.
  retain_step :
      (k : ℕ) (es : List TxHistoryInfo) (h : Map ℕ (List TxHistoryInfo))
      → ((without_txs ts es ≡ []) × (retain_history ts ((k, es) ∷ h) ≡ retain_history ts h))
        ⊎ (retain_history ts ((k, es) ∷ h) ≡ (k, without_txs ts es) ∷ retain_history ts h)
  unfolding retain_history
  retain_step k es h =
      elim (without_txs ts es)
        as (λ l.
          ((l ≡ [])
            × (elim l as (λ _. Map ℕ (List TxHistoryInfo)) [
              | [] ↦ retain_history ts h
              | e ∷ (es → r) ↦ (k, e ∷ es) ∷ retain_history ts h
            ]
                ≡ retain_history ts h))
          ⊎ (elim l as (λ _. Map ℕ (List TxHistoryInfo)) [
            | [] ↦ retain_history ts h
            | e ∷ (es → r) ↦ (k, e ∷ es) ∷ retain_history ts h
          ]
              ≡ (k, l) ∷ retain_history ts h)) [ [] ↦ inl (refl, refl) | e ∷ (es → r) ↦ inr refl ]

  retain_history-none :
      (s : ℕ) (h : Map ℕ (List TxHistoryInfo))
      → Maps.get s h ≡ none
      → Maps.get s (retain_history ts h) ≡ none
  unfolding retain_history
  retain_history-none s [] g = g
  retain_history-none s ((k, es) ∷ h) g = elim (nat_key.eq? s k) [
    | yes e ↦ absurd (none-ne-some es (sym g ∙ get_cons_self s k es h e))
    | no n ↦
        let rest = retain_history-none s h (sym (get_cons_other s k es h n) ∙ g) in
        elim (retain_step k es h) [
          | inl (nothing, same) ↦ ap (Maps.get s) same ∙ rest
          | inr same ↦
              ap (Maps.get s) same
              ∙ get_cons_other s k (without_txs ts es) (retain_history ts h) n
              ∙ rest
        ]
  ]

  pub entries_of-retain :
      (s : ℕ) (h : Map ℕ (List TxHistoryInfo))
      → HasDistinctKeys h
      → entries_of (retain_history ts h) s ≡ without_txs ts (entries_of h s)
  unfolding retain_history
  entries_of-retain s [] d = rw (get-nil {K = ℕ} {V = List TxHistoryInfo} s) refl
  entries_of-retain s ((k, es) ∷ h) d = elim (nat_key.eq? s k) [
    | yes e ↦
        let here : entries_of ((k, es) ∷ h) s ≡ es = ap or_empty (get_cons_self s k es h e) in
        elim (retain_step k es h) [
          | inl (nothing, same) ↦
              let gone = retain_history-none s h (ap (λ x. Maps.get x h) e ∙ d.0) in
              ap (λ m. entries_of m s) same
              ∙ ap or_empty gone
              ∙ sym (ap (without_txs ts) here ∙ nothing)
          | inr same ↦
              ap (λ m. entries_of m s) same
              ∙ ap or_empty (get_cons_self s k (without_txs ts es) (retain_history ts h) e)
              ∙ sym (ap (without_txs ts) here)
        ]
    | no n ↦
        let there : entries_of ((k, es) ∷ h) s ≡ entries_of h s =
          ap or_empty (get_cons_other s k es h n) in
        let rest = entries_of-retain s h d.1 ∙ sym (ap (without_txs ts) there) in
        elim (retain_step k es h) [
          | inl (nothing, same) ↦ ap (λ m. entries_of m s) same ∙ rest
          | inr same ↦
              ap (λ m. entries_of m s) same
              ∙ ap or_empty (get_cons_other s k (without_txs ts es) (retain_history ts h) n)
              ∙ rest
        ]
  ]

  pub retain_history-HasDistinctKeys :
      (h : Map ℕ (List TxHistoryInfo)) → HasDistinctKeys h → HasDistinctKeys (retain_history ts h)
  unfolding retain_history
  retain_history-HasDistinctKeys [] d = tt
  retain_history-HasDistinctKeys ((k, es) ∷ h) d =
      let rest = retain_history-HasDistinctKeys h d.1 in
      elim (retain_step k es h) [
        | inl (nothing, same) ↦ subst HasDistinctKeys (sym same) rest
        | inr same ↦ subst HasDistinctKeys (sym same) (retain_history-none k h d.0, rest)
      ]

  retain_edges-none :
      (o : OutPoint) (m : Map OutPoint (Txid × ℕ))
      → Maps.get o m ≡ none
      → Maps.get o (retain_edges ts m) ≡ none
  unfolding retain_edges
  retain_edges-none o [] g = g
  retain_edges-none o ((p, e) ∷ m) g = elim (OutPoint-discrete o p) [
    | yes q ↦ absurd (none-ne-some e (sym g ∙ get_cons_self o p e m q))
    | no n ↦
        let rest = retain_edges-none o m (sym (get_cons_other o p e m n) ∙ g) in
        elim (Bool-cases (mem? e.0 ts)) [
          | inl gone ↦ rw gone rest
          | inr kept ↦ rw kept (get_cons_other o p e (retain_edges ts m) n ∙ rest)
        ]
  ]

  -- An edge that is left is an old one, of a transaction that stays.
  pub get-retain_edges :
      (o : OutPoint) (t v : ℕ) (m : Map OutPoint (Txid × ℕ))
      → HasDistinctKeys m
      → Maps.get o (retain_edges ts m) ≡ some (t, v)
      → (Maps.get o m ≡ some (t, v)) × (mem? t ts ≡ false)
  unfolding retain_edges
  get-retain_edges o t v [] d g = absurd (none-ne-some (t, v) (sym (get-nil {K = OutPoint} o) ∙ g))
  get-retain_edges o t v ((p, e) ∷ m) d g = elim (Bool-cases (mem? e.0 ts)) [
    | inl gone ↦
        let (old, stays) = get-retain_edges o t v m d.1 (rw gone at g) in
        let n : o ≢ p = λ q. none-ne-some (t, v) (sym (ap (λ x. Maps.get x m) q ∙ d.0) ∙ old) in
        (get_cons_other o p e m n ∙ old, stays)
    | inr kept ↦
        let g' : Maps.get o ((p, e) ∷ retain_edges ts m) ≡ some (t, v) = rw kept at g in
        elim (OutPoint-discrete o p) [
          | yes q ↦
              let same =
                some-injective e (t, v) (sym (get_cons_self o p e (retain_edges ts m) q) ∙ g') in
              (
                get_cons_self o p e m q ∙ ap some same,
                ap (λ (x : Txid × ℕ). mem? x.0 ts) (sym same) ∙ kept,
              )
          | no n ↦
              let (old, stays) =
                get-retain_edges o t v m d.1
                  (sym (get_cons_other o p e (retain_edges ts m) n) ∙ g') in
              (get_cons_other o p e m n ∙ old, stays)
        ]
  ]

  pub retain_edges-HasDistinctKeys :
      (m : Map OutPoint (Txid × ℕ)) → HasDistinctKeys m → HasDistinctKeys (retain_edges ts m)
  unfolding retain_edges
  retain_edges-HasDistinctKeys [] d = tt
  retain_edges-HasDistinctKeys ((p, e) ∷ m) d = elim (Bool-cases (mem? e.0 ts)) [
    | inl gone ↦ rw gone (retain_edges-HasDistinctKeys m d.1)
    | inr kept ↦ rw kept (retain_edges-none p m d.0, retain_edges-HasDistinctKeys m d.1)
  ]
