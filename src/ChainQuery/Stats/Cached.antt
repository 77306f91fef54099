-- ===== src/ChainQuery/Stats/Cached.antt =====
-- src/new_index/schema.rs: statistics that are brought up to date from cached ones are those that
-- are counted from the start.

use splora.Common.{
  ℕ, ◌+◌, ◌≤◌, ◌<◌, ◌≡◌, refl, sym, ap, ◌∙◌, ◌⊎◌, inl, inr, true, Option, none, some, List, [],
  ◌++◌, arith, All, Bool-cases, Option-cases, ◌↔◌,
}
use mathlib.Core.Path.{subst}
use splora.Common.Maps.{nat_key}
use splora.Headers.{BlockHash, HeaderList}
use splora.ChainQuery.{TxConfRow, height_by_hash}
use splora.ChainQuery.Utxos.{TxHistoryRow, confirmed_rows}
use splora.Mempool.{ScriptStats, no_stats}
use splora.ChainQuery.Stats.{is_sane, stats_loop, stats_delta, usable, stats}
use splora.ChainQuery.Stats.Restarting.{
  rows_from-newer, rows_from-zero, StartsAfter, stats_loop-append, confirmed_rows-append,
  confirmed_rows-StartsAfter,
}

usable-cases :
    (headers : HeaderList) (s : ScriptStats) (last : BlockHash)
    → (usable headers (some (s, last)) ≡ none)
      ⊎ ((h : ℕ) × (height_by_hash headers last ≡ some h)
          × (usable headers (some (s, last)) ≡ some (s, h)))
unfolding usable
usable-cases headers s last = elim (Bool-cases (is_sane s)) [
  | inr strange ↦ inl (rw (strange, usable) refl)
  | inl sane ↦ elim (Option-cases (height_by_hash headers last)) [
    | inl gone ↦ inl (rw (sane, gone, usable) refl)
    | inr (h, at) ↦ inr (h, at, rw (sane, at, usable) refl)
  ]
]

continued :
    (conf : List TxConfRow) (headers : HeaderList) (old newer : List TxHistoryRow) (s : ScriptStats)
    (last : BlockHash) (h : ℕ)
    → stats_loop no_stats [] none (confirmed_rows conf headers old) ≡ (s, some last)
    → height_by_hash headers last ≡ some h
    → All (λ (r : TxHistoryRow). r.confirmed_height ≤ h) old
    → All (λ (r : TxHistoryRow). h < r.confirmed_height) newer
    → (stats_delta conf headers (old ++ newer) s (h + 1)).0
      ≡ (stats_delta conf headers (old ++ newer) no_stats 0).0
unfolding stats_delta
continued conf headers old newer s last h counted at below above =
    let after : StartsAfter (stats_loop no_stats [] none (confirmed_rows conf headers old)).1
        (confirmed_rows conf headers newer) =
      subst
        (λ (p : ScriptStats × Option BlockHash).
          StartsAfter p.1 (confirmed_rows conf headers newer))
        (sym counted) (confirmed_rows-StartsAfter conf headers h last newer at above) in
    let from_start : (stats_delta conf headers (old ++ newer) no_stats 0).0
        ≡ (stats_loop s [] none (confirmed_rows conf headers newer)).0 =
      ap (λ rows. (stats_loop no_stats [] none rows).0)
        (ap (confirmed_rows conf headers) (rows_from-zero (old ++ newer))
          ∙ confirmed_rows-append conf headers old newer)
      ∙ stats_loop-append (confirmed_rows conf headers old) (confirmed_rows conf headers newer)
          no_stats [] none after
      ∙ ap
          (λ (p : ScriptStats × Option BlockHash).
            (stats_loop p.0 [] none (confirmed_rows conf headers newer)).0)
          counted in
    ap (λ rows. (stats_loop s [] none (confirmed_rows conf headers rows)).0)
      (rows_from-newer h old newer below above)
    ∙ sym from_start

-- What statistics that were counted are like: not more is spent than funded, no transaction is
-- without a row, and all outputs are spent exactly if their whole value is.
pub record IsSane (s : ScriptStats) : Type 0 where
  pub fewer : s.spent_txo_count ≤ s.funded_txo_count
  pub rows : s.tx_count ≤ s.spent_txo_count + s.funded_txo_count
  pub less : s.spent_txo_sum ≤ s.funded_txo_sum
  pub emptied : (s.funded_txo_count ≡ s.spent_txo_count) ↔ (s.funded_txo_sum ≡ s.spent_txo_sum)

is_sane-IsSane : (s : ScriptStats) → is_sane s ≡ true → IsSane s
unfolding is_sane
is_sane-IsSane s h = record {
  fewer = ground (arith, h);
  rows = ground (arith, h);
  less = ground (arith, h);
  emptied = (λ e. ground (arith, h, e), λ e. ground (arith, h, e));
}

unusable :
    (headers : HeaderList) (s : ScriptStats) (last : BlockHash)
    → (¬ IsSane s) ⊎ (height_by_hash headers last ≡ none)
    → usable headers (some (s, last)) ≡ none
unfolding usable
unusable headers s last (inl strange) = elim (Bool-cases (is_sane s)) [
  | inl sane ↦ absurd (strange (is_sane-IsSane s sane))
  | inr n ↦ rw (n, usable) refl
]
unusable headers s last (inr gone) = elim (Bool-cases (is_sane s)) [
  | inl sane ↦ rw (sane, gone, usable) refl
  | inr n ↦ rw (n, usable) refl
]

-- The statistics that `stats` brings up to date from cached ones are those that it counts from the
-- start, in three cases. The history is in the order of the heights, and the cached ones were counted
-- over its first part, up to their block, while the rows of this
-- part are confirmed as they were. Or the cached ones, whatever they are, are not sane. Or their
-- block has left the best chain.
pub stats_cached :
    (conf conf' : List TxConfRow) (headers headers' : HeaderList) (old newer : List TxHistoryRow)
    (s : ScriptStats) (last : BlockHash)
    → ((stats_delta conf headers old no_stats 0 ≡ (s, some last))
        × (confirmed_rows conf headers old ≡ confirmed_rows conf' headers' old)
        × ((h : ℕ)
            → height_by_hash headers' last ≡ some h
            → All (λ (r : TxHistoryRow). r.confirmed_height ≤ h) old
              × All (λ (r : TxHistoryRow). h < r.confirmed_height) newer))
      ⊎ ((¬ IsSane s) ⊎ (height_by_hash headers' last ≡ none))
    → (stats conf' headers' (old ++ newer) (some (s, last))).0
      ≡ (stats conf' headers' (old ++ newer) none).0
unfolding stats stats_delta
stats_cached conf conf' headers headers' old newer s last (inr stale) =
    rw (unusable headers' s last stale, stats) refl
stats_cached conf conf' headers headers' old newer s last (inl (e, same, sorted)) =
    elim (usable-cases headers' s last) [
      | inl unused ↦ rw (unused, stats) refl
      | inr (h, at, used) ↦
          let counted : stats_loop no_stats [] none (confirmed_rows conf' headers' old)
              ≡ (s, some last) =
            ap (stats_loop no_stats [] none)
              (sym (ap (confirmed_rows conf headers) (rows_from-zero old) ∙ same))
            ∙ e in
          rw (used, stats)
            (continued conf' headers' old newer s last h counted at (sorted h at).0 (sorted h at).1)
    ]
