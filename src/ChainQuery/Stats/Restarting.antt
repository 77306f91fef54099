-- ===== src/ChainQuery/Stats/Restarting.antt =====
-- src/new_index/schema.rs: the loop of the statistics, continued in the middle of a history.
use mathlib.Core.Option
use splora.Common.{
  ℕ, ◌+◌, ◌≤◌, ◌<◌, ◌≡◌, refl, sym, ap, ◌∙◌, inl, inr, true, false, Option, none, some, List, [],
  ◌∷◌, ◌++◌, ◌==◌, >>=-eq-some, ltb, get_elem?, arith, All, Bool-cases, Option-cases,
}
use mathlib.Core.Path.{subst}
use splora.Common.Maps
use splora.Common.Maps.{nat_key}
use splora.Headers.{BlockHash, BlockId, HeaderEntry, HeaderList, blockid_of, header_by_blockhash}
use splora.ChainQuery.{Txid, TxConfRow, height_by_hash, tx_confirming_block}
use splora.ChainQuery.Utxos.{TxHistoryRow, get_txid, confirmed_rows, rows_from}
use splora.Mempool.{ScriptStats}
use splora.ChainQuery.Stats.{is_block, stats_loop}

-- The rows from a height on, when the history is in the order of the heights.
pub rows_from-newer :
    (h : ℕ) (old newer : List TxHistoryRow)
    → All (λ (r : TxHistoryRow). r.confirmed_height ≤ h) old
    → All (λ (r : TxHistoryRow). h < r.confirmed_height) newer
    → rows_from (h + 1) (old ++ newer) ≡ newer
unfolding rows_from
rows_from-newer h [] [] o n = refl
rows_from-newer h [] (r ∷ newer) o n =
    let kept : ltb r.confirmed_height (h + 1) ≡ false = ground (arith, n.0) in
    rw kept (ap (λ rs. r ∷ rs) (rows_from-newer h [] newer tt n.1))
rows_from-newer h (r ∷ old) newer o n =
    let left : ltb r.confirmed_height (h + 1) ≡ true = ground (arith, o.0) in
    rw left (rows_from-newer h old newer o.1 n)

pub rows_from-zero : (rows : List TxHistoryRow) → rows_from 0 rows ≡ rows
unfolding rows_from
rows_from-zero [] = refl
rows_from-zero (r ∷ rows) =
    let kept : ltb r.confirmed_height 0 ≡ false = ground arith in
    rw kept (ap (λ rs. r ∷ rs) (rows_from-zero rows))

-- The first row is not of this block.
abbrev pub StartsAfter : Option BlockHash → List (TxHistoryRow × BlockId) → Type 0
StartsAfter last [] = Unit
StartsAfter last ((row, b) ∷ rows) = is_block last b.hash ≡ false

stats_loop-restart :
    (s : ScriptStats) (seen : List Txid) (last : Option BlockHash)
    (rows : List (TxHistoryRow × BlockId))
    → StartsAfter last rows
    → (stats_loop s seen last rows).0 ≡ (stats_loop s [] none rows).0
unfolding stats_loop
stats_loop-restart s seen last [] a = refl
stats_loop-restart s seen last ((row, b) ∷ rows) a = rw (a, stats_loop) refl

pub stats_loop-append :
    (xs ys : List (TxHistoryRow × BlockId)) (s : ScriptStats) (seen : List Txid)
    (last : Option BlockHash)
    → StartsAfter (stats_loop s seen last xs).1 ys
    → (stats_loop s seen last (xs ++ ys)).0
      ≡ (stats_loop (stats_loop s seen last xs).0 [] none ys).0
unfolding stats_loop
stats_loop-append [] ys s seen last a = stats_loop-restart s seen last ys a
stats_loop-append ((row, b) ∷ xs) ys s seen last a = stats_loop-append xs ys _ _ (some b.hash) a

header_by_blockhash-hash :
    (l : HeaderList) (x : BlockHash) (e : HeaderEntry)
    → header_by_blockhash l x ≡ some e
    → x ≡ e.hash
unfolding header_by_blockhash
header_by_blockhash-hash l x e q =
    let (height, at, q1) = >>=-eq-some (Maps.get x l.heights) _ q in
    let (header, found, q2) = >>=-eq-some (get_elem? l.headers height) _ q1 in
    elim (Bool-cases (x == header.hash)) [
      | inl same ↦
          let r : header ≡ e = Option.some-injective header e (rw same at q2) in
          ground (arith, same, ap (λ (y : HeaderEntry). y.hash) r)
      | inr other ↦ absurd (Option.none-ne-some e (rw other at q2))
    ]

module _ (conf : List TxConfRow) (headers : HeaderList) where
  pub confirmed_rows-append :
      (xs ys : List TxHistoryRow)
      → confirmed_rows conf headers (xs ++ ys)
        ≡ confirmed_rows conf headers xs ++ confirmed_rows conf headers ys
  unfolding confirmed_rows
  confirmed_rows-append [] ys = refl
  confirmed_rows-append (r ∷ xs) ys =
      elim (Option-cases (tx_confirming_block conf headers (get_txid r))) [
        | inl gone ↦ rw (gone, confirmed_rows) (confirmed_rows-append xs ys)
        | inr (b, found) ↦ elim (Bool-cases (b.height == r.confirmed_height)) [
          | inl at ↦
              rw (found, at, confirmed_rows) (ap (λ rs. (r, b) ∷ rs) (confirmed_rows-append xs ys))
          | inr away ↦ rw (found, away, confirmed_rows) (confirmed_rows-append xs ys)
        ]
      ]

  -- The hash of a confirming block leads to its height.
  tx_confirming_block-height :
      (rows : List TxConfRow) (txid : Txid) (b : BlockId)
      → tx_confirming_block rows headers txid ≡ some b
      → height_by_hash headers b.hash ≡ some b.height
  unfolding tx_confirming_block height_by_hash blockid_of
  tx_confirming_block-height [] txid b e = absurd (Option.none-ne-some b e)
  tx_confirming_block-height (row ∷ rows) txid b e = elim (Bool-cases (row.txid == txid)) [
    | inr other ↦ tx_confirming_block-height rows txid b (rw other at e)
    | inl mine ↦ elim (Option-cases (header_by_blockhash headers row.blockhash)) [
      | inl stale ↦ tx_confirming_block-height rows txid b (rw (mine, stale) at e)
      | inr (entry, found) ↦
          let r : blockid_of entry ≡ b =
            Option.some-injective (blockid_of entry) b (rw (mine, found) at e) in
          let on : header_by_blockhash headers entry.hash ≡ some entry =
            subst (λ x. header_by_blockhash headers x ≡ some entry)
              (header_by_blockhash-hash headers row.blockhash entry found) found in
          subst (λ (x : BlockId). height_by_hash headers x.hash ≡ some x.height) r
            (ap (Option.map (λ (x : HeaderEntry). x.height)) on)
    ]
  ]

  pub confirmed_rows-StartsAfter :
      (h : ℕ) (last : BlockHash) (newer : List TxHistoryRow)
      → height_by_hash headers last ≡ some h
      → All (λ (r : TxHistoryRow). h < r.confirmed_height) newer
      → StartsAfter (some last) (confirmed_rows conf headers newer)
  unfolding confirmed_rows
  confirmed_rows-StartsAfter h last [] at n = tt
  confirmed_rows-StartsAfter h last (r ∷ newer) at n =
      elim (Option-cases (tx_confirming_block conf headers (get_txid r))) [
        | inl gone ↦ rw (gone, confirmed_rows) (confirmed_rows-StartsAfter h last newer at n.1)
        | inr (b, found) ↦ elim (Bool-cases (b.height == r.confirmed_height)) [
          | inr away ↦
              rw (found, away, confirmed_rows) (confirmed_rows-StartsAfter h last newer at n.1)
          | inl here ↦
              rw (found, here, confirmed_rows)
                (elim (Bool-cases (last == b.hash)) [
                  | inr other ↦ other
                  | inl same ↦
                      let to : some h ≡ some b.height =
                        sym at
                        ∙ ap (height_by_hash headers) (ground (arith, same))
                        ∙ tx_confirming_block-height conf (get_txid r) b found in
                      absurd (ground (arith, Option.some-injective h b.height to, here, n.0))
                ])
        ]
      ]
