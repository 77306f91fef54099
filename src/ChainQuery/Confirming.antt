-- ===== src/ChainQuery/Confirming.antt =====
-- What the lookups of `ChainQuery` answer on a well-formed header list.
use mathlib.Core.Option
use splora.Common.{
  ◌+◌, ◌≡◌, ◌≢◌, sym, ◌∙◌, ◌⊎◌, inl, inr, none, some, List, [], ◌∷◌, ◌==◌, get_elem?, Bool-cases,
  Option-cases, ==_iff, arith,
}
use splora.Headers.{
  BlockHash, BlockHeader, BlockId, HeaderEntry, HeaderList, blockid_of, header_by_blockhash,
}
use splora.Headers.Reorg.{IsValid}
use splora.Headers.Lookup.{OnChain, header_by_blockhash_iff, getters_total}
use splora.ChainQuery.{Txid, TxConfRow, confirmed, orphaned, tx_confirming_block, get_block_status}

-- The rows hold a confirmation of the transaction in the block with this hash.
abbrev pub Confirms : List TxConfRow → Txid → BlockHash → Type 0
Confirms [] txid hash = ⊥
Confirms (row ∷ rows) txid hash =
    ((row.txid ≡ txid) × (row.blockhash ≡ hash)) ⊎ Confirms rows txid hash

module _ (block_hash : BlockHeader → BlockHash) (l : HeaderList) (v : IsValid block_hash l) where
  -- The confirming block of a transaction, where one is reported, stands on the best chain and
  -- has a confirmation row of the transaction.
  pub tx_confirming_block_sound :
      (rows : List TxConfRow) (txid : Txid) (b : BlockId)
      → tx_confirming_block rows l txid ≡ some b
      → (e : HeaderEntry) × OnChain l e × (b ≡ blockid_of e) × Confirms rows txid e.hash
  unfolding tx_confirming_block
  tx_confirming_block_sound [] txid b q = absurd (Option.none-ne-some b q)
  tx_confirming_block_sound (row ∷ rows) txid b q = elim (Bool-cases (row.txid == txid)) [
    | inl mine ↦ elim (Option-cases (header_by_blockhash l row.blockhash)) [
      | inl stale ↦
          let r : tx_confirming_block rows l txid ≡ some b = rw (mine, stale) at q in
          let (e, on, same, conf) = tx_confirming_block_sound rows txid b r in
          (e, on, same, inr conf)
      | inr (e, found) ↦
          let r : some (blockid_of e) ≡ some b = rw (mine, found) at q in
          let (on, hash) = (header_by_blockhash_iff block_hash l row.blockhash e v).0 found in
          (
            e,
            on,
            sym (Option.some-injective (blockid_of e) b r),
            inl ((==_iff row.txid txid).0 mine, sym hash),
          )
    ]
    | inr other ↦
        let r : tx_confirming_block rows l txid ≡ some b = rw other at q in
        let (e, on, same, conf) = tx_confirming_block_sound rows txid b r in (e, on, same, inr conf)
  ]

  -- A transaction with a confirmation row in a block of the best chain has a confirming block.
  pub tx_confirming_block_complete :
      (rows : List TxConfRow) (txid : Txid) (e : HeaderEntry)
      → OnChain l e
      → Confirms rows txid e.hash
      → tx_confirming_block rows l txid ≢ none
  unfolding tx_confirming_block
  tx_confirming_block_complete [] txid e on conf q = conf
  tx_confirming_block_complete (row ∷ rows) txid e on (inl (mine, at)) q =
      let found = (header_by_blockhash_iff block_hash l row.blockhash e v).1 (on, sym at) in
      ground (arith, found)
  tx_confirming_block_complete (row ∷ rows) txid e on (inr conf) q =
      ground (arith, tx_confirming_block_complete rows txid e on conf)

  -- `get_block_status` does not panic: a block of the best chain is confirmed at its height with
  -- the hash of the block above it, if there is one; any other hash is orphaned.
  pub block_status :
      (hash : BlockHash)
      → ((e : HeaderEntry) × OnChain l e
          × (e.hash ≡ hash)
          × (get_block_status l hash
              ≡ some (
                  confirmed e.height (
                    Option.map
                      (λ (x : HeaderEntry). x.hash)
                      (get_elem? l.headers (e.height + 1))))))
        ⊎ (((e : HeaderEntry) → OnChain l e → e.hash ≢ hash)
            × (get_block_status l hash ≡ some orphaned))
  unfolding get_block_status
  block_status hash = elim (Option-cases (header_by_blockhash l hash)) [
    | inl out ↦ inr (
      λ e on same.
          Option.some-ne-none e
            (sym ((header_by_blockhash_iff block_hash l hash e v).1 (on, same)) ∙ out),
      rw (out, get_block_status),
    )
    | inr (e, found) ↦
        let (on, same) = (header_by_blockhash_iff block_hash l hash e v).0 found in
        inl (
          e,
          on,
          same,
          rw (found, get_block_status, (getters_total block_hash l (e.height + 1) v).1),
        )
  ]
