-- ===== src/Queue/Approve.antt =====
-- src/queue.rs: the whole of `approve`, on both files.
use mathlib.Core.Option
use splora.Common.{
  ℕ, true, false, ◌||◌, ◌≡◌, refl, sym, ap, ◌∙◌, Option, none, some, List, [], ◌∷◌, map, ◌==◌,
  arith, inl, inr, Option-cases,
}
use splora.Common.Results.{ok, returns, Outcome-cases}
use splora.Common.Files.{File, text_or_empty}
use splora.Common.Text.{Text, has_char, trim}
use splora.Auth.{has_key, parse_allowlist}
use splora.Queue.{QueueError, io, valid_npub}
use splora.Queue.Rows.{QueueRow, load_queue, write_queue}
use splora.Queue.Commands.{delete_rows, clear_row, upsert_allowlist, approve}
use splora.Queue.Changes.{Kept, delete_rows-Kept}
use splora.Queue.RoundTrip.{all_storable, stored, load_queue-write_queue}
use splora.Queue.Approval.{upsert_allowlist_keys}

delete_rows-storable :
    (npub : Text) (rows : List QueueRow)
    → all_storable rows ≡ true
    → all_storable (delete_rows npub rows) ≡ true
unfolding delete_rows
delete_rows-storable npub [] h = refl
delete_rows-storable npub (r ∷ rs) h = ground (arith, delete_rows-storable npub rs, h)

module _ (parse_pubkey : Text → Option ℕ) where
  upsert_allowlist-returns :
      (f : File) (npub : Text) → returns (upsert_allowlist parse_pubkey f npub) ≡ true
  unfolding upsert_allowlist
  upsert_allowlist-returns f npub = ground arith

  -- The error in the result of `approve`.
  abbrev error_of : File × File × Option QueueError → Option QueueError
  error_of r = r.2

  -- After an approval without an error, of a trimmed npub of one line, the queue is read back with
  -- exactly the rows of the other npubs, in their order, of each email its first line, trimmed. The
  -- npub's key, and no other, is added to the keys of the allowlist file.
  pub approve_moves :
      (queue allowlist queue' allowlist' : File) (npub : Text) (pk : ℕ) (keys : List ℕ)
      (rows : List QueueRow)
      → load_queue queue ≡ some rows
      → all_storable rows ≡ true
      → parse_allowlist parse_pubkey (text_or_empty allowlist) ≡ some keys
      → valid_npub parse_pubkey npub ≡ some pk
      → trim npub ≡ npub
      → has_char 10 npub ≡ false
      → approve parse_pubkey queue allowlist npub ≡ (queue', allowlist', none)
      → ((kept : List QueueRow) × Kept npub rows kept
          × (load_queue queue' ≡ some (map stored kept)))
        × ((keys' : List ℕ) × (parse_allowlist parse_pubkey (text_or_empty allowlist') ≡ some keys')
            × ((k : ℕ) → has_key k keys' ≡ (has_key k keys || (pk == k))))
  unfolding approve clear_row
  approve_moves queue allowlist queue' allowlist' npub pk keys rows l s r v t n e =
      elim (Option-cases (write_queue queue (delete_rows npub rows))) [
        | inl w ↦
            let q : some io ≡ none = ap error_of (rw (v, l, w, approve, clear_row) at e) in
            absurd (Option.some-ne-none io q)
        | inr (q', w) ↦
            elim (Outcome-cases (upsert_allowlist parse_pubkey allowlist npub)
              (upsert_allowlist-returns allowlist npub)) [
                | inr (x, u) ↦
                    let q : some x ≡ none =
                      ap error_of (rw (v, l, w, u, approve, clear_row) at e) in
                    absurd (Option.some-ne-none x q)
                | inl (a', u) ↦
                    let p = rw (v, l, w, u, approve, clear_row) at e in
                    let same_queue : q' ≡ queue' = ap (λ z. z.0) p in
                    let same_allowlist : a' ≡ allowlist' = ap (λ z. z.1) p in
                    (
                      (
                        delete_rows npub rows,
                        delete_rows-Kept npub rows,
                        ap load_queue (sym same_queue)
                            ∙ load_queue-write_queue queue q' (delete_rows npub rows)
                                (delete_rows-storable npub rows s) w,
                      ),
                      upsert_allowlist_keys parse_pubkey allowlist allowlist' npub pk keys r v t n
                          (u ∙ ap ok same_allowlist),
                    )
              ]
      ]
