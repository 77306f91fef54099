-- ===== src/Queue/Reload.antt =====
-- src/queue.rs: what the queue holds after a submission, as the next load reads it.
use splora.Common.{
  ℕ, true, false, ◌≡◌, refl, sym, ap, ◌∙◌, Option, some, List, [], ◌∷◌, ◌++◌, map, arith, inl, inr,
  ◌⊎◌, Bool-cases,
}
use mathlib.Core.Option
use splora.Common.Results.{ok}
use splora.Common.Text.{Text, has_char}
use splora.Discovery.Addr.{IpAddr}
use splora.Queue.{QueueStore, has_row, set_email, upserted, submit}
use splora.Queue.Rows.{QueueRow, load_queue, write_queue}
use splora.Queue.RoundTrip.{all_storable, is_storable, stored, load_queue-write_queue}
use splora.Queue.Submit.{submit_written}
use splora.Queue.Changes.{Updated, Appended, upserted-Upserted}

set_email-storable :
    (npub email : Text) (rows : List QueueRow)
    → has_char 44 email ≡ false
    → all_storable rows ≡ true
    → all_storable (set_email npub email rows) ≡ true
unfolding set_email is_storable
set_email-storable npub email [] c h = refl
set_email-storable npub email (r ∷ rs) c h =
    ground (arith, set_email-storable npub email rs c, c, h)

append-storable :
    (rows : List QueueRow) (r : QueueRow)
    → all_storable rows ≡ true
    → is_storable r ≡ true
    → all_storable (rows ++ r ∷ []) ≡ true
append-storable [] r h s = ground (arith, s)
append-storable (x ∷ xs) r h s = ground (arith, append-storable xs r, h, s)

upserted-storable :
    (npub email : Text) (rows : List QueueRow)
    → all_storable rows ≡ true
    → is_storable (record { npub = npub; email = email }) ≡ true
    → has_char 44 email ≡ false
    → all_storable (upserted npub email rows) ≡ true
upserted-storable npub email rows h s c = elim (Bool-cases (has_row npub rows)) [
  | inl e ↦ rw e (set_email-storable npub email rows c h)
  | inr e ↦ rw e (append-storable rows (record { npub = npub; email = email }) h s)
]

-- After an accepted submission of a npub on one line, without a comma or white space around it, to a
-- queue of such rows, the queue is read back with every row as it was but for one: the npub's first
-- row, if it has one, with the new email in its place, or else a new row behind all the others. Of
-- each email its first line comes back, trimmed.
pub load_queue-submit :
    (parse_pubkey : Text → Option ℕ) (store store' : QueueStore) (ip : Option IpAddr)
    (npub email : Text) (now : ℕ) (row : QueueRow) (rows : List QueueRow)
    → load_queue store.file ≡ some rows
    → all_storable rows ≡ true
    → is_storable (record { npub = npub; email = email }) ≡ true
    → submit parse_pubkey store ip npub email now ≡ (store', ok row)
    → (rows' : List QueueRow) × (Updated npub email rows rows' ⊎ Appended npub email rows rows')
      × (load_queue store'.file ≡ some (map stored rows'))
load_queue-submit parse_pubkey store store' ip npub email now row rows l h s e =
    let ((pk, v, c, by_ip, by_npub), (found, l', fits, w, same)) =
      submit_written parse_pubkey store store' ip npub email now row e in
    let q : found ≡ rows = Option.some-injective found rows (sym l' ∙ l) in
    let w' : write_queue store.file (upserted npub email rows) ≡ some store'.file =
      ap (λ x. write_queue store.file (upserted npub email x)) (sym q) ∙ w in
    (
      upserted npub email rows,
      upserted-Upserted npub email rows,
      load_queue-write_queue store.file store'.file (upserted npub email rows)
          (upserted-storable npub email rows h s c) w',
    )
