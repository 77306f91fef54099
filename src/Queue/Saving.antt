-- ===== src/Queue/Saving.antt =====
-- src/queue.rs: what the end of a submission, `save`, leaves in the file.

use splora.Common.{ap}
use splora.Common.{
  ℕ, true, false, not, ◌&&◌, ◌≡◌, refl, ◌∙◌, Option, none, some, List, arith, inl, inr, Bool-cases,
  Option-cases,
}
use splora.Common.Results.{Outcome, ok, err, panic}
use splora.Common.Files.{File}
use splora.Common.Text.{Text}
use splora.Common.Maps.{nat_key}
use splora.Discovery.Addr.{IpAddr}
use splora.Queue.{
  QueueStore, QueueCaps, QueueError, cap_exceeded, io, save, has_row, is_full, upserted, ip_key,
  limit_ip, limit_npub,
}
use splora.Queue.Rows.{QueueRow, load_queue, write_queue}

-- What `save` can do.
pub data Saved (store : QueueStore) (npub email : Text)
    : QueueStore × Outcome QueueError QueueRow → Type 0 where
  unread : load_queue store.file ≡ none → Saved store npub email (store, err io)
  refused :
      {rows : List QueueRow}
      → load_queue store.file ≡ some rows
      → has_row npub rows ≡ false
      → is_full store.caps store.file npub email rows ≡ true
      → Saved store npub email (store, err cap_exceeded)
  unwritten :
      {rows : List QueueRow}
      → load_queue store.file ≡ some rows
      → write_queue store.file (upserted npub email rows) ≡ none
      → Saved store npub email (store, err io)
  written :
      {rows : List QueueRow} {file : File}
      → load_queue store.file ≡ some rows
      → (not (has_row npub rows) && is_full store.caps store.file npub email rows) ≡ false
      → write_queue store.file (upserted npub email rows) ≡ some file
      → Saved store npub email
          (record store { file = file }, ok (record { npub = npub; email = email }))

pub save-Saved :
    (store : QueueStore) (npub email : Text) → Saved store npub email (save store npub email)
unfolding save
save-Saved store npub email = elim (Option-cases (load_queue store.file)) [
  | inl e ↦ rw (e, save) (unread e)
  | inr (rows, e) ↦
      elim (Bool-cases (not (has_row npub rows) && is_full store.caps store.file npub email rows)) [
        | inl full ↦ rw (e, full, save) (refused e (ground (arith, full)) (ground (arith, full)))
        | inr fits ↦ elim (Option-cases (write_queue store.file (upserted npub email rows))) [
          | inl w ↦ rw (e, fits, w, save) (unwritten e w)
          | inr (file, w) ↦ rw (e, fits, w, save) (written e fits w)
        ]
      ]
]

-- `save` on a store with this file and these caps.
pub save_written :
    (store s : QueueStore) (file : File) (npub email : Text) (rows : List QueueRow)
    → s.file ≡ store.file
    → s.caps ≡ store.caps
    → load_queue store.file ≡ some rows
    → (not (has_row npub rows) && is_full store.caps store.file npub email rows) ≡ false
    → write_queue store.file (upserted npub email rows) ≡ some file
    → save s npub email ≡ (record s { file = file }, ok (record { npub = npub; email = email }))
unfolding save
save_written store s file npub email rows f c l fits w =
    let l' : load_queue s.file ≡ some rows = ap load_queue f ∙ l in
    let fits' : (not (has_row npub rows) && is_full s.caps s.file npub email rows) ≡ false =
      (λ i. not (has_row npub rows) && is_full (c i) (f i) npub email rows) ∙ fits in
    let w' : write_queue s.file (upserted npub email rows) ≡ some file =
      ap (λ x. write_queue x (upserted npub email rows)) f ∙ w in
    rw (l', fits', w', save) refl

-- What an accepted submission did to a file under these caps, and what is in the file now.
abbrev pub Wrote : QueueCaps → File → Text → Text → File → QueueRow → Type 0
Wrote caps file npub email file' row =
    (rows : List QueueRow) × (load_queue file ≡ some rows)
    × ((not (has_row npub rows) && is_full caps file npub email rows) ≡ false)
    × (write_queue file (upserted npub email rows) ≡ some file')
    × (row ≡ record { npub = npub; email = email })

-- What the result of `save` says: it wrote, or the file is as it was.
abbrev pub Result :
    QueueCaps → File → Text → Text → QueueStore × Outcome QueueError QueueRow → Type 0
Result caps file npub email r = elim r.1 [
  | ok row ↦ Wrote caps file npub email r.0.file row
  | err e ↦ r.0.file ≡ file
  | panic ↦ r.0.file ≡ file
]

pub Saved-Result :
    (store : QueueStore) (npub email : Text) (r : QueueStore × Outcome QueueError QueueRow)
    → Saved store npub email r
    → Result store.caps store.file npub email r
Saved-Result store npub email r (unread e) = refl
Saved-Result store npub email r (refused e known full) = refl
Saved-Result store npub email r (unwritten e w) = refl
Saved-Result store npub email r (written {rows} {file} e fits w) = (rows, e, fits, w, refl)

-- The rate limits change neither the file nor the caps.
pub limit_ip-file :
    (store : QueueStore) (ip : Option IpAddr) (now : ℕ)
    → ((limit_ip store ip now).0.file ≡ store.file) × ((limit_ip store ip now).0.caps ≡ store.caps)
unfolding limit_ip
limit_ip-file store none now = (refl, refl)
limit_ip-file store (some ip) now = (refl, refl)

pub limit_npub-file :
    (store : QueueStore) (pk now : ℕ)
    → ((limit_npub store pk now).0.file ≡ store.file)
      × ((limit_npub store pk now).0.caps ≡ store.caps)
unfolding limit_npub
limit_npub-file store pk now = (refl, refl)
