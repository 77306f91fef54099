-- ===== src/Queue/Submit.antt =====
-- src/queue.rs: what a submission leaves in the file, and when.

use mathlib.Core.Path.{subst}
use splora.Common.{◌↔◌, ap}
use splora.Common.{
  ℕ, true, false, ◌≡◌, refl, sym, ◌∙◌, Option, some, List, inl, inr, Bool-cases, Option-cases, ◌⊎◌,
  ◌++◌,
}
use splora.Common.Results.{Outcome, ok, err, panic}
use splora.Common.Files.{File}
use splora.Common.Text.{Text, has_char, codes}
use splora.Common.Maps.{nat_key}
use splora.Discovery.Addr.{IpAddr}
use splora.Queue.{
  QueueStore, QueueError, invalid_npub, invalid_email, rate_limited, save, upserted, valid_npub,
  ip_key, hits_of, limit_ip, limit_npub, submit,
}
use splora.Queue.Rows.{QueueRow, load_queue, write_queue}
use splora.Queue.Limits.{
  IsBelow, MayCall, limit_ip-MayCall, limit_npub-IsBelow, valid_npub_parts, MayCall-limit_ip,
  IsBelow-limit_npub, valid_npub_of,
}
use splora.Queue.Changes.{Updated, Appended, HasRoom, upserted_split, upserted_only}
use splora.Queue.Saving.{
  save-Saved, save_written, Wrote, Result, Saved-Result, limit_ip-file, limit_npub-file,
}

module _ (parse_pubkey : Text → Option ℕ) where
  -- The limits that a submission passes before it is saved.
  abbrev Passed : QueueStore → Option IpAddr → Text → Text → ℕ → Type 0
  Passed store ip npub email now =
      (pk : ℕ) × (valid_npub parse_pubkey npub ≡ some pk)
      × (has_char 44 email ≡ false)
      × ((limit_ip store ip now).1 ≡ true)
      × ((limit_npub (limit_ip store ip now).0 pk now).1 ≡ true)

  abbrev SubmitResult :
      QueueStore
      → Option IpAddr
      → Text
      → Text
      → ℕ
      → QueueStore × Outcome QueueError QueueRow
      → Type 0
  SubmitResult store ip npub email now r = elim r.1 [
    | ok row ↦ Passed store ip npub email now × Wrote store.caps store.file npub email r.0.file row
    | err e ↦ r.0.file ≡ store.file
    | panic ↦ r.0.file ≡ store.file
  ]

  Passed-Result :
      (store : QueueStore) (ip : Option IpAddr) (npub email : Text) (now : ℕ)
      (r : QueueStore × Outcome QueueError QueueRow)
      → Passed store ip npub email now
      → Result store.caps store.file npub email r
      → SubmitResult store ip npub email now r
  Passed-Result store ip npub email now (s, ok row) p h = (p, h)
  Passed-Result store ip npub email now (s, err e) p h = h
  Passed-Result store ip npub email now (s, panic) p h = h

  from_result :
      (store : QueueStore) (ip : Option IpAddr) (npub email : Text) (now : ℕ)
      (r : QueueStore × Outcome QueueError QueueRow)
      → submit parse_pubkey store ip npub email now ≡ r
      → SubmitResult store ip npub email now r
      → SubmitResult store ip npub email now (submit parse_pubkey store ip npub email now)
  from_result store ip npub email now r e h = subst (SubmitResult store ip npub email now) (sym e) h

  submit-result :
      (store : QueueStore) (ip : Option IpAddr) (npub email : Text) (now : ℕ)
      → SubmitResult store ip npub email now (submit parse_pubkey store ip npub email now)
  unfolding submit
  submit-result store ip npub email now = elim (Option-cases (valid_npub parse_pubkey npub)) [
    | inl v ↦
        from_result store ip npub email now (store, err invalid_npub) (rw (v, submit) refl) refl
    | inr (pk, v) ↦ elim (Bool-cases (has_char 44 email)) [
      | inl c ↦
          from_result store ip npub email now (store, err invalid_email) (rw (v, c, submit) refl)
            refl
      | inr c ↦
          let s1 = (limit_ip store ip now).0 in
          let (f1, c1) = limit_ip-file store ip now in
          elim (Bool-cases (limit_ip store ip now).1) [
            | inr l ↦
                from_result store ip npub email now (s1, err rate_limited)
                  (rw (v, c, l, submit) refl) f1
            | inl l ↦
                let s2 = (limit_npub s1 pk now).0 in
                let (f2, c2) = limit_npub-file s1 pk now in
                elim (Bool-cases (limit_npub s1 pk now).1) [
                  | inr k ↦
                      from_result store ip npub email now (s2, err rate_limited)
                        (rw (v, c, l, k, submit) refl) (f2 ∙ f1)
                  | inl k ↦
                      let saved =
                        Saved-Result s2 npub email (save s2 npub email)
                          (save-Saved s2 npub email) in
                      let moved =
                        subst (λ caps. Result caps store.file npub email (save s2 npub email))
                          (c2 ∙ c1)
                          (subst (λ f. Result s2.caps f npub email (save s2 npub email)) (f2 ∙ f1)
                            saved) in
                      from_result store ip npub email now (save s2 npub email)
                        (rw (v, c, l, k, submit) refl)
                        (Passed-Result store ip npub email now (save s2 npub email) (pk, v, c, l, k)
                          moved)
                ]
          ]
    ]
  ]

  pub submit_written :
      (store store' : QueueStore) (ip : Option IpAddr) (npub email : Text) (now : ℕ)
      (row : QueueRow)
      → submit parse_pubkey store ip npub email now ≡ (store', ok row)
      → Passed store ip npub email now × Wrote store.caps store.file npub email store'.file row
  submit_written store store' ip npub email now row h =
      subst (SubmitResult store ip npub email now) h (submit-result store ip npub email now)

  submit-save :
      (store : QueueStore) (ip : Option IpAddr) (npub email : Text) (now pk : ℕ)
      → valid_npub parse_pubkey npub ≡ some pk
      → has_char 44 email ≡ false
      → (limit_ip store ip now).1 ≡ true
      → (limit_npub (limit_ip store ip now).0 pk now).1 ≡ true
      → submit parse_pubkey store ip npub email now
        ≡ save (limit_npub (limit_ip store ip now).0 pk now).0 npub email
  unfolding submit
  submit-save store ip npub email now pk v c by_ip by_npub = rw (v, c, by_ip, by_npub, submit) refl

  -- A submission is accepted, and leaves this file, if and only if: the npub begins with `npub1` and
  -- is a public key; the email has no comma; the recent hits of the client's address, where it has
  -- one, and of the key are fewer than their limits, as 32-bit counts; the queue can be read; and the
  -- file is written with the npub's first row, if it has one, holding the new email and every other
  -- row as it was, or else with a new row behind them all. For a new row there are less than
  -- `max_rows`, and its line and the file's bytes together are at most `max_bytes`, or that cap is not
  -- below the greatest `u64`.
  pub submit-ok :
      (store : QueueStore) (file' : File) (ip : Option IpAddr) (npub email : Text) (now : ℕ)
      → ((store' : QueueStore) × (submit parse_pubkey store ip npub email now
            ≡ (store', ok (record { npub = npub; email = email })))
          × (store'.file ≡ file'))
        ↔ (((pk : ℕ) × (parse_pubkey npub ≡ some pk)
              × IsBelow store.caps.per_npub store.caps.window_secs now (hits_of pk store.npub_hits))
            × ((key : Text) × (npub ≡ codes "npub1" ++ key))
            × (has_char 44 email ≡ false)
            × MayCall store ip now
            × ((rows : List QueueRow) × (rows' : List QueueRow) × (load_queue store.file
                  ≡ some rows)
                × (Updated npub email rows rows'
                    ⊎ (Appended npub email rows rows'
                        × HasRoom store.caps store.file npub email rows))
                × (write_queue store.file rows' ≡ some file')))
  submit-ok store file' ip npub email now = (
    λ (store', h, left).
        let ((pk, v, c, by_ip, by_npub), (rows, l, fits, w, same)) =
          submit_written store store' ip npub email now (record { npub = npub; email = email }) h in
        let (starts, parsed) = valid_npub_parts parse_pubkey npub pk v in
        (
          (pk, parsed, limit_npub-IsBelow store ip pk now by_npub),
          starts,
          c,
          limit_ip-MayCall store ip now by_ip,
          (
            rows,
            upserted npub email rows,
            l,
            upserted_split store.caps store.file npub email rows fits,
            w ∙ ap some left,
          ),
        ),
    λ ((pk, parsed, below), (key, starts), c, may, (rows, rows', l, change, w)).
        let v = valid_npub_of parse_pubkey npub key pk starts parsed in
        let by_ip = MayCall-limit_ip store ip now may in
        let by_npub = IsBelow-limit_npub store ip pk now below in
        let (fits, same) = upserted_only store.caps store.file npub email rows rows' change in
        let w' : write_queue store.file (upserted npub email rows) ≡ some file' =
          ap (write_queue store.file) same ∙ w in
        let s1 = (limit_ip store ip now).0 in
        let s2 = (limit_npub s1 pk now).0 in
        let (f1, c1) = limit_ip-file store ip now in
        let (f2, c2) = limit_npub-file s1 pk now in
        (
          record s2 { file = file' },
          submit-save store ip npub email now pk v c by_ip by_npub
              ∙ save_written store s2 file' npub email rows (f2 ∙ f1) (c2 ∙ c1) l fits w',
          refl,
        ),
  )

  -- A submission that is refused leaves the queue's file as it was.
  pub submit-err :
      (store store' : QueueStore) (ip : Option IpAddr) (npub email : Text) (now : ℕ)
      (e : QueueError)
      → submit parse_pubkey store ip npub email now ≡ (store', err e)
      → store'.file ≡ store.file
  unfolding submit
  submit-err store store' ip npub email now e h =
      subst (SubmitResult store ip npub email now) h (submit-result store ip npub email now)
