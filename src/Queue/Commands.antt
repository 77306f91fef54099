-- ===== src/Queue/Commands.antt =====
-- src/queue.rs: the operator's commands, on the queue file and the allowlist file.
use splora.Common.{
  Bool, true, false, not, ◌&&◌, Option, none, some, List, [], ◌∷◌, ◌++◌, ◌==◌, if◌then◌else◌,
  length, ℕ,
}
use splora.Common.Results.{Outcome, ok, err, panic, or_err, ◌>>=◌}
use splora.Common.Files.{File, replace, text_or_empty}
use splora.Common.Lines.{lines, unlines}
use splora.Common.Text.{Text, text_eq, trim}
use splora.Auth.{is_comment}
use splora.Queue.{QueueError, invalid_npub, io, not_found, valid_npub}
use splora.Queue.Rows.{QueueRow, load_queue, write_queue}

-- `rows.retain(|r| r.npub != npub)`
unfoldable pub delete_rows : Text → List QueueRow → List QueueRow
unfolding text_eq
delete_rows npub [] = []
delete_rows npub (r ∷ rs) =
    let rest = delete_rows npub rs in if text_eq r.npub npub then rest else r ∷ rest

-- `fsync_lines`
unfoldable pub fsync_lines : File → List Text → Option File
unfolding replace unlines
fsync_lines f ls = replace f (unlines ls)

module _ (parse_pubkey : Text → Option ℕ) where
  -- Whether an allowlist line is for this key.
  unfoldable pub is_line_of : ℕ → Text → Bool
  unfolding is_comment trim
  is_line_of pk raw =
      not (is_comment (trim raw))
      && (elim (parse_pubkey (trim raw)) [ none ↦ false | some k ↦ k == pk ])

  -- The loop of `remove_npub`.
  unfoldable pub drop_key : ℕ → List Text → List Text
  unfolding is_line_of
  drop_key pk [] = []
  drop_key pk (raw ∷ ls) =
      let rest = drop_key pk ls in if is_line_of pk raw then rest else raw ∷ rest

  -- The loop of `upsert_allowlist`, and `found`.
  unfoldable pub rewrite_key : ℕ → Text → List Text → List Text
  unfolding is_line_of
  rewrite_key pk npub [] = []
  rewrite_key pk npub (raw ∷ ls) =
      (if is_line_of pk raw then npub else raw) ∷ rewrite_key pk npub ls

  unfoldable pub has_line_of : ℕ → List Text → Bool
  unfolding is_line_of
  has_line_of pk [] = false
  has_line_of pk (raw ∷ ls) = if is_line_of pk raw then true else has_line_of pk ls

  unfoldable pub upsert_lines : ℕ → Text → List Text → List Text
  unfolding rewrite_key has_line_of
  upsert_lines pk npub ls =
      if has_line_of pk ls then rewrite_key pk npub ls else rewrite_key pk npub ls ++ npub ∷ []

  unfoldable pub upsert_allowlist : File → Text → Outcome QueueError File
  unfolding valid_npub upsert_lines lines fsync_lines
  upsert_allowlist f npub = do
    pk ← or_err invalid_npub (valid_npub parse_pubkey npub)
    or_err io (fsync_lines f (upsert_lines pk npub (lines (text_or_empty f))))

  unfoldable pub remove_npub : File → Text → Outcome QueueError File
  unfolding valid_npub drop_key lines fsync_lines
  remove_npub f npub = do
    pk ← or_err invalid_npub (valid_npub parse_pubkey npub)
    or_err io (fsync_lines f (drop_key pk (lines (text_or_empty f))))

  unfoldable pub reject : File → Text → Outcome QueueError File
  unfolding valid_npub load_queue delete_rows write_queue
  reject f npub = do
    _ ← or_err invalid_npub (valid_npub parse_pubkey npub)
    rows ← or_err io (load_queue f)
    (let kept = delete_rows npub rows in
        if length kept == length rows then err not_found else or_err io (write_queue f kept))

  -- The queue's half of `approve`: a missing file stays missing.
  unfoldable pub clear_row : File → Text → Outcome QueueError File
  unfolding load_queue delete_rows write_queue
  clear_row f npub = elim (load_queue f) [
    | none ↦ ok f
    | some rows ↦ or_err io (write_queue f (delete_rows npub rows))
  ]

  -- Both files, and the error if there is one. The queue is written first.
  unfoldable pub approve : File → File → Text → File × File × Option QueueError
  unfolding valid_npub clear_row upsert_allowlist
  approve queue allowlist npub = elim (valid_npub parse_pubkey npub) [
    | none ↦ (queue, allowlist, some invalid_npub)
    | some pk ↦ elim (clear_row queue npub) [
      | ok queue' ↦ elim (upsert_allowlist allowlist npub) [
        | ok allowlist' ↦ (queue', allowlist', none)
        | err e ↦ (queue', allowlist, some e)
        | panic ↦ (queue', allowlist, none)
      ]
      | err e ↦ (queue, allowlist, some e)
      | panic ↦ (queue, allowlist, none)
    ]
  ]
