-- ===== src/Queue/Rows.antt =====
-- src/queue.rs: the queue file's lines, read and written.
use splora.Common.{Option, none, some, List, [], ◌∷◌, ◌++◌, map, if◌then◌else◌}
use splora.Common.Files.{File, replace}
use splora.Common.Lines.{lines, split_on, unlines}
use splora.Common.Text.{Text, is_empty, trim}

pub record QueueRow : Type 0 where
  pub npub : Text
  pub email : Text

-- Exactly two fields.
abbrev pub row_of_parts : List Text → Option QueueRow
row_of_parts (a ∷ b ∷ []) =
    if is_empty (trim a) then none else some (record { npub = trim a; email = trim b })
row_of_parts parts = none

unfoldable pub parse_queue_line : Text → Option QueueRow
unfolding split_on trim
parse_queue_line line = row_of_parts (split_on 44 line)

-- The loop of `load_queue` over trimmed lines.
unfoldable pub rows_of : List Text → List QueueRow
unfolding parse_queue_line
rows_of [] = []
rows_of (line ∷ ls) =
    let rest = rows_of ls in
    if is_empty line
    then rest
    else elim (parse_queue_line line) [ none ↦ rest | some row ↦ row ∷ rest ]

-- `none` is an I/O error, for a missing file.
unfoldable pub load_queue : File → Option (List QueueRow)
unfolding rows_of lines trim
load_queue f = elim f.text [ none ↦ none | some text ↦ some (rows_of (map trim (lines text))) ]

abbrev pub line_of : QueueRow → Text
line_of r = r.npub ++ 44 ∷ r.email

unfoldable pub write_queue : File → List QueueRow → Option File
unfolding replace unlines
write_queue f rows = replace f (unlines (map line_of rows))
