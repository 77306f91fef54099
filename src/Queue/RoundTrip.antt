-- ===== src/Queue/RoundTrip.antt =====
-- src/queue.rs: what the queue file gives back of the rows that were written to it.
use splora.Common.{
  ℕ, Bool, true, false, not, ◌&&◌, ◌≡◌, refl, ap, ◌∙◌, some, List, [], ◌∷◌, ◌++◌, map, arith,
}
use splora.Common.Files.{File, replace-text}
use splora.Common.Lines.{
  lines, unlines, first_line, after_line, none_has, lines-Lines, trim-cong, split_on-absent,
  split_on-append, after_line-absent, first_line-absent, first_line-append, after_line-append,
}
use splora.Common.Trim.{trim-append, trim_start-absent, trim_end-absent, trim-trim_end}
use splora.Common.Text.{
  Text, text_eq, text_eq_iff, has_char, is_empty, is_whitespace, trim_start, trim_end, trim,
}
use splora.Queue.Rows.{QueueRow, rows_of, parse_queue_line, load_queue, line_of, write_queue}

-- A row that a submission can bring: no comma, and a npub on one line without white space around.
unfoldable pub is_storable : QueueRow → Bool
unfolding text_eq trim_start trim_end
is_storable r =
    not (has_char 44 r.npub)
    && not (has_char 10 r.npub)
    && not (is_empty r.npub)
    && text_eq (trim_start r.npub) r.npub
    && text_eq (trim_end r.npub) r.npub
    && not (has_char 44 r.email)

abbrev pub all_storable : List QueueRow → Bool
all_storable [] = true
all_storable (r ∷ rs) = is_storable r && all_storable rs

-- What is kept of a row: of the email the first line, trimmed.
unfoldable pub stored : QueueRow → QueueRow
unfolding trim
stored r = record { npub = r.npub; email = trim (first_line r.email) }

-- Lines without a comma are passed over.
rows_of-no_comma :
    (ls rest : List Text)
    → none_has 44 ls ≡ true
    → rows_of (map trim (ls ++ rest)) ≡ rows_of (map trim rest)
unfolding rows_of parse_queue_line trim
rows_of-no_comma [] rest h = refl
rows_of-no_comma (l ∷ ls) rest h =
    let absent : has_char 44 (trim l) ≡ false =
      trim_start-absent 44 (trim_end l) (trim_end-absent 44 l (ground (arith, h))) in
    ground (arith, split_on-absent 44 (trim l) absent, rows_of-no_comma ls rest, h)

nonempty-append : (a b : Text) (k : ℕ) → is_empty (a ++ k ∷ b) ≡ false
nonempty-append [] b k = refl
nonempty-append (c ∷ a) b k = refl

comma_is_no_space : is_whitespace 44 ≡ false
unfolding is_whitespace
comma_is_no_space = refl

-- The parts of a storable row's test.
record Fields (r : QueueRow) : Type 0 where
  npub_comma : has_char 44 r.npub ≡ false
  npub_feed : has_char 10 r.npub ≡ false
  npub_full : is_empty r.npub ≡ false
  npub_start : trim_start r.npub ≡ r.npub
  npub_end : trim_end r.npub ≡ r.npub
  email_comma : has_char 44 r.email ≡ false

is_storable-Fields : (r : QueueRow) → is_storable r ≡ true → Fields r
unfolding is_storable
is_storable-Fields r h = record {
  npub_comma = ground (arith, h);
  npub_feed = ground (arith, h);
  npub_full = ground (arith, h);
  npub_start = (text_eq_iff (trim_start r.npub) r.npub).0 (ground (arith, h));
  npub_end = (text_eq_iff (trim_end r.npub) r.npub).0 (ground (arith, h));
  email_comma = ground (arith, h);
}

parse-stored :
    (r : QueueRow)
    → Fields r
    → parse_queue_line (r.npub ++ 44 ∷ trim_end (first_line r.email)) ≡ some (stored r)
unfolding parse_queue_line stored trim
parse-stored r f =
    let e = trim_end (first_line r.email) in
    let absent : has_char 44 e ≡ false =
      trim_end-absent 44 (first_line r.email) (first_line-absent 44 r.email f.email_comma) in
    let same : trim r.npub ≡ r.npub = ap trim_start f.npub_end ∙ f.npub_start in
    rw
      (
        split_on-append 44 r.npub e f.npub_comma,
        split_on-absent 44 e absent,
        same,
        f.npub_full,
        trim-trim_end (first_line r.email),
      )
      refl

rows_of-parsed :
    (line : Text) (row : QueueRow) (ls : List Text)
    → is_empty line ≡ false
    → parse_queue_line line ≡ some row
    → rows_of (line ∷ ls) ≡ row ∷ rows_of ls
unfolding rows_of
rows_of-parsed line row ls n p = rw (n, p) refl

rows_of-line :
    (r : QueueRow) (next : Text)
    → Fields r
    → rows_of (map trim (lines (line_of r ++ 10 ∷ next)))
      ≡ stored r ∷ rows_of (map trim (lines next))
rows_of-line r next f =
    let ls = lines-Lines (line_of r) next in
    let e = first_line r.email in
    let first : trim ls.first ≡ r.npub ++ 44 ∷ trim_end e =
      trim-cong ls.first (first_line (line_of r)) ls.first-trim
      ∙ ap trim (first_line-append r.npub 44 r.email f.npub_feed refl)
      ∙ trim-append r.npub e 44 comma_is_no_space f.npub_full f.npub_start in
    let no_comma : has_char 44 (after_line (line_of r)) ≡ false =
      ap (has_char 44) (after_line-append r.npub 44 r.email f.npub_feed refl)
      ∙ after_line-absent 44 r.email f.email_comma in
    ap (λ all. rows_of (map trim all)) ls.whole
    ∙ rows_of-parsed (trim ls.first) (stored r) (map trim (ls.others ++ lines next))
        (ap is_empty first ∙ nonempty-append r.npub (trim_end e) 44)
        (ap parse_queue_line first ∙ parse-stored r f)
    ∙ ap (◌∷◌ (stored r)) (rows_of-no_comma ls.others (lines next) (ls.later 44 no_comma))

rows_of-lines :
    (rs : List QueueRow)
    → all_storable rs ≡ true
    → rows_of (map trim (lines (unlines (map line_of rs)))) ≡ map stored rs
unfolding unlines lines rows_of
rows_of-lines [] h = refl
rows_of-lines (r ∷ rs) h =
    rows_of-line r (unlines (map line_of rs)) (is_storable-Fields r (ground (arith, h)))
    ∙ ap (◌∷◌ (stored r)) (rows_of-lines rs (ground (arith, h)))

-- A queue that was written is read back row by row, in order, when no npub and no email has a comma
-- and every npub is a single line without white space around it: of an email the first line comes
-- back, trimmed, and whatever else its text holds adds no row.
pub load_queue-write_queue :
    (f f' : File) (rs : List QueueRow)
    → all_storable rs ≡ true
    → write_queue f rs ≡ some f'
    → load_queue f' ≡ some (map stored rs)
unfolding load_queue write_queue
load_queue-write_queue f f' rs h w =
    rw (replace-text f f' (unlines (map line_of rs)) w, load_queue) (ap some (rows_of-lines rs h))
