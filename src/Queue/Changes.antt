-- ===== src/Queue/Changes.antt =====
-- src/queue.rs: what a submission and an operator's command do to the rows of the queue, described
-- without the loops of the code.
use splora.Common.{
  true, false, not, ◌&&◌, ◌≡◌, ◌≢◌, ◌≤◌, ◌<◌, ◌+◌, ◌-◌, ◌^◌, ◌⊎◌, inl, inr, refl, ap, List, [], ◌∷◌,
  ◌++◌, All, arith, Bool-cases, length, sym, ◌∙◌,
}
use splora.Common.Files.{File, text_or_empty}
use splora.Common.Text.{Text, text_eq, text_eq_iff, byte_len}
use splora.Queue.{QueueCaps, has_row, set_email, is_full, upserted}
use splora.Queue.Rows.{QueueRow}
use splora.Queue.Commands.{delete_rows}

text_eq_other : (a b : Text) → text_eq a b ≡ false → a ≢ b
text_eq_other a b e = λ q. ground (arith, (text_eq_iff a b).1 q, e)

-- These are the rows of the other npubs, all of them and in order.
pub data Kept (npub : Text) : List QueueRow → List QueueRow → Type 0 where
  nothing : Kept npub [] []
  taken :
      {r : QueueRow} {rows kept : List QueueRow}
      → r.npub ≡ npub
      → Kept npub rows kept
      → Kept npub (r ∷ rows) kept
  stays :
      {r : QueueRow} {rows kept : List QueueRow}
      → r.npub ≢ npub
      → Kept npub rows kept
      → Kept npub (r ∷ rows) (r ∷ kept)

pub delete_rows-Kept : (npub : Text) (rows : List QueueRow) → Kept npub rows (delete_rows npub rows)
unfolding delete_rows
delete_rows-Kept npub [] = nothing
delete_rows-Kept npub (r ∷ rows) = elim (Bool-cases (text_eq r.npub npub)) [
  | inl same ↦
      rw (same, delete_rows) (taken ((text_eq_iff r.npub npub).0 same) (delete_rows-Kept npub rows))
  | inr other ↦
      rw (other, delete_rows) (stays (text_eq_other r.npub npub other) (delete_rows-Kept npub rows))
]

-- No row is the npub's.
abbrev pub IsNew : Text → List QueueRow → Type 0
IsNew npub rows = All (λ (r : QueueRow). r.npub ≢ npub) rows

-- The npub's first row has a new email, and every other row is as it was.
pub record Updated (npub email : Text) (rows rows' : List QueueRow) : Type 0 where
  pub before : List QueueRow
  pub old : QueueRow
  pub after : List QueueRow
  pub were : rows ≡ before ++ old ∷ after
  pub first : IsNew npub before
  pub mine : old.npub ≡ npub
  pub now : rows' ≡ before ++ record { npub = npub; email = email } ∷ after

-- A row of a new npub is at the end.
abbrev pub Appended : Text → Text → List QueueRow → List QueueRow → Type 0
Appended npub email rows rows' =
    IsNew npub rows × (rows' ≡ rows ++ record { npub = npub; email = email } ∷ [])

set_email-Updated :
    (npub email : Text) (rows : List QueueRow)
    → has_row npub rows ≡ true
    → Updated npub email rows (set_email npub email rows)
unfolding set_email
set_email-Updated npub email [] h = absurd (ground (arith, h))
set_email-Updated npub email (r ∷ rows) h = elim (Bool-cases (text_eq r.npub npub)) [
  | inl same ↦
      let q = (text_eq_iff r.npub npub).0 same in
      record {
        before = [];
        old = r;
        after = rows;
        were = refl;
        first = tt;
        mine = q;
        now = rw (same, set_email) (ap (λ t. record { npub = t; email = email } ∷ rows) q);
      }
  | inr other ↦
      let u = set_email-Updated npub email rows (ground (arith, h, other)) in
      record {
        before = r ∷ u.before;
        old = u.old;
        after = u.after;
        were = ap (◌∷◌ r) u.were;
        first = (text_eq_other r.npub npub other, u.first);
        mine = u.mine;
        now = rw (other, set_email) (ap (◌∷◌ r) u.now);
      }
]

has_row-IsNew : (npub : Text) (rows : List QueueRow) → has_row npub rows ≡ false → IsNew npub rows
has_row-IsNew npub [] h = tt
has_row-IsNew npub (r ∷ rows) h =
    (text_eq_other r.npub npub (ground (arith, h)), has_row-IsNew npub rows (ground (arith, h)))

pub upserted-Upserted :
    (npub email : Text) (rows : List QueueRow)
    → Updated npub email rows (upserted npub email rows)
      ⊎ Appended npub email rows (upserted npub email rows)
upserted-Upserted npub email rows = elim (Bool-cases (has_row npub rows)) [
  | inl known ↦ inl (rw known (set_email-Updated npub email rows known))
  | inr new ↦ inr (has_row-IsNew npub rows new, rw new refl)
]

-- A row's line fits behind the file under the caps, whose bytes are counted up to the greatest `u64`.
abbrev pub HasRoom : QueueCaps → File → Text → Text → List QueueRow → Type 0
HasRoom caps file npub email rows =
    (length rows < caps.max_rows)
    × ((byte_len (text_or_empty file) + (byte_len npub + 1 + byte_len email + 1) ≤ caps.max_bytes)
        ⊎ (2 ^ 64 - 1 ≤ caps.max_bytes))

is_full-HasRoom :
    (caps : QueueCaps) (file : File) (npub email : Text) (rows : List QueueRow)
    → is_full caps file npub email rows ≡ false
    → HasRoom caps file npub email rows
is_full-HasRoom caps file npub email rows h = (ground (arith, h), ground (arith, h))

pub upserted_split :
    (caps : QueueCaps) (file : File) (npub email : Text) (rows : List QueueRow)
    → (not (has_row npub rows) && is_full caps file npub email rows) ≡ false
    → Updated npub email rows (upserted npub email rows)
      ⊎ (Appended npub email rows (upserted npub email rows) × HasRoom caps file npub email rows)
upserted_split caps file npub email rows h = elim (Bool-cases (has_row npub rows)) [
  | inl known ↦ inl (rw known (set_email-Updated npub email rows known))
  | inr new ↦ inr (
    (has_row-IsNew npub rows new, rw new refl),
    is_full-HasRoom caps file npub email rows (ground (arith, h, new)),
  )
]

text_eq_different : (a b : Text) → a ≢ b → text_eq a b ≡ false
text_eq_different a b n = elim (Bool-cases (text_eq a b)) [
  | inl same ↦ absurd (n ((text_eq_iff a b).0 same))
  | inr other ↦ other
]

IsNew-has_row : (npub : Text) (rows : List QueueRow) → IsNew npub rows → has_row npub rows ≡ false
IsNew-has_row npub [] h = refl
IsNew-has_row npub (r ∷ rows) h =
    ground (arith, text_eq_different r.npub npub h.0, IsNew-has_row npub rows h.1)

set_email_first :
    (npub email : Text) (before after : List QueueRow) (old : QueueRow)
    → IsNew npub before
    → old.npub ≡ npub
    → (has_row npub (before ++ old ∷ after) ≡ true)
      × (set_email npub email (before ++ old ∷ after)
          ≡ before ++ record { npub = npub; email = email } ∷ after)
unfolding set_email
set_email_first npub email [] after old f m =
    let same : text_eq old.npub npub ≡ true = (text_eq_iff old.npub npub).1 m in
    (
      ground (arith, same),
      rw (same, set_email) (ap (λ t. record { npub = t; email = email } ∷ after) m),
    )
set_email_first npub email (r ∷ before) after old f m =
    let (known, rest) = set_email_first npub email before after old f.1 m in
    let other = text_eq_different r.npub npub f.0 in
    (ground (arith, known), rw (other, set_email) (ap (◌∷◌ r) rest))

pub Updated-upserted :
    (npub email : Text) (rows rows' : List QueueRow)
    → Updated npub email rows rows'
    → (has_row npub rows ≡ true) × (upserted npub email rows ≡ rows')
Updated-upserted npub email rows rows' u =
    let (known, set) = set_email_first npub email u.before u.after u.old u.first u.mine in
    let known' : has_row npub rows ≡ true = ap (has_row npub) u.were ∙ known in
    (known', rw known' (ap (set_email npub email) u.were ∙ set ∙ sym u.now))

pub Appended-upserted :
    (npub email : Text) (rows rows' : List QueueRow)
    → Appended npub email rows rows'
    → upserted npub email rows ≡ rows'
Appended-upserted npub email rows rows' (new, now) = rw (IsNew-has_row npub rows new) (sym now)

HasRoom-is_full :
    (caps : QueueCaps) (file : File) (npub email : Text) (rows : List QueueRow)
    → HasRoom caps file npub email rows
    → is_full caps file npub email rows ≡ false
HasRoom-is_full caps file npub email rows (few, inl small) = ground (arith, few, small)
HasRoom-is_full caps file npub email rows (few, inr unlimited) = ground (arith, few, unlimited)

-- What may be written, and nothing else.
pub upserted_only :
    (caps : QueueCaps) (file : File) (npub email : Text) (rows rows' : List QueueRow)
    → Updated npub email rows rows'
      ⊎ (Appended npub email rows rows' × HasRoom caps file npub email rows)
    → ((not (has_row npub rows) && is_full caps file npub email rows) ≡ false)
      × (upserted npub email rows ≡ rows')
upserted_only caps file npub email rows rows' (inl u) =
    let (known, same) = Updated-upserted npub email rows rows' u in (ground (arith, known), same)
upserted_only caps file npub email rows rows' (inr (a, room)) = (
  ground (arith, HasRoom-is_full caps file npub email rows room),
  Appended-upserted npub email rows rows' a,
)
