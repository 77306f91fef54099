-- ===== src/Common/Files.antt =====
-- A text file that is read whole and replaced at once, by the rename of a sibling that was written
-- first: a write that fails leaves the old text.
use mathlib.Core.Bool.{Bool, true, false}
use mathlib.Core.Option.{Option, none, some}
use mathlib.Core.List.{[]}
use mathlib.Core.Path.{◌≡◌, sym, ap}
use mathlib.Core.Option
use splora.Common.Tests.{if◌then◌else◌}
use splora.Common.Text.{Text}

-- No text is a missing file.
pub record File : Type 0 where
  pub text : Option Text
  pub writable : Bool

-- `none` is an I/O error.
unfoldable pub replace : File → Text → Option File
replace f text = if f.writable then some (record f { text = some text }) else none

-- The text of a file that may be missing, for code that asks `exists` first.
abbrev pub text_or_empty : File → Text
text_or_empty f = elim f.text [ none ↦ [] | some t ↦ t ]

pub replace-text : (f f' : File) (t : Text) → replace f t ≡ some f' → f'.text ≡ some t
unfolding replace
replace-text f f' t h = replaced f.writable h
  where
    replaced :
        (w : Bool)
        → (if w then some (record f { text = some t }) else none) ≡ some f'
        → f'.text ≡ some t
    replaced true q =
        ap (λ g. g.text) (Option.some-injective f' (record f { text = some t }) (sym q))
    replaced false q = absurd (Option.none-ne-some f' q)
