-- ===== src/Queue/Approval.antt =====
-- src/queue.rs and src/auth.rs: what the operator's commands do to the set of keys that the
-- allowlist file stands for.
use mathlib.Core.Option
use splora.Common.{
  ℕ, true, false, not, ◌&&◌, ◌||◌, ◌≡◌, refl, ap, ◌∙◌, Option, some, List, [], ◌∷◌, ◌==◌, arith,
  inl, inr, Bool-cases, ==_iff,
}
use splora.Common.Results.{ok, or_err-ok}
use splora.Common.Files.{File, replace-text, text_or_empty}
use splora.Common.Lines.{lines, unlines, none_has, lines-none_has, trim-lines-unlines}
use splora.Common.Text.{Text, has_char, codes, starts_with, strip_prefix, trim}
use splora.Auth.{has_key, is_comment, collect_keys, parse_allowlist}
use splora.Queue.{valid_npub, io}
use splora.Queue.Commands.{
  fsync_lines, is_line_of, drop_key, has_line_of, upsert_lines, upsert_allowlist, remove_npub,
}
use splora.Queue.Keys.{
  all_readable, collect_keys-has_key, collect_keys-readable, readable-collect_keys,
  drop_key-has_line_of, drop_key-readable, upsert_lines-has_line_of, upsert_lines-readable,
}

module _ (parse_pubkey : Text → Option ℕ) where
  no_comment : (npub : Text) → starts_with (codes "npub1") npub ≡ true → is_comment npub ≡ false
  unfolding is_comment starts_with strip_prefix
  no_comment [] h = ground (arith, h)
  no_comment (c ∷ s) h = ground (arith, h)

  valid_npub-own :
      (npub : Text) (pk : ℕ)
      → trim npub ≡ npub
      → valid_npub parse_pubkey npub ≡ some pk
      → is_line_of parse_pubkey pk npub ≡ true
  unfolding valid_npub is_line_of
  valid_npub-own npub pk t v = elim (Bool-cases (starts_with (codes "npub1") npub)) [
    | inr n ↦ absurd (Option.none-ne-some pk (rw n at v))
    | inl y ↦
        let p : parse_pubkey npub ≡ some pk = rw y at v in
        rw (t, no_comment npub y, p) ((==_iff pk pk).1 refl)
  ]

  written :
      (f f' : File) (ls : List Text)
      → fsync_lines f ls ≡ some f'
      → all_readable parse_pubkey ls ≡ true
      → none_has 10 ls ≡ true
      → (keys : List ℕ) × (parse_allowlist parse_pubkey (text_or_empty f') ≡ some keys)
        × ((k : ℕ) → has_key k keys ≡ has_line_of parse_pubkey k ls)
  unfolding fsync_lines parse_allowlist
  written f f' ls w r n =
      let (keys, e) = readable-collect_keys parse_pubkey ls [] r in
      (
        keys,
        rw (replace-text f f' (unlines ls) w)
            (ap (collect_keys parse_pubkey []) (trim-lines-unlines ls n) ∙ e),
        λ k. collect_keys-has_key parse_pubkey ls [] keys k e,
      )

  -- Removing a npub from an allowlist file that can be read gives one that can be read, with the
  -- same keys but for the npub's.
  pub remove_npub_keys :
      (f f' : File) (npub : Text) (pk : ℕ) (keys : List ℕ)
      → parse_allowlist parse_pubkey (text_or_empty f) ≡ some keys
      → valid_npub parse_pubkey npub ≡ some pk
      → remove_npub parse_pubkey f npub ≡ ok f'
      → (keys' : List ℕ) × (parse_allowlist parse_pubkey (text_or_empty f') ≡ some keys')
        × ((k : ℕ) → has_key k keys' ≡ (has_key k keys && not (pk == k)))
  unfolding remove_npub parse_allowlist
  remove_npub_keys f f' npub pk keys r v e =
      let ls = lines (text_or_empty f) in
      let (readable, n') =
        drop_key-readable parse_pubkey pk ls (collect_keys-readable parse_pubkey ls [] keys r)
          (lines-none_has (text_or_empty f)) in
      let w : fsync_lines f (drop_key parse_pubkey pk ls) ≡ some f' =
        or_err-ok io (fsync_lines f (drop_key parse_pubkey pk ls)) f' (rw (v, remove_npub) at e) in
      let (keys', p, has) = written f f' (drop_key parse_pubkey pk ls) w readable n' in
      (
        keys',
        p,
        λ k. ground (
          arith,
          has k,
          drop_key-has_line_of parse_pubkey k pk ls,
          collect_keys-has_key parse_pubkey ls [] keys k r,
        ),
      )

  -- Adding a npub, a trimmed text of one line, to an allowlist file that can be read gives one that
  -- can be read, with the same keys and the npub's.
  pub upsert_allowlist_keys :
      (f f' : File) (npub : Text) (pk : ℕ) (keys : List ℕ)
      → parse_allowlist parse_pubkey (text_or_empty f) ≡ some keys
      → valid_npub parse_pubkey npub ≡ some pk
      → trim npub ≡ npub
      → has_char 10 npub ≡ false
      → upsert_allowlist parse_pubkey f npub ≡ ok f'
      → (keys' : List ℕ) × (parse_allowlist parse_pubkey (text_or_empty f') ≡ some keys')
        × ((k : ℕ) → has_key k keys' ≡ (has_key k keys || (pk == k)))
  unfolding upsert_allowlist parse_allowlist
  upsert_allowlist_keys f f' npub pk keys r v t n e =
      let ls = lines (text_or_empty f) in
      let own = valid_npub-own npub pk t v in
      let new_lines = upsert_lines parse_pubkey pk npub ls in
      let (readable, n') =
        upsert_lines-readable parse_pubkey pk npub own n ls
          (collect_keys-readable parse_pubkey ls [] keys r) (lines-none_has (text_or_empty f)) in
      let w : fsync_lines f new_lines ≡ some f' =
        or_err-ok io (fsync_lines f new_lines) f' (rw (v, upsert_allowlist) at e) in
      let (keys', p, has) = written f f' new_lines w readable n' in
      (
        keys',
        p,
        λ k. ground (
          arith,
          has k,
          upsert_lines-has_line_of parse_pubkey pk npub own n k ls,
          collect_keys-has_key parse_pubkey ls [] keys k r,
        ),
      )
