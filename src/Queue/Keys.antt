-- ===== src/Queue/Keys.antt =====
-- src/queue.rs and src/auth.rs: the keys that the lines of an allowlist file stand for, and which
-- of them the operator's commands rewrite.
use mathlib.Core.Option
use splora.Common.{
  ℕ, Bool, true, false, not, ◌&&◌, ◌||◌, ◌≡◌, refl, sym, ap, ◌∙◌, Option, none, some, List, [], ◌∷◌,
  ◌++◌, map, ◌==◌, arith, inl, inr, Bool-cases, Option-cases, ==_iff,
}
use splora.Common.Lines.{none_has}
use splora.Common.Text.{Text, has_char, trim}
use splora.Auth.{has_key, insert_key, is_comment, collect_keys}
use splora.Queue.Commands.{is_line_of, drop_key, rewrite_key, has_line_of, upsert_lines}

has_key-insert_key :
    (k pk : ℕ) (keys : List ℕ) → has_key k (insert_key pk keys) ≡ (has_key k keys || (pk == k))
has_key-insert_key k pk keys = elim (Bool-cases (has_key pk keys)) [
  | inr e ↦ ground (arith, e)
  | inl e ↦ elim (Bool-cases (pk == k)) [
    | inr d ↦ ground (arith, e, d)
    | inl d ↦
        let q : pk ≡ k = (==_iff pk k).0 d in
        let e' : has_key k keys ≡ true = ap (λ x. has_key x keys) (sym q) ∙ e in
        ground (arith, e, d, e')
  ]
]

module _ (parse_pubkey : Text → Option ℕ) where
  abbrev pub is_readable : Text → Bool
  is_readable raw =
      is_comment (trim raw) || (elim (parse_pubkey (trim raw)) [ none ↦ false | some k ↦ true ])

  abbrev pub all_readable : List Text → Bool
  all_readable [] = true
  all_readable (raw ∷ ls) = is_readable raw && all_readable ls

  pub collect_keys-has_key :
      (ls : List Text) (acc keys : List ℕ) (k : ℕ)
      → collect_keys parse_pubkey acc (map trim ls) ≡ some keys
      → has_key k keys ≡ (has_key k acc || has_line_of parse_pubkey k ls)
  unfolding collect_keys has_line_of is_line_of
  collect_keys-has_key [] acc keys k h =
      ap (has_key k) (sym (Option.some-injective acc keys h)) ∙ ground arith
  collect_keys-has_key (raw ∷ ls) acc keys k h = elim (Bool-cases (is_comment (trim raw))) [
    | inl c ↦ rw c (collect_keys-has_key ls acc keys k (rw (c, collect_keys) at h))
    | inr c ↦ elim (Option-cases (parse_pubkey (trim raw))) [
      | inl p ↦ absurd (Option.none-ne-some keys (rw (c, p, collect_keys) at h))
      | inr (pk, p) ↦
          rw (c, p)
            (ground (
              arith,
              collect_keys-has_key ls (insert_key pk acc) keys k (rw (c, p, collect_keys) at h),
              has_key-insert_key k pk acc,
            ))
    ]
  ]

  pub collect_keys-readable :
      (ls : List Text) (acc keys : List ℕ)
      → collect_keys parse_pubkey acc (map trim ls) ≡ some keys
      → all_readable ls ≡ true
  unfolding collect_keys
  collect_keys-readable [] acc keys h = refl
  collect_keys-readable (raw ∷ ls) acc keys h = elim (Bool-cases (is_comment (trim raw))) [
    | inl c ↦ rw c (collect_keys-readable ls acc keys (rw (c, collect_keys) at h))
    | inr c ↦ elim (Option-cases (parse_pubkey (trim raw))) [
      | inl p ↦ absurd (Option.none-ne-some keys (rw (c, p, collect_keys) at h))
      | inr (pk, p) ↦
          rw (c, p)
            (collect_keys-readable ls (insert_key pk acc) keys (rw (c, p, collect_keys) at h))
    ]
  ]

  pub readable-collect_keys :
      (ls : List Text) (acc : List ℕ)
      → all_readable ls ≡ true
      → (keys : List ℕ) × (collect_keys parse_pubkey acc (map trim ls) ≡ some keys)
  unfolding collect_keys
  readable-collect_keys [] acc h = (acc, refl)
  readable-collect_keys (raw ∷ ls) acc h = elim (Bool-cases (is_comment (trim raw))) [
    | inl c ↦ rw (c, collect_keys) (readable-collect_keys ls acc (ground (arith, h)))
    | inr c ↦ elim (Option-cases (parse_pubkey (trim raw))) [
      | inl p ↦ ground (arith, h, c, p)
      | inr (pk, p) ↦
          rw (c, p, collect_keys) (readable-collect_keys ls (insert_key pk acc) (ground (arith, h)))
    ]
  ]

  same_line :
      (k pk : ℕ) (raw : Text)
      → is_line_of parse_pubkey pk raw ≡ true
      → is_line_of parse_pubkey k raw ≡ (pk == k)
  unfolding is_line_of
  same_line k pk raw h = ground (arith, h)

  pub drop_key-has_line_of :
      (k pk : ℕ) (ls : List Text)
      → has_line_of parse_pubkey k (drop_key parse_pubkey pk ls)
        ≡ (has_line_of parse_pubkey k ls && not (pk == k))
  unfolding drop_key has_line_of
  drop_key-has_line_of k pk [] = refl
  drop_key-has_line_of k pk (raw ∷ ls) = elim (Bool-cases (is_line_of parse_pubkey pk raw)) [
    | inl e ↦ rw e (ground (arith, drop_key-has_line_of k pk ls, same_line k pk raw e))
    | inr e ↦ elim (Bool-cases (pk == k)) [
      | inr d ↦ rw e (ground (arith, drop_key-has_line_of k pk ls, d))
      | inl d ↦
          let q : pk ≡ k = (==_iff pk k).0 d in
          let e' : is_line_of parse_pubkey k raw ≡ false =
            ap (λ x. is_line_of parse_pubkey x raw) (sym q) ∙ e in
          rw e (ground (arith, drop_key-has_line_of k pk ls, d, e'))
    ]
  ]

  pub drop_key-readable :
      (pk : ℕ) (ls : List Text)
      → all_readable ls ≡ true
      → none_has 10 ls ≡ true
      → (all_readable (drop_key parse_pubkey pk ls) ≡ true)
        × (none_has 10 (drop_key parse_pubkey pk ls) ≡ true)
  unfolding drop_key
  drop_key-readable pk [] h n = (refl, refl)
  drop_key-readable pk (raw ∷ ls) h n = ground (arith, drop_key-readable pk ls, h, n)

  module _ (pk : ℕ) (npub : Text) (own : is_line_of parse_pubkey pk npub ≡ true)
      (feed : has_char 10 npub ≡ false) where
    rewrite_key-has_line_of :
        (k : ℕ) (ls : List Text)
        → has_line_of parse_pubkey k (rewrite_key parse_pubkey pk npub ls)
          ≡ has_line_of parse_pubkey k ls
    unfolding rewrite_key has_line_of
    rewrite_key-has_line_of k [] = refl
    rewrite_key-has_line_of k (raw ∷ ls) = elim (Bool-cases (is_line_of parse_pubkey pk raw)) [
      | inl e ↦ rw e (
          ground
            (arith, rewrite_key-has_line_of k ls, same_line k pk raw e, same_line k pk npub own))
      | inr e ↦ rw e (ground (arith, rewrite_key-has_line_of k ls))
    ]

    append-has_line_of :
        (k : ℕ) (ls : List Text)
        → has_line_of parse_pubkey k (ls ++ npub ∷ [])
          ≡ (has_line_of parse_pubkey k ls || (pk == k))
    unfolding has_line_of
    append-has_line_of k [] = ground (arith, same_line k pk npub own)
    append-has_line_of k (raw ∷ ls) = ground (arith, append-has_line_of k ls)

    pub upsert_lines-has_line_of :
        (k : ℕ) (ls : List Text)
        → has_line_of parse_pubkey k (upsert_lines parse_pubkey pk npub ls)
          ≡ (has_line_of parse_pubkey k ls || (pk == k))
    unfolding upsert_lines
    upsert_lines-has_line_of k ls = elim (Bool-cases (has_line_of parse_pubkey pk ls)) [
      | inr e ↦ rw e (
          append-has_line_of k (rewrite_key parse_pubkey pk npub ls)
          ∙ ap (λ b. b || (pk == k)) (rewrite_key-has_line_of k ls))
      | inl e ↦ elim (Bool-cases (pk == k)) [
        | inr d ↦ rw e (ground (arith, rewrite_key-has_line_of k ls, d))
        | inl d ↦
            let q : pk ≡ k = (==_iff pk k).0 d in
            let e' : has_line_of parse_pubkey k ls ≡ true =
              ap (λ x. has_line_of parse_pubkey x ls) (sym q) ∙ e in
            rw e (ground (arith, rewrite_key-has_line_of k ls, d, e'))
      ]
    ]

    own_readable : is_readable npub ≡ true
    unfolding is_line_of
    own_readable = ground (arith, own)

    rewrite_key-readable :
        (ls : List Text)
        → all_readable ls ≡ true
        → none_has 10 ls ≡ true
        → (all_readable (rewrite_key parse_pubkey pk npub ls) ≡ true)
          × (none_has 10 (rewrite_key parse_pubkey pk npub ls) ≡ true)
    unfolding rewrite_key
    rewrite_key-readable [] h n = (refl, refl)
    rewrite_key-readable (raw ∷ ls) h n =
        ground (arith, rewrite_key-readable ls, h, n, own_readable, feed)

    append-readable :
        (ls : List Text)
        → all_readable ls ≡ true
        → none_has 10 ls ≡ true
        → (all_readable (ls ++ npub ∷ []) ≡ true) × (none_has 10 (ls ++ npub ∷ []) ≡ true)
    append-readable [] h n = ground (arith, own_readable, feed)
    append-readable (raw ∷ ls) h n = ground (arith, append-readable ls, h, n)

    pub upsert_lines-readable :
        (ls : List Text)
        → all_readable ls ≡ true
        → none_has 10 ls ≡ true
        → (all_readable (upsert_lines parse_pubkey pk npub ls) ≡ true)
          × (none_has 10 (upsert_lines parse_pubkey pk npub ls) ≡ true)
    unfolding upsert_lines
    upsert_lines-readable ls h n =
        let (r, m) = rewrite_key-readable ls h n in
        let (r', m') = append-readable (rewrite_key parse_pubkey pk npub ls) r m in
        ground (arith, r, m, r', m')
