-- ===== src/Auth/TagScan.antt =====
-- src/auth.rs: the loop over the tags finds the first text of each name.
use splora.Common.{
  true, false, ◌≡◌, refl, ap, ◌∙◌, Option, none, some, if◌then◌else◌, inl, inr, Bool-cases,
  Option-cases,
}
use splora.Common.Text.{Text, codes, text_eq, text_eq_iff}
use splora.Auth.{Json, Jsons, no_items, item, Tags, or_else, tag_parts, scan_tag, scan_tags}

-- What one tag gives for a name.
unfoldable pub own_value : Text → Json → Option Text
unfolding tag_parts text_eq
own_value name tag = elim (tag_parts tag) [
  | none ↦ none
  | some (n, value) ↦ if text_eq n name then value else none
]

-- The first text that stands in a tag of this name.
unfoldable pub first_value : Text → Jsons → Option Text
unfolding own_value
first_value name no_items = none
first_value name (item tag rest) = or_else (own_value name tag) (first_value name rest)

or_else_assoc : (a b c : Option Text) → or_else (or_else a b) c ≡ or_else a (or_else b c)
or_else_assoc none b c = refl
or_else_assoc (some t) b c = refl

or_else-none : (a : Option Text) → a ≡ or_else a none
or_else-none none = refl
or_else-none (some t) = refl

other_name : (n a b : Text) → text_eq a b ≡ false → text_eq n a ≡ true → text_eq n b ≡ false
other_name n a b d e = ap (λ x. text_eq x b) ((text_eq_iff n a).0 e) ∙ d

abbrev Gives : Tags → Json → Tags → Type 0
Gives t tag r =
    (r.u_tag ≡ or_else t.u_tag (own_value (codes "u") tag))
    × (r.method_tag ≡ or_else t.method_tag (own_value (codes "method") tag))
    × (r.payload_tag ≡ or_else t.payload_tag (own_value (codes "payload") tag))

scan_tag-Gives : (t : Tags) (tag : Json) → Gives t tag (scan_tag t tag)
unfolding text_eq scan_tag own_value
scan_tag-Gives t tag = elim (Option-cases (tag_parts tag)) [
  | inl e ↦
      rw (e, scan_tag, own_value)
        (or_else-none t.u_tag, or_else-none t.method_tag, or_else-none t.payload_tag)
  | inr ((n, value), e) ↦ elim (Bool-cases (text_eq n (codes "u"))) [
    | inl u ↦
        rw
          (
            e,
            u,
            other_name n (codes "u") (codes "method") refl u,
            other_name n (codes "u") (codes "payload") refl u,
            scan_tag,
            own_value,
          )
          (refl, or_else-none t.method_tag, or_else-none t.payload_tag)
    | inr u ↦ elim (Bool-cases (text_eq n (codes "method"))) [
      | inl m ↦
          rw (e, u, m, other_name n (codes "method") (codes "payload") refl m, scan_tag, own_value)
            (or_else-none t.u_tag, refl, or_else-none t.payload_tag)
      | inr m ↦ elim (Bool-cases (text_eq n (codes "payload"))) [
        | inl p ↦
            rw (e, u, m, p, scan_tag, own_value)
              (or_else-none t.u_tag, or_else-none t.method_tag, refl)
        | inr p ↦
            rw (e, u, m, p, scan_tag, own_value)
              (or_else-none t.u_tag, or_else-none t.method_tag, or_else-none t.payload_tag)
      ]
    ]
  ]
]

abbrev pub AllGive : Tags → Jsons → Tags → Type 0
AllGive t tags r =
    (r.u_tag ≡ or_else t.u_tag (first_value (codes "u") tags))
    × (r.method_tag ≡ or_else t.method_tag (first_value (codes "method") tags))
    × (r.payload_tag ≡ or_else t.payload_tag (first_value (codes "payload") tags))

scan_tags-AllGive : (t : Tags) (tags : Jsons) → AllGive t tags (scan_tags t tags)
unfolding scan_tags first_value
scan_tags-AllGive t no_items =
    (or_else-none t.u_tag, or_else-none t.method_tag, or_else-none t.payload_tag)
scan_tags-AllGive t (item tag rest) =
    let (u, m, p) = scan_tag-Gives t tag in
    let (us, ms, ps) = scan_tags-AllGive (scan_tag t tag) rest in
    (
      us
          ∙ ap (λ a. or_else a (first_value (codes "u") rest)) u
          ∙ or_else_assoc t.u_tag (own_value (codes "u") tag) (first_value (codes "u") rest),
      ms
          ∙ ap (λ a. or_else a (first_value (codes "method") rest)) m
          ∙ or_else_assoc t.method_tag (own_value (codes "method") tag)
              (first_value (codes "method") rest),
      ps
          ∙ ap (λ a. or_else a (first_value (codes "payload") rest)) p
          ∙ or_else_assoc t.payload_tag (own_value (codes "payload") tag)
              (first_value (codes "payload") rest),
    )

abbrev pub no_tags : Tags
no_tags = record { u_tag = none; method_tag = none; payload_tag = none }

-- The loop over the tags ends with the first text of the tags named `u`, of those named `method`
-- and of those named `payload`.
pub scan_tags_first :
    (tags : Jsons)
    → ((scan_tags no_tags tags).u_tag ≡ first_value (codes "u") tags)
      × ((scan_tags no_tags tags).method_tag ≡ first_value (codes "method") tags)
      × ((scan_tags no_tags tags).payload_tag ≡ first_value (codes "payload") tags)
scan_tags_first tags = scan_tags-AllGive no_tags tags
