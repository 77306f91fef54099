-- ===== src/Auth/EventCheck.antt =====
-- src/auth.rs: exactly which events authorize a key for a request.
use mathlib.Core.Option
use splora.Common.{
  ℕ, ◌≤◌, Bool, true, false, ◌≡◌, refl, sym, ap, ◌∙◌, Option, none, some, List, ◌==◌, leb, arith,
  leb→le, le→leb, ==_iff,
}
use splora.Common.Results.{ok, or_err, or_err-ok, ok-injective, >>=-eq-ok}
use splora.Common.Text.{Text, codes, text_eq, text_eq_iff, to_lowercase}
use splora.Auth.{
  AuthError, bad_signature, wrong_kind, url_mismatch, method_mismatch, expired, payload_mismatch,
  not_allowlisted, has_key, Json, Jsons, get_field, as_u64, as_array, Event, Tags, scan_tags,
  abs_diff, require, check_tags, check_event,
}
use splora.Auth.TagScan.{first_value, no_tags, scan_tags_first}

pub require-ok : (e : AuthError) (b : Bool) (u : Unit {0}) → require e b ≡ ok u → b ≡ true
require-ok e true u h = refl
require-ok e false u h = ground (arith, h)

text_eq_refl : (s : Text) → text_eq s s ≡ true
text_eq_refl s = (text_eq_iff s s).1 refl

-- A field of an object, read as a number or as an array.
abbrev number_field : Text → Json → Option ℕ
number_field name value = elim (get_field name value) [ none ↦ none | some k ↦ as_u64 k ]

abbrev array_field : Text → Json → Option Jsons
array_field name value = elim (get_field name value) [ none ↦ none | some t ↦ as_array t ]

module _ (decode : Text → Option (List ℕ)) (parse_value : List ℕ → Option Json)
    (parse_event : List ℕ → Option Event) (verify_event : Event → Bool)
    (sha256_hex : List ℕ → Text) where
  -- What an event has to hold to authorize a key for a request.
  pub record IsEventFor (value : Json) (event : Event) (method url : Text) (body : List ℕ)
      (now window : ℕ) (allow : List ℕ) (pk : ℕ) : Type 0 where
    pub created : ℕ
    pub tags : Jsons
    pub m : Text
    pub signed : verify_event event ≡ true
    pub kind : number_field (codes "kind") value ≡ some 27235
    pub created_at : number_field (codes "created_at") value ≡ some created
    pub recent : abs_diff now created ≤ window
    pub has_tags : array_field (codes "tags") value ≡ some tags
    pub url_tag : first_value (codes "u") tags ≡ some url
    pub method_tag : first_value (codes "method") tags ≡ some m
    pub same_method : to_lowercase m ≡ to_lowercase method
    pub payload :
        (p : Text) → first_value (codes "payload") tags ≡ some p → to_lowercase p ≡ sha256_hex body
    pub key : event.pubkey ≡ pk
    pub allowed : has_key event.pubkey allow ≡ true

  text_test :
      (o : Option Text) (url : Text)
      → (elim o [ none ↦ false | some u ↦ text_eq u url ]) ≡ true
      → o ≡ some url
  text_test none url h = ground (arith, h)
  text_test (some u) url h = ap some ((text_eq_iff u url).0 h)

  method_test :
      (o : Option Text) (method : Text)
      → (elim o [ none ↦ false | some m ↦ text_eq (to_lowercase m) (to_lowercase method) ]) ≡ true
      → (m : Text) × (o ≡ some m) × (to_lowercase m ≡ to_lowercase method)
  method_test none method h = ground (arith, h)
  method_test (some m) method h =
      (m, refl, (text_eq_iff (to_lowercase m) (to_lowercase method)).0 h)

  payload_test :
      (o : Option Text) (body : List ℕ)
      → (elim o [ none ↦ true | some p ↦ text_eq (to_lowercase p) (sha256_hex body) ]) ≡ true
      → (p : Text) → o ≡ some p
      → to_lowercase p ≡ sha256_hex body
  payload_test none body h p e = absurd (Option.none-ne-some p e)
  payload_test (some q) body h p e =
      ap to_lowercase (sym (Option.some-injective q p e))
      ∙ (text_eq_iff (to_lowercase q) (sha256_hex body)).0 h

  check_tags-ok :
      (t : Tags) (method url : Text) (body : List ℕ) (x : Unit {0})
      → check_tags decode parse_value parse_event verify_event sha256_hex t method url body ≡ ok x
      → (t.u_tag ≡ some url)
        × ((m : Text) × (t.method_tag ≡ some m) × (to_lowercase m ≡ to_lowercase method))
        × ((p : Text) → t.payload_tag ≡ some p → to_lowercase p ≡ sha256_hex body)
  unfolding check_tags
  check_tags-ok t method url body x h =
      let (a, u, h1) =
        >>=-eq-ok (require url_mismatch (elim t.u_tag [ none ↦ false | some u ↦ text_eq u url ])) _
          h in
      let (b, m, h2) =
        >>=-eq-ok
          (require method_mismatch (elim t.method_tag [
            | none ↦ false
            | some m ↦ text_eq (to_lowercase m) (to_lowercase method)
          ]))
          _ h1 in
      (
        text_test t.u_tag url (require-ok url_mismatch _ a u),
        method_test t.method_tag method (require-ok method_mismatch _ b m),
        payload_test t.payload_tag body (require-ok payload_mismatch _ x h2),
      )

  tags_shown :
      (value : Json) (event : Event) (created : ℕ) (tags : Jsons) (method url : Text)
      (body : List ℕ) (now window : ℕ) (allow : List ℕ) (pk : ℕ) (x : Unit {0})
      → verify_event event ≡ true
      → number_field (codes "kind") value ≡ some 27235
      → number_field (codes "created_at") value ≡ some created
      → abs_diff now created ≤ window
      → array_field (codes "tags") value ≡ some tags
      → check_tags decode parse_value parse_event verify_event sha256_hex
          (scan_tags no_tags tags)
          method
          url
          body
        ≡ ok x
      → has_key event.pubkey allow ≡ true
      → event.pubkey ≡ pk
      → IsEventFor value event method url body now window allow pk
  tags_shown value event created tags method url body now window allow pk x signed kind created_at
        recent has_tags c allowed key =
      let (tu, (m, tm, lower), tp) = check_tags-ok (scan_tags no_tags tags) method url body x c in
      let (fu, fm, fp) = scan_tags_first tags in
      record {
        created = created;
        tags = tags;
        m = m;
        signed = signed;
        kind = kind;
        created_at = created_at;
        recent = recent;
        has_tags = has_tags;
        url_tag = sym fu ∙ tu;
        method_tag = sym fm ∙ tm;
        same_method = lower;
        payload = λ p e. tp p (fp ∙ e);
        key = key;
        allowed = allowed;
      }

  pub check_event-IsEventFor :
      (value : Json) (event : Event) (method url : Text) (body : List ℕ) (now window : ℕ)
      (allow : List ℕ) (pk : ℕ)
      → check_event decode parse_value parse_event verify_event sha256_hex value event method url
          body now window allow
        ≡ ok pk
      → IsEventFor value event method url body now window allow pk
  unfolding check_event
  check_event-IsEventFor value event method url body now window allow pk h7 =
      let (x7, e7, h8) = >>=-eq-ok (require bad_signature (verify_event event)) _ h7 in
      let (kind, e8, h9) = >>=-eq-ok (or_err wrong_kind (number_field (codes "kind") value)) _ h8 in
      let (x9, e9, h10) = >>=-eq-ok (require wrong_kind (kind == 27235)) _ h9 in
      let (created, e10, h11) =
        >>=-eq-ok (or_err expired (number_field (codes "created_at") value)) _ h10 in
      let (x11, e11, h12) = >>=-eq-ok (require expired (leb (abs_diff now created) window)) _ h11 in
      let (tags, e12, h13) =
        >>=-eq-ok (or_err url_mismatch (array_field (codes "tags") value)) _ h12 in
      let (x13, e13, h14) =
        >>=-eq-ok
          (check_tags decode parse_value parse_event verify_event sha256_hex
            (scan_tags no_tags tags) method url body)
          _ h13 in
      let (x14, e14, h15) =
        >>=-eq-ok (require not_allowlisted (has_key event.pubkey allow)) _ h14 in
      tags_shown value event created tags method url body now window allow pk x13
        (require-ok bad_signature (verify_event event) x7 e7)
        (or_err-ok wrong_kind (number_field (codes "kind") value) kind e8
          ∙ ap some ((==_iff kind 27235).0 (require-ok wrong_kind (kind == 27235) x9 e9)))
        (or_err-ok expired (number_field (codes "created_at") value) created e10)
        (leb→le (abs_diff now created) window (require-ok expired _ x11 e11))
        (or_err-ok url_mismatch (array_field (codes "tags") value) tags e12) e13
        (require-ok not_allowlisted (has_key event.pubkey allow) x14 e14)
        (ok-injective event.pubkey pk h15)

  payload-test :
      (o : Option Text) (body : List ℕ)
      → ((p : Text) → o ≡ some p → to_lowercase p ≡ sha256_hex body)
      → (elim o [ none ↦ true | some p ↦ text_eq (to_lowercase p) (sha256_hex body) ]) ≡ true
  payload-test none body h = refl
  payload-test (some q) body h = (text_eq_iff (to_lowercase q) (sha256_hex body)).1 (h q refl)

  check_tags-passes :
      (t : Tags) (method url m : Text) (body : List ℕ)
      → t.u_tag ≡ some url
      → t.method_tag ≡ some m
      → to_lowercase m ≡ to_lowercase method
      → ((p : Text) → t.payload_tag ≡ some p → to_lowercase p ≡ sha256_hex body)
      → check_tags decode parse_value parse_event verify_event sha256_hex t method url body ≡ ok tt
  unfolding check_tags
  check_tags-passes t method url m body u tm l p =
      rw
        (
          u,
          text_eq_refl url,
          tm,
          (text_eq_iff (to_lowercase m) (to_lowercase method)).1 l,
          payload-test t.payload_tag body p,
        )
        refl

  pub IsEventFor-check_event :
      (value : Json) (event : Event) (method url : Text) (body : List ℕ) (now window : ℕ)
      (allow : List ℕ) (pk : ℕ)
      → IsEventFor value event method url body now window allow pk
      → check_event decode parse_value parse_event verify_event sha256_hex value event method url
          body now window allow
        ≡ ok pk
  unfolding check_event
  IsEventFor-check_event value event method url body now window allow pk r =
      let (fu, fm, fp) = scan_tags_first r.tags in
      let c =
        check_tags-passes (scan_tags no_tags r.tags) method url r.m body (fu ∙ r.url_tag)
          (fm ∙ r.method_tag) r.same_method (λ p e. r.payload p (sym fp ∙ e)) in
      rw
        (
          r.signed,
          r.kind,
          r.created_at,
          le→leb (abs_diff now r.created) window r.recent,
          r.has_tags,
          c,
          r.allowed,
        )
        (ap ok r.key)
