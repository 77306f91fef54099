-- ===== src/Auth.antt =====
-- src/auth.rs: the allowlist of public keys, read from a file, and the check of a NIP-98
-- authorization header. A public key of 32 bytes is its number. What other crates do is a
-- parameter: `parse_pubkey` is nostr's `PublicKey::parse`, `decode` the Base64 decoder,
-- `parse_value` and `parse_event` serde_json on the decoded bytes, `verify_event` nostr's check of
-- the signature and `sha256_hex` the digest in hex.
pub mod TagScan
pub mod EventCheck
pub mod Verify
use splora.Common.{
  ℕ, ◌+◌, ◌-◌, Bool, true, false, not, ◌&&◌, ◌||◌, Option, none, some, List, [], ◌∷◌, map, ◌==◌,
  ltb, leb, if◌then◌else◌, length,
}
use splora.Common.Results.{Outcome, ok, err, panic, or_err, ◌>>=◌}
use splora.Common.Files.{File}
use splora.Common.Lines.{lines}
use splora.Common.Text.{
  Text, codes, text_eq, byte_len, is_empty, starts_with, strip_prefix, to_lowercase, trim,
}

pub data AuthError : Type 0 where
  missing_header bad_encoding bad_json bad_signature wrong_kind url_mismatch : AuthError
  method_mismatch expired payload_mismatch not_allowlisted io : AuthError

-- `Display for AuthError`
unfoldable pub auth_message : AuthError → Text
auth_message missing_header = codes "missing Authorization header"
auth_message bad_encoding = codes "bad Authorization encoding"
auth_message bad_json = codes "bad Authorization JSON"
auth_message bad_signature = codes "bad NIP-98 signature"
auth_message wrong_kind = codes "NIP-98 kind is not 27235"
auth_message url_mismatch = codes "NIP-98 u tag does not match URL"
auth_message method_mismatch = codes "NIP-98 method tag does not match"
auth_message expired = codes "NIP-98 created_at outside window"
auth_message payload_mismatch = codes "NIP-98 payload does not match body"
auth_message not_allowlisted = codes "pubkey is not on the allowlist"
auth_message io = codes "allowlist io"

abbrev pub has_key : ℕ → List ℕ → Bool
has_key k [] = false
has_key k (x ∷ xs) = (x == k) || has_key k xs

-- `HashSet::insert`
abbrev pub insert_key : ℕ → List ℕ → List ℕ
insert_key k ks = if has_key k ks then ks else k ∷ ks

-- A line that no key is read from.
unfoldable pub is_comment : Text → Bool
unfolding starts_with
is_comment line = is_empty line || starts_with (codes "#") line

module _ (parse_pubkey : Text → Option ℕ) where
  -- The loop of `parse_allowlist_file` over trimmed lines, with the keys found so far.
  unfoldable pub collect_keys : List ℕ → List Text → Option (List ℕ)
  unfolding is_comment
  collect_keys keys [] = some keys
  collect_keys keys (line ∷ ls) = elim (is_comment line) [
    | true ↦ collect_keys keys ls
    | false ↦ elim (parse_pubkey line) [
      | none ↦ none
      | some pk ↦ collect_keys (insert_key pk keys) ls
    ]
  ]

  unfoldable pub parse_allowlist : Text → Option (List ℕ)
  unfolding collect_keys lines trim
  parse_allowlist text = collect_keys [] (map trim (lines text))

  -- `Allowlist::load`
  unfoldable pub load : File → Outcome AuthError (List ℕ)
  unfolding parse_allowlist
  load f = elim f.text [ none ↦ err io | some text ↦ or_err io (parse_allowlist text) ]

  -- `Allowlist::reload`: an error leaves the keys as they were.
  unfoldable pub reload : List ℕ → File → List ℕ × Option AuthError
  unfolding load
  reload keys f = elim (load f) [
    | ok keys' ↦ (keys', none)
    | err e ↦ (keys, some e)
    | panic ↦ (keys, some io)
  ]

abbrev pub deny_all : List ℕ
deny_all = []

mutual
  -- `serde_json::Value`; a number has its value as `u64`, if it is one.
  pub data Json : Type 0 where
    null : Json
    boolean : Bool → Json
    number : Option ℕ → Json
    string : Text → Json
    array : Jsons → Json
    object : Fields → Json

  pub data Jsons : Type 0 where
    no_items : Jsons
    item : Json → Jsons → Jsons

  pub data Fields : Type 0 where
    no_fields : Fields
    field : Text → Json → Fields → Fields

unfoldable pub find_field : Text → Fields → Option Json
unfolding text_eq
find_field name no_fields = none
find_field name (field n v fs) =
    let rest = find_field name fs in if text_eq n name then some v else rest

-- `Value::get`
unfoldable pub get_field : Text → Json → Option Json
unfolding find_field
get_field name (object fs) = find_field name fs
get_field name j = none

unfoldable pub as_u64 : Json → Option ℕ
as_u64 (number n) = n
as_u64 j = none

unfoldable pub as_str : Json → Option Text
as_str (string s) = some s
as_str j = none

unfoldable pub as_array : Json → Option Jsons
as_array (array js) = some js
as_array j = none

pub record Event : Type 0 where
  pub id : ℕ
  pub pubkey : ℕ
  pub signature : ℕ

-- The three tags that the check reads.
pub record Tags : Type 0 where
  pub u_tag : Option Text
  pub method_tag : Option Text
  pub payload_tag : Option Text

abbrev pub or_else : Option Text → Option Text → Option Text
or_else (some t) v = some t
or_else none v = v

-- A tag's name, `""` if it is no text, and its value. An empty tag, or none, is passed over.
unfoldable pub tag_parts : Json → Option (Text × Option Text)
unfolding as_str as_array
tag_parts tag = elim (as_array tag) [
  | none ↦ none
  | some no_items ↦ none
  | some (item name no_items) ↦ some ((elim (as_str name) [ none ↦ [] | some n ↦ n ]), none)
  | some (item name (item value rest)) ↦
      some ((elim (as_str name) [ none ↦ [] | some n ↦ n ]), as_str value)
]

-- One turn of the loop over the tags.
unfoldable pub scan_tag : Tags → Json → Tags
unfolding tag_parts
scan_tag t tag = elim (tag_parts tag) [
  | none ↦ t
  | some (name, value) ↦
      if text_eq name (codes "u")
      then record t { u_tag = or_else t.u_tag value }
      else if text_eq name (codes "method")
      then record t { method_tag = or_else t.method_tag value }
      else if text_eq name (codes "payload")
      then record t { payload_tag = or_else t.payload_tag value }
      else t
]

unfoldable pub scan_tags : Tags → Jsons → Tags
unfolding scan_tag
scan_tags t no_items = t
scan_tags t (item tag rest) = scan_tags (scan_tag t tag) rest

abbrev pub max_event_bytes : ℕ
max_event_bytes = 65536

abbrev pub max_encoded_bytes : ℕ
max_encoded_bytes = 87384

abbrev pub abs_diff : ℕ → ℕ → ℕ
abs_diff a b = (a - b) + (b - a)

-- An early return with this error unless the test holds.
abbrev pub require : AuthError → Bool → Outcome AuthError (Unit {0})
require e true = ok tt
require e false = err e

-- `header`: the text after the scheme, `none` if there is none.
unfoldable pub encoded_part : Option Text → Option Text
unfolding strip_prefix trim
encoded_part none = none
encoded_part (some h) = elim (strip_prefix (codes "Nostr ") h) [
  | some rest ↦ some (trim rest)
  | none ↦ elim (strip_prefix (codes "nostr ") h) [ some rest ↦ some (trim rest) | none ↦ none ]
]

module _ (decode : Text → Option (List ℕ)) (parse_value : List ℕ → Option Json)
    (parse_event : List ℕ → Option Event) (verify_event : Event → Bool)
    (sha256_hex : List ℕ → Text) where
  -- The checks of the tags.
  unfoldable pub check_tags : Tags → Text → Text → List ℕ → Outcome AuthError (Unit {0})
  unfolding text_eq to_lowercase
  check_tags t method url body = do
    _ ← require url_mismatch (elim t.u_tag [ none ↦ false | some u ↦ text_eq u url ])
    _ ← require method_mismatch (elim t.method_tag [
      | none ↦ false
      | some m ↦ text_eq (to_lowercase m) (to_lowercase method)
    ])
    require payload_mismatch
        (elim t.payload_tag [ none ↦ true | some p ↦ text_eq (to_lowercase p) (sha256_hex body) ])

  -- `verify_nip98_impl` from the signature on, for an event that was parsed.
  unfoldable pub check_event :
      Json → Event → Text → Text → List ℕ → ℕ → ℕ → List ℕ → Outcome AuthError ℕ
  unfolding get_field as_u64 as_array scan_tags check_tags
  check_event value event method url body now window allow = do
    _ ← require bad_signature (verify_event event)
    kind ←
        or_err wrong_kind
          (elim (get_field (codes "kind") value) [ none ↦ none | some k ↦ as_u64 k ])
    _ ← require wrong_kind (kind == 27235)
    created ←
        or_err expired
          (elim (get_field (codes "created_at") value) [ none ↦ none | some c ↦ as_u64 c ])
    _ ← require expired (leb (abs_diff now created) window)
    tags ←
        or_err url_mismatch
          (elim (get_field (codes "tags") value) [ none ↦ none | some t ↦ as_array t ])
    _ ←
        check_tags (scan_tags (record { u_tag = none; method_tag = none; payload_tag = none }) tags)
          method url body
    _ ← require not_allowlisted (has_key event.pubkey allow)
    ok event.pubkey

  -- `verify_nip98_impl`
  unfoldable pub verify_nip98 :
      Option Text → Text → Text → List ℕ → ℕ → ℕ → List ℕ → Outcome AuthError ℕ
  unfolding encoded_part check_event
  verify_nip98 header method url body now window allow = do
    encoded ← or_err missing_header (encoded_part header)
    _ ← require missing_header (not (is_empty encoded))
    _ ← require bad_encoding (leb (byte_len encoded) max_encoded_bytes)
    raw ← or_err bad_encoding (decode encoded)
    _ ← require bad_encoding (leb (length raw) max_event_bytes)
    value ← or_err bad_json (parse_value raw)
    event ← or_err bad_json (parse_event raw)
    check_event value event method url body now window allow
