-- ===== src/Auth/Verify.antt =====
-- src/auth.rs: exactly which headers are accepted for a key.

use splora.Common.{
  ℕ, ◌≤◌, Bool, true, false, not, ◌≡◌, ◌↔◌, Option, some, List, leb, arith, length, leb→le, le→leb,
}
use splora.Common.Results.{ok, or_err, or_err-ok, >>=-eq-ok}
use splora.Common.Text.{Text, byte_len, is_empty}
use splora.Auth.{
  missing_header, bad_encoding, bad_json, Json, Event, max_event_bytes, max_encoded_bytes, require,
  encoded_part, verify_nip98,
}
use splora.Auth.EventCheck.{require-ok, IsEventFor, check_event-IsEventFor, IsEventFor-check_event}

full : (b : Bool) → not b ≡ true → b ≡ false
full b h = ground arith

module _ (decode : Text → Option (List ℕ)) (parse_value : List ℕ → Option Json)
    (parse_event : List ℕ → Option Event) (verify_event : Event → Bool)
    (sha256_hex : List ℕ → Text) where
  -- What a header has to hold to authorize a key for a request.
  pub record IsAuthorized (header : Option Text) (method url : Text) (body : List ℕ)
      (now window : ℕ) (allow : List ℕ) (pk : ℕ) : Type 0 where
    pub encoded : Text
    pub raw : List ℕ
    pub value : Json
    pub event : Event
    pub header_part : encoded_part header ≡ some encoded
    pub encoded_full : is_empty encoded ≡ false
    pub encoded_small : byte_len encoded ≤ max_encoded_bytes
    pub decoded : decode encoded ≡ some raw
    pub raw_small : length raw ≤ max_event_bytes
    pub parsed : parse_value raw ≡ some value
    pub event_parsed : parse_event raw ≡ some event
    pub authorizes :
        IsEventFor decode parse_value parse_event verify_event sha256_hex value event method url
          body now window allow pk

  verify_nip98-IsAuthorized :
      (header : Option Text) (method url : Text) (body : List ℕ) (now window : ℕ) (allow : List ℕ)
      (pk : ℕ)
      → verify_nip98 decode parse_value parse_event verify_event sha256_hex header method url body
          now window allow
        ≡ ok pk
      → IsAuthorized header method url body now window allow pk
  unfolding verify_nip98
  verify_nip98-IsAuthorized header method url body now window allow pk h =
      let (encoded, e0, h1) = >>=-eq-ok (or_err missing_header (encoded_part header)) _ h in
      let (x1, e1, h2) = >>=-eq-ok (require missing_header (not (is_empty encoded))) _ h1 in
      let (x2, e2, h3) =
        >>=-eq-ok (require bad_encoding (leb (byte_len encoded) max_encoded_bytes)) _ h2 in
      let (raw, e3, h4) = >>=-eq-ok (or_err bad_encoding (decode encoded)) _ h3 in
      let (x4, e4, h5) = >>=-eq-ok (require bad_encoding (leb (length raw) max_event_bytes)) _ h4 in
      let (value, e5, h6) = >>=-eq-ok (or_err bad_json (parse_value raw)) _ h5 in
      let (event, e6, h7) = >>=-eq-ok (or_err bad_json (parse_event raw)) _ h6 in
      record {
        encoded = encoded;
        raw = raw;
        value = value;
        event = event;
        header_part = or_err-ok missing_header (encoded_part header) encoded e0;
        encoded_full =
            full (is_empty encoded) (require-ok missing_header (not (is_empty encoded)) x1 e1);
        encoded_small =
            leb→le (byte_len encoded) max_encoded_bytes (require-ok bad_encoding _ x2 e2);
        decoded = or_err-ok bad_encoding (decode encoded) raw e3;
        raw_small = leb→le (length raw) max_event_bytes (require-ok bad_encoding _ x4 e4);
        parsed = or_err-ok bad_json (parse_value raw) value e5;
        event_parsed = or_err-ok bad_json (parse_event raw) event e6;
        authorizes =
            check_event-IsEventFor decode parse_value parse_event verify_event sha256_hex value
              event method url body now window allow pk h7;
      }

  IsAuthorized-verify_nip98 :
      (header : Option Text) (method url : Text) (body : List ℕ) (now window : ℕ) (allow : List ℕ)
      (pk : ℕ)
      → IsAuthorized header method url body now window allow pk
      → verify_nip98 decode parse_value parse_event verify_event sha256_hex header method url body
          now window allow
        ≡ ok pk
  unfolding verify_nip98
  IsAuthorized-verify_nip98 header method url body now window allow pk r =
      rw
        (
          r.header_part,
          r.encoded_full,
          le→leb (byte_len r.encoded) max_encoded_bytes r.encoded_small,
          r.decoded,
          le→leb (length r.raw) max_event_bytes r.raw_small,
          r.parsed,
          r.event_parsed,
        )
        (IsEventFor-check_event decode parse_value parse_event verify_event sha256_hex r.value
          r.event method url body now window allow pk r.authorizes)

  -- A header is accepted for a key if and only if it is a scheme and a small text that decodes to a
  -- small event, signed, of the kind of NIP-98, made no longer before or after now than the window;
  -- the event's first `u` text is the URL, its first `method` text the method whatever the case, its
  -- first `payload` text, if there is one, the body's digest; and the key is the event's and on the
  -- allowlist.
  pub verify_nip98_iff :
      (header : Option Text) (method url : Text) (body : List ℕ) (now window : ℕ) (allow : List ℕ)
      (pk : ℕ)
      → (verify_nip98 decode parse_value parse_event verify_event sha256_hex header method url body
            now window allow
          ≡ ok pk)
        ↔ IsAuthorized header method url body now window allow pk
  verify_nip98_iff header method url body now window allow pk = (
    verify_nip98-IsAuthorized header method url body now window allow pk,
    IsAuthorized-verify_nip98 header method url body now window allow pk,
  )
