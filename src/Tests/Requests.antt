-- ===== src/Tests/Requests.antt =====
-- Requests to the public front, and their authorization.
use splora.Common.{ℕ, ◌≡◌, ◌↔◌, refl, Bool, true, Option, some, List, [], ◌∷◌, ◌++◌}
use splora.Common.Results.{ok}
use splora.Common.Text.{Text, codes, text_eq, strip_prefix, trim, to_lowercase}
use splora.Auth.{
  Json, object, field, no_fields, number, string, array, no_items, item, Jsons, Event, verify_nip98,
}
use splora.Auth.Verify.{IsAuthorized, verify_nip98_iff}
use splora.Front.{
  NetworkId, SocketPath, proxy, liquid, backend_path, is_api, route, send, with_query, dispatch,
}
use splora.Front.Routing.{public_prefix, route_iff}
use splora.Front.Sending.{IsHttpSocket, dispatch_iff}

abbrev path : Text
path = codes "/liquid/api/tx/x"

route_iff_example : (route path ≡ proxy liquid (codes "/tx/x")) ↔ (
    (rest : Text) × (path ≡ public_prefix liquid ++ rest)
    × (is_api rest ≡ true)
    × (codes "/tx/x" ≡ backend_path rest))
route_iff_example = route_iff path liquid (codes "/tx/x")

abbrev socket : SocketPath
socket = record { directory = codes "/run/splora"; file_name = codes "liquid.http.sock" }

dispatch_iff_example :
    (dispatch (codes "/run/splora") path (some (codes "q=1")) ≡ send socket (codes "/tx/x?q=1")) ↔ (
      (network : NetworkId) × (rest : Text) × (path ≡ public_prefix network ++ rest)
      × (is_api rest ≡ true)
      × IsHttpSocket (codes "/run/splora") network socket
      × (codes "/tx/x?q=1" ≡ with_query (backend_path rest) (some (codes "q=1"))))
dispatch_iff_example =
    dispatch_iff (codes "/run/splora") path (codes "/tx/x?q=1") (some (codes "q=1")) socket

abbrev pair_tag : Text → Text → Json
pair_tag name value = array (item (string name) (item (string value) no_items))

abbrev tags : Jsons
tags =
    item (pair_tag (codes "u") (codes "https://a/b"))
      (item (pair_tag (codes "method") (codes "get")) no_items)

abbrev event : Event
event = record { id = 1; pubkey = 9; signature = 2 }

abbrev value : Json
value = object (
    field (codes "kind") (number (some 27235)) (
      field (codes "created_at") (number (some 100)) (field (codes "tags") (array tags) no_fields)))

abbrev decode : Text → Option (List ℕ)
decode t = some t

abbrev parse_value : List ℕ → Option Json
parse_value raw = some value

abbrev parse_event : List ℕ → Option Event
parse_event raw = some event

abbrev verify_event : Event → Bool
verify_event e = true

abbrev sha256_hex : List ℕ → Text
sha256_hex body = codes "00"

verify_nip98_iff_example :
    (verify_nip98 decode parse_value parse_event verify_event sha256_hex
        (some (codes "Nostr e"))
        (codes "GET")
        (codes "https://a/b")
        []
        130
        60
        (9 ∷ [])
      ≡ ok 9)
    ↔ IsAuthorized decode parse_value parse_event verify_event sha256_hex
        (some (codes "Nostr e"))
        (codes "GET")
        (codes "https://a/b")
        []
        130
        60
        (9 ∷ [])
        9
verify_nip98_iff_example =
    verify_nip98_iff decode parse_value parse_event verify_event sha256_hex (some (codes "Nostr e"))
      (codes "GET") (codes "https://a/b") [] 130 60 (9 ∷ []) 9

-- And the header is accepted.
accepted :
    verify_nip98 decode parse_value parse_event verify_event sha256_hex
      (some (codes "Nostr e"))
      (codes "GET")
      (codes "https://a/b")
      []
      130
      60
      (9 ∷ [])
    ≡ ok 9
unfolding verify_nip98 strip_prefix trim text_eq to_lowercase
accepted = refl
