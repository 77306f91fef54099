-- ===== src/Front.antt =====
-- src/http_front/mod.rs: which unix socket, and which path, a public URL's path is sent on to. A
-- socket path is the directory and the file's name; hyper's request to the backend is what is sent.
pub mod Routing
pub mod Sending
use splora.Common.{
  ℕ, Bool, true, false, not, ◌&&◌, ◌||◌, Option, none, some, [], ◌∷◌, ◌++◌, if◌then◌else◌,
}
use splora.Common.Text.{Text, codes, text_eq, strip_prefix, starts_with, ends_with}

pub data NetworkId : Type 0 where
  mainnet testnet3 testnet4 mutinynet liquid : NetworkId

unfoldable pub http_socket_file_name : NetworkId → Text
http_socket_file_name mainnet = codes "mainnet.http.sock"
http_socket_file_name testnet3 = codes "testnet3.http.sock"
http_socket_file_name testnet4 = codes "testnet4.http.sock"
http_socket_file_name mutinynet = codes "mutinynet.http.sock"
http_socket_file_name liquid = codes "liquid.http.sock"

pub data Route : Type 0 where
  redirect_307 : Text → Route
  proxy : NetworkId → Text → Route
  not_found : Route

unfoldable pub strip_named_prefix : Text → Text → Option Text
unfolding strip_prefix starts_with text_eq
strip_named_prefix path prefix =
    if text_eq path prefix then some [] else elim (strip_prefix prefix path) [
      | none ↦ none
      | some rest ↦ if starts_with (codes "/") rest then some rest else none
    ]

unfoldable pub backend_path : Text → Text
unfolding strip_prefix starts_with text_eq
backend_path path =
    if text_eq path (codes "/api/v1/ws") || starts_with (codes "/api/v1/ws/") path
    then path
    else elim (strip_prefix (codes "/api") path) [
      | none ↦ path
      | some [] ↦ codes "/"
      | some (c ∷ rest) ↦ c ∷ rest
    ]

-- The path of the API, or one below it.
abbrev pub is_api : Text → Bool
is_api path = text_eq path (codes "/api") || starts_with (codes "/api/") path

unfoldable pub proxy_after_network : NetworkId → Text → Route
unfolding backend_path text_eq starts_with
proxy_after_network network after =
    if not (is_api after) then not_found else proxy network (backend_path after)

unfoldable pub route : Text → Route
unfolding strip_named_prefix proxy_after_network text_eq starts_with
route path = elim (strip_named_prefix path (codes "/signet")) [
  | some suffix ↦ redirect_307 (codes "/mutinynet" ++ suffix)
  | none ↦ elim (strip_named_prefix path (codes "/testnet4")) [
    | some rest ↦ proxy_after_network testnet4 rest
    | none ↦ elim (strip_named_prefix path (codes "/testnet")) [
      | some rest ↦ proxy_after_network testnet3 rest
      | none ↦ elim (strip_named_prefix path (codes "/mutinynet")) [
        | some rest ↦ proxy_after_network mutinynet rest
        | none ↦ elim (strip_named_prefix path (codes "/liquid")) [
          | some rest ↦ proxy_after_network liquid rest
          | none ↦ if is_api path then proxy_after_network mainnet path else not_found
        ]
      ]
    ]
  ]
]

pub record SocketPath : Type 0 where
  pub directory : Text
  pub file_name : Text

unfoldable pub http_socket_path : Text → NetworkId → SocketPath
unfolding http_socket_file_name
http_socket_path dir network = record { directory = dir; file_name = http_socket_file_name network }

unfoldable pub is_electrum_socket : SocketPath → Bool
unfolding ends_with
is_electrum_socket p = ends_with (codes "electrum.sock") p.file_name

-- `{path}?{query}`
abbrev pub with_query : Text → Option Text → Text
with_query path none = path
with_query path (some q) = path ++ codes "?" ++ q

-- What `dispatch` does: an answer of its own, or a request to a backend.
pub data Dispatch : Type 0 where
  answer : ℕ → Text → Dispatch
  send : SocketPath → Text → Dispatch

unfoldable pub dispatch : Text → Text → Option Text → Dispatch
unfolding route http_socket_path is_electrum_socket
dispatch dir path query = elim (route path) [
  | redirect_307 location ↦ answer 307 (with_query location query)
  | not_found ↦ answer 404 (codes "not found")
  | proxy network backend ↦
      if is_electrum_socket (http_socket_path dir network)
      then answer 500 (codes "electrum socket refused")
      else send (http_socket_path dir network) (with_query backend query)
]
