-- ===== src/Front/Sending.antt =====
-- src/http_front/mod.rs: which requests `dispatch` sends to which socket.

use mathlib.Core.Path.{subst}
use splora.Common.{true, false, ◌≡◌, ◌↔◌, refl, sym, ap, ◌∙◌, Option, ◌++◌, if◌then◌else◌}
use splora.Common.Text.{Text, codes, text_eq, ends_with}
use splora.Front.{
  NetworkId, mainnet, testnet3, testnet4, mutinynet, liquid, Route, redirect_307, proxy, not_found,
  backend_path, is_api, route, http_socket_path, SocketPath, http_socket_file_name,
  is_electrum_socket, with_query, answer, send, dispatch,
}
use splora.Front.Routing.{public_prefix, route_iff}

no_electrum :
    (dir : Text) (network : NetworkId) → is_electrum_socket (http_socket_path dir network) ≡ false
unfolding is_electrum_socket http_socket_path http_socket_file_name ends_with text_eq
no_electrum dir mainnet = refl
no_electrum dir testnet3 = refl
no_electrum dir testnet4 = refl
no_electrum dir mutinynet = refl
no_electrum dir liquid = refl

dispatch_by_route :
    (dir path : Text) (query : Option Text)
    → dispatch dir path query ≡ elim (route path) [
      | redirect_307 location ↦ answer 307 (with_query location query)
      | not_found ↦ answer 404 (codes "not found")
      | proxy network backend ↦ send (http_socket_path dir network) (with_query backend query)
    ]
unfolding dispatch
dispatch_by_route dir path query = by_case (route path)
  where
    by_case :
        (r : Route)
        → (elim r [
          | redirect_307 location ↦ answer 307 (with_query location query)
          | not_found ↦ answer 404 (codes "not found")
          | proxy network backend ↦
              if is_electrum_socket (http_socket_path dir network)
              then answer 500 (codes "electrum socket refused")
              else send (http_socket_path dir network) (with_query backend query)
        ])
          ≡ elim r [
            | redirect_307 location ↦ answer 307 (with_query location query)
            | not_found ↦ answer 404 (codes "not found")
            | proxy network backend ↦ send (http_socket_path dir network) (with_query backend query)
          ]
    by_case (redirect_307 location) = refl
    by_case not_found = refl
    by_case (proxy network backend) = rw (no_electrum dir network) refl

-- What a network's sockets are called after.
unfoldable pub socket_name : NetworkId → Text
socket_name mainnet = codes "mainnet"
socket_name testnet3 = codes "testnet3"
socket_name testnet4 = codes "testnet4"
socket_name mutinynet = codes "mutinynet"
socket_name liquid = codes "liquid"

-- A file of the directory that carries HTTP for this network, and no Electrum protocol.
abbrev pub IsHttpSocket : Text → NetworkId → SocketPath → Type 0
IsHttpSocket dir network socket =
    (socket.directory ≡ dir)
    × (socket.file_name ≡ socket_name network ++ codes ".http.sock")
    × (ends_with (codes "electrum.sock") socket.file_name ≡ false)

http_socket_path-IsHttpSocket :
    (dir : Text) (network : NetworkId) → IsHttpSocket dir network (http_socket_path dir network)
unfolding socket_name http_socket_path http_socket_file_name ends_with text_eq
http_socket_path-IsHttpSocket dir mainnet = (refl, refl, refl)
http_socket_path-IsHttpSocket dir testnet3 = (refl, refl, refl)
http_socket_path-IsHttpSocket dir testnet4 = (refl, refl, refl)
http_socket_path-IsHttpSocket dir mutinynet = (refl, refl, refl)
http_socket_path-IsHttpSocket dir liquid = (refl, refl, refl)

IsHttpSocket-unique :
    (dir : Text) (network : NetworkId) (socket : SocketPath)
    → IsHttpSocket dir network socket
    → socket ≡ http_socket_path dir network
IsHttpSocket-unique dir network socket (d, f, n) =
    let (d', f', n') = http_socket_path-IsHttpSocket dir network in
    let same = f ∙ sym f' in
    let there = d ∙ sym d' in λ i. record { directory = there i; file_name = same i }

-- What is sent is sent on a route to a backend.
sent_by_route :
    (dir : Text) (query : Option Text) (socket : SocketPath) (target : Text) (r : Route)
    → (elim r [
      | redirect_307 location ↦ answer 307 (with_query location query)
      | not_found ↦ answer 404 (codes "not found")
      | proxy network backend ↦ send (http_socket_path dir network) (with_query backend query)
    ])
      ≡ send socket target
    → (network : NetworkId) × (backend : Text) × (r ≡ proxy network backend)
      × (http_socket_path dir network ≡ socket)
      × (with_query backend query ≡ target)
sent_by_route dir query socket target (redirect_307 location) h = cc
sent_by_route dir query socket target not_found h = cc
sent_by_route dir query socket target (proxy network backend) h = (network, backend, refl, cc, cc)

-- A request is sent to a socket, for a target there, if and only if its path is a network's public
-- prefix and then an API path, the socket is the directory's file with this network's name and
-- `.http.sock` behind it, which does not end in `electrum.sock`, and the target is the path that
-- the backend knows, with the request's query. So no such request is refused, and nothing else is
-- sent on.
pub dispatch_iff :
    (dir path target : Text) (query : Option Text) (socket : SocketPath)
    → (dispatch dir path query ≡ send socket target) ↔ (
        (network : NetworkId) × (rest : Text) × (path ≡ public_prefix network ++ rest)
        × (is_api rest ≡ true)
        × IsHttpSocket dir network socket
        × (target ≡ with_query (backend_path rest) query))
dispatch_iff dir path target query socket = (
  λ h.
      let (network, backend, r, s, t) =
        sent_by_route dir query socket target (route path)
          (sym (dispatch_by_route dir path query) ∙ h) in
      let (rest, e, y, b) = (route_iff path network backend).0 r in
      (
        network,
        rest,
        e,
        y,
        subst (IsHttpSocket dir network) s (http_socket_path-IsHttpSocket dir network),
        sym t ∙ ap (λ x. with_query x query) b,
      ),
  λ (network, rest, e, y, s, t).
      let r = (route_iff path network (backend_path rest)).1 (rest, e, y, refl) in
      let sent : dispatch dir path query
          ≡ send (http_socket_path dir network) (with_query (backend_path rest) query) =
        dispatch_by_route dir path query ∙ rw r refl in
      sent ∙ (λ i. send (sym (IsHttpSocket-unique dir network socket s) i) (sym t i)),
)
