-- ===== src/Front/Routing.antt =====
-- src/http_front/mod.rs: exactly which public paths reach which backend.
use mathlib.Core.Option
use mathlib.Core.Path.{subst}
use splora.Common.{
  true, false, ◌≡◌, ◌↔◌, refl, sym, ap, ◌∙◌, some, [], ◌∷◌, ◌++◌, arith, inl, inr, Bool-cases,
  Option-cases,
}
use splora.Common.Text.{
  Text, codes, text_eq, text_eq_iff, strip_prefix, strip_prefix-eq-some, starts_with,
}
use splora.Front.{
  NetworkId, mainnet, testnet3, testnet4, mutinynet, liquid, Route, redirect_307, proxy, not_found,
  strip_named_prefix, backend_path, is_api, proxy_after_network, route,
}

-- What a network's public paths start with.
unfoldable pub public_prefix : NetworkId → Text
public_prefix mainnet = []
public_prefix testnet3 = codes "/testnet"
public_prefix testnet4 = codes "/testnet4"
public_prefix mutinynet = codes "/mutinynet"
public_prefix liquid = codes "/liquid"

append_nil : (s : Text) → s ≡ s ++ []
append_nil [] = refl
append_nil (c ∷ s) = ap (◌∷◌ c) (append_nil s)

strip_named_prefix-some :
    (path prefix rest : Text) → strip_named_prefix path prefix ≡ some rest → path ≡ prefix ++ rest
unfolding strip_named_prefix
strip_named_prefix-some path prefix rest h = elim (Bool-cases (text_eq path prefix)) [
  | inl e ↦
      let q : [] ≡ rest = Option.some-injective [] rest (rw (e, strip_named_prefix) at h) in
      (text_eq_iff path prefix).0 e ∙ append_nil prefix ∙ ap (◌++◌ prefix) q
  | inr e ↦ elim (Option-cases (strip_prefix prefix path)) [
    | inl s ↦ absurd (Option.none-ne-some rest (rw (e, s, strip_named_prefix) at h))
    | inr (r, s) ↦ elim (Bool-cases (starts_with (codes "/") r)) [
      | inr n ↦ absurd (Option.none-ne-some rest (rw (e, s, n, strip_named_prefix) at h))
      | inl y ↦
          let q : r ≡ rest = Option.some-injective r rest (rw (e, s, y, strip_named_prefix) at h) in
          strip_prefix-eq-some prefix path r s ∙ ap (◌++◌ prefix) q
    ]
  ]
]

-- A route to a backend, and the part of the path behind the network's name.
abbrev Reaches : Text → Route → Type 0
Reaches path r = elim r [
  | redirect_307 location ↦ Unit {0}
  | proxy network backend ↦
      (rest : Text) × (path ≡ public_prefix network ++ rest)
      × (is_api rest ≡ true)
      × (backend ≡ backend_path rest)
  | not_found ↦ Unit {0}
]

after_network-proxy :
    (network : NetworkId) (rest : Text)
    → is_api rest ≡ true
    → proxy_after_network network rest ≡ proxy network (backend_path rest)
unfolding proxy_after_network
after_network-proxy network rest y = rw y refl

after_network-not_found :
    (network : NetworkId) (rest : Text)
    → is_api rest ≡ false
    → proxy_after_network network rest ≡ not_found
unfolding proxy_after_network
after_network-not_found network rest n = rw n refl

-- One way out of `route`.
reached :
    (network : NetworkId) (path rest : Text)
    → path ≡ public_prefix network ++ rest
    → route path ≡ proxy_after_network network rest
    → Reaches path (route path)
reached network path rest e r = elim (Bool-cases (is_api rest)) [
  | inl y ↦ subst (Reaches path) (sym (r ∙ after_network-proxy network rest y)) (rest, e, y, refl)
  | inr n ↦ subst (Reaches path) (sym (r ∙ after_network-not_found network rest n)) tt
]

elsewhere : (path : Text) (r : Route) → Reaches path r → route path ≡ r → Reaches path (route path)
elsewhere path r h e = subst (Reaches path) (sym e) h

route-Reaches : (path : Text) → Reaches path (route path)
unfolding route public_prefix
route-Reaches path = elim (Option-cases (strip_named_prefix path (codes "/signet"))) [
  | inr (s, a) ↦ elsewhere path (redirect_307 (codes "/mutinynet" ++ s)) tt (rw (a, route) refl)
  | inl a ↦ elim (Option-cases (strip_named_prefix path (codes "/testnet4"))) [
    | inr (s, b) ↦
        reached testnet4 path s (strip_named_prefix-some path (codes "/testnet4") s b)
          (rw (a, b, route) refl)
    | inl b ↦ elim (Option-cases (strip_named_prefix path (codes "/testnet"))) [
      | inr (s, c) ↦
          reached testnet3 path s (strip_named_prefix-some path (codes "/testnet") s c)
            (rw (a, b, c, route) refl)
      | inl c ↦ elim (Option-cases (strip_named_prefix path (codes "/mutinynet"))) [
        | inr (s, d) ↦
            reached mutinynet path s (strip_named_prefix-some path (codes "/mutinynet") s d)
              (rw (a, b, c, d, route) refl)
        | inl d ↦ elim (Option-cases (strip_named_prefix path (codes "/liquid"))) [
          | inr (s, e) ↦
              reached liquid path s (strip_named_prefix-some path (codes "/liquid") s e)
                (rw (a, b, c, d, e, route) refl)
          | inl e ↦ elim (Bool-cases (is_api path)) [
            | inl f ↦ reached mainnet path path refl (rw (a, b, c, d, e, f, route) refl)
            | inr f ↦ elsewhere path not_found tt (rw (a, b, c, d, e, f, route) refl)
          ]
        ]
      ]
    ]
  ]
]

-- A path of the API starts with a slash and a letter that is no network's first.
data Api : Text → Type 0 where
  root : Api (codes "/api")
  below : (r : Text) → Api (codes "/api/" ++ r)

is_api-Api : (rest : Text) → is_api rest ≡ true → Api rest
unfolding starts_with
is_api-Api rest h = elim (Bool-cases (text_eq rest (codes "/api"))) [
  | inl e ↦ subst Api (sym ((text_eq_iff rest (codes "/api")).0 e)) root
  | inr e ↦ elim (Option-cases (strip_prefix (codes "/api/") rest)) [
    | inl s ↦ ground (arith, h, e, s)
    | inr (r, s) ↦ subst Api (sym (strip_prefix-eq-some (codes "/api/") rest r s)) (below r)
  ]
]

Api-route :
    (network : NetworkId) (rest : Text)
    → Api rest
    → route (public_prefix network ++ rest) ≡ proxy_after_network network rest
unfolding public_prefix route strip_named_prefix strip_prefix starts_with text_eq
Api-route mainnet rest root = refl
Api-route mainnet rest (below r) = refl
Api-route testnet3 rest root = refl
Api-route testnet3 rest (below r) = refl
Api-route testnet4 rest root = refl
Api-route testnet4 rest (below r) = refl
Api-route mutinynet rest root = refl
Api-route mutinynet rest (below r) = refl
Api-route liquid rest root = refl
Api-route liquid rest (below r) = refl

-- A public path is sent to a network's backend, as this path there, if and only if it is the
-- network's prefix and then an API path that the backend's path is made of.
pub route_iff :
    (path : Text) (network : NetworkId) (backend : Text)
    → (route path ≡ proxy network backend) ↔ (
        (rest : Text) × (path ≡ public_prefix network ++ rest)
        × (is_api rest ≡ true)
        × (backend ≡ backend_path rest))
route_iff path network backend = (
  λ h. subst (Reaches path) h (route-Reaches path),
  λ (rest, e, y, b).
      ap route e
      ∙ Api-route network rest (is_api-Api rest y)
      ∙ after_network-proxy network rest y
      ∙ ap (proxy network) (sym b),
)
