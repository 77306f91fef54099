-- ===== src/Queue.antt =====
-- src/queue.rs: the approval queue. Its file has a line `npub,email` for each pending row; the
-- operator's commands move a row to the allowlist file of src/auth.rs. An `Io` error is without its
-- message, and `none` where nothing else can go wrong. The locks are not modelled: a submission is
-- one step. `parse_pubkey` is nostr's `PublicKey::parse`.
pub mod Rows
pub mod Commands
pub mod Changes
pub mod Limits
pub mod Saving
pub mod Http
pub mod RoundTrip
pub mod Rate
pub mod Submit
pub mod Keys
pub mod Reload
pub mod Approval
pub mod Approve
use mathlib.Core.Option
use mathlib.Core.Bool.{decide}
use splora.Common.{
  ℕ, ◌+◌, ◌-◌, ◌*◌, ◌%◌, ◌^◌, Bool, true, false, not, ◌&&◌, ◌||◌, Option, none, some, List, [], ◌∷◌,
  ◌++◌, ltb, leb, if◌then◌else◌, length,
}
use splora.Common.Results.{Outcome, ok, err}
use splora.Common.Files.{File, replace, text_or_empty}
use splora.Common.Maps
use splora.Common.Maps.{Key, Map, nat_key}
use splora.Common.Text.{Text, byte_len, has_char, codes, starts_with, text_eq}
use splora.Discovery.Addr.{IpAddr, IpAddr-discrete}
use splora.Queue.Rows.{QueueRow, load_queue, write_queue}

instance abbrev pub ip_key : Key IpAddr
ip_key = record { eq? = IpAddr-discrete }

pub record QueueCaps : Type 0 where
  pub max_rows : ℕ
  pub max_bytes : ℕ
  pub per_ip : ℕ
  pub per_npub : ℕ
  pub window_secs : ℕ

-- `QueueCaps::default`
abbrev pub default_caps : QueueCaps
default_caps = record {
  max_rows = 10000;
  max_bytes = 2 * 1024 * 1024;
  per_ip = 10;
  per_npub = 5;
  window_secs = 60;
}

pub data QueueError : Type 0 where
  invalid_npub invalid_email bad_json rate_limited cap_exceeded not_found io : QueueError

pub record QueueStore : Type 0 where
  pub file : File
  pub caps : QueueCaps
  pub ip_hits : Map IpAddr (List ℕ)
  pub npub_hits : Map ℕ (List ℕ)

-- `QueueStore::open`: a missing file is made, empty.
unfoldable pub open_store : File → QueueCaps → Option QueueStore
unfolding replace
open_store file caps = elim file.text [
  | none ↦
      Option.map (λ f. record { file = f; caps = caps; ip_hits = []; npub_hits = [] })
        (replace file [])
  | some t ↦ some (record { file = file; caps = caps; ip_hits = []; npub_hits = [] })
]

-- `retain` in `rate_ok`
unfoldable pub retain_recent : ℕ → ℕ → List ℕ → List ℕ
retain_recent now window [] = []
retain_recent now window (t ∷ ts) =
    let rest = retain_recent now window ts in if ltb (now - t) window then t ∷ rest else rest

-- `rate_ok`: the hits after the call, and whether it is allowed. `max` is a `u32`.
unfoldable pub rate_ok : List ℕ → ℕ → ℕ → ℕ → List ℕ × Bool
unfolding retain_recent
rate_ok hits now window max =
    let recent = retain_recent now window hits in
    if leb max (length recent % 2 ^ 32) then (recent, false) else (recent ++ now ∷ [], true)

-- `entry(k).or_default()`
abbrev pub hits_of : {K : Type 0} ⦃k : Key K⦄ → K → Map K (List ℕ) → List ℕ
hits_of a m = elim (Maps.get a m) [ none ↦ [] | some ts ↦ ts ]

abbrev pub has_row : Text → List QueueRow → Bool
has_row npub [] = false
has_row npub (r ∷ rs) = text_eq r.npub npub || has_row npub rs

-- The first row of the npub gets the email.
unfoldable pub set_email : Text → Text → List QueueRow → List QueueRow
unfolding text_eq
set_email npub email [] = []
set_email npub email (r ∷ rs) =
    let rest = set_email npub email rs in
    if text_eq r.npub npub then record r { email = email } ∷ rs else r ∷ rest

-- `u64::saturating_add`
abbrev pub saturating_add : ℕ → ℕ → ℕ
saturating_add a b = if ltb (a + b) (2 ^ 64) then a + b else 2 ^ 64 - 1

-- One more row would exceed a cap.
abbrev pub is_full : QueueCaps → File → Text → Text → List QueueRow → Bool
is_full caps file npub email rows =
    leb caps.max_rows (length rows)
    || ltb caps.max_bytes
        (saturating_add (byte_len (text_or_empty file)) (byte_len npub + 1 + byte_len email + 1))

-- The rows with the new email or the new row.
abbrev pub upserted : Text → Text → List QueueRow → List QueueRow
upserted npub email rows =
    if has_row npub rows
    then set_email npub email rows
    else rows ++ record { npub = npub; email = email } ∷ []

-- The end of `submit_impl`, behind the rate limits.
unfoldable pub save : QueueStore → Text → Text → QueueStore × Outcome QueueError QueueRow
unfolding load_queue write_queue text_eq set_email
save store npub email = elim (load_queue store.file) [
  | none ↦ (store, err io)
  | some rows ↦
      if not (has_row npub rows) && is_full store.caps store.file npub email rows
      then (store, err cap_exceeded)
      else elim (write_queue store.file (upserted npub email rows)) [
        | none ↦ (store, err io)
        | some file ↦ (record store { file = file }, ok (record { npub = npub; email = email }))
      ]
]

-- The rate limit of a client with an address.
unfoldable pub limit_ip : QueueStore → Option IpAddr → ℕ → QueueStore × Bool
unfolding rate_ok
limit_ip store none now = (store, true)
limit_ip store (some ip) now =
    let (hits, allowed) =
      rate_ok (hits_of ip store.ip_hits) now store.caps.window_secs store.caps.per_ip in
    (record store { ip_hits = Maps.insert ip hits store.ip_hits }, allowed)

unfoldable pub limit_npub : QueueStore → ℕ → ℕ → QueueStore × Bool
unfolding rate_ok
limit_npub store pk now =
    let (hits, allowed) =
      rate_ok (hits_of pk store.npub_hits) now store.caps.window_secs store.caps.per_npub in
    (record store { npub_hits = Maps.insert pk hits store.npub_hits }, allowed)

module _ (parse_pubkey : Text → Option ℕ) where
  unfoldable pub valid_npub : Text → Option ℕ
  unfolding starts_with
  valid_npub npub = if starts_with (codes "npub1") npub then parse_pubkey npub else none

  -- `submit_impl`
  unfoldable pub submit :
      QueueStore → Option IpAddr → Text → Text → ℕ → QueueStore × Outcome QueueError QueueRow
  unfolding valid_npub limit_ip limit_npub save
  submit store ip npub email now = elim (valid_npub npub) [
    | none ↦ (store, err invalid_npub)
    | some pk ↦
        if has_char 44 email
        then (store, err invalid_email)
        else let by_ip = limit_ip store ip now in
          if not by_ip.1
          then (by_ip.0, err rate_limited)
          else let by_npub = limit_npub by_ip.0 pk now in
            if not by_npub.1 then (by_npub.0, err rate_limited) else save by_npub.0 npub email
  ]
