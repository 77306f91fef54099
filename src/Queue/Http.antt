-- ===== src/Queue/Http.antt =====
-- src/queue.rs: the HTTP side of the queue, over TCP and over a unix socket, and its command line.
-- `parse_body` is serde_json on the body, `parse_ip` and `parse_addr` the standard library's parsers.

use splora.Common.{ℕ, Bool, not, Option, none, some, List, [], ◌∷◌, if◌then◌else◌}
use splora.Common.Results.{Outcome, ok, err, panic}
use splora.Common.Lines.{split_on}
use splora.Common.Text.{Text, codes, is_empty, trim}
use splora.Discovery.Addr.{IpAddr}
use splora.Queue.{
  QueueStore, QueueError, invalid_npub, invalid_email, bad_json, rate_limited, cap_exceeded,
  not_found, io, submit,
}
use splora.Queue.Rows.{QueueRow}

pub data Reply : Type 0 where
  accepted : QueueRow → Reply
  failure : ℕ → Text → Reply

-- `Display for QueueError`
abbrev pub message : QueueError → Text
message invalid_npub = codes "invalid npub"
message invalid_email = codes "email must not contain a comma"
message bad_json = codes "invalid JSON body"
message rate_limited = codes "rate limited"
message cap_exceeded = codes "queue cap exceeded"
message not_found = codes "npub not in queue"
message io = codes "queue io"

unfoldable pub reply_to : QueueError → Reply
reply_to invalid_npub = failure 400 (codes "invalid npub")
reply_to invalid_email = failure 400 (codes "email must not contain a comma")
reply_to rate_limited = failure 429 (codes "rate limited")
reply_to cap_exceeded = failure 507 (codes "queue cap exceeded")
reply_to bad_json = failure 500 (message bad_json)
reply_to not_found = failure 500 (message not_found)
reply_to io = failure 500 (message io)

module _ (parse_pubkey : Text → Option ℕ) (parse_body : Text → Option (Text × Text)) where
  -- `handle_unix_http`, and the turn of the loop in `run`. No body is one that cannot be read.
  unfoldable pub handle : QueueStore → Bool → Option IpAddr → Option Text → ℕ → QueueStore × Reply
  unfolding submit reply_to
  handle store is_post ip body now =
      if not is_post then (store, failure 405 (codes "method not allowed")) else elim body [
        | none ↦ (store, failure 400 (codes "bad body"))
        | some text ↦ elim (parse_body text) [
          | none ↦ (store, failure 400 (codes "invalid json"))
          | some (npub, email) ↦
              let r = submit parse_pubkey store ip npub email now in
              (
                r.0,
                elim r.1 [ ok row ↦ accepted row | err e ↦ reply_to e | panic ↦ failure 500 [] ],
              )
        ]
      ]

abbrev pub first_hop : List Text → Option Text
first_hop [] = none
first_hop (h ∷ hs) = if is_empty (trim h) then none else some (trim h)

module _ (parse_ip : Text → Option IpAddr) where
  -- `unix_client_ip`, on the `X-Forwarded-For` header.
  unfoldable pub unix_client_ip : Option Text → Option IpAddr
  unfolding split_on trim
  unix_client_ip none = none
  unix_client_ip (some header) = elim (first_hop (split_on 44 header)) [
    | none ↦ none
    | some h ↦ parse_ip h
  ]

pub data QueueListen (SocketAddr : Type 0) : Type 0 where
  tcp : SocketAddr → QueueListen SocketAddr
  unix : Text → QueueListen SocketAddr

-- `listen_from_matches`
unfoldable pub listen_from_matches :
    {SocketAddr : Type 0}
    → (Text → Option SocketAddr)
    → Option Text
    → Option Text
    → Outcome QueueError (QueueListen SocketAddr)
listen_from_matches parse_addr (some bind) (some path) = err io
listen_from_matches parse_addr (some bind) none = elim (parse_addr bind) [
  | none ↦ err io
  | some addr ↦ ok (tcp addr)
]
listen_from_matches parse_addr none (some path) = ok (unix path)
listen_from_matches parse_addr none none = err io
