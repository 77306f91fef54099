-- ===== src/Tests/Pending.antt =====
-- Submissions to the queue, the rate limit, and the operator's commands.

use splora.Common.{
  map, ℕ, ◌≤◌, ◌≡◌, refl, true, false, not, ◌&&◌, ◌||◌, Option, none, some, List, [], ◌∷◌, ◌==◌,
  arith, ◌⊎◌, ◌++◌,
}
use splora.Common.{◌↔◌}
use splora.Common.Results.{ok}
use splora.Common.Files.{File, text_or_empty}
use splora.Common.Maps
use splora.Common.Maps.{nat_key}
use splora.Common.Text.{Text, codes, byte_len, has_char}
use splora.Auth.{has_key, parse_allowlist}
use splora.Queue.{hits_of, ip_key, QueueStore, default_caps, invalid_email, valid_npub, submit}
use splora.Queue.Rows.{QueueRow, load_queue, write_queue}
use splora.Queue.Commands.{upsert_allowlist, remove_npub}
use splora.Queue.RoundTrip.{is_storable, stored, load_queue-write_queue}
use splora.Queue.Rate.{accepted, count_within, rate_ok_window}
use splora.Queue.Limits.{IsBelow, MayCall}
use splora.Queue.Submit.{submit-ok, submit-err}
use splora.Queue.Changes.{Kept, Updated, Appended, HasRoom}
use splora.Discovery.Addr.{IpAddr, v4}
use splora.Queue.Reload.{load_queue-submit}
use splora.Queue.Approve.{approve_moves}
use splora.Queue.Commands.{approve}
use splora.Queue.Approval.{remove_npub_keys, upsert_allowlist_keys}

rate_ok_window_example : count_within 60 70 (accepted 60 2 [] [] (1 ∷ 2 ∷ 3 ∷ 70 ∷ [])) ≤ 2
rate_ok_window_example = rate_ok_window 60 2 (1 ∷ 2 ∷ 3 ∷ 70 ∷ []) 70 (omega arith) refl

-- A key is the length of its text.
abbrev parse_pubkey : Text → Option ℕ
parse_pubkey t = some (byte_len t)

abbrev row : QueueRow
row = record { npub = codes "npub1a"; email = codes "a@b.c" }

-- An email that tries to bring a row of its own.
abbrev injecting : QueueRow
injecting = record { npub = codes "npub1b"; email = codes " x@y.z\nnpub1c " }

abbrev empty_file : File
empty_file = record { text = some []; writable = true }

abbrev two_lines : File
two_lines = record { text = some (codes "npub1a,a@b.c\nnpub1b, x@y.z\nnpub1c \n"); writable = true }

load_queue-write_queue_example :
    load_queue two_lines ≡ some (row ∷ record injecting { email = codes "x@y.z" } ∷ [])
unfolding is_storable write_queue stored
load_queue-write_queue_example =
    load_queue-write_queue empty_file two_lines (row ∷ injecting ∷ []) refl refl

abbrev store : QueueStore
store = record { file = empty_file; caps = default_caps; ip_hits = []; npub_hits = [] }

abbrev stored_store : QueueStore
stored_store = record store {
  file = record empty_file { text = some (codes "npub1a,a@b.c\n") };
  npub_hits = (6, 1000 ∷ []) ∷ [];
}

abbrev client : IpAddr
client = v4 10 0 0 1

abbrev busy_store : QueueStore
busy_store = record store { ip_hits = (client, 1000 ∷ []) ∷ [] }

submit-ok_example :
    ((store' : QueueStore) × (submit parse_pubkey busy_store
          (some client)
          (codes "npub1a")
          (codes "a@b.c")
          1000
        ≡ (store', ok row))
      × (store'.file ≡ stored_store.file))
    ↔ (((pk : ℕ) × (parse_pubkey row.npub ≡ some pk)
          × IsBelow default_caps.per_npub default_caps.window_secs 1000 (hits_of pk []))
        × ((key : Text) × (row.npub ≡ codes "npub1" ++ key))
        × (has_char 44 row.email ≡ false)
        × MayCall busy_store (some client) 1000
        × ((rows : List QueueRow) × (rows' : List QueueRow) × (load_queue empty_file ≡ some rows)
            × (Updated row.npub row.email rows rows'
                ⊎ (Appended row.npub row.email rows rows'
                    × HasRoom default_caps empty_file row.npub row.email rows))
            × (write_queue empty_file rows' ≡ some stored_store.file)))
submit-ok_example =
    submit-ok parse_pubkey busy_store stored_store.file (some client) (codes "npub1a")
      (codes "a@b.c") 1000

submit-err_example : store.file ≡ store.file
unfolding submit
submit-err_example =
    submit-err parse_pubkey store store none row.npub (codes "a,b") 1000 invalid_email refl

abbrev allowlist : File
allowlist = record { text = some (codes "# keys\nnpub1a\nnpub1bc\n"); writable = true }

abbrev removed : File
removed = record { text = some (codes "# keys\nnpub1bc\n"); writable = true }

abbrev added : File
added = record { text = some (codes "# keys\nnpub1a\nnpub1bc\nnpub1def\n"); writable = true }

remove_npub_keys_example :
    (keys' : List ℕ) × (parse_allowlist parse_pubkey (text_or_empty removed) ≡ some keys')
    × ((k : ℕ) → has_key k keys' ≡ (has_key k (7 ∷ 6 ∷ []) && not (6 == k)))
unfolding parse_allowlist valid_npub remove_npub
remove_npub_keys_example =
    remove_npub_keys parse_pubkey allowlist removed (codes "npub1a") 6 (7 ∷ 6 ∷ []) refl refl refl

upsert_allowlist_keys_example :
    (keys' : List ℕ) × (parse_allowlist parse_pubkey (text_or_empty added) ≡ some keys')
    × ((k : ℕ) → has_key k keys' ≡ (has_key k (7 ∷ 6 ∷ []) || (8 == k)))
unfolding parse_allowlist valid_npub upsert_allowlist
upsert_allowlist_keys_example =
    upsert_allowlist_keys parse_pubkey allowlist added (codes "npub1def") 8 (7 ∷ 6 ∷ []) refl refl
      refl refl refl

abbrev waiting : File
waiting = record { text = some (codes "npub1a,a@b.c\nnpub1def,x@y.z\n"); writable = true }

abbrev left : File
left = record { text = some (codes "npub1a,a@b.c\n"); writable = true }

abbrev waiting_rows : List QueueRow
waiting_rows = row ∷ record { npub = codes "npub1def"; email = codes "x@y.z" } ∷ []

approve_moves_example :
    ((kept : List QueueRow) × Kept (codes "npub1def") waiting_rows kept
      × (load_queue left ≡ some (map stored kept)))
    × ((keys' : List ℕ) × (parse_allowlist parse_pubkey (text_or_empty added) ≡ some keys')
        × ((k : ℕ) → has_key k keys' ≡ (has_key k (7 ∷ 6 ∷ []) || (8 == k))))
unfolding load_queue is_storable parse_allowlist valid_npub approve
approve_moves_example =
    approve_moves parse_pubkey waiting allowlist left added (codes "npub1def") 8 (7 ∷ 6 ∷ [])
      waiting_rows refl refl refl refl refl refl refl

load_queue-submit_example :
    (rows' : List QueueRow) × (Updated row.npub row.email [] rows'
      ⊎ Appended row.npub row.email [] rows')
    × (load_queue stored_store.file ≡ some (map stored rows'))
unfolding load_queue is_storable submit Maps.get Maps.insert
load_queue-submit_example =
    load_queue-submit parse_pubkey store stored_store none row.npub row.email 1000 row [] refl refl
      refl refl
