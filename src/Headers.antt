-- ===== src/Headers.antt =====
-- src/util/block.rs: the header of a block, the list of the best chain's headers with its index
-- by hash, and the operations that build, extend and reorganise it. A failed assertion, an index
-- out of bounds or an explicit panic is `none`. `block_hash` is rust-bitcoin's.
pub mod Chained
pub mod Distinct
pub mod Reorg
pub mod Order
pub mod Lookup
pub mod Build
pub mod MedianTime
use splora.Common.{
  ℕ, zero, suc, ◌+◌, ◌-◌, ◌/◌, first?, Bool, true, false, ◌&&◌, Option, none, some, List, [], ◌∷◌,
  ◌++◌, reverse, ltb, leb, ◌==◌, if◌then◌else◌, ◌>>=◌, ◌>>◌, assert, length, get_elem?, take, drop,
  last?,
}
use splora.Common.Maps
use splora.Common.Maps.{Map, nat_key}
use mathlib.Core.Option
use splora.Common.Sort.{sort}

-- A hash is the number that its 32 bytes spell.
abbrev pub BlockHash : Type 0
BlockHash = ℕ

abbrev pub null_hash : BlockHash
null_hash = 0

pub record BlockHeader : Type 0 where
  pub version : ℕ
  pub prev_blockhash : BlockHash
  pub merkle_root : ℕ
  pub time : ℕ
  pub bits : ℕ
  pub nonce : ℕ

pub record HeaderEntry : Type 0 where
  pub height : ℕ
  pub hash : BlockHash
  pub header : BlockHeader

pub record BlockId : Type 0 where
  pub height : ℕ
  pub hash : BlockHash
  pub time : ℕ

-- `impl From<&HeaderEntry> for BlockId`
unfoldable pub blockid_of : HeaderEntry → BlockId
blockid_of e = record { height = e.height; hash = e.hash; time = e.header.time }

pub record HeaderList : Type 0 where
  pub headers : List HeaderEntry
  pub heights : Map BlockHash ℕ
  pub tip : BlockHash

abbrev pub empty : HeaderList
empty = record { headers = []; heights = []; tip = null_hash }

-- `self.headers.last()`, with the null hash for an empty list.
abbrev pub last_hash : List HeaderEntry → BlockHash
last_hash es = elim (last? es) [ none ↦ null_hash | some e ↦ e.hash ]

-- `Vec::split_off`, which panics past the end.
abbrev pub split_off {ℓ} : {A : Type ℓ} → List A → ℕ → Option (List A × List A)
split_off xs at = if leb at (length xs) then some (take at xs, drop at xs) else none

unfoldable pub header_by_blockhash : HeaderList → BlockHash → Option HeaderEntry
header_by_blockhash l blockhash = do
  height ← Maps.get blockhash l.heights
  header ← get_elem? l.headers height
  if blockhash == header.hash then some header else none

-- The inner `none` is a missing header, the outer one the failed assertion.
unfoldable pub header_by_height : HeaderList → ℕ → Option (Option HeaderEntry)
header_by_height l height = elim (get_elem? l.headers height) [
  | none ↦ some none
  | some entry ↦ if entry.height == height then some (some entry) else none
]

-- The getter `tip`, with its assertion.
unfoldable pub get_tip : HeaderList → Option BlockHash
get_tip l = if l.tip == last_hash l.headers then some l.tip else none

-- The two assertions of `apply` on neighbours.
unfoldable pub adjacent : List HeaderEntry → Bool
adjacent [] = true
adjacent (a ∷ []) = true
adjacent (a ∷ b ∷ es) =
    (a.height + 1 == b.height) && (a.hash == b.header.prev_blockhash) && adjacent (b ∷ es)

unfoldable pub expected_prev : HeaderList → ℕ → Option BlockHash
expected_prev l zero = some null_hash
expected_prev l (suc n) = Option.map (λ (e : HeaderEntry). e.hash) (get_elem? l.headers n)

-- The body of the loop of `apply`.
unfoldable pub push_header : HeaderList → HeaderEntry → Option HeaderList
push_header l e =
    if e.height == length l.headers
    then some (record {
      headers = l.headers ++ e ∷ [];
      heights = Maps.insert e.hash e.height l.heights;
      tip = e.hash;
    })
    else none

unfoldable pub push_headers : HeaderList → List HeaderEntry → Option HeaderList
push_headers l [] = some l
push_headers l (e ∷ es) = do l' ← push_header l e; push_headers l' es

abbrev pub rollback_tip : List HeaderEntry → List HeaderEntry → Option BlockHash
rollback_tip kept [] = none
rollback_tip kept (e ∷ removed) = Option.map (λ (x : HeaderEntry). x.hash) (last? kept)

-- The new list, the removed entries with the old tip first, and the tip after the rollback.
unfoldable pub apply :
    HeaderList → List HeaderEntry → Option (HeaderList × List HeaderEntry × Option BlockHash)
unfolding expected_prev
apply l [] = some (l, [], none)
apply l (e ∷ es) = do
  assert (adjacent (e ∷ es))
  expected ← expected_prev l e.height
  assert (e.header.prev_blockhash == expected)
  (kept, removed) ← split_off l.headers e.height
  l' ← push_headers (record l { headers = kept }) (e ∷ es)
  some (l', reverse removed, rollback_tip kept removed)

abbrev pub mtp_span : ℕ
mtp_span = 11

-- The timestamps of `count` entries from `start`; `get(..).unwrap()` panics past the end.
unfoldable pub timestamps : HeaderList → ℕ → ℕ → Option (List ℕ)
timestamps l start zero = some []
timestamps l start (suc count) =
    let rest = timestamps l (suc start) count in
    do e ← get_elem? l.headers start; ts ← rest; some (e.header.time ∷ ts)

-- `(height.saturating_sub(MTP_SPAN - 1)..=height)`
unfoldable pub window : HeaderList → ℕ → Option (List ℕ)
window l height = let start = height - (mtp_span - 1) in timestamps l start (height + 1 - start)

-- `self.len() - 1` does not exist for an empty list.
unfoldable pub get_mtp : HeaderList → ℕ → Option ℕ
unfolding window timestamps
get_mtp l height =
    if height == 0
    then Option.map (λ (e : HeaderEntry). e.header.time) (first? l.headers)
    else if length l.headers == 0
    then none
    else if ltb (length l.headers - 1) height
    then some 0
    else do ts ← window l height; get_elem? (sort ts) (length ts / 2)

-- The `while` of `HeaderList::new`: each round takes one header out of the map, so its size
-- bounds the rounds. `chain` is the walk from the tip, already reversed.
unfoldable pub walk_back :
    ℕ → Map BlockHash BlockHeader → BlockHash → List BlockHeader → Option (List BlockHeader)
walk_back zero m blockhash chain = none
walk_back (suc fuel) m blockhash chain =
    let rest = (do
      header ← Maps.get blockhash m
      walk_back fuel (Maps.remove blockhash m) header.prev_blockhash (header ∷ chain)) in
    if blockhash == null_hash then some chain else rest

module _ (block_hash : BlockHeader → BlockHash) where
  -- The assertion of `order` on neighbours.
  unfoldable pub linked : List BlockHeader → Bool
  linked [] = true
  linked (a ∷ []) = true
  linked (a ∷ b ∷ hs) = (b.prev_blockhash == block_hash a) && linked (b ∷ hs)

  -- `(new_height..).zip(hashed_headers)`
  unfoldable pub number : ℕ → List BlockHeader → List HeaderEntry
  number height [] = []
  number height (h ∷ hs) =
      record { height = height; hash = block_hash h; header = h } ∷ number (suc height) hs

  unfoldable pub new_height : HeaderList → BlockHash → Option ℕ
  new_height l prev =
      if prev == null_hash
      then some 0
      else Option.map (λ (e : HeaderEntry). e.height + 1) (header_by_blockhash l prev)

  unfoldable pub order : HeaderList → List BlockHeader → Option (List HeaderEntry)
  unfolding new_height number
  order l [] = some []
  order l (h ∷ hs) = do
    assert (linked (h ∷ hs))
    height ← new_height l h.prev_blockhash
    some (number height (h ∷ hs))

  unfoldable pub new : Map BlockHash BlockHeader → BlockHash → Option HeaderList
  unfolding walk_back order
  new headers_map tip_hash = do
    chain ← walk_back (length headers_map + 1) headers_map tip_hash []
    entries ← order empty chain
    (l, _, _) ← apply empty entries
    some l
