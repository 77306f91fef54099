-- ===== src/Headers/MedianTime.antt =====
-- `get_mtp`: the median of the last eleven timestamps.

use splora.Common.{
  ℕ, zero, suc, ◌+◌, ◌-◌, ◌*◌, ◌≤◌, ◌<◌, ◌≡◌, refl, ap, false, some, List, [], ◌∷◌, arith, leb, ltb,
  ◌==◌, length, get_elem?, get_elem?-some,
}
use Prim.Native.Nat.{min}
use splora.Common.Sort.{count_if, sort_median}
use splora.Headers.{HeaderEntry, HeaderList, timestamps, get_mtp}

-- The timestamps at the given places are those of the entries there.
abbrev pub AreTimes : List HeaderEntry → ℕ → List ℕ → Type 0
AreTimes es i [] = Unit
AreTimes es i (t ∷ ts) =
    (e : HeaderEntry) × (get_elem? es i ≡ some e) × (e.header.time ≡ t) × AreTimes es (suc i) ts

timestamps_lem :
    (l : HeaderList) (start count : ℕ)
    → start + count ≤ length l.headers
    → (ts : List ℕ) × (timestamps l start count ≡ some ts)
      × (length ts ≡ count)
      × AreTimes l.headers start ts
unfolding timestamps
timestamps_lem l start zero h = ([], refl, refl, tt)
timestamps_lem l start (suc n) h =
    let (e, at) = get_elem?-some l.headers start (omega arith) in
    let (ts, rest, len, times) = timestamps_lem l (suc start) n (omega arith) in
    (e.header.time ∷ ts, rw (at, rest), ap suc len, (e, at, refl, times))

-- Above the genesis block and up to the tip, the median time past exists: the window holds the
-- timestamps of the last eleven entries up to this height, or of all where there are fewer, and
-- the result is a median of it: more than half of them are at or below, at least half at or above.
pub get_mtp_median :
    (l : HeaderList) (height : ℕ)
    → 0 < height
    → height < length l.headers
    → (ts : List ℕ) × (m : ℕ) × (get_mtp l height ≡ some m)
      × (length ts ≡ min 11 (height + 1))
      × AreTimes l.headers (height - 10) ts
      × (length ts < 2 * count_if (λ t. leb t m) ts)
      × (length ts ≤ 2 * count_if (λ t. leb m t) ts)
unfolding get_mtp
get_mtp_median l height low high =
    let start = height - 10 in
    let (ts, at, len, times) = timestamps_lem l start (height + 1 - start) (omega arith) in
    let (m, middle, below, above) = sort_median ts (omega (arith, len)) in
    let tested : (height == 0) ≡ false = ground arith in
    let filled : (length l.headers == 0) ≡ false = ground arith in
    let inside : ltb (length l.headers - 1) height ≡ false = ground arith in
    (ts, m, rw (tested, filled, inside, at) middle, omega (arith, len), times, below, above)
