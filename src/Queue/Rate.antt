-- ===== src/Queue/Rate.antt =====
-- src/queue.rs: `rate_ok`, called again and again with the hits it left.
use splora.Common.{
  ℕ, suc, ◌+◌, ◌-◌, ◌%◌, ◌^◌, ◌≤◌, ◌<◌, Bool, true, false, ◌&&◌, ◌≡◌, refl, sym, ap, ◌∙◌, List, [],
  ◌∷◌, ◌++◌, ltb, leb, if◌then◌else◌, arith, inl, inr, Bool-cases, length, leb→le,
}
use splora.Queue.{retain_recent, rate_ok}

-- The accepted calls, the last first, for calls at these times.
unfoldable pub accepted : ℕ → ℕ → List ℕ → List ℕ → List ℕ → List ℕ
unfolding rate_ok
accepted window max hits log [] = log
accepted window max hits log (now ∷ times) =
    let (hits', allowed) = rate_ok hits now window max in
    accepted window max hits' (if allowed then now ∷ log else log) times

abbrev pub ascending : ℕ → List ℕ → Bool
ascending last [] = true
ascending last (t ∷ ts) = leb last t && ascending t ts

-- How many of these times are at most `t` and less than the window before it.
abbrev pub count_within : ℕ → ℕ → List ℕ → ℕ
count_within window t [] = 0
count_within window t (x ∷ xs) =
    (if leb x t && ltb (t - x) window then 1 else 0) + count_within window t xs

abbrev all_le : ℕ → List ℕ → Bool
all_le last [] = true
all_le last (x ∷ xs) = leb x last && all_le last xs

record IsCounted (window max last : ℕ) (hits log : List ℕ) : Type 0 where
  past : all_le last log ≡ true
  agreed :
      (now : ℕ) → last ≤ now → count_within window now log ≡ length (retain_recent now window hits)
  bounded : (t : ℕ) → count_within window t log ≤ max

all_le_mono : (a b : ℕ) (xs : List ℕ) → a ≤ b → all_le a xs ≡ true → all_le b xs ≡ true
all_le_mono a b [] h p = refl
all_le_mono a b (x ∷ xs) h p = ground (arith, all_le_mono a b xs, h, p)

-- A later window holds no more of the times before both.
count_within_mono :
    (window a t : ℕ) (xs : List ℕ)
    → all_le a xs ≡ true
    → a ≤ t
    → count_within window t xs ≤ count_within window a xs
count_within_mono window a t [] p h = omega arith
count_within_mono window a t (x ∷ xs) p h = ground (arith, count_within_mono window a t xs, p, h)

retain_recent-twice :
    (window a b : ℕ) (xs : List ℕ)
    → a ≤ b
    → retain_recent b window (retain_recent a window xs) ≡ retain_recent b window xs
unfolding retain_recent
retain_recent-twice window a b [] h = refl
retain_recent-twice window a b (x ∷ xs) h = ground (arith, retain_recent-twice window a b xs, h)

retain_recent-append :
    (window b a : ℕ) (xs : List ℕ)
    → length (retain_recent b window (xs ++ a ∷ []))
      ≡ length (retain_recent b window xs) + (if ltb (b - a) window then 1 else 0)
unfolding retain_recent
retain_recent-append window b a [] = ground arith
retain_recent-append window b a (x ∷ xs) = ground (arith, retain_recent-append window b a xs)

module _ (window max last now : ℕ) (hits log : List ℕ) (small : max < 2 ^ 32) (le : last ≤ now)
    (c : IsCounted window max last hits log) where
  recent_le : length (retain_recent now window hits) ≤ max
  recent_le = omega (arith, c.agreed now le, c.bounded now)

  refused-IsCounted : IsCounted window max now (retain_recent now window hits) log
  refused-IsCounted = record {
    past = all_le_mono last now log le c.past;
    agreed =
        λ b h. c.agreed b (omega arith) ∙ ap length (sym (retain_recent-twice window now b hits h));
    bounded = c.bounded;
  }

  room :
      leb max (length (retain_recent now window hits) % 2 ^ 32) ≡ false
      → suc (length (retain_recent now window hits)) ≤ max
  room free = ground (arith, free, recent_le, small)

  accepted-IsCounted :
      leb max (length (retain_recent now window hits) % 2 ^ 32) ≡ false
      → IsCounted window max now (retain_recent now window hits ++ now ∷ []) (now ∷ log)
  accepted-IsCounted free = record {
    past = ground (arith, all_le_mono last now log le c.past);
    agreed = λ b h. ground (
      arith,
      h,
      retain_recent-append window b now (retain_recent now window hits),
      retain_recent-twice window now b hits h,
      c.agreed b,
    );
    bounded = λ t. ground (
      arith,
      room free,
      c.agreed now le,
      c.bounded t,
      count_within_mono window now t log (all_le_mono last now log le c.past),
    );
  }

accepted-bounded :
    (window max last : ℕ) (hits log times : List ℕ)
    → max < 2 ^ 32
    → ascending last times ≡ true
    → IsCounted window max last hits log
    → (t : ℕ) → count_within window t (accepted window max hits log times) ≤ max
unfolding accepted rate_ok
accepted-bounded window max last hits log [] small up c t = c.bounded t
accepted-bounded window max last hits log (now ∷ times) small up c t =
    let le : last ≤ now = leb→le last now (ground (arith, up)) in
    elim (Bool-cases (leb max (length (retain_recent now window hits) % 2 ^ 32))) [
      | inl full ↦ rw full (
          accepted-bounded window max now (retain_recent now window hits) log times small
            (ground (arith, up)) (refused-IsCounted window max last now hits log small le c) t)
      | inr free ↦ rw free (
          accepted-bounded window max now (retain_recent now window hits ++ now ∷ []) (now ∷ log)
            times small (ground (arith, up))
            (accepted-IsCounted window max last now hits log small le c free) t)
    ]

-- However often a limit is asked, at times that do not go back, it allows at most `max` calls within
-- any span as long as the window.
pub rate_ok_window :
    (window max : ℕ) (times : List ℕ) (t : ℕ)
    → max < 2 ^ 32
    → ascending 0 times ≡ true
    → count_within window t (accepted window max [] [] times) ≤ max
unfolding retain_recent
rate_ok_window window max times t small up =
    accepted-bounded window max 0 [] [] times small up
      (record { past = refl; agreed = λ now h. refl; bounded = λ u. omega arith }) t
