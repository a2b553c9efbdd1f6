-- ===== src/Risk/Drawdown/Peaks.antt =====
-- The monotone deque of `DrawdownGuard` (src/kalshi_bot/risk/drawdown_guard.py): what each loop of
-- `_window_peak` keeps.
use Prim.Native.Nat.{max}
use kalshi_trading_bot.Prelude.{
  ℕ, ◌+◌, ◌≤◌, false, ◌≡◌, refl, List, [], ◌∷◌, ◌++◌, ltb, leb, ◌&&◌, if◌then◌else◌, arith, inl,
  inr, Bool-cases, All, is_empty,
}
use kalshi_trading_bot.Risk.Drawdown.{Sample, pop_smaller, pop_expired}

-- The greatest equity among the samples in the window that ends at `now`; 0 if there is none.
abbrev pub best : ℕ → ℕ → List Sample → ℕ
best window now [] = 0
best window now (sample ∷ samples) =
    max (if ltb now (sample.0 + window) then sample.1 else 0) (best window now samples)

-- Every sample is at `now` or before.
abbrev pub AllBefore : ℕ → List Sample → Type 0
AllBefore now samples = All (λ s. s.0 ≤ now) samples

-- No later sample has a greater equity.
abbrev pub IsDescending : List Sample → Type 0
IsDescending [] = Unit
IsDescending (sample ∷ samples) = All (λ s. s.1 ≤ sample.1) samples × IsDescending samples

pub All-pop_smaller :
    (P : Sample → Type 0) (equity : ℕ) (samples : List Sample)
    → All P samples
    → All P (pop_smaller equity samples)
unfolding pop_smaller
All-pop_smaller P equity [] h = tt
All-pop_smaller P equity (s ∷ samples) (p, h) =
    elim (Bool-cases (is_empty (pop_smaller equity samples) && leb s.1 equity)) [
      | inl gone ↦ rw gone tt
      | inr kept ↦ rw kept (p, All-pop_smaller P equity samples h)
    ]

pub All-pop_expired :
    (P : Sample → Type 0) (window now : ℕ) (samples : List Sample)
    → All P samples
    → All P (pop_expired window now samples)
unfolding pop_expired
All-pop_expired P window now [] h = tt
All-pop_expired P window now (s ∷ samples) (p, h) = elim (Bool-cases (leb (s.0 + window) now)) [
  | inl gone ↦ rw gone (All-pop_expired P window now samples h)
  | inr kept ↦ rw kept (p, All-pop_expired P window now samples h)
]

pub All-snoc :
    (P : Sample → Type 0) (samples : List Sample) (s : Sample)
    → All P samples
    → P s
    → All P (samples ++ s ∷ [])
All-snoc P [] s h p = (p, tt)
All-snoc P (x ∷ samples) s (px, h) p = (px, All-snoc P samples s h p)

kept_above :
    (equity : ℕ) (s : Sample) (rest : List Sample)
    → (is_empty rest && leb s.1 equity) ≡ false
    → All (λ x. equity ≤ x.1) rest
    → All (λ x. x.1 ≤ s.1) rest
    → equity ≤ s.1
kept_above equity s [] kept above below = ground arith
kept_above equity s (x ∷ rest) kept above below = ground arith

-- What stays is above the new equity.
above-pop_smaller :
    (equity : ℕ) (samples : List Sample)
    → IsDescending samples
    → All (λ s. equity ≤ s.1) (pop_smaller equity samples)
unfolding pop_smaller
above-pop_smaller equity [] h = tt
above-pop_smaller equity (s ∷ samples) (below, h) =
    let rest = pop_smaller equity samples in
    let above = above-pop_smaller equity samples h in
    elim (Bool-cases (is_empty rest && leb s.1 equity)) [
      | inl gone ↦ rw gone tt
      | inr kept ↦ rw kept (
        kept_above equity s rest kept above (All-pop_smaller (λ x. x.1 ≤ s.1) equity samples below),
        above,
      )
    ]

pub IsDescending-pop_smaller :
    (equity : ℕ) (samples : List Sample)
    → IsDescending samples
    → IsDescending (pop_smaller equity samples)
unfolding pop_smaller
IsDescending-pop_smaller equity [] h = tt
IsDescending-pop_smaller equity (s ∷ samples) (below, h) =
    elim (Bool-cases (is_empty (pop_smaller equity samples) && leb s.1 equity)) [
      | inl gone ↦ rw gone tt
      | inr kept ↦ rw kept (
        All-pop_smaller (λ x. x.1 ≤ s.1) equity samples below,
        IsDescending-pop_smaller equity samples h,
      )
    ]

pub IsDescending-pop_expired :
    (window now : ℕ) (samples : List Sample)
    → IsDescending samples
    → IsDescending (pop_expired window now samples)
unfolding pop_expired
IsDescending-pop_expired window now [] h = tt
IsDescending-pop_expired window now (s ∷ samples) (below, h) =
    elim (Bool-cases (leb (s.0 + window) now)) [
      | inl gone ↦ rw gone (IsDescending-pop_expired window now samples h)
      | inr kept ↦ rw kept (
        All-pop_expired (λ x. x.1 ≤ s.1) window now samples below,
        IsDescending-pop_expired window now samples h,
      )
    ]

IsDescending-snoc :
    (samples : List Sample) (s : Sample)
    → IsDescending samples
    → All (λ x. s.1 ≤ x.1) samples
    → IsDescending (samples ++ s ∷ [])
IsDescending-snoc [] s h above = (tt, tt)
IsDescending-snoc (x ∷ samples) s (below, h) (p, above) =
    (All-snoc (λ y. y.1 ≤ x.1) samples s below p, IsDescending-snoc samples s h above)

-- The deque stays descending when a new equity comes in at its back.
pub IsDescending-push :
    (equity now : ℕ) (samples : List Sample)
    → IsDescending samples
    → IsDescending (pop_smaller equity samples ++ (now, equity) ∷ [])
IsDescending-push equity now samples h =
    IsDescending-snoc (pop_smaller equity samples) (now, equity)
      (IsDescending-pop_smaller equity samples h) (above-pop_smaller equity samples h)

best-snoc :
    (window now : ℕ) (samples : List Sample) (s : Sample)
    → best window now (samples ++ s ∷ [])
      ≡ max (best window now samples) (if ltb now (s.0 + window) then s.1 else 0)
best-snoc window now [] s = ground arith
best-snoc window now (x ∷ samples) s = rw (best-snoc window now samples s) (omega arith)

push_step :
    (window now later equity : ℕ) (s : Sample) (before : ℕ) (rest : List Sample)
    → now ≤ later
    → s.0 ≤ now
    → best window later (rest ++ (now, equity) ∷ [])
      ≡ max before (if ltb later (now + window) then equity else 0)
    → best window later
        ((if is_empty rest && leb s.1 equity then [] else s ∷ rest) ++ (now, equity) ∷ [])
      ≡ max
          (max (if ltb later (s.0 + window) then s.1 else 0) before)
          (if ltb later (now + window) then equity else 0)
push_step window now later equity s before [] le old h = ground arith
push_step window now later equity s before (x ∷ rest) le old h = rw h (omega arith)

-- The popped samples are older and smaller than the new one, so the best equity of any later
-- window is the same as if nothing had been popped.
pub best-push :
    (window now later equity : ℕ) (samples : List Sample)
    → now ≤ later
    → AllBefore now samples
    → best window later (pop_smaller equity samples ++ (now, equity) ∷ [])
      ≡ max (best window later samples) (if ltb later (now + window) then equity else 0)
unfolding pop_smaller
best-push window now later equity [] le h = ground arith
best-push window now later equity (s ∷ samples) le (before, h) =
    push_step window now later equity s (best window later samples) (pop_smaller equity samples) le
      before (best-push window now later equity samples le h)

-- What has expired lies outside every later window.
pub best-pop_expired :
    (window now later : ℕ) (samples : List Sample)
    → now ≤ later
    → best window later (pop_expired window now samples) ≡ best window later samples
unfolding pop_expired
best-pop_expired window now later [] le = refl
best-pop_expired window now later (s ∷ samples) le =
    ground (arith, best-pop_expired window now later samples le)
