-- ===== src/Risk/Throttle/Window.antt =====
-- One deque of `EntryThrottle` (src/kalshi_bot/risk/entry_throttle.py): in ascending order, and what
-- pruning keeps.
use kalshi_trading_bot.Prelude.{
  Bool, true, false, ℕ, ◌+◌, ◌≤◌, ◌<◌, ◌≡◌, refl, List, [], ◌∷◌, ◌++◌, ltb, leb, if◌then◌else◌,
  length, arith, ◌&&◌, inl, inr, Bool-cases,
}
use kalshi_trading_bot.Risk.Throttle.{prune_times}

-- The number of entries that lie in the window that ends at `now`.
abbrev pub recent : ℕ → ℕ → List ℕ → ℕ
recent window now [] = 0
recent window now (time ∷ times) =
    (if ltb now (time + window) then 1 else 0) + recent window now times

-- In ascending order, from `lo` up to `hi`.
abbrev pub IsAscending : ℕ → ℕ → List ℕ → Type 0
IsAscending lo hi [] = lo ≤ hi
IsAscending lo hi (time ∷ times) = (lo ≤ time) × IsAscending time hi times

pub IsAscending-lower :
    (lo lo' hi : ℕ) (times : List ℕ) → lo' ≤ lo → IsAscending lo hi times → IsAscending lo' hi times
IsAscending-lower lo lo' hi [] le h = omega arith
IsAscending-lower lo lo' hi (time ∷ times) le (h, rest) = (omega arith, rest)

pub IsAscending-raise :
    (lo hi hi' : ℕ) (times : List ℕ) → hi ≤ hi' → IsAscending lo hi times → IsAscending lo hi' times
IsAscending-raise lo hi hi' [] le h = omega arith
IsAscending-raise lo hi hi' (time ∷ times) le (h, rest) =
    (h, IsAscending-raise time hi hi' times le rest)

pub IsAscending-append :
    (lo hi now : ℕ) (times : List ℕ)
    → hi ≤ now
    → IsAscending lo hi times
    → IsAscending lo now (times ++ now ∷ [])
IsAscending-append lo hi now [] le h = (omega arith, omega arith)
IsAscending-append lo hi now (time ∷ times) le (h, rest) =
    (h, IsAscending-append time hi now times le rest)

pub IsAscending-prune_times :
    (window now lo hi : ℕ) (times : List ℕ)
    → IsAscending lo hi times
    → IsAscending lo hi (prune_times window now times)
unfolding prune_times
IsAscending-prune_times window now lo hi [] h = h
IsAscending-prune_times window now lo hi (time ∷ times) (h, rest) =
    let kept =
      IsAscending-lower time lo hi (prune_times window now times) h
        (IsAscending-prune_times window now time hi times rest) in
    elim (Bool-cases (leb (time + window) now)) [
      | inl old ↦ rw old kept
      | inr new ↦ rw new (h, rest)
    ]

-- What pruning drops lies outside every later window.
pub recent-prune_times :
    (window now later : ℕ) (times : List ℕ)
    → now ≤ later
    → recent window later (prune_times window now times) ≡ recent window later times
unfolding prune_times
recent-prune_times window now later [] le = refl
recent-prune_times window now later (time ∷ times) le =
    ground (arith, recent-prune_times window now later times le)

recent_all :
    (window now lo hi : ℕ) (times : List ℕ)
    → now < lo + window
    → IsAscending lo hi times
    → recent window now times ≡ length times
recent_all window now lo hi [] lt h = refl
recent_all window now lo hi (time ∷ times) lt (h, rest) =
    ground (arith, recent_all window now time hi times)

pub length-prune_times :
    (window now lo hi : ℕ) (times : List ℕ)
    → IsAscending lo hi times
    → length (prune_times window now times) ≡ recent window now times
unfolding prune_times
length-prune_times window now lo hi [] h = refl
length-prune_times window now lo hi (time ∷ times) (h, rest) =
    ground
      (arith, length-prune_times window now time hi times rest, recent_all window now time hi times)

pub recent-append :
    (window now time : ℕ) (times : List ℕ)
    → recent window now (times ++ time ∷ [])
      ≡ recent window now times + (if ltb now (time + window) then 1 else 0)
recent-append window now time [] = ground arith
recent-append window now time (t ∷ times) = ground (arith, recent-append window now time times)

pub asked-IsAscending :
    (window now latest : ℕ) (times : List ℕ) (mine : Bool)
    → latest ≤ now
    → IsAscending 0 latest times
    → IsAscending 0 now (if mine then prune_times window now times else times)
asked-IsAscending window now latest times true le h =
    IsAscending-prune_times window now 0 now times (IsAscending-raise 0 latest now times le h)
asked-IsAscending window now latest times false le h = IsAscending-raise 0 latest now times le h

pub asked_recent :
    (window now later : ℕ) (times : List ℕ) (mine : Bool)
    → now ≤ later
    → recent window later (if mine then prune_times window now times else times)
      ≡ recent window later times
asked_recent window now later times true le = recent-prune_times window now later times le
asked_recent window now later times false le = refl

pub entered-IsAscending :
    (now latest : ℕ) (times : List ℕ) (mine : Bool)
    → latest ≤ now
    → IsAscending 0 latest times
    → IsAscending 0 now (if mine then times ++ now ∷ [] else times)
entered-IsAscending now latest times true le h = IsAscending-append 0 latest now times le h
entered-IsAscending now latest times false le h = IsAscending-raise 0 latest now times le h

pub entered_recent :
    (window now later : ℕ) (times : List ℕ) (mine : Bool)
    → recent window later (if mine then times ++ now ∷ [] else times)
      ≡ recent window later times + (if mine && ltb later (now + window) then 1 else 0)
entered_recent window now later times true = recent-append window later now times
entered_recent window now later times false = omega arith
