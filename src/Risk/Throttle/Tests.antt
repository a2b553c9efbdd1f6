-- ===== src/Risk/Throttle/Tests.antt =====
-- The throttle on concrete calls.
use kalshi_trading_bot.Prelude.{List, [], ◌∷◌, ◌≡◌, refl, ok, ltb, arith}
use kalshi_trading_bot.Risk.Throttle.{EntryThrottle, new_throttle, throttle_allows}
use kalshi_trading_bot.Risk.Throttle.Calls.{Call, ask, enter, after_all, IsChronological, recorded}
use kalshi_trading_bot.Risk.Throttle.History.{throttle_allows-after_all}

abbrev fresh : EntryThrottle
fresh = record { max_entries = 2; window_s = 60; entries = [] }

-- Newest first.
abbrev calls : List Call
calls =
    enter "KXBTC" 130
    ∷ ask "KXBTC" 125
    ∷ enter "KXETH" 120
    ∷ enter "KXBTC" 90
    ∷ enter "KXBTC" 20
    ∷ []

fresh_made : new_throttle 2 60 ≡ ok fresh
unfolding new_throttle
fresh_made = refl

in_order : IsChronological 140 calls
in_order = omega arith

throttle_allows-after_all_example :
    (throttle_allows "KXBTC" 140 (after_all calls fresh)).0 ≡ ltb (recorded "KXBTC" 60 140 calls) 2
throttle_allows-after_all_example =
    throttle_allows-after_all "KXBTC" 2 60 140 calls fresh_made in_order
