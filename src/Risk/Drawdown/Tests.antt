-- ===== src/Risk/Drawdown/Tests.antt =====
-- The drawdown guard on a concrete history.
use kalshi_trading_bot.Prelude.{
  ◌<◌, false, not, ◌&&◌, some, List, [], ◌∷◌, ◌≡◌, refl, ok, arith, All, is_empty,
}
use kalshi_trading_bot.Risk.Drawdown.{
  DrawdownGuard, Sample, normal, no_drawdown, new_drawdown_guard, is_halted, drawdown_allows,
  at_least, drawdown_from, front_equity,
}
use kalshi_trading_bot.Risk.Drawdown.Peaks.{best}
use kalshi_trading_bot.Risk.Drawdown.WindowPeak.{peaks_of, IsChronological, front_equity-peaks_of}
use kalshi_trading_bot.Risk.Drawdown.Halting.{update_all, breached, is_halted-update_all}
use kalshi_trading_bot.Risk.Drawdown.Pausing.{drawdown_allows-update_all}

-- Pauses at 10 %, halts at 20 %, with a trailing window of 100 seconds.
abbrev fresh : DrawdownGuard
fresh = record {
  pause_pct = 100000;
  halt_pct = 200000;
  peak_window_s = some 100;
  allow_reentry_after_halt = false;
  peak_equity = 1000;
  all_time_peak = 1000;
  state = normal;
  drawdown = no_drawdown;
  drawdown_all_time = no_drawdown;
  ever_halted = false;
  peaks = [];
}

-- Newest first.
abbrev history : List Sample
history = (150, 850) ∷ (120, 900) ∷ (40, 980) ∷ (10, 1000) ∷ []

fresh_made : new_drawdown_guard 100000 200000 1000 (some 100) false ≡ ok fresh
unfolding new_drawdown_guard
fresh_made = refl

positive : All (λ s. 0 < s.1) history
positive = omega arith

All-positive : All (λ s. 0 < s.1) ((160, 860) ∷ history)
All-positive = omega arith

in_order : IsChronological 160 history
in_order = omega arith

front_equity-peaks_of_example :
    (is_empty (peaks_of 100 ((160, 860) ∷ history)) ≡ false)
    × (front_equity (peaks_of 100 ((160, 860) ∷ history)) ≡ best 100 160 ((160, 860) ∷ history))
front_equity-peaks_of_example = front_equity-peaks_of 100 160 860 history (omega arith) in_order

is_halted-update_all_example :
    is_halted (update_all history fresh).state ≡ breached 200000 1000 history
is_halted-update_all_example =
    is_halted-update_all 100000 200000 1000 (some 100) history fresh_made positive

drawdown_allows-update_all_example :
    drawdown_allows (update_all ((160, 860) ∷ history) fresh)
    ≡ not (breached 200000 1000 ((160, 860) ∷ history))
      && not (at_least (drawdown_from (best 100 160 ((160, 860) ∷ history)) 860) 100000)
drawdown_allows-update_all_example =
    drawdown_allows-update_all 100000 200000 1000 100 160 860 history fresh_made All-positive
      in_order
