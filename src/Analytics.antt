-- ===== src/Analytics.antt =====
-- trading.py: the streaks of closed trades, the timeframe of a chart, and bars rolled up into longer ones.
-- Numbers are whole units of their last digit.
mod Runs
mod Examples
use fxjournal.Prelude.{
  ℕ, suc, ◌+◌, ◌*◌, ◌-◌, ◌/◌, ◌==◌, max, min, Bool, true, false, Option, none, some, List, [], ◌∷◌,
  ◌++◌, if◌then◌else◌, leb,
}
use fxjournal.Prelude.Int.{ℤ, pos, ltb_ℤ}

pub data StreakType : Type 0 where
  no_streak win loss breakeven : StreakType

pub record Streaks : Type 0 where
  pub current_type : StreakType
  pub current_length : ℕ
  pub best_win_streak : ℕ
  pub best_loss_streak : ℕ

abbrev pub streak_type : ℤ → StreakType
streak_type pnl_value =
    if ltb_ℤ (pos 0) pnl_value then win else if ltb_ℤ pnl_value (pos 0) then loss else breakeven

abbrev pub same_type : StreakType → StreakType → Bool
same_type no_streak no_streak = true
same_type win win = true
same_type loss loss = true
same_type breakeven breakeven = true
same_type _ _ = false

abbrev pub best_with : StreakType → Streaks → Streaks
best_with win s = record s { best_win_streak = max s.best_win_streak s.current_length }
best_with loss s = record s { best_loss_streak = max s.best_loss_streak s.current_length }
best_with _ s = s

-- One turn of the loop.
abbrev pub add_result : StreakType → Streaks → Streaks
add_result kind s = best_with kind (
    if same_type kind s.current_type
    then record s { current_length = suc s.current_length }
    else record s { current_type = kind; current_length = 1 })

abbrev pub add_results : List ℤ → Streaks → Streaks
add_results [] s = s
add_results (pnl ∷ records) s = add_results records (add_result (streak_type pnl) s)

abbrev pub no_results : Streaks
no_results = record {
  current_type = no_streak;
  current_length = 0;
  best_win_streak = 0;
  best_loss_streak = 0;
}

unfoldable pub calculate_streaks : List ℤ → Streaks
calculate_streaks records = add_results records no_results

pub data Timeframe : Type 0 where
  m5 m15 h1 : Timeframe

-- Times are seconds; a trade that ends before it begins has a negative time, which is at most twelve hours.
unfoldable pub select_chart_timeframe : Option ℕ → Option ℕ → Timeframe
select_chart_timeframe (some opened_at) (some closed_at) =
    if leb closed_at (opened_at + 12 * 3600)
    then m5
    else if leb closed_at (opened_at + 3 * 24 * 3600)
    then m15
    else h1
select_chart_timeframe _ _ = m15
