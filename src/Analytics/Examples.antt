-- ===== src/Analytics/Examples.antt =====
-- Tests of the analytics, and the theorem at a concrete input.
use fxjournal.Prelude.{◌≡◌, refl, none, some, List, [], ◌∷◌}
use fxjournal.Prelude.Int.{ℤ, pos, negsuc}
use fxjournal.Analytics.{calculate_streaks, h1, m15, m5, select_chart_timeframe}
use fxjournal.Analytics.Runs.{best_streaks_are_longest, is_loss, is_win, longest_run}

abbrev results : List ℤ
results = pos 3 ∷ pos 4 ∷ negsuc 0 ∷ pos 0 ∷ negsuc 1 ∷ negsuc 2 ∷ negsuc 3 ∷ pos 1 ∷ []

two_wins : (calculate_streaks results).best_win_streak ≡ 2
unfolding calculate_streaks
two_wins = refl

three_losses : (calculate_streaks results).best_loss_streak ≡ 3
unfolding calculate_streaks
three_losses = refl

short_hold : select_chart_timeframe (some 0) (some 43200) ≡ m5
unfolding select_chart_timeframe
short_hold = refl

long_hold : select_chart_timeframe (some 0) (some 259201) ≡ h1
unfolding select_chart_timeframe
long_hold = refl

open_hold : select_chart_timeframe (some 0) none ≡ m15
unfolding select_chart_timeframe
open_hold = refl

best_streaks_are_longest_example :
    ((calculate_streaks results).best_win_streak ≡ longest_run is_win results)
    × ((calculate_streaks results).best_loss_streak ≡ longest_run is_loss results)
best_streaks_are_longest_example = best_streaks_are_longest results
