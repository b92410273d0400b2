-- ===== src/Imports/Levels.antt =====
-- trading.py: whether a price has reached a level of a trade (did_trade_reach_level), and what the check of
-- the levels means for it.
use fxjournal.Prelude.{
  ℕ, ◌≡◌, refl, Bool, true, false, not, Option, none, some, if◌then◌else◌, arith,
}
use fxjournal.Prelude.Int.{ℤ, pos, ◌+ℤ◌, abs, ltb_ℤ, neg}
use fxjournal.Prelude.Text.{Text}
use fxjournal.Imports.{
  close_or_wrong, get_trade_level_validation_issues, is_close, is_sell, level_issues,
}

pub data LevelKind : Type 0 where
  tp sl other_level : LevelKind

abbrev is_at_most : ℤ → ℤ → Bool
is_at_most a b = not (ltb_ℤ b a)

abbrev reaches : ℕ → ℤ → ℤ → Bool → LevelKind → Bool
reaches tolerance observed level sell tp =
    if sell
    then is_at_most observed (level +ℤ pos tolerance)
    else is_at_most (level +ℤ neg (pos tolerance)) observed
reaches tolerance observed level sell sl =
    if sell
    then is_at_most (level +ℤ neg (pos tolerance)) observed
    else is_at_most observed (level +ℤ pos tolerance)
reaches tolerance observed level sell other_level = false

abbrev reached_by : ℕ → ℤ → Option ℤ → Bool → LevelKind → Bool
reached_by tolerance observed none sell kind = false
reached_by tolerance observed (some level) sell kind = reaches tolerance observed level sell kind

-- A side that is missing counts as BUY, like every one that is not SELL up to case and spaces.
unfoldable pub did_trade_reach_level : ℕ → Option ℤ → Option ℤ → Text → LevelKind → Bool
did_trade_reach_level tolerance none level side kind = false
did_trade_reach_level tolerance (some observed) level side kind =
    reached_by tolerance observed level (is_sell side) kind

-- A level that is neither close nor below, where it may not lie below, lies above by more than the
-- tolerance, and the other way round.
clear_above :
    (tolerance : ℕ) (entry level : ℤ)
    → is_close tolerance level entry ≡ false
    → ltb_ℤ level (entry +ℤ neg (pos tolerance)) ≡ false
    → is_at_most (level +ℤ neg (pos tolerance)) entry ≡ false
unfolding ◌+ℤ◌ neg abs
clear_above tolerance entry level close side = ground arith

clear_below :
    (tolerance : ℕ) (entry level : ℤ)
    → is_close tolerance level entry ≡ false
    → ltb_ℤ (entry +ℤ pos tolerance) level ≡ false
    → is_at_most entry (level +ℤ pos tolerance) ≡ false
unfolding ◌+ℤ◌ neg abs
clear_below tolerance entry level close side = ground arith

no_issue :
    (close wrong : Bool)
    → (close_or_wrong close wrong).0 ≡ false
    → (close_or_wrong close wrong).1 ≡ false
    → (close ≡ false) × (wrong ≡ false)
no_issue true wrong h k = cc
no_issue false wrong h k = (refl, k)

-- The tests of one level, by the side that it may not lie on.
unreached_above :
    (tolerance : ℕ) (entry : ℤ) (level : ℤ)
    → (level_issues tolerance entry true (some level)).0 ≡ false
    → (level_issues tolerance entry true (some level)).1 ≡ false
    → is_at_most (level +ℤ neg (pos tolerance)) entry ≡ false
unreached_above tolerance entry level h k =
    let clear =
      no_issue (is_close tolerance level entry) (ltb_ℤ level (entry +ℤ neg (pos tolerance))) h k in
    clear_above tolerance entry level clear.0 clear.1

unreached_below :
    (tolerance : ℕ) (entry : ℤ) (level : ℤ)
    → (level_issues tolerance entry false (some level)).0 ≡ false
    → (level_issues tolerance entry false (some level)).1 ≡ false
    → is_at_most entry (level +ℤ pos tolerance) ≡ false
unreached_below tolerance entry level h k =
    let clear =
      no_issue (is_close tolerance level entry) (ltb_ℤ (entry +ℤ pos tolerance) level) h k in
    clear_below tolerance entry level clear.0 clear.1

stop_unreached :
    (tolerance : ℕ) (entry : ℤ) (stop : Option ℤ) (sell : Bool)
    → (level_issues tolerance entry sell stop).0 ≡ false
    → (level_issues tolerance entry sell stop).1 ≡ false
    → reached_by tolerance entry stop sell sl ≡ false
stop_unreached tolerance entry none sell h k = refl
stop_unreached tolerance entry (some stop) true h k = unreached_above tolerance entry stop h k
stop_unreached tolerance entry (some stop) false h k = unreached_below tolerance entry stop h k

take_unreached :
    (tolerance : ℕ) (entry : ℤ) (take : Option ℤ) (sell : Bool)
    → (level_issues tolerance entry (not sell) take).0 ≡ false
    → (level_issues tolerance entry (not sell) take).1 ≡ false
    → reached_by tolerance entry take sell tp ≡ false
take_unreached tolerance entry none sell h k = refl
take_unreached tolerance entry (some take) true h k = unreached_below tolerance entry take h k
take_unreached tolerance entry (some take) false h k = unreached_above tolerance entry take h k

-- Levels that the check of the levels of a trade finds no issue with are not reached by its entry price: neither the stop loss nor the take profit, for whatever text of the side.
pub valid_levels_are_ahead :
    (tolerance : ℕ) (entry : ℤ) (stop take : Option ℤ) (side : Text)
    → (get_trade_level_validation_issues tolerance entry stop take side).stop_loss_too_close ≡ false
    → (get_trade_level_validation_issues tolerance entry stop take side).invalid_stop_loss_side
      ≡ false
    → (get_trade_level_validation_issues tolerance entry stop take side).take_profit_too_close
      ≡ false
    → (get_trade_level_validation_issues tolerance entry stop take side).invalid_take_profit_side
      ≡ false
    → (did_trade_reach_level tolerance (some entry) stop side sl ≡ false)
      × (did_trade_reach_level tolerance (some entry) take side tp ≡ false)
unfolding get_trade_level_validation_issues did_trade_reach_level
valid_levels_are_ahead tolerance entry stop take side a b c d = (
  stop_unreached tolerance entry stop (is_sell side) a b,
  take_unreached tolerance entry take (is_sell side) c d,
)
