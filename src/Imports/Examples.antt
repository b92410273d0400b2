-- ===== src/Imports/Examples.antt =====
-- Tests of the import, and the theorems at concrete inputs.
use mathlib.Core.List.{reverse}
use fxjournal.Prelude.{
  ◌≡◌, refl, Bool, true, false, none, some, List, [], ◌∷◌, ◌++◌, all_of, length, map,
}
use fxjournal.Prelude.Int.{pos, ◌+ℤ◌, abs, neg}
use fxjournal.Prelude.Text.{codes, drop_while, same_text, strip, strip_by, upper}
use fxjournal.Imports.{
  AccountType, cfd, futures, Batch, Catalogue, Row, build_normalized_trade_insert_batch,
  build_trade_duplicate_key, compares_values, get_trade_level_validation_issues, judge, key_of,
  refresh_duplicates, same_key, stored_keys,
}
use fxjournal.Imports.Again.{import_again}
use fxjournal.Imports.Fresh.{IsNewTo, import_inserts_once}
use fxjournal.Imports.Levels.{did_trade_reach_level, sl, tp, valid_levels_are_ahead}
use fxjournal.Imports.Valid.{import_inserts_valid, is_valid}

abbrev catalogue : Catalogue
catalogue = record {
  canonicalize_symbol = λ _ symbol. symbol;
  is_allowed = λ _ symbol. same_text symbol (codes "EURUSD");
  snap_trade_price_to_tick = λ _ _ price. price;
  get_trade_price_tolerance = λ _ _ _. 10;
  calc_pnl_values = λ _ _ _ _ entry_price exit_price _. some (exit_price +ℤ neg entry_price);
}

abbrev closed_row : Row
closed_row = record {
  symbol = codes "EURUSD";
  contract_code = none;
  side = codes " buy ";
  lot_size = some (pos 100);
  entry_price = some (pos 1000);
  exit_price = some (pos 1200);
  pnl = none;
  opened_at = some 10;
  closed_at = some 20;
  stop_loss = some (pos 900);
  take_profit = none;
  mt5_position = some (codes "77");
  mt5_position_raw = codes "77";
  commission = none;
  swap = none;
}

abbrev rows : List Row
rows =
    closed_row
    ∷ closed_row
    ∷ record closed_row { symbol = codes "???" }
    ∷ record closed_row { mt5_position = some (codes "78") }
    ∷ record closed_row { mt5_position = some (codes "79"); stop_loss = some (pos 1100) }
    ∷ []

abbrev batch : AccountType → Bool → Batch
batch kind only = build_normalized_trade_insert_batch catalogue kind only [] rows

inserts_two : length (batch cfd true).insert_batch ≡ 2
unfolding build_normalized_trade_insert_batch judge get_trade_level_validation_issues same_key
    same_text upper strip strip_by drop_while ◌+ℤ◌ abs neg
inserts_two = refl

inserts_one_by_values : length (batch futures false).insert_batch ≡ 1
unfolding build_normalized_trade_insert_batch judge get_trade_level_validation_issues same_key
    same_text upper strip strip_by drop_while ◌+ℤ◌ abs neg build_trade_duplicate_key
    refresh_duplicates
inserts_one_by_values = refl

import_inserts_valid_example :
    all_of (is_valid catalogue futures) (batch futures false).insert_batch ≡ true
import_inserts_valid_example = import_inserts_valid catalogue futures false [] rows

import_inserts_once_example :
    IsNewTo
      (stored_keys catalogue cfd (compares_values cfd true) [])
      (map (key_of (compares_values cfd true)) (reverse (batch cfd true).insert_batch))
import_inserts_once_example = import_inserts_once catalogue cfd true [] rows

import_again_example :
    (build_normalized_trade_insert_batch catalogue futures false
      ((batch futures false).existing ++ (batch futures false).insert_batch)
      rows).insert_batch
    ≡ []
import_again_example = import_again catalogue futures false [] rows refl

valid_levels_are_ahead_example :
    (did_trade_reach_level 10 (some (pos 1000)) (some (pos 1100)) (codes " sell") sl ≡ false)
    × (did_trade_reach_level 10 (some (pos 1000)) (some (pos 900)) (codes " sell") tp ≡ false)
unfolding get_trade_level_validation_issues same_text upper strip strip_by drop_while ◌+ℤ◌ abs neg
valid_levels_are_ahead_example =
    valid_levels_are_ahead 10 (pos 1000) (some (pos 1100)) (some (pos 900)) (codes " sell") refl
      refl refl refl
