-- ===== src/Deals/Examples.antt =====
-- The theorems on deals and trades, at a short history.
use fxjournal.Prelude.{◌≡◌, refl, arith, none, some, List, [], ◌∷◌, ◌≤◌, false, keep}
use fxjournal.Prelude.Int.{pos, negsuc, ◌+ℤ◌}
use fxjournal.Prelude.Text.{codes, strip, strip_by, drop_while}
use fxjournal.Deals.{
  Deal, Params, Trade, buy, aggregate_deals_to_trades, by_time, counts, counted_volume,
  weighted_total, deal_volume, add_deal, group_from, insert, is_exit, is_entry, latest,
  position_trade, weighted_average_price, volume_of,
}
use fxjournal.Deals.Totals.{
  AllTrades, IsAccounted, history_of, aggregate_deals_to_trades-IsAccounted,
}
use fxjournal.Deals.ByPosition.{trade_at, aggregates_by_position, unpriced_exit_is_lost}

abbrev opening : Deal
opening = record {
  position_id = 8;
  kind = 0;
  entry = some 0;
  time = some 100;
  volume = pos 20;
  price = pos 11000;
  commission = negsuc 6;
  swap = pos 0;
  profit = pos 0;
  symbol = codes "EURUSD";
  comment = [];
}

abbrev closing : Deal
closing = record opening {
  kind = 1;
  entry = some 1;
  time = some 300;
  price = pos 11050;
  commission = negsuc 6;
  swap = negsuc 0;
  profit = pos 1000;
}

abbrev other : Deal
other = record opening { position_id = 9; time = some 200 }

abbrev deposit : Deal
deposit = record opening {
  position_id = 0;
  kind = 2;
  entry = none;
  volume = pos 0;
  profit = pos 50000;
}

abbrev unpriced : Deal
unpriced = record closing { price = pos 0 }

abbrev params : Params
params = record { entry_in = 0; exit_entries = 1 ∷ []; deal_type_buy = 0; offset_minutes = pos 1 }

abbrev history : List Deal
history = deposit ∷ closing ∷ other ∷ opening ∷ []

abbrev lost_history : List Deal
lost_history = opening ∷ other ∷ unpriced ∷ []

abbrev closed : Trade
closed = record {
  mt5_position = 8;
  symbol = codes "EURUSD";
  side = some buy;
  entry_price = some (220000, 20);
  exit_price = some (221000, 20);
  lot_size = 20;
  pnl = some (pos 1000);
  commission = negsuc 13;
  swap = negsuc 0;
  opened_at = some (pos 40);
  closed_at = some (pos 240);
  trade_note = [];
  is_open = false;
}

history_closes : trade_at 8 (aggregate_deals_to_trades params history) ≡ some closed
unfolding aggregate_deals_to_trades group_from add_deal position_trade by_time insert
    weighted_average_price weighted_total counted_volume counts deal_volume strip strip_by
    drop_while ◌+ℤ◌
history_closes = refl

aggregate_deals_to_trades-IsAccounted_example :
    AllTrades (IsAccounted history) (aggregate_deals_to_trades params history)
aggregate_deals_to_trades-IsAccounted_example = aggregate_deals_to_trades-IsAccounted params history

aggregates_by_position_example :
    trade_at 8 (aggregate_deals_to_trades params history)
    ≡ position_trade params 8 (history_of history 8)
aggregates_by_position_example = aggregates_by_position params history 8

lost_exit : latest (keep (is_exit params) (by_time (history_of lost_history 8))) ≡ some unpriced
unfolding by_time insert
lost_exit = refl

lost_price :
    weighted_average_price (keep (is_exit params) (by_time (history_of lost_history 8))) ≡ none
unfolding by_time insert weighted_average_price weighted_total counted_volume counts deal_volume
lost_price = refl

lost_volume :
    volume_of (keep (is_entry params) (by_time (history_of lost_history 8)))
    ≤ volume_of (keep (is_exit params) (by_time (history_of lost_history 8)))
unfolding by_time insert deal_volume
lost_volume = omega arith

unpriced_exit_is_lost_example : trade_at 8 (aggregate_deals_to_trades params lost_history) ≡ none
unpriced_exit_is_lost_example =
    unpriced_exit_is_lost params lost_history 8 unpriced lost_exit lost_price lost_volume
