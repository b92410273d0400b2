-- ===== src/RunningPnl/Examples.antt =====
-- The running events and the summary of a closed trade, a withdrawal and a deposit.
use mathlib.Core.List.{Perm}
use fxjournal.Prelude.{◌≡◌, ◌+◌, Bool, ◌&&◌, none, some, List, [], ◌∷◌, keep}
use fxjournal.Prelude.Int.{pos, negsuc, ◌+ℤ◌}
use fxjournal.Prelude.Text.{codes}
use fxjournal.RunningPnl.{
  CashFlow, Event, RunningSummary, adjustment, deposit, trade_close, withdrawal, TradeRow,
  build_running_pnl_events, in_dates, is_close, raw_events, summarize_running_pnl,
}
use fxjournal.RunningPnl.Counted.{is_type, number_of}
use fxjournal.RunningPnl.Ordered.{IsOrdered, events_of, build_running_pnl_events-IsOrdered}
use fxjournal.RunningPnl.Summed.{amount_of, not_close, summary_totals}

abbrev trade : TradeRow
trade = record {
  id = 1;
  is_open = none;
  is_closed = none;
  opened_at = some 10;
  closed_at = some 20;
  remaining = [];
  exit_price = none;
  pnl = some (pos 5000);
  commission = some (negsuc 699);
  swap = none;
  symbol = codes "eurusd";
  side = codes "buy";
}

abbrev flow : CashFlow
flow = record {
  id = 2;
  occurred_at = some 15;
  flow_type = codes "Withdrawal";
  amount = some (pos 1000);
  note = [];
}

-- A deposit at the time of the withdrawal, which the rows list after it.
abbrev deposited : CashFlow
deposited = record {
  id = 3;
  occurred_at = some 15;
  flow_type = codes " deposit";
  amount = some (pos 4000);
  note = [];
}

abbrev summary : RunningSummary
summary =
    summarize_running_pnl
      (build_running_pnl_events none (some 5) (some 100) (trade ∷ []) (flow ∷ deposited ∷ []))

abbrev dated : Event → Bool
dated = in_dates (some 5) (some 100)

abbrev rows : List Event
rows = raw_events none (trade ∷ []) (flow ∷ deposited ∷ [])

summary_totals_example :
    (summary.total_realized_pnl ≡ amount_of (λ e. dated e && is_close e) rows)
    × (summary.total_cash_flow ≡ amount_of (λ e. dated e && not_close e) rows)
    × (summary.total_net_result ≡ summary.total_realized_pnl +ℤ summary.total_cash_flow)
    × (summary.deposit_count ≡ number_of (λ e. dated e && is_type deposit e.event_type) rows)
    × (summary.withdrawal_count ≡ number_of (λ e. dated e && is_type withdrawal e.event_type) rows)
    × (summary.adjustment_count ≡ number_of (λ e. dated e && is_type adjustment e.event_type) rows)
    × (summary.trade_close_count
        ≡ number_of (λ e. dated e && is_type trade_close e.event_type) rows)
    × (summary.event_count
        ≡ summary.trade_close_count + summary.deposit_count + summary.withdrawal_count
          + summary.adjustment_count)
summary_totals_example =
    summary_totals none (some 5) (some 100) (trade ∷ []) (flow ∷ deposited ∷ [])

build_running_pnl_events-IsOrdered_example :
    let events =
      events_of
        (build_running_pnl_events none (some 5) (some 100) (trade ∷ []) (flow ∷ deposited ∷ [])) in
    IsOrdered events × Perm events (keep dated rows)
build_running_pnl_events-IsOrdered_example =
    build_running_pnl_events-IsOrdered none (some 5) (some 100) (trade ∷ []) (flow ∷ deposited ∷ [])
