-- ===== src/RunningPnl/Ordered.antt =====
-- The order and the dates of the running events, stated apart from the code's comparison.
use mathlib.Core.List.{Perm}
use fxjournal.Prelude.{
  ℕ, ◌≡◌, ◌≤◌, ◌<◌, ◌⊎◌, refl, ap, true, false, not, Option, List, [], ◌∷◌, ltb, all_of, keep,
  arith, inl, inr,
}
use fxjournal.Prelude.Int.{ℤ, pos}
use fxjournal.RunningPnl.{
  CashFlow, Event, RunningEvent, TradeRow, after_cash, after_realized, build_running_pnl_events,
  in_order, is_before, raw_events, run, since, until, EventType, deposit, withdrawal, adjustment,
  trade_close, type_priority, in_dates,
}
use fxjournal.RunningPnl.Kept.{in_order-perm, keep_both}
use fxjournal.RunningPnl.Sorted.{IsSorted, in_order-IsSorted, keep-IsSorted}

-- The types of events that come before others at one time.
pub data Leads : EventType → EventType → Type 0 where
  deposit_withdrawal : Leads deposit withdrawal
  deposit_adjustment : Leads deposit adjustment
  deposit_trade : Leads deposit trade_close
  withdrawal_adjustment : Leads withdrawal adjustment
  withdrawal_trade : Leads withdrawal trade_close
  adjustment_trade : Leads adjustment trade_close

-- An event may stand before another: an earlier one, at one time one of a type that leads, and of one
-- type one with no greater id.
abbrev pub MayPrecede : Event → Event → Type 0
MayPrecede a b =
    (a.timestamp < b.timestamp)
    ⊎ ((a.timestamp ≡ b.timestamp)
        × (Leads a.event_type b.event_type
            ⊎ ((a.event_type ≡ b.event_type) × (a.sort_id ≤ b.sort_id))))

abbrev pub PrecedesAll : Event → List Event → Type 0
PrecedesAll a [] = Unit
PrecedesAll a (b ∷ events) = MayPrecede a b × PrecedesAll a events

-- Each event may stand before all behind it.
abbrev pub IsOrdered : List Event → Type 0
IsOrdered [] = Unit
IsOrdered (a ∷ events) = PrecedesAll a events × IsOrdered events

type_leads :
    (x y : EventType)
    → ltb (type_priority y) (type_priority x) ≡ false
    → Leads x y ⊎ ((x ≡ y) × (type_priority y ≡ type_priority x))
type_leads deposit deposit h = inr (refl, refl)
type_leads deposit withdrawal h = inl deposit_withdrawal
type_leads deposit adjustment h = inl deposit_adjustment
type_leads deposit trade_close h = inl deposit_trade
type_leads withdrawal deposit h = cc
type_leads withdrawal withdrawal h = inr (refl, refl)
type_leads withdrawal adjustment h = inl withdrawal_adjustment
type_leads withdrawal trade_close h = inl withdrawal_trade
type_leads adjustment deposit h = cc
type_leads adjustment withdrawal h = cc
type_leads adjustment adjustment h = inr (refl, refl)
type_leads adjustment trade_close h = inl adjustment_trade
type_leads trade_close deposit h = cc
type_leads trade_close withdrawal h = cc
type_leads trade_close adjustment h = cc
type_leads trade_close trade_close h = inr (refl, refl)

not_later : (a b : Event) → is_before b a ≡ false → ltb b.timestamp a.timestamp ≡ false
unfolding is_before
not_later a b h = ground arith

not_led :
    (a b : Event)
    → is_before b a ≡ false
    → a.timestamp ≡ b.timestamp
    → ltb (type_priority b.event_type) (type_priority a.event_type) ≡ false
unfolding is_before
not_led a b h same = ground arith

not_greater :
    (a b : Event)
    → is_before b a ≡ false
    → a.timestamp ≡ b.timestamp
    → type_priority b.event_type ≡ type_priority a.event_type
    → a.sort_id ≤ b.sort_id
unfolding is_before
not_greater a b h same kinds = ground arith

-- The code's comparison does not contradict the order.
may_precede : (a b : Event) → is_before b a ≡ false → MayPrecede a b
may_precede a b h = elim (time_cases (not_later a b h)) [
  | inl earlier ↦ inl earlier
  | inr same ↦ inr (
    same,
    elim (type_leads a.event_type b.event_type (not_led a b h same)) [
      | inl leads ↦ inl leads
      | inr (equal, priorities) ↦ inr (equal, not_greater a b h same priorities)
    ],
  )
]
  where
    time_cases :
        ltb b.timestamp a.timestamp ≡ false
        → (a.timestamp < b.timestamp) ⊎ (a.timestamp ≡ b.timestamp)
    time_cases k = grind arith

precedes_all :
    (a : Event) (events : List Event)
    → all_of (λ b. not (is_before b a)) events ≡ true
    → PrecedesAll a events
precedes_all a [] h = tt
precedes_all a (b ∷ events) h =
    let here : is_before b a ≡ false = ground arith in
    (may_precede a b here, precedes_all a events (ground arith))

sorted-IsOrdered : (events : List Event) → IsSorted events → IsOrdered events
sorted-IsOrdered [] h = tt
sorted-IsOrdered (a ∷ events) (below, rest) =
    (precedes_all a events below, sorted-IsOrdered events rest)

abbrev pub events_of : List RunningEvent → List Event
events_of [] = []
events_of (r ∷ rows) = r.event ∷ events_of rows

events_of-run : (realized cash : ℤ) (es : List Event) → events_of (run realized cash es) ≡ es
unfolding run
events_of-run realized cash [] = refl
events_of-run realized cash (e ∷ es) =
    ap (◌∷◌ e) (events_of-run (after_realized e realized) (after_cash e cash) es)

-- The running events of an account are the events of its rows that lie within the dates, each as often as it is there, and come in the order of their time, with deposits before withdrawals, then adjustments, then trades at one time, and then of their id, whatever the order of the rows.
pub build_running_pnl_events-IsOrdered :
    (resolver : Option (TradeRow → Option ℤ)) (date_from date_to : Option ℕ)
    (trades : List TradeRow) (flows : List CashFlow)
    → let events = events_of (build_running_pnl_events resolver date_from date_to trades flows) in
      IsOrdered events
      × Perm events (keep (in_dates date_from date_to) (raw_events resolver trades flows))
unfolding build_running_pnl_events
build_running_pnl_events-IsOrdered resolver date_from date_to trades flows =
    rw (events_of-run (pos 0) (pos 0) dated) (
      sorted-IsOrdered dated (
          keep-IsSorted (until date_to) _
            (keep-IsSorted (since date_from) _ (in_order-IsSorted rows))),
      rw (keep_both (until date_to) (since date_from) (in_order rows))
          (in_order-perm (in_dates date_from date_to) rows),
    )
  where
    rows : List Event
    rows = raw_events resolver trades flows

    dated : List Event
    dated = keep (until date_to) (keep (since date_from) (in_order rows))
