-- ===== src/RunningPnl.antt =====
-- helpers/running_pnl.py and helpers/trade_state.py: the events of an account with their running
-- totals. Amounts are whole cents, to which the source rounds them; a field that is missing or no
-- number is `none`.
pub mod Counted
pub mod Summed
pub mod Sorted
pub mod Kept
pub mod Ordered
mod Examples
use fxjournal.Prelude.{
  ℕ, zero, suc, ◌+◌, Bool, true, false, ◌&&◌, ◌||◌, not, Option, none, some, List, [], ◌∷◌, ◌++◌,
  ltb, leb, ◌==◌, if◌then◌else◌, is_some, any_of, or_else, keep, length,
}
use fxjournal.Prelude.Int.{ℤ, pos, negsuc, ◌+ℤ◌, neg, abs}
use fxjournal.Prelude.Text.{Text, codes, is_blank, lower, same_text, strip, upper}

pub record TradeRow : Type 0 where
  pub id : ℕ
  pub is_open : Option Bool
  pub is_closed : Option Bool
  pub opened_at : Option ℕ
  pub closed_at : Option ℕ
  -- `remaining_size`, `remaining_volume` and `open_volume`.
  pub remaining : List (Option ℤ)
  pub exit_price : Option ℤ
  pub pnl : Option ℤ
  pub commission : Option ℤ
  pub swap : Option ℤ
  pub symbol : Text
  pub side : Text

abbrev is_zero_position_value : Option ℤ → Bool
is_zero_position_value (some (pos n)) = n == 0
is_zero_position_value _ = false

abbrev is_flag : Option Bool → Bool → Bool
is_flag none _ = false
is_flag (some b) true = b
is_flag (some b) false = not b

unfoldable pub trade_is_closed : TradeRow → Bool
trade_is_closed t =
    is_flag t.is_open false
    || is_flag t.is_closed true
    || is_some t.closed_at
    || any_of is_zero_position_value t.remaining
    || is_some t.exit_price

pub data EventType : Type 0 where
  deposit withdrawal adjustment trade_close : EventType

pub record Event : Type 0 where
  pub timestamp : ℕ
  pub event_type : EventType
  pub amount : ℤ
  pub description : Text
  pub sort_id : ℕ

abbrev safe_float : Option ℤ → ℤ
safe_float none = pos 0
safe_float (some v) = v

-- The result of a trade, by the caller's function where one is given.
abbrev pnl_value : Option (TradeRow → Option ℤ) → TradeRow → Option ℤ
pnl_value (some resolve_trade_pnl) t = resolve_trade_pnl t
pnl_value none t = elim t.pnl [
  | none ↦ none
  | some raw_pnl ↦ some (raw_pnl +ℤ neg (abs (safe_float t.commission)) +ℤ safe_float t.swap)
]

abbrev or_mark : Text → Text
or_mark [] = codes "?"
or_mark (c ∷ s) = c ∷ s

abbrev close_event : TradeRow → Option ℕ → Option ℤ → Option Event
close_event t (some timestamp) (some amount) = some (record {
  timestamp = timestamp;
  event_type = trade_close;
  amount = amount;
  description = or_mark (upper (strip t.side)) ++ b' ' ∷ or_mark (upper (strip t.symbol));
  sort_id = t.id;
})
close_event t _ _ = none

unfoldable pub trade_event : Option (TradeRow → Option ℤ) → TradeRow → Option Event
trade_event resolver t =
    if trade_is_closed t
    then close_event t (or_else t.closed_at t.opened_at) (pnl_value resolver t)
    else none

pub record CashFlow : Type 0 where
  pub id : ℕ
  pub occurred_at : Option ℕ
  pub flow_type : Text
  pub amount : Option ℤ
  pub note : Text

unfoldable pub flow_kind : Text → Option EventType
flow_kind flow_type =
    let text = lower (strip flow_type) in
    if same_text text (codes "deposit")
    then some deposit
    else if same_text text (codes "withdrawal")
    then some withdrawal
    else if same_text text (codes "adjustment")
    then some adjustment
    else none

abbrev signed_amount : EventType → ℤ → ℤ
signed_amount withdrawal raw_amount = neg (abs raw_amount)
signed_amount deposit raw_amount = abs raw_amount
signed_amount _ raw_amount = raw_amount

abbrev capitalized : EventType → Text
capitalized deposit = codes "Deposit"
capitalized withdrawal = codes "Withdrawal"
capitalized adjustment = codes "Adjustment"
capitalized trade_close = codes "Trade_close"

abbrev or_kind : Text → EventType → Text
or_kind [] kind = capitalized kind
or_kind (c ∷ s) _ = c ∷ s

abbrev cash_event : CashFlow → Option ℕ → Option EventType → Option ℤ → Option Event
cash_event cf (some timestamp) (some kind) (some raw_amount) = some (record {
  timestamp = timestamp;
  event_type = kind;
  amount = signed_amount kind raw_amount;
  description = or_kind (strip cf.note) kind;
  sort_id = cf.id;
})
cash_event cf _ _ _ = none

unfoldable pub flow_event : CashFlow → Option Event
flow_event cf = cash_event cf cf.occurred_at (flow_kind cf.flow_type) cf.amount

abbrev add_event : Option Event → List Event → List Event
add_event none events = events
add_event (some e) events = e ∷ events

abbrev trade_events : Option (TradeRow → Option ℤ) → List TradeRow → List Event
trade_events resolver [] = []
trade_events resolver (t ∷ ts) = add_event (trade_event resolver t) (trade_events resolver ts)

abbrev flow_events : List CashFlow → List Event
flow_events [] = []
flow_events (cf ∷ cfs) = add_event (flow_event cf) (flow_events cfs)

unfoldable pub raw_events :
    Option (TradeRow → Option ℤ) → List TradeRow → List CashFlow → List Event
raw_events resolver trades flows = trade_events resolver trades ++ flow_events flows

abbrev type_priority : EventType → ℕ
type_priority deposit = 0
type_priority withdrawal = 1
type_priority adjustment = 2
type_priority trade_close = 3

-- `_event_sort_key` of the first before that of the second.
unfoldable pub is_before : Event → Event → Bool
is_before a b =
    ltb a.timestamp b.timestamp
    || (a.timestamp == b.timestamp
        && (ltb (type_priority a.event_type) (type_priority b.event_type)
            || (type_priority a.event_type == type_priority b.event_type
                && ltb a.sort_id b.sort_id)))

unfoldable pub insert : Event → List Event → List Event
insert a [] = a ∷ []
insert a (b ∷ bs) = let rest = insert a bs in if is_before b a then b ∷ rest else a ∷ b ∷ bs

unfoldable pub in_order : List Event → List Event
in_order [] = []
in_order (a ∷ events) = insert a (in_order events)

abbrev since : Option ℕ → Event → Bool
since none e = true
since (some date_from) e = leb date_from e.timestamp

abbrev until : Option ℕ → Event → Bool
until none e = true
until (some date_to) e = ltb e.timestamp date_to

-- The bounds on the dates: the first inclusive, the second exclusive.
abbrev pub in_dates : Option ℕ → Option ℕ → Event → Bool
in_dates date_from date_to e = since date_from e && until date_to e

pub record RunningEvent : Type 0 where
  pub event : Event
  pub running_realized_pnl : ℤ
  pub running_cash_flow : ℤ
  pub running_net_result : ℤ

abbrev pub is_close : Event → Bool
is_close e = elim e.event_type [
  | deposit ↦ false
  | withdrawal ↦ false
  | adjustment ↦ false
  | trade_close ↦ true
]

abbrev after_realized : Event → ℤ → ℤ
after_realized e realized = if is_close e then realized +ℤ e.amount else realized

abbrev after_cash : Event → ℤ → ℤ
after_cash e cash = if is_close e then cash else cash +ℤ e.amount

unfoldable pub run : ℤ → ℤ → List Event → List RunningEvent
run realized cash [] = []
run realized cash (e ∷ es) =
    record {
      event = e;
      running_realized_pnl = after_realized e realized;
      running_cash_flow = after_cash e cash;
      running_net_result = after_realized e realized +ℤ after_cash e cash;
    }
    ∷ run (after_realized e realized) (after_cash e cash) es

unfoldable pub build_running_pnl_events :
    Option (TradeRow → Option ℤ)
    → Option ℕ
    → Option ℕ
    → List TradeRow
    → List CashFlow
    → List RunningEvent
build_running_pnl_events resolver date_from date_to trades flows =
    run (pos 0) (pos 0)
      (keep (until date_to) (keep (since date_from) (in_order (raw_events resolver trades flows))))

pub record RunningSummary : Type 0 where
  pub total_realized_pnl : ℤ
  pub total_cash_flow : ℤ
  pub total_net_result : ℤ
  pub event_count : ℕ
  pub trade_close_count : ℕ
  pub deposit_count : ℕ
  pub withdrawal_count : ℕ
  pub adjustment_count : ℕ

-- A total of the last event, or zero where there is none.
abbrev pub last_total : (RunningEvent → ℤ) → ℤ → List RunningEvent → ℤ
last_total f d [] = d
last_total f d (e ∷ es) = last_total f (f e) es

abbrev pub count_of : EventType → List RunningEvent → ℕ
count_of kind [] = 0
count_of kind (e ∷ es) =
    let rest = count_of kind es in
    if type_priority e.event.event_type == type_priority kind then suc rest else rest

unfoldable pub summarize_running_pnl : List RunningEvent → RunningSummary
summarize_running_pnl events = record {
  total_realized_pnl = last_total (λ e. e.running_realized_pnl) (pos 0) events;
  total_cash_flow = last_total (λ e. e.running_cash_flow) (pos 0) events;
  total_net_result = last_total (λ e. e.running_net_result) (pos 0) events;
  event_count = length events;
  trade_close_count = count_of trade_close events;
  deposit_count = count_of deposit events;
  withdrawal_count = count_of withdrawal events;
  adjustment_count = count_of adjustment events;
}
