-- ===== src/Deals.antt =====
-- celery_workers/mt5_sync_tasks.py: `aggregate_deals_to_trades`, which makes trades of the deals of an
-- MT5 account. Volumes are whole billionths of a lot and prices whole units of the last digit, so
-- that the tolerance 1e-9 is one; money is whole cents; a weighted average is kept as the pair of
-- its weighted total and its volume, before the division.
pub mod Grouping
pub mod Totals
pub mod ByPosition
mod Examples
use fxjournal.Prelude.{
  ℕ, zero, suc, ◌+◌, ◌*◌, ◌≡◌, Bool, true, false, ◌&&◌, ◌||◌, not, Option, none, some, List, [],
  ◌∷◌, ◌++◌, ltb, leb, ◌==◌, if◌then◌else◌, any_of, keep,
}
use fxjournal.Prelude.Int.{ℤ, pos, pos_part, neg_part, ◌+ℤ◌, sub_ℕ}
use fxjournal.Prelude.Text.{Text, is_blank, strip}

-- A deal as the code reads it: what is missing or no number is 0 already, or the empty text.
pub record Deal : Type 0 where
  pub position_id : ℕ
  -- 0 is a buy and 1 a sell unless the terminal says otherwise; missing is 99.
  pub kind : ℕ
  pub entry : Option ℕ
  pub time : Option ℕ
  pub volume : ℤ
  pub price : ℤ
  pub commission : ℤ
  pub swap : ℤ
  pub profit : ℤ
  pub symbol : Text
  pub comment : Text

pub record Params : Type 0 where
  pub entry_in : ℕ
  pub exit_entries : List ℕ
  pub deal_type_buy : ℕ
  pub offset_minutes : ℤ

pub data Side : Type 0 where
  buy sell : Side

pub record Trade : Type 0 where
  pub mt5_position : ℕ
  pub symbol : Text
  pub side : Option Side
  pub entry_price : Option (ℕ × ℕ)
  pub exit_price : Option (ℕ × ℕ)
  pub lot_size : ℕ
  pub pnl : Option ℤ
  pub commission : ℤ
  pub swap : ℤ
  -- Seconds of the Unix epoch, the broker's offset taken off.
  pub opened_at : Option ℤ
  pub closed_at : Option ℤ
  pub trade_note : Text
  pub is_open : Bool

unfoldable pub deal_volume : Deal → ℕ
deal_volume d = pos_part d.volume

abbrev pub volume_of : List Deal → ℕ
volume_of [] = 0
volume_of (d ∷ ds) = deal_volume d + volume_of ds

-- A deal without volume or price does not count.
unfoldable pub counts : Deal → Bool
counts d = ltb 0 (deal_volume d) && ltb 0 (pos_part d.price)

unfoldable pub weighted_total : List Deal → ℕ
weighted_total [] = 0
weighted_total (d ∷ ds) =
    let rest = weighted_total ds in
    if counts d then pos_part d.price * deal_volume d + rest else rest

unfoldable pub counted_volume : List Deal → ℕ
counted_volume [] = 0
counted_volume (d ∷ ds) =
    let rest = counted_volume ds in if counts d then deal_volume d + rest else rest

unfoldable pub weighted_average_price : List Deal → Option (ℕ × ℕ)
weighted_average_price ds =
    if leb (counted_volume ds) 0 then none else some (weighted_total ds, counted_volume ds)

abbrev pub total : (Deal → ℤ) → List Deal → ℤ
total f [] = pos 0
total f (d ∷ ds) = f d +ℤ total f ds

-- `defaultdict(list)`: the groups in the order of their first deal.
unfoldable pub add_deal : List (ℕ × List Deal) → Deal → List (ℕ × List Deal)
add_deal [] d = (d.position_id, d ∷ []) ∷ []
add_deal ((p, ds) ∷ groups) d =
    let rest = add_deal groups d in
    if d.position_id == p then (p, ds ++ d ∷ []) ∷ groups else (p, ds) ∷ rest

abbrev pub is_trading : Deal → Bool
is_trading d = leb d.kind 1

abbrev pub has_position : Deal → Bool
has_position d = not (d.position_id == 0)

unfoldable pub group_from : List (ℕ × List Deal) → List Deal → List (ℕ × List Deal)
group_from groups [] = groups
group_from groups (d ∷ ds) = group_from (if has_position d then add_deal groups d else groups) ds

abbrev pub time_key : Option ℕ → ℕ
time_key none = 0
time_key (some t) = t

-- The stable sort by time.
unfoldable pub insert : Deal → List Deal → List Deal
insert d [] = d ∷ []
insert d (e ∷ es) =
    let rest = insert d es in
    if ltb (time_key e.time) (time_key d.time) then e ∷ rest else d ∷ e ∷ es

unfoldable pub by_time : List Deal → List Deal
by_time [] = []
by_time (d ∷ ds) = insert d (by_time ds)

abbrev has_entry : Option ℕ → (ℕ → Bool) → Bool
has_entry none p = false
has_entry (some e) p = p e

abbrev pub is_entry : Params → Deal → Bool
is_entry ps d = has_entry d.entry (λ e. e == ps.entry_in)

abbrev pub is_exit : Params → Deal → Bool
is_exit ps d = has_entry d.entry (λ e. any_of (λ x. x == e) ps.exit_entries)

abbrev pub latest : List Deal → Option Deal
latest [] = none
latest (d ∷ []) = some d
latest (_ ∷ d ∷ ds) = latest (d ∷ ds)

-- `_to_utc_iso`, as seconds.
abbrev to_utc : Params → Option ℕ → Option ℤ
to_utc ps none = none
to_utc ps (some t) =
    some (sub_ℕ (t + 60 * neg_part ps.offset_minutes) (60 * pos_part ps.offset_minutes))

pub record Sums : Type 0 where
  pub commission : ℤ
  pub swap : ℤ
  pub profit : ℤ

abbrev pub sums_of : List Deal → Sums
sums_of ds = record {
  commission = total (λ d. d.commission) ds;
  swap = total (λ d. d.swap) ds;
  profit = total (λ d. d.profit) ds;
}

abbrev side_of : Params → Deal → Side
side_of ps d = if d.kind == ps.deal_type_buy then buy else sell

abbrev or_symbol : Text → Text → Text
or_symbol a b = if is_blank a then b else a

-- A position whose entry the history does not hold.
abbrev exit_only : Params → ℕ → Sums → Option Deal → Option (ℕ × ℕ) → ℕ → Option Trade
exit_only ps p sums (some last) (some price) exit_volume =
    if ltb 0 exit_volume
    then some (record {
      mt5_position = p;
      symbol = last.symbol;
      side = none;
      entry_price = none;
      exit_price = some price;
      lot_size = exit_volume;
      pnl = some sums.profit;
      commission = sums.commission;
      swap = sums.swap;
      opened_at = none;
      closed_at = to_utc ps last.time;
      trade_note = strip last.comment;
      is_open = false;
    })
    else none
exit_only ps p sums _ _ exit_volume = none

abbrev closed_trade : Params → ℕ → Sums → Deal → ℕ × ℕ → ℕ → Deal → ℕ × ℕ → Trade
closed_trade ps p sums first entry_price entry_volume last exit_price = record {
  mt5_position = p;
  symbol = or_symbol last.symbol first.symbol;
  side = some (side_of ps first);
  entry_price = some entry_price;
  exit_price = some exit_price;
  lot_size = entry_volume;
  pnl = some sums.profit;
  commission = sums.commission;
  swap = sums.swap;
  opened_at = to_utc ps first.time;
  closed_at = to_utc ps last.time;
  trade_note = strip last.comment;
  is_open = false;
}

abbrev open_trade : Params → ℕ → Sums → Deal → ℕ × ℕ → ℕ → Trade
open_trade ps p sums first entry_price entry_volume = record {
  mt5_position = p;
  symbol = first.symbol;
  side = some (side_of ps first);
  entry_price = some entry_price;
  exit_price = none;
  lot_size = entry_volume;
  pnl = none;
  commission = sums.commission;
  swap = sums.swap;
  opened_at = to_utc ps first.time;
  closed_at = none;
  trade_note = strip first.comment;
  is_open = true;
}

-- A position with its entries: closed once the exits offset the whole volume, open while they do not.
abbrev entered :
    Params → ℕ → Sums → Deal → ℕ × ℕ → ℕ → Option Deal → Option (ℕ × ℕ) → ℕ → Option Trade
entered ps p sums first price volume none _ exit_volume =
    some (open_trade ps p sums first price volume)
entered ps p sums first price volume (some last) none exit_volume =
    if ltb exit_volume volume then some (open_trade ps p sums first price volume) else none
entered ps p sums first price volume (some last) (some exit_price) exit_volume =
    if leb volume (exit_volume + 1)
    then some (closed_trade ps p sums first price volume last exit_price)
    else if ltb exit_volume volume
    then some (open_trade ps p sums first price volume)
    else none

abbrev priced : Params → ℕ → Sums → Deal → Option (ℕ × ℕ) → ℕ → List Deal → Option Trade
priced ps p sums first none volume exits = none
priced ps p sums first (some price) volume exits =
    if leb volume 0
    then none
    else entered ps p sums first price volume (latest exits) (weighted_average_price exits)
        (volume_of exits)

abbrev trade_of : Params → ℕ → Sums → List Deal → List Deal → Option Trade
trade_of ps p sums [] exits =
    exit_only ps p sums (latest exits) (weighted_average_price exits) (volume_of exits)
trade_of ps p sums (first ∷ entries) exits =
    priced ps p sums first (weighted_average_price (first ∷ entries)) (volume_of (first ∷ entries))
      exits

unfoldable pub position_trade : Params → ℕ → List Deal → Option Trade
position_trade ps p deals =
    let sorted = by_time deals in
    trade_of ps p (sums_of sorted) (keep (is_entry ps) sorted) (keep (is_exit ps) sorted)

abbrev pub add_trade : Option Trade → List Trade → List Trade
add_trade none trades = trades
add_trade (some t) trades = t ∷ trades

abbrev pub trades_of : Params → List (ℕ × List Deal) → List Trade
trades_of ps [] = []
trades_of ps ((p, ds) ∷ groups) = add_trade (position_trade ps p ds) (trades_of ps groups)

unfoldable pub aggregate_deals_to_trades : Params → List Deal → List Trade
aggregate_deals_to_trades ps deals = trades_of ps (group_from [] (keep is_trading deals))
