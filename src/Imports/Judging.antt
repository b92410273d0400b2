-- ===== src/Imports/Judging.antt =====
-- helpers/core.py: the rows of an import and their validation, and trading.py: the check of the levels
-- of a trade. What trading.py computes from its tables of symbols is a parameter, Catalogue. Numbers are
-- whole: prices in 10^-8, money in cents, as far as a key rounds.
use fxjournal.Prelude.{
  ℕ, Bool, true, false, ◌&&◌, ◌||◌, not, Option, none, some, [], ◌∷◌, leb, ltb, if◌then◌else◌,
  is_some,
}
use fxjournal.Prelude.Int.{ℤ, pos, ◌+ℤ◌, abs, ltb_ℤ, neg, pos_part}
use fxjournal.Prelude.Text.{Text, codes, is_blank, same_text, strip, upper}

pub data AccountType : Type 0 where
  cfd futures : AccountType

pub record Row : Type 0 where
  pub symbol : Text
  pub contract_code : Option Text
  pub side : Text
  pub lot_size : Option ℤ
  pub entry_price : Option ℤ
  pub exit_price : Option ℤ
  pub pnl : Option ℤ
  pub opened_at : Option ℕ
  pub closed_at : Option ℕ
  pub stop_loss : Option ℤ
  pub take_profit : Option ℤ
  pub mt5_position : Option Text
  pub mt5_position_raw : Text
  pub commission : Option ℤ
  pub swap : Option ℤ

-- A trade as it is inserted. The note, the time zone and the profile are left out.
pub record Trade : Type 0 where
  pub symbol : Text
  pub contract_code : Option Text
  pub side : Text
  pub lot_size : ℤ
  pub entry_price : ℤ
  pub exit_price : Option ℤ
  pub pnl : Option ℤ
  pub opened_at : ℕ
  pub closed_at : Option ℕ
  pub stop_loss : Option ℤ
  pub take_profit : Option ℤ
  pub mt5_position : Option Text
  pub commission : Option ℤ
  pub swap : Option ℤ

-- What the tables of symbols give: the canonical symbol and the allowed ones, the price that a future
-- can have, the tolerance of a level, and the result of a closed trade, if it can be priced.
pub record Catalogue : Type 0 where
  pub canonicalize_symbol : AccountType → Text → Text
  pub is_allowed : AccountType → Text → Bool
  pub snap_trade_price_to_tick : Text → Option Text → ℤ → ℤ
  pub get_trade_price_tolerance : AccountType → Text → Option Text → ℕ
  pub calc_pnl_values : AccountType → Text → Option Text → Text → ℤ → ℤ → ℤ → Option ℤ

pub record LevelIssues : Type 0 where
  pub stop_loss_too_close : Bool
  pub take_profit_too_close : Bool
  pub invalid_stop_loss_side : Bool
  pub invalid_take_profit_side : Bool

abbrev pub is_close : ℕ → ℤ → ℤ → Bool
is_close tolerance a b = leb (pos_part (abs (a +ℤ neg b))) tolerance

-- `side or "BUY"`.
abbrev side_or_buy : Text → Text
side_or_buy [] = codes "BUY"
side_or_buy (c ∷ side) = c ∷ side

abbrev pub is_sell : Text → Bool
is_sell side = same_text (upper (strip (side_or_buy side))) (codes "SELL")

abbrev pub close_or_wrong : Bool → Bool → Bool × Bool
close_or_wrong close wrong = if close then (true, false) else (false, wrong)

-- Whether the level is given and lies too near, and whether it lies on the wrong side; `below` says that
-- it may not lie below the entry price.
abbrev pub level_issues : ℕ → ℤ → Bool → Option ℤ → Bool × Bool
level_issues tolerance entry_price below none = (false, false)
level_issues tolerance entry_price below (some level) =
    let wrong =
      if below
      then ltb_ℤ level (entry_price +ℤ neg (pos tolerance))
      else ltb_ℤ (entry_price +ℤ pos tolerance) level in
    close_or_wrong (is_close tolerance level entry_price) wrong

-- For an entry price that is given; for none the source finds no issue.
unfoldable pub get_trade_level_validation_issues : ℕ → ℤ → Option ℤ → Option ℤ → Text → LevelIssues
get_trade_level_validation_issues tolerance entry_price stop_loss take_profit side =
    let stop = level_issues tolerance entry_price (is_sell side) stop_loss in
    let take = level_issues tolerance entry_price (not (is_sell side)) take_profit in
    record {
      stop_loss_too_close = stop.0;
      take_profit_too_close = take.0;
      invalid_stop_loss_side = stop.1;
      invalid_take_profit_side = take.1;
    }

pub data Reason : Type 0 where
  missing_mt5_position invalid_mt5_position invalid_side invalid_entry_or_lot : Reason
  invalid_exit_price missing_open_time negative_holding_time : Reason
  invalid_stop_distance invalid_stop_loss invalid_take_profit : Reason

-- What becomes of a row before it is compared with others.
pub data Verdict : Type 0 where
  unknown_symbol : Text → Verdict
  refused : Reason → Verdict
  accepted : Trade → Verdict

abbrev pub is_positive : Option ℤ → Bool
is_positive none = false
is_positive (some n) = ltb_ℤ (pos 0) n

-- A level that is missing is not refused.
abbrev pub is_missing_or_positive : Option ℤ → Bool
is_missing_or_positive none = true
is_missing_or_positive (some n) = ltb_ℤ (pos 0) n

abbrev pub is_before_open : Option ℕ → ℕ → Bool
is_before_open none _ = false
is_before_open (some closed_at) opened_at = ltb closed_at opened_at

abbrev pub snapped : Catalogue → AccountType → Text → Option Text → Option ℤ → Option ℤ
snapped catalogue futures symbol contract (some price) =
    some (catalogue.snap_trade_price_to_tick symbol contract price)
snapped _ _ _ _ price = price

abbrev pub clean_position : Option Text → Option Text
clean_position none = none
clean_position (some position) = if is_blank (strip position) then none else some (strip position)

abbrev pub is_cfd : AccountType → Bool
is_cfd cfd = true
is_cfd futures = false

-- `pnl` where it is missing and the trade has an exit price.
abbrev pub pnl_or_computed : Catalogue → AccountType → Trade → Option ℤ → Option ℤ → Option ℤ
pnl_or_computed catalogue kind t (some pnl) exit_price = some pnl
pnl_or_computed catalogue kind t none none = none
pnl_or_computed catalogue kind t none (some exit_price) =
    catalogue.calc_pnl_values kind t.symbol t.contract_code t.side t.entry_price exit_price
      t.lot_size

-- `resolve_pnl`.
abbrev pub resolve_pnl : Catalogue → AccountType → Trade → Option ℤ
resolve_pnl catalogue kind t = pnl_or_computed catalogue kind t t.pnl t.exit_price

abbrev pub judge_levels : Catalogue → AccountType → Trade → Verdict
judge_levels catalogue kind t =
    let tolerance = catalogue.get_trade_price_tolerance kind t.symbol t.contract_code in
    let issues =
      get_trade_level_validation_issues tolerance t.entry_price t.stop_loss t.take_profit t.side in
    if issues.stop_loss_too_close
    then refused invalid_stop_distance
    else if issues.invalid_stop_loss_side
    then refused invalid_stop_loss
    else if issues.take_profit_too_close || issues.invalid_take_profit_side
    then refused invalid_take_profit
    else accepted (record t { pnl = resolve_pnl catalogue kind t })

abbrev pub judge_times : Catalogue → AccountType → Trade → Verdict
judge_times catalogue kind t =
    if is_before_open t.closed_at t.opened_at
    then refused negative_holding_time
    else judge_levels catalogue kind t

abbrev pub row_trade : Catalogue → AccountType → Row → Text → Text → ℤ → ℤ → ℕ → Trade
row_trade catalogue kind row symbol side lot_size entry_price opened_at = record {
  symbol = symbol;
  contract_code = row.contract_code;
  side = side;
  lot_size = lot_size;
  entry_price = entry_price;
  exit_price = snapped catalogue kind symbol row.contract_code row.exit_price;
  pnl = row.pnl;
  opened_at = opened_at;
  closed_at = row.closed_at;
  stop_loss = snapped catalogue kind symbol row.contract_code row.stop_loss;
  take_profit = snapped catalogue kind symbol row.contract_code row.take_profit;
  mt5_position = clean_position row.mt5_position;
  commission = row.commission;
  swap = row.swap;
}

-- The trade of a row whose side and numbers are known.
abbrev pub judge_opened : Catalogue → AccountType → Row → Text → Text → ℤ → ℤ → Option ℕ → Verdict
judge_opened catalogue kind row symbol side lot_size entry_price none = refused missing_open_time
judge_opened catalogue kind row symbol side lot_size entry_price (some opened_at) =
    judge_times catalogue kind
      (row_trade catalogue kind row symbol side lot_size entry_price opened_at)

-- The numbers that a trade must have come apart from its row.
abbrev pub judge_numbers :
    Catalogue → AccountType → Row → Text → Text → Option ℤ → Option ℤ → Option ℕ → Verdict
judge_numbers catalogue kind row symbol side (some lot_size) (some entry_price) opened =
    let exit_price = snapped catalogue kind symbol row.contract_code row.exit_price in
    if not (ltb_ℤ (pos 0) lot_size) || not (ltb_ℤ (pos 0) entry_price)
    then refused invalid_entry_or_lot
    else if not (is_missing_or_positive exit_price)
    then refused invalid_exit_price
    else judge_opened catalogue kind row symbol side lot_size entry_price opened
judge_numbers _ _ _ _ _ _ _ _ = refused invalid_entry_or_lot

abbrev pub is_side : Text → Bool
is_side side = same_text side (codes "BUY") || same_text side (codes "SELL")

unfoldable pub judge : Catalogue → AccountType → Row → Verdict
judge catalogue kind row =
    let symbol = catalogue.canonicalize_symbol kind row.symbol in
    let side = upper (strip row.side) in
    if not (catalogue.is_allowed kind symbol)
    then unknown_symbol symbol
    else if is_cfd kind && not (is_some (clean_position row.mt5_position))
    then refused (
        if is_blank (strip row.mt5_position_raw)
        then missing_mt5_position
        else invalid_mt5_position)
    else if not (is_side side)
    then refused invalid_side
    else judge_numbers catalogue kind row symbol side row.lot_size
        (snapped catalogue kind symbol row.contract_code row.entry_price) row.opened_at
