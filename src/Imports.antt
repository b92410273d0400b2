-- ===== src/Imports.antt =====
-- helpers/core.py: the batch of trades that an import inserts (build_normalized_trade_insert_batch): what
-- trades are compared by, and the loop over the rows.
pub mod Judging
mod Counted
mod Valid
mod Keyed
mod Again
mod Fresh
mod Levels
mod Examples
use fxjournal.Prelude.{
  ℕ, suc, ◌+◌, ◌==◌, keep, Bool, true, false, ◌&&◌, ◌||◌, not, Option, none, some, List, [], ◌∷◌,
  ◌++◌, leb, ltb, if◌then◌else◌, any_of, map, is_some,
}
use fxjournal.Prelude.Int.{ℤ, pos, negsuc, ◌+ℤ◌, abs, ltb_ℤ, neg, pos_part}
use fxjournal.Prelude.Text.{Text, codes, contains_text, is_blank, or_empty, same_text, strip, upper}
unfoldable pub use Judging.*

-- What two trades are compared by: the MT5 position, or all of these.
pub data Key : Type 0 where
  by_position : Option Text → Key
  by_values : Text → Text → ℤ → Option ℤ → ℤ → Option ℤ → ℕ → Option ℕ → Key

abbrev pub same_int : ℤ → ℤ → Bool
same_int (pos a) (pos b) = a == b
same_int (negsuc a) (negsuc b) = a == b
same_int _ _ = false

abbrev pub same_option : {A : Type 0} → (A → A → Bool) → Option A → Option A → Bool
same_option same none none = true
same_option same (some a) (some b) = same a b
same_option same _ _ = false

unfoldable pub same_key : Key → Key → Bool
same_key (by_position p) (by_position q) = same_option same_text p q
same_key (by_values symbol side entry exit lot pnl opened closed)
      (by_values symbol' side' entry' exit' lot' pnl' opened' closed') =
    same_text symbol symbol'
    && same_text side side'
    && same_int entry entry'
    && same_option same_int exit exit'
    && same_int lot lot'
    && same_option same_int pnl pnl'
    && opened == opened'
    && same_option (λ a b. a == b) closed closed'
same_key _ _ = false

abbrev is_alnum : ℕ → Bool
is_alnum c = (leb b'0' c && leb c b'9') || (leb b'A' c && leb c b'Z') || (leb b'a' c && leb c b'z')

abbrev pub normalize_symbol : Text → Text
normalize_symbol symbol = keep is_alnum (upper symbol)

-- `contract_code or symbol`.
abbrev code_or_symbol : Option Text → Text → Text
code_or_symbol none symbol = symbol
code_or_symbol (some []) symbol = symbol
code_or_symbol (some (c ∷ code)) symbol = c ∷ code

unfoldable pub build_trade_duplicate_key : Trade → Key
build_trade_duplicate_key t =
    by_values (normalize_symbol (code_or_symbol t.contract_code t.symbol)) (upper (strip t.side))
      t.entry_price t.exit_price t.lot_size t.pnl t.opened_at t.closed_at

-- How the import compares: by the values for an account of futures, unless the caller asks for positions.
abbrev pub compares_values : AccountType → Bool → Bool
compares_values futures dedupe_by_mt5_position_only = not dedupe_by_mt5_position_only
compares_values cfd _ = false

abbrev pub key_of : Bool → Trade → Key
key_of true t = build_trade_duplicate_key t
key_of false t = by_position t.mt5_position

abbrev pub stored_key : Catalogue → AccountType → Bool → Trade → Key
stored_key catalogue kind by_value t =
    key_of by_value (record t { pnl = resolve_pnl catalogue kind t })

abbrev pub contains_key : Key → List Key → Bool
contains_key k keys = any_of (λ q. same_key q k) keys

-- `if pos`.
abbrev pub is_present : Option Text → Bool
is_present none = false
is_present (some position) = not (is_blank position)

-- A stored trade: whether the import looks at it, which by positions needs one, and by which key.
abbrev pub stored_keys : Catalogue → AccountType → Bool → List Trade → List Key
stored_keys catalogue kind by_value [] = []
stored_keys catalogue kind by_value (t ∷ trades) =
    let rest = stored_keys catalogue kind by_value trades in
    if by_value || is_present t.mt5_position
    then stored_key catalogue kind by_value t ∷ rest
    else rest

pub record Batch : Type 0 where
  pub insert_batch : List Trade
  pub import_keys : List Key
  pub validation_skipped : ℕ
  pub duplicate_count : ℕ
  pub duplicate_cost_updates : ℕ
  pub failed_symbols : List Text
  pub validation_reasons : List Reason
  -- The stored trades, with the costs that duplicates bring.
  pub existing : List Trade

abbrev refreshed : Option ℤ → Option ℤ → Option ℤ
refreshed (some incoming) _ = some incoming
refreshed none current = current

abbrev brings : Option ℤ → Option ℤ → Bool
brings none _ = false
brings (some incoming) current = not (same_option same_int current (some incoming))

abbrev pub refresh_costs : Row → Trade → Trade
refresh_costs row t = record t {
  commission = refreshed row.commission t.commission;
  swap = refreshed row.swap t.swap;
}

abbrev brings_cost : Row → Trade → Bool
brings_cost row t = brings row.commission t.commission || brings row.swap t.swap

-- The stored duplicates of a row take its costs; how many changed.
unfoldable pub refresh_duplicates :
    Catalogue → AccountType → Key → Row → List Trade → List Trade × ℕ
refresh_duplicates catalogue kind k row [] = ([], 0)
refresh_duplicates catalogue kind k row (t ∷ trades) =
    let rest = refresh_duplicates catalogue kind k row trades in
    if same_key (stored_key catalogue kind true t) k
    then (refresh_costs row t ∷ rest.0, if brings_cost row t then suc rest.1 else rest.1)
    else (t ∷ rest.0, rest.1)

abbrev pub count_duplicate : Catalogue → AccountType → Bool → Key → Row → Batch → Batch
count_duplicate catalogue kind false k row b = record b { duplicate_count = suc b.duplicate_count }
count_duplicate catalogue kind true k row b =
    let found = refresh_duplicates catalogue kind k row b.existing in
    record b {
      duplicate_count = suc b.duplicate_count;
      duplicate_cost_updates = b.duplicate_cost_updates + found.1;
      existing = found.0;
    }

abbrev pub insert_trade : Key → Trade → Batch → Batch
insert_trade k t b = record b {
  insert_batch = b.insert_batch ++ t ∷ [];
  import_keys = k ∷ b.import_keys;
}

abbrev add_symbol : Text → List Text → List Text
add_symbol symbol symbols =
    if is_blank symbol || contains_text symbol symbols then symbols else symbols ++ symbol ∷ []

-- One turn of the loop; `known` are the keys of the stored trades before the import.
abbrev pub take_row : Catalogue → AccountType → Bool → List Key → Row → Verdict → Batch → Batch
take_row catalogue kind by_value known row (unknown_symbol symbol) b = record b {
  validation_skipped = suc b.validation_skipped;
  failed_symbols = add_symbol symbol b.failed_symbols;
}
take_row catalogue kind by_value known row (refused reason) b = record b {
  validation_skipped = suc b.validation_skipped;
  validation_reasons = reason ∷ b.validation_reasons;
}
take_row catalogue kind by_value known row (accepted t) b =
    let k = key_of by_value t in
    if contains_key k known || contains_key k b.import_keys
    then count_duplicate catalogue kind by_value k row b
    else insert_trade k t b

abbrev pub take_rows : Catalogue → AccountType → Bool → List Key → List Row → Batch → Batch
take_rows catalogue kind by_value known [] b = b
take_rows catalogue kind by_value known (row ∷ rows) b =
    take_rows catalogue kind by_value known rows
      (take_row catalogue kind by_value known row (judge catalogue kind row) b)

abbrev pub no_batch : List Trade → Batch
no_batch existing = record {
  insert_batch = [];
  import_keys = [];
  validation_skipped = 0;
  duplicate_count = 0;
  duplicate_cost_updates = 0;
  failed_symbols = [];
  validation_reasons = [];
  existing = existing;
}

unfoldable pub build_normalized_trade_insert_batch :
    Catalogue → AccountType → Bool → List Trade → List Row → Batch
build_normalized_trade_insert_batch catalogue kind dedupe_by_mt5_position_only existing rows =
    let by_value = compares_values kind dedupe_by_mt5_position_only in
    take_rows catalogue kind by_value (stored_keys catalogue kind by_value existing) rows
      (no_batch existing)
