-- ===== src/Imports/Counted.antt =====
-- helpers/core.py: what the numbers of an import tell.
use fxjournal.Prelude.{
  ℕ, suc, ◌+◌, ◌≡◌, Bool, true, false, ◌||◌, List, [], ◌∷◌, if_cases, length, length-append, arith,
}
use fxjournal.Imports.{
  AccountType, Batch, Catalogue, Key, Row, Trade, Verdict, accepted,
  build_normalized_trade_insert_batch, compares_values, contains_key, count_duplicate, judge,
  key_of, no_batch, refused, stored_keys, take_row, take_rows, unknown_symbol,
}

abbrev pub total : Batch → ℕ
total b = length b.insert_batch + b.validation_skipped + b.duplicate_count

take_row_counts :
    (catalogue : Catalogue) (kind : AccountType) (by_value : Bool) (known : List Key) (row : Row)
    (v : Verdict) (b : Batch)
    → total (take_row catalogue kind by_value known row v b) ≡ suc (total b)
take_row_counts catalogue kind by_value known row (unknown_symbol s) b = omega arith
take_row_counts catalogue kind by_value known row (refused r) b = omega arith
take_row_counts catalogue kind by_value known row (accepted t) b =
    if_cases (λ (c : Batch). total c ≡ suc (total b))
      (contains_key (key_of by_value t) known || contains_key (key_of by_value t) b.import_keys) _ _
      (λ _. duplicates by_value) (λ _. omega (arith, length-append b.insert_batch (t ∷ [])))
  where
    duplicates :
        (v : Bool)
        → total (count_duplicate catalogue kind v (key_of by_value t) row b) ≡ suc (total b)
    duplicates true = omega arith
    duplicates false = omega arith

take_rows_count :
    (catalogue : Catalogue) (kind : AccountType) (by_value : Bool) (known : List Key)
    (rows : List Row) (b : Batch)
    → total (take_rows catalogue kind by_value known rows b) ≡ total b + length rows
take_rows_count catalogue kind by_value known [] b = omega arith
take_rows_count catalogue kind by_value known (row ∷ rows) b = omega (
  arith,
  take_rows_count catalogue kind by_value known rows
      (take_row catalogue kind by_value known row (judge catalogue kind row) b),
  take_row_counts catalogue kind by_value known row (judge catalogue kind row) b,
)

-- Each row is inserted, skipped or a duplicate, and counted once.
pub import_counts_rows :
    (catalogue : Catalogue) (kind : AccountType) (dedupe_by_mt5_position_only : Bool)
    (existing : List Trade) (rows : List Row)
    → length
          (build_normalized_trade_insert_batch catalogue kind dedupe_by_mt5_position_only existing
            rows).insert_batch
        + (build_normalized_trade_insert_batch catalogue kind dedupe_by_mt5_position_only existing
            rows).validation_skipped
        + (build_normalized_trade_insert_batch catalogue kind dedupe_by_mt5_position_only existing
            rows).duplicate_count
      ≡ length rows
unfolding build_normalized_trade_insert_batch
import_counts_rows catalogue kind only existing rows = omega (
  arith,
  take_rows_count catalogue kind (compares_values kind only)
      (stored_keys catalogue kind (compares_values kind only) existing) rows (no_batch existing),
)
