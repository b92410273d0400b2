-- ===== src/Imports/Fresh.antt =====
-- helpers/core.py: an import inserts no trade twice, and none that is stored.
use mathlib.Core.List.{reverse, reverse-append}
use fxjournal.Prelude.{
  ◌≡◌, ◌∙◌, refl, sym, ap, Bool, true, false, ◌||◌, List, [], ◌∷◌, ◌++◌, map, if_cases,
}
use fxjournal.Imports.{
  AccountType, Batch, Catalogue, Key, Row, Trade, Verdict, accepted,
  build_normalized_trade_insert_batch, compares_values, contains_key, count_duplicate, judge,
  key_of, no_batch, refused, stored_keys, take_row, take_rows, unknown_symbol,
}

-- No key of the list is among the known ones or stands further on.
abbrev pub IsNewTo : List Key → List Key → Type 0
IsNewTo known [] = Unit
IsNewTo known (k ∷ keys) =
    (contains_key k known ≡ false) × (contains_key k keys ≡ false) × IsNewTo known keys

neither : (a b : Bool) → (a || b) ≡ false → (a ≡ false) × (b ≡ false)
neither true b h = cc
neither false true h = cc
neither false false h = (refl, refl)

-- The keys of the trades of a batch, the last first, which are the keys that it remembers.
abbrev batch_keys : Bool → Batch → List Key
batch_keys by_value b = map (key_of by_value) (reverse b.insert_batch)

abbrev IsClean : Bool → List Key → Batch → Type 0
IsClean by_value known b = (b.import_keys ≡ batch_keys by_value b) × IsNewTo known b.import_keys

snoc_keys :
    (by_value : Bool) (trades : List Trade) (t : Trade)
    → map (key_of by_value) (reverse (trades ++ t ∷ []))
      ≡ key_of by_value t ∷ map (key_of by_value) (reverse trades)
snoc_keys by_value trades t = ap (map (key_of by_value)) (reverse-append trades (t ∷ []))

module _ (catalogue : Catalogue) (kind : AccountType) (by_value : Bool) (known : List Key) where
  take_row-IsClean :
      (row : Row) (v : Verdict) (b : Batch)
      → IsClean by_value known b
      → IsClean by_value known (take_row catalogue kind by_value known row v b)
  take_row-IsClean row (unknown_symbol s) b h = h
  take_row-IsClean row (refused r) b h = h
  take_row-IsClean row (accepted t) b (same, new) =
      if_cases (IsClean by_value known)
        (contains_key (key_of by_value t) known || contains_key (key_of by_value t) b.import_keys) _
        _ (λ _. duplicates by_value (key_of by_value t))
        (λ e.
          let unseen =
            neither (contains_key (key_of by_value t) known)
              (contains_key (key_of by_value t) b.import_keys) e in
          (
            ap (λ (keys : List Key). key_of by_value t ∷ keys) same
                ∙ sym (snoc_keys by_value b.insert_batch t),
            (unseen.0, unseen.1, new),
          ))
    where
      duplicates :
          (v : Bool) (k : Key) → IsClean by_value known (count_duplicate catalogue kind v k row b)
      duplicates true k = (same, new)
      duplicates false k = (same, new)

  take_rows-IsClean :
      (rows : List Row) (b : Batch)
      → IsClean by_value known b
      → IsClean by_value known (take_rows catalogue kind by_value known rows b)
  take_rows-IsClean [] b h = h
  take_rows-IsClean (row ∷ rows) b h =
      take_rows-IsClean rows
        (take_row catalogue kind by_value known row (judge catalogue kind row) b)
        (take_row-IsClean row (judge catalogue kind row) b h)

-- The keys of the inserted trades, the last first, are none of the stored trades' and pairwise distinct.
pub import_inserts_once :
    (catalogue : Catalogue) (kind : AccountType) (dedupe_by_mt5_position_only : Bool)
    (existing : List Trade) (rows : List Row)
    → IsNewTo
        (stored_keys catalogue kind (compares_values kind dedupe_by_mt5_position_only) existing)
        (map (key_of (compares_values kind dedupe_by_mt5_position_only)) (
          reverse
            (build_normalized_trade_insert_batch catalogue kind dedupe_by_mt5_position_only existing
              rows).insert_batch))
unfolding build_normalized_trade_insert_batch
import_inserts_once catalogue kind only existing rows =
    let by_value = compares_values kind only in
    let known = stored_keys catalogue kind by_value existing in
    let clean =
      take_rows-IsClean catalogue kind by_value known rows (no_batch existing) (refl, tt) in
    rw (sym clean.0) clean.1
