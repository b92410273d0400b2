-- ===== src/Imports/Again.antt =====
-- helpers/core.py: an import that is repeated inserts nothing.
use fxjournal.Prelude.{
  ◌≡◌, ◌∙◌, refl, sym, ap, Bool, true, false, ◌||◌, not, Option, List, [], ◌∷◌, ◌++◌, if_cases,
}
use fxjournal.Prelude.Int.{ℤ}
use fxjournal.Imports.Keyed.{
  contains_key-append, keyed, or_swap, or_true, refresh_keeps_keys, same_key_self,
  stored_keys-append,
}
use fxjournal.Imports.Valid.{Accepts, judge-Accepts}
use fxjournal.Imports.{
  AccountType, Batch, Catalogue, Key, Row, Trade, Verdict, accepted,
  build_normalized_trade_insert_batch, compares_values, contains_key, count_duplicate, insert_trade,
  is_cfd, is_present, judge, key_of, no_batch, refresh_duplicates, refused, same_key, stored_key,
  stored_keys, take_row, take_rows, unknown_symbol,
}

module _ (catalogue : Catalogue) (kind : AccountType) (by_value : Bool) (known : List Key) where
  -- The stored keys stay, and the remembered keys are those that the batch would be stored with.
  abbrev Tracks : Batch → Type 0
  Tracks b =
      (stored_keys catalogue kind by_value b.existing ≡ known)
      × ((k : Key)
          → contains_key k b.import_keys
            ≡ contains_key k (stored_keys catalogue kind by_value b.insert_batch))

  -- Whether an accepted trade would be found by its key once it is stored.
  abbrev IsKeyed : Verdict → Type 0
  IsKeyed (unknown_symbol _) = Unit
  IsKeyed (refused _) = Unit
  IsKeyed (accepted t) =
      ((by_value || is_present t.mt5_position) ≡ true)
      × (stored_key catalogue kind by_value t ≡ key_of by_value t)

  insert-Tracks :
      (t : Trade) (b : Batch)
      → IsKeyed (accepted t)
      → Tracks b
      → Tracks (insert_trade (key_of by_value t) t b)
  insert-Tracks t b found (same, remembered) = (
    same,
    λ k.
        ap (λ (x : Bool). same_key (key_of by_value t) k || x) (remembered k)
        ∙ or_swap (same_key (key_of by_value t) k)
            (contains_key k (stored_keys catalogue kind by_value b.insert_batch))
        ∙ sym (
            ap (contains_key k) (stored_keys-append catalogue kind by_value b.insert_batch (t ∷ []))
            ∙ contains_key-append k (stored_keys catalogue kind by_value b.insert_batch)
                (stored_keys catalogue kind by_value (t ∷ []))
            ∙ ap
                (λ (keys : List Key).
                  contains_key k (stored_keys catalogue kind by_value b.insert_batch)
                  || contains_key k keys)
                (alone found)),
  )
    where
      alone :
          IsKeyed (accepted t)
          → stored_keys catalogue kind by_value (t ∷ []) ≡ key_of by_value t ∷ []
      alone h = rw h.0 (ap (λ (k : Key). k ∷ []) h.1)

  -- Whether the key of an accepted row is known or remembered.
  abbrev IsSeen : Verdict → Batch → Type 0
  IsSeen (unknown_symbol _) b = Unit
  IsSeen (refused _) b = Unit
  IsSeen (accepted t) b =
      (contains_key (key_of by_value t) known || contains_key (key_of by_value t) b.import_keys)
      ≡ true

  count_keeps_keys :
      (v : Bool) (k : Key) (row : Row) (b : Batch)
      → (count_duplicate catalogue kind v k row b).import_keys ≡ b.import_keys
  count_keeps_keys true k row b = refl
  count_keeps_keys false k row b = refl

  take_row-IsSeen :
      (row : Row) (v : Verdict) (b : Batch)
      → IsSeen v (take_row catalogue kind by_value known row v b)
  take_row-IsSeen row (unknown_symbol s) b = tt
  take_row-IsSeen row (refused r) b = tt
  take_row-IsSeen row (accepted t) b =
      let k = key_of by_value t in
      if_cases (IsSeen (accepted t)) (contains_key k known || contains_key k b.import_keys)
        (count_duplicate catalogue kind by_value k row b) (insert_trade k t b)
        (λ e.
          ap (λ (keys : List Key). contains_key k known || contains_key k keys)
            (count_keeps_keys by_value k row b)
          ∙ e)
        (λ _.
          ap (λ (x : Bool). contains_key k known || (x || contains_key k b.import_keys))
            (same_key_self k)
          ∙ or_true (contains_key k known))

  row_grows :
      (row : Row) (v w : Verdict) (b : Batch)
      → IsSeen w b
      → IsSeen w (take_row catalogue kind by_value known row v b)
  row_grows row v (unknown_symbol _) b h = tt
  row_grows row v (refused _) b h = tt
  row_grows row (unknown_symbol _) (accepted t) b h = h
  row_grows row (refused _) (accepted t) b h = h
  row_grows row (accepted u) (accepted t) b h =
      let k = key_of by_value u in
      if_cases (IsSeen (accepted t)) (contains_key k known || contains_key k b.import_keys)
        (count_duplicate catalogue kind by_value k row b) (insert_trade k u b)
        (λ _.
          ap
            (λ (keys : List Key).
              contains_key (key_of by_value t) known || contains_key (key_of by_value t) keys)
            (count_keeps_keys by_value k row b)
          ∙ h)
        (λ _.
          grows (contains_key (key_of by_value t) known) (same_key k (key_of by_value t))
            (contains_key (key_of by_value t) b.import_keys) h)
    where
      grows : (a x c : Bool) → (a || c) ≡ true → (a || (x || c)) ≡ true
      grows true x c e = refl
      grows false true c e = refl
      grows false false c e = e

  rows_grow :
      (rows : List Row) (w : Verdict) (b : Batch)
      → IsSeen w b
      → IsSeen w (take_rows catalogue kind by_value known rows b)
  rows_grow [] w b h = h
  rows_grow (row ∷ rows) w b h =
      rows_grow rows w (take_row catalogue kind by_value known row (judge catalogue kind row) b)
        (row_grows row (judge catalogue kind row) w b h)

  abbrev AreSeen : List Row → Batch → Type 0
  AreSeen [] b = Unit
  AreSeen (row ∷ rows) b = IsSeen (judge catalogue kind row) b × AreSeen rows b

  take_rows_seen :
      (rows : List Row) (b : Batch) → AreSeen rows (take_rows catalogue kind by_value known rows b)
  take_rows_seen [] b = tt
  take_rows_seen (row ∷ rows) b =
      let next = take_row catalogue kind by_value known row (judge catalogue kind row) b in
      (
        rows_grow rows (judge catalogue kind row) next
            (take_row-IsSeen row (judge catalogue kind row) b),
        take_rows_seen rows next,
      )

  count-Tracks :
      (v : Bool)
      → v ≡ by_value
      → (k : Key) (row : Row) (b : Batch) → Tracks b
      → Tracks (count_duplicate catalogue kind v k row b)
  count-Tracks true e k row b (same, remembered) = (
    (ap
            (λ (v : Bool).
              stored_keys catalogue kind v (refresh_duplicates catalogue kind k row b.existing).0)
            (sym e)
          ∙ refresh_keeps_keys catalogue kind k row b.existing)
        ∙ (ap (λ (v : Bool). stored_keys catalogue kind v b.existing) e ∙ same),
    remembered,
  )
  count-Tracks false e k row b h = h

  take_row-Tracks :
      (row : Row) (v : Verdict) (b : Batch)
      → IsKeyed v
      → Tracks b
      → Tracks (take_row catalogue kind by_value known row v b)
  take_row-Tracks row (unknown_symbol _) b keyed h = h
  take_row-Tracks row (refused _) b keyed h = h
  take_row-Tracks row (accepted t) b keyed h =
      let k = key_of by_value t in
      if_cases Tracks (contains_key k known || contains_key k b.import_keys)
        (count_duplicate catalogue kind by_value k row b) (insert_trade k t b)
        (λ _. count-Tracks by_value refl k row b h) (λ _. insert-Tracks t b keyed h)

  take_rows_track :
      ((row : Row) → IsKeyed (judge catalogue kind row))
      → (rows : List Row) (b : Batch) → Tracks b
      → Tracks (take_rows catalogue kind by_value known rows b)
  take_rows_track keyed [] b h = h
  take_rows_track keyed (row ∷ rows) b h =
      take_rows_track keyed rows
        (take_row catalogue kind by_value known row (judge catalogue kind row) b)
        (take_row-Tracks row (judge catalogue kind row) b (keyed row) h)

abbrev IsKnown : Bool → List Key → Verdict → Type 0
IsKnown by_value known (unknown_symbol _) = Unit
IsKnown by_value known (refused _) = Unit
IsKnown by_value known (accepted t) = contains_key (key_of by_value t) known ≡ true

abbrev AreKnown : Catalogue → AccountType → Bool → List Key → List Row → Type 0
AreKnown catalogue kind by_value known [] = Unit
AreKnown catalogue kind by_value known (row ∷ rows) =
    IsKnown by_value known (judge catalogue kind row) × AreKnown catalogue kind by_value known rows

take_known_row :
    (catalogue : Catalogue) (kind : AccountType) (by_value : Bool) (known : List Key) (row : Row)
    (v : Verdict) (b : Batch)
    → IsKnown by_value known v
    → (take_row catalogue kind by_value known row v b).insert_batch ≡ b.insert_batch
take_known_row catalogue kind by_value known row (unknown_symbol _) b h = refl
take_known_row catalogue kind by_value known row (refused _) b h = refl
take_known_row catalogue kind by_value known row (accepted t) b h = rw h (counts by_value)
  where
    counts :
        (v : Bool)
        → (count_duplicate catalogue kind v (key_of by_value t) row b).insert_batch ≡ b.insert_batch
    counts true = refl
    counts false = refl

-- Rows whose keys are all known leave no trade to insert.
take_known_rows :
    (catalogue : Catalogue) (kind : AccountType) (by_value : Bool) (known : List Key)
    (rows : List Row) (b : Batch)
    → AreKnown catalogue kind by_value known rows
    → (take_rows catalogue kind by_value known rows b).insert_batch ≡ b.insert_batch
take_known_rows catalogue kind by_value known [] b h = refl
take_known_rows catalogue kind by_value known (row ∷ rows) b h =
    take_known_rows catalogue kind by_value known rows
      (take_row catalogue kind by_value known row (judge catalogue kind row) b) h.1
    ∙ take_known_row catalogue kind by_value known row (judge catalogue kind row) b h.0

module _ (catalogue : Catalogue) (kind : AccountType) (by_value : Bool) (known : List Key)
    (b : Batch) (tracks : Tracks catalogue kind by_value known b) where
  stored_then :
      (k : Key)
      → contains_key k (stored_keys catalogue kind by_value (b.existing ++ b.insert_batch))
        ≡ (contains_key k known || contains_key k b.import_keys)
  stored_then k =
      ap (contains_key k) (stored_keys-append catalogue kind by_value b.existing b.insert_batch)
      ∙ contains_key-append k (stored_keys catalogue kind by_value b.existing)
          (stored_keys catalogue kind by_value b.insert_batch)
      ∙ ap
          (λ (keys : List Key).
            contains_key k keys
            || contains_key k (stored_keys catalogue kind by_value b.insert_batch))
          tracks.0
      ∙ ap (λ (x : Bool). contains_key k known || x) (sym (tracks.1 k))

  once_stored-IsKnown :
      (v : Verdict)
      → IsSeen catalogue kind by_value known v b
      → IsKnown by_value (stored_keys catalogue kind by_value (b.existing ++ b.insert_batch)) v
  once_stored-IsKnown (unknown_symbol _) h = tt
  once_stored-IsKnown (refused _) h = tt
  once_stored-IsKnown (accepted t) h = stored_then (key_of by_value t) ∙ h

  all_known_then :
      (rows : List Row)
      → AreSeen catalogue kind by_value known rows b
      → AreKnown catalogue kind by_value
          (stored_keys catalogue kind by_value (b.existing ++ b.insert_batch))
          rows
  all_known_then [] h = tt
  all_known_then (row ∷ rows) h =
      (once_stored-IsKnown (judge catalogue kind row) h.0, all_known_then rows h.1)

verdict-IsKeyed :
    (catalogue : Catalogue) (kind : AccountType) (only : Bool) (v : Verdict)
    → (is_cfd kind || not only) ≡ true
    → Accepts catalogue kind v
    → IsKeyed catalogue kind (compares_values kind only) [] v
verdict-IsKeyed catalogue kind only (unknown_symbol _) h ok = tt
verdict-IsKeyed catalogue kind only (refused _) h ok = tt
verdict-IsKeyed catalogue kind only (accepted t) h ok = (
  keyed catalogue kind only t h ok.0,
  ap (λ (pnl : Option ℤ). key_of (compares_values kind only) (record t { pnl = pnl })) ok.1,
)

-- Once its trades are stored, the same import inserts nothing, but for an account of futures whose trades
-- are compared by their MT5 position.
pub import_again :
    (catalogue : Catalogue) (kind : AccountType) (only : Bool) (existing : List Trade)
    (rows : List Row)
    → (is_cfd kind || not only) ≡ true
    → (build_normalized_trade_insert_batch catalogue kind only
        ((build_normalized_trade_insert_batch catalogue kind only existing rows).existing
          ++ (build_normalized_trade_insert_batch catalogue kind only existing rows).insert_batch)
        rows).insert_batch
      ≡ []
unfolding build_normalized_trade_insert_batch
import_again catalogue kind only existing rows h =
    let by_value = compares_values kind only in
    let known = stored_keys catalogue kind by_value existing in
    let first = take_rows catalogue kind by_value known rows (no_batch existing) in
    let tracks =
      take_rows_track catalogue kind by_value known
        (λ row.
          verdict-IsKeyed catalogue kind only (judge catalogue kind row) h
            (judge-Accepts catalogue kind row))
        rows (no_batch existing) (refl, λ k. refl) in
    take_known_rows catalogue kind by_value
      (stored_keys catalogue kind by_value (first.existing ++ first.insert_batch)) rows
      (no_batch (first.existing ++ first.insert_batch))
      (all_known_then catalogue kind by_value known first tracks rows
        (take_rows_seen catalogue kind by_value known rows (no_batch existing)))
