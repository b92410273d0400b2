-- ===== src/Imports/Valid.antt =====
-- helpers/core.py: what an import inserts.
use fxjournal.Prelude.{
  ℕ, ◌≡◌, refl, sym, Bool, true, false, ◌&&◌, ◌||◌, not, Option, none, some, List, [], ◌∷◌, all_of,
  all_of-append, if◌then◌else◌, if_cases, is_some, Bool-cases, inl, inr,
}
use fxjournal.Prelude.Int.{ℤ, pos, ltb_ℤ}
use fxjournal.Prelude.Text.{Text, is_blank, strip, upper}
use fxjournal.Imports.{
  AccountType, Batch, Catalogue, Key, LevelIssues, Reason, Row, Trade, Verdict, accepted,
  build_normalized_trade_insert_batch, clean_position, compares_values, contains_key,
  count_duplicate, get_trade_level_validation_issues, is_before_open, is_cfd,
  is_missing_or_positive, is_present, is_side, judge, judge_levels, judge_opened, judge_numbers,
  judge_times, key_of, no_batch, pnl_or_computed, refused, resolve_pnl, row_trade, snapped,
  stored_keys, take_row, take_rows, unknown_symbol,
}

abbrev levels_of : Catalogue → AccountType → Trade → LevelIssues
levels_of catalogue kind t =
    get_trade_level_validation_issues
      (catalogue.get_trade_price_tolerance kind t.symbol t.contract_code) t.entry_price t.stop_loss
      t.take_profit t.side

-- What an inserted trade has: an allowed symbol, an MT5 position where the account is not of futures, a
-- side, positive numbers, times in order, and levels on their sides.
abbrev pub is_valid : Catalogue → AccountType → Trade → Bool
is_valid catalogue kind t =
    (not (is_cfd kind) || is_present t.mt5_position)
    && (catalogue.is_allowed kind t.symbol
        && is_side t.side
        && ltb_ℤ (pos 0) t.lot_size
        && ltb_ℤ (pos 0) t.entry_price
        && is_missing_or_positive t.exit_price
        && not (is_before_open t.closed_at t.opened_at)
        && not (levels_of catalogue kind t).stop_loss_too_close
        && not (levels_of catalogue kind t).invalid_stop_loss_side
        && not (levels_of catalogue kind t).take_profit_too_close
        && not (levels_of catalogue kind t).invalid_take_profit_side)

neither : (a b : Bool) → (a || b) ≡ false → (not a && not b) ≡ true
neither true b h = cc
neither false true h = cc
neither false false h = refl

un_not : (b : Bool) → not b ≡ false → b ≡ true
un_not true h = refl
un_not false h = cc

or_false_left : (a b : Bool) → (not a || not b) ≡ false → (a ≡ true) × (b ≡ true)
or_false_left true true h = (refl, refl)
or_false_left true false h = cc
or_false_left false b h = cc

present : (p : Option Text) → is_some (clean_position p) ≡ is_present (clean_position p)
present none = refl
present (some p) = elim (Bool-cases (is_blank (strip p))) [
  | inl e ↦ rw e refl
  | inr e ↦ rw e (rw e refl)
]

given : (a b : Bool) → (a && not b) ≡ false → (not a || b) ≡ true
given true b h = un_not b h
given false b h = refl

abbrev pub Accepts : Catalogue → AccountType → Verdict → Type 0
Accepts catalogue kind (unknown_symbol _) = Unit
Accepts catalogue kind (refused _) = Unit
Accepts catalogue kind (accepted t) =
    (is_valid catalogue kind t ≡ true) × (resolve_pnl catalogue kind t ≡ t.pnl)

-- A result that was computed is not computed anew.
resolved_once :
    (catalogue : Catalogue) (kind : AccountType) (t : Trade) (pnl exit_price : Option ℤ)
    → pnl_or_computed catalogue kind t (pnl_or_computed catalogue kind t pnl exit_price) exit_price
      ≡ pnl_or_computed catalogue kind t pnl exit_price
resolved_once catalogue kind t (some pnl) exit_price = refl
resolved_once catalogue kind t none none = refl
resolved_once catalogue kind t none (some exit_price) =
    again (pnl_or_computed catalogue kind t none (some exit_price)) refl
  where
    again :
        (o : Option ℤ)
        → pnl_or_computed catalogue kind t none (some exit_price) ≡ o
        → pnl_or_computed catalogue kind t o (some exit_price) ≡ o
    again none e = e
    again (some _) e = refl

if_refused :
    (catalogue : Catalogue) (kind : AccountType) (c : Bool) (r : Reason) (v : Verdict)
    → (c ≡ false → Accepts catalogue kind v)
    → Accepts catalogue kind (if c then refused r else v)
if_refused catalogue kind c r v h = if_cases (Accepts catalogue kind) c (refused r) v (λ _. tt) h

module _ (catalogue : Catalogue) (kind : AccountType) where
  judge_levels-Accepts :
      (t : Trade)
      → catalogue.is_allowed kind t.symbol ≡ true
      → (not (is_cfd kind) || is_present t.mt5_position) ≡ true
      → is_side t.side ≡ true
      → ltb_ℤ (pos 0) t.lot_size ≡ true
      → ltb_ℤ (pos 0) t.entry_price ≡ true
      → is_missing_or_positive t.exit_price ≡ true
      → is_before_open t.closed_at t.opened_at ≡ false
      → Accepts catalogue kind (judge_levels catalogue kind t)
  judge_levels-Accepts t allowed position side lot entry exit times =
      if_refused catalogue kind (levels_of catalogue kind t).stop_loss_too_close _ _ (λ a.
        if_refused catalogue kind (levels_of catalogue kind t).invalid_stop_loss_side _ _ (λ b.
          if_refused catalogue kind
            ((levels_of catalogue kind t).take_profit_too_close
              || (levels_of catalogue kind t).invalid_take_profit_side)
            _ _
            (λ c. (
              rw allowed (
                  rw position (
                    rw side (
                      rw lot (
                        rw entry (
                          rw exit (
                            rw times (
                              rw a (
                                rw b (
                                  neither (levels_of catalogue kind t).take_profit_too_close
                                    (levels_of catalogue kind t).invalid_take_profit_side
                                    c))))))))),
              resolved_once catalogue kind t t.pnl t.exit_price,
            ))))

  judge_times-Accepts :
      (t : Trade)
      → catalogue.is_allowed kind t.symbol ≡ true
      → (not (is_cfd kind) || is_present t.mt5_position) ≡ true
      → is_side t.side ≡ true
      → ltb_ℤ (pos 0) t.lot_size ≡ true
      → ltb_ℤ (pos 0) t.entry_price ≡ true
      → is_missing_or_positive t.exit_price ≡ true
      → Accepts catalogue kind (judge_times catalogue kind t)
  judge_times-Accepts t allowed position side lot entry exit =
      if_refused catalogue kind (is_before_open t.closed_at t.opened_at) _ _
        (λ times. judge_levels-Accepts t allowed position side lot entry exit times)

  judge_numbers-Accepts :
      (row : Row) (symbol side : Text) (lot entry : Option ℤ) (opened : Option ℕ)
      → catalogue.is_allowed kind symbol ≡ true
      → (not (is_cfd kind) || is_present (clean_position row.mt5_position)) ≡ true
      → is_side side ≡ true
      → Accepts catalogue kind (judge_numbers catalogue kind row symbol side lot entry opened)
  judge_numbers-Accepts row symbol side none entry opened allowed position sided = tt
  judge_numbers-Accepts row symbol side (some lot) none opened allowed position sided = tt
  judge_numbers-Accepts row symbol side (some lot) (some entry) opened allowed position sided =
      if_refused catalogue kind (not (ltb_ℤ (pos 0) lot) || not (ltb_ℤ (pos 0) entry)) _ _
        (λ numbers.
          if_refused catalogue kind
            (not (
              is_missing_or_positive
                (snapped catalogue kind symbol row.contract_code row.exit_price)))
            _ _ (λ exit. timed opened numbers exit))
    where
      timed :
          (opened' : Option ℕ)
          → (not (ltb_ℤ (pos 0) lot) || not (ltb_ℤ (pos 0) entry)) ≡ false
          → not (
              is_missing_or_positive
                (snapped catalogue kind symbol row.contract_code row.exit_price))
            ≡ false
          → Accepts catalogue kind (judge_opened catalogue kind row symbol side lot entry opened')
      timed none numbers exit = tt
      timed (some o) numbers exit =
          let both = or_false_left (ltb_ℤ (pos 0) lot) (ltb_ℤ (pos 0) entry) numbers in
          judge_times-Accepts (row_trade catalogue kind row symbol side lot entry o) allowed
            position sided both.0 both.1 (un_not _ exit)

  pub judge-Accepts : (row : Row) → Accepts catalogue kind (judge catalogue kind row)
  unfolding judge
  judge-Accepts row =
      if_cases (Accepts catalogue kind)
        (not (catalogue.is_allowed kind (catalogue.canonicalize_symbol kind row.symbol))) _ _
        (λ _. tt)
        (λ allowed.
          if_refused catalogue kind (is_cfd kind && not (is_some (clean_position row.mt5_position)))
            _ _
            (λ position.
              if_refused catalogue kind (not (is_side (upper (strip row.side)))) _ _ (λ side.
                judge_numbers-Accepts row _ _ row.lot_size _ row.opened_at (un_not _ allowed)
                  (rw (sym (present row.mt5_position))
                    (given (is_cfd kind) (is_some (clean_position row.mt5_position)) position))
                  (un_not _ side))))

  abbrev IsValidBatch : Batch → Type 0
  IsValidBatch b = all_of (is_valid catalogue kind) b.insert_batch ≡ true

  take_row_valid :
      (by_value : Bool) (known : List Key) (row : Row) (v : Verdict) (b : Batch)
      → Accepts catalogue kind v
      → IsValidBatch b
      → IsValidBatch (take_row catalogue kind by_value known row v b)
  take_row_valid by_value known row (unknown_symbol s) b ok h = h
  take_row_valid by_value known row (refused r) b ok h = h
  take_row_valid by_value known row (accepted t) b ok h =
      if_cases IsValidBatch
        (contains_key (key_of by_value t) known || contains_key (key_of by_value t) b.import_keys) _
        _ (λ _. duplicates by_value)
        (λ _. all_of-append (is_valid catalogue kind) b.insert_batch (t ∷ []) h (rw ok.0 refl))
    where
      duplicates :
          (v : Bool) → IsValidBatch (count_duplicate catalogue kind v (key_of by_value t) row b)
      duplicates true = h
      duplicates false = h

  take_rows_valid :
      (by_value : Bool) (known : List Key) (rows : List Row) (b : Batch)
      → IsValidBatch b
      → IsValidBatch (take_rows catalogue kind by_value known rows b)
  take_rows_valid by_value known [] b h = h
  take_rows_valid by_value known (row ∷ rows) b h =
      take_rows_valid by_value known rows
        (take_row catalogue kind by_value known row (judge catalogue kind row) b)
        (take_row_valid by_value known row (judge catalogue kind row) b (judge-Accepts row) h)

  -- Every trade that an import inserts has an allowed symbol, a side, a positive size and entry price, an
  -- exit price that is positive if there is one, times in order, levels on their sides, and an MT5
  -- position unless the account is of futures.
  pub import_inserts_valid :
      (dedupe_by_mt5_position_only : Bool) (existing : List Trade) (rows : List Row)
      → all_of
          (is_valid catalogue kind)
          (build_normalized_trade_insert_batch catalogue kind dedupe_by_mt5_position_only existing
            rows).insert_batch
        ≡ true
  unfolding build_normalized_trade_insert_batch
  import_inserts_valid only existing rows =
      take_rows_valid (compares_values kind only)
        (stored_keys catalogue kind (compares_values kind only) existing) rows (no_batch existing)
        refl
