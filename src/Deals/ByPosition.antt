-- ===== src/Deals/ByPosition.antt =====
-- `aggregate_deals_to_trades` position by position.
use fxjournal.Prelude.{
  ℕ, ◌≡◌, ◌∙◌, refl, sym, ap, Bool, true, false, not, Option, none, some, List, [], ◌∷◌, ltb, leb,
  ◌==◌, ◌≤◌, if◌then◌else◌, all_of, find_first, keep, arith, Bool-cases, Option-cases, inl, inr,
}
use fxjournal.Deals.{
  Deal, Params, Trade, add_trade, aggregate_deals_to_trades, by_time, group_from, is_entry, is_exit,
  is_trading, latest, position_trade, Sums, sums_of, trade_of, trades_of, volume_of,
  weighted_average_price,
}
use fxjournal.Deals.Grouping.{
  Groups, deals_of, deals_of-group_from, ids_distinct, ids_distinct-group_from,
}
use fxjournal.Deals.Totals.{AnySums, history_of, position_trade-AnySums}

abbrev pub trade_at : ℕ → List Trade → Option Trade
trade_at p trades = find_first (λ t. t.mt5_position == p) trades

-- A trade of the position is found first; no trade, or one of another position, is passed over.
trade_at-none :
    (p : ℕ) (o : Option Trade) (ts : List Trade)
    → o ≡ none
    → trade_at p (add_trade o ts) ≡ trade_at p ts
trade_at-none p o ts h = rw h refl

trade_at-some :
    (p q : ℕ) (o : Option Trade) (t : Trade) (ts : List Trade)
    → o ≡ some t
    → t.mt5_position ≡ q
    → (q == p) ≡ true
    → trade_at p (add_trade o ts) ≡ o
trade_at-some p q o t ts h at same = rw h (rw at (rw same refl))

trade_at-other :
    (p q : ℕ) (o : Option Trade) (t : Trade) (ts : List Trade)
    → o ≡ some t
    → t.mt5_position ≡ q
    → (q == p) ≡ false
    → trade_at p (add_trade o ts) ≡ trade_at p ts
trade_at-other p q o t ts h at other = rw h (rw at (rw other refl))

position_in :
    (p : ℕ) (sums : Sums) (o : Option Trade) (t : Trade)
    → AnySums p sums o
    → o ≡ some t
    → t.mt5_position ≡ p
position_in p sums none t at h = cc
position_in p sums (some u) t (at, commission, swap, pnl) h =
    let same : u ≡ t = cc h in rw (sym same) at

position_of :
    (ps : Params) (p : ℕ) (ds : List Deal) (t : Trade)
    → position_trade ps p ds ≡ some t
    → t.mt5_position ≡ p
position_of ps p ds t h =
    position_in p (sums_of ds) (position_trade ps p ds) t (position_trade-AnySums ps p ds) h

position_trade-nil : (ps : Params) (p : ℕ) → position_trade ps p [] ≡ none
unfolding position_trade by_time weighted_average_price
position_trade-nil ps p = refl

deals_of-absent :
    (p : ℕ) (groups : Groups) → all_of (λ g. not (g.0 == p)) groups ≡ true → deals_of p groups ≡ []
deals_of-absent p [] h = refl
deals_of-absent p ((q, ds) ∷ groups) h =
    let other : (q == p) ≡ false = ground arith in
    rw other (deals_of-absent p groups (ground arith))

same_number : (a b : ℕ) → (a == b) ≡ true → a ≡ b
same_number a b h = ground arith

same_and_none :
    (ps : Params) (p q : ℕ) (ds : List Deal) (groups : Groups)
    → (q == p) ≡ true
    → all_of (λ g. not (g.0 == q)) groups ≡ true
    → position_trade ps q ds ≡ none
    → trade_at p (trades_of ps groups) ≡ position_trade ps p (deals_of p groups)
    → trade_at p (trades_of ps ((q, ds) ∷ groups))
      ≡ position_trade ps p (deals_of p ((q, ds) ∷ groups))
same_and_none ps p q ds groups same others nothing tail =
    let e = same_number q p same in
    let here : position_trade ps p ds ≡ none = rw (sym e) nothing in
    let absent : deals_of p groups ≡ [] =
      deals_of-absent p groups
        (ap (λ (x : ℕ). all_of (λ g. not (g.0 == x)) groups) (sym e) ∙ others) in
    trade_at-none p _ _ nothing
    ∙ tail
    ∙ ap (position_trade ps p) absent
    ∙ position_trade-nil ps p
    ∙ rw same (sym here)

trade_at-trades_of :
    (ps : Params) (p : ℕ) (groups : Groups)
    → ids_distinct groups ≡ true
    → trade_at p (trades_of ps groups) ≡ position_trade ps p (deals_of p groups)
trade_at-trades_of ps p [] h = sym (position_trade-nil ps p)
trade_at-trades_of ps p ((q, ds) ∷ groups) h =
    let rest : ids_distinct groups ≡ true = ground arith in
    let others : all_of (λ g. not (g.0 == q)) groups ≡ true = ground arith in
    let tail = trade_at-trades_of ps p groups rest in
    elim (Bool-cases (q == p)) [
      | inl same ↦ elim (Option-cases (position_trade ps q ds)) [
        | inl nothing ↦ same_and_none ps p q ds groups same others nothing tail
        | inr (t, found) ↦
            trade_at-some p q _ t _ found (position_of ps q ds t found) same
            ∙ rw same (ap (λ (x : ℕ). position_trade ps x ds) (same_number q p same))
      ]
      | inr other ↦ elim (Option-cases (position_trade ps q ds)) [
        | inl nothing ↦ trade_at-none p _ _ nothing ∙ rw other tail
        | inr (t, found) ↦
            trade_at-other p q _ t _ found (position_of ps q ds t found) other ∙ rw other tail
      ]
    ]

-- The trade of a position is the one that its own buy and sell deals make, wherever they stand in the history and whatever stands between them; a position without any has none.
pub aggregates_by_position :
    (ps : Params) (deals : List Deal) (p : ℕ)
    → trade_at p (aggregate_deals_to_trades ps deals) ≡ position_trade ps p (history_of deals p)
unfolding aggregate_deals_to_trades
aggregates_by_position ps deals p =
    trade_at-trades_of ps p (group_from [] (keep is_trading deals))
      (ids_distinct-group_from [] (keep is_trading deals) refl)
    ∙ ap (position_trade ps p) (deals_of-group_from p [] (keep is_trading deals))

either_none : (c : Bool) → ◌≡◌ {A = Option Trade} (if c then none else none) none
either_none true = refl
either_none false = refl

no_trade :
    (ps : Params) (p : ℕ) (sums : Sums) (entries exits : List Deal) (last : Deal)
    → latest exits ≡ some last
    → weighted_average_price exits ≡ none
    → volume_of entries ≤ volume_of exits
    → trade_of ps p sums entries exits ≡ none
no_trade ps p sums [] exits last some_exit unpriced offset = rw (some_exit, unpriced) refl
no_trade ps p sums (first ∷ entries) exits last some_exit unpriced offset =
    elim (Option-cases (weighted_average_price (first ∷ entries))) [
      | inl free ↦ rw free refl
      | inr (price, counted) ↦
          let covered : ltb (volume_of exits) (volume_of (first ∷ entries)) ≡ false =
            ground arith in
          rw (counted, some_exit, unpriced, covered)
            (either_none (leb (volume_of (first ∷ entries)) 0))
    ]

-- A position whose exits offset the volume of its entries, at prices none of which counts, is dropped: it makes neither an open trade nor a closed one.
pub unpriced_exit_is_lost :
    (ps : Params) (deals : List Deal) (p : ℕ) (last : Deal)
    → let sorted = by_time (history_of deals p) in
      latest (keep (is_exit ps) sorted) ≡ some last
      → weighted_average_price (keep (is_exit ps) sorted) ≡ none
      → volume_of (keep (is_entry ps) sorted) ≤ volume_of (keep (is_exit ps) sorted)
      → trade_at p (aggregate_deals_to_trades ps deals) ≡ none
unfolding position_trade
unpriced_exit_is_lost ps deals p last some_exit unpriced offset =
    aggregates_by_position ps deals p
    ∙ no_trade ps p (sums_of (by_time (history_of deals p)))
        (keep (is_entry ps) (by_time (history_of deals p)))
        (keep (is_exit ps) (by_time (history_of deals p))) last some_exit unpriced offset
