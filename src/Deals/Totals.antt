-- ===== src/Deals/Totals.antt =====
-- The money of the trades that `aggregate_deals_to_trades` makes.
use fxjournal.Prelude.{
  ℕ, ◌+◌, ◌≡◌, ◌∙◌, refl, sym, ap, Bool, true, false, Option, none, some, List, [], ◌∷◌, ltb, leb,
  if◌then◌else◌, keep, Bool-cases, inl, inr,
}
use fxjournal.Prelude.Int.{ℤ, ◌+ℤ◌, int_laws}
use fxjournal.Deals.{
  Deal, Params, Sums, Trade, add_trade, aggregate_deals_to_trades, by_time, entered, exit_only,
  group_from, insert, is_entry, is_exit, is_trading, latest, position_trade, priced, sums_of,
  time_key, total, trade_of, trades_of, volume_of, weighted_average_price,
}
use fxjournal.Deals.Grouping.{
  Groups, AllGroups, deals_of, deals_of-group_from, groups_found, ids_distinct-group_from, is_of,
}

swap_added : (a b c : ℤ) → a +ℤ (b +ℤ c) ≡ b +ℤ (a +ℤ c)
swap_added a b c = omega int_laws

module _ (f : Deal → ℤ) where
  total-insert : (d : Deal) (ds : List Deal) → total f (insert d ds) ≡ f d +ℤ total f ds
  unfolding insert
  total-insert d [] = refl
  total-insert d (e ∷ es) = elim (Bool-cases (ltb (time_key e.time) (time_key d.time))) [
    | inl later ↦
        rw later
          (ap (λ (x : ℤ). f e +ℤ x) (total-insert d es) ∙ swap_added (f e) (f d) (total f es))
    | inr here ↦ rw here refl
  ]

  total-by_time : (ds : List Deal) → total f (by_time ds) ≡ total f ds
  unfolding by_time
  total-by_time [] = refl
  total-by_time (d ∷ ds) = total-insert d (by_time ds) ∙ ap (λ (x : ℤ). f d +ℤ x) (total-by_time ds)

-- The trade is of the position and has its sums; its profit is told only once it is closed.
abbrev pub HasSums : ℕ → Sums → Trade → Type 0
HasSums p sums t =
    (t.mt5_position ≡ p)
    × (t.commission ≡ sums.commission)
    × (t.swap ≡ sums.swap)
    × (t.pnl ≡ (if t.is_open then none else some sums.profit))

abbrev pub AnySums : ℕ → Sums → Option Trade → Type 0
AnySums p sums none = Unit
AnySums p sums (some t) = HasSums p sums t

either_sums :
    (p : ℕ) (sums : Sums) (c : Bool) (s t : Option Trade)
    → AnySums p sums s
    → AnySums p sums t
    → AnySums p sums (if c then s else t)
either_sums p sums true s t hs ht = hs
either_sums p sums false s t hs ht = ht

module _ (ps : Params) (p : ℕ) (sums : Sums) where
  exit_only-AnySums :
      (last : Option Deal) (price : Option (ℕ × ℕ)) (volume : ℕ)
      → AnySums p sums (exit_only ps p sums last price volume)
  exit_only-AnySums none price volume = tt
  exit_only-AnySums (some last) none volume = tt
  exit_only-AnySums (some last) (some price) volume =
      either_sums p sums (ltb 0 volume) _ _ (refl, refl, refl, refl) tt

  entered-AnySums :
      (first : Deal) (price : ℕ × ℕ) (volume : ℕ) (last : Option Deal) (exit_price : Option (ℕ × ℕ))
      (exit_volume : ℕ)
      → AnySums p sums (entered ps p sums first price volume last exit_price exit_volume)
  entered-AnySums first price volume none exit_price exit_volume = (refl, refl, refl, refl)
  entered-AnySums first price volume (some last) none exit_volume =
      either_sums p sums (ltb exit_volume volume) _ _ (refl, refl, refl, refl) tt
  entered-AnySums first price volume (some last) (some exit_price) exit_volume =
      either_sums p sums (leb volume (exit_volume + 1)) _ _ (refl, refl, refl, refl)
        (either_sums p sums (ltb exit_volume volume) _ _ (refl, refl, refl, refl) tt)

  priced-AnySums :
      (first : Deal) (price : Option (ℕ × ℕ)) (volume : ℕ) (exits : List Deal)
      → AnySums p sums (priced ps p sums first price volume exits)
  priced-AnySums first none volume exits = tt
  priced-AnySums first (some price) volume exits =
      either_sums p sums (leb volume 0) _ _ tt (entered-AnySums first price volume _ _ _)

  trade_of-AnySums : (entries exits : List Deal) → AnySums p sums (trade_of ps p sums entries exits)
  trade_of-AnySums [] exits =
      exit_only-AnySums (latest exits) (weighted_average_price exits) (volume_of exits)
  trade_of-AnySums (first ∷ entries) exits =
      priced-AnySums first (weighted_average_price (first ∷ entries)) (volume_of (first ∷ entries))
        exits

pub position_trade-AnySums :
    (ps : Params) (p : ℕ) (ds : List Deal) → AnySums p (sums_of ds) (position_trade ps p ds)
unfolding position_trade
position_trade-AnySums ps p ds =
    rw
      (
        total-by_time (λ d. d.commission) ds,
        total-by_time (λ d. d.swap) ds,
        total-by_time (λ d. d.profit) ds,
      )
      (trade_of-AnySums ps p (sums_of ds) (keep (is_entry ps) (by_time ds))
        (keep (is_exit ps) (by_time ds)))

abbrev pub AllTrades : (Trade → Type 0) → List Trade → Type 0
AllTrades P [] = Unit
AllTrades P (t ∷ ts) = P t × AllTrades P ts

-- The deals of a position in the whole history.
abbrev pub history_of : List Deal → ℕ → List Deal
history_of deals p = keep (is_of p) (keep is_trading deals)

abbrev pub IsAccounted : List Deal → Trade → Type 0
IsAccounted deals t = HasSums t.mt5_position (sums_of (history_of deals t.mt5_position)) t

add_trade-AllTrades :
    (deals : List Deal) (p : ℕ) (o : Option Trade) (ts : List Trade)
    → AnySums p (sums_of (history_of deals p)) o
    → AllTrades (IsAccounted deals) ts
    → AllTrades (IsAccounted deals) (add_trade o ts)
add_trade-AllTrades deals p none ts h all = all
add_trade-AllTrades deals p (some t) ts (at, commission, swap, pnl) all = (
  (
    refl,
    commission ∙ ap (λ (q : ℕ). total (λ d. d.commission) (history_of deals q)) (sym at),
    swap ∙ ap (λ (q : ℕ). total (λ d. d.swap) (history_of deals q)) (sym at),
    pnl
        ∙ ap
            (λ (q : ℕ).
              if t.is_open then none else some (total (λ d. d.profit) (history_of deals q)))
            (sym at),
  ),
  all,
)

trades_of-AllTrades :
    (ps : Params) (deals : List Deal) (groups : Groups)
    → AllGroups (λ p ds. history_of deals p ≡ ds) groups
    → AllTrades (IsAccounted deals) (trades_of ps groups)
trades_of-AllTrades ps deals [] all = tt
trades_of-AllTrades ps deals ((p, ds) ∷ groups) (here, all) =
    add_trade-AllTrades deals p _ _ (rw here (position_trade-AnySums ps p ds))
      (trades_of-AllTrades ps deals groups all)

same_history :
    (deals : List Deal) (groups rest : Groups)
    → ((p : ℕ) → deals_of p groups ≡ history_of deals p)
    → AllGroups (λ p ds. deals_of p groups ≡ ds) rest
    → AllGroups (λ p ds. history_of deals p ≡ ds) rest
same_history deals groups [] h all = tt
same_history deals groups ((p, ds) ∷ rest) h (here, all) =
    (sym (h p) ∙ here, same_history deals groups rest h all)

-- Every trade has the commission and the swap of all buy and sell deals that the history holds of its position, none left out and none counted twice; a closed trade has their profit too, and an open one has none.
pub aggregate_deals_to_trades-IsAccounted :
    (ps : Params) (deals : List Deal)
    → AllTrades (IsAccounted deals) (aggregate_deals_to_trades ps deals)
unfolding aggregate_deals_to_trades
aggregate_deals_to_trades-IsAccounted ps deals = trades_of-AllTrades ps deals groups (
    same_history deals groups groups (λ p. deals_of-group_from p [] (keep is_trading deals))
      (groups_found groups (ids_distinct-group_from [] (keep is_trading deals) refl)))
  where
    groups : Groups
    groups = group_from [] (keep is_trading deals)
