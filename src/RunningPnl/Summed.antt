-- ===== src/RunningPnl/Summed.antt =====
-- The summary of the running events, against sums over the rows.
use fxjournal.Prelude.{
  ℕ, ◌+◌, ◌≡◌, ◌∙◌, refl, sym, ap, Bool, ◌&&◌, not, Option, List, [], ◌∷◌, if◌then◌else◌, keep,
  Bool-cases, inl, inr,
}
use fxjournal.Prelude.Int.{ℤ, pos, ◌+ℤ◌, int_laws, +ℤ_assoc, +ℤ_zero, zero-+ℤ}
use fxjournal.RunningPnl.{
  CashFlow, Event, EventType, TradeRow, build_running_pnl_events, count_of, deposit, withdrawal,
  adjustment, trade_close, in_dates, in_order, insert, is_before, is_close, last_total, raw_events,
  run, since, summarize_running_pnl, until, after_cash, after_realized,
}
use fxjournal.RunningPnl.Counted.{
  and_assoc, count_of-run, counted, is_type, length-run, number_of, number_of-dated,
}

-- The sum of the amounts of the events that pass a test.
abbrev pub amount_of : (Event → Bool) → List Event → ℤ
amount_of q [] = pos 0
amount_of q (e ∷ es) = let rest = amount_of q es in if q e then e.amount +ℤ rest else rest

abbrev pub not_close : Event → Bool
not_close e = not (is_close e)

swap_added : (a b c : ℤ) → a +ℤ (b +ℤ c) ≡ b +ℤ (a +ℤ c)
swap_added a b c = omega int_laws

amount_of-swap :
    (q : Event → Bool) (a b : Event) (es : List Event)
    → amount_of q (b ∷ a ∷ es) ≡ amount_of q (a ∷ b ∷ es)
amount_of-swap q a b es = elim (Bool-cases (q a)) [
  | inl yes_a ↦ elim (Bool-cases (q b)) [
    | inl yes_b ↦ rw (yes_a, yes_b) (swap_added b.amount a.amount (amount_of q es))
    | inr no_b ↦ rw (yes_a, no_b) refl
  ]
  | inr no_a ↦ rw no_a refl
]

abbrev plus : (Event → Bool) → Event → ℤ → ℤ
plus q e rest = if q e then e.amount +ℤ rest else rest

amount_of-insert :
    (q : Event → Bool) (a : Event) (bs : List Event)
    → amount_of q (insert a bs) ≡ amount_of q (a ∷ bs)
unfolding insert
amount_of-insert q a [] = refl
amount_of-insert q a (b ∷ bs) = elim (Bool-cases (is_before b a)) [
  | inl before ↦ rw before (ap (plus q b) (amount_of-insert q a bs) ∙ amount_of-swap q a b bs)
  | inr behind ↦ rw behind refl
]

amount_of-in_order :
    (q : Event → Bool) (es : List Event) → amount_of q (in_order es) ≡ amount_of q es
unfolding in_order
amount_of-in_order q [] = refl
amount_of-in_order q (a ∷ es) =
    amount_of-insert q a (in_order es) ∙ ap (plus q a) (amount_of-in_order q es)

amount_of-keep :
    (q p : Event → Bool) (es : List Event)
    → amount_of q (keep p es) ≡ amount_of (λ e. p e && q e) es
amount_of-keep q p [] = refl
amount_of-keep q p (e ∷ es) = elim (Bool-cases (p e)) [
  | inl kept ↦ rw kept (ap (plus q e) (amount_of-keep q p es))
  | inr left ↦ rw left (amount_of-keep q p es)
]

last_realized :
    (r c : ℤ) (es : List Event)
    → last_total (λ e. e.running_realized_pnl) r (run r c es) ≡ r +ℤ amount_of is_close es
unfolding run
last_realized r c [] = sym (+ℤ_zero r)
last_realized r c (e ∷ es) =
    last_realized (after_realized e r) (after_cash e c) es ∙ elim (Bool-cases (is_close e)) [
      | inl close ↦ rw close (+ℤ_assoc r e.amount (amount_of is_close es))
      | inr other ↦ rw other refl
    ]

last_cash :
    (r c : ℤ) (es : List Event)
    → last_total (λ e. e.running_cash_flow) c (run r c es) ≡ c +ℤ amount_of not_close es
unfolding run
last_cash r c [] = sym (+ℤ_zero c)
last_cash r c (e ∷ es) =
    last_cash (after_realized e r) (after_cash e c) es ∙ elim (Bool-cases (is_close e)) [
      | inl close ↦ rw close refl
      | inr other ↦ rw other (+ℤ_assoc c e.amount (amount_of not_close es))
    ]

last_net :
    (r c : ℤ) (es : List Event)
    → last_total (λ e. e.running_net_result) (r +ℤ c) (run r c es)
      ≡ last_total (λ e. e.running_realized_pnl) r (run r c es)
        +ℤ last_total (λ e. e.running_cash_flow) c (run r c es)
unfolding run
last_net r c [] = refl
last_net r c (e ∷ es) = last_net (after_realized e r) (after_cash e c) es

amount_of-same :
    (p q : Event → Bool) (es : List Event)
    → ((e : Event) → p e ≡ q e)
    → amount_of p es ≡ amount_of q es
amount_of-same p q [] h = refl
amount_of-same p q (e ∷ es) h = rw (h e) (ap (plus q e) (amount_of-same p q es h))

amount_of-dated :
    (q : Event → Bool) (date_from date_to : Option ℕ) (es : List Event)
    → amount_of q (keep (until date_to) (keep (since date_from) (in_order es)))
      ≡ amount_of (λ e. in_dates date_from date_to e && q e) es
amount_of-dated q date_from date_to es =
    amount_of-keep q (until date_to) _
    ∙ amount_of-keep (λ e. until date_to e && q e) (since date_from) (in_order es)
    ∙ amount_of-in_order _ es
    ∙ amount_of-same _ _ es (λ e. and_assoc (since date_from e) (until date_to e) (q e))

-- In the summary of the events of an account the result of trading is the sum of the closed trades, and the cash flow that of the deposits, withdrawals and adjustments, that lie within the dates, in whatever order they were given; the net result is the sum of both; the count of each type is the number of the events of that type within the dates; and the four counts add up to that of all events.
pub summary_totals :
    (resolver : Option (TradeRow → Option ℤ)) (date_from date_to : Option ℕ)
    (trades : List TradeRow) (flows : List CashFlow)
    → let summary =
        summarize_running_pnl (build_running_pnl_events resolver date_from date_to trades flows) in
      let rows = raw_events resolver trades flows in
      let dated = in_dates date_from date_to in
      (summary.total_realized_pnl ≡ amount_of (λ e. dated e && is_close e) rows)
      × (summary.total_cash_flow ≡ amount_of (λ e. dated e && not_close e) rows)
      × (summary.total_net_result ≡ summary.total_realized_pnl +ℤ summary.total_cash_flow)
      × (summary.deposit_count ≡ number_of (λ e. dated e && is_type deposit e.event_type) rows)
      × (summary.withdrawal_count
          ≡ number_of (λ e. dated e && is_type withdrawal e.event_type) rows)
      × (summary.adjustment_count
          ≡ number_of (λ e. dated e && is_type adjustment e.event_type) rows)
      × (summary.trade_close_count
          ≡ number_of (λ e. dated e && is_type trade_close e.event_type) rows)
      × (summary.event_count
          ≡ summary.trade_close_count + summary.deposit_count + summary.withdrawal_count
            + summary.adjustment_count)
unfolding summarize_running_pnl build_running_pnl_events ◌+ℤ◌
summary_totals resolver date_from date_to trades flows = (
  last_realized (pos 0) (pos 0) events ∙ zero-+ℤ _ ∙ amount_of-dated is_close date_from date_to _,
  last_cash (pos 0) (pos 0) events ∙ zero-+ℤ _ ∙ amount_of-dated not_close date_from date_to _,
  last_net (pos 0) (pos 0) events,
  typed deposit,
  typed withdrawal,
  typed adjustment,
  typed trade_close,
  length-run (pos 0) (pos 0) events
      ∙ counted events
      ∙ sym (
          rw
            (
              count_of-run trade_close (pos 0) (pos 0) events,
              count_of-run deposit (pos 0) (pos 0) events,
              count_of-run withdrawal (pos 0) (pos 0) events,
              count_of-run adjustment (pos 0) (pos 0) events,
            )
            refl),
)
  where
    events : List Event
    events =
        keep (until date_to) (keep (since date_from) (in_order (raw_events resolver trades flows)))

    typed :
        (kind : EventType)
        → count_of kind (run (pos 0) (pos 0) events)
          ≡ number_of
              (λ e. in_dates date_from date_to e && is_type kind e.event_type)
              (raw_events resolver trades flows)
    typed kind =
        count_of-run kind (pos 0) (pos 0) events
        ∙ number_of-dated (λ e. is_type kind e.event_type) date_from date_to _
