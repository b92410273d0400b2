-- ===== src/RunningPnl/Counted.antt =====
-- The counts of the running events, against those of the rows.
use fxjournal.Prelude.{
  ℕ, suc, ◌+◌, ◌≡◌, ◌∙◌, refl, ap, Bool, true, false, ◌&&◌, Option, List, [], ◌∷◌, ◌==◌,
  if◌then◌else◌, keep, length, arith,
}
use fxjournal.Prelude.Int.{ℤ}
use fxjournal.RunningPnl.{
  Event, EventType, count_of, deposit, withdrawal, adjustment, trade_close, type_priority, in_dates,
  in_order, insert, run, since, until, after_cash, after_realized,
}

pub and_assoc : (a b c : Bool) → (a && (b && c)) ≡ (a && b && c)
and_assoc a b c = ground arith

-- The number of the events that pass a test.
abbrev pub number_of : (Event → Bool) → List Event → ℕ
number_of q [] = 0
number_of q (e ∷ es) = let rest = number_of q es in if q e then suc rest else rest

number_of-insert :
    (q : Event → Bool) (a : Event) (bs : List Event)
    → number_of q (insert a bs) ≡ number_of q (a ∷ bs)
unfolding insert
number_of-insert q a [] = refl
number_of-insert q a (b ∷ bs) = ground (arith, number_of-insert q a bs)

number_of-in_order :
    (q : Event → Bool) (es : List Event) → number_of q (in_order es) ≡ number_of q es
unfolding in_order
number_of-in_order q [] = refl
number_of-in_order q (a ∷ es) =
    let moved = number_of-insert q a (in_order es) in ground (arith, moved, number_of-in_order q es)

number_of-keep :
    (q p : Event → Bool) (es : List Event)
    → number_of q (keep p es) ≡ number_of (λ e. p e && q e) es
number_of-keep q p [] = refl
number_of-keep q p (e ∷ es) = ground (arith, number_of-keep q p es)

number_of-same :
    (p q : Event → Bool) (es : List Event)
    → ((e : Event) → p e ≡ q e)
    → number_of p es ≡ number_of q es
number_of-same p q [] h = refl
number_of-same p q (e ∷ es) h = rw (h e, number_of-same p q es h) refl

pub number_of-dated :
    (q : Event → Bool) (date_from date_to : Option ℕ) (es : List Event)
    → number_of q (keep (until date_to) (keep (since date_from) (in_order es)))
      ≡ number_of (λ e. in_dates date_from date_to e && q e) es
number_of-dated q date_from date_to es =
    number_of-keep q (until date_to) _
    ∙ number_of-keep (λ e. until date_to e && q e) (since date_from) (in_order es)
    ∙ number_of-in_order _ es
    ∙ number_of-same _ _ es (λ e. and_assoc (since date_from e) (until date_to e) (q e))

-- The types of events, told apart.
abbrev pub is_type : EventType → EventType → Bool
is_type deposit deposit = true
is_type withdrawal withdrawal = true
is_type adjustment adjustment = true
is_type trade_close trade_close = true
is_type _ _ = false

priority_tells : (kind of : EventType) → (type_priority kind == type_priority of) ≡ is_type of kind
priority_tells deposit deposit = refl
priority_tells deposit withdrawal = refl
priority_tells deposit adjustment = refl
priority_tells deposit trade_close = refl
priority_tells withdrawal deposit = refl
priority_tells withdrawal withdrawal = refl
priority_tells withdrawal adjustment = refl
priority_tells withdrawal trade_close = refl
priority_tells adjustment deposit = refl
priority_tells adjustment withdrawal = refl
priority_tells adjustment adjustment = refl
priority_tells adjustment trade_close = refl
priority_tells trade_close deposit = refl
priority_tells trade_close withdrawal = refl
priority_tells trade_close adjustment = refl
priority_tells trade_close trade_close = refl

abbrev more_if : Bool → ℕ → ℕ
more_if test n = if test then suc n else n

pub count_of-run :
    (kind : EventType) (r c : ℤ) (es : List Event)
    → count_of kind (run r c es) ≡ number_of (λ e. is_type kind e.event_type) es
unfolding run
count_of-run kind r c [] = refl
count_of-run kind r c (e ∷ es) =
    ap
      (λ (test : Bool). more_if test (count_of kind (run (after_realized e r) (after_cash e c) es)))
      (priority_tells e.event_type kind)
    ∙ ap (more_if (is_type kind e.event_type))
        (count_of-run kind (after_realized e r) (after_cash e c) es)

pub length-run : (r c : ℤ) (es : List Event) → length (run r c es) ≡ number_of (λ _. true) es
unfolding run
length-run r c [] = refl
length-run r c (e ∷ es) = ap suc (length-run (after_realized e r) (after_cash e c) es)

abbrev one_more : EventType → EventType → ℕ → ℕ
one_more kind of n = more_if (is_type of kind) n

counted_step :
    (kind : EventType) (n a b c d : ℕ)
    → n ≡ a + b + c + d
    → suc n
      ≡ one_more kind trade_close a
        + one_more kind deposit b
        + one_more kind withdrawal c
        + one_more kind adjustment d
counted_step deposit n a b c d h = omega arith
counted_step withdrawal n a b c d h = omega arith
counted_step adjustment n a b c d h = omega arith
counted_step trade_close n a b c d h = omega arith

abbrev pub of_type : EventType → List Event → ℕ
of_type kind = number_of (λ e. is_type kind e.event_type)

pub counted :
    (es : List Event)
    → number_of (λ _. true) es
      ≡ of_type trade_close es + of_type deposit es + of_type withdrawal es + of_type adjustment es
counted [] = refl
counted (e ∷ es) =
    counted_step e.event_type (number_of (λ _. true) es) (of_type trade_close es)
      (of_type deposit es) (of_type withdrawal es) (of_type adjustment es) (counted es)
