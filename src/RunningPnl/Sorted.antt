-- ===== src/RunningPnl/Sorted.antt =====
-- The events of an account are sorted by the code's comparison.
use fxjournal.Prelude.{
  ◌≡◌, refl, Bool, true, false, ◌&&◌, not, List, [], ◌∷◌, all_of, keep, arith, Bool-cases, inl, inr,
}
use fxjournal.RunningPnl.{Event, in_order, insert, is_before}

-- Nothing behind an event comes before it.
abbrev pub IsSorted : List Event → Type 0
IsSorted [] = Unit
IsSorted (a ∷ events) = (all_of (λ b. not (is_before b a)) events ≡ true) × IsSorted events

all_of-insert :
    (P : Event → Bool) (a : Event) (bs : List Event) → all_of P (insert a bs) ≡ (P a && all_of P bs)
unfolding insert
all_of-insert P a [] = refl
all_of-insert P a (b ∷ bs) = ground (arith, all_of-insert P a bs)

all_of-keep :
    (P q : Event → Bool) (events : List Event)
    → all_of P events ≡ true
    → all_of P (keep q events) ≡ true
all_of-keep P q [] h = refl
all_of-keep P q (a ∷ events) h = ground (arith, all_of-keep P q events)

all_of-imp :
    (P Q : Event → Bool) (events : List Event)
    → ((a : Event) → P a ≡ true → Q a ≡ true)
    → all_of P events ≡ true
    → all_of Q events ≡ true
all_of-imp P Q [] h all = refl
all_of-imp P Q (a ∷ events) h all =
    let here = h a (ground arith) in ground (arith, here, all_of-imp P Q events h)

behind_trans :
    (a b c : Event) → is_before b a ≡ false → is_before c b ≡ false → is_before c a ≡ false
unfolding is_before
behind_trans a b c h k = ground arith

before_asym : (a b : Event) → is_before b a ≡ true → is_before a b ≡ false
unfolding is_before
before_asym a b h = ground arith

not-is_before :
    (a b c : Event)
    → is_before b a ≡ false
    → not (is_before c b) ≡ true
    → not (is_before c a) ≡ true
not-is_before a b c h k =
    let out : is_before c b ≡ false = ground arith in
    let far = behind_trans a b c h out in ground (arith, far)

insert-IsSorted : (a : Event) (bs : List Event) → IsSorted bs → IsSorted (insert a bs)
unfolding insert
insert-IsSorted a [] h = (refl, tt)
insert-IsSorted a (b ∷ bs) (below, rest) = elim (Bool-cases (is_before b a)) [
  | inl before ↦ rw before (
    rw (all_of-insert (λ c. not (is_before c b)) a bs) (rw (before_asym a b before) below),
    insert-IsSorted a bs rest,
  )
  | inr behind ↦ rw behind (
    rw behind (
        all_of-imp (λ c. not (is_before c b)) (λ c. not (is_before c a)) bs
          (λ c k. not-is_before a b c behind k) below),
    (below, rest),
  )
]

pub in_order-IsSorted : (events : List Event) → IsSorted (in_order events)
unfolding in_order
in_order-IsSorted [] = tt
in_order-IsSorted (a ∷ events) = insert-IsSorted a (in_order events) (in_order-IsSorted events)

pub keep-IsSorted :
    (q : Event → Bool) (events : List Event) → IsSorted events → IsSorted (keep q events)
keep-IsSorted q [] h = tt
keep-IsSorted q (a ∷ events) (below, rest) = elim (Bool-cases (q a)) [
  | inl kept ↦
      rw kept (all_of-keep (λ b. not (is_before b a)) q events below, keep-IsSorted q events rest)
  | inr left ↦ rw left (keep-IsSorted q events rest)
]
