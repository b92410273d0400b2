-- ===== src/RunningPnl/Kept.antt =====
-- Sorting the events of an account neither loses nor doubles one.
use mathlib.Core.List.Perm
use mathlib.Core.List.{Perm}
use fxjournal.Prelude.{◌≡◌, refl, ap, Bool, ◌&&◌, List, [], ◌∷◌, keep, Bool-cases, inl, inr}
use fxjournal.RunningPnl.{Event, in_order, insert, is_before}

keep_step :
    (q : Event → Bool) (a : Event) (es fs : List Event)
    → Perm (keep q es) (keep q fs)
    → Perm (keep q (a ∷ es)) (keep q (a ∷ fs))
keep_step q a es fs p = elim (Bool-cases (q a)) [
  | inl kept ↦ rw kept (Perm.cons a p)
  | inr left ↦ rw left p
]

keep_swap :
    (q : Event → Bool) (a b : Event) (es : List Event)
    → Perm (keep q (b ∷ a ∷ es)) (keep q (a ∷ b ∷ es))
keep_swap q a b es = elim (Bool-cases (q a)) [
  | inl yes_a ↦ elim (Bool-cases (q b)) [
    | inl yes_b ↦ rw (yes_a, yes_b) (Perm.swap a b (keep q es))
    | inr no_b ↦ rw (yes_a, no_b) (Perm.refl (a ∷ keep q es))
  ]
  | inr no_a ↦ rw no_a (Perm.refl (keep q (b ∷ es)))
]

insert-perm :
    (q : Event → Bool) (a : Event) (bs : List Event) → Perm (keep q (insert a bs)) (keep q (a ∷ bs))
unfolding insert
insert-perm q a [] = Perm.refl (keep q (a ∷ []))
insert-perm q a (b ∷ bs) = elim (Bool-cases (is_before b a)) [
  | inl before ↦
      rw before (
        Perm.trans (keep_step q b (insert a bs) (a ∷ bs) (insert-perm q a bs)) (keep_swap q a b bs))
  | inr behind ↦ rw behind (Perm.refl (keep q (a ∷ b ∷ bs)))
]

pub in_order-perm :
    (q : Event → Bool) (events : List Event) → Perm (keep q (in_order events)) (keep q events)
unfolding in_order
in_order-perm q [] = Perm.refl []
in_order-perm q (a ∷ events) =
    Perm.trans (insert-perm q a (in_order events))
      (keep_step q a (in_order events) events (in_order-perm q events))

pub keep_both :
    (p q : Event → Bool) (es : List Event) → keep p (keep q es) ≡ keep (λ e. q e && p e) es
keep_both p q [] = refl
keep_both p q (e ∷ es) = elim (Bool-cases (q e)) [
  | inl holds ↦ elim (Bool-cases (p e)) [
    | inl both ↦ rw (holds, both) (ap (◌∷◌ e) (keep_both p q es))
    | inr one ↦ rw (holds, one) (keep_both p q es)
  ]
  | inr fails ↦ rw fails (keep_both p q es)
]
