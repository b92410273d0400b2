-- ===== src/Dispatch/Casing.antt =====
-- Routing does not look at the case of a VM id.
use mathlib.Core.List.{reverse, reverse-cons, map-append}
use fxjournal.Prelude.{
  ℕ, zero, suc, ◌≡◌, refl, sym, ap, ◌∙◌, ◌||◌, Option, none, some, [], ◌∷◌, ◌++◌, ◌==◌, take,
  any_of, or_else, arith, Bool-cases, inl, inr,
}
use fxjournal.Prelude.Text.{
  Text, drop_while, is_blank, is_space, lower, lower_char, lower_idem, same_text, strip, strip_by,
}
use fxjournal.Dispatch.{
  QueueKind, behind_prefix, celery_vm_id, kind_queue_name, one_line, named_part, drop_unknown,
  routing_vm_id, unknown, vm_id_to_queue_slug,
}

abbrev lower_option : Option Text → Option Text
lower_option none = none
lower_option (some s) = some (lower s)

is_space-lower_char : (c : ℕ) → is_space (lower_char c) ≡ is_space c
is_space-lower_char c = ground arith

newline-lower_char : (c : ℕ) → (lower_char c == 10) ≡ (c == 10)
newline-lower_char c = ground arith

reverse-lower : (s : Text) → reverse (lower s) ≡ lower (reverse s)
unfolding lower
reverse-lower [] = refl
reverse-lower (c ∷ s) =
    rw (reverse-cons, reverse-cons, map-append)
      (ap (λ (t : Text). t ++ (lower_char c ∷ [])) (reverse-lower s))

drop_while-lower : (s : Text) → drop_while is_space (lower s) ≡ lower (drop_while is_space s)
unfolding drop_while lower
drop_while-lower [] = refl
drop_while-lower (c ∷ s) = elim (Bool-cases (is_space c)) [
  | inl y ↦ rw (is_space-lower_char c) (rw y (drop_while-lower s))
  | inr n ↦ rw (is_space-lower_char c) (rw n refl)
]

strip-lower : (s : Text) → strip (lower s) ≡ lower (strip s)
unfolding strip strip_by
strip-lower s = rw (drop_while-lower, reverse-lower, drop_while-lower, reverse-lower)

take-lower : (n : ℕ) (s : Text) → take n (lower s) ≡ lower (take n s)
unfolding lower
take-lower zero s = refl
take-lower (suc n) [] = refl
take-lower (suc n) (c ∷ s) = ap (λ (t : Text). lower_char c ∷ t) (take-lower n s)

newline-lower : (s : Text) → any_of (λ c. c == 10) (lower s) ≡ any_of (λ c. c == 10) s
unfolding lower
newline-lower [] = refl
newline-lower (c ∷ s) = rw (newline-lower_char c, newline-lower s)

is_blank-lower : (s : Text) → is_blank (lower s) ≡ is_blank s
unfolding lower
is_blank-lower [] = refl
is_blank-lower (c ∷ s) = refl

one_line-lower : (o : Option Text) → one_line (lower_option o) ≡ lower_option (one_line o)
one_line-lower none = refl
one_line-lower (some s) =
    rw (is_blank-lower, newline-lower)
      (elim (Bool-cases (is_blank s || any_of (λ c. c == 10) s)) [
        | inl y ↦ rw y refl
        | inr n ↦ rw n refl
      ])

lower_char_idem : (c : ℕ) → lower_char (lower_char c) ≡ lower_char c
lower_char_idem c = ground arith

behind_prefix-lower : (p s : Text) → behind_prefix p (lower s) ≡ lower_option (behind_prefix p s)
unfolding behind_prefix lower
behind_prefix-lower [] s = refl
behind_prefix-lower (p ∷ ps) [] = refl
behind_prefix-lower (p ∷ ps) (c ∷ s) =
    rw lower_char_idem (elim (Bool-cases (same_text (lower_char c ∷ []) (p ∷ []))) [
      | inl y ↦ rw y (behind_prefix-lower ps s)
      | inr n ↦ rw n refl
    ])

or_else-lower :
    (a b : Option Text) → or_else (lower_option a) (lower_option b) ≡ lower_option (or_else a b)
or_else-lower none b = refl
or_else-lower (some s) b = refl

named_part-lower :
    (s : Text) (o : Option Text) → named_part (lower s) (lower_option o) ≡ lower (named_part s o)
named_part-lower s none = refl
named_part-lower s (some t) = strip-lower t

drop_unknown-lower : (s : Text) → drop_unknown (lower s) ≡ lower (drop_unknown s)
drop_unknown-lower s = rw lower_idem (elim (Bool-cases (same_text (lower s) unknown)) [
  | inl y ↦ rw y (unfold lower in refl)
  | inr n ↦ rw n refl
])

celery_vm_id-lower : (s : Text) → celery_vm_id (lower s) ≡ lower_option (celery_vm_id s)
unfolding celery_vm_id
celery_vm_id-lower s = simp (behind_prefix-lower, one_line-lower, or_else-lower)

routing_vm_id-lower : (v : Text) → routing_vm_id (lower v) ≡ lower (routing_vm_id v)
unfolding routing_vm_id
routing_vm_id-lower v =
    simp (strip-lower, celery_vm_id-lower, named_part-lower, take-lower, drop_unknown-lower)

slug-lower : (v : Text) → vm_id_to_queue_slug (lower v) ≡ vm_id_to_queue_slug v
unfolding vm_id_to_queue_slug
slug-lower v = rw (strip-lower v) (rw (lower_idem (strip v)) refl)

kind_queue_name-lower :
    (kind : QueueKind) (v : Text) → kind_queue_name kind (lower v) ≡ kind_queue_name kind v
unfolding kind_queue_name
kind_queue_name-lower kind v = rw (routing_vm_id-lower v) (rw (slug-lower (routing_vm_id v)) refl)

-- VM ids that differ only in case have the same queue of every kind.
pub queue_ignores_case :
    (kind : QueueKind) (v w : Text)
    → lower v ≡ lower w
    → kind_queue_name kind v ≡ kind_queue_name kind w
queue_ignores_case kind v w h =
    sym (kind_queue_name-lower kind v) ∙ ap (kind_queue_name kind) h ∙ kind_queue_name-lower kind w
