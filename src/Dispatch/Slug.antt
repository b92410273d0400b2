-- ===== src/Dispatch/Slug.antt =====
-- The shape of a queue slug.
use mathlib.Core.List.{reverse, reverse-cons}
use fxjournal.Prelude.{
  ℕ, zero, suc, ◌≤◌, ◌≡◌, refl, Bool, true, false, ◌&&◌, ◌||◌, not, inl, inr, [], ◌∷◌, ◌==◌, length,
  take, all_of, all_of-take, all_of-append, length-take-le, arith, Bool-cases,
}
use fxjournal.Prelude.Text.{Text, drop_while, is_blank, lower, strip, strip_by}
use fxjournal.Prelude.Strip.{starts_clear, starts_clear-strip_by}
use fxjournal.Dispatch.{
  or_unknown, dash, is_slug_char, sub_runs, slug_text, unknown, vm_id_to_queue_slug,
}

-- What a slug is made of.
abbrev pub is_slug_or_dash : ℕ → Bool
is_slug_or_dash c = is_slug_char c || c == dash

sub_runs-makes :
    (inside : Bool) (s : Text)
    → all_of is_slug_or_dash (sub_runs (λ c. not (is_slug_char c)) inside s) ≡ true
unfolding sub_runs
sub_runs-makes inside [] = refl
sub_runs-makes inside (c ∷ s) = elim (Bool-cases (is_slug_char c)) [
  | inl good ↦ rw good (rw good (sub_runs-makes false s))
  | inr bad ↦ rw bad (ground (arith, sub_runs-makes true s))
]

and_true : (a b : Bool) → a && b ≡ true → (a ≡ true) × (b ≡ true)
and_true a b h = ground arith

sub_runs-keeps :
    (inside : Bool) (s : Text)
    → all_of is_slug_or_dash s ≡ true
    → all_of is_slug_or_dash (sub_runs (λ c. c == dash) inside s) ≡ true
unfolding sub_runs
sub_runs-keeps inside [] h = refl
sub_runs-keeps inside (c ∷ s) h =
    let ih =
      sub_runs-keeps (c == dash) s (and_true (is_slug_or_dash c) (all_of is_slug_or_dash s) h).1 in
    ground (arith, ih)

module _ (q p : ℕ → Bool) where
  all_of-drop_while : (s : Text) → all_of q s ≡ true → all_of q (drop_while p s) ≡ true
  unfolding drop_while
  all_of-drop_while [] h = refl
  all_of-drop_while (c ∷ s) h = ground (arith, all_of-drop_while s)

  all_of-reverse : (s : Text) → all_of q s ≡ true → all_of q (reverse s) ≡ true
  all_of-reverse [] h = refl
  all_of-reverse (c ∷ s) h = rw reverse-cons (
      all_of-append q (reverse s) (c ∷ []) (all_of-reverse s (and_true (q c) (all_of q s) h).1)
        (ground arith))

  all_of-strip_by : (s : Text) → all_of q s ≡ true → all_of q (strip_by p s) ≡ true
  unfolding strip_by
  all_of-strip_by s h =
      all_of-reverse _ (all_of-drop_while _ (all_of-reverse _ (all_of-drop_while s h)))

starts_clear-take :
    (p : ℕ → Bool) (n : ℕ) (s : Text) → starts_clear p s ≡ true → starts_clear p (take n s) ≡ true
starts_clear-take p zero s h = refl
starts_clear-take p (suc n) [] h = refl
starts_clear-take p (suc n) (c ∷ s) h = h

abbrev pub IsSlug : Text → Type 0
IsSlug s =
    (all_of is_slug_or_dash s ≡ true)
    × (starts_clear (λ c. c == dash) s ≡ true)
    × (1 ≤ length s)
    × (length s ≤ 48)

unknown-IsSlug : IsSlug unknown
unknown-IsSlug = (refl, refl, omega arith, omega arith)

or_unknown-IsSlug :
    (s : Text)
    → all_of is_slug_or_dash s ≡ true
    → starts_clear (λ c. c == dash) s ≡ true
    → IsSlug (or_unknown s)
or_unknown-IsSlug [] h k = unknown-IsSlug
or_unknown-IsSlug (c ∷ s) h k = (
  all_of-take is_slug_or_dash 48 (c ∷ s) h,
  starts_clear-take (λ c. c == dash) 48 (c ∷ s) k,
  omega arith,
  length-take-le 48 (c ∷ s),
)

slug_text-IsSlug : (text : Text) → IsSlug (or_unknown (slug_text text))
unfolding slug_text
slug_text-IsSlug text =
    or_unknown-IsSlug (slug_text text)
      (all_of-strip_by is_slug_or_dash (λ c. c == dash) _
        (sub_runs-keeps false _ (sub_runs-makes false text)))
      (starts_clear-strip_by (λ c. c == dash) _)

-- A slug is made of a-z, 0-9 and dashes, does not begin with a dash, and has between 1 and 48 characters, whatever the VM id.
pub vm_id_to_queue_slug-IsSlug : (vm_id : Text) → IsSlug (vm_id_to_queue_slug vm_id)
unfolding vm_id_to_queue_slug
vm_id_to_queue_slug-IsSlug vm_id = elim (Bool-cases (is_blank (lower (strip vm_id)))) [
  | inl blank ↦ rw blank unknown-IsSlug
  | inr named ↦ rw named (slug_text-IsSlug (lower (strip vm_id)))
]
