-- ===== src/Prelude/Strip.antt =====
-- What stripping a text leaves.
use mathlib.Core.List.{reverse, reverse-append, reverse-cons, reverse-reverse}
use Prim.Native.Nat.{ℕ}
use mathlib.Core.Path.{◌≡◌, refl, ap, ◌∙◌}
use mathlib.Core.Logic.{inl, inr}
use mathlib.Core.Bool.{Bool, true, false, not}
use mathlib.Core.List.{[], ◌∷◌, ◌++◌}
use native.Mathlib.Omega.{arith}
use fxjournal.Prelude.Tests.{Bool-cases}
use fxjournal.Prelude.Text.{Text, drop_while, strip_by}

-- A text that does not begin with a character of the test.
abbrev pub starts_clear : (ℕ → Bool) → Text → Bool
starts_clear p [] = true
starts_clear p (c ∷ _) = not (p c)

module _ (p : ℕ → Bool) where
  starts_clear-drop_while : (s : Text) → starts_clear p (drop_while p s) ≡ true
  unfolding drop_while
  starts_clear-drop_while [] = refl
  starts_clear-drop_while (c ∷ s) = elim (Bool-cases (p c)) [
    | inl y ↦ rw y (starts_clear-drop_while s)
    | inr n ↦ rw n (rw n refl)
  ]

  -- A last character that fails the test stops the dropping.
  drop_while-snoc :
      (s : Text) (c : ℕ) → p c ≡ false → drop_while p (s ++ c ∷ []) ≡ drop_while p s ++ c ∷ []
  unfolding drop_while
  drop_while-snoc [] c h = rw h refl
  drop_while-snoc (d ∷ s) c h = elim (Bool-cases (p d)) [
    | inl y ↦ rw y (drop_while-snoc s c h)
    | inr n ↦ rw n refl
  ]

  starts_clear-trim :
      (s : Text)
      → starts_clear p s ≡ true
      → starts_clear p (reverse (drop_while p (reverse s))) ≡ true
  starts_clear-trim [] h = unfold drop_while in refl
  starts_clear-trim (c ∷ s) h =
      rw reverse-cons (rw (drop_while-snoc (reverse s) c (ground arith)) (rw reverse-append h))

  pub starts_clear-strip_by : (s : Text) → starts_clear p (strip_by p s) ≡ true
  unfolding strip_by
  starts_clear-strip_by s = starts_clear-trim (drop_while p s) (starts_clear-drop_while s)

  drop_while-clear : (s : Text) → starts_clear p s ≡ true → drop_while p s ≡ s
  unfolding drop_while
  drop_while-clear [] h = refl
  drop_while-clear (c ∷ s) h = ground arith

  drop_while_idem : (s : Text) → drop_while p (drop_while p s) ≡ drop_while p s
  drop_while_idem s = drop_while-clear (drop_while p s) (starts_clear-drop_while s)

  -- Stripping a stripped text changes nothing.
  pub strip_by_idem : (s : Text) → strip_by p (strip_by p s) ≡ strip_by p s
  unfolding strip_by
  strip_by_idem s =
      ap (λ (t : Text). reverse (drop_while p (reverse t)))
        (drop_while-clear (strip_by p s) (starts_clear-strip_by s))
      ∙ ap reverse (
          ap (drop_while p) (reverse-reverse (drop_while p (reverse (drop_while p s))))
          ∙ drop_while_idem (reverse (drop_while p s)))
