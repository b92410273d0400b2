-- ===== src/Prelude/Lists.antt =====
-- Lists measured and indexed by native numbers, under the library's names, and Boolean searches.
use Prim.Native.Nat.{ℕ, zero, suc, ◌+◌, ◌≤◌}
use mathlib.Core.Path.{◌≡◌, refl}
use mathlib.Core.Bool.{Bool, true, false, ◌||◌, ◌&&◌}
use mathlib.Core.Option.{Option, none, some}
use mathlib.Core.List.{List, [], ◌∷◌, ◌++◌}
use native.Mathlib.Omega.{arith}
use fxjournal.Prelude.Tests.{if◌then◌else◌}

module _ {ℓ} {A : Type ℓ} where
  abbrev pub length : List A → ℕ
  length [] = 0
  length (_ ∷ xs) = suc (length xs)

  abbrev pub get_elem? : List A → ℕ → Option A
  get_elem? [] _ = none
  get_elem? (x ∷ _) zero = some x
  get_elem? (_ ∷ xs) (suc i) = get_elem? xs i

  abbrev pub take : ℕ → List A → List A
  take zero _ = []
  take (suc _) [] = []
  take (suc n) (x ∷ xs) = x ∷ take n xs

  abbrev pub drop : ℕ → List A → List A
  drop zero xs = xs
  drop (suc _) [] = []
  drop (suc n) (_ ∷ xs) = drop n xs

  -- `[x for x in xs if p x]`.
  abbrev pub keep : (A → Bool) → List A → List A
  keep p [] = []
  keep p (x ∷ xs) = let rest = keep p xs in if p x then x ∷ rest else rest

  -- `any(p(x) for x in xs)`.
  abbrev pub any_of : (A → Bool) → List A → Bool
  any_of p [] = false
  any_of p (x ∷ xs) = p x || any_of p xs

  abbrev pub all_of : (A → Bool) → List A → Bool
  all_of p [] = true
  all_of p (x ∷ xs) = p x && all_of p xs

  -- `next((x for x in xs if p(x)), None)`.
  abbrev pub find_first : (A → Bool) → List A → Option A
  find_first p [] = none
  find_first p (x ∷ xs) = let rest = find_first p xs in if p x then some x else rest

module _ {ℓ} {A : Type ℓ} where
  pub length-append : (xs ys : List A) → length (xs ++ ys) ≡ length xs + length ys
  length-append [] ys = omega arith
  length-append (x ∷ xs) ys = omega (arith, length-append xs ys)

  pub length-take-le : (n : ℕ) (xs : List A) → length (take n xs) ≤ n
  length-take-le zero xs = omega arith
  length-take-le (suc n) [] = omega arith
  length-take-le (suc n) (x ∷ xs) = omega (arith, length-take-le n xs)

  -- A prefix keeps whatever every element has.
  pub all_of-take :
      (p : A → Bool) (n : ℕ) (xs : List A) → all_of p xs ≡ true → all_of p (take n xs) ≡ true
  all_of-take p zero xs h = refl
  all_of-take p (suc n) [] h = refl
  all_of-take p (suc n) (x ∷ xs) h = ground (arith, all_of-take p n xs)

  pub all_of-append :
      (p : A → Bool) (xs ys : List A)
      → all_of p xs ≡ true
      → all_of p ys ≡ true
      → all_of p (xs ++ ys) ≡ true
  all_of-append p [] ys h k = k
  all_of-append p (x ∷ xs) ys h k = ground (arith, all_of-append p xs ys)

  pub length-drop-le : (n : ℕ) (xs : List A) → length (drop n xs) ≤ length xs
  length-drop-le zero xs = omega arith
  length-drop-le (suc n) [] = omega arith
  length-drop-le (suc n) (x ∷ xs) = omega (arith, length-drop-le n xs)

  pub nil_of_length : (xs : List A) → length xs ≤ 0 → xs ≡ []
  nil_of_length [] h = refl
  nil_of_length (x ∷ xs) h = absurd (omega arith)

  pub take-nil : (n : ℕ) → ◌≡◌ {A = List A} (take n []) []
  take-nil zero = refl
  take-nil (suc n) = refl

  -- What stands at an index is the head of what is left there.
  pub drop-step :
      (n : ℕ) (xs : List A) (v : A) → get_elem? xs n ≡ some v → drop n xs ≡ v ∷ drop (suc n) xs
  drop-step zero [] v h = cc
  drop-step zero (x ∷ xs) v h = cc h
  drop-step (suc n) [] v h = cc
  drop-step (suc n) (x ∷ xs) v h = drop-step n xs v h

  pub drop-end : (n : ℕ) (xs : List A) → get_elem? xs n ≡ none → drop n xs ≡ []
  drop-end zero [] h = refl
  drop-end zero (x ∷ xs) h = cc
  drop-end (suc n) [] h = refl
  drop-end (suc n) (x ∷ xs) h = drop-end n xs h
