-- ===== src/Analytics/Runs.antt =====
-- trading.py: the best streaks are the longest runs.
use fxjournal.Prelude.{
  ℕ, suc, ◌+◌, ◌≤◌, ◌≡◌, ◌∙◌, refl, max, Bool, true, false, List, [], ◌∷◌, if◌then◌else◌, arith,
  Bool-cases, inl, inr,
}
use fxjournal.Prelude.Int.{ℤ, pos, ltb_ℤ}
use fxjournal.Analytics.{
  StreakType, Streaks, add_result, add_results, calculate_streaks, loss, no_results, streak_type,
  win,
}

-- How many trades in a row, from the first, pass the test.
abbrev pub leading : (ℤ → Bool) → List ℤ → ℕ
leading p [] = 0
leading p (x ∷ xs) = let rest = leading p xs in if p x then suc rest else 0

-- The longest run of trades that pass the test, wherever it begins.
abbrev pub longest_run : (ℤ → Bool) → List ℤ → ℕ
longest_run p [] = 0
longest_run p (x ∷ xs) = max (leading p (x ∷ xs)) (longest_run p xs)

leading-le : (p : ℤ → Bool) (xs : List ℤ) → leading p xs ≤ longest_run p xs
leading-le p [] = omega arith
leading-le p (x ∷ xs) = omega arith

data Side : Type 0 where
  wins losses : Side

abbrev counts : Side → StreakType → Bool
counts wins win = true
counts losses loss = true
counts _ _ = false

abbrev best : Side → Streaks → ℕ
best wins s = s.best_win_streak
best losses s = s.best_loss_streak

-- The length of the run that goes on.
abbrev carry : Side → Streaks → ℕ
carry side s = if counts side s.current_type then s.current_length else 0

carry_counted :
    (side : Side) (kind : StreakType) (s : Streaks)
    → counts side kind ≡ true
    → (carry side (add_result kind s) ≡ suc (carry side s))
      × (best side (add_result kind s) ≡ max (best side s) (suc (carry side s)))
carry_counted side kind s h = (ground arith, ground arith)

carry_other :
    (side : Side) (kind : StreakType) (s : Streaks)
    → counts side kind ≡ false
    → (carry side (add_result kind s) ≡ 0) × (best side (add_result kind s) ≡ best side s)
carry_other side kind s h = (ground arith, ground arith)

-- Whether a trade counts for the side.
abbrev is_side : Side → ℤ → Bool
is_side side pnl = counts side (streak_type pnl)

-- What is left to come after a state, and the best of it.
abbrev EndsBest : Side → List ℤ → Streaks → Type 0
EndsBest side xs s =
    best side (add_results xs s)
    ≡ max (best side s)
        (max (carry side s + leading (is_side side) xs) (longest_run (is_side side) xs))

extend_run :
    (side : Side) (x : ℤ) (xs : List ℤ) (s : Streaks)
    → counts side (streak_type x) ≡ true
    → (carry side (add_result (streak_type x) s) ≤ best side (add_result (streak_type x) s)
        → EndsBest side xs (add_result (streak_type x) s))
    → EndsBest side (x ∷ xs) s
extend_run side x xs s e rest =
    let (c, b) = carry_counted side (streak_type x) s e in
    let later = rest (omega (arith, c, b)) in rw e (omega (arith, c, b, later))

break_run :
    (side : Side) (x : ℤ) (xs : List ℤ) (s : Streaks)
    → carry side s ≤ best side s
    → counts side (streak_type x) ≡ false
    → (carry side (add_result (streak_type x) s) ≤ best side (add_result (streak_type x) s)
        → EndsBest side xs (add_result (streak_type x) s))
    → EndsBest side (x ∷ xs) s
break_run side x xs s h e rest =
    let (c, b) = carry_other side (streak_type x) s e in
    let later = rest (omega (arith, c, b)) in
    rw e (omega (arith, c, b, later, leading-le (is_side side) xs))

all_results :
    (side : Side) (xs : List ℤ) (s : Streaks) → carry side s ≤ best side s → EndsBest side xs s
all_results side [] s h = omega arith
all_results side (x ∷ xs) s h = elim (Bool-cases (counts side (streak_type x))) [
  | inl e ↦ extend_run side x xs s e (all_results side xs (add_result (streak_type x) s))
  | inr e ↦ break_run side x xs s h e (all_results side xs (add_result (streak_type x) s))
]

abbrev pub is_win : ℤ → Bool
is_win pnl = ltb_ℤ (pos 0) pnl

abbrev pub is_loss : ℤ → Bool
is_loss pnl = ltb_ℤ pnl (pos 0)

same_leading :
    (p q : ℤ → Bool) → ((x : ℤ) → p x ≡ q x) → (xs : List ℤ) → leading p xs ≡ leading q xs
same_leading p q h [] = refl
same_leading p q h (x ∷ xs) = rw (h x) (rw (same_leading p q h xs) refl)

same_longest :
    (p q : ℤ → Bool) → ((x : ℤ) → p x ≡ q x) → (xs : List ℤ) → longest_run p xs ≡ longest_run q xs
same_longest p q h [] = refl
same_longest p q h (x ∷ xs) = rw (same_leading p q h (x ∷ xs)) (rw (same_longest p q h xs) refl)

side_wins : (x : ℤ) → is_side wins x ≡ is_win x
side_wins x = ground arith

side_losses : (x : ℤ) → is_side losses x ≡ is_loss x
side_losses x = ground arith

-- The best winning streak is the longest run of trades with a positive result, and the best losing
-- streak that of trades with a negative one.
pub best_streaks_are_longest :
    (records : List ℤ)
    → ((calculate_streaks records).best_win_streak ≡ longest_run is_win records)
      × ((calculate_streaks records).best_loss_streak ≡ longest_run is_loss records)
unfolding calculate_streaks
best_streaks_are_longest records = (
  whole wins (all_results wins records _ (omega arith))
      ∙ same_longest (is_side wins) is_win side_wins records,
  whole losses (all_results losses records _ (omega arith))
      ∙ same_longest (is_side losses) is_loss side_losses records,
)
  where
    whole :
        (side : Side)
        → EndsBest side records no_results
        → best side (calculate_streaks records) ≡ longest_run (is_side side) records
    whole wins h = omega (arith, h, leading-le (is_side wins) records)
    whole losses h = omega (arith, h, leading-le (is_side losses) records)
