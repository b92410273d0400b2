-- ===== src/Accounts/Rows.antt =====
-- Writing a row of `users`, and finding rows again.
use fxjournal.Prelude.{
  ℕ, ◌≡◌, ◌∙◌, refl, sym, ap, Bool, true, false, ◌||◌, Option, none, some, List, [], ◌∷◌, ◌++◌,
  ◌==◌, if◌then◌else◌, find_first, all_of, any_of, ◌&&◌, not, is_some, map, arith, Bool-cases, inl,
  inr, ◌⊎◌,
}
use fxjournal.Accounts.{
  Env, Member, SignupCode, Store, find_by_id, is_row_usable, replace_row, save, use_code,
}

pub same_number : (a b : ℕ) → (a == b) ≡ true → a ≡ b
same_number a b h = ground arith

pub self_number : (a : ℕ) → (a == a) ≡ true
self_number a = ground arith

pub chosen {ℓ} :
    {A : Type ℓ} (b : Bool) (a c : A) (rest : Option A)
    → (if b then some a else rest) ≡ some c
    → ((b ≡ true) × (a ≡ c)) ⊎ ((b ≡ false) × (rest ≡ some c))
chosen true a c rest h = inl (refl, cc h)
chosen false a c rest h = inr (refl, h)

same_row : (a m n : Member) → n.id ≡ m.id → a ≡ m → (a.id == n.id) ≡ true
same_row a m n same here = rw same (ap (λ (r : Member). r.id == m.id) here ∙ self_number m.id)

pub true_not_false : {b : Bool} → b ≡ true → b ≡ false → ⊥
true_not_false h k = cc

pub or_true : (b : Bool) → (b || true) ≡ true
or_true true = refl
or_true false = refl

later_row : {a b : Bool} → a ≡ false → (a || b) ≡ true → b ≡ true
later_row h k = ground arith

abbrev pub has_id : ℕ → Member → Bool
has_id id m = m.id == id

module _ (p : Member → Bool) where
  pub find_first-passes :
      (rows : List Member) (m : Member) → find_first p rows ≡ some m → p m ≡ true
  find_first-passes [] m h = cc
  find_first-passes (a ∷ rows) m h = elim (chosen (p a) a m (find_first p rows) h) [
    | inl (taken, here) ↦ ap p (sym here) ∙ taken
    | inr (passed, later) ↦ find_first-passes rows m later
  ]

  -- A row that was found is found again after it is written, if it still passes.
  pub find_first-save :
      (rows : List Member) (m n : Member)
      → find_first p rows ≡ some m
      → n.id ≡ m.id
      → p n ≡ true
      → find_first p (map (replace_row n) rows) ≡ some n
  find_first-save [] m n h same passes = cc
  find_first-save (a ∷ rows) m n h same passes = elim (Bool-cases (a.id == n.id)) [
    | inl hit ↦ rw hit (rw passes refl)
    | inr miss ↦ elim (chosen (p a) a m (find_first p rows) h) [
      | inl (taken, here) ↦ absurd (true_not_false (same_row a m n same here) miss)
      | inr (passed, later) ↦ rw miss (rw passed (find_first-save rows m n later same passes))
    ]
  ]

  -- A test that the written row passes is passed by some row.
  pub any_of-save :
      (rows : List Member) (n : Member)
      → any_of (has_id n.id) rows ≡ true
      → p n ≡ true
      → any_of p (map (replace_row n) rows) ≡ true
  any_of-save [] n known passes = cc
  any_of-save (a ∷ rows) n known passes = elim (Bool-cases (a.id == n.id)) [
    | inl hit ↦ rw hit (rw passes refl)
    | inr miss ↦
        rw (any_of-save rows n (later_row miss known) passes) (or_true (p (replace_row n a)))
  ]

  -- A row that was found stands among the rows.
  pub any_of_found :
      (rows : List Member) (m : Member)
      → find_first p rows ≡ some m
      → any_of (has_id m.id) rows ≡ true
  any_of_found [] m h = cc
  any_of_found (a ∷ rows) m h = elim (chosen (p a) a m (find_first p rows) h) [
    | inl (taken, here) ↦ rw (same_row a m m refl here) refl
    | inr (passed, later) ↦ rw (any_of_found rows m later) (or_true (a.id == m.id))
  ]

  pub any_of-snoc :
      (rows : List Member) (n : Member) → p n ≡ true → any_of p (rows ++ n ∷ []) ≡ true
  any_of-snoc [] n h = rw h refl
  any_of-snoc (a ∷ rows) n h = rw (any_of-snoc rows n h) (or_true (p a))

  -- A row that fails the test, written over rows that fail it, changes no search.
  pub find_first-save_unseen :
      (rows : List Member) (n : Member)
      → p n ≡ false
      → ((a : Member) → (a.id == n.id) ≡ true → p a ≡ false)
      → find_first p (map (replace_row n) rows) ≡ find_first p rows
  find_first-save_unseen [] n fails over = refl
  find_first-save_unseen (a ∷ rows) n fails over = elim (Bool-cases (a.id == n.id)) [
    | inl hit ↦ rw hit (rw fails (rw (over a hit) (find_first-save_unseen rows n fails over)))
    | inr miss ↦ rw miss (rw (find_first-save_unseen rows n fails over) refl)
  ]

other_id : (a b i : ℕ) → (b == i) ≡ false → (a == b) ≡ true → (a == i) ≡ false
other_id a b i other same = ground arith

-- Writing a row with another id leaves a row as it was.
pub find_by_id-save_other :
    (i : ℕ) (n : Member) (s : Store)
    → (n.id == i) ≡ false
    → find_by_id i (save n s) ≡ find_by_id i s
find_by_id-save_other i n s other =
    find_first-save_unseen (λ r. r.id == i) s.members n other
      (λ a same. other_id a.id n.id i other same)

pub find_by_id-save :
    (i : ℕ) (m n : Member) (s : Store)
    → find_by_id i s ≡ some m
    → n.id ≡ m.id
    → find_by_id i (save n s) ≡ some n
find_by_id-save i m n s found same =
    find_first-save (λ r. r.id == i) s.members m n found same
      (ap (λ (x : ℕ). x == i) same ∙ find_first-passes (λ r. r.id == i) s.members m found)

-- A row with a Google account has a verified email.
abbrev pub is_google_verified : Member → Bool
is_google_verified m = not (is_some m.google_sub) || m.email_verified

pub and_left : (a b : Bool) → (a && b) ≡ true → a ≡ true
and_left a b h = ground arith

pub and_right : (a b : Bool) → (a && b) ≡ true → b ≡ true
and_right a b h = ground arith

pub all_of_found :
    (p q : Member → Bool) (rows : List Member) (m : Member)
    → all_of q rows ≡ true
    → find_first p rows ≡ some m
    → q m ≡ true
all_of_found p q [] m h f = cc
all_of_found p q (a ∷ rows) m h f = elim (chosen (p a) a m (find_first p rows) f) [
  | inl (taken, here) ↦ ap q (sym here) ∙ and_left (q a) (all_of q rows) h
  | inr (passed, later) ↦ all_of_found p q rows m (and_right (q a) (all_of q rows) h) later
]

pub use_code_members :
    (env : Env) (row : Option SignupCode) (s : Store) → (use_code env row s).members ≡ s.members
unfolding use_code
use_code_members env none s = refl
use_code_members env (some c) s = elim (Bool-cases (is_row_usable env c)) [
  | inl e ↦ rw e refl
  | inr e ↦ rw e refl
]
