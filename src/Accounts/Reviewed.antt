-- ===== src/Accounts/Reviewed.antt =====
-- auth_account.py: what the review of users does to their statuses, and who keeps root access.
use fxjournal.Prelude.{
  ℕ, ◌≡◌, ◌⊎◌, ◌∙◌, refl, sym, ap, Bool, true, false, not, Option, none, some, List, [], ◌∷◌, ◌==◌,
  if◌then◌else◌, if_cases, find_first, keep, map, arith, Bool-cases, inl, inr,
}
use fxjournal.Access.{
  SignupStatus, pending, approved, rejected, suspended, is_approved, is_root_admin_email,
}
use fxjournal.Accounts.{Env, Member, Store, find_by_id, save}
use fxjournal.Accounts.Rows.{
  chosen, find_by_id-save, find_by_id-save_other, find_first-passes, same_number,
}
use fxjournal.Accounts.Links.{some_eq}
use fxjournal.Accounts.Review.{
  Reply, done, not_deleted, own_account, root_admin, admin_signup_approve_user,
  admin_signup_delete_user, admin_signup_reject_user, admin_signup_suspend_user,
  admin_signup_toggle_user_admin, approve_found, if_found, reject_found, suspend_found, with_status,
  without, forget_approver,
}

pub data Deed : Type 0 where
  approves rejects suspends toggles_admin : Deed
  -- Whether the database deletes the rows.
  deletes : Bool → Deed

abbrev pub review : Env → Member → Deed → ℕ → Store → Store
review env admin approves id s = (admin_signup_approve_user env admin s id).0
review env admin rejects id s = (admin_signup_reject_user admin s id).0
review env admin suspends id s = (admin_signup_suspend_user admin s id).0
review env admin toggles_admin id s = (admin_signup_toggle_user_admin env admin s id).0
review env admin (deletes works) id s = (admin_signup_delete_user env admin works s id).0

-- The states of a signup.
pub data Move : SignupStatus → SignupStatus → Type 0 where
  stays : (st : SignupStatus) → Move st st
  admits : Move pending approved
  refuses : Move pending rejected
  suspension : Move approved suspended
  reinstates : Move suspended approved
  pardons : Move rejected approved

-- The row of a user as it is afterwards: a move away.
abbrev pub MovesTo : ℕ → Member → Store → Type 0
MovesTo j m s = (n : Member) × (find_by_id j s ≡ some n) × Move m.signup_status n.signup_status

abbrev Moved : ℕ → Member → Store × Reply → Type 0
Moved j m r = MovesTo j m r.0

abbrev pub IsGone : ℕ → Store → Type 0
IsGone j s = find_by_id j s ≡ none

abbrev Deleted : ℕ → Member → Bool → Store × Reply → Type 0
Deleted j m works r = MovesTo j m r.0 ⊎ ((x : Bool) × (deletes works ≡ deletes x) × IsGone j r.0)

-- The rows that a deletion leaves.
abbrev pub rows_without : ℕ → List Member → List Member
rows_without i rows = map (forget_approver i) (keep (λ m. not (m.id == i)) rows)

gone : (i : ℕ) (rows : List Member) → find_first (λ m. m.id == i) (rows_without i rows) ≡ none
gone i [] = refl
gone i (a ∷ rows) = elim (Bool-cases (a.id == i)) [
  | inl e ↦ rw e (gone i rows)
  | inr e ↦ rw e (rw e (gone i rows))
]

stays_listed : (a i j : ℕ) → (i == j) ≡ false → (a == j) ≡ true → (a == i) ≡ false
stays_listed a i j h k = ground arith

pub kept_other :
    (i j : ℕ) (m : Member) (rows : List Member)
    → (i == j) ≡ false
    → find_first (λ m. m.id == j) rows ≡ some m
    → find_first (λ m. m.id == j) (rows_without i rows) ≡ some (forget_approver i m)
kept_other i j m [] h found = cc
kept_other i j m (a ∷ rows) h found =
    elim (chosen (a.id == j) a m (find_first (λ m. m.id == j) rows) found) [
      | inl (taken, here) ↦
          rw (stays_listed a.id i j h taken) (rw taken (ap some (ap (forget_approver i) here)))
      | inr (passed, later) ↦ elim (Bool-cases (a.id == i)) [
        | inl e ↦ rw e (kept_other i j m rows h later)
        | inr e ↦ rw e (rw passed (kept_other i j m rows h later))
      ]
    ]

module _ (j : ℕ) (m : Member) (s : Store) (at_j : find_by_id j s ≡ some m) where
  unmoved : MovesTo j m s
  unmoved = (m, at_j, stays m.signup_status)

  -- Writing the row of a found user: the moves are those of that row.
  written_moves :
      (i : ℕ) (user n : Member)
      → find_by_id i s ≡ some user
      → n.id ≡ user.id
      → Move user.signup_status n.signup_status
      → MovesTo j m (save n s)
  written_moves i user n found same move = elim (Bool-cases (n.id == j)) [
    | inl hit ↦
        let user_id : user.id ≡ i =
          same_number user.id i (find_first-passes (λ r. r.id == i) s.members user found) in
        let same_id : i ≡ j = sym user_id ∙ sym same ∙ same_number n.id j hit in
        let same_user : user ≡ m =
          some_eq user m (sym found ∙ ap (λ (k : ℕ). find_by_id k s) same_id ∙ at_j) in
        (
          n,
          find_by_id-save j m n s at_j (same ∙ ap (λ (r : Member). r.id) same_user),
          rw (sym same_user) move,
        )
    | inr miss ↦ (m, find_by_id-save_other j n s miss ∙ at_j, stays m.signup_status)
  ]

  if_found_moves :
      (found : Option Member) (step : Member → Store × Reply)
      → ((user : Member) → found ≡ some user → MovesTo j m (step user).0)
      → MovesTo j m (if_found found s step).0
  if_found_moves none step h = unmoved
  if_found_moves (some user) step h = h user refl

  step_on_found :
      (works : Bool) (found : Option Member) (step : Member → Store × Reply)
      → ((user : Member) → found ≡ some user → Deleted j m works (step user))
      → Deleted j m works (if_found found s step)
  step_on_found works none step h = inl unmoved
  step_on_found works (some user) step h = h user refl

  module _ (i : ℕ) (user : Member) (found : find_by_id i s ≡ some user) where
    approve_moves :
        (env : Env) (admin : Member) (st : SignupStatus)
        → user.signup_status ≡ st
        → MovesTo j m (approve_found st env admin s user).0
    approve_moves env admin approved e = unmoved
    approve_moves env admin pending e =
        written_moves i user (with_status approved (some env.now) (some admin.id) user) found refl
          (rw e admits)
    approve_moves env admin rejected e =
        written_moves i user (with_status approved (some env.now) (some admin.id) user) found refl
          (rw e pardons)
    approve_moves env admin suspended e =
        written_moves i user (with_status approved (some env.now) (some admin.id) user) found refl
          (rw e reinstates)

    reject_moves :
        (st : SignupStatus) → user.signup_status ≡ st → MovesTo j m (reject_found st s user).0
    reject_moves pending e =
        written_moves i user (with_status rejected none none user) found refl (rw e refuses)
    reject_moves approved e = unmoved
    reject_moves rejected e = unmoved
    reject_moves suspended e = unmoved

    suspend_moves :
        (st : SignupStatus) → user.signup_status ≡ st → MovesTo j m (suspend_found st s user).0
    suspend_moves approved e =
        written_moves i user (with_status suspended none none user) found refl (rw e suspension)
    suspend_moves pending e = unmoved
    suspend_moves rejected e = unmoved
    suspend_moves suspended e = unmoved

    delete_moves : (works : Bool) → Deleted j m works (without user.id s, done)
    delete_moves works = elim (Bool-cases (user.id == j)) [
      | inl hit ↦ inr (works, refl, rw (same_number user.id j hit) (gone j s.members))
      | inr miss ↦ inl (
        forget_approver user.id m,
        kept_other user.id j m s.members miss at_j,
        stays m.signup_status,
      )
    ]

-- Whatever a root administrator does to a user, every row that is found by its number either is found
-- with the same status or one that a move reaches, or is gone, which only a deletion does.
pub review_moves :
    (env : Env) (admin : Member) (deed : Deed) (i j : ℕ) (m : Member) (s : Store)
    → find_by_id j s ≡ some m
    → MovesTo j m (review env admin deed i s)
      ⊎ ((works : Bool) × (deed ≡ deletes works) × IsGone j (review env admin deed i s))
unfolding admin_signup_approve_user admin_signup_delete_user admin_signup_reject_user
    admin_signup_suspend_user admin_signup_toggle_user_admin
review_moves env admin approves i j m s at_j = inl (
    if_found_moves j m s at_j (find_by_id i s) _
      (λ user found. approve_moves j m s at_j i user found env admin user.signup_status refl))
review_moves env admin rejects i j m s at_j = inl (
    if_found_moves j m s at_j (find_by_id i s) _ (λ user found.
      if_cases (Moved j m) (user.id == admin.id) _ _ (λ _. unmoved j m s at_j)
        (λ _. reject_moves j m s at_j i user found user.signup_status refl)))
review_moves env admin suspends i j m s at_j = inl (
    if_found_moves j m s at_j (find_by_id i s) _ (λ user found.
      if_cases (Moved j m) (user.id == admin.id) _ _ (λ _. unmoved j m s at_j)
        (λ _. suspend_moves j m s at_j i user found user.signup_status refl)))
review_moves env admin toggles_admin i j m s at_j = inl (
    if_found_moves j m s at_j (find_by_id i s) _ (λ user found.
      if_cases (Moved j m) (user.id == admin.id) _ _ (λ _. unmoved j m s at_j)
        (λ _.
          if_cases (Moved j m) (is_root_admin_email env.admin_emails user.email) _ _
            (λ _. unmoved j m s at_j)
            (λ _.
              if_cases (Moved j m) (not (is_approved user.signup_status)) _ _
                (λ _. unmoved j m s at_j)
                (λ _.
                  written_moves j m s at_j i user (record user { is_admin = not user.is_admin })
                    found refl (stays user.signup_status))))))
review_moves env admin (deletes works) i j m s at_j =
    step_on_found j m s at_j works (find_by_id i s)
      (λ user.
        if user.id == admin.id
        then (s, own_account)
        else if is_root_admin_email env.admin_emails user.email
        then (s, root_admin)
        else if works
        then (without user.id s, done)
        else (s, not_deleted))
      (λ user found.
        if_cases (Deleted j m works) (user.id == admin.id) _ _ (λ _. inl (unmoved j m s at_j))
          (λ _.
            if_cases (Deleted j m works) (is_root_admin_email env.admin_emails user.email) _ _
              (λ _. inl (unmoved j m s at_j))
              (λ _.
                if_cases (Deleted j m works) works _ _
                  (λ _. delete_moves j m s at_j i user found works)
                  (λ _. inl (unmoved j m s at_j)))))
