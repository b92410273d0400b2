-- ===== src/Accounts/Kept.antt =====
-- auth_account.py: what the review leaves of the row of the root administrator who reviews.
use fxjournal.Prelude.{
  ℕ, ◌≡◌, ◌∙◌, refl, sym, ap, true, false, not, Option, none, some, List, [], ◌∷◌, ◌==◌, if_cases,
  Bool-cases, inl, inr, ◌⊎◌,
}
use fxjournal.Access.{
  SignupStatus, pending, approved, rejected, suspended, is_approved, is_root_admin_email,
}
use fxjournal.Accounts.{Env, Member, Store, find_by_id, save}
use fxjournal.Accounts.Rows.{find_by_id-save_other, find_first-passes, same_number}
use fxjournal.Accounts.Links.{some_eq}
use fxjournal.Accounts.Review.{
  Reply, admin_signup_approve_user, admin_signup_delete_user, admin_signup_reject_user,
  admin_signup_suspend_user, admin_signup_toggle_user_admin, approve_found, if_found, reject_found,
  suspend_found, with_status, unless_gone,
}
use fxjournal.Accounts.Reviewed.{
  Deed, approves, deletes, kept_other, rejects, review, suspends, toggles_admin,
}

-- What a root administrator does, one deed after another, each to the user of a number.
abbrev pub review_all : Env → Member → List (Deed × ℕ) → Store → Store
review_all env admin [] s = s
review_all env admin ((deed, i) ∷ rest) s = review_all env admin rest (review env admin deed i s)

-- The row of a user, apart from who approved it.
abbrev pub approved_by : Option ℕ → Member → Member
approved_by approver m = record m { approved_by_user_id = approver }

-- The row is there as it was, except that its approver may have been forgotten.
abbrev pub KeepsRow : Member → Option ℕ → Store → Type 0
KeepsRow m before s =
    (approver : Option ℕ) × ((approver ≡ before) ⊎ (approver ≡ none))
    × (find_by_id m.id s ≡ some (approved_by approver m))

forgotten :
    (i : ℕ) (approver : Option ℕ)
    → (unless_gone i approver ≡ approver) ⊎ (unless_gone i approver ≡ none)
forgotten i none = inr refl
forgotten i (some approver) = elim (Bool-cases (approver == i)) [
  | inl gone ↦ rw gone (inr refl)
  | inr stays ↦ rw stays (inl refl)
]

forgotten_again :
    (x y before : Option ℕ)
    → (x ≡ before) ⊎ (x ≡ none)
    → (y ≡ x) ⊎ (y ≡ none)
    → (y ≡ before) ⊎ (y ≡ none)
forgotten_again x y before h (inr gone) = inr gone
forgotten_again x y before (inl same) (inl e) = inl (e ∙ same)
forgotten_again x y before (inr gone) (inl e) = inr (e ∙ gone)

module _ (env : Env) (admin : Member) (approver : Option ℕ) (s : Store)
    (at_admin : find_by_id admin.id s ≡ some (approved_by approver admin))
    (ok : admin.signup_status ≡ approved) where
  abbrev KeepsAdmin : Store × Reply → Type 0
  KeepsAdmin r = KeepsRow admin approver r.0

  untouched : KeepsRow admin approver s
  untouched = (approver, inl refl, at_admin)

  other_kept : (n : Member) → (n.id == admin.id) ≡ false → KeepsRow admin approver (save n s)
  other_kept n other = (approver, inl refl, find_by_id-save_other admin.id n s other ∙ at_admin)

  on_found :
      (found : Option Member) (act : Member → Store × Reply)
      → ((user : Member) → found ≡ some user → KeepsAdmin (act user))
      → KeepsAdmin (if_found found s act)
  on_found none act h = untouched
  on_found (some user) act h = h user refl

  -- Whoever has the administrator's number is the administrator.
  same_member :
      (i : ℕ) (user : Member)
      → find_by_id i s ≡ some user
      → (user.id == admin.id) ≡ true
      → user ≡ approved_by approver admin
  same_member i user found e =
      let user_id : user.id ≡ i =
        same_number user.id i (find_first-passes (λ r. r.id == i) s.members user found) in
      some_eq user (approved_by approver admin) (
        sym found
        ∙ ap (λ (k : ℕ). find_by_id k s) (sym user_id ∙ same_number user.id admin.id e)
        ∙ at_admin)

  -- Another user's row is written, or nothing is.
  approve_keeps :
      (st : SignupStatus) (user : Member)
      → (user.id == admin.id) ≡ false
      → KeepsAdmin (approve_found st env admin s user)
  approve_keeps approved user e = untouched
  approve_keeps pending user e =
      other_kept (with_status approved (some env.now) (some admin.id) user) e
  approve_keeps rejected user e =
      other_kept (with_status approved (some env.now) (some admin.id) user) e
  approve_keeps suspended user e =
      other_kept (with_status approved (some env.now) (some admin.id) user) e

  reject_keeps :
      (st : SignupStatus) (user : Member)
      → (user.id == admin.id) ≡ false
      → KeepsAdmin (reject_found st s user)
  reject_keeps pending user e = other_kept (with_status rejected none none user) e
  reject_keeps approved user e = untouched
  reject_keeps rejected user e = untouched
  reject_keeps suspended user e = untouched

  suspend_keeps :
      (st : SignupStatus) (user : Member)
      → (user.id == admin.id) ≡ false
      → KeepsAdmin (suspend_found st s user)
  suspend_keeps approved user e = other_kept (with_status suspended none none user) e
  suspend_keeps pending user e = untouched
  suspend_keeps rejected user e = untouched
  suspend_keeps suspended user e = untouched

  approve_self :
      (i : ℕ) (user : Member)
      → find_by_id i s ≡ some user
      → (user.id == admin.id) ≡ true
      → KeepsAdmin (approve_found user.signup_status env admin s user)
  approve_self i user found e =
      rw (ap (λ (m : Member). m.signup_status) (same_member i user found e) ∙ ok) untouched

  deed_keeps : (deed : Deed) (i : ℕ) → KeepsRow admin approver (review env admin deed i s)
  unfolding admin_signup_approve_user admin_signup_delete_user admin_signup_reject_user
      admin_signup_suspend_user admin_signup_toggle_user_admin
  deed_keeps approves i = on_found (find_by_id i s) _ (λ user found.
      elim (Bool-cases (user.id == admin.id)) [
        | inl e ↦ approve_self i user found e
        | inr e ↦ approve_keeps user.signup_status user e
      ])
  deed_keeps rejects i = on_found (find_by_id i s) _ (λ user _.
      if_cases KeepsAdmin (user.id == admin.id) _ _ (λ _. untouched)
        (λ e. reject_keeps user.signup_status user e))
  deed_keeps suspends i = on_found (find_by_id i s) _ (λ user _.
      if_cases KeepsAdmin (user.id == admin.id) _ _ (λ _. untouched)
        (λ e. suspend_keeps user.signup_status user e))
  deed_keeps toggles_admin i = on_found (find_by_id i s) _ (λ user _.
      if_cases KeepsAdmin (user.id == admin.id) _ _ (λ _. untouched)
        (λ e.
          if_cases KeepsAdmin (is_root_admin_email env.admin_emails user.email) _ _ (λ _. untouched)
            (λ _.
              if_cases KeepsAdmin (not (is_approved user.signup_status)) _ _ (λ _. untouched)
                (λ _. other_kept (record user { is_admin = not user.is_admin }) e))))
  deed_keeps (deletes works) i = on_found (find_by_id i s) _ (λ user _.
      if_cases KeepsAdmin (user.id == admin.id) _ _ (λ _. untouched)
        (λ e.
          if_cases KeepsAdmin (is_root_admin_email env.admin_emails user.email) _ _ (λ _. untouched)
            (λ _.
              if_cases KeepsAdmin works _ _
                (λ _. (
                  unless_gone user.id approver,
                  forgotten user.id approver,
                  kept_other user.id admin.id (approved_by approver admin) s.members e at_admin,
                ))
                (λ _. untouched))))

row_stays :
    (env : Env) (admin : Member) (approver : Option ℕ) (deeds : List (Deed × ℕ)) (s : Store)
    → find_by_id admin.id s ≡ some (approved_by approver admin)
    → admin.signup_status ≡ approved
    → KeepsRow admin approver (review_all env admin deeds s)
row_stays env admin approver [] s at_admin ok = (approver, inl refl, at_admin)
row_stays env admin approver ((deed, i) ∷ rest) s at_admin ok =
    let (next, same, there) = deed_keeps env admin approver s at_admin ok deed i in
    let (last, kept, found) = row_stays env admin next rest (review env admin deed i s) there ok in
    (last, forgotten_again next last approver same kept, found)

-- Whatever an approved root administrator does in the review, to whichever users and in whatever order, the own row stays as it was, except that the number of the user who approved it may be gone.
pub root_admin_stays :
    (env : Env) (admin : Member) (deeds : List (Deed × ℕ)) (s : Store)
    → find_by_id admin.id s ≡ some admin
    → admin.signup_status ≡ approved
    → (approver : Option ℕ) × ((approver ≡ admin.approved_by_user_id) ⊎ (approver ≡ none))
      × (find_by_id admin.id (review_all env admin deeds s)
          ≡ some (record admin { approved_by_user_id = approver }))
root_admin_stays env admin deeds s = row_stays env admin admin.approved_by_user_id deeds s
