-- ===== src/Accounts/Review.antt =====
-- auth_account.py: what a root administrator does to the users and the signup codes. `admin` is the
-- signed-in root administrator that the decorator of each route finds.
use fxjournal.Prelude.{
  ℕ, ◌==◌, Bool, true, false, ◌&&◌, not, Option, none, some, [], ◌∷◌, ◌++◌, if◌then◌else◌,
  find_first, keep, map, is_some, ltb, length,
}
use fxjournal.Prelude.Text.{Text, is_blank, same_text}
use fxjournal.Access.{
  SignupStatus, pending, approved, rejected, suspended, is_approved, is_root_admin_email,
}
use fxjournal.Accounts.{Env, Member, SignupCode, Store, find_by_id, normalize_signup_code, save}

unfoldable pub user_has_root_admin_access : Env → Member → Bool
user_has_root_admin_access env user =
    user.email_verified
    && is_approved user.signup_status
    && is_root_admin_email env.admin_emails user.email

pub data Reply : Type 0 where
  user_not_found own_account already_approved only_pending only_approved root_admin not_deleted
        done :
      Reply
  code_too_short max_uses_not_positive code_exists code_not_found : Reply

abbrev pub with_status : SignupStatus → Option ℕ → Option ℕ → Member → Member
with_status status approved_at approved_by user = record user {
  signup_status = status;
  approved_at = approved_at;
  approved_by_user_id = approved_by;
}

abbrev pub approve_found : SignupStatus → Env → Member → Store → Member → Store × Reply
approve_found approved env admin s user = (s, already_approved)
approve_found _ env admin s user =
    (save (with_status approved (some env.now) (some admin.id) user) s, done)

abbrev pub if_found : Option Member → Store → (Member → Store × Reply) → Store × Reply
if_found none s act = (s, user_not_found)
if_found (some user) s act = act user

unfoldable pub admin_signup_approve_user : Env → Member → Store → ℕ → Store × Reply
admin_signup_approve_user env admin s user_id =
    if_found (find_by_id user_id s) s (λ user. approve_found user.signup_status env admin s user)

abbrev pub reject_found : SignupStatus → Store → Member → Store × Reply
reject_found pending s user = (save (with_status rejected none none user) s, done)
reject_found _ s user = (s, only_pending)

unfoldable pub admin_signup_reject_user : Member → Store → ℕ → Store × Reply
admin_signup_reject_user admin s user_id = if_found (find_by_id user_id s) s (λ user.
    if user.id == admin.id then (s, own_account) else reject_found user.signup_status s user)

abbrev pub suspend_found : SignupStatus → Store → Member → Store × Reply
suspend_found approved s user = (save (with_status suspended none none user) s, done)
suspend_found _ s user = (s, only_approved)

unfoldable pub admin_signup_suspend_user : Member → Store → ℕ → Store × Reply
admin_signup_suspend_user admin s user_id = if_found (find_by_id user_id s) s (λ user.
    if user.id == admin.id then (s, own_account) else suspend_found user.signup_status s user)

abbrev pub unless_gone : ℕ → Option ℕ → Option ℕ
unless_gone id none = none
unless_gone id (some approver) = if approver == id then none else some approver

-- The foreign key of the approver is ON DELETE SET NULL.
abbrev pub forget_approver : ℕ → Member → Member
forget_approver id m = record m { approved_by_user_id = unless_gone id m.approved_by_user_id }

abbrev pub without : ℕ → Store → Store
without id s = record s {
  members = map (forget_approver id) (keep (λ m. not (m.id == id)) s.members);
}

-- `deletes` tells whether the database deletes the rows; it rolls back where it does not.
unfoldable pub admin_signup_delete_user : Env → Member → Bool → Store → ℕ → Store × Reply
admin_signup_delete_user env admin deletes s user_id = if_found (find_by_id user_id s) s (λ user.
    if user.id == admin.id
    then (s, own_account)
    else if is_root_admin_email env.admin_emails user.email
    then (s, root_admin)
    else if deletes
    then (without user.id s, done)
    else (s, not_deleted))

unfoldable pub admin_signup_toggle_user_admin : Env → Member → Store → ℕ → Store × Reply
admin_signup_toggle_user_admin env admin s user_id = if_found (find_by_id user_id s) s (λ user.
    if user.id == admin.id
    then (s, own_account)
    else if is_root_admin_email env.admin_emails user.email
    then (s, root_admin)
    else if not (is_approved user.signup_status)
    then (s, only_approved)
    else (save (record user { is_admin = not user.is_admin }) s, done))

abbrev pub or_generated : Text → Text → Text
or_generated [] generated = generated
or_generated (c ∷ code) _ = c ∷ code

abbrev pub is_zero : Option ℕ → Bool
is_zero none = false
is_zero (some n) = n == 0

-- The form's numbers and date as the code has read them; `generated` is the free code of
-- `build_unique_signup_code`, and `id` that of the new row.
unfoldable pub admin_signup_create_code :
    Store → ℕ → Text → Text → Option ℕ → Option ℕ → Store × Reply
admin_signup_create_code s id code generated max_uses expires_at =
    let requested = normalize_signup_code code in
    let code_value = or_generated requested generated in
    if not (is_blank requested) && ltb (length requested) 4
    then (s, code_too_short)
    else if is_zero max_uses
    then (s, max_uses_not_positive)
    else if is_some (find_first (λ c. same_text c.code code_value) s.signup_codes)
    then (s, code_exists)
    else (
      record s {
        signup_codes =
            s.signup_codes
            ++ record {
              id = id;
              code = code_value;
              is_active = true;
              max_uses = max_uses;
              used_count = 0;
              expires_at = expires_at;
            }
              ∷ [];
      },
      done,
    )

abbrev pub toggle_row : ℕ → SignupCode → SignupCode
toggle_row id c = if c.id == id then record c { is_active = not c.is_active } else c

unfoldable pub admin_signup_toggle_code : Store → ℕ → Store × Reply
admin_signup_toggle_code s code_id =
    if is_some (find_first (λ c. c.id == code_id) s.signup_codes)
    then (record s { signup_codes = map (toggle_row code_id) s.signup_codes }, done)
    else (s, code_not_found)
