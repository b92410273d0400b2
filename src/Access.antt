-- ===== src/Access.antt =====
-- auth_account.py: who has admin access.
use fxjournal.Prelude.{Bool, true, false, ◌&&◌, ◌||◌, not, List, keep, map, if◌then◌else◌}
use fxjournal.Prelude.Text.{
  Text, codes, contains_text, is_blank, lower, or_empty, same_text, split_on, strip,
}
use fxjournal.Models.{User}

pub data SignupStatus : Type 0 where
  pending approved rejected suspended : SignupStatus

-- `ADMIN_USER_EMAILS`, the argument being the variable's text.
unfoldable pub get_admin_user_emails : Text → List Text
unfolding lower strip split_on
get_admin_user_emails raw =
    map (λ part. lower (strip part))
      (keep (λ part. not (is_blank part) && not (is_blank (strip part)))
        (split_on b',' (strip raw)))

unfoldable pub is_root_admin_email : Text → Text → Bool
unfolding get_admin_user_emails contains_text
is_root_admin_email raw email =
    let candidate = lower (strip email) in
    not (is_blank candidate) && contains_text candidate (get_admin_user_emails raw)

-- The default is `approved`, so a status that is missing or unknown counts as approved.
unfoldable pub normalize_signup_status : Text → SignupStatus
unfolding lower strip same_text
normalize_signup_status value =
    let candidate = lower (strip value) in
    if same_text candidate (codes "pending")
    then pending
    else if same_text candidate (codes "rejected")
    then rejected
    else if same_text candidate (codes "suspended")
    then suspended
    else approved

abbrev pub is_approved : SignupStatus → Bool
is_approved approved = true
is_approved _ = false

unfoldable pub user_has_admin_access : Text → User → Bool
unfolding normalize_signup_status is_root_admin_email
user_has_admin_access raw user =
    user.email_verified
    && is_approved (normalize_signup_status (or_empty user.signup_status))
    && (user.is_admin || is_root_admin_email raw user.email)
