-- ===== src/Accounts/SignIn.antt =====
-- auth_account.py: signing in, by password or through Google.
use fxjournal.Prelude.{
  ◌≡◌, refl, Bool, true, false, ◌&&◌, ◌||◌, not, Option, none, some, [], if◌then◌else◌, find_first,
  is_some,
}
use fxjournal.Prelude.Text.{Text, is_blank, lower, same_text, strip}
use fxjournal.Access.{SignupStatus, pending, approved, rejected, suspended}
use fxjournal.Accounts.{
  Env, Member, Passwords, Session, SignupCode, Store, add_member, approval_time, code_of,
  find_by_email, initial_signup_status, is_allowed_signup_email_domain, save, signup_code_for,
  use_code,
}

pub data Reply : Type 0 where
  already_signed_in signed_in : Reply
  invalid_credentials unverified_email waiting_for_approval not_approved is_suspended : Reply
  no_google google_failed not_verified_by_google other_google_account no_account : Reply
  registration_is_paused bad_signup_code domain_not_allowed setup_failed : Reply

pub record Outcome : Type 0 where
  pub store : Store
  pub session : Session
  pub reply : Reply

abbrev pub answer : Store → Session → Reply → Outcome
answer s session reply = record { store = s; session = session; reply = reply }

-- The trade account that it also selects is not part of these rows.
abbrev pub complete_successful_login : Env → Store → Session → Member → Outcome
complete_successful_login env s session user =
    answer (save (record user { last_login_at = some env.now }) s)
      (record session { user_id = some user.id }) signed_in

-- What a status other than `approved` answers.
abbrev pub by_status : SignupStatus → Outcome → (Reply → Outcome) → Outcome
by_status pending welcome refuse = refuse waiting_for_approval
by_status rejected welcome refuse = refuse not_approved
by_status suspended welcome refuse = refuse is_suspended
by_status approved welcome refuse = welcome

pub by_status_keeps :
    (P : Outcome → Type 0) (st : SignupStatus) (welcome : Outcome) (refuse : Reply → Outcome)
    → (st ≡ approved → P welcome)
    → ((r : Reply) → P (refuse r))
    → P (by_status st welcome refuse)
by_status_keeps P pending w f h k = k _
by_status_keeps P approved w f h k = h refl
by_status_keeps P rejected w f h k = k _
by_status_keeps P suspended w f h k = k _

abbrev pub login_as : Env → Passwords → Store → Session → Text → Option Member → Outcome
login_as env passwords s session password none = answer s session invalid_credentials
login_as env passwords s session password (some user) =
    if not (passwords.check_password_hash user.password password)
    then answer s session invalid_credentials
    else if env.require_email_verification && not user.email_verified
    then answer s (record session { pending_verify_email = user.email }) unverified_email
    else by_status user.signup_status (complete_successful_login env s session user)
        (answer s session)

unfoldable pub login : Env → Passwords → Store → Session → Text → Text → Outcome
login env passwords s session email password =
    if is_some session.user_id
    then answer s session already_signed_in
    else login_as env passwords s session password (find_by_email (lower (strip email)) s)

abbrev pub logout : Session → Session
logout session = record { user_id = none; pending_verify_email = [] }

-- What Google tells of the user, cleaned up as the callback does.
pub record UserInfo : Type 0 where
  pub sub : Text
  pub email : Text
  pub email_verified : Bool

abbrev pub seen_session : Session → Member → Session
seen_session session user =
    if same_text (lower (strip session.pending_verify_email)) (lower (strip user.email))
    then record session { pending_verify_email = [] }
    else session

unfoldable pub finalize_google_authenticated_user : Env → Store → Session → Member → Outcome
finalize_google_authenticated_user env s session user =
    let seen = seen_session session user in
    by_status user.signup_status (complete_successful_login env s seen user) (answer s seen)

pub data Intent : Type 0 where
  to_login to_register : Intent

abbrev pub is_other : Option Text → Text → Bool
is_other none _ = false
is_other (some sub) google_sub = not (is_blank sub) && not (same_text sub google_sub)

-- The row of a user whom Google signs in by the email for the first time.
abbrev pub linked : Text → Member → Member
linked google_sub user = record user { google_sub = some google_sub; email_verified = true }

abbrev pub link_unless_other : Env → Store → Session → Text → Member → Outcome
link_unless_other env s session google_sub user =
    if is_other user.google_sub google_sub
    then answer s session other_google_account
    else finalize_google_authenticated_user env (save (linked google_sub user) s) session
        (linked google_sub user)

-- An account with the email that Google verified is linked to it.
abbrev pub link_existing : SignupStatus → Env → Store → Session → Text → Member → Outcome
link_existing rejected env s session google_sub user = answer s session not_approved
link_existing suspended env s session google_sub user = answer s session is_suspended
link_existing pending env s session google_sub user =
    link_unless_other env s session google_sub user
link_existing approved env s session google_sub user =
    link_unless_other env s session google_sub user

-- The row of a new user. `username` is the free one that `build_unique_google_username` chose, and
-- `password` the hash of a secret that is thrown away.
abbrev pub google_member : Env → UserInfo → Text → Text → Option SignupCode → Member
google_member env info username password code_row = record {
  id = env.new_id;
  username = username;
  email = info.email;
  google_sub = some info.sub;
  password = password;
  email_verified = true;
  is_admin = false;
  signup_status = initial_signup_status env;
  password_reset_nonce = none;
  signup_code_used = code_of code_row;
  approved_at = approval_time env;
  approved_by_user_id = none;
  last_login_at = none;
}

abbrev pub create_with_code :
    Env → Store → Session → UserInfo → Text → Text → Option (Option SignupCode) → Outcome
create_with_code env s session info username password none = answer s session bad_signup_code
create_with_code env s session info username password (some code_row) =
    let user = google_member env info username password code_row in
    if not (is_allowed_signup_email_domain env info.email)
    then answer s session domain_not_allowed
    else if not env.inserts
    then answer s session setup_failed
    else finalize_google_authenticated_user env (use_code env code_row (add_member user s)) session
        user

abbrev pub create_google_account :
    Intent → Env → Store → Session → UserInfo → Text → Text → Text → Outcome
create_google_account to_login env s session info username password signup_code =
    answer s session no_account
create_google_account to_register env s session info username password signup_code =
    if env.registration_paused
    then answer s session registration_is_paused
    else create_with_code env s session info username password (signup_code_for env signup_code s)

abbrev pub link_or_create :
    Option Member → Intent → Env → Store → Session → UserInfo → Text → Text → Text → Outcome
link_or_create (some user) intent env s session info username password signup_code =
    link_existing user.signup_status env s session info.sub user
link_or_create none intent env s session info username password signup_code =
    create_google_account intent env s session info username password signup_code

abbrev pub find_linked :
    Option Member → Intent → Env → Store → Session → UserInfo → Text → Text → Text → Outcome
find_linked (some user) intent env s session info username password signup_code =
    finalize_google_authenticated_user env s session user
find_linked none intent env s session info username password signup_code =
    link_or_create (find_by_email info.email s) intent env s session info username password
      signup_code

abbrev pub has_sub : Text → Member → Bool
has_sub sub m = elim m.google_sub [ none ↦ false | some g ↦ same_text g sub ]

abbrev pub callback_with :
    Option UserInfo → Intent → Env → Store → Session → Text → Text → Text → Outcome
callback_with none intent env s session username password signup_code =
    answer s session google_failed
callback_with (some info) intent env s session username password signup_code =
    if is_blank info.sub || is_blank info.email || not info.email_verified
    then answer s session not_verified_by_google
    else find_linked (find_first (has_sub info.sub) s.members) intent env s session info username
        password signup_code

-- The callback of Google; `info` is `none` where the exchange with Google failed.
unfoldable pub google_auth_callback :
    Env → Store → Session → Bool → Option UserInfo → Intent → Text → Text → Text → Outcome
google_auth_callback env s session has_client info intent username password signup_code =
    if not has_client
    then answer s session no_google
    else callback_with info intent env s session username password signup_code
