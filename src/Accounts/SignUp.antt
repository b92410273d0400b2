-- ===== src/Accounts/SignUp.antt =====
-- auth_account.py: registration with a password, and the link that verifies an email address. Nothing
-- in the repository fills PENDING_REGISTRATIONS, so a token of that purpose finds no entry. That a
-- verification clears the address that its session waits for is left out.
use fxjournal.Prelude.{
  ℕ, Bool, true, false, ◌&&◌, ◌||◌, not, Option, none, some, ltb, if◌then◌else◌, find_first,
  is_some, length,
}
use fxjournal.Prelude.Text.{Text, is_blank, lower, same_text, strip}
use fxjournal.Access.{SignupStatus, rejected, suspended, is_approved}
use fxjournal.Accounts.{
  Env, Member, Passwords, Session, SignupCode, Store, add_member, approval_time, code_of,
  find_by_email, find_signup_code, initial_signup_status, is_allowed_signup_email_domain,
  normalize_signup_code, save, signup_code_for, use_code,
}
use fxjournal.Accounts.Tokens.{
  Signer, verify_auth_token, verify_email_purpose, verify_pending_registration_token,
}

pub data Reply : Type 0 where
  already_signed_in registration_is_paused bad_signup_code fields_required short_password : Reply
  domain_not_allowed legal_not_accepted email_is_rejected email_is_suspended name_or_email_taken :
      Reply
  -- A verification link is sent to the address.
  link_sent : Text → Reply

pub record Outcome : Type 0 where
  pub store : Store
  pub session : Session
  pub reply : Reply

pub record Form : Type 0 where
  pub username : Text
  pub email : Text
  pub password : Text
  pub accepted_legal : Bool
  pub signup_code : Text

abbrev pub answer : Store → Session → Reply → Outcome
answer s session reply = record { store = s; session = session; reply = reply }

abbrev pub has_name_or_email : Text → Text → Member → Bool
has_name_or_email username email m = same_text m.username username || same_text m.email email

abbrev pub new_member : Env → Passwords → Text → Text → Text → Option SignupCode → Member
new_member env passwords username email password code_row = record {
  id = env.new_id;
  username = username;
  email = email;
  google_sub = none;
  password = passwords.generate_password_hash password;
  email_verified = false;
  is_admin = false;
  signup_status = initial_signup_status env;
  password_reset_nonce = none;
  signup_code_used = code_of code_row;
  approved_at = approval_time env;
  approved_by_user_id = none;
  last_login_at = none;
}

abbrev pub is_rejected : SignupStatus → Bool
is_rejected rejected = true
is_rejected _ = false

abbrev pub is_suspended : SignupStatus → Bool
is_suspended suspended = true
is_suspended _ = false

abbrev pub await_link : Session → Text → Session
await_link session email = record session { pending_verify_email = email }

abbrev pub register_new :
    Env
    → Passwords
    → Store
    → Session
    → Text
    → Text
    → Text
    → Option SignupCode
    → Option Member
    → Outcome
register_new env passwords s session username email password code_row none =
    if not env.inserts
    then answer s session name_or_email_taken
    else answer (add_member (new_member env passwords username email password code_row) s)
        (await_link session email) (link_sent email)
register_new env passwords s session username email password code_row (some existing) =
    if same_text existing.email email && is_rejected existing.signup_status
    then answer s session email_is_rejected
    else if same_text existing.email email && is_suspended existing.signup_status
    then answer s session email_is_suspended
    else if same_text existing.email email && not existing.email_verified
    then answer s (await_link session existing.email) (link_sent existing.email)
    else answer s session name_or_email_taken

abbrev pub register_with_code :
    Env → Passwords → Store → Session → Form → Text → Text → Option (Option SignupCode) → Outcome
register_with_code env passwords s session form username email none =
    answer s session bad_signup_code
register_with_code env passwords s session form username email (some code_row) =
    if is_blank username || is_blank email || is_blank form.password
    then answer s session fields_required
    else if ltb (length form.password) 8
    then answer s session short_password
    else if not (is_allowed_signup_email_domain env email)
    then answer s session domain_not_allowed
    else if not form.accepted_legal
    then answer s session legal_not_accepted
    else register_new env passwords s session username email form.password code_row
        (find_first (has_name_or_email username email) s.members)

unfoldable pub register : Env → Passwords → Store → Session → Form → Outcome
register env passwords s session form =
    let username = strip form.username in
    let email = lower (strip form.email) in
    if is_some session.user_id
    then answer s session already_signed_in
    else if env.registration_paused
    then answer s session registration_is_paused
    else register_with_code env passwords s session form username email
        (signup_code_for env (normalize_signup_code form.signup_code) s)

pub data Verified : Type 0 where
  bad_link : Verified
  -- Whether the status lets the user sign in.
  verified : Bool → Verified

abbrev pub used_code : Option Text → Store → Option SignupCode
used_code none s = none
used_code (some code) s = if is_blank code then none else find_signup_code code s

-- `if not user.email_verified`.
abbrev pub mark_verified : Env → Member → Store → Store
mark_verified env user s =
    if user.email_verified
    then s
    else use_code env (used_code user.signup_code_used s)
        (save (record user { email_verified = true }) s)

abbrev pub verify_member : Env → Store → Option Member → Store × Verified
verify_member env s none = (s, bad_link)
verify_member env s (some user) =
    (mark_verified env user s, verified (is_approved user.signup_status))

abbrev pub verify_email : Env → Store → Option Text → Store × Verified
verify_email env s none = (s, bad_link)
verify_email env s (some email) = verify_member env s (find_by_email email s)

-- `now` and `max_age` are seconds, as the tokens count them.
unfoldable pub verify_email_token : Env → Signer → ℕ → ℕ → Store → Text → Store × Verified
verify_email_token env signer now max_age s token =
    if is_some (verify_pending_registration_token signer now token max_age)
    then (s, bad_link)
    else verify_email env s (verify_auth_token signer now token verify_email_purpose max_age)
