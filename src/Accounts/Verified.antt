-- ===== src/Accounts/Verified.antt =====
-- auth_account.py: a Google account stands only in a row with a verified email; the parts of it that
-- signing in needs.
pub mod Others
use fxjournal.Prelude.{
  ℕ, ◌≡◌, ◌∙◌, refl, sym, ap, Bool, true, false, ◌&&◌, ◌||◌, not, Option, none, some, List, [], ◌∷◌,
  ◌++◌, ◌==◌, if◌then◌else◌, find_first, all_of, any_of, is_some, if_cases, keep, map, arith,
  Bool-cases, Option-cases, inl, inr, ltb, length, all_of-append,
}
use fxjournal.Prelude.Text.{Text, is_blank, lower, same_text, strip}
use fxjournal.Access.{
  SignupStatus, pending, approved, rejected, suspended, is_approved, is_root_admin_email,
}
use fxjournal.Accounts.{
  Env, Member, Passwords, Session, SignupCode, Store, add_member, find_by_email, find_by_id,
  is_allowed_signup_email_domain, save, signup_code_for, use_code, replace_row,
  normalize_signup_code,
}
use fxjournal.Accounts.Tokens.{
  ResetClaim, Signer, password_reset_purpose, verify_auth_token, verify_email_purpose,
  verify_password_reset_token, verify_pending_registration_token,
}
use fxjournal.Accounts.Rows.{
  all_of_found, and_left, and_right, is_google_verified, use_code_members,
}
use fxjournal.Accounts.SignIn
use fxjournal.Accounts.SignUp
use fxjournal.Accounts.Reset
use fxjournal.Accounts.Review
use fxjournal.Accounts.History.{
  Action, act, serve_all, logs_in, comes_from_google, registers, verifies_email, forgets_password,
  resets_password, approves, rejects, suspends, toggles_admin, deletes, creates_code, toggles_code,
}

pub either : {A : Type 0} (P : A → Type 0) (c : Bool) (a b : A) → P a → P b → P (if c then a else b)
either P c a b h k = if_cases P c a b (λ _. h) (λ _. k)

pub all_of-keep :
    (q p : Member → Bool) (rows : List Member)
    → all_of q rows ≡ true
    → all_of q (keep p rows) ≡ true
all_of-keep q p [] h = refl
all_of-keep q p (a ∷ rows) h = elim (Bool-cases (p a)) [
  | inl e ↦ rw e (
      rw (and_left (q a) (all_of q rows) h)
        (all_of-keep q p rows (and_right (q a) (all_of q rows) h)))
  | inr e ↦ rw e (all_of-keep q p rows (and_right (q a) (all_of q rows) h))
]

all_of_save :
    (q : Member → Bool) (rows : List Member) (n : Member)
    → all_of q rows ≡ true
    → q n ≡ true
    → all_of q (map (replace_row n) rows) ≡ true
all_of_save q [] n h k = refl
all_of_save q (a ∷ rows) n h k = elim (Bool-cases (a.id == n.id)) [
  | inl e ↦ rw e (rw k (all_of_save q rows n (and_right (q a) (all_of q rows) h) k))
  | inr e ↦ rw e (
      rw (and_left (q a) (all_of q rows) h)
        (all_of_save q rows n (and_right (q a) (all_of q rows) h) k))
]

abbrev pub IsSound : Store → Type 0
IsSound s = all_of is_google_verified s.members ≡ true

module _ (s : Store) (sound : IsSound s) where
  pub save_keeps : (n : Member) → is_google_verified n ≡ true → IsSound (save n s)
  save_keeps n h = all_of_save is_google_verified s.members n sound h

  -- A found row is as sound as all are.
  pub found_keeps :
      (p : Member → Bool) (m : Member)
      → find_first p s.members ≡ some m
      → is_google_verified m ≡ true
  found_keeps p m found = all_of_found p is_google_verified s.members m sound found

  pub use_code_keeps : (env : Env) (row : Option SignupCode) → IsSound (use_code env row s)
  use_code_keeps env row = ap (all_of is_google_verified) (use_code_members env row s) ∙ sound

  pub add_keeps : (n : Member) → is_google_verified n ≡ true → IsSound (add_member n s)
  add_keeps n h = all_of-append is_google_verified s.members (n ∷ []) sound (rw h refl)

abbrev Sound : SignIn.Outcome → Type 0
Sound o = IsSound o.store

answered_keeps :
    (env : Env) (s : Store) (session : Session) (user : Member) (sound : IsSound s)
    → is_google_verified user ≡ true
    → Sound (
        SignIn.by_status user.signup_status
          (SignIn.complete_successful_login env s session user)
          (SignIn.answer s session))
answered_keeps env s session user sound h =
    SignIn.by_status_keeps Sound user.signup_status
      (SignIn.complete_successful_login env s session user) (SignIn.answer s session)
      (λ _. save_keeps s sound (record user { last_login_at = some env.now }) h) (λ _. sound)

finalize_keeps :
    (env : Env) (s : Store) (session : Session) (user : Member)
    → IsSound s
    → is_google_verified user ≡ true
    → Sound (SignIn.finalize_google_authenticated_user env s session user)
unfolding SignIn.finalize_google_authenticated_user
finalize_keeps env s session user sound h =
    answered_keeps env s (SignIn.seen_session session user) user sound h

module _ (env : Env) (s : Store) (session : Session) (sound : IsSound s) where
  login_as_keeps :
      (passwords : Passwords) (password : Text) (found : Option Member)
      → ((m : Member) → found ≡ some m → is_google_verified m ≡ true)
      → Sound (SignIn.login_as env passwords s session password found)
  login_as_keeps passwords password none known = sound
  login_as_keeps passwords password (some user) known =
      either Sound (not (passwords.check_password_hash user.password password)) _ _ sound (
        either Sound (env.require_email_verification && not user.email_verified) _ _ sound
          (answered_keeps env s session user sound (known user refl)))

  pub login_keeps :
      (passwords : Passwords) (email password : Text)
      → Sound (SignIn.login env passwords s session email password)
  unfolding SignIn.login
  login_keeps passwords email password = either Sound (is_some session.user_id) _ _ sound (
      login_as_keeps passwords password (find_by_email (lower (strip email)) s)
        (λ m found. found_keeps s sound (λ r. same_text r.email (lower (strip email))) m found))

  link_keeps :
      (google_sub : Text) (user : Member)
      → Sound (SignIn.link_unless_other env s session google_sub user)
  link_keeps google_sub user = either Sound (SignIn.is_other user.google_sub google_sub) _ _ sound (
      finalize_keeps env (save (SignIn.linked google_sub user) s) session
        (SignIn.linked google_sub user) (save_keeps s sound (SignIn.linked google_sub user) refl)
        refl)

  link_existing_keeps :
      (st : SignupStatus) (google_sub : Text) (user : Member)
      → Sound (SignIn.link_existing st env s session google_sub user)
  link_existing_keeps rejected g user = sound
  link_existing_keeps suspended g user = sound
  link_existing_keeps pending g user = link_keeps g user
  link_existing_keeps approved g user = link_keeps g user

  create_with_code_keeps :
      (info : SignIn.UserInfo) (username password : Text) (code : Option (Option SignupCode))
      → Sound (SignIn.create_with_code env s session info username password code)
  create_with_code_keeps info username password none = sound
  create_with_code_keeps info username password (some row) =
      let user = SignIn.google_member env info username password row in
      either Sound (not (is_allowed_signup_email_domain env info.email)) _ _ sound (
        either Sound (not env.inserts) _ _ sound (
          finalize_keeps env (use_code env row (add_member user s)) session user
            (use_code_keeps (add_member user s) (add_keeps s sound user refl) env row) refl))

  create_keeps :
      (intent : SignIn.Intent) (info : SignIn.UserInfo) (username password code : Text)
      → Sound (SignIn.create_google_account intent env s session info username password code)
  create_keeps SignIn.to_login info username password code = sound
  create_keeps SignIn.to_register info username password code =
      either Sound env.registration_paused _ _ sound
        (create_with_code_keeps info username password (signup_code_for env code s))

  link_or_create_keeps :
      (found : Option Member) (intent : SignIn.Intent) (info : SignIn.UserInfo)
      (username password code : Text)
      → Sound (SignIn.link_or_create found intent env s session info username password code)
  link_or_create_keeps none intent info username password code =
      create_keeps intent info username password code
  link_or_create_keeps (some user) intent info username password code =
      link_existing_keeps user.signup_status info.sub user

  find_linked_keeps :
      (found : Option Member) (intent : SignIn.Intent) (info : SignIn.UserInfo)
      (username password code : Text)
      → ((m : Member) → found ≡ some m → is_google_verified m ≡ true)
      → Sound (SignIn.find_linked found intent env s session info username password code)
  find_linked_keeps none intent info username password code known =
      link_or_create_keeps (find_by_email info.email s) intent info username password code
  find_linked_keeps (some user) intent info username password code known =
      finalize_keeps env s session user sound (known user refl)

  callback_keeps :
      (info : Option SignIn.UserInfo) (intent : SignIn.Intent) (username password code : Text)
      → Sound (SignIn.callback_with info intent env s session username password code)
  callback_keeps none intent username password code = sound
  callback_keeps (some info) intent username password code =
      either Sound (is_blank info.sub || is_blank info.email || not info.email_verified) _ _ sound (
        find_linked_keeps (find_first (SignIn.has_sub info.sub) s.members) intent info username
          password code (λ m found. found_keeps s sound (SignIn.has_sub info.sub) m found))

  pub google_keeps :
      (has_client : Bool) (info : Option SignIn.UserInfo) (intent : SignIn.Intent)
      (username password code : Text)
      → Sound
          (SignIn.google_auth_callback env s session has_client info intent username password code)
  unfolding SignIn.google_auth_callback
  google_keeps has_client info intent username password code =
      either Sound (not has_client) _ _ sound (callback_keeps info intent username password code)
