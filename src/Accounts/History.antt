-- ===== src/Accounts/History.antt =====
-- auth_account.py: the requests that write rows of `users` or signup codes, one serve_all another, and what
-- no history of them breaks.
use fxjournal.Prelude.{ℕ, Bool, Option, List, [], ◌∷◌}
use fxjournal.Prelude.Text.{Text}
use fxjournal.Accounts.{Env, Member, Passwords, Session, Store}
use fxjournal.Accounts.Tokens.{Signer}
use fxjournal.Accounts.SignIn
use fxjournal.Accounts.SignUp
use fxjournal.Accounts.Reset
use fxjournal.Accounts.Review

-- A request that writes, with what it carries.
pub data Action : Type 0 where
  logs_in : Session → Text → Text → Action
  comes_from_google :
      Session → Bool → Option SignIn.UserInfo → SignIn.Intent → Text → Text → Text → Action
  registers : Session → SignUp.Form → Action
  verifies_email : ℕ → ℕ → Text → Action
  forgets_password : ℕ → Text → Bool → Text → Action
  resets_password : ℕ → ℕ → Text → Text → Text → Action
  approves rejects suspends toggles_admin : Member → ℕ → Action
  deletes : Member → Bool → ℕ → Action
  creates_code : ℕ → Text → Text → Option ℕ → Option ℕ → Action
  toggles_code : ℕ → Action

module _ (passwords : Passwords) (signer : Signer) where
  -- Each request runs with its own settings, clock and id of a new row.
  abbrev pub act : Env → Action → Store → Store
  act env (logs_in session email password) s =
      (SignIn.login env passwords s session email password).store
  act env (comes_from_google session has_client info intent username password code) s =
      (SignIn.google_auth_callback env s session has_client info intent username password
        code).store
  act env (registers session form) s = (SignUp.register env passwords s session form).store
  act env (verifies_email now max_age token) s =
      (SignUp.verify_email_token env signer now max_age s token).0
  act env (forgets_password now nonce commits email) s =
      (Reset.forgot_password signer s now nonce commits email).0
  act env (resets_password now max_age token password confirm) s =
      (Reset.reset_password_token passwords signer now max_age s token password confirm).0
  act env (approves admin id) s = (Review.admin_signup_approve_user env admin s id).0
  act env (rejects admin id) s = (Review.admin_signup_reject_user admin s id).0
  act env (suspends admin id) s = (Review.admin_signup_suspend_user admin s id).0
  act env (toggles_admin admin id) s = (Review.admin_signup_toggle_user_admin env admin s id).0
  act env (deletes admin works id) s = (Review.admin_signup_delete_user env admin works s id).0
  act env (creates_code id code generated max_uses expires_at) s =
      (Review.admin_signup_create_code s id code generated max_uses expires_at).0
  act env (toggles_code id) s = (Review.admin_signup_toggle_code s id).0

  abbrev pub serve_all : List (Env × Action) → Store → Store
  serve_all [] s = s
  serve_all ((env, action) ∷ rest) s = serve_all rest (act env action s)
