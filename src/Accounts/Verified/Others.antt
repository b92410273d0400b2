-- ===== src/Accounts/Verified/Others.antt =====
-- auth_account.py: a Google account stands only in a row with a verified email; the parts of it that
-- the other requests need, and the theorem for every history.
use fxjournal.Prelude.{
  ℕ, ◌≡◌, refl, Bool, true, ◌&&◌, ◌||◌, not, Option, none, some, List, [], ◌∷◌, ◌==◌, find_first,
  all_of, keep, map, arith, is_some, ltb, length,
}
use fxjournal.Prelude.Text.{Text, is_blank, lower, same_text, strip}
use fxjournal.Access.{
  SignupStatus, pending, approved, rejected, suspended, is_approved, is_root_admin_email,
}
use fxjournal.Accounts.{
  Env, Member, Passwords, Session, SignupCode, Store, find_by_email, find_by_id,
  is_allowed_signup_email_domain, save, signup_code_for, normalize_signup_code,
}
use fxjournal.Accounts.Tokens.{
  ResetClaim, Signer, password_reset_purpose, verify_auth_token, verify_email_purpose,
  verify_password_reset_token, verify_pending_registration_token,
}
use fxjournal.Accounts.Rows.{or_true, is_google_verified}
use fxjournal.Accounts.SignUp
use fxjournal.Accounts.Reset
use fxjournal.Accounts.Review
use fxjournal.Accounts.History.{
  Action, act, serve_all, logs_in, comes_from_google, registers, verifies_email, forgets_password,
  resets_password, approves, rejects, suspends, toggles_admin, deletes, creates_code, toggles_code,
}
use fxjournal.Accounts.Verified.{
  IsSound, add_keeps, all_of-keep, either, found_keeps, google_keeps, login_keeps, save_keeps,
  use_code_keeps,
}

abbrev Sound : SignUp.Outcome → Type 0
Sound o = IsSound o.store

abbrev SoundVerified : Store × SignUp.Verified → Type 0
SoundVerified r = IsSound r.0

abbrev SoundReview : Store × Review.Reply → Type 0
SoundReview r = IsSound r.0

forget_keeps :
    (id : ℕ) (rows : List Member)
    → all_of is_google_verified rows ≡ true
    → all_of is_google_verified (map (Review.forget_approver id) rows) ≡ true
forget_keeps id [] h = refl
forget_keeps id (m ∷ rows) h = ground (arith, forget_keeps id rows)

abbrev SoundReset : Store × Reset.Reply → Type 0
SoundReset r = IsSound r.0

abbrev SoundMail : Store × Option Text → Type 0
SoundMail r = IsSound r.0

module _ (env : Env) (s : Store) (sound : IsSound s) where
  register_new_keeps :
      (passwords : Passwords) (session : Session) (username email password : Text)
      (row : Option SignupCode) (existing : Option Member)
      → IsSound
          (SignUp.register_new env passwords s session username email password row existing).store
  register_new_keeps passwords session username email password row none =
      either Sound (not env.inserts) _ _ sound
        (add_keeps s sound (SignUp.new_member env passwords username email password row) refl)
  register_new_keeps passwords session username email password row (some existing) =
      either Sound (same_text existing.email email && SignUp.is_rejected existing.signup_status) _ _
        sound
        (either Sound (same_text existing.email email && SignUp.is_suspended existing.signup_status)
          _ _ sound
          (either Sound (same_text existing.email email && not existing.email_verified) _ _ sound
            sound))

  register_with_code_keeps :
      (passwords : Passwords) (session : Session) (form : SignUp.Form) (username email : Text)
      (code : Option (Option SignupCode))
      → IsSound (SignUp.register_with_code env passwords s session form username email code).store
  register_with_code_keeps passwords session form username email none = sound
  register_with_code_keeps passwords session form username email (some row) =
      either Sound (is_blank username || is_blank email || is_blank form.password) _ _ sound (
        either Sound (ltb (length form.password) 8) _ _ sound (
          either Sound (not (is_allowed_signup_email_domain env email)) _ _ sound (
            either Sound (not form.accepted_legal) _ _ sound (
              register_new_keeps passwords session username email form.password row
                (find_first (SignUp.has_name_or_email username email) s.members)))))

  register_keeps :
      (passwords : Passwords) (session : Session) (form : SignUp.Form)
      → IsSound (SignUp.register env passwords s session form).store
  unfolding SignUp.register
  register_keeps passwords session form = either Sound (is_some session.user_id) _ _ sound (
      either Sound env.registration_paused _ _ sound (
        register_with_code_keeps passwords session form (strip form.username)
          (lower (strip form.email))
          (signup_code_for env (normalize_signup_code form.signup_code) s)))

  mark_keeps : (user : Member) → IsSound (SignUp.mark_verified env user s)
  mark_keeps user = either IsSound user.email_verified _ _ sound (
      use_code_keeps (save (record user { email_verified = true }) s)
        (save_keeps s sound (record user { email_verified = true })
          (or_true (not (is_some user.google_sub))))
        env (SignUp.used_code user.signup_code_used s))

  verify_keeps :
      (signer : Signer) (now max_age : ℕ) (token : Text)
      → IsSound (SignUp.verify_email_token env signer now max_age s token).0
  unfolding SignUp.verify_email_token
  verify_keeps signer now max_age token =
      either SoundVerified (is_some (verify_pending_registration_token signer now token max_age)) _
        _ sound (by_email (verify_auth_token signer now token verify_email_purpose max_age))
    where
      by_member : (found : Option Member) → IsSound (SignUp.verify_member env s found).0
      by_member none = sound
      by_member (some user) = mark_keeps user

      by_email : (email : Option Text) → IsSound (SignUp.verify_email env s email).0
      by_email none = sound
      by_email (some email) = by_member (find_by_email email s)

  found_member_keeps :
      (id : ℕ) (m : Member) → find_by_id id s ≡ some m → is_google_verified m ≡ true
  found_member_keeps id m found = found_keeps s sound (λ r. r.id == id) m found

  send_keeps :
      (signer : Signer) (now : ℕ) (nonce : Text) (commits : Bool) (found : Option Member)
      → ((m : Member) → found ≡ some m → is_google_verified m ≡ true)
      → SoundMail (Reset.send_reset signer s now nonce commits found)
  send_keeps signer now nonce commits none known = sound
  send_keeps signer now nonce commits (some user) known =
      either SoundMail commits _ _
        (save_keeps s sound (record user { password_reset_nonce = some nonce }) (known user refl))
        sound

  forgot_keeps :
      (signer : Signer) (now : ℕ) (nonce : Text) (commits : Bool) (email : Text)
      → SoundMail (Reset.forgot_password signer s now nonce commits email)
  unfolding Reset.forgot_password
  forgot_keeps signer now nonce commits email =
      let address = lower (strip email) in
      either SoundMail (is_blank address) _ _ sound (
        send_keeps signer now nonce commits (find_by_email address s)
          (λ m found. found_keeps s sound (λ r. same_text r.email address) m found))

  reset_for_keeps :
      (passwords : Passwords) (nonce password confirm : Text) (found : Option Member)
      → ((m : Member) → found ≡ some m → is_google_verified m ≡ true)
      → SoundReset (Reset.reset_for passwords s nonce password confirm found)
  reset_for_keeps passwords nonce password confirm none known = sound
  reset_for_keeps passwords nonce password confirm (some user) known =
      either SoundReset (not (Reset.has_nonce user.password_reset_nonce nonce)) _ _ sound (
        either SoundReset (is_blank password || is_blank confirm) _ _ sound (
          either SoundReset (not (same_text password confirm)) _ _ sound (
            either SoundReset (ltb (length password) 8) _ _ sound
              (save_keeps s sound (Reset.reset_member passwords password user) (known user refl)))))

  reset_claimed_keeps :
      (passwords : Passwords) (password confirm : Text) (claim : Option ResetClaim)
      → SoundReset (Reset.reset_claimed passwords s password confirm claim)
  reset_claimed_keeps passwords password confirm none = sound
  reset_claimed_keeps passwords password confirm (some claim) =
      reset_for_keeps passwords claim.reset_nonce password confirm (find_by_email claim.email s)
        (λ m found. found_keeps s sound (λ r. same_text r.email claim.email) m found)

  reset_keeps :
      (passwords : Passwords) (signer : Signer) (now max_age : ℕ) (token password confirm : Text)
      → SoundReset
          (Reset.reset_password_token passwords signer now max_age s token password confirm)
  unfolding Reset.reset_password_token
  reset_keeps passwords signer now max_age token password confirm =
      reset_claimed_keeps passwords password confirm
        (verify_password_reset_token signer now token password_reset_purpose max_age)

  if_found_keeps :
      (id : ℕ) (found : Option Member) (step : Member → Store × Review.Reply)
      → ((m : Member) → found ≡ some m → SoundReview (step m))
      → SoundReview (Review.if_found found s step)
  if_found_keeps id none step h = sound
  if_found_keeps id (some user) step h = h user refl

  status_keeps :
      (st : SignupStatus) (at by : Option ℕ) (user : Member)
      → is_google_verified user ≡ true
      → IsSound (save (Review.with_status st at by user) s)
  status_keeps st at by user h = save_keeps s sound (Review.with_status st at by user) h

  approve_found_keeps :
      (st : SignupStatus) (admin user : Member)
      → is_google_verified user ≡ true
      → SoundReview (Review.approve_found st env admin s user)
  approve_found_keeps approved admin user h = sound
  approve_found_keeps pending admin user h =
      status_keeps approved (some env.now) (some admin.id) user h
  approve_found_keeps rejected admin user h =
      status_keeps approved (some env.now) (some admin.id) user h
  approve_found_keeps suspended admin user h =
      status_keeps approved (some env.now) (some admin.id) user h

  reject_found_keeps :
      (st : SignupStatus) (user : Member)
      → is_google_verified user ≡ true
      → SoundReview (Review.reject_found st s user)
  reject_found_keeps pending user h = status_keeps rejected none none user h
  reject_found_keeps approved user h = sound
  reject_found_keeps rejected user h = sound
  reject_found_keeps suspended user h = sound

  suspend_found_keeps :
      (st : SignupStatus) (user : Member)
      → is_google_verified user ≡ true
      → SoundReview (Review.suspend_found st s user)
  suspend_found_keeps approved user h = status_keeps suspended none none user h
  suspend_found_keeps pending user h = sound
  suspend_found_keeps rejected user h = sound
  suspend_found_keeps suspended user h = sound

  review_keeps :
      (admin : Member) (works : Bool) (id : ℕ)
      → IsSound (Review.admin_signup_delete_user env admin works s id).0
        × IsSound (Review.admin_signup_toggle_user_admin env admin s id).0
        × IsSound (Review.admin_signup_approve_user env admin s id).0
        × IsSound (Review.admin_signup_reject_user admin s id).0
        × IsSound (Review.admin_signup_suspend_user admin s id).0
  unfolding Review.admin_signup_delete_user Review.admin_signup_toggle_user_admin
      Review.admin_signup_approve_user Review.admin_signup_reject_user
      Review.admin_signup_suspend_user
  review_keeps admin works id = (
    if_found_keeps id (find_by_id id s) _ (λ m found.
        either SoundReview (m.id == admin.id) _ _ sound (
          either SoundReview (is_root_admin_email env.admin_emails m.email) _ _ sound (
            either SoundReview works _ _
              (forget_keeps m.id (keep (λ r. not (r.id == m.id)) s.members)
                (all_of-keep is_google_verified (λ r. not (r.id == m.id)) s.members sound))
              sound))),
    if_found_keeps id (find_by_id id s) _ (λ m found.
        either SoundReview (m.id == admin.id) _ _ sound (
          either SoundReview (is_root_admin_email env.admin_emails m.email) _ _ sound (
            either SoundReview (not (is_approved m.signup_status)) _ _ sound (
              save_keeps s sound (record m { is_admin = not m.is_admin })
                (found_member_keeps id m found))))),
    if_found_keeps id (find_by_id id s) _
        (λ m found. approve_found_keeps m.signup_status admin m (found_member_keeps id m found)),
    if_found_keeps id (find_by_id id s) _ (λ m found.
        either SoundReview (m.id == admin.id) _ _ sound
          (reject_found_keeps m.signup_status m (found_member_keeps id m found))),
    if_found_keeps id (find_by_id id s) _ (λ m found.
        either SoundReview (m.id == admin.id) _ _ sound
          (suspend_found_keeps m.signup_status m (found_member_keeps id m found))),
  )

  codes_keeps :
      (id code_id : ℕ) (code generated : Text) (max_uses expires_at : Option ℕ)
      → SoundReview (Review.admin_signup_create_code s id code generated max_uses expires_at)
        × SoundReview (Review.admin_signup_toggle_code s code_id)
  unfolding Review.admin_signup_create_code Review.admin_signup_toggle_code
  codes_keeps id code_id code generated max_uses expires_at = (
    either SoundReview
        (not (is_blank (normalize_signup_code code)) && ltb (length (normalize_signup_code code)) 4)
        _ _ sound
        (either SoundReview (Review.is_zero max_uses) _ _ sound (
          either SoundReview
            (is_some (
              find_first
                (λ c. same_text c.code (Review.or_generated (normalize_signup_code code) generated))
                s.signup_codes))
            _ _ sound sound)),
    either SoundReview (is_some (find_first (λ c. c.id == code_id) s.signup_codes)) _ _ sound sound,
  )

module _ (passwords : Passwords) (signer : Signer) where
  act_keeps :
      (env : Env) (action : Action) (s : Store)
      → IsSound s
      → IsSound (act passwords signer env action s)
  act_keeps env (logs_in session email password) s h =
      login_keeps env s session h passwords email password
  act_keeps env (comes_from_google session has_client info intent username password code) s h =
      google_keeps env s session h has_client info intent username password code
  act_keeps env (registers session form) s h = register_keeps env s h passwords session form
  act_keeps env (verifies_email now max_age token) s h =
      verify_keeps env s h signer now max_age token
  act_keeps env (forgets_password now nonce commits email) s h =
      forgot_keeps env s h signer now nonce commits email
  act_keeps env (resets_password now max_age token password confirm) s h =
      reset_keeps env s h passwords signer now max_age token password confirm
  act_keeps env (deletes admin works id) s h = (review_keeps env s h admin works id).0
  act_keeps env (toggles_admin admin id) s h = (review_keeps env s h admin true id).1
  act_keeps env (approves admin id) s h = (review_keeps env s h admin true id).2
  act_keeps env (rejects admin id) s h = (review_keeps env s h admin true id).3
  act_keeps env (suspends admin id) s h = (review_keeps env s h admin true id).4
  act_keeps env (creates_code id code generated max_uses expires_at) s h =
      (codes_keeps env s h id 0 code generated max_uses expires_at).0
  act_keeps env (toggles_code id) s h = (codes_keeps env s h 0 id [] [] none none).1

  -- Whatever requests come, if every row with a Google account has a verified email before them, every
  -- such row has one after them.
  pub google_stays_verified :
      (actions : List (Env × Action)) (s : Store)
      → all_of is_google_verified s.members ≡ true
      → all_of is_google_verified (serve_all passwords signer actions s).members ≡ true
  google_stays_verified [] s h = h
  google_stays_verified ((env, action) ∷ rest) s h =
      google_stays_verified rest (act passwords signer env action s) (act_keeps env action s h)
