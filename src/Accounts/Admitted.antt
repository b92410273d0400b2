-- ===== src/Accounts/Admitted.antt =====
-- Who is signed in: by a password, and through Google.
use fxjournal.Prelude.{
  ℕ, ◌≡◌, ◌∙◌, refl, sym, ap, Bool, true, false, ◌&&◌, ◌||◌, not, Option, none, some, [], ◌==◌,
  if◌then◌else◌, find_first, all_of, any_of, is_some, if_cases, arith, Bool-cases, inl, inr,
}
use fxjournal.Prelude.Text.{Text, is_blank, lower, same_text, strip}
use fxjournal.Access.{SignupStatus, pending, approved, rejected, suspended, is_approved}
use fxjournal.Accounts.{
  Env, Member, Passwords, Session, SignupCode, Store, add_member, find_by_email,
  is_allowed_signup_email_domain, save, signup_code_for, use_code,
}
use fxjournal.Accounts.Rows.{
  all_of_found, is_google_verified, use_code_members, any_of-save, any_of-snoc, any_of_found,
  find_first-passes, has_id, self_number,
}
use fxjournal.Accounts.SignIn.{
  Intent, Outcome, Reply, UserInfo, already_signed_in, bad_signup_code, domain_not_allowed,
  google_failed, invalid_credentials, is_suspended, no_account, no_google, not_approved,
  not_verified_by_google, other_google_account, registration_is_paused, setup_failed,
  unverified_email, answer, by_status_keeps, by_status, callback_with, complete_successful_login,
  create_google_account, create_with_code, finalize_google_authenticated_user, find_linked,
  google_auth_callback, google_member, has_sub, is_other, link_existing, link_or_create,
  link_unless_other, linked, login, login_as, to_login, to_register,
}

-- Whether this is the row of the user, approved, and verified where that is asked for.
abbrev pub is_welcome : Env → ℕ → Member → Bool
is_welcome env id m =
    m.id == id
    && is_approved m.signup_status
    && (not env.require_email_verification || m.email_verified)

abbrev Admits : Env → Outcome → Type 0
Admits env o =
    (i : ℕ) → o.session.user_id ≡ some i → any_of (is_welcome env i) o.store.members ≡ true

if_admits :
    (env : Env) (c : Bool) (a b : Outcome)
    → Admits env a
    → (c ≡ false → Admits env b)
    → Admits env (if c then a else b)
if_admits env c a b h k = if_cases (Admits env) c a b (λ _. h) k

module _ (env : Env) where
  none_not_some : {i : ℕ} → none ≡ some i → ⊥
  none_not_some h = cc

  refused :
      (s : Store) (session : Session) (r : Reply)
      → session.user_id ≡ none
      → Admits env (answer s session r)
  refused s session r out i h = absurd (none_not_some (sym out ∙ h))

  welcome :
      (user : Member)
      → user.signup_status ≡ approved
      → (not env.require_email_verification || user.email_verified) ≡ true
      → is_welcome env user.id user ≡ true
  welcome user ok verified = rw (self_number user.id) (rw ok (rw verified refl))

  complete_admits :
      (s : Store) (session : Session) (user : Member)
      → any_of (has_id user.id) s.members ≡ true
      → user.signup_status ≡ approved
      → (not env.require_email_verification || user.email_verified) ≡ true
      → Admits env (complete_successful_login env s session user)
  complete_admits s session user known ok verified i h =
      let same : user.id ≡ i = cc in
      ap
        (λ (j : ℕ).
          any_of (is_welcome env j) (complete_successful_login env s session user).store.members)
        (sym same)
      ∙ any_of-save (is_welcome env user.id) s.members
          (record user { last_login_at = some env.now }) known (welcome user ok verified)

  login_as_admits :
      (passwords : Passwords) (s : Store) (session : Session) (password : Text)
      (found : Option Member)
      → session.user_id ≡ none
      → ((m : Member) → found ≡ some m → any_of (has_id m.id) s.members ≡ true)
      → Admits env (login_as env passwords s session password found)
  login_as_admits passwords s session password none out known =
      refused s session invalid_credentials out
  login_as_admits passwords s session password (some user) out known =
      if_admits env (not (passwords.check_password_hash user.password password)) _ _
        (refused s session invalid_credentials out)
        (λ _.
          if_admits env (env.require_email_verification && not user.email_verified) _ _
            (refused s (record session { pending_verify_email = user.email }) unverified_email out)
            (λ verified.
              by_status_keeps (Admits env) user.signup_status _ _
                (λ ok. complete_admits s session user (known user refl) ok (ground arith))
                (λ r. refused s session r out)))

  -- Nobody who is not known, approved and, where that is asked for, verified is signed in by a password.
  pub login_admits_approved :
      (passwords : Passwords) (s : Store) (session : Session) (email password : Text) (i : ℕ)
      → session.user_id ≡ none
      → (login env passwords s session email password).session.user_id ≡ some i
      → any_of (is_welcome env i) (login env passwords s session email password).store.members
        ≡ true
  unfolding login
  login_admits_approved passwords s session email password i out =
      if_admits env (is_some session.user_id) _ _ (refused s session already_signed_in out)
        (λ _.
          login_as_admits passwords s session password (find_by_email (lower (strip email)) s) out
            (λ m found.
              any_of_found (λ r. same_text r.email (lower (strip email))) s.members m found))
        i

  or_verified : (b : Bool) → b ≡ true → (not env.require_email_verification || b) ≡ true
  or_verified b h = ground arith

  seen_admits :
      (user : Member) (s : Store) (seen : Session)
      → seen.user_id ≡ none
      → any_of (has_id user.id) s.members ≡ true
      → user.email_verified ≡ true
      → Admits env
          (by_status user.signup_status (complete_successful_login env s seen user) (answer s seen))
  seen_admits user s seen out known verified =
      by_status_keeps (Admits env) user.signup_status (complete_successful_login env s seen user)
        (answer s seen)
        (λ ok. complete_admits s seen user known ok (or_verified user.email_verified verified))
        (λ r. refused s seen r out)

  finalize_admits :
      (s : Store) (session : Session) (user : Member)
      → session.user_id ≡ none
      → any_of (has_id user.id) s.members ≡ true
      → user.email_verified ≡ true
      → Admits env (finalize_google_authenticated_user env s session user)
  unfolding finalize_google_authenticated_user
  finalize_admits s session user out known verified =
      elim (Bool-cases
        (same_text (lower (strip session.pending_verify_email)) (lower (strip user.email)))) [
          | inl e ↦
              rw e (
                seen_admits user s (record session { pending_verify_email = [] }) out known
                  verified)
          | inr e ↦ rw e (seen_admits user s session out known verified)
        ]

  module _ (s : Store) (session : Session) (out : session.user_id ≡ none) where
    link_admits :
        (google_sub : Text) (user : Member)
        → any_of (has_id user.id) s.members ≡ true
        → Admits env (link_unless_other env s session google_sub user)
    link_admits google_sub user known =
        if_admits env (is_other user.google_sub google_sub) _ _
          (refused s session other_google_account out)
          (λ _.
            finalize_admits (save (linked google_sub user) s) session (linked google_sub user) out
              (any_of-save (has_id user.id) s.members (linked google_sub user) known
                (self_number user.id))
              refl)

    link_existing_admits :
        (st : SignupStatus) (google_sub : Text) (user : Member)
        → any_of (has_id user.id) s.members ≡ true
        → Admits env (link_existing st env s session google_sub user)
    link_existing_admits rejected g user known = refused s session not_approved out
    link_existing_admits suspended g user known = refused s session is_suspended out
    link_existing_admits pending g user known = link_admits g user known
    link_existing_admits approved g user known = link_admits g user known

    create_with_code_admits :
        (info : UserInfo) (username password : Text) (code : Option (Option SignupCode))
        → Admits env (create_with_code env s session info username password code)
    create_with_code_admits info username password none = refused s session bad_signup_code out
    create_with_code_admits info username password (some row) =
        let user = google_member env info username password row in
        if_admits env (not (is_allowed_signup_email_domain env info.email)) _ _
          (refused s session domain_not_allowed out)
          (λ _. if_admits env (not env.inserts) _ _ (refused s session setup_failed out) (λ _.
            finalize_admits (use_code env row (add_member user s)) session user out
              (ap (any_of (has_id user.id)) (use_code_members env row (add_member user s))
                ∙ any_of-snoc (has_id user.id) s.members user (self_number user.id))
              refl))

    create_admits :
        (intent : Intent) (info : UserInfo) (username password code : Text)
        → Admits env (create_google_account intent env s session info username password code)
    create_admits to_login info username password code = refused s session no_account out
    create_admits to_register info username password code =
        if_admits env env.registration_paused _ _ (refused s session registration_is_paused out)
          (λ _. create_with_code_admits info username password (signup_code_for env code s))

    link_or_create_admits :
        (found : Option Member) (intent : Intent) (info : UserInfo) (username password code : Text)
        → ((m : Member) → found ≡ some m → any_of (has_id m.id) s.members ≡ true)
        → Admits env (link_or_create found intent env s session info username password code)
    link_or_create_admits none intent info username password code known =
        create_admits intent info username password code
    link_or_create_admits (some user) intent info username password code known =
        link_existing_admits user.signup_status info.sub user (known user refl)

    find_linked_admits :
        (found : Option Member) (intent : Intent) (info : UserInfo) (username password code : Text)
        → ((m : Member)
            → found ≡ some m
            → (any_of (has_id m.id) s.members ≡ true) × (m.email_verified ≡ true))
        → Admits env (find_linked found intent env s session info username password code)
    find_linked_admits none intent info username password code known =
        link_or_create_admits (find_by_email info.email s) intent info username password code
          (λ m found. any_of_found (λ r. same_text r.email info.email) s.members m found)
    find_linked_admits (some user) intent info username password code known =
        let (stands, verified) = known user refl in
        finalize_admits s session user out stands verified

  has_sub_verified :
      (sub : Text) (m : Member)
      → has_sub sub m ≡ true
      → is_google_verified m ≡ true
      → m.email_verified ≡ true
  has_sub_verified sub m h k = ground arith

  callback_admits :
      (s : Store) (session : Session) (info : Option UserInfo) (intent : Intent)
      (username password code : Text)
      → session.user_id ≡ none
      → all_of is_google_verified s.members ≡ true
      → Admits env (callback_with info intent env s session username password code)
  callback_admits s session none intent username password code out all =
      refused s session google_failed out
  callback_admits s session (some info) intent username password code out all =
      if_admits env (is_blank info.sub || is_blank info.email || not info.email_verified) _ _
        (refused s session not_verified_by_google out)
        (λ _.
          find_linked_admits s session out (find_first (has_sub info.sub) s.members) intent info
            username password code
            (λ m found. (
              any_of_found (has_sub info.sub) s.members m found,
              has_sub_verified info.sub m (find_first-passes (has_sub info.sub) s.members m found)
                  (all_of_found (has_sub info.sub) is_google_verified s.members m all found),
            )))

  -- Nobody who is not known, approved and, where that is asked for, verified is signed in through
  -- Google, where every row with a Google account has a verified email.
  pub google_admits_approved :
      (s : Store) (session : Session) (has_client : Bool) (info : Option UserInfo) (intent : Intent)
      (username password code : Text) (i : ℕ)
      → session.user_id ≡ none
      → all_of is_google_verified s.members ≡ true
      → (google_auth_callback env s session has_client info intent username password
          code).session.user_id
        ≡ some i
      → any_of
          (is_welcome env i)
          (google_auth_callback env s session has_client info intent username password
            code).store.members
        ≡ true
  unfolding google_auth_callback
  google_admits_approved s session has_client info intent username password code i out all =
      if_admits env (not has_client) _ _ (refused s session no_google out)
        (λ _. callback_admits s session info intent username password code out all) i
