-- ===== src/Accounts/Gaps.antt =====
-- auth_account.py: what a link to Google and a verification link let in.
use fxjournal.Prelude.{
  ℕ, ◌≡◌, ◌∙◌, refl, ap, ◌≤◌, ◌+◌, Bool, true, false, not, Option, none, some, [], if◌then◌else◌,
  find_first,
}
use fxjournal.Prelude.Text.{Text, is_blank, same_text}
use fxjournal.Access.{SignupStatus, approved, is_approved}
use fxjournal.Accounts.{Env, Member, Passwords, Session, Store, find_by_email, save, use_code}
use fxjournal.Accounts.Links.Resets.{enters, finds_written}
use fxjournal.Accounts.Rows.{find_first-passes, find_first-save, use_code_members}
use fxjournal.Accounts.Tokens.{
  Signer, SignerLaws, clean_email, generate_auth_token, verify_auth_token, verify_email_purpose,
  verify_pending_registration_token,
}
use fxjournal.Accounts.SignIn.{
  UserInfo, answer, by_status, complete_successful_login, find_linked, link_or_create, is_other,
  link_existing, other_google_account, finalize_google_authenticated_user, google_auth_callback,
  has_sub, linked, login, signed_in, seen_session, to_login, unverified_email,
}
use fxjournal.Accounts.SignUp.{verified, verify_email, verify_email_token, used_code}

linking_stores :
    (env : Env) (s : Store) (user : Member) (google_sub : Text) (ours : Session)
    → user.google_sub ≡ none
    → user.signup_status ≡ approved
    → (link_existing user.signup_status env s ours google_sub user).store
      ≡ save
          (record (linked google_sub user) { last_login_at = some env.now })
          (save (linked google_sub user) s)
unfolding finalize_google_authenticated_user
linking_stores env s user google_sub ours own ok =
    ap (λ (st : SignupStatus). (link_existing st env s ours google_sub user).store) ok
    ∙ ap
        (λ (b : Bool).
          (if b
            then answer s ours other_google_account
            else finalize_google_authenticated_user env (save (linked google_sub user) s) ours
                (linked google_sub user)).store)
        (ap (λ (o : Option Text). is_other o google_sub) own)
    ∙ ap
        (λ (st : SignupStatus).
          (by_status st
            (complete_successful_login env (save (linked google_sub user) s)
              (seen_session ours (linked google_sub user)) (linked google_sub user))
            (answer (save (linked google_sub user) s)
              (seen_session ours (linked google_sub user)))).store)
        ok

-- The store that linking an approved user leaves.
google_links :
    (env : Env) (s : Store) (user : Member) (info : UserInfo) (ours : Session)
    → find_first (has_sub info.sub) s.members ≡ none
    → find_by_email info.email s ≡ some user
    → is_blank info.sub ≡ false
    → is_blank info.email ≡ false
    → info.email_verified ≡ true
    → user.google_sub ≡ none
    → user.signup_status ≡ approved
    → (google_auth_callback env s ours true (some info) to_login [] [] []).store
      ≡ save
          (record (linked info.sub user) { last_login_at = some env.now })
          (save (linked info.sub user) s)
unfolding google_auth_callback
google_links env s user info ours unlinked found has_sub_text has_email told own ok =
    rw has_sub_text (
      rw has_email (
        rw (ap not told) (
          ap (λ (o : Option Member). (find_linked o to_login env s ours info [] [] []).store)
            unlinked
          ∙ ap (λ (o : Option Member). (link_or_create o to_login env s ours info [] [] []).store)
              found
          ∙ linking_stores env s user info.sub ours own ok)))

-- One who is approved and verified signs in by the password also after the row is written twice.
signs_in_after :
    (env : Env) (passwords : Passwords) (s : Store) (user once twice : Member) (session : Session)
    (email password : Text)
    → find_by_email (clean_email email) s ≡ some user
    → once.id ≡ user.id
    → once.email ≡ user.email
    → twice.id ≡ once.id
    → twice.email ≡ once.email
    → session.user_id ≡ none
    → passwords.check_password_hash twice.password password ≡ true
    → twice.email_verified ≡ true
    → twice.signup_status ≡ approved
    → (login env passwords (save twice (save once s)) session email password).reply ≡ signed_in
signs_in_after env passwords s user once twice session email password found i e i' e' out checks
      proved ok =
    let first = finds_written passwords s user email [] password found once i e in
    let second = finds_written passwords (save once s) once email [] password first twice i' e' in
    enters passwords (save twice (save once s)) twice email [] password second env session out
      checks proved ok

-- A password that was set before the address was verified: it is refused before the user comes from
-- Google, and signs in after.
pub linking_keeps_password :
    (env : Env) (passwords : Passwords) (s : Store) (user : Member) (info : UserInfo)
    (theirs ours : Session) (password : Text)
    → find_first (has_sub info.sub) s.members ≡ none
    → find_by_email info.email s ≡ some user
    → clean_email info.email ≡ info.email
    → is_blank info.sub ≡ false
    → is_blank info.email ≡ false
    → info.email_verified ≡ true
    → user.google_sub ≡ none
    → user.signup_status ≡ approved
    → user.email_verified ≡ false
    → env.require_email_verification ≡ true
    → passwords.check_password_hash user.password password ≡ true
    → theirs.user_id ≡ none
    → ((login env passwords s theirs info.email password).reply ≡ unverified_email)
      × ((login env passwords
            (google_auth_callback env s ours true (some info) to_login [] [] []).store
            theirs
            info.email
            password).reply
          ≡ signed_in)
unfolding login
linking_keeps_password env passwords s user info theirs ours password unlinked found clean
      has_sub_text has_email told own ok fresh needed checks out =
    (
      rw out (rw clean (rw found (rw checks (rw needed (rw fresh refl))))),
      rw (google_links env s user info ours unlinked found has_sub_text has_email told own ok) (
          signs_in_after env passwords s user (linked info.sub user)
            (record (linked info.sub user) { last_login_at = some env.now }) theirs info.email
            password (rw clean found) refl refl refl refl out checks refl ok),
    )

verify_found :
    (env : Env) (s : Store) (user : Member) (email : Text)
    → find_by_email email s ≡ some user
    → user.email_verified ≡ false
    → verify_email env s (some email) ≡ (
      use_code env
          (used_code user.signup_code_used s)
          (save (record user { email_verified = true }) s),
      verified (is_approved user.signup_status),
    )
verify_found env s user email found unverified = rw found (rw unverified refl)

-- A fresh link verifies the address of its user, whatever has become of the user's signup code.
pub verification_link_verifies :
    (env : Env) (signer : Signer)
    → SignerLaws signer
    → (s : Store) (user : Member) (email : Text) (sent now max_age : ℕ)
    → find_by_email email s ≡ some user
    → clean_email email ≡ email
    → is_blank email ≡ false
    → sent ≤ now
    → now ≤ sent + max_age
    → user.email_verified ≡ false
    → ((verify_email_token env signer now max_age s
          (generate_auth_token signer sent email verify_email_purpose)).1
        ≡ verified (is_approved user.signup_status))
      × (find_by_email email
            (verify_email_token env signer now max_age s
              (generate_auth_token signer sent email verify_email_purpose)).0
          ≡ some (record user { email_verified = true }))
unfolding verify_email_token verify_auth_token verify_pending_registration_token generate_auth_token
    same_text
verification_link_verifies env signer laws s user email sent now max_age found clean present made
      fresh unverified =
    rw
      (laws.loads-dumps sent now max_age
        (record {
          purpose = verify_email_purpose;
          email = clean_email email;
          reset_nonce = [];
          registration_id = [];
        })
        made fresh)
      (rw clean (
        rw clean (
          rw present (
            rw (verify_found env s user email found unverified) (
              refl,
              ap (find_first (λ m. same_text m.email email)) (
                    use_code_members env (used_code user.signup_code_used s)
                      (save (record user { email_verified = true }) s))
                  ∙ finds_row,
            )))))
  where
    finds_row :
        find_by_email email (save (record user { email_verified = true }) s)
        ≡ some (record user { email_verified = true })
    finds_row =
        find_first-save (λ m. same_text m.email email) s.members user
          (record user { email_verified = true }) found refl
          (find_first-passes (λ m. same_text m.email email) s.members user found)
