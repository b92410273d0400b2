-- ===== src/Accounts/Examples.antt =====
-- Tests of the accounts, and the theorems at concrete inputs.
mod Signing
use fxjournal.Prelude.{
  ℕ, ◌≡◌, ◌⊎◌, refl, Bool, true, false, Option, none, some, List, [], ◌∷◌, ◌++◌, inl, inr, any_of,
  all_of, find_first, is_some, ltb, length, arith,
}
use fxjournal.Prelude.Text.{
  Text, codes, drop_while, is_blank, lower, same_text, same_text_self, split_on, strip, strip_by,
  upper, contains_text,
}
use fxjournal.Access.{
  SignupStatus, pending, approved, suspended, is_approved, is_root_admin_email,
  get_admin_user_emails,
}
use fxjournal.Accounts.{
  Env, Member, Passwords, Session, SignupCode, Store, off, find_by_email, find_by_id,
  find_signup_code, is_row_usable, normalize_signup_code, save, signup_code_for, use_code,
}
use fxjournal.Accounts.Admitted.{google_admits_approved, is_welcome, login_admits_approved}
use fxjournal.Accounts.Rows.{is_google_verified}
use fxjournal.Accounts.History.{
  Action, serve_all, comes_from_google, forgets_password, logs_in, registers,
}
use fxjournal.Accounts.Verified.Others.{google_stays_verified}
use fxjournal.Accounts.Links.{reset_link_verifies_nothing, verification_link_resets_nothing}
use fxjournal.Accounts.Links.Resets.{reset_lets_in, reset_link_works_once}
use fxjournal.Accounts.Gaps.{linking_keeps_password, verification_link_verifies}
use fxjournal.Accounts.Kept.{review_all, root_admin_stays}
use fxjournal.Accounts.Reviewed.{
  Deed, approves, rejects, Move, MovesTo, IsGone, deletes, review, review_moves, suspends,
}
use fxjournal.Accounts.Tokens.{
  Payload, clean_email, generate_auth_token, generate_password_reset_token, password_reset_purpose,
  verify_auth_token, verify_email_purpose, verify_password_reset_token,
  verify_pending_registration_token,
}
use fxjournal.Accounts.SignIn
use fxjournal.Accounts.SignIn.{
  UserInfo, finalize_google_authenticated_user, google_auth_callback, has_sub, login, signed_in,
  to_login, unverified_email,
}
use fxjournal.Accounts.SignUp
use fxjournal.Accounts.SignUp.{verified, verify_email_token}
use fxjournal.Accounts.Reset
use fxjournal.Accounts.Reset.{forgot_password, reset_done, reset_password_token}
use fxjournal.Accounts.Examples.Signing.{signer, signer_laws}

abbrev hashes : Passwords
hashes = record {
  generate_password_hash = λ p. 1 ∷ p;
  check_password_hash = λ h p. same_text h (1 ∷ p);
}

abbrev env : Env
env = record {
  now = 1000;
  new_id = 7;
  inserts = true;
  require_email_verification = true;
  admin_emails = codes "root@x.io";
  auto_approve_new_users = true;
  registration_paused = false;
  signup_code_mode = off;
  allowed_domains = codes "x.io" ∷ [];
}

abbrev alice : Member
alice = record {
  id = 1;
  username = codes "alice";
  email = codes "alice@x.io";
  google_sub = none;
  password = 1 ∷ codes "secret99";
  email_verified = true;
  is_admin = false;
  signup_status = approved;
  password_reset_nonce = none;
  signup_code_used = none;
  approved_at = none;
  approved_by_user_id = none;
  last_login_at = none;
}

abbrev squatter : Member
squatter = record alice {
  id = 2;
  email = codes "bob@x.io";
  username = codes "squatter";
  email_verified = false;
}

abbrev root : Member
root = record alice {
  id = 3;
  email = codes "root@x.io";
  username = codes "root";
  approved_by_user_id = some 1;
}

abbrev two_members : Store
two_members = record { members = alice ∷ squatter ∷ root ∷ []; signup_codes = [] }

abbrev nobody : Session
nobody = record { user_id = none; pending_verify_email = [] }

abbrev bob_info : UserInfo
bob_info = record { sub = codes "g2"; email = codes "bob@x.io"; email_verified = true }

abbrev secret : Text
secret = codes "secret99"

alice_enters :
    (login env hashes two_members nobody (codes " Alice@X.io") secret).session.user_id ≡ some 1
unfolding login lower strip strip_by drop_while same_text
alice_enters = refl

login_admits_approved_example :
    any_of
      (is_welcome env 1)
      (login env hashes two_members nobody (codes " Alice@X.io") secret).store.members
    ≡ true
login_admits_approved_example =
    login_admits_approved env hashes two_members nobody (codes " Alice@X.io") secret 1 refl
      alice_enters

bob_enters :
    (google_auth_callback env two_members nobody true
      (some bob_info)
      to_login
      []
      []
      []).session.user_id
    ≡ some 2
unfolding google_auth_callback finalize_google_authenticated_user lower strip strip_by drop_while
    same_text
bob_enters = refl

google_admits_approved_example :
    any_of
      (is_welcome env 2)
      (google_auth_callback env two_members nobody true
        (some bob_info)
        to_login
        []
        []
        []).store.members
    ≡ true
google_admits_approved_example =
    google_admits_approved env two_members nobody true (some bob_info) to_login [] [] [] 2 refl refl
      bob_enters

abbrev requests : List (Env × Action)
requests =
    (env, comes_from_google nobody true (some bob_info) to_login [] [] [])
    ∷ (env, logs_in nobody (codes "alice@x.io") secret)
    ∷ []

google_stays_verified_example :
    all_of is_google_verified (serve_all hashes signer requests two_members).members ≡ true
google_stays_verified_example = google_stays_verified hashes signer requests two_members refl

linking_keeps_password_example :
    ((login env hashes two_members nobody (codes "bob@x.io") secret).reply ≡ unverified_email)
    × ((login env hashes
          (google_auth_callback env two_members nobody true (some bob_info) to_login [] [] []).store
          nobody
          (codes "bob@x.io")
          secret).reply
        ≡ signed_in)
unfolding same_text lower strip strip_by drop_while
linking_keeps_password_example =
    linking_keeps_password env hashes two_members squatter bob_info nobody nobody secret refl refl
      refl refl refl refl refl refl refl refl refl refl

verification_link_verifies_example :
    ((verify_email_token env signer 50 3600 two_members
        (generate_auth_token signer 20 (codes "bob@x.io") verify_email_purpose)).1
      ≡ verified true)
    × (find_by_email
          (codes "bob@x.io")
          (verify_email_token env signer 50 3600 two_members
            (generate_auth_token signer 20 (codes "bob@x.io") verify_email_purpose)).0
        ≡ some (record squatter { email_verified = true }))
unfolding same_text lower strip strip_by drop_while
verification_link_verifies_example =
    verification_link_verifies env signer signer_laws two_members squatter (codes "bob@x.io") 20 50
      3600 refl refl refl (omega arith) (omega arith) refl

review_moves_example :
    MovesTo 2 squatter (review env root suspends 2 two_members)
    ⊎ ((works : Bool) × (suspends ≡ deletes works)
        × IsGone 2 (review env root suspends 2 two_members))
review_moves_example = review_moves env root suspends 2 2 squatter two_members refl

abbrev mailed_store : Store
mailed_store = (forgot_password signer two_members 20 (codes "n1") true (codes "alice@x.io")).0

abbrev mailed : Text
mailed =
    generate_password_reset_token signer 20 (codes "alice@x.io") password_reset_purpose (codes "n1")

alice_mailed :
    (forgot_password signer two_members 20 (codes "n1") true (codes "alice@x.io")).1 ≡ some mailed
unfolding forgot_password same_text lower strip strip_by drop_while
alice_mailed = refl

alice_resets :
    (reset_password_token hashes signer 50 3600 mailed_store mailed secret secret).1 ≡ reset_done
unfolding reset_password_token forgot_password generate_password_reset_token
    verify_password_reset_token same_text lower strip strip_by drop_while
alice_resets = refl

reset_link_works_once_example :
    reset_password_token hashes signer 60 3600
      (reset_password_token hashes signer 50 3600 mailed_store mailed secret secret).0
      mailed
      secret
      secret
    ≡ (
      (reset_password_token hashes signer 50 3600 mailed_store mailed secret secret).0,
      Reset.bad_link,
    )
reset_link_works_once_example =
    reset_link_works_once hashes signer signer_laws 50 3600 mailed_store mailed secret secret
      alice_resets 60 3600 secret secret

reset_lets_in_example :
    (login env hashes
      (reset_password_token hashes signer 50 3600 mailed_store mailed secret secret).0
      nobody
      (codes "alice@x.io")
      secret).reply
    ≡ signed_in
unfolding same_text lower strip strip_by drop_while
reset_lets_in_example =
    reset_lets_in hashes signer signer_laws (λ p. same_text_self (1 ∷ p)) env nobody two_members
      alice (codes "alice@x.io") (codes "n1") secret 20 50 3600 refl refl refl refl refl refl refl
      refl (omega arith) (omega arith) refl mailed alice_mailed

abbrev deeds : List (Deed × ℕ)
deeds = (suspends, 2) ∷ (rejects, 3) ∷ (approves, 2) ∷ (deletes true, 1) ∷ []

root_admin_stays_example :
    (approver : Option ℕ) × ((approver ≡ root.approved_by_user_id) ⊎ (approver ≡ none))
    × (find_by_id 3 (review_all env root deeds two_members)
        ≡ some (record root { approved_by_user_id = approver }))
root_admin_stays_example = root_admin_stays env root deeds two_members refl refl
