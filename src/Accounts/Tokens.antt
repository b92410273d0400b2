-- ===== src/Accounts/Tokens.antt =====
-- auth_account.py: the tokens in links. A token is signed text that carries its fields; a field that is
-- missing is the empty text.
use fxjournal.Prelude.{ℕ, ◌+◌, ◌≤◌, ◌≡◌, ◌||◌, not, Option, none, some, [], if◌then◌else◌}
use fxjournal.Prelude.Text.{Text, codes, is_blank, lower, same_text, strip}

pub record Payload : Type 0 where
  pub purpose : Text
  pub email : Text
  pub reset_nonce : Text
  pub registration_id : Text

-- What the library `itsdangerous` gives to this code: `dumps` at a time, in seconds, and `loads` at a
-- time with the oldest age that it takes. `none` is SignatureExpired or BadSignature.
pub record Signer : Type 0 where
  pub dumps : ℕ → Payload → Text
  pub loads : ℕ → ℕ → Text → Option Payload

-- A token that was made is read until it is too old; nothing else is read.
pub record SignerLaws (signer : Signer) : Type 0 where
  pub loads-dumps :
      (t now max_age : ℕ) (p : Payload)
      → t ≤ now
      → now ≤ t + max_age
      → signer.loads now max_age (signer.dumps t p) ≡ some p
  pub loads-made :
      (now max_age : ℕ) (token : Text) (p : Payload)
      → signer.loads now max_age token ≡ some p
      → (t : ℕ) × (token ≡ signer.dumps t p)

abbrev pub verify_email_purpose : Text
verify_email_purpose = codes "verify_email"

abbrev pub password_reset_purpose : Text
password_reset_purpose = codes "password_reset"

abbrev pub pending_registration_purpose : Text
pending_registration_purpose = codes "pending_registration"

abbrev pub clean_email : Text → Text
clean_email email = lower (strip email)

pub record ResetClaim : Type 0 where
  pub email : Text
  pub reset_nonce : Text

abbrev pub auth_email : Text → Option Payload → Option Text
auth_email purpose none = none
auth_email purpose (some p) =
    let email = clean_email p.email in
    if not (same_text p.purpose purpose) || is_blank email then none else some email

abbrev pub reset_claim : Text → Option Payload → Option ResetClaim
reset_claim purpose none = none
reset_claim purpose (some p) =
    let email = clean_email p.email in
    let nonce = strip p.reset_nonce in
    if not (same_text p.purpose purpose) || is_blank email || is_blank nonce
    then none
    else some (record { email = email; reset_nonce = nonce })

abbrev pub pending_claim : Option Payload → Option (Text × Text)
pending_claim none = none
pending_claim (some p) =
    let registration_id = strip p.registration_id in
    let email = clean_email p.email in
    if not (same_text p.purpose pending_registration_purpose)
      || is_blank registration_id
      || is_blank email
    then none
    else some (registration_id, email)

module _ (signer : Signer) where
  unfoldable pub generate_auth_token : ℕ → Text → Text → Text
  generate_auth_token t email purpose = signer.dumps t (record {
    purpose = purpose;
    email = clean_email email;
    reset_nonce = [];
    registration_id = [];
  })

  unfoldable pub generate_password_reset_token : ℕ → Text → Text → Text → Text
  generate_password_reset_token t email purpose reset_nonce = signer.dumps t (record {
    purpose = purpose;
    email = clean_email email;
    reset_nonce = strip reset_nonce;
    registration_id = [];
  })

  unfoldable pub verify_auth_token : ℕ → Text → Text → ℕ → Option Text
  verify_auth_token now token purpose max_age = auth_email purpose (signer.loads now max_age token)

  unfoldable pub verify_password_reset_token : ℕ → Text → Text → ℕ → Option ResetClaim
  verify_password_reset_token now token purpose max_age =
      reset_claim purpose (signer.loads now max_age token)

  unfoldable pub verify_pending_registration_token : ℕ → Text → ℕ → Option (Text × Text)
  verify_pending_registration_token now token max_age =
      pending_claim (signer.loads now max_age token)
