-- ===== src/Accounts/Links.antt =====
-- auth_account.py: what the links in mails do.
pub mod Resets
use fxjournal.Prelude.{
  ℕ, ◌≡◌, ◌⊎◌, ◌∙◌, refl, sym, ap, ◌≤◌, ◌+◌, Bool, true, false, ◌&&◌, ◌||◌, not, Option, none, some,
  [], ◌∷◌, if◌then◌else◌, arith, Option-cases, inl, inr, ltb, length,
}
use fxjournal.Prelude.Text.{Text, is_blank, same_text, same_text-eq, same_text_self, strip}
use fxjournal.Accounts.{Env, Member, Passwords, Session, Store, find_by_email, save}
use fxjournal.Accounts.Rows.{find_first-passes, find_first-save}
use fxjournal.Accounts.Tokens.{
  Payload, ResetClaim, Signer, SignerLaws, clean_email, generate_auth_token,
  generate_password_reset_token, password_reset_purpose, reset_claim, verify_auth_token,
  verify_email_purpose, verify_password_reset_token, verify_pending_registration_token,
}
use fxjournal.Access.{approved}
use fxjournal.Accounts.SignIn
use fxjournal.Accounts.SignIn.{login}
use fxjournal.Accounts.SignUp
use fxjournal.Accounts.SignUp.{verify_email, verify_email_token}
use fxjournal.Accounts.Reset
use fxjournal.Accounts.Reset.{
  reset_done, forgot_password, has_nonce, reset_claimed, reset_for, reset_member,
  reset_password_token,
}

pub not_none : {A : Type 0} {a : A} → none ≡ some a → ⊥
not_none h = cc

pub some_eq : {A : Type 0} (a b : A) → some a ≡ some b → a ≡ b
some_eq a b h = cc

module _ (signer : Signer) (laws : SignerLaws signer) where
  -- What a token carries does not depend on when it is read.
  pub loads_agree :
      (now max_age now' max_age' : ℕ) (token : Text) (p q : Payload)
      → signer.loads now max_age token ≡ some p
      → signer.loads now' max_age' token ≡ some q
      → p ≡ q
  loads_agree now max_age now' max_age' token p q h k =
      let (t, made) = laws.loads-made now max_age token p h in
      let (t', made') = laws.loads-made now' max_age' token q k in
      some_eq p q (
        sym (laws.loads-dumps t (t + t') (t + t') p (omega arith) (omega arith))
        ∙ ap (signer.loads (t + t') (t + t')) (sym made ∙ made')
        ∙ laws.loads-dumps t' (t + t') (t + t') q (omega arith) (omega arith))

  -- A token that was made is read as what it was made of, or not at all.
  pub loads_made_of :
      (t now max_age : ℕ) (p : Payload)
      → (signer.loads now max_age (signer.dumps t p) ≡ none)
        ⊎ (signer.loads now max_age (signer.dumps t p) ≡ some p)
  loads_made_of t now max_age p =
      elim (Option-cases (signer.loads now max_age (signer.dumps t p))) [
        | inl e ↦ inl e
        | inr (q, e) ↦ inr (
            e
            ∙ ap some (
                loads_agree now max_age t 0 (signer.dumps t p) q p e
                  (laws.loads-dumps t t 0 p (omega arith) (omega arith))))
      ]

  -- A link that resets a password verifies no email address.
  pub reset_link_verifies_nothing :
      (env : Env) (t now max_age : ℕ) (s : Store) (email nonce : Text)
      → verify_email_token env signer now max_age s
          (generate_password_reset_token signer t email password_reset_purpose nonce)
        ≡ (s, SignUp.bad_link)
  unfolding verify_email_token verify_auth_token verify_pending_registration_token
      generate_password_reset_token same_text
  reset_link_verifies_nothing env t now max_age s email nonce =
      elim (loads_made_of t now max_age (record {
        purpose = password_reset_purpose;
        email = clean_email email;
        reset_nonce = strip nonce;
        registration_id = [];
      })) [ inl e ↦ rw e refl | inr e ↦ rw e refl ]

  -- A link that verifies an email address resets no password.
  pub verification_link_resets_nothing :
      (passwords : Passwords) (t now max_age : ℕ) (s : Store) (email password confirm : Text)
      → reset_password_token passwords signer now max_age s
          (generate_auth_token signer t email verify_email_purpose)
          password
          confirm
        ≡ (s, Reset.bad_link)
  unfolding reset_password_token verify_password_reset_token generate_auth_token same_text
  verification_link_resets_nothing passwords t now max_age s email password confirm =
      elim (loads_made_of t now max_age (record {
        purpose = verify_email_purpose;
        email = clean_email email;
        reset_nonce = [];
        registration_id = [];
      })) [ inl e ↦ rw e refl | inr e ↦ rw e refl ]
