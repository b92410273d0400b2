-- ===== src/Accounts/Links/Resets.antt =====
-- auth_account.py: what a link that resets a password does.
use fxjournal.Prelude.{
  ℕ, ◌≡◌, ◌⊎◌, ◌∙◌, refl, sym, ap, ◌≤◌, ◌+◌, Bool, true, false, ◌&&◌, ◌||◌, not, Option, none, some,
  [], ◌∷◌, if◌then◌else◌, Option-cases, inl, inr, ltb, length,
}
use fxjournal.Prelude.Text.{Text, is_blank, same_text, same_text-eq, same_text_self, strip}
use fxjournal.Accounts.{Env, Member, Passwords, Session, Store, find_by_email, save}
use fxjournal.Accounts.Rows.{find_first-passes, find_first-save}
use fxjournal.Accounts.Links.{loads_agree, not_none, some_eq}
use fxjournal.Accounts.Tokens.{
  ResetClaim, Signer, SignerLaws, clean_email, generate_password_reset_token,
  password_reset_purpose, reset_claim, verify_password_reset_token,
}
use fxjournal.Access.{approved}
use fxjournal.Accounts.SignIn
use fxjournal.Accounts.SignIn.{login}
use fxjournal.Accounts.Reset
use fxjournal.Accounts.Reset.{
  reset_done, forgot_password, has_nonce, reset_claimed, reset_for, reset_member,
  reset_password_token,
}

-- Where a reset is done, this store is what it left.
abbrev Leaves : Store → Store × Reset.Reply → Type 0
Leaves t r = r.1 ≡ reset_done → r.0 ≡ t

refuses :
    (s t : Store) (c : Bool) (r : Reset.Reply) (rest : Store × Reset.Reply)
    → (r ≡ reset_done → ⊥)
    → Leaves t rest
    → Leaves t (if c then (s, r) else rest)
refuses s t true r rest other h done = absurd (other done)
refuses s t false r rest other h done = h done

module _ (passwords : Passwords) (s : Store) where
  -- Who was found, where a reset is done, and what was written.
  reset_for_done :
      (nonce password confirm : Text) (found : Option Member)
      → (reset_for passwords s nonce password confirm found).1 ≡ reset_done
      → (user : Member) × (found ≡ some user)
        × ((reset_for passwords s nonce password confirm found).0
            ≡ save (reset_member passwords password user) s)
  reset_for_done nonce password confirm none h = cc
  reset_for_done nonce password confirm (some user) h = (
    user,
    refl,
    refuses s (save (reset_member passwords password user) s)
        (not (has_nonce user.password_reset_nonce nonce)) Reset.bad_link _ (λ e. cc)
        (refuses s _ (is_blank password || is_blank confirm) Reset.fields_required _ (λ e. cc)
          (refuses s _ (not (same_text password confirm)) Reset.passwords_differ _ (λ e. cc)
            (refuses s _ (ltb (length password) 8) Reset.short_password _ (λ e. cc) (λ _. refl))))
        h,
  )

  -- A row that a reset has written is no longer reached by any link with a nonce.
  reset_again :
      (email password : Text) (user : Member)
      → find_by_email email s ≡ some user
      → (nonce' password' confirm' : Text)
      → reset_for passwords
          (save (reset_member passwords password user) s)
          nonce'
          password'
          confirm'
          (find_by_email email (save (reset_member passwords password user) s))
        ≡ (save (reset_member passwords password user) s, Reset.bad_link)
  reset_again email password user found nonce' password' confirm' =
      rw
        (find_first-save (λ r. same_text r.email email) s.members user
          (reset_member passwords password user) found refl
          (find_first-passes (λ r. same_text r.email email) s.members user found))
        refl

  claimed_again :
      (claim : ResetClaim) (password confirm : Text)
      → (reset_for passwords s claim.reset_nonce password confirm (find_by_email claim.email s)).1
        ≡ reset_done
      → (password' confirm' : Text)
      → (reset_claimed passwords
          (reset_for passwords s claim.reset_nonce password confirm (find_by_email claim.email s)).0
          password'
          confirm'
          (some claim))
        ≡ (
          (reset_for passwords s claim.reset_nonce password confirm
              (find_by_email claim.email s)).0,
          Reset.bad_link,
        )
  claimed_again claim password confirm done password' confirm' =
      let (user, found, written) =
        reset_for_done claim.reset_nonce password confirm (find_by_email claim.email s) done in
      rw written (reset_again claim.email password user found claim.reset_nonce password' confirm')

-- Read at another time, a token makes the same claim or none.
claim_agrees :
    (signer : Signer)
    → SignerLaws signer
    → (now max_age now' max_age' : ℕ) (token purpose : Text) (claim : ResetClaim)
    → verify_password_reset_token signer now token purpose max_age ≡ some claim
    → (verify_password_reset_token signer now' token purpose max_age' ≡ none)
      ⊎ (verify_password_reset_token signer now' token purpose max_age' ≡ some claim)
unfolding verify_password_reset_token
claim_agrees signer laws now max_age now' max_age' token purpose claim h =
    elim (Option-cases (signer.loads now' max_age' token)) [
      | inl e ↦ inl (rw e refl)
      | inr (q, e) ↦ elim (Option-cases (signer.loads now max_age token)) [
        | inl f ↦ absurd (claimed_nothing f)
        | inr (p, f) ↦ inr (
            rw e (
              rw (sym (loads_agree signer laws now max_age now' max_age' token p q f e))
                (sym (ap (reset_claim purpose) f) ∙ h)))
      ]
    ]
  where
    claimed_nothing : signer.loads now max_age token ≡ none → ⊥
    claimed_nothing f = not_none (sym (ap (reset_claim purpose) f) ∙ h)

-- A link that has reset a password does nothing more, whatever the time and the form are.
pub reset_link_works_once :
    (passwords : Passwords) (signer : Signer)
    → SignerLaws signer
    → (now max_age : ℕ) (s : Store) (token password confirm : Text)
    → (reset_password_token passwords signer now max_age s token password confirm).1 ≡ reset_done
    → (now' max_age' : ℕ) (password' confirm' : Text)
    → reset_password_token passwords signer now' max_age'
        (reset_password_token passwords signer now max_age s token password confirm).0
        token
        password'
        confirm'
      ≡ (
        (reset_password_token passwords signer now max_age s token password confirm).0,
        Reset.bad_link,
      )
unfolding reset_password_token
reset_link_works_once passwords signer laws now max_age s token password confirm done now' max_age'
      password' confirm' =
    elim (Option-cases
      (verify_password_reset_token signer now token password_reset_purpose max_age)) [
        | inl e ↦ absurd (
            not_done (
              sym
                (ap (λ (c : Option ResetClaim). (reset_claimed passwords s password confirm c).1) e)
              ∙ done))
        | inr (claim, e) ↦
            elim (claim_agrees signer laws now max_age now' max_age' token password_reset_purpose
              claim e) [
                | inl f ↦ rw f refl
                | inr f ↦ rw f (
                    rw e (
                      claimed_again passwords s claim password confirm
                        (sym (
                            ap
                              (λ (c : Option ResetClaim).
                                (reset_claimed passwords s password confirm c).1)
                              e)
                          ∙ done)
                        password' confirm'))
              ]
      ]
  where
    not_done : Reset.bad_link ≡ reset_done → ⊥
    not_done h = cc

long_filled : (t : Text) → ltb (length t) 8 ≡ false → is_blank t ≡ false
long_filled [] h = cc
long_filled (_ ∷ _) h = refl

pub and_false : (b : Bool) → (b && false) ≡ false
and_false true = refl
and_false false = refl

-- A reset token that is fresh is read as what it was made of.
reads_own :
    (signer : Signer)
    → SignerLaws signer
    → (sent now max_age : ℕ) (address nonce : Text) → clean_email address ≡ address
    → is_blank address ≡ false
    → strip nonce ≡ nonce
    → is_blank nonce ≡ false
    → sent ≤ now
    → now ≤ sent + max_age
    → verify_password_reset_token signer now
        (generate_password_reset_token signer sent address password_reset_purpose nonce)
        password_reset_purpose
        max_age
      ≡ some (record { email = address; reset_nonce = nonce })
unfolding verify_password_reset_token generate_password_reset_token
reads_own signer laws sent now max_age address nonce clean present stripped filled made fresh =
    rw
      (laws.loads-dumps sent now max_age
        (record {
          purpose = password_reset_purpose;
          email = clean_email address;
          reset_nonce = strip nonce;
          registration_id = [];
        })
        made fresh)
      (rw (same_text_self password_reset_purpose)
        (rw clean (rw clean (rw stripped (rw stripped (rw present (rw filled refl)))))))

abbrev with_nonce : Text → Member → Member
with_nonce nonce user = record user { password_reset_nonce = some nonce }

-- The steps of a user who forgot the password, and has the row `user`.
module _ (passwords : Passwords) (s : Store) (user : Member) (email nonce password : Text)
    (found : find_by_email (clean_email email) s ≡ some user) where
  forgot_mails :
      (signer : Signer) (sent : ℕ)
      → is_blank (clean_email email) ≡ false
      → forgot_password signer s sent nonce true email ≡ (
        save (with_nonce nonce user) s,
        some (generate_password_reset_token signer sent user.email password_reset_purpose nonce),
      )
  unfolding forgot_password
  forgot_mails signer sent present = rw present (rw found refl)

  same_address : user.email ≡ clean_email email
  same_address =
      same_text-eq user.email (clean_email email)
        (find_first-passes (λ r. same_text r.email (clean_email email)) s.members user found)

  -- The user's row is found by the address once it is written, whatever else changes in it.
  pub finds_written :
      (n : Member)
      → n.id ≡ user.id
      → n.email ≡ user.email
      → find_by_email (clean_email email) (save n s) ≡ some n
  finds_written n same address =
      find_first-save (λ r. same_text r.email (clean_email email)) s.members user n found same
        (ap (λ (t : Text). same_text t (clean_email email)) (address ∙ same_address)
          ∙ same_text_self (clean_email email))

  resets :
      is_blank nonce ≡ false
      → ltb (length password) 8 ≡ false
      → user.password_reset_nonce ≡ some nonce
      → reset_claimed passwords s password password
          (some (record { email = clean_email email; reset_nonce = nonce }))
        ≡ (save (reset_member passwords password user) s, reset_done)
  resets filled long asked = rw found (
      rw asked (
        rw filled (
          rw (same_text_self nonce)
            (rw (long_filled password long) (rw (same_text_self password) (rw long refl))))))

  pub enters :
      (env : Env) (session : Session)
      → session.user_id ≡ none
      → passwords.check_password_hash user.password password ≡ true
      → user.email_verified ≡ true
      → user.signup_status ≡ approved
      → (login env passwords s session email password).reply ≡ SignIn.signed_in
  unfolding login
  enters env session out checks verified ok = rw out (
      rw found
        (rw checks (rw verified (rw (and_false env.require_email_verification) (rw ok refl)))))

-- The link that a user asked for sets the password, with which the user then signs in.
pub reset_lets_in :
    (passwords : Passwords) (signer : Signer)
    → SignerLaws signer
    → ((p : Text) → passwords.check_password_hash (passwords.generate_password_hash p) p ≡ true)
    → (env : Env) (session : Session) (s : Store) (user : Member) (email nonce password : Text)
      (sent now max_age : ℕ)
    → find_by_email (clean_email email) s ≡ some user
    → is_blank (clean_email email) ≡ false
    → clean_email user.email ≡ user.email
    → user.email_verified ≡ true
    → user.signup_status ≡ approved
    → is_blank nonce ≡ false
    → strip nonce ≡ nonce
    → ltb (length password) 8 ≡ false
    → sent ≤ now
    → now ≤ sent + max_age
    → session.user_id ≡ none
    → (token : Text) → (forgot_password signer s sent nonce true email).1 ≡ some token
    → (login env passwords
        (reset_password_token passwords signer now max_age
          (forgot_password signer s sent nonce true email).0
          token
          password
          password).0
        session
        email
        password).reply
      ≡ SignIn.signed_in
unfolding reset_password_token
reset_lets_in passwords signer laws checks env session s user email nonce password sent now max_age
      found present clean verified ok filled stripped long made fresh out token mailed =
    let asked : Member = with_nonce nonce user in
    let sent_out = forgot_mails passwords s user email nonce password found signer sent present in
    let address = same_address passwords s user email nonce password found in
    let again = finds_written passwords s user email nonce password found asked refl refl in
    let s1 : Store = save asked s in
    let done = resets passwords s1 asked email nonce password again filled long refl in
    let read =
      reads_own signer laws sent now max_age user.email nonce clean (ap is_blank address ∙ present)
        stripped filled made fresh in
    let reset_row : Member = reset_member passwords password asked in
    let token_eq =
      some_eq _ token (sym (ap (λ (r : Store × Option Text). r.1) sent_out) ∙ mailed) in
    let claimed =
      ap
        (λ (a : Text).
          reset_claimed passwords s1 password password
            (some (record { email = a; reset_nonce = nonce })))
        address
      ∙ done in
    let found_again =
      finds_written passwords s1 asked email nonce password again reset_row refl refl in
    rw sent_out (
      rw (sym token_eq) (
        rw read (
          rw claimed (
            enters passwords (save reset_row s1) reset_row email nonce password found_again env
              session out (checks password) verified ok))))
