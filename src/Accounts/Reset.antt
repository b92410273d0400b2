-- ===== src/Accounts/Reset.antt =====
-- auth_account.py: the link that resets a password. Its nonce stands in the user's row until the link
-- is used or another is asked for.
use fxjournal.Prelude.{
  ℕ, Bool, false, ◌&&◌, ◌||◌, not, Option, none, some, ltb, if◌then◌else◌, length,
}
use fxjournal.Prelude.Text.{Text, is_blank, lower, same_text, strip}
use fxjournal.Accounts.{Member, Passwords, Store, find_by_email, save}
use fxjournal.Accounts.Tokens.{
  ResetClaim, Signer, generate_password_reset_token, password_reset_purpose,
  verify_password_reset_token,
}

-- The store, and the token that is mailed, if any.
abbrev pub send_reset : Signer → Store → ℕ → Text → Bool → Option Member → Store × Option Text
send_reset signer s now nonce commits none = (s, none)
send_reset signer s now nonce commits (some user) =
    if commits
    then (
      save (record user { password_reset_nonce = some nonce }) s,
      some (generate_password_reset_token signer now user.email password_reset_purpose nonce),
    )
    else (s, none)

-- `nonce` is the fresh one of `rotate_password_reset_nonce`.
unfoldable pub forgot_password : Signer → Store → ℕ → Text → Bool → Text → Store × Option Text
forgot_password signer s now nonce commits email =
    let address = lower (strip email) in
    if is_blank address
    then (s, none)
    else send_reset signer s now nonce commits (find_by_email address s)

pub data Reply : Type 0 where
  bad_link fields_required passwords_differ short_password reset_done : Reply

abbrev pub has_nonce : Option Text → Text → Bool
has_nonce none _ = false
has_nonce (some nonce) claimed = not (is_blank nonce) && same_text nonce claimed

abbrev pub reset_member : Passwords → Text → Member → Member
reset_member passwords password user = record user {
  password = passwords.generate_password_hash password;
  password_reset_nonce = none;
}

abbrev pub reset_for : Passwords → Store → Text → Text → Text → Option Member → Store × Reply
reset_for passwords s nonce password confirm none = (s, bad_link)
reset_for passwords s nonce password confirm (some user) =
    if not (has_nonce user.password_reset_nonce nonce)
    then (s, bad_link)
    else if is_blank password || is_blank confirm
    then (s, fields_required)
    else if not (same_text password confirm)
    then (s, passwords_differ)
    else if ltb (length password) 8
    then (s, short_password)
    else (save (reset_member passwords password user) s, reset_done)

abbrev pub reset_claimed : Passwords → Store → Text → Text → Option ResetClaim → Store × Reply
reset_claimed passwords s password confirm none = (s, bad_link)
reset_claimed passwords s password confirm (some claim) =
    reset_for passwords s claim.reset_nonce password confirm (find_by_email claim.email s)

unfoldable pub reset_password_token :
    Passwords → Signer → ℕ → ℕ → Store → Text → Text → Text → Store × Reply
reset_password_token passwords signer now max_age s token password confirm =
    reset_claimed passwords s password confirm
      (verify_password_reset_token signer now token password_reset_purpose max_age)
