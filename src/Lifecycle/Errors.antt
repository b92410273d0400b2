-- ===== src/Lifecycle/Errors.antt =====
-- The errors of a setup: is_setup_failover_eligible_error of helpers/mt5_dispatch.py, and the message of
-- celery_workers/mt5_setup_tasks.py for the user.
use fxjournal.Prelude.{
  ◌==◌, Bool, true, false, ◌&&◌, ◌||◌, not, List, [], ◌∷◌, ◌++◌, any_of, if◌then◌else◌,
}
use fxjournal.Prelude.Text.{Text, codes, is_blank, lower}

-- What a setup raises, by the class of the exception, with its text.
pub data SetupError : Type 0 where
  permanent trading_password other_error : Text → SetupError

abbrev starts : Text → Text → Bool
starts [] s = true
starts (p ∷ ps) [] = false
starts (p ∷ ps) (c ∷ s) = p == c && starts ps s

-- `token in s`.
abbrev occurs_in : Text → Text → Bool
occurs_in [] token = is_blank token
occurs_in (c ∷ s) token = starts token (c ∷ s) || occurs_in s token

unfoldable pub has_token : Text → List Text → Bool
has_token s tokens = any_of (occurs_in (lower s)) tokens

abbrev permanent_tokens : List Text
permanent_tokens =
    codes "wrong account"
    ∷ codes "trading/master password"
    ∷ codes "trading password"
    ∷ codes "trade_allowed"
    ∷ codes "invalid server"
    ∷ codes "invalid password"
    ∷ codes "invalid account"
    ∷ codes "auth failed"
    ∷ codes "authorization"
    ∷ []

abbrev non_failover_tokens : List Text
non_failover_tokens =
    codes "wrong account"
    ∷ codes "expected"
    ∷ codes " got "
    ∷ codes "trading/master password"
    ∷ codes "trading password"
    ∷ codes "trade_allowed"
    ∷ codes "auth_failed"
    ∷ codes "auth failed"
    ∷ codes "authorization"
    ∷ codes "invalid password"
    ∷ codes "invalid account"
    ∷ codes "invalid server"
    ∷ codes "unsupported"
    ∷ codes "res_x"
    ∷ []

abbrev failover_tokens : List Text
failover_tokens =
    codes "no_ipc"
    ∷ codes "no ipc"
    ∷ codes "ipc connection"
    ∷ codes "timeout"
    ∷ codes "timed out"
    ∷ codes "connection refused"
    ∷ codes "network"
    ∷ codes "mt5_base_path not found"
    ∷ codes "could not find base mt5 appdata"
    ∷ codes "appdata folder not created"
    ∷ codes "terminal64.exe not found after copy"
    ∷ codes "requires windows"
    ∷ codes "metatrader5 not installed"
    ∷ []

unfoldable pub is_setup_failover_eligible_error : SetupError → Bool
is_setup_failover_eligible_error (trading_password _) = false
is_setup_failover_eligible_error (permanent text) = not (has_token text permanent_tokens)
is_setup_failover_eligible_error (other_error text) =
    if has_token text non_failover_tokens then false else has_token text failover_tokens

unfoldable pub classify_setup_error : Text → Text
classify_setup_error s =
    if has_token s
      (codes "trading/master password" ∷ codes "trading password" ∷ codes "trade_allowed" ∷ [])
    then codes "A master/trading password was detected and rejected. "
      ++ codes "Please resubmit using your MT5 investor (read-only) password."
    else if has_token s (codes "wrong account" ∷ [])
        || (has_token s (codes "expected" ∷ []) && has_token s (codes "got" ∷ []))
    then codes "Account mismatch. Check that the account number you entered matches your MT5 login."
    else if has_token s (
        codes "auth_failed"
        ∷ codes "auth failed"
        ∷ codes "authorization"
        ∷ codes "invalid password"
        ∷ codes "invalid account"
        ∷ [])
    then codes "Login failed. Please check your account number and investor password."
    else if has_token s (
        codes "no_ipc"
        ∷ codes "no ipc"
        ∷ codes "ipc connection"
        ∷ codes "timeout"
        ∷ codes "timed out"
        ∷ codes "connection refused"
        ∷ codes "network"
        ∷ [])
    then codes "Connection timeout. Check that the server name is exact "
      ++ codes "(e.g. Exness-MT5Real) and try again."
    else if has_token s (
        codes "unsupported"
        ∷ codes "version"
        ∷ codes "not found"
        ∷ codes "invalid server"
        ∷ codes "res_x"
        ∷ [])
    then codes "Invalid server. Enter the exact MT5 server name from your broker "
      ++ codes "(e.g. Exness-MT5Real, ICMarketsSC-Live)."
    else codes "Connection failed. Check your server name, account number, and investor password, "
      ++ codes "then retry."
