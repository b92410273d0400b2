-- ===== src/Models.antt =====
-- models.py: the columns of `User` and `MT5Account` that the modelled code reads or writes, and the
-- values of a DateTime column.
use fxjournal.Prelude.{ℕ, ◌==◌, Bool, false, ◌&&◌, ◌||◌, not, Option, none, some, is_some}
use fxjournal.Prelude.Text.{Text, is_blank, strip, or_empty}

-- A Python datetime, in microseconds from `datetime.min`. An aware value is given by its instant in
-- UTC, which is all that the code takes from it.
pub data Stamp : Type 0 where
  naive aware : ℕ → Stamp

abbrev pub micros : Stamp → ℕ
micros (naive t) = t
micros (aware t) = t

pub record User : Type 0 where
  pub id : Option ℕ
  pub email : Text
  pub email_verified : Bool
  pub is_admin : Bool
  pub signup_status : Option Text
  pub plan_tier : Option Text
  pub plan_grandfathered : Bool
  pub premium_trial_started_at : Option Stamp

pub record Mt5Account : Type 0 where
  pub id : ℕ
  pub user_id : Option ℕ
  pub trade_account_id : Option ℕ
  pub account_number : Text
  pub investor_password_encrypted : Option Text
  pub is_active : Bool
  pub last_synced_at : Option Stamp
  pub vm_id : Option Text
  pub cleanup_marked_at : Option Stamp
  pub archived_at : Option Stamp
  pub archive_reason : Option Text
  pub mt5_consent_accepted_at : Option Stamp
  pub mt5_consent_version : Option Text
  pub connection_status : Text
  pub connection_error_message : Option Text
  pub mt5_trial_started_at : Option Stamp
  pub sync_paused_at : Option Stamp
  pub sync_pause_reason : Option Text

unfoldable pub is_orphaned : Mt5Account → Bool
is_orphaned a = not (is_some a.user_id) || not (is_some a.trade_account_id)

unfoldable pub has_saved_credentials : Mt5Account → Bool
has_saved_credentials a = not (is_blank (strip (or_empty a.investor_password_encrypted)))

unfoldable pub can_run_mt5_login : Mt5Account → Bool
unfolding has_saved_credentials is_orphaned
can_run_mt5_login a =
    has_saved_credentials a && not (is_orphaned a) && not (is_some a.cleanup_marked_at)

unfoldable pub is_archived : Mt5Account → Bool
is_archived a = is_some a.archived_at

-- `column == id` in a query, where a missing value equals nothing.
abbrev pub refers_to : Option ℕ → ℕ → Bool
refers_to none _ = false
refers_to (some i) k = i == k
