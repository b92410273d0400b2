-- ===== src/Entitlements/Extend.antt =====
-- helpers/entitlements.py: the admin's extension of a trial, and the summary that offers it. The
-- call returns the user and the MT5 account table as it left them; `queued` lists the accounts whose
-- terminal setup it tries to dispatch. `TradeAccount` has no trial column, so the loop over
-- `user.trade_accounts` writes nothing. The query for the paused accounts is taken to succeed.
pub mod Grants
pub mod Offer
use fxjournal.Prelude.{
  ℕ, ◌+◌, ◌-◌, ◌*◌, ◌==◌, Bool, true, false, ◌&&◌, ◌||◌, not, Option, none, some, is_some, List, [],
  ◌∷◌, map, keep, any_of, ltb, if◌then◌else◌,
}
use fxjournal.Prelude.Int.{ℤ, pos, negsuc}
use fxjournal.Prelude.Text.{Text, codes, contains_text, is_blank, lower, or_empty, strip}
use fxjournal.Models.{naive, User, Mt5Account, has_saved_credentials, is_orphaned}
use fxjournal.Entitlements.{
  Env, absent, Label, expired, paused, active, not_started, TrialState, day, premium_trial_days,
  get_trial_state, workflow_access_reason,
}

abbrev trial_pause_reasons_to_clear : List Text
trial_pause_reasons_to_clear = codes "expired" ∷ codes "paused" ∷ codes "trial_expired" ∷ []

unfoldable pub pause_reason : Mt5Account → Text
unfolding lower strip
pause_reason a = lower (strip (or_empty a.sync_pause_reason))

-- `MT5Account.user_id == user.id`, which SQLAlchemy reads as IS NULL where the id is missing.
abbrev owned : User → Mt5Account → Bool
owned user a = elim user.id [
  | none ↦ not (is_some a.user_id)
  | some i ↦ elim a.user_id [ none ↦ false | some k ↦ k == i ]
]

abbrev pub paused_row : User → Mt5Account → Bool
paused_row user a = owned user a && is_some a.sync_paused_at

unfoldable pub user_has_trial_paused_mt5 : Env → User → Bool
user_has_trial_paused_mt5 env user =
    env.mt5_trial_columns
    && is_some user.id
    && env.can_query
    && any_of
        (λ a. paused_row user a && contains_text (pause_reason a) trial_pause_reasons_to_clear)
        env.mt5_table

-- An account that the loop does not skip: its reason is empty, or one that the trial gave.
unfoldable pub resumable : User → Mt5Account → Bool
resumable user a =
    paused_row user a
    && (is_blank (pause_reason a) || contains_text (pause_reason a) trial_pause_reasons_to_clear)

unfoldable pub resume : User → ℕ → Mt5Account → Mt5Account
resume user start a =
    if resumable user a
    then record a {
      sync_paused_at = none;
      sync_pause_reason = none;
      mt5_trial_started_at = some (naive start);
    }
    else a

pub data ExtendError : Type 0 where
  invalid_days not_extendable trial_not_ended schema_unsupported : ExtendError

pub record Extended : Type 0 where
  pub trial_state : TrialState
  pub days_granted : ℕ
  pub resumed : List Mt5Account
  pub queued : List Mt5Account

pub data Reply : Type 0 where
  refused : ExtendError → Reply
  extended : Extended → Reply

abbrev has_ended : Label → Bool
has_ended expired = true
has_ended paused = true
has_ended _ = false

-- `int(days)` between 1 and 90; `none` is what `int` does not read.
unfoldable pub checked_days : Option ℤ → Option ℕ
checked_days none = none
checked_days (some (negsuc _)) = none
checked_days (some (pos d)) = if ltb d 1 || ltb 90 d then none else some d

-- The new start, `now - timedelta(days=PREMIUM_TRIAL_DAYS - days)`.
abbrev pub new_start : ℕ → ℕ → ℕ
new_start now days = now + days * day - premium_trial_days * day

abbrev pub extended_user : Env → User → ℕ → User
extended_user env user days = record user {
  premium_trial_started_at = some (naive (new_start env.now days));
}

abbrev pub extended_table : Env → User → ℕ → List Mt5Account
extended_table env user days =
    if env.mt5_trial_columns
    then map (resume user (new_start env.now days)) env.mt5_table
    else env.mt5_table

abbrev pub resumed_rows : Env → User → ℕ → List Mt5Account
resumed_rows env user days =
    if env.mt5_trial_columns
    then map (resume user (new_start env.now days)) (keep (resumable user) env.mt5_table)
    else []

abbrev pub extension : Env → User → ℕ → Extended
extension env user days =
    let resumed = resumed_rows env user days in
    record {
      trial_state =
          get_trial_state (record env { mt5_table = extended_table env user days })
            (extended_user env user days) absent;
      days_granted = days;
      resumed = resumed;
      queued = keep (λ a. not (is_orphaned a) && has_saved_credentials a) resumed;
    }

abbrev grant_extension : Env → User → ℕ → Reply × User × List Mt5Account
grant_extension env user days =
    (extended (extension env user days), extended_user env user days, extended_table env user days)

abbrev extend_checked : Env → User → Option ℕ → Reply × User × List Mt5Account
extend_checked env user none = (refused invalid_days, user, env.mt5_table)
extend_checked env user (some days) =
    if is_some (workflow_access_reason env user)
    then (refused not_extendable, user, env.mt5_table)
    else if not (has_ended (get_trial_state env user absent).state)
        && not (user_has_trial_paused_mt5 env user)
    then (refused trial_not_ended, user, env.mt5_table)
    else if not env.premium_trial_column
    then (refused schema_unsupported, user, env.mt5_table)
    else grant_extension env user days

unfoldable pub extend_premium_trial : Env → User → Option ℤ → Reply × User × List Mt5Account
extend_premium_trial env user days = extend_checked env user (checked_days days)

-- The summary line and the labels of the admin panel; the times are those that the code formats.
pub data Summary : Type 0 where
  no_limit not_started_yet still_active trial_paused trial_expired : Summary

pub record Display : Type 0 where
  pub summary : Summary
  pub state : Label
  pub started : Option ℕ
  pub ends : Option ℕ
  pub days_remaining : Option ℕ
  pub can_extend : Bool

abbrev display_clocked : Summary → Label → Option ℕ → Option ℕ → Bool → Display
display_clocked summary state started_at days can_extend = record {
  summary = summary;
  state = state;
  started = started_at;
  ends = elim started_at [ none ↦ none | some t ↦ some (t + premium_trial_days * day) ];
  days_remaining = days;
  can_extend = can_extend;
}

abbrev display_no_limit : Label → Display
display_no_limit reason = record {
  summary = no_limit;
  state = reason;
  started = none;
  ends = none;
  days_remaining = none;
  can_extend = false;
}

abbrev display_state : TrialState → Bool → Label → Display
display_state trial stopped not_started = record {
  summary = not_started_yet;
  state = not_started;
  started = none;
  ends = none;
  days_remaining = some premium_trial_days;
  can_extend = false;
}
display_state trial stopped active =
    display_clocked still_active active trial.started_at trial.days_remaining false
display_state trial stopped paused =
    display_clocked trial_paused paused trial.started_at (some 0) true
display_state trial stopped expired =
    display_clocked trial_expired expired trial.started_at (some 0) true
display_state trial stopped state =
    display_clocked trial_expired state trial.started_at (some 0) stopped

abbrev display_for : Env → User → Option Label → Display
display_for env user (some reason) = display_no_limit reason
display_for env user none =
    let trial = get_trial_state env user absent in
    display_state trial (user_has_trial_paused_mt5 env user) trial.state

unfoldable pub build_admin_user_trial_display : Env → User → Display
build_admin_user_trial_display env user = display_for env user (workflow_access_reason env user)
