-- ===== src/Entitlements.antt =====
-- helpers/entitlements.py: the premium workflow trial and the gate of the MT5 sync. The labels are
-- the strings that the code returns as a state, a reason or a source. The ORM relationships
-- `mt5_accounts` are read off the table of MT5 accounts; `TradeAccount` has no trial column.
pub mod Clock
pub mod Start
pub mod SyncGate
pub mod Followup
pub mod Replay
pub mod Extend
mod Examples
mod ExtendExamples
use Prim.Native.Nat.{min}
use fxjournal.Prelude.{
  ℕ, zero, suc, ◌+◌, ◌-◌, ◌/◌, Bool, true, false, ◌&&◌, not, Option, none, some, List, [], ◌∷◌, leb,
  if◌then◌else◌, is_some, or_else, keep,
}
use fxjournal.Prelude.Int.{ℤ, pos, negsuc}
use fxjournal.Prelude.Text.{Text, codes, lower, or_empty, same_text, strip}
use fxjournal.Models.{Stamp, micros, User, Mt5Account, refers_to}
use fxjournal.Access.{user_has_admin_access}

pub data Label : Type 0 where
  admin schema_compat grandfathered plan_paid : Label
  not_started active expired paused : Label
  trial_active trial_not_started mt5_sync_pause : Label
  premium_trial_started_at mt5_trial_started_at : Label
  trial_message_limit_reached rate_limit_exceeded : Label
  standard_replay trade_not_closed trade_too_old within_free_age_limit : Label

-- What the functions read beside their arguments: the columns that schema_compat.py finds, the
-- clock, the variable ADMIN_USER_EMAILS, the MT5 account table, and whether it can be queried.
pub record Env : Type 0 where
  pub user_entitlement_columns : Bool
  pub premium_trial_column : Bool
  pub mt5_trial_columns : Bool
  pub now : ℕ
  pub admin_emails : Text
  pub mt5_table : List Mt5Account
  pub can_query : Bool

-- The `account` argument: nothing, an MT5 account, or a trade account by its id.
pub data AccountArg : Type 0 where
  absent : AccountArg
  mt5_account : Mt5Account → AccountArg
  trade_account : ℕ → AccountArg

abbrev pub premium_trial_days : ℕ
premium_trial_days = 14

-- Microseconds in a day.
abbrev pub day : ℕ
day = 86400000000

-- `_PLAN_TIER_RANK.get(tier, 0)`.
unfoldable pub plan_tier_rank : Text → ℕ
unfolding same_text
plan_tier_rank tier =
    if same_text tier (codes "pro") then 2 else if same_text tier (codes "trader") then 1 else 0

abbrev or_free : Text → Text
or_free [] = codes "free"
or_free tier = tier

unfoldable pub user_plan_tier : Env → User → Text
unfolding lower strip
user_plan_tier env user =
    if env.user_entitlement_columns
    then or_free (lower (strip (or_free (or_empty user.plan_tier))))
    else codes "trader"

unfoldable pub user_is_grandfathered : Env → User → Bool
user_is_grandfathered env user =
    if env.user_entitlement_columns then user.plan_grandfathered else true

unfoldable pub user_has_paid_workflow_access : Env → User → Bool
unfolding plan_tier_rank
user_has_paid_workflow_access env user =
    leb (plan_tier_rank (codes "trader")) (plan_tier_rank (user_plan_tier env user))

-- `_safe_naive_datetime`.
abbrev pub safe_naive_datetime : Option Stamp → Option ℕ
safe_naive_datetime none = none
safe_naive_datetime (some s) = some (micros s)

-- `User.mt5_accounts` and `TradeAccount.mt5_accounts`.
unfoldable pub user_mt5_accounts : Env → User → List Mt5Account
user_mt5_accounts env user = elim user.id [
  | none ↦ []
  | some i ↦ keep (λ a. refers_to a.user_id i) env.mt5_table
]

unfoldable pub related_mt5_accounts : Env → AccountArg → List Mt5Account
related_mt5_accounts env absent = []
related_mt5_accounts env (mt5_account _) = []
related_mt5_accounts env (trade_account i) =
    keep (λ a. refers_to a.trade_account_id i) env.mt5_table

-- The query that is made where neither relationship gave a row.
unfoldable pub queried_mt5_accounts : Env → User → AccountArg → List Mt5Account
unfolding user_mt5_accounts
queried_mt5_accounts env user (trade_account i) =
    if env.can_query
    then keep (λ a. refers_to a.trade_account_id i) (user_mt5_accounts env user)
    else []
queried_mt5_accounts env user absent = if env.can_query then user_mt5_accounts env user else []
queried_mt5_accounts env user (mt5_account _) =
    if env.can_query then user_mt5_accounts env user else []

abbrev if_empty : List Mt5Account → List Mt5Account → List Mt5Account
if_empty [] other = other
if_empty (a ∷ rest) _ = a ∷ rest

-- `min` of the start stamps that are set.
unfoldable pub earliest_start : List Mt5Account → Option ℕ
earliest_start [] = none
earliest_start (a ∷ rest) = elim (safe_naive_datetime a.mt5_trial_started_at) [
  | none ↦ earliest_start rest
  | some t ↦ elim (earliest_start rest) [ none ↦ some t | some s ↦ some (min t s) ]
]

abbrev direct_started_at : AccountArg → Option ℕ
direct_started_at (mt5_account a) = safe_naive_datetime a.mt5_trial_started_at
direct_started_at _ = none

unfoldable pub account_mt5_trial_started_at : Env → User → AccountArg → Option ℕ
unfolding earliest_start related_mt5_accounts user_mt5_accounts queried_mt5_accounts
account_mt5_trial_started_at env user account =
    if env.mt5_trial_columns
    then or_else (direct_started_at account) (
        earliest_start (
          if_empty (if_empty (related_mt5_accounts env account) (user_mt5_accounts env user))
            (queried_mt5_accounts env user account)))
    else none

unfoldable pub user_premium_trial_started_at : Env → User → Option ℕ
user_premium_trial_started_at env user =
    if env.premium_trial_column then safe_naive_datetime user.premium_trial_started_at else none

-- The start of the trial, and the column it was read from.
unfoldable pub trial_started_at : Env → User → AccountArg → Option (ℕ × Label)
unfolding user_premium_trial_started_at
trial_started_at env user account = elim (user_premium_trial_started_at env user) [
  | some t ↦ some (t, premium_trial_started_at)
  | none ↦ elim (account_mt5_trial_started_at env user account) [
    | some t ↦ some (t, mt5_trial_started_at)
    | none ↦ none
  ]
]

unfoldable pub workflow_access_reason : Env → User → Option Label
unfolding user_is_grandfathered
workflow_access_reason env user =
    if user_has_admin_access env.admin_emails user
    then some admin
    else if not env.user_entitlement_columns
    then some schema_compat
    else if user_is_grandfathered env user
    then some grandfathered
    else if user_has_paid_workflow_access env user
    then some plan_paid
    else none

-- The user and the account after the call, and the start that is in effect. The caller's
-- `started_at` may be missing.
abbrev stamp_account : Env → ℕ → AccountArg → AccountArg
stamp_account env t (mt5_account a) =
    if env.mt5_trial_columns && not (is_some a.mt5_trial_started_at)
    then mt5_account (record a { mt5_trial_started_at = some (Stamp.naive t) })
    else mt5_account a
stamp_account _ _ absent = absent
stamp_account _ _ (trade_account i) = trade_account i

abbrev stamp_user : Env → ℕ → User → User
stamp_user env t user =
    if env.premium_trial_column && not (is_some user.premium_trial_started_at)
    then record user { premium_trial_started_at = some (Stamp.naive t) }
    else user

abbrev effective_start : Env → Option (ℕ × Label) → Option Stamp → ℕ
effective_start env (some (t, _)) _ = t
effective_start env none (some s) = micros s
effective_start env none none = env.now

abbrev start_from :
    Env → User → AccountArg → Option Stamp → Option Label → User × AccountArg × Option ℕ
start_from env user account started_at (some _) = (user, account, none)
start_from env user account started_at none =
    let t = effective_start env (trial_started_at env user account) started_at in
    (stamp_user env t user, stamp_account env t account, some t)

unfoldable pub start_premium_trial_if_needed :
    Env → User → AccountArg → Option Stamp → User × AccountArg × Option ℕ
start_premium_trial_if_needed env user account started_at =
    start_from env user account started_at (workflow_access_reason env user)

pub record PlanState : Type 0 where
  pub tier : Text
  pub grandfathered : Bool

unfoldable pub get_user_plan_state : Env → User → PlanState
unfolding user_plan_tier user_is_grandfathered
get_user_plan_state env user =
    if env.user_entitlement_columns
    then record { tier = user_plan_tier env user; grandfathered = user_is_grandfathered env user }
    else record { tier = codes "trader"; grandfathered = true }

unfoldable pub is_mt5_sync_paused : Env → AccountArg → Bool
is_mt5_sync_paused env (mt5_account a) = env.mt5_trial_columns && is_some a.sync_paused_at
is_mt5_sync_paused env _ = false

-- `(now - started_at).days`: the floor of the difference in days.
unfoldable pub elapsed_days : ℕ → ℕ → ℤ
elapsed_days now started_at =
    if leb started_at now
    then pos ((now - started_at) / day)
    else negsuc ((started_at - now - 1) / day)

-- `max(PREMIUM_TRIAL_DAYS - elapsed_days, 0)`.
unfoldable pub days_left : ℤ → ℕ
days_left (pos n) = premium_trial_days - n
days_left (negsuc n) = premium_trial_days + suc n

pub record TrialState : Type 0 where
  pub state : Label
  pub days_remaining : Option ℕ
  pub started_at : Option ℕ
  pub source : Option Label
  pub show_trial_ui : Bool

abbrev account_paused_at : AccountArg → Option Stamp
account_paused_at (mt5_account a) = a.sync_paused_at
account_paused_at _ = none

-- Admin, schema compatibility and grandfathering all show as "grandfathered".
abbrev privileged_state : Label → Label
privileged_state admin = grandfathered
privileged_state schema_compat = grandfathered
privileged_state reason = reason

abbrev clocked : ℕ → Label → ℕ → TrialState
clocked started_at source zero = record {
  state = expired;
  days_remaining = some 0;
  started_at = some started_at;
  source = some source;
  show_trial_ui = true;
}
clocked started_at source (suc left) = record {
  state = active;
  days_remaining = some (suc left);
  started_at = some started_at;
  source = some source;
  show_trial_ui = true;
}

abbrev running_state : Env → Option (ℕ × Label) → TrialState
running_state env none = record {
  state = not_started;
  days_remaining = some premium_trial_days;
  started_at = none;
  source = none;
  show_trial_ui = true;
}
running_state env (some (t, source)) = clocked t source (days_left (elapsed_days env.now t))

abbrev unlimited : Label → Label → TrialState
unlimited state source = record {
  state = state;
  days_remaining = none;
  started_at = none;
  source = some source;
  show_trial_ui = false;
}

abbrev unpaused_state : Env → User → AccountArg → Option Label → TrialState
unpaused_state env user account (some reason) = unlimited (privileged_state reason) reason
unpaused_state env user account none = running_state env (trial_started_at env user account)

unfoldable pub get_trial_state : Env → User → AccountArg → TrialState
get_trial_state env user account =
    if not env.user_entitlement_columns
    then unlimited grandfathered schema_compat
    else if is_some (account_paused_at account)
    then record {
      state = paused;
      days_remaining = some 0;
      started_at = direct_started_at account;
      source = some mt5_sync_pause;
      show_trial_ui = true;
    }
    else unpaused_state env user account (workflow_access_reason env user)

pub record Gate : Type 0 where
  pub allowed : Bool
  pub reason : Label

-- f"trial_{state}" where the state is one that passes; every other state is refused by its name.
abbrev pub trial_gate : Label → Gate
trial_gate active = record { allowed = true; reason = trial_active }
trial_gate not_started = record { allowed = true; reason = trial_not_started }
trial_gate state = record { allowed = false; reason = state }

abbrev sync_gate : Env → User → AccountArg → Option Label → Gate
sync_gate env user account (some reason) = record { allowed = true; reason = reason }
sync_gate env user account none =
    if not env.mt5_trial_columns
    then record { allowed = true; reason = schema_compat }
    else trial_gate (get_trial_state env user account).state

unfoldable pub can_use_mt5_sync : Env → User → AccountArg → Gate
unfolding is_mt5_sync_paused
can_use_mt5_sync env user account =
    if is_mt5_sync_paused env account
    then record { allowed = false; reason = paused }
    else sync_gate env user account (workflow_access_reason env user)
