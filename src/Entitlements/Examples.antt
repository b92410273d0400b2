-- ===== src/Entitlements/Examples.antt =====
-- The entitlement theorems at concrete inputs: a free user, a clock, an MT5 account.
use fxjournal.Prelude.{
  ℕ, ◌+◌, ◌*◌, ◌≤◌, ◌<◌, ◌≡◌, refl, ◌↔◌, ◌⊎◌, inr, true, false, none, some, [], ◌∷◌, is_some, arith,
}
use fxjournal.Prelude.Text.{codes}
use fxjournal.Models.{naive, User, Mt5Account}
use fxjournal.Access.{user_has_admin_access}
use fxjournal.Entitlements.{
  Env, mt5_account, active, expired, premium_trial_started_at, day, workflow_access_reason,
  trial_started_at, get_trial_state, can_use_mt5_sync, start_premium_trial_if_needed,
  user_plan_tier, user_has_paid_workflow_access, account_mt5_trial_started_at, effective_start,
  user_premium_trial_started_at,
}
use fxjournal.Entitlements.Clock.{IsClocked, active_exactly}
use fxjournal.Entitlements.Start.{start_once}
use fxjournal.Entitlements.SyncGate.{IsOpen, sync_exactly, sync_never_reopens}

abbrev pub fresh_user : User
fresh_user = record {
  id = some 7;
  email = codes "trader@example.com";
  email_verified = true;
  is_admin = false;
  signup_status = some (codes "approved");
  plan_tier = some (codes " Free");
  plan_grandfathered = false;
  premium_trial_started_at = none;
}

abbrev pub started_user : User
started_user = record fresh_user { premium_trial_started_at = some (naive (100 * day)) }

abbrev pub linked_account : Mt5Account
linked_account = record {
  id = 3;
  user_id = some 7;
  trade_account_id = some 5;
  account_number = codes "123456";
  investor_password_encrypted = some (codes "x");
  is_active = true;
  last_synced_at = none;
  vm_id = some (codes "VM-1");
  cleanup_marked_at = none;
  archived_at = none;
  archive_reason = none;
  mt5_consent_accepted_at = none;
  mt5_consent_version = none;
  connection_status = codes "connected";
  connection_error_message = none;
  mt5_trial_started_at = none;
  sync_paused_at = none;
  sync_pause_reason = none;
}

abbrev pub env_on : ℕ → Env
env_on now = record {
  user_entitlement_columns = true;
  premium_trial_column = true;
  mt5_trial_columns = true;
  now = now;
  admin_emails = codes "root@example.com, boss@example.com";
  mt5_table = linked_account ∷ [];
  can_query = true;
}

pub fresh_unprivileged : workflow_access_reason (env_on (104 * day)) fresh_user ≡ none
unfolding workflow_access_reason user_has_admin_access user_has_paid_workflow_access user_plan_tier
fresh_unprivileged = refl

started_unprivileged : workflow_access_reason (env_on (104 * day)) started_user ≡ none
unfolding workflow_access_reason user_has_admin_access user_has_paid_workflow_access user_plan_tier
started_unprivileged = refl

started-IsClocked :
    IsClocked
      (env_on (104 * day))
      started_user
      (mt5_account linked_account)
      (100 * day)
      premium_trial_started_at
unfolding trial_started_at
started-IsClocked = record {
  columns = refl;
  unpaused = refl;
  unprivileged = started_unprivileged;
  started = refl;
}

fresh_unstarted :
    trial_started_at (env_on (104 * day)) fresh_user (mt5_account linked_account) ≡ none
unfolding trial_started_at account_mt5_trial_started_at
fresh_unstarted = refl

active_exactly_example :
    let s = get_trial_state (env_on (104 * day)) started_user (mt5_account linked_account) in
    ((s.state ≡ active) ↔ (104 * day < 100 * day + 14 * day))
    × ((s.state ≡ expired) ↔ (100 * day + 14 * day ≤ 104 * day))
active_exactly_example =
    active_exactly (env_on (104 * day)) started_user (mt5_account linked_account) (100 * day)
      premium_trial_started_at started-IsClocked

start_once_example :
    let (user', account', t) =
      start_premium_trial_if_needed
        (env_on (104 * day))
        fresh_user
        (mt5_account linked_account)
        none in
    (t
      ≡ some (
          effective_start
            (env_on (104 * day))
            (trial_started_at (env_on (104 * day)) fresh_user (mt5_account linked_account))
            none))
    × (user_premium_trial_started_at (env_on (104 * day)) user' ≡ t)
    × (start_premium_trial_if_needed
          (record (env_on (104 * day)) { now = 200 * day })
          user'
          account'
          (some (naive 5))
        ≡ (user', account', t))
start_once_example =
    start_once (env_on (104 * day)) fresh_user (mt5_account linked_account) none (some (naive 5))
      (200 * day) fresh_unprivileged refl

sync_exactly_example :
    ((can_use_mt5_sync (env_on (104 * day)) started_user (mt5_account linked_account)).allowed
      ≡ true)
    ↔ ((is_some linked_account.sync_paused_at ≡ false)
        × ((is_some (workflow_access_reason (env_on (104 * day)) started_user) ≡ true)
            ⊎ IsOpen
                (104 * day)
                (trial_started_at (env_on (104 * day)) started_user (mt5_account linked_account))))
sync_exactly_example = sync_exactly (env_on (104 * day)) started_user linked_account refl refl

-- Four days into the trial the account may sync.
open_on_day_four :
    (can_use_mt5_sync (env_on (104 * day)) started_user (mt5_account linked_account)).allowed ≡ true
unfolding trial_started_at
open_on_day_four =
    (sync_exactly (env_on (104 * day)) started_user linked_account refl refl).1
      (refl, inr (omega arith))

sync_never_reopens_example :
    (can_use_mt5_sync (env_on (101 * day)) started_user (mt5_account linked_account)).allowed ≡ true
sync_never_reopens_example =
    sync_never_reopens (env_on (101 * day)) started_user linked_account (104 * day) refl refl
      (omega arith) open_on_day_four
