-- ===== src/Entitlements/ExtendExamples.antt =====
-- The theorems on the chat, the replay and the extension at concrete inputs.
use mathlib.Core.Logic.Or
use fxjournal.Prelude.{mem-cons, ℕ, ◌*◌, ◌≤◌, ◌≡◌, refl, true, none, some, [], ◌∷◌, Mem, arith}
use fxjournal.Prelude.Int.{pos}
use fxjournal.Prelude.Text.{codes, contains_text, strip, upper}
use fxjournal.Access.{user_has_admin_access}
use fxjournal.Models.{naive, Mt5Account}
use fxjournal.Entitlements.{
  Env, absent, mt5_account, active, day, workflow_access_reason, trial_started_at, get_trial_state,
  can_use_mt5_sync, user_plan_tier, user_has_paid_workflow_access, elapsed_days, days_left,
}
use fxjournal.Entitlements.Replay.{trader_replay_timeframes}
use fxjournal.Entitlements.Extend.{
  ExtendError, refused, extended, extension, extended_user, extended_table, extend_premium_trial,
  checked_days, resume, resumable, user_has_trial_paused_mt5, pause_reason,
  build_admin_user_trial_display,
}
use fxjournal.Entitlements.Extend.Grants.{extend_grants, extend_twice, resumed_may_sync}
use fxjournal.Entitlements.Examples.{started_user, linked_account, env_on}

abbrev stopped_account : Mt5Account
stopped_account = record linked_account {
  sync_paused_at = some (naive (114 * day));
  sync_pause_reason = some (codes "Trial_Expired");
}

-- Day 120: the trial that began on day 100 has run out, and paused the account.
abbrev env_over : Env
env_over = record (env_on (120 * day)) { mt5_table = stopped_account ∷ [] }

-- Day 104 with the same account.
abbrev env_running : Env
env_running = record (env_on (104 * day)) { mt5_table = stopped_account ∷ [] }

extend_runs : extend_premium_trial env_over started_user (some (pos 30)) ≡ (
  extended (extension env_over started_user 30),
  extended_user env_over started_user 30,
  extended_table env_over started_user 30,
)
unfolding extend_premium_trial checked_days workflow_access_reason user_has_admin_access
    user_has_paid_workflow_access user_plan_tier get_trial_state trial_started_at elapsed_days
    days_left
extend_runs = refl

m1_known : contains_text (upper (strip (codes " m1 "))) trader_replay_timeframes ≡ true
unfolding contains_text upper strip
m1_known = refl

running_plain : workflow_access_reason env_running started_user ≡ none
unfolding workflow_access_reason user_has_admin_access user_has_paid_workflow_access user_plan_tier
running_plain = refl

running_active : (get_trial_state env_running started_user absent).state ≡ active
unfolding get_trial_state trial_started_at workflow_access_reason user_has_admin_access
    user_has_paid_workflow_access user_plan_tier elapsed_days days_left
running_active = refl

extend_grants_example :
    (d : ℕ) × (some (pos 30) ≡ some (pos d))
    × (1 ≤ d)
    × (d ≤ 90)
    × ((get_trial_state
          (record env_over { mt5_table = extended_table env_over started_user 30 })
          (extended_user env_over started_user 30)
          absent).state
        ≡ active)
    × ((get_trial_state
          (record env_over { mt5_table = extended_table env_over started_user 30 })
          (extended_user env_over started_user 30)
          absent).days_remaining
        ≡ some d)
extend_grants_example =
    extend_grants env_over started_user (some (pos 30)) (extension env_over started_user 30)
      (extended_user env_over started_user 30) (extended_table env_over started_user 30)
      (omega arith) extend_runs

extend_twice_example :
    (x : ExtendError) × (extend_premium_trial
        (record env_over { mt5_table = extended_table env_over started_user 30 })
        (extended_user env_over started_user 30)
        (some (pos 5))
      ≡ (
        refused x,
        extended_user env_over started_user 30,
        extended_table env_over started_user 30,
      ))
extend_twice_example =
    extend_twice env_over started_user (some (pos 30)) (some (pos 5))
      (extension env_over started_user 30) (extended_user env_over started_user 30)
      (extended_table env_over started_user 30) (omega arith) extend_runs

abbrev resumed_account : Mt5Account
resumed_account = resume started_user (136 * day) stopped_account

resumed_listed : Mem resumed_account (extension env_over started_user 30).resumed
unfolding resumable pause_reason contains_text
resumed_listed = mem-cons.1 (Or.inl refl)

resumed_may_sync_example :
    (can_use_mt5_sync
      (record env_over { mt5_table = extended_table env_over started_user 30 })
      (extended_user env_over started_user 30)
      (mt5_account resumed_account)).allowed
    ≡ true
resumed_may_sync_example =
    resumed_may_sync env_over started_user (some (pos 30)) (extension env_over started_user 30)
      (extended_user env_over started_user 30) (extended_table env_over started_user 30)
      resumed_account (omega arith) refl extend_runs resumed_listed

offered : (build_admin_user_trial_display env_over started_user).can_extend ≡ true
unfolding build_admin_user_trial_display workflow_access_reason user_has_admin_access
    user_has_paid_workflow_access user_plan_tier get_trial_state trial_started_at elapsed_days
    days_left
offered = refl

running_stopped : user_has_trial_paused_mt5 env_running started_user ≡ true
unfolding user_has_trial_paused_mt5 pause_reason contains_text
running_stopped = refl
