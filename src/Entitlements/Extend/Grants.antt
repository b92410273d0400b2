-- ===== src/Entitlements/Extend/Grants.antt =====
-- What a granted extension does: the days that it leaves, the accounts that it resumes, and that it
-- is not granted twice.
use mathlib.Core.Logic.Or
use fxjournal.Prelude.{
  ℕ, ◌*◌, ◌≤◌, ◌≡◌, refl, ap, ◌∙◌, inl, inr, true, false, ◌&&◌, Option, none, some, is_some, List,
  [], ◌∷◌, map, any_of, keep, Mem, mem-cons, not-mem-nil, arith, Bool-cases, Option-cases,
}
use fxjournal.Prelude.Int.{ℤ, pos, negsuc}
use fxjournal.Prelude.Text.{contains_text}
use fxjournal.Access.{user_has_admin_access}
use fxjournal.Models.{User, Mt5Account}
use fxjournal.Entitlements.{
  Env, AccountArg, absent, mt5_account, active, day, days_left, elapsed_days, get_trial_state,
  premium_trial_started_at, trial_started_at, workflow_access_reason, user_has_paid_workflow_access,
  user_plan_tier, can_use_mt5_sync, account_paused_at,
}
use fxjournal.Entitlements.Clock.{IsClocked, active_exactly, days_remaining-IsClocked}
use fxjournal.Entitlements.SyncGate.{sync_exactly}
use fxjournal.Entitlements.Extend.{
  Extended, ExtendError, refused, extended, extend_premium_trial, checked_days, extended_user,
  extended_table, resumed_rows, new_start, resume, resumable, paused_row, pause_reason,
  trial_pause_reasons_to_clear, user_has_trial_paused_mt5, trial_not_ended, invalid_days,
}

checked_days-range :
    (days : Option ℤ) (d : ℕ)
    → checked_days days ≡ some d
    → (days ≡ some (pos d)) × (1 ≤ d) × (d ≤ 90)
unfolding checked_days
checked_days-range none d h = cc
checked_days-range (some (negsuc n)) d h = cc
checked_days-range (some (pos n)) d h = ground arith

-- What a granted extension has passed, and what it returns.
record IsGranted (env : Env) (user : User) (days : Option ℤ) (e : Extended) (user' : User)
    (table : List Mt5Account) (d : ℕ) : Type 0 where
  pub checked : checked_days days ≡ some d
  pub unprivileged : workflow_access_reason env user ≡ none
  pub column : env.premium_trial_column ≡ true
  pub stamped : user' ≡ extended_user env user d
  pub resumed : table ≡ extended_table env user d
  pub rows : e.resumed ≡ resumed_rows env user d

extend_inversion :
    (env : Env) (user : User) (days : Option ℤ) {e : Extended} {user' : User}
    {table : List Mt5Account}
    → extend_premium_trial env user days ≡ (extended e, user', table)
    → (d : ℕ) × IsGranted env user days e user' table d
unfolding extend_premium_trial
extend_inversion env user days {e} {user'} {table} h = elim (Option-cases (checked_days days)) [
  | inl bad ↦ ground arith
  | inr (d, good) ↦ (d, ground arith)
]

days_left_extended :
    (now d : ℕ) → 14 * day ≤ now → 1 ≤ d → days_left (elapsed_days now (new_start now d)) ≡ d
unfolding days_left elapsed_days
days_left_extended now d h k = ground arith

columns_of_unprivileged :
    (env : Env) (user : User)
    → workflow_access_reason env user ≡ none
    → env.user_entitlement_columns ≡ true
unfolding workflow_access_reason
columns_of_unprivileged env user h = ground arith

module _ (env : Env) (user : User) (d : ℕ) where
  -- The environment after the call.
  abbrev env_after : Env
  env_after = record env { mt5_table = extended_table env user d }

  reason_after :
      workflow_access_reason env_after (extended_user env user d) ≡ workflow_access_reason env user
  unfolding workflow_access_reason user_has_admin_access user_has_paid_workflow_access
      user_plan_tier
  reason_after = refl

  started_after :
      (account : AccountArg)
      → env.premium_trial_column ≡ true
      → trial_started_at env_after (extended_user env user d) account
        ≡ some (new_start env.now d, premium_trial_started_at)
  unfolding trial_started_at
  started_after account col = simp col

  IsClocked-after :
      (account : AccountArg)
      → account_paused_at account ≡ none
      → env.premium_trial_column ≡ true
      → workflow_access_reason env user ≡ none
      → IsClocked env_after
          (extended_user env user d)
          account
          (new_start env.now d)
          premium_trial_started_at
  IsClocked-after account live col plain = record {
    columns = columns_of_unprivileged env user plain;
    unpaused = live;
    unprivileged = reason_after ∙ plain;
    started = started_after account col;
  }

-- A granted extension leaves the user, at the same moment, with an active trial of exactly the days that were asked for, which lie between 1 and 90. The clock stands at fourteen days after year 1 or later.
pub extend_grants :
    (env : Env) (user : User) (days : Option ℤ) (e : Extended) (user' : User)
    (table : List Mt5Account)
    → 14 * day ≤ env.now
    → extend_premium_trial env user days ≡ (extended e, user', table)
    → (d : ℕ) × (days ≡ some (pos d))
      × (1 ≤ d)
      × (d ≤ 90)
      × ((get_trial_state (record env { mt5_table = table }) user' absent).state ≡ active)
      × ((get_trial_state (record env { mt5_table = table }) user' absent).days_remaining ≡ some d)
extend_grants env user days e user' table late h =
    let (d, g) = extend_inversion env user days h in
    let (asked, low, high) = checked_days-range days d g.checked in
    let c = IsClocked-after env user d absent refl g.column g.unprivileged in
    rw (g.stamped, g.resumed)
      (
        d,
        asked,
        low,
        high,
        (active_exactly (env_after env user d) (extended_user env user d) absent _ _ c).0.1
            (omega arith),
        days_remaining-IsClocked _ _ _ _ _ c ∙ ap some (days_left_extended env.now d late low),
      )

module _ (env : Env) (user : User) (d : ℕ) where
  -- No account that the trial had paused is left paused.
  resume_unpaused :
      (a : Mt5Account)
      → let b = resume user (new_start env.now d) a in
        paused_row (extended_user env user d) b
          && contains_text (pause_reason b) trial_pause_reasons_to_clear
        ≡ false
  unfolding resume resumable
  resume_unpaused a = elim (Bool-cases (resumable user a)) [
    | inl yes_resumed ↦ rw yes_resumed (ground arith)
    | inr kept ↦ rw kept (ground arith)
  ]

  none_unpaused :
      (rows : List Mt5Account)
      → any_of
          (λ a.
            paused_row (extended_user env user d) a
            && contains_text (pause_reason a) trial_pause_reasons_to_clear)
          (map (resume user (new_start env.now d)) rows)
        ≡ false
  none_unpaused [] = refl
  none_unpaused (a ∷ rows) = rw (resume_unpaused a) (none_unpaused rows)

  paused_after : user_has_trial_paused_mt5 (env_after env user d) (extended_user env user d) ≡ false
  unfolding user_has_trial_paused_mt5
  paused_after = ground (arith, none_unpaused env.mt5_table)

  refused_after :
      (again : Option ℤ)
      → workflow_access_reason env user ≡ none
      → (get_trial_state (env_after env user d) (extended_user env user d) absent).state ≡ active
      → (x : ExtendError) × (extend_premium_trial
            (env_after env user d)
            (extended_user env user d)
            again
          ≡ (refused x, extended_user env user d, extended_table env user d))
  unfolding extend_premium_trial
  refused_after again plain running = elim (Option-cases (checked_days again)) [
    | inl bad ↦ (invalid_days, rw bad refl)
    | inr (n, good) ↦
        (trial_not_ended, simp (good, reason_after env user d, plain, running, paused_after))
  ]

-- Right after a granted extension every further one is refused and changes nothing.
pub extend_twice :
    (env : Env) (user : User) (days again : Option ℤ) (e : Extended) (user' : User)
    (table : List Mt5Account)
    → 14 * day ≤ env.now
    → extend_premium_trial env user days ≡ (extended e, user', table)
    → (x : ExtendError) × (extend_premium_trial (record env { mt5_table = table }) user' again
        ≡ (refused x, user', table))
extend_twice env user days again e user' table late h =
    let (d, g) = extend_inversion env user days h in
    let (asked, low, high) = checked_days-range days d g.checked in
    let c = IsClocked-after env user d absent refl g.column g.unprivileged in
    let running =
      (active_exactly (env_after env user d) (extended_user env user d) absent _ _ c).0.1
        (omega arith) in
    rw (g.stamped, g.resumed) (refused_after env user d again g.unprivileged running)

resumed_unpaused :
    (user : User) (start : ℕ) (a : Mt5Account) (rows : List Mt5Account)
    → Mem a (map (resume user start) (keep (resumable user) rows))
    → is_some a.sync_paused_at ≡ false
unfolding resume
resumed_unpaused user start a [] m = absurd (not-mem-nil m)
resumed_unpaused user start a (r ∷ rows) m = elim (Bool-cases (resumable user r)) [
  | inl y ↦
      Or.elim (hlevel) (mem-cons.0 (rw y at m)) (λ e. rw (e, y) refl)
        (resumed_unpaused user start a rows)
  | inr n ↦ resumed_unpaused user start a rows (rw n at m)
]

-- Every account that a granted extension resumes may sync at that moment.
pub resumed_may_sync :
    (env : Env) (user : User) (days : Option ℤ) (e : Extended) (user' : User)
    (table : List Mt5Account) (a : Mt5Account)
    → 14 * day ≤ env.now
    → env.mt5_trial_columns ≡ true
    → extend_premium_trial env user days ≡ (extended e, user', table)
    → Mem a e.resumed
    → (can_use_mt5_sync (record env { mt5_table = table }) user' (mt5_account a)).allowed ≡ true
resumed_may_sync env user days e user' table a late cols h m =
    let (d, g) = extend_inversion env user days h in
    let (asked, low, high) = checked_days-range days d g.checked in
    let mem : Mem a
        (map (resume user (new_start env.now d)) (keep (resumable user) env.mt5_table)) =
      simp cols at (rw g.rows at m) in
    rw (g.stamped, g.resumed)
      ((sync_exactly (env_after env user d) (extended_user env user d) a
          (columns_of_unprivileged env user g.unprivileged) cols).1
        (
          resumed_unpaused user (new_start env.now d) a env.mt5_table mem,
          inr (rw (started_after env user d (mt5_account a) g.column) (omega arith)),
        ))
