-- ===== src/Entitlements/Clock.antt =====
-- The trial clock: when a started trial is active, how many days it has left, and that it never
-- comes back by itself.
use fxjournal.Prelude.{ℕ, zero, suc, ◌+◌, ◌*◌, ◌≤◌, ◌<◌, ◌≡◌, refl, ◌↔◌, true, none, some, arith}
use fxjournal.Models.{User}
use fxjournal.Entitlements.{
  Env, AccountArg, Label, active, expired, day, elapsed_days, days_left, account_paused_at,
  workflow_access_reason, trial_started_at, get_trial_state, clocked,
}

-- Days are left exactly while fourteen days have not passed since the start.
pub days_left_pos :
    (now start : ℕ) → (0 < days_left (elapsed_days now start)) ↔ (now < start + 14 * day)
unfolding days_left elapsed_days
days_left_pos now start = (λ h. ground arith, λ h. ground arith)

-- The unprivileged user whose account is not paused, with the schema in place.
pub record IsClocked (env : Env) (user : User) (account : AccountArg) (start : ℕ) (source : Label)
    : Type 0 where
  pub columns : env.user_entitlement_columns ≡ true
  pub unpaused : account_paused_at account ≡ none
  pub unprivileged : workflow_access_reason env user ≡ none
  pub started : trial_started_at env user account ≡ some (start, source)

module _ {env : Env} {user : User} {account : AccountArg} {start : ℕ} {source : Label}
    (h : IsClocked env user account start source) where
  get_trial_state-IsClocked :
      get_trial_state env user account
      ≡ clocked start source (days_left (elapsed_days env.now start))
  unfolding get_trial_state
  get_trial_state-IsClocked = simp (h.columns, h.unpaused, h.unprivileged, h.started)

clocked_active :
    (start d : ℕ) (source : Label) → ((clocked start source d).state ≡ active) ↔ (0 < d)
clocked_active start zero source = (λ h. cc, λ h. absurd (omega arith))
clocked_active start (suc d) source = (λ h. omega arith, λ h. refl)

clocked_expired :
    (start d : ℕ) (source : Label) → ((clocked start source d).state ≡ expired) ↔ (d ≡ 0)
clocked_expired start zero source = (λ h. refl, λ h. refl)
clocked_expired start (suc d) source = (λ h. cc, λ h. absurd (omega arith))

clocked_days : (start d : ℕ) (source : Label) → (clocked start source d).days_remaining ≡ some d
clocked_days start zero source = refl
clocked_days start (suc d) source = refl

pub days_remaining-IsClocked :
    (env : Env) (user : User) (account : AccountArg) (start : ℕ) (source : Label)
    → IsClocked env user account start source
    → (get_trial_state env user account).days_remaining
      ≡ some (days_left (elapsed_days env.now start))
days_remaining-IsClocked env user account start source h =
    rw (get_trial_state-IsClocked h) (clocked_days _ _ _)

pub days_left_at_start : (now : ℕ) → days_left (elapsed_days now now) ≡ 14
unfolding days_left elapsed_days
days_left_at_start now = ground arith

-- While days are left, their number is the whole days to the end, rounded up.
days_left_exact :
    (now start : ℕ)
    → now < start + 14 * day
    → let d = days_left (elapsed_days now start) in
      (start + 14 * day ≤ now + d * day) × (now + d * day < start + 15 * day)
unfolding days_left elapsed_days
days_left_exact now start h = ground arith

-- For a started trial that nothing else overrides, the state is "active" exactly before fourteen days have passed since the start, to the microsecond, and "expired" exactly from then on.
pub active_exactly :
    (env : Env) (user : User) (account : AccountArg) (start : ℕ) (source : Label)
    → IsClocked env user account start source
    → let s = get_trial_state env user account in
      ((s.state ≡ active) ↔ (env.now < start + 14 * day))
      × ((s.state ≡ expired) ↔ (start + 14 * day ≤ env.now))
active_exactly env user account start source h = rw (get_trial_state-IsClocked h) (
    ground (
      arith,
      clocked_active start d source,
      clocked_expired start d source,
      days_left_pos env.now start,
    ))
  where
    d : ℕ
    d = days_left (elapsed_days env.now start)

-- While the trial is active, the days shown as remaining bring the clock to the end of the trial or past it by less than a day.
pub days_remaining_exact :
    (env : Env) (user : User) (account : AccountArg) (start : ℕ) (source : Label)
    → IsClocked env user account start source
    → env.now < start + 14 * day
    → (d : ℕ) × ((get_trial_state env user account).days_remaining ≡ some d)
      × (start + 14 * day ≤ env.now + d * day)
      × (env.now + d * day < start + 15 * day)
days_remaining_exact env user account start source h before = (
  days_left (elapsed_days env.now start),
  days_remaining-IsClocked env user account start source h,
  (days_left_exact env.now start before).0,
  (days_left_exact env.now start before).1,
)
