-- ===== src/Entitlements/SyncGate.antt =====
-- The gate of the MT5 sync: exactly who passes, and that time alone never opens it again.
use fxjournal.Prelude.{
  ℕ, zero, suc, ◌+◌, ◌*◌, ◌≤◌, ◌<◌, ◌≡◌, refl, ◌↔◌, ◌⊎◌, inl, inr, true, false, Option, none, some,
  is_some, arith, Option-cases,
}
use fxjournal.Models.{User, Mt5Account}
use fxjournal.Entitlements.{
  Env, AccountArg, absent, mt5_account, trade_account, account_mt5_trial_started_at,
  user_has_paid_workflow_access, user_plan_tier, Label, day, days_left, elapsed_days, trial_gate,
  running_state, workflow_access_reason, trial_started_at, get_trial_state, can_use_mt5_sync,
  clocked,
}
use fxjournal.Entitlements.Clock.{days_left_pos}

-- A trial that has not started, or started less than fourteen days ago.
abbrev pub IsOpen : ℕ → Option (ℕ × Label) → Type 0
IsOpen now none = Unit
IsOpen now (some (start, _)) = now < start + 14 * day

trial_gate-clocked :
    (start d : ℕ) (source : Label)
    → ((trial_gate (clocked start source d).state).allowed ≡ true) ↔ (0 < d)
trial_gate-clocked start zero source = (λ h. cc, λ h. absurd (omega arith))
trial_gate-clocked start (suc d) source = (λ h. omega arith, λ h. refl)

trial_gate-running :
    (env : Env) (o : Option (ℕ × Label))
    → ((trial_gate (running_state env o).state).allowed ≡ true) ↔ IsOpen env.now o
trial_gate-running env none = (λ h. tt, λ h. refl)
trial_gate-running env (some (start, source)) = ground (
  arith,
  trial_gate-clocked start (days_left (elapsed_days env.now start)) source,
  days_left_pos env.now start,
)

-- Where the schema has its columns, an MT5 account may sync exactly if it is not paused and its user has an access reason or a trial that is open.
pub sync_exactly :
    (env : Env) (user : User) (a : Mt5Account)
    → env.user_entitlement_columns ≡ true
    → env.mt5_trial_columns ≡ true
    → ((can_use_mt5_sync env user (mt5_account a)).allowed ≡ true) ↔ (
        (is_some a.sync_paused_at ≡ false)
        × ((is_some (workflow_access_reason env user) ≡ true)
            ⊎ IsOpen env.now (trial_started_at env user (mt5_account a))))
unfolding can_use_mt5_sync get_trial_state
sync_exactly env user a ent mt5 = elim (Option-cases a.sync_paused_at) [
  | inl live ↦ elim (Option-cases (workflow_access_reason env user)) [
    | inl plain ↦
        simp (ent, mt5, live, plain)
          (let g = trial_gate-running env (trial_started_at env user (mt5_account a)) in
            (
              λ h. (refl, inr (g.0 h)),
              λ h. g.1 (elim (h.1) [ inl e ↦ cc e | inr open_trial ↦ open_trial ]),
            ))
    | inr (reason, privileged) ↦ simp (mt5, live, privileged) (λ h. (refl, inl refl), λ h. refl)
  ]
  | inr (t, stopped) ↦ simp (mt5, stopped) (λ h. cc, λ h. cc (h.0))
]

IsOpen-earlier :
    (o : Option (ℕ × Label)) {now later : ℕ} → now ≤ later → IsOpen later o → IsOpen now o
IsOpen-earlier none le h = tt
IsOpen-earlier (some (start, source)) le h = omega arith

trial_started_at-now :
    (env : Env) (user : User) (account : AccountArg) (n : ℕ)
    → trial_started_at (record env { now = n }) user account ≡ trial_started_at env user account
unfolding trial_started_at account_mt5_trial_started_at
trial_started_at-now env user (mt5_account a) n = refl
trial_started_at-now env user absent n = refl
trial_started_at-now env user (trade_account i) n = refl

workflow_access_reason-now :
    (env : Env) (user : User) (n : ℕ)
    → workflow_access_reason (record env { now = n }) user ≡ workflow_access_reason env user
unfolding workflow_access_reason user_has_paid_workflow_access user_plan_tier
workflow_access_reason-now env user n = refl

-- Where the schema has its columns, and nothing but the clock moves, an MT5 account that may sync later may sync now: the gate never opens by itself.
pub sync_never_reopens :
    (env : Env) (user : User) (a : Mt5Account) (later : ℕ)
    → env.user_entitlement_columns ≡ true
    → env.mt5_trial_columns ≡ true
    → env.now ≤ later
    → (can_use_mt5_sync (record env { now = later }) user (mt5_account a)).allowed ≡ true
    → (can_use_mt5_sync env user (mt5_account a)).allowed ≡ true
sync_never_reopens env user a later ent mt5 le h =
    let (live, how) = (sync_exactly (record env { now = later }) user a ent mt5).0 h in
    (sync_exactly env user a ent mt5).1 (
      live,
      elim how [
        | inl reason ↦ inl (rw workflow_access_reason-now at reason)
        | inr trial ↦ inr (
            IsOpen-earlier (trial_started_at env user (mt5_account a)) le
              (rw trial_started_at-now at trial))
      ],
    )
