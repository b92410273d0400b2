-- ===== src/Entitlements/Start.antt =====
-- Starting the trial: the stamp is written once, and only for users with a clock.
use fxjournal.Prelude.{
  ◌∙◌, ap, ℕ, ◌≡◌, refl, true, ◌&&◌, not, Option, none, some, is_some, arith, Bool-cases,
  Option-cases, inl, inr,
}
use fxjournal.Models.{Stamp, User}
use fxjournal.Entitlements.{
  Env, AccountArg, absent, mt5_account, trade_account, active, premium_trial_started_at,
  account_paused_at, workflow_access_reason, trial_started_at, user_premium_trial_started_at,
  effective_start, get_trial_state, start_premium_trial_if_needed, stamp_user, stamp_account,
  user_has_paid_workflow_access, user_plan_tier,
}
use fxjournal.Access.{user_has_admin_access}
use fxjournal.Entitlements.Clock.{
  IsClocked, active_exactly, days_remaining-IsClocked, days_left_at_start,
}

module _ (env : Env) (user : User) where
  reason_of_stamp :
      (s : Option Stamp)
      → workflow_access_reason env (record user { premium_trial_started_at = s })
        ≡ workflow_access_reason env user
  unfolding workflow_access_reason user_has_admin_access user_has_paid_workflow_access
      user_plan_tier
  reason_of_stamp s = refl

  -- Stamping the trial start changes nothing that the access reason reads, nor does the clock.
  pub workflow_access_reason-stamp :
      (t n : ℕ)
      → workflow_access_reason (record env { now = n }) (stamp_user env t user)
        ≡ workflow_access_reason env user
  unfolding workflow_access_reason user_has_admin_access user_has_paid_workflow_access
      user_plan_tier
  workflow_access_reason-stamp t n =
      elim (Bool-cases (env.premium_trial_column && not (is_some user.premium_trial_started_at))) [
        | inl e ↦ rw e
        | inr e ↦ rw e
      ]

  -- What is stamped is what the trial clock then reads.
  user_premium-stamp :
      (account : AccountArg) (given : Option Stamp)
      → env.premium_trial_column ≡ true
      → let t = effective_start env (trial_started_at env user account) given in
        user_premium_trial_started_at env (stamp_user env t user) ≡ some t
  unfolding trial_started_at
  user_premium-stamp account given col = ground arith

  trial_started_at-stamp :
      (account other : AccountArg) (given : Option Stamp) (n : ℕ)
      → env.premium_trial_column ≡ true
      → let t = effective_start env (trial_started_at env user account) given in
        trial_started_at (record env { now = n }) (stamp_user env t user) other
        ≡ some (t, premium_trial_started_at)
  unfolding trial_started_at
  trial_started_at-stamp account other given n col =
      ground (arith, user_premium-stamp account given col)

  stamp_user_twice :
      (t t' n : ℕ)
      → env.premium_trial_column ≡ true
      → stamp_user (record env { now = n }) t' (stamp_user env t user) ≡ stamp_user env t user
  stamp_user_twice t t' n col = elim (Option-cases user.premium_trial_started_at) [
    | inl e ↦ simp (col, e)
    | inr (s, e) ↦ simp (col, e)
  ]

stamp_account_twice :
    (env : Env) (t t' n : ℕ) (account : AccountArg)
    → stamp_account (record env { now = n }) t' (stamp_account env t account)
      ≡ stamp_account env t account
stamp_account_twice env t t' n (mt5_account a) = ground arith
stamp_account_twice env t t' n absent = refl
stamp_account_twice env t t' n (trade_account i) = refl

-- For a user with no access reason, where the users have the column of the trial start, a call returns a start: the one on record or, where there is none, the given one or the present. The trial clock then reads it from the user; and a second call, whenever it is made and whatever it is given, changes nothing and returns the same start.
pub start_once :
    (env : Env) (user : User) (account : AccountArg) (given later : Option Stamp) (n : ℕ)
    → workflow_access_reason env user ≡ none
    → env.premium_trial_column ≡ true
    → let (user', account', t) = start_premium_trial_if_needed env user account given in
      (t ≡ some (effective_start env (trial_started_at env user account) given))
      × (user_premium_trial_started_at env user' ≡ t)
      × (start_premium_trial_if_needed (record env { now = n }) user' account' later
          ≡ (user', account', t))
unfolding start_premium_trial_if_needed
start_once env user account given later n h col =
    simp (h, workflow_access_reason-stamp env user)
      (
        refl,
        user_premium-stamp env user account given col,
        simp
            (
              trial_started_at-stamp env user account (stamp_account env t account) given n col,
              stamp_user_twice env user t t n col,
              stamp_account_twice env t t n account,
            )
            refl,
      )
  where
    t : ℕ
    t = effective_start env (trial_started_at env user account) given

stamp_account_unpaused :
    (env : Env) (t : ℕ) (account : AccountArg)
    → account_paused_at account ≡ none
    → account_paused_at (stamp_account env t account) ≡ none
stamp_account_unpaused env t (mt5_account a) h = ground arith
stamp_account_unpaused env t absent h = refl
stamp_account_unpaused env t (trade_account i) h = refl

-- The first use of a premium feature, by a user with no access reason, no trial start on record and no given one, on an account that is not paused, opens a trial of fourteen days.
pub start_grants :
    (env : Env) (user : User) (account : AccountArg)
    → env.user_entitlement_columns ≡ true
    → env.premium_trial_column ≡ true
    → workflow_access_reason env user ≡ none
    → trial_started_at env user account ≡ none
    → account_paused_at account ≡ none
    → let (user', account', t) = start_premium_trial_if_needed env user account none in
      (t ≡ some env.now)
      × ((get_trial_state env user' account').state ≡ active)
      × ((get_trial_state env user' account').days_remaining ≡ some 14)
unfolding start_premium_trial_if_needed
start_grants env user account ent col h fresh live =
    let c : IsClocked env (stamp_user env env.now user) (stamp_account env env.now account) env.now
        premium_trial_started_at =
      record {
        columns = ent;
        unpaused = stamp_account_unpaused env env.now account live;
        unprivileged = workflow_access_reason-stamp env user env.now env.now ∙ h;
        started =
            (rw fresh at (
              trial_started_at-stamp env user account (stamp_account env env.now account) none
                env.now col));
      } in
    simp (h, fresh)
      (
        refl,
        (active_exactly env _ _ env.now _ c).0.1 (omega arith),
        days_remaining-IsClocked env _ _ _ _ c ∙ ap some (days_left_at_start env.now),
      )
