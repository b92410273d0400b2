-- ===== src/Entitlements/Extend/Offer.antt =====
-- When the admin panel offers an extension, against when the extension is granted.
use fxjournal.Prelude.{
  ℕ, ◌≤◌, ◌≡◌, refl, ◌⊎◌, inl, inr, Bool, true, false, none, some, arith, Option-cases, Bool-cases,
}
use fxjournal.Prelude.Int.{pos}
use fxjournal.Models.{User}
use fxjournal.Entitlements.{
  Env, absent, Label, active, expired, paused, not_started, TrialState, get_trial_state,
  workflow_access_reason,
}
use fxjournal.Entitlements.Extend.{
  Extended, extended, extend_premium_trial, extension, checked_days, has_ended,
  user_has_trial_paused_mt5, build_admin_user_trial_display, display_state,
}

offered_state :
    (trial : TrialState) (stopped : Bool) (l : Label)
    → (display_state trial stopped l).can_extend ≡ true
    → (has_ended l ≡ true) ⊎ (stopped ≡ true)
offered_state trial stopped not_started h = cc
offered_state trial stopped active h = cc
offered_state trial stopped paused h = inl refl
offered_state trial stopped expired h = inl refl
offered_state trial stopped _ h = inr h

checked_days-pos : (d : ℕ) → 1 ≤ d → d ≤ 90 → checked_days (some (pos d)) ≡ some d
unfolding checked_days
checked_days-pos d low high = ground arith

-- Where the trial has ended, or an account is paused by it, an extension by 1 to 90 days is granted.
granted :
    (env : Env) (user : User) (d : ℕ)
    → workflow_access_reason env user ≡ none
    → (has_ended (get_trial_state env user absent).state ≡ true)
      ⊎ (user_has_trial_paused_mt5 env user ≡ true)
    → env.premium_trial_column ≡ true
    → 1 ≤ d
    → d ≤ 90
    → (extend_premium_trial env user (some (pos d))).0 ≡ extended (extension env user d)
unfolding extend_premium_trial
granted env user d plain why col low high = elim why [
  | inl over ↦ simp (checked_days-pos d low high, plain, over, col)
  | inr stopped ↦ elim (Bool-cases (has_ended (get_trial_state env user absent).state)) [
    | inl over ↦ simp (checked_days-pos d low high, plain, over, col)
    | inr running ↦ simp (checked_days-pos d low high, plain, running, stopped, col)
  ]
]

-- Where the panel offers an extension and the user table has its trial column, an extension by 1 to 90 days is granted.
pub offer_is_honoured :
    (env : Env) (user : User) (d : ℕ)
    → (build_admin_user_trial_display env user).can_extend ≡ true
    → env.premium_trial_column ≡ true
    → 1 ≤ d
    → d ≤ 90
    → (e : Extended) × ((extend_premium_trial env user (some (pos d))).0 ≡ extended e)
unfolding build_admin_user_trial_display
offer_is_honoured env user d offer col low high =
    elim (Option-cases (workflow_access_reason env user)) [
      | inl plain ↦ (
        extension env user d,
        granted env user d plain
            (offered_state (get_trial_state env user absent) (user_has_trial_paused_mt5 env user)
              (get_trial_state env user absent).state (rw plain at offer))
            col low high,
      )
      | inr (reason, why) ↦ cc (rw why at offer)
    ]

-- While the trial is active the panel offers no extension, even to a user with an MT5 account that the trial has paused, to whom an extension by 1 to 90 days is granted.
pub offer_missing :
    (env : Env) (user : User) (d : ℕ)
    → workflow_access_reason env user ≡ none
    → (get_trial_state env user absent).state ≡ active
    → user_has_trial_paused_mt5 env user ≡ true
    → env.premium_trial_column ≡ true
    → 1 ≤ d
    → d ≤ 90
    → ((build_admin_user_trial_display env user).can_extend ≡ false)
      × ((e : Extended) × ((extend_premium_trial env user (some (pos d))).0 ≡ extended e))
unfolding build_admin_user_trial_display
offer_missing env user d plain trial stopped col low high = (
  simp (plain, trial),
  (extension env user d, granted env user d plain (inr stopped) col low high),
)
