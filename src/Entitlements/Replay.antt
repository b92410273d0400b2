-- ===== src/Entitlements/Replay.antt =====
-- helpers/entitlements.py: which replay timeframes and bars a user may open. A trade is given by its
-- account and, where the code reads it, its closing time.
use fxjournal.Prelude.{
  ℕ, ◌+◌, ◌*◌, ◌≤◌, ◌<◌, ◌≡◌, refl, sym, ◌↔◌, ◌⊎◌, inl, inr, Bool, true, false, Option, none, some,
  is_some, List, [], ◌∷◌, if◌then◌else◌, arith, Option-cases, Bool-cases,
}
use fxjournal.Prelude.Int.{pos, ltb_ℤ}
use fxjournal.Prelude.Text.{Text, codes, contains_text, same_text, strip, upper}
use fxjournal.Models.{User}
use fxjournal.Entitlements.{
  Env, AccountArg, Label, admin, schema_compat, grandfathered, plan_paid, active, trial_active,
  standard_replay, trade_not_closed, trade_too_old, within_free_age_limit, Gate, day, elapsed_days,
  get_trial_state, user_plan_tier, workflow_access_reason,
}

abbrev pub free_replay_timeframes : List Text
free_replay_timeframes = codes "M5" ∷ codes "M15" ∷ []

-- TRADER_REPLAY_TIMEFRAMES and PRO_REPLAY_TIMEFRAMES.
abbrev pub trader_replay_timeframes : List Text
trader_replay_timeframes = codes "M1" ∷ codes "M5" ∷ codes "M15" ∷ []

abbrev pub free_max_trade_age_days : ℕ
free_max_trade_age_days = 90

abbrev pub trader_max_trade_age_days : ℕ
trader_max_trade_age_days = 365

-- `required_tier` and `upgrade_url` are set together: `needs_trader` stands for both.
pub record ReplayAccess : Type 0 where
  pub allowed : Bool
  pub needs_trader : Bool
  pub reason : Label

abbrev is_active : Label → Bool
is_active active = true
is_active _ = false

abbrev replay_by_trial : Label → ReplayAccess
replay_by_trial state =
    if is_active state
    then record { allowed = true; needs_trader = false; reason = trial_active }
    else record { allowed = false; needs_trader = true; reason = state }

abbrev replay_access : Env → User → AccountArg → Option Label → ReplayAccess
replay_access env user account (some reason) = record {
  allowed = true;
  needs_trader = false;
  reason = reason;
}
replay_access env user account none = replay_by_trial (get_trial_state env user account).state

unfoldable pub can_access_advanced_replay : Env → User → Text → AccountArg → ReplayAccess
can_access_advanced_replay env user timeframe account =
    if contains_text (upper (strip timeframe)) free_replay_timeframes
    then record { allowed = true; needs_trader = false; reason = standard_replay }
    else replay_access env user account (workflow_access_reason env user)

abbrev bars_by_age : Bool → Gate
bars_by_age true = record { allowed = false; reason = trade_too_old }
bars_by_age false = record { allowed = true; reason = within_free_age_limit }

abbrev bars_gate : Env → Option ℕ → Option Label → Gate
bars_gate env closed_at (some reason) = record { allowed = true; reason = reason }
bars_gate env none none = record { allowed = false; reason = trade_not_closed }
bars_gate env (some closed_at) none =
    bars_by_age (ltb_ℤ (pos free_max_trade_age_days) (elapsed_days env.now closed_at))

unfoldable pub can_generate_replay_bars : Env → User → Option ℕ → Gate
can_generate_replay_bars env user closed_at =
    bars_gate env closed_at (workflow_access_reason env user)

pub data ReplayLabel : Type 0 where
  multi_timeframe_replay advanced_replay advanced_replay_trial standard : ReplayLabel

pub record ReplayEntitlement : Type 0 where
  pub allowed_timeframes : List Text
  pub max_trade_age_days : Option ℕ
  pub label : ReplayLabel

abbrev unlimited_replay : ReplayEntitlement
unlimited_replay = record {
  allowed_timeframes = trader_replay_timeframes;
  max_trade_age_days = none;
  label = multi_timeframe_replay;
}

abbrev advanced : ReplayLabel → ReplayEntitlement
advanced label = record {
  allowed_timeframes = trader_replay_timeframes;
  max_trade_age_days = some trader_max_trade_age_days;
  label = label;
}

abbrev entitlement_by_trial : Label → ReplayEntitlement
entitlement_by_trial state = if is_active state then advanced advanced_replay_trial else record {
  allowed_timeframes = free_replay_timeframes;
  max_trade_age_days = some free_max_trade_age_days;
  label = standard;
}

abbrev entitlement : Env → User → AccountArg → Option Label → ReplayEntitlement
entitlement env user account (some admin) = unlimited_replay
entitlement env user account (some schema_compat) = advanced advanced_replay
entitlement env user account (some plan_paid) =
    if same_text (user_plan_tier env user) (codes "pro")
    then unlimited_replay
    else advanced advanced_replay
entitlement env user account (some grandfathered) = advanced advanced_replay
entitlement env user account _ = entitlement_by_trial (get_trial_state env user account).state

unfoldable pub get_replay_entitlement : Env → User → AccountArg → ReplayEntitlement
get_replay_entitlement env user account =
    entitlement env user account (workflow_access_reason env user)

-- Both functions agree on the trader's timeframes, whatever the trial's state.
by_trial_agree :
    (state : Label) (tf : Text)
    → contains_text tf trader_replay_timeframes ≡ true
    → contains_text tf free_replay_timeframes ≡ false
    → (replay_by_trial state).allowed
      ≡ contains_text tf (entitlement_by_trial state).allowed_timeframes
by_trial_agree active tf h k = rw h refl
by_trial_agree _ tf h k = rw k refl

-- The free timeframes are in every trial's list.
by_trial_free :
    (state : Label) (tf : Text)
    → contains_text tf trader_replay_timeframes ≡ true
    → contains_text tf free_replay_timeframes ≡ true
    → contains_text tf (entitlement_by_trial state).allowed_timeframes ≡ true
by_trial_free active tf h k = h
by_trial_free _ tf h k = k

timeframes_of_reason :
    (env : Env) (user : User) (account : AccountArg) (reason : Label)
    → workflow_access_reason env user ≡ some reason
    → (entitlement env user account (some reason)).allowed_timeframes ≡ trader_replay_timeframes
unfolding workflow_access_reason
timeframes_of_reason env user account reason h = ground arith

-- For the timeframes M1, M5 and M15, in any case and with spaces around them, the check of a single timeframe passes exactly where the list of the user's entitlement holds it.
pub entitlement_matches_access :
    (env : Env) (user : User) (account : AccountArg) (timeframe : Text)
    → contains_text (upper (strip timeframe)) trader_replay_timeframes ≡ true
    → (can_access_advanced_replay env user timeframe account).allowed
      ≡ contains_text
          (upper (strip timeframe))
          (get_replay_entitlement env user account).allowed_timeframes
unfolding can_access_advanced_replay get_replay_entitlement
entitlement_matches_access env user account timeframe h =
    elim (Bool-cases (contains_text tf free_replay_timeframes)) [
      | inl free ↦ elim (Option-cases (workflow_access_reason env user)) [
        | inl plain ↦ rw (free, plain) (sym (by_trial_free state tf h free))
        | inr (reason, why) ↦
            rw (free, why) (rw (timeframes_of_reason env user account reason why) (sym h))
      ]
      | inr other ↦ elim (Option-cases (workflow_access_reason env user)) [
        | inl plain ↦ rw (other, plain) (by_trial_agree state tf h other)
        | inr (reason, why) ↦
            rw (other, why) (rw (timeframes_of_reason env user account reason why) (sym h))
      ]
    ]
  where
    tf : Text
    tf = upper (strip timeframe)

    state : Label
    state = (get_trial_state env user account).state

-- Bars are generated exactly for users with an access reason and for trades closed less than ninety-one days ago.
pub bars_exactly :
    (env : Env) (user : User) (closed_at : ℕ)
    → ((can_generate_replay_bars env user (some closed_at)).allowed ≡ true)
      ↔ ((is_some (workflow_access_reason env user) ≡ true) ⊎ (env.now < closed_at + 91 * day))
unfolding can_generate_replay_bars elapsed_days
bars_exactly env user closed_at = elim (Option-cases (workflow_access_reason env user)) [
  | inl plain ↦ rw plain (ground arith)
  | inr (reason, why) ↦ rw why (λ h. inl refl, λ h. refl)
]

-- A user in an active trial is told of a year of replay, and yet gets no bars for a trade that was closed ninety-one days ago or earlier.
pub trial_bars_gap :
    (env : Env) (user : User) (account : AccountArg) (closed_at : ℕ)
    → workflow_access_reason env user ≡ none
    → (get_trial_state env user account).state ≡ active
    → closed_at + 91 * day ≤ env.now
    → ((get_replay_entitlement env user account).max_trade_age_days ≡ some 365)
      × ((can_generate_replay_bars env user (some closed_at)).allowed ≡ false)
unfolding can_generate_replay_bars elapsed_days get_replay_entitlement
trial_bars_gap env user account closed_at plain trial old =
    (simp (plain, trial), rw plain (ground arith))
