-- ===== src/Entitlements/Followup.antt =====
-- helpers/entitlements.py: the follow-up chat of a weekly review. The two counts that the code asks
-- of the message table are arguments: the user's messages since the trial began, and those of the
-- last minute; `none` is a query that raises, which the code counts as no message.
use fxjournal.Prelude.{
  ℕ, ◌-◌, ◌<◌, ◌≡◌, refl, ◌↔◌, ◌⊎◌, inl, inr, Bool, true, false, Option, none, some, is_some, leb,
  if◌then◌else◌, arith, Option-cases,
}
use fxjournal.Models.{User}
use fxjournal.Entitlements.{
  Env, AccountArg, Label, active, not_started, expired, paused, admin, schema_compat, grandfathered,
  plan_paid, trial_message_limit_reached, rate_limit_exceeded, Gate, get_trial_state, trial_gate,
  workflow_access_reason,
}

abbrev pub trial_message_limit : ℕ
trial_message_limit = 5

abbrev pub max_user_messages_per_minute : ℕ
max_user_messages_per_minute = 3

pub record Usage : Type 0 where
  pub used : ℕ
  pub limit : ℕ
  pub remaining : ℕ

abbrev pub count_or_zero : Option ℕ → ℕ
count_or_zero none = 0
count_or_zero (some n) = n

abbrev usage_of : ℕ → Usage
usage_of used = record {
  used = used;
  limit = trial_message_limit;
  remaining = trial_message_limit - used;
}

abbrev is_not_started : Label → Bool
is_not_started not_started = true
is_not_started _ = false

-- `counted since` is the number of the user's messages, from a start on if one is given.
unfoldable pub get_weekly_followup_message_usage :
    Env → User → AccountArg → (Option ℕ → Option ℕ) → Usage
get_weekly_followup_message_usage env user account counted =
    let trial = get_trial_state env user account in
    if is_some user.id
    then if is_not_started trial.state
      then usage_of 0
      else usage_of (count_or_zero (counted trial.started_at))
    else usage_of 0

-- What the page shows: whether the chat is open, and whether the message says that the trial ended.
pub record ChatAccess : Type 0 where
  pub allowed : Bool
  pub reason : Label
  pub trial_ended_message : Bool
  pub offers_waitlist : Bool

abbrev ended : Label → Bool
ended expired = true
ended paused = true
ended _ = false

abbrev chat_of_gate : Gate → ChatAccess
chat_of_gate g =
    if g.allowed
    then record {
      allowed = true;
      reason = g.reason;
      trial_ended_message = false;
      offers_waitlist = false;
    }
    else record {
      allowed = false;
      reason = g.reason;
      trial_ended_message = ended g.reason;
      offers_waitlist = true;
    }

abbrev chat_access : Env → User → AccountArg → Option Label → ChatAccess
chat_access env user account (some reason) = record {
  allowed = true;
  reason = reason;
  trial_ended_message = false;
  offers_waitlist = false;
}
chat_access env user account none =
    chat_of_gate (trial_gate (get_trial_state env user account).state)

unfoldable pub can_use_weekly_followup_chat : Env → User → AccountArg → ChatAccess
can_use_weekly_followup_chat env user account =
    chat_access env user account (workflow_access_reason env user)

abbrev is_unlimited : Label → Bool
is_unlimited admin = true
is_unlimited schema_compat = true
is_unlimited grandfathered = true
is_unlimited plan_paid = true
is_unlimited _ = false

pub data SendError : Type 0 where
  weekly_followup_trial_required weekly_followup_trial_limit_reached too_fast : SendError

pub record SendAccess : Type 0 where
  pub allowed : Bool
  pub reason : Label
  pub error : Option SendError

abbrev refuse : Label → SendError → SendAccess
refuse reason error = record { allowed = false; reason = reason; error = some error }

abbrev grant : Label → SendAccess
grant reason = record { allowed = true; reason = reason; error = none }

abbrev send_gate : ChatAccess → Usage → Option ℕ → SendAccess
send_gate access usage recent =
    if access.allowed
    then if is_unlimited access.reason
      then grant access.reason
      else if leb usage.limit usage.used
      then refuse trial_message_limit_reached weekly_followup_trial_limit_reached
      else if leb max_user_messages_per_minute (count_or_zero recent)
      then refuse rate_limit_exceeded too_fast
      else grant access.reason
    else refuse access.reason weekly_followup_trial_required

unfoldable pub can_send_weekly_followup_message :
    Env → User → AccountArg → (Option ℕ → Option ℕ) → Option ℕ → SendAccess
can_send_weekly_followup_message env user account counted recent =
    send_gate (can_use_weekly_followup_chat env user account)
      (get_weekly_followup_message_usage env user account counted) recent

-- The reasons for which access is not limited are the four access reasons.
workflow_access_reason-is_unlimited :
    (env : Env) (user : User) (reason : Label)
    → workflow_access_reason env user ≡ some reason
    → is_unlimited reason ≡ true
unfolding workflow_access_reason
workflow_access_reason-is_unlimited env user reason h = ground arith

limit-usage :
    (env : Env) (user : User) (account : AccountArg) (counted : Option ℕ → Option ℕ)
    → (get_weekly_followup_message_usage env user account counted).limit ≡ 5
unfolding get_weekly_followup_message_usage
limit-usage env user account counted = ground arith

send_gate-trial :
    (l : Label) (usage : Usage) (recent : Option ℕ)
    → usage.limit ≡ 5
    → ((send_gate (chat_of_gate (trial_gate l)) usage recent).allowed ≡ true)
      ↔ (((l ≡ active) ⊎ (l ≡ not_started)) × (usage.used < 5) × (count_or_zero recent < 3))
send_gate-trial active usage recent h = ground arith
send_gate-trial not_started usage recent h = ground arith
send_gate-trial _ usage recent h = ground arith

-- A message may be sent exactly if the user has an access reason, or the trial is active or not yet started, fewer than five messages count towards it, and fewer than three were sent in the last minute.
pub send_exactly :
    (env : Env) (user : User) (account : AccountArg) (counted : Option ℕ → Option ℕ)
    (recent : Option ℕ)
    → let s = (get_trial_state env user account).state in
      ((can_send_weekly_followup_message env user account counted recent).allowed ≡ true) ↔ (
        (is_some (workflow_access_reason env user) ≡ true)
        ⊎ (((s ≡ active) ⊎ (s ≡ not_started))
            × ((get_weekly_followup_message_usage env user account counted).used < 5)
            × (count_or_zero recent < 3)))
unfolding can_send_weekly_followup_message can_use_weekly_followup_chat
send_exactly env user account counted recent =
    elim (Option-cases (workflow_access_reason env user)) [
      | inl plain ↦ rw plain (
          ground (
            arith,
            send_gate-trial (get_trial_state env user account).state
                (get_weekly_followup_message_usage env user account counted) recent
                (limit-usage env user account counted),
          ))
      | inr (reason, privileged) ↦
          rw (privileged, workflow_access_reason-is_unlimited env user reason privileged)
            (λ h. inl refl, λ h. refl)
    ]
