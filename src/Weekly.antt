-- ===== src/Weekly.antt =====
-- helpers/weekly_ai_queue.py: queueing a weekly review once trades have come in. What ai_service.py tells
-- of the account, and how the commands of Redis and the publishing of the task fare, are arguments.
mod Queued
mod Examples
use fxjournal.Prelude.{
  ℕ, Bool, true, false, ◌||◌, not, Option, none, some, List, [], ◌∷◌, ◌++◌, ltb, if◌then◌else◌,
  is_some,
}
use fxjournal.Prelude.Text.{Text, codes}
use fxjournal.Cache.{
  Link, Redis, ai_status_failed_ttl, ai_status_queued_ttl, answer_lost, answered, claim_ai_status,
  set_ai_status, unreached,
}

-- What ai_service.py tells; `period` is the key of the status of its latest week of trades.
pub record Account : Type 0 where
  pub is_known : Bool
  pub period : Option Text
  pub has_review : Bool
  pub should_generate : Bool
  pub past_cutoff : Bool
  pub closed_trade_ideas : ℕ

abbrev pub min_closed_trades_for_advice : ℕ
min_closed_trades_for_advice = 1

abbrev pub queued_status : Text
queued_status = codes "queued"

abbrev pub failed_status : Text
failed_status = codes "failed"

-- Whether nothing stands against a review of the period.
abbrev pub is_eligible : Account → Bool
is_eligible a =
    if a.has_review
    then false
    else if not a.should_generate
    then false
    else if not a.past_cutoff
    then false
    else not (ltb a.closed_trade_ideas min_closed_trades_for_advice)

-- The tasks that workers will take, by the key of their period.
abbrev pub publish : Link → List Text → Text → List Text
publish answered tasks key = tasks ++ key ∷ []
publish unreached tasks key = tasks
publish answer_lost tasks key = tasks ++ key ∷ []

abbrev pub is_answered : Link → Bool
is_answered answered = true
is_answered _ = false

-- How the three calls fare: the claim, the publishing and the note of its failure.
pub record Links : Type 0 where
  pub claim : Link
  pub delay : Link
  pub note : Link

module _ (R : Redis) where
  pub record Queue : Type 0 where
    pub store : R.Store
    pub tasks : List Text

  abbrev pub after_publish : Links → Queue → ℕ → Text → R.Store → Queue × Bool
  after_publish links q t key s =
      let tasks = publish links.delay q.tasks key in
      if is_answered links.delay then (record { store = s; tasks = tasks }, true) else (
        record {
          store = (set_ai_status R links.note s t key failed_status ai_status_failed_ttl).0;
          tasks = tasks;
        },
        false,
      )

  abbrev pub after_claim : Links → Queue → ℕ → Text → R.Store × Option Bool → Queue × Bool
  after_claim links q t key (s, some true) = after_publish links q t key s
  after_claim links q t key (s, some false) = (record { store = s; tasks = q.tasks }, false)
  after_claim links q t key (s, none) = (record { store = s; tasks = q.tasks }, false)

  abbrev pub claim_period : Links → Account → Queue → ℕ → Option Text → Queue × Bool
  claim_period links a q t none = (q, false)
  claim_period links a q t (some key) =
      if is_eligible a
      then after_claim links q t key
          (claim_ai_status R links.claim q.store t key queued_status ai_status_queued_ttl)
      else (q, false)

  unfoldable pub queue_weekly_ai_review_after_ingest : Links → Account → Queue → ℕ → Queue × Bool
  queue_weekly_ai_review_after_ingest links a q t =
      if a.is_known then claim_period links a q t a.period else (q, false)
