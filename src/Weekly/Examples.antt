-- ===== src/Weekly/Examples.antt =====
-- The queueing of a weekly review at concrete inputs.
use fxjournal.Prelude.{ℕ, ◌≡◌, refl, Bool, true, false, none, some, [], arith}
use fxjournal.Prelude.Text.{codes}
use fxjournal.Cache.{answer_lost, answered, claim_ai_status}
use fxjournal.Cache.Server.{memory, memory_laws}
use fxjournal.Weekly.{Account, Links, Queue, queue_weekly_ai_review_after_ingest}
use fxjournal.Weekly.Queued.{lost_claim_blocks, queued_once}

abbrev ready : Account
ready = record {
  is_known = true;
  period = some (codes "week");
  has_review = false;
  should_generate = true;
  past_cutoff = true;
  closed_trade_ideas = 5;
}

abbrev all_answered : Links
all_answered = record { claim = answered; delay = answered; note = answered }

abbrev claim_lost : Links
claim_lost = record { claim = answer_lost; delay = answered; note = answered }

abbrev nothing_queued : Queue memory
nothing_queued = record { store = λ _. none; tasks = [] }

abbrev ingest : Links → Queue memory → ℕ → Queue memory × Bool
ingest links q t = queue_weekly_ai_review_after_ingest memory links ready q t

first_queues : (ingest all_answered nothing_queued 10).1 ≡ true
unfolding queue_weekly_ai_review_after_ingest claim_ai_status
first_queues = refl

queued_once_example :
    ingest all_answered (ingest all_answered nothing_queued 10).0 500000
    ≡ ((ingest all_answered nothing_queued 10).0, false)
queued_once_example =
    queued_once memory memory_laws all_answered all_answered ready nothing_queued 10 500000
      first_queues (omega arith) (omega arith)

lost_claim_blocks_example :
    ((ingest claim_lost nothing_queued 10).0.tasks ≡ [])
    × (ingest all_answered (ingest claim_lost nothing_queued 10).0 500000
        ≡ ((ingest claim_lost nothing_queued 10).0, false))
lost_claim_blocks_example =
    lost_claim_blocks memory memory_laws claim_lost all_answered ready nothing_queued 10 500000
      (codes "week") refl refl refl refl refl (omega arith) (omega arith)
