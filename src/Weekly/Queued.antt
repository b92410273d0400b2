-- ===== src/Weekly/Queued.antt =====
-- helpers/weekly_ai_queue.py: a review is queued once.
use fxjournal.Prelude.{
  ℕ, ◌+◌, ◌≤◌, ◌<◌, ◌≡◌, ◌∙◌, refl, sym, ap, Bool, true, false, Option, none, some, [], ◌∷◌, ◌++◌,
  ltb, if◌then◌else◌, if_cases, arith, Option-cases, inl, inr,
}
use fxjournal.Prelude.Text.{Text}
use fxjournal.Cache.{
  Link, Redis, ai_status_queued_ttl, answered, answer_lost, unreached, claim_ai_status, run_redis,
}
use fxjournal.Cache.Server.{RedisLaws}
use fxjournal.Weekly.{
  Account, is_answered, publish, Links, Queue, after_claim, after_publish, claim_period,
  is_eligible, queue_weekly_ai_review_after_ingest, queued_status,
}

soon : (u v : ℕ) → u < v → ltb u v ≡ true
soon u v h = ground arith

module _ (R : Redis) (laws : RedisLaws R) where
  -- A period whose key holds a status is not queued, however the commands fare.
  taken_stays :
      (links : Links) (a : Account) (q : Queue R) (t : ℕ) (key status : Text)
      → R.get q.store t key ≡ some status
      → after_claim R links q t key
          (claim_ai_status R links.claim q.store t key queued_status ai_status_queued_ttl)
        ≡ (q, false)
  unfolding claim_ai_status
  taken_stays links a q t key status held = go links.claim
    where
      go :
          (link : Link)
          → after_claim R links q t key
              (claim_ai_status R link q.store t key queued_status ai_status_queued_ttl)
            ≡ (q, false)
      go answered =
          ap (λ (p : R.Store × Bool). after_claim R links q t key (run_redis R answered q.store p))
            (laws.set_nx-taken q.store t key queued_status status ai_status_queued_ttl held)
      go unreached = refl
      go answer_lost =
          ap
            (λ (p : R.Store × Bool).
              after_claim R links q t key (run_redis R answer_lost q.store p))
            (laws.set_nx-taken q.store t key queued_status status ai_status_queued_ttl held)

  held_stays :
      (links : Links) (a : Account) (q : Queue R) (t : ℕ) (key status : Text)
      → a.period ≡ some key
      → R.get q.store t key ≡ some status
      → queue_weekly_ai_review_after_ingest R links a q t ≡ (q, false)
  unfolding queue_weekly_ai_review_after_ingest
  held_stays links a q t key status same held =
      if_cases (λ (r : Queue R × Bool). r ≡ (q, false)) a.is_known _ _
        (λ _.
          ap (claim_period R links a q t) same
          ∙ if_cases (λ (r : Queue R × Bool). r ≡ (q, false)) (is_eligible a) _ _
              (λ _. taken_stays links a q t key status held) (λ _. refl))
        (λ _. refl)

  -- What a claim of a free key leaves there, where it reached the server.
  claim_holds :
      (s : R.Store) (t u : ℕ) (key : Text)
      → R.get s t key ≡ none
      → t ≤ u
      → u < t + 900000
      → R.get (R.set_nx s t key queued_status ai_status_queued_ttl).0 u key ≡ some queued_status
  claim_holds s t u key free le lt =
      laws.get-set_nx s t u key queued_status ai_status_queued_ttl free le
      ∙ rw (soon u (t + 900000) lt) refl

  claimed_holds :
      (link : Link) (s : R.Store) (t u : ℕ) (key : Text)
      → (claim_ai_status R link s t key queued_status ai_status_queued_ttl).1 ≡ some true
      → t ≤ u
      → u < t + 900000
      → R.get (claim_ai_status R link s t key queued_status ai_status_queued_ttl).0 u key
        ≡ some queued_status
  unfolding claim_ai_status
  claimed_holds answered s t u key won le lt = elim (Option-cases (R.get s t key)) [
    | inl free ↦ claim_holds s t u key free le lt
    | inr (held, e) ↦ absurd (
        lost (
          sym (
            ap (λ (p : R.Store × Bool). some p.1)
              (laws.set_nx-taken s t key queued_status held ai_status_queued_ttl e))
          ∙ won))
  ]
    where
      lost : some false ≡ some true → ⊥
      lost h = cc
  claimed_holds unreached s t u key won le lt = cc
  claimed_holds answer_lost s t u key won le lt = cc

  -- What a call leaves whose claim was made and not answered.
  left :
      (links : Links) (a : Account) (q : Queue R) (t : ℕ) (key : Text)
      → links.claim ≡ answer_lost
      → a.is_known ≡ true
      → a.period ≡ some key
      → is_eligible a ≡ true
      → queue_weekly_ai_review_after_ingest R links a q t ≡ (
        record {
          store = (R.set_nx q.store t key queued_status ai_status_queued_ttl).0;
          tasks = q.tasks;
        },
        false,
      )
  unfolding queue_weekly_ai_review_after_ingest claim_ai_status
  left links a q t key lost known same eligible =
      ap (λ (b : Bool). if b then claim_period R links a q t a.period else (q, false)) known
      ∙ ap (claim_period R links a q t) same
      ∙ ap
          (λ (b : Bool).
            if b
            then after_claim R links q t key
                (claim_ai_status R links.claim q.store t key queued_status ai_status_queued_ttl)
            else (q, false))
          eligible
      ∙ ap
          (λ (l : Link).
            after_claim R links q t key
              (claim_ai_status R l q.store t key queued_status ai_status_queued_ttl))
          lost

  -- What an answer tells: a true one means that the task of the period was published, and that its
  -- status holds for 900 seconds.
  abbrev Means : Account → Queue R → ℕ → Queue R × Bool → Type 0
  Means a q t r =
      r.1 ≡ true
      → (key : Text) × (a.period ≡ some key)
        × (r.0.tasks ≡ q.tasks ++ key ∷ [])
        × ((u : ℕ) → t ≤ u → u < t + 900000 → R.get r.0.store u key ≡ some queued_status)

  false-Means : (a : Account) (q next : Queue R) (t : ℕ) → Means a q t (next, false)
  false-Means a q next t h = absurd (never h)
    where
      never : false ≡ true → ⊥
      never e = cc

  publish-Means :
      (links : Links) (a : Account) (q : Queue R) (t : ℕ) (key : Text) (s : R.Store)
      → a.period ≡ some key
      → ((u : ℕ) → t ≤ u → u < t + 900000 → R.get s u key ≡ some queued_status)
      → Means a q t (after_publish R links q t key s)
  publish-Means links a q t key s same holds =
      if_cases (Means a q t) (is_answered links.delay) _ _
        (λ e _. (key, same, published links.delay e, holds)) (λ _. false-Means a q _ t)
    where
      published : (l : Link) → is_answered l ≡ true → publish l q.tasks key ≡ q.tasks ++ key ∷ []
      published answered e = refl
      published unreached e = cc
      published answer_lost e = cc

  claim-Means :
      (links : Links) (a : Account) (q : Queue R) (t : ℕ) (key : Text) (s : R.Store)
      (o : Option Bool)
      → a.period ≡ some key
      → (o ≡ some true → (u : ℕ) → t ≤ u → u < t + 900000 → R.get s u key ≡ some queued_status)
      → Means a q t (after_claim R links q t key (s, o))
  claim-Means links a q t key s none same holds = false-Means a q _ t
  claim-Means links a q t key s (some false) same holds = false-Means a q _ t
  claim-Means links a q t key s (some true) same holds =
      publish-Means links a q t key s same (holds refl)

  period-Means :
      (links : Links) (a : Account) (q : Queue R) (t : ℕ) (period : Option Text)
      → a.period ≡ period
      → Means a q t (claim_period R links a q t period)
  period-Means links a q t none same = false-Means a q q t
  period-Means links a q t (some key) same =
      if_cases (Means a q t) (is_eligible a) _ _
        (λ _.
          claim-Means links a q t key _
            (claim_ai_status R links.claim q.store t key queued_status ai_status_queued_ttl).1 same
            (λ won u. claimed_holds links.claim q.store t u key won))
        (λ _. false-Means a q q t)

  call-Means :
      (links : Links) (a : Account) (q : Queue R) (t : ℕ)
      → Means a q t (queue_weekly_ai_review_after_ingest R links a q t)
  unfolding queue_weekly_ai_review_after_ingest
  call-Means links a q t =
      if_cases (Means a q t) a.is_known _ _ (λ _. period-Means links a q t a.period refl)
        (λ _. false-Means a q q t)

  -- After a call that answered true, no call for the same period queues another task within 900 seconds,
  -- however its commands fare.
  pub queued_once :
      (links later : Links) (a : Account) (q : Queue R) (t u : ℕ)
      → (queue_weekly_ai_review_after_ingest R links a q t).1 ≡ true
      → t ≤ u
      → u < t + 900000
      → queue_weekly_ai_review_after_ingest R later a
          (queue_weekly_ai_review_after_ingest R links a q t).0
          u
        ≡ ((queue_weekly_ai_review_after_ingest R links a q t).0, false)
  queued_once links later a q t u told le lt =
      let (key, same, published, holds) = call-Means links a q t told in
      held_stays later a (queue_weekly_ai_review_after_ingest R links a q t).0 u key queued_status
        same (holds u le lt)

  -- A claim whose answer is lost queues nothing, and for 900 seconds no call for the period queues it.
  pub lost_claim_blocks :
      (links later : Links) (a : Account) (q : Queue R) (t u : ℕ) (key : Text)
      → links.claim ≡ answer_lost
      → a.is_known ≡ true
      → a.period ≡ some key
      → is_eligible a ≡ true
      → R.get q.store t key ≡ none
      → t ≤ u
      → u < t + 900000
      → ((queue_weekly_ai_review_after_ingest R links a q t).0.tasks ≡ q.tasks)
        × (queue_weekly_ai_review_after_ingest R later a
              (queue_weekly_ai_review_after_ingest R links a q t).0
              u
            ≡ ((queue_weekly_ai_review_after_ingest R links a q t).0, false))
  lost_claim_blocks links later a q t u key lost known same eligible free le lt = (
    ap (λ (r : Queue R × Bool). r.0.tasks) (left links a q t key lost known same eligible),
    held_stays later a (queue_weekly_ai_review_after_ingest R links a q t).0 u key queued_status
        same
        (ap (λ (r : Queue R × Bool). R.get r.0.store u key)
            (left links a q t key lost known same eligible)
          ∙ claim_holds q.store t u key free le lt),
  )
