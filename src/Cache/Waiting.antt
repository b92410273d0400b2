-- ===== src/Cache/Waiting.antt =====
-- celery_workers/cache.py: waiting for the lock of the MT5 runtime.
use fxjournal.Prelude.{
  ℕ, zero, suc, ◌+◌, ◌*◌, ◌-◌, ◌≤◌, ◌<◌, ◌≡◌, ◌≢◌, ◌∙◌, refl, Bool, true, false, none, some, ltb,
  leb, if◌then◌else◌, is_some, arith, Bool-cases, Option-cases, inl, inr,
}
use fxjournal.Prelude.Text.{Text}
use fxjournal.Cache.{
  Link, Redis, World, Acquired, answer, answered, unreached, answer_lost, unavailable, claim_lock,
  run_redis, no_fuel, claimed_or, sleep_for, wait_for_lock, acquire_mt5_global_lock,
  mt5_global_lock_key,
}
use fxjournal.Cache.Server.{RedisLaws}

module _ (R : Redis) where
  -- What the end of a call says of the lock, given the deadline and the token.
  abbrev pub IsHonest : World R → ℕ → Text → Acquired R → Type 0
  IsHonest w deadline token no_fuel = true ≡ false
  IsHonest w deadline token (answer true s t) = R.get s t mt5_global_lock_key ≡ some token
  IsHonest w deadline token (answer false s t) =
      (deadline ≤ t) × (is_some (R.get s t mt5_global_lock_key) ≡ true)
  IsHonest w deadline token (unavailable s t) = w.link t ≢ answered

module _ (R : Redis) (laws : RedisLaws R) where
  get-claimed_now :
      (s : R.Store) (t : ℕ) (k v : Text) (ttl : ℕ)
      → 1 ≤ ttl
      → R.get s t k ≡ none
      → R.get (R.set_nx s t k v ttl).0 t k ≡ some v
  get-claimed_now s t k v ttl h free =
      let early : ltb t (t + 1000 * ttl) ≡ true = ground arith in
      laws.get-set_nx s t t k v ttl free (omega arith) ∙ rw early refl

  claimed_or-true :
      (s : R.Store) (attempt : R.Store × Bool) (t : ℕ) (rest : Acquired R)
      → attempt.1 ≡ true
      → claimed_or R (run_redis R answered s attempt) t rest ≡ answer true attempt.0 t
  claimed_or-true s (after, true) t rest h = refl
  claimed_or-true s (after, false) t rest h = cc

  not_answered : (l k : Link) → l ≡ k → k ≢ answered → l ≢ answered
  not_answered l k e h = rw e h

  -- One attempt, and what follows a refused one.
  attempt-IsHonest :
      (w : World R) (s : R.Store) (t deadline : ℕ) (token : Text) (ttl : ℕ)
      (rest : R.Store → Acquired R)
      → 1 ≤ ttl
      → ((held : R.Store)
          → is_some (R.get held t mt5_global_lock_key) ≡ true
          → IsHonest R w deadline token (rest held))
      → let attempt = claim_lock R (w.link t) s t mt5_global_lock_key token ttl in
        IsHonest R w deadline token (claimed_or R attempt t (rest attempt.0))
  unfolding claim_lock
  attempt-IsHonest w s t deadline token ttl rest h next = by_link (w.link t) refl
    where
      by_link :
          (l : Link)
          → w.link t ≡ l
          → let attempt = claim_lock R l s t mt5_global_lock_key token ttl in
            IsHonest R w deadline token (claimed_or R attempt t (rest attempt.0))
      by_link answered same = elim (Option-cases (R.get s t mt5_global_lock_key)) [
        | inl free ↦
            rw
              (claimed_or-true s (R.set_nx s t mt5_global_lock_key token ttl) t
                (rest (R.set_nx s t mt5_global_lock_key token ttl).0)
                (laws.set_nx-free s t mt5_global_lock_key token ttl free))
              (get-claimed_now s t mt5_global_lock_key token ttl h free)
        | inr (v, held) ↦
            rw (laws.set_nx-taken s t mt5_global_lock_key token v ttl held) (next s (rw held refl))
      ]
      by_link unreached same = not_answered (w.link t) unreached same (λ e. cc)
      by_link answer_lost same = not_answered (w.link t) answer_lost same (λ e. cc)

  wait_for_lock-IsHonest :
      (w : World R) (fuel : ℕ) (s : R.Store) (t deadline : ℕ) (token : Text) (ttl poll_interval : ℕ)
      → 1 ≤ ttl
      → deadline - t < fuel
      → is_some (R.get s t mt5_global_lock_key) ≡ true
      → IsHonest R w deadline token (wait_for_lock R w fuel s t deadline token ttl poll_interval)
  unfolding wait_for_lock
  wait_for_lock-IsHonest w zero s t deadline token ttl poll h enough busy = absurd (omega arith)
  wait_for_lock-IsHonest w (suc fuel) s t deadline token ttl poll h enough busy =
      elim (Bool-cases (ltb t deadline)) [
        | inl early ↦ rw early (
            attempt-IsHonest w (w.others t s) (t + sleep_for poll + w.late t) deadline token ttl
              (λ after.
                wait_for_lock R w fuel after (t + sleep_for poll + w.late t) deadline token ttl
                  poll)
              h
              (λ held still.
                wait_for_lock-IsHonest w fuel held _ deadline token ttl poll h (ground arith)
                  still))
        | inr over ↦ rw over (ground arith, busy)
      ]

  after_first :
      (w : World R) (held : R.Store) (t : ℕ) (token : Text) (ttl wait_seconds poll : ℕ)
      → 1 ≤ ttl
      → is_some (R.get held t mt5_global_lock_key) ≡ true
      → IsHonest R w (t + wait_seconds) token (
          if leb wait_seconds 0
          then answer false held t
          else wait_for_lock R w (suc wait_seconds) held t (t + wait_seconds) token ttl poll)
  after_first w held t token ttl wait_seconds poll h busy = elim (Bool-cases (leb wait_seconds 0)) [
    | inl at_once ↦ rw at_once (ground arith, busy)
    | inr waits ↦ rw waits (
        wait_for_lock-IsHonest w (suc wait_seconds) held t (t + wait_seconds) token ttl poll h
          (omega arith) busy)
  ]

  -- Whatever other processes do meanwhile, however late the sleeps end and however the commands fare, a call with a positive time to live ends within one look per millisecond of waiting and one more; it says true only where the lock is then held by the token, and false only where the time to wait has passed and the lock is then held by someone; and it raises only where its last command was not answered.
  pub acquire_mt5_global_lock-IsHonest :
      (w : World R) (s : R.Store) (t : ℕ) (token : Text) (ttl wait_seconds poll_interval : ℕ)
      → 1 ≤ ttl
      → IsHonest R w
          (t + wait_seconds)
          token
          (acquire_mt5_global_lock R w (suc wait_seconds) s t token ttl wait_seconds poll_interval)
  unfolding acquire_mt5_global_lock
  acquire_mt5_global_lock-IsHonest w s t token ttl wait_seconds poll h =
      attempt-IsHonest w s t (t + wait_seconds) token ttl
        (λ after.
          if leb wait_seconds 0
          then answer false after t
          else wait_for_lock R w (suc wait_seconds) after t (t + wait_seconds) token ttl poll)
        h (λ held busy. after_first w held t token ttl wait_seconds poll h busy)
