-- ===== src/Cache.antt =====
-- celery_workers/cache.py: the locks and the status of the weekly review, which live in Redis. Times
-- are milliseconds; Redis counts expiry in seconds.
pub mod Server
pub mod Exclusion
pub mod Waiting
mod Examples
use fxjournal.Prelude.{
  ℕ, zero, suc, ◌+◌, ◌*◌, ◌≡◌, refl, Bool, true, false, Option, none, some, List, [], ◌∷◌, ◌++◌,
  ltb, leb, if◌then◌else◌, max,
}
use fxjournal.Prelude.Text.{Text, codes, same_text}

-- What the library `redis` gives to this code: values that expire, in a store that one command at a
-- time reads or changes. A command is given the time at which the server runs it.
pub record Redis : Type 1 where
  pub Store : Type 0
  pub get : Store → ℕ → Text → Option Text
  -- `SET key value EX ttl NX`, with whether it was set.
  pub set_nx : Store → ℕ → Text → Text → ℕ → Store × Bool
  -- `SETEX key ttl value`.
  pub set_ex : Store → ℕ → Text → Text → ℕ → Store
  pub del : Store → Text → Store

-- How a command fares: it runs and is answered, never reaches the server, or runs with its answer
-- lost. In the last two cases the client raises.
pub data Link : Type 0 where
  answered unreached answer_lost : Link

abbrev pub ai_status_queued_ttl : ℕ
ai_status_queued_ttl = 900

abbrev pub ai_status_failed_ttl : ℕ
ai_status_failed_ttl = 600

abbrev pub mt5_global_lock_key : Text
mt5_global_lock_key = codes "mt5_global_lock"

abbrev pub sleep_for : ℕ → ℕ
sleep_for poll_interval = max poll_interval 50

module _ (R : Redis) where
  -- `none` is the CacheUnavailableError that an error of Redis becomes.
  abbrev pub run_redis : {A : Type 0} → Link → R.Store → R.Store × A → R.Store × Option A
  run_redis answered _ (after, a) = (after, some a)
  run_redis unreached before _ = (before, none)
  run_redis answer_lost _ (after, _) = (after, none)

  unfoldable pub claim_lock : Link → R.Store → ℕ → Text → Text → ℕ → R.Store × Option Bool
  claim_lock link s t lock_key token ttl = run_redis link s (R.set_nx s t lock_key token ttl)

  abbrev is_token : Option Text → Text → Bool
  is_token none _ = false
  is_token (some held) token = same_text held token

  -- `_LOCK_RELEASE_SCRIPT`, which the server runs as one command.
  unfoldable pub release_script : R.Store → ℕ → Text → Text → R.Store × ℕ
  release_script s t lock_key token =
      if is_token (R.get s t lock_key) token then (R.del s lock_key, 1) else (s, 0)

  unfoldable pub release_lock : Link → R.Store → ℕ → Text → Text → R.Store × Option ℕ
  release_lock link s t lock_key token = run_redis link s (release_script s t lock_key token)

  unfoldable pub peek_lock_holder : Link → R.Store → ℕ → Text → Option (Option Text)
  peek_lock_holder link s t lock_key = (run_redis link s (s, R.get s t lock_key)).1

  -- What the process does not decide: how a command at a time fares, and of the sleep from a time on
  -- what others do to the store meanwhile and by how much it overshoots.
  pub record World : Type 0 where
    pub link : ℕ → Link
    pub others : ℕ → R.Store → R.Store
    pub late : ℕ → ℕ

  -- How the call ends: with an answer, with a CacheUnavailableError, or out of fuel, each but the last
  -- with the store and the time.
  pub data Acquired : Type 0 where
    answer : Bool → R.Store → ℕ → Acquired
    unavailable : R.Store → ℕ → Acquired
    no_fuel : Acquired

  abbrev pub claimed_or : R.Store × Option Bool → ℕ → Acquired → Acquired
  claimed_or (s, some true) t _ = answer true s t
  claimed_or (_, some false) _ rest = rest
  claimed_or (s, none) t _ = unavailable s t

  -- `while time.monotonic() < deadline`.
  unfoldable pub wait_for_lock : World → ℕ → R.Store → ℕ → ℕ → Text → ℕ → ℕ → Acquired
  wait_for_lock w zero s t deadline token ttl poll_interval = no_fuel
  wait_for_lock w (suc fuel) s t deadline token ttl poll_interval =
      let woken = t + sleep_for poll_interval + w.late t in
      let attempt = claim_lock (w.link woken) (w.others t s) woken mt5_global_lock_key token ttl in
      let rest = wait_for_lock w fuel attempt.0 woken deadline token ttl poll_interval in
      if ltb t deadline then claimed_or attempt woken rest else answer false s t

  -- A claim and the look at the clock after it are one step.
  unfoldable pub acquire_mt5_global_lock : World → ℕ → R.Store → ℕ → Text → ℕ → ℕ → ℕ → Acquired
  acquire_mt5_global_lock w fuel s t token ttl wait_seconds poll_interval =
      let attempt = claim_lock (w.link t) s t mt5_global_lock_key token ttl in
      claimed_or attempt t (
        if leb wait_seconds 0
        then answer false attempt.0 t
        else wait_for_lock w fuel attempt.0 t (t + wait_seconds) token ttl poll_interval)

  unfoldable pub claim_ai_status : Link → R.Store → ℕ → Text → Text → ℕ → R.Store × Option Bool
  claim_ai_status link s t key status ttl = run_redis link s (R.set_nx s t key status ttl)

  unfoldable pub set_ai_status : Link → R.Store → ℕ → Text → Text → ℕ → R.Store × Option Bool
  set_ai_status link s t key status ttl = run_redis link s (R.set_ex s t key status ttl, true)

  unfoldable pub clear_ai_status : Link → R.Store → Text → R.Store × Option Bool
  clear_ai_status link s key = run_redis link s (R.del s key, true)
