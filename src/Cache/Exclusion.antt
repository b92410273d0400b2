-- ===== src/Cache/Exclusion.antt =====
-- celery_workers/cache.py: who holds a lock. The events are the commands of all processes, in the
-- order in which the server runs them.
use fxjournal.Prelude.{
  ℕ, ap, ltb, ◌+◌, ◌*◌, ◌≤◌, ◌<◌, ◌≡◌, ◌∙◌, refl, Bool, true, false, ◌&&◌, Option, none, some, List,
  [], ◌∷◌, arith, Bool-cases, inl, inr, if◌then◌else◌,
}
use fxjournal.Prelude.Text.{Text, same_text, same_text-eq, same_text_self}
use fxjournal.Cache.{
  Redis, Link, answered, unreached, answer_lost, claim_lock, release_lock, is_token, release_script,
}
use fxjournal.Cache.Server.{RedisLaws}

pub data Request : Type 0 where
  claim : ℕ → Request
  release : Request

pub record Event : Type 0 where
  pub at : ℕ
  pub link : Link
  pub key : Text
  pub token : Text
  pub request : Request

module _ (R : Redis) where
  abbrev pub is_true : Option Bool → Bool
  is_true none = false
  is_true (some b) = b

  -- The store after an event, and whether the event was a claim of a key that was told true.
  abbrev request_step : Request → R.Store → Event → R.Store × Bool
  request_step (claim ttl) s e =
      let done = claim_lock R e.link s e.at e.key e.token ttl in (done.0, is_true done.1)
  request_step release s e = ((release_lock R e.link s e.at e.key e.token).0, false)

  abbrev pub event_step : R.Store → Event → R.Store × Bool
  event_step s e = request_step e.request s e

  abbrev pub store_after : R.Store → List Event → R.Store
  store_after s [] = s
  store_after s (e ∷ es) = store_after (event_step s e).0 es

  -- How many of the events were told that they have claimed the key.
  abbrev pub grants : Text → R.Store → List Event → ℕ
  grants k s [] = 0
  grants k s (e ∷ es) =
      let rest = grants k (event_step s e).0 es in
      if same_text e.key k && (event_step s e).1 then 1 + rest else rest

  abbrev pub Holds : R.Store → Text → Text → ℕ → ℕ → Type 0
  Holds s k a from until = (u : ℕ) → from ≤ u → u < until → R.get s u k ≡ some a

abbrev is_release : Request → Bool
is_release (claim _) = false
is_release release = true

-- The event falls into the time, and is no release of the key by its holder.
abbrev pub Foreign : Text → Text → ℕ → ℕ → Event → Type 0
Foreign k a from until e =
    (from ≤ e.at)
    × (e.at < until)
    × ((is_release e.request && same_text e.key k && same_text a e.token) ≡ false)

abbrev pub AllForeign : Text → Text → ℕ → ℕ → List Event → Type 0
AllForeign k a from until [] = Unit
AllForeign k a from until (e ∷ es) = Foreign k a from until e × AllForeign k a from until es

module _ (R : Redis) (laws : RedisLaws R) where
  claim-taken :
      (link : Link) (s : R.Store) (t : ℕ) (k v w : Text) (ttl : ℕ)
      → R.get s t k ≡ some w
      → ((claim_lock R link s t k v ttl).0 ≡ s)
        × (is_true R (claim_lock R link s t k v ttl).1 ≡ false)
  unfolding claim_lock
  claim-taken answered s t k v w ttl h = rw (laws.set_nx-taken s t k v w ttl h) (refl, refl)
  claim-taken unreached s t k v w ttl h = (refl, refl)
  claim-taken answer_lost s t k v w ttl h = rw (laws.set_nx-taken s t k v w ttl h) (refl, refl)

  claim-other :
      (link : Link) (s : R.Store) (t u : ℕ) (k l v : Text) (ttl : ℕ)
      → same_text k l ≡ false
      → R.get (claim_lock R link s t k v ttl).0 u l ≡ R.get s u l
  unfolding claim_lock
  claim-other answered s t u k l v ttl h = laws.get-set_nx-other s t u k l v ttl h
  claim-other unreached s t u k l v ttl h = refl
  claim-other answer_lost s t u k l v ttl h = laws.get-set_nx-other s t u k l v ttl h

  release_script-other :
      (s : R.Store) (t u : ℕ) (k l v : Text)
      → same_text k l ≡ false
      → R.get (release_script R s t k v).0 u l ≡ R.get s u l
  unfolding release_script
  release_script-other s t u k l v h = elim (Bool-cases (is_token R (R.get s t k) v)) [
    | inl y ↦ rw y (laws.get-del-other s u k l h)
    | inr n ↦ rw n refl
  ]

  release-other :
      (link : Link) (s : R.Store) (t u : ℕ) (k l v : Text)
      → same_text k l ≡ false
      → R.get (release_lock R link s t k v).0 u l ≡ R.get s u l
  unfolding release_lock
  release-other answered s t u k l v h = release_script-other s t u k l v h
  release-other unreached s t u k l v h = refl
  release-other answer_lost s t u k l v h = release_script-other s t u k l v h

  -- A release by one who does not hold the lock changes nothing.
  release-foreign :
      (link : Link) (s : R.Store) (t : ℕ) (k a v : Text)
      → R.get s t k ≡ some a
      → same_text a v ≡ false
      → (release_lock R link s t k v).0 ≡ s
  unfolding release_lock release_script
  release-foreign answered s t k a v h n = rw h (rw n refl)
  release-foreign unreached s t k a v h n = refl
  release-foreign answer_lost s t k a v h n = rw h (rw n refl)

  module _ (k a : Text) (from until : ℕ) where
    claim_event-keeps :
        (s : R.Store) (e : Event) (ttl : ℕ)
        → Holds R s k a from until
        → from ≤ e.at
        → e.at < until
        → Holds R (request_step R (claim ttl) s e).0 k a from until
          × ((same_text e.key k && (request_step R (claim ttl) s e).1) ≡ false)
    claim_event-keeps s e ttl h lo hi = elim (Bool-cases (same_text e.key k)) [
      | inl same ↦
          let at_key : R.get s e.at e.key ≡ some a =
            rw (same_text-eq e.key k same) (h e.at lo hi) in
          let (kept, told) = claim-taken e.link s e.at e.key e.token a ttl at_key in
          rw (kept, same, told) (h, refl)
      | inr other ↦
          rw other (λ u l r. claim-other e.link s e.at u e.key k e.token ttl other ∙ h u l r, refl)
    ]

    release_event-keeps :
        (s : R.Store) (e : Event)
        → Holds R s k a from until
        → from ≤ e.at
        → e.at < until
        → (same_text e.key k && same_text a e.token) ≡ false
        → Holds R (request_step R release s e).0 k a from until
    release_event-keeps s e h lo hi foreign = elim (Bool-cases (same_text e.key k)) [
      | inl same ↦
          let at_key : R.get s e.at e.key ≡ some a =
            rw (same_text-eq e.key k same) (h e.at lo hi) in
          let other_token : same_text a e.token ≡ false = ground (arith) in
          rw (release-foreign e.link s e.at e.key a e.token at_key other_token) h
      | inr other ↦ λ u l r. release-other e.link s e.at u e.key k e.token other ∙ h u l r
    ]

    request-keeps :
        (q : Request) (s : R.Store) (e : Event)
        → Holds R s k a from until
        → from ≤ e.at
        → e.at < until
        → (is_release q && same_text e.key k && same_text a e.token) ≡ false
        → Holds R (request_step R q s e).0 k a from until
          × ((same_text e.key k && (request_step R q s e).1) ≡ false)
    request-keeps (claim ttl) s e h lo hi foreign = claim_event-keeps s e ttl h lo hi
    request-keeps release s e h lo hi foreign =
        (release_event-keeps s e h lo hi foreign, ground arith)

    held_through :
        (s : R.Store) (es : List Event)
        → Holds R s k a from until
        → AllForeign k a from until es
        → (grants R k s es ≡ 0) × Holds R (store_after R s es) k a from until
    held_through s [] h all = (refl, h)
    held_through s (e ∷ es) h ((lo, hi, foreign), all) =
        let (kept, refused) = request-keeps e.request s e h lo hi foreign in
        rw refused (held_through (event_step R s e).0 es kept all)

  get-claimed :
      (s : R.Store) (t u : ℕ) (k v : Text) (ttl : ℕ)
      → R.get s t k ≡ none
      → t ≤ u
      → u < t + 1000 * ttl
      → R.get (R.set_nx s t k v ttl).0 u k ≡ some v
  get-claimed s t u k v ttl free lo hi =
      let early : ltb u (t + 1000 * ttl) ≡ true = ground arith in
      laws.get-set_nx s t u k v ttl free lo ∙ rw early refl

  -- Once a free lock is claimed, and until its time to live has passed, no claim of it by any process is granted and the holder stays, whatever commands reach the server, in whatever order, with whatever answers lost, other than the holder's own release.
  pub exclusive :
      (s : R.Store) (t : ℕ) (k a : Text) (ttl : ℕ) (es : List Event)
      → R.get s t k ≡ none
      → AllForeign k a t (t + 1000 * ttl) es
      → let claimed = (claim_lock R answered s t k a ttl).0 in
        (grants R k claimed es ≡ 0) × Holds R (store_after R claimed es) k a t (t + 1000 * ttl)
  unfolding claim_lock
  exclusive s t k a ttl es free all =
      held_through k a t (t + 1000 * ttl) _ es (λ u l r. get-claimed s t u k a ttl free l r) all

  -- A claimed lock that its holder releases in time, on a link that answers, can be claimed at once by any other.
  pub release_frees :
      (s : R.Store) (t u v : ℕ) (k a b : Text) (ttl ttl_of_next : ℕ)
      → R.get s t k ≡ none
      → t ≤ u
      → u < t + 1000 * ttl
      → let released = (release_lock R answered (claim_lock R answered s t k a ttl).0 u k a).0 in
        (claim_lock R answered released v k b ttl_of_next).1 ≡ some true
  unfolding claim_lock release_lock release_script
  release_frees s t u v k a b ttl ttl_of_next free lo hi =
      let holds = get-claimed s t u k a ttl free lo hi in
      rw holds (
        rw (same_text_self a) (ap some (laws.set_nx-free _ v k b ttl_of_next (laws.get-del _ v k))))

  -- A lock whose holder never releases it, and that nobody else claimed, can be claimed once its time to live has passed.
  pub expired_lock_is_free :
      (s : R.Store) (t u : ℕ) (k a b : Text) (ttl ttl_of_next : ℕ)
      → R.get s t k ≡ none
      → t + 1000 * ttl ≤ u
      → (claim_lock R answered (claim_lock R answered s t k a ttl).0 u k b ttl_of_next).1
        ≡ some true
  unfolding claim_lock
  expired_lock_is_free s t u k a b ttl ttl_of_next free late =
      let gone : ltb u (t + 1000 * ttl) ≡ false = ground arith in
      ap some (
        laws.set_nx-free _ u k b ttl_of_next
          (laws.get-set_nx s t u k a ttl free (omega arith) ∙ rw gone refl))
