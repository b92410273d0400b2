-- ===== src/Cache/Server.antt =====
-- What the documentation of Redis says of the commands that celery_workers/cache.py uses, and a store
-- that behaves so.
use fxjournal.Prelude.{
  ℕ, ◌+◌, ◌*◌, ◌≤◌, ◌≡◌, refl, Bool, true, false, Option, none, some, ltb, if◌then◌else◌,
  Bool-cases, inl, inr,
}
use fxjournal.Prelude.Text.{Text, same_text, same_text_self}
use fxjournal.Cache.{Redis}

-- A value is read until its time to live has passed, and an expired one does not come back.
pub record RedisLaws (R : Redis) : Type 0 where
  -- SET NX on a key that holds a value changes nothing.
  pub set_nx-taken :
      (s : R.Store) (t : ℕ) (k v w : Text) (ttl : ℕ)
      → R.get s t k ≡ some w
      → R.set_nx s t k v ttl ≡ (s, false)
  pub set_nx-free :
      (s : R.Store) (t : ℕ) (k v : Text) (ttl : ℕ)
      → R.get s t k ≡ none
      → (R.set_nx s t k v ttl).1 ≡ true
  pub get-set_nx :
      (s : R.Store) (t u : ℕ) (k v : Text) (ttl : ℕ)
      → R.get s t k ≡ none
      → t ≤ u
      → R.get (R.set_nx s t k v ttl).0 u k ≡ (if ltb u (t + 1000 * ttl) then some v else none)
  pub get-set_nx-other :
      (s : R.Store) (t u : ℕ) (k l v : Text) (ttl : ℕ)
      → same_text k l ≡ false
      → R.get (R.set_nx s t k v ttl).0 u l ≡ R.get s u l
  pub get-del : (s : R.Store) (u : ℕ) (k : Text) → R.get (R.del s k) u k ≡ none
  pub get-del-other :
      (s : R.Store) (u : ℕ) (k l : Text)
      → same_text k l ≡ false
      → R.get (R.del s k) u l ≡ R.get s u l

-- A store as a function from keys to values with the time at which they expire.
pub record Entry : Type 0 where
  pub value : Text
  pub expires : ℕ

abbrev live : ℕ → Option Entry → Option Text
live t none = none
live t (some e) = if ltb t e.expires then some e.value else none

abbrev is_taken : Option Text → Bool
is_taken none = false
is_taken (some _) = true

abbrev put : (Text → Option Entry) → Text → Option Entry → Text → Option Entry
put s k e l = if same_text k l then e else s l

abbrev entry : ℕ → Text → ℕ → Entry
entry t v ttl = record { value = v; expires = t + 1000 * ttl }

abbrev pub memory : Redis
memory = record {
  Store = Text → Option Entry;
  get = λ s t k. live t (s k);
  set_nx = λ s t k v ttl.
      if is_taken (live t (s k)) then (s, false) else (put s k (some (entry t v ttl)), true);
  set_ex = λ s t k v ttl. put s k (some (entry t v ttl));
  del = λ s k. put s k none;
}

pub memory_laws : RedisLaws memory
memory_laws = record {
  set_nx-taken = λ s t k v w ttl h. rw h refl;
  set_nx-free = λ s t k v ttl h. rw h refl;
  get-set_nx = λ s t u k v ttl h le. rw h (rw (same_text_self k) refl);
  get-set_nx-other = λ s t u k l v ttl h. elim (Bool-cases (is_taken (live t (s k)))) [
    | inl y ↦ rw y refl
    | inr n ↦ rw n (rw h refl)
  ];
  get-del = λ s u k. rw (same_text_self k) refl;
  get-del-other = λ s u k l h. rw h refl;
}
