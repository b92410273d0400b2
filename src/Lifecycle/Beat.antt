-- ===== src/Lifecycle/Beat.antt =====
-- celery_workers/mt5_sync_tasks.py: the account that the scheduler's beat sends to be synchronised.
use fxjournal.Prelude.{
  ℕ, suc, ◌⊎◌, ◌+◌, ◌≡◌, ◌∙◌, refl, sym, ap, Bool, true, false, ◌&&◌, ◌||◌, not, Option, none, some,
  List, [], ◌∷◌, ltb, ◌==◌, if◌then◌else◌, is_some, all_of, keep, find_first, arith, Bool-cases,
  inl, inr,
}
use fxjournal.Prelude.Text.{Text, is_blank, or_empty}
use fxjournal.Models.{Stamp, micros, Mt5Account, is_archived}
use fxjournal.Lifecycle.Archived.{is_consistent}
use fxjournal.Dispatch.{routing_vm_id, kind_queue_name, sync, priority}
use fxjournal.Dispatch.Guard.{Publish, dispatch_to_vm}

-- What the cache tells: who holds an account's lock, and how long a queue is. `none` is the
-- CacheUnavailableError.
pub record Reads : Type 0 where
  pub holder : ℕ → Option (Option Text)
  pub depth : Text → Option ℕ

-- The filters of the query; the last one only where the schema has the column.
unfoldable pub is_eligible : Bool → Mt5Account → Bool
is_eligible trial_columns a =
    a.is_active
    && is_some a.user_id
    && is_some a.trade_account_id
    && is_some a.investor_password_encrypted
    && not (is_some a.cleanup_marked_at)
    && (not trial_columns || not (is_some a.sync_paused_at))

-- NULL sorts first.
abbrev synced_key : Option Stamp → ℕ
synced_key none = 0
synced_key (some t) = suc (micros t)

-- The order of the query: `last_synced_at`, NULL first, then `id`.
unfoldable pub is_before : Mt5Account → Mt5Account → Bool
is_before a b =
    ltb (synced_key a.last_synced_at) (synced_key b.last_synced_at)
    || (synced_key a.last_synced_at == synced_key b.last_synced_at && ltb a.id b.id)

unfoldable pub insert : Mt5Account → List Mt5Account → List Mt5Account
insert a [] = a ∷ []
insert a (b ∷ bs) = let rest = insert a bs in if is_before b a then b ∷ rest else a ∷ b ∷ bs

unfoldable pub in_order : List Mt5Account → List Mt5Account
in_order [] = []
in_order (a ∷ rows) = insert a (in_order rows)

abbrev is_held : Option (Option Text) → Bool
is_held (some (some token)) = not (is_blank token)
is_held _ = false

abbrev pub mt5_sync_beat_max_queue_depth : ℕ
mt5_sync_beat_max_queue_depth = 150

abbrev is_crowded : Option ℕ → Option ℕ → Bool
is_crowded (some of_sync) (some of_priority) =
    ltb mt5_sync_beat_max_queue_depth (of_sync + of_priority) || ltb 0 of_sync
is_crowded _ _ = false

-- The candidate is not passed over in the loop.
unfoldable pub is_free : Reads → Mt5Account → Bool
is_free reads a =
    let vm_id = routing_vm_id (or_empty a.vm_id) in
    not (is_blank vm_id)
    && not (is_held (reads.holder a.id))
    && not (
        is_crowded (reads.depth (kind_queue_name sync vm_id))
          (reads.depth (kind_queue_name priority vm_id)))

-- The account that the beat settles on.
unfoldable pub beat_account : Reads → Bool → List Mt5Account → Option Mt5Account
beat_account reads trial_columns accounts =
    find_first (is_free reads) (in_order (keep (is_eligible trial_columns) accounts))

abbrev pub publish_for : Option Mt5Account → Option Publish
publish_for none = none
publish_for (some a) = dispatch_to_vm sync (or_empty a.vm_id) none

-- The whole task: what it publishes, if anything.
unfoldable pub sync_all_active_mt5_accounts : Reads → Bool → List Mt5Account → Option Publish
sync_all_active_mt5_accounts reads trial_columns accounts =
    publish_for (beat_account reads trial_columns accounts)

-- Sorted: nothing behind an account comes before it.
abbrev IsSorted : List Mt5Account → Type 0
IsSorted [] = Unit
IsSorted (a ∷ rows) = (all_of (λ b. not (is_before b a)) rows ≡ true) × IsSorted rows

all_of-insert :
    (P : Mt5Account → Bool) (a : Mt5Account) (bs : List Mt5Account)
    → all_of P (insert a bs) ≡ (P a && all_of P bs)
unfolding insert
all_of-insert P a [] = refl
all_of-insert P a (b ∷ bs) = ground (arith, all_of-insert P a bs)

all_of-in_order :
    (P : Mt5Account → Bool) (rows : List Mt5Account) → all_of P (in_order rows) ≡ all_of P rows
unfolding in_order
all_of-in_order P [] = refl
all_of-in_order P (a ∷ rows) =
    all_of-insert P a (in_order rows) ∙ ap (λ (c : Bool). P a && c) (all_of-in_order P rows)

all_of-keep :
    (P q : Mt5Account → Bool) (rows : List Mt5Account)
    → all_of P (keep q rows) ≡ all_of (λ a. not (q a) || P a) rows
all_of-keep P q [] = refl
all_of-keep P q (a ∷ rows) = ground (arith, all_of-keep P q rows)

all_of-imp :
    (P Q : Mt5Account → Bool) (rows : List Mt5Account)
    → ((a : Mt5Account) → P a ≡ true → Q a ≡ true)
    → all_of P rows ≡ true
    → all_of Q rows ≡ true
all_of-imp P Q [] h all = refl
all_of-imp P Q (a ∷ rows) h all =
    let here = h a (ground arith) in ground (arith, here, all_of-imp P Q rows h)

all_of-always :
    (P : Mt5Account → Bool) (rows : List Mt5Account)
    → ((a : Mt5Account) → P a ≡ true)
    → all_of P rows ≡ true
all_of-always P [] h = refl
all_of-always P (a ∷ rows) h = rw (h a) (all_of-always P rows h)

behind_trans :
    (a b c : Mt5Account) → is_before b a ≡ false → is_before c b ≡ false → is_before c a ≡ false
unfolding is_before
behind_trans a b c h k = ground arith

not-is_before :
    (a b c : Mt5Account)
    → is_before b a ≡ false
    → not (is_before c b) ≡ true
    → not (is_before c a) ≡ true
not-is_before a b c h k =
    let out : is_before c b ≡ false = ground arith in
    let far = behind_trans a b c h out in ground (arith, far)

before_irrefl : (a : Mt5Account) → is_before a a ≡ false
unfolding is_before
before_irrefl a = ground arith

before_asym : (a b : Mt5Account) → is_before b a ≡ true → is_before a b ≡ false
unfolding is_before
before_asym a b h = ground arith

insert-IsSorted : (a : Mt5Account) (bs : List Mt5Account) → IsSorted bs → IsSorted (insert a bs)
unfolding insert
insert-IsSorted a [] h = (refl, tt)
insert-IsSorted a (b ∷ bs) (below, rest) = elim (Bool-cases (is_before b a)) [
  | inl before ↦ rw before (
    rw (all_of-insert (λ c. not (is_before c b)) a bs) (rw (before_asym a b before) below),
    insert-IsSorted a bs rest,
  )
  | inr behind ↦ rw behind (
    rw behind (
        all_of-imp (λ c. not (is_before c b)) (λ c. not (is_before c a)) bs
          (λ c k. not-is_before a b c behind k) below),
    (below, rest),
  )
]

in_order-IsSorted : (rows : List Mt5Account) → IsSorted (in_order rows)
unfolding in_order
in_order-IsSorted [] = tt
in_order-IsSorted (a ∷ rows) = insert-IsSorted a (in_order rows) (in_order-IsSorted rows)

chosen :
    (b : Bool) (a c : Mt5Account) (rest : Option Mt5Account)
    → (if b then some a else rest) ≡ some c
    → ((b ≡ true) × (a ≡ c)) ⊎ ((b ≡ false) × (rest ≡ some c))
chosen true a c rest h = inl (refl, cc h)
chosen false a c rest h = inr (refl, h)

module _ (p : Mt5Account → Bool) where
  find_first-passes :
      (rows : List Mt5Account) (c : Mt5Account) → find_first p rows ≡ some c → p c ≡ true
  find_first-passes [] c h = cc
  find_first-passes (a ∷ rows) c h = elim (chosen (p a) a c (find_first p rows) h) [
    | inl (taken, here) ↦ rw (sym here) taken
    | inr (passed, later) ↦ find_first-passes rows c later
  ]

  find_first-has :
      (P : Mt5Account → Bool) (rows : List Mt5Account) (c : Mt5Account)
      → find_first p rows ≡ some c
      → all_of P rows ≡ true
      → P c ≡ true
  find_first-has P [] c h all = cc
  find_first-has P (a ∷ rows) c h all = elim (chosen (p a) a c (find_first p rows) h) [
    | inl (taken, here) ↦ rw (sym here) (ground arith)
    | inr (passed, later) ↦ find_first-has P rows c later (ground arith)
  ]

  first-least :
      (a : Mt5Account) (rows : List Mt5Account)
      → p a ≡ true
      → all_of (λ b. not (is_before b a)) rows ≡ true
      → all_of (λ d. not (p d && is_before d a)) (a ∷ rows) ≡ true
  first-least a rows taken below =
      rw (before_irrefl a, taken)
        (all_of-imp (λ d. not (is_before d a)) (λ d. not (p d && is_before d a)) rows
          (λ d k. ground arith) below)

  find_first-least :
      (rows : List Mt5Account) (c : Mt5Account)
      → IsSorted rows
      → find_first p rows ≡ some c
      → all_of (λ d. not (p d && is_before d c)) rows ≡ true
  find_first-least [] c sorted h = refl
  find_first-least (a ∷ rows) c (below, sorted) h = elim (chosen (p a) a c (find_first p rows) h) [
    | inl (taken, here) ↦
        sym (ap (λ (x : Mt5Account). all_of (λ d. not (p d && is_before d x)) (a ∷ rows)) here)
        ∙ first-least a rows taken below
    | inr (passed, later) ↦ rw passed (find_first-least rows c sorted later)
  ]

pub beat_serves_stalest :
    (reads : Reads) (trial_columns : Bool) (accounts : List Mt5Account) (c : Mt5Account)
    → beat_account reads trial_columns accounts ≡ some c
    → ((P : Mt5Account → Bool) → all_of P accounts ≡ true → P c ≡ true)
      × (is_eligible trial_columns c ≡ true)
      × (is_free reads c ≡ true)
      × (all_of
            (λ d. not (is_eligible trial_columns d && is_free reads d && is_before d c))
            accounts
          ≡ true)
unfolding beat_account
beat_serves_stalest reads trial_columns accounts c h =
    (has, eligible, find_first-passes (is_free reads) queue c h, least)
  where
    queue : List Mt5Account
    queue = in_order (keep (is_eligible trial_columns) accounts)

    moved :
        (P : Mt5Account → Bool)
        → all_of P queue ≡ all_of (λ a. not (is_eligible trial_columns a) || P a) accounts
    moved P = all_of-in_order P _ ∙ all_of-keep P (is_eligible trial_columns) accounts

    has : (P : Mt5Account → Bool) → all_of P accounts ≡ true → P c ≡ true
    has P all = find_first-has (is_free reads) P queue c h (
        moved P
        ∙ all_of-imp P (λ a. not (is_eligible trial_columns a) || P a) accounts
            (λ a k. ground arith) all)

    eligible : is_eligible trial_columns c ≡ true
    eligible =
        find_first-has (is_free reads) (is_eligible trial_columns) queue c h
          (moved (is_eligible trial_columns) ∙ all_of-always _ accounts (λ a. ground arith))

    ahead : Mt5Account → Bool
    ahead d = not (is_free reads d && is_before d c)

    least :
        all_of (λ d. not (is_eligible trial_columns d && is_free reads d && is_before d c)) accounts
        ≡ true
    least =
        all_of-imp (λ d. not (is_eligible trial_columns d) || ahead d) _ accounts
          (λ d k. ground arith)
          (sym (moved ahead) ∙ find_first-least (is_free reads) queue c (in_order-IsSorted _) h)

-- Where every archived account is switched off, the beat sends none of them to be synchronised.
pub beat_spares_archived :
    (reads : Reads) (trial_columns : Bool) (accounts : List Mt5Account) (c : Mt5Account)
    → all_of is_consistent accounts ≡ true
    → beat_account reads trial_columns accounts ≡ some c
    → is_archived c ≡ false
unfolding is_eligible
beat_spares_archived reads trial_columns accounts c consistent h =
    let (has, eligible, free, least) = beat_serves_stalest reads trial_columns accounts c h in
    let off = has is_consistent consistent in ground arith

free-has_vm :
    (reads : Reads) (a : Mt5Account)
    → is_free reads a ≡ true
    → is_blank (routing_vm_id (or_empty a.vm_id)) ≡ false
unfolding is_free
free-has_vm reads a h = ground arith

-- If the beat settles on an account it publishes a task to the queue of that account's VM.
pub beat_publishes :
    (reads : Reads) (trial_columns : Bool) (accounts : List Mt5Account) (c : Mt5Account)
    → beat_account reads trial_columns accounts ≡ some c
    → (p : Publish) × (sync_all_active_mt5_accounts reads trial_columns accounts ≡ some p)
      × (p.queue ≡ kind_queue_name sync (routing_vm_id (or_empty c.vm_id)))
unfolding sync_all_active_mt5_accounts dispatch_to_vm
beat_publishes reads trial_columns accounts c h =
    let (has, eligible, free, least) = beat_serves_stalest reads trial_columns accounts c h in
    let named = free-has_vm reads c free in rw h (rw named (_, refl, refl))
