-- ===== src/Capacity/Slots.antt =====
-- The slots of a batch: never more than its capacity, and kept by a rejected request.
use fxjournal.Prelude.{
  ℕ, ◌+◌, ◌≤◌, ◌≡◌, ◌==◌, ◌∙◌, refl, sym, ap, Bool, true, false, ◌&&◌, ◌||◌, not, Option, none,
  some, List, [], ◌∷◌, keep, map, if◌then◌else◌, if_cases, is_some, ltb, length, leb, arith,
  Bool-cases, inl, inr,
}
use fxjournal.Capacity.{
  Batch, BatchState, Request, Store, Reply, active_slots_used, admin_mt5_add_batch_slots,
  admin_mt5_approve_request, admin_mt5_close_batch, admin_mt5_create_batch,
  admin_mt5_reject_request, changed, claim_slot, get_mt5_sync_batch_state, has_slot, is_in,
  no_active, open_state, setup_in, release_all, release_of, release_requests, release_slot,
  rejected, reviewed, is_pending, is_approved, request_row, request_setup, slots_left, take_slot,
  with_slot, without_slot, write_batch,
}

-- What changes the batches or the requests.
pub data Step : Type 0 where
  requests_setup : Bool → ℕ → ℕ → Step
  unlinks : ℕ → Step
  creates adds_slots : ℕ → ℕ → Step
  closes approves rejects : ℕ → Step

abbrev pub step : Step → Store → Store
step (requests_setup commits id account) s = (request_setup commits id account s).0
step (unlinks account) s = release_requests account s
step (creates id capacity_total) s = admin_mt5_create_batch id capacity_total s
step (adds_slots id slots) s = admin_mt5_add_batch_slots id slots s
step (closes id) s = admin_mt5_close_batch id s
step (approves id) s = admin_mt5_approve_request id s
step (rejects id) s = admin_mt5_reject_request id s

abbrev pub steps : List Step → Store → Store
steps [] s = s
steps (x ∷ xs) s = steps xs (step x s)

abbrev pub is_within : Option Batch → Bool
is_within none = true
is_within (some b) = leb b.total_slots_claimed b.capacity_total

abbrev Fits : (ℕ → Option Batch) → Type 0
Fits batches = (i : ℕ) → is_within (batches i) ≡ true

same_id : (i id : ℕ) → (i == id) ≡ true → i ≡ id
same_id i id h = ground arith

changed-Fits :
    (f : Batch → Batch) (o : Option Batch)
    → is_within o ≡ true
    → ((b : Batch) → o ≡ some b → is_within (some b) ≡ true → is_within (some (f b)) ≡ true)
    → is_within (changed f o) ≡ true
changed-Fits f none h keeps = refl
changed-Fits f (some b) h keeps = keeps b refl h

write-Fits :
    (id : ℕ) (f : Batch → Batch) (batches : ℕ → Option Batch)
    → Fits batches
    → ((b : Batch)
        → batches id ≡ some b
        → is_within (some b) ≡ true
        → is_within (some (f b)) ≡ true)
    → Fits (write_batch id f batches)
write-Fits id f batches fits keeps i = elim (Bool-cases (i == id)) [
  | inl e ↦ rw e (
      changed-Fits f (batches i) (fits i)
        (λ b found. keeps b (ap batches (sym (same_id i id e)) ∙ found)))
  | inr e ↦ rw e (fits i)
]

release-Fits :
    (o : Option ℕ) (batches : ℕ → Option Batch) → Fits batches → Fits (release_of o batches)
release-Fits none batches fits = fits
release-Fits (some id) batches fits =
    write-Fits id release_slot batches fits (λ b _ h. released b h)
  where
    released : (b : Batch) → is_within (some b) ≡ true → is_within (some (release_slot b)) ≡ true
    released b h = ground arith

release_all-Fits :
    (rows : List Request) (batches : ℕ → Option Batch)
    → Fits batches
    → Fits (release_all rows batches)
release_all-Fits [] batches fits = fits
release_all-Fits (r ∷ rows) batches fits =
    release_all-Fits rows (release_of r.batch_id batches) (release-Fits r.batch_id batches fits)

abbrev FitsReply : Store × Reply → Type 0
FitsReply r = Fits r.0.batches

claimed :
    (b : Batch) (used : ℕ)
    → ltb 0 (slots_left (some b) used) ≡ true
    → is_within (some (claim_slot b)) ≡ true
claimed b used h = ground arith

with_slot-Fits :
    (row : Option Request) (id account batch : ℕ) (s : Store)
    → Fits s.batches
    → ltb 0 (slots_left (s.batches batch) (active_slots_used batch s.requests)) ≡ true
    → Fits (with_slot row id account batch s).batches
with_slot-Fits none id account batch s fits free =
    write-Fits batch claim_slot s.batches fits (λ b found _.
      claimed b (active_slots_used batch s.requests) (
        ap (λ (o : Option Batch). ltb 0 (slots_left o (active_slots_used batch s.requests)))
          (sym found)
        ∙ free))
with_slot-Fits (some row) id account batch s fits free =
    write-Fits batch claim_slot s.batches fits (λ b found _.
      claimed b (active_slots_used batch s.requests) (
        ap (λ (o : Option Batch). ltb 0 (slots_left o (active_slots_used batch s.requests)))
          (sym found)
        ∙ free))

take-Fits :
    (o : Option ℕ) (row : Option Request) (id account : ℕ) (s : Store)
    → Fits s.batches
    → FitsReply (
        take_slot
          (open_state o s).active_batch
          (open_state o s).can_accept_requests
          row
          id
          account
          s)
take-Fits none row id account s fits = fits
take-Fits (some batch) row id account s fits =
    elim (Bool-cases (ltb 0 (slots_left (s.batches batch) (active_slots_used batch s.requests)))) [
      | inl e ↦ rw e (with_slot-Fits row id account batch s fits e)
      | inr e ↦ rw e fits
    ]

without_slot-Fits :
    (row : Option Request) (id account : ℕ) (s : Store)
    → Fits s.batches
    → Fits (without_slot row id account s).batches
without_slot-Fits none id account s fits = fits
without_slot-Fits (some row) id account s fits = fits

setup_in-Fits :
    (state : BatchState) (row : Option Request) (commits : Bool) (id account : ℕ) (s : Store)
    → Fits s.batches
    → FitsReply (take_slot state.active_batch state.can_accept_requests row id account s)
    → FitsReply (setup_in state row commits id account s)
setup_in-Fits state row commits id account s fits takes =
    if_cases FitsReply (s.batches_enabled && not (has_slot row) && not state.can_accept_requests) _
      _ (λ _. fits)
      (λ _.
        if_cases FitsReply (not commits) _ _ (λ _. fits)
          (λ _.
            if_cases FitsReply (s.batches_enabled && not (has_slot row)) _ _ (λ _. takes)
              (λ _. without_slot-Fits row id account s fits)))

-- Whether taking a slot in a state keeps every batch within its capacity.
abbrev TakesFit : Option Request → ℕ → ℕ → Store → BatchState → Type 0
TakesFit row id account s state =
    FitsReply (take_slot state.active_batch state.can_accept_requests row id account s)

setup-Fits :
    (commits : Bool) (id account : ℕ) (s : Store)
    → Fits s.batches
    → FitsReply (request_setup commits id account s)
unfolding request_setup get_mt5_sync_batch_state
setup-Fits commits id account s fits =
    setup_in-Fits (get_mt5_sync_batch_state s) (request_row account s) commits id account s fits (
      if_cases (TakesFit (request_row account s) id account s) s.batches_enabled
        (open_state s.open_batch s) (no_active true)
        (λ _. take-Fits s.open_batch (request_row account s) id account s fits) (λ _. fits))

abbrev FitsStore : Store → Type 0
FitsStore s = Fits s.batches

step-Fits : (x : Step) (s : Store) → Fits s.batches → Fits (step x s).batches
unfolding release_requests admin_mt5_create_batch admin_mt5_add_batch_slots admin_mt5_close_batch
    admin_mt5_approve_request admin_mt5_reject_request
step-Fits (requests_setup commits id account) s fits = setup-Fits commits id account s fits
step-Fits (unlinks account) s fits =
    release_all-Fits (keep (λ r. r.trade_account_id == account) s.requests) s.batches fits
step-Fits (creates id capacity) s fits =
    if_cases FitsStore (is_some s.open_batch || capacity == 0 || is_some (s.batches id)) s
      (record s {
        batches = λ i.
            if i == id
            then some (record { capacity_total = capacity; total_slots_claimed = 0 })
            else s.batches i;
        batches_enabled = true;
        open_batch = some id;
      })
      (λ _. fits)
      (λ _ i. elim (Bool-cases (i == id)) [ inl e ↦ rw e (empty capacity) | inr e ↦ rw e (fits i) ])
  where
    empty : (n : ℕ) → leb 0 n ≡ true
    empty n = ground arith
step-Fits (adds_slots id slots) s fits = write-Fits id _ s.batches fits (λ b _ h. more b slots h)
  where
    more :
        (b : Batch) (n : ℕ)
        → is_within (some b) ≡ true
        → leb b.total_slots_claimed (b.capacity_total + n) ≡ true
    more b n h = ground arith
step-Fits (closes id) s fits =
    if_cases FitsStore (is_in id s.open_batch) (record s { open_batch = none }) s (λ _. fits)
      (λ _. fits)
step-Fits (approves id) s fits = fits
step-Fits (rejects id) s fits = fits

-- No history of requests, reviews and changes of batches claims more slots of a batch than it has.
pub slots_fit_capacity :
    (xs : List Step) (s : Store)
    → ((i : ℕ) → is_within (s.batches i) ≡ true)
    → (i : ℕ) → is_within ((steps xs s).batches i) ≡ true
slots_fit_capacity [] s fits = fits
slots_fit_capacity (x ∷ xs) s fits = slots_fit_capacity xs (step x s) (step-Fits x s fits)

longer :
    (c : Bool) (r : Request) (xs ys : List Request)
    → length xs ≤ length ys
    → length xs ≤ length (if c then r ∷ ys else ys)
longer true r xs ys h = omega arith
longer false r xs ys h = h

no_more :
    (i id : ℕ) (rows : List Request)
    → active_slots_used i (map (reviewed rejected id) rows) ≤ active_slots_used i rows
no_more i id [] = omega arith
no_more i id (r ∷ rows) = elim (Bool-cases (r.id == id && is_pending r)) [
  | inl e ↦ rw e (elim (Bool-cases (is_in i r.batch_id)) [
    | inl f ↦ rw f (longer (is_pending r || is_approved r) r _ _ (no_more i id rows))
    | inr f ↦ rw f (no_more i id rows)
  ])
  | inr e ↦ rw e (elim (Bool-cases (is_in i r.batch_id && (is_pending r || is_approved r))) [
    | inl f ↦ rw f (omega (arith, no_more i id rows))
    | inr f ↦ rw f (no_more i id rows)
  ])
]

-- A rejected request gives no slot back, where the batch has claimed one for each of its requests.
pub reject_keeps_slot :
    (id i : ℕ) (b : Batch) (s : Store)
    → s.batches i ≡ some b
    → active_slots_used i s.requests ≤ b.total_slots_claimed
    → slots_left
        ((admin_mt5_reject_request id s).batches i)
        (active_slots_used i (admin_mt5_reject_request id s).requests)
      ≡ slots_left (s.batches i) (active_slots_used i s.requests)
unfolding admin_mt5_reject_request
reject_keeps_slot id i b s found enough = rw found (omega (arith, no_more i id s.requests))
