-- ===== src/Capacity.antt =====
-- helpers/core.py, routes/trade_accounts.py and auth_account.py: the batches of slots for MT5 setups, the
-- requests that take them, and their review. Names, notes and stamps are left out.
mod Slots
mod Examples
use fxjournal.Prelude.{
  ℕ, suc, ◌+◌, ◌-◌, ◌==◌, max, Bool, true, false, ◌&&◌, ◌||◌, not, Option, none, some, List, [],
  ◌∷◌, ◌++◌, find_first, keep, map, if◌then◌else◌, is_some, ltb, length, or_else,
}

pub record Batch : Type 0 where
  pub capacity_total : ℕ
  pub total_slots_claimed : ℕ

pub data RequestStatus : Type 0 where
  pending approved rejected : RequestStatus

pub record Request : Type 0 where
  pub id : ℕ
  pub trade_account_id : ℕ
  pub batch_id : Option ℕ
  pub status : RequestStatus

-- The batches by their id; the index of the table allows one open batch. The newest request stands first.
pub record Store : Type 0 where
  pub batches : ℕ → Option Batch
  pub batches_enabled : Bool
  pub open_batch : Option ℕ
  pub requests : List Request

abbrev pub is_pending : Request → Bool
is_pending r = elim r.status [ pending ↦ true | _ ↦ false ]

abbrev pub is_approved : Request → Bool
is_approved r = elim r.status [ approved ↦ true | _ ↦ false ]

abbrev pub is_in : ℕ → Option ℕ → Bool
is_in id none = false
is_in id (some batch_id) = batch_id == id

abbrev pub active_slots_used : ℕ → List Request → ℕ
active_slots_used id requests =
    length (keep (λ r. is_in id r.batch_id && (is_pending r || is_approved r)) requests)

abbrev pub slots_left : Option Batch → ℕ → ℕ
slots_left none used = 0
slots_left (some b) used = b.capacity_total - max b.total_slots_claimed used

pub record BatchState : Type 0 where
  pub active_batch : Option ℕ
  pub active_slots_used : ℕ
  pub slots_remaining : Option ℕ
  pub can_accept_requests : Bool

abbrev pub no_active : Bool → BatchState
no_active accepts = record {
  active_batch = none;
  active_slots_used = 0;
  slots_remaining = none;
  can_accept_requests = accepts;
}

abbrev pub open_state : Option ℕ → Store → BatchState
open_state none s = no_active false
open_state (some id) s =
    let used = active_slots_used id s.requests in
    let left = slots_left (s.batches id) used in
    record {
      active_batch = some id;
      active_slots_used = used;
      slots_remaining = some left;
      can_accept_requests = ltb 0 left;
    }

unfoldable pub get_mt5_sync_batch_state : Store → BatchState
get_mt5_sync_batch_state s = if s.batches_enabled then open_state s.open_batch s else no_active true

abbrev pub changed : (Batch → Batch) → Option Batch → Option Batch
changed f none = none
changed f (some b) = some (f b)

abbrev pub write_batch : ℕ → (Batch → Batch) → (ℕ → Option Batch) → ℕ → Option Batch
write_batch id f batches i = if i == id then changed f (batches i) else batches i

abbrev pub claim_slot : Batch → Batch
claim_slot b = record b { total_slots_claimed = suc b.total_slots_claimed }

abbrev pub release_slot : Batch → Batch
release_slot b = record b { total_slots_claimed = b.total_slots_claimed - 1 }

abbrev replace_request : Request → List Request → List Request
replace_request row requests = map (λ r. if r.id == row.id then row else r) requests

pub data Reply : Type 0 where
  requested capacity_closed not_saved : Reply

-- The row of the account: a pending request, else an approved one.
abbrev pub request_row : ℕ → Store → Option Request
request_row account s =
    or_else (find_first (λ r. r.trade_account_id == account && is_pending r) s.requests)
      (find_first (λ r. r.trade_account_id == account && is_approved r) s.requests)

abbrev new_request : ℕ → ℕ → Option ℕ → Request
new_request id account batch_id = record {
  id = id;
  trade_account_id = account;
  batch_id = batch_id;
  status = pending;
}

abbrev pub with_slot : Option Request → ℕ → ℕ → ℕ → Store → Store
with_slot none id account batch s = record s {
  batches = write_batch batch claim_slot s.batches;
  requests = new_request id account (some batch) ∷ s.requests;
}
with_slot (some row) id account batch s = record s {
  batches = write_batch batch claim_slot s.batches;
  requests = replace_request (record row { batch_id = some batch; status = pending }) s.requests;
}

abbrev pub without_slot : Option Request → ℕ → ℕ → Store → Store
without_slot none id account s = record s { requests = new_request id account none ∷ s.requests }
without_slot (some row) id account s = record s {
  requests = replace_request (record row { status = pending }) s.requests;
}

abbrev pub has_slot : Option Request → Bool
has_slot none = false
has_slot (some row) = is_some row.batch_id

abbrev pub take_slot : Option ℕ → Bool → Option Request → ℕ → ℕ → Store → Store × Reply
take_slot (some batch) true row id account s = (with_slot row id account batch s, requested)
take_slot _ _ row id account s = (s, capacity_closed)

abbrev pub setup_in : BatchState → Option Request → Bool → ℕ → ℕ → Store → Store × Reply
setup_in state row commits id account s =
    if s.batches_enabled && not (has_slot row) && not state.can_accept_requests
    then (s, capacity_closed)
    else if not commits
    then (s, not_saved)
    else if s.batches_enabled && not (has_slot row)
    then take_slot state.active_batch state.can_accept_requests row id account s
    else (without_slot row id account s, requested)

-- The part of the route that takes a slot and writes the request; `id` is that of a new row, and
-- `commits` tells whether the database takes the rows.
unfoldable pub request_setup : Bool → ℕ → ℕ → Store → Store × Reply
request_setup commits id account s =
    setup_in (get_mt5_sync_batch_state s) (request_row account s) commits id account s

abbrev pub release_of : Option ℕ → (ℕ → Option Batch) → ℕ → Option Batch
release_of none batches = batches
release_of (some id) batches = write_batch id release_slot batches

abbrev pub release_all : List Request → (ℕ → Option Batch) → ℕ → Option Batch
release_all [] batches = batches
release_all (r ∷ rows) batches = release_all rows (release_of r.batch_id batches)

-- What `unlink_mt5_sync_for_trade_account` does to the requests of the account.
unfoldable pub release_requests : ℕ → Store → Store
release_requests account s = record s {
  batches = release_all (keep (λ r. r.trade_account_id == account) s.requests) s.batches;
  requests = keep (λ r. not (r.trade_account_id == account)) s.requests;
}

-- `id` is that of the new row; one that a batch holds is refused by the database.
unfoldable pub admin_mt5_create_batch : ℕ → ℕ → Store → Store
admin_mt5_create_batch id capacity_total s =
    if is_some s.open_batch || capacity_total == 0 || is_some (s.batches id) then s else record s {
      batches = λ i.
          if i == id
          then some (record { capacity_total = capacity_total; total_slots_claimed = 0 })
          else s.batches i;
      batches_enabled = true;
      open_batch = some id;
    }

unfoldable pub admin_mt5_add_batch_slots : ℕ → ℕ → Store → Store
admin_mt5_add_batch_slots id additional_slots s = record s {
  batches =
      write_batch id (λ b. record b { capacity_total = b.capacity_total + additional_slots })
        s.batches;
}

unfoldable pub admin_mt5_close_batch : ℕ → Store → Store
admin_mt5_close_batch id s = if is_in id s.open_batch then record s { open_batch = none } else s

abbrev pub reviewed : RequestStatus → ℕ → Request → Request
reviewed status id r = if r.id == id && is_pending r then record r { status = status } else r

unfoldable pub admin_mt5_approve_request : ℕ → Store → Store
admin_mt5_approve_request id s = record s { requests = map (reviewed approved id) s.requests }

unfoldable pub admin_mt5_reject_request : ℕ → Store → Store
admin_mt5_reject_request id s = record s { requests = map (reviewed rejected id) s.requests }
