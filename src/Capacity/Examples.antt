-- ===== src/Capacity/Examples.antt =====
-- Tests of the slots, and the theorems at concrete inputs.
use fxjournal.Prelude.{
  ◌≡◌, ◌==◌, refl, true, false, none, some, List, [], ◌∷◌, if◌then◌else◌, arith,
}
use fxjournal.Capacity.{
  Store, active_slots_used, admin_mt5_create_batch, admin_mt5_reject_request, capacity_closed,
  get_mt5_sync_batch_state, pending, release_requests, request_setup, requested, slots_left,
}
use fxjournal.Capacity.Slots.{
  Step, creates, is_within, reject_keeps_slot, rejects, requests_setup, slots_fit_capacity, steps,
  unlinks,
}

abbrev empty_store : Store
empty_store = record {
  batches = λ _. none;
  batches_enabled = false;
  open_batch = none;
  requests = [];
}

abbrev one_slot : Store
one_slot = steps (creates 1 1 ∷ requests_setup true 10 5 ∷ []) empty_store

second_is_refused : (request_setup true 11 6 one_slot).1 ≡ capacity_closed
unfolding request_setup get_mt5_sync_batch_state admin_mt5_create_batch
second_is_refused = refl

unlink_returns_slot : (request_setup true 11 6 (release_requests 5 one_slot)).1 ≡ requested
unfolding request_setup get_mt5_sync_batch_state admin_mt5_create_batch release_requests
unlink_returns_slot = refl

abbrev history : List Step
history =
    creates 1 1
    ∷ requests_setup true 10 5
    ∷ requests_setup true 11 6
    ∷ rejects 10
    ∷ requests_setup true 12 5
    ∷ unlinks 5
    ∷ []

slots_fit_capacity_example : is_within ((steps history empty_store).batches 1) ≡ true
slots_fit_capacity_example = slots_fit_capacity history empty_store (λ _. refl) 1

abbrev asked : Store
asked = record {
  batches =
      λ i. if i == 1 then some (record { capacity_total = 1; total_slots_claimed = 1 }) else none;
  batches_enabled = true;
  open_batch = some 1;
  requests = record { id = 10; trade_account_id = 5; batch_id = some 1; status = pending } ∷ [];
}

reject_keeps_slot_example :
    slots_left
      ((admin_mt5_reject_request 10 asked).batches 1)
      (active_slots_used 1 (admin_mt5_reject_request 10 asked).requests)
    ≡ slots_left (asked.batches 1) (active_slots_used 1 asked.requests)
reject_keeps_slot_example =
    reject_keeps_slot 10 1 (record { capacity_total = 1; total_slots_claimed = 1 }) asked refl
      (omega arith)
