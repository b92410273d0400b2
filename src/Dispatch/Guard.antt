-- ===== src/Dispatch/Guard.antt =====
-- helpers/mt5_dispatch.py: publishing a task to the queue of a VM, and the guard by which a worker
-- sends on a task that was meant for another VM. Of a task's keyword arguments the model has
-- `target_vm_id` and the redispatch count; the others pass through unchanged.
use fxjournal.Prelude.{
  ℕ, suc, ◌+◌, ◌-◌, ◌≤◌, ◌≡◌, Bool, ◌||◌, Option, none, some, List, [], ◌∷◌, ◌++◌, leb,
  if◌then◌else◌, is_some, arith,
}
use fxjournal.Prelude.Text.{Text, is_blank, lower, same_text, same_text_self, strip}
use fxjournal.Dispatch.{
  QueueKind, base_queue, behind_prefix, kind_queue_name, priority, routing_vm_id, setup, sync,
  unknown, vm_id_to_queue_slug,
}
use fxjournal.Dispatch.Setup.{SetupEnv, resolve_setup_target_vm_id}

pub record Publish : Type 0 where
  pub queue : Text
  pub target_vm_id : Text

-- `kwargs.setdefault("target_vm_id", vm_id)`.
abbrev set_default : Option Text → Text → Text
set_default none vm_id = vm_id
set_default (some given) _ = given

-- The body that the five dispatchers with a VM share: skipped, or published to the VM's queue.
unfoldable pub dispatch_to_vm : QueueKind → Text → Option Text → Option Publish
dispatch_to_vm kind account_vm_id given =
    let vm_id = routing_vm_id account_vm_id in
    if is_blank vm_id
    then none
    else some
        (record { queue = kind_queue_name kind vm_id; target_vm_id = set_default given vm_id })

abbrev pub dispatch_mt5_sync : Text → Option Text → Option Publish
dispatch_mt5_sync = dispatch_to_vm sync

abbrev pub dispatch_mt5_priority : Text → Option Text → Option Publish
dispatch_mt5_priority = dispatch_to_vm priority

abbrev pub dispatch_mt5_cleanup : Text → Option Text → Option Publish
dispatch_mt5_cleanup = dispatch_to_vm setup

abbrev pub dispatch_mt5_broker_discovery_refresh : Text → Option Text → Option Publish
dispatch_mt5_broker_discovery_refresh = dispatch_to_vm setup

-- The pause task takes no keyword arguments of its caller.
abbrev pub dispatch_mt5_pause : Text → Option Publish
dispatch_mt5_pause account_vm_id = dispatch_to_vm setup account_vm_id none

pub record SetupTask : Type 0 where
  pub publish : Publish
  pub allow_failover : Bool
  pub setup_attempt_index : ℕ

-- `build_setup_task_kwargs` resolves the VM again, from the one that was resolved.
unfoldable pub dispatch_mt5_setup : SetupEnv → Text → Bool → ℕ → SetupTask
dispatch_mt5_setup env target allow_failover attempt =
    let vm_id = resolve_setup_target_vm_id env target in
    record {
      publish = record {
        queue = kind_queue_name setup vm_id;
        target_vm_id = resolve_setup_target_vm_id env vm_id;
      };
      allow_failover = allow_failover;
      setup_attempt_index = attempt;
    }

unfoldable pub resolve_queue_kind_from_request : Text → QueueKind
unfolding behind_prefix
resolve_queue_kind_from_request routing_key =
    let key = lower (strip routing_key) in
    if is_some (behind_prefix (base_queue priority) key)
    then priority
    else if is_some (behind_prefix (base_queue setup) key)
    then setup
    else sync

pub data GuardOutcome : Type 0 where
  proceed : GuardOutcome
  gave_up : GuardOutcome
  -- The queue, the target and the count that the task is sent on with.
  requeued : Text → Text → ℕ → GuardOutcome

abbrev effective_kind : Option QueueKind → Text → QueueKind
effective_kind (some kind) _ = kind
effective_kind none routing_key = resolve_queue_kind_from_request routing_key

-- `host` is the VM that runs the worker, `count` the redispatches so far.
unfoldable pub guard_wrong_vm_task : Text → Option QueueKind → Text → Text → ℕ → ℕ → GuardOutcome
guard_wrong_vm_task routing_key queue_kind target_vm_id host count max_redispatch =
    let target = routing_vm_id target_vm_id in
    let target_slug = vm_id_to_queue_slug target in
    let current_slug = vm_id_to_queue_slug host in
    if is_blank target
    then proceed
    else if same_text target_slug unknown || same_text current_slug unknown
    then proceed
    else if same_text target_slug current_slug
    then proceed
    else if leb max_redispatch count
    then gave_up
    else requeued (kind_queue_name (effective_kind queue_kind routing_key) target) target
        (count + 1)

-- The chain of workers that take a task one after another, each with the target and the count that the
-- guard of the worker before sent it on with, and how often the task is sent on in it.
abbrev pub sent_on : GuardOutcome → ℕ → ℕ
sent_on (requeued _ _ _) rest = suc rest
sent_on _ _ = 0

abbrev next_target : GuardOutcome → Text → Text
next_target (requeued _ target _) _ = target
next_target _ target = target

abbrev next_count : GuardOutcome → ℕ → ℕ
next_count (requeued _ _ count) _ = count
next_count _ count = count

abbrev pub redispatches : Text → Option QueueKind → Text → ℕ → ℕ → List Text → ℕ
redispatches key kind target count limit [] = 0
redispatches key kind target count limit (host ∷ hosts) =
    let outcome = guard_wrong_vm_task key kind target host count limit in
    sent_on outcome
      (redispatches key kind (next_target outcome target) (next_count outcome count) limit hosts)

sent_on-le :
    (key : Text) (kind : Option QueueKind) (target host : Text) (count limit rest : ℕ)
    → rest ≤ limit - next_count (guard_wrong_vm_task key kind target host count limit) count
    → sent_on (guard_wrong_vm_task key kind target host count limit) rest ≤ limit - count
unfolding guard_wrong_vm_task
sent_on-le key kind target host count limit rest h = ground arith

-- Whatever workers take it one after another, each with the target and the count that the guard before it wrote, a task is sent on to another VM at most as often as the limit leaves after the count it came with: it does not go round for ever.
pub redispatch_bounded :
    (key : Text) (kind : Option QueueKind) (target : Text) (count limit : ℕ) (hosts : List Text)
    → redispatches key kind target count limit hosts ≤ limit - count
redispatch_bounded key kind target count limit [] = omega arith
redispatch_bounded key kind target count limit (host ∷ hosts) =
    let outcome = guard_wrong_vm_task key kind target host count limit in
    sent_on-le key kind target host count limit _ (
      redispatch_bounded key kind (next_target outcome target) (next_count outcome count) limit
        hosts)

-- The queue of a kind with a slug.
abbrev pub queue_of_slug : QueueKind → Text → Text
queue_of_slug kind slug =
    if same_text slug unknown then base_queue kind else base_queue kind ++ (b'.' ∷ slug)

guard_same_slug :
    (key : Text) (kind : Option QueueKind) (target host : Text) (count limit : ℕ)
    → vm_id_to_queue_slug host ≡ vm_id_to_queue_slug (routing_vm_id target)
    → guard_wrong_vm_task key kind target host count limit ≡ proceed
unfolding guard_wrong_vm_task
guard_same_slug key kind target host count limit h =
    rw h (ground (arith, same_text_self (vm_id_to_queue_slug (routing_vm_id target))))

published :
    (kind : QueueKind) (v : Text) (p : Publish)
    → dispatch_to_vm kind v none ≡ some p
    → (p.queue ≡ kind_queue_name kind (routing_vm_id v)) × (p.target_vm_id ≡ routing_vm_id v)
unfolding dispatch_to_vm
published kind v p h = ground arith

-- A task that is published with no target of its caller's goes to the queue of one slug, and every worker whose VM has that slug runs it and does not send it on.
pub dispatched_is_accepted :
    (kind : QueueKind) (account_vm_id : Text) (p : Publish)
    → dispatch_to_vm kind account_vm_id none ≡ some p
    → (slug : Text) × (p.queue ≡ queue_of_slug kind slug)
      × ((key : Text) (queue_kind : Option QueueKind) (host : Text) (count limit : ℕ)
          → vm_id_to_queue_slug host ≡ slug
          → guard_wrong_vm_task key queue_kind p.target_vm_id host count limit ≡ proceed)
unfolding kind_queue_name
dispatched_is_accepted kind account_vm_id p h =
    let (queued, target) = published kind account_vm_id p h in
    (
      vm_id_to_queue_slug (routing_vm_id (routing_vm_id account_vm_id)),
      queued,
      λ key queue_kind host count limit same.
          rw target
            (guard_same_slug key queue_kind (routing_vm_id account_vm_id) host count limit same),
    )
