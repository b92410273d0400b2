-- ===== src/Dispatch/Examples.antt =====
-- The routing theorems at concrete VMs.
use fxjournal.Prelude.{ℕ, ◌-◌, ◌≤◌, ◌≡◌, refl, Option, none, some, [], ◌∷◌}
use fxjournal.Prelude.Text.{Text, codes, lower, same_text, strip, strip_by}
use fxjournal.Dispatch.{
  QueueKind, kind_queue_name, sync, routing_vm_id, celery_vm_id, behind_prefix, vm_id_to_queue_slug,
  slug_text, sub_runs,
}
use fxjournal.Dispatch.Guard.{
  proceed, Publish, dispatch_to_vm, guard_wrong_vm_task, queue_of_slug, redispatches,
  redispatch_bounded, dispatched_is_accepted,
}

case_equal : lower (codes "VM-One") ≡ lower (codes "vm-oNE")
unfolding lower
case_equal = refl

redispatch_bounded_example :
    redispatches (codes "mt5_sync.vm-a") none (codes "vm-a") 0 1 (codes "vm-b" ∷ codes "vm-c" ∷ [])
    ≤ 1 - 0
redispatch_bounded_example =
    redispatch_bounded (codes "mt5_sync.vm-a") none (codes "vm-a") 0 1
      (codes "vm-b" ∷ codes "vm-c" ∷ [])

abbrev published_task : Publish
published_task = record { queue = codes "mt5_sync.vm-a"; target_vm_id = codes "VM-A" }

task_published : dispatch_to_vm sync (codes " mt5-sync@VM-A") none ≡ some published_task
unfolding dispatch_to_vm kind_queue_name routing_vm_id celery_vm_id behind_prefix
    vm_id_to_queue_slug slug_text sub_runs lower strip strip_by same_text
task_published = refl

dispatched_is_accepted_example :
    (slug : Text) × (published_task.queue ≡ queue_of_slug sync slug)
    × ((key : Text) (queue_kind : Option QueueKind) (host : Text) (count limit : ℕ)
        → vm_id_to_queue_slug host ≡ slug
        → guard_wrong_vm_task key queue_kind published_task.target_vm_id host count limit ≡ proceed)
dispatched_is_accepted_example =
    dispatched_is_accepted sync (codes " mt5-sync@VM-A") published_task task_published
