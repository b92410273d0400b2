-- ===== src/Lifecycle/Failover.antt =====
-- The VMs that the setup of a terminal goes on to, one failed attempt after another.
use fxjournal.Prelude.{◌≡◌, refl, true, Option, none, some, List, [], ◌∷◌}
use fxjournal.Prelude.Text.{Text}
use fxjournal.Dispatch.Setup.{SetupEnv, next_setup_failover_vm_id, resolve_setup_target_vm_id}
use fxjournal.Dispatch.Guard.{SetupTask}
use fxjournal.Lifecycle.Errors.{SetupError, is_setup_failover_eligible_error}
use fxjournal.Lifecycle.Terminal.{SetupCall, attempt_setup_failover, hand_over}

-- The task as the worker that takes it runs it.
abbrev pub call_of : Option SetupTask → SetupCall → SetupCall
call_of none call = call
call_of (some task) call = record call {
  target_vm_id = task.publish.target_vm_id;
  allow_failover = task.allow_failover;
  setup_attempt_index = task.setup_attempt_index;
}

abbrev with_target : Option SetupTask → List Text → List Text
with_target none rest = []
with_target (some task) rest = task.publish.target_vm_id ∷ rest

-- The targets of the tasks that follow one another where each attempt fails with its error.
abbrev pub visits : SetupEnv → SetupCall → List SetupError → List Text
visits env call [] = []
visits env call (error ∷ errors) =
    let task = attempt_setup_failover env call error in
    with_target task (visits env (call_of task call) errors)

-- A configured VM as the task that is published for it names it.
abbrev pub named_target : SetupEnv → Text → Text
named_target env vm_id = resolve_setup_target_vm_id env (resolve_setup_target_vm_id env vm_id)

pub handed :
    (env : SetupEnv) (call : SetupCall) (error : SetupError)
    → call.allow_failover ≡ true
    → is_setup_failover_eligible_error error ≡ true
    → attempt_setup_failover env call error
      ≡ hand_over env call (next_setup_failover_vm_id env call.setup_attempt_index)
unfolding attempt_setup_failover
handed env call error allowed eligible = rw (allowed, eligible) refl

abbrev go_on : SetupEnv → SetupCall → List SetupError → Option SetupTask → List Text
go_on env call errors task = with_target task (visits env (call_of task call) errors)
