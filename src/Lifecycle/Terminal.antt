-- ===== src/Lifecycle/Terminal.antt =====
-- celery_workers/mt5_setup_tasks.py: the setup of a terminal by a worker and what becomes of its errors. What Windows and the MT5 terminal do,
-- from the copying of the files to the verified login, is a parameter; the row does not change meanwhile.
-- Mails, logs, the terminal's paths in the row and the cleanup of its files are left out.
use fxjournal.Prelude.{
  ℕ, suc, Bool, true, not, Option, none, some, ◌∷◌, ◌++◌, leb, if◌then◌else◌, is_some,
}
use fxjournal.Prelude.Text.{Text, codes, is_blank}
use fxjournal.Models.{Mt5Account, is_orphaned, has_saved_credentials}
use fxjournal.Dispatch.Setup.{SetupEnv, next_setup_failover_vm_id, resolve_setup_target_vm_id}
use fxjournal.Lifecycle.Errors.{
  SetupError, permanent, trading_password, other_error, is_setup_failover_eligible_error,
  classify_setup_error,
}
use fxjournal.Dispatch.Guard.{
  GuardOutcome, SetupTask, dispatch_mt5_setup, gave_up, guard_wrong_vm_task, proceed, requeued,
}

-- The task as the worker runs it; `retries` counts the runs that were put off before.
pub record SetupCall : Type 0 where
  pub target_vm_id : Text
  pub allow_failover : Bool
  pub setup_attempt_index : ℕ
  pub wrong_vm_redispatch_count : ℕ
  pub routing_key : Text
  pub retries : ℕ

-- The task that goes to the next VM; `none` where there is no failover.
abbrev pub hand_over : SetupEnv → SetupCall → Option Text → Option SetupTask
hand_over env call none = none
hand_over env call (some vm_id) =
    if is_blank vm_id
    then none
    else some (dispatch_mt5_setup env vm_id true (suc call.setup_attempt_index))

unfoldable pub attempt_setup_failover : SetupEnv → SetupCall → SetupError → Option SetupTask
attempt_setup_failover env call error =
    if not call.allow_failover
    then none
    else if not (is_setup_failover_eligible_error error)
    then none
    else hand_over env call (next_setup_failover_vm_id env call.setup_attempt_index)

pub data SetupEnd : Type 0 where
  account_missing complete put_off : SetupEnd
  not_here : GuardOutcome → SetupEnd
  failed_over : SetupTask → SetupEnd
  raised : SetupError → SetupEnd

-- What the terminal comes to.
pub data Terminal : Type 0 where
  connected : Terminal
  fails : SetupError → Terminal

pub record Worker : Type 0 where
  pub vm_id : Text
  pub is_windows : Bool
  pub base_path : Text
  pub has_base_path : Bool
  pub run_terminal : Mt5Account → Terminal

abbrev pub clear_vm : Option Mt5Account → Option Mt5Account
clear_vm none = none
clear_vm (some a) = some (record a { vm_id = none })

abbrev fail_row : Text → Option Mt5Account → Option Mt5Account
fail_row message none = none
fail_row message (some a) =
    some (record a { connection_status = codes "failed"; connection_error_message = some message })

abbrev reject_password : Text → Option Mt5Account → Option Mt5Account
reject_password message none = none
reject_password message (some a) = some (record a {
  investor_password_encrypted = none;
  connection_status = codes "failed";
  connection_error_message = some message;
})

abbrev password_message : Text
password_message =
    codes "A master/trading password was detected and rejected. "
    ++ codes "For your security the connection was terminated and your credentials were cleared. "
    ++ codes "Please resubmit using your MT5 investor (read-only) password "
    ++ 8212 ∷ codes " not your master or trading password."

abbrev pub failover_or :
    Option SetupTask
    → Option Mt5Account
    → Option Mt5Account × SetupEnd
    → Option Mt5Account × SetupEnd
failover_or none row otherwise = otherwise
failover_or (some task) row otherwise = (clear_vm row, failed_over task)

-- The handlers of the exceptions. The task has two retries.
unfoldable pub handle_setup_error :
    SetupEnv → SetupCall → Option Mt5Account → SetupError → Option Mt5Account × SetupEnd
handle_setup_error env call row (trading_password text) =
    (reject_password password_message row, raised (trading_password text))
handle_setup_error env call row (permanent text) =
    failover_or (attempt_setup_failover env call (permanent text)) row
      (row, raised (permanent text))
handle_setup_error env call row (other_error text) =
    if leb 2 call.retries
    then failover_or (attempt_setup_failover env call (other_error text)) row
        (fail_row (classify_setup_error text) row, raised (other_error text))
    else (row, put_off)

unfoldable pub setup_succeeded : Text → Mt5Account → Mt5Account
setup_succeeded vm_id a = record a {
  is_active = true;
  connection_status = codes "connected";
  connection_error_message = none;
  vm_id = some vm_id;
}

abbrev pub run_setup :
    SetupEnv → Worker → SetupCall → Mt5Account → Terminal → Option Mt5Account × SetupEnd
run_setup env worker call a connected = (some (setup_succeeded worker.vm_id a), complete)
run_setup env worker call a (fails error) = handle_setup_error env call (some a) error

abbrev pub run_here :
    SetupEnv → Worker → SetupCall → Mt5Account → GuardOutcome → Option Mt5Account × SetupEnd
run_here env worker call a proceed = run_setup env worker call a (worker.run_terminal a)
run_here env worker call a gave_up = (some a, not_here gave_up)
run_here env worker call a (requeued queue target count) =
    (some a, not_here (requeued queue target count))

abbrev pub setup_guard : SetupEnv → Worker → SetupCall → GuardOutcome
setup_guard env worker call =
    guard_wrong_vm_task call.routing_key none (resolve_setup_target_vm_id env call.target_vm_id)
      worker.vm_id call.wrong_vm_redispatch_count 1

unfoldable pub setup_account :
    SetupEnv → Worker → SetupCall → Option Mt5Account → Option Mt5Account × SetupEnd
setup_account env worker call none = (none, account_missing)
setup_account env worker call (some a) =
    if is_orphaned a
    then handle_setup_error env call (some a)
        (permanent (codes "setup_mt5_terminal cannot run for an orphaned MT5 account"))
    else if is_some a.cleanup_marked_at
    then handle_setup_error env call (some a)
        (permanent (codes "setup_mt5_terminal cannot run while MT5 cleanup is pending"))
    else if not (has_saved_credentials a)
    then handle_setup_error env call (some a)
        (permanent (codes "setup_mt5_terminal cannot run without saved MT5 credentials"))
    else run_here env worker call a (setup_guard env worker call)

unfoldable pub setup_mt5_terminal :
    SetupEnv → Worker → SetupCall → Option Mt5Account → Option Mt5Account × SetupEnd
setup_mt5_terminal env worker call row =
    if not worker.is_windows
    then handle_setup_error env call row (permanent (codes "setup_mt5_terminal requires Windows"))
    else if not worker.has_base_path
    then handle_setup_error env call row
        (permanent (codes "MT5_BASE_PATH not found: " ++ worker.base_path))
    else setup_account env worker call row
