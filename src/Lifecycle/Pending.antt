-- ===== src/Lifecycle/Pending.antt =====
-- celery_workers/mt5_setup_tasks.py: setups that were queued before their account was archived or marked
-- for cleanup, and run after it.
use fxjournal.Prelude.{
  suc, ◌∷◌, ◌≡◌, ◌∙◌, refl, ap, Bool, true, false, Option, none, some, [], is_some, if◌then◌else◌,
}
use fxjournal.Prelude.Text.{Text, codes, drop_while, is_blank, lower, same_text, strip, strip_by}
use fxjournal.Models.{Stamp, Mt5Account, is_orphaned, has_saved_credentials}
use fxjournal.Dispatch.{behind_prefix, celery_vm_id, routing_vm_id}
use fxjournal.Dispatch.Setup.{SetupEnv, next_setup_failover_vm_id, next_vm}
use fxjournal.Dispatch.Guard.{GuardOutcome, SetupTask, dispatch_mt5_setup, proceed}
use fxjournal.Lifecycle.{
  archive_mt5_account, archived_account, done, mark_for_cleanup, resolve_mt5_cleanup_target_vm,
  stored_vm, text_or_none,
}
use fxjournal.Lifecycle.Archived.{archive-done}
use fxjournal.Lifecycle.Errors.{SetupError, has_token, is_setup_failover_eligible_error, permanent}
use fxjournal.Lifecycle.Failover.{handed}
use fxjournal.Lifecycle.Terminal.{
  SetupCall, SetupEnd, Terminal, Worker, attempt_setup_failover, complete, connected, failover_or,
  hand_over, handle_setup_error, raised, run_here, run_setup, setup_account, setup_guard,
  setup_mt5_terminal, setup_succeeded,
}

abbrev orphan_error : SetupError
orphan_error = permanent (codes "setup_mt5_terminal cannot run for an orphaned MT5 account")

orphan_error_fails_over : is_setup_failover_eligible_error orphan_error ≡ true
unfolding is_setup_failover_eligible_error has_token lower
orphan_error_fails_over = refl

own_vm : (s : Text) → is_blank s ≡ false → text_or_none s ≡ some s
own_vm [] h = cc
own_vm (c ∷ s) h = refl

module _ (env : SetupEnv) (worker : Worker) (call : SetupCall) (windows : worker.is_windows ≡ true)
    (based : worker.has_base_path ≡ true) where
  on_worker :
      (row : Option Mt5Account)
      → setup_mt5_terminal env worker call row ≡ setup_account env worker call row
  unfolding setup_mt5_terminal
  on_worker row = rw (windows, based) refl

  -- A setup that starts after its account was archived, while no cleanup is pending, and whose terminal connects, on a Windows worker that has the base terminal and that its guard lets proceed, completes and leaves the account archived and switched on: none of its checks looks whether the account is archived.
  pub late_setup_revives :
      (now : Stamp) (reason : Text) (a b : Mt5Account)
      → archive_mt5_account true now reason a ≡ (b, done)
      → a.cleanup_marked_at ≡ none
      → setup_guard env worker call ≡ proceed
      → worker.run_terminal b ≡ connected
      → (c : Mt5Account) × (setup_mt5_terminal env worker call (some b) ≡ (some c, complete))
        × (c.archived_at ≡ some now)
        × (c.is_active ≡ true)
  unfolding setup_account setup_succeeded is_orphaned has_saved_credentials
  late_setup_revives now reason a b h unmarked here connects =
      let (shape, orphaned, archived, saved) = archive-done now reason a b h in
      (
        setup_succeeded worker.vm_id b,
        on_worker (some b) ∙ passes shape orphaned saved,
        ap (λ (r : Mt5Account). r.archived_at) shape,
        refl,
      )
    where
      runs :
          run_here env worker call b (setup_guard env worker call)
          ≡ (some (setup_succeeded worker.vm_id b), complete)
      runs =
          ap (λ (o : GuardOutcome). run_here env worker call b o) here
          ∙ ap (λ (t : Terminal). run_setup env worker call b t) connects

      passes :
          b ≡ archived_account now reason a
          → is_orphaned a ≡ false
          → has_saved_credentials a ≡ true
          → setup_account env worker call (some b)
            ≡ (some (setup_succeeded worker.vm_id b), complete)
      passes shape orphaned saved =
          let orphan : is_orphaned b ≡ false = ap is_orphaned shape ∙ orphaned in
          let credentials : has_saved_credentials b ≡ true =
            ap has_saved_credentials shape ∙ saved in
          let mark : is_some b.cleanup_marked_at ≡ false =
            ap (λ (r : Mt5Account). is_some r.cleanup_marked_at) shape ∙ ap is_some unmarked in
          rw (orphan, mark, credentials) runs

  -- A queued setup of an account with a VM that starts after the account was marked for cleanup, on a Windows worker that has the base terminal, with failover allowed and another VM to go on to, makes the cleanup lose its VM: before it the cleanup of the account goes to the account's own VM, and after it there is none for it.
  pub late_setup_strands_cleanup :
      (marked_at : Option Stamp) (now : Stamp) (a : Mt5Account) (v : Text)
      → call.allow_failover ≡ true
      → next_setup_failover_vm_id env call.setup_attempt_index ≡ some v
      → is_blank (stored_vm a) ≡ false
      → let b = mark_for_cleanup marked_at now a in
        (resolve_mt5_cleanup_target_vm b [] ≡ some (stored_vm a))
        × ((c : Mt5Account) × ((setup_mt5_terminal env worker call (some b)).0 ≡ some c)
            × (resolve_mt5_cleanup_target_vm c [] ≡ none))
  unfolding mark_for_cleanup resolve_mt5_cleanup_target_vm setup_account handle_setup_error
      is_orphaned routing_vm_id celery_vm_id behind_prefix lower strip strip_by drop_while same_text
  late_setup_strands_cleanup marked_at now a v allowed next has = (
    own_vm (stored_vm a) has,
    (
      record marked { vm_id = none },
      ap (λ (r : Option Mt5Account × SetupEnd). r.0)
          (on_worker (some marked)
            ∙ ap
                (λ (task : Option SetupTask).
                  failover_or task (some marked) (some marked, raised orphan_error))
                handing),
      refl,
    ),
  )
    where
      marked : Mt5Account
      marked = mark_for_cleanup marked_at now a

      handing :
          attempt_setup_failover env call orphan_error
          ≡ some (dispatch_mt5_setup env v true (suc call.setup_attempt_index))
      handing =
          handed env call orphan_error allowed orphan_error_fails_over
          ∙ ap (hand_over env call) next
          ∙ ap
              (λ (blank : Bool).
                if blank
                then none
                else some (dispatch_mt5_setup env v true (suc call.setup_attempt_index)))
              (next_vm env call.setup_attempt_index v next).0
