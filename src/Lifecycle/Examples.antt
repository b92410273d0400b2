-- ===== src/Lifecycle/Examples.antt =====
-- The theorems on the life of an account, at concrete accounts.
use fxjournal.Prelude.{◌≡◌, refl, true, false, none, some, List, [], ◌∷◌, all_of}
use fxjournal.Prelude.Int.{pos}
use fxjournal.Prelude.Text.{
  codes, lower, same_text, strip, strip_by, drop_while, is_blank, contains_text, split_on,
}
use fxjournal.Models.{naive, Mt5Account, is_archived, is_orphaned, has_saved_credentials}
use fxjournal.Dispatch.{
  routing_vm_id, celery_vm_id, behind_prefix, normalize_vm_id, vm_id_to_queue_slug, slug_text,
  sub_runs,
}
use fxjournal.Dispatch.Setup.{
  SetupEnv, add_setup_vms, next_setup_failover_vm_id, parse_setup_vm_ids_env,
  resolve_setup_target_vm_id, setup_failover_max_vms,
}
use fxjournal.Dispatch.Guard.{guard_wrong_vm_task, proceed}
use fxjournal.Lifecycle.{
  archive_mt5_account, archived_account, done, resolve_mt5_cleanup_target_vm, stored_vm,
  mark_for_cleanup,
}
use fxjournal.Lifecycle.Archived.{
  Operation, archive, reactivate, clean_up, perform_all, is_consistent, archived_stays_off,
}
use fxjournal.Lifecycle.Errors.{SetupError, other_error, permanent}
use fxjournal.Lifecycle.Pending.{late_setup_revives, late_setup_strands_cleanup}
use fxjournal.Lifecycle.Terminal.{
  SetupCall, Worker, complete, connected, setup_guard, setup_mt5_terminal,
}
use fxjournal.Lifecycle.Beat.{Reads}

abbrev account : Mt5Account
account = record {
  id = 3;
  user_id = some 7;
  trade_account_id = some 5;
  account_number = codes "123456";
  investor_password_encrypted = some (codes "x");
  is_active = true;
  last_synced_at = some (naive 40);
  vm_id = some (codes "VM-1");
  cleanup_marked_at = none;
  archived_at = none;
  archive_reason = none;
  mt5_consent_accepted_at = none;
  mt5_consent_version = none;
  connection_status = codes "connected";
  connection_error_message = none;
  mt5_trial_started_at = none;
  sync_paused_at = none;
  sync_pause_reason = none;
}

abbrev waiting_account : Mt5Account
waiting_account = record account { id = 4; last_synced_at = some (naive 30) }

abbrev accounts : List Mt5Account
accounts = account ∷ waiting_account ∷ []

abbrev env : SetupEnv
env = record { setup_vm_ids = none; setup_default_vm_id = none; failover_max_vms = none }

abbrev archived_now : Mt5Account
archived_now = archived_account (naive 90) (codes "inactivity") account

abbrev operations : List Operation
operations =
    archive true (naive 90) (codes "inactivity")
    ∷ reactivate env true true [] false
    ∷ clean_up none (naive 95)
    ∷ []

account_archived :
    archive_mt5_account true (naive 90) (codes "inactivity") account ≡ (archived_now, done)
unfolding archive_mt5_account is_archived is_orphaned has_saved_credentials strip strip_by
    drop_while
account_archived = refl

account_is_consistent : is_consistent account ≡ true
unfolding is_archived
account_is_consistent = refl

archived_stays_off_example : is_consistent (perform_all operations account) ≡ true
archived_stays_off_example = archived_stays_off operations account account_is_consistent

cleanup_target : resolve_mt5_cleanup_target_vm account (codes "vm-1") ≡ some (codes "vm-1")
unfolding resolve_mt5_cleanup_target_vm routing_vm_id celery_vm_id behind_prefix lower strip
    strip_by drop_while same_text
cleanup_target = refl

account_has_vm : is_blank (stored_vm account) ≡ false
unfolding routing_vm_id celery_vm_id behind_prefix lower strip strip_by drop_while same_text
account_has_vm = refl

abbrev reads : Reads
reads = record { holder = λ id. some none; depth = λ name. some 0 }

accounts_consistent : all_of is_consistent accounts ≡ true
unfolding is_archived
accounts_consistent = refl

abbrev three_vms : SetupEnv
three_vms = record {
  setup_vm_ids = some (codes "VM-1, VM-2, VM-3");
  setup_default_vm_id = none;
  failover_max_vms = some (pos 2);
}

abbrev worker : Worker
worker = record {
  vm_id = codes "VM-1";
  is_windows = true;
  base_path = codes "C:/mt5";
  has_base_path = true;
  run_terminal = λ _. connected;
}

abbrev call : SetupCall
call = record {
  target_vm_id = codes "VM-1";
  allow_failover = true;
  setup_attempt_index = 0;
  wrong_vm_redispatch_count = 0;
  routing_key = codes "mt5_setup.vm-1";
  retries = 0;
}

abbrev late_errors : List SetupError
late_errors =
    other_error (codes "IPC connection lost")
    ∷ permanent (codes "AppData folder not created")
    ∷ other_error (codes "request timed out")
    ∷ []

worker_is_right : setup_guard three_vms worker call ≡ proceed
unfolding slug_text sub_runs guard_wrong_vm_task resolve_setup_target_vm_id vm_id_to_queue_slug
    normalize_vm_id routing_vm_id celery_vm_id behind_prefix strip strip_by drop_while lower
    same_text
worker_is_right = refl

late_setup_revives_example :
    (c : Mt5Account) × (setup_mt5_terminal three_vms worker call (some archived_now)
      ≡ (some c, complete))
    × (c.archived_at ≡ some (naive 90))
    × (c.is_active ≡ true)
late_setup_revives_example =
    late_setup_revives three_vms worker call refl refl (naive 90) (codes "inactivity") account
      archived_now account_archived refl worker_is_right refl

vm_two_is_next : next_setup_failover_vm_id three_vms 0 ≡ some (codes "VM-2")
unfolding next_setup_failover_vm_id setup_failover_max_vms parse_setup_vm_ids_env add_setup_vms
    split_on normalize_vm_id contains_text strip strip_by drop_while lower same_text
vm_two_is_next = refl

late_setup_strands_cleanup_example :
    let b = mark_for_cleanup none (naive 95) account in
    (resolve_mt5_cleanup_target_vm b [] ≡ some (stored_vm account))
    × ((c : Mt5Account) × ((setup_mt5_terminal three_vms worker call (some b)).0 ≡ some c)
        × (resolve_mt5_cleanup_target_vm c [] ≡ none))
late_setup_strands_cleanup_example =
    late_setup_strands_cleanup three_vms worker call refl refl none (naive 95) account
      (codes "VM-2") refl vm_two_is_next account_has_vm
