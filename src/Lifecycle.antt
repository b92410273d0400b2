-- ===== src/Lifecycle.antt =====
-- helpers/core.py and models.py: how an MT5 account is archived, set up again and cleaned up, and the
-- VM that does it. The account is one that was found. Whether the task queue takes a task and the
-- database a commit is an argument.
pub mod Archived
pub mod Beat
pub mod Errors
pub mod Terminal
pub mod Failover
pub mod Pending
mod Examples
use fxjournal.Prelude.{
  ℕ, zero, suc, ◌-◌, ◌≡◌, Bool, true, false, ◌&&◌, ◌||◌, not, Option, none, some, List, [], ◌∷◌,
  ◌++◌, leb, if◌then◌else◌, is_some, length, take, drop, keep,
}
use fxjournal.Prelude.Text.{Text, codes, is_blank, lower, or_empty, same_text, strip}
use fxjournal.Models.{Stamp, Mt5Account, is_orphaned, is_archived, has_saved_credentials}
use fxjournal.Dispatch.{routing_vm_id}
use fxjournal.Dispatch.Setup.{SetupEnv}
use fxjournal.Dispatch.Guard.{SetupTask, dispatch_mt5_setup}

-- `s[-4:]`.
abbrev last_four : Text → Text
last_four s = drop (length s - 4) s

abbrev is_digit : ℕ → Bool
is_digit c = leb b'0' c && leb c b'9'

abbrev masked_suffix : Text → Text → Text
masked_suffix text (d ∷ ds) = last_four (d ∷ ds)
masked_suffix (c ∷ s) [] = last_four (c ∷ s)
masked_suffix [] [] = codes "unknown"

unfoldable pub mask_mt5_account_number_for_cleanup : Text → Text
mask_mt5_account_number_for_cleanup account_number =
    let text = strip account_number in
    if same_text (take 8 text) (codes "cleanup-")
    then take 50 text
    else take 50 (codes "cleanup-" ++ masked_suffix text (keep is_digit text))

abbrev first_stamp : Option Stamp → Option Stamp → Stamp → Stamp
first_stamp (some s) _ _ = s
first_stamp none (some s) _ = s
first_stamp none none now = now

unfoldable pub mark_for_cleanup : Option Stamp → Stamp → Mt5Account → Mt5Account
mark_for_cleanup marked_at now a = record a {
  user_id = none;
  trade_account_id = none;
  account_number = mask_mt5_account_number_for_cleanup a.account_number;
  investor_password_encrypted = none;
  is_active = false;
  cleanup_marked_at = some (first_stamp marked_at a.cleanup_marked_at now);
  archived_at = none;
  archive_reason = none;
  mt5_consent_accepted_at = none;
  mt5_consent_version = none;
  connection_status = codes "pending";
  connection_error_message = none;
  sync_paused_at = none;
  sync_pause_reason = none;
}

pub data Reply : Type 0 where
  cleanup_only already_archived not_archived no_credentials no_vm not_queued not_saved done : Reply

abbrev text_or_none : Text → Option Text
text_or_none [] = none
text_or_none (c ∷ s) = some (c ∷ s)

abbrev pub archived_account : Stamp → Text → Mt5Account → Mt5Account
archived_account now archive_reason a = record a {
  is_active = false;
  archived_at = some now;
  archive_reason = text_or_none (strip archive_reason);
}

unfoldable pub archive_mt5_account : Bool → Stamp → Text → Mt5Account → Mt5Account × Reply
archive_mt5_account commits now archive_reason a =
    if is_orphaned a
    then (a, cleanup_only)
    else if is_archived a
    then (a, already_archived)
    else if not (has_saved_credentials a)
    then (a, no_credentials)
    else if commits
    then (archived_account now archive_reason a, done)
    else (a, not_saved)

abbrev or_text : Text → Text → Text
or_text [] b = b
or_text (c ∷ s) _ = c ∷ s

-- `canonical_monitor_vm_id(target) if str(target or "").strip() else ""`.
abbrev explicit_vm : Text → Text
explicit_vm target = if is_blank (strip target) then [] else routing_vm_id target

abbrev pub stored_vm : Mt5Account → Text
stored_vm a = routing_vm_id (or_empty a.vm_id)

-- `none` is the refusal, with its message.
unfoldable pub resolve_mt5_cleanup_target_vm : Mt5Account → Text → Option Text
resolve_mt5_cleanup_target_vm a target =
    let explicit = explicit_vm target in
    let stored = stored_vm a in
    if not (is_blank explicit)
      && not (is_blank stored)
      && not (same_text (lower explicit) (lower stored))
    then none
    else text_or_none (or_text explicit stored)

unfoldable pub resolve_mt5_setup_target_vm : Mt5Account → Text → Option Text
resolve_mt5_setup_target_vm a target = text_or_none (or_text (explicit_vm target) (stored_vm a))

-- The VM of a reactivation; the outer `none` is the refusal of a strict one.
unfoldable pub reactivation_vm : Bool → Text → Mt5Account → Option (Option Text)
reactivation_vm true target a = elim (resolve_mt5_setup_target_vm a target) [
  | none ↦ none
  | some vm ↦ some (some vm)
]
reactivation_vm false target a = some (text_or_none (or_text (routing_vm_id target) (stored_vm a)))

abbrev reactivated_account : Bool → Option Text → Mt5Account → Mt5Account
reactivated_account true (some vm) a = record a {
  archived_at = none;
  archive_reason = none;
  vm_id = some vm;
}
reactivated_account true none a = record a { archived_at = none; archive_reason = none }
reactivated_account false _ a = record a { archived_at = none; archive_reason = none }

pub record Outcome : Type 0 where
  pub account : Mt5Account
  pub queued : Option SetupTask
  pub reply : Reply

abbrev refused : Mt5Account → Reply → Outcome
refused a reply = record { account = a; queued = none; reply = reply }

abbrev or_target : Option Text → Text → Text
or_target none target = target
or_target (some vm) _ = vm

-- The part from the dispatch on.
unfoldable pub dispatch_reactivation :
    SetupEnv → Bool → Bool → Text → Bool → Option Text → Mt5Account → Outcome
dispatch_reactivation env queues commits target strict vm a =
    let task =
      dispatch_mt5_setup env (or_target vm target) (not strict && is_blank (strip target)) 0 in
    if not queues
    then refused a not_queued
    else if commits
    then record { account = reactivated_account strict vm a; queued = some task; reply = done }
    else record { account = a; queued = some task; reply = not_saved }

abbrev dispatch_or_refuse :
    SetupEnv → Bool → Bool → Text → Bool → Option (Option Text) → Mt5Account → Outcome
dispatch_or_refuse env queues commits target strict none a = refused a no_vm
dispatch_or_refuse env queues commits target strict (some vm) a =
    dispatch_reactivation env queues commits target strict vm a

unfoldable pub reactivate_mt5_account : SetupEnv → Bool → Bool → Text → Bool → Mt5Account → Outcome
reactivate_mt5_account env queues commits target strict a =
    if is_orphaned a
    then refused a cleanup_only
    else if not (is_archived a)
    then refused a not_archived
    else if not (has_saved_credentials a)
    then refused a no_credentials
    else dispatch_or_refuse env queues commits target strict (reactivation_vm strict target a) a
