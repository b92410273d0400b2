-- ===== src/Lifecycle/Archived.antt =====
-- What archiving keeps true, and what a reactivation brings back.
use fxjournal.Prelude.{
  ◌≡◌, refl, Bool, true, false, ◌&&◌, not, Option, none, some, List, [], ◌∷◌, if◌then◌else◌,
  is_some, arith, Bool-cases, inl, inr,
}
use fxjournal.Prelude.Text.{Text, is_blank, lower, same_text, same_text-eq}
use fxjournal.Models.{Stamp, Mt5Account, is_orphaned, is_archived, has_saved_credentials}
use fxjournal.Dispatch.Setup.{SetupEnv}
use fxjournal.Lifecycle.{
  Outcome, Reply, done, archive_mt5_account, archived_account, dispatch_or_refuse,
  dispatch_reactivation, reactivated_account, mark_for_cleanup, reactivate_mt5_account,
  reactivation_vm, resolve_mt5_cleanup_target_vm, stored_vm, explicit_vm, or_text, text_or_none,
}

-- The operations on the row that an administrator or a user asks for; a setup that a reactivation queues
-- runs later and is none of them.
pub data Operation : Type 0 where
  archive : Bool → Stamp → Text → Operation
  reactivate : SetupEnv → Bool → Bool → Text → Bool → Operation
  clean_up : Option Stamp → Stamp → Operation

abbrev pub perform : Operation → Mt5Account → Mt5Account
perform (archive commits now reason) a = (archive_mt5_account commits now reason a).0
perform (reactivate env queues commits target strict) a =
    (reactivate_mt5_account env queues commits target strict a).account
perform (clean_up marked_at now) a = mark_for_cleanup marked_at now a

abbrev pub perform_all : List Operation → Mt5Account → Mt5Account
perform_all [] a = a
perform_all (op ∷ ops) a = perform_all ops (perform op a)

-- An archived account is switched off.
abbrev pub is_consistent : Mt5Account → Bool
is_consistent a = not (is_archived a && a.is_active)

if_keeps :
    {A : Type 0} (P : A → Bool) (c : Bool) (x y : A)
    → P x ≡ true
    → P y ≡ true
    → P (if c then x else y) ≡ true
if_keeps P true x y hx hy = hx
if_keeps P false x y hx hy = hy

archive-is_consistent :
    (commits : Bool) (now : Stamp) (reason : Text) (a : Mt5Account)
    → is_consistent a ≡ true
    → is_consistent (archive_mt5_account commits now reason a).0 ≡ true
unfolding archive_mt5_account is_archived
archive-is_consistent commits now reason a h =
    let kept = λ (r : Mt5Account × Reply). is_consistent r.0 in
    if_keeps kept (is_orphaned a) _ _ h (
      if_keeps kept (is_archived a) _ _ h
        (if_keeps kept (not (has_saved_credentials a)) _ _ h (if_keeps kept commits _ _ refl h)))

reactivated_account-is_consistent :
    (strict : Bool) (vm : Option Text) (a : Mt5Account)
    → is_consistent (reactivated_account strict vm a) ≡ true
unfolding is_archived
reactivated_account-is_consistent true (some vm) a = refl
reactivated_account-is_consistent true none a = refl
reactivated_account-is_consistent false vm a = refl

dispatch-is_consistent :
    (env : SetupEnv) (queues commits : Bool) (target : Text) (strict : Bool)
    (vm : Option (Option Text)) (a : Mt5Account)
    → is_consistent a ≡ true
    → is_consistent (dispatch_or_refuse env queues commits target strict vm a).account ≡ true
unfolding dispatch_reactivation
dispatch-is_consistent env queues commits target strict none a h = h
dispatch-is_consistent env queues commits target strict (some vm) a h =
    let kept = λ (o : Outcome). is_consistent o.account in
    if_keeps kept (not queues) _ _ h
      (if_keeps kept commits _ _ (reactivated_account-is_consistent strict vm a) h)

reactivate-is_consistent :
    (env : SetupEnv) (queues commits : Bool) (target : Text) (strict : Bool) (a : Mt5Account)
    → is_consistent a ≡ true
    → is_consistent (reactivate_mt5_account env queues commits target strict a).account ≡ true
unfolding reactivate_mt5_account
reactivate-is_consistent env queues commits target strict a h =
    let kept = λ (o : Outcome). is_consistent o.account in
    if_keeps kept (is_orphaned a) _ _ h (
      if_keeps kept (not (is_archived a)) _ _ h (
        if_keeps kept (not (has_saved_credentials a)) _ _ h (
          dispatch-is_consistent env queues commits target strict (reactivation_vm strict target a)
            a h)))

perform-is_consistent :
    (op : Operation) (a : Mt5Account) → is_consistent a ≡ true → is_consistent (perform op a) ≡ true
unfolding mark_for_cleanup is_archived
perform-is_consistent (archive commits now reason) a h =
    archive-is_consistent commits now reason a h
perform-is_consistent (reactivate env queues commits target strict) a h =
    reactivate-is_consistent env queues commits target strict a h
perform-is_consistent (clean_up marked_at now) a h = refl

-- Through any archivings, requests to reactivate and marks for cleanup, an account that was switched off while archived at first is so after each of them, whether tasks are queued and changes saved or not. The end of a setup is none of these operations.
pub archived_stays_off :
    (ops : List Operation) (a : Mt5Account)
    → is_consistent a ≡ true
    → is_consistent (perform_all ops a) ≡ true
archived_stays_off [] a h = h
archived_stays_off (op ∷ ops) a h =
    archived_stays_off ops (perform op a) (perform-is_consistent op a h)

pub archive-done :
    (now : Stamp) (reason : Text) (a b : Mt5Account)
    → archive_mt5_account true now reason a ≡ (b, done)
    → (b ≡ archived_account now reason a)
      × (is_orphaned a ≡ false)
      × (is_archived a ≡ false)
      × (has_saved_credentials a ≡ true)
unfolding archive_mt5_account
archive-done now reason a b h = ground arith

-- A reactivation that is queued and saved, and leaves the VM to the routing, undoes an archiving: of the archived account it changes only the marks of the archive, so that what it leaves is the account as it was, switched off; and it queues a setup.
pub archive-reactivate :
    (env : SetupEnv) (now : Stamp) (reason target : Text) (a b : Mt5Account)
    → archive_mt5_account true now reason a ≡ (b, done)
    → let outcome = reactivate_mt5_account env true true target false b in
      (outcome.account ≡ record a { is_active = false; archived_at = none; archive_reason = none })
      × (outcome.reply ≡ done)
      × (is_some outcome.queued ≡ true)
unfolding reactivate_mt5_account is_archived is_orphaned has_saved_credentials dispatch_reactivation
    reactivation_vm
archive-reactivate env now reason target a b h =
    let (shape, orphaned, archived, saved) = archive-done now reason a b h in
    rw shape (rw orphaned (rw saved (refl, refl, refl)))

cleanup_choice :
    (e s vm : Text)
    → (if not (is_blank e) && not (is_blank s) && not (same_text (lower e) (lower s))
        then none
        else text_or_none (or_text e s))
      ≡ some vm
    → is_blank s ≡ false
    → lower vm ≡ lower s
cleanup_choice [] [] vm h has = cc
cleanup_choice [] (c ∷ s) vm h has = cc h
cleanup_choice (d ∷ e) [] vm h has = cc
cleanup_choice (d ∷ e) (c ∷ s) vm h has =
    elim (Bool-cases (same_text (lower (d ∷ e)) (lower (c ∷ s)))) [
      | inl same ↦
          let equal = same_text-eq (lower (d ∷ e)) (lower (c ∷ s)) same in ground (arith, equal)
      | inr other ↦ ground arith
    ]

-- The VM of a cleanup is the account's own up to case, where the account has one.
pub cleanup_stays_home :
    (a : Mt5Account) (target vm : Text)
    → resolve_mt5_cleanup_target_vm a target ≡ some vm
    → is_blank (stored_vm a) ≡ false
    → lower vm ≡ lower (stored_vm a)
unfolding resolve_mt5_cleanup_target_vm
cleanup_stays_home a target vm h has = cleanup_choice (explicit_vm target) (stored_vm a) vm h has
