-- ===== src/Interpretation/Audit.antt =====
-- What a change of a trade's interpretation leaves, and what its history tells.
use fxjournal.Prelude.{
  ℕ, ◌≡◌, ◌∙◌, refl, sym, ap, Bool, true, false, not, Option, none, some, List, [], ◌∷◌,
  if◌then◌else◌, is_some, arith, Bool-cases, inl, inr,
}
use fxjournal.Prelude.Text.{Text, is_space, same_text-eq, same_text_self, strip}
use fxjournal.Prelude.Strip.{strip_by_idem}
use fxjournal.Interpretation.{
  Changes, HistoryRow, Interpreted, Row, Snapshot, apply_interpretation, blank_snapshot,
  interpretation_snapshot, is_empty, normalize_bundle_pubkey, or_kept, or_kept_bundle, requested,
  row_of, row_snapshot, same_bundle, same_flag, same_snapshot, text_or_none,
}

text_or_none-normalized :
    (t : Text) → strip t ≡ t → normalize_bundle_pubkey (text_or_none t) ≡ text_or_none t
unfolding normalize_bundle_pubkey
text_or_none-normalized [] h = refl
text_or_none-normalized (c ∷ s) h = rw h refl

strip_idem : (s : Text) → strip (strip s) ≡ strip s
unfolding strip
strip_idem s = strip_by_idem is_space s

normalized_again :
    (b : Option Text)
    → normalize_bundle_pubkey (normalize_bundle_pubkey b) ≡ normalize_bundle_pubkey b
unfolding normalize_bundle_pubkey
normalized_again none = refl
normalized_again (some t) = text_or_none-normalized (strip t) (strip_idem t)

row_is_normalized :
    (r : Option Row) → normalize_bundle_pubkey (row_snapshot r).bundle ≡ (row_snapshot r).bundle
unfolding normalize_bundle_pubkey
row_is_normalized none = refl
row_is_normalized (some r) = normalized_again r.bundle_pubkey

snapshot_is_normalized :
    (s : Interpreted)
    → normalize_bundle_pubkey (interpretation_snapshot s).bundle
      ≡ (interpretation_snapshot s).bundle
snapshot_is_normalized s = row_is_normalized s.row

same_flag-eq : (a b : Bool) → same_flag a b ≡ true → a ≡ b
same_flag-eq a b h = ground arith

same_bundle-eq : (a b : Option Text) → same_bundle a b ≡ true → a ≡ b
same_bundle-eq none none h = refl
same_bundle-eq none (some b) h = cc
same_bundle-eq (some a) none h = cc
same_bundle-eq (some a) (some b) h = ap some (same_text-eq a b h)

snapshot_eq :
    (a b : Snapshot)
    → a.bundle ≡ b.bundle
    → a.revenge ≡ b.revenge
    → a.reactive ≡ b.reactive
    → a.corrective ≡ b.corrective
    → a ≡ b
snapshot_eq a b h k l m = cc

same_snapshot-eq : (a b : Snapshot) → same_snapshot a b ≡ true → a ≡ b
unfolding same_snapshot
same_snapshot-eq a b h =
    let bundles = same_bundle-eq a.bundle b.bundle (ground arith) in
    let revenges = same_flag-eq a.revenge b.revenge (ground arith) in
    let reactives = same_flag-eq a.reactive b.reactive (ground arith) in
    let correctives = same_flag-eq a.corrective b.corrective (ground arith) in
    snapshot_eq a b bundles revenges reactives correctives

same_bundle_self : (a : Option Text) → same_bundle a a ≡ true
same_bundle_self none = refl
same_bundle_self (some a) = same_text_self a

same_snapshot_self : (a : Snapshot) → same_snapshot a a ≡ true
unfolding same_snapshot
same_snapshot_self a = rw (same_bundle_self a.bundle) (ground arith)

no_bundle : (o : Option Text) → not (is_some o) ≡ true → o ≡ none
no_bundle none h = refl
no_bundle (some t) h = cc

empty_is_blank : (v : Snapshot) → is_empty v ≡ true → v ≡ blank_snapshot
empty_is_blank v h =
    snapshot_eq v blank_snapshot (no_bundle v.bundle (ground arith)) (ground arith) (ground arith)
      (ground arith)

-- What the row that is kept, or none, tells of the values.
kept_row :
    (v : Snapshot) (now : ℕ)
    → normalize_bundle_pubkey v.bundle ≡ v.bundle
    → row_snapshot (if is_empty v then none else some (row_of v now)) ≡ v
kept_row v now h = elim (Bool-cases (is_empty v)) [
  | inl empty ↦ rw empty (sym (empty_is_blank v empty))
  | inr kept ↦ rw kept (rw h refl)
]

or_kept_bundle-normalized :
    (o : Option (Option Text)) (kept : Option Text)
    → normalize_bundle_pubkey kept ≡ kept
    → normalize_bundle_pubkey (or_kept_bundle o kept) ≡ or_kept_bundle o kept
or_kept_bundle-normalized none kept h = h
or_kept_bundle-normalized (some b) kept h = normalized_again b

requested-normalized :
    (ch : Changes) (snap : Snapshot)
    → normalize_bundle_pubkey snap.bundle ≡ snap.bundle
    → normalize_bundle_pubkey (requested ch snap).bundle ≡ (requested ch snap).bundle
unfolding requested
requested-normalized ch snap h = or_kept_bundle-normalized ch.new_bundle snap.bundle h

-- Whether it deletes the row, inserts or updates one, or finds nothing to do, a call leaves the trade with the values that were asked for, and those that were not given as they stood.
pub apply_takes :
    (ch : Changes) (source : Text) (user_id : Option ℕ) (now : ℕ) (s : Interpreted)
    → interpretation_snapshot (apply_interpretation ch source user_id now s).0
      ≡ requested ch (interpretation_snapshot s)
unfolding apply_interpretation
apply_takes ch source user_id now s =
    elim (Bool-cases
      (same_snapshot (requested ch (interpretation_snapshot s)) (interpretation_snapshot s))) [
        | inl same ↦ rw same (sym (same_snapshot-eq _ _ same))
        | inr changed ↦ rw changed (
            kept_row (requested ch (interpretation_snapshot s)) now
              (requested-normalized ch (interpretation_snapshot s) (snapshot_is_normalized s)))
      ]

or_kept_again : (o : Option Bool) (b : Bool) → or_kept o (or_kept o b) ≡ or_kept o b
or_kept_again none b = refl
or_kept_again (some c) b = refl

or_kept_bundle_again :
    (o : Option (Option Text)) (b : Option Text)
    → or_kept_bundle o (or_kept_bundle o b) ≡ or_kept_bundle o b
or_kept_bundle_again none b = refl
or_kept_bundle_again (some c) b = refl

requested_again :
    (ch : Changes) (snap : Snapshot) → requested ch (requested ch snap) ≡ requested ch snap
unfolding requested
requested_again ch snap =
    snapshot_eq _ _ (or_kept_bundle_again ch.new_bundle snap.bundle)
      (or_kept_again ch.new_revenge snap.revenge) (or_kept_again ch.new_reactive snap.reactive)
      (or_kept_again ch.new_corrective snap.corrective)

apply_noop :
    (ch : Changes) (source : Text) (user_id : Option ℕ) (now : ℕ) (s : Interpreted)
    → requested ch (interpretation_snapshot s) ≡ interpretation_snapshot s
    → apply_interpretation ch source user_id now s ≡ (s, false)
unfolding apply_interpretation
apply_noop ch source user_id now s h =
    rw h (rw (same_snapshot_self (interpretation_snapshot s)) refl)

-- The same call again, whenever and by whomever, finds nothing to do: it changes neither the row nor the history, and says so.
pub apply_twice :
    (ch : Changes) (source again : Text) (user_id other : Option ℕ) (now later : ℕ)
    (s : Interpreted)
    → let first = (apply_interpretation ch source user_id now s).0 in
      apply_interpretation ch again other later first ≡ (first, false)
apply_twice ch source again user_id other now later s =
    let takes = apply_takes ch source user_id now s in
    apply_noop ch again other later _
      (ap (requested ch) takes ∙ requested_again ch (interpretation_snapshot s) ∙ sym takes)

-- The values that the history tells of: those of its newest entry.
abbrev pub told : List HistoryRow → Snapshot
told [] = blank_snapshot
told (h ∷ _) = h.values

-- A call of `apply_interpretation` with all that it is given.
pub record Call : Type 0 where
  pub changes : Changes
  pub source : Text
  pub user_id : Option ℕ
  pub now : ℕ

abbrev pub apply_all : List Call → Interpreted → Interpreted
apply_all [] s = s
apply_all (c ∷ cs) s = apply_all cs (apply_interpretation c.changes c.source c.user_id c.now s).0

told-requested :
    (ch : Changes) (source : Text) (user_id : Option ℕ) (now : ℕ) (s : Interpreted)
    → interpretation_snapshot s ≡ told s.history
    → requested ch (interpretation_snapshot s)
      ≡ told (apply_interpretation ch source user_id now s).0.history
unfolding apply_interpretation
told-requested ch source user_id now s h =
    elim (Bool-cases
      (same_snapshot (requested ch (interpretation_snapshot s)) (interpretation_snapshot s))) [
        | inl same ↦ rw same (same_snapshot-eq _ _ same ∙ h)
        | inr changed ↦ rw changed refl
      ]

told_after :
    (ch : Changes) (source : Text) (user_id : Option ℕ) (now : ℕ) (s : Interpreted)
    → interpretation_snapshot s ≡ told s.history
    → let after = (apply_interpretation ch source user_id now s).0 in
      interpretation_snapshot after ≡ told after.history
told_after ch source user_id now s h =
    apply_takes ch source user_id now s ∙ told-requested ch source user_id now s h

-- Through any calls the newest entry of the history tells the values that the trade has: nothing changes without an entry.
pub history_tells_all :
    (calls : List Call) (s : Interpreted)
    → interpretation_snapshot s ≡ told s.history
    → let after = apply_all calls s in interpretation_snapshot after ≡ told after.history
history_tells_all [] s h = h
history_tells_all (c ∷ cs) s h =
    history_tells_all cs _ (told_after c.changes c.source c.user_id c.now s h)
