-- ===== src/Interpretation.antt =====
-- helpers/trade_interpretation.py: the bundle and the behaviour flags of a trade, and their history.
-- A trade has an id, and each call finds its row as the database holds it.
pub mod Audit
mod Examples
use fxjournal.Prelude.{
  ℕ, ◌≡◌, Bool, true, false, ◌&&◌, ◌||◌, not, Option, none, some, List, [], ◌∷◌, if◌then◌else◌,
  is_some, take,
}
use fxjournal.Prelude.Text.{Text, codes, is_blank, same_text, strip}

pub record Row : Type 0 where
  pub bundle_pubkey : Option Text
  pub is_revenge : Bool
  pub is_reactive : Bool
  pub is_corrective : Bool
  pub updated_at : ℕ

-- What `interpretation_snapshot` returns.
pub record Snapshot : Type 0 where
  pub bundle : Option Text
  pub revenge : Bool
  pub reactive : Bool
  pub corrective : Bool

pub record HistoryRow : Type 0 where
  pub values : Snapshot
  pub source : Text
  pub user_id : Option ℕ
  pub created_at : ℕ

-- The interpretation row of the trade, and its history, the newest first.
pub record Interpreted : Type 0 where
  pub row : Option Row
  pub history : List HistoryRow

abbrev text_or_none : Text → Option Text
text_or_none [] = none
text_or_none (c ∷ s) = some (c ∷ s)

unfoldable pub normalize_bundle_pubkey : Option Text → Option Text
normalize_bundle_pubkey none = none
normalize_bundle_pubkey (some value) = text_or_none (strip value)

abbrev pub blank_snapshot : Snapshot
blank_snapshot = record { bundle = none; revenge = false; reactive = false; corrective = false }

abbrev row_snapshot : Option Row → Snapshot
row_snapshot none = blank_snapshot
row_snapshot (some r) = record {
  bundle = normalize_bundle_pubkey r.bundle_pubkey;
  revenge = r.is_revenge;
  reactive = r.is_reactive;
  corrective = r.is_corrective;
}

abbrev pub interpretation_snapshot : Interpreted → Snapshot
interpretation_snapshot s = row_snapshot s.row

-- An argument of the call; `none` is MISSING.
pub record Changes : Type 0 where
  pub new_bundle : Option (Option Text)
  pub new_revenge : Option Bool
  pub new_reactive : Option Bool
  pub new_corrective : Option Bool

abbrev or_kept : Option Bool → Bool → Bool
or_kept none kept = kept
or_kept (some b) _ = b

abbrev or_kept_bundle : Option (Option Text) → Option Text → Option Text
or_kept_bundle none kept = kept
or_kept_bundle (some b) _ = normalize_bundle_pubkey b

-- The values that the call is to leave.
unfoldable pub requested : Changes → Snapshot → Snapshot
requested ch snap = record {
  bundle = or_kept_bundle ch.new_bundle snap.bundle;
  revenge = or_kept ch.new_revenge snap.revenge;
  reactive = or_kept ch.new_reactive snap.reactive;
  corrective = or_kept ch.new_corrective snap.corrective;
}

abbrev same_flag : Bool → Bool → Bool
same_flag true b = b
same_flag false b = not b

abbrev same_bundle : Option Text → Option Text → Bool
same_bundle none none = true
same_bundle (some a) (some b) = same_text a b
same_bundle _ _ = false

unfoldable pub same_snapshot : Snapshot → Snapshot → Bool
same_snapshot a b =
    same_bundle a.bundle b.bundle
    && same_flag a.revenge b.revenge
    && same_flag a.reactive b.reactive
    && same_flag a.corrective b.corrective

-- Values that no row is kept for.
abbrev pub is_empty : Snapshot → Bool
is_empty v = not (is_some v.bundle) && not v.revenge && not v.reactive && not v.corrective

abbrev row_of : Snapshot → ℕ → Row
row_of v now = record {
  bundle_pubkey = v.bundle;
  is_revenge = v.revenge;
  is_reactive = v.reactive;
  is_corrective = v.corrective;
  updated_at = now;
}

abbrev or_unknown : Text → Text
or_unknown [] = codes "unknown"
or_unknown (c ∷ s) = c ∷ s

abbrev recorded : Snapshot → Text → Option ℕ → ℕ → HistoryRow
recorded v source user_id now = record {
  values = v;
  source = take 32 (or_unknown source);
  user_id = user_id;
  created_at = now;
}

-- The state after the call, and whether it changed: deleted, or inserted or updated, or left alone.
unfoldable pub apply_interpretation :
    Changes → Text → Option ℕ → ℕ → Interpreted → Interpreted × Bool
apply_interpretation ch source user_id now s =
    let snap = interpretation_snapshot s in
    let new = requested ch snap in
    if same_snapshot new snap then (s, false) else (
      record {
        row = if is_empty new then none else some (row_of new now);
        history = recorded new source user_id now ∷ s.history;
      },
      true,
    )
