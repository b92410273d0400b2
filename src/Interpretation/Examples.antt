-- ===== src/Interpretation/Examples.antt =====
-- The theorems on interpretations, at one trade.
use fxjournal.Prelude.{◌≡◌, refl, true, false, none, some, List, [], ◌∷◌}
use fxjournal.Prelude.Text.{codes}
use fxjournal.Interpretation.{Changes, Interpreted, interpretation_snapshot}
use fxjournal.Interpretation.Audit.{Call, apply_all, history_tells_all, told}

abbrev fresh : Interpreted
fresh = record { row = none; history = [] }

abbrev bundled : Changes
bundled = record {
  new_bundle = some (some (codes " b1 "));
  new_revenge = some true;
  new_reactive = none;
  new_corrective = none;
}

abbrev cleared : Changes
cleared = record {
  new_bundle = some none;
  new_revenge = some false;
  new_reactive = none;
  new_corrective = none;
}

abbrev calls : List Call
calls =
    record { changes = bundled; source = codes "user"; user_id = some 7; now = 100 }
    ∷ record { changes = cleared; source = []; user_id = none; now = 200 }
    ∷ []

history_tells_all_example :
    interpretation_snapshot (apply_all calls fresh) ≡ told (apply_all calls fresh).history
history_tells_all_example = history_tells_all calls fresh refl
