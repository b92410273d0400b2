-- ===== src/Dispatch.antt =====
-- helpers/mt5_dispatch.py: which queue a task of an MT5 account goes to. A VM id is ASCII text; an
-- id that is missing is the empty text, as `str(value or "")` makes it.
pub mod Slug
pub mod Casing
pub mod Setup
pub mod Guard
mod Examples
use fxjournal.Prelude.{
  ℕ, ◌≡◌, refl, Bool, true, false, ◌&&◌, ◌||◌, not, Option, none, some, List, [], ◌∷◌, ◌++◌, leb,
  ◌==◌, if◌then◌else◌, take, any_of, or_else,
}
use fxjournal.Prelude.Text.{Text, codes, contains_text, is_blank, lower, same_text, strip, strip_by}

abbrev pub dash : ℕ
dash = b'-'

-- The characters that `_QUEUE_SLUG_PATTERN` keeps: a-z and 0-9.
abbrev pub is_slug_char : ℕ → Bool
is_slug_char c = (leb b'a' c && leb c b'z') || (leb b'0' c && leb c b'9')

-- `re.sub("[...]+", "-", s)`: each run of characters that pass the test becomes one dash. The first
-- argument tells whether the character before was in a run.
unfoldable pub sub_runs : (ℕ → Bool) → Bool → Text → Text
sub_runs p inside [] = []
sub_runs p inside (c ∷ s) =
    let rest = sub_runs p (p c) s in
    if p c && inside then rest else (if p c then dash else c) ∷ rest

abbrev pub unknown : Text
unknown = codes "unknown"

abbrev pub queue_slug_max_len : ℕ
queue_slug_max_len = 48

abbrev or_unknown : Text → Text
or_unknown [] = unknown
or_unknown (c ∷ s) = take queue_slug_max_len (c ∷ s)

-- The text of a slug before it is cut, of an id that is not blank.
unfoldable pub slug_text : Text → Text
slug_text text =
    strip_by (λ c. c == dash)
      (sub_runs (λ c. c == dash) false (sub_runs (λ c. not (is_slug_char c)) false text))

unfoldable pub vm_id_to_queue_slug : Text → Text
vm_id_to_queue_slug vm_id =
    let text = lower (strip vm_id) in if is_blank text then unknown else or_unknown (slug_text text)

unfoldable pub normalize_vm_id : Text → Text
normalize_vm_id value = take 64 (strip value)

-- The text behind a prefix, in any case, if the text has it.
unfoldable pub behind_prefix : Text → Text → Option Text
behind_prefix [] s = some s
behind_prefix (_ ∷ _) [] = none
behind_prefix (p ∷ ps) (c ∷ s) =
    let rest = behind_prefix ps s in if same_text (lower (c ∷ [])) (p ∷ []) then rest else none

-- What `.+` matches to the end: a text that is not empty and has no line break.
abbrev one_line : Option Text → Option Text
one_line none = none
one_line (some s) = if is_blank s || any_of (λ c. c == 10) s then none else some s

-- `^mt5-(?:sync|setup)@(.+)$`, ignoring case.
unfoldable pub celery_vm_id : Text → Option Text
celery_vm_id text =
    or_else (one_line (behind_prefix (codes "mt5-sync@") text))
      (one_line (behind_prefix (codes "mt5-setup@") text))

abbrev named_part : Text → Option Text → Text
named_part text none = text
named_part text (some s) = strip s

abbrev drop_unknown : Text → Text
drop_unknown text = if same_text (lower text) unknown then [] else text

-- `canonical_monitor_vm_id`, which `routing_vm_id` calls.
unfoldable pub routing_vm_id : Text → Text
routing_vm_id value =
    let text = strip value in drop_unknown (take 64 (named_part text (celery_vm_id text)))

pub data QueueKind : Type 0 where
  sync priority setup : QueueKind

abbrev pub base_queue : QueueKind → Text
base_queue sync = codes "mt5_sync"
base_queue priority = codes "mt5_priority"
base_queue setup = codes "mt5_setup"

-- The queue of a kind and a VM id; the id "unknown" has the base queue.
unfoldable pub kind_queue_name : QueueKind → Text → Text
kind_queue_name kind vm_id =
    let slug = vm_id_to_queue_slug (routing_vm_id vm_id) in
    if same_text slug unknown then base_queue kind else base_queue kind ++ (b'.' ∷ slug)

-- `mt5_queue_name`, where `none` is the ValueError of a kind that is not known.
unfoldable pub mt5_queue_name : Text → Text → Option Text
mt5_queue_name kind vm_id =
    let name = lower (strip kind) in
    if same_text name (codes "sync")
    then some (kind_queue_name sync vm_id)
    else if same_text name (codes "priority")
    then some (kind_queue_name priority vm_id)
    else if same_text name (codes "setup")
    then some (kind_queue_name setup vm_id)
    else none

-- A name that was seen is not added again; `names` holds what was seen.
abbrev pub add_unseen : List Text → Text → List Text
add_unseen names name = if contains_text name names then names else names ++ (name ∷ [])

unfoldable pub add_vms : List Text → List Text → List Text
add_vms names [] = names
add_vms names (vm_id ∷ rest) =
    let resolved = routing_vm_id vm_id in
    add_vms
      (if is_blank resolved
        then names
        else add_unseen
            (add_unseen (add_unseen names (kind_queue_name sync resolved))
              (kind_queue_name priority resolved))
            (kind_queue_name setup resolved))
      rest

abbrev legacy_queues : List Text
legacy_queues = base_queue priority ∷ base_queue sync ∷ base_queue setup ∷ []

unfoldable pub scoped_mt5_queue_names : List Text → Bool → List Text
scoped_mt5_queue_names vm_ids include_legacy =
    add_vms (if include_legacy then legacy_queues else []) vm_ids

slug_example : vm_id_to_queue_slug (codes " My VM__01 ") ≡ codes "my-vm-01"
unfolding vm_id_to_queue_slug lower strip slug_text sub_runs strip_by
slug_example = refl

queue_example :
    mt5_queue_name (codes "Sync") (codes "MT5-Setup@VM 1") ≡ some (codes "mt5_sync.vm-1")
unfolding mt5_queue_name kind_queue_name routing_vm_id celery_vm_id behind_prefix
    vm_id_to_queue_slug lower strip slug_text sub_runs strip_by same_text
queue_example = refl
