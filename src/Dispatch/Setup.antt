-- ===== src/Dispatch/Setup.antt =====
-- helpers/mt5_dispatch.py: the VMs that may set a terminal up, and the failover between them. The
-- environment variables are arguments; `none` is a variable that is not set.
use mathlib.Core.List.{map-append}
use fxjournal.Prelude.{
  ℕ, zero, suc, Bool, true, false, not, all_of, ◌-◌, ◌≡◌, refl, sym, ◌||◌, Option, none, some, List,
  [], ◌∷◌, ◌++◌, map, leb, if◌then◌else◌, get_elem?, take, drop, take-nil, drop-step, drop-end,
  arith, Bool-cases, inl, inr, max,
}
use fxjournal.Prelude.Int.{ℤ, pos, negsuc}
use fxjournal.Prelude.Text.{
  Text, codes, contains_text, IsDistinct, snoc-IsDistinct, is_blank, lower, or_empty, split_on,
  strip,
}
use fxjournal.Dispatch.{normalize_vm_id}

pub record SetupEnv : Type 0 where
  pub setup_vm_ids : Option Text
  pub setup_default_vm_id : Option Text
  -- What `int` reads of the failover limit; `none` where it raises. Not set, it is read from "2".
  pub failover_max_vms : Option ℤ

abbrev fallback_vm : Text
fallback_vm = codes "MYFXJOURNAL-SG"

abbrev or_fallback : Text → Text
or_fallback [] = fallback_vm
or_fallback (c ∷ s) = c ∷ s

abbrev or_default : Option Text → Text
or_default none = fallback_vm
or_default (some s) = s

unfoldable pub get_default_setup_vm_id : SetupEnv → Text
unfolding normalize_vm_id
get_default_setup_vm_id env = or_fallback (normalize_vm_id (or_default env.setup_default_vm_id))

-- The loop over the parts: `values` in order, the set `seen` being their lower-case forms.
unfoldable pub add_setup_vms : List Text → List Text → List Text
add_setup_vms values [] = values
add_setup_vms values (part ∷ parts) =
    let vm_id = normalize_vm_id part in
    add_setup_vms
      (if is_blank vm_id || contains_text (lower vm_id) (map lower values)
        then values
        else values ++ (vm_id ∷ []))
      parts

abbrev only_if_named : Text → List Text
only_if_named [] = []
only_if_named (c ∷ s) = (c ∷ s) ∷ []

unfoldable pub parse_setup_vm_ids_env : SetupEnv → List Text
parse_setup_vm_ids_env env =
    let raw = strip (or_empty env.setup_vm_ids) in
    if is_blank raw
    then only_if_named (get_default_setup_vm_id env)
    else add_setup_vms [] (split_on b',' raw)

unfoldable pub setup_failover_max_vms : SetupEnv → ℕ
setup_failover_max_vms env = elim env.failover_max_vms [
  | none ↦ 2
  | some n ↦ elim n [ pos m ↦ max m 1 | negsuc _ ↦ 1 ]
]

abbrev first_or : List Text → Text → Text
first_or [] default = default
first_or (v ∷ _) _ = v

unfoldable pub resolve_setup_target_vm_id : SetupEnv → Text → Text
resolve_setup_target_vm_id env target =
    let explicit = normalize_vm_id target in
    if is_blank explicit
    then first_or (parse_setup_vm_ids_env env) (get_default_setup_vm_id env)
    else explicit

-- The VM of the attempt after `attempt`, which counts from 0.
unfoldable pub next_setup_failover_vm_id : SetupEnv → ℕ → Option Text
next_setup_failover_vm_id env attempt =
    let next_attempt = suc attempt in
    if leb (setup_failover_max_vms env) next_attempt
    then none
    else get_elem? (parse_setup_vm_ids_env env) next_attempt

add_setup_vms-IsDistinct :
    (values parts : List Text)
    → IsDistinct (map lower values)
    → IsDistinct (map lower (add_setup_vms values parts))
unfolding add_setup_vms
add_setup_vms-IsDistinct values [] h = h
add_setup_vms-IsDistinct values (part ∷ parts) h =
    elim (Bool-cases (
      is_blank (normalize_vm_id part)
      || contains_text (lower (normalize_vm_id part)) (map lower values))) [
        | inl skip ↦ rw skip (add_setup_vms-IsDistinct values parts h)
        | inr add ↦ rw add (
            add_setup_vms-IsDistinct (values ++ normalize_vm_id part ∷ []) parts (
              rw map-append (
                snoc-IsDistinct (map lower values) (lower (normalize_vm_id part)) h
                  (ground arith))))
      ]

only_if_named-IsDistinct : (t : Text) → IsDistinct (map lower (only_if_named t))
unfolding contains_text
only_if_named-IsDistinct [] = tt
only_if_named-IsDistinct (c ∷ s) = (refl, tt)

-- The configured VMs differ from one another in more than case, whatever the variables hold.
pub parse_setup_vm_ids_env-IsDistinct :
    (env : SetupEnv) → IsDistinct (map lower (parse_setup_vm_ids_env env))
unfolding parse_setup_vm_ids_env
parse_setup_vm_ids_env-IsDistinct env =
    elim (Bool-cases (is_blank (strip (or_empty env.setup_vm_ids)))) [
      | inl blank ↦ rw blank (only_if_named-IsDistinct (get_default_setup_vm_id env))
      | inr given ↦
          rw given
            (add_setup_vms-IsDistinct [] (split_on b',' (strip (or_empty env.setup_vm_ids))) tt)
    ]

-- A name of a VM is not empty.
abbrev is_named : Text → Bool
is_named vm_id = not (is_blank vm_id)

snoc-is_named :
    (values : List Text) (v : Text)
    → all_of is_named values ≡ true
    → is_named v ≡ true
    → all_of is_named (values ++ v ∷ []) ≡ true
snoc-is_named [] v h k = ground arith
snoc-is_named (a ∷ values) v h k = ground (arith, snoc-is_named values v)

add_setup_vms_named :
    (values parts : List Text)
    → all_of is_named values ≡ true
    → all_of is_named (add_setup_vms values parts) ≡ true
unfolding add_setup_vms
add_setup_vms_named values [] h = h
add_setup_vms_named values (part ∷ parts) h =
    elim (Bool-cases (
      is_blank (normalize_vm_id part)
      || contains_text (lower (normalize_vm_id part)) (map lower values))) [
        | inl skip ↦ rw skip (add_setup_vms_named values parts h)
        | inr add ↦ rw add (
            add_setup_vms_named (values ++ normalize_vm_id part ∷ []) parts
              (snoc-is_named values (normalize_vm_id part) h (ground arith)))
      ]

only_if_named-is_named : (t : Text) → all_of is_named (only_if_named t) ≡ true
only_if_named-is_named [] = refl
only_if_named-is_named (c ∷ s) = refl

setup_vms_named : (env : SetupEnv) → all_of is_named (parse_setup_vm_ids_env env) ≡ true
unfolding parse_setup_vm_ids_env
setup_vms_named env = elim (Bool-cases (is_blank (strip (or_empty env.setup_vm_ids)))) [
  | inl blank ↦ rw blank (only_if_named-is_named (get_default_setup_vm_id env))
  | inr given ↦
      rw given (add_setup_vms_named [] (split_on b',' (strip (or_empty env.setup_vm_ids))) refl)
]

found_named :
    (ids : List Text) (k : ℕ) (v : Text)
    → all_of is_named ids ≡ true
    → get_elem? ids k ≡ some v
    → is_blank v ≡ false
found_named [] k v h found = cc
found_named (a ∷ ids) zero v h found = let here : a ≡ v = cc in rw (sym here) (ground arith)
found_named (a ∷ ids) (suc k) v h found = found_named ids k v (ground arith) found

-- The VMs that are left to a setup after the attempt `k`.
abbrev pub vms_left : SetupEnv → ℕ → List Text
vms_left env k =
    take (setup_failover_max_vms env - suc k) (drop (suc k) (parse_setup_vm_ids_env env))

module _ (env : SetupEnv) (k : ℕ) where
  -- No next VM: none is left.
  pub last_vm : next_setup_failover_vm_id env k ≡ none → vms_left env k ≡ []
  unfolding next_setup_failover_vm_id
  last_vm h = elim (Bool-cases (leb (setup_failover_max_vms env) (suc k))) [
    | inl over ↦
        let none_left : setup_failover_max_vms env - suc k ≡ 0 = ground arith in rw none_left refl
    | inr more ↦
        let absent : get_elem? (parse_setup_vm_ids_env env) (suc k) ≡ none = (rw more at h) in
        rw (drop-end (suc k) (parse_setup_vm_ids_env env) absent)
          (take-nil (setup_failover_max_vms env - suc k))
  ]

  -- The next VM is the first that is left.
  pub next_vm :
      (v : Text)
      → next_setup_failover_vm_id env k ≡ some v
      → (is_blank v ≡ false)
        × (drop (suc k) (parse_setup_vm_ids_env env)
            ≡ v ∷ drop (suc (suc k)) (parse_setup_vm_ids_env env))
        × (vms_left env k ≡ v ∷ vms_left env (suc k))
  unfolding next_setup_failover_vm_id
  next_vm v h = elim (Bool-cases (leb (setup_failover_max_vms env) (suc k))) [
    | inl over ↦ absurd (never (rw over at h))
    | inr more ↦
        let found : get_elem? (parse_setup_vm_ids_env env) (suc k) ≡ some v = (rw more at h) in
        let shape = drop-step (suc k) (parse_setup_vm_ids_env env) v found in
        let one_more : setup_failover_max_vms env - suc k
            ≡ suc (setup_failover_max_vms env - suc (suc k)) =
          ground arith in
        (
          found_named (parse_setup_vm_ids_env env) (suc k) v (setup_vms_named env) found,
          shape,
          rw shape (rw one_more refl),
        )
  ]
    where
      never : none ≡ some v → ⊥
      never e = cc
