-- ===== src/Imports/Keyed.antt =====
-- helpers/core.py: how stored trades are found by their keys.
use fxjournal.Prelude.{
  ℕ, ◌≡◌, ◌==◌, refl, ap, Bool, true, false, ◌&&◌, ◌||◌, not, Option, none, some, List, [], ◌∷◌,
  ◌++◌, arith, Bool-cases, inl, inr,
}
use fxjournal.Prelude.Int.{ℤ, pos, negsuc}
use fxjournal.Prelude.Text.{same_text, same_text_self}
use fxjournal.Imports.Valid.{is_valid}
use fxjournal.Imports.{
  AccountType, cfd, futures, Catalogue, Key, by_position, by_values, Row, Trade,
  build_trade_duplicate_key, compares_values, contains_key, is_cfd, is_present, refresh_duplicates,
  same_int, same_key, same_option, stored_key, stored_keys,
}

same_number_self : (n : ℕ) → (n == n) ≡ true
same_number_self n = ground arith

same_int_self : (a : ℤ) → same_int a a ≡ true
same_int_self (pos n) = same_number_self n
same_int_self (negsuc n) = same_number_self n

same_option_self :
    {A : Type 0} (same : A → A → Bool)
    → ((a : A) → same a a ≡ true)
    → (o : Option A) → same_option same o o ≡ true
same_option_self same h none = refl
same_option_self same h (some a) = h a

pub same_key_self : (k : Key) → same_key k k ≡ true
unfolding same_key
same_key_self (by_position p) = same_option_self same_text same_text_self p
same_key_self (by_values symbol side entry exit lot pnl opened closed) =
    rw (same_text_self symbol) (
      rw (same_text_self side) (
        rw (same_int_self entry) (
          rw (same_option_self same_int same_int_self exit) (
            rw (same_int_self lot) (
              rw (same_option_self same_int same_int_self pnl) (
                rw (same_number_self opened)
                  (same_option_self (λ a b. a == b) same_number_self closed)))))))

pub contains_key-append :
    (k : Key) (xs ys : List Key)
    → contains_key k (xs ++ ys) ≡ (contains_key k xs || contains_key k ys)
contains_key-append k [] ys = refl
contains_key-append k (x ∷ xs) ys = elim (Bool-cases (same_key x k)) [
  | inl e ↦ rw e refl
  | inr e ↦ rw e (contains_key-append k xs ys)
]

pub stored_keys-append :
    (catalogue : Catalogue) (kind : AccountType) (by_value : Bool) (xs ys : List Trade)
    → stored_keys catalogue kind by_value (xs ++ ys)
      ≡ stored_keys catalogue kind by_value xs ++ stored_keys catalogue kind by_value ys
stored_keys-append catalogue kind by_value [] ys = refl
stored_keys-append catalogue kind by_value (t ∷ xs) ys =
    elim (Bool-cases (by_value || is_present t.mt5_position)) [
      | inl e ↦ rw e (
          ap (λ (keys : List Key). stored_key catalogue kind by_value t ∷ keys)
            (stored_keys-append catalogue kind by_value xs ys))
      | inr e ↦ rw e (stored_keys-append catalogue kind by_value xs ys)
    ]

-- Costs are no part of a key.
pub refresh_keeps_keys :
    (catalogue : Catalogue) (kind : AccountType) (k : Key) (row : Row) (trades : List Trade)
    → stored_keys catalogue kind true (refresh_duplicates catalogue kind k row trades).0
      ≡ stored_keys catalogue kind true trades
unfolding refresh_duplicates build_trade_duplicate_key
refresh_keeps_keys catalogue kind k row [] = refl
refresh_keeps_keys catalogue kind k row (t ∷ trades) =
    elim (Bool-cases (same_key (stored_key catalogue kind true t) k)) [
      | inl e ↦ rw e (
          ap (λ (keys : List Key). stored_key catalogue kind true t ∷ keys)
            (refresh_keeps_keys catalogue kind k row trades))
      | inr e ↦ rw e (
          ap (λ (keys : List Key). stored_key catalogue kind true t ∷ keys)
            (refresh_keeps_keys catalogue kind k row trades))
    ]

and_left : (a b : Bool) → (a && b) ≡ true → a ≡ true
and_left true b h = refl
and_left false b h = cc

pub or_swap : (a b : Bool) → (a || b) ≡ (b || (a || false))
or_swap true true = refl
or_swap true false = refl
or_swap false true = refl
or_swap false false = refl

pub or_true : (b : Bool) → (b || true) ≡ true
or_true true = refl
or_true false = refl

-- A trade that may be inserted is found by its key, but for futures that are compared by position.
pub keyed :
    (catalogue : Catalogue) (kind : AccountType) (only : Bool) (t : Trade)
    → (is_cfd kind || not only) ≡ true
    → is_valid catalogue kind t ≡ true
    → (compares_values kind only || is_present t.mt5_position) ≡ true
keyed catalogue cfd only t h valid = and_left (is_present t.mt5_position) _ valid
keyed catalogue futures false t h valid = refl
keyed catalogue futures true t h valid = cc
