-- ===== src/Deals/Grouping.antt =====
-- The groups that `aggregate_deals_to_trades` makes, against a filter of the deals.
use fxjournal.Prelude.{
  ℕ, ◌≡◌, ◌∙◌, refl, sym, Bool, true, false, ◌&&◌, not, List, [], ◌∷◌, ◌++◌, ◌==◌, if◌then◌else◌,
  all_of, keep, arith, Bool-cases, inl, inr,
}
use mathlib.Core.List.{append-nil, append_assoc}
use fxjournal.Deals.{Deal, add_deal, group_from, has_position}

abbrev pub Groups : Type 0
Groups = List (ℕ × List Deal)

-- The deals of a position among the groups.
abbrev pub deals_of : ℕ → Groups → List Deal
deals_of p [] = []
deals_of p ((q, ds) ∷ groups) = if q == p then ds else deals_of p groups

abbrev pub is_of : ℕ → Deal → Bool
is_of p d = has_position d && d.position_id == p

same_number : (a b : ℕ) → (a == b) ≡ true → a ≡ b
same_number a b h = ground arith

self_number : (a : ℕ) → (a == a) ≡ true
self_number a = ground arith

deals_of-add_deal :
    (p : ℕ) (groups : Groups) (d : Deal)
    → deals_of p (add_deal groups d)
      ≡ (if d.position_id == p then deals_of p groups ++ d ∷ [] else deals_of p groups)
unfolding add_deal
deals_of-add_deal p [] d = refl
deals_of-add_deal p ((q, ds) ∷ groups) d = elim (Bool-cases (d.position_id == q)) [
  | inl here ↦ elim (Bool-cases (q == p)) [
    | inl same ↦ let also : (d.position_id == p) ≡ true = ground arith in simp (here, same, also)
    | inr other ↦ let also : (d.position_id == p) ≡ false = ground arith in simp (here, other, also)
  ]
  | inr later ↦ elim (Bool-cases (q == p)) [
    | inl same ↦ let also : (d.position_id == p) ≡ false = ground arith in simp (later, same, also)
    | inr other ↦ rw later (rw other (deals_of-add_deal p groups d))
  ]
]

pub deals_of-group_from :
    (p : ℕ) (groups : Groups) (ds : List Deal)
    → deals_of p (group_from groups ds) ≡ deals_of p groups ++ keep (is_of p) ds
unfolding group_from
deals_of-group_from p groups [] = sym (append-nil (deals_of p groups))
deals_of-group_from p groups (d ∷ ds) = elim (Bool-cases (has_position d)) [
  | inl placed ↦ elim (Bool-cases (d.position_id == p)) [
    | inl mine ↦
        rw (placed, mine)
          (deals_of-group_from p (add_deal groups d) ds
            ∙ rw (deals_of-add_deal p groups d)
                (rw mine (append_assoc (deals_of p groups) (d ∷ []) (keep (is_of p) ds))))
    | inr other ↦
        rw (placed, other)
          (deals_of-group_from p (add_deal groups d) ds
            ∙ rw (deals_of-add_deal p groups d) (rw other refl))
  ]
  | inr unplaced ↦ rw unplaced (deals_of-group_from p groups ds)
]

-- No two groups are of one position.
abbrev pub ids_distinct : Groups → Bool
ids_distinct [] = true
ids_distinct ((p, _) ∷ groups) = all_of (λ g. not (g.0 == p)) groups && ids_distinct groups

all_of-add_deal :
    (q : ℕ) (groups : Groups) (d : Deal)
    → all_of (λ g. not (g.0 == q)) (add_deal groups d)
      ≡ (not (d.position_id == q) && all_of (λ g. not (g.0 == q)) groups)
unfolding add_deal
all_of-add_deal q [] d = refl
all_of-add_deal q ((p, ds) ∷ groups) d = ground (arith, all_of-add_deal q groups d)

ids_distinct-add_deal :
    (groups : Groups) (d : Deal)
    → ids_distinct groups ≡ true
    → ids_distinct (add_deal groups d) ≡ true
unfolding add_deal
ids_distinct-add_deal [] d h = refl
ids_distinct-add_deal ((p, ds) ∷ groups) d h =
    ground (arith, all_of-add_deal p groups d, ids_distinct-add_deal groups d)

pub ids_distinct-group_from :
    (groups : Groups) (ds : List Deal)
    → ids_distinct groups ≡ true
    → ids_distinct (group_from groups ds) ≡ true
unfolding group_from
ids_distinct-group_from groups [] h = h
ids_distinct-group_from groups (d ∷ ds) h = elim (Bool-cases (has_position d)) [
  | inl placed ↦
      rw placed (ids_distinct-group_from (add_deal groups d) ds (ids_distinct-add_deal groups d h))
  | inr unplaced ↦ rw unplaced (ids_distinct-group_from groups ds h)
]

abbrev pub AllGroups : (ℕ → List Deal → Type 0) → Groups → Type 0
AllGroups P [] = Unit
AllGroups P ((p, ds) ∷ groups) = P p ds × AllGroups P groups

behind_other :
    (q : ℕ) (es : List Deal) (groups rest : Groups)
    → all_of (λ g. not (g.0 == q)) rest ≡ true
    → AllGroups (λ p ds. deals_of p groups ≡ ds) rest
    → AllGroups (λ p ds. deals_of p ((q, es) ∷ groups) ≡ ds) rest
behind_other q es groups [] h all = tt
behind_other q es groups ((p, ds) ∷ rest) h (here, all) =
    let other : (q == p) ≡ false = ground arith in
    let more : all_of (λ g. not (g.0 == q)) rest ≡ true = ground arith in
    (rw other here, behind_other q es groups rest more all)

-- With distinct positions, each group is what its position finds.
pub groups_found :
    (groups : Groups)
    → ids_distinct groups ≡ true
    → AllGroups (λ p ds. deals_of p groups ≡ ds) groups
groups_found [] h = tt
groups_found ((p, ds) ∷ groups) h =
    let others : all_of (λ g. not (g.0 == p)) groups ≡ true = ground arith in
    let rest : ids_distinct groups ≡ true = ground arith in
    (rw (self_number p) refl, behind_other p ds groups groups others (groups_found groups rest))
