-- ===== src/Cache/Examples.antt =====
-- The lock theorems at a store in memory.
use fxjournal.Prelude.{suc, ◌+◌, ◌*◌, ◌≡◌, refl, arith, none, List, [], ◌∷◌}
use fxjournal.Prelude.Text.{codes, same_text}
use fxjournal.Cache.{World, answered, answer_lost, claim_lock, acquire_mt5_global_lock}
use fxjournal.Cache.Server.{memory, memory_laws}
use fxjournal.Cache.Exclusion.{
  Event, claim, release, grants, store_after, Holds, AllForeign, exclusive,
}
use fxjournal.Cache.Waiting.{IsHonest, acquire_mt5_global_lock-IsHonest}

abbrev empty_store : memory.Store
empty_store = λ k. none

abbrev rival_claim : Event
rival_claim = record {
  at = 20;
  link = answer_lost;
  key = codes "lock";
  token = codes "b";
  request = claim 600;
}

abbrev rival_release : Event
rival_release = record {
  at = 30;
  link = answered;
  key = codes "lock";
  token = codes "b";
  request = release;
}

abbrev rivals : List Event
rivals = rival_claim ∷ rival_release ∷ []

rivals_foreign : AllForeign (codes "lock") (codes "a") 10 (10 + 1000 * 600) rivals
unfolding same_text
rivals_foreign = ((omega arith, omega arith, refl), ((omega arith, omega arith, refl), tt))

exclusive_example :
    (grants memory
        (codes "lock")
        (claim_lock memory answered empty_store 10 (codes "lock") (codes "a") 600).0
        rivals
      ≡ 0)
    × Holds memory
        (store_after memory
          (claim_lock memory answered empty_store 10 (codes "lock") (codes "a") 600).0
          rivals)
        (codes "lock")
        (codes "a")
        10
        (10 + 1000 * 600)
exclusive_example =
    exclusive memory memory_laws empty_store 10 (codes "lock") (codes "a") 600 rivals refl
      rivals_foreign

abbrev quiet_world : World memory
quiet_world = record { link = λ _. answered; others = λ t s. s; late = λ t. 3 }

acquire_mt5_global_lock-IsHonest_example :
    IsHonest memory quiet_world (10 + 200) (codes "setup:1") (
      acquire_mt5_global_lock memory quiet_world
        (suc 200)
        empty_store
        10
        (codes "setup:1")
        600
        200
        100)
acquire_mt5_global_lock-IsHonest_example =
    acquire_mt5_global_lock-IsHonest memory memory_laws quiet_world empty_store 10 (codes "setup:1")
      600 200 100 (omega arith)
