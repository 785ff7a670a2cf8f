-- ===== src/Compute/Tests/StoreRuns.antt =====
-- Runs of the object store.
use rabbit_chain_node.Prelude.{◌≡◌, refl, true, [], ◌∷◌, none, some, arith}
use rabbit_chain_node.Compute.Types.{Hash, ok}
use rabbit_chain_node.Compute.Store.{
  ObjectStore, new, get_output, get_latest_output_by_object, insert_output, mark_spent,
  remove_output, set_spent,
}
use rabbit_chain_node.Compute.Store.Rollback.{rollback_loses_latest}
use rabbit_chain_node.Compute.Store.Invariant.{IsValid, empty, next, inserting, Reachable-IsValid}
use rabbit_chain_node.Compute.Tests.Samples.{coin, store, opened}

abbrev marked : ObjectStore
marked = record {
  outputs = (1, set_spent true (coin 1 1 100)) ∷ (2, coin 2 1 30) ∷ [];
  latest_by_object = (7, 1) ∷ [];
}

abbrev grown : ObjectStore
grown = record {
  outputs = (1, coin 1 1 100) ∷ (2, coin 2 1 30) ∷ (3, coin 3 2 90) ∷ [];
  latest_by_object = (7, 3) ∷ [];
}

abbrev shrunk : ObjectStore
shrunk = record { outputs = (1, coin 1 1 100) ∷ (2, coin 2 1 30) ∷ []; latest_by_object = [] }

marks : mark_spent 1 store ≡ ok marked
unfolding opened
marks = refl

grows : insert_output (coin 3 2 90) store ≡ ok grown
unfolding opened
grows = refl

shrinks : remove_output 3 grown ≡ ok shrunk
unfolding opened
shrinks = refl

latest_is_first : get_latest_output_by_object 7 store ≡ some (coin 1 1 100)
unfolding opened
latest_is_first = refl

rollback_loses_latest_example :
    (get_latest_output_by_object 7 shrunk ≡ none)
    × ((id : Hash) × (get_output id store ≡ some (coin 1 1 100))
        × (get_output id shrunk ≡ some (coin 1 1 100)))
rollback_loses_latest_example =
    rollback_loses_latest (coin 3 2 90) (coin 1 1 100) store grown shrunk latest_is_first
      (omega arith) grows shrinks

abbrev single : ObjectStore
single = record { outputs = (1, coin 1 1 100) ∷ []; latest_by_object = (7, 1) ∷ [] }

first_insert : insert_output (coin 1 1 100) new ≡ ok single
unfolding opened new
first_insert = refl

Reachable-IsValid_example : IsValid single
Reachable-IsValid_example = Reachable-IsValid (next empty (inserting (coin 1 1 100) first_insert))
