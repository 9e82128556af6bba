-- ===== src/Raop/Runs.antt =====
-- A backlog of two packets at work, and the properties applied to it.
use pyatv_rs.Prelude.{ℕ, ◌≡◌, refl, true, false, none, some, List, [], ◌∷◌}
use pyatv_rs.Raop.Fifo.{new}
use pyatv_rs.Raop.Fifo.Refine.{push, room, without_oldest}
use pyatv_rs.Raop.Fifo.Trace.{
  Call, put, look, measure, reset, stored, found, holds, emptied, run, run_queue, run-run_queue,
  IsWithin, run-IsWithin,
}

-- The third packet evicts the first, and a number that is present is refused.
abbrev calls : List (Call ℕ)
calls =
    put 65535 10
    ∷ put 0 11
    ∷ put 0 99
    ∷ put 1 12
    ∷ look 65535
    ∷ look 0
    ∷ measure
    ∷ reset
    ∷ look 0
    ∷ []

run_queue-calls :
    run_queue 2 [] calls
    ≡ stored true
      ∷ stored true
      ∷ stored false
      ∷ stored true
      ∷ found none
      ∷ found (some 11)
      ∷ holds 2
      ∷ emptied
      ∷ found none
      ∷ []
unfolding run_queue push room without_oldest
run_queue-calls = refl

run-run_queue_example : run (new 2) calls ≡ run_queue 2 [] calls
run-run_queue_example = run-run_queue 2 calls

run-IsWithin_example : IsWithin 2 (run (new 2) calls)
run-IsWithin_example = run-IsWithin 2 calls
