-- ===== src/CoQueue/Examples.antt =====
-- Tests of src/lockless_queue.rs at concrete queues, and instances of the theorems about it.
use co_queue.Base.{
  if◌then◌else◌, ℕ, zero, suc, ◌+◌, ◌≤◌, ◌^◌, ◌-◌, ◌≡◌, refl, Bool, true, false, none, some, List,
  [], ◌∷◌, arith,
}
use co_queue.Base.Outcome.{Outcome, done}
use co_queue.CoQueue.Chunk.{Ptr, Chunk, destroy_slots, destroy_from}
use co_queue.CoQueue.State.{CoQueue, destroy}
use co_queue.CoQueue.Push.{
  push, push_loop, push_round, reserve, install, advance_tail, publish_next, write_slot,
}
use co_queue.CoQueue.Push.Rounds.{push-Holds}
use co_queue.CoQueue.Pop.{pop, pop_loop, pop_round, next_head, next_chunk, take_slot}
use co_queue.CoQueue.Pop.Rounds.{pop-Holds, pop-empty}
use co_queue.CoQueue.Measure.{len, len_of, is_empty}
use co_queue.CoQueue.Measure.Counts.{len_of-eq, len_of-lap_end, slots_between}
use co_queue.CoQueue.Drop.{new, drop}
use co_queue.CoQueue.Drop.Frees.{mem, chunks_of, drop-Holds}
use co_queue.CoQueue.Holds.{Holds}
use co_queue.CoQueue.Fifo.{
  Op, pushes, pops, measures, Reply, accepted, popped, measured, step, run, spec_step, spec_run,
  new-Holds, run-Holds,
}

abbrev first_try : List Bool
first_try = false ∷ []

abbrev second_try : List Bool
second_try = true ∷ false ∷ []

-- `n` pushes of n, n - 1, ..., 1 and then `n` pops.
abbrev filling : ℕ → List (Op ℕ) → List (Op ℕ)
filling zero rest = rest
filling (suc n) rest = pushes first_try (suc n) ∷ filling n rest

abbrev draining : ℕ → List (Op ℕ)
draining zero = measures ∷ []
draining (suc n) = pops second_try ∷ draining n

abbrev replies : Outcome (CoQueue ℕ × List (Reply ℕ)) → List (Reply ℕ)
replies (done r) = r.1
replies _ = []

-- Two values through a queue whose first exchange fails.
abbrev few_calls : List (Op ℕ)
few_calls = pushes second_try 5 ∷ pushes first_try 7 ∷ pops second_try ∷ measures ∷ []

abbrev expected : List (Reply ℕ)
expected = accepted ∷ accepted ∷ popped (some 5) ∷ measured 1 false ∷ []

few_calls_test : replies (run few_calls (new ℕ)) ≡ expected
unfolding run step push push_loop push_round reserve install advance_tail publish_next write_slot
    pop pop_loop pop_round next_head next_chunk take_slot destroy destroy_from destroy_slots len
    len_of is_empty new
few_calls_test = refl

-- Over three chunks the replies are those of the list.
long_test :
    replies (run (filling 70 (measures ∷ draining 70)) (new ℕ))
    ≡ (spec_run (filling 70 (measures ∷ draining 70)) []).1
unfolding spec_run spec_step run step push push_loop push_round reserve install advance_tail
    publish_next write_slot pop pop_loop pop_round next_head next_chunk take_slot destroy
    destroy_from destroy_slots len len_of is_empty new
long_test = refl

run-Holds_example :
    (q' : CoQueue ℕ) × (run few_calls (new ℕ) ≡ done (q', expected)) × Holds q' (7 ∷ [])
unfolding spec_run spec_step new
run-Holds_example = run-Holds few_calls (new ℕ) [] (tt, (tt, (tt, tt))) new-Holds (omega arith)

push-Holds_example :
    (q' : CoQueue ℕ) × (push second_try (new ℕ) 5 ≡ done q')
    × Holds q' (5 ∷ [])
    × (q'.tail.index ≤ (new ℕ).tail.index + 4)
unfolding new
push-Holds_example = push-Holds second_try 5 (new ℕ) tt new-Holds (omega arith)

-- The queue after one push.
pushed_once :
    (q' : CoQueue ℕ) × (push first_try (new ℕ) 5 ≡ done q')
    × Holds q' (5 ∷ [])
    × (q'.tail.index ≤ (new ℕ).tail.index + 4)
unfolding new
pushed_once = push-Holds first_try 5 (new ℕ) tt new-Holds (omega arith)

pop-Holds_example :
    (q' : CoQueue ℕ) × (pop second_try pushed_once.0 ≡ done (q', some 5))
    × Holds q' []
    × (q'.tail ≡ pushed_once.0.tail)
    × ((r : Ptr) (c : Chunk ℕ)
        → pushed_once.0.heap r ≡ some c
        → (c' : Chunk ℕ) × (q'.heap r ≡ some c'))
pop-Holds_example = pop-Holds second_try pushed_once.0 5 [] tt pushed_once.2

pop-empty_example : pop (true ∷ []) (new ℕ) ≡ done (new ℕ, none)
pop-empty_example = pop-empty true [] (new ℕ) new-Holds

-- The head stands in slot 3 with the flag set, the tail at the end of the next chunk.
len_of-eq_example : len_of 126 7 ≡ slots_between 3 60
len_of-eq_example = len_of-eq 126 7 60 refl (omega arith) (λ e. absurd (omega arith))

len_of-lap_end_example : len_of 62 62 ≡ 2 ^ 64 - 2 ^ 59
len_of-lap_end_example = len_of-lap_end 62 62 refl (omega arith) refl

drop-Holds_example :
    (q' : CoQueue ℕ) × (drop pushed_once.0 ≡ done (5 ∷ [], q'))
    × ((r : Ptr)
        → q'.heap r ≡ (if mem r (chunks_of pushed_once.0) then none else pushed_once.0.heap r))
drop-Holds_example = drop-Holds pushed_once.0 (5 ∷ []) pushed_once.2
