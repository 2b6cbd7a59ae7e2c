-- ===== src/CoQueue/Threads/Examples.antt =====
-- src/lockless_queue.rs, two pushers and two poppers of one queue: a run, and instances of the
-- theorems.
use co_queue.Base.{
  false, length, get_elem?, ◌≢◌, ℕ, ◌/◌, ◌≤◌, ◌<◌, ◌≡◌, ◌⊎◌, refl, none, some, arith,
}
use co_queue.CoQueue.Chunk.{lap, chunk_cap, Slot, new_chunk, full_slot}
use co_queue.CoQueue.State.{position, has_next, CoQueue, store, set_slot}
use co_queue.CoQueue.Push.{Pushing}
use co_queue.CoQueue.Pop.{Popping, next_head}
use co_queue.CoQueue.Drop.{new}
use co_queue.CoQueue.Threads.{
  returned, marking, taken, destroying, outside, idle, half, looped, heading, writing, has_head,
  round, checked, reading, Crowd, go, pop_go,
}
use co_queue.CoQueue.Threads.Pushes
use co_queue.CoQueue.Threads.Pushes.{put_first}
use co_queue.CoQueue.Threads.Pops
use co_queue.CoQueue.Threads.Pops.{PopStep}
use co_queue.CoQueue.Threads.History.{pushed, won, place}
use co_queue.CoQueue.Threads.Cells.{result_of}
use co_queue.CoQueue.Threads.Order.{pop-place, pop-none}
use co_queue.CoQueue.Threads.Progress.{Awaits, pop_goes, ends_turn}
use co_queue.CoQueue.Threads.Ends.{TurnsTail, TurnsHead}
use co_queue.CoQueue.Threads.Pushes.{PushStep}
use co_queue.CoQueue.Threads.Ahead.{heads}
use co_queue.CoQueue.Chunk.{null}
use co_queue.Base.{◌%◌}
use co_queue.CoQueue.Threads.Faults.{push_access, pop_access, no_fault}
use co_queue.Base.Outcome.{fault}
use co_queue.CoQueue.Threads.Run.{Reach, start, pushes, pops}
use co_queue.CoQueue.Threads.Ahead.{head_of}
use co_queue.CoQueue.Threads.Exclusive.{fills, drains, slots_exclusive, head_below_tail}

abbrev first_round : Pushing
first_round = record { tail = 0; chunk = 0; next_chunk = none }

abbrev installed : Pushing
installed = record { tail = 0; chunk = 1; next_chunk = none }

abbrev second_round : Pushing
second_round = record { tail = 2; chunk = 1; next_chunk = none }

abbrev front : Popping
front = record { head = 0; chunk = 1 }

abbrev behind : Popping
behind = record { head = 2; chunk = 1 }

abbrev empty_queue : CoQueue ℕ
empty_queue = record {
  head = record { index = 0; chunk = 0 };
  tail = record { index = 0; chunk = 0 };
  heap = λ _. none;
  fresh = 1;
}

-- The queue with its first chunk, and with these indices.
abbrev queue_at : ℕ → ℕ → CoQueue ℕ
queue_at head tail = record (put_first empty_queue) {
  head = record { index = head; chunk = 1 };
  tail = record { index = tail; chunk = 1 };
}

abbrev no_calls : Crowd ℕ
no_calls = record { queue = empty_queue; pc = λ _. idle; popper = λ _. outside }

abbrev chunk_run : Crowd ℕ
chunk_run =
    go
      (go (go (go no_calls empty_queue 0 (half 7 none 0)) empty_queue 0 (looped 7 first_round))
        (put_first empty_queue) 0 (heading 7 installed))
      (queue_at 0 0) 0 (looped 7 installed)

abbrev push_run : Crowd ℕ
push_run =
    go
      (go
        (go (go chunk_run (queue_at 0 2) 0 (writing 7 installed)) (queue_at 0 2) 1 (half 8 none 2))
        (queue_at 0 2) 1 (looped 8 second_round))
      (queue_at 0 4) 1 (writing 8 second_round)

abbrev pop_run : Crowd ℕ
pop_run =
    pop_go
      (pop_go
        (pop_go (pop_go push_run (queue_at 0 4) 0 (has_head 0)) (queue_at 0 4) 0 (round front))
        (queue_at 0 4) 0 (checked front 2))
      (queue_at 2 4) 0 (reading front)

abbrev last_run : Crowd ℕ
last_run =
    pop_go
      (pop_go
        (pop_go (pop_go pop_run (queue_at 2 4) 1 (has_head 2)) (queue_at 2 4) 1 (round behind))
        (queue_at 2 4) 1 (checked behind 4))
      (queue_at 4 4) 1 (reading behind)

-- Thread 0 installs the first chunk.
chunk_run-Reach : Reach chunk_run
unfolding new
chunk_run-Reach =
    pushes
      (pushes
        (pushes (pushes start 0 (omega arith) (Pushes.calls 7 refl)) 0 (omega arith)
          (Pushes.loads 7 none 0 refl))
        0 (omega arith)
        (Pushes.installs 7 first_round refl (λ e. ground arith, λ e. ground arith) refl refl))
      0 (omega arith) (Pushes.heads 7 installed refl)

-- Both threads claim a slot to fill.
push_run-Reach : Reach push_run
unfolding new
push_run-Reach =
    pushes
      (pushes
        (pushes
          (pushes chunk_run-Reach 0 (omega arith) (
            Pushes.wins 7 installed refl (λ e. ground arith, λ e. ground arith) (λ e. ground arith)
              refl (λ e. ground arith)))
          1 (omega arith) (Pushes.calls 8 refl))
        1 (omega arith) (Pushes.loads 8 none 2 refl))
      1 (omega arith)
      (Pushes.wins 8 second_round refl (λ e. ground arith, λ e. ground arith) (λ e. ground arith)
        refl (λ e. ground arith))

-- And both claim a slot to read, before any value is there.
pop_run-Reach : Reach pop_run
unfolding new next_head
pop_run-Reach =
    pops
      (pops
        (pops (pops push_run-Reach 0 (omega arith) (Pops.pop_calls refl)) 0 (omega arith)
          (Pops.pop_loads 0 refl))
        0 (omega arith) (Pops.pop_checks front 2 refl (λ e. ground arith) refl))
      0 (omega arith) (Pops.pop_wins front 2 refl (λ e. ground arith) refl (λ e. ground arith))

last_run-Reach : Reach last_run
unfolding new next_head
last_run-Reach =
    pops
      (pops
        (pops (pops pop_run-Reach 1 (omega arith) (Pops.pop_calls refl)) 1 (omega arith)
          (Pops.pop_loads 2 refl))
        1 (omega arith) (Pops.pop_checks behind 4 refl (λ e. ground arith) refl))
      1 (omega arith) (Pops.pop_wins behind 4 refl (λ e. ground arith) refl (λ e. ground arith))

last_run_test :
    (fills (last_run.pc 0) ≡ some (1, 0))
    × (fills (last_run.pc 1) ≡ some (1, 1))
    × (drains (last_run.popper 0) ≡ some (1, 0))
    × (drains (last_run.popper 1) ≡ some (1, 1))
last_run_test = (refl, refl, refl, refl)

slots_exclusive_example :
    ¬ ((fills (last_run.pc 0) ≡ some (1, 0)) × (fills (last_run.pc 1) ≡ some (1, 0)))
    × ¬ ((drains (last_run.popper 0) ≡ some (1, 0)) × (drains (last_run.popper 1) ≡ some (1, 0)))
slots_exclusive_example = slots_exclusive last_run-Reach 0 1 (λ e. ground arith) 1 0

head_below_tail_example :
    (position last_run.queue.head.index ≤ position last_run.queue.tail.index)
    × ((has_next last_run.queue.head.index ≡ 0)
        ⊎ (position last_run.queue.head.index / lap < position last_run.queue.tail.index / lap))
    × ((drains (last_run.popper 1) ≡ none)
        ⊎ (position (head_of (last_run.popper 1)) < position last_run.queue.tail.index))
head_below_tail_example = head_below_tail last_run-Reach 1

abbrev zeroed : Slot ℕ
zeroed = record { value = none; write = false; read = false; destroy = false }

abbrev stored : CoQueue ℕ
stored = store (queue_at 4 4) 1 (set_slot (new_chunk ℕ) 0 (record zeroed { value = some 7 }))

abbrev marked : CoQueue ℕ
marked = store stored 1 (set_slot (new_chunk ℕ) 0 (full_slot 7))

abbrev taken_run : Crowd ℕ
taken_run =
    pop_go (go (go last_run stored 0 (marking installed)) marked 0 idle) marked 0 (taken front 7)

abbrev at_end : Popping
at_end = record { head = 4; chunk = 1 }

abbrev late_run : Crowd ℕ
late_run = pop_go (pop_go taken_run marked 2 (has_head 4)) marked 2 (round at_end)

-- Thread 0 fills its slot and marks it, and reads it in `pop`, while thread 1 waits.
taken_run-Reach : Reach taken_run
taken_run-Reach =
    pops
      (pushes
        (pushes last_run-Reach 0 (omega arith) (Pushes.writes 7 installed zeroed stored refl refl))
        0 (omega arith)
        (Pushes.marks installed (record zeroed { value = some 7 }) marked marked refl refl refl))
      0 (omega arith) (Pops.reads front 7 refl refl)

-- A third popper comes when all slots are claimed.
late_run-Reach : Reach late_run
late_run-Reach =
    pops (pops taken_run-Reach 2 (omega arith) (Pops.pop_calls refl)) 2 (omega arith)
      (Pops.pop_loads 4 refl)

late_step : PopStep late_run 2 (pop_go late_run marked 2 (returned none))
unfolding next_head
late_step = Pops.pop_empty at_end refl (λ e. ground arith) refl

pop-place_example :
    (won taken_run-Reach ≤ length (pushed taken_run-Reach))
    × ((result_of (taken_run.popper 0) ≡ none)
        ⊎ ((x : ℕ) × (result_of (taken_run.popper 0) ≡ some x)
            × (place taken_run-Reach 0 < won taken_run-Reach)
            × (get_elem? (pushed taken_run-Reach) (place taken_run-Reach 0) ≡ some x)
            × ((result_of (taken_run.popper 1) ≡ none)
                ⊎ (place taken_run-Reach 0 ≢ place taken_run-Reach 1))))
pop-place_example = pop-place taken_run-Reach 0 1 (λ e. ground arith)

pop-none_example : won late_run-Reach ≡ length (pushed late_run-Reach)
pop-none_example = pop-none late_run-Reach 2 late_step at_end refl refl

no_fault_example :
    (push_access taken_run.queue (taken_run.pc 1) ≢ fault)
    × (pop_access taken_run.queue (taken_run.popper 1) ≢ fault)
    × (taken_run.popper 1 ≢ destroying 1 chunk_cap 7)
no_fault_example = no_fault taken_run-Reach 1 1 7

pop_goes_example : ((t : Crowd ℕ) × PopStep last_run 0 t) ⊎ ((j : ℕ) × Awaits last_run 0 j)
pop_goes_example = pop_goes last_run-Reach 0

ends_turn_example :
    ((position chunk_run.queue.tail.index % lap ≢ chunk_cap)
      ⊎ ((k : ℕ) × (((t : Crowd ℕ) × PushStep chunk_run k t) × TurnsTail (chunk_run.pc k))))
    × ((position chunk_run.queue.head.index % lap ≢ chunk_cap)
        ⊎ ((k : ℕ) × TurnsHead (chunk_run.popper k)))
    × ((chunk_run.queue.head.chunk ≢ null)
        ⊎ (chunk_run.queue.tail.chunk ≡ null)
        ⊎ ((k : ℕ) × (heads (chunk_run.pc k) ≡ 1)))
ends_turn_example = ends_turn chunk_run-Reach
