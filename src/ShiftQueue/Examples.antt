-- ===== src/ShiftQueue/Examples.antt =====
-- Instances of the theorems about src/queue/mod.rs.
use co_queue.Base.{update, some, ℕ, ◌≡◌, ◌≢◌, refl, none, [], ◌∷◌, arith}
use co_queue.Base.Outcome.{done, fault}
use co_queue.PtrGuard
use co_queue.ShiftQueue.Halfway.{push-halfway}
use co_queue.ShiftQueue.{Node, null, Ptr, RawQueue, with_threads, push}
use co_queue.ShiftQueue.Pop.{try_pop, drop}
use co_queue.ShiftQueue.Nodes.{Holds}
use co_queue.ShiftQueue.Accepts.{push-linked}
use co_queue.ShiftQueue.Serves.{try_pop-full}
use co_queue.ShiftQueue.Fifo.{promised, puts, takes, run, with_threads-Holds, run-with_threads}
use co_queue.ShiftQueue.Drops.{drop-frees}

-- A queue for two threads, empty and with one value.
abbrev two : RawQueue ℕ
two = with_threads ℕ 2

with_threads-pushed :
    (threads x : ℕ)
    → (q : RawQueue ℕ) × (push 1 (with_threads ℕ threads) x ≡ done q)
      × Holds q (x ∷ [])
      × (q.pop_guard ≡ (with_threads ℕ threads).pop_guard)
with_threads-pushed threads x = push-linked x (with_threads-Holds threads) 0

abbrev one_value :
    (q : RawQueue ℕ) × (push 1 two 7 ≡ done q) × Holds q (7 ∷ []) × (q.pop_guard ≡ two.pop_guard)
one_value = with_threads-pushed 2 7

with_threads_empty : (with_threads ℕ 0).pop_guard.len ≡ (with_threads ℕ 0).pop_guard.cap
unfolding with_threads
with_threads_empty = refl

-- The third value that is taken finds the guard of retired nodes full.
run-with_threads_example : run 1 two (puts 7 ∷ puts 8 ∷ takes ∷ puts 9 ∷ takes ∷ takes ∷ []) ≡ fault
unfolding promised
run-with_threads_example =
    run-with_threads 0 2 (puts 7 ∷ puts 8 ∷ takes ∷ puts 9 ∷ takes ∷ takes ∷ [])

try_pop-full_example : try_pop 1 (with_threads-pushed 0 7).0 ≡ fault
try_pop-full_example =
    try_pop-full 0 (with_threads-pushed 0 7).0 7 [] (with_threads-pushed 0 7).2
      (rw (with_threads-pushed 0 7).3 with_threads_empty)

drop-frees_example :
    (q : RawQueue ℕ) × (drop 2 one_value.0 ≡ done q)
    × (q.heap one_value.0.tail ≡ none)
    × ((p : Ptr) → p ≢ one_value.0.tail → q.heap p ≡ one_value.0.heap p)
unfolding with_threads
drop-frees_example =
    drop-frees 2 (7 ∷ []) one_value.0 one_value.2 (omega arith) (rw one_value.3 (omega arith))

-- A thread has linked its node, at the address 2, and has not moved the tail.
abbrev halfway : RawQueue ℕ
halfway = record {
  head = 1;
  tail = 1;
  push_guard = PtrGuard.with_threads Ptr 2;
  pop_guard = PtrGuard.with_threads Ptr 2;
  heap =
      update (update (λ _. none) 1 (some (record { item = none; next = 2 }))) 2
        (some (record { item = some 7; next = null }));
  fresh = 3;
}

halfway_apart : (p : Ptr) (m : Node ℕ) → halfway.heap p ≡ some m → m.next ≢ 3
halfway_apart p m e same = ground (arith, e, same)

push-halfway_example :
    (q : RawQueue ℕ) × (push 1 halfway 8 ≡ done q)
    × (q.tail ≡ 3)
    × (q.tail ≢ 1)
    × ((p : Ptr) (m : Node ℕ) → q.heap p ≡ some m → m.next ≢ q.tail)
push-halfway_example =
    push-halfway 0 halfway 8 (record { item = none; next = 2 }) refl (omega arith) (omega arith)
      halfway_apart
