-- ===== src/ShiftQueue/Fifo.antt =====
-- Calls of src/queue/mod.rs, one after the other, against a list and the room that the
-- guard of retired nodes has left.
use co_queue.Base.{
  ℕ, zero, Bool, suc, ◌+◌, ◌≡◌, refl, Option, none, some, List, [], ◌∷◌, ◌++◌, arith,
}
use co_queue.Base.Outcome.{Outcome, done, fault, ◌>>=◌}
use co_queue.ShiftQueue.{RawQueue, with_threads, default_node, push, is_empty}
use co_queue.ShiftQueue.Pop.{try_pop}
use co_queue.ShiftQueue.Nodes.{Holds, end}
use co_queue.ShiftQueue.Accepts.{push-linked}
use co_queue.ShiftQueue.Serves.{
  try_pop-serves, try_pop-empty, try_pop-full, no_value, is_empty-no_value,
}

pub data Op {ℓ} (A : Type ℓ) : Type ℓ where
  puts : A → Op A
  takes : Op A
  asks : Op A

pub data Reply {ℓ} (A : Type ℓ) : Type ℓ where
  accepted : Reply A
  taken : Option A → Reply A
  told : Bool → Reply A

module _ {ℓ} {A : Type ℓ} where
  -- What a client sees of the queue; each call has `fuel`.
  unfoldable pub run : ℕ → RawQueue A → List (Op A) → Outcome (List (Reply A))
  run fuel q [] = done []
  run fuel q (puts x ∷ ops) = do q₁ ← push fuel q x; rs ← run fuel q₁ ops; done (accepted ∷ rs)
  run fuel q (takes ∷ ops) = do (q₁, o) ← try_pop fuel q; rs ← run fuel q₁ ops; done (taken o ∷ rs)
  run fuel q (asks ∷ ops) = do b ← is_empty q; rs ← run fuel q ops; done (told b ∷ rs)

  -- The same of a list: the values come first in first out, and `room` of them can be taken. One
  -- that is taken after these is undefined behaviour or a panic.
  unfoldable pub promised : (xs : List A) → (room : ℕ) → List (Op A) → Outcome (List (Reply A))
  promised xs room [] = done []
  promised xs room (puts x ∷ ops) = do rs ← promised (xs ++ (x ∷ [])) room ops; done (accepted ∷ rs)
  promised xs room (asks ∷ ops) = do rs ← promised xs room ops; done (told (no_value xs) ∷ rs)
  promised [] room (takes ∷ ops) = do rs ← promised [] room ops; done (taken none ∷ rs)
  promised (x ∷ xs) zero (takes ∷ ops) = fault
  promised (x ∷ xs) (suc room) (takes ∷ ops) = do
    rs ← promised xs room ops
    done (taken (some x) ∷ rs)

  run-Holds :
      (fuel : ℕ) (ops : List (Op A)) (q : RawQueue A) (xs : List A) (room : ℕ)
      → Holds q xs
      → q.pop_guard.len + room ≡ q.pop_guard.cap
      → run (suc fuel) q ops ≡ promised xs room ops
  unfolding run promised
  run-Holds fuel [] q xs room h left = refl
  run-Holds fuel (puts x ∷ ops) q xs room h left =
      let (q', pushed, h', same) = push-linked x h fuel in
      let rest = run-Holds fuel ops q' (xs ++ (x ∷ [])) room h' (rw same left) in
      rw (pushed, rest) refl
  run-Holds fuel (asks ∷ ops) q xs room h left =
      rw (is_empty-no_value q xs h, run-Holds fuel ops q xs room h left) refl
  run-Holds fuel (takes ∷ ops) q [] room h left =
      rw (try_pop-empty fuel q h, run-Holds fuel ops q [] room h left) refl
  run-Holds fuel (takes ∷ ops) q (x ∷ xs) zero h left =
      rw (try_pop-full fuel q x xs h (omega arith)) refl
  run-Holds fuel (takes ∷ ops) q (x ∷ xs) (suc room) h left =
      let (q', popped, h', len, cap, heap, tail) = try_pop-serves fuel q x xs h (omega arith) in
      let rest = run-Holds fuel ops q' xs room h' (omega arith) in rw (popped, rest) refl

  pub with_threads-Holds : (threads : ℕ) → Holds (with_threads A threads) []
  unfolding with_threads
  with_threads-Holds threads = record {
    chain = end (default_node A) refl refl refl;
    nonnull = omega arith;
    below = omega arith;
    nothing_kept = refl;
    garbage = record { fits = omega arith; outside = λ i le. refl };
  }

  -- Any sequence of pushes, pops and calls of `is_empty` on a new queue, each with fuel for one round of its loop, gives
  -- the replies of a first-in first-out list, up to the pop of one value more than there are
  -- threads, which is undefined behaviour or a panic.
  pub run-with_threads :
      (fuel threads : ℕ) (ops : List (Op A))
      → run (suc fuel) (with_threads A threads) ops ≡ promised [] threads ops
  unfolding with_threads
  run-with_threads fuel threads ops =
      run-Holds fuel ops (with_threads A threads) [] threads (with_threads-Holds threads)
        (omega arith)
