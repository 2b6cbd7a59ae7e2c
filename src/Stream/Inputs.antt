-- ===== src/Stream/Inputs.antt =====
-- Inputs for the tests of src/stream.rs and src/blocking_col.rs: a channel that is a list, and a queue
-- that holds one value.
use co_queue.Base.{ℕ, ◌+◌, ◌≤◌, ◌≡◌, refl, Bool, false, Option, none, some, List, [], ◌∷◌, arith}
use co_queue.Base.Outcome.{done}
use co_queue.CoQueue.State.{CoQueue}
use co_queue.CoQueue.Drop.{new}
use co_queue.CoQueue.Push.{push}
use co_queue.CoQueue.Push.Rounds.{push-Holds}
use co_queue.CoQueue.Fifo.{new-Holds}
use co_queue.CoQueue.Holds.{Holds}
use co_queue.Stream.{QueueState, Channel}

abbrev pub receive : List (QueueState ℕ) → Option (QueueState ℕ) × List (QueueState ℕ)
receive [] = (none, [])
receive (m ∷ ms) = (some m, ms)

abbrev pub messages : Channel ℕ (List (QueueState ℕ))
messages = record {
  try_recv = receive;
  sent = λ c. c;
  recv-none = λ c e. rw e (refl, refl);
  recv-some = λ c m ms e. rw e (refl, refl);
}

-- The exchange succeeds in the first round.
abbrev pub first_try : ℕ → List Bool
first_try n = false ∷ []

pub pushed :
    (q : CoQueue ℕ) × (push (false ∷ []) (new ℕ) 5 ≡ done q)
    × Holds q (5 ∷ [])
    × (q.tail.index ≤ (new ℕ).tail.index + 4)
unfolding new
pushed = push-Holds (false ∷ []) 5 (new ℕ) tt new-Holds (omega arith)
