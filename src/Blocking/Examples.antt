-- ===== src/Blocking/Examples.antt =====
-- An instance of the theorem about src/blocking_col.rs.
use co_queue.Base.{ℕ, ◌≡◌, refl, some, List, [], ◌∷◌}
use co_queue.Base.Outcome.{done}
use co_queue.Stream.{QueueState, spin, yield, item, verdict}
use co_queue.Stream.Inputs.{messages, first_try, pushed}
use co_queue.Blocking.{BlockingQueue, next}
use co_queue.Blocking.Next.{Serving, next-Serving}

-- A queue that holds one value, with a harmless message on each channel.
abbrev one_value : BlockingQueue ℕ (List (QueueState ℕ))
one_value = record { que = record { que = pushed.0; recv = spin ∷ [] }; recv = yield 9 ∷ [] }

one_value-Serving : Serving messages one_value (5 ∷ [])
unfolding verdict
one_value-Serving = record { held = pushed.2; inner = (refl, tt); outer = (refl, tt) }

next-Serving_example :
    (b : BlockingQueue ℕ (List (QueueState ℕ))) × (next messages first_try one_value
      ≡ done (b, some (item 5)))
    × Serving messages b []
    × (b.recv ≡ [])
    × (b.que.recv ≡ [])
next-Serving_example = next-Serving messages first_try one_value (5 ∷ []) tt one_value-Serving
