-- ===== src/Stream/Examples.antt =====
-- Instances of the theorems about src/stream.rs.
use co_queue.Base.{ℕ, ◌≡◌, refl, none, List, [], ◌∷◌, arith}
use co_queue.Base.Outcome.{done}
use co_queue.CoQueue.Holds.{Holds}
use co_queue.Stream.{QueueState, spin, terminate, yield, item, poke, Streamed, verdict, next}
use co_queue.Stream.Inputs.{messages, first_try, pushed}
use co_queue.Stream.Next.{next-terminate, collect, collect-Holds}

-- A queue that holds one value, with one message that does no harm on its way.
abbrev one_value : Streamed ℕ (List (QueueState ℕ))
one_value = record { que = pushed.0; recv = spin ∷ [] }

collect-Holds_example :
    (s : Streamed ℕ (List (QueueState ℕ))) × (collect messages 2 first_try one_value
      ≡ done (s, item 5 ∷ poke ∷ []))
    × Holds s.que []
unfolding verdict
collect-Holds_example = collect-Holds messages (5 ∷ []) first_try one_value tt pushed.2 (refl, tt)

next-terminate_example :
    (s : Streamed ℕ (List (QueueState ℕ))) × (next messages first_try
        (record one_value { recv = yield 9 ∷ terminate ∷ [] })
      ≡ done (s, none))
    × (s.que ≡ pushed.0)
    × (s.recv ≡ [])
unfolding verdict
next-terminate_example =
    next-terminate messages first_try (record one_value { recv = yield 9 ∷ terminate ∷ [] })
      (yield 9 ∷ []) [] (omega arith) (refl, tt) refl
