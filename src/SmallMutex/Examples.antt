-- ===== src/SmallMutex/Examples.antt =====
-- Instances of the theorems about src/mutex/mod.rs, over the mutex of src/mutex/raw_mutex.rs. The first
-- exchange of each `lock` fails for no reason.
use co_queue.Base.{ℕ, ◌+◌, ◌*◌, ◌≡◌, refl, true, false, List, [], ◌∷◌}
use co_queue.Base.Outcome.{done}
use co_queue.RawMutex.{free}
use co_queue.RawMutex.FifoLot.{fifo_lot}
use co_queue.RawMutex.Calls.{Chance, RawMutex, init}
use co_queue.SmallMutex.{SmallMutex, Part}
use co_queue.SmallMutex.Sections.{sections}
use co_queue.SmallMutex.Mootex.{raw_mutex, mootex_sections}

abbrev chances : List Chance
chances = record { fails = true; spins = false } ∷ record { fails = false; spins = true } ∷ []

-- The lock that parks at once.
abbrev parks : List Chance
parks = record { fails = false; spins = false } ∷ []

abbrev counter : SmallMutex (RawMutex fifo_lot) ℕ
counter = record { raw = init fifo_lot; inner = 1 }

mootex_sections_example :
    (s : SmallMutex (RawMutex fifo_lot) ℕ) × (sections
        (raw_mutex fifo_lot true chances false tt)
        ((λ n. n + 3) ∷ (λ n. n * 2) ∷ [])
        counter
      ≡ done s)
    × (s.raw.state ≡ free)
    × (s.inner ≡ 8)
mootex_sections_example =
    mootex_sections fifo_lot true chances false tt ((λ n. n + 3) ∷ (λ n. n * 2) ∷ []) counter refl

abbrev whole : Part ℕ ℕ
whole = record { get = λ t. t; put = λ t u. u }

abbrev above_two : Part ℕ ℕ
above_two = record { get = λ t. t + 2; put = λ t u. u + t }
