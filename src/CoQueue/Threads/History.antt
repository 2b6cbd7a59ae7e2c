-- ===== src/CoQueue/Threads/History.antt =====
-- src/lockless_queue.rs, a run of a `CoQueue` that threads share, as a first-in first-out list sees
-- it: a push enters its value when its exchange wins a slot, and a pop leaves with one when its own
-- does.
use co_queue.Base.{ℕ, ◌+◌, List, [], ◌∷◌, ◌++◌, update}
use co_queue.CoQueue.Threads.{Crowd}
use co_queue.CoQueue.Threads.Pushes
use co_queue.CoQueue.Threads.Pushes.{PushStep}
use co_queue.CoQueue.Threads.Pops
use co_queue.CoQueue.Threads.Pops.{PopStep}
use co_queue.CoQueue.Threads.Run.{Reach, start, pushes, pops}

module _ {ℓ} {A : Type ℓ} where
  -- The values that have entered, after the access.
  abbrev pub enter : List A → {s : Crowd A} {i : ℕ} {t : Crowd A} → PushStep s i t → List A
  enter vals (Pushes.wins x l at r n e o) = vals ++ (x ∷ [])
  enter vals (Pushes.wins_last x l p at r n e o b) = vals ++ (x ∷ [])
  enter vals _ = vals

  -- The number of pops that have won a slot, after the access.
  abbrev pub leave : ℕ → {s : Crowd A} {i : ℕ} {t : Crowd A} → PopStep s i t → ℕ
  leave won (Pops.pop_wins l n at c e o) = won + 1
  leave won (Pops.pop_wins_last l n at c e o) = won + 1
  leave won _ = won

  -- For each thread how many pops had won a slot before it last won one, after the access.
  abbrev pub place_in : ℕ → (ℕ → ℕ) → {s : Crowd A} {i : ℕ} {t : Crowd A} → PopStep s i t → ℕ → ℕ
  place_in won place {i = i} (Pops.pop_wins l n at c e o) = update place i won
  place_in won place {i = i} (Pops.pop_wins_last l n at c e o) = update place i won
  place_in won place _ = place

  unfoldable pub pushed : {s : Crowd A} → Reach s → List A
  pushed start = []
  pushed (pushes r i lt st) = enter (pushed r) st
  pushed (pops r i lt st) = pushed r

  unfoldable pub won : {s : Crowd A} → Reach s → ℕ
  won start = 0
  won (pushes r i lt st) = won r
  won (pops r i lt st) = leave (won r) st

  unfoldable pub place : {s : Crowd A} → Reach s → ℕ → ℕ
  unfolding won
  place start = λ _. 0
  place (pushes r i lt st) = place r
  place (pops r i lt st) = place_in (won r) (place r) st
