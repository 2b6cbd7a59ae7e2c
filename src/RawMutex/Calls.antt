-- ===== src/RawMutex/Calls.antt =====
-- src/mutex/raw_mutex.rs: `Mutexable` for `RawMutex`, whole calls of one thread while no other runs. `System` has
-- the same calls an access at a time. What a weak compare-exchange and `SpinWait::spin` answer is given for each
-- round of a loop, and the list of it is the fuel.
use co_queue.Base.{Bool, true, false, not, ◌&&◌, ◌||◌, none, some, List, [], ◌∷◌, if◌then◌else◌}
use co_queue.Base.Outcome.{Outcome, done, fault, spinning}
use co_queue.CoQueue.State.{Round, again, returned}
use co_queue.RawMutex.{Word, free, locked_bit, word, with_locked, with_parked, callback, ParkingLot}

-- What one round meets: whether its exchange fails for no reason, and whether `spin` spun.
pub record Chance : Type 0 where
  pub fails : Bool
  pub spins : Bool

-- The word found is the word expected.
abbrev same : Word → Word → Bool
same a b =
    (if a.locked then b.locked else not b.locked) && (if a.parked then b.parked else not b.parked)

module _ (lot : ParkingLot) where
  open lot use {Lot, empty, unpark_one}

  -- The lock word, with the threads that are parked at its address.
  pub record RawMutex : Type 0 where
    pub state : Word
    pub queue : Lot

  abbrev pub init : RawMutex
  init = record { state = free; queue = empty }

  -- One round of the loop in `lock_slow`, with the `state` that it has loaded. A thread that parks sleeps for
  -- good: no other runs to wake it.
  unfoldable pub slow_round : Chance → Word → RawMutex → Outcome (Round Word RawMutex RawMutex)
  slow_round c w m =
      let refused = c.fails || not (same m.state w) in
      if not w.locked
      then (if refused
          then done (again m.state m)
          else done (returned (record m { state = with_locked w })))
      else if not w.parked && c.spins
      then done (again m.state m)
      else if not w.parked && refused
      then done (again m.state m)
      else (let m₁ : RawMutex = if w.parked then m else record m { state = with_parked w } in
          if same m₁.state (word true true) then spinning else done (again m₁.state m₁))

  unfoldable pub slow_loop : List Chance → Word → RawMutex → Outcome RawMutex
  slow_loop [] w m = spinning
  slow_loop (c ∷ rest) w m = elim (slow_round c w m) [
    | fault ↦ fault
    | spinning ↦ spinning
    | done r ↦ elim r [ again w' m' ↦ slow_loop rest w' m' | returned m' ↦ done m' ]
  ]

  -- `lock`; `fails` is about its own exchange.
  unfoldable pub lock : (fails : Bool) → List Chance → RawMutex → Outcome RawMutex
  lock fails rounds m =
      if fails || not (same m.state free)
      then slow_loop rounds m.state m
      else done (record m { state = locked_bit })

  unfoldable pub try_loop : List Chance → Word → RawMutex → Outcome (RawMutex × Bool)
  try_loop [] w m = spinning
  try_loop (c ∷ rest) w m =
      let next = try_loop rest m.state m in
      if w.locked
      then done (m, false)
      else if c.fails || not (same m.state w)
      then next
      else done (record m { state = with_parked w }, true)

  unfoldable pub try_lock : List Chance → RawMutex → Outcome (RawMutex × Bool)
  try_lock rounds m = try_loop rounds m.state m

  -- `fair` is `be_fair` of the parking lot.
  unfoldable pub unlock_slow : (fair : Bool) → RawMutex → RawMutex
  unlock_slow fair m = elim (unpark_one m.queue) [
    | none ↦ record m {
      state =
          (callback (record { unparked_threads = 0; have_more_threads = false; be_fair = false })
            m.state).0;
    }
    | some u ↦ record {
      state =
          (callback (record { unparked_threads = 1; have_more_threads = u.2; be_fair = fair })
            m.state).0;
      queue = u.1;
    }
  ]

  unfoldable pub unlock : (fair : Bool) → RawMutex → RawMutex
  unlock fair m = if same m.state locked_bit then record m { state = free } else unlock_slow fair m
