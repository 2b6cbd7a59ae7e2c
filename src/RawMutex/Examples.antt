-- ===== src/RawMutex/Examples.antt =====
-- A contended run of src/mutex/raw_mutex.rs over a list of waiting threads, and instances of the theorems.
use co_queue.Base.{ℕ, ◌≡◌, ◌↔◌, refl, true, false, [], arith}
use co_queue.RawMutex.{free, locked_bit, parked_bit, word, handoff, callback}
use co_queue.RawMutex.FifoLot.{fifo_lot}
use co_queue.RawMutex.System
use co_queue.RawMutex.System.{
  Pc, idle, reload, looped, parking, sleeping, woken, trying, holding, leaving, System, init, go,
  Step, Reach, start, later,
}
use co_queue.RawMutex.Invariant.{owns, active}
use co_queue.RawMutex.Progress.{WakesOne, unlock_wakes}
use co_queue.RawMutex.Safety.{mutual_exclusion, locked_iff, no_lost_wakeup, try_lock_lets_two_in}

-- Thread 0 owns the mutex, and thread 1 sleeps.
contended :
    (s : System fifo_lot) × Reach fifo_lot false 2 s
    × (s.pc 0 ≡ holding)
    × (s.pc 1 ≡ sleeping)
    × (s.state ≡ word true true)
contended = (
  _,
  later
      (later
        (later
          (later (later start 0 (omega arith) (System.lock_fast refl refl)) 1 (omega arith)
            (System.lock_misses refl))
          1 (omega arith) (System.loads refl))
        1 (omega arith) (System.flags locked_bit refl refl refl refl))
      1 (omega arith) (System.parks refl refl),
  refl,
  refl,
  refl,
)

-- The owner unlocks fairly: the lock goes to thread 1 without being freed.
handed_over :
    (s : System fifo_lot) × Reach fifo_lot false 2 s
    × (s.pc 0 ≡ idle)
    × (s.pc 1 ≡ holding)
    × (s.state ≡ locked_bit)
unfolding contended callback
handed_over = (
  _,
  later
      (later (later contended.1 0 (omega arith) (System.unlock_misses refl (λ e. cc))) 0
        (omega arith) (System.wakes 1 [] false true refl refl (locked_bit, handoff) refl))
      1 (omega arith) (System.handed refl),
  refl,
  refl,
  refl,
)

mutual_exclusion_example : ◌≡◌ {A = ℕ} 0 0
unfolding contended
mutual_exclusion_example = mutual_exclusion fifo_lot contended.1 0 0 refl refl

locked_iff_example : (contended.0.state.locked ≡ true) ↔ ((i : ℕ) × (owns (contended.0.pc i) ≡ 1))
locked_iff_example = locked_iff fifo_lot contended.1

no_lost_wakeup_example :
    (contended.0.state.parked ≡ true) × ((j : ℕ) × (active (contended.0.pc j) ≡ true))
no_lost_wakeup_example = no_lost_wakeup fifo_lot contended.1 1 contended.3

-- The owner has found PARKED_BIT, and is about to wake a thread; thread 2 has set the bit once more.
unlocking :
    (s : System fifo_lot) × Reach fifo_lot false 3 s × (s.pc 0 ≡ leaving) × (s.pc 1 ≡ sleeping)
unfolding contended
unlocking = (
  _,
  later
      (later
        (later
          (later
            (later
              (later
                (later (later start 0 (omega arith) (System.lock_fast refl refl)) 1 (omega arith)
                  (System.lock_misses refl))
                1 (omega arith) (System.loads refl))
              1 (omega arith) (System.flags locked_bit refl refl refl refl))
            1 (omega arith) (System.parks refl refl))
          2 (omega arith) (System.marks_load refl))
        2 (omega arith) (System.marks (word true true) refl refl refl))
      0 (omega arith) (System.unlock_misses refl (λ e. cc)),
  refl,
  refl,
)

unlock_wakes_example :
    ((s' : System fifo_lot) × Step fifo_lot false 3 unlocking.0 0 s')
    × ((s' : System fifo_lot)
        → Step fifo_lot false 3 unlocking.0 0 s'
        → WakesOne fifo_lot unlocking.0 s')
unlock_wakes_example = unlock_wakes fifo_lot unlocking.1 unlocking.2 unlocking.3

-- Thread 0 has loaded a free word in `try_lock`.
abbrev about_to_try : System fifo_lot
about_to_try = go fifo_lot (init fifo_lot) free 0 (trying free)

try_lock_lets_two_in_example :
    (s : System fifo_lot) × Reach fifo_lot true 2 s
    × (s.pc 0 ≡ holding)
    × (s.pc 1 ≡ holding)
    × (s.state ≡ parked_bit)
try_lock_lets_two_in_example = try_lock_lets_two_in fifo_lot 2 (omega arith)
