-- ===== src/RawMutex/Safety.antt =====
-- What src/mutex/raw_mutex.rs guarantees while no thread calls `try_lock`, and what such a call
-- takes away.
use co_queue.Base.{ℕ, ◌≤◌, ◌≡◌, ◌↔◌, refl, Bool, true, false, arith}
use native.Mathlib.Decide.{ℕ_discrete}
use co_queue.Base.Tally.{weight-le-tally, two_weights-le-tally, tally-find}
use co_queue.RawMutex.{Word, free, parked_bit, ParkingLot}
use co_queue.RawMutex.System
use co_queue.RawMutex.System.{
  Pc, idle, reload, looped, parking, sleeping, woken, trying, holding, leaving, System, init, go,
  Step, Reach, start, later,
}
use co_queue.RawMutex.Invariant.{owns, busy, active, Reach-Inv}

owns-busy : (p : Pc) → owns p ≡ 1 → busy p ≡ true
owns-busy p h = ground arith

module _ (lot : ParkingLot) where
  -- If no thread calls `try_lock`, no two own the mutex in any reachable state.
  pub mutual_exclusion :
      {n : ℕ} {s : System lot}
      → Reach lot false n s
      → (i j : ℕ) → owns (s.pc i) ≡ 1
      → owns (s.pc j) ≡ 1
      → i ≡ j
  mutual_exclusion {n} {s} r i j hi hj =
      let inv = Reach-Inv lot r in
      elim (ℕ_discrete i j) [
        | yes same ↦ same
        | no apart ↦ absurd (
            ground (
              arith,
              inv.owned,
              two_weights-le-tally owns n s.pc i j (inv.inside i (owns-busy (s.pc i) hi))
                  (inv.inside j (owns-busy (s.pc j) hj)) apart,
            ))
      ]

  -- LOCKED_BIT is set in a reachable state exactly when some thread owns the mutex, if no
  -- thread calls `try_lock`.
  pub locked_iff :
      {n : ℕ} {s : System lot}
      → Reach lot false n s
      → (s.state.locked ≡ true) ↔ ((i : ℕ) × (owns (s.pc i) ≡ 1))
  locked_iff {n} {s} r =
      let inv = Reach-Inv lot r in
      (
        (λ l.
            let (i, w, lt) = tally-find owns n s.pc (ground (arith, inv.owned)) in
            (i, ground arith)),
        (λ o. ground (
          arith,
          inv.owned,
          o.1,
          weight-le-tally owns n s.pc o.0 (inv.inside o.0 (owns-busy (s.pc o.0) o.1)),
        )),
      )

  -- No wake-up is lost: while a thread sleeps in the parking lot, PARKED_BIT is set, so that the
  -- exchange of the owner's `unlock` fails and it looks for the sleeper; and some thread is awake in
  -- `lock` or `unlock` or between them. This holds in every reachable state, if no thread calls
  -- `try_lock`.
  pub no_lost_wakeup :
      {n : ℕ} {s : System lot}
      → Reach lot false n s
      → (t : ℕ) → s.pc t ≡ sleeping
      → (s.state.parked ≡ true) × ((j : ℕ) × (active (s.pc j) ≡ true))
  no_lost_wakeup {s = s} r t h =
      let inv = Reach-Inv lot r in (inv.flagged t (rw h), inv.live t (rw h))

  -- A `try_lock` that succeeds leaves LOCKED_BIT clear: it sets PARKED_BIT.
  try_lock-unlocked :
      {tries : Bool} {n i : ℕ} (w : Word) {s t : System lot}
      → Step lot tries n s i t
      → s.pc i ≡ trying w
      → t.pc i ≡ holding
      → (t.state.locked ≡ false) × (t.state.parked ≡ true)
  try_lock-unlocked w (System.lock_fast at' e) at won = cc
  try_lock-unlocked w (System.lock_misses at') at won = cc
  try_lock-unlocked w (System.loads at') at won = cc
  try_lock-unlocked w (System.grabs w' at' l e) at won = cc
  try_lock-unlocked w (System.grab_fails w' at' l) at won = cc
  try_lock-unlocked w (System.spins w' at' l p) at won = cc
  try_lock-unlocked w (System.flags w' at' l p e) at won = cc
  try_lock-unlocked w (System.flag_fails w' at' l p) at won = cc
  try_lock-unlocked w (System.was_flagged w' at' l p) at won = cc
  try_lock-unlocked w (System.invalid at' ne) at won = cc
  try_lock-unlocked w (System.parks at' e) at won = cc
  try_lock-unlocked w (System.handed at') at won = cc
  try_lock-unlocked w (System.retries at') at won = cc
  try_lock-unlocked w (System.unlock_fast at' e) at won = cc
  try_lock-unlocked w (System.unlock_misses at' ne) at won = cc
  try_lock-unlocked w (System.wakes_none at' q) at won = cc
  try_lock-unlocked w (System.wakes t q more fair at' found r e) at won = cc
  try_lock-unlocked w (System.tries_load e at') at won = cc
  try_lock-unlocked w (System.marks_load at') at won = cc
  try_lock-unlocked w (System.marks_none w' at' l) at won = cc
  try_lock-unlocked w (System.marks w' at' l e) at won = cc
  try_lock-unlocked w (System.mark_fails w' at' l) at won = cc
  try_lock-unlocked w {s} (System.tries_win w' at' l e) at won = (l, refl)
  try_lock-unlocked {i = i} w {s} (System.tries_busy w' at' l) at won = ground (arith, won)
  try_lock-unlocked {i = i} w {s} (System.tries_fail w' at' l) at won = ground (arith, won)

  -- From two threads on, `try_lock` lets two threads in together, with the mutex not locked.
  pub try_lock_lets_two_in :
      (n : ℕ)
      → 2 ≤ n
      → (s : System lot) × Reach lot true n s
        × (s.pc 0 ≡ holding)
        × (s.pc 1 ≡ holding)
        × (s.state ≡ parked_bit)
  try_lock_lets_two_in n h = (
    _,
    later
        (later
          (later (later start 0 (omega arith) (System.tries_load refl refl)) 0 (omega arith)
            (System.tries_win free refl refl refl))
          1 (omega arith) (System.tries_load refl refl))
        1 (omega arith) (System.tries_win parked_bit refl refl refl),
    refl,
    refl,
    refl,
  )
