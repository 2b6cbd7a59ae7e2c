-- ===== src/RawMutex/System.antt =====
-- src/mutex/raw_mutex.rs: `n` threads that call `lock`, `try_lock`, `unlock` and
-- `mark_parked_when_lock` on one mutex, an atomic access at a time. What `park` and `unpark_one` do
-- under the lock of their bucket is one access. A weak compare-exchange may fail at any time,
-- `SpinWait::spin` may answer either way, and `park` has no timeout here, so it does not return
-- `TimedOut`.
use co_queue.Base.{ℕ, ◌<◌, ◌≡◌, ◌≢◌, Bool, true, false, none, some, update}
use co_queue.RawMutex.{
  Word, free, locked_bit, word, with_locked, with_parked, Token, normal, handoff, callback,
  ParkingLot,
}

-- Where a thread stands, with the `state` that it has loaded.
pub data Pc : Type 0 where
  idle : Pc  -- outside, or at the start of a call
  reload : Pc  -- before a load of `state` in `lock_slow`
  looped : Word → Pc  -- at the head of the loop in `lock_slow`
  parking : Pc  -- before `park`
  sleeping : Pc  -- in the queue of the parking lot
  woken : Token → Pc  -- back from `park`
  trying : Word → Pc  -- at the head of the loop in `try_lock`
  marking : Word → Pc  -- at the head of the loop in `mark_parked_when_lock`
  holding : Pc  -- between the return of `lock` or `try_lock` and `unlock`
  leaving : Pc  -- before `unpark_one` in `unlock_slow`

module _ (lot : ParkingLot) where
  open lot use {Lot, empty, park, unpark_one}

  pub record System : Type 0 where
    pub state : Word
    pub queue : Lot
    pub pc : ℕ → Pc

  abbrev pub init : System
  init = record { state = free; queue = empty; pc = λ _. idle }

  -- Thread `i` leaves `w` in the word and goes to `p`.
  abbrev pub go : System → Word → ℕ → Pc → System
  go s w i p = record s { state = w; pc = update s.pc i p }

  -- One access of thread `i`. Calls of `try_lock` are made only if `tries` is true.
  pub data Step (tries : Bool) (n : ℕ) (s : System) (i : ℕ) : System → Type 0 where
    -- `lock`
    lock_fast : s.pc i ≡ idle → s.state ≡ free → Step tries n s i (go s locked_bit i holding)
    lock_misses : s.pc i ≡ idle → Step tries n s i (go s s.state i reload)
    -- `lock_slow`
    loads : s.pc i ≡ reload → Step tries n s i (go s s.state i (looped s.state))
    grabs :
        (w : Word)
        → s.pc i ≡ looped w
        → w.locked ≡ false
        → s.state ≡ w
        → Step tries n s i (go s (with_locked w) i holding)
    grab_fails :
        (w : Word)
        → s.pc i ≡ looped w
        → w.locked ≡ false
        → Step tries n s i (go s s.state i (looped s.state))
    spins :
        (w : Word)
        → s.pc i ≡ looped w
        → w.locked ≡ true
        → w.parked ≡ false
        → Step tries n s i (go s s.state i reload)
    flags :
        (w : Word)
        → s.pc i ≡ looped w
        → w.locked ≡ true
        → w.parked ≡ false
        → s.state ≡ w
        → Step tries n s i (go s (with_parked w) i parking)
    flag_fails :
        (w : Word)
        → s.pc i ≡ looped w
        → w.locked ≡ true
        → w.parked ≡ false
        → Step tries n s i (go s s.state i (looped s.state))
    was_flagged :
        (w : Word)
        → s.pc i ≡ looped w
        → w.locked ≡ true
        → w.parked ≡ true
        → Step tries n s i (go s s.state i parking)
    invalid : s.pc i ≡ parking → s.state ≢ word true true → Step tries n s i (go s s.state i reload)
    parks :
        s.pc i ≡ parking
        → s.state ≡ word true true
        → Step tries n s i (record s { queue = park i s.queue; pc = update s.pc i sleeping })
    handed : s.pc i ≡ woken handoff → Step tries n s i (go s s.state i holding)
    retries : s.pc i ≡ woken normal → Step tries n s i (go s s.state i reload)
    -- `unlock`
    unlock_fast : s.pc i ≡ holding → s.state ≡ locked_bit → Step tries n s i (go s free i idle)
    unlock_misses :
        s.pc i ≡ holding → s.state ≢ locked_bit → Step tries n s i (go s s.state i leaving)
    -- `unlock_slow`
    wakes_none :
        s.pc i ≡ leaving
        → unpark_one s.queue ≡ none
        → Step tries n s i (
            go s
              (callback
                (record { unparked_threads = 0; have_more_threads = false; be_fair = false })
                s.state).0
              i
              idle)
    wakes :
        (t : ℕ) (q : Lot) (more fair : Bool)
        → s.pc i ≡ leaving
        → unpark_one s.queue ≡ some (t, q, more)
        → (r : Word × Token)
        → callback
            (record { unparked_threads = 1; have_more_threads = more; be_fair = fair })
            s.state
          ≡ r
        → Step tries n s i
            (record { state = r.0; queue = q; pc = update (update s.pc t (woken r.1)) i idle })
    -- `try_lock`
    tries_load : tries ≡ true → s.pc i ≡ idle → Step tries n s i (go s s.state i (trying s.state))
    tries_busy :
        (w : Word) → s.pc i ≡ trying w → w.locked ≡ true → Step tries n s i (go s s.state i idle)
    tries_win :
        (w : Word)
        → s.pc i ≡ trying w
        → w.locked ≡ false
        → s.state ≡ w
        → Step tries n s i (go s (with_parked w) i holding)
    tries_fail :
        (w : Word)
        → s.pc i ≡ trying w
        → w.locked ≡ false
        → Step tries n s i (go s s.state i (trying s.state))
    -- `mark_parked_when_lock`
    marks_load : s.pc i ≡ idle → Step tries n s i (go s s.state i (marking s.state))
    marks_none :
        (w : Word) → s.pc i ≡ marking w → w.locked ≡ false → Step tries n s i (go s s.state i idle)
    marks :
        (w : Word)
        → s.pc i ≡ marking w
        → w.locked ≡ true
        → s.state ≡ w
        → Step tries n s i (go s (with_parked w) i idle)
    mark_fails :
        (w : Word)
        → s.pc i ≡ marking w
        → w.locked ≡ true
        → Step tries n s i (go s s.state i (marking s.state))

  pub data Reach (tries : Bool) (n : ℕ) : System → Type 0 where
    start : Reach tries n init
    later :
        {s t : System} → Reach tries n s → (i : ℕ) → i < n → Step tries n s i t → Reach tries n t
