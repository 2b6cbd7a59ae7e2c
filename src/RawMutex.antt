-- ===== src/RawMutex.antt =====
-- src/mutex/raw_mutex.rs: the lock word, the callback of `unlock_slow` and the parking lot that
-- the lock is built on. `System` interleaves the threads.
pub mod System
pub mod Calls
pub mod FifoLot
mod Invariant
pub mod Safety
pub mod Progress
mod Examples
use co_queue.Base.{
  ℕ, ◌≡◌, Bool, true, false, not, ◌&&◌, ◌||◌, Option, none, some, ◌==◌, if◌then◌else◌,
}

-- The two low bits of `state`: LOCKED_BIT and PARKED_BIT.
pub record Word : Type 0 where
  pub locked : Bool
  pub parked : Bool

abbrev pub word : Bool → Bool → Word
word l p = record { locked = l; parked = p }

-- 0, LOCKED_BIT and PARKED_BIT
abbrev pub free : Word
free = word false false

abbrev pub locked_bit : Word
locked_bit = word true false

abbrev pub parked_bit : Word
parked_bit = word false true

-- `state | LOCKED_BIT` and `state | PARKED_BIT`
abbrev pub with_locked : Word → Word
with_locked w = record w { locked = true }

abbrev pub with_parked : Word → Word
with_parked w = record w { parked = true }

-- TOKEN_NORMAL and TOKEN_HANDOFF
pub data Token : Type 0 where
  normal handoff : Token

-- `UnparkResult`, as far as the callback reads it.
pub record UnparkResult : Type 0 where
  pub unparked_threads : ℕ
  pub have_more_threads : Bool
  pub be_fair : Bool

-- The callback of `unlock_slow`: the word that it leaves, and the token for the thread.
unfoldable pub callback : UnparkResult → Word → Word × Token
callback r w =
    if not (r.unparked_threads == 0) && r.be_fair
    then (if not r.have_more_threads then locked_bit else w, handoff)
    else (if r.have_more_threads then parked_bit else free, normal)

-- The parking lot as far as one mutex sees it: the threads that are parked at its address. The
-- laws are the documented behaviour of `park` and `unpark_one`; a thread parks once at a time.
pub record ParkingLot : Type 1 where
  pub Lot : Type 0
  pub empty : Lot
  pub park : ℕ → Lot → Lot
  -- the thread that was taken out, those that are left, and `have_more_threads`
  pub unpark_one : Lot → Option (ℕ × Lot × Bool)
  pub waits : Lot → ℕ → Bool
  pub waits-empty : (t : ℕ) → waits empty t ≡ false
  pub waits-park : (t : ℕ) (q : Lot) (u : ℕ) → waits (park t q) u ≡ ((t == u) || waits q u)
  pub unpark-none : (q : Lot) → unpark_one q ≡ none → (u : ℕ) → waits q u ≡ false
  pub unpark-waits :
      (q : Lot) (t : ℕ) (q' : Lot) (more : Bool)
      → unpark_one q ≡ some (t, q', more)
      → waits q t ≡ true
  pub unpark-rest :
      (q : Lot) (t : ℕ) (q' : Lot) (more : Bool)
      → unpark_one q ≡ some (t, q', more)
      → (u : ℕ) → waits q' u ≡ (not (t == u) && waits q u)
  pub unpark-last :
      (q : Lot) (t : ℕ) (q' : Lot)
      → unpark_one q ≡ some (t, q', false)
      → (u : ℕ) → waits q' u ≡ false
