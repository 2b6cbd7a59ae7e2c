-- ===== src/SmallMutex/Mootex.antt =====
-- `Mootex` and `MootexGuard` of src/mutex/mod.rs: `SmallMutex` over the `RawMutex` of src/mutex/raw_mutex.rs.
use co_queue.Base.{◌≡◌, refl, ap, Bool, true, false, List, [], ◌∷◌, map}
use co_queue.Base.Outcome.{done, spinning}
use co_queue.CoQueue.State.{Succeeds}
use co_queue.RawMutex.{Word, free, locked_bit, ParkingLot}
use co_queue.RawMutex.Calls.{Chance, RawMutex, init, slow_round, slow_loop, lock, try_lock, unlock}
use co_queue.SmallMutex
use co_queue.SmallMutex.{Mutexable, SmallMutex}
use co_queue.SmallMutex.Sections.{sections, writes, sections-writes}

module _ (lot : ParkingLot) where
  open lot use {Lot}

  abbrev free_raw : Lot → RawMutex lot
  free_raw q = record { state = free; queue = q }

  abbrev held_raw : Lot → RawMutex lot
  held_raw q = record { state = locked_bit; queue = q }

  -- A lock that is free is taken in the first round whose exchange does not fail.
  slow_loop-free :
      (rounds : List Chance) (q : Lot)
      → Succeeds (map (λ c. c.fails) rounds)
      → slow_loop lot rounds free (free_raw q) ≡ done (held_raw q)
  unfolding slow_loop slow_round
  slow_loop-free [] q ok = absurd ok
  slow_loop-free (c ∷ rest) q ok = by_fails c.fails c.spins (λ ok. slow_loop-free rest q ok) ok
    where
      by_fails :
          (fails spins : Bool)
          → (Succeeds (map (λ c. c.fails) rest)
              → slow_loop lot rest free (free_raw q) ≡ done (held_raw q))
          → Succeeds (fails ∷ map (λ c. c.fails) rest)
          → slow_loop lot (record { fails = fails; spins = spins } ∷ rest) free (free_raw q)
            ≡ done (held_raw q)
      by_fails false spins later ok = refl
      by_fails true spins later ok = later ok

  -- A lock that is held is not taken.
  slow_loop-held :
      (rounds : List Chance) (q : Lot) → slow_loop lot rounds locked_bit (held_raw q) ≡ spinning
  unfolding slow_loop slow_round
  slow_loop-held [] q = refl
  slow_loop-held (c ∷ rest) q = by_chance c.fails c.spins (slow_loop-held rest q)
    where
      by_chance :
          (fails spins : Bool)
          → slow_loop lot rest locked_bit (held_raw q) ≡ spinning
          → slow_loop lot (record { fails = fails; spins = spins } ∷ rest) locked_bit (held_raw q)
            ≡ spinning
      by_chance fails true later = later
      by_chance true false later = later
      by_chance false false later = refl

  lock-free :
      (fails : Bool) (rounds : List Chance) (q : Lot)
      → Succeeds (fails ∷ map (λ c. c.fails) rounds)
      → lock lot fails rounds (free_raw q) ≡ done (held_raw q)
  unfolding lock
  lock-free false rounds q ok = refl
  lock-free true rounds q ok = slow_loop-free rounds q ok

  lock-held :
      (fails : Bool) (rounds : List Chance) (q : Lot)
      → lock lot fails rounds (held_raw q) ≡ spinning
  unfolding lock
  lock-held false rounds q = slow_loop-held rounds q
  lock-held true rounds q = slow_loop-held rounds q

  unlock-held : (fair : Bool) (q : Lot) → unlock lot fair (held_raw q) ≡ free_raw q
  unfolding unlock
  unlock-held fair q = refl

  -- The mutex with its word.
  with_word :
      (m : RawMutex lot) (w : Word) → m.state ≡ w → m ≡ record { state = w; queue = m.queue }
  with_word m w e = rw (← e) refl

  -- `impl Mutexable for RawMutex`, where one exchange of a `lock` does not fail.
  pub raw_mutex :
      (fails : Bool) (rounds : List Chance)
      → (fair : Bool) → Succeeds (fails ∷ map (λ c. c.fails) rounds)
      → Mutexable (RawMutex lot)
  raw_mutex fails rounds fair ok = record {
    initial = init lot;
    lock = lock lot fails rounds;
    try_lock = try_lock lot rounds;
    unlock = λ m. done (unlock lot fair m);
    IsFree = λ m. m.state ≡ free;
    IsHeld = λ m. m.state ≡ locked_bit;
    initial-IsFree = refl;
    lock-takes = λ m e.
        (held_raw m.queue, rw (with_word m free e) (lock-free fails rounds m.queue ok), refl);
    lock-blocks = λ m e. rw (with_word m locked_bit e) (lock-held fails rounds m.queue);
    unlock-frees = λ m e. (
      free_raw m.queue,
      rw (with_word m locked_bit e) (ap done (unlock-held fair m.queue)),
      refl,
    );
  }

  module _ {ℓ} {T : Type ℓ} where
    -- Any number of critical sections of one thread on a free `Mootex`, where one exchange of each `lock`
    -- does not fail, end, leave it free, and have made their writes in order.
    pub mootex_sections :
        (fails : Bool) (rounds : List Chance)
        → (fair : Bool) → (ok : Succeeds (fails ∷ map (λ c. c.fails) rounds))
        → (fs : List (T → T)) (s : SmallMutex (RawMutex lot) T) → s.raw.state ≡ free
        → (s' : SmallMutex (RawMutex lot) T) × (sections (raw_mutex fails rounds fair ok) fs s
            ≡ done s')
          × (s'.raw.state ≡ free)
          × (s'.inner ≡ writes fs s.inner)
    unfolding raw_mutex
    mootex_sections fails rounds fair ok fs s open' =
        sections-writes (raw_mutex fails rounds fair ok) fs s open'
