-- ===== src/SmallMutex/Sections.antt =====
-- Critical sections over the mutex of src/mutex/mod.rs.
use co_queue.Base.{◌≡◌, refl, List, [], ◌∷◌}
use co_queue.Base.Outcome.{Outcome, done, ◌>>=◌}
use co_queue.SmallMutex.{
  Mutexable, SmallMutex, MutexGuard, MapMutexGuard, Part, lock, deref_mut, drop, map, remap,
  drop_mapped,
}

abbrev pub writes {ℓ} : {T : Type ℓ} → List (T → T) → T → T
writes [] t = t
writes (f ∷ fs) t = writes fs (f t)

module _ {ℓ} {M : Type 0} {T : Type ℓ} (mutexable : Mutexable M) where
  -- Lock, write, and drop the guard, for each of the writes.
  unfoldable pub sections : List (T → T) → SmallMutex M T → Outcome (SmallMutex M T)
  sections [] s = done s
  sections (f ∷ fs) s = do
    (s₁, g) ← lock mutexable s
    s₂ ← drop mutexable (deref_mut mutexable s₁ g f) g
    sections fs s₂

  -- Any number of critical sections on an unlocked mutex end, leave it unlocked, and have made their
  -- writes in order.
  pub sections-writes :
      (fs : List (T → T)) (s : SmallMutex M T)
      → mutexable.IsFree s.raw
      → (s' : SmallMutex M T) × (sections fs s ≡ done s')
        × mutexable.IsFree s'.raw
        × (s'.inner ≡ writes fs s.inner)
  unfolding sections lock drop
  sections-writes [] s open' = (s, refl, open', refl)
  sections-writes (f ∷ fs) s open' =
      let (r, took, locked) = mutexable.lock-takes s.raw open' in
      let (r', left, unlocked) = mutexable.unlock-frees r locked in
      let (s', rest, free, same) =
        sections-writes fs (record { raw = r'; inner = f s.inner }) unlocked in
      (s', rw (took, left) rest, free, same)

  -- Lock, and map the guard twice.
  unfoldable pub lock_mapped {κ κ'} :
      {U : Type κ} {V : Type κ'}
      → Part T U
      → Part U V
      → SmallMutex M T
      → Outcome (SmallMutex M T × MapMutexGuard T V)
  lock_mapped f f' s = do
    (s₁, g) ← lock mutexable s
    (s₂, m) ← map mutexable s₁ g f
    remap mutexable s₂ m f'

  -- Drop a mapped guard, and lock again.
  unfoldable pub lock_after {κ} :
      {V : Type κ} → SmallMutex M T → MapMutexGuard T V → Outcome (SmallMutex M T × MutexGuard)
  lock_after s m = do s₁ ← drop_mapped mutexable s m; lock mutexable s₁
