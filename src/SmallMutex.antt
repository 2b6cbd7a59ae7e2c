-- ===== src/SmallMutex.antt =====
-- src/mutex/mod.rs: `SmallMutex` over any `Mutexable`, and its guards, as one thread uses them. A guard is
-- a value that borrows the mutex; to drop it is an operation of its own.
pub mod Sections
pub mod Mootex
mod Examples
use co_queue.Base.{◌≡◌, Bool}
use co_queue.Base.Outcome.{Outcome, done, spinning, ◌>>=◌}

-- The trait, with what its comments promise to one thread. To lock what is held blocks for good: the
-- thread that could unlock it is the one that waits. `RawMutex` fills it in `Mootex`.
pub record Mutexable (M : Type 0) : Type 1 where
  pub initial : M
  pub lock : M → Outcome M
  pub try_lock : M → Outcome (M × Bool)
  pub unlock : M → Outcome M
  pub IsFree : M → Type 0
  pub IsHeld : M → Type 0
  pub initial-IsFree : IsFree initial
  pub lock-takes : (m : M) → IsFree m → (m' : M) × (lock m ≡ done m') × IsHeld m'
  pub lock-blocks : (m : M) → IsHeld m → lock m ≡ spinning
  pub unlock-frees : (m : M) → IsHeld m → (m' : M) × (unlock m ≡ done m') × IsFree m'

pub record SmallMutex {ℓ} (M : Type 0) (T : Type ℓ) : Type ℓ where
  pub raw : M
  pub inner : T

pub data MutexGuard : Type 0 where
  guard : MutexGuard

-- What `F : FnOnce(&mut T) -> &mut U` gives: a part of the data, to read and to write.
pub record Part {ℓ κ} (T : Type ℓ) (U : Type κ) : Type (ℓ ⊔ κ) where
  pub get : T → U
  pub put : T → U → T

pub record MapMutexGuard {ℓ κ} (T : Type ℓ) (U : Type κ) : Type (ℓ ⊔ κ) where
  pub inner : Part T U

module _ {ℓ} {M : Type 0} {T : Type ℓ} (mutexable : Mutexable M) where
  abbrev pub new : T → SmallMutex M T
  new val = record { raw = mutexable.initial; inner = val }

  abbrev pub into_inner : SmallMutex M T → T
  into_inner s = s.inner

  unfoldable pub lock : SmallMutex M T → Outcome (SmallMutex M T × MutexGuard)
  lock s = do r ← mutexable.lock s.raw; done (record s { raw = r }, guard)

  unfoldable pub try_lock : SmallMutex M T → Outcome (SmallMutex M T × Bool)
  try_lock s = do (r, won) ← mutexable.try_lock s.raw; done (record s { raw = r }, won)

  unfoldable pub force_unlock : SmallMutex M T → Outcome (SmallMutex M T)
  force_unlock s = do r ← mutexable.unlock s.raw; done (record s { raw = r })

  -- A write through `DerefMut` of the guard.
  abbrev pub deref_mut : SmallMutex M T → MutexGuard → (T → T) → SmallMutex M T
  deref_mut s guard f = record s { inner = f s.inner }

  -- `Drop` of the guard.
  unfoldable pub drop : SmallMutex M T → MutexGuard → Outcome (SmallMutex M T)
  drop s guard = do r ← mutexable.unlock s.raw; done (record s { raw = r })

  -- `mem::forget` of a guard: its `Drop` does not run.
  abbrev pub forget : SmallMutex M T → MutexGuard → Outcome (SmallMutex M T)
  forget s guard = done s

  unfoldable pub map {κ} :
      {U : Type κ}
      → SmallMutex M T
      → MutexGuard
      → Part T U
      → Outcome (SmallMutex M T × MapMutexGuard T U)
  map s guard f = do s₁ ← forget s guard; done (s₁, record { inner = f })

  -- A `MapMutexGuard` has no `Drop`: its fields are dropped, which does nothing.
  unfoldable pub drop_mapped {κ} :
      {U : Type κ} → SmallMutex M T → MapMutexGuard T U → Outcome (SmallMutex M T)
  drop_mapped s m = done s

  -- `mem::forget` of a mapped guard.
  abbrev pub forget_mapped {κ} :
      {U : Type κ} → SmallMutex M T → MapMutexGuard T U → Outcome (SmallMutex M T)
  forget_mapped s m = done s

  -- `MapMutexGuard::map`
  unfoldable pub remap {κ κ'} :
      {U : Type κ} {V : Type κ'}
      → SmallMutex M T
      → MapMutexGuard T U
      → Part U V
      → Outcome (SmallMutex M T × MapMutexGuard T V)
  remap s m f = do
    s₁ ← forget_mapped s m
    done (
      s₁,
      record {
        inner = record {
          get = λ t. f.get (m.inner.get t);
          put = λ t v. m.inner.put t (f.put (m.inner.get t) v);
        };
      },
    )
