-- ===== src/PtrGuard.antt =====
-- src/queue/shift_guard.rs: a stack of at most `cap` values in raw memory. The mutex beside it is
-- held by the callers and guards nothing here; `push` and `pop` are run with no interference, so
-- that their `compare_and_swap` of the length succeeds.
pub mod Stack
mod Examples
use co_queue.Base.{ℕ, ◌+◌, ◌-◌, Bool, Option, none, some, ◌==◌, if◌then◌else◌, update}

-- The allocation of `cap` cells, `none` where nothing was written. A cell from `cap` on is outside
-- of it, and nothing is ever written there.
pub record PtrGuard {ℓ} (A : Type ℓ) : Type ℓ where
  pub guard : ℕ → Option A
  pub cap : ℕ
  pub len : ℕ

-- What `pop` returns: `Err(())`, or `Ok` of what it read.
pub data Popped {ℓ} (A : Type ℓ) : Type ℓ where
  nothing : Popped A
  value : A → Popped A
  -- memory that was never written, or is not part of the allocation
  garbage : Popped A

-- `PtrGuard::with_threads`; `new` calls it with `num_cpus::get()`.
abbrev pub with_threads {ℓ} : (A : Type ℓ) → ℕ → PtrGuard A
with_threads A threads = record { guard = λ _. none; cap = threads; len = 0 }

module _ {ℓ} {A : Type ℓ} where
  abbrev pub is_empty : PtrGuard A → Bool
  is_empty g = g.len == 0

  -- `some node` is `Err(node)`: the value is handed back.
  unfoldable pub push : PtrGuard A → A → PtrGuard A × Option A
  push g node =
      if g.len == g.cap
      then (g, some node)
      else (record g { guard = update g.guard g.len (some node); len = g.len + 1 }, none)

  -- `ptr::read(guard.add(len))`
  abbrev pub read : PtrGuard A → ℕ → Popped A
  read g i = elim (g.guard i) [ none ↦ garbage | some x ↦ value x ]

  unfoldable pub pop : PtrGuard A → PtrGuard A × Popped A
  pop g = if g.len == 0 then (g, nothing) else (record g { len = g.len - 1 }, read g g.len)
