-- ===== src/Backoff.antt =====
-- src/backoff.rs: the step counter of a spinning thread. A call of `spin_loop_hint` or of
-- `yield_now` is an effect: each operation returns what it asked of the processor.
pub mod Bounds
mod Examples
use co_queue.Base.{ℕ, ◌+◌, ◌^◌, min, Bool, ltb, leb, if◌then◌else◌}

abbrev pub spin_limit : ℕ
spin_limit = 6

abbrev pub yield_limit : ℕ
yield_limit = 10

-- `Cell<u32>`
pub record Backoff : Type 0 where
  pub step : ℕ

-- What a call did: so many spin hints, or one yield to the scheduler.
pub data Pause : Type 0 where
  hints : ℕ → Pause
  yielded : Pause

abbrev pub new : Backoff
new = record { step = 0 }

pub reset : Backoff → Backoff
reset b = record { step = 0 }

-- `for _ in 0..1 << self.step.get().min(SPIN_LIMIT)`
pub spin : Backoff → Pause × Backoff
spin b = (
  hints (2 ^ min b.step spin_limit),
  if leb b.step spin_limit then record { step = b.step + 1 } else b,
)

pub nap : Backoff → Pause × Backoff
nap b = (
  if leb b.step spin_limit then hints (2 ^ b.step) else yielded,
  if leb b.step yield_limit then record { step = b.step + 1 } else b,
)

pub is_completed : Backoff → Bool
is_completed b = ltb yield_limit b.step
