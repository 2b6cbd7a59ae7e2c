-- ===== src/CoQueue/Threads/Run.antt =====
-- src/lockless_queue.rs, the runs of a `CoQueue` that threads share. It is pushed to less than
-- 2^62 times, so that no index wraps around.
use co_queue.Base.{ℕ, ◌+◌, ◌<◌, ◌^◌}
use co_queue.CoQueue.Drop.{new}
use co_queue.CoQueue.Threads.{idle, outside, Crowd}
use co_queue.CoQueue.Threads.Pushes.{PushStep}
use co_queue.CoQueue.Threads.Pops.{PopStep}

-- No thread is in a call, on a new queue.
abbrev pub outset {ℓ} : (A : Type ℓ) → Crowd A
outset A = record { queue = new A; pc = λ _. idle; popper = λ _. outside }

module _ {ℓ} {A : Type ℓ} where
  pub data Reach : Crowd A → Type ℓ where
    start : Reach (outset A)
    pushes :
        {s t : Crowd A}
        → Reach s
        → (i : ℕ) → s.queue.tail.index + 4 < 2 ^ 64
        → PushStep s i t
        → Reach t
    pops :
        {s t : Crowd A}
        → Reach s
        → (i : ℕ) → s.queue.tail.index + 4 < 2 ^ 64
        → PopStep s i t
        → Reach t
