-- ===== src/Blocking.antt =====
-- src/blocking_col.rs: a `CoQueue` behind a `RwLock`, iterated with a channel of its own. One thread
-- runs at a time, so the lock is free and not poisoned; a panic is a fault, behind which nothing runs.
pub mod Next
mod Examples
use co_queue.Base.{ℕ, zero, suc, ◌+◌, Bool, Option, none, some, List, [], ◌∷◌, ◌==◌, if◌then◌else◌}
use co_queue.Base.Outcome.{Outcome, done, fault, spinning, ◌>>=◌}
use co_queue.CoQueue.State.{CoQueue}
use co_queue.CoQueue.Push
use co_queue.CoQueue.Pop
use co_queue.CoQueue.Measure
use co_queue.Stream.{
  IterWaker, item, poke, ready, pending, Channel, Streamed, goes, ends, panics, verdict, poll_next,
}

-- `que` has a channel too, from which `poll_next` receives.
pub record BlockingQueue {ℓ} (A : Type ℓ) (Receiver : Type 0) : Type ℓ where
  pub que : Streamed A Receiver
  pub recv : Receiver

module _ {ℓ} {A : Type ℓ} {Receiver : Type 0} where
  -- The queue under the lock is replaced.
  abbrev pub with_que : BlockingQueue A Receiver → CoQueue A → BlockingQueue A Receiver
  with_que b q = record b { que = record b.que { que = q } }

  unfoldable pub push :
      List Bool → BlockingQueue A Receiver → A → Outcome (BlockingQueue A Receiver)
  push rounds b x = do q ← Push.push rounds b.que.que x; done (with_que b q)

  unfoldable pub pop :
      List Bool → BlockingQueue A Receiver → Outcome (BlockingQueue A Receiver × Option A)
  pop rounds b = do (q, o) ← Pop.pop rounds b.que.que; done (with_que b q, o)

  unfoldable pub is_empty : BlockingQueue A Receiver → Bool
  is_empty b = Measure.is_empty b.que.que

  unfoldable pub len : BlockingQueue A Receiver → ℕ
  len b = Measure.len b.que.que

  module _ (channel : Channel A Receiver) where
    open channel use {try_recv}

    -- The loop of `BlockingIter::next`; `rounds` is given for each `wake_count`.
    unfoldable pub next_loop :
        ℕ
        → (ℕ → List Bool)
        → (wake_count : ℕ) → BlockingQueue A Receiver
        → Outcome (BlockingQueue A Receiver × Option (IterWaker A))
    next_loop zero rounds wake_count b = spinning
    next_loop (suc fuel) rounds wake_count b =
        let (m, c) = try_recv b.recv in
        elim (verdict m) [
          | ends ↦ done (record b { recv = c }, none)
          | panics ↦ fault
          | goes ↦ do
            (s, p) ← poll_next channel (rounds wake_count) b.que
            let b₁ : BlockingQueue A Receiver = record { que = s; recv = c }
            elim p [
              | ready o ↦ elim o [ some x ↦ done (b₁, some (item x)) | none ↦ done (b₁, none) ]
              | pending ↦
                  let rest = next_loop fuel rounds (wake_count + 1) b₁ in
                  if wake_count == 20 then done (b₁, some poke) else rest
            ]
        ]

    -- `BlockingIter::next`: at most 21 rounds.
    unfoldable pub next :
        (ℕ → List Bool)
        → BlockingQueue A Receiver
        → Outcome (BlockingQueue A Receiver × Option (IterWaker A))
    next rounds b = next_loop 21 rounds 0 b
