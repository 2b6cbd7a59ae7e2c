-- ===== src/Stream.antt =====
-- src/stream.rs: a `CoQueue` with its channel, polled as a stream and iterated.
pub mod Recv
pub mod Next
pub mod Inputs
mod Examples
use co_queue.Base.{
  ℕ, zero, suc, ◌+◌, ◌≡◌, Bool, true, false, not, Option, none, some, List, [], ◌∷◌, ◌==◌,
  if◌then◌else◌,
}
use co_queue.Base.Outcome.{Outcome, done, fault, spinning, ◌>>=◌}
use co_queue.CoQueue.State.{CoQueue}
use co_queue.CoQueue.Pop.{pop}
use co_queue.CoQueue.Measure.{is_empty}

pub data QueueError : Type 0 where
  error : QueueError

pub data QueueState {ℓ} (A : Type ℓ) : Type ℓ where
  failed : QueueError → QueueState A
  yield : A → QueueState A
  spin : QueueState A
  terminate : QueueState A

-- `Poll` of the standard library.
pub data Poll {ℓ} (A : Type ℓ) : Type ℓ where
  ready : A → Poll A
  pending : Poll A

pub data IterWaker {ℓ} (A : Type ℓ) : Type ℓ where
  item : A → IterWaker A
  poke : IterWaker A

-- The receiving half of a channel of the standard library, with the messages that were sent and not
-- received yet. `try_recv` takes the oldest; `none` is its `Err`.
pub record Channel {ℓ} (A : Type ℓ) (Receiver : Type 0) : Type ℓ where
  pub try_recv : Receiver → Option (QueueState A) × Receiver
  pub sent : Receiver → List (QueueState A)
  pub recv-none :
      (c : Receiver) → sent c ≡ [] → ((try_recv c).0 ≡ none) × (sent (try_recv c).1 ≡ [])
  pub recv-some :
      (c : Receiver) (m : QueueState A) (ms : List (QueueState A))
      → sent c ≡ m ∷ ms
      → ((try_recv c).0 ≡ some m) × (sent (try_recv c).1 ≡ ms)

-- The fields of `CoQueue`: the queue proper, and `recv`.
pub record Streamed {ℓ} (A : Type ℓ) (Receiver : Type 0) : Type ℓ where
  pub que : CoQueue A
  pub recv : Receiver

-- What a message does to the loop that has received it; the panic is a fault.
pub data Verdict : Type 0 where
  goes ends panics : Verdict

unfoldable pub verdict {ℓ} : {A : Type ℓ} → Option (QueueState A) → Verdict
verdict (some terminate) = ends
verdict (some (failed e)) = panics
verdict (some (yield x)) = goes
verdict (some spin) = goes
verdict none = goes

module _ {ℓ} {A : Type ℓ} where
  -- `FutureStreamOwn::poll`; `rounds` is what the exchanges of `pop` do.
  unfoldable pub poll : List Bool → CoQueue A → Outcome (CoQueue A × Poll (QueueState A))
  poll rounds q =
      if not (is_empty q)
      then (do
        (q₁, o) ← pop rounds q
        elim o [ some x ↦ done (q₁, ready (yield x)) | none ↦ done (q₁, ready (failed error)) ])
      else done (q, ready spin)

  module _ {Receiver : Type 0} (channel : Channel A Receiver) where
    open channel use {try_recv}

    unfoldable pub poll_next :
        List Bool → Streamed A Receiver → Outcome (Streamed A Receiver × Poll (Option A))
    poll_next rounds s =
        let (m, c) = try_recv s.recv in
        elim (verdict m) [
          | ends ↦ done (record s { recv = c }, ready none)
          | panics ↦ fault
          | goes ↦ do
            (q, p) ← poll rounds s.que
            elim p [
              | pending ↦ fault
              | ready st ↦ elim st [
                | spin ↦ done (record { que = q; recv = c }, pending)
                | failed e ↦ fault
                | yield x ↦ done (record { que = q; recv = c }, ready (some x))
                | terminate ↦ fault
              ]
            ]
        ]

    -- The loop of `CoQueIntoIter::next`; `rounds` is given for each `wake_count`.
    unfoldable pub next_loop :
        ℕ
        → (ℕ → List Bool)
        → (wake_count : ℕ) → Streamed A Receiver
        → Outcome (Streamed A Receiver × Option (IterWaker A))
    next_loop zero rounds wake_count s = spinning
    next_loop (suc fuel) rounds wake_count s =
        let (m, c) = try_recv s.recv in
        elim (verdict m) [
          | ends ↦ done (record s { recv = c }, none)
          | panics ↦ fault
          | goes ↦ do
            (s₁, p) ← poll_next (rounds wake_count) (record s { recv = c })
            elim p [
              | ready o ↦ elim o [ some x ↦ done (s₁, some (item x)) | none ↦ done (s₁, none) ]
              | pending ↦
                  let rest = next_loop fuel rounds (wake_count + 1) s₁ in
                  if wake_count == 20 then done (s₁, some poke) else rest
            ]
        ]

    -- `CoQueIntoIter::next`: at most 21 rounds.
    unfoldable pub next :
        (ℕ → List Bool) → Streamed A Receiver → Outcome (Streamed A Receiver × Option (IterWaker A))
    next rounds s = next_loop 21 rounds 0 s
