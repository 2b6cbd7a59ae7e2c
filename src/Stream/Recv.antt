-- ===== src/Stream/Recv.antt =====
-- The messages on the channel of src/stream.rs, and what a poll does while none of them stops it.
use co_queue.Base.{◌≡◌, refl, sym, Bool, some, List, [], ◌∷◌, length, ne→==, arith, All}
use mathlib.Core.Path.{subst}
use co_queue.Base.Outcome.{done}
use co_queue.CoQueue.State.{CoQueue}
use co_queue.CoQueue.Pop.{pop}
use co_queue.CoQueue.Measure.Counts.{is_empty-Holds}
use co_queue.CoQueue.Holds.{Holds}
use co_queue.Stream.{
  QueueState, yield, spin, ready, pending, Channel, Streamed, goes, verdict, poll, poll_next,
}

-- A message that does not stop the loop.
abbrev pub Harmless {ℓ} : {A : Type ℓ} → QueueState A → Type 0
Harmless m = verdict (some m) ≡ goes

module _ {ℓ} {A : Type ℓ} where
  poll-empty :
      (rounds : List Bool) (q : CoQueue A) → Holds q [] → poll rounds q ≡ done (q, ready spin)
  unfolding poll
  poll-empty rounds q h = rw (is_empty-Holds q [] h)

  poll-yield :
      (rounds : List Bool) (q q' : CoQueue A) (x : A) (xs : List A)
      → Holds q (x ∷ xs)
      → pop rounds q ≡ done (q', some x)
      → poll rounds q ≡ done (q', ready (yield x))
  unfolding poll
  poll-yield rounds q q' x xs h e =
      rw (is_empty-Holds q (x ∷ xs) h, ne→== (length (x ∷ xs)) 0 (omega arith), e) refl

  module _ {Receiver : Type 0} (channel : Channel A Receiver) where
    open channel use {try_recv, sent, recv-none, recv-some}

    -- Only harmless messages, or none, are on their way.
    abbrev pub Quiet : Receiver → Type 0
    Quiet c = All Harmless (sent c)

    recv_split :
        (c : Receiver) (ms : List (QueueState A))
        → sent c ≡ ms
        → All Harmless ms
        → (verdict (try_recv c).0 ≡ goes) × Quiet (try_recv c).1
    unfolding verdict
    recv_split c [] e quiet =
        (rw ((recv-none c e).0) refl, subst (All Harmless) (sym (recv-none c e).1) tt)
    recv_split c (m ∷ ms) e quiet = (
      rw ((recv-some c m ms e).0) quiet.0,
      subst (All Harmless) (sym (recv-some c m ms e).1) quiet.1,
    )

    pub recv-Quiet :
        (c : Receiver) → Quiet c → (verdict (try_recv c).0 ≡ goes) × Quiet (try_recv c).1
    recv-Quiet c quiet = recv_split c (sent c) refl quiet

    -- A poll of an empty queue with no message that stops it is pending.
    pub poll_next-empty :
        (rounds : List Bool) (s : Streamed A Receiver)
        → Holds s.que []
        → Quiet s.recv
        → poll_next channel rounds s ≡ done (record s { recv = (try_recv s.recv).1 }, pending)
    unfolding poll_next
    poll_next-empty rounds s h quiet =
        rw ((recv-Quiet s.recv quiet).0, poll-empty rounds s.que h, poll_next) refl

    -- A poll of a queue that holds values, with no message that stops it, takes the first.
    pub poll_next-yield :
        (rounds : List Bool) (s : Streamed A Receiver) (q : CoQueue A) (x : A) (xs : List A)
        → Holds s.que (x ∷ xs)
        → pop rounds s.que ≡ done (q, some x)
        → Quiet s.recv
        → poll_next channel rounds s
          ≡ done (record { que = q; recv = (try_recv s.recv).1 }, ready (some x))
    unfolding poll_next
    poll_next-yield rounds s q x xs h e quiet =
        rw ((recv-Quiet s.recv quiet).0, poll-yield rounds s.que q x xs h e, poll_next) refl
