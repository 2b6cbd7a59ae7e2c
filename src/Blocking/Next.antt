-- ===== src/Blocking/Next.antt =====
-- `BlockingIter::next` of src/blocking_col.rs.
use co_queue.Base.{
  ℕ, zero, suc, ◌+◌, ◌<◌, ◌≡◌, refl, Bool, some, List, [], ◌∷◌, eq→==, ne→==, arith,
}
use co_queue.Base.Outcome.{done}
use co_queue.CoQueue.State.{Succeeds}
use co_queue.CoQueue.Pop.Rounds.{pop-Holds}
use co_queue.CoQueue.Holds.{Holds}
use co_queue.Stream.{IterWaker, item, poke, Channel}
use co_queue.Stream.Recv.{Quiet, recv-Quiet, poll_next-empty, poll_next-yield}
use co_queue.Blocking.{BlockingQueue, next_loop, next}

-- What the iterator yields, and what is left of the values.
abbrev pub first_or_poke {ℓ} : {A : Type ℓ} → List A → IterWaker A
first_or_poke [] = poke
first_or_poke (x ∷ xs) = item x

abbrev pub rest_of {ℓ} : {A : Type ℓ} → List A → List A
rest_of [] = []
rest_of (x ∷ xs) = xs

-- How often the iterator polls.
abbrev pub polls {ℓ} : {A : Type ℓ} → List A → ℕ
polls [] = 21
polls (x ∷ xs) = 1

module _ {ℓ} {A : Type ℓ} {Receiver : Type 0} (channel : Channel A Receiver) where
  open channel use {try_recv, sent, recv-none, recv-some}

  -- A channel from which was received `n` times.
  abbrev pub receives : ℕ → Receiver → Receiver
  receives zero c = c
  receives (suc n) c = receives n (try_recv c).1

  -- The queue holds `xs`, and neither channel has a message that stops the iterator.
  pub record Serving (b : BlockingQueue A Receiver) (xs : List A) : Type ℓ where
    pub held : Holds b.que.que xs
    pub inner : Quiet channel b.que.recv
    pub outer : Quiet channel b.recv

  -- Both channels after a round.
  abbrev received : BlockingQueue A Receiver → BlockingQueue A Receiver
  received b = record {
    que = record b.que { recv = (try_recv b.que.recv).1 };
    recv = (try_recv b.recv).1;
  }

  received-Serving :
      (b : BlockingQueue A Receiver) (xs : List A) → Serving b xs → Serving (received b) xs
  received-Serving b xs v = record {
    held = v.held;
    inner = (recv-Quiet channel b.que.recv v.inner).1;
    outer = (recv-Quiet channel b.recv v.outer).1;
  }

  next_loop-pending :
      (left fuel : ℕ) (rounds : ℕ → List Bool) (wake_count : ℕ) (b : BlockingQueue A Receiver)
      → wake_count + left ≡ 20
      → left < fuel
      → Serving b []
      → (b' : BlockingQueue A Receiver) × (next_loop channel fuel rounds wake_count b
          ≡ done (b', some poke))
        × Serving b' []
        × (b'.recv ≡ receives (suc left) b.recv)
        × (b'.que.recv ≡ receives (suc left) b.que.recv)
  unfolding next_loop
  next_loop-pending left zero rounds w b at lt v = absurd (omega arith)
  next_loop-pending zero (suc fuel) rounds w b at lt v =
      let polled = poll_next-empty channel (rounds w) b.que v.held v.inner in
      (
        received b,
        rw ((recv-Quiet channel b.recv v.outer).0, polled, eq→== w 20 (omega arith), next_loop)
            refl,
        received-Serving b [] v,
        refl,
        refl,
      )
  next_loop-pending (suc left) (suc fuel) rounds w b at lt v =
      let polled = poll_next-empty channel (rounds w) b.que v.held v.inner in
      let (b', looped, v', outer, inner) =
        next_loop-pending left fuel rounds (w + 1) (received b) (omega arith) (omega arith)
          (received-Serving b [] v) in
      (
        b',
        rw ((recv-Quiet channel b.recv v.outer).0, polled, ne→== w 20 (omega arith), next_loop)
            looped,
        v',
        outer,
        inner,
      )

  -- A call of `next` with no message that stops it, and a pop that succeeds, yields the first value that
  -- the queue holds, after one poll, or `Poke` after 21 polls if it holds none, and leaves the others. Each
  -- poll receives once from the channel of the iterator and once from that of the queue inside.
  pub next-Serving :
      (rounds : ℕ → List Bool) (b : BlockingQueue A Receiver) (xs : List A)
      → Succeeds (rounds 0)
      → Serving b xs
      → (b' : BlockingQueue A Receiver) × (next channel rounds b
          ≡ done (b', some (first_or_poke xs)))
        × Serving b' (rest_of xs)
        × (b'.recv ≡ receives (polls xs) b.recv)
        × (b'.que.recv ≡ receives (polls xs) b.que.recv)
  unfolding next next_loop
  next-Serving rounds b [] fair v = next_loop-pending 20 21 rounds 0 b (omega arith) (omega arith) v
  next-Serving rounds b (x ∷ xs) fair v =
      let (q, popped, h', same, kept) = pop-Holds (rounds 0) b.que.que x xs fair v.held in
      let polled = poll_next-yield channel (rounds 0) b.que q x xs v.held popped v.inner in
      (
        record (received b) { que = record { que = q; recv = (try_recv b.que.recv).1 } },
        rw ((recv-Quiet channel b.recv v.outer).0, polled, next_loop) refl,
        record {
          held = h';
          inner = (recv-Quiet channel b.que.recv v.inner).1;
          outer = (recv-Quiet channel b.recv v.outer).1;
        },
        refl,
        refl,
      )
