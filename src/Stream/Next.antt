-- ===== src/Stream/Next.antt =====
-- `CoQueIntoIter::next` of src/stream.rs.
use co_queue.Base.{
  ℕ, zero, suc, ◌+◌, ◌≤◌, ◌<◌, ◌≡◌, refl, ap, ◌∙◌, Bool, none, some, List, [], ◌∷◌, ◌++◌, length,
  eq→==, ne→==, arith, All,
}
use co_queue.Base.Outcome.{Outcome, done, ◌>>=◌}
use co_queue.CoQueue.State.{Succeeds}
use co_queue.CoQueue.Pop.Rounds.{pop-Holds}
use co_queue.CoQueue.Holds.{Holds}
use co_queue.Stream.{
  QueueState, terminate, IterWaker, item, poke, Channel, Streamed, verdict, poll_next, next_loop,
  next,
}
use co_queue.Stream.Recv.{Harmless, Quiet, recv-Quiet, poll_next-empty, poll_next-yield}

module _ {ℓ} {A : Type ℓ} {Receiver : Type 0} (channel : Channel A Receiver) where
  open channel use {try_recv, sent, recv-none, recv-some}

  -- After both receives of one round.
  abbrev twice : Receiver → Receiver
  twice c = (try_recv (try_recv c).1).1

  twice-Quiet : (c : Receiver) → Quiet channel c → Quiet channel (twice c)
  twice-Quiet c quiet = (recv-Quiet channel (try_recv c).1 (recv-Quiet channel c quiet).1).1

  -- With no message that stops it and a pop that succeeds, `next` takes the first value in its first
  -- round; only harmless messages are left.
  pub next-item :
      (rounds : ℕ → List Bool) (s : Streamed A Receiver) (x : A) (xs : List A)
      → Succeeds (rounds 0)
      → Holds s.que (x ∷ xs)
      → Quiet channel s.recv
      → (s' : Streamed A Receiver) × (next channel rounds s ≡ done (s', some (item x)))
        × Holds s'.que xs
        × Quiet channel s'.recv
  unfolding next next_loop
  next-item rounds s x xs fair h quiet =
      let (q, popped, h', same, kept) = pop-Holds (rounds 0) s.que x xs fair h in
      let first = recv-Quiet channel s.recv quiet in
      let polled =
        poll_next-yield channel (rounds 0) (record s { recv = (try_recv s.recv).1 }) q x xs h popped
          first.1 in
      (
        record { que = q; recv = twice s.recv },
        rw (first.0, polled, next_loop) refl,
        h',
        twice-Quiet s.recv quiet,
      )

  next_loop-pending :
      (left fuel : ℕ) (rounds : ℕ → List Bool) (wake_count : ℕ) (s : Streamed A Receiver)
      → wake_count + left ≡ 20
      → left < fuel
      → Holds s.que []
      → Quiet channel s.recv
      → (s' : Streamed A Receiver) × (next_loop channel fuel rounds wake_count s
          ≡ done (s', some poke))
        × (s'.que ≡ s.que)
        × Quiet channel s'.recv
  unfolding next_loop
  next_loop-pending left zero rounds w s at lt h quiet = absurd (omega arith)
  next_loop-pending zero (suc fuel) rounds w s at lt h quiet =
      let first = recv-Quiet channel s.recv quiet in
      let polled =
        poll_next-empty channel (rounds w) (record s { recv = (try_recv s.recv).1 }) h first.1 in
      (
        record s { recv = twice s.recv },
        rw (first.0, polled, next_loop) (rw (eq→== w 20 (omega arith)) refl),
        refl,
        twice-Quiet s.recv quiet,
      )
  next_loop-pending (suc left) (suc fuel) rounds w s at lt h quiet =
      let first = recv-Quiet channel s.recv quiet in
      let polled =
        poll_next-empty channel (rounds w) (record s { recv = (try_recv s.recv).1 }) h first.1 in
      let (s', looped, same, quiet') =
        next_loop-pending left fuel rounds (w + 1) (record s { recv = twice s.recv }) (omega arith)
          (omega arith) h (twice-Quiet s.recv quiet) in
      (s', rw (first.0, polled, next_loop) (rw (ne→== w 20 (omega arith)) looped), same, quiet')

  -- On an empty queue, with no message that stops it, `next` polls 21 times and then returns `Poke`; the
  -- queue is as it was.
  pub next-poke :
      (rounds : ℕ → List Bool) (s : Streamed A Receiver)
      → Holds s.que []
      → Quiet channel s.recv
      → (s' : Streamed A Receiver) × (next channel rounds s ≡ done (s', some poke))
        × (s'.que ≡ s.que)
        × Quiet channel s'.recv
  unfolding next
  next-poke rounds s h quiet =
      next_loop-pending 20 21 rounds 0 s (omega arith) (omega arith) h quiet

  -- A `Terminate` that is the first message on its way, or the second behind one that does not stop the
  -- iterator, ends the iteration, whatever the queue holds: it is left as it was. The messages behind the
  -- `Terminate` are the ones that are left.
  pub next-terminate :
      (rounds : ℕ → List Bool) (s : Streamed A Receiver) (before ms : List (QueueState A))
      → length before ≤ 1
      → All Harmless before
      → sent s.recv ≡ before ++ (terminate ∷ ms)
      → (s' : Streamed A Receiver) × (next channel rounds s ≡ done (s', none))
        × (s'.que ≡ s.que)
        × (sent s'.recv ≡ ms)
  unfolding next next_loop poll_next verdict
  next-terminate rounds s [] ms few quiet e =
      let (got, left) = recv-some s.recv terminate ms e in
      (record s { recv = (try_recv s.recv).1 }, rw (ap verdict got, next_loop) refl, refl, left)
  next-terminate rounds s (m ∷ []) ms few quiet e =
      let (got, left) = recv-some s.recv m (terminate ∷ ms) e in
      let (got', left') = recv-some (try_recv s.recv).1 terminate ms left in
      (
        record s { recv = twice s.recv },
        rw (ap verdict got ∙ quiet.0, ap verdict got', next_loop, poll_next) refl,
        refl,
        left',
      )
  next-terminate rounds s (m ∷ m' ∷ before) ms few quiet e = absurd (omega arith)

  -- A client that calls `next` up to `n` times, and stops at `None`.
  unfoldable pub collect :
      ℕ → (ℕ → List Bool) → Streamed A Receiver → Outcome (Streamed A Receiver × List (IterWaker A))
  collect zero rounds s = done (s, [])
  collect (suc n) rounds s = do
    (s₁, o) ← next channel rounds s
    elim o [ none ↦ done (s₁, []) | some i ↦ do (s₂, is) ← collect n rounds s₁; done (s₂, i ∷ is) ]

  -- The values, and then one `Poke`.
  abbrev pub items_then_poke : List A → List (IterWaker A)
  items_then_poke [] = poke ∷ []
  items_then_poke (x ∷ xs) = item x ∷ items_then_poke xs

  -- The iterator yields all values that the queue holds, in order, and then `Poke`, if no message stops
  -- it and each pop is given an exchange that succeeds.
  pub collect-Holds :
      (xs : List A) (rounds : ℕ → List Bool) (s : Streamed A Receiver)
      → Succeeds (rounds 0)
      → Holds s.que xs
      → Quiet channel s.recv
      → (s' : Streamed A Receiver) × (collect (suc (length xs)) rounds s
          ≡ done (s', items_then_poke xs))
        × Holds s'.que []
  unfolding collect
  collect-Holds [] rounds s fair h quiet =
      let (s', poked, same, quiet') = next-poke rounds s h quiet in
      (s', rw (poked, collect) refl, rw same h)
  collect-Holds (x ∷ xs) rounds s fair h quiet =
      let (s₁, took, h₁, quiet₁) = next-item rounds s x xs fair h quiet in
      let (s₂, rest, h₂) = collect-Holds xs rounds s₁ fair h₁ quiet₁ in
      (s₂, rw (took, rest, collect) refl, h₂)
