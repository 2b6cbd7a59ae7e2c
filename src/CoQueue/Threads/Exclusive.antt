-- ===== src/CoQueue/Threads/Exclusive.antt =====
-- src/lockless_queue.rs, `CoQueue::push` and `CoQueue::pop` by many threads: each slot has one writer
-- and one reader, and the head never passes the tail.
use native.Mathlib.Decide.{ℕ_discrete}
use co_queue.Base.{
  ℕ, ◌/◌, ◌%◌, ◌≤◌, ◌<◌, ◌≡◌, ◌≢◌, ◌⊎◌, inl, inr, ap, Option, none, some, Option-cases, arith,
}
use co_queue.CoQueue.Chunk.{Ptr, lap}
use co_queue.CoQueue.State.{position, has_next}
use co_queue.CoQueue.Threads.{
  PushPc, set_chunk, set_index, set_link, writing, marking, PopPc, waiting, found, move_chunk,
  move_index, reading, taken, Crowd, offset_of,
}
use co_queue.CoQueue.Threads.Run.{Reach}
use co_queue.CoQueue.Threads.Invariant.{stage, tail_of, chunk_of}
use co_queue.CoQueue.Threads.Ahead.{pop_stage, head_of, pop_chunk}
use co_queue.CoQueue.Threads.Boxes.{Inv-slots}
use co_queue.Base.{sym, ◌∙◌}
use co_queue.CoQueue.Threads.Kept.{Kept, Reach-Kept}

module _ {ℓ} {A : Type ℓ} where
  -- The slot that a pusher has claimed and not filled yet.
  abbrev pub fills : PushPc A → Option (Ptr × ℕ)
  fills (set_chunk x l p) = some (l.chunk, offset_of l)
  fills (set_index x l p) = some (l.chunk, offset_of l)
  fills (set_link x l p) = some (l.chunk, offset_of l)
  fills (writing x l) = some (l.chunk, offset_of l)
  fills (marking l) = some (l.chunk, offset_of l)
  fills _ = none

  -- The slot that a popper has claimed and not marked as read yet.
  abbrev pub drains : PopPc A → Option (Ptr × ℕ)
  drains (waiting l n) = some (l.chunk, position l.head % lap)
  drains (found l n p) = some (l.chunk, position l.head % lap)
  drains (move_chunk l n p) = some (l.chunk, position l.head % lap)
  drains (move_index l n p) = some (l.chunk, position l.head % lap)
  drains (reading l) = some (l.chunk, position l.head % lap)
  drains (taken l x) = some (l.chunk, position l.head % lap)
  drains _ = none

  fills_lem :
      (p : PushPc A) (c : Ptr) (o : ℕ)
      → fills p ≡ some (c, o)
      → (3 ≤ stage p) × (chunk_of p ≡ c) × (tail_of p / 2 % 32 ≡ o)
  fills_lem p c o e = ground arith

  drains_lem :
      (p : PopPc A) (c : Ptr) (o : ℕ)
      → drains p ≡ some (c, o)
      → (4 ≤ pop_stage p) × (pop_chunk p ≡ c) × (head_of p / 2 % 32 ≡ o)
  drains_lem p c o e = ground arith

  one_writer :
      {s : Crowd A} {r : Reach s}
      → Kept r
      → (i j : ℕ) → i ≢ j
      → (c : Ptr) (o : ℕ) → fills (s.pc i) ≡ some (c, o)
      → fills (s.pc j) ≢ some (c, o)
  one_writer {s} k i j ne c o e f =
      let first = fills_lem (s.pc i) c o e in
      let second = fills_lem (s.pc j) c o f in
      Inv-slots k.filled i j ne first.0 second.0 (first.1 ∙ sym second.1, first.2 ∙ sym second.2)

  one_reader :
      {s : Crowd A} {r : Reach s}
      → Kept r
      → (i j : ℕ) → i ≢ j
      → (c : Ptr) (o : ℕ) → drains (s.popper i) ≡ some (c, o)
      → drains (s.popper j) ≢ some (c, o)
  one_reader {s} k i j ne c o e f =
      let first = drains_lem (s.popper i) c o e in
      let second = drains_lem (s.popper j) c o f in
      let a = (k.ahead.pops i).claims first.0 in
      let b = (k.ahead.pops j).claims second.0 in
      k.ahead.apart i j ne first.0 second.0
        (omega (arith, first, second, a, b, ap k.lap_of first.1, ap k.lap_of second.1))

  -- In every state that a run from a new queue reaches, while the tail index is below 2 ^ 64 - 4,
  -- however the accesses of the threads are interleaved and whichever weak exchanges fail: two
  -- pushes that have both won their exchange and have not set WRITE yet fill different slots, and
  -- two pops that have both won theirs and have not set READ (or gone on to destroy the chunk) yet
  -- read different slots. Slots differ in their chunk or in their offset.
  pub slots_exclusive :
      {s : Crowd A}
      → Reach s
      → (i j : ℕ) → i ≢ j
      → (c : Ptr) (o : ℕ)
      → ¬ ((fills (s.pc i) ≡ some (c, o)) × (fills (s.pc j) ≡ some (c, o)))
        × ¬ ((drains (s.popper i) ≡ some (c, o)) × (drains (s.popper j) ≡ some (c, o)))
  slots_exclusive r i j ne c o = (
    λ h. one_writer (Reach-Kept r) i j ne c o h.0 h.1,
    λ h. one_reader (Reach-Kept r) i j ne c o h.0 h.1,
  )

  -- In every state that a run from a new queue reaches, while the tail index is below 2 ^ 64 - 4,
  -- however the accesses are interleaved: the head is not past the tail, although a
  -- pop whose head has HAS_NEXT set does not look at the tail; HAS_NEXT is clear, or the tail is in
  -- a later lap than the head; and a thread has claimed no slot to read, or it has claimed one whose
  -- position is below the tail's.
  pub head_below_tail :
      {s : Crowd A}
      → Reach s
      → (i : ℕ)
      → (position s.queue.head.index ≤ position s.queue.tail.index)
        × ((has_next s.queue.head.index ≡ 0)
            ⊎ (position s.queue.head.index / lap < position s.queue.tail.index / lap))
        × ((drains (s.popper i) ≡ none)
            ⊎ (position (head_of (s.popper i)) < position s.queue.tail.index))
  head_below_tail {s} r i =
      let a = (Reach-Kept r).ahead in
      (
        a.head.below,
        elim (ℕ_discrete (s.queue.head.index % 2) 0) [
          | yes clear ↦ inl clear
          | no set ↦ inr (omega (arith, a.head.flag (omega (arith, set))))
        ],
        elim (Option-cases (drains (s.popper i))) [
          | inl free ↦ inl free
          | inr slot ↦ inr (
              omega (
                arith,
                (a.pops i).claims (drains_lem (s.popper i) slot.0.0 slot.0.1 slot.1).0,
                a.head.below,
              ))
        ],
      )
