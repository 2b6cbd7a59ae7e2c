-- ===== src/CoQueue/Threads.antt =====
-- src/lockless_queue.rs, `CoQueue::push` and `CoQueue::pop` by any number of threads at once, an
-- atomic access at a time. `Pushes` has the accesses of `push`, `Pops` those of `pop`, and `Run`
-- interleaves them; `History` tells a run by the values that have entered and the pops that have won.
-- A thread that does both stands in both lists of threads.
pub mod Pushes
pub mod Pops
pub mod Run
pub mod History
mod Invariant
mod Moves
mod Closing
mod Alone
mod Crossing
mod Looks
mod Reached
mod Ahead
mod Links
mod Shifts
mod PushAhead
mod Pulls
mod PopAhead
mod Cells
mod Values
mod Memory
mod Fill
mod Boxes
mod Claims
mod FillSteps
mod Drain
mod DrainSteps
mod Newest
mod Ends
mod PopEnds
mod Ages
mod Served
mod ServedSteps
mod Kept
mod Exclusive
mod Places
mod Order
mod Stored
mod Faults
mod Goes
mod Progress
mod Examples
use co_queue.Base.{ℕ, ◌+◌, ◌%◌, ◌≡◌, ◌≢◌, Option, none, some, ◌∷◌, update}
use co_queue.Base.Outcome.{Outcome, done, fault, ◌>>=◌}
use co_queue.CoQueue.Chunk.{lap, chunk_cap, Ptr, Slot}
use co_queue.CoQueue.State.{position, CoQueue, load, store, slot_at, set_slot}
use co_queue.CoQueue.Push.{Pushing}
use co_queue.CoQueue.Pop.{Popping}

-- Where a thread stands in `push x`, with the locals of the loop.
pub data PushPc {ℓ} (A : Type ℓ) : Type ℓ where
  idle : PushPc A  -- outside `push`
  half : A → Option Ptr → ℕ → PushPc A  -- has loaded the index of the tail, not its chunk
  looped : A → Pushing → PushPc A  -- in the round of the loop, before its next access
  heading : A → Pushing → PushPc A  -- has installed the first chunk in the tail, not in the head
  -- `next_chunk` has been unwrapped to the pointer.
  set_chunk : A → Pushing → Ptr → PushPc A  -- before `self.tail.chunk.store(..)`
  set_index : A → Pushing → Ptr → PushPc A  -- before `self.tail.index.store(..)`
  set_link : A → Pushing → Ptr → PushPc A  -- before `(*chunk).next.store(..)`
  writing : A → Pushing → PushPc A  -- before `slot.value.get().write(..)`
  marking : Pushing → PushPc A  -- before `slot.state.fetch_or(WRITE, ..)`

-- Where a thread stands in `pop`, with the locals of the loop.
pub data PopPc {ℓ} (A : Type ℓ) : Type ℓ where
  outside : PopPc A  -- not in `pop`
  returned : Option A → PopPc A  -- about to return
  has_head : ℕ → PopPc A  -- has loaded the index of the head, not its chunk
  round : Popping → PopPc A  -- in the round of the loop, before the test for an empty queue
  checked : Popping → ℕ → PopPc A  -- knows `new_head`
  waiting : Popping → ℕ → PopPc A  -- in `wait_next`
  found : Popping → ℕ → Ptr → PopPc A  -- before the load of the next chunk's link
  move_chunk : Popping → ℕ → Ptr → PopPc A  -- before `self.head.chunk.store(..)`
  move_index : Popping → ℕ → Ptr → PopPc A  -- before `self.head.index.store(..)`
  reading : Popping → PopPc A  -- in `wait_write`
  taken : Popping → A → PopPc A  -- has read the value
  destroying : Ptr → ℕ → A → PopPc A  -- in `Chunk::destroy`, before the load of this slot's state
  unread : Ptr → ℕ → A → PopPc A  -- in `Chunk::destroy`, before the `fetch_or` on this slot

pub record Crowd {ℓ} (A : Type ℓ) : Type ℓ where
  pub queue : CoQueue A
  pub pc : ℕ → PushPc A
  pub popper : ℕ → PopPc A

abbrev pub offset_of : Pushing → ℕ
offset_of l = position l.tail % lap

-- A round that does not wait for the next chunk, and has its spare one if it fills the last slot.
abbrev pub Ready : Pushing → Type 0
Ready l = (offset_of l ≢ chunk_cap) × (offset_of l + 1 ≡ chunk_cap → l.next_chunk ≢ none)

module _ {ℓ} {A : Type ℓ} where
  -- Thread `i` leaves `q` and goes to `p`.
  abbrev pub go : Crowd A → CoQueue A → ℕ → PushPc A → Crowd A
  go s q i p = record s { queue = q; pc = update s.pc i p }

  abbrev pub pop_go : Crowd A → CoQueue A → ℕ → PopPc A → Crowd A
  pop_go s q i p = record s { queue = q; popper = update s.popper i p }

  -- A write to a slot, or a `fetch_or` on its state, with the slot as it was.
  abbrev pub change_slot : CoQueue A → Ptr → ℕ → (Slot A → Slot A) → Outcome (Slot A × CoQueue A)
  change_slot q p offset f = do
    c ← load q p
    s ← slot_at c offset
    done (s, store q p (set_slot c offset (f s)))
