-- ===== src/CoQueue/Threads/Goes.antt =====
-- src/lockless_queue.rs, `CoQueue::push` by many threads: a push that has claimed a slot
-- can go on; and what the accesses give where the memory is there.
use co_queue.Base.{
  ℕ, ◌+◌, ◌/◌, ◌%◌, ◌≤◌, ◌==◌, ◌≡◌, ◌≢◌, true, refl, Option, none, some, update, arith,
  if◌then◌else◌,
}
use co_queue.Base.Outcome.{done}
use co_queue.CoQueue.Chunk.{Ptr, Chunk, Slot, null}
use co_queue.CoQueue.State.{word, with_next, without_next, CoQueue, load, drop_box, set_slot, store}
use co_queue.CoQueue.Threads.{
  PushPc, idle, half, looped, heading, set_chunk, set_index, set_link, writing, marking, Crowd,
  offset_of,
}
use co_queue.CoQueue.Threads.Pushes
use co_queue.CoQueue.Threads.Pushes.{PushStep, link_chunk}
use co_queue.CoQueue.Threads.Pops.{read_slot, next_of, next_index}
use co_queue.CoQueue.Threads.Run.{Reach}
use co_queue.CoQueue.Threads.Invariant.{stage, chunk_of, tail_of}
use co_queue.CoQueue.Threads.Exclusive.{fills}
use co_queue.CoQueue.Threads.Stored.{pushed_slot, marked_spare}
use co_queue.CoQueue.Threads.Stored.{Stored, load-there, slot_at-there, change_slot-there}
use co_queue.CoQueue.Threads.Kept.{Kept}

module _ {ℓ} {A : Type ℓ} where
  pub fills_of : (p : PushPc A) → 3 ≤ stage p → fills p ≡ some (chunk_of p, tail_of p / 2 % 32)
  fills_of p late = ground arith

  drop_box-done :
      (q : CoQueue A) (n : Option Ptr)
      → ((c : Ptr) → n ≡ some c → q.heap c ≢ none)
      → (r : CoQueue A) × (drop_box q n ≡ done r)
  drop_box-done q none have = (q, refl)
  drop_box-done q (some p) have = there (q.heap p) refl
    where
      there :
          (c : Option (Chunk A)) → q.heap p ≡ c → (r : CoQueue A) × (drop_box q (some p) ≡ done r)
      there none e = absurd (have p refl e)
      there (some c) e = (record q { heap = update q.heap p none }, ground (arith, e))

  link_chunk-there :
      (q : CoQueue A) (p next : Ptr) (c : Chunk A)
      → load q p ≡ done c
      → link_chunk q p next ≡ done (store q p (record c { next = next }))
  link_chunk-there q p next c e = ground (arith, e)

  pub next_of-there :
      (q : CoQueue A) (p : Ptr) (c : Chunk A)
      → load q p ≡ done c
      → c.next ≢ null
      → next_of q p ≡ done c.next
  next_of-there q p c e ne = ground (arith, e, ne)

  pub next_index-there :
      (q : CoQueue A) (p : Ptr) (n : ℕ) (c : Chunk A)
      → load q p ≡ done c
      → (idx : ℕ) × (next_index q p n ≡ done idx)
  next_index-there q p n c e = (
    (let next_idx = word (without_next n + 2) in
        if c.next == null then next_idx else with_next next_idx),
    ground (arith, e),
  )

  pub read_slot-done :
      (q : CoQueue A) (p : Ptr) (o : ℕ) (d : Stored q.heap p o)
      → d.slot.write ≡ true
      → (x : A) × (read_slot q p o ≡ done x)
  read_slot-done q p o d w = value d.slot.value refl
    where
      value : (v : Option A) → d.slot.value ≡ v → (x : A) × (read_slot q p o ≡ done x)
      value none e = absurd (d.full w e)
      value (some x) e =
          let was = load-there q p d.chunk d.at in
          let at = slot_at-there d.chunk o d.slot d.here in (x, ground (arith, was, at, w, e))

  module _ {s : Crowd A} {r : Reach s} (k : Kept r) (i : ℕ) where
    -- A push that has claimed a slot can make its next access.
    pub push_goes : (p : PushPc A) → s.pc i ≡ p → 3 ≤ stage p → (t : Crowd A) × PushStep s i t
    push_goes (set_chunk x l p) e late = (_, Pushes.sets_chunk x l p e)
    push_goes (set_index x l p) e late = (_, Pushes.sets_index x l p e)
    push_goes (set_link x l p) e late =
        let d = pushed_slot k i (set_link x l p) e late in
        (
          _,
          Pushes.sets_link x l p (store s.queue l.chunk (record d.chunk { next = p })) e (
              link_chunk-there s.queue l.chunk p d.chunk (load-there s.queue l.chunk d.chunk d.at)),
        )
    push_goes (writing x l) e late =
        let f : Slot A → Slot A = λ t. record t { value = some x } in
        let d = pushed_slot k i (writing x l) e late in
        (
          _,
          Pushes.writes x l d.slot
              (store s.queue l.chunk (set_slot d.chunk (offset_of l) (f d.slot))) e
              (change_slot-there s.queue l.chunk (offset_of l) f d),
        )
    push_goes (marking l) e late =
        let f : Slot A → Slot A = λ t. record t { write = true } in
        let d = pushed_slot k i (marking l) e late in
        let c = set_slot d.chunk (offset_of l) (f d.slot) in
        let now = store s.queue l.chunk c in
        let (q, dropped) = drop_box-done now l.next_chunk (marked_spare k i l c e) in
        (
          _,
          Pushes.marks l d.slot now q e (change_slot-there s.queue l.chunk (offset_of l) f d)
              dropped,
        )
    push_goes idle e late = absurd (omega arith)
    push_goes (half x n t) e late = absurd (omega arith)
    push_goes (looped x l) e late = absurd (omega arith)
    push_goes (heading x l) e late = absurd (omega arith)
