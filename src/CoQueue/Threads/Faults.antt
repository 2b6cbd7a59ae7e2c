-- ===== src/CoQueue/Threads/Faults.antt =====
-- src/lockless_queue.rs, `CoQueue::push` and `CoQueue::pop` by many threads: what an access needs
-- to be there is there.
use co_queue.Base.{
  ℕ, ◌+◌, ◌%◌, ◌==◌, ◌≡◌, ◌≢◌, refl, ap, true, Option, none, some, Bool, if◌then◌else◌, arith,
  false,
}
use co_queue.Base.Outcome.{Outcome, done, fault, spinning, ◌>>=◌}
use co_queue.CoQueue.Chunk.{Ptr, Slot, lap, chunk_cap}
use co_queue.CoQueue.State.{CoQueue, position, alloc, free, drop_box, set_slot, store}
use co_queue.CoQueue.Pop.{read_value}
use co_queue.CoQueue.Threads.{
  PushPc, idle, half, heading, set_chunk, set_index, outside, returned, has_head, round, checked,
  move_chunk, move_index, looped, set_link, writing, marking, PopPc, waiting, found, reading, taken,
  destroying, unread, Crowd, offset_of, change_slot,
}
use co_queue.CoQueue.Threads.Pushes.{link_chunk}
use co_queue.CoQueue.Threads.Pops.{read_slot, read_state, next_of, next_index}
use co_queue.CoQueue.Threads.Run.{Reach}
use co_queue.CoQueue.Threads.Boxes.{alloc-heap}
use co_queue.CoQueue.Threads.History.{pushed}
use co_queue.CoQueue.Threads.Cells.{ruins}
use co_queue.CoQueue.Threads.Kept.{Kept, Reach-Kept}
use co_queue.CoQueue.Threads.Stored.{
  Stored, HeapFits-Stored, load-there, slot_at-there, change_slot-there, read_state-there,
  pushed_slot, spare_there, popped_slot, marked_spare, onto_slot,
}

module _ {ℓ} {A : Type ℓ} where
  -- What a thread of `push` does to the memory with its next access. One in the loop may have to
  -- give back its spare chunk.
  abbrev pub push_access : CoQueue A → PushPc A → Outcome (CoQueue A)
  push_access q (looped x l) = drop_box (alloc q) l.next_chunk
  push_access q (set_link x l p) = link_chunk q l.chunk p
  push_access q (writing x l) = do
    r ← change_slot q l.chunk (offset_of l) (λ t. record t { value = some x })
    done r.1
  push_access q (marking l) = do
    r ← change_slot q l.chunk (offset_of l) (λ t. record t { write = true })
    drop_box r.1 l.next_chunk
  push_access q _ = done q

  -- The same for a thread of `pop`; the end of `Chunk::destroy` frees the chunk.
  abbrev pub pop_access : CoQueue A → PopPc A → Outcome (CoQueue A)
  pop_access q (waiting l n) = do _ ← next_of q l.chunk; done q
  pop_access q (found l n p) = do _ ← next_index q p n; done q
  pop_access q (reading l) = do _ ← read_slot q l.chunk (position l.head % lap); done q
  pop_access q (taken l x) = if position l.head % lap + 1 == chunk_cap then done q else (do
    r ← change_slot q l.chunk (position l.head % lap) (λ t. record t { read = true })
    done r.1)
  pop_access q (destroying p o x) =
      if o == chunk_cap then free q p else (do _ ← read_state q p o; done q)
  pop_access q (unread p o x) = do
    r ← change_slot q p o (λ t. record t { destroy = true })
    done r.1
  pop_access q _ = done q

  read_value-there : (t : Slot A) → t.value ≢ none → read_value t ≢ fault
  read_value-there t ne = ground (arith, ne)

  read_slot-there :
      (q : CoQueue A) (p : Ptr) (o : ℕ) → (d : Stored q.heap p o) → read_slot q p o ≢ fault
  read_slot-there q p o d =
      let was = load-there q p d.chunk d.at in
      let at = slot_at-there d.chunk o d.slot d.here in
      let full = d.full in let read = read_value-there d.slot in ground (arith, was, at, full, read)

  looks-there :
      (q : CoQueue A) (b : Bool) (ends : Outcome (CoQueue A)) (m : Outcome Bool) (v : Bool)
      → b ≡ false
      → m ≡ done v
      → (if b then ends else (do _ ← m; done q)) ≢ fault
  looks-there q false ends (done v) w e z = λ y. cc
  looks-there q false ends fault w e z = λ y. cc
  looks-there q false ends spinning w e z = λ y. cc
  looks-there q true ends m w e z = λ y. cc

  drop_box-there :
      (q : CoQueue A) (n : Option Ptr)
      → ((c : Ptr) → n ≡ some c → q.heap c ≢ none)
      → drop_box q n ≢ fault
  drop_box-there q none have = λ e. cc
  drop_box-there q (some p) have = let h = have p refl in ground (arith, h)

  module _ {s : Crowd A} {r : Reach s} (k : Kept r) (i : ℕ) where
    push_access-there : (p : PushPc A) → s.pc i ≡ p → push_access s.queue p ≢ fault
    push_access-there (looped x l) e = drop_box-there (alloc s.queue) l.next_chunk (λ c z.
        let own = spare_there k i (looped x l) e c z in rw (alloc-heap s.queue c own.2) own.0)
    push_access-there (set_link x l p) e =
        let d = pushed_slot k i (set_link x l p) e (omega arith) in
        let here = load-there s.queue l.chunk d.chunk d.at in ground (arith, here)
    push_access-there (writing x l) e =
        let f : Slot A → Slot A = λ t. record t { value = some x } in
        let at =
          change_slot-there s.queue l.chunk (offset_of l) f
            (pushed_slot k i (writing x l) e (omega arith)) in
        ground (arith, at)
    push_access-there (marking l) e =
        let d = pushed_slot k i (marking l) e (omega arith) in
        let f : Slot A → Slot A = λ t. record t { write = true } in
        let now = store s.queue l.chunk (set_slot d.chunk (offset_of l) (f d.slot)) in
        let at = change_slot-there s.queue l.chunk (offset_of l) f d in
        let dropped =
          drop_box-there now l.next_chunk
            (marked_spare k i l (set_slot d.chunk (offset_of l) (f d.slot)) e) in
        ground (arith, at, dropped)
    push_access-there idle e = λ z. cc
    push_access-there (half x n t) e = λ z. cc
    push_access-there (heading x l) e = λ z. cc
    push_access-there (set_chunk x l p) e = λ z. cc
    push_access-there (set_index x l p) e = λ z. cc

    pop_access-there : (p : PopPc A) → s.popper i ≡ p → pop_access s.queue p ≢ fault
    pop_access-there (waiting l n) e =
        let d = popped_slot k i (waiting l n) e (omega arith) in
        let here = load-there s.queue l.chunk d.chunk d.at in ground (arith, here)
    pop_access-there (found l n p) e =
        let d = onto_slot k i l n p e in
        let here = load-there s.queue p d.chunk d.at in ground (arith, here)
    pop_access-there (reading l) e =
        let d = popped_slot k i (reading l) e (omega arith) in
        let here = read_slot-there s.queue l.chunk (position l.head % lap) d in ground (arith, here)
    pop_access-there (taken l x) e =
        let f : Slot A → Slot A = λ t. record t { read = true } in
        let at =
          change_slot-there s.queue l.chunk (position l.head % lap) f
            (popped_slot k i (taken l x) e (omega arith)) in
        ground (arith, at)
    pop_access-there (destroying p o x) e =
        let site = (k.cells.pop i).site p o (ap ruins e) in
        let d = HeapFits-Stored k.lap_of (pushed r) s.queue.heap p o k.cells.heap site.0 site.1 in
        let read = read_state-there s.queue p o d in
        let within : (o == chunk_cap) ≡ false = ground (arith, site) in
        looks-there s.queue (o == chunk_cap) (free s.queue p) (read_state s.queue p o) d.slot.read
          within read
    pop_access-there (unread p o x) e =
        let site = (k.cells.pop i).site p o (ap ruins e) in
        let f : Slot A → Slot A = λ t. record t { destroy = true } in
        let at =
          change_slot-there s.queue p o f
            (HeapFits-Stored k.lap_of (pushed r) s.queue.heap p o k.cells.heap site.0 site.1) in
        ground (arith, at)
    pop_access-there outside e = λ z. cc
    pop_access-there (returned v) e = λ z. cc
    pop_access-there (has_head h) e = λ z. cc
    pop_access-there (round l) e = λ z. cc
    pop_access-there (checked l n) e = λ z. cc
    pop_access-there (move_chunk l n p) e = λ z. cc
    pop_access-there (move_index l n p) e = λ z. cc

  -- In every state that a run from a new queue reaches, while the tail index is below 2 ^ 64 - 4,
  -- however the accesses are interleaved and whichever weak exchanges fail: the next access of a
  -- thread, in `push` or in `pop`, does not fault (the chunk that it is to is there, a value that
  -- it reads was written, and a spare chunk that it gives back was not freed), and no thread comes
  -- to the end of `Chunk::destroy`, where it would free a chunk.
  pub no_fault :
      {s : Crowd A}
      → Reach s
      → (i : ℕ) (p : Ptr) (x : A)
      → (push_access s.queue (s.pc i) ≢ fault)
        × (pop_access s.queue (s.popper i) ≢ fault)
        × (s.popper i ≢ destroying p chunk_cap x)
  no_fault {s} r i p x =
      let k = Reach-Kept r in
      (
        push_access-there k i (s.pc i) refl,
        pop_access-there k i (s.popper i) refl,
        λ e. absurd (omega (arith, (k.cells.pop i).site p chunk_cap (ap ruins e))),
      )
