-- ===== src/CoQueue/Threads/Stored.antt =====
-- src/lockless_queue.rs, `CoQueue::push` and `CoQueue::pop` by many threads: the chunks and slots that
-- a thread knows are there.
use co_queue.Base.{
  ℕ, ◌/◌, ◌%◌, ◌≤◌, ◌≡◌, ◌≢◌, ap, ◌∙◌, true, Option, none, some, List, get_elem?, get_elem?-of_lt,
  update_ne, arith,
}
use co_queue.Base.Outcome.{done, ◌>>=◌}
use co_queue.CoQueue.Chunk.{Ptr, Chunk, Slot}
use co_queue.CoQueue.State.{CoQueue, load, slot_at, set_slot, store}
use co_queue.CoQueue.Push.{Pushing}
use co_queue.CoQueue.Pop.{Popping}
use co_queue.CoQueue.Threads.{PushPc, marking, PopPc, found, Crowd, change_slot}
use co_queue.CoQueue.Threads.Pops.{read_state}
use co_queue.CoQueue.Threads.Run.{Reach}
use co_queue.CoQueue.Threads.Invariant.{stage, chunk_of, spare_of, tail_of}
use co_queue.CoQueue.Threads.Ahead.{pop_stage, head_of, pop_chunk, onto}
use co_queue.CoQueue.Threads.History.{pushed}
use co_queue.CoQueue.Threads.Cells.{HeapFits}
use co_queue.CoQueue.Threads.Kept.{Kept}

module _ {ℓ} {A : Type ℓ} where
  -- The chunk is there, and so is its slot, with the value if WRITE is set.
  pub record Stored (h : Ptr → Option (Chunk A)) (p : Ptr) (o : ℕ) : Type ℓ where
    pub chunk : Chunk A
    pub at : h p ≡ some chunk
    pub slot : Slot A
    pub here : get_elem? chunk.slots o ≡ some slot
    pub full : slot.write ≡ true → slot.value ≢ none

  pub HeapFits-Stored :
      (lap_of : ℕ → ℕ) (vals : List A) (h : Ptr → Option (Chunk A)) (p : Ptr) (o : ℕ)
      → HeapFits lap_of vals h
      → lap_of p ≢ 0
      → o ≤ 30
      → Stored h p o
  HeapFits-Stored lap_of vals h p o fits ne le =
      let (c, at, k) = fits p ne in
      let (t, here) = get_elem?-of_lt c.slots o (omega (arith, k.size)) in
      record {
        chunk = c;
        at = at;
        slot = t;
        here = here;
        full = λ w. ((k.cells o t here).full w).1;
      }

  pub load-there : (q : CoQueue A) (p : Ptr) (c : Chunk A) → q.heap p ≡ some c → load q p ≡ done c
  load-there q p c e = ground (arith, e)

  pub slot_at-there :
      (c : Chunk A) (o : ℕ) (t : Slot A) → get_elem? c.slots o ≡ some t → slot_at c o ≡ done t
  slot_at-there c o t e = ground (arith, e)

  pub change_slot-there :
      (q : CoQueue A) (p : Ptr) (o : ℕ) (f : Slot A → Slot A)
      → (d : Stored q.heap p o)
      → change_slot q p o f ≡ done (d.slot, store q p (set_slot d.chunk o (f d.slot)))
  change_slot-there q p o f d =
      ground (arith, load-there q p d.chunk d.at, slot_at-there d.chunk o d.slot d.here)

  pub read_state-there :
      (q : CoQueue A) (p : Ptr) (o : ℕ)
      → (d : Stored q.heap p o) → read_state q p o ≡ done d.slot.read
  read_state-there q p o d =
      (ap (λ m. m >>= (λ c. slot_at c o >>= (λ t. done t.read))) (load-there q p d.chunk d.at))
      ∙ ap (λ m. m >>= (λ t. done t.read)) (slot_at-there d.chunk o d.slot d.here)

  module _ {s : Crowd A} {r : Reach s} (k : Kept r) (i : ℕ) where
    -- The slot that a thread has claimed is there.
    pub pushed_slot :
        (p : PushPc A)
        → s.pc i ≡ p
        → 3 ≤ stage p
        → Stored s.queue.heap (chunk_of p) (tail_of p / 2 % 32)
    pushed_slot p e late =
        let on : Stored s.queue.heap (chunk_of (s.pc i)) (tail_of (s.pc i) / 2 % 32) =
          let fit = (k.filled.fits i).claims (omega (arith, ap stage e)) in
          HeapFits-Stored k.lap_of (pushed r) s.queue.heap (chunk_of (s.pc i))
            (tail_of (s.pc i) / 2 % 32) k.cells.heap (omega (arith, fit)) (omega (arith, fit)) in
        rw (← e) on

    -- A spare chunk is there, and nobody else has it.
    pub spare_there :
        (p : PushPc A)
        → s.pc i ≡ p
        → (c : Ptr) → spare_of p ≡ some c
        → (s.queue.heap c ≢ none) × (k.lap_of c ≡ 0) × (c ≢ s.queue.fresh)
    spare_there p e c z =
        let own : spare_of (s.pc i) ≡ some c = ap spare_of e ∙ z in
        let fit = (k.filled.fits i).spares c own in
        let at = (k.cells.push i).spare c own in (λ y. cc, fit.0, omega (arith, fit))

    pub popped_slot :
        (p : PopPc A)
        → s.popper i ≡ p
        → 4 ≤ pop_stage p
        → Stored s.queue.heap (pop_chunk p) (head_of p / 2 % 32)
    popped_slot p e late =
        let on : Stored s.queue.heap (pop_chunk (s.popper i)) (head_of (s.popper i) / 2 % 32) =
          let fit = (k.ahead.pops i).claims (omega (arith, ap pop_stage e)) in
          HeapFits-Stored k.lap_of (pushed r) s.queue.heap (pop_chunk (s.popper i))
            (head_of (s.popper i) / 2 % 32) k.cells.heap (omega (arith, fit))
            (omega (arith, fit)) in
        rw (← e) on

    -- The spare chunk is another than the one that the thread writes to.
    pub marked_spare :
        (l : Pushing) (v : Chunk A)
        → s.pc i ≡ marking l
        → (c : Ptr) → l.next_chunk ≡ some c
        → (store s.queue l.chunk v).heap c ≢ none
    marked_spare l v e c z =
        let claimed = (k.filled.fits i).claims (omega (arith, ap stage e)) in
        let lap = ap (λ p. k.lap_of (chunk_of p)) e in
        let own = spare_there (marking l) e c z in
        let ne : l.chunk ≢ c = λ y. omega (arith, claimed, lap, own, ap k.lap_of y) in
        rw (update_ne s.queue.heap l.chunk (some v) c ne) own.0

    pub onto_slot :
        (l : Popping) (n : ℕ) (p : Ptr) → s.popper i ≡ found l n p → Stored s.queue.heap p 0
    onto_slot l n p e =
        let stage = ap pop_stage e in
        let next = (k.ahead.pops i).nexts (omega (arith, stage)) (omega (arith, stage)) in
        let on : k.lap_of p ≢ 0 = λ z. omega (arith, next, ap (λ p. k.lap_of (onto p)) e, z) in
        HeapFits-Stored k.lap_of (pushed r) s.queue.heap p 0 k.cells.heap on (omega arith)
