-- ===== src/CoQueue/Threads/Drain.antt =====
-- src/lockless_queue.rs, `CoQueue::pop` by many threads: every access keeps the memory in order, and
-- reads the value that was pushed.
use native.Mathlib.Decide.{ℕ_discrete}
use co_queue.Base.{
  ℕ, ◌+◌, ◌-◌, ◌*◌, ◌/◌, ◌%◌, ◌<◌, ◌≡◌, ◌≢◌, inr, refl, sym, ap, ◌∙◌, none, some, List, update,
  update_self, update_ne, arith,
}
use co_queue.Base.Outcome.{done}
use co_queue.CoQueue.Chunk.{Ptr, Slot, Heap}
use co_queue.CoQueue.State.{CoQueue}
use co_queue.CoQueue.Threads.{PopPc, Crowd, pop_go, change_slot}
use co_queue.CoQueue.Threads.Invariant.{tail_of, chunk_of, spare_of, Inv}
use co_queue.CoQueue.Threads.Alone.{change_slot-Same}
use co_queue.CoQueue.Threads.Ahead.{pop_stage, head_of, Ahead}
use co_queue.CoQueue.Threads.Cells.{
  rank, CellFits, HeapFits, slot_in, result_of, ruins, PopHolds, Cells,
}
use co_queue.CoQueue.Threads.Memory.{HeapFits-change_slot}
use co_queue.CoQueue.Threads.Values.{
  SameValue, SameValue-refl, SameValue-change_slot, change_slot-away,
}
use co_queue.CoQueue.Threads.Fill.{PushHolds-keeps}

module _ {ℓ} {A : Type ℓ} where
  -- The slots of a chunk that was linked.
  pub HeapFits-cell :
      (lap_of : ℕ → ℕ) (vals : List A) (h : Heap A) (p : Ptr) (o : ℕ) (t : Slot A)
      → HeapFits lap_of vals h
      → lap_of p ≢ 0
      → slot_in (h p) o ≡ some t
      → CellFits vals (rank (32 * (lap_of p - 1) + o)) o t
  HeapFits-cell lap_of vals h p o t fits ne at =
      let (c, here, k) = fits p ne in k.cells o t (rw here at at)

  module _ {lap_of : ℕ → ℕ} {vals : List A} {won : ℕ} {place : ℕ → ℕ} {s : Crowd A} where
    Cells-pop :
        Cells lap_of vals won place s
        → (won' : ℕ) (place' : ℕ → ℕ) (q : CoQueue A) (i : ℕ) (p : PopPc A)
        → q.tail.index ≡ s.queue.tail.index
        → won' ≡ rank (q.head.index / 2)
        → HeapFits lap_of vals q.heap
        → ((k : ℕ) (c : Ptr) → spare_of (s.pc k) ≡ some c → q.heap c ≡ s.queue.heap c)
        → ((c : Ptr) (o : ℕ) → SameValue s.queue.heap q.heap c o)
        → PopHolds lap_of vals (place' i) p
        → ((k : ℕ) → i ≢ k → place' k ≡ place k)
        → Cells lap_of vals won' place' (pop_go s q i p)
    Cells-pop k won' place' q i p tl hd mem boxes same me rest = record {
      pushed = rw tl k.pushed;
      popped = hd;
      heap = mem;
      push = λ j.
          PushHolds-keeps vals vals s.queue.heap q.heap (s.pc j) (λ n v e. e) (boxes j)
            (λ w. same (chunk_of (s.pc j)) (tail_of (s.pc j) / 2 % 32)) (k.push j);
      pop = λ j. elim (ℕ_discrete i j) [
        | yes here ↦ rw (← here, update_self s.popper i p) me
        | no other ↦ rw (update_ne s.popper i p j other, rest j other) (k.pop j)
      ];
    }

    -- The memory stays, and no slot is won.
    pub Cells-pop_calm :
        Cells lap_of vals won place s
        → (q : CoQueue A) (i : ℕ) (p : PopPc A) → q.tail.index ≡ s.queue.tail.index
        → rank (q.head.index / 2) ≡ rank (s.queue.head.index / 2)
        → q.heap ≡ s.queue.heap
        → PopHolds lap_of vals (place i) p
        → Cells lap_of vals won place (pop_go s q i p)
    Cells-pop_calm k q i p tl hd mem me =
        Cells-pop k won place q i p tl (k.popped ∙ sym hd) (rw mem k.heap) (λ j c e. rw mem)
          (λ c o. SameValue-refl s.queue.heap q.heap c o (rw mem)) me (λ j ne. refl)

    -- The thread holds nothing that matters.
    pub Cells-pop_free :
        Cells lap_of vals won place s
        → (i : ℕ) (p : PopPc A) → pop_stage p < 4
        → (result_of p ≡ none) × (ruins p ≡ none)
        → Cells lap_of vals won place (pop_go s s.queue i p)
    Cells-pop_free k i p early free =
        Cells-pop_calm k s.queue i p refl refl refl
          (record { placed = λ x. absurd (omega arith); got = λ x e. cc; site = λ c o e. cc })

    -- The slot that the head stands at is the thread's.
    pub Cells-pop_wins :
        Cells lap_of vals won place s
        → Ahead lap_of s
        → (i : ℕ) (b p : PopPc A) (n : ℕ) → s.popper i ≡ b
        → (n / 2 ≡ s.queue.head.index / 2 + 1) × (s.queue.head.index / 2 % 32 ≢ 31)
        → head_of p ≡ s.queue.head.index
        → (result_of p ≡ none) × (ruins p ≡ none)
        → Cells lap_of vals
            (won + 1)
            (update place i won)
            (pop_go s (record s.queue { head = record s.queue.head { index = n } }) i p)
    Cells-pop_wins k a i b p n at on here free =
        Cells-pop k (won + 1) (update place i won)
          (record s.queue { head = record s.queue.head { index = n } }) i p refl
          (omega (arith, k.popped, on)) k.heap (λ j c e. refl)
          (λ c o. SameValue-refl s.queue.heap s.queue.heap c o refl)
          (record {
            placed = λ x. rw (update_self place i won, here) k.popped;
            got = λ x e. cc;
            site = λ c o e. cc;
          })
          (λ j ne. update_ne place i won j ne)

    -- The thread sets a flag of a slot in a chunk that was linked, READ not in the last one.
    pub Cells-pop_flag :
        Cells lap_of vals won place s
        → Inv lap_of s
        → (c : Ptr) (o : ℕ) (f : Slot A → Slot A) (old : Slot A) (q : CoQueue A) (i : ℕ)
          (p : PopPc A)
        → change_slot s.queue c o f ≡ done (old, q)
        → lap_of c ≢ 0
        → ((f old).value ≡ old.value) × ((f old).write ≡ old.write)
        → (o ≡ 30 → (f old).read ≡ old.read)
        → PopHolds lap_of vals (place i) p
        → Cells lap_of vals won place (pop_go s q i p)
    Cells-pop_flag k inv c o f old q i p e linked same last me =
        let keeps = change_slot-Same s.queue c o f old q e in
        Cells-pop k won place q i p (ap (λ z. z.index) keeps.0) (rw keeps.2 k.popped)
          (HeapFits-change_slot lap_of vals s.queue c o f old q e
            (λ was. record {
              full = λ w. rw same.0 (was.full (sym same.1 ∙ w));
              last = λ z. last z ∙ was.last z;
            })
            k.heap)
          (λ j d z.
            change_slot-away s.queue c o f old q e d
              (λ y. linked (ap lap_of y ∙ ((inv.fits j).spares d z).0)))
          (λ d m. SameValue-change_slot s.queue c o f old q e d m (inr same.0)) me (λ j ne. refl)
