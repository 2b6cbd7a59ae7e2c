-- ===== src/CoQueue/Threads/FillSteps.antt =====
-- src/lockless_queue.rs, `CoQueue::push` by many threads: every access keeps the memory in order.
use co_queue.Base.{
  ℕ, ◌+◌, ◌-◌, ◌*◌, ◌/◌, ◌%◌, ◌^◌, ◌<◌, ◌≡◌, ◌≢◌, inl, inr, refl, sym, ap, ◌∙◌, true, none, some,
  List, get_elem?, update, update_self, arith,
}
use co_queue.CoQueue.Chunk.{Ptr, Slot, new_chunk}
use co_queue.CoQueue.State.{word, alloc}
use co_queue.CoQueue.Threads.{
  idle, half, looped, heading, set_chunk, set_index, set_link, writing, marking, Crowd, offset_of,
}
use co_queue.CoQueue.Threads.Pushes
use co_queue.CoQueue.Threads.Pushes.{PushStep, put_first}
use co_queue.CoQueue.Threads.Invariant.{tail_of, chunk_of, Fits, Inv}
use co_queue.CoQueue.Threads.Alone.{change_slot-Same, drop_box-Same, link_chunk-Same}
use co_queue.CoQueue.Threads.Reached.{grow}
use co_queue.CoQueue.Threads.Cells.{rank, PushHolds, Cells}
use co_queue.CoQueue.Threads.Memory.{HeapFits-link, HeapFits-change_slot, HeapFits-link_chunk}
use co_queue.CoQueue.Threads.Values.{
  SameValue-refl, SameValue-trans, SameValue-change_slot, SameValue-link_chunk, change_slot-away,
  change_slot-now, change_slot-was, link_chunk-away,
}
use co_queue.CoQueue.Threads.History.{enter}
use co_queue.CoQueue.Threads.Boxes.{
  Inv-slots, written-stage, Inv-linked, drop_box-heap, HeapFits-drop_box, alloc-heap,
  HeapFits-alloc,
}
use co_queue.CoQueue.Threads.Fill.{Cells-push, Cells-push_calm}
use co_queue.CoQueue.Threads.PushAhead.{Extends-update}
use co_queue.CoQueue.Threads.Claims.{
  some_ptr, alloc-new, PushHolds-spare, Cells-early, Cells-wins, Cells-boxes,
}

module _ {ℓ} {A : Type ℓ} where
  pub PushStep-Cells :
      {lap_of : ℕ → ℕ} {vals : List A} {won : ℕ} {place : ℕ → ℕ} {i : ℕ} {s t : Crowd A}
      → (st : PushStep s i t) → s.queue.tail.index + 4 < 2 ^ 64
      → Inv lap_of s
      → Cells lap_of vals won place s
      → Cells (grow lap_of st) (enter vals st) won place t
  PushStep-Cells {i = i} {s = s} (Pushes.calls x at) lt inv k =
      Cells-early k i idle (half x none s.queue.tail.index) at (refl, refl) (λ c e. cc)
  PushStep-Cells {i = i} {s = s} (Pushes.loads x n t at) lt inv k =
      Cells-early k i (half x n t)
        (looped x (record { tail = t; chunk = s.queue.tail.chunk; next_chunk = n })) at (refl, refl)
        (λ c e. e)
  PushStep-Cells {i = i} {s = s} (Pushes.naps x l at o) lt inv k =
      Cells-early k i (looped x l) (half x l.next_chunk s.queue.tail.index) at (refl, refl)
        (λ c e. e)
  PushStep-Cells {i = i} {s = s} (Pushes.fails x l at r n) lt inv k =
      Cells-early k i (looped x l) (half x l.next_chunk s.queue.tail.index) at (refl, refl)
        (λ c e. e)
  PushStep-Cells {i = i} {s = s} (Pushes.wins x l at r n e o) lt inv k =
      Cells-wins k inv i x (looped x l) (writing x l) (word (l.tail + 2)) at (refl, refl)
        (sym e, refl) (rw e r.0) (omega (arith, e))
  PushStep-Cells {i = i} {s = s} (Pushes.wins_last x l p at r n e o b) lt inv k =
      Cells-wins k inv i x (looped x l) (set_chunk x l p) (word (l.tail + 2)) at (refl, refl)
        (sym e, sym b) (rw e r.0) (omega (arith, e))
  PushStep-Cells {lap_of} {vals} {i = i} {s = s} (Pushes.reserves x l at o n) lt inv k =
      Cells-boxes k inv lap_of (alloc s.queue) i
        (looped x (record l { next_chunk = some s.queue.fresh })) (λ c ne. refl) refl refl
        (HeapFits-alloc lap_of vals s.queue (inv.shared.unlinked s.queue.fresh (omega arith))
          k.heap)
        (PushHolds-spare vals (alloc s.queue).heap
          (looped x (record l { next_chunk = some s.queue.fresh })) (refl, refl)
          (λ c e. alloc-new s.queue c e))
        (λ c ne ns. alloc-heap s.queue c ne)
  PushStep-Cells {lap_of} {vals} {i = i} {s = s} (Pushes.installs x l at r n none_yet) lt inv k =
      let me : PushHolds vals s.queue.heap (looped x l) = rw (← at) (k.push i) in
      let fit : Fits lap_of s.queue.tail.index s.queue.tail.chunk s.queue.fresh (looped x l) =
        rw (← at) (inv.fits i) in
      let un = inv.shared.unlinked s.queue.fresh (omega arith) in
      Cells-boxes k inv (update lap_of s.queue.fresh 1) (put_first s.queue) i
        (heading x (record l { chunk = s.queue.fresh })) (Extends-update lap_of s.queue.fresh 1 un)
        refl refl
        (HeapFits-link lap_of vals (alloc s.queue).heap s.queue.fresh 1
          (update_self s.queue.heap s.queue.fresh (some (new_chunk A)))
          (HeapFits-alloc lap_of vals s.queue un k.heap))
        (PushHolds-spare vals (alloc s.queue).heap (heading x (record l { chunk = s.queue.fresh }))
          (refl, refl)
          (λ c e. alloc-heap s.queue c (λ z. omega (arith, fit.spares c e)) ∙ me.spare c e))
        (λ c ne ns. alloc-heap s.queue c ne)
  PushStep-Cells {lap_of} {vals} {i = i} {s = s} (Pushes.install_fails x l q at r n set_yet d) lt
        inv k =
      let fit : Fits lap_of s.queue.tail.index s.queue.tail.chunk s.queue.fresh (looped x l) =
        rw (← at) (inv.fits i) in
      let same = drop_box-Same (alloc s.queue) l.next_chunk q d in
      let un = inv.shared.unlinked s.queue.fresh (omega arith) in
      let old : (c : Ptr) → l.next_chunk ≢ some c → q.heap c ≡ (alloc s.queue).heap c =
        λ c ne. drop_box-heap (alloc s.queue) l.next_chunk q d c ne in
      Cells-boxes k inv lap_of q i (half x (some s.queue.fresh) q.tail.index) (λ c ne. refl)
        (ap (λ z. z.index) same.0) (ap (λ z. z.index) same.2)
        (HeapFits-drop_box lap_of vals (alloc s.queue) l.next_chunk q d (λ c e. (fit.spares c e).0)
          (HeapFits-alloc lap_of vals s.queue un k.heap))
        (PushHolds-spare vals q.heap (half x (some s.queue.fresh) q.tail.index) (refl, refl)
          (λ c e.
            old c (λ z. omega (arith, fit.spares c z, some_ptr s.queue.fresh c e))
            ∙ alloc-new s.queue c e))
        (λ c ne ns. old c (λ z. ns (rw at z)) ∙ alloc-heap s.queue c ne)
  PushStep-Cells {vals = vals} {i = i} {s = s} (Pushes.heads x l at) lt inv k =
      let me : PushHolds vals s.queue.heap (heading x l) = rw (← at) (k.push i) in
      Cells-push_calm k (record s.queue { head = record s.queue.head { chunk = l.chunk } }) i
        (looped x l) refl refl refl
        (PushHolds-spare vals s.queue.heap (looped x l) (refl, refl) me.spare)
  PushStep-Cells {lap_of} {vals} {i = i} {s = s} (Pushes.sets_chunk x l p at) lt inv k =
      let me : PushHolds vals s.queue.heap (set_chunk x l p) = rw (← at) (k.push i) in
      let fit : Fits lap_of s.queue.tail.index s.queue.tail.chunk s.queue.fresh (set_chunk x l p) =
        rw (← at) (inv.fits i) in
      let v = s.queue.tail.index / 64 + 2 in
      Cells-boxes k inv (update lap_of p v)
        (record s.queue { tail = record s.queue.tail { chunk = p } }) i (set_index x l p)
        (Extends-update lap_of p v (fit.spares p refl).0) refl refl
        (HeapFits-link lap_of vals s.queue.heap p v (me.spare p refl) k.heap)
        (record { spare = λ c e. cc; claimed = me.claimed; stored = λ t w. cc }) (λ c ne ns. refl)
  PushStep-Cells {lap_of} {vals} {i = i} {s = s} (Pushes.sets_index x l p at) lt inv k =
      let me : PushHolds vals s.queue.heap (set_index x l p) = rw (← at) (k.push i) in
      let fit : Fits lap_of s.queue.tail.index s.queue.tail.chunk s.queue.fresh (set_index x l p) =
        rw (← at) (inv.fits i) in
      Cells-push_calm k
        (record s.queue { tail = record s.queue.tail { index = word (word (l.tail + 2) + 2) } }) i
        (set_link x l p) (omega (arith, fit.moves refl)) refl refl
        (record { spare = λ c e. cc; claimed = me.claimed; stored = λ t w. cc })
  PushStep-Cells {lap_of} {vals} {i = i} {s = s} (Pushes.sets_link x l p q at e) lt inv k =
      let me : PushHolds vals s.queue.heap (set_link x l p) = rw (← at) (k.push i) in
      let same = link_chunk-Same s.queue l.chunk p q e in
      let fit : Fits lap_of s.queue.tail.index s.queue.tail.chunk s.queue.fresh (set_link x l p) =
        rw (← at) (inv.fits i) in
      let linked = fit.claims (omega arith) in
      Cells-push k lap_of vals q i (writing x (record l { next_chunk = none })) (λ c ne. refl)
        (λ n v z. z) (rw same.0 k.pushed) (ap (λ z. z.index) same.2)
        (HeapFits-link_chunk lap_of vals s.queue l.chunk p q e k.heap)
        (record { spare = λ c z. cc; claimed = me.claimed; stored = λ t w. cc })
        (λ j ne c z.
          link_chunk-away s.queue l.chunk p q e c
            (λ y. omega (arith, (inv.fits j).spares c z, linked, ap lap_of y)))
        (λ j ne w.
          SameValue-link_chunk s.queue l.chunk p q e (chunk_of (s.pc j))
            (tail_of (s.pc j) / 2 % 32))
  PushStep-Cells {lap_of} {vals} {i = i} {s = s} (Pushes.writes x l old q at e) lt inv k =
      let f : Slot A → Slot A = λ t. record t { value = some x } in
      let me : PushHolds vals s.queue.heap (writing x l) = rw (← at) (k.push i) in
      let fit : Fits lap_of s.queue.tail.index s.queue.tail.chunk s.queue.fresh (writing x l) =
        rw (← at) (inv.fits i) in
      let linked = fit.claims (omega arith) in
      let same = change_slot-Same s.queue l.chunk (offset_of l) f old q e in
      let mine : some x ≡ get_elem? vals (rank (l.tail / 2)) = sym (me.claimed x refl) in
      let spot : 32 * (lap_of l.chunk - 1) + offset_of l ≡ l.tail / 2 = omega (arith, linked) in
      let away : (c : Ptr) → lap_of c ≡ 0 → q.heap c ≡ s.queue.heap c = λ c un.
        change_slot-away s.queue l.chunk (offset_of l) f old q e c
          (λ y. omega (arith, un, linked, ap lap_of y)) in
      Cells-push k lap_of vals q i (marking l) (λ c ne. refl) (λ n v z. z) (rw same.0 k.pushed)
        (ap (λ z. z.index) same.2)
        (HeapFits-change_slot lap_of vals s.queue l.chunk (offset_of l) f old q e
          (λ was. record { full = λ w. (rw spot mine, λ z. cc); last = was.last }) k.heap)
        (record {
          spare = λ c z. away c (fit.spares c z).0 ∙ me.spare c z;
          claimed = λ y z. cc;
          stored = λ t w z.
              rw (← change_slot-now s.queue l.chunk (offset_of l) f old q e t z) (mine, λ y. cc);
        })
        (λ j ne c z. away c ((inv.fits j).spares c z).0)
        (λ j ne w.
          SameValue-change_slot s.queue l.chunk (offset_of l) f old q e (chunk_of (s.pc j))
            (tail_of (s.pc j) / 2 % 32)
            (inl (λ z.
              Inv-slots inv i j ne (rw at (omega arith)) (written-stage (s.pc j) w) (rw at z))))
  PushStep-Cells {lap_of} {vals} {i = i} {s = s} (Pushes.marks l old q r at e d) lt inv k =
      let f : Slot A → Slot A = λ t. record t { write = true } in
      let me : PushHolds vals s.queue.heap (marking l) = rw (← at) (k.push i) in
      let fit : Fits {A = A} lap_of s.queue.tail.index s.queue.tail.chunk s.queue.fresh
          (marking l) =
        rw (← at) (inv.fits i) in
      let linked = fit.claims (omega arith) in
      let first = change_slot-Same s.queue l.chunk (offset_of l) f old q e in
      let same = drop_box-Same q l.next_chunk r d in
      let mine = me.stored old refl (change_slot-was s.queue l.chunk (offset_of l) f old q e) in
      let spot : 32 * (lap_of l.chunk - 1) + offset_of l ≡ l.tail / 2 = omega (arith, linked) in
      let away : (c : Ptr) → l.next_chunk ≢ some c → r.heap c ≡ q.heap c =
        λ c ne. drop_box-heap q l.next_chunk r d c ne in
      Cells-push k lap_of vals r i idle (λ c ne. refl) (λ n v z. z) (rw (same.0, first.0) k.pushed)
        (ap (λ z. z.index) (same.2 ∙ first.2))
        (HeapFits-drop_box lap_of vals q l.next_chunk r d (λ c z. (fit.spares c z).0)
          (HeapFits-change_slot lap_of vals s.queue l.chunk (offset_of l) f old q e
            (λ was. record { full = λ w. rw spot mine; last = was.last }) k.heap))
        (PushHolds-spare vals r.heap idle (refl, refl) (λ c z. cc))
        (λ j ne c z.
          away c (λ y. (inv.apart i j ne).boxes c c (rw at y) z refl)
          ∙ change_slot-away s.queue l.chunk (offset_of l) f old q e c
              (λ y. omega (arith, (inv.fits j).spares c z, linked, ap lap_of y)))
        (λ j ne w.
          SameValue-trans s.queue.heap q.heap r.heap (chunk_of (s.pc j)) (tail_of (s.pc j) / 2 % 32)
            (SameValue-change_slot s.queue l.chunk (offset_of l) f old q e (chunk_of (s.pc j))
              (tail_of (s.pc j) / 2 % 32) (inr refl))
            (SameValue-refl q.heap r.heap (chunk_of (s.pc j)) (tail_of (s.pc j) / 2 % 32) (
              away (chunk_of (s.pc j)) (λ y.
                Inv-linked inv j (written-stage (s.pc j) w) (chunk_of (s.pc j))
                  (fit.spares (chunk_of (s.pc j)) y).0 refl))))
