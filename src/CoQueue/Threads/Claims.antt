-- ===== src/CoQueue/Threads/Claims.antt =====
-- src/lockless_queue.rs, `CoQueue::push` by many threads: claiming a slot, and changing
-- chunks that others do not know, keep what the chunks hold.
use co_queue.Base.{
  ℕ, ◌+◌, ◌/◌, ◌%◌, ◌≡◌, ◌≢◌, refl, sym, ◌∙◌, false, none, some, List, [], ◌∷◌, ◌++◌, length,
  length-append, get_elem?-append, get_elem?-append_left, update_self, arith,
}
use co_queue.CoQueue.Chunk.{Ptr, Heap, new_chunk}
use co_queue.CoQueue.State.{CoQueue, alloc}
use co_queue.CoQueue.Threads.{PushPc, Crowd, go}
use co_queue.CoQueue.Threads.Invariant.{tail_of, chunk_of, spare_of, Inv}
use co_queue.CoQueue.Threads.Links.{Extends}
use co_queue.CoQueue.Threads.Cells.{rank, HeapFits, holds, written, PushHolds, Cells}
use co_queue.CoQueue.Threads.Memory.{Grows, HeapFits-Grows}
use co_queue.CoQueue.Threads.Values.{SameValue-refl}
use co_queue.CoQueue.Threads.Boxes.{written-stage, Inv-linked}
use co_queue.CoQueue.Threads.Fill.{Cells-push, Cells-push_calm}

pub some_ptr : (c d : Ptr) → some c ≡ some d → c ≡ d
some_ptr c d e = cc

module _ {ℓ} {A : Type ℓ} where
  pub alloc-new :
      (q : CoQueue A) (c : Ptr) → some q.fresh ≡ some c → (alloc q).heap c ≡ some (new_chunk A)
  alloc-new q c e = rw (← some_ptr q.fresh c e) (update_self q.heap q.fresh (some (new_chunk A)))

  -- A thread that has claimed no slot knows its spare chunk only.
  pub PushHolds-spare :
      (vals : List A) (h : Heap A) (p : PushPc A)
      → (holds p ≡ none) × (written p ≡ false)
      → ((c : Ptr) → spare_of p ≡ some c → h c ≡ some (new_chunk A))
      → PushHolds vals h p
  PushHolds-spare vals h p free sp = record { spare = sp; claimed = λ x e. cc; stored = λ t w. cc }

  module _ {lap_of : ℕ → ℕ} {vals : List A} {won : ℕ} {place : ℕ → ℕ} {s : Crowd A} where
    -- The thread goes back to load the tail, or starts to.
    pub Cells-early :
        Cells lap_of vals won place s
        → (i : ℕ) (b p : PushPc A) → s.pc i ≡ b
        → (holds p ≡ none) × (written p ≡ false)
        → ((c : Ptr) → spare_of p ≡ some c → spare_of b ≡ some c)
        → Cells lap_of vals won place (go s s.queue i p)
    Cells-early k i b p at free sp =
        let me : PushHolds vals s.queue.heap b = rw (← at) (k.push i) in
        Cells-push_calm k s.queue i p refl refl refl
          (PushHolds-spare vals s.queue.heap p free (λ c e. me.spare c (sp c e)))

    -- The slot that the tail stands at is the thread's.
    pub Cells-wins :
        Cells lap_of vals won place s
        → Inv lap_of s
        → (i : ℕ) (x : A) (b p : PushPc A) (t : ℕ) → s.pc i ≡ b
        → (holds p ≡ some x) × (written p ≡ false)
        → (tail_of p ≡ s.queue.tail.index) × (spare_of p ≡ spare_of b)
        → s.queue.tail.index / 2 % 32 ≢ 31
        → t ≡ s.queue.tail.index + 2
        → Cells lap_of
            (vals ++ (x ∷ []))
            won
            place
            (go s (record s.queue { tail = record s.queue.tail { index = t } }) i p)
    Cells-wins k inv i x b p t at new same o e =
        let me : PushHolds vals s.queue.heap b = rw (← at) (k.push i) in
        let g : Grows vals (vals ++ (x ∷ [])) =
          λ n v e'. get_elem?-append_left vals (x ∷ []) n v e' in
        let here : rank (tail_of p / 2) ≡ length vals = rw same.0 (sym k.pushed) in
        Cells-push k lap_of (vals ++ (x ∷ []))
          (record s.queue { tail = record s.queue.tail { index = t } }) i p (λ c ne. refl) g
          (omega (arith, length-append vals (x ∷ []), k.pushed, e)) refl
          (HeapFits-Grows lap_of vals (vals ++ (x ∷ [])) s.queue.heap g k.heap)
          (record {
            spare = λ c e'. me.spare c (sym same.1 ∙ e');
            claimed = λ y e'. rw (here, some_of x y (sym new.0 ∙ e')) (get_elem?-append vals [] y);
            stored = λ u w. cc;
          })
          (λ j ne c e'. refl)
          (λ j ne w.
            SameValue-refl s.queue.heap s.queue.heap (chunk_of (s.pc j)) (tail_of (s.pc j) / 2 % 32)
              refl)
      where
        some_of : (c d : A) → some c ≡ some d → c ≡ d
        some_of c d z = cc

    -- The thread changes no chunk but a new one and its spare one.
    pub Cells-boxes :
        Cells lap_of vals won place s
        → Inv lap_of s
        → (lap' : ℕ → ℕ) (q : CoQueue A) (i : ℕ) (p : PushPc A) → Extends lap_of lap'
        → q.tail.index ≡ s.queue.tail.index
        → q.head.index ≡ s.queue.head.index
        → HeapFits lap' vals q.heap
        → PushHolds vals q.heap p
        → ((c : Ptr) → c ≢ s.queue.fresh → spare_of (s.pc i) ≢ some c → q.heap c ≡ s.queue.heap c)
        → Cells lap' vals won place (go s q i p)
    Cells-boxes k inv lap' q i p ext tl hd mem me rest =
        Cells-push k lap' vals q i p ext (λ n v e. e) (rw tl k.pushed) hd mem me
          (λ j ne c e.
            rest c (λ z. omega (arith, (inv.fits j).spares c e))
              (λ z. (inv.apart i j ne).boxes c c z e refl))
          (λ j ne w.
            let late = written-stage (s.pc j) w in
            SameValue-refl s.queue.heap q.heap (chunk_of (s.pc j)) (tail_of (s.pc j) / 2 % 32) (
              rest (chunk_of (s.pc j))
                (λ z.
                  Inv-linked inv j late s.queue.fresh
                    (inv.shared.unlinked s.queue.fresh (omega arith)) (sym z))
                (λ z.
                  Inv-linked inv j late (chunk_of (s.pc j))
                    ((inv.fits i).spares (chunk_of (s.pc j)) z).0 refl)))
