-- ===== src/CoQueue/Threads/Boxes.antt =====
-- src/lockless_queue.rs, `CoQueue::push` by many threads: whose chunks and slots are whose.
use co_queue.Base.{
  ℕ, ◌/◌, ◌%◌, ◌≤◌, ◌≡◌, ◌≢◌, refl, sym, ap, true, Option, none, some, List, update, update_ne,
  arith,
}
use co_queue.Base.Outcome.{done}
use co_queue.CoQueue.Chunk.{Ptr, new_chunk}
use co_queue.CoQueue.State.{CoQueue, drop_box, alloc}
use co_queue.CoQueue.Threads.{PushPc, Crowd}
use co_queue.CoQueue.Threads.Invariant.{stage, tail_of, chunk_of, Inv}
use co_queue.CoQueue.Threads.Cells.{HeapFits, written}
use co_queue.CoQueue.Threads.Memory.{HeapFits-set}

module _ {ℓ} {A : Type ℓ} where
  -- Two threads that have claimed slots have claimed different ones.
  pub Inv-slots :
      {lap_of : ℕ → ℕ} {s : Crowd A}
      → Inv lap_of s
      → (i j : ℕ) → i ≢ j
      → 3 ≤ stage (s.pc i)
      → 3 ≤ stage (s.pc j)
      → ¬ (
          (chunk_of (s.pc i) ≡ chunk_of (s.pc j))
          × (tail_of (s.pc i) / 2 % 32 ≡ tail_of (s.pc j) / 2 % 32))
  Inv-slots {lap_of} {s} inv i j ne a b h =
      let f = (inv.fits i).claims a in
      let g = (inv.fits j).claims b in
      (inv.apart i j ne).slots a b (
        omega (
          arith,
          f,
          g,
          h,
          ap lap_of h.0,
          (inv.fits i).even (omega arith),
          (inv.fits j).even (omega arith),
        ))

  pub written-stage : (p : PushPc A) → written p ≡ true → 3 ≤ stage p
  written-stage p e = ground arith

  -- A chunk that is not linked, or not there, is not the one that a thread writes to.
  pub Inv-linked :
      {lap_of : ℕ → ℕ} {s : Crowd A}
      → Inv lap_of s
      → (k : ℕ) → 3 ≤ stage (s.pc k)
      → (c : Ptr) → lap_of c ≡ 0
      → c ≢ chunk_of (s.pc k)
  Inv-linked {lap_of} inv k late c e z = omega (arith, (inv.fits k).claims late, e, ap lap_of z)

  pub drop_box-heap :
      (q : CoQueue A) (n : Option Ptr) (r : CoQueue A)
      → drop_box q n ≡ done r
      → (c : Ptr) → n ≢ some c
      → r.heap c ≡ q.heap c
  drop_box-heap q none r e c ne = ground arith
  drop_box-heap q (some p) r e c ne = ground arith

  pub HeapFits-drop_box :
      (lap_of : ℕ → ℕ) (vals : List A) (q : CoQueue A) (n : Option Ptr) (r : CoQueue A)
      → drop_box q n ≡ done r
      → ((c : Ptr) → n ≡ some c → lap_of c ≡ 0)
      → HeapFits lap_of vals q.heap
      → HeapFits lap_of vals r.heap
  HeapFits-drop_box lap_of vals q none r e un fits =
      let same : q.heap ≡ r.heap = ground arith in rw (← same) fits
  HeapFits-drop_box lap_of vals q (some p) r e un fits =
      let kept : r.heap ≡ update q.heap p none = ground arith in
      rw kept (HeapFits-set lap_of vals q.heap p none (λ ne. absurd (ne (un p refl))) fits)

  pub alloc-heap : (q : CoQueue A) (c : Ptr) → c ≢ q.fresh → (alloc q).heap c ≡ q.heap c
  alloc-heap q c ne = update_ne q.heap q.fresh (some (new_chunk A)) c (λ z. ne (sym z))

  pub HeapFits-alloc :
      (lap_of : ℕ → ℕ) (vals : List A) (q : CoQueue A)
      → lap_of q.fresh ≡ 0
      → HeapFits lap_of vals q.heap
      → HeapFits lap_of vals (alloc q).heap
  HeapFits-alloc lap_of vals q un fits =
      HeapFits-set lap_of vals q.heap q.fresh (some (new_chunk A)) (λ ne. absurd (ne un)) fits
