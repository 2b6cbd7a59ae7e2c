-- ===== src/CoQueue/Threads/Links.antt =====
-- src/lockless_queue.rs, `CoQueue::push` and `CoQueue::pop` by many threads: what the accesses do to
-- the links between the chunks.
use native.Mathlib.Decide.{ℕ_discrete}
use co_queue.Base.{
  ℕ, ◌+◌, ◌/◌, ◌≤◌, ◌≡◌, ◌≢◌, refl, sym, ap, ◌∙◌, Option, none, some, update, update_self,
  update_ne, arith,
}
use co_queue.Base.Outcome.{done}
use co_queue.CoQueue.Chunk.{Ptr, Slot, Chunk, Heap, new_chunk}
use co_queue.CoQueue.State.{CoQueue, free, alloc, drop_box, set_slot}
use co_queue.CoQueue.Threads.{change_slot}
use co_queue.CoQueue.Threads.Pushes.{link_chunk}
use co_queue.CoQueue.Threads.Ahead.{Links}

-- A chunk that has a lap keeps it.
abbrev pub Extends : (ℕ → ℕ) → (ℕ → ℕ) → Type 0
Extends lap_of lap' = (c : Ptr) → lap_of c ≢ 0 → lap' c ≡ lap_of c

module _ {ℓ} {A : Type ℓ} where
  pub Links-Extends :
      (lap_of lap' : ℕ → ℕ) (index index' : ℕ) (h : Heap A)
      → Extends lap_of lap'
      → index ≤ index'
      → Links lap_of index h
      → Links lap' index' h
  Links-Extends lap_of lap' index index' h ext le l = λ p c e ne.
      let r = l p c e ne in
      let here = ext p r.0 in
      let there = ext c.next (λ z. omega (arith, r.1)) in
      (λ z. r.0 (sym here ∙ z), omega (arith, here, there, r.1), omega (arith, there, r.2))

  Links-set :
      (lap_of : ℕ → ℕ) (index : ℕ) (h : Heap A) (p : Ptr) (v : Option (Chunk A))
      → ((c : Chunk A)
          → v ≡ some c
          → c.next ≢ 0
          → (lap_of p ≢ 0) × (lap_of c.next ≡ lap_of p + 1) × (lap_of c.next ≤ index / 64 + 1))
      → Links lap_of index h
      → Links lap_of index (update h p v)
  Links-set lap_of index h p v new old = λ r c e ne. elim (ℕ_discrete p r) [
    | yes same ↦ rw (← same) (new c (sym (update_self h p v) ∙ ap (update h p v) same ∙ e) ne)
    | no other ↦ old r c (sym (update_ne h p v r other) ∙ e) ne
  ]

  pub Links-alloc :
      (lap_of : ℕ → ℕ) (index : ℕ) (q : CoQueue A)
      → Links lap_of index q.heap
      → Links lap_of index (alloc q).heap
  Links-alloc lap_of index q l =
      Links-set lap_of index q.heap q.fresh (some (new_chunk A)) (λ c e ne. ground arith) l

  pub Links-free :
      (lap_of : ℕ → ℕ) (index : ℕ) (q : CoQueue A) (p : Ptr) (r : CoQueue A)
      → free q p ≡ done r
      → Links lap_of index q.heap
      → Links lap_of index r.heap
  Links-free lap_of index q p r e l =
      let kept : r.heap ≡ update q.heap p none = ground arith in
      rw kept (Links-set lap_of index q.heap p none (λ c e' ne. cc) l)

  pub Links-drop_box :
      (lap_of : ℕ → ℕ) (index : ℕ) (q : CoQueue A) (n : Option Ptr) (r : CoQueue A)
      → drop_box q n ≡ done r
      → Links lap_of index q.heap
      → Links lap_of index r.heap
  Links-drop_box lap_of index q none r e l =
      let same : q.heap ≡ r.heap = ground arith in rw (← same) l
  Links-drop_box lap_of index q (some p) r e l = Links-free lap_of index q p r e l

  -- What a result of `change_slot` tells of the heap.
  pub change_slot-heap :
      (q : CoQueue A) (p : Ptr) (o : ℕ) (f : Slot A → Slot A) (old : Slot A) (r : CoQueue A)
      → (c : Option (Chunk A)) → q.heap p ≡ c
      → change_slot q p o f ≡ done (old, r)
      → (was : Chunk A) × (q.heap p ≡ some was)
        × (r.heap ≡ update q.heap p (some (set_slot was o (f old))))
  change_slot-heap q p o f old r none here e = ground arith
  change_slot-heap q p o f old r (some c) here e = (c, here, ground arith)

  pub Links-change_slot :
      (lap_of : ℕ → ℕ) (index : ℕ) (q : CoQueue A) (p : Ptr) (o : ℕ) (f : Slot A → Slot A)
      → (old : Slot A) (r : CoQueue A) → change_slot q p o f ≡ done (old, r)
      → Links lap_of index q.heap
      → Links lap_of index r.heap
  Links-change_slot lap_of index q p o f old r e l =
      let (was, here, kept) = change_slot-heap q p o f old r (q.heap p) refl e in
      rw kept (
        Links-set lap_of index q.heap p (some (set_slot was o (f old)))
          (λ c e' ne. ground (arith, l p was here)) l)

  pub link_chunk-heap :
      (q : CoQueue A) (p next : Ptr) (r : CoQueue A) (c : Option (Chunk A))
      → q.heap p ≡ c
      → link_chunk q p next ≡ done r
      → (was : Chunk A) × (q.heap p ≡ some was)
        × (r.heap ≡ update q.heap p (some (record was { next = next })))
  link_chunk-heap q p next r none here e = ground arith
  link_chunk-heap q p next r (some c) here e = (c, here, ground arith)

  pub Links-link_chunk :
      (lap_of : ℕ → ℕ) (index : ℕ) (q : CoQueue A) (p next : Ptr) (r : CoQueue A)
      → link_chunk q p next ≡ done r
      → (lap_of p ≢ 0) × (lap_of next ≡ lap_of p + 1) × (lap_of next ≤ index / 64 + 1)
      → Links lap_of index q.heap
      → Links lap_of index r.heap
  Links-link_chunk lap_of index q p next r e new l =
      let (was, here, kept) = link_chunk-heap q p next r (q.heap p) refl e in
      rw kept (
        Links-set lap_of index q.heap p (some (record was { next = next }))
          (λ c e' ne. ground (arith, new)) l)
