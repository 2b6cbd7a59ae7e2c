-- ===== src/CoQueue/Threads/Ages.antt =====
-- src/lockless_queue.rs, `CoQueue::push` and `CoQueue::pop` by many threads: a link that was set and
-- a WRITE that was set stay so.
use native.Mathlib.Decide.{ℕ_discrete}
use co_queue.Base.{
  ℕ, ◌%◌, ◌≡◌, ◌≢◌, true, false, refl, sym, ap, ◌∙◌, Option, none, some, update, update_self,
  update_ne, arith, get_elem?-set-some, get_elem?-set_ne,
}
use co_queue.Base.Outcome.{done}
use co_queue.CoQueue.Chunk.{Ptr, lap, Slot, Chunk, Heap}
use co_queue.CoQueue.State.{CoQueue, position, set_slot, free}
use co_queue.CoQueue.Threads.{Crowd, change_slot}
use co_queue.CoQueue.Threads.Pushes.{link_chunk}
use co_queue.CoQueue.Threads.Pops
use co_queue.CoQueue.Threads.Pops.{PopStep}
use co_queue.CoQueue.Threads.Cells.{slot_in}
use co_queue.CoQueue.Threads.Links.{change_slot-heap, link_chunk-heap}
use co_queue.CoQueue.Threads.Values.{change_slot-was}

module _ {ℓ} {A : Type ℓ} where
  abbrev pub next_in : Option (Chunk A) → Option Ptr
  next_in none = none
  next_in (some c) = some c.next

  -- What is not there in the heap `h'` yet, was not in `h`.
  pub record Ages (h h' : Heap A) (c : Ptr) : Type ℓ where
    pub next : next_in (h' c) ≡ some 0 → next_in (h c) ≡ some 0
    pub slot :
        (o : ℕ) (t' : Slot A)
        → slot_in (h' c) o ≡ some t'
        → t'.write ≡ false
        → (t : Slot A) × (slot_in (h c) o ≡ some t) × (t.write ≡ false)

  pub Ages-eq : (h h' : Heap A) (c : Ptr) → h' c ≡ h c → Ages h h' c
  Ages-eq h h' c e = record { next = λ z. rw (← e) z; slot = λ o t' at w. (t', rw (← e) at, w) }

  pub Ages-trans : (h h₁ h₂ : Heap A) (c : Ptr) → Ages h h₁ c → Ages h₁ h₂ c → Ages h h₂ c
  Ages-trans h h₁ h₂ c a b = record {
    next = λ z. a.next (b.next z);
    slot = λ o t' at w. let (t₁, at₁, w₁) = b.slot o t' at w in a.slot o t₁ at₁ w₁;
  }

  -- A chunk that is replaced by one that ages.
  Ages-set :
      (h : Heap A) (p : Ptr) (v : Option (Chunk A))
      → (next_in v ≡ some 0 → next_in (h p) ≡ some 0)
      → ((o : ℕ) (t' : Slot A)
          → slot_in v o ≡ some t'
          → t'.write ≡ false
          → (t : Slot A) × (slot_in (h p) o ≡ some t) × (t.write ≡ false))
      → (c : Ptr) → Ages h (update h p v) c
  Ages-set h p v next slot c = elim (ℕ_discrete p c) [
    | yes same ↦ rw (← same) (record {
      next = λ z. next (rw (update_self h p v) at z);
      slot = λ o t' at w. slot o t' (rw (update_self h p v) at at) w;
    })
    | no other ↦ Ages-eq h (update h p v) c (update_ne h p v c other)
  ]

  pub Ages-change_slot :
      (q : CoQueue A) (p : Ptr) (o : ℕ) (f : Slot A → Slot A) (old : Slot A) (r : CoQueue A)
      → change_slot q p o f ≡ done (old, r)
      → ((f old).write ≡ false → old.write ≡ false)
      → (c : Ptr) → Ages q.heap r.heap c
  Ages-change_slot q p o f old r e keeps c =
      let (was, here, kept) = change_slot-heap q p o f old r (q.heap p) refl e in
      let there = change_slot-was q p o f old r e in
      rw kept (
        Ages-set q.heap p (some (set_slot was o (f old))) (λ z. rw here z)
          (λ m t' at w. elim (ℕ_discrete o m) [
            | yes same ↦
                let is = get_elem?-set-some was.slots o m (f old) t' same at in
                (old, rw (← same) there, keeps (ap (λ y. y.write) is ∙ w))
            | no other ↦ (t', rw here (sym (get_elem?-set_ne was.slots o (f old) m other) ∙ at), w)
          ])
          c)

  pub Ages-link_chunk :
      (q : CoQueue A) (p next : Ptr) (r : CoQueue A)
      → link_chunk q p next ≡ done r
      → next ≢ 0
      → (c : Ptr) → Ages q.heap r.heap c
  Ages-link_chunk q p next r e ne c =
      let (was, here, kept) = link_chunk-heap q p next r (q.heap p) refl e in
      rw kept (
        Ages-set q.heap p (some (record was { next = next })) (λ z. absurd (ne (some_ptr next 0 z)))
          (λ m t' at w. (t', rw here at, w)) c)
    where
      some_ptr : (c d : Ptr) → some c ≡ some d → c ≡ d
      some_ptr c d z = cc

  -- The chunk that was linked has a link.
  pub link_chunk-next :
      (q : CoQueue A) (p next : Ptr) (r : CoQueue A)
      → link_chunk q p next ≡ done r
      → next_in (r.heap p) ≡ some next
  link_chunk-next q p next r e =
      let (was, here, kept) = link_chunk-heap q p next r (q.heap p) refl e in
      rw (kept, update_self q.heap p (some (record was { next = next }))) refl

  Ages-free :
      (q : CoQueue A) (p : Ptr) (r : CoQueue A)
      → free q p ≡ done r
      → (c : Ptr) → Ages q.heap r.heap c
  Ages-free q p r e c =
      let kept : r.heap ≡ update q.heap p none = ground arith in
      rw kept (Ages-set q.heap p none (λ z. cc) (λ m t' at w. cc) c)

  -- An access of `pop` does not take anything back.
  pub PopStep-Ages :
      {s : Crowd A} {i : ℕ} {t : Crowd A}
      → PopStep s i t
      → (c : Ptr) → Ages s.queue.heap t.queue.heap c
  PopStep-Ages {s} (Pops.marks_read l x old q at o e) c =
      Ages-change_slot s.queue l.chunk (position l.head % lap) (λ t. record t { read = true }) old q
        e (λ w. w) c
  PopStep-Ages {s} (Pops.leaves_slot p o x old q at e) c =
      Ages-change_slot s.queue p o (λ t. record t { destroy = true }) old q e (λ w. w) c
  PopStep-Ages {s} (Pops.frees p x q at e) c = Ages-free s.queue p q e c
  PopStep-Ages {s} (Pops.pop_calls at) c = Ages-eq s.queue.heap s.queue.heap c refl
  PopStep-Ages {s} (Pops.pop_loads h at) c = Ages-eq s.queue.heap s.queue.heap c refl
  PopStep-Ages {s} (Pops.pop_naps l at o) c = Ages-eq s.queue.heap s.queue.heap c refl
  PopStep-Ages {s} (Pops.pop_empty l at o e) c = Ages-eq s.queue.heap s.queue.heap c refl
  PopStep-Ages {s} (Pops.pop_checks l n at o e) c = Ages-eq s.queue.heap s.queue.heap c refl
  PopStep-Ages {s} (Pops.pop_reloads l n at z) c = Ages-eq s.queue.heap s.queue.heap c refl
  PopStep-Ages {s} (Pops.pop_wins l n at y e o) c = Ages-eq s.queue.heap s.queue.heap c refl
  PopStep-Ages {s} (Pops.pop_wins_last l n at y e o) c = Ages-eq s.queue.heap s.queue.heap c refl
  PopStep-Ages {s} (Pops.pop_fails l n at y) c = Ages-eq s.queue.heap s.queue.heap c refl
  PopStep-Ages {s} (Pops.finds_next l n next at e) c = Ages-eq s.queue.heap s.queue.heap c refl
  PopStep-Ages {s} (Pops.looks_on l n next idx at e) c = Ages-eq s.queue.heap s.queue.heap c refl
  PopStep-Ages {s} (Pops.moves_chunk l idx next at) c = Ages-eq s.queue.heap s.queue.heap c refl
  PopStep-Ages {s} (Pops.moves_index l idx next at) c = Ages-eq s.queue.heap s.queue.heap c refl
  PopStep-Ages {s} (Pops.reads l x at e) c = Ages-eq s.queue.heap s.queue.heap c refl
  PopStep-Ages {s} (Pops.destroys l x at o) c = Ages-eq s.queue.heap s.queue.heap c refl
  PopStep-Ages {s} (Pops.sees_slot p o x read at lt e) c = Ages-eq s.queue.heap s.queue.heap c refl
  PopStep-Ages {s} (Pops.returns r at) c = Ages-eq s.queue.heap s.queue.heap c refl
