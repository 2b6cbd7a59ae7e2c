-- ===== src/CoQueue/Threads/Values.antt =====
-- src/lockless_queue.rs, `CoQueue::push` and `CoQueue::pop` by many threads: what an access does to
-- the values in the slots.
use native.Mathlib.Decide.{ℕ_discrete}
use co_queue.Base.{
  ℕ, ◌≡◌, ◌≢◌, ◌⊎◌, inl, inr, refl, sym, ◌∙◌, some, get_elem?, set, update_self, update_ne, arith,
  get_elem?-set-some, get_elem?-set_ne,
}
use co_queue.Base.Outcome.{done}
use co_queue.CoQueue.Chunk.{Ptr, Slot, Chunk, Heap}
use co_queue.CoQueue.State.{CoQueue, set_slot}
use co_queue.CoQueue.Threads.{change_slot}
use co_queue.CoQueue.Threads.Pushes.{link_chunk}
use co_queue.CoQueue.Threads.Links.{change_slot-heap, link_chunk-heap}
use co_queue.CoQueue.Threads.Cells.{slot_in}

module _ {ℓ} {A : Type ℓ} where
  -- A slot that holds a value still holds it.
  abbrev pub SameValue : Heap A → Heap A → Ptr → ℕ → Type ℓ
  SameValue h h' c o =
      (t' : Slot A)
      → slot_in (h' c) o ≡ some t'
      → (t : Slot A) × (slot_in (h c) o ≡ some t) × (t'.value ≡ t.value)

  pub change_slot-at :
      (q : CoQueue A) (p : Ptr) (o : ℕ) (f : Slot A → Slot A) (old : Slot A) (r : CoQueue A)
      → (c : Chunk A) → q.heap p ≡ some c
      → change_slot q p o f ≡ done (old, r)
      → get_elem? c.slots o ≡ some old
  change_slot-at q p o f old r c here e = ground arith

  pub SameValue-refl : (h h' : Heap A) (c : Ptr) (o : ℕ) → h' c ≡ h c → SameValue h h' c o
  SameValue-refl h h' c o e = λ t' at. (t', rw (← e) at, refl)

  pub SameValue-trans :
      (h h₁ h₂ : Heap A) (c : Ptr) (o : ℕ)
      → SameValue h h₁ c o
      → SameValue h₁ h₂ c o
      → SameValue h h₂ c o
  SameValue-trans h h₁ h₂ c o f g =
      λ t' at. let (t₁, at₁, e₁) = g t' at in let (t, at₀, e₀) = f t₁ at₁ in (t, at₀, e₁ ∙ e₀)

  -- An access to a slot leaves the values of the others, and this one's if it sets a flag.
  pub SameValue-change_slot :
      (q : CoQueue A) (p : Ptr) (o : ℕ) (f : Slot A → Slot A) (old : Slot A) (r : CoQueue A)
      → change_slot q p o f ≡ done (old, r)
      → (c : Ptr) (m : ℕ) → ¬ ((p ≡ c) × (o ≡ m)) ⊎ ((f old).value ≡ old.value)
      → SameValue q.heap r.heap c m
  SameValue-change_slot q p o f old r e c m apart =
      let (was, here, kept) = change_slot-heap q p o f old r (q.heap p) refl e in
      let at_old = change_slot-at q p o f old r was here e in
      elim (ℕ_discrete p c) [
        | no other ↦
            SameValue-refl q.heap r.heap c m
              (rw kept (update_ne q.heap p (some (set_slot was o (f old))) c other))
        | yes same ↦ λ t' at.
            let now : r.heap c ≡ some (set_slot was o (f old)) =
              rw (kept, ← same) (update_self q.heap p (some (set_slot was o (f old)))) in
            let at' : get_elem? (set was.slots o (f old)) m ≡ some t' = rw now at at in
            elim (ℕ_discrete o m) [
              | no far ↦ (
                t',
                rw (← same, here) (sym (get_elem?-set_ne was.slots o (f old) m far) ∙ at'),
                refl,
              )
              | yes near ↦
                  let is : f old ≡ t' = get_elem?-set-some was.slots o m (f old) t' near at' in
                  elim apart [
                    | inl ne ↦ absurd (ne (same, near))
                    | inr keeps ↦ (old, rw (← same, here, ← near) at_old, rw (← is) keeps)
                  ]
            ]
      ]

  pub SameValue-link_chunk :
      (q : CoQueue A) (p next : Ptr) (r : CoQueue A)
      → link_chunk q p next ≡ done r
      → (c : Ptr) (m : ℕ) → SameValue q.heap r.heap c m
  SameValue-link_chunk q p next r e c m =
      let (was, here, kept) = link_chunk-heap q p next r (q.heap p) refl e in
      elim (ℕ_discrete p c) [
        | no other ↦
            SameValue-refl q.heap r.heap c m
              (rw kept (update_ne q.heap p (some (record was { next = next })) c other))
        | yes same ↦ λ t' at.
            let now : r.heap c ≡ some (record was { next = next }) =
              rw (kept, ← same) (update_self q.heap p (some (record was { next = next }))) in
            let at' : get_elem? was.slots m ≡ some t' = rw now at at in
            (t', rw (← same, here) at', refl)
      ]

  pub change_slot-away :
      (q : CoQueue A) (p : Ptr) (o : ℕ) (f : Slot A → Slot A) (old : Slot A) (r : CoQueue A)
      → change_slot q p o f ≡ done (old, r)
      → (c : Ptr) → p ≢ c
      → r.heap c ≡ q.heap c
  change_slot-away q p o f old r e c ne =
      let (was, here, kept) = change_slot-heap q p o f old r (q.heap p) refl e in
      rw kept (update_ne q.heap p (some (set_slot was o (f old))) c ne)

  pub change_slot-now :
      (q : CoQueue A) (p : Ptr) (o : ℕ) (f : Slot A → Slot A) (old : Slot A) (r : CoQueue A)
      → change_slot q p o f ≡ done (old, r)
      → (t : Slot A) → slot_in (r.heap p) o ≡ some t
      → f old ≡ t
  change_slot-now q p o f old r e t at =
      let (was, here, kept) = change_slot-heap q p o f old r (q.heap p) refl e in
      let now : r.heap p ≡ some (set_slot was o (f old)) =
        rw kept (update_self q.heap p (some (set_slot was o (f old)))) in
      get_elem?-set-some was.slots o o (f old) t refl (rw now at at)

  pub change_slot-was :
      (q : CoQueue A) (p : Ptr) (o : ℕ) (f : Slot A → Slot A) (old : Slot A) (r : CoQueue A)
      → change_slot q p o f ≡ done (old, r)
      → slot_in (q.heap p) o ≡ some old
  change_slot-was q p o f old r e =
      let (was, here, kept) = change_slot-heap q p o f old r (q.heap p) refl e in
      rw here (change_slot-at q p o f old r was here e)

  pub link_chunk-away :
      (q : CoQueue A) (p next : Ptr) (r : CoQueue A)
      → link_chunk q p next ≡ done r
      → (c : Ptr) → p ≢ c
      → r.heap c ≡ q.heap c
  link_chunk-away q p next r e c ne =
      let (was, here, kept) = link_chunk-heap q p next r (q.heap p) refl e in
      rw kept (update_ne q.heap p (some (record was { next = next })) c ne)
