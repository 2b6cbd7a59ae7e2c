-- ===== src/CoQueue/Threads/PopEnds.antt =====
-- src/lockless_queue.rs, `CoQueue::pop` by many threads: where the head stands past the last slot
-- of a chunk, a thread is about to move it.
use co_queue.Base.{
  ℕ, ◌+◌, ◌/◌, ◌%◌, ◌≡◌, ◌⊎◌, inl, inr, true, refl, sym, ap, ◌∙◌, none, some, update_self, arith,
  if◌then◌else◌,
}
use co_queue.CoQueue.Chunk.{lap, chunk_cap}
use co_queue.CoQueue.State.{position, CoQueue}
use co_queue.CoQueue.Threads.{
  PopPc, Crowd, pop_go, outside, returned, has_head, round, checked, waiting, found, move_chunk,
  move_index, reading, taken, destroying, unread,
}
use co_queue.CoQueue.Threads.Pops
use co_queue.CoQueue.Threads.Pops.{PopStep}
use co_queue.CoQueue.Threads.Ends.{Ends, TurnsHead, still}
use co_queue.CoQueue.Threads.Ahead.{Ahead}
use co_queue.CoQueue.Threads.Alone.{free-Same, change_slot-Same}
use co_queue.CoQueue.Threads.Pulls.{PopFitsIn}

module _ {ℓ} {A : Type ℓ} where
  Ends-pop :
      {s : Crowd A}
      → Ends s
      → (q : CoQueue A) (i : ℕ) (b p : PopPc A) → s.popper i ≡ b
      → q.tail ≡ s.queue.tail
      → (q.head.chunk ≡ 0 → s.queue.head.chunk ≡ 0)
      → (q.head.index / 2 % 32 ≡ 31
          → TurnsHead p ⊎ ((s.queue.head.index / 2 % 32 ≡ 31) × (TurnsHead b → TurnsHead p)))
      → Ends (pop_go s q i p)
  Ends-pop {s} h q i b p at tl chunk hd = record {
    tail = λ e. h.tail (omega (arith, e, ap (λ z. z.index) tl));
    head = λ e. elim (hd e) [
      | inl now ↦ (i, rw (update_self s.popper i p) now)
      | inr old ↦ still s.popper TurnsHead i b p at old.1 (h.head old.0)
    ];
    first = λ e ne. h.first (chunk e) (λ z. ne (ap (λ y. y.chunk) tl ∙ z));
  }

  -- The ends stay, and the thread goes on to turn the head if it was to.
  Ends-pop_calm :
      {s : Crowd A}
      → Ends s
      → (q : CoQueue A) (i : ℕ) (b p : PopPc A) → s.popper i ≡ b
      → q.tail ≡ s.queue.tail
      → q.head ≡ s.queue.head
      → (TurnsHead b → TurnsHead p)
      → Ends (pop_go s q i p)
  Ends-pop_calm h q i b p at tl hd goes =
      Ends-pop h q i b p at tl (λ e. sym (ap (λ z. z.chunk) hd) ∙ e)
        (λ e. inr (omega (arith, e, ap (λ z. z.index) hd), goes))

  pub PopStep-Ends :
      {lap_of : ℕ → ℕ} {i : ℕ} {s t : Crowd A} → PopStep s i t → Ahead lap_of s → Ends s → Ends t
  PopStep-Ends {i = i} {s} (Pops.pop_calls at) a h =
      Ends-pop_calm h s.queue i outside (has_head s.queue.head.index) at refl refl
        (λ t. absurd (omega (arith, t)))
  PopStep-Ends {i = i} {s} (Pops.pop_loads n at) a h =
      Ends-pop_calm h s.queue i (has_head n)
        (round (record { head = n; chunk = s.queue.head.chunk })) at refl refl
        (λ t. absurd (omega (arith, t)))
  PopStep-Ends {i = i} {s} (Pops.pop_naps l at o) a h =
      Ends-pop_calm h s.queue i (round l) (has_head s.queue.head.index) at refl refl
        (λ t. absurd (omega (arith, t)))
  PopStep-Ends {i = i} {s} (Pops.pop_empty l at o e) a h =
      Ends-pop_calm h s.queue i (round l) (returned none) at refl refl
        (λ t. absurd (omega (arith, t)))
  PopStep-Ends {i = i} {s} (Pops.pop_checks l n at o e) a h =
      Ends-pop_calm h s.queue i (round l) (checked l n) at refl refl
        (λ t. absurd (omega (arith, t)))
  PopStep-Ends {i = i} {s} (Pops.pop_reloads l n at z) a h =
      Ends-pop_calm h s.queue i (checked l n) (has_head s.queue.head.index) at refl refl
        (λ t. absurd (omega (arith, t)))
  PopStep-Ends {i = i} {s} (Pops.pop_fails l n at c) a h =
      Ends-pop_calm h s.queue i (checked l n) (has_head s.queue.head.index) at refl refl
        (λ t. absurd (omega (arith, t)))
  PopStep-Ends {lap_of} {i} {s} (Pops.pop_wins l n at c e o) a h =
      let me : PopFitsIn lap_of s (checked l n) = rw (← at) (a.pops i) in
      Ends-pop h (record s.queue { head = record s.queue.head { index = n } }) i (checked l n)
        (reading l) at refl (λ z. z) (λ z. absurd (omega (arith, me.tested refl, o, e, z)))
  PopStep-Ends {i = i} {s} (Pops.pop_wins_last l n at c e o) a h =
      Ends-pop h (record s.queue { head = record s.queue.head { index = n } }) i (checked l n)
        (waiting l n) at refl (λ z. z) (λ z. inl (omega arith))
  PopStep-Ends {i = i} {s} (Pops.finds_next l n next at e) a h =
      Ends-pop_calm h s.queue i (waiting l n) (found l n next) at refl refl (λ t. omega arith)
  PopStep-Ends {i = i} {s} (Pops.looks_on l n next idx at e) a h =
      Ends-pop_calm h s.queue i (found l n next) (move_chunk l idx next) at refl refl
        (λ t. omega arith)
  PopStep-Ends {lap_of} {i} {s} (Pops.moves_chunk l idx next at) a h =
      let me : PopFitsIn lap_of s (move_chunk l idx next) = rw (← at) (a.pops i) in
      Ends-pop h (record s.queue { head = record s.queue.head { chunk = next } }) i
        (move_chunk l idx next) (move_index l idx next) at refl
        (λ e. absurd (omega (arith, me.nexts (omega arith) (omega arith), e)))
        (λ z. inl (omega arith))
  PopStep-Ends {lap_of} {i} {s} (Pops.moves_index l idx next at) a h =
      let me : PopFitsIn lap_of s (move_index l idx next) = rw (← at) (a.pops i) in
      Ends-pop h (record s.queue { head = record s.queue.head { index = idx } }) i
        (move_index l idx next) (reading l) at refl (λ z. z)
        (λ z. absurd (
          omega (
            arith,
            me.closes (omega arith) (omega arith),
            me.lands (omega arith) (omega arith),
            z,
          )))
  PopStep-Ends {i = i} {s} (Pops.reads l x at e) a h =
      Ends-pop_calm h s.queue i (reading l) (taken l x) at refl refl
        (λ t. absurd (omega (arith, t)))
  PopStep-Ends {i = i} {s} (Pops.marks_read l x old q at o e) a h =
      let same =
        change_slot-Same s.queue l.chunk (position l.head % lap) (λ t. record t { read = true }) old
          q e in
      Ends-pop_calm h q i (taken l x)
        (if old.destroy
          then destroying l.chunk (position l.head % lap + 1) x
          else returned (some x))
        at same.0 same.2 (λ t. absurd (omega (arith, t)))
  PopStep-Ends {i = i} {s} (Pops.destroys l x at o) a h =
      Ends-pop_calm h s.queue i (taken l x) (destroying l.chunk 0 x) at refl refl
        (λ t. absurd (omega (arith, t)))
  PopStep-Ends {i = i} {s} (Pops.sees_slot p o x read at lt e) a h =
      Ends-pop_calm h s.queue i (destroying p o x)
        (if read then destroying p (o + 1) x else unread p o x) at refl refl
        (λ t. absurd (omega (arith, t)))
  PopStep-Ends {i = i} {s} (Pops.leaves_slot p o x old q at e) a h =
      let same = change_slot-Same s.queue p o (λ t. record t { destroy = true }) old q e in
      Ends-pop_calm h q i (unread p o x)
        (if old.read then destroying p (o + 1) x else returned (some x)) at same.0 same.2
        (λ t. absurd (omega (arith, t)))
  PopStep-Ends {i = i} {s} (Pops.frees p x q at e) a h =
      let same = free-Same s.queue p q e in
      Ends-pop_calm h q i (destroying p chunk_cap x) (returned (some x)) at same.0 same.2
        (λ t. absurd (omega (arith, t)))
  PopStep-Ends {i = i} {s} (Pops.returns r at) a h =
      Ends-pop_calm h s.queue i (returned r) outside at refl refl (λ t. absurd (omega (arith, t)))
