-- ===== src/CoQueue/Threads/Ends.antt =====
-- src/lockless_queue.rs, `CoQueue::push` and `CoQueue::pop` by many threads: where an end of the
-- queue stands still, a thread is about to move it.
use native.Mathlib.Decide.{ℕ_discrete}
use co_queue.Base.{
  ℕ, ◌+◌, ◌/◌, ◌%◌, ◌≤◌, ◌<◌, ◌^◌, ◌≡◌, ◌≢◌, ◌⊎◌, inl, inr, true, refl, sym, ap, ◌∙◌, none, some,
  update, update_self, update_ne, arith,
}
use co_queue.CoQueue.State.{CoQueue, word, alloc}
use co_queue.CoQueue.Threads.{
  PushPc, idle, half, looped, heading, set_chunk, set_index, set_link, writing, marking, PopPc,
  Crowd, go, offset_of,
}
use co_queue.CoQueue.Threads.Pushes
use co_queue.CoQueue.Threads.Pushes.{PushStep, put_first}
use co_queue.CoQueue.Threads.Invariant.{stage, Fits, Inv}
use co_queue.CoQueue.Threads.Ahead.{heads, pop_stage, Owes, Ahead}
use co_queue.CoQueue.Threads.Alone.{change_slot-Same, drop_box-Same, link_chunk-Same}
use co_queue.CoQueue.Threads.Newest.{Newest, Newest-set}

-- A thread of which something holds is still there if thread `i` moves.
pub still {ℓ} :
    {B : Type ℓ} (f : ℕ → B) (P : B → Type 0) (i : ℕ) (b p : B)
    → f i ≡ b
    → (P b → P p)
    → (k : ℕ) × P (f k)
    → (k : ℕ) × P (update f i p k)
still f P i b p at goes (k, h) = elim (ℕ_discrete i k) [
  | yes same ↦ (i, rw (update_self f i p) (goes (rw (← at, same) h)))
  | no other ↦ (k, rw (update_ne f i p k other) h)
]

module _ {ℓ} {A : Type ℓ} where
  -- The thread is to move the tail past the end of a chunk.
  abbrev pub TurnsTail : PushPc A → Type 0
  TurnsTail p = (3 ≤ stage p) × (stage p ≤ 4)

  abbrev pub TurnsHead : PopPc A → Type 0
  TurnsHead p = (4 ≤ pop_stage p) × (pop_stage p ≤ 7)

  pub record Ends (s : Crowd A) : Type 0 where
    pub tail : s.queue.tail.index / 2 % 32 ≡ 31 → (k : ℕ) × TurnsTail (s.pc k)
    pub head : s.queue.head.index / 2 % 32 ≡ 31 → (k : ℕ) × TurnsHead (s.popper k)
    pub first : s.queue.head.chunk ≡ 0 → s.queue.tail.chunk ≢ 0 → (k : ℕ) × (heads (s.pc k) ≡ 1)

  Ends-push :
      {s : Crowd A}
      → Ends s
      → (q : CoQueue A) (i : ℕ) (b p : PushPc A) → s.pc i ≡ b
      → q.head.index ≡ s.queue.head.index
      → (q.tail.index / 2 % 32 ≡ 31
          → TurnsTail p ⊎ ((s.queue.tail.index / 2 % 32 ≡ 31) × (TurnsTail b → TurnsTail p)))
      → (q.head.chunk ≡ 0
          → q.tail.chunk ≢ 0
          → (heads p ≡ 1) ⊎ ((s.queue.head.chunk ≡ 0) × (s.queue.tail.chunk ≢ 0) × (heads b ≢ 1)))
      → Ends (go s q i p)
  Ends-push {s} h q i b p at hd tl fst = record {
    tail = λ e. elim (tl e) [
      | inl now ↦ (i, rw (update_self s.pc i p) now)
      | inr old ↦ still s.pc TurnsTail i b p at old.1 (h.tail old.0)
    ];
    head = rw hd h.head;
    first = λ e ne. elim (fst e ne) [
      | inl now ↦ (i, rw (update_self s.pc i p) now)
      | inr old ↦
          still s.pc (λ z. heads z ≡ 1) i b p at (λ z. absurd (old.2 z)) (h.first old.0 old.1)
    ];
  }

  -- The ends stay, and the thread has not had to move them.
  Ends-calm :
      {s : Crowd A}
      → Ends s
      → (q : CoQueue A) (i : ℕ) (b p : PushPc A) → s.pc i ≡ b
      → q.head ≡ s.queue.head
      → q.tail ≡ s.queue.tail
      → (TurnsTail b → ⊥)
      → heads b ≢ 1
      → Ends (go s q i p)
  Ends-calm h q i b p at hd tl not_turns not_heads =
      Ends-push h q i b p at (ap (λ z. z.index) hd)
        (λ e. inr (omega (arith, e, ap (λ z. z.index) tl), λ t. absurd (not_turns t)))
        (λ e ne.
          inr (sym (ap (λ z. z.chunk) hd) ∙ e, λ z. ne (ap (λ z'. z'.chunk) tl ∙ z), not_heads))

  pub PushStep-Ends :
      {lap_of : ℕ → ℕ} {i : ℕ} {s t : Crowd A}
      → PushStep s i t
      → s.queue.tail.index + 4 < 2 ^ 64
      → Inv lap_of s
      → Ahead lap_of s
      → Newest lap_of s
      → Ends s
      → Ends t
  PushStep-Ends {i = i} {s} (Pushes.calls x at) lt inv a w h =
      Ends-calm h s.queue i idle (half x none s.queue.tail.index) at refl refl
        (λ t. omega (arith, t)) (omega arith)
  PushStep-Ends {i = i} {s} (Pushes.loads x n t at) lt inv a w h =
      Ends-calm h s.queue i (half x n t)
        (looped x (record { tail = t; chunk = s.queue.tail.chunk; next_chunk = n })) at refl refl
        (λ t. omega (arith, t)) (omega arith)
  PushStep-Ends {i = i} {s} (Pushes.naps x l at o) lt inv a w h =
      Ends-calm h s.queue i (looped x l) (half x l.next_chunk s.queue.tail.index) at refl refl
        (λ t. omega (arith, t)) (omega arith)
  PushStep-Ends {i = i} {s} (Pushes.fails x l at r n) lt inv a w h =
      Ends-calm h s.queue i (looped x l) (half x l.next_chunk s.queue.tail.index) at refl refl
        (λ t. omega (arith, t)) (omega arith)
  PushStep-Ends {i = i} {s} (Pushes.reserves x l at o n) lt inv a w h =
      Ends-calm h (alloc s.queue) i (looped x l)
        (looped x (record l { next_chunk = some s.queue.fresh })) at refl refl
        (λ t. omega (arith, t)) (omega arith)
  PushStep-Ends {i = i} {s} (Pushes.installs x l at r n none_yet) lt inv a w h =
      Ends-push h (put_first s.queue) i (looped x l)
        (heading x (record l { chunk = s.queue.fresh })) at refl
        (λ e. inr (e, λ t. absurd (omega (arith, t)))) (λ e ne. inl refl)
  PushStep-Ends {i = i} {s} (Pushes.install_fails x l q at r n set_yet d) lt inv a w h =
      let same = drop_box-Same (alloc s.queue) l.next_chunk q d in
      Ends-calm h q i (looped x l) (half x (some s.queue.fresh) q.tail.index) at same.2 same.0
        (λ t. omega (arith, t)) (omega arith)
  PushStep-Ends {lap_of} {i = i} {s} (Pushes.heads x l at) lt inv a w h =
      let owes : Owes lap_of s.queue (heading x l) = rw (← at) (a.owes i) in
      Ends-push h (record s.queue { head = record s.queue.head { chunk = l.chunk } }) i
        (heading x l) (looped x l) at refl (λ e. inr (e, λ t. absurd (omega (arith, t))))
        (λ e ne. absurd (omega (arith, owes.first refl, ap lap_of e, w.zero)))
  PushStep-Ends {i = i} {s} (Pushes.wins x l at r n e o) lt inv a w h =
      Ends-push h (record s.queue { tail = record s.queue.tail { index = word (l.tail + 2) } }) i
        (looped x l) (writing x l) at refl (λ z. absurd (omega (arith, r.0, o, e, z)))
        (λ z ne. inr (z, ne, omega arith))
  PushStep-Ends {i = i} {s} (Pushes.wins_last x l p at r n e o b) lt inv a w h =
      Ends-push h (record s.queue { tail = record s.queue.tail { index = word (l.tail + 2) } }) i
        (looped x l) (set_chunk x l p) at refl (λ z. inl (omega arith))
        (λ z ne. inr (z, ne, omega arith))
  PushStep-Ends {i = i} {s} (Pushes.sets_chunk x l p at) lt inv a w h =
      Ends-push h (record s.queue { tail = record s.queue.tail { chunk = p } }) i (set_chunk x l p)
        (set_index x l p) at refl (λ z. inl (omega arith))
        (λ z ne. inr (z, Newest-set w inv i (omega (arith, ap stage at)), omega arith))
  PushStep-Ends {lap_of} {i = i} {s} (Pushes.sets_index x l p at) lt inv a w h =
      let fit : Fits lap_of s.queue.tail.index s.queue.tail.chunk s.queue.fresh (set_index x l p) =
        rw (← at) (inv.fits i) in
      Ends-push h
        (record s.queue { tail = record s.queue.tail { index = word (word (l.tail + 2) + 2) } }) i
        (set_index x l p) (set_link x l p) at refl (λ z. absurd (omega (arith, fit.moves refl, z)))
        (λ z ne. inr (z, ne, omega arith))
  PushStep-Ends {i = i} {s} (Pushes.sets_link x l p q at e) lt inv a w h =
      let same = link_chunk-Same s.queue l.chunk p q e in
      Ends-calm h q i (set_link x l p) (writing x (record l { next_chunk = none })) at same.2 same.0
        (λ t. omega (arith, t)) (omega arith)
  PushStep-Ends {i = i} {s} (Pushes.writes x l old q at e) lt inv a w h =
      let same =
        change_slot-Same s.queue l.chunk (offset_of l) (λ t. record t { value = some x }) old q e in
      Ends-calm h q i (writing x l) (marking l) at same.2 same.0 (λ t. omega (arith, t))
        (omega arith)
  PushStep-Ends {i = i} {s} (Pushes.marks l old q r at e d) lt inv a w h =
      let first =
        change_slot-Same s.queue l.chunk (offset_of l) (λ t. record t { write = true }) old q e in
      let same = drop_box-Same q l.next_chunk r d in
      Ends-calm h r i (marking l) idle at (same.2 ∙ first.2) (same.0 ∙ first.0)
        (λ t. omega (arith, t)) (omega arith)
