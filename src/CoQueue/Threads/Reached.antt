-- ===== src/CoQueue/Threads/Reached.antt =====
-- src/lockless_queue.rs, `CoQueue::push` by many threads: every access keeps the invariant.
use co_queue.Base.{
  ℕ, ◌+◌, ◌/◌, ◌^◌, ◌≤◌, ◌<◌, ◌≡◌, refl, sym, ◌∙◌, true, Option, none, some, inl, inr, update,
  arith,
}
use co_queue.CoQueue.Chunk.{Ptr}
use co_queue.CoQueue.State.{word, alloc}
use co_queue.CoQueue.Threads.{
  PushPc, idle, half, looped, heading, set_chunk, set_index, set_link, writing, marking, Crowd,
  offset_of, go,
}
use co_queue.CoQueue.Threads.Pushes
use co_queue.CoQueue.Threads.Pushes.{PushStep, put_first, link_chunk}
use co_queue.CoQueue.Threads.Invariant.{stage, tail_of, chunk_of, spare_of, Fits, Inv}
use co_queue.CoQueue.Threads.Moves.{Keeps, Inv-quiet, Inv-alloc, Inv-wins}
use co_queue.CoQueue.Threads.Closing.{Inv-sets_chunk, Inv-sets_index, Inv-installs}
use co_queue.CoQueue.Threads.Alone.{Fits-idle, link_chunk-Same, change_slot-Same, drop_box-Same}

module _ {ℓ} {A : Type ℓ} where
  Fits-half :
      {lap_of : ℕ → ℕ} {s : Crowd A}
      → Inv lap_of s
      → (i : ℕ) (x : A) (n : Option Ptr) → ((c : Ptr) → n ≡ some c → spare_of (s.pc i) ≡ some c)
      → Fits lap_of s.queue.tail.index s.queue.tail.chunk s.queue.fresh
          (half x n s.queue.tail.index)
  Fits-half {s = s} inv i x n sp = record {
    even = λ h. inv.shared.even;
    below = λ h. omega arith;
    looks = λ h. absurd (omega arith);
    claims = λ h. absurd (omega arith);
    spares = λ c e. (inv.fits i).spares c (sp c e);
    closes = λ h. absurd (omega arith);
    moves = λ h. absurd (omega arith);
  }

  -- A thread that has claimed a slot goes on to the next access to it.
  Fits-late :
      {lap_of : ℕ → ℕ} {s : Crowd A}
      → Inv lap_of s
      → (i : ℕ) (b p : PushPc A) → s.pc i ≡ b
      → (3 ≤ stage b) × (stage p ≡ 5)
      → (tail_of p ≡ tail_of b) × (chunk_of p ≡ chunk_of b)
      → Keeps b p
      → Fits lap_of s.queue.tail.index s.queue.tail.chunk s.queue.fresh p
  Fits-late {lap_of} {s} inv i b p at st same k =
      let me : Fits lap_of s.queue.tail.index s.queue.tail.chunk s.queue.fresh b =
        rw (← at) (inv.fits i) in
      record {
        even = λ h. rw same.0 (me.even (omega (arith, st)));
        below = λ h. rw same.0 (me.below (omega (arith, st)));
        looks = λ h. absurd (omega (arith, st));
        claims = λ h. rw (same.0, same.1) (me.claims st.0);
        spares = λ c e. me.spares c (k.boxes c e);
        closes = λ h. absurd (omega (arith, st));
        moves = λ h. absurd (omega (arith, st));
      }

  -- What a thread that starts over keeps is its spare chunk.
  Keeps-early :
      (b p : PushPc A)
      → stage p < 3
      → ((c : Ptr) → spare_of p ≡ some c → spare_of b ≡ some c)
      → Keeps b p
  Keeps-early b p early sp = record { slots = λ h. absurd (omega arith); boxes = sp }

  Keeps-late :
      (b p : PushPc A)
      → 3 ≤ stage b
      → tail_of b ≡ tail_of p
      → ((c : Ptr) → spare_of p ≡ some c → spare_of b ≡ some c)
      → Keeps b p
  Keeps-late b p late t sp = record { slots = λ h. (late, t); boxes = sp }

  -- The thread goes back to load the tail.
  Inv-half :
      {lap_of : ℕ → ℕ} {s : Crowd A}
      → Inv lap_of s
      → (i : ℕ) (x : A) (n : Option Ptr) (b : PushPc A) → s.pc i ≡ b
      → ((c : Ptr) → n ≡ some c → spare_of b ≡ some c)
      → Inv lap_of (go s s.queue i (half x n s.queue.tail.index))
  Inv-half {s = s} inv i x n b at sp =
      Inv-quiet inv s.queue i b (half x n s.queue.tail.index) at refl refl
        (Keeps-early b (half x n s.queue.tail.index) (omega arith) sp)
        (Fits-half inv i x n (rw at sp))

  -- The chunk that the access links, if it does, gets its lap.
  abbrev pub grow : (ℕ → ℕ) → {s : Crowd A} {i : ℕ} {t : Crowd A} → PushStep s i t → ℕ → ℕ
  grow lap_of {s} (Pushes.installs x l at r n none_yet) = update lap_of s.queue.fresh 1
  grow lap_of {s} (Pushes.sets_chunk x l p at) = update lap_of p (s.queue.tail.index / 64 + 2)
  grow lap_of _ = lap_of

  pub PushStep-Inv :
      {lap_of : ℕ → ℕ} {i : ℕ} {s t : Crowd A}
      → (st : PushStep s i t) → s.queue.tail.index + 4 < 2 ^ 64
      → Inv lap_of s
      → Inv (grow lap_of st) t
  PushStep-Inv {lap_of} {i} {s} (Pushes.calls x at) lt inv =
      Inv-half inv i x none idle at (λ c e. cc)
  PushStep-Inv {lap_of} {i} {s} (Pushes.loads x n t at) lt inv =
      let me : Fits lap_of s.queue.tail.index s.queue.tail.chunk s.queue.fresh (half x n t) =
        rw (← at) (inv.fits i) in
      Inv-quiet inv s.queue i (half x n t)
        (looped x (record { tail = t; chunk = s.queue.tail.chunk; next_chunk = n })) at refl refl
        (Keeps-early (half x n t)
          (looped x (record { tail = t; chunk = s.queue.tail.chunk; next_chunk = n })) (omega arith)
          (λ c e. e))
        (record {
          even = λ h. me.even (omega arith);
          below = λ h. me.below (omega arith);
          looks = λ h e o c. refl;
          claims = λ h. absurd (omega arith);
          spares = me.spares;
          closes = λ h. absurd (omega arith);
          moves = λ h. absurd (omega arith);
        })
  PushStep-Inv {lap_of} {i} {s} (Pushes.naps x l at o) lt inv =
      Inv-half inv i x l.next_chunk (looped x l) at (λ c e. e)
  PushStep-Inv {lap_of} {i} {s} (Pushes.reserves x l at o n) lt inv =
      let me : Fits lap_of s.queue.tail.index s.queue.tail.chunk s.queue.fresh (looped x l) =
        rw (← at) (inv.fits i) in
      Inv-alloc inv (alloc s.queue) i (looped x (record l { next_chunk = some s.queue.fresh })) refl
        refl refl (omega arith) (λ h. (me.even h, me.below h)) (λ h. me.looks h)
  PushStep-Inv {lap_of} {i} {s} (Pushes.installs x l at r n none_yet) lt inv =
      Inv-installs inv (put_first s.queue) i (looped x l)
        (heading x (record l { chunk = s.queue.fresh })) at (refl, refl) (refl, refl) refl none_yet
        refl refl refl
  PushStep-Inv {lap_of} {i} {s} (Pushes.install_fails x l q at r n set_yet d) lt inv =
      let same = drop_box-Same (alloc s.queue) l.next_chunk q d in
      Inv-alloc inv q i (half x (some s.queue.fresh) q.tail.index) same.0 same.1 refl (omega arith)
        (λ h. rw same.0 (inv.shared.even, omega arith)) (λ h. absurd (omega arith))
  PushStep-Inv {lap_of} {i} {s} (Pushes.heads x l at) lt inv =
      let me : Fits lap_of s.queue.tail.index s.queue.tail.chunk s.queue.fresh (heading x l) =
        rw (← at) (inv.fits i) in
      Inv-quiet inv (record s.queue { head = record s.queue.head { chunk = l.chunk } }) i
        (heading x l) (looped x l) at refl refl
        (Keeps-early (heading x l) (looped x l) (omega arith) (λ c e. e))
        (record {
          even = me.even;
          below = me.below;
          looks = me.looks;
          claims = me.claims;
          spares = me.spares;
          closes = λ h. absurd (omega arith);
          moves = λ h. absurd (omega arith);
        })
  PushStep-Inv {lap_of} {i} {s} (Pushes.wins x l at r n e o) lt inv =
      Inv-wins inv (record s.queue { tail = record s.queue.tail { index = word (l.tail + 2) } }) i
        (looped x l) (writing x l) at refl (omega arith) refl refl (sym e) refl n refl (rw e r.0)
        refl (inr (refl, rw e (λ h. o (omega arith))))
  PushStep-Inv {lap_of} {i} {s} (Pushes.wins_last x l p at r n e o b) lt inv =
      Inv-wins inv (record s.queue { tail = record s.queue.tail { index = word (l.tail + 2) } }) i
        (looped x l) (set_chunk x l p) at refl (omega arith) refl refl (sym e) refl n refl
        (rw e r.0) (sym b) (inl (refl, rw e (omega arith)))
  PushStep-Inv {lap_of} {i} {s} (Pushes.fails x l at r n) lt inv =
      Inv-half inv i x l.next_chunk (looped x l) at (λ c e. e)
  PushStep-Inv {lap_of} {i} {s} (Pushes.sets_chunk x l p at) lt inv =
      Inv-sets_chunk inv (record s.queue { tail = record s.queue.tail { chunk = p } }) i
        (set_chunk x l p) (set_index x l p) p at (refl, refl) (refl, refl) (refl, refl) refl refl
        refl
  PushStep-Inv {lap_of} {i} {s} (Pushes.sets_index x l p at) lt inv =
      let me : Fits lap_of s.queue.tail.index s.queue.tail.chunk s.queue.fresh (set_index x l p) =
        rw (← at) (inv.fits i) in
      Inv-sets_index inv
        (record s.queue { tail = record s.queue.tail { index = word (word (l.tail + 2) + 2) } }) i
        (set_index x l p) (set_link x l p) at (refl, refl) (refl, refl) refl
        (omega (arith, me.moves refl)) refl refl
  PushStep-Inv {lap_of} {i} {s} (Pushes.sets_link x l p q at e) lt inv =
      let same = link_chunk-Same s.queue l.chunk p q e in
      let l₁ = record l { next_chunk = none } in
      let k = Keeps-late (set_link x l p) (writing x l₁) (omega arith) refl (λ c e. e) in
      Inv-quiet inv q i (set_link x l p) (writing x l₁) at same.0 same.1 k
        (Fits-late inv i (set_link x l p) (writing x l₁) at (omega arith, refl) (refl, refl) k)
  PushStep-Inv {lap_of} {i} {s} (Pushes.writes x l old q at e) lt inv =
      let same =
        change_slot-Same s.queue l.chunk (offset_of l) (λ t. record t { value = some x }) old q e in
      let k = Keeps-late (writing x l) (marking l) (omega arith) refl (λ c e. e) in
      Inv-quiet inv q i (writing x l) (marking l) at same.0 same.1 k
        (Fits-late inv i (writing x l) (marking l) at (omega arith, refl) (refl, refl) k)
  PushStep-Inv {lap_of} {i} {s} (Pushes.marks l old q r at e d) lt inv =
      let first =
        change_slot-Same s.queue l.chunk (offset_of l) (λ t. record t { write = true }) old q e in
      let same = drop_box-Same q l.next_chunk r d in
      Inv-quiet inv r i (marking l) idle at (same.0 ∙ first.0) (same.1 ∙ first.1)
        (Keeps-early (marking l) idle (omega arith) (λ c e. cc))
        (Fits-idle lap_of s.queue.tail.index s.queue.tail.chunk s.queue.fresh)
