-- ===== src/CoQueue/Threads/ServedSteps.antt =====
-- src/lockless_queue.rs, `CoQueue::push` by many threads: no access forsakes a slot that is claimed,
-- or a chunk that is full.
use native.Mathlib.Decide.{ℕ_discrete}
use co_queue.Base.{
  ℕ, ◌+◌, ◌-◌, ◌*◌, ◌/◌, ◌%◌, ◌≤◌, ◌<◌, ◌^◌, ◌≡◌, ◌≢◌, inl, inr, true, refl, sym, ap, ◌∙◌, none,
  some, update, update_self, update_ne, arith,
}
use co_queue.CoQueue.Chunk.{Ptr, Slot}
use co_queue.CoQueue.State.{word, alloc}
use co_queue.CoQueue.Threads.{
  PushPc, idle, half, looped, heading, set_chunk, set_index, set_link, writing, marking, Crowd, go,
  offset_of,
}
use co_queue.CoQueue.Threads.Pushes
use co_queue.CoQueue.Threads.Pushes.{PushStep, put_first}
use co_queue.CoQueue.Threads.Invariant.{stage, tail_of, chunk_of, Fits, Inv}
use co_queue.CoQueue.Threads.Ahead.{Owes, Ahead}
use co_queue.CoQueue.Threads.Alone.{change_slot-Same, drop_box-Same, link_chunk-Same}
use co_queue.CoQueue.Threads.Boxes.{alloc-heap, drop_box-heap}
use co_queue.CoQueue.Threads.Cells.{slot_in}
use co_queue.CoQueue.Threads.Values.{change_slot-now}
use co_queue.CoQueue.Threads.Reached.{grow}
use co_queue.CoQueue.Threads.Newest.{Newest}
use co_queue.CoQueue.Threads.Served.{links, Served, Served-push, Served-early}
use co_queue.CoQueue.Threads.Ages.{
  Ages-eq, Ages-trans, Ages-change_slot, Ages-link_chunk, link_chunk-next,
}

some_ptr : (c d : Ptr) → some c ≡ some d → c ≡ d
some_ptr c d z = cc

module _ {ℓ} {A : Type ℓ} where
  -- The chunk at whose end the tail stands is the one that the thread knows.
  wins-chunk :
      {lap_of : ℕ → ℕ} {s : Crowd A}
      → Inv lap_of s
      → Newest lap_of s
      → (i : ℕ) (b : PushPc A) → s.pc i ≡ b
      → stage b ≡ 2
      → tail_of b ≡ s.queue.tail.index
      → s.queue.tail.index / 2 % 32 ≢ 31
      → chunk_of b ≢ 0
      → (c : Ptr) → lap_of c ≡ s.queue.tail.index / 64 + 1
      → chunk_of b ≡ c
  wins-chunk {lap_of} {s} inv w i b at st tl spot ne c e =
      let fit : Fits lap_of s.queue.tail.index s.queue.tail.chunk s.queue.fresh b =
        rw (← at) (inv.fits i) in
      let same = fit.looks st tl spot ne in
      let cur = inv.shared.current (λ z. ne (same ∙ z)) spot in
      w.once (chunk_of b) c (ap lap_of same ∙ cur ∙ sym e)
        (λ z. omega (arith, z, ap lap_of same, cur))

  -- The thread wins the slot at the tail.
  Served-wins :
      {lap_of : ℕ → ℕ} {s : Crowd A}
      → Served lap_of s
      → Inv lap_of s
      → Newest lap_of s
      → (i : ℕ) (b p : PushPc A) (t : ℕ) → s.pc i ≡ b
      → (stage b ≡ 2) × (links b ≡ 0)
      → tail_of b ≡ s.queue.tail.index
      → (s.queue.tail.index / 2 % 32 ≢ 31) × (t ≡ s.queue.tail.index + 2)
      → chunk_of b ≢ 0
      → (3 ≤ stage p) × (tail_of p ≡ tail_of b) × (chunk_of p ≡ chunk_of b)
      → (s.queue.tail.index / 2 % 32 ≡ 30 → links p ≡ 1)
      → Served lap_of (go s (record s.queue { tail = record s.queue.tail { index = t } }) i p)
  Served-wins {lap_of} {s} v inv w i b p t at st tl spot ne new last =
      Served-push v lap_of (record s.queue { tail = record s.queue.tail { index = t } }) i b p at
        (λ c n. Ages-eq s.queue.heap s.queue.heap c refl)
        (λ c o n le lt. elim (ℕ_discrete (32 * (lap_of c - 1) + o) (s.queue.tail.index / 2)) [
          | yes here ↦ inl (
            new.0,
            omega (arith, new.1, tl, here),
            new.2 ∙ wins-chunk inv w i b at st.0 tl spot.0 ne c (omega (arith, here, n)),
          )
          | no far ↦ inr (refl, omega (arith, far, lt, spot.1))
        ])
        (λ c n le. elim (ℕ_discrete (32 * lap_of c) (s.queue.tail.index / 2 + 2)) [
          | yes here ↦ inl (
            last (omega (arith, here)),
            new.2 ∙ wins-chunk inv w i b at st.0 tl spot.0 ne c (omega (arith, here, n)),
          )
          | no far ↦ inr (refl, omega (arith, far, le, spot.1))
        ])
        (λ c o t n le here z f. absurd (omega (arith, st, f)))
        (λ c z f. absurd (omega (arith, st, f)))

  pub PushStep-Served :
      {lap_of : ℕ → ℕ} {i : ℕ} {s t : Crowd A}
      → (st : PushStep s i t) → s.queue.tail.index + 4 < 2 ^ 64
      → Inv lap_of s
      → Ahead lap_of s
      → Newest lap_of s
      → Served lap_of s
      → Served (grow lap_of st) t
  PushStep-Served {i = i} {s} (Pushes.calls x at) lt inv a w v =
      Served-early v s.queue i idle (half x none s.queue.tail.index) at refl (omega arith, refl)
        (λ c ne. refl)
  PushStep-Served {i = i} {s} (Pushes.loads x n t at) lt inv a w v =
      Served-early v s.queue i (half x n t)
        (looped x (record { tail = t; chunk = s.queue.tail.chunk; next_chunk = n })) at refl
        (omega arith, refl) (λ c ne. refl)
  PushStep-Served {i = i} {s} (Pushes.naps x l at o) lt inv a w v =
      Served-early v s.queue i (looped x l) (half x l.next_chunk s.queue.tail.index) at refl
        (omega arith, refl) (λ c ne. refl)
  PushStep-Served {i = i} {s} (Pushes.fails x l at r n) lt inv a w v =
      Served-early v s.queue i (looped x l) (half x l.next_chunk s.queue.tail.index) at refl
        (omega arith, refl) (λ c ne. refl)
  PushStep-Served {lap_of} {i} {s} (Pushes.reserves x l at o n) lt inv a w v =
      Served-early v (alloc s.queue) i (looped x l)
        (looped x (record l { next_chunk = some s.queue.fresh })) at refl (omega arith, refl)
        (λ c ne. alloc-heap s.queue c (λ z. ne (inv.shared.unlinked c (omega (arith, z)))))
  PushStep-Served {lap_of} {i} {s} (Pushes.installs x l at r n none_yet) lt inv a w v =
      let zero = inv.shared.unset none_yet in
      let lap' = update lap_of s.queue.fresh 1 in
      Served-push v lap' (put_first s.queue) i (looped x l)
        (heading x (record l { chunk = s.queue.fresh })) at
        (λ c ne.
          Ages-eq s.queue.heap (alloc s.queue).heap c
            (alloc-heap s.queue c (λ z. ne (inv.shared.unlinked c (omega (arith, z))))))
        (λ c o ne le lt'. absurd (omega (arith, zero, lt')))
        (λ c ne le. absurd (omega (arith, zero, le, ne)))
        (λ c o t ne le here z f. absurd (omega (arith, f))) (λ c z f. absurd (omega (arith, f)))
  PushStep-Served {lap_of} {i} {s} (Pushes.install_fails x l q at r n set_yet d) lt inv a w v =
      let fit : Fits lap_of s.queue.tail.index s.queue.tail.chunk s.queue.fresh (looped x l) =
        rw (← at) (inv.fits i) in
      Served-early v q i (looped x l) (half x (some s.queue.fresh) q.tail.index) at
        (ap (λ z. z.index) (drop_box-Same (alloc s.queue) l.next_chunk q d).0) (omega arith, refl)
        (λ c ne.
          drop_box-heap (alloc s.queue) l.next_chunk q d c (λ z. ne (fit.spares c z).0)
          ∙ alloc-heap s.queue c (λ z. ne (inv.shared.unlinked c (omega (arith, z)))))
  PushStep-Served {i = i} {s} (Pushes.heads x l at) lt inv a w v =
      Served-early v (record s.queue { head = record s.queue.head { chunk = l.chunk } }) i
        (heading x l) (looped x l) at refl (omega arith, refl) (λ c ne. refl)
  PushStep-Served {i = i} {s} (Pushes.wins x l at r n e o) lt inv a w v =
      Served-wins v inv w i (looped x l) (writing x l) (word (l.tail + 2)) at (refl, refl) (sym e)
        (rw e r.0, omega (arith, e)) n (omega arith, refl, refl)
        (λ z. absurd (o (omega (arith, z, e))))
  PushStep-Served {i = i} {s} (Pushes.wins_last x l p at r n e o b) lt inv a w v =
      Served-wins v inv w i (looped x l) (set_chunk x l p) (word (l.tail + 2)) at (refl, refl)
        (sym e) (rw e r.0, omega (arith, e)) n (omega arith, refl, refl) (λ z. refl)
  PushStep-Served {lap_of} {i} {s} (Pushes.sets_chunk x l p at) lt inv a w v =
      let fit : Fits lap_of s.queue.tail.index s.queue.tail.chunk s.queue.fresh (set_chunk x l p) =
        rw (← at) (inv.fits i) in
      let last = fit.closes refl in
      let n = s.queue.tail.index / 64 + 2 in
      let new = update_self lap_of p n in
      Served-push v (update lap_of p n)
        (record s.queue { tail = record s.queue.tail { chunk = p } }) i (set_chunk x l p)
        (set_index x l p) at (λ c ne. Ages-eq s.queue.heap s.queue.heap c refl)
        (λ c o ne le lt'. elim (ℕ_discrete p c) [
          | yes same ↦ absurd (omega (arith, new, ap (update lap_of p n) same, lt'))
          | no far ↦ inr (sym (update_ne lap_of p n c far), lt')
        ])
        (λ c ne le. elim (ℕ_discrete p c) [
          | yes same ↦ absurd (omega (arith, new, ap (update lap_of p n) same, le))
          | no far ↦ inr (sym (update_ne lap_of p n c far), le)
        ])
        (λ c o t ne le here z f. (omega arith, f.1, f.2)) (λ c z f. (refl, f.1))
  PushStep-Served {lap_of} {i} {s} (Pushes.sets_index x l p at) lt inv a w v =
      let fit : Fits lap_of s.queue.tail.index s.queue.tail.chunk s.queue.fresh (set_index x l p) =
        rw (← at) (inv.fits i) in
      let last = fit.moves refl in
      Served-push v lap_of
        (record s.queue { tail = record s.queue.tail { index = word (word (l.tail + 2) + 2) } }) i
        (set_index x l p) (set_link x l p) at (λ c ne. Ages-eq s.queue.heap s.queue.heap c refl)
        (λ c o ne le lt'. inr (refl, omega (arith, last, le, lt', ne)))
        (λ c ne le. inr (refl, omega (arith, last, le, ne)))
        (λ c o t ne le here z f. (omega arith, f.1, f.2)) (λ c z f. (refl, f.1))
  PushStep-Served {lap_of} {i} {s} (Pushes.sets_link x l p q at e) lt inv a w v =
      let same = link_chunk-Same s.queue l.chunk p q e in
      let owes : Owes lap_of s.queue (set_link x l p) = rw (← at) (a.owes i) in
      let ne : p ≢ 0 = λ z. omega (arith, (owes.linking p refl).0, ap lap_of z, w.zero) in
      let tl = ap (λ z. z.index) same.0 in
      Served-push v lap_of q i (set_link x l p) (writing x (record l { next_chunk = none })) at
        (λ c n. Ages-link_chunk s.queue l.chunk p q e ne c)
        (λ c o n le lt'. inr (refl, omega (arith, lt', tl)))
        (λ c n le. inr (refl, omega (arith, le, tl)))
        (λ c o t n le here z f. (omega arith, f.1, f.2))
        (λ c z f.
          absurd (ne (some_ptr p 0 (sym (link_chunk-next s.queue l.chunk p q e) ∙ rw f.1 z))))
  PushStep-Served {lap_of} {i} {s} (Pushes.writes x l old q at e) lt inv a w v =
      let f : Slot A → Slot A = λ t. record t { value = some x } in
      let same = change_slot-Same s.queue l.chunk (offset_of l) f old q e in
      let tl = ap (λ z. z.index) same.0 in
      Served-push v lap_of q i (writing x l) (marking l) at
        (λ c n. Ages-change_slot s.queue l.chunk (offset_of l) f old q e (λ z. z) c)
        (λ c o n le lt'. inr (refl, omega (arith, lt', tl)))
        (λ c n le. inr (refl, omega (arith, le, tl)))
        (λ c o t n le here z f. (omega arith, f.1, f.2)) (λ c z f. absurd (omega (arith, f)))
  PushStep-Served {lap_of} {i} {s} (Pushes.marks l old q r at e d) lt inv a w v =
      let f : Slot A → Slot A = λ t. record t { write = true } in
      let fit : Fits {A = A} lap_of s.queue.tail.index s.queue.tail.chunk s.queue.fresh
          (marking l) =
        rw (← at) (inv.fits i) in
      let claim = fit.claims (omega arith) in
      let first = change_slot-Same s.queue l.chunk (offset_of l) f old q e in
      let tl = ap (λ z. z.index) ((drop_box-Same q l.next_chunk r d).0 ∙ first.0) in
      let kept : (c : Ptr) → lap_of c ≢ 0 → r.heap c ≡ q.heap c =
        λ c ne. drop_box-heap q l.next_chunk r d c (λ z. ne (fit.spares c z).0) in
      Served-push v lap_of r i (marking l) idle at
        (λ c ne.
          Ages-trans s.queue.heap q.heap r.heap c
            (Ages-change_slot s.queue l.chunk (offset_of l) f old q e (λ z. cc) c)
            (Ages-eq q.heap r.heap c (kept c ne)))
        (λ c o n le lt'. inr (refl, omega (arith, lt', tl)))
        (λ c n le. inr (refl, omega (arith, le, tl)))
        (λ c o t ne le here z g.
          let off : o ≡ offset_of l = omega (arith, claim, g, le, ap lap_of g.2, ne) in
          let there : slot_in (q.heap l.chunk) (offset_of l) ≡ some t =
            rw (g.2, ← off, ← kept c ne) here in
          let set =
            ap (λ y. y.write) (change_slot-now s.queue l.chunk (offset_of l) f old q e t there) in
          cc)
        (λ c z f. absurd (omega (arith, f)))
