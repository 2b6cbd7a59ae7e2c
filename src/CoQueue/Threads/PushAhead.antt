-- ===== src/CoQueue/Threads/PushAhead.antt =====
-- src/lockless_queue.rs, `CoQueue::push` by many threads: every access keeps the head in order.
use co_queue.Base.{
  ℕ, ◌+◌, ◌/◌, ◌^◌, ◌<◌, ◌≡◌, refl, sym, ap, ◌∙◌, true, none, some, update, update_self, update_ne,
  arith,
}
use co_queue.CoQueue.Chunk.{Ptr, Slot}
use co_queue.CoQueue.State.{word, CoQueue, alloc}
use co_queue.CoQueue.Threads.{
  PushPc, idle, half, looped, heading, set_chunk, set_index, set_link, writing, marking, Crowd,
  offset_of, go,
}
use co_queue.CoQueue.Threads.Pushes
use co_queue.CoQueue.Threads.Pushes.{PushStep, put_first, link_chunk}
use co_queue.CoQueue.Threads.Invariant.{Fits, Inv}
use co_queue.CoQueue.Threads.Alone.{change_slot-Same, drop_box-Same, link_chunk-Same}
use co_queue.CoQueue.Threads.Reached.{grow}
use co_queue.CoQueue.Threads.Ahead.{heads, link_of, Links, Owes, Ahead}
use co_queue.CoQueue.Threads.Links.{
  Extends, Links-Extends, Links-alloc, Links-drop_box, Links-change_slot, Links-link_chunk,
}
use co_queue.CoQueue.Threads.Shifts.{Ahead-push, Ahead-heads}

Extends-refl : (lap_of : ℕ → ℕ) → Extends lap_of lap_of
Extends-refl lap_of c ne = refl

pub Extends-update :
    (lap_of : ℕ → ℕ) (p : Ptr) (v : ℕ) → lap_of p ≡ 0 → Extends lap_of (update lap_of p v)
Extends-update lap_of p v e = λ c ne. update_ne lap_of p v c (λ z. ne (ap lap_of (sym z) ∙ e))

some_of : (c d : Ptr) → some c ≡ some d → c ≡ d
some_of c d e = cc

module _ {ℓ} {A : Type ℓ} where
  -- A thread that neither heads nor links owes nothing.
  Owes-none :
      (lap_of : ℕ → ℕ) (q : CoQueue A) (p : PushPc A)
      → heads p ≡ 0
      → link_of p ≡ none
      → Owes lap_of q p
  Owes-none lap_of q p h l = record { first = λ x. absurd (omega (arith, h)); linking = λ c e. cc }

  -- The tail, the head and the links stay, and the thread owes nothing after the access.
  Ahead-still :
      {lap_of : ℕ → ℕ} {s : Crowd A}
      → Ahead lap_of s
      → (q : CoQueue A) (i : ℕ) (p : PushPc A) → q.head ≡ s.queue.head
      → q.tail ≡ s.queue.tail
      → Links lap_of s.queue.tail.index q.heap
      → (heads p ≡ 0) × (link_of p ≡ none)
      → Ahead lap_of (go s q i p)
  Ahead-still {lap_of} {s} a q i p hd tl links idle_now =
      Ahead-push a lap_of q i p (Extends-refl lap_of) hd (rw tl (omega arith)) (rw tl (λ x. x))
        (rw tl links) (Owes-none lap_of q p idle_now.0 idle_now.1)
        (λ x. absurd (omega (arith, idle_now.0)))

  pub PushStep-Ahead :
      {lap_of : ℕ → ℕ} {i : ℕ} {s t : Crowd A}
      → (st : PushStep s i t) → s.queue.tail.index + 4 < 2 ^ 64
      → Inv lap_of s
      → Ahead lap_of s
      → Ahead (grow lap_of st) t
  PushStep-Ahead {lap_of} {i} {s} (Pushes.calls x at) lt inv a =
      Ahead-still a s.queue i (half x none s.queue.tail.index) refl refl a.head.links (refl, refl)
  PushStep-Ahead {lap_of} {i} {s} (Pushes.loads x n t at) lt inv a =
      Ahead-still a s.queue i
        (looped x (record { tail = t; chunk = s.queue.tail.chunk; next_chunk = n })) refl refl
        a.head.links (refl, refl)
  PushStep-Ahead {lap_of} {i} {s} (Pushes.naps x l at o) lt inv a =
      Ahead-still a s.queue i (half x l.next_chunk s.queue.tail.index) refl refl a.head.links
        (refl, refl)
  PushStep-Ahead {lap_of} {i} {s} (Pushes.reserves x l at o n) lt inv a =
      Ahead-still a (alloc s.queue) i (looped x (record l { next_chunk = some s.queue.fresh })) refl
        refl (Links-alloc lap_of s.queue.tail.index s.queue a.head.links) (refl, refl)
  PushStep-Ahead {lap_of} {i} {s} (Pushes.installs x l at r n none_yet) lt inv a =
      let ext =
        Extends-update lap_of s.queue.fresh 1 (inv.shared.unlinked s.queue.fresh (omega arith)) in
      Ahead-push a (update lap_of s.queue.fresh 1) (put_first s.queue) i
        (heading x (record l { chunk = s.queue.fresh })) ext refl (omega arith) (λ z. none_yet)
        (Links-Extends lap_of (update lap_of s.queue.fresh 1) s.queue.tail.index s.queue.tail.index
          (alloc s.queue).heap ext (omega arith)
          (Links-alloc lap_of s.queue.tail.index s.queue a.head.links))
        (record {
          first = λ z. (
            a.head.follows none_yet,
            update_self lap_of s.queue.fresh 1,
            λ e. omega (arith, inv.shared.some_fresh),
          );
          linking = λ c e. cc;
        })
        (λ z. none_yet)
  PushStep-Ahead {lap_of} {i} {s} (Pushes.install_fails x l q at r n set_yet d) lt inv a =
      let same = drop_box-Same (alloc s.queue) l.next_chunk q d in
      Ahead-still a q i (half x (some s.queue.fresh) q.tail.index) same.2 same.0
        (Links-drop_box lap_of s.queue.tail.index (alloc s.queue) l.next_chunk q d
          (Links-alloc lap_of s.queue.tail.index s.queue a.head.links))
        (refl, refl)
  PushStep-Ahead {lap_of} {i} {s} (Pushes.heads x l at) lt inv a =
      Ahead-heads a i (looped x l) l.chunk (rw at refl) (rw at refl) refl refl
  PushStep-Ahead {lap_of} {i} {s} (Pushes.wins x l at r n e o) lt inv a =
      let q = record s.queue { tail = record s.queue.tail { index = word (l.tail + 2) } } in
      Ahead-push a lap_of q i (writing x l) (Extends-refl lap_of) refl (omega arith) (λ z. z)
        (Links-Extends lap_of lap_of s.queue.tail.index q.tail.index s.queue.heap
          (Extends-refl lap_of) (omega arith) a.head.links)
        (Owes-none lap_of q (writing x l) refl refl) (λ z. absurd (omega arith))
  PushStep-Ahead {lap_of} {i} {s} (Pushes.wins_last x l p at r n e o b) lt inv a =
      let q = record s.queue { tail = record s.queue.tail { index = word (l.tail + 2) } } in
      Ahead-push a lap_of q i (set_chunk x l p) (Extends-refl lap_of) refl (omega arith) (λ z. z)
        (Links-Extends lap_of lap_of s.queue.tail.index q.tail.index s.queue.heap
          (Extends-refl lap_of) (omega arith) a.head.links)
        (Owes-none lap_of q (set_chunk x l p) refl refl) (λ z. absurd (omega arith))
  PushStep-Ahead {lap_of} {i} {s} (Pushes.fails x l at r n) lt inv a =
      Ahead-still a s.queue i (half x l.next_chunk s.queue.tail.index) refl refl a.head.links
        (refl, refl)
  PushStep-Ahead {lap_of} {i} {s} (Pushes.sets_chunk x l p at) lt inv a =
      let me : Fits lap_of s.queue.tail.index s.queue.tail.chunk s.queue.fresh (set_chunk x l p) =
        rw (← at) (inv.fits i) in
      let mine = me.spares p refl in
      let full = me.closes refl in
      let lap' : ℕ → ℕ = update lap_of p (s.queue.tail.index / 64 + 2) in
      let ext : Extends lap_of lap' =
        Extends-update lap_of p (s.queue.tail.index / 64 + 2) mine.0 in
      Ahead-push a lap' (record s.queue { tail = record s.queue.tail { chunk = p } }) i
        (set_index x l p) ext refl (omega arith) (λ z. absurd (mine.2 z))
        (Links-Extends lap_of lap' s.queue.tail.index s.queue.tail.index s.queue.heap ext
          (omega arith) a.head.links)
        (record {
          first = λ z. absurd (omega arith);
          linking = λ c e. (
            ap lap' (some_of c p (sym e))
                ∙ update_self lap_of p (s.queue.tail.index / 64 + 2)
                ∙ omega (arith, full),
            λ z. absurd (omega arith),
          );
        })
        (λ z. absurd (omega arith))
  PushStep-Ahead {lap_of} {i} {s} (Pushes.sets_index x l p at) lt inv a =
      let me : Fits lap_of s.queue.tail.index s.queue.tail.chunk s.queue.fresh (set_index x l p) =
        rw (← at) (inv.fits i) in
      let owe : Owes lap_of s.queue (set_index x l p) = rw (← at) (a.owes i) in
      let full = me.moves refl in
      let q = record s.queue {
        tail = record s.queue.tail { index = word (word (l.tail + 2) + 2) };
      } in
      Ahead-push a lap_of q i (set_link x l p) (Extends-refl lap_of) refl (omega (arith, full))
        (λ z. z)
        (Links-Extends lap_of lap_of s.queue.tail.index q.tail.index s.queue.heap
          (Extends-refl lap_of) (omega (arith, full)) a.head.links)
        (record {
          first = λ z. absurd (omega arith);
          linking = λ c e. ((owe.linking c e).0, λ z. omega (arith, full));
        })
        (λ z. absurd (omega arith))
  PushStep-Ahead {lap_of} {i} {s} (Pushes.sets_link x l p q at e) lt inv a =
      let me : Fits lap_of s.queue.tail.index s.queue.tail.chunk s.queue.fresh (set_link x l p) =
        rw (← at) (inv.fits i) in
      let owe : Owes lap_of s.queue (set_link x l p) = rw (← at) (a.owes i) in
      let claim = me.claims (omega arith) in
      let due = owe.linking p refl in
      let same = link_chunk-Same s.queue l.chunk p q e in
      Ahead-still a q i (writing x (record l { next_chunk = none })) same.2 same.0
        (Links-link_chunk lap_of s.queue.tail.index s.queue l.chunk p q e
          (λ z. omega (arith, claim, z), omega (arith, claim, due), omega (arith, due, due.1 refl))
          a.head.links)
        (refl, refl)
  PushStep-Ahead {lap_of} {i} {s} (Pushes.writes x l old q at e) lt inv a =
      let f : Slot A → Slot A = λ t. record t { value = some x } in
      let same = change_slot-Same s.queue l.chunk (offset_of l) f old q e in
      Ahead-still a q i (marking l) same.2 same.0
        (Links-change_slot lap_of s.queue.tail.index s.queue l.chunk (offset_of l) f old q e
          a.head.links)
        (refl, refl)
  PushStep-Ahead {lap_of} {i} {s} (Pushes.marks l old q r at e d) lt inv a =
      let f : Slot A → Slot A = λ t. record t { write = true } in
      let first = change_slot-Same s.queue l.chunk (offset_of l) f old q e in
      let same = drop_box-Same q l.next_chunk r d in
      Ahead-still a r i idle (same.2 ∙ first.2) (same.0 ∙ first.0)
        (Links-drop_box lap_of s.queue.tail.index q l.next_chunk r d (
          Links-change_slot lap_of s.queue.tail.index s.queue l.chunk (offset_of l) f old q e
            a.head.links))
        (refl, refl)
