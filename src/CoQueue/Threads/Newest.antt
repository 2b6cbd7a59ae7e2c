-- ===== src/CoQueue/Threads/Newest.antt =====
-- src/lockless_queue.rs, `CoQueue::push` by many threads: the chunk of the tail is the newest one.
use native.Mathlib.Decide.{ℕ_discrete}
use co_queue.Base.{
  ℕ, ◌+◌, ◌/◌, ◌%◌, ◌≤◌, ◌<◌, ◌^◌, ◌≡◌, ◌≢◌, true, refl, sym, ap, ◌∙◌, none, some, update,
  update_self, update_ne, arith,
}
use co_queue.CoQueue.Chunk.{Ptr}
use co_queue.CoQueue.State.{CoQueue, word, alloc}
use co_queue.CoQueue.Threads.{
  PushPc, idle, half, looped, heading, set_chunk, set_index, set_link, writing, marking, Crowd, go,
  offset_of,
}
use co_queue.CoQueue.Threads.Pushes
use co_queue.CoQueue.Threads.Pushes.{PushStep, put_first}
use co_queue.CoQueue.Threads.Invariant.{stage, tail_of, chunk_of, Fits, Inv}
use co_queue.CoQueue.Threads.Alone.{change_slot-Same, drop_box-Same, link_chunk-Same}
use co_queue.CoQueue.Threads.Reached.{grow}

module _ {ℓ} {A : Type ℓ} where
  -- The laps of the chunks differ, and that of the tail's chunk is the last.
  pub record Newest (lap_of : ℕ → ℕ) (s : Crowd A) : Type 0 where
    pub zero : lap_of 0 ≡ 0
    pub bound : (c : Ptr) → lap_of c ≤ lap_of s.queue.tail.chunk
    pub once : (c d : Ptr) → lap_of c ≡ lap_of d → lap_of c ≢ 0 → c ≡ d
    pub closing :
        (k : ℕ) → stage (s.pc k) ≡ 3 → lap_of s.queue.tail.chunk ≡ tail_of (s.pc k) / 64 + 1

  -- A thread that has claimed a slot has done so in a chunk, so that the tail has one.
  pub Newest-set :
      {lap_of : ℕ → ℕ} {s : Crowd A}
      → Newest lap_of s
      → Inv lap_of s
      → (k : ℕ) → 3 ≤ stage (s.pc k)
      → s.queue.tail.chunk ≢ 0
  Newest-set {lap_of} {s} w inv k late e =
      omega (arith, (inv.fits k).claims late, w.bound (chunk_of (s.pc k)), w.zero, ap lap_of e)

  -- The tail keeps its chunk.
  Newest-go :
      {lap_of : ℕ → ℕ} {s : Crowd A}
      → Newest lap_of s
      → (q : CoQueue A) (i : ℕ) (p : PushPc A) → q.tail.chunk ≡ s.queue.tail.chunk
      → (stage p ≡ 3 → lap_of s.queue.tail.chunk ≡ tail_of p / 64 + 1)
      → Newest lap_of (go s q i p)
  Newest-go {lap_of} {s} w q i p same me = record {
    zero = w.zero;
    bound = λ c. rw same (w.bound c);
    once = w.once;
    closing = λ k. elim (ℕ_discrete i k) [
      | yes here ↦ rw (← here, update_self s.pc i p, same) me
      | no other ↦ rw (update_ne s.pc i p k other, same) (w.closing k)
    ];
  }

  -- The tail gets a chunk of a later lap.
  Newest-link :
      {lap_of : ℕ → ℕ} {s : Crowd A}
      → Newest lap_of s
      → (c : Ptr) (v : ℕ) (q : CoQueue A) (i : ℕ) (p : PushPc A) → c ≢ 0
      → lap_of s.queue.tail.chunk < v
      → q.tail.chunk ≡ c
      → stage p ≢ 3
      → ((k : ℕ) → i ≢ k → stage (s.pc k) ≢ 3)
      → Newest (update lap_of c v) (go s q i p)
  Newest-link {lap_of} {s} w c v q i p ne lt to early others =
      let lap' = update lap_of c v in
      let last : lap' q.tail.chunk ≡ v = rw to (update_self lap_of c v) in
      let old : (d : Ptr) → c ≢ d → lap' d ≤ lap_of s.queue.tail.chunk =
        λ d far. rw (update_ne lap_of c v d far) (w.bound d) in
      record {
        zero = update_ne lap_of c v 0 ne ∙ w.zero;
        bound = λ d. elim (ℕ_discrete c d) [
          | yes same ↦ rw (← same, last, update_self lap_of c v) (omega arith)
          | no far ↦ omega (arith, old d far, last)
        ];
        once = λ d e z nz. elim (ℕ_discrete c d) [
          | yes same ↦ elim (ℕ_discrete c e) [
            | yes also ↦ sym same ∙ also
            | no far ↦ absurd (omega (arith, old e far, ap lap' same, update_self lap_of c v, z))
          ]
          | no far ↦ elim (ℕ_discrete c e) [
            | yes also ↦ absurd (omega (arith, old d far, ap lap' also, update_self lap_of c v, z))
            | no away ↦
                w.once d e (sym (update_ne lap_of c v d far) ∙ z ∙ update_ne lap_of c v e away)
                  (λ y. nz (update_ne lap_of c v d far ∙ y))
          ]
        ];
        closing = λ k at. elim (ℕ_discrete i k) [
          | yes here ↦ absurd (early (rw (← here, update_self s.pc i p) at at))
          | no other ↦ absurd (others k other (sym (ap stage (update_ne s.pc i p k other)) ∙ at))
        ];
      }

  Newest-same :
      {lap_of : ℕ → ℕ} {s : Crowd A}
      → Newest lap_of s
      → (q : CoQueue A) (i : ℕ) (p : PushPc A) → q.tail.chunk ≡ s.queue.tail.chunk
      → stage p ≢ 3
      → Newest lap_of (go s q i p)
  Newest-same w q i p same ne = Newest-go w q i p same (λ e. absurd (ne e))

  pub PushStep-Newest :
      {lap_of : ℕ → ℕ} {i : ℕ} {s t : Crowd A}
      → (st : PushStep s i t) → s.queue.tail.index + 4 < 2 ^ 64
      → Inv lap_of s
      → Newest lap_of s
      → Newest (grow lap_of st) t
  PushStep-Newest {i = i} {s} (Pushes.calls x at) lt inv w =
      Newest-same w s.queue i (half x none s.queue.tail.index) refl (omega arith)
  PushStep-Newest {i = i} {s} (Pushes.loads x n t at) lt inv w =
      Newest-same w s.queue i
        (looped x (record { tail = t; chunk = s.queue.tail.chunk; next_chunk = n })) refl
        (omega arith)
  PushStep-Newest {i = i} {s} (Pushes.naps x l at o) lt inv w =
      Newest-same w s.queue i (half x l.next_chunk s.queue.tail.index) refl (omega arith)
  PushStep-Newest {i = i} {s} (Pushes.fails x l at r n) lt inv w =
      Newest-same w s.queue i (half x l.next_chunk s.queue.tail.index) refl (omega arith)
  PushStep-Newest {i = i} {s} (Pushes.reserves x l at o n) lt inv w =
      Newest-same w (alloc s.queue) i (looped x (record l { next_chunk = some s.queue.fresh })) refl
        (omega arith)
  PushStep-Newest {lap_of} {i} {s} (Pushes.installs x l at r n none_yet) lt inv w =
      Newest-link w s.queue.fresh 1 (put_first s.queue) i
        (heading x (record l { chunk = s.queue.fresh })) (omega (arith, inv.shared.some_fresh))
        (omega (arith, ap lap_of none_yet, w.zero)) refl (omega arith)
        (λ k ne at'. Newest-set w inv k (omega (arith, at')) none_yet)
  PushStep-Newest {i = i} {s} (Pushes.install_fails x l q at r n set_yet d) lt inv w =
      Newest-same w q i (half x (some s.queue.fresh) q.tail.index)
        (ap (λ z. z.chunk) (drop_box-Same (alloc s.queue) l.next_chunk q d).0) (omega arith)
  PushStep-Newest {i = i} {s} (Pushes.heads x l at) lt inv w =
      Newest-same w (record s.queue { head = record s.queue.head { chunk = l.chunk } }) i
        (looped x l) refl (omega arith)
  PushStep-Newest {i = i} {s} (Pushes.wins x l at r n e o) lt inv w =
      Newest-same w (record s.queue { tail = record s.queue.tail { index = word (l.tail + 2) } }) i
        (writing x l) refl (omega arith)
  PushStep-Newest {lap_of} {i} {s} (Pushes.wins_last x l p at r n e o b) lt inv w =
      let fit : Fits lap_of s.queue.tail.index s.queue.tail.chunk s.queue.fresh (looped x l) =
        rw (← at) (inv.fits i) in
      let spot : s.queue.tail.index / 2 % 32 ≢ 31 = rw e r.0 in
      let same = fit.looks refl (sym e) spot n in
      Newest-go w (record s.queue { tail = record s.queue.tail { index = word (l.tail + 2) } }) i
        (set_chunk x l p) refl (λ z. omega (arith, inv.shared.current (λ y. n (same ∙ y)) spot, e))
  PushStep-Newest {lap_of} {i} {s} (Pushes.sets_chunk x l p at) lt inv w =
      let fit : Fits lap_of s.queue.tail.index s.queue.tail.chunk s.queue.fresh (set_chunk x l p) =
        rw (← at) (inv.fits i) in
      let last : lap_of s.queue.tail.chunk ≡ l.tail / 64 + 1 =
        rw (← ap tail_of at) (w.closing i (ap stage at)) in
      Newest-link w p (s.queue.tail.index / 64 + 2)
        (record s.queue { tail = record s.queue.tail { chunk = p } }) i (set_index x l p)
        (omega (arith, fit.spares p refl)) (omega (arith, fit.closes refl, last)) refl (omega arith)
        (λ k ne at'.
          (inv.apart i k ne).slots (omega (arith, ap stage at)) (omega (arith, at'))
            (omega (arith, ap tail_of at, fit.closes refl, (inv.fits k).closes at')))
  PushStep-Newest {i = i} {s} (Pushes.sets_index x l p at) lt inv w =
      Newest-same w
        (record s.queue { tail = record s.queue.tail { index = word (word (l.tail + 2) + 2) } }) i
        (set_link x l p) refl (omega arith)
  PushStep-Newest {i = i} {s} (Pushes.sets_link x l p q at e) lt inv w =
      Newest-same w q i (writing x (record l { next_chunk = none }))
        (ap (λ z. z.chunk) (link_chunk-Same s.queue l.chunk p q e).0) (omega arith)
  PushStep-Newest {i = i} {s} (Pushes.writes x l old q at e) lt inv w =
      Newest-same w q i (marking l)
        (ap (λ z. z.chunk)
          (change_slot-Same s.queue l.chunk (offset_of l) (λ t. record t { value = some x }) old q
            e).0)
        (omega arith)
  PushStep-Newest {i = i} {s} (Pushes.marks l old q r at e d) lt inv w =
      let first =
        change_slot-Same s.queue l.chunk (offset_of l) (λ t. record t { write = true }) old q e in
      Newest-same w r i idle (ap (λ z. z.chunk) ((drop_box-Same q l.next_chunk r d).0 ∙ first.0))
        (omega arith)
