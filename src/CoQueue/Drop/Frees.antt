-- ===== src/CoQueue/Drop/Frees.antt =====
-- The `Drop` of `CoQueue` in src/lockless_queue.rs ends, drops every value that the queue holds, in order,
-- and frees its chunks.
use co_queue.Base.{
  ℕ, zero, suc, ◌+◌, ◌-◌, ◌*◌, ◌/◌, ◌%◌, ◌^◌, ◌≤◌, ◌<◌, ◌≡◌, refl, sym, ap, ◌∙◌, Bool, false, ◌||◌,
  none, some, List, [], ◌∷◌, append-nil, arith, ◌==◌, ne→==, length, if◌then◌else◌, update,
  update_ne, replicate,
}
use co_queue.Base.Outcome.{done}
use co_queue.CoQueue.Chunk.{Ptr, null, Chunk, Heap, empty_slot}
use co_queue.CoQueue.State.{CoQueue, position}
use co_queue.CoQueue.Drop.{drop_loop, drop}
use co_queue.CoQueue.Chain.{Chain, last, more, Chain-le, Chain-frame}
use co_queue.CoQueue.Holds.{Blank, Holds, blank, linked, Linked-length}
use co_queue.CoQueue.Drop.Loop.{prepend, rounds_block, round-lap, round_last}

unfoldable pub mem : ℕ → List ℕ → Bool
mem r [] = false
mem r (p ∷ ps) = p == r || mem r ps

module _ {ℓ} {A : Type ℓ} where
  -- The chunks on the way from `p` over `n` links.
  unfoldable pub chunks : Heap A → (n : ℕ) → Ptr → List Ptr
  chunks heap zero p = p ∷ []
  chunks heap (suc n) p = p ∷ elim (heap p) [ none ↦ [] | some c ↦ chunks heap n c.next ]

  -- The chunks of a queue: none before the first push, then those from the head to the tail.
  unfoldable pub chunks_of : CoQueue A → List Ptr
  unfolding chunks
  chunks_of q =
      if q.head.chunk == null
      then []
      else chunks q.heap (position q.tail.index / 32 - position q.head.index / 32) q.head.chunk

  chunks-more :
      (heap : Heap A) (n : ℕ) (p : Ptr) (c : Chunk A)
      → heap p ≡ some c
      → chunks heap (suc n) p ≡ p ∷ chunks heap n c.next
  unfolding chunks
  chunks-more heap n p c here = ground (arith, here)

  chunks-frame :
      (heap heap' : Heap A) {tail : Ptr} {j n : ℕ} {p : Ptr} {i : ℕ} {xs : List A}
      → Chain heap tail j n p i xs
      → ((r : Ptr) → p ≤ r → r ≤ tail → heap' r ≡ heap r)
      → chunks heap' n p ≡ chunks heap n p
  unfolding chunks
  chunks-frame heap heap' (last e b) same = refl
  chunks-frame heap heap' {n = suc n} {p = p} (more next xs ys b lt c e) same =
      let there = same p (omega arith) (omega (arith, Chain-le c)) ∙ b.here in
      let rest = chunks-frame heap heap' c (λ r above below. same r (omega arith) below) in
      let rest' : chunks heap' n b.chunk.next ≡ chunks heap n b.chunk.next = rw b.link rest in
      chunks-more heap' n p b.chunk there
      ∙ ap (λ ps. p ∷ ps) rest'
      ∙ sym (chunks-more heap n p b.chunk b.here)

  freed_first :
      (heap : Heap A) (p r : ℕ) (ps : List ℕ)
      → (if mem r ps then none else update heap p none r)
        ≡ (if mem r (p ∷ ps) then none else heap r)
  unfolding mem
  freed_first heap p r ps = ground arith

  -- The loop from a head inside the first chunk of a chain: `n` chunks are left behind.
  loop-Chain :
      (n fuel h t : ℕ) (q : CoQueue A) {tail : Ptr} {j : ℕ} {p : Ptr} {i : ℕ} {xs : List A}
      → Chain q.heap tail j n p i xs
      → 0 < p
      → h % 32 ≡ i
      → h + 32 * n + j ≡ t + i
      → j < 31
      → 2 * t < 2 ^ 64
      → t < h + fuel
      → (q' : CoQueue A) × (drop_loop fuel (2 * h) (2 * t) p q ≡ done (xs, q'))
        × ((r : ℕ) → q'.heap r ≡ (if mem r (chunks q.heap n p) then none else q.heap r))
  unfolding chunks mem prepend
  loop-Chain zero fuel h t q {p = p} {xs = xs} (last e b) pos offset dist inside small enough =
      let l = b.layout in
      let left = fuel - length xs - 1 in
      let at : h + length xs ≡ t = omega (arith, l.finish) in
      let ran =
        rounds_block xs fuel (suc left) h t p q b.chunk l.past (replicate l.room (empty_slot A))
          (omega (arith, l.finish)) b.here l.shape (omega (arith, l.start))
          (omega (arith, l.start, l.finish, l.total)) (omega arith) small in
      (
        record q { heap = update q.heap p none },
        ran ∙ rw (at, round_last left t p q b.chunk pos b.here, append-nil) refl,
        λ r. ground arith,
      )
  loop-Chain (suc n) fuel h t q {tail} {p = p} {i = i} {xs = zs} (more next xs ys b lt c e) pos
        offset dist inside small enough =
      let l = b.layout in
      let q₁ = record q { heap = update q.heap p none } in
      let left = fuel - length xs - 1 in
      let ran =
        rounds_block xs fuel (suc left) h t p q b.chunk l.past (replicate l.room (empty_slot A))
          (omega (arith, l.finish)) b.here l.shape (omega (arith, l.start))
          (omega (arith, l.start, l.finish, l.total)) (omega (arith, l.finish)) small in
      let lap =
        round-lap left (h + length xs) t p q b.chunk (omega (arith, l.finish)) small
          (omega (arith, l.finish)) b.here in
      let apart = λ (r : Ptr) (above : next ≤ r) (below : r ≤ tail).
        update_ne q.heap p none r (omega arith) in
      let (q', rest, freed) =
        loop-Chain n left (h + length xs + 1) t q₁ (Chain-frame q.heap q₁.heap c apart)
          (omega arith) (omega (arith, l.finish)) (omega (arith, l.finish)) inside small
          (omega (arith, l.finish)) in
      let whole : chunks q.heap (suc n) p ≡ p ∷ chunks q₁.heap n next =
        chunks-more q.heap n p b.chunk b.here
        ∙ ap (λ ps. p ∷ ps) (rw b.link (sym (chunks-frame q.heap q₁.heap c apart))) in
      (
        q',
        ran ∙ rw (lap, b.link, rest, e) refl,
        λ r.
            freed r
            ∙ freed_first q.heap p r (chunks q₁.heap n next)
            ∙ ap (λ ps. if mem r ps then none else q.heap r) (sym whole),
      )

  drop-Blank : (q : CoQueue A) → Blank q → drop q ≡ done ([], q)
  unfolding drop drop_loop
  drop-Blank q b = rw (b.head_index, b.tail_index, b.head_chunk) refl

  -- Dropping a queue ends with no fault, drops all values that it holds, first in first out, and frees its
  -- chunks from the head to the tail, and nothing else: the drained chunks that the pops have left stay.
  pub drop-Holds :
      (q : CoQueue A) (xs : List A)
      → Holds q xs
      → (q' : CoQueue A) × (drop q ≡ done (xs, q'))
        × ((r : ℕ) → q'.heap r ≡ (if mem r (chunks_of q) then none else q.heap r))
  unfolding drop chunks_of mem
  drop-Holds q xs (blank b e) = (q, rw e (drop-Blank q b), λ r. rw (b.head_chunk, mem) refl)
  drop-Holds q xs (linked {l} {n} {i} {j} h) =
      let head = position q.head.index in
      let tail = 32 * (l + n) + j in
      let fuel = (2 * tail + 2 ^ 64 - 2 * head) % 2 ^ 64 / 2 + 1 in
      let before : head ≤ tail = omega (arith, h.head_at, Linked-length h) in
      let (q', ran, freed) =
        loop-Chain n fuel head tail q h.chain h.nonnull (omega (arith, h.head_at, h.head_in))
          (omega (arith, h.head_at)) h.tail_in (omega (arith, h.small, h.tail_at))
          (omega (arith, before, h.small, h.tail_at)) in
      let even_head : q.head.index / 2 * 2 ≡ 2 * head = omega arith in
      let even_tail : q.tail.index / 2 * 2 ≡ 2 * tail = omega (arith, h.tail_at) in
      let laps : position q.tail.index / 32 - head / 32 ≡ n =
        omega (arith, h.head_at, h.head_in, h.tail_at, h.tail_in) in
      (
        q',
        rw (even_head, even_tail) ran,
        λ r. rw (ne→== q.head.chunk 0 (omega (arith, h.nonnull)), laps) (freed r),
      )
