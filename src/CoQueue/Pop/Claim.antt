-- ===== src/CoQueue/Pop/Claim.antt =====
-- What `pop` of src/lockless_queue.rs leaves once its exchange has succeeded.
use co_queue.Base.{
  ℕ, suc, ◌+◌, ◌*◌, ◌<◌, ◌≡◌, ◌≢◌, refl, true, false, some, List, [], ◌∷◌, ◌++◌, ◌==◌, eq→==, ne→==,
  if◌then◌else◌, update, update_self, update_ne, arith, Bool-cases, inl, inr,
}
use native.Mathlib.Decide.{dec_lt}
use co_queue.Base.Outcome.{done}
use co_queue.CoQueue.Chunk.{Ptr, null, Heap, Chunk, Slot, full_slot, destroy_slots}
use co_queue.CoQueue.State.{
  word, position, has_next, with_next, without_next, CoQueue, again, returned, store, set_slot,
}
use co_queue.CoQueue.Pop.{reload_head, next_chunk, pop_round}
use co_queue.CoQueue.Pop.Refine.{
  doomed_slot, Ahead, ahead, take_slot-marks, take_slot-dooms, head_offset,
}
use co_queue.CoQueue.Chain.{Chain, last, more, Chain-frame}
use co_queue.CoQueue.Chain.Slots.{read_slot, Layout-read}
use co_queue.CoQueue.Chain.Front.{Front, front, Final, final, destroy_slots-stops}
use co_queue.CoQueue.Holds.{Linked}

-- The queue `q'` after a value was taken from `q`: it holds the other values, its tail has not
-- moved, and every chunk of `q` is still allocated.
pub record Taken {ℓ} {A : Type ℓ} (q q' : CoQueue A) (j : ℕ) (xs : List A) : Type ℓ where
  pub l : ℕ
  pub n : ℕ
  pub i : ℕ
  pub rest : Linked q' l n i j xs
  pub tail : q'.tail ≡ q.tail
  pub kept : (r : Ptr) (c : Chunk A) → q.heap r ≡ some c → (c' : Chunk A) × (q'.heap r ≡ some c')

module _ {ℓ} {A : Type ℓ} where
  -- A write leaves every chunk allocated.
  store-keeps :
      (heap : Heap A) (p : Ptr) (c : Chunk A) (r : Ptr) (d : Chunk A)
      → heap r ≡ some d
      → (c' : Chunk A) × (update heap p (some c) r ≡ some c')
  store-keeps heap p c r d e = elim (Bool-cases (p == r)) [
    | inl same ↦ (c, rw same)
    | inr other ↦ (d, rw other e)
  ]

  -- From the last slot the head moves to the next chunk.
  next_chunk-moves :
      (q : CoQueue A) (p offset new_head next : ℕ) {c d : Chunk A}
      → offset ≡ 30
      → q.heap p ≡ some c
      → c.next ≡ next
      → 0 < next
      → q.heap next ≡ some d
      → next_chunk q p offset new_head
        ≡ done (record q {
          head = record {
            index =
                if d.next == null
                then word (without_next new_head + 2)
                else with_next (word (without_next new_head + 2));
            chunk = next;
          };
        })
  unfolding next_chunk
  next_chunk-moves q p offset new_head next last_slot here link pos there = ground arith

  -- The chunk at the head of a chain, and whether it is linked to another.
  Chain-head :
      {heap : Heap A} {tail : Ptr} {j n : ℕ} {p : Ptr} {i : ℕ} {xs : List A}
      → Chain heap tail j n p i xs
      → (c : Chunk A) × (heap p ≡ some c) × (c.next ≢ null → 0 < n)
  Chain-head (last e b) = (b.chunk, b.here, λ ne. absurd (ne b.link))
  Chain-head (more next xs ys b lt c e) = (b.chunk, b.here, λ _. omega arith)

module _ {ℓ} {A : Type ℓ} {q : CoQueue A} {l n i j : ℕ} {xs : List A} (h : Linked q l n i j xs)
    (x : A) (ys : List A) (e : xs ≡ x ∷ ys) where
  pub new : Ahead q n
  new = ahead h x ys e

  pub first : Front q.heap q.tail.chunk j n q.head.chunk i x ys
  first = front x ys h.head_in h.chain e

  -- The queue after the exchange, and after a slot inside the chunk was taken.
  abbrev claimed : CoQueue A
  claimed = record q { head = record q.head { index = new.index } }

  abbrev taken : CoQueue A
  taken = store claimed q.head.chunk (set_slot first.block.chunk i (read_slot x))

  round_inside : i < 30 → pop_round false (reload_head q) q ≡ done (returned (taken, some x))
  unfolding pop_round next_chunk
  round_inside lt = rw (
    head_offset h,
    ne→== i 31 (omega arith),
    new.eq,
    ne→== q.head.chunk 0 (omega (arith, h.nonnull)),
    eq→== q.head.index q.head.index refl,
    head_offset h,
    ne→== (i + 1) 31 (omega arith),
    take_slot-marks claimed q.head.chunk i x lt first.block.here (Layout-read first.block.layout).0,
  )

  taken-Taken : i < 30 → Taken q taken j ys
  taken-Taken lt = record {
    l = l;
    n = n;
    i = suc i;
    rest = record {
      head_at = omega (arith, new.at, h.head_at);
      flag = new.flag;
      tail_at = h.tail_at;
      head_in = omega arith;
      tail_in = h.tail_in;
      small = h.small;
      chain =
          first.refill taken.heap (λ r ne. update_ne q.heap q.head.chunk _ r ne)
            (record {
              chunk = set_slot first.block.chunk i (read_slot x);
              here = update_self q.heap q.head.chunk _;
              link = first.block.link;
              layout = (Layout-read first.block.layout).1;
            });
      nonnull = h.nonnull;
      below = h.below;
    };
    tail = refl;
    kept = store-keeps q.heap q.head.chunk _;
  }

  module _ (last_slot : i ≡ 30) where
    done_with : Final q.heap q.tail.chunk j n q.head.chunk i x ys
    done_with = final x ys last_slot h.tail_in h.chain e

    next_of :
        (c : Chunk A) × (q.heap done_with.next ≡ some c) × (c.next ≢ null → 0 < done_with.left)
    next_of = Chain-head done_with.chain

    -- The index of the head in the next chunk.
    next_idx : ℕ
    next_idx =
        if next_of.0.next == null
        then word (without_next new.index + 2)
        else with_next (word (without_next new.index + 2))

    abbrev advanced : CoQueue A
    advanced = record q { head = record { index = next_idx; chunk = done_with.next } }

    -- The slots that were read, and the last one, which was not marked.
    abbrev doomed : List (Slot A)
    doomed = done_with.block.layout.past ++ (doomed_slot x ∷ [])

    abbrev left_behind : CoQueue A
    left_behind = store advanced q.head.chunk (record done_with.block.chunk { slots = doomed })

    next_idx_at : (position next_idx ≡ 32 * suc l) × (has_next next_idx ≡ 1 → 0 < done_with.left)
    unfolding next_idx
    next_idx_at =
        let no_wrap : word (without_next new.index + 2) ≡ 2 * (32 * suc l) =
          omega (arith, new.at, h.head_at, h.tail_at, h.small, done_with.laps) in
        elim (Bool-cases (next_of.0.next == null)) [
          | inl none_next ↦ rw (none_next, no_wrap) (omega arith, λ f. absurd (omega arith))
          | inr some_next ↦
              rw (some_next, no_wrap)
                (omega arith, λ f. next_of.2 (λ z. cc (eq→== next_of.0.next null z)))
        ]

    next_chunk-eq : next_chunk claimed q.head.chunk i new.index ≡ done advanced
    unfolding next_idx
    next_chunk-eq =
        next_chunk-moves claimed q.head.chunk i new.index done_with.next last_slot
          done_with.block.here done_with.block.link (omega (arith, done_with.later)) next_of.1

    stops : destroy_slots done_with.block.chunk.slots ≡ (doomed, false)
    stops =
        let no_room : done_with.block.layout.room ≡ 0 =
          omega (arith, done_with.block.layout.total) in
        rw (done_with.block.layout.shape, no_room)
          (destroy_slots-stops done_with.block.layout.past (full_slot x) []
            done_with.block.layout.past_read refl)

    round_last : pop_round false (reload_head q) q ≡ done (returned (left_behind, some x))
    unfolding pop_round
    round_last = rw (
      head_offset h,
      ne→== i 31 (omega arith),
      new.eq,
      ne→== q.head.chunk 0 (omega (arith, h.nonnull)),
      eq→== q.head.index q.head.index refl,
      head_offset h,
      next_chunk-eq,
      take_slot-dooms advanced q.head.chunk i x last_slot done_with.block.here
          (Layout-read done_with.block.layout).0 stops,
    )

    left_behind-Taken : Taken q left_behind j ys
    left_behind-Taken = record {
      l = suc l;
      n = done_with.left;
      i = 0;
      rest = record {
        head_at = omega (arith, next_idx_at.0);
        flag = next_idx_at.1;
        tail_at = omega (arith, h.tail_at, done_with.laps);
        head_in = omega arith;
        tail_in = h.tail_in;
        small = h.small;
        chain =
            Chain-frame q.heap left_behind.heap done_with.chain
              (λ r from to. update_ne q.heap q.head.chunk _ r (omega (arith, done_with.later)));
        nonnull = omega (arith, done_with.later);
        below = h.below;
      };
      tail = refl;
      kept = store-keeps q.heap q.head.chunk _;
    }

  -- A round whose exchange succeeds takes the first value.
  pub takes :
      (q' : CoQueue A) × (pop_round false (reload_head q) q ≡ done (returned (q', some x)))
      × Taken q q' j ys
  takes = elim (dec_lt i 30) [
    | yes lt ↦ (taken, round_inside lt, taken-Taken lt)
    | no not_lt ↦
        let last_slot : i ≡ 30 = omega (arith, h.head_in) in
        (left_behind last_slot, round_last last_slot, left_behind-Taken last_slot)
  ]

  -- A failed exchange changes nothing.
  pub retries : pop_round true (reload_head q) q ≡ done (again (reload_head q) q)
  unfolding pop_round
  retries = rw (
    head_offset h,
    ne→== i 31 (omega (arith, h.head_in)),
    new.eq,
    ne→== q.head.chunk 0 (omega (arith, h.nonnull)),
  )
