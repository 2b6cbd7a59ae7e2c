-- ===== src/CoQueue/Pop/Refine.antt =====
-- The exchange of `pop` in src/lockless_queue.rs, with the slot that it takes.
use co_queue.Base.{
  ℕ, ◌+◌, ◌*◌, ◌/◌, ◌%◌, ◌<◌, ◌≡◌, ap, true, false, none, some, List, [], ◌∷◌, eq→==, ne→==,
  get_elem?, length, arith,
}
use native.Mathlib.Decide.{ℕ_discrete}
use co_queue.Base.Outcome.{done}
use co_queue.CoQueue.Chunk.{Chunk, Slot, full_slot, destroy_slots, destroy_from}
use co_queue.CoQueue.State.{word, position, has_next, with_next, CoQueue, store, set_slot, destroy}
use co_queue.CoQueue.Pop.{next_head, take_slot}
use co_queue.CoQueue.Chain.Slots.{read_slot}
use co_queue.CoQueue.Holds.{Linked, Linked-length}

-- The slot that was read last in a chunk is told to destroy it.
abbrev pub doomed_slot {ℓ} : {A : Type ℓ} → A → Slot A
doomed_slot x = record { value = some x; write = true; read = false; destroy = true }

-- The new index of the head, when the queue is not empty.
pub record Ahead {ℓ} {A : Type ℓ} (q : CoQueue A) (n : ℕ) : Type ℓ where
  pub index : ℕ
  pub eq : next_head q q.head.index ≡ some index
  pub at : position index ≡ position q.head.index + 1
  pub flag : has_next index ≡ 1 → 0 < n

module _ {ℓ} {A : Type ℓ} where
  -- A slot that is not the chunk's last is marked as read.
  pub take_slot-marks :
      (q : CoQueue A) (p offset : ℕ) (x : A) {c : Chunk A}
      → offset < 30
      → q.heap p ≡ some c
      → get_elem? c.slots offset ≡ some (full_slot x)
      → take_slot q p offset ≡ done (store q p (set_slot c offset (read_slot x)), x)
  unfolding take_slot
  take_slot-marks q p offset x lt here at = ground arith

  -- The chunk's last slot is not marked, and so the chunk is not freed.
  pub take_slot-dooms :
      (q : CoQueue A) (p offset : ℕ) (x : A) {c : Chunk A} {slots : List (Slot A)}
      → offset ≡ 30
      → q.heap p ≡ some c
      → get_elem? c.slots offset ≡ some (full_slot x)
      → destroy_slots c.slots ≡ (slots, false)
      → take_slot q p offset ≡ done (store q p (record c { slots = slots }), x)
  unfolding take_slot destroy destroy_from
  take_slot-dooms q p offset x last_slot here at stops = ground arith

module _ {ℓ} {A : Type ℓ} {q : CoQueue A} {l n i j : ℕ} {xs : List A}
    (h : Linked q l n i j xs) where
  pub head_offset : position q.head.index % 32 ≡ i
  head_offset = omega (arith, h.head_at, h.head_in)

  -- An empty queue has its ends at one position, and the flag clear.
  pub next_head_empty : xs ≡ [] → next_head q q.head.index ≡ none
  unfolding next_head
  next_head_empty e =
      let same : i ≡ 31 * n + j = omega (arith, Linked-length h, ap length e) in
      ground (arith, h.head_at, h.tail_at, h.flag, h.head_in, h.small)

  pub ahead : (x : A) (ys : List A) → xs ≡ x ∷ ys → Ahead q n
  unfolding next_head
  ahead x ys e =
      let more_left : position q.head.index < position q.tail.index =
        omega (arith, h.head_at, h.tail_at, Linked-length h, ap length e, h.head_in, h.tail_in) in
      let no_wrap : word (q.head.index + 2) ≡ q.head.index + 2 =
        omega (arith, h.tail_at, h.small) in
      elim (ℕ_discrete (has_next q.head.index) 1) [
        | yes flagged ↦ record {
          index = q.head.index + 2;
          eq = rw (no_wrap, ne→== (has_next (q.head.index + 2)) 0 (omega arith));
          at = omega arith;
          flag = λ _. h.flag flagged;
        }
        | no plain ↦ elim (ℕ_discrete (position q.head.index / 32) (position q.tail.index / 32)) [
          | yes same ↦ record {
            index = q.head.index + 2;
            eq = rw (
              no_wrap,
              eq→== (has_next (q.head.index + 2)) 0 (omega arith),
              ne→== (position q.head.index) (position q.tail.index) (omega arith),
              eq→== (position q.head.index / 32) (position q.tail.index / 32) same,
            );
            at = omega arith;
            flag = λ f. absurd (omega arith);
          }
          | no other ↦ record {
            index = with_next (q.head.index + 2);
            eq = rw (
              no_wrap,
              eq→== (has_next (q.head.index + 2)) 0 (omega arith),
              ne→== (position q.head.index) (position q.tail.index) (omega arith),
              ne→== (position q.head.index / 32) (position q.tail.index / 32) other,
            );
            at = omega arith;
            flag = λ _. omega (arith, h.head_at, h.tail_at, h.head_in, h.tail_in);
          }
        ]
      ]
