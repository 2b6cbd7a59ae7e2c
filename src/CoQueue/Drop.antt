-- ===== src/CoQueue/Drop.antt =====
-- src/lockless_queue.rs, `CoQueue::new` and the `Drop` of `CoQueue`.
mod Loop
pub mod Frees
use co_queue.Base.{
  ℕ, zero, suc, ◌+◌, ◌-◌, ◌/◌, ◌%◌, ◌^◌, true, false, none, List, [], ◌∷◌, ◌==◌, ltb, if◌then◌else◌,
}
use co_queue.Base.Outcome.{Outcome, done, spinning, ◌>>=◌}
use co_queue.CoQueue.Chunk.{lap, chunk_cap, Ptr, null}
use co_queue.CoQueue.State.{word, position, without_next, CoQueue, load, free, slot_at}
use co_queue.CoQueue.Pop.{read_value}

-- A queue with no chunk yet, on an empty heap.
unfoldable pub new {ℓ} : (A : Type ℓ) → CoQueue A
new A = record {
  head = record { index = 0; chunk = null };
  tail = record { index = 0; chunk = null };
  heap = λ _. none;
  fresh = 1;
}

module _ {ℓ} {A : Type ℓ} where
  -- `while head != tail`, and the chunk that is left. The values that were dropped are returned in
  -- order, with the heap as the loop leaves it.
  unfoldable pub drop_loop : ℕ → (head tail : ℕ) → Ptr → CoQueue A → Outcome (List A × CoQueue A)
  drop_loop zero head tail chunk q = spinning
  drop_loop (suc fuel) head tail chunk q = elim (head == tail) [
    | true ↦ if chunk == null then done ([], q) else (do q' ← free q chunk; done ([], q'))
    | false ↦ elim (ltb (position head % lap) chunk_cap) [
      | true ↦ do
        c ← load q chunk
        s ← slot_at c (position head % lap)
        x ← read_value s
        (xs, q') ← drop_loop fuel (word (head + 2)) tail chunk q
        done (x ∷ xs, q')
      | false ↦ do
        c ← load q chunk
        q₁ ← free q chunk
        drop_loop fuel (word (head + 2)) tail c.next q₁
    ]
  ]

  -- Both indices are even after the flag is cleared, so the loop makes at most 2 ^ 63 rounds.
  unfoldable pub drop : CoQueue A → Outcome (List A × CoQueue A)
  unfolding drop_loop
  drop q =
      let head : ℕ = without_next q.head.index in
      let tail : ℕ = without_next q.tail.index in
      drop_loop ((tail + 2 ^ 64 - head) % 2 ^ 64 / 2 + 1) head tail q.head.chunk q
