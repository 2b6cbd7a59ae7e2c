-- ===== src/CoQueue/Push.antt =====
-- src/lockless_queue.rs, `CoQueue::push`, run with no interference from other threads.
mod Refine
pub mod Rounds
use co_queue.Base.{
  ℕ, ◌+◌, ◌%◌, Bool, true, not, ◌||◌, Option, none, some, List, [], ◌∷◌, ◌==◌, if◌then◌else◌,
}
use co_queue.Base.Outcome.{Outcome, done, fault, spinning, ◌>>=◌}
use co_queue.CoQueue.Chunk.{lap, chunk_cap, Ptr, null}
use co_queue.CoQueue.State.{
  word, position, CoQueue, Round, again, returned, unwrap, load, store, alloc, drop_box, slot_at,
  set_slot,
}

-- The locals of the loop in `push`.
pub record Pushing : Type 0 where
  pub tail : ℕ
  pub chunk : Ptr
  pub next_chunk : Option Ptr

module _ {ℓ} {A : Type ℓ} where
  -- Reload both halves of the tail.
  abbrev pub reload_tail : CoQueue A → Option Ptr → Pushing
  reload_tail q n = record { tail = q.tail.index; chunk = q.tail.chunk; next_chunk = n }

  -- The exchange has moved the tail past the slot. In the last slot of a chunk the spare chunk
  -- becomes the new tail and is linked behind the old one.
  unfoldable pub publish_next :
      CoQueue A → Pushing → (offset new_tail : ℕ) → Outcome (CoQueue A × Option Ptr)
  publish_next q l offset new_tail =
      if offset + 1 == chunk_cap
      then (do
        p ← unwrap l.next_chunk
        let q₁ = record q { tail = record { index = word (new_tail + 2); chunk = p } }
        c ← load q₁ l.chunk
        done (store q₁ l.chunk (record c { next = p }), none))
      else done (q, l.next_chunk)

  -- `slot.value.get().write(..)`, `slot.state.fetch_or(WRITE)`
  unfoldable pub write_slot : CoQueue A → Ptr → ℕ → A → Outcome (CoQueue A)
  write_slot q p offset x = do
    c ← load q p
    s ← slot_at c offset
    done (store q p (set_slot c offset (record s { value = some x; write = true })))

  -- The compare-exchange on the tail's index, and what follows it.
  unfoldable pub advance_tail :
      Bool → A → Pushing → CoQueue A → Outcome (Round Pushing (CoQueue A) (CoQueue A))
  advance_tail fails x l q =
      let offset : ℕ = position l.tail % lap in
      let new_tail : ℕ = word (l.tail + 2) in
      if fails || not (q.tail.index == l.tail)
      then done (again (reload_tail q l.next_chunk) q)
      else do
        (q₂, spare) ←
            publish_next (record q { tail = record q.tail { index = new_tail } }) l offset new_tail
        q₃ ← write_slot q₂ l.chunk offset x
        q₄ ← drop_box q₃ spare
        done (returned q₄)

  -- A spare chunk for the push that fills the last slot.
  unfoldable pub reserve : Pushing → CoQueue A → Pushing × CoQueue A
  reserve l q =
      if position l.tail % lap + 1 == chunk_cap
      then elim l.next_chunk [
        | none ↦ (record l { next_chunk = some q.fresh }, alloc q)
        | some _ ↦ (l, q)
      ]
      else (l, q)

  -- The first push of all installs the first chunk.
  unfoldable pub install :
      Bool → A → Pushing → CoQueue A → Outcome (Round Pushing (CoQueue A) (CoQueue A))
  install fails x l q =
      let new : Ptr = q.fresh in
      let q₁ = alloc q in
      if q₁.tail.chunk == l.chunk
      then (let q₂ = record q₁ {
        tail = record q₁.tail { chunk = new };
        head = record q₁.head { chunk = new };
      } in
          advance_tail fails x (record l { chunk = new }) q₂)
      else do q₂ ← drop_box q₁ l.next_chunk; done (again (reload_tail q₂ (some new)) q₂)

  -- One round of the loop in `push`.
  unfoldable pub push_round :
      Bool → A → Pushing → CoQueue A → Outcome (Round Pushing (CoQueue A) (CoQueue A))
  push_round fails x l q =
      if position l.tail % lap == chunk_cap
      then done (again (reload_tail q l.next_chunk) q)
      else let (l₁, q₁) = reserve l q in
        if l₁.chunk == null then install fails x l₁ q₁ else advance_tail fails x l₁ q₁

  unfoldable pub push_loop : List Bool → A → Pushing → CoQueue A → Outcome (CoQueue A)
  push_loop [] x l q = spinning
  push_loop (fails ∷ rest) x l q = elim (push_round fails x l q) [
    | fault ↦ fault
    | spinning ↦ spinning
    | done r ↦ elim r [ again l' q' ↦ push_loop rest x l' q' | returned q' ↦ done q' ]
  ]

  unfoldable pub push : List Bool → CoQueue A → A → Outcome (CoQueue A)
  push rounds q x = push_loop rounds x (reload_tail q none) q
