-- ===== src/CoQueue/Pop.antt =====
-- src/lockless_queue.rs, `CoQueue::pop`, run with no interference from other threads.
mod Refine
mod Claim
pub mod Rounds
use co_queue.Base.{
  ℕ, ◌+◌, ◌/◌, ◌%◌, Bool, true, not, ◌||◌, Option, none, some, List, [], ◌∷◌, ◌==◌, if◌then◌else◌,
}
use co_queue.Base.Outcome.{Outcome, done, fault, spinning, ◌>>=◌, ◌>>◌}
use co_queue.CoQueue.Chunk.{lap, chunk_cap, Ptr, null, Slot, wait_write, wait_next}
use co_queue.CoQueue.State.{
  word, position, has_next, with_next, without_next, CoQueue, Round, again, returned, load, store,
  slot_at, set_slot, destroy,
}

-- The locals of the loop in `pop`.
pub record Popping : Type 0 where
  pub head : ℕ
  pub chunk : Ptr

module _ {ℓ} {A : Type ℓ} where
  -- The value that the slot holds; reading a slot that was never written is undefined behaviour.
  abbrev pub read_value : Slot A → Outcome A
  read_value s = elim s.value [ none ↦ fault | some x ↦ done x ]

  -- Reload both halves of the head.
  abbrev pub reload_head : CoQueue A → Popping
  reload_head q = record { head = q.head.index; chunk = q.head.chunk }

  -- The popper of the last slot moves the head to the next chunk.
  unfoldable pub next_chunk : CoQueue A → Ptr → (offset new_head : ℕ) → Outcome (CoQueue A)
  next_chunk q p offset new_head =
      if offset + 1 == chunk_cap
      then (do
        c ← load q p
        next ← wait_next c
        let next_idx = word (without_next new_head + 2)
        n ← load q next
        let index = if n.next == null then next_idx else with_next next_idx
        done (record q { head = record { index = index; chunk = next } }))
      else done q

  -- Read the slot, mark it, and destroy the chunk if that has fallen to this thread.
  unfoldable pub take_slot : CoQueue A → Ptr → ℕ → Outcome (CoQueue A × A)
  take_slot q p offset = do
    c ← load q p
    s ← slot_at c offset
    wait_write s
    x ← read_value s
    if offset + 1 == chunk_cap then (do q' ← destroy q p 0; done (q', x)) else (do
      let q₁ = store q p (set_slot c offset (record s { read = true }))
      q₂ ← if s.destroy then destroy q₁ p (offset + 1) else done q₁
      done (q₂, x))

  -- The test for an empty queue (`none`), and the flag for a head in an earlier chunk than the tail.
  unfoldable pub next_head : CoQueue A → ℕ → Option ℕ
  next_head q head =
      let new_head = word (head + 2) in
      if has_next new_head == 0
      then (if position head == position q.tail.index
          then none
          else some (
              if position head / lap == position q.tail.index / lap
              then new_head
              else with_next new_head))
      else some new_head

  -- One round of the loop in `pop`. It returns `none` for `Err(())`.
  unfoldable pub pop_round :
      Bool → Popping → CoQueue A → Outcome (Round Popping (CoQueue A) (CoQueue A × Option A))
  pop_round fails l q =
      let offset : ℕ = position l.head % lap in
      if offset == chunk_cap then done (again (reload_head q) q) else elim (next_head q l.head) [
        | none ↦ done (returned (q, none))
        | some new_head ↦
            if l.chunk == null
            then done (again (reload_head q) q)
            else if fails || not (q.head.index == l.head)
            then done (again (reload_head q) q)
            else (do
              q₁ ←
                  next_chunk (record q { head = record q.head { index = new_head } }) l.chunk offset
                    new_head
              (q₂, x) ← take_slot q₁ l.chunk offset
              done (returned (q₂, some x)))
      ]

  unfoldable pub pop_loop : List Bool → Popping → CoQueue A → Outcome (CoQueue A × Option A)
  pop_loop [] l q = spinning
  pop_loop (fails ∷ rest) l q = elim (pop_round fails l q) [
    | fault ↦ fault
    | spinning ↦ spinning
    | done r ↦ elim r [ again l' q' ↦ pop_loop rest l' q' | returned r' ↦ done r' ]
  ]

  unfoldable pub pop : List Bool → CoQueue A → Outcome (CoQueue A × Option A)
  pop rounds q = pop_loop rounds (reload_head q) q
