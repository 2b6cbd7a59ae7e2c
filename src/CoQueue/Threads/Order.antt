-- ===== src/CoQueue/Threads/Order.antt =====
-- src/lockless_queue.rs, `CoQueue::push` and `CoQueue::pop` by many threads: the order in which the
-- values leave.
use co_queue.Base.{
  ◌<◌, ◌⊎◌, inl, inr, Option-cases, ℕ, ◌/◌, ◌≤◌, ◌≡◌, ◌≢◌, none, some, length, get_elem?, update,
  sym, ap, ◌∙◌, update_self, arith,
}
use co_queue.CoQueue.State.{CoQueue}
use co_queue.CoQueue.Pop.{Popping, next_head}
use co_queue.CoQueue.Threads.{PopPc, returned, round, checked, has_head, Crowd}
use co_queue.CoQueue.Threads.Pops
use co_queue.CoQueue.Threads.Pops.{PopStep}
use co_queue.CoQueue.Threads.Run.{Reach}
use co_queue.CoQueue.Threads.History.{pushed, won, place}
use co_queue.CoQueue.Threads.Ahead.{pop_stage, head_of}
use co_queue.CoQueue.Threads.Cells.{result_of}
use co_queue.CoQueue.Threads.Places.{place-below, place-apart}
use co_queue.CoQueue.Threads.Kept.{Reach-Kept}

module _ {ℓ} {A : Type ℓ} where
  -- In every state that a run from a new queue reaches, while the tail index is below 2 ^ 64 - 4,
  -- however the accesses are interleaved: no more pops than pushes have won a slot; a thread has
  -- no value that it has taken in `pop` or is about to return from it, or that value is the one at
  -- place `n` among the values in the order in which their pushes won a slot, where `n` is the number
  -- of pops that had won a slot before the thread last did; and of two threads one has no such value,
  -- or their places differ.
  pub pop-place :
      {s : Crowd A} (r : Reach s) (i j : ℕ)
      → i ≢ j
      → (won r ≤ length (pushed r))
        × ((result_of (s.popper i) ≡ none)
            ⊎ ((x : A) × (result_of (s.popper i) ≡ some x)
                × (place r i < won r)
                × (get_elem? (pushed r) (place r i) ≡ some x)
                × ((result_of (s.popper j) ≡ none) ⊎ (place r i ≢ place r j))))
  pop-place {s} r i j ne =
      let k = Reach-Kept r in
      (
        omega (arith, k.cells.pushed, k.cells.popped, k.ahead.head.below),
        elim (Option-cases (result_of (s.popper i))) [
          | inl free ↦ inl free
          | inr (x, e) ↦ inr (
            x,
            e,
            place-below r i x e,
            (k.cells.pop i).got x e,
            elim (Option-cases (result_of (s.popper j))) [
              | inl free ↦ inl free
              | inr (y, f) ↦ inr (place-apart r i j ne x y e f)
            ],
          )
        ],
      )

  next_head-none :
      (q : CoQueue A) (head : ℕ) → next_head q head ≡ none → head / 2 ≡ q.tail.index / 2
  unfolding next_head
  next_head-none q head e = ground arith

  lands :
      (popper : ℕ → PopPc A) (i : ℕ) (p : PopPc A)
      → update popper i p i ≡ returned none
      → pop_stage p ≡ 0
  lands popper i p z = ap pop_stage (sym (update_self popper i p) ∙ z)

  -- The access of `pop` after which it returns `Err(())`.
  finds_none :
      {s : Crowd A} {i : ℕ} {t : Crowd A}
      → PopStep s i t
      → (l : Popping) → s.popper i ≡ round l
      → t.popper i ≡ returned none
      → next_head s.queue l.head ≡ none
  finds_none {s} {i} (Pops.pop_naps k at o) l e z =
      absurd (omega (arith, lands s.popper i (has_head s.queue.head.index) z))
  finds_none (Pops.pop_empty k at o y) l e z =
      let same : k.head ≡ l.head = ap head_of (sym at ∙ e) in rw (← same) y
  finds_none {s} {i} (Pops.pop_checks k n at o y) l e z =
      absurd (omega (arith, lands s.popper i (checked k n) z))
  finds_none (Pops.pop_calls at) l e z = cc
  finds_none (Pops.pop_loads h at) l e z = cc
  finds_none (Pops.pop_reloads k n at c) l e z = cc
  finds_none (Pops.pop_wins k n at c y o) l e z = cc
  finds_none (Pops.pop_wins_last k n at c y o) l e z = cc
  finds_none (Pops.pop_fails k n at c) l e z = cc
  finds_none (Pops.finds_next k n next at y) l e z = cc
  finds_none (Pops.looks_on k n next idx at y) l e z = cc
  finds_none (Pops.moves_chunk k idx next at) l e z = cc
  finds_none (Pops.moves_index k idx next at) l e z = cc
  finds_none (Pops.reads k x at y) l e z = cc
  finds_none (Pops.marks_read k x old q at o y) l e z = cc
  finds_none (Pops.destroys k x at o) l e z = cc
  finds_none (Pops.sees_slot p o x read at w y) l e z = cc
  finds_none (Pops.leaves_slot p o x old q at y) l e z = cc
  finds_none (Pops.frees p x q at y) l e z = cc
  finds_none (Pops.returns r at) l e z = cc

  -- In every state that a run from a new queue reaches, while the tail index is below 2 ^ 64 - 4,
  -- however the accesses are interleaved: when an access of a `pop` that goes round its loop makes it
  -- return `Err(())`, as many pops as pushes have won a slot.
  pub pop-none :
      {s t : Crowd A} (r : Reach s) (i : ℕ)
      → PopStep s i t
      → (l : Popping) → s.popper i ≡ round l
      → t.popper i ≡ returned none
      → won r ≡ length (pushed r)
  pop-none {s} r i st l e z =
      let k = Reach-Kept r in
      let seen = next_head-none s.queue l.head (finds_none st l e z) in
      let fit : l.head ≤ s.queue.head.index =
        rw (← ap head_of e) ((k.ahead.pops i).below (omega (arith, ap pop_stage e))) in
      omega (arith, seen, k.cells.pushed, k.cells.popped, k.ahead.head.below, fit)
