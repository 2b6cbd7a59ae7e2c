-- ===== src/CoQueue/Threads/Progress.antt =====
-- src/lockless_queue.rs, `CoQueue::push` and `CoQueue::pop` by many threads: who can go on, and whom
-- the others wait for.
use native.Mathlib.Decide.{ℕ_discrete}
use co_queue.Base.{
  ℕ, ◌+◌, ◌/◌, ◌%◌, ◌≤◌, ◌≡◌, ◌≢◌, ◌⊎◌, inl, inr, true, false, refl, sym, ap, ◌∙◌, none, some,
  arith, Option-cases, Bool-cases,
}
use co_queue.CoQueue.Chunk.{Chunk, Slot, lap, chunk_cap, null}
use co_queue.CoQueue.State.{position, set_slot, store}
use co_queue.CoQueue.Pop.{next_head, Popping}
use co_queue.CoQueue.Threads.{
  PushPc, PopPc, outside, returned, has_head, round, checked, waiting, found, move_chunk,
  move_index, reading, taken, destroying, unread, Crowd,
}
use co_queue.CoQueue.Threads.Pushes.{PushStep}
use co_queue.CoQueue.Threads.Pops
use co_queue.CoQueue.Threads.Pops.{PopStep, read_slot, read_state, next_of, next_index}
use co_queue.CoQueue.Threads.Run.{Reach}
use co_queue.CoQueue.Threads.Invariant.{stage, tail_of}
use co_queue.CoQueue.Threads.Ahead.{heads, pop_stage, head_of, pop_chunk}
use co_queue.CoQueue.Threads.Cells.{ruins, slot_in}
use co_queue.CoQueue.Threads.History.{pushed}
use co_queue.CoQueue.Threads.Exclusive.{fills, drains}
use co_queue.CoQueue.Threads.Ages.{next_in}
use co_queue.CoQueue.Threads.Ends.{TurnsTail, TurnsHead}
use co_queue.CoQueue.Threads.Served.{links, LinksOn}
use co_queue.CoQueue.Threads.Stored.{popped_slot, onto_slot}
use co_queue.CoQueue.Threads.Stored.{
  Stored, HeapFits-Stored, load-there, change_slot-there, read_state-there,
}
use co_queue.CoQueue.Threads.Kept.{Kept, Reach-Kept}
use co_queue.CoQueue.Threads.Goes.{
  fills_of, next_of-there, next_index-there, read_slot-done, push_goes,
}

module _ {ℓ} {A : Type ℓ} where
  -- Thread `k` can make its next access in `push`, and is to set the WRITE that thread `i` waits for
  -- in `pop`, or to link the chunk that it waits at.
  abbrev pub Awaits : Crowd A → ℕ → ℕ → Type ℓ
  Awaits s i k =
      ((t : Crowd A) × PushStep s k t)
      × (((drains (s.popper i) ≢ none) × (fills (s.pc k) ≡ drains (s.popper i)))
          ⊎ ((4 ≤ pop_stage (s.popper i)) × LinksOn (pop_chunk (s.popper i)) (s.pc k)))

  module _ {s : Crowd A} {r : Reach s} (k : Kept r) (i : ℕ) where
    goes_on :
        {t : Crowd A} → PopStep s i t → ((t : Crowd A) × PopStep s i t) ⊎ ((j : ℕ) × Awaits s i j)
    goes_on {t} st = inl (t, st)

    links-stage : (p : PushPc A) → links p ≡ 1 → 3 ≤ stage p
    links-stage p e = ground arith

    -- WRITE is clear in the slot that the thread is to read.
    reading_waits :
        (l : Popping)
        → s.popper i ≡ reading l
        → (d : Stored s.queue.heap l.chunk (position l.head % lap)) → d.slot.write ≡ false
        → (j : ℕ) × Awaits s i j
    reading_waits l e d w =
        let claim = (k.ahead.pops i).claims (omega (arith, ap pop_stage e)) in
        let at = ap head_of e in
        let c = ap (λ p. k.lap_of (pop_chunk p)) e in
        let there : slot_in (s.queue.heap l.chunk) (position l.head % lap) ≡ some d.slot =
          ap (λ c. slot_in c (position l.head % lap)) d.at ∙ d.here in
        let (j, fill) =
          k.served.slot l.chunk (position l.head % lap) d.slot (omega (arith, claim, at, c))
            (omega (arith, claim, at)) there w (omega (arith, claim, at, c, k.ahead.head.below)) in
        let same : tail_of (s.pc j) / 2 % 32 ≡ position l.head % lap =
          omega (arith, fill, claim, at, c) in
        let mine : drains (s.popper i) ≡ some (l.chunk, position l.head % lap) = ap drains e in
        (
          j,
          (
            push_goes k j (s.pc j) refl fill.0,
            inl (λ z. cc, fills_of (s.pc j) fill.0 ∙ rw (fill.2, same) (sym mine)),
          ),
        )

    waiting_waits :
        (l : Popping) (n : ℕ)
        → s.popper i ≡ waiting l n
        → (d : Chunk A) → s.queue.heap l.chunk ≡ some d
        → d.next ≡ null
        → (j : ℕ) × Awaits s i j
    waiting_waits l n e d there z =
        let claim = (k.ahead.pops i).claims (omega (arith, ap pop_stage e)) in
        let close =
          (k.ahead.pops i).closes (omega (arith, ap pop_stage e)) (omega (arith, ap pop_stage e)) in
        let at = ap head_of e in
        let c = ap (λ p. k.lap_of (pop_chunk p)) e in
        let (j, on) =
          k.served.link l.chunk (omega (arith, claim, at, c)) (ap next_in there ∙ ap some z)
            (omega (arith, claim, close, at, c, k.ahead.head.below)) in
        (
          j,
          (
            push_goes k j (s.pc j) refl (links-stage (s.pc j) on.0),
            inr (omega (arith, ap pop_stage e), (on.0, on.1 ∙ sym (ap pop_chunk e))),
          ),
        )

    pop_goes_from :
        (p : PopPc A) → s.popper i ≡ p → ((t : Crowd A) × PopStep s i t) ⊎ ((j : ℕ) × Awaits s i j)
    pop_goes_from outside e = goes_on (Pops.pop_calls e)
    pop_goes_from (returned v) e = goes_on (Pops.returns v e)
    pop_goes_from (has_head h) e = goes_on (Pops.pop_loads h e)
    pop_goes_from (round l) e = elim (ℕ_discrete (position l.head % lap) chunk_cap) [
      | yes end ↦ goes_on (Pops.pop_naps l e end)
      | no within ↦ elim (Option-cases (next_head s.queue l.head)) [
        | inl empty ↦ goes_on (Pops.pop_empty l e within empty)
        | inr n ↦ goes_on (Pops.pop_checks l n.0 e within n.1)
      ]
    ]
    pop_goes_from (checked l n) e = elim (ℕ_discrete l.chunk null) [
      | yes unset ↦ goes_on (Pops.pop_reloads l n e unset)
      | no set ↦ goes_on (Pops.pop_fails l n e set)
    ]
    pop_goes_from (waiting l n) e =
        let d = popped_slot k i (waiting l n) e (omega arith) in
        elim (ℕ_discrete d.chunk.next null) [
          | yes unset ↦ inr (waiting_waits l n e d.chunk d.at unset)
          | no set ↦ goes_on (
              Pops.finds_next l n d.chunk.next e (
                next_of-there s.queue l.chunk d.chunk (load-there s.queue l.chunk d.chunk d.at)
                  set))
        ]
    pop_goes_from (found l n p) e =
        let d = onto_slot k i l n p e in
        let (idx, is) = next_index-there s.queue p n d.chunk (load-there s.queue p d.chunk d.at) in
        goes_on (Pops.looks_on l n p idx e is)
    pop_goes_from (move_chunk l n p) e = goes_on (Pops.moves_chunk l n p e)
    pop_goes_from (move_index l n p) e = goes_on (Pops.moves_index l n p e)
    pop_goes_from (reading l) e =
        let d = popped_slot k i (reading l) e (omega arith) in
        elim (Bool-cases d.slot.write) [
          | inl set ↦
              let (x, is) = read_slot-done s.queue l.chunk (position l.head % lap) d set in
              goes_on (Pops.reads l x e is)
          | inr unset ↦ inr (reading_waits l e d unset)
        ]
    pop_goes_from (taken l x) e = elim (ℕ_discrete (position l.head % lap + 1) chunk_cap) [
      | yes last ↦ goes_on (Pops.destroys l x e last)
      | no within ↦
          let f : Slot A → Slot A = λ t. record t { read = true } in
          let d = popped_slot k i (taken l x) e (omega arith) in
          goes_on (
            Pops.marks_read l x d.slot
              (store s.queue l.chunk (set_slot d.chunk (position l.head % lap) (f d.slot))) e within
              (change_slot-there s.queue l.chunk (position l.head % lap) f d))
    ]
    pop_goes_from (destroying p o x) e =
        let site = (k.cells.pop i).site p o (ap ruins e) in
        let d = HeapFits-Stored k.lap_of (pushed r) s.queue.heap p o k.cells.heap site.0 site.1 in
        goes_on (
          Pops.sees_slot p o x d.slot.read e (omega (arith, site)) (read_state-there s.queue p o d))
    pop_goes_from (unread p o x) e =
        let site = (k.cells.pop i).site p o (ap ruins e) in
        let f : Slot A → Slot A = λ t. record t { destroy = true } in
        let d = HeapFits-Stored k.lap_of (pushed r) s.queue.heap p o k.cells.heap site.0 site.1 in
        goes_on (
          Pops.leaves_slot p o x d.slot (store s.queue p (set_slot d.chunk o (f d.slot))) e
            (change_slot-there s.queue p o f d))

  -- In every state that a run from a new queue reaches, while the tail index is below 2 ^ 64 - 4,
  -- however the accesses are interleaved: a thread can make its next access in `pop` (the call of
  -- it counts as one), or it waits for a thread in `push` that can make its own next access: one
  -- that has claimed the slot to be read and not set its WRITE yet, or one that is to link the chunk
  -- at whose end the thread waits to the next.
  pub pop_goes :
      {s : Crowd A} → Reach s → (i : ℕ) → ((t : Crowd A) × PopStep s i t) ⊎ ((j : ℕ) × Awaits s i j)
  pop_goes {s} r i = pop_goes_from (Reach-Kept r) i (s.popper i) refl

  -- In every state that a run from a new queue reaches, while the tail index is below 2 ^ 64 - 4,
  -- however the accesses are interleaved: the tail does not stand past the last slot of a chunk, or
  -- a thread that can make its next access in `push` is to move it from there; the head does not
  -- stand past the last slot of a chunk, or a thread in `pop` is to move it; and the head has a
  -- chunk, or the tail has none, or a thread in `push` is to give the head its first.
  pub ends_turn :
      {s : Crowd A}
      → Reach s
      → ((position s.queue.tail.index % lap ≢ chunk_cap)
          ⊎ ((k : ℕ) × (((t : Crowd A) × PushStep s k t) × TurnsTail (s.pc k))))
        × ((position s.queue.head.index % lap ≢ chunk_cap) ⊎ ((k : ℕ) × TurnsHead (s.popper k)))
        × ((s.queue.head.chunk ≢ null)
            ⊎ (s.queue.tail.chunk ≡ null)
            ⊎ ((k : ℕ) × (heads (s.pc k) ≡ 1)))
  ends_turn {s} r =
      let kept = Reach-Kept r in
      (
        elim (ℕ_discrete (position s.queue.tail.index % lap) chunk_cap) [
          | yes end ↦
              let (k, turns) = kept.ends.tail (omega (arith, end)) in
              inr (k, (push_goes kept k (s.pc k) refl turns.0, turns))
          | no within ↦ inl within
        ],
        elim (ℕ_discrete (position s.queue.head.index % lap) chunk_cap) [
          | yes end ↦ inr (kept.ends.head (omega (arith, end)))
          | no within ↦ inl within
        ],
        elim (ℕ_discrete s.queue.head.chunk null) [
          | no set ↦ inl set
          | yes unset ↦ elim (ℕ_discrete s.queue.tail.chunk null) [
            | yes none_yet ↦ inr (inl none_yet)
            | no there ↦ inr (inr (kept.ends.first unset there))
          ]
        ],
      )
