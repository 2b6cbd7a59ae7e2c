-- ===== src/CoQueue/Threads/Pushes.antt =====
-- src/lockless_queue.rs, the accesses of `CoQueue::push`. A weak compare-exchange may fail at any
-- time, and an access to a chunk that was freed is not a step.
use co_queue.Base.{ℕ, ◌+◌, ◌≡◌, ◌≢◌, true, Option, none, some}
use co_queue.Base.Outcome.{Outcome, done, ◌>>=◌}
use co_queue.CoQueue.Chunk.{chunk_cap, Ptr, null, Slot}
use co_queue.CoQueue.State.{word, CoQueue, load, store, alloc, drop_box}
use co_queue.CoQueue.Push.{Pushing}
use co_queue.CoQueue.Threads.{
  idle, half, looped, heading, set_chunk, set_index, set_link, writing, marking, Crowd, offset_of,
  Ready, go, change_slot,
}

module _ {ℓ} {A : Type ℓ} where
  -- `self.tail.chunk.compare_and_swap(..)`, where it swaps
  abbrev pub put_first : CoQueue A → CoQueue A
  put_first q = let q₁ = alloc q in record q₁ { tail = record q₁.tail { chunk = q.fresh } }

  -- `(*chunk).next.store(next_chunk)`
  abbrev pub link_chunk : CoQueue A → Ptr → Ptr → Outcome (CoQueue A)
  link_chunk q p next = do c ← load q p; done (store q p (record c { next = next }))

  -- One access of thread `i` in `push`.
  pub data PushStep (s : Crowd A) (i : ℕ) : Crowd A → Type ℓ where
    calls : (x : A) → s.pc i ≡ idle → PushStep s i (go s s.queue i (half x none s.queue.tail.index))
    loads :
        (x : A) (n : Option Ptr) (t : ℕ)
        → s.pc i ≡ half x n t
        → PushStep s i (
            go s s.queue i
              (looped x (record { tail = t; chunk = s.queue.tail.chunk; next_chunk = n })))
    naps :
        (x : A) (l : Pushing)
        → s.pc i ≡ looped x l
        → offset_of l ≡ chunk_cap
        → PushStep s i (go s s.queue i (half x l.next_chunk s.queue.tail.index))
    reserves :
        (x : A) (l : Pushing)
        → s.pc i ≡ looped x l
        → offset_of l + 1 ≡ chunk_cap
        → l.next_chunk ≡ none
        → PushStep s i
            (go s (alloc s.queue) i (looped x (record l { next_chunk = some s.queue.fresh })))
    installs :
        (x : A) (l : Pushing)
        → s.pc i ≡ looped x l
        → Ready l
        → l.chunk ≡ null
        → s.queue.tail.chunk ≡ null
        → PushStep s i (go s (put_first s.queue) i (heading x (record l { chunk = s.queue.fresh })))
    install_fails :
        (x : A) (l : Pushing) (q : CoQueue A)
        → s.pc i ≡ looped x l
        → Ready l
        → l.chunk ≡ null
        → s.queue.tail.chunk ≢ null
        → drop_box (alloc s.queue) l.next_chunk ≡ done q
        → PushStep s i (go s q i (half x (some s.queue.fresh) q.tail.index))
    heads :
        (x : A) (l : Pushing)
        → s.pc i ≡ heading x l
        → PushStep s i (
            go s (record s.queue { head = record s.queue.head { chunk = l.chunk } }) i (looped x l))
    wins :
        (x : A) (l : Pushing)
        → s.pc i ≡ looped x l
        → Ready l
        → l.chunk ≢ null
        → s.queue.tail.index ≡ l.tail
        → offset_of l + 1 ≢ chunk_cap
        → PushStep s i (
            go s
              (record s.queue { tail = record s.queue.tail { index = word (l.tail + 2) } })
              i
              (writing x l))
    wins_last :
        (x : A) (l : Pushing) (p : Ptr)
        → s.pc i ≡ looped x l
        → Ready l
        → l.chunk ≢ null
        → s.queue.tail.index ≡ l.tail
        → offset_of l + 1 ≡ chunk_cap
        → l.next_chunk ≡ some p
        → PushStep s i (
            go s
              (record s.queue { tail = record s.queue.tail { index = word (l.tail + 2) } })
              i
              (set_chunk x l p))
    fails :
        (x : A) (l : Pushing)
        → s.pc i ≡ looped x l
        → Ready l
        → l.chunk ≢ null
        → PushStep s i (go s s.queue i (half x l.next_chunk s.queue.tail.index))
    sets_chunk :
        (x : A) (l : Pushing) (p : Ptr)
        → s.pc i ≡ set_chunk x l p
        → PushStep s i
            (go s (record s.queue { tail = record s.queue.tail { chunk = p } }) i (set_index x l p))
    sets_index :
        (x : A) (l : Pushing) (p : Ptr)
        → s.pc i ≡ set_index x l p
        → PushStep s i (
            go s
              (record s.queue {
                tail = record s.queue.tail { index = word (word (l.tail + 2) + 2) };
              })
              i
              (set_link x l p))
    sets_link :
        (x : A) (l : Pushing) (p : Ptr) (q : CoQueue A)
        → s.pc i ≡ set_link x l p
        → link_chunk s.queue l.chunk p ≡ done q
        → PushStep s i (go s q i (writing x (record l { next_chunk = none })))
    writes :
        (x : A) (l : Pushing) (old : Slot A) (q : CoQueue A)
        → s.pc i ≡ writing x l
        → change_slot s.queue l.chunk (offset_of l) (λ t. record t { value = some x })
          ≡ done (old, q)
        → PushStep s i (go s q i (marking l))
    marks :
        (l : Pushing) (old : Slot A) (q r : CoQueue A)
        → s.pc i ≡ marking l
        → change_slot s.queue l.chunk (offset_of l) (λ t. record t { write = true }) ≡ done (old, q)
        → drop_box q l.next_chunk ≡ done r
        → PushStep s i (go s r i idle)
