-- ===== src/CoQueue/Threads/Pops.antt =====
-- src/lockless_queue.rs, the accesses of `CoQueue::pop`. A weak compare-exchange may fail at any
-- time, and an access to a chunk that was freed is not a step.
use co_queue.Base.{ℕ, ◌+◌, ◌<◌, ◌%◌, ◌==◌, ◌≡◌, ◌≢◌, Bool, true, Option, none, some, if◌then◌else◌}
use co_queue.Base.Outcome.{Outcome, done, ◌>>=◌, ◌>>◌}
use co_queue.CoQueue.Chunk.{lap, chunk_cap, Ptr, null, Slot, wait_write, wait_next}
use co_queue.CoQueue.State.{word, position, with_next, without_next, CoQueue, load, free, slot_at}
use co_queue.CoQueue.Pop.{Popping, read_value, next_head}
use co_queue.CoQueue.Threads.{
  outside, returned, has_head, round, checked, waiting, found, move_chunk, move_index, reading,
  taken, destroying, unread, Crowd, pop_go, change_slot,
}

module _ {ℓ} {A : Type ℓ} where
  -- The read of the slot, after `wait_write`.
  abbrev pub read_slot : CoQueue A → Ptr → ℕ → Outcome A
  read_slot q p offset = do c ← load q p; s ← slot_at c offset; wait_write s; read_value s

  abbrev pub read_state : CoQueue A → Ptr → ℕ → Outcome Bool
  read_state q p offset = do c ← load q p; s ← slot_at c offset; done s.read

  -- `wait_next`, and the head's index for the chunk that it finds.
  abbrev pub next_of : CoQueue A → Ptr → Outcome Ptr
  next_of q p = do c ← load q p; wait_next c

  abbrev pub next_index : CoQueue A → Ptr → ℕ → Outcome ℕ
  next_index q next new_head = do
    n ← load q next
    let next_idx = word (without_next new_head + 2)
    done (if n.next == null then next_idx else with_next next_idx)

  -- One access of thread `i` in `pop`.
  pub data PopStep (s : Crowd A) (i : ℕ) : Crowd A → Type ℓ where
    pop_calls :
        s.popper i ≡ outside → PopStep s i (pop_go s s.queue i (has_head s.queue.head.index))
    pop_loads :
        (h : ℕ)
        → s.popper i ≡ has_head h
        → PopStep s i (pop_go s s.queue i (round (record { head = h; chunk = s.queue.head.chunk })))
    pop_naps :
        (l : Popping)
        → s.popper i ≡ round l
        → position l.head % lap ≡ chunk_cap
        → PopStep s i (pop_go s s.queue i (has_head s.queue.head.index))
    pop_empty :
        (l : Popping)
        → s.popper i ≡ round l
        → position l.head % lap ≢ chunk_cap
        → next_head s.queue l.head ≡ none
        → PopStep s i (pop_go s s.queue i (returned none))
    pop_checks :
        (l : Popping) (new_head : ℕ)
        → s.popper i ≡ round l
        → position l.head % lap ≢ chunk_cap
        → next_head s.queue l.head ≡ some new_head
        → PopStep s i (pop_go s s.queue i (checked l new_head))
    pop_reloads :
        (l : Popping) (new_head : ℕ)
        → s.popper i ≡ checked l new_head
        → l.chunk ≡ null
        → PopStep s i (pop_go s s.queue i (has_head s.queue.head.index))
    pop_wins :
        (l : Popping) (new_head : ℕ)
        → s.popper i ≡ checked l new_head
        → l.chunk ≢ null
        → s.queue.head.index ≡ l.head
        → position l.head % lap + 1 ≢ chunk_cap
        → PopStep s i (
            pop_go s
              (record s.queue { head = record s.queue.head { index = new_head } })
              i
              (reading l))
    pop_wins_last :
        (l : Popping) (new_head : ℕ)
        → s.popper i ≡ checked l new_head
        → l.chunk ≢ null
        → s.queue.head.index ≡ l.head
        → position l.head % lap + 1 ≡ chunk_cap
        → PopStep s i (
            pop_go s
              (record s.queue { head = record s.queue.head { index = new_head } })
              i
              (waiting l new_head))
    pop_fails :
        (l : Popping) (new_head : ℕ)
        → s.popper i ≡ checked l new_head
        → l.chunk ≢ null
        → PopStep s i (pop_go s s.queue i (has_head s.queue.head.index))
    finds_next :
        (l : Popping) (new_head : ℕ) (next : Ptr)
        → s.popper i ≡ waiting l new_head
        → next_of s.queue l.chunk ≡ done next
        → PopStep s i (pop_go s s.queue i (found l new_head next))
    looks_on :
        (l : Popping) (new_head : ℕ) (next : Ptr) (next_idx : ℕ)
        → s.popper i ≡ found l new_head next
        → next_index s.queue next new_head ≡ done next_idx
        → PopStep s i (pop_go s s.queue i (move_chunk l next_idx next))
    moves_chunk :
        (l : Popping) (next_idx : ℕ) (next : Ptr)
        → s.popper i ≡ move_chunk l next_idx next
        → PopStep s i (
            pop_go s
              (record s.queue { head = record s.queue.head { chunk = next } })
              i
              (move_index l next_idx next))
    moves_index :
        (l : Popping) (next_idx : ℕ) (next : Ptr)
        → s.popper i ≡ move_index l next_idx next
        → PopStep s i (
            pop_go s
              (record s.queue { head = record s.queue.head { index = next_idx } })
              i
              (reading l))
    reads :
        (l : Popping) (x : A)
        → s.popper i ≡ reading l
        → read_slot s.queue l.chunk (position l.head % lap) ≡ done x
        → PopStep s i (pop_go s s.queue i (taken l x))
    marks_read :
        (l : Popping) (x : A) (old : Slot A) (q : CoQueue A)
        → s.popper i ≡ taken l x
        → position l.head % lap + 1 ≢ chunk_cap
        → change_slot s.queue l.chunk (position l.head % lap) (λ t. record t { read = true })
          ≡ done (old, q)
        → PopStep s i (
            pop_go s q i (
              if old.destroy
              then destroying l.chunk (position l.head % lap + 1) x
              else returned (some x)))
    destroys :
        (l : Popping) (x : A)
        → s.popper i ≡ taken l x
        → position l.head % lap + 1 ≡ chunk_cap
        → PopStep s i (pop_go s s.queue i (destroying l.chunk 0 x))
    sees_slot :
        (p : Ptr) (o : ℕ) (x : A) (read : Bool)
        → s.popper i ≡ destroying p o x
        → o < chunk_cap
        → read_state s.queue p o ≡ done read
        → PopStep s i (pop_go s s.queue i (if read then destroying p (o + 1) x else unread p o x))
    leaves_slot :
        (p : Ptr) (o : ℕ) (x : A) (old : Slot A) (q : CoQueue A)
        → s.popper i ≡ unread p o x
        → change_slot s.queue p o (λ t. record t { destroy = true }) ≡ done (old, q)
        → PopStep s i
            (pop_go s q i (if old.read then destroying p (o + 1) x else returned (some x)))
    frees :
        (p : Ptr) (x : A) (q : CoQueue A)
        → s.popper i ≡ destroying p chunk_cap x
        → free s.queue p ≡ done q
        → PopStep s i (pop_go s q i (returned (some x)))
    returns : (r : Option A) → s.popper i ≡ returned r → PopStep s i (pop_go s s.queue i outside)
