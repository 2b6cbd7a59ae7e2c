-- ===== src/CoQueue/Threads/Ahead.antt =====
-- src/lockless_queue.rs, `CoQueue::push` and `CoQueue::pop` by many threads: what holds of the head,
-- of the links between the chunks and of the locals of each popper.
use co_queue.Base.{ℕ, ◌+◌, ◌/◌, ◌%◌, ◌≤◌, ◌<◌, ◌≡◌, ◌≢◌, Option, none, some}
use co_queue.CoQueue.Chunk.{Ptr, null, Chunk, Heap}
use co_queue.CoQueue.State.{CoQueue}
use co_queue.CoQueue.Threads.{
  PushPc, heading, set_index, set_link, PopPc, has_head, round, checked, waiting, found, move_chunk,
  move_index, reading, taken, Crowd,
}
use co_queue.CoQueue.Threads.Invariant.{tail_of, chunk_of}

module _ {ℓ} {A : Type ℓ} where
  -- Whether the thread has to store the first chunk in the head.
  abbrev pub heads : PushPc A → ℕ
  heads (heading x l) = 1
  heads _ = 0

  -- The chunk that the thread has to link, and whether the tail's index is in that chunk.
  abbrev pub link_of : PushPc A → Option Ptr
  link_of (set_index x l p) = some p
  link_of (set_link x l p) = some p
  link_of _ = none

  abbrev pub entered : PushPc A → ℕ
  entered (set_link x l p) = 1
  entered _ = 0

  -- From 4 to 8 a popper has moved the head past the slot that it reads.
  abbrev pub pop_stage : PopPc A → ℕ
  pop_stage (has_head h) = 1
  pop_stage (round l) = 2
  pop_stage (checked l n) = 3
  pop_stage (waiting l n) = 4
  pop_stage (found l n p) = 5
  pop_stage (move_chunk l n p) = 6
  pop_stage (move_index l n p) = 7
  pop_stage (reading l) = 8
  pop_stage (taken l x) = 8
  pop_stage _ = 0

  abbrev pub head_of : PopPc A → ℕ
  head_of (has_head h) = h
  head_of (round l) = l.head
  head_of (checked l n) = l.head
  head_of (waiting l n) = l.head
  head_of (found l n p) = l.head
  head_of (move_chunk l n p) = l.head
  head_of (move_index l n p) = l.head
  head_of (reading l) = l.head
  head_of (taken l x) = l.head
  head_of _ = 0

  abbrev pub pop_chunk : PopPc A → Ptr
  pop_chunk (round l) = l.chunk
  pop_chunk (checked l n) = l.chunk
  pop_chunk (waiting l n) = l.chunk
  pop_chunk (found l n p) = l.chunk
  pop_chunk (move_chunk l n p) = l.chunk
  pop_chunk (move_index l n p) = l.chunk
  pop_chunk (reading l) = l.chunk
  pop_chunk (taken l x) = l.chunk
  pop_chunk _ = null

  -- The index that the head is to have.
  abbrev pub target : PopPc A → ℕ
  target (checked l n) = n
  target (waiting l n) = n
  target (found l n p) = n
  target (move_chunk l n p) = n
  target (move_index l n p) = n
  target _ = 0

  -- The chunk that the head is to move to.
  abbrev pub onto : PopPc A → Ptr
  onto (found l n p) = p
  onto (move_chunk l n p) = p
  onto (move_index l n p) = p
  onto _ = null

  -- The same numbering of the chunks as for the pushers; `head`, `first` and `index` are the head's
  -- index and chunk and the tail's index.
  pub record PopFits (lap_of : ℕ → ℕ) (head first index : ℕ) (p : PopPc A) : Type 0 where
    pub below : 1 ≤ pop_stage p → head_of p ≤ head
    pub looks :
        2 ≤ pop_stage p
        → pop_stage p ≤ 3
        → head_of p ≡ head
        → head / 2 % 32 ≢ 31
        → pop_chunk p ≢ 0
        → pop_chunk p ≡ first
    pub tested :
        pop_stage p ≡ 3
        → (target p / 2 ≡ head_of p / 2 + 1)
          × (head_of p / 2 % 32 ≢ 31)
          × (head_of p ≡ head → head / 2 < index / 2)
          × (head_of p ≡ head → target p % 2 ≡ 1 → head / 64 < index / 64)
    pub claims :
        4 ≤ pop_stage p
        → (head_of p / 2 < head / 2)
          × (head_of p / 2 % 32 ≢ 31)
          × (lap_of (pop_chunk p) ≡ head_of p / 64 + 1)
    pub closes :
        4 ≤ pop_stage p
        → pop_stage p ≤ 7
        → (head / 2 ≡ head_of p / 2 + 1) × (head_of p / 2 % 32 ≡ 30)
    pub aims : 4 ≤ pop_stage p → pop_stage p ≤ 5 → target p / 2 ≡ head_of p / 2 + 1
    pub nexts :
        5 ≤ pop_stage p
        → pop_stage p ≤ 7
        → (lap_of (onto p) ≡ head_of p / 64 + 2) × (onto p ≢ 0) × (head_of p / 64 + 1 ≤ index / 64)
    pub lands :
        6 ≤ pop_stage p
        → pop_stage p ≤ 7
        → (target p / 2 ≡ head_of p / 2 + 2) × (target p % 2 ≡ 1 → head_of p / 64 + 2 ≤ index / 64)
    pub moved : pop_stage p ≡ 7 → first ≡ onto p

  abbrev pub PopApart : PopPc A → PopPc A → Type 0
  PopApart a b = 4 ≤ pop_stage a → 4 ≤ pop_stage b → head_of a / 2 ≢ head_of b / 2

  -- The links of the heap go from one lap to the next, and none of them is past the tail.
  abbrev pub Links : (ℕ → ℕ) → ℕ → Heap A → Type ℓ
  Links lap_of index h =
      (p : Ptr) (c : Chunk A)
      → h p ≡ some c
      → c.next ≢ 0
      → (lap_of p ≢ 0) × (lap_of c.next ≡ lap_of p + 1) × (lap_of c.next ≤ index / 64 + 1)

  pub record Heads (lap_of : ℕ → ℕ) (q : CoQueue A) : Type ℓ where
    pub below : q.head.index / 2 ≤ q.tail.index / 2
    pub flag : q.head.index % 2 ≡ 1 → q.head.index / 64 < q.tail.index / 64
    pub current :
        q.head.chunk ≢ 0 → q.head.index / 2 % 32 ≢ 31 → lap_of q.head.chunk ≡ q.head.index / 64 + 1
    pub unset : q.head.chunk ≡ 0 → q.head.index ≡ 0
    pub follows : q.tail.chunk ≡ 0 → q.head.chunk ≡ 0
    pub links : Links lap_of q.tail.index q.heap

  -- What a pusher has still to do for the poppers.
  pub record Owes (lap_of : ℕ → ℕ) (q : CoQueue A) (p : PushPc A) : Type 0 where
    pub first : heads p ≡ 1 → (q.head.chunk ≡ 0) × (lap_of (chunk_of p) ≡ 1) × (q.tail.chunk ≢ 0)
    pub linking :
        (c : Ptr)
        → link_of p ≡ some c
        → (lap_of c ≡ tail_of p / 64 + 2) × (entered p ≡ 1 → tail_of p / 64 + 1 ≤ q.tail.index / 64)

  pub record Ahead (lap_of : ℕ → ℕ) (s : Crowd A) : Type ℓ where
    pub head : Heads lap_of s.queue
    pub owes : (k : ℕ) → Owes lap_of s.queue (s.pc k)
    pub one : (j k : ℕ) → j ≢ k → heads (s.pc j) ≡ 1 → heads (s.pc k) ≢ 1
    pub pops :
        (k : ℕ)
        → PopFits lap_of s.queue.head.index s.queue.head.chunk s.queue.tail.index (s.popper k)
    pub apart : (j k : ℕ) → j ≢ k → PopApart (s.popper j) (s.popper k)
