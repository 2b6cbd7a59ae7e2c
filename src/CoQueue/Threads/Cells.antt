-- ===== src/CoQueue/Threads/Cells.antt =====
-- src/lockless_queue.rs, `CoQueue::push` and `CoQueue::pop` by many threads: what the chunks hold.
use co_queue.Base.{
  ℕ, ◌+◌, ◌-◌, ◌*◌, ◌/◌, ◌%◌, ◌≤◌, ◌≡◌, ◌≢◌, Bool, true, false, Option, none, some, List, length,
  get_elem?,
}
use co_queue.CoQueue.Chunk.{Ptr, Slot, Chunk, Heap, new_chunk}
use co_queue.CoQueue.Threads.{
  PushPc, set_chunk, set_index, set_link, writing, marking, PopPc, returned, taken, destroying,
  unread, Crowd,
}
use co_queue.CoQueue.Threads.Invariant.{tail_of, chunk_of, spare_of}
use co_queue.CoQueue.Threads.Ahead.{pop_stage, head_of}

-- How many positions below this one name a slot: the last of each lap does not.
abbrev pub rank : ℕ → ℕ
rank p = p - p / 32

module _ {ℓ} {A : Type ℓ} where
  -- The values in the order in which their pushes won a slot are `vals`; a slot whose WRITE is set
  -- holds the value of its rank.
  pub record CellFits (vals : List A) (r o : ℕ) (t : Slot A) : Type ℓ where
    pub full : t.write ≡ true → (t.value ≡ get_elem? vals r) × (t.value ≢ none)
    pub last : o ≡ 30 → t.read ≡ false

  -- The slots of the chunk of lap `b`. Nobody marks the last one as read.
  pub record ChunkFits (vals : List A) (b : ℕ) (c : Chunk A) : Type ℓ where
    pub size : length c.slots ≡ 31
    pub cells :
        (o : ℕ) (t : Slot A) → get_elem? c.slots o ≡ some t → CellFits vals (rank (32 * b + o)) o t

  -- Every chunk that was linked is there.
  abbrev pub HeapFits : (ℕ → ℕ) → List A → Heap A → Type ℓ
  HeapFits lap_of vals h =
      (p : Ptr) → lap_of p ≢ 0 → (c : Chunk A) × (h p ≡ some c) × ChunkFits vals (lap_of p - 1) c

  abbrev pub slot_in : Option (Chunk A) → ℕ → Option (Slot A)
  slot_in none o = none
  slot_in (some c) o = get_elem? c.slots o

  -- The value that a thread has claimed a slot for, and not written yet.
  abbrev pub holds : PushPc A → Option A
  holds (set_chunk x l p) = some x
  holds (set_index x l p) = some x
  holds (set_link x l p) = some x
  holds (writing x l) = some x
  holds _ = none

  -- Whether the thread has written its value, and not set WRITE yet.
  abbrev pub written : PushPc A → Bool
  written (marking l) = true
  written _ = false

  -- The value that a thread in `pop` has read.
  abbrev pub result_of : PopPc A → Option A
  result_of (taken l x) = some x
  result_of (destroying p o x) = some x
  result_of (unread p o x) = some x
  result_of (returned r) = r
  result_of _ = none

  -- The slot at which a thread in `Chunk::destroy` stands.
  abbrev pub ruins : PopPc A → Option (Ptr × ℕ)
  ruins (destroying p o x) = some (p, o)
  ruins (unread p o x) = some (p, o)
  ruins _ = none

  -- What a pusher knows of the memory.
  pub record PushHolds (vals : List A) (h : Heap A) (p : PushPc A) : Type ℓ where
    pub spare : (c : Ptr) → spare_of p ≡ some c → h c ≡ some (new_chunk A)
    pub claimed : (x : A) → holds p ≡ some x → get_elem? vals (rank (tail_of p / 2)) ≡ some x
    pub stored :
        (t : Slot A)
        → written p ≡ true
        → slot_in (h (chunk_of p)) (tail_of p / 2 % 32) ≡ some t
        → (t.value ≡ get_elem? vals (rank (tail_of p / 2))) × (t.value ≢ none)

  -- What a popper knows, which was the `place`-th to win a slot.
  pub record PopHolds (lap_of : ℕ → ℕ) (vals : List A) (place : ℕ) (p : PopPc A) : Type ℓ where
    pub placed : 4 ≤ pop_stage p → place ≡ rank (head_of p / 2)
    pub got : (x : A) → result_of p ≡ some x → get_elem? vals place ≡ some x
    pub site : (c : Ptr) (o : ℕ) → ruins p ≡ some (c, o) → (lap_of c ≢ 0) × (o ≤ 30)

  pub record Cells (lap_of : ℕ → ℕ) (vals : List A) (won : ℕ) (place : ℕ → ℕ) (s : Crowd A)
      : Type ℓ where
    pub pushed : length vals ≡ rank (s.queue.tail.index / 2)
    pub popped : won ≡ rank (s.queue.head.index / 2)
    pub heap : HeapFits lap_of vals s.queue.heap
    pub push : (k : ℕ) → PushHolds vals s.queue.heap (s.pc k)
    pub pop : (k : ℕ) → PopHolds lap_of vals (place k) (s.popper k)
