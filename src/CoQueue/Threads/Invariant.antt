-- ===== src/CoQueue/Threads/Invariant.antt =====
-- src/lockless_queue.rs, `CoQueue::push` by many threads: what holds of the tail, of the chunks that
-- were linked and of the locals of each thread, whatever the order of the accesses.
use native.Mathlib.Decide.{ℕ_discrete}
use co_queue.Base.{
  ℕ, ◌+◌, ◌/◌, ◌%◌, ◌≤◌, ◌<◌, ◌≡◌, ◌≢◌, sym, ◌∙◌, Option, none, some, update_self, update_ne,
}
use co_queue.CoQueue.Chunk.{Ptr, null}
use co_queue.CoQueue.State.{CoQueue}
use co_queue.CoQueue.Threads.{
  PushPc, idle, half, looped, heading, set_chunk, set_index, set_link, writing, marking, Crowd, go,
}

module _ {ℓ} {A : Type ℓ} where
  -- From 3 on a thread has moved the tail past the slot that it fills.
  abbrev pub stage : PushPc A → ℕ
  stage idle = 0
  stage (half x n t) = 1
  stage (looped x l) = 2
  stage (heading x l) = 2
  stage (set_chunk x l p) = 3
  stage (set_index x l p) = 4
  stage (set_link x l p) = 5
  stage (writing x l) = 5
  stage (marking l) = 5

  abbrev pub tail_of : PushPc A → ℕ
  tail_of idle = 0
  tail_of (half x n t) = t
  tail_of (looped x l) = l.tail
  tail_of (heading x l) = l.tail
  tail_of (set_chunk x l p) = l.tail
  tail_of (set_index x l p) = l.tail
  tail_of (set_link x l p) = l.tail
  tail_of (writing x l) = l.tail
  tail_of (marking l) = l.tail

  abbrev pub chunk_of : PushPc A → Ptr
  chunk_of idle = null
  chunk_of (half x n t) = null
  chunk_of (looped x l) = l.chunk
  chunk_of (heading x l) = l.chunk
  chunk_of (set_chunk x l p) = l.chunk
  chunk_of (set_index x l p) = l.chunk
  chunk_of (set_link x l p) = l.chunk
  chunk_of (writing x l) = l.chunk
  chunk_of (marking l) = l.chunk

  -- The chunk that only this thread knows.
  abbrev pub spare_of : PushPc A → Option Ptr
  spare_of idle = none
  spare_of (half x n t) = n
  spare_of (looped x l) = l.next_chunk
  spare_of (heading x l) = l.next_chunk
  spare_of (set_chunk x l p) = some p
  spare_of (set_index x l p) = none
  spare_of (set_link x l p) = none
  spare_of (writing x l) = l.next_chunk
  spare_of (marking l) = l.next_chunk

  -- `lap_of c` is one more than the lap whose slots chunk `c` has; it is 0 if `c` was not linked.
  pub record Fits (lap_of : ℕ → ℕ) (index chunk fresh : ℕ) (p : PushPc A) : Type 0 where
    pub even : 1 ≤ stage p → tail_of p % 2 ≡ 0
    pub below : 1 ≤ stage p → tail_of p ≤ index
    pub looks :
        stage p ≡ 2 → tail_of p ≡ index → index / 2 % 32 ≢ 31 → chunk_of p ≢ 0 → chunk_of p ≡ chunk
    pub claims :
        3 ≤ stage p
        → (tail_of p + 2 ≤ index)
          × (tail_of p / 2 % 32 ≢ 31)
          × (lap_of (chunk_of p) ≡ tail_of p / 64 + 1)
    pub spares : (c : Ptr) → spare_of p ≡ some c → (lap_of c ≡ 0) × (c < fresh) × (c ≢ 0)
    pub closes : stage p ≡ 3 → (index ≡ tail_of p + 2) × (tail_of p / 2 % 32 ≡ 30)
    pub moves :
        stage p ≡ 4
        → (index ≡ tail_of p + 2) × (tail_of p / 2 % 32 ≡ 30) × (lap_of chunk ≡ tail_of p / 64 + 2)

  pub record Apart (a b : PushPc A) : Type 0 where
    pub slots : 3 ≤ stage a → 3 ≤ stage b → tail_of a ≢ tail_of b
    pub boxes : (c d : Ptr) → spare_of a ≡ some c → spare_of b ≡ some d → c ≢ d

  pub Apart-sym : (a b : PushPc A) → Apart a b → Apart b a
  Apart-sym a b h = record {
    slots = λ x y e. h.slots y x (sym e);
    boxes = λ c d x y e. h.boxes d c y x (sym e);
  }

pub record TailFits (lap_of : ℕ → ℕ) (index chunk fresh : ℕ) : Type 0 where
  pub unlinked : (c : Ptr) → fresh ≤ c → lap_of c ≡ 0
  pub some_fresh : 1 ≤ fresh
  pub even : index % 2 ≡ 0
  pub unset : chunk ≡ 0 → index ≡ 0
  pub current : chunk ≢ 0 → index / 2 % 32 ≢ 31 → lap_of chunk ≡ index / 64 + 1

module _ {ℓ} {A : Type ℓ} where
  pub record Inv (lap_of : ℕ → ℕ) (s : Crowd A) : Type 0 where
    pub shared : TailFits lap_of s.queue.tail.index s.queue.tail.chunk s.queue.fresh
    pub fits : (k : ℕ) → Fits lap_of s.queue.tail.index s.queue.tail.chunk s.queue.fresh (s.pc k)
    pub apart : (j k : ℕ) → j ≢ k → Apart (s.pc j) (s.pc k)

  -- Thread `i` goes to `p`, and what it does to the tail suits the others.
  pub Inv-go :
      {lap_of : ℕ → ℕ} {s : Crowd A}
      → Inv lap_of s
      → (lap' : ℕ → ℕ) (q : CoQueue A) (i : ℕ) (p : PushPc A)
      → TailFits lap' q.tail.index q.tail.chunk q.fresh
      → Fits lap' q.tail.index q.tail.chunk q.fresh p
      → ((b : PushPc A)
          → Fits lap_of s.queue.tail.index s.queue.tail.chunk s.queue.fresh b
          → Apart (s.pc i) b
          → Fits lap' q.tail.index q.tail.chunk q.fresh b × Apart p b)
      → Inv lap' (go s q i p)
  Inv-go {s = s} inv lap' q i p shared fit others = record {
    shared = shared;
    fits = λ k. elim (ℕ_discrete i k) [
      | yes same ↦ rw (← same, update_self s.pc i p) fit
      | no other ↦
          rw (update_ne s.pc i p k other) (others (s.pc k) (inv.fits k) (inv.apart i k other)).0
    ];
    apart = λ j k ne. elim (ℕ_discrete i j) [
      | yes first ↦
          let other : i ≢ k = λ e. ne (sym first ∙ e) in
          rw (← first, update_self s.pc i p, update_ne s.pc i p k other)
            (others (s.pc k) (inv.fits k) (inv.apart i k other)).1
      | no other ↦ rw (update_ne s.pc i p j other) (elim (ℕ_discrete i k) [
        | yes same ↦
            rw (← same, update_self s.pc i p)
              (Apart-sym p (s.pc j) (others (s.pc j) (inv.fits j) (inv.apart i j other)).1)
        | no apart ↦ rw (update_ne s.pc i p k apart) (inv.apart j k ne)
      ])
    ];
  }
