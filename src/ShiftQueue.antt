-- ===== src/ShiftQueue.antt =====
-- src/queue/mod.rs: `Node`, `RawQueue` and `ShiftQueue` over an explicit heap of nodes. One thread
-- runs at a time, so the mutexes of the two guards are free; each compare-exchange still compares
-- with the pointer in the queue. The loops run on fuel. `println!` is left out, with what formatting
-- the queue does to its guards.
pub mod Nodes
pub mod Pop
pub mod Accepts
pub mod Serves
pub mod Fifo
pub mod Drops
pub mod Halfway
mod Examples
use co_queue.Base.{
  ℕ, zero, suc, ◌+◌, Bool, true, false, not, ◌&&◌, Option, none, some, ◌==◌, if◌then◌else◌, update,
}
use co_queue.Base.Outcome.{Outcome, done, fault, spinning, ◌>>=◌}
use co_queue.PtrGuard
use co_queue.PtrGuard.{PtrGuard, Popped, nothing, value, garbage}

abbrev pub Ptr : Type 0
Ptr = ℕ

abbrev pub null : Ptr
null = 0

-- The node that `Node::default` makes holds no value.
pub record Node {ℓ} (A : Type ℓ) : Type ℓ where
  pub item : Option A
  pub next : Ptr

pub record RawQueue {ℓ} (A : Type ℓ) : Type ℓ where
  pub head : Ptr
  pub tail : Ptr
  pub push_guard : PtrGuard Ptr
  pub pop_guard : PtrGuard Ptr
  pub heap : Ptr → Option (Node A)
  pub fresh : Ptr

abbrev pub default_node {ℓ} : (A : Type ℓ) → Node A
default_node A = record { item = none; next = null }

-- `RawQueue::with_threads`; the empty node stands at the first address.
unfoldable pub with_threads {ℓ} : (A : Type ℓ) → ℕ → RawQueue A
with_threads A threads = record {
  head = 1;
  tail = 1;
  push_guard = PtrGuard.with_threads Ptr threads;
  pop_guard = PtrGuard.with_threads Ptr threads;
  heap = update (λ _. none) 1 (some (default_node A));
  fresh = 2;
}

-- `RawQueue::new`, with what `num_cpus::get()` returns.
abbrev pub new {ℓ} : (A : Type ℓ) → (num_cpus : ℕ) → RawQueue A
new A num_cpus = with_threads A num_cpus

module _ {ℓ} {A : Type ℓ} where
  abbrev pub load : RawQueue A → Ptr → Outcome (Node A)
  load q p = elim (q.heap p) [ none ↦ fault | some n ↦ done n ]

  abbrev pub store : RawQueue A → Ptr → Node A → RawQueue A
  store q p n = record q { heap = update q.heap p (some n) }

  -- The drop of an `Owned`.
  abbrev pub free : RawQueue A → Ptr → Outcome (RawQueue A)
  free q p = do _ ← load q p; done (record q { heap = update q.heap p none })

  -- `Owned::new(Node::new(val))`, at the address `q.fresh`
  abbrev pub alloc : RawQueue A → A → RawQueue A
  alloc q x = record q {
    heap = update q.heap q.fresh (some (record { item = some x; next = null }));
    fresh = q.fresh + 1;
  }

  unfoldable pub is_empty : RawQueue A → Outcome Bool
  is_empty q = do n ← load q q.head; done (n.next == null)

  -- A node that could not be linked goes to the guard; a full guard is a panic.
  unfoldable pub keep_in_guard : RawQueue A → Ptr → Outcome (RawQueue A × Bool)
  keep_in_guard q node =
      let (g, back) = PtrGuard.push q.push_guard node in
      elim back [ none ↦ done (record q { push_guard = g }, false) | some _ ↦ fault ]

  -- Link `node` behind `tail`, and move the tail to it; the `assert!` may fail.
  unfoldable pub link : RawQueue A → Ptr → Node A → Ptr → Outcome (RawQueue A)
  link q tail n node =
      let q₁ = store q tail (record n { next = node }) in
      if q₁.tail == tail then done (record q₁ { tail = node }) else fault

  -- A node that was kept in the guard is linked first. Memory that holds no pointer must not be used.
  unfoldable pub push_kept : RawQueue A → Ptr → Outcome (RawQueue A × Bool)
  push_kept q tail =
      let (g, r) = PtrGuard.pop q.push_guard in
      let q₁ = record q { push_guard = g } in
      elim r [
        | nothing ↦ done (q₁, false)
        | garbage ↦ fault
        | value kept ↦ do
          n ← load q₁ tail
          if n.next == null
              then (do q₂ ← link q₁ tail n kept; done (q₂, false))
              else done (q₁, false)
      ]

  -- `_push` once it has loaded the tail and its link: the queue may have changed since. The test of
  -- the link in the common path and the exchange behind it are one access, so that exchange succeeds.
  unfoldable pub push_loaded : RawQueue A → (tail next node : Ptr) → Outcome (RawQueue A × Bool)
  push_loaded q tail next node =
      if not (next == null)
      then (if q.tail == tail then done (record q { tail = node }, true) else keep_in_guard q node)
      else (do
        n ← load q tail
        if PtrGuard.is_empty q.push_guard && n.next == null
            then (do q₁ ← link q tail n node; done (q₁, true))
            else push_kept q tail)

  -- `RawQueue::_push`
  unfoldable pub push_once : RawQueue A → Ptr → Outcome (RawQueue A × Bool)
  push_once q node = do n ← load q q.tail; push_loaded q q.tail n.next node

  -- `while !self._push(new) {}`
  unfoldable pub push_loop : ℕ → RawQueue A → Ptr → Outcome (RawQueue A)
  push_loop zero q node = spinning
  push_loop (suc fuel) q node = do
    (q₁, linked) ← push_once q node
    elim linked [ true ↦ done q₁ | false ↦ push_loop fuel q₁ node ]

  unfoldable pub push : ℕ → RawQueue A → A → Outcome (RawQueue A)
  push fuel q x = push_loop fuel (alloc q x) q.fresh
