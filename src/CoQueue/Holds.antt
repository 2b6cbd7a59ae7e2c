-- ===== src/CoQueue/Holds.antt =====
-- When a `CoQueue` of src/lockless_queue.rs holds a list of values: the abstract view that its
-- operations refine.
use co_queue.Base.{ℕ, ◌+◌, ◌*◌, ◌^◌, ◌<◌, ◌≡◌, ap, List, [], length, length-append, arith}
use co_queue.CoQueue.Chunk.{null, Heap}
use co_queue.CoQueue.State.{position, has_next, CoQueue}
use co_queue.CoQueue.Chain.{Chain, last, more, Chain-le}

-- Nothing was ever pushed: there is no chunk yet.
pub record Blank {ℓ} {A : Type ℓ} (q : CoQueue A) : Type 0 where
  pub head_index : q.head.index ≡ 0
  pub head_chunk : q.head.chunk ≡ null
  pub tail_index : q.tail.index ≡ 0
  pub tail_chunk : q.tail.chunk ≡ null
  pub fresh_pos : 0 < q.fresh

-- The head stands at slot `i` of chunk number `l`, the tail at slot `j` of chunk number `l + n`.
pub record Linked {ℓ} {A : Type ℓ} (q : CoQueue A) (l n i j : ℕ) (xs : List A) : Type ℓ where
  pub head_at : position q.head.index ≡ 32 * l + i
  pub flag : has_next q.head.index ≡ 1 → 0 < n
  pub tail_at : q.tail.index ≡ 2 * (32 * (l + n) + j)
  pub head_in : i < 31
  pub tail_in : j < 31
  pub small : q.tail.index < 2 ^ 64
  pub chain : Chain q.heap q.tail.chunk j n q.head.chunk i xs
  pub nonnull : 0 < q.head.chunk
  pub below : q.tail.chunk < q.fresh

pub data Holds {ℓ} {A : Type ℓ} (q : CoQueue A) (xs : List A) : Type ℓ where
  blank : Blank q → xs ≡ [] → Holds q xs
  linked : {l n i j : ℕ} → Linked q l n i j xs → Holds q xs

module _ {ℓ} {A : Type ℓ} where
  -- The slots between the ends are the values.
  pub Chain-length :
      {heap : Heap A} {tail j n p i : ℕ} {xs : List A}
      → Chain heap tail j n p i xs
      → i + length xs ≡ 31 * n + j
  Chain-length (last e b) = omega (arith, b.layout.finish)
  Chain-length (more next ys zs b lt c e) =
      omega (arith, b.layout.finish, Chain-length c, ap length e, length-append ys zs)

  pub Linked-length :
      {q : CoQueue A} {l n i j : ℕ} {xs : List A} → Linked q l n i j xs → i + length xs ≡ 31 * n + j
  Linked-length h = Chain-length h.chain

  pub tail_nonnull :
      {q : CoQueue A} {l n i j : ℕ} {xs : List A} → Linked q l n i j xs → 0 < q.tail.chunk
  tail_nonnull h = omega (arith, h.nonnull, Chain-le h.chain)
