-- ===== src/CoQueue/State.antt =====
-- src/lockless_queue.rs: the state of a `CoQueue`, its words and its heap. A
-- `compare_exchange_weak` may fail for no reason: each round of a loop is told whether its own
-- does, and the list of these answers is the fuel.
use co_queue.Base.{
  List, [], ◌∷◌, Bool, true, false, ℕ, ◌+◌, ◌*◌, ◌/◌, ◌%◌, ◌^◌, Option, none, some, if◌then◌else◌,
  update, get_elem?, set,
}
use co_queue.Base.Outcome.{Outcome, done, fault, ◌>>=◌}
use co_queue.CoQueue.Chunk.{Ptr, Slot, Chunk, Heap, destroy_from, new_chunk}

-- `usize` arithmetic on 64 bits
abbrev pub word : ℕ → ℕ
word n = n % 2 ^ 64

-- `>> SHIFT`, `& HAS_NEXT`, `|= HAS_NEXT` and `& !HAS_NEXT`
abbrev pub position : ℕ → ℕ
position index = index / 2

abbrev pub has_next : ℕ → ℕ
has_next index = index % 2

abbrev pub with_next : ℕ → ℕ
with_next index = index / 2 * 2 + 1

abbrev pub without_next : ℕ → ℕ
without_next index = index / 2 * 2

-- `Segment`; `CachePad` around it only aligns it.
pub record Segment : Type 0 where
  pub index : ℕ
  pub chunk : Ptr

-- The two ends, with the heap of the chunks. `fresh` is the address that `Box::new` returns next.
pub record CoQueue {ℓ} (A : Type ℓ) : Type ℓ where
  pub head : Segment
  pub tail : Segment
  pub heap : Heap A
  pub fresh : Ptr

-- A round of a loop over the locals `L` goes on with new ones, or leaves the function.
pub data Round {ℓ κ ι} (L : Type ℓ) (Q : Type κ) (R : Type ι) : Type (ℓ ⊔ κ ⊔ ι) where
  again : L → Q → Round L Q R
  returned : R → Round L Q R

-- `next_chunk.unwrap()`
abbrev pub unwrap : Option Ptr → Outcome Ptr
unwrap none = fault
unwrap (some p) = done p

module _ {ℓ} {A : Type ℓ} where
  abbrev pub load : CoQueue A → Ptr → Outcome (Chunk A)
  load q p = elim (q.heap p) [ none ↦ fault | some c ↦ done c ]

  abbrev pub store : CoQueue A → Ptr → Chunk A → CoQueue A
  store q p c = record q { heap = update q.heap p (some c) }

  -- `Box::into_raw(Box::new(Chunk::new()))`; the address is `q.fresh`
  abbrev pub alloc : CoQueue A → CoQueue A
  alloc q = record q { heap = update q.heap q.fresh (some (new_chunk A)); fresh = q.fresh + 1 }

  -- `drop(Box::from_raw(p))`
  abbrev pub free : CoQueue A → Ptr → Outcome (CoQueue A)
  free q p = do _ ← load q p; done (record q { heap = update q.heap p none })

  -- An `Option<Box<Chunk<T>>>` that goes out of scope.
  abbrev pub drop_box : CoQueue A → Option Ptr → Outcome (CoQueue A)
  drop_box q none = done q
  drop_box q (some p) = free q p

  -- The slot of a chunk, and its replacement.
  abbrev pub slot_at : Chunk A → ℕ → Outcome (Slot A)
  slot_at c i = elim (get_elem? c.slots i) [ none ↦ fault | some s ↦ done s ]

  abbrev pub set_slot : Chunk A → ℕ → Slot A → Chunk A
  set_slot c i s = record c { slots = set c.slots i s }

  -- `Chunk::destroy(p, start)`
  unfoldable pub destroy : CoQueue A → Ptr → ℕ → Outcome (CoQueue A)
  unfolding destroy_from
  destroy q p start = do
    c ← load q p
    let (slots, all) = destroy_from start c.slots
    if all then free q p else done (store q p (record c { slots = slots }))

-- What the rounds of a loop are told: whether the exchange fails. Here one does not.
abbrev pub Succeeds : List Bool → Type 0
Succeeds [] = ⊥
Succeeds (false ∷ rest) = Unit
Succeeds (true ∷ rest) = Succeeds rest
