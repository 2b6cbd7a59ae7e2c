-- ===== src/CoQueue/Chunk.antt =====
-- src/lockless_queue.rs, `Slot` and `Chunk`: 31 slots and a link, on a heap.
use co_queue.Base.{
  ℕ, zero, suc, Bool, true, false, not, Option, none, some, List, [], ◌∷◌, ◌==◌, if◌then◌else◌,
  replicate,
}
use co_queue.Base.Outcome.{Outcome, done, spinning}

-- each block is LAP indexes; the last of them names no slot
abbrev pub lap : ℕ
lap = 32

abbrev pub chunk_cap : ℕ
chunk_cap = 31

abbrev pub Ptr : Type 0
Ptr = ℕ

abbrev pub null : Ptr
null = 0

-- The bits WRITE, READ and DESTROY of `state` are a Boolean each; a slot that `mem::zeroed` made
-- holds no value.
pub record Slot {ℓ} (A : Type ℓ) : Type ℓ where
  pub value : Option A
  pub write : Bool
  pub read : Bool
  pub destroy : Bool

pub record Chunk {ℓ} (A : Type ℓ) : Type ℓ where
  pub next : Ptr
  pub slots : List (Slot A)

abbrev pub Heap {ℓ} : Type ℓ → Type ℓ
Heap A = Ptr → Option (Chunk A)

module _ {ℓ} {A : Type ℓ} where
  -- `self.state.load(..) & WRITE == 0` keeps the loop going
  abbrev pub wait_write : Slot A → Outcome (Unit {0})
  wait_write s = if s.write then done tt else spinning

  abbrev pub wait_next : Chunk A → Outcome Ptr
  wait_next c = if c.next == null then spinning else done c.next

  -- The loop of `Chunk::destroy` over the slots from `start` on. The Boolean says whether the loop
  -- ran to its end, so that the chunk is freed; else a reader is left to do it, and is told so by
  -- DESTROY in its slot. Nothing sets READ between the load and the `fetch_or`, which see one bit.
  unfoldable pub destroy_slots : List (Slot A) → List (Slot A) × Bool
  destroy_slots [] = ([], true)
  destroy_slots (s ∷ ss) =
      let (rest, all) = destroy_slots ss in
      if not s.read then (record s { destroy = true } ∷ ss, false) else (s ∷ rest, all)

  -- `slots[0..start]` stays as it is.
  unfoldable pub destroy_from : ℕ → List (Slot A) → List (Slot A) × Bool
  unfolding destroy_slots
  destroy_from zero ss = destroy_slots ss
  destroy_from (suc n) [] = ([], true)
  destroy_from (suc n) (s ∷ ss) = let (rest, all) = destroy_from n ss in (s ∷ rest, all)

module _ {ℓ} (A : Type ℓ) where
  abbrev pub empty_slot : Slot A
  empty_slot = record { value = none; write = false; read = false; destroy = false }

  -- `mem::zeroed()`
  abbrev pub new_chunk : Chunk A
  new_chunk = record { next = null; slots = replicate chunk_cap empty_slot }

-- The slot after `push` wrote to it, and after `pop` read it.
abbrev pub full_slot {ℓ} : {A : Type ℓ} → A → Slot A
full_slot x = record { value = some x; write = true; read = false; destroy = false }
