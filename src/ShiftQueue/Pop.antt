-- ===== src/ShiftQueue/Pop.antt =====
-- src/queue/mod.rs: `RawQueue::_pop`, the pops of `ShiftQueue`, and the `Drop` of the queue.
use co_queue.Base.{ℕ, zero, suc, ◌+◌, not, Option, none, some, ◌==◌, if◌then◌else◌}
use co_queue.Base.Outcome.{Outcome, done, fault, spinning, ◌>>=◌}
use co_queue.PtrGuard
use co_queue.PtrGuard.{Popped, nothing, value, garbage}
use co_queue.ShiftQueue.{Ptr, null, Node, RawQueue, load, free}

-- `Result<Option<T>, ()>`
pub data Attempt {ℓ} (A : Type ℓ) : Type ℓ where
  ok : Option A → Attempt A
  lost : Attempt A

module _ {ℓ} {A : Type ℓ} where
  -- `while let Ok(_popped) = self.pop_guard.pop() {}`: each node that is popped is dropped. To drop
  -- what was read from memory that holds no pointer is undefined behaviour.
  unfoldable pub clear_guard : ℕ → RawQueue A → Outcome (RawQueue A)
  clear_guard zero q = spinning
  clear_guard (suc fuel) q =
      let (g, r) = PtrGuard.pop q.pop_guard in
      let q₁ = record q { pop_guard = g } in
      elim r [
        | nothing ↦ done q₁
        | garbage ↦ fault
        | value p ↦ do q₂ ← free q₁ p; clear_guard fuel q₂
      ]

  -- The guard was full: its push has handed the node back, and that `Owned` is dropped. The guard
  -- is cleared, and the same node is pushed again; the `assert!` may fail.
  unfoldable pub make_room : RawQueue A → Ptr → Outcome (RawQueue A)
  make_room q old_head = do
    q₁ ← free q old_head
    q₂ ← clear_guard (q₁.pop_guard.len + 1) q₁
    let (g, back) = PtrGuard.push q₂.pop_guard old_head
    elim back [ none ↦ done (record q₂ { pop_guard = g }) | some _ ↦ fault ]

  -- The old head goes to the guard, which collects garbage.
  unfoldable pub retire : RawQueue A → Ptr → Outcome (RawQueue A)
  retire q old_head =
      let (g, back) = PtrGuard.push q.pop_guard old_head in
      elim back [ none ↦ done (record q { pop_guard = g }) | some _ ↦ make_room q old_head ]

  -- `ptr::read((*next).data.deref())`
  abbrev pub read_item : Node A → Outcome A
  read_item n = elim n.item [ none ↦ fault | some x ↦ done x ]

  -- `_pop` once it has loaded the head and its link: the queue may have changed since.
  unfoldable pub pop_loaded : RawQueue A → (head next : Ptr) → Outcome (RawQueue A × Attempt A)
  pop_loaded q head next =
      if not (next == null)
      then (if q.head == head
          then (do
            q₁ ← retire (record q { head = next }) head
            n ← load q₁ next
            x ← read_item n
            done (q₁, ok (some x)))
          else done (q, lost))
      else done (q, ok none)

  -- `RawQueue::_pop`
  unfoldable pub pop_once : RawQueue A → Outcome (RawQueue A × Attempt A)
  pop_once q = do n ← load q q.head; pop_loaded q q.head n.next

  -- `RawQueue::try_pop`
  unfoldable pub try_pop : ℕ → RawQueue A → Outcome (RawQueue A × Option A)
  try_pop zero q = spinning
  try_pop (suc fuel) q = do
    (q₁, r) ← pop_once q
    elim r [ ok o ↦ done (q₁, o) | lost ↦ try_pop fuel q₁ ]

  -- `ShiftQueue::pop`
  unfoldable pub pop : ℕ → RawQueue A → Outcome (RawQueue A × A)
  pop zero q = spinning
  pop (suc fuel) q = do
    (q₁, o) ← try_pop (suc fuel) q
    elim o [ some x ↦ done (q₁, x) | none ↦ pop fuel q₁ ]

  -- `Drop`: the values are popped and dropped, and the last node is freed.
  unfoldable pub drop : ℕ → RawQueue A → Outcome (RawQueue A)
  drop zero q = spinning
  drop (suc fuel) q = do
    (q₁, o) ← try_pop (suc fuel) q
    elim o [ some _ ↦ drop fuel q₁ | none ↦ free q₁ q₁.head ]
