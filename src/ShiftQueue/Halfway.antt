-- ===== src/ShiftQueue/Halfway.antt =====
-- `push` of src/queue/mod.rs that finds the insert of another thread half done: the tail's node is linked
-- to a new one, and the tail was not moved yet.
use co_queue.Base.{
  ℕ, suc, ◌<◌, ◌≡◌, ◌≢◌, refl, sym, ap, ◌∙◌, true, some, update_self, update_ne, arith,
}
use native.Mathlib.Decide.{ℕ_discrete}
use co_queue.Base.Outcome.{done}
use co_queue.ShiftQueue.{Ptr, null, Node, RawQueue, alloc, push, push_once, push_loop, push_loaded}

module _ {ℓ} {A : Type ℓ} where
  push_once-halfway :
      (q : RawQueue A) (node : Ptr) (n : Node A)
      → q.heap q.tail ≡ some n
      → n.next ≢ null
      → push_once q node ≡ done (record q { tail = node }, true)
  unfolding push_once push_loaded
  push_once-halfway q node n here linked = ground (arith, here, linked)

  fresh_unlinked :
      (fresh : Ptr) (x : A) (m : Node A)
      → 0 < fresh
      → some (record { item = some x; next = null }) ≡ some m
      → m.next ≢ fresh
  fresh_unlinked fresh x m pos e same = ground (arith, e, same)

  -- Such a push returns, and takes the tail for its node, which no node is linked to, if none was before.
  -- The other thread's assertion, that the tail is what it loaded, then fails.
  pub push-halfway :
      (fuel : ℕ) (q : RawQueue A) (x : A) (n : Node A)
      → q.heap q.tail ≡ some n
      → n.next ≢ null
      → q.tail < q.fresh
      → ((p : Ptr) (m : Node A) → q.heap p ≡ some m → m.next ≢ q.fresh)
      → (q' : RawQueue A) × (push (suc fuel) q x ≡ done q')
        × (q'.tail ≡ q.fresh)
        × (q'.tail ≢ q.tail)
        × ((p : Ptr) (m : Node A) → q'.heap p ≡ some m → m.next ≢ q'.tail)
  unfolding push push_loop
  push-halfway fuel q x n here linked below apart =
      let here' =
        update_ne q.heap q.fresh (some (record { item = some x; next = null })) q.tail (omega arith)
        ∙ here in
      (
        record (alloc q x) { tail = q.fresh },
        rw (push_once-halfway (alloc q x) q.fresh n here' linked, push_loop) refl,
        refl,
        omega arith,
        λ p m e. elim (ℕ_discrete q.fresh p) [
          | yes new ↦
              fresh_unlinked q.fresh x m (omega arith)
                (sym (update_self q.heap q.fresh _) ∙ ap (alloc q x).heap new ∙ e)
          | no old ↦ apart p m (sym (update_ne q.heap q.fresh _ p old) ∙ e)
        ],
      )
