-- ===== src/ShiftQueue/Drops.antt =====
-- What the `Drop` of src/queue/mod.rs frees.
use co_queue.Base.{
  ℕ, zero, suc, ◌+◌, ◌≤◌, ◌<◌, ◌≡◌, ◌≢◌, sym, ◌∙◌, ap, none, some, List, [], ◌∷◌, length, update,
  update_ne, update_self, arith,
}
use co_queue.Base.Outcome.{done}
use co_queue.ShiftQueue.{Ptr, Node, RawQueue, free}
use co_queue.ShiftQueue.Pop.{drop}
use co_queue.ShiftQueue.Nodes.{end, Holds}
use co_queue.ShiftQueue.Serves.{try_pop-serves, try_pop-empty}

module _ {ℓ} {A : Type ℓ} where
  Holds-last :
      (q : RawQueue A) → Holds q [] → (n : Node A) × (q.heap q.head ≡ some n) × (q.head ≡ q.tail)
  Holds-last q h = elim h.chain [ end n e here last ↦ (n, here, e) ]

  -- Dropping an empty queue frees its last node.
  drop-empty :
      (fuel : ℕ) (q : RawQueue A)
      → Holds q []
      → (q' : RawQueue A) × (drop (suc fuel) q ≡ done q')
        × (q'.heap q.tail ≡ none)
        × ((p : Ptr) → p ≢ q.tail → q'.heap p ≡ q.heap p)
  unfolding drop
  drop-empty fuel q h =
      let (n, here, same) = Holds-last q h in
      let freed : free q q.head ≡ done (record q { heap = update q.heap q.head none }) =
        ground (arith, here) in
      (
        record q { heap = update q.heap q.head none },
        rw (try_pop-empty fuel q h, drop) freed,
        ap (update q.heap q.head none) (sym same) ∙ update_self q.heap q.head none,
        λ p ne. update_ne q.heap q.head none p (λ e. ne (sym e ∙ same)),
      )

  -- Dropping a queue whose guard has room for all of its values ends, takes them out, and frees the
  -- node at its tail and no other: not one that was retired.
  pub drop-frees :
      (fuel : ℕ) (xs : List A) (q : RawQueue A)
      → Holds q xs
      → length xs < fuel
      → q.pop_guard.len + length xs ≤ q.pop_guard.cap
      → (q' : RawQueue A) × (drop fuel q ≡ done q')
        × (q'.heap q.tail ≡ none)
        × ((p : Ptr) → p ≢ q.tail → q'.heap p ≡ q.heap p)
  unfolding drop
  drop-frees zero xs q h enough room = absurd (omega arith)
  drop-frees (suc fuel) [] q h enough room = drop-empty fuel q h
  drop-frees (suc fuel) (x ∷ xs) q h enough room =
      let (q', popped, h', len, cap, heap, tail) = try_pop-serves fuel q x xs h (omega arith) in
      let (q₂, dropped, gone, kept) = drop-frees fuel xs q' h' (omega arith) (omega arith) in
      (
        q₂,
        rw (popped, drop) dropped,
        ap q₂.heap (sym tail) ∙ gone,
        λ p ne. kept p (λ e. ne (e ∙ tail)) ∙ ap (λ m. m p) heap,
      )
