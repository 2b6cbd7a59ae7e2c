-- ===== src/ShiftQueue/Accepts.antt =====
-- `push` of src/queue/mod.rs puts its value behind those that the queue holds.
use co_queue.Base.{
  ℕ, suc, ◌≡◌, refl, ◌∙◌, some, List, [], ◌∷◌, ◌++◌, update_self, update_ne, arith, true,
}
use co_queue.Base.Outcome.{done}
use co_queue.ShiftQueue.{
  Ptr, null, Node, RawQueue, store, alloc, link, push_loaded, push_once, push_loop, push,
}
use co_queue.ShiftQueue.Nodes.{Nodes-tail, Nodes-link, Holds}

push-once {ℓ} :
    {A : Type ℓ} (fuel : ℕ) (q q' : RawQueue A) (x : A) (n : Node A)
    → (alloc q x).heap q.tail ≡ some n
    → push_loaded (alloc q x) q.tail n.next q.fresh ≡ done (q', true)
    → push (suc fuel) q x ≡ done q'
unfolding push push_loop push_once
push-once fuel q q' x n here e =
    let once : push_once (alloc q x) q.fresh ≡ done (q', true) = ground (arith, here, e) in
    rw (once, push_loop) refl

-- The common path of `_push`, on a queue whose tail has no successor.
push_loaded-common {ℓ} :
    {A : Type ℓ} (q : RawQueue A) (tail node : Ptr) (n : Node A)
    → q.heap tail ≡ some n
    → n.next ≡ null
    → q.push_guard.len ≡ 0
    → q.tail ≡ tail
    → push_loaded q tail null node
      ≡ done (record (store q tail (record n { next = node })) { tail = node }, true)
unfolding push_loaded link
push_loaded-common q tail node n here last nothing_kept same = ground arith

module _ {ℓ} {A : Type ℓ} (x : A) {q : RawQueue A} {xs : List A} (h : Holds q xs) where
  old_tail : (n : Node A) × (q.heap q.tail ≡ some n) × (n.next ≡ null)
  old_tail = Nodes-tail h.chain

  -- The queue after the push: the new node is the tail, and the old tail is linked to it.
  abbrev linked : RawQueue A
  linked = record (store (alloc q x) q.tail (record old_tail.0 { next = q.fresh })) {
    tail = q.fresh;
  }

  at_tail : (alloc q x).heap q.tail ≡ some old_tail.0
  at_tail = update_ne q.heap q.fresh _ q.tail (omega (arith, h.below)) ∙ old_tail.1

  push_loaded-linked : push_loaded (alloc q x) q.tail null q.fresh ≡ done (linked, true)
  unfolding push_loaded link
  push_loaded-linked =
      push_loaded-common (alloc q x) q.tail q.fresh old_tail.0 at_tail old_tail.2 h.nothing_kept
        refl

  item_same : {n n' : Node A} → q.heap q.tail ≡ some n' → q.heap q.tail ≡ some n → n'.item ≡ n.item
  item_same e e' = cc

  linked-Holds : Holds linked (xs ++ (x ∷ []))
  linked-Holds = record {
    chain =
        Nodes-link q.heap linked.heap q.fresh x (record old_tail.0 { next = q.fresh })
          (record { item = some x; next = null }) h.chain h.below
          (λ r lt.
            update_ne (alloc q x).heap q.tail _ r (omega arith)
            ∙ update_ne q.heap q.fresh _ r (omega (arith, h.below)))
          (update_self (alloc q x).heap q.tail _) refl (λ n e. item_same old_tail.1 e)
          (update_ne (alloc q x).heap q.tail _ q.fresh (omega (arith, h.below))
            ∙ update_self q.heap q.fresh _)
          refl refl;
    nonnull = h.nonnull;
    below = omega arith;
    nothing_kept = h.nothing_kept;
    garbage = h.garbage;
  }

  -- A push on a queue that holds values returns in the first round of its loop; the queue then holds
  -- the value behind the others.
  pub push-linked :
      (fuel : ℕ)
      → (q' : RawQueue A) × (push (suc fuel) q x ≡ done q')
        × Holds q' (xs ++ (x ∷ []))
        × (q'.pop_guard ≡ q.pop_guard)
  push-linked fuel = (
    linked,
    push-once fuel q linked x old_tail.0 at_tail (rw old_tail.2 push_loaded-linked),
    linked-Holds,
    refl,
  )
