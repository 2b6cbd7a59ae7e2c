-- ===== src/ShiftQueue/Serves.antt =====
-- `try_pop` of src/queue/mod.rs: the first value is served while the guard of retired nodes has room.
use co_queue.Base.{
  ℕ, suc, ◌+◌, ◌<◌, ◌≡◌, refl, sym, ap, ◌∙◌, Bool, Option, none, some, List, [], ◌∷◌, update,
  update_ne, arith, true, false,
}
use co_queue.Base.Outcome.{done, fault}
use co_queue.PtrGuard
use co_queue.PtrGuard.{PtrGuard, Popped, garbage, nothing}
use co_queue.PtrGuard.Stack.{IsValid}
use co_queue.ShiftQueue.{Ptr, Node, RawQueue, is_empty}
use co_queue.ShiftQueue.Pop.{ok, clear_guard, make_room, retire, pop_loaded, pop_once, try_pop}
use co_queue.ShiftQueue.Nodes.{Nodes, end, node, Holds}

module _ {ℓ} {A : Type ℓ} where
  -- The queue after its head moved to `next` and the old head went to the guard.
  abbrev advanced : RawQueue A → Ptr → RawQueue A
  advanced q next = record q {
    head = next;
    pop_guard = record q.pop_guard {
      guard = update q.pop_guard.guard q.pop_guard.len (some q.head);
      len = q.pop_guard.len + 1;
    };
  }

  advanced-IsValid :
      (q : RawQueue A) (next : Ptr)
      → q.pop_guard.len < q.pop_guard.cap
      → IsValid q.pop_guard
      → IsValid (advanced q next).pop_guard
  advanced-IsValid q next room v = record {
    fits = omega arith;
    outside = λ i le.
        update_ne q.pop_guard.guard q.pop_guard.len (some q.head) i (omega arith) ∙ v.outside i le;
  }

  pop_loaded-advanced :
      (q : RawQueue A) (next : Ptr) (m : Node A) (x : A)
      → 0 < next
      → q.pop_guard.len < q.pop_guard.cap
      → q.heap next ≡ some m
      → m.item ≡ some x
      → pop_loaded q q.head next ≡ done (advanced q next, ok (some x))
  unfolding pop_loaded retire PtrGuard.push
  pop_loaded-advanced q next m x pos room there item = ground arith

  pop_once-loaded :
      (q : RawQueue A) (n : Node A)
      → q.heap q.head ≡ some n
      → pop_once q ≡ pop_loaded q q.head n.next
  unfolding pop_once
  pop_once-loaded q n here = ground (arith, here)

  try_pop-once :
      (fuel : ℕ) (q : RawQueue A) {q' : RawQueue A} {o : Option A}
      → pop_once q ≡ done (q', ok o)
      → try_pop (suc fuel) q ≡ done (q', o)
  unfolding try_pop
  try_pop-once fuel q e = rw (e, try_pop) refl

  try_pop-fault : (fuel : ℕ) (q : RawQueue A) → pop_once q ≡ fault → try_pop (suc fuel) q ≡ fault
  unfolding try_pop
  try_pop-fault fuel q e = rw (e, try_pop) refl

  -- A pop from a queue that holds a value, where the guard has room, takes the first one, and retires
  -- one node to the guard; it frees none.
  pub try_pop-serves :
      (fuel : ℕ) (q : RawQueue A) (x : A) (xs : List A)
      → Holds q (x ∷ xs)
      → q.pop_guard.len < q.pop_guard.cap
      → (q' : RawQueue A) × (try_pop (suc fuel) q ≡ done (q', some x))
        × Holds q' xs
        × (q'.pop_guard.len ≡ q.pop_guard.len + 1)
        × (q'.pop_guard.cap ≡ q.pop_guard.cap)
        × (q'.heap ≡ q.heap)
        × (q'.tail ≡ q.tail)
  try_pop-serves fuel q x xs h room = elim h.chain [
    | node next x n m here link there item lt rest ↦ (
      advanced q next,
      try_pop-once fuel q (
          pop_once-loaded q n here
          ∙ rw link (pop_loaded-advanced q next m x (omega arith) room there item)),
      record {
        chain = rest;
        nonnull = omega (arith, lt);
        below = h.below;
        nothing_kept = h.nothing_kept;
        garbage = advanced-IsValid q next room h.garbage;
      },
      refl,
      refl,
      refl,
      refl,
    )
  ]

  -- A pop from an empty queue gives `None` and changes nothing.
  pub try_pop-empty :
      (fuel : ℕ) (q : RawQueue A) → Holds q [] → try_pop (suc fuel) q ≡ done (q, none)
  unfolding pop_loaded
  try_pop-empty fuel q h = elim h.chain [
    | end n e here last ↦
        try_pop-once fuel q (pop_once-loaded q n here ∙ rw (last, pop_loaded) refl)
  ]

  retire-full :
      (q : RawQueue A) (p : Ptr) (n : Node A)
      → q.heap p ≡ some n
      → q.pop_guard.len ≡ q.pop_guard.cap
      → IsValid q.pop_guard
      → retire q p ≡ fault
  unfolding retire make_room clear_guard PtrGuard.push PtrGuard.pop
  retire-full q p n here full v = ground (arith, v.outside q.pop_guard.len (omega arith))

  pop_loaded-full :
      (q : RawQueue A) (next : Ptr) (n : Node A)
      → 0 < next
      → q.pop_guard.len ≡ q.pop_guard.cap
      → IsValid q.pop_guard
      → q.heap q.head ≡ some n
      → pop_loaded q q.head next ≡ fault
  unfolding pop_loaded
  pop_loaded-full q next n pos full v here =
      ground (arith, retire-full (record q { head = next }) q.head n here full v)

  -- A pop from a queue that holds a value, where the guard of retired nodes is full, is undefined behaviour or a panic.
  pub try_pop-full :
      (fuel : ℕ) (q : RawQueue A) (x : A) (xs : List A)
      → Holds q (x ∷ xs)
      → q.pop_guard.len ≡ q.pop_guard.cap
      → try_pop (suc fuel) q ≡ fault
  try_pop-full fuel q x xs h full = elim h.chain [
    | node next x n m here link there item lt rest ↦ try_pop-fault fuel q (
        pop_once-loaded q n here
        ∙ rw link (pop_loaded-full q next n (omega arith) full h.garbage here))
  ]

  abbrev pub no_value : List A → Bool
  no_value [] = true
  no_value (_ ∷ _) = false

  is_empty-Nodes :
      (q : RawQueue A) (p : Ptr) (xs : List A)
      → Nodes q.heap q.tail p xs
      → p ≡ q.head
      → is_empty q ≡ done (no_value xs)
  unfolding is_empty
  is_empty-Nodes q p xs (end n e here last) same =
      let here' : q.heap q.head ≡ some n = ap q.heap (sym same) ∙ here in
      ground (arith, here', last)
  is_empty-Nodes q p xs (node next x n m here link there item lt rest) same =
      let here' : q.heap q.head ≡ some n = ap q.heap (sym same) ∙ here in
      ground (arith, here', link, lt)

  -- `is_empty` tells whether the queue holds no value.
  pub is_empty-no_value :
      (q : RawQueue A) (xs : List A) → Holds q xs → is_empty q ≡ done (no_value xs)
  is_empty-no_value q xs h = is_empty-Nodes q q.head xs h.chain refl
