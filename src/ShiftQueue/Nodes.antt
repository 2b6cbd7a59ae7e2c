-- ===== src/ShiftQueue/Nodes.antt =====
-- When a `RawQueue` of src/queue/mod.rs holds a list of values: a chain of nodes from the head,
-- whose own value was taken already, to the tail.
use co_queue.Base.{◌≤◌, ◌<◌, ◌≡◌, refl, sym, ap, ◌∙◌, Option, some, List, [], ◌∷◌, ◌++◌, arith}
use native.Mathlib.Decide.{dec_lt}
use co_queue.PtrGuard.Stack.{IsValid}
use co_queue.ShiftQueue.{Ptr, null, Node, RawQueue}

-- A node that was made later has a larger address.
pub data Nodes {ℓ} {A : Type ℓ} (heap : Ptr → Option (Node A)) (tail : Ptr)
    : Ptr → List A → Type ℓ where
  end : {p : Ptr} (n : Node A) → p ≡ tail → heap p ≡ some n → n.next ≡ null → Nodes heap tail p []
  node :
      {p : Ptr} {xs : List A} (next : Ptr) (x : A) (n m : Node A)
      → heap p ≡ some n
      → n.next ≡ next
      → heap next ≡ some m
      → m.item ≡ some x
      → p < next
      → Nodes heap tail next xs
      → Nodes heap tail p (x ∷ xs)

pub record Holds {ℓ} {A : Type ℓ} (q : RawQueue A) (xs : List A) : Type ℓ where
  pub chain : Nodes q.heap q.tail q.head xs
  pub nonnull : 0 < q.head
  pub below : q.tail < q.fresh
  pub nothing_kept : q.push_guard.len ≡ 0
  pub garbage : IsValid q.pop_guard

module _ {ℓ} {A : Type ℓ} where
  pub Nodes-le :
      {heap : Ptr → Option (Node A)} {tail p : Ptr} {xs : List A} → Nodes heap tail p xs → p ≤ tail
  Nodes-le (end n e here last) = omega arith
  Nodes-le (node next x n m here link there item lt rest) = omega (arith, Nodes-le rest)

  pub Nodes-tail :
      {heap : Ptr → Option (Node A)} {tail p : Ptr} {xs : List A}
      → Nodes heap tail p xs
      → (n : Node A) × (heap tail ≡ some n) × (n.next ≡ null)
  Nodes-tail {heap} (end n e here last) = (n, rw (← e) here, last)
  Nodes-tail (node next x n m here link there item lt rest) = Nodes-tail rest

  -- A new node is linked behind the tail; the nodes before the tail are as they were.
  pub Nodes-link :
      (heap heap' : Ptr → Option (Node A)) {tail p : Ptr} {xs : List A} (fresh : Ptr) (x : A)
      (n' new : Node A)
      → Nodes heap tail p xs
      → tail < fresh
      → ((r : Ptr) → r < tail → heap' r ≡ heap r)
      → heap' tail ≡ some n'
      → n'.next ≡ fresh
      → ((n : Node A) → heap tail ≡ some n → n'.item ≡ n.item)
      → heap' fresh ≡ some new
      → new.item ≡ some x
      → new.next ≡ null
      → Nodes heap' fresh p (xs ++ (x ∷ []))
  Nodes-link heap heap' {p = p} fresh x n' new (end n e here last) lt same at link item there hx
        nul =
      node fresh x n' new (rw e at) link there hx (omega arith) (end new refl there nul)
  Nodes-link heap heap' {tail} {p} fresh x n' new (node next y n m here nx there' hy up rest) lt
        same at link item there hx nul =
      let tail' = Nodes-link heap heap' fresh x n' new rest lt same at link item there hx nul in
      let here' : heap' p ≡ some n = same p (omega (arith, Nodes-le rest)) ∙ here in
      elim (dec_lt next tail) [
        | yes before ↦ node next y n m here' nx (same next before ∙ there') hy up tail'
        | no not_before ↦
            let last : next ≡ tail = omega (arith, Nodes-le rest) in
            node next y n n' here' nx (ap heap' last ∙ at)
              (item m (ap heap (sym last) ∙ there') ∙ hy) up tail'
      ]

  -- The nodes from `p` on do not see other addresses.
  pub Nodes-frame :
      (heap heap' : Ptr → Option (Node A)) {tail p : Ptr} {xs : List A}
      → Nodes heap tail p xs
      → ((r : Ptr) → p ≤ r → heap' r ≡ heap r)
      → Nodes heap' tail p xs
  Nodes-frame heap heap' {p = p} (end n e here last) same =
      end n e (same p (omega arith) ∙ here) last
  Nodes-frame heap heap' {p = p} (node next x n m here link there item lt rest) same =
      node next x n m (same p (omega arith) ∙ here) link (same next (omega arith) ∙ there) item lt
        (Nodes-frame heap heap' rest (λ r above. same r (omega arith)))
