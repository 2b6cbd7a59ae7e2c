-- ===== src/CoQueue/Pop/Rounds.antt =====
-- The loop of `pop` in src/lockless_queue.rs: it takes the first value that the queue holds, or
-- reports that there is none.
use co_queue.Base.{
  ℕ, ◌≡◌, refl, ◌∙◌, Bool, true, false, Option, none, some, List, [], ◌∷◌, ne→==, arith,
}
use co_queue.Base.Outcome.{done}
use co_queue.CoQueue.Chunk.{Ptr, Chunk}
use co_queue.CoQueue.State.{CoQueue, again, returned, Succeeds}
use co_queue.CoQueue.Pop.{Popping, reload_head, next_head, pop_round, pop_loop, pop}
use co_queue.CoQueue.Pop.Refine.{head_offset, next_head_empty}
use co_queue.CoQueue.Pop.Claim.{Taken, takes, retries}
use co_queue.CoQueue.Holds.{Linked, Holds, blank, linked}

module _ {ℓ} {A : Type ℓ} where
  pop_loop-returned :
      (fails : Bool) (rest : List Bool) (l : Popping) (q : CoQueue A) {r : CoQueue A × Option A}
      → pop_round fails l q ≡ done (returned r)
      → pop_loop (fails ∷ rest) l q ≡ done r
  unfolding pop_loop
  pop_loop-returned fails rest l q e = rw (e, pop_loop)

  pop_loop-again :
      (fails : Bool) (rest : List Bool) (l : Popping) (q : CoQueue A) {l' : Popping}
      {q' : CoQueue A}
      → pop_round fails l q ≡ done (again l' q')
      → pop_loop (fails ∷ rest) l q ≡ pop_loop rest l' q'
  unfolding pop_loop
  pop_loop-again fails rest l q e = rw (e, pop_loop)

  round_empty :
      (fails : Bool) (q : CoQueue A)
      → Holds q []
      → pop_round fails (reload_head q) q ≡ done (returned (q, none))
  unfolding pop_round next_head
  round_empty fails q (blank b e) = ground (arith, b.head_index, b.tail_index)
  round_empty fails q (linked {i = i} h) =
      rw (head_offset h, ne→== i 31 (omega (arith, h.head_in)), next_head_empty h refl)

  -- A pop from an empty queue returns `Err(())` in its first round, whatever its exchange would have
  -- done, and leaves the queue as it was.
  pub pop-empty :
      (fails : Bool) (rest : List Bool) (q : CoQueue A)
      → Holds q []
      → pop (fails ∷ rest) q ≡ done (q, none)
  unfolding pop
  pop-empty fails rest q h = pop_loop-returned fails rest _ q (round_empty fails q h)

  pop_loop-Taken :
      (rounds : List Bool) (q : CoQueue A) {l n i j : ℕ} {zs : List A} (x : A) (xs : List A)
      → Succeeds rounds
      → Linked q l n i j zs
      → zs ≡ x ∷ xs
      → (q' : CoQueue A) × (pop_loop rounds (reload_head q) q ≡ done (q', some x)) × Taken q q' j xs
  pop_loop-Taken [] q x xs s h e = absurd s
  pop_loop-Taken (false ∷ rest) q x xs s h e =
      let (q', eq, t) = takes h x xs e in (q', pop_loop-returned false rest _ q eq, t)
  pop_loop-Taken (true ∷ rest) q x xs s h e =
      let (q', eq, t) = pop_loop-Taken rest q x xs s h e in
      (q', pop_loop-again true rest _ q (retries h x xs e) ∙ eq, t)

  -- A pop that is given one exchange that succeeds returns the first value that the queue holds,
  -- with no fault. The queue then holds the others, its tail has not moved, and every chunk that
  -- was allocated before is allocated after: `Chunk::destroy` frees none.
  pub pop-Holds :
      (rounds : List Bool) (q : CoQueue A) (x : A) (xs : List A)
      → Succeeds rounds
      → Holds q (x ∷ xs)
      → (q' : CoQueue A) × (pop rounds q ≡ done (q', some x))
        × Holds q' xs
        × (q'.tail ≡ q.tail)
        × ((r : Ptr) (c : Chunk A) → q.heap r ≡ some c → (c' : Chunk A) × (q'.heap r ≡ some c'))
  unfolding pop
  pop-Holds rounds q x xs s (blank b e) = absurd (cc)
  pop-Holds rounds q x xs s (linked h) =
      let (q', eq, t) = pop_loop-Taken rounds q x xs s h refl in
      (q', eq, linked t.rest, t.tail, t.kept)
