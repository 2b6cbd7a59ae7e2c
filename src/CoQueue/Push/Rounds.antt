-- ===== src/CoQueue/Push/Rounds.antt =====
-- The loop of `push` in src/lockless_queue.rs: every round keeps what the queue holds, and the
-- first one whose exchange does not fail puts the value behind it.
use co_queue.Base.{
  ℕ, ◌+◌, ◌^◌, ◌≤◌, ◌<◌, ◌≡◌, refl, ◌∙◌, Bool, true, false, Option, none, some, List, [], ◌∷◌, ◌++◌,
  eq→==, ne→==, update_self, update_ne, arith,
}
use native.Mathlib.Decide.{dec_lt}
use co_queue.Base.Outcome.{done}
use co_queue.CoQueue.Chunk.{Ptr, new_chunk}
use co_queue.CoQueue.State.{CoQueue, again, returned, alloc, Succeeds}
use co_queue.CoQueue.Push.{
  Pushing, reload_tail, advance_tail, reserve, install, push_round, push_loop, push,
}
use co_queue.CoQueue.Push.Refine.{
  Spare, pushed, advance_inside, pushed-Linked, filled, advance_full, filled-Linked, offset_eq,
}
use co_queue.CoQueue.Chain.{Chain-frame, last}
use co_queue.CoQueue.Chain.Slots.{Layout-new}
use co_queue.CoQueue.Holds.{Blank, Linked, Holds, blank, linked, tail_nonnull}

-- The state of the loop when its exchange is tried: there is a spare chunk exactly for the last
-- slot.
data Prepared {ℓ} {A : Type ℓ} (q : CoQueue A) (spare : Option Ptr) (xs : List A) : Type ℓ where
  inside : {l n i j : ℕ} → Linked q l n i j xs → j < 30 → spare ≡ none → Prepared q spare xs
  full :
      {l n i j s : ℕ}
      → Linked q l n i j xs
      → j ≡ 30
      → Spare q s
      → spare ≡ some s
      → Prepared q spare xs

-- The state at the head of the loop.
data Ready {ℓ} {A : Type ℓ} (q : CoQueue A) (spare : Option Ptr) (xs : List A) : Type ℓ where
  first : Holds q xs → spare ≡ none → Ready q spare xs
  later : Prepared q spare xs → Ready q spare xs

-- What a round does before it tries the exchange.
record Tries {ℓ} {A : Type ℓ} (x : A) (q : CoQueue A) (spare : Option Ptr) (xs : List A)
    : Type ℓ where
  queue : CoQueue A
  spare' : Option Ptr
  tries :
      (fails : Bool)
      → push_round fails x (reload_tail q spare) q
        ≡ advance_tail fails x (reload_tail queue spare') queue
  prepared : Prepared queue spare' xs
  same_tail : queue.tail.index ≡ q.tail.index

module _ {ℓ} {A : Type ℓ} where
  Linked-alloc :
      {q : CoQueue A} {l n i j : ℕ} {xs : List A}
      → Linked q l n i j xs
      → Linked (alloc q) l n i j xs
  Linked-alloc {q} h = record {
    head_at = h.head_at;
    flag = h.flag;
    tail_at = h.tail_at;
    head_in = h.head_in;
    tail_in = h.tail_in;
    small = h.small;
    chain =
        Chain-frame q.heap (alloc q).heap h.chain
          (λ r above under. update_ne q.heap q.fresh _ r (omega (arith, h.below)));
    nonnull = h.nonnull;
    below = omega (arith, h.below);
  }

  -- The first chunk of all.
  abbrev installed : CoQueue A → CoQueue A
  installed q = record (alloc q) {
    tail = record q.tail { chunk = q.fresh };
    head = record q.head { chunk = q.fresh };
  }

  installed-Linked : {q : CoQueue A} → Blank q → Linked (installed q) 0 0 0 0 []
  installed-Linked {q} b = record {
    head_at = rw b.head_index;
    flag = λ e. absurd (omega arith);
    tail_at = b.tail_index;
    head_in = omega arith;
    tail_in = omega arith;
    small = rw b.tail_index (omega arith);
    chain = last refl (record {
      chunk = new_chunk A;
      here = update_self q.heap q.fresh _;
      link = refl;
      layout = Layout-new;
    });
    nonnull = b.fresh_pos;
    below = omega arith;
  }

  Tries-inside :
      (x : A) (q : CoQueue A) {l n i j : ℕ} {xs : List A}
      → (h : Linked q l n i j xs) → j < 30
      → Tries x q none xs
  unfolding push_round reserve
  Tries-inside x q {j = j} h lt = record {
    queue = q;
    spare' = none;
    tries = λ fails. rw (
      offset_eq x h,
      ne→== j 31 (omega arith),
      ne→== (j + 1) 31 (omega arith),
      ne→== q.tail.chunk 0 (omega (arith, tail_nonnull h)),
    );
    prepared = inside h lt refl;
    same_tail = refl;
  }

  Tries-full :
      (x : A) (q : CoQueue A) {l n i j s : ℕ} {xs : List A}
      → (h : Linked q l n i j xs) → j ≡ 30
      → Spare q s
      → Tries x q (some s) xs
  unfolding push_round reserve
  Tries-full x q {j = j} {s = s} h lt spare = record {
    queue = q;
    spare' = some s;
    tries = λ fails. rw (
      offset_eq x h,
      ne→== j 31 (omega arith),
      eq→== (j + 1) 31 (omega arith),
      ne→== q.tail.chunk 0 (omega (arith, tail_nonnull h)),
    );
    prepared = full h lt spare refl;
    same_tail = refl;
  }

  -- The spare chunk is allocated.
  Tries-reserve :
      (x : A) (q : CoQueue A) {l n i j : ℕ} {xs : List A}
      → (h : Linked q l n i j xs) → j ≡ 30
      → Tries x q none xs
  unfolding push_round reserve
  Tries-reserve x q {j = j} h lt = record {
    queue = alloc q;
    spare' = some q.fresh;
    tries = λ fails. rw (
      offset_eq x h,
      ne→== j 31 (omega arith),
      eq→== (j + 1) 31 (omega arith),
      ne→== q.tail.chunk 0 (omega (arith, tail_nonnull h)),
    );
    prepared =
        full (Linked-alloc h) lt
          (record { here = update_self q.heap q.fresh _; later = h.below; below = omega arith })
          refl;
    same_tail = refl;
  }

  Tries-install : (x : A) (q : CoQueue A) → Blank q → Tries x q none []
  unfolding push_round reserve install
  Tries-install x q b = record {
    queue = installed q;
    spare' = none;
    tries = λ fails. rw (b.tail_index, b.tail_chunk);
    prepared = inside (installed-Linked b) (omega arith) refl;
    same_tail = refl;
  }

  tries :
      (x : A) (q : CoQueue A) {spare : Option Ptr} {xs : List A}
      → Ready q spare xs
      → Tries x q spare xs
  tries x q {xs = xs} (first (blank b e) none_yet) = rw (none_yet, e) (Tries-install x q b)
  tries x q (first (linked {j = j} h) none_yet) = rw none_yet (elim (dec_lt j 30) [
    | yes lt ↦ Tries-inside x q h lt
    | no not_lt ↦ Tries-reserve x q h (omega (arith, h.tail_in))
  ])
  tries x q (later (inside h lt none_yet)) = rw none_yet (Tries-inside x q h lt)
  tries x q (later (full h last_slot spare e)) = rw e (Tries-full x q h last_slot spare)

  -- The exchange succeeds.
  lands :
      (x : A) (q : CoQueue A) {spare : Option Ptr} {xs : List A}
      → Prepared q spare xs
      → q.tail.index + 4 < 2 ^ 64
      → (q' : CoQueue A) × (advance_tail false x (reload_tail q spare) q ≡ done (returned q'))
        × Holds q' (xs ++ (x ∷ []))
        × (q'.tail.index ≤ q.tail.index + 4)
  lands x q (inside h lt e) bound =
      (pushed x h, rw e (advance_inside x h lt), linked (pushed-Linked x h lt bound), omega arith)
  lands x q (full {s = s} h last_slot spare e) bound = (
    filled x h s,
    rw e (advance_full x h s last_slot),
    linked (filled-Linked x h s last_slot bound spare),
    omega arith,
  )

  -- A failed exchange changes nothing.
  retry :
      (x : A) (q : CoQueue A) {spare : Option Ptr}
      → advance_tail true x (reload_tail q spare) q ≡ done (again (reload_tail q spare) q)
  unfolding advance_tail
  retry x q = refl

  push_loop-returned :
      (fails : Bool) (rest : List Bool) (x : A) (l : Pushing) (q : CoQueue A) {q' : CoQueue A}
      → push_round fails x l q ≡ done (returned q')
      → push_loop (fails ∷ rest) x l q ≡ done q'
  unfolding push_loop
  push_loop-returned fails rest x l q e = rw (e, push_loop)

  push_loop-again :
      (fails : Bool) (rest : List Bool) (x : A) (l : Pushing) (q : CoQueue A) {l' : Pushing}
      {q' : CoQueue A}
      → push_round fails x l q ≡ done (again l' q')
      → push_loop (fails ∷ rest) x l q ≡ push_loop rest x l' q'
  unfolding push_loop
  push_loop-again fails rest x l q e = rw (e, push_loop)

  push_loop-Holds :
      (rounds : List Bool) (x : A) (q : CoQueue A) {spare : Option Ptr} {xs : List A}
      → Succeeds rounds
      → Ready q spare xs
      → q.tail.index + 4 < 2 ^ 64
      → (q' : CoQueue A) × (push_loop rounds x (reload_tail q spare) q ≡ done q')
        × Holds q' (xs ++ (x ∷ []))
        × (q'.tail.index ≤ q.tail.index + 4)
  push_loop-Holds [] x q s r bound = absurd s
  push_loop-Holds (false ∷ rest) x q s r bound =
      let t = tries x q r in
      let (q', e, held, room) = lands x t.queue t.prepared (omega (arith, t.same_tail)) in
      (
        q',
        push_loop-returned false rest x _ q (t.tries false ∙ e),
        held,
        omega (arith, t.same_tail),
      )
  push_loop-Holds (true ∷ rest) x q s r bound =
      let t = tries x q r in
      let (q', e, held, room) =
        push_loop-Holds rest x t.queue s (later t.prepared) (omega (arith, t.same_tail)) in
      (
        q',
        push_loop-again true rest x _ q (t.tries true ∙ retry x t.queue) ∙ e,
        held,
        omega (arith, t.same_tail),
      )

  -- A push that is given one exchange that succeeds returns, with no fault, and the queue then
  -- holds its value behind the others; the queue may hold any values, and its tail index must be
  -- below 2 ^ 64 - 4.
  pub push-Holds :
      (rounds : List Bool) (x : A) (q : CoQueue A) {xs : List A}
      → Succeeds rounds
      → Holds q xs
      → q.tail.index + 4 < 2 ^ 64
      → (q' : CoQueue A) × (push rounds q x ≡ done q')
        × Holds q' (xs ++ (x ∷ []))
        × (q'.tail.index ≤ q.tail.index + 4)
  unfolding push
  push-Holds rounds x q s h bound = push_loop-Holds rounds x q s (first h refl) bound
