-- ===== src/CoQueue/Fifo.antt =====
-- A client's calls of `push`, `pop`, `len` and `is_empty` of src/lockless_queue.rs, one after the
-- other, against a plain first-in first-out list.
use co_queue.Base.{
  ℕ, ◌+◌, ◌*◌, ◌^◌, ◌≤◌, ◌<◌, ◌≡◌, refl, ap, Bool, Option, none, some, List, [], ◌∷◌, ◌++◌, ◌==◌,
  arith, length,
}
use co_queue.Base.Outcome.{Outcome, done, ◌>>=◌}
use co_queue.CoQueue.State.{CoQueue, Succeeds}
use co_queue.CoQueue.Push.{push}
use co_queue.CoQueue.Push.Rounds.{push-Holds}
use co_queue.CoQueue.Pop.{pop}
use co_queue.CoQueue.Pop.Rounds.{pop-Holds, pop-empty}
use co_queue.CoQueue.Measure.{len, is_empty}
use co_queue.CoQueue.Measure.Counts.{len-Holds, is_empty-Holds}
use co_queue.CoQueue.Drop.{new}
use co_queue.CoQueue.Holds.{Holds, blank}

-- A call, with what its weak compare-exchanges do.
pub data Op {ℓ} (A : Type ℓ) : Type ℓ where
  pushes : List Bool → A → Op A
  pops : List Bool → Op A
  measures : Op A

-- What the client sees.
pub data Reply {ℓ} (A : Type ℓ) : Type ℓ where
  accepted : Reply A
  popped : Option A → Reply A
  measured : ℕ → Bool → Reply A

module _ {ℓ} {A : Type ℓ} where
  unfoldable pub step : Op A → CoQueue A → Outcome (CoQueue A × Reply A)
  step (pushes rounds x) q = do q' ← push rounds q x; done (q', accepted)
  step (pops rounds) q = do (q', o) ← pop rounds q; done (q', popped o)
  step measures q = done (q, measured (len q) (is_empty q))

  unfoldable pub run : List (Op A) → CoQueue A → Outcome (CoQueue A × List (Reply A))
  run [] q = done (q, [])
  run (op ∷ ops) q = do (q', r) ← step op q; (q'', rs) ← run ops q'; done (q'', r ∷ rs)

  -- The same calls on a list, oldest value first.
  unfoldable pub spec_step : Op A → List A → List A × Reply A
  spec_step (pushes _ x) xs = (xs ++ (x ∷ []), accepted)
  spec_step (pops _) [] = ([], popped none)
  spec_step (pops _) (x ∷ xs) = (xs, popped (some x))
  spec_step measures xs = (xs, measured (length xs) (length xs == 0))

  unfoldable pub spec_run : List (Op A) → List A → List A × List (Reply A)
  spec_run [] xs = (xs, [])
  spec_run (op ∷ ops) xs =
      let (xs', r) = spec_step op xs in let (xs'', rs) = spec_run ops xs' in (xs'', r ∷ rs)

  -- Each call is given an exchange that succeeds.
  abbrev pub Fair : List (Op A) → Type 0
  Fair [] = Unit
  Fair (pushes rounds _ ∷ ops) = Succeeds rounds × Fair ops
  Fair (pops rounds ∷ ops) = Succeeds rounds × Fair ops
  Fair (measures ∷ ops) = Fair ops

  pub new-Holds : Holds (new A) []
  unfolding new
  new-Holds =
      blank
        (record {
          head_index = refl;
          head_chunk = refl;
          tail_index = refl;
          tail_chunk = refl;
          fresh_pos = omega arith;
        })
        refl

  pop_nil :
      (rounds : List Bool) (q : CoQueue A)
      → Succeeds rounds
      → Holds q []
      → pop rounds q ≡ done (q, none)
  pop_nil [] q s h = absurd s
  pop_nil (fails ∷ rest) q s h = pop-empty fails rest q h

  -- One call does what the list does, and moves the tail index by at most 4.
  step-Holds :
      (op : Op A) (ops : List (Op A)) (q : CoQueue A) (xs : List A)
      → Fair (op ∷ ops)
      → Holds q xs
      → q.tail.index + 4 < 2 ^ 64
      → (q' : CoQueue A) × (step op q ≡ done (q', (spec_step op xs).1))
        × Holds q' (spec_step op xs).0
        × (q'.tail.index ≤ q.tail.index + 4)
        × Fair ops
  unfolding step spec_step
  step-Holds (pushes rounds x) ops q xs f h bound =
      let (q', e, held, room) = push-Holds rounds x q f.0 h bound in (q', rw e, held, room, f.1)
  step-Holds (pops rounds) ops q [] f h bound =
      (q, rw (pop_nil rounds q f.0 h), h, omega arith, f.1)
  step-Holds (pops rounds) ops q (x ∷ xs) f h bound =
      let (q', e, held, same, kept) = pop-Holds rounds q x xs f.0 h in
      (q', rw e, held, omega (arith, ap (λ t. t.index) same), f.1)
  step-Holds measures ops q xs f h bound =
      (q, rw (len-Holds q xs h, is_empty-Holds q xs h), h, omega arith, f)

  -- From a queue that holds `xs`, any sequence of calls gives the replies of the list and leaves
  -- the queue holding what the list holds, if each call is given an exchange that succeeds and the
  -- 64-bit indices do not run out.
  pub run-Holds :
      (ops : List (Op A)) (q : CoQueue A) (xs : List A)
      → Fair ops
      → Holds q xs
      → q.tail.index + 4 * length ops + 4 < 2 ^ 64
      → (q' : CoQueue A) × (run ops q ≡ done (q', (spec_run ops xs).1))
        × Holds q' (spec_run ops xs).0
  unfolding run spec_run
  run-Holds [] q xs f h bound = (q, refl, h)
  run-Holds (op ∷ ops) q xs f h bound =
      let (q₁, e₁, held, room, f') = step-Holds op ops q xs f h (omega arith) in
      let (q₂, e₂, held') = run-Holds ops q₁ (spec_step op xs).0 f' held (omega arith) in
      (q₂, rw (e₁, e₂), held')
