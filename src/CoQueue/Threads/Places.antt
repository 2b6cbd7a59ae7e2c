-- ===== src/CoQueue/Threads/Places.antt =====
-- src/lockless_queue.rs, `CoQueue::pop` by many threads: each slot is won by one pop.
use native.Mathlib.Decide.{ℕ_discrete}
use co_queue.Base.{
  ℕ, ◌+◌, ◌%◌, ◌<◌, ◌≡◌, ◌≢◌, refl, sym, ap, ◌∙◌, none, some, update, update_self, update_ne, arith,
  if◌then◌else◌,
}
use co_queue.CoQueue.Chunk.{lap, chunk_cap}
use co_queue.CoQueue.State.{position}
use co_queue.CoQueue.Threads.{
  PopPc, outside, returned, has_head, round, checked, waiting, found, move_chunk, move_index,
  reading, taken, destroying, unread, Crowd,
}
use co_queue.CoQueue.Threads.Pushes
use co_queue.CoQueue.Threads.Pushes.{PushStep}
use co_queue.CoQueue.Threads.Pops
use co_queue.CoQueue.Threads.Pops.{PopStep}
use co_queue.CoQueue.Threads.Run.{Reach, start, pushes, pops}
use co_queue.CoQueue.Threads.History.{leave, place_in, won, place}
use co_queue.CoQueue.Threads.Cells.{result_of}

module _ {ℓ} {A : Type ℓ} where
  -- The thread has won a slot, and not returned yet.
  abbrev has_won : PopPc A → ℕ
  has_won outside = 0
  has_won (returned none) = 0
  has_won (returned (some x)) = 1
  has_won (has_head h) = 0
  has_won (round l) = 0
  has_won (checked l n) = 0
  has_won (waiting l n) = 1
  has_won (found l n p) = 1
  has_won (move_chunk l n p) = 1
  has_won (move_index l n p) = 1
  has_won (reading l) = 1
  has_won (taken l x) = 1
  has_won (destroying p o x) = 1
  has_won (unread p o x) = 1

  record Places (won : ℕ) (place : ℕ → ℕ) (popper : ℕ → PopPc A) : Type 0 where
    below : (i : ℕ) → has_won (popper i) ≡ 1 → place i < won
    apart : (i j : ℕ) → i ≢ j → has_won (popper i) ≡ 1 → has_won (popper j) ≡ 1 → place i ≢ place j

  -- The access wins no slot.
  Places-stay :
      {won : ℕ} {place : ℕ → ℕ} {popper : ℕ → PopPc A}
      → Places won place popper
      → (i : ℕ) (b p : PopPc A) → popper i ≡ b
      → (has_won p ≡ 1 → has_won b ≡ 1)
      → Places won place (update popper i p)
  Places-stay {won} {place} {popper} h i b p at goes =
      let had : (j : ℕ) → has_won (update popper i p j) ≡ 1 → has_won (popper j) ≡ 1 = λ j.
        elim (ℕ_discrete i j) [
          | yes same ↦ rw (← same, update_self popper i p, at) goes
          | no other ↦ rw (update_ne popper i p j other) (λ z. z)
        ] in
      record {
        below = λ j z. h.below j (had j z);
        apart = λ j k ne z y. h.apart j k ne (had j z) (had k y);
      }

  -- The access wins the next slot.
  Places-win :
      {won : ℕ} {place : ℕ → ℕ} {popper : ℕ → PopPc A}
      → Places won place popper
      → (i : ℕ) (p : PopPc A) → Places (won + 1) (update place i won) (update popper i p)
  Places-win {won} {place} {popper} h i p =
      let mine : update place i won i ≡ won = update_self place i won in
      let other : (j : ℕ) → i ≢ j → has_won (update popper i p j) ≡ 1 → update place i won j < won =
        λ j ne z.
          rw (update_ne place i won j ne)
            (h.below j (sym (ap has_won (update_ne popper i p j ne)) ∙ z)) in
      record {
        below = λ j z. elim (ℕ_discrete i j) [
          | yes same ↦ rw (← same, mine) (omega arith)
          | no ne ↦ omega (arith, other j ne z)
        ];
        apart = λ j k ne z y e. elim (ℕ_discrete i j) [
          | yes same ↦
              let far : i ≢ k = λ w. ne (sym same ∙ w) in
              omega (arith, mine, ap (update place i won) same, other k far y, e)
          | no away ↦ elim (ℕ_discrete i k) [
            | yes same ↦ omega (arith, mine, ap (update place i won) same, other j away z, e)
            | no far ↦
                h.apart j k ne (sym (ap has_won (update_ne popper i p j away)) ∙ z)
                  (sym (ap has_won (update_ne popper i p k far)) ∙ y)
                  (sym (update_ne place i won j away) ∙ e ∙ update_ne place i won k far)
          ]
        ];
      }

  PopStep-Places :
      {won : ℕ} {place : ℕ → ℕ} {i : ℕ} {s t : Crowd A}
      → (st : PopStep s i t) → Places won place s.popper
      → Places (leave won st) (place_in won place st) t.popper
  PopStep-Places {i = i} {s = s} (Pops.pop_calls at) h =
      Places-stay h i outside (has_head s.queue.head.index) at (λ z. absurd (omega (arith, z)))
  PopStep-Places {i = i} {s = s} (Pops.pop_loads h' at) h =
      Places-stay h i (has_head h') (round (record { head = h'; chunk = s.queue.head.chunk })) at
        (λ z. absurd (omega (arith, z)))
  PopStep-Places {i = i} {s = s} (Pops.pop_naps l at o) h =
      Places-stay h i (round l) (has_head s.queue.head.index) at (λ z. absurd (omega (arith, z)))
  PopStep-Places {i = i} {s = s} (Pops.pop_empty l at o e) h =
      Places-stay h i (round l) (returned none) at (λ z. absurd (omega (arith, z)))
  PopStep-Places {i = i} {s = s} (Pops.pop_checks l n at o e) h =
      Places-stay h i (round l) (checked l n) at (λ z. absurd (omega (arith, z)))
  PopStep-Places {i = i} {s = s} (Pops.pop_reloads l n at z) h =
      Places-stay h i (checked l n) (has_head s.queue.head.index) at
        (λ z. absurd (omega (arith, z)))
  PopStep-Places {i = i} {s = s} (Pops.pop_fails l n at y) h =
      Places-stay h i (checked l n) (has_head s.queue.head.index) at
        (λ z. absurd (omega (arith, z)))
  PopStep-Places {i = i} {s = s} (Pops.finds_next l n next at e) h =
      Places-stay h i (waiting l n) (found l n next) at (λ z. refl)
  PopStep-Places {i = i} {s = s} (Pops.looks_on l n next idx at e) h =
      Places-stay h i (found l n next) (move_chunk l idx next) at (λ z. refl)
  PopStep-Places {i = i} {s = s} (Pops.moves_chunk l idx next at) h =
      Places-stay h i (move_chunk l idx next) (move_index l idx next) at (λ z. refl)
  PopStep-Places {i = i} {s = s} (Pops.moves_index l idx next at) h =
      Places-stay h i (move_index l idx next) (reading l) at (λ z. refl)
  PopStep-Places {i = i} {s = s} (Pops.reads l x at e) h =
      Places-stay h i (reading l) (taken l x) at (λ z. refl)
  PopStep-Places {i = i} {s = s} (Pops.marks_read l x old q at o e) h =
      Places-stay h i (taken l x)
        (if old.destroy
          then destroying l.chunk (position l.head % lap + 1) x
          else returned (some x))
        at (λ z. refl)
  PopStep-Places {i = i} {s = s} (Pops.destroys l x at o) h =
      Places-stay h i (taken l x) (destroying l.chunk 0 x) at (λ z. refl)
  PopStep-Places {i = i} {s = s} (Pops.sees_slot p o x read at lt e) h =
      Places-stay h i (destroying p o x) (if read then destroying p (o + 1) x else unread p o x) at
        (λ z. refl)
  PopStep-Places {i = i} {s = s} (Pops.leaves_slot p o x old q at e) h =
      Places-stay h i (unread p o x)
        (if old.read then destroying p (o + 1) x else returned (some x)) at (λ z. refl)
  PopStep-Places {i = i} {s = s} (Pops.frees p x q at e) h =
      Places-stay h i (destroying p chunk_cap x) (returned (some x)) at (λ z. refl)
  PopStep-Places {i = i} {s = s} (Pops.returns v at) h =
      Places-stay h i (returned v) outside at (λ z. absurd (omega (arith, z)))
  PopStep-Places {i = i} {s = s} (Pops.pop_wins l n at c e o) h = Places-win h i (reading l)
  PopStep-Places {i = i} {s = s} (Pops.pop_wins_last l n at c e o) h = Places-win h i (waiting l n)

  PushStep-popper : {s : Crowd A} {i : ℕ} {t : Crowd A} → PushStep s i t → t.popper ≡ s.popper
  PushStep-popper (Pushes.calls x at) = refl
  PushStep-popper (Pushes.loads x n t at) = refl
  PushStep-popper (Pushes.naps x l at o) = refl
  PushStep-popper (Pushes.reserves x l at o n) = refl
  PushStep-popper (Pushes.installs x l at r n e) = refl
  PushStep-popper (Pushes.install_fails x l q at r n e d) = refl
  PushStep-popper (Pushes.heads x l at) = refl
  PushStep-popper (Pushes.wins x l at r n e o) = refl
  PushStep-popper (Pushes.wins_last x l p at r n e o b) = refl
  PushStep-popper (Pushes.fails x l at r n) = refl
  PushStep-popper (Pushes.sets_chunk x l p at) = refl
  PushStep-popper (Pushes.sets_index x l p at) = refl
  PushStep-popper (Pushes.sets_link x l p q at e) = refl
  PushStep-popper (Pushes.writes x l old q at e) = refl
  PushStep-popper (Pushes.marks l old q r at e d) = refl

  Reach-Places : {s : Crowd A} (r : Reach s) → Places (won r) (place r) s.popper
  unfolding won place
  Reach-Places start = record {
    below = λ i z. absurd (omega (arith, z));
    apart = λ i j ne z. absurd (omega (arith, z));
  }
  Reach-Places (pushes r i lt st) = rw (PushStep-popper st) (Reach-Places r)
  Reach-Places (pops r i lt st) = PopStep-Places st (Reach-Places r)

  result_of-has_won : (p : PopPc A) (x : A) → result_of p ≡ some x → has_won p ≡ 1
  result_of-has_won p x e = ground arith

  -- A thread with a value has a place that was won, and no other thread with one has it.
  pub place-below :
      {s : Crowd A} (r : Reach s) (i : ℕ) (x : A)
      → result_of (s.popper i) ≡ some x
      → place r i < won r
  place-below {s} r i x e = (Reach-Places r).below i (result_of-has_won (s.popper i) x e)

  pub place-apart :
      {s : Crowd A} (r : Reach s) (i j : ℕ)
      → i ≢ j
      → (x y : A) → result_of (s.popper i) ≡ some x
      → result_of (s.popper j) ≡ some y
      → place r i ≢ place r j
  place-apart {s} r i j ne x y e f =
      (Reach-Places r).apart i j ne (result_of-has_won (s.popper i) x e)
        (result_of-has_won (s.popper j) y f)
