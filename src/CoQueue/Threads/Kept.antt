-- ===== src/CoQueue/Threads/Kept.antt =====
-- src/lockless_queue.rs, `CoQueue::push` and `CoQueue::pop` by many threads: what holds in every
-- state that a run reaches.
use co_queue.Base.{ℕ, ◌%◌, ◌≡◌, refl, true, [], arith}
use co_queue.CoQueue.Chunk.{Slot, lap}
use co_queue.CoQueue.State.{position}
use co_queue.CoQueue.Drop.{new}
use co_queue.CoQueue.Threads.{outside, Crowd}
use co_queue.CoQueue.Threads.Pops
use co_queue.CoQueue.Threads.Pops.{PopStep}
use co_queue.CoQueue.Threads.Run.{outset, Reach, start, pushes, pops}
use co_queue.CoQueue.Threads.Invariant.{Inv}
use co_queue.CoQueue.Threads.Alone.{Inv-new, change_slot-Same, free-Same}
use co_queue.CoQueue.Threads.Reached.{grow, PushStep-Inv}
use co_queue.CoQueue.Threads.Ahead.{Ahead}
use co_queue.CoQueue.Threads.PushAhead.{PushStep-Ahead}
use co_queue.CoQueue.Threads.PopAhead.{PopStep-Ahead, PopFits-out}
use co_queue.CoQueue.Threads.History.{pushed, won, place}
use co_queue.CoQueue.Threads.Newest.{Newest, PushStep-Newest}
use co_queue.CoQueue.Threads.Ends.{Ends, PushStep-Ends}
use co_queue.CoQueue.Threads.PopEnds.{PopStep-Ends}
use co_queue.CoQueue.Threads.Ages.{PopStep-Ages}
use co_queue.CoQueue.Threads.Served.{Served, Served-Ages}
use co_queue.CoQueue.Threads.ServedSteps.{PushStep-Served}
use co_queue.CoQueue.Threads.Cells.{Cells}
use co_queue.CoQueue.Threads.FillSteps.{PushStep-Cells}
use co_queue.CoQueue.Threads.DrainSteps.{PopStep-Cells}

module _ {ℓ} {A : Type ℓ} where
  -- An access of `pop` leaves the pushers, the tail and the allocator.
  PopStep-Same :
      {i : ℕ} {s t : Crowd A}
      → PopStep s i t
      → (t.queue.tail ≡ s.queue.tail) × (t.queue.fresh ≡ s.queue.fresh) × (t.pc ≡ s.pc)
  PopStep-Same (Pops.pop_calls at) = (refl, refl, refl)
  PopStep-Same (Pops.pop_loads h at) = (refl, refl, refl)
  PopStep-Same (Pops.pop_naps l at o) = (refl, refl, refl)
  PopStep-Same (Pops.pop_empty l at o e) = (refl, refl, refl)
  PopStep-Same (Pops.pop_checks l n at o e) = (refl, refl, refl)
  PopStep-Same (Pops.pop_reloads l n at z) = (refl, refl, refl)
  PopStep-Same (Pops.pop_wins l n at c e o) = (refl, refl, refl)
  PopStep-Same (Pops.pop_wins_last l n at c e o) = (refl, refl, refl)
  PopStep-Same (Pops.pop_fails l n at c) = (refl, refl, refl)
  PopStep-Same (Pops.finds_next l n next at e) = (refl, refl, refl)
  PopStep-Same (Pops.looks_on l n next idx at e) = (refl, refl, refl)
  PopStep-Same (Pops.moves_chunk l idx next at) = (refl, refl, refl)
  PopStep-Same (Pops.moves_index l idx next at) = (refl, refl, refl)
  PopStep-Same (Pops.reads l x at e) = (refl, refl, refl)
  PopStep-Same {i} {s} (Pops.marks_read l x old q at o e) =
      let f : Slot A → Slot A = λ t. record t { read = true } in
      let same = change_slot-Same s.queue l.chunk (position l.head % lap) f old q e in
      (same.0, same.1, refl)
  PopStep-Same (Pops.destroys l x at o) = (refl, refl, refl)
  PopStep-Same (Pops.sees_slot p o x read at z e) = (refl, refl, refl)
  PopStep-Same {i} {s} (Pops.leaves_slot p o x old q at e) =
      let f : Slot A → Slot A = λ t. record t { destroy = true } in
      let same = change_slot-Same s.queue p o f old q e in (same.0, same.1, refl)
  PopStep-Same {i} {s} (Pops.frees p x q at e) =
      let same = free-Same s.queue p q e in (same.0, same.1, refl)
  PopStep-Same (Pops.returns r at) = (refl, refl, refl)

  Ahead-outset : Ahead (λ _. 0) (outset A)
  unfolding new
  Ahead-outset = record {
    head = record {
      below = omega arith;
      flag = λ x. absurd (omega arith);
      current = λ x. absurd (x refl);
      unset = λ x. refl;
      follows = λ x. refl;
      links = λ p c e ne. cc;
    };
    owes = λ k. record { first = λ x. absurd (omega arith); linking = λ c e. cc };
    one = λ j k ne x. absurd (omega arith);
    pops = λ k. PopFits-out (λ _. 0) (outset A) outside refl;
    apart = λ j k ne x. absurd (omega arith);
  }

  -- A numbering of the chunks, with the invariants.
  pub record Kept {s : Crowd A} (r : Reach s) : Type ℓ where
    pub lap_of : ℕ → ℕ
    pub filled : Inv lap_of s
    pub ahead : Ahead lap_of s
    pub cells : Cells lap_of (pushed r) (won r) (place r) s
    pub newest : Newest lap_of s
    pub ends : Ends s
    pub served : Served lap_of s

  Cells-outset : Cells (λ _. 0) [] 0 (λ _. 0) (outset A)
  unfolding new
  Cells-outset = record {
    pushed = refl;
    popped = refl;
    heap = λ p ne. absurd (ne refl);
    push = λ k. record { spare = λ c e. cc; claimed = λ x e. cc; stored = λ t w. cc };
    pop = λ k. record { placed = λ x. absurd (omega arith); got = λ x e. cc; site = λ c o e. cc };
  }

  Newest-outset : Newest (λ _. 0) (outset A)
  Newest-outset = record {
    zero = refl;
    bound = λ c. omega arith;
    once = λ c d e ne. absurd (ne refl);
    closing = λ k e. absurd (omega (arith, e));
  }

  Ends-outset : Ends (outset A)
  unfolding new
  Ends-outset = record {
    tail = λ e. absurd (omega (arith, e));
    head = λ e. absurd (omega (arith, e));
    first = λ e ne. absurd (ne refl);
  }

  Served-outset : Served (λ _. 0) (outset A)
  Served-outset = record {
    slot = λ c o t ne le at w lt. absurd (ne refl);
    link = λ c ne z le. absurd (ne refl);
  }

  pub Reach-Kept : {s : Crowd A} (r : Reach s) → Kept r
  unfolding pushed won place
  Reach-Kept start = record {
    lap_of = λ _. 0;
    filled = Inv-new;
    ahead = Ahead-outset;
    cells = Cells-outset;
    newest = Newest-outset;
    ends = Ends-outset;
    served = Served-outset;
  }
  Reach-Kept (pushes r i lt st) =
      let k = Reach-Kept r in
      record {
        lap_of = grow k.lap_of st;
        filled = PushStep-Inv st lt k.filled;
        ahead = PushStep-Ahead st lt k.filled k.ahead;
        cells = PushStep-Cells st lt k.filled k.cells;
        newest = PushStep-Newest st lt k.filled k.newest;
        ends = PushStep-Ends st lt k.filled k.ahead k.newest k.ends;
        served = PushStep-Served st lt k.filled k.ahead k.newest k.served;
      }
  Reach-Kept (pops r i lt st) =
      let k = Reach-Kept r in
      let same = PopStep-Same st in
      record {
        lap_of = k.lap_of;
        filled = record {
          shared = rw (same.0, same.1) k.filled.shared;
          fits = rw (same.0, same.1, same.2) k.filled.fits;
          apart = rw (same.2) k.filled.apart;
        };
        ahead = PopStep-Ahead st lt k.ahead;
        cells = PopStep-Cells st k.filled k.ahead k.cells;
        newest = record {
          zero = k.newest.zero;
          bound = rw (same.0) k.newest.bound;
          once = k.newest.once;
          closing = rw (same.0, same.2) k.newest.closing;
        };
        ends = PopStep-Ends st k.ahead k.ends;
        served = Served-Ages k.served same.0 same.2 (PopStep-Ages st);
      }
