-- ===== src/CoQueue/Threads/PopAhead.antt =====
-- src/lockless_queue.rs, `CoQueue::pop` by many threads: every access keeps the head and the tail in
-- order.
use co_queue.Base.{
  ℕ, ◌+◌, ◌%◌, ◌^◌, ◌<◌, ◌≡◌, inl, inr, refl, true, none, some, if◌then◌else◌, arith,
}
use co_queue.CoQueue.Chunk.{Slot, lap}
use co_queue.CoQueue.State.{position, CoQueue}
use co_queue.CoQueue.Threads.{
  PopPc, outside, returned, has_head, round, checked, waiting, found, move_chunk, move_index,
  reading, taken, destroying, unread, Crowd, pop_go,
}
use co_queue.CoQueue.Threads.Pops
use co_queue.CoQueue.Threads.Pops.{PopStep, next_of, next_index}
use co_queue.CoQueue.Threads.Alone.{change_slot-Same, free-Same}
use co_queue.CoQueue.Threads.Ahead.{pop_stage, Links, Ahead}
use co_queue.CoQueue.Threads.Links.{Links-change_slot, Links-free}
use co_queue.CoQueue.Threads.Looks.{next_head_lem, next_of_lem, next_index_lem}
use co_queue.CoQueue.Threads.Pulls.{PopFitsIn, Ahead-pop_still, Ahead-pop_wins}
use co_queue.CoQueue.Threads.Crossing.{Ahead-moves_chunk, Ahead-moves_index}

module _ {ℓ} {A : Type ℓ} where
  pub PopFits-out :
      (lap_of : ℕ → ℕ) (s : Crowd A) (p : PopPc A) → pop_stage p ≡ 0 → PopFitsIn lap_of s p
  PopFits-out lap_of s p st = record {
    below = λ x. absurd (omega (arith, st));
    looks = λ x. absurd (omega (arith, st));
    tested = λ x. absurd (omega (arith, st));
    claims = λ x. absurd (omega (arith, st));
    closes = λ x. absurd (omega (arith, st));
    aims = λ x. absurd (omega (arith, st));
    nexts = λ x. absurd (omega (arith, st));
    lands = λ x. absurd (omega (arith, st));
    moved = λ x. absurd (omega (arith, st));
  }

  -- The thread reloads the head's index.
  Ahead-reload :
      {lap_of : ℕ → ℕ} {s : Crowd A}
      → Ahead lap_of s
      → (i : ℕ) → Ahead lap_of (pop_go s s.queue i (has_head s.queue.head.index))
  Ahead-reload {lap_of} {s} a i =
      Ahead-pop_still a s.queue i (has_head s.queue.head.index) refl refl a.head.links
        (record {
          below = λ x. omega arith;
          looks = λ x. absurd (omega arith);
          tested = λ x. absurd (omega arith);
          claims = λ x. absurd (omega arith);
          closes = λ x. absurd (omega arith);
          aims = λ x. absurd (omega arith);
          nexts = λ x. absurd (omega arith);
          lands = λ x. absurd (omega arith);
          moved = λ x. absurd (omega arith);
        })
        (λ x. absurd (omega arith))

  -- The thread has no claim after the access.
  Ahead-out :
      {lap_of : ℕ → ℕ} {s : Crowd A}
      → Ahead lap_of s
      → (q : CoQueue A) (i : ℕ) (p : PopPc A) → q.tail ≡ s.queue.tail
      → q.head ≡ s.queue.head
      → Links lap_of s.queue.tail.index q.heap
      → pop_stage p ≡ 0
      → Ahead lap_of (pop_go s q i p)
  Ahead-out {lap_of} {s} a q i p tl hd links st =
      Ahead-pop_still a q i p tl hd links (PopFits-out lap_of s p st)
        (λ x. absurd (omega (arith, st)))

  pub PopStep-Ahead :
      {lap_of : ℕ → ℕ} {i : ℕ} {s t : Crowd A}
      → PopStep s i t
      → s.queue.tail.index + 4 < 2 ^ 64
      → Ahead lap_of s
      → Ahead lap_of t
  PopStep-Ahead {i = i} (Pops.pop_calls at) lt a = Ahead-reload a i
  PopStep-Ahead {i = i} (Pops.pop_naps l at o) lt a = Ahead-reload a i
  PopStep-Ahead {i = i} (Pops.pop_reloads l n at z) lt a = Ahead-reload a i
  PopStep-Ahead {i = i} (Pops.pop_fails l n at z) lt a = Ahead-reload a i
  PopStep-Ahead {lap_of} {i} {s} (Pops.pop_loads h at) lt a =
      let me : PopFitsIn lap_of s (has_head h) = rw (← at) (a.pops i) in
      Ahead-pop_still a s.queue i (round (record { head = h; chunk = s.queue.head.chunk })) refl
        refl a.head.links
        (record {
          below = λ x. me.below (omega arith);
          looks = λ x y z o c. refl;
          tested = λ x. absurd (omega arith);
          claims = λ x. absurd (omega arith);
          closes = λ x. absurd (omega arith);
          aims = λ x. absurd (omega arith);
          nexts = λ x. absurd (omega arith);
          lands = λ x. absurd (omega arith);
          moved = λ x. absurd (omega arith);
        })
        (λ x. absurd (omega arith))
  PopStep-Ahead {i = i} {s = s} (Pops.pop_empty l at o e) lt a =
      Ahead-out a s.queue i (returned none) refl refl a.head.links refl
  PopStep-Ahead {lap_of} {i} {s} (Pops.pop_checks l n at o e) lt a =
      let me : PopFitsIn lap_of s (round l) = rw (← at) (a.pops i) in
      let hd = a.head in
      let low = me.below (omega arith) in
      let test = next_head_lem s.queue l.head n e (omega (arith, low, hd.below)) in
      Ahead-pop_still a s.queue i (checked l n) refl refl a.head.links
        (record {
          below = λ x. low;
          looks = λ x y. me.looks (omega arith) (omega arith);
          tested = λ x. (
            test.0,
            o,
            λ z. ground (arith, test.1, z, hd.below, hd.flag),
            λ z f. ground (arith, test.1, z, f, hd.below, hd.flag),
          );
          claims = λ x. absurd (omega arith);
          closes = λ x. absurd (omega arith);
          aims = λ x. absurd (omega arith);
          nexts = λ x. absurd (omega arith);
          lands = λ x. absurd (omega arith);
          moved = λ x. absurd (omega arith);
        })
        (λ x. absurd (omega arith))
  PopStep-Ahead {i = i} (Pops.pop_wins l n at c e o) lt a =
      Ahead-pop_wins a i (checked l n) (reading l) n at (refl, refl) (refl, refl) c e (inl refl)
  PopStep-Ahead {i = i} (Pops.pop_wins_last l n at c e o) lt a =
      Ahead-pop_wins a i (checked l n) (waiting l n) n at (refl, refl) (refl, refl) c e
        (inr (refl, omega arith, refl))
  PopStep-Ahead {lap_of} {i} {s} (Pops.finds_next l n next at e) lt a =
      let me : PopFitsIn lap_of s (waiting l n) = rw (← at) (a.pops i) in
      let (d, here, is, set) = next_of_lem s.queue l.chunk next (s.queue.heap l.chunk) refl e in
      let on = a.head.links l.chunk d here (rw is set) in
      let claim = me.claims (omega arith) in
      Ahead-pop_still a s.queue i (found l n next) refl refl a.head.links
        (record {
          below = λ x. me.below (omega arith);
          looks = λ x y. absurd (omega arith);
          tested = λ x. absurd (omega arith);
          claims = λ x. claim;
          closes = λ x y. me.closes (omega arith) (omega arith);
          aims = λ x y. me.aims (omega arith) (omega arith);
          nexts = λ x y. rw (← is) (omega (arith, on, claim), rw is set, omega (arith, on, claim));
          lands = λ x. absurd (omega arith);
          moved = λ x. absurd (omega arith);
        })
        (λ x. rw at (omega arith, refl))
  PopStep-Ahead {lap_of} {i} {s} (Pops.looks_on l n next idx at e) lt a =
      let me : PopFitsIn lap_of s (found l n next) = rw (← at) (a.pops i) in
      let claim = me.claims (omega arith) in
      let aim = me.aims (omega arith) (omega arith) in
      let nx = me.nexts (omega arith) (omega arith) in
      let to =
        next_index_lem s.queue next n idx (s.queue.heap next) refl e
          (omega (arith, aim, claim, a.head.below)) in
      Ahead-pop_still a s.queue i (move_chunk l idx next) refl refl a.head.links
        (record {
          below = λ x. me.below (omega arith);
          looks = λ x y. absurd (omega arith);
          tested = λ x. absurd (omega arith);
          claims = λ x. claim;
          closes = λ x y. me.closes (omega arith) (omega arith);
          aims = λ x y. absurd (omega arith);
          nexts = λ x y. nx;
          lands = λ x y. (
            omega (arith, to.0, aim),
            λ f. let (d, here, more) = to.1 f in omega (arith, a.head.links next d here more, nx),
          );
          moved = λ x. absurd (omega arith);
        })
        (λ x. rw at (omega arith, refl))
  PopStep-Ahead {i = i} (Pops.moves_chunk l idx next at) lt a =
      Ahead-moves_chunk a i (move_chunk l idx next) (move_index l idx next) at (refl, refl)
        (refl, refl) (refl, refl)
  PopStep-Ahead {i = i} (Pops.moves_index l idx next at) lt a =
      Ahead-moves_index a i (move_index l idx next) (reading l) at (refl, refl) (refl, refl)
  PopStep-Ahead {lap_of} {i} {s} (Pops.reads l x at e) lt a =
      let me : PopFitsIn lap_of s (reading l) = rw (← at) (a.pops i) in
      Ahead-pop_still a s.queue i (taken l x) refl refl a.head.links
        (record {
          below = λ z. me.below (omega arith);
          looks = λ z y. absurd (omega arith);
          tested = λ z. absurd (omega arith);
          claims = λ z. me.claims (omega arith);
          closes = λ z y. absurd (omega arith);
          aims = λ z y. absurd (omega arith);
          nexts = λ z y. absurd (omega arith);
          lands = λ z y. absurd (omega arith);
          moved = λ z. absurd (omega arith);
        })
        (λ z. rw at (omega arith, refl))
  PopStep-Ahead {lap_of} {i} {s} (Pops.marks_read l x old q at o e) lt a =
      let f : Slot A → Slot A = λ t. record t { read = true } in
      let same = change_slot-Same s.queue l.chunk (position l.head % lap) f old q e in
      Ahead-out a q i
        (if old.destroy
          then destroying l.chunk (position l.head % lap + 1) x
          else returned (some x))
        same.0 same.2
        (Links-change_slot lap_of s.queue.tail.index s.queue l.chunk (position l.head % lap) f old q
          e a.head.links)
        (ground arith)
  PopStep-Ahead {i = i} {s = s} (Pops.destroys l x at o) lt a =
      Ahead-out a s.queue i (destroying l.chunk 0 x) refl refl a.head.links refl
  PopStep-Ahead {i = i} {s = s} (Pops.sees_slot p o x read at z e) lt a =
      Ahead-out a s.queue i (if read then destroying p (o + 1) x else unread p o x) refl refl
        a.head.links (ground arith)
  PopStep-Ahead {lap_of} {i} {s} (Pops.leaves_slot p o x old q at e) lt a =
      let f : Slot A → Slot A = λ t. record t { destroy = true } in
      let same = change_slot-Same s.queue p o f old q e in
      Ahead-out a q i (if old.read then destroying p (o + 1) x else returned (some x)) same.0 same.2
        (Links-change_slot lap_of s.queue.tail.index s.queue p o f old q e a.head.links)
        (ground arith)
  PopStep-Ahead {lap_of} {i} {s} (Pops.frees p x q at e) lt a =
      let same = free-Same s.queue p q e in
      Ahead-out a q i (returned (some x)) same.0 same.2
        (Links-free lap_of s.queue.tail.index s.queue p q e a.head.links) refl
  PopStep-Ahead {i = i} {s = s} (Pops.returns r at) lt a =
      Ahead-out a s.queue i outside refl refl a.head.links refl
