-- ===== src/CoQueue/Threads/DrainSteps.antt =====
-- src/lockless_queue.rs, `CoQueue::pop` by many threads: every access keeps the memory in order.
use co_queue.Base.{
  ℕ, ◌+◌, ◌-◌, ◌*◌, ◌/◌, ◌%◌, ◌≤◌, ◌≡◌, ◌≢◌, refl, sym, ◌∙◌, Bool, true, false, Option, none, some,
  List, get_elem?, if◌then◌else◌, arith,
}
use co_queue.Base.Outcome.{done}
use co_queue.CoQueue.Chunk.{Ptr, Slot, Chunk, chunk_cap, lap}
use co_queue.CoQueue.State.{position, CoQueue}
use co_queue.CoQueue.Threads.{
  PopPc, outside, returned, has_head, round, checked, waiting, found, move_chunk, move_index,
  reading, taken, destroying, unread, Crowd,
}
use co_queue.CoQueue.Threads.Pops
use co_queue.CoQueue.Threads.Pops.{PopStep, read_slot, read_state}
use co_queue.CoQueue.Threads.Invariant.{Inv}
use co_queue.CoQueue.Threads.Ahead.{pop_stage, Ahead}
use co_queue.CoQueue.Threads.Pulls.{PopFitsIn}
use co_queue.CoQueue.Threads.Cells.{slot_in, result_of, ruins, PopHolds, Cells}
use co_queue.CoQueue.Threads.Values.{change_slot-was}
use co_queue.CoQueue.Threads.History.{leave, place_in}
use co_queue.CoQueue.Threads.Drain.{
  HeapFits-cell, Cells-pop_calm, Cells-pop_free, Cells-pop_wins, Cells-pop_flag,
}

module _ {ℓ} {A : Type ℓ} where
  read_slot-full :
      (q : CoQueue A) (p : Ptr) (o : ℕ) (x : A) (c : Chunk A) (u : Option (Slot A))
      → q.heap p ≡ some c
      → get_elem? c.slots o ≡ u
      → read_slot q p o ≡ done x
      → (t : Slot A) × (slot_in (q.heap p) o ≡ some t) × (t.write ≡ true) × (t.value ≡ some x)
  read_slot-full q p o x c none here at e = ground arith
  read_slot-full q p o x c (some t) here at e = (t, rw here at, ground arith, ground arith)

  read_state-slot :
      (q : CoQueue A) (p : Ptr) (o : ℕ) (b : Bool) (c : Chunk A) (u : Option (Slot A))
      → q.heap p ≡ some c
      → get_elem? c.slots o ≡ u
      → read_state q p o ≡ done b
      → (t : Slot A) × (slot_in (q.heap p) o ≡ some t) × (t.read ≡ b)
  read_state-slot q p o b c none here at e = ground arith
  read_state-slot q p o b c (some t) here at e = (t, rw here at, ground arith)

  -- The thread holds a value, and has no slot left to read.
  PopHolds-result :
      (lap_of : ℕ → ℕ) (vals : List A) (n : ℕ) (p : PopPc A) (x : A)
      → pop_stage p ≡ 0
      → result_of p ≡ some x
      → get_elem? vals n ≡ some x
      → ((c : Ptr) (o : ℕ) → ruins p ≡ some (c, o) → (lap_of c ≢ 0) × (o ≤ 30))
      → PopHolds lap_of vals n p
  PopHolds-result lap_of vals n p x st res v site = record {
    placed = λ z. absurd (omega (arith, st));
    got = λ y e. v ∙ sym res ∙ e;
    site = site;
  }

  -- `Chunk::destroy` goes on to this slot, or the thread is elsewhere.
  PopHolds-goes :
      (lap_of : ℕ → ℕ) (vals : List A) (n : ℕ) (p : Ptr) (o : ℕ) (x : A) (b : Bool)
      (other : PopPc A)
      → get_elem? vals n ≡ some x
      → (b ≡ true → (lap_of p ≢ 0) × (o ≤ 30))
      → PopHolds lap_of vals n other
      → PopHolds lap_of vals n (if b then destroying p o x else other)
  PopHolds-goes lap_of vals n p o x true other v site k =
      PopHolds-result lap_of vals n (destroying p o x) x refl refl v
        (λ c m z. ground (arith, site refl))
  PopHolds-goes lap_of vals n p o x false other v site k = k

  pub PopStep-Cells :
      {lap_of : ℕ → ℕ} {vals : List A} {won : ℕ} {place : ℕ → ℕ} {i : ℕ} {s t : Crowd A}
      → (st : PopStep s i t) → Inv lap_of s
      → Ahead lap_of s
      → Cells lap_of vals won place s
      → Cells lap_of vals (leave won st) (place_in won place st) t
  PopStep-Cells {i = i} {s = s} (Pops.pop_calls at) inv a k =
      Cells-pop_free k i (has_head s.queue.head.index) (omega arith) (refl, refl)
  PopStep-Cells {i = i} {s = s} (Pops.pop_naps l at o) inv a k =
      Cells-pop_free k i (has_head s.queue.head.index) (omega arith) (refl, refl)
  PopStep-Cells {i = i} {s = s} (Pops.pop_reloads l n at z) inv a k =
      Cells-pop_free k i (has_head s.queue.head.index) (omega arith) (refl, refl)
  PopStep-Cells {i = i} {s = s} (Pops.pop_fails l n at z) inv a k =
      Cells-pop_free k i (has_head s.queue.head.index) (omega arith) (refl, refl)
  PopStep-Cells {i = i} {s = s} (Pops.pop_loads h at) inv a k =
      Cells-pop_free k i (round (record { head = h; chunk = s.queue.head.chunk })) (omega arith)
        (refl, refl)
  PopStep-Cells {i = i} (Pops.pop_empty l at o e) inv a k =
      Cells-pop_free k i (returned none) (omega arith) (refl, refl)
  PopStep-Cells {i = i} (Pops.pop_checks l n at o e) inv a k =
      Cells-pop_free k i (checked l n) (omega arith) (refl, refl)
  PopStep-Cells {i = i} (Pops.returns r at) inv a k =
      Cells-pop_free k i outside (omega arith) (refl, refl)
  PopStep-Cells {lap_of} {i = i} {s = s} (Pops.pop_wins l n at c e o) inv a k =
      let me : PopFitsIn lap_of s (checked l n) = rw (← at) (a.pops i) in
      let test = me.tested refl in
      Cells-pop_wins k a i (checked l n) (reading l) n at
        (omega (arith, test.0, e), omega (arith, test.1, e)) (sym e) (refl, refl)
  PopStep-Cells {lap_of} {i = i} {s = s} (Pops.pop_wins_last l n at c e o) inv a k =
      let me : PopFitsIn lap_of s (checked l n) = rw (← at) (a.pops i) in
      let test = me.tested refl in
      Cells-pop_wins k a i (checked l n) (waiting l n) n at
        (omega (arith, test.0, e), omega (arith, test.1, e)) (sym e) (refl, refl)
  PopStep-Cells {lap_of} {vals} {place = place} {i = i} {s = s} (Pops.finds_next l n next at e) inv
        a k =
      let me : PopHolds lap_of vals (place i) (waiting l n) = rw (← at) (k.pop i) in
      Cells-pop_calm k s.queue i (found l n next) refl refl refl
        (record { placed = λ z. me.placed (omega arith); got = λ x z. cc; site = λ c o z. cc })
  PopStep-Cells {lap_of} {vals} {place = place} {i = i} {s = s} (Pops.looks_on l n next idx at e)
        inv a k =
      let me : PopHolds lap_of vals (place i) (found l n next) = rw (← at) (k.pop i) in
      Cells-pop_calm k s.queue i (move_chunk l idx next) refl refl refl
        (record { placed = λ z. me.placed (omega arith); got = λ x z. cc; site = λ c o z. cc })
  PopStep-Cells {lap_of} {vals} {place = place} {i = i} {s = s} (Pops.moves_chunk l idx next at) inv
        a k =
      let me : PopHolds lap_of vals (place i) (move_chunk l idx next) = rw (← at) (k.pop i) in
      Cells-pop_calm k (record s.queue { head = record s.queue.head { chunk = next } }) i
        (move_index l idx next) refl refl refl
        (record { placed = λ z. me.placed (omega arith); got = λ x z. cc; site = λ c o z. cc })
  PopStep-Cells {lap_of} {vals} {place = place} {i = i} {s = s} (Pops.moves_index l idx next at) inv
        a k =
      let me : PopHolds lap_of vals (place i) (move_index l idx next) = rw (← at) (k.pop i) in
      let fit : PopFitsIn lap_of s (move_index l idx next) = rw (← at) (a.pops i) in
      Cells-pop_calm k (record s.queue { head = record s.queue.head { index = idx } }) i (reading l)
        refl
        (omega
          (arith, fit.closes (omega arith) (omega arith), fit.lands (omega arith) (omega arith)))
        refl (record { placed = λ z. me.placed (omega arith); got = λ x z. cc; site = λ c o z. cc })
  PopStep-Cells {lap_of} {vals} {place = place} {i = i} {s = s} (Pops.reads l x at e) inv a k =
      let me : PopHolds lap_of vals (place i) (reading l) = rw (← at) (k.pop i) in
      let fit : PopFitsIn lap_of s (reading l) = rw (← at) (a.pops i) in
      let claim = fit.claims (omega arith) in
      let (c, there, _) = k.heap l.chunk (λ z. omega (arith, claim, z)) in
      let (t, here, w, v) =
        read_slot-full s.queue l.chunk (position l.head % lap) x c
          (get_elem? c.slots (position l.head % lap)) there refl e in
      let cell =
        HeapFits-cell lap_of vals s.queue.heap l.chunk (position l.head % lap) t k.heap
          (λ z. omega (arith, claim, z)) here in
      let spot : 32 * (lap_of l.chunk - 1) + position l.head % lap ≡ l.head / 2 =
        omega (arith, claim) in
      let value : get_elem? vals (place i) ≡ some x =
        rw (me.placed (omega arith), ← spot) (sym (cell.full w).0 ∙ v) in
      Cells-pop_calm k s.queue i (taken l x) refl refl refl (record {
        placed = λ z. me.placed (omega arith);
        got = λ y z. value ∙ z;
        site = λ c o z. cc;
      })
  PopStep-Cells {lap_of} {vals} {place = place} {i = i} {s = s} (Pops.marks_read l x old q at o e)
        inv a k =
      let me : PopHolds lap_of vals (place i) (taken l x) = rw (← at) (k.pop i) in
      let fit : PopFitsIn lap_of s (taken l x) = rw (← at) (a.pops i) in
      let claim = fit.claims (omega arith) in
      let off = position l.head % lap in
      let next : PopPc A =
        if old.destroy then destroying l.chunk (off + 1) x else returned (some x) in
      Cells-pop_flag k inv l.chunk off (λ t. record t { read = true }) old q i next e
        (λ z. omega (arith, claim, z)) (refl, refl) (λ z. absurd (o (omega (arith, z))))
        (PopHolds-goes lap_of vals (place i) l.chunk (off + 1) x old.destroy (returned (some x))
          (me.got x refl) (λ z. (λ y. omega (arith, claim, y), omega (arith, claim)))
          (PopHolds-result lap_of vals (place i) (returned (some x)) x refl refl (me.got x refl)
            (λ c m z. cc)))
  PopStep-Cells {lap_of} {vals} {place = place} {i = i} {s = s} (Pops.destroys l x at o) inv a k =
      let me : PopHolds lap_of vals (place i) (taken l x) = rw (← at) (k.pop i) in
      let fit : PopFitsIn lap_of s (taken l x) = rw (← at) (a.pops i) in
      let claim = fit.claims (omega arith) in
      Cells-pop_calm k s.queue i (destroying l.chunk 0 x) refl refl refl (
        PopHolds-result lap_of vals (place i) (destroying l.chunk 0 x) x refl refl (me.got x refl)
          (λ c m z. ground (arith, claim)))
  PopStep-Cells {lap_of} {vals} {place = place} {i = i} {s = s} (Pops.sees_slot p o x read at lt e)
        inv a k =
      let me : PopHolds lap_of vals (place i) (destroying p o x) = rw (← at) (k.pop i) in
      let site = me.site p o refl in
      let (c, there, _) = k.heap p site.0 in
      let (t, here, is) = read_state-slot s.queue p o read c (get_elem? c.slots o) there refl e in
      let cell = HeapFits-cell lap_of vals s.queue.heap p o t k.heap site.0 here in
      let next : PopPc A = if read then destroying p (o + 1) x else unread p o x in
      Cells-pop_calm k s.queue i next refl refl refl (
        PopHolds-goes lap_of vals (place i) p (o + 1) x read (unread p o x) (me.got x refl)
          (λ z. (site.0, ground (arith, cell.last, site.1)))
          (PopHolds-result lap_of vals (place i) (unread p o x) x refl refl (me.got x refl)
            (λ c m z. me.site c m z)))
  PopStep-Cells {lap_of} {vals} {place = place} {i = i} {s = s} (Pops.leaves_slot p o x old q at e)
        inv a k =
      let me : PopHolds lap_of vals (place i) (unread p o x) = rw (← at) (k.pop i) in
      let site = me.site p o refl in
      let cell =
        HeapFits-cell lap_of vals s.queue.heap p o old k.heap site.0
          (change_slot-was s.queue p o (λ t. record t { destroy = true }) old q e) in
      let next : PopPc A = if old.read then destroying p (o + 1) x else returned (some x) in
      Cells-pop_flag k inv p o (λ t. record t { destroy = true }) old q i next e site.0 (refl, refl)
        (λ z. refl)
        (PopHolds-goes lap_of vals (place i) p (o + 1) x old.read (returned (some x))
          (me.got x refl) (λ z. (site.0, ground (arith, cell.last, site.1)))
          (PopHolds-result lap_of vals (place i) (returned (some x)) x refl refl (me.got x refl)
            (λ c m z. cc)))
  PopStep-Cells {lap_of} {vals} {place = place} {i = i} {s = s} (Pops.frees p x q at e) inv a k =
      let me : PopHolds lap_of vals (place i) (destroying p chunk_cap x) = rw (← at) (k.pop i) in
      absurd (omega (arith, me.site p chunk_cap refl))
