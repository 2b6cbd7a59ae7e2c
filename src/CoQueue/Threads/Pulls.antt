-- ===== src/CoQueue/Threads/Pulls.antt =====
-- src/lockless_queue.rs, `CoQueue::pop` by many threads: the ways in which one access changes the
-- head.
use co_queue.Base.{ℕ, ◌+◌, ◌/◌, ◌%◌, ◌≤◌, ◌<◌, ◌≡◌, ◌≢◌, ◌⊎◌, refl, sym, ap, ◌∙◌, arith}
use co_queue.CoQueue.State.{CoQueue}
use co_queue.CoQueue.Threads.{PopPc, Crowd, pop_go}
use co_queue.CoQueue.Threads.Ahead.{pop_stage, head_of, pop_chunk, target, PopFits, Links, Ahead}
use co_queue.CoQueue.Threads.Shifts.{Ahead-pop}

module _ {ℓ} {A : Type ℓ} where
  -- Where the poppers stand in `s`.
  abbrev pub PopFitsIn : (ℕ → ℕ) → Crowd A → PopPc A → Type 0
  PopFitsIn lap_of s p = PopFits lap_of s.queue.head.index s.queue.head.chunk s.queue.tail.index p

  -- Both ends stay, and the thread has claimed no more than before.
  pub Ahead-pop_still :
      {lap_of : ℕ → ℕ} {s : Crowd A}
      → Ahead lap_of s
      → (q : CoQueue A) (i : ℕ) (p : PopPc A) → q.tail ≡ s.queue.tail
      → q.head ≡ s.queue.head
      → Links lap_of s.queue.tail.index q.heap
      → PopFitsIn lap_of s p
      → (4 ≤ pop_stage p → (4 ≤ pop_stage (s.popper i)) × (head_of (s.popper i) ≡ head_of p))
      → Ahead lap_of (pop_go s q i p)
  Ahead-pop_still {lap_of} {s} a q i p tl hd links fit keeps =
      let h = a.head in
      Ahead-pop a q i p tl
        (record {
          below = rw (tl, hd) h.below;
          flag = rw (tl, hd) h.flag;
          current = rw hd h.current;
          unset = rw hd h.unset;
          follows = rw (tl, hd) h.follows;
          links = rw tl links;
        })
        (λ b o. record { first = rw (tl, hd) o.first; linking = rw tl o.linking }) (rw hd fit)
        (λ b f ap. (rw hd f, λ x y. let k = keeps x in rw (← k.1) (ap k.0 y)))

  -- The head moves past the slot that the thread has looked at.
  pub Ahead-pop_wins :
      {lap_of : ℕ → ℕ} {s : Crowd A}
      → Ahead lap_of s
      → (i : ℕ) (b p : PopPc A) (n : ℕ) → s.popper i ≡ b
      → (pop_stage b ≡ 3) × (target b ≡ n)
      → (head_of p ≡ head_of b) × (pop_chunk p ≡ pop_chunk b)
      → pop_chunk b ≢ 0
      → s.queue.head.index ≡ head_of b
      → (pop_stage p ≡ 8) ⊎ ((pop_stage p ≡ 4) × (head_of b / 2 % 32 ≡ 30) × (target p ≡ n))
      → Ahead lap_of (pop_go s (record s.queue { head = record s.queue.head { index = n } }) i p)
  Ahead-pop_wins {lap_of} {s} a i b p n at st same set e last =
      let hd = a.head in
      let me : PopFitsIn lap_of s b = rw (← at) (a.pops i) in
      let test = me.tested st.0 in
      let room = test.2 (sym e) in
      let mine : pop_chunk b ≡ s.queue.head.chunk =
        me.looks (omega (arith, st.0)) (omega (arith, st.0)) (sym e) (omega (arith, test.1, e))
          set in
      let lap = hd.current (λ z. set (mine ∙ z)) (omega (arith, test.1, e)) in
      let on : n / 2 ≡ s.queue.head.index / 2 + 1 = omega (arith, test.0, st.1, e) in
      let far : n % 2 ≡ 1 → s.queue.head.index / 64 < s.queue.tail.index / 64 =
        λ x. test.3 (sym e) (omega (arith, st.1)) in
      Ahead-pop a (record s.queue { head = record s.queue.head { index = n } }) i p refl
        (record {
          below = omega (arith, on, room);
          flag = λ x. omega (arith, far x, on, test.1, e);
          current = λ x y. omega (arith, lap, on, test.1, e);
          unset = λ x. absurd (set (mine ∙ x));
          follows = hd.follows;
          links = hd.links;
        })
        (λ d o. record { first = o.first; linking = o.linking })
        (record {
          below = λ x. omega (arith, same.0, on, e);
          looks = λ x y. absurd (ground (arith, last));
          tested = λ x. absurd (ground (arith, last));
          claims = λ x. (
            omega (arith, same.0, on, e),
            omega (arith, same.0, test.1),
            ap lap_of (same.1 ∙ mine) ∙ omega (arith, lap, same.0, e),
          );
          closes = λ x y. ground (arith, last, on, same.0, e);
          aims = λ x y. ground (arith, last, on, same.0, e);
          nexts = λ x y. absurd (ground (arith, last));
          lands = λ x y. absurd (ground (arith, last));
          moved = λ x. absurd (ground (arith, last));
        })
        (λ d f ap. (
          record {
            below = λ x. omega (arith, f.below x, on);
            looks = λ x y z. absurd (omega (arith, f.below (omega arith), on));
            tested = λ x.
                let r = f.tested x in
                (
                  r.0,
                  r.1,
                  λ z. absurd (omega (arith, f.below (omega (arith, x)), on)),
                  λ z. absurd (omega (arith, f.below (omega (arith, x)), on)),
                );
            claims = λ x. let r = f.claims x in (omega (arith, r.0, on), r.1, r.2);
            closes = λ x y. absurd (omega (arith, f.closes x y, test.1, e));
            aims = f.aims;
            nexts = f.nexts;
            lands = f.lands;
            moved = f.moved;
          },
          λ x y z. omega (arith, f.claims y, same.0, e),
        ))
