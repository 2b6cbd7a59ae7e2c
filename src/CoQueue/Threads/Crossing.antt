-- ===== src/CoQueue/Threads/Crossing.antt =====
-- src/lockless_queue.rs, `CoQueue::pop` by many threads: the head moves to the next chunk.
use co_queue.Base.{ℕ, ◌≤◌, ◌≡◌, ◌≢◌, refl, sym, ap, ◌∙◌, arith}
use co_queue.CoQueue.Threads.{PopPc, Crowd, pop_go}
use co_queue.CoQueue.Threads.Ahead.{pop_stage, head_of, pop_chunk, target, onto, PopApart, Ahead}
use co_queue.CoQueue.Threads.Pulls.{PopFitsIn}
use co_queue.CoQueue.Threads.Shifts.{Ahead-pop}

module _ {ℓ} {A : Type ℓ} where
  -- The thread that popped the last slot moves the head to the next chunk, and then its index.
  pub Ahead-moves_chunk :
      {lap_of : ℕ → ℕ} {s : Crowd A}
      → Ahead lap_of s
      → (i : ℕ) (b p : PopPc A) → s.popper i ≡ b
      → (pop_stage b ≡ 6) × (pop_stage p ≡ 7)
      → (head_of p ≡ head_of b) × (pop_chunk p ≡ pop_chunk b)
      → (target p ≡ target b) × (onto p ≡ onto b)
      → Ahead lap_of
          (pop_go s (record s.queue { head = record s.queue.head { chunk = onto b } }) i p)
  Ahead-moves_chunk {lap_of} {s} a i b p at st same goal =
      let hd = a.head in
      let me : PopFitsIn lap_of s b = rw (← at) (a.pops i) in
      let late : 4 ≤ pop_stage b = omega (arith, st.0) in
      let full = me.closes late (omega (arith, st.0)) in
      let next = me.nexts (omega (arith, st.0)) (omega (arith, st.0)) in
      let land = me.lands (omega (arith, st.0)) (omega (arith, st.0)) in
      let claim = me.claims late in
      let went : s.queue.head.chunk ≢ 0 = λ z. omega (arith, hd.unset z, full) in
      Ahead-pop a (record s.queue { head = record s.queue.head { chunk = onto b } }) i p refl
        (record {
          below = hd.below;
          flag = hd.flag;
          current = λ x y. absurd (y (omega (arith, full)));
          unset = λ x. absurd (next.1 x);
          follows = λ x. absurd (went (hd.follows x));
          links = hd.links;
        })
        (λ d o. record { first = λ x. absurd (went (o.first x).0); linking = o.linking })
        (record {
          below = λ x. omega (arith, same.0, me.below (omega (arith, st.0)));
          looks = λ x y. absurd (omega (arith, st.1));
          tested = λ x. absurd (omega (arith, st.1));
          claims = λ x. rw (same.0, same.1) claim;
          closes = λ x y. rw same.0 full;
          aims = λ x y. absurd (omega (arith, st.1));
          nexts = λ x y. rw (same.0, goal.1) next;
          lands = λ x y. rw (same.0, goal.0) land;
          moved = λ x. sym goal.1;
        })
        (λ d f ap.
          let near : PopApart b d = rw (← at) ap in
          (
            record {
              below = f.below;
              looks = λ x y z o. absurd (o (omega (arith, full)));
              tested = f.tested;
              claims = f.claims;
              closes = f.closes;
              aims = f.aims;
              nexts = f.nexts;
              lands = f.lands;
              moved = λ x. absurd (
                  near late (omega (arith, x))
                    (omega (arith, full, f.closes (omega (arith, x)) (omega (arith, x)))));
            },
            λ x y z. near late y (omega (arith, same.0, z)),
          ))

  pub Ahead-moves_index :
      {lap_of : ℕ → ℕ} {s : Crowd A}
      → Ahead lap_of s
      → (i : ℕ) (b p : PopPc A) → s.popper i ≡ b
      → (pop_stage b ≡ 7) × (pop_stage p ≡ 8)
      → (head_of p ≡ head_of b) × (pop_chunk p ≡ pop_chunk b)
      → Ahead lap_of
          (pop_go s (record s.queue { head = record s.queue.head { index = target b } }) i p)
  Ahead-moves_index {lap_of} {s} a i b p at st same =
      let hd = a.head in
      let me : PopFitsIn lap_of s b = rw (← at) (a.pops i) in
      let late : 4 ≤ pop_stage b = omega (arith, st.0) in
      let full = me.closes late (omega (arith, st.0)) in
      let next = me.nexts (omega (arith, st.0)) (omega (arith, st.0)) in
      let land = me.lands (omega (arith, st.0)) (omega (arith, st.0)) in
      let claim = me.claims late in
      let there : s.queue.head.chunk ≡ onto b = me.moved st.0 in
      Ahead-pop a (record s.queue { head = record s.queue.head { index = target b } }) i p refl
        (record {
          below = omega (arith, land.0, next.2, full);
          flag = λ x. omega (arith, land.1 x, land.0, full);
          current = λ x y. ap lap_of there ∙ next.0 ∙ omega (arith, land.0, full);
          unset = λ x. absurd (next.1 (sym there ∙ x));
          follows = hd.follows;
          links = hd.links;
        })
        (λ d o. record { first = o.first; linking = o.linking })
        (record {
          below = λ x. omega (arith, same.0, me.below (omega (arith, st.0)), land.0, full);
          looks = λ x y. absurd (omega (arith, st.1));
          tested = λ x. absurd (omega (arith, st.1));
          claims = λ x. rw (same.0, same.1) (omega (arith, land.0), claim.1, claim.2);
          closes = λ x y. absurd (omega (arith, st.1));
          aims = λ x y. absurd (omega (arith, st.1));
          nexts = λ x y. absurd (omega (arith, st.1));
          lands = λ x y. absurd (omega (arith, st.1));
          moved = λ x. absurd (omega (arith, st.1));
        })
        (λ d f ap.
          let near : PopApart b d = rw (← at) ap in
          (
            record {
              below = λ x. omega (arith, f.below x, land.0, full);
              looks = λ x y z. absurd (omega (arith, f.below (omega arith), land.0, full));
              tested = λ x.
                  let r = f.tested x in
                  (
                    r.0,
                    r.1,
                    λ z. absurd (omega (arith, f.below (omega (arith, x)), land.0, full)),
                    λ z. absurd (omega (arith, f.below (omega (arith, x)), land.0, full)),
                  );
              claims = λ x. let r = f.claims x in (omega (arith, r.0, land.0, full), r.1, r.2);
              closes = λ x y. absurd (near late x (omega (arith, full, f.closes x y)));
              aims = f.aims;
              nexts = f.nexts;
              lands = f.lands;
              moved = λ x. absurd (
                  near late (omega (arith, x))
                    (omega (arith, full, f.closes (omega (arith, x)) (omega (arith, x)))));
            },
            λ x y z. near late y (omega (arith, same.0, z)),
          ))
