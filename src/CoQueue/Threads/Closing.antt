-- ===== src/CoQueue/Threads/Closing.antt =====
-- src/lockless_queue.rs, `CoQueue::push` by many threads: the ways in which one access changes the
-- chunk of the tail.
use co_queue.Base.{
  ℕ, ◌+◌, ◌/◌, ◌≡◌, ◌≢◌, sym, ap, ◌∙◌, none, some, update, update_self, update_ne, arith,
}
use co_queue.CoQueue.Chunk.{Ptr}
use co_queue.CoQueue.State.{CoQueue}
use co_queue.CoQueue.Threads.{PushPc, Crowd, go}
use co_queue.CoQueue.Threads.Invariant.{
  stage, tail_of, chunk_of, spare_of, Fits, Apart, Inv, Inv-go,
}

module _ {ℓ} {A : Type ℓ} where
  -- Thread `i`, which filled the last slot, makes its spare chunk the tail.
  pub Inv-sets_chunk :
      {lap_of : ℕ → ℕ} {s : Crowd A}
      → Inv lap_of s
      → (q : CoQueue A) (i : ℕ) (b p : PushPc A) (c : Ptr) → s.pc i ≡ b
      → (stage b ≡ 3) × (stage p ≡ 4)
      → (tail_of p ≡ tail_of b) × (chunk_of p ≡ chunk_of b)
      → (spare_of b ≡ some c) × (spare_of p ≡ none)
      → q.tail.index ≡ s.queue.tail.index
      → q.tail.chunk ≡ c
      → q.fresh ≡ s.queue.fresh
      → Inv (update lap_of c (s.queue.tail.index / 64 + 2)) (go s q i p)
  Inv-sets_chunk {lap_of} {s} inv q i b p c at st same sp e₁ e₂ e₃ =
      let sh = inv.shared in
      let me : Fits lap_of s.queue.tail.index s.queue.tail.chunk s.queue.fresh b =
        rw (← at) (inv.fits i) in
      let mine = me.spares c sp.0 in
      let full = me.closes st.0 in
      let claim = me.claims (omega (arith, st.0)) in
      let lap' : ℕ → ℕ = update lap_of c (s.queue.tail.index / 64 + 2) in
      let linked : (d v : ℕ) → lap_of d ≡ v + 1 → lap' d ≡ v + 1 = λ d v e.
        update_ne lap_of c (s.queue.tail.index / 64 + 2) d
          (λ x. omega (arith, mine, e, ap lap_of x))
        ∙ e in
      Inv-go inv lap' q i p
        (rw (e₁, e₂, e₃)
          (record {
            unlinked = λ d h.
                update_ne lap_of c (s.queue.tail.index / 64 + 2) d (λ x. omega (arith, mine))
                ∙ sh.unlinked d h;
            some_fresh = sh.some_fresh;
            even = sh.even;
            unset = λ h. absurd (mine.2 h);
            current = λ h o. absurd (o (omega (arith, full)));
          }))
        (rw (e₁, e₂, e₃)
          (record {
            even = λ h. omega (arith, same.0, me.even (omega (arith, st.0)));
            below = λ h. omega (arith, same.0, me.below (omega (arith, st.0)));
            looks = λ h. absurd (omega (arith, st.1));
            claims = λ h.
                rw (same.0, same.1)
                  (claim.0, claim.1, linked (chunk_of b) (tail_of b / 64) claim.2);
            spares = λ d e. cc (sp.1, e);
            closes = λ h. absurd (omega (arith, st.1));
            moves = λ h. rw (same.0) (
              full.0,
              full.1,
              update_self lap_of c (s.queue.tail.index / 64 + 2) ∙ omega (arith, full),
            );
          }))
        (λ d h a.
          let near : Apart b d = rw (← at) a in
          (
            rw (e₁, e₂, e₃)
                (record {
                  even = h.even;
                  below = h.below;
                  looks = λ x y o. absurd (o (omega (arith, full)));
                  claims = λ x.
                      let r = h.claims x in (r.0, r.1, linked (chunk_of d) (tail_of d / 64) r.2);
                  spares = λ e x.
                      let r = h.spares e x in
                      (
                        update_ne lap_of c (s.queue.tail.index / 64 + 2) e (near.boxes c e sp.0 x)
                            ∙ r.0,
                        r.1,
                        r.2,
                      );
                  closes = h.closes;
                  moves = λ x. absurd (
                      near.slots (omega (arith, st.0)) (omega (arith, x))
                        (omega (arith, full, h.moves x)));
                }),
            record {
              slots = λ x y e. near.slots (omega (arith, st.0)) y (sym same.0 ∙ e);
              boxes = λ e f x y. cc (sp.1, x);
            },
          ))

  -- Thread `i` moves the index of the tail to the chunk that it has put there.
  pub Inv-sets_index :
      {lap_of : ℕ → ℕ} {s : Crowd A}
      → Inv lap_of s
      → (q : CoQueue A) (i : ℕ) (b p : PushPc A) → s.pc i ≡ b
      → (stage b ≡ 4) × (stage p ≡ 5)
      → (tail_of p ≡ tail_of b) × (chunk_of p ≡ chunk_of b)
      → spare_of p ≡ spare_of b
      → q.tail.index ≡ tail_of b + 4
      → q.tail.chunk ≡ s.queue.tail.chunk
      → q.fresh ≡ s.queue.fresh
      → Inv lap_of (go s q i p)
  Inv-sets_index {lap_of} {s} inv q i b p at st same sp e₁ e₂ e₃ =
      let sh = inv.shared in
      let me : Fits lap_of s.queue.tail.index s.queue.tail.chunk s.queue.fresh b =
        rw (← at) (inv.fits i) in
      let full = me.moves st.0 in
      let claim = me.claims (omega (arith, st.0)) in
      Inv-go inv lap_of q i p
        (rw (e₁, e₂, e₃)
          (record {
            unlinked = sh.unlinked;
            some_fresh = sh.some_fresh;
            even = omega (arith, sh.even, full);
            unset = λ h. absurd (omega (arith, sh.unset h, full));
            current = λ h o. full.2 ∙ omega (arith, full);
          }))
        (rw (e₁, e₂, e₃)
          (record {
            even = λ h. omega (arith, same.0, me.even (omega (arith, st.0)));
            below = λ h. omega (arith, same.0);
            looks = λ h. absurd (omega (arith, st.1));
            claims = λ h. rw (same.0, same.1) (omega arith, claim.1, claim.2);
            spares = λ d e. me.spares d (sym sp ∙ e);
            closes = λ h. absurd (omega (arith, st.1));
            moves = λ h. absurd (omega (arith, st.1));
          }))
        (λ d h a.
          let near : Apart b d = rw (← at) a in
          (
            rw (e₁, e₂, e₃)
                (record {
                  even = h.even;
                  below = λ x. omega (arith, h.below x, full);
                  looks = λ x y. absurd (omega (arith, h.below (omega (arith, x)), full));
                  claims = λ x. let r = h.claims x in (omega (arith, r.0, full), r.1, r.2);
                  spares = h.spares;
                  closes = λ x. absurd (
                      near.slots (omega (arith, st.0)) (omega (arith, x))
                        (omega (arith, full, h.closes x)));
                  moves = λ x. absurd (
                      near.slots (omega (arith, st.0)) (omega (arith, x))
                        (omega (arith, full, h.moves x)));
                }),
            record {
              slots = λ x y e. near.slots (omega (arith, st.0)) y (sym same.0 ∙ e);
              boxes = λ e f x y. near.boxes e f (sym sp ∙ x) y;
            },
          ))

  -- Thread `i` installs the first chunk of all.
  pub Inv-installs :
      {lap_of : ℕ → ℕ} {s : Crowd A}
      → Inv lap_of s
      → (q : CoQueue A) (i : ℕ) (b p : PushPc A) → s.pc i ≡ b
      → (stage b ≡ 2) × (stage p ≡ 2)
      → (tail_of p ≡ tail_of b) × (chunk_of p ≡ s.queue.fresh)
      → spare_of p ≡ spare_of b
      → s.queue.tail.chunk ≡ 0
      → q.tail.index ≡ s.queue.tail.index
      → q.tail.chunk ≡ s.queue.fresh
      → q.fresh ≡ s.queue.fresh + 1
      → Inv (update lap_of s.queue.fresh 1) (go s q i p)
  Inv-installs {lap_of} {s} inv q i b p at st same sp none_yet e₁ e₂ e₃ =
      let sh = inv.shared in
      let me : Fits lap_of s.queue.tail.index s.queue.tail.chunk s.queue.fresh b =
        rw (← at) (inv.fits i) in
      let first = sh.unset none_yet in
      let lap' : ℕ → ℕ = update lap_of s.queue.fresh 1 in
      let others : (d : ℕ) → s.queue.fresh ≢ d → lap' d ≡ lap_of d =
        λ d ne. update_ne lap_of s.queue.fresh 1 d ne in
      Inv-go inv lap' q i p
        (rw (e₁, e₂, e₃)
          (record {
            unlinked = λ d h. others d (λ x. omega arith) ∙ sh.unlinked d (omega arith);
            some_fresh = omega arith;
            even = sh.even;
            unset = λ h. first;
            current = λ h o. update_self lap_of s.queue.fresh 1 ∙ omega (arith, first);
          }))
        (rw (e₁, e₂, e₃)
          (record {
            even = λ h. omega (arith, same.0, me.even (omega (arith, st.0)));
            below = λ h. omega (arith, same.0, me.below (omega (arith, st.0)));
            looks = λ x y o c. same.1;
            claims = λ h. absurd (omega (arith, st.1));
            spares = λ d e.
                let r = me.spares d (sym sp ∙ e) in
                (others d (λ x. omega (arith, r)) ∙ r.0, omega (arith, r.1), r.2);
            closes = λ h. absurd (omega (arith, st.1));
            moves = λ h. absurd (omega (arith, st.1));
          }))
        (λ d h a.
          let near : Apart b d = rw (← at) a in
          (
            rw (e₁, e₂, e₃)
                (record {
                  even = h.even;
                  below = h.below;
                  looks = λ x y o c. absurd (c (h.looks x y o c ∙ none_yet));
                  claims = λ x. absurd (omega (arith, h.claims x, first));
                  spares = λ e x.
                      let r = h.spares e x in
                      (others e (λ z. omega (arith, r)) ∙ r.0, omega (arith, r.1), r.2);
                  closes = λ x. absurd (omega (arith, h.closes x, first));
                  moves = λ x. absurd (omega (arith, h.moves x, first));
                }),
            record {
              slots = λ x. absurd (omega (arith, st.1));
              boxes = λ e f x y. near.boxes e f (sym sp ∙ x) y;
            },
          ))
