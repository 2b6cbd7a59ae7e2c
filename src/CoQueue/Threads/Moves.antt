-- ===== src/CoQueue/Threads/Moves.antt =====
-- src/lockless_queue.rs, `CoQueue::push` by many threads: the ways in which one access changes what
-- the threads share.
use co_queue.Base.{ℕ, ◌+◌, ◌/◌, ◌%◌, ◌≤◌, ◌<◌, ◌≡◌, ◌≢◌, sym, ap, ◌∙◌, some, ◌⊎◌, arith}
use co_queue.CoQueue.Chunk.{Ptr}
use co_queue.CoQueue.State.{CoQueue}
use co_queue.CoQueue.Threads.{PushPc, Crowd, go}
use co_queue.CoQueue.Threads.Invariant.{
  stage, tail_of, chunk_of, spare_of, Fits, Apart, Inv, Inv-go,
}

module _ {ℓ} {A : Type ℓ} where
  -- What thread `i` has claimed and what it owns is what it had claimed and owned.
  pub record Keeps (b p : PushPc A) : Type 0 where
    pub slots : 3 ≤ stage p → (3 ≤ stage b) × (tail_of b ≡ tail_of p)
    pub boxes : (c : Ptr) → spare_of p ≡ some c → spare_of b ≡ some c

  Keeps-Apart : (b p c : PushPc A) → Keeps b p → Apart b c → Apart p c
  Keeps-Apart b p c k h = record {
    slots = λ x y. let (m, e) = k.slots x in rw (← e) (h.slots m y);
    boxes = λ d e x y. h.boxes d e (k.boxes d x) y;
  }

  -- The tail and the allocator stay as they are.
  pub Inv-quiet :
      {lap_of : ℕ → ℕ} {s : Crowd A}
      → Inv lap_of s
      → (q : CoQueue A) (i : ℕ) (b p : PushPc A) → s.pc i ≡ b
      → q.tail ≡ s.queue.tail
      → q.fresh ≡ s.queue.fresh
      → Keeps b p
      → Fits lap_of s.queue.tail.index s.queue.tail.chunk s.queue.fresh p
      → Inv lap_of (go s q i p)
  Inv-quiet {lap_of} {s} inv q i b p at t f k fit =
      Inv-go inv lap_of q i p (rw (t, f) inv.shared) (rw (t, f) fit)
        (λ c h a. (rw (t, f) h, Keeps-Apart b p c k (rw (← at) a)))

  -- Thread `i`, which owns no chunk now, takes a new one.
  pub Inv-alloc :
      {lap_of : ℕ → ℕ} {s : Crowd A}
      → Inv lap_of s
      → (q : CoQueue A) (i : ℕ) (p : PushPc A) → q.tail ≡ s.queue.tail
      → q.fresh ≡ s.queue.fresh + 1
      → spare_of p ≡ some s.queue.fresh
      → stage p < 3
      → (1 ≤ stage p → (tail_of p % 2 ≡ 0) × (tail_of p ≤ s.queue.tail.index))
      → (stage p ≡ 2
          → tail_of p ≡ s.queue.tail.index
          → s.queue.tail.index / 2 % 32 ≢ 31
          → chunk_of p ≢ 0
          → chunk_of p ≡ s.queue.tail.chunk)
      → Inv lap_of (go s q i p)
  Inv-alloc {lap_of} {s} inv q i p t f own early old look =
      let sh = inv.shared in
      Inv-go inv lap_of q i p
        (rw (t, f)
          (record {
            unlinked = λ c h. sh.unlinked c (omega arith);
            some_fresh = omega (arith, sh.some_fresh);
            even = sh.even;
            unset = sh.unset;
            current = sh.current;
          }))
        (rw (t, f)
          (record {
            even = λ h. (old h).0;
            below = λ h. (old h).1;
            looks = look;
            claims = λ h. absurd (omega arith);
            spares = λ c e. rw (← some_of s.queue.fresh c (sym own ∙ e)) (
              sh.unlinked s.queue.fresh (omega arith),
              omega arith,
              ground (arith, sh.some_fresh),
            );
            closes = λ h. absurd (omega arith);
            moves = λ h. absurd (omega arith);
          }))
        (λ b h a. (
          rw (t, f)
              (record {
                even = h.even;
                below = h.below;
                looks = h.looks;
                claims = h.claims;
                spares = λ c e. let r = h.spares c e in (r.0, omega (arith, r.1), r.2);
                closes = h.closes;
                moves = h.moves;
              }),
          record {
            slots = λ x. absurd (omega arith);
            boxes =
                λ c d x y e. ground (arith, h.spares d y, some_of s.queue.fresh c (sym own ∙ x), e);
          },
        ))
    where
      some_of : (c d : ℕ) → some c ≡ some d → c ≡ d
      some_of c d e = cc

  -- Thread `i` moves the tail past the slot that it had looked at.
  pub Inv-wins :
      {lap_of : ℕ → ℕ} {s : Crowd A}
      → Inv lap_of s
      → (q : CoQueue A) (i : ℕ) (b p : PushPc A) → s.pc i ≡ b
      → stage b ≡ 2
      → q.tail.index ≡ s.queue.tail.index + 2
      → q.tail.chunk ≡ s.queue.tail.chunk
      → q.fresh ≡ s.queue.fresh
      → tail_of b ≡ s.queue.tail.index
      → tail_of p ≡ tail_of b
      → chunk_of b ≢ 0
      → chunk_of p ≡ chunk_of b
      → s.queue.tail.index / 2 % 32 ≢ 31
      → (spare_of p ≡ spare_of b)
      → ((stage p ≡ 3) × (s.queue.tail.index / 2 % 32 ≡ 30))
        ⊎ ((stage p ≡ 5) × (s.queue.tail.index / 2 % 32 ≢ 30))
      → Inv lap_of (go s q i p)
  Inv-wins {lap_of} {s} inv q i b p at looks e₁ e₂ e₃ t t' c c' o sp last =
      let sh = inv.shared in
      let me : Fits lap_of s.queue.tail.index s.queue.tail.chunk s.queue.fresh b =
        rw (← at) (inv.fits i) in
      let tail_chunk : chunk_of b ≡ s.queue.tail.chunk = me.looks looks t o c in
      let lap : lap_of (chunk_of p) ≡ s.queue.tail.index / 64 + 1 =
        rw (c', tail_chunk) (sh.current (rw (← tail_chunk) c) o) in
      Inv-go inv lap_of q i p
        (rw (e₁, e₂, e₃)
          (record {
            unlinked = sh.unlinked;
            some_fresh = sh.some_fresh;
            even = omega (arith, sh.even);
            unset = λ h. absurd (c (tail_chunk ∙ h));
            current = λ h o'. omega (arith, lap, c', tail_chunk, ap lap_of (c' ∙ tail_chunk));
          }))
        (rw (e₁, e₂, e₃)
          (record {
            even = λ h. omega (arith, sh.even);
            below = λ h. omega arith;
            looks = λ h. absurd (ground (arith, last));
            claims = λ h. (omega arith, rw (t', t) o, rw (t', t) lap);
            spares = λ d e. me.spares d (sym sp ∙ e);
            closes = λ h. (omega arith, rw (t', t) (ground (arith, last)));
            moves = λ h. absurd (ground (arith, last));
          }))
        (λ d h a. (
          rw (e₁, e₂, e₃)
              (record {
                even = h.even;
                below = λ x. omega (arith, h.below x);
                looks = λ x y. absurd (omega (arith, h.below (omega arith)));
                claims = λ x. let r = h.claims x in (omega (arith, r.0), r.1, r.2);
                spares = h.spares;
                closes = λ x. absurd (omega (arith, h.claims (omega arith), h.closes x));
                moves = λ x. absurd (omega (arith, h.moves x));
              }),
          record {
            slots = λ x y e. omega (arith, h.claims y);
            boxes = λ c e x y. let near : Apart b d = rw (← at) a in near.boxes c e (sym sp ∙ x) y;
          },
        ))
