-- ===== src/CoQueue/Threads/Served.antt =====
-- src/lockless_queue.rs, `CoQueue::push` by many threads: who is to fill a slot that is claimed, and
-- to link a chunk that is full.
use co_queue.Base.{
  ℕ, ◌+◌, ◌-◌, ◌*◌, ◌/◌, ◌≤◌, ◌<◌, ◌≡◌, ◌≢◌, ◌⊎◌, inl, inr, false, refl, sym, ap, ◌∙◌, some,
  update_self, arith,
}
use co_queue.CoQueue.Chunk.{Ptr, Slot}
use co_queue.CoQueue.State.{CoQueue}
use co_queue.CoQueue.Threads.{PushPc, set_chunk, set_index, set_link, Crowd, go}
use co_queue.CoQueue.Threads.Invariant.{stage, tail_of, chunk_of}
use co_queue.CoQueue.Threads.Cells.{slot_in}
use co_queue.CoQueue.Threads.Ends.{still}
use co_queue.CoQueue.Threads.Ages.{next_in, Ages, Ages-eq}

module _ {ℓ} {A : Type ℓ} where
  -- The thread has claimed the slot at this position, which is in chunk `c`.
  abbrev pub Fills : Ptr → ℕ → PushPc A → Type 0
  Fills c n p = (3 ≤ stage p) × (tail_of p / 2 ≡ n) × (chunk_of p ≡ c)

  abbrev pub links : PushPc A → ℕ
  links (set_chunk x l p) = 1
  links (set_index x l p) = 1
  links (set_link x l p) = 1
  links _ = 0

  -- The thread is to link chunk `c` to the next one.
  abbrev pub LinksOn : Ptr → PushPc A → Type 0
  LinksOn c p = (links p ≡ 1) × (chunk_of p ≡ c)

  pub record Served (lap_of : ℕ → ℕ) (s : Crowd A) : Type ℓ where
    pub slot :
        (c : Ptr) (o : ℕ) (t : Slot A)
        → lap_of c ≢ 0
        → o ≤ 30
        → slot_in (s.queue.heap c) o ≡ some t
        → t.write ≡ false
        → 32 * (lap_of c - 1) + o < s.queue.tail.index / 2
        → (k : ℕ) × Fills c (32 * (lap_of c - 1) + o) (s.pc k)
    pub link :
        (c : Ptr)
        → lap_of c ≢ 0
        → next_in (s.queue.heap c) ≡ some 0
        → 32 * lap_of c ≤ s.queue.tail.index / 2 + 1
        → (k : ℕ) × LinksOn c (s.pc k)

  -- The access is one of `pop`.
  pub Served-Ages :
      {lap_of : ℕ → ℕ} {s t : Crowd A}
      → Served lap_of s
      → t.queue.tail ≡ s.queue.tail
      → t.pc ≡ s.pc
      → ((c : Ptr) → Ages s.queue.heap t.queue.heap c)
      → Served lap_of t
  Served-Ages v tl same ages = record {
    slot = λ c o t' ne le at w lt.
        let (t, at₀, w₀) = (ages c).slot o t' at w in
        rw same (v.slot c o t ne le at₀ w₀ (omega (arith, lt, ap (λ z. z.index) tl)));
    link = λ c ne z le.
        rw same (v.link c ne ((ages c).next z) (omega (arith, le, ap (λ y. y.index) tl)));
  }

  -- Thread `i` goes from `b` to `p`. It may claim a slot, or the last one of a chunk.
  pub Served-push :
      {lap_of : ℕ → ℕ} {s : Crowd A}
      → Served lap_of s
      → (lap' : ℕ → ℕ) (q : CoQueue A) (i : ℕ) (b p : PushPc A) → s.pc i ≡ b
      → ((c : Ptr) → lap_of c ≢ 0 → Ages s.queue.heap q.heap c)
      → ((c : Ptr) (o : ℕ)
          → lap' c ≢ 0
          → o ≤ 30
          → 32 * (lap' c - 1) + o < q.tail.index / 2
          → Fills c (32 * (lap' c - 1) + o) p
            ⊎ ((lap_of c ≡ lap' c) × (32 * (lap' c - 1) + o < s.queue.tail.index / 2)))
      → ((c : Ptr)
          → lap' c ≢ 0
          → 32 * lap' c ≤ q.tail.index / 2 + 1
          → LinksOn c p ⊎ ((lap_of c ≡ lap' c) × (32 * lap' c ≤ s.queue.tail.index / 2 + 1)))
      → ((c : Ptr) (o : ℕ) (t : Slot A)
          → lap' c ≢ 0
          → o ≤ 30
          → slot_in (q.heap c) o ≡ some t
          → t.write ≡ false
          → Fills c (32 * (lap' c - 1) + o) b
          → Fills c (32 * (lap' c - 1) + o) p)
      → ((c : Ptr) → next_in (q.heap c) ≡ some 0 → LinksOn c b → LinksOn c p)
      → Served lap' (go s q i p)
  Served-push {lap_of} {s} v lap' q i b p at ages fill full keeps_fill keeps_link = record {
    slot = λ c o t' ne le here w lt. elim (fill c o ne le lt) [
      | inl mine ↦ (i, rw (update_self s.pc i p) mine)
      | inr old ↦
          let was : lap_of c ≢ 0 = λ z. ne (sym old.0 ∙ z) in
          let (t, here₀, w₀) = (ages c was).slot o t' here w in
          still s.pc (Fills c (32 * (lap' c - 1) + o)) i b p at (keeps_fill c o t' ne le here w)
            (rw old.0 at (v.slot c o t was le here₀ w₀ (rw (old.0) old.1)))
    ];
    link = λ c ne z le. elim (full c ne le) [
      | inl mine ↦ (i, rw (update_self s.pc i p) mine)
      | inr old ↦
          let was : lap_of c ≢ 0 = λ y. ne (sym old.0 ∙ y) in
          still s.pc (LinksOn c) i b p at (keeps_link c z)
            (v.link c was ((ages c was).next z) (rw (old.0) old.1))
    ];
  }

  -- The tail stays, and the thread has claimed no slot.
  pub Served-early :
      {lap_of : ℕ → ℕ} {s : Crowd A}
      → Served lap_of s
      → (q : CoQueue A) (i : ℕ) (b p : PushPc A) → s.pc i ≡ b
      → q.tail.index ≡ s.queue.tail.index
      → (stage b < 3) × (links b ≡ 0)
      → ((c : Ptr) → lap_of c ≢ 0 → q.heap c ≡ s.queue.heap c)
      → Served lap_of (go s q i p)
  Served-early {lap_of} {s} v q i b p at tl early same =
      Served-push v lap_of q i b p at (λ c ne. Ages-eq s.queue.heap q.heap c (same c ne))
        (λ c o ne le lt. inr (refl, omega (arith, lt, tl)))
        (λ c ne le. inr (refl, omega (arith, le, tl)))
        (λ c o t ne le here w f. absurd (omega (arith, early, f)))
        (λ c z f. absurd (omega (arith, early, f)))
