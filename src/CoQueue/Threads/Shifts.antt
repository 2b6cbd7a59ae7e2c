-- ===== src/CoQueue/Threads/Shifts.antt =====
-- src/lockless_queue.rs, `CoQueue::push` and `CoQueue::pop` by many threads: what an access of one
-- thread asks for, so that the head stays in order.
use native.Mathlib.Decide.{ℕ_discrete}
use co_queue.Base.{ℕ, ◌≤◌, ◌≡◌, ◌≢◌, sym, ap, ◌∙◌, none, update_self, update_ne, arith}
use co_queue.CoQueue.Chunk.{Ptr}
use co_queue.CoQueue.State.{CoQueue}
use co_queue.CoQueue.Threads.{PushPc, PopPc, Crowd, go, pop_go}
use co_queue.CoQueue.Threads.Ahead.{
  heads, link_of, pop_chunk, onto, PopFits, PopApart, Links, Heads, Owes, Ahead,
}
use co_queue.CoQueue.Threads.Invariant.{chunk_of}
use co_queue.CoQueue.Threads.Links.{Extends}

module _ {ℓ} {A : Type ℓ} where
  PopFits-Extends :
      (lap_of lap' : ℕ → ℕ) (head first index index' : ℕ) (p : PopPc A)
      → Extends lap_of lap'
      → index ≤ index'
      → PopFits lap_of head first index p
      → PopFits lap' head first index' p
  PopFits-Extends lap_of lap' head first index index' p ext le h = record {
    below = h.below;
    looks = h.looks;
    tested = λ x.
        let r = h.tested x in (r.0, r.1, λ e. omega (arith, r.2 e), λ e f. omega (arith, r.3 e f));
    claims =
        λ x. let r = h.claims x in (r.0, r.1, ext (pop_chunk p) (λ z. omega (arith, r.2)) ∙ r.2);
    closes = h.closes;
    aims = h.aims;
    nexts = λ x y.
        let r = h.nexts x y in
        (ext (onto p) (λ z. omega (arith, r.0)) ∙ r.0, r.1, omega (arith, r.2));
    lands = λ x y. let r = h.lands x y in (r.0, λ f. omega (arith, r.1 f));
    moved = h.moved;
  }

  Owes-Extends :
      (lap_of lap' : ℕ → ℕ) (q r : CoQueue A) (p : PushPc A)
      → Extends lap_of lap'
      → q.head.chunk ≡ r.head.chunk
      → q.tail.index ≤ r.tail.index
      → (r.tail.chunk ≡ 0 → q.tail.chunk ≡ 0)
      → Owes lap_of q p
      → Owes lap' r p
  Owes-Extends lap_of lap' q r p ext same le set h = record {
    first = λ x.
        let o = h.first x in
        (sym same ∙ o.0, ext _ (λ z. omega (arith, o.1)) ∙ o.1, λ z. o.2 (set z));
    linking = λ c e.
        let o = h.linking c e in (ext c (λ z. omega (arith, o.0)) ∙ o.0, λ x. omega (arith, o.1 x));
  }

  -- A pusher moves, and leaves the head.
  pub Ahead-push :
      {lap_of : ℕ → ℕ} {s : Crowd A}
      → Ahead lap_of s
      → (lap' : ℕ → ℕ) (q : CoQueue A) (i : ℕ) (p : PushPc A) → Extends lap_of lap'
      → q.head ≡ s.queue.head
      → s.queue.tail.index ≤ q.tail.index
      → (q.tail.chunk ≡ 0 → s.queue.tail.chunk ≡ 0)
      → Links lap' q.tail.index q.heap
      → Owes lap' q p
      → (heads p ≡ 1 → s.queue.tail.chunk ≡ 0)
      → Ahead lap' (go s q i p)
  Ahead-push {lap_of} {s} a lap' q i p ext same le set links owe alone =
      let hd = a.head in
      record {
        head = record {
          below = rw same (omega (arith, hd.below));
          flag = rw same (λ x. omega (arith, hd.flag x));
          current =
              rw same (λ x y.
                let c = hd.current x y in ext s.queue.head.chunk (λ z. omega (arith, c)) ∙ c);
          unset = rw same hd.unset;
          follows = rw same (λ x. hd.follows (set x));
          links = links;
        };
        owes = λ k. elim (ℕ_discrete i k) [
          | yes me ↦ rw (← me, update_self s.pc i p) owe
          | no other ↦ rw (update_ne s.pc i p k other) (
              Owes-Extends lap_of lap' s.queue q (s.pc k) ext (ap (λ z. z.chunk) (sym same)) le set
                (a.owes k))
        ];
        one = λ j k ne. elim (ℕ_discrete i j) [
          | yes me ↦
              rw (← me, update_self s.pc i p, update_ne s.pc i p k (λ e. ne (sym me ∙ e)))
                (λ x y. ((a.owes k).first y).2 (alone x))
          | no other ↦ rw (update_ne s.pc i p j other) (elim (ℕ_discrete i k) [
            | yes me ↦ rw (← me, update_self s.pc i p) (λ x y. ((a.owes j).first x).2 (alone y))
            | no apart ↦ rw (update_ne s.pc i p k apart) (a.one j k ne)
          ])
        ];
        pops = λ k. rw same (
            PopFits-Extends lap_of lap' s.queue.head.index s.queue.head.chunk s.queue.tail.index
              q.tail.index (s.popper k) ext le (a.pops k));
        apart = a.apart;
      }

  -- A popper moves, and leaves the tail.
  pub Ahead-pop :
      {lap_of : ℕ → ℕ} {s : Crowd A}
      → Ahead lap_of s
      → (q : CoQueue A) (i : ℕ) (p : PopPc A) → q.tail ≡ s.queue.tail
      → Heads lap_of q
      → ((b : PushPc A) → Owes lap_of s.queue b → Owes lap_of q b)
      → PopFits lap_of q.head.index q.head.chunk s.queue.tail.index p
      → ((b : PopPc A)
          → PopFits lap_of s.queue.head.index s.queue.head.chunk s.queue.tail.index b
          → PopApart (s.popper i) b
          → PopFits lap_of q.head.index q.head.chunk s.queue.tail.index b × PopApart p b)
      → Ahead lap_of (pop_go s q i p)
  Ahead-pop {lap_of} {s} a q i p same hd owe fit others = record {
    head = hd;
    owes = λ k. owe (s.pc k) (a.owes k);
    one = a.one;
    pops = λ k. rw same (elim (ℕ_discrete i k) [
      | yes me ↦ rw (← me, update_self s.popper i p) fit
      | no other ↦
          rw (update_ne s.popper i p k other) (others (s.popper k) (a.pops k) (a.apart i k other)).0
    ]);
    apart = λ j k ne. elim (ℕ_discrete i j) [
      | yes me ↦
          let other : i ≢ k = λ e. ne (sym me ∙ e) in
          rw (← me, update_self s.popper i p, update_ne s.popper i p k other)
            (others (s.popper k) (a.pops k) (a.apart i k other)).1
      | no other ↦ rw (update_ne s.popper i p j other) (elim (ℕ_discrete i k) [
        | yes me ↦
            rw (← me, update_self s.popper i p)
              (λ x y e. (others (s.popper j) (a.pops j) (a.apart i j other)).1 y x (sym e))
        | no apart ↦ rw (update_ne s.popper i p k apart) (a.apart j k ne)
      ])
    ];
  }

  -- The pusher that has installed the first chunk stores it in the head.
  pub Ahead-heads :
      {lap_of : ℕ → ℕ} {s : Crowd A}
      → Ahead lap_of s
      → (i : ℕ) (p : PushPc A) (c : Ptr) → heads (s.pc i) ≡ 1
      → chunk_of (s.pc i) ≡ c
      → heads p ≡ 0
      → link_of p ≡ none
      → Ahead lap_of (go s (record s.queue { head = record s.queue.head { chunk = c } }) i p)
  Ahead-heads {lap_of} {s} a i p c mine is done_it nolink =
      let hd = a.head in
      let first = (a.owes i).first mine in
      let start = hd.unset first.0 in
      record {
        head = record {
          below = hd.below;
          flag = hd.flag;
          current = λ x y. ap lap_of (sym is) ∙ first.1 ∙ omega (arith, start);
          unset = λ x. start;
          follows = λ x. absurd (first.2 x);
          links = hd.links;
        };
        owes = λ k. elim (ℕ_discrete i k) [
          | yes me ↦
              rw (← me, update_self s.pc i p)
                (record { first = λ x. absurd (omega (arith, x)); linking = λ d e. cc })
          | no other ↦ rw (update_ne s.pc i p k other) (record {
            first = λ x. absurd (a.one i k other mine x);
            linking = (a.owes k).linking;
          })
        ];
        one = λ j k ne. elim (ℕ_discrete i j) [
          | yes me ↦ rw (← me, update_self s.pc i p) (λ x. absurd (omega (arith, x)))
          | no other ↦ rw (update_ne s.pc i p j other) (elim (ℕ_discrete i k) [
            | yes me ↦ rw (← me, update_self s.pc i p) (λ x y. omega (arith, y))
            | no apart ↦ rw (update_ne s.pc i p k apart) (a.one j k ne)
          ])
        ];
        pops = λ k.
            let h = a.pops k in
            record {
              below = h.below;
              looks = λ x y e o n. absurd (n (h.looks x y e o n ∙ first.0));
              tested = h.tested;
              claims = h.claims;
              closes = h.closes;
              aims = h.aims;
              nexts = h.nexts;
              lands = h.lands;
              moved = λ x. absurd (omega (arith, h.claims (omega (arith, x)), start));
            };
        apart = a.apart;
      }
