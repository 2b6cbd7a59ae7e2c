-- ===== src/CoQueue/Threads/Fill.antt =====
-- src/lockless_queue.rs, `CoQueue::push` by many threads: what an access asks for, so that the
-- memory stays in order.
use native.Mathlib.Decide.{ℕ_discrete}
use co_queue.Base.{
  ℕ, ◌/◌, ◌%◌, ◌≡◌, ◌≢◌, refl, sym, ◌∙◌, true, some, List, length, update_self, update_ne,
}
use co_queue.CoQueue.Chunk.{Ptr, Heap}
use co_queue.CoQueue.State.{CoQueue}
use co_queue.CoQueue.Threads.{PushPc, PopPc, Crowd, go}
use co_queue.CoQueue.Threads.Invariant.{tail_of, chunk_of, spare_of}
use co_queue.CoQueue.Threads.Links.{Extends}
use co_queue.CoQueue.Threads.Cells.{rank, HeapFits, written, PushHolds, PopHolds, Cells}
use co_queue.CoQueue.Threads.Memory.{Grows, Grows-eq}
use co_queue.CoQueue.Threads.Values.{SameValue, SameValue-refl}

module _ {ℓ} {A : Type ℓ} where
  pub PushHolds-keeps :
      (vals vals' : List A) (h h' : Heap A) (p : PushPc A)
      → Grows vals vals'
      → ((c : Ptr) → spare_of p ≡ some c → h' c ≡ h c)
      → (written p ≡ true → SameValue h h' (chunk_of p) (tail_of p / 2 % 32))
      → PushHolds vals h p
      → PushHolds vals' h' p
  PushHolds-keeps vals vals' h h' p g box same k = record {
    spare = λ c e. box c e ∙ k.spare c e;
    claimed = λ x e. g (rank (tail_of p / 2)) x (k.claimed x e);
    stored = λ t w at.
        let (t₀, at₀, e) = same w t at in
        let (v, ne) = k.stored t₀ w at₀ in
        (e ∙ Grows-eq vals vals' (rank (tail_of p / 2)) t₀.value g v ne, λ z. ne (sym e ∙ z));
  }

  PopHolds-keeps :
      (lap_of lap' : ℕ → ℕ) (vals vals' : List A) (place : ℕ) (p : PopPc A)
      → Extends lap_of lap'
      → Grows vals vals'
      → PopHolds lap_of vals place p
      → PopHolds lap' vals' place p
  PopHolds-keeps lap_of lap' vals vals' place p ext g k = record {
    placed = k.placed;
    got = λ x e. g place x (k.got x e);
    site = λ c o e. let r = k.site c o e in (λ z. r.0 (sym (ext c r.0) ∙ z), r.1);
  }

  -- A pusher moves. The others' spare chunks and the values that they have stored stay.
  pub Cells-push :
      {lap_of : ℕ → ℕ} {vals : List A} {won : ℕ} {place : ℕ → ℕ} {s : Crowd A}
      → Cells lap_of vals won place s
      → (lap' : ℕ → ℕ) (vals' : List A) (q : CoQueue A) (i : ℕ) (p : PushPc A) → Extends lap_of lap'
      → Grows vals vals'
      → length vals' ≡ rank (q.tail.index / 2)
      → q.head.index ≡ s.queue.head.index
      → HeapFits lap' vals' q.heap
      → PushHolds vals' q.heap p
      → ((k : ℕ) → i ≢ k → (c : Ptr) → spare_of (s.pc k) ≡ some c → q.heap c ≡ s.queue.heap c)
      → ((k : ℕ)
          → i ≢ k
          → written (s.pc k) ≡ true
          → SameValue s.queue.heap q.heap (chunk_of (s.pc k)) (tail_of (s.pc k) / 2 % 32))
      → Cells lap' vals' won place (go s q i p)
  Cells-push {lap_of} {vals} {won} {place} {s} k lap' vals' q i p ext g len hd mem me boxes stored =
      record {
        pushed = len;
        popped = rw hd k.popped;
        heap = mem;
        push = λ j. elim (ℕ_discrete i j) [
          | yes same ↦ rw (← same, update_self s.pc i p) me
          | no other ↦ rw (update_ne s.pc i p j other) (
              PushHolds-keeps vals vals' s.queue.heap q.heap (s.pc j) g (boxes j other)
                (stored j other) (k.push j))
        ];
        pop = λ j. PopHolds-keeps lap_of lap' vals vals' (place j) (s.popper j) ext g (k.pop j);
      }

  -- The memory stays as it is, and no slot is claimed.
  pub Cells-push_calm :
      {lap_of : ℕ → ℕ} {vals : List A} {won : ℕ} {place : ℕ → ℕ} {s : Crowd A}
      → Cells lap_of vals won place s
      → (q : CoQueue A) (i : ℕ) (p : PushPc A)
      → rank (q.tail.index / 2) ≡ rank (s.queue.tail.index / 2)
      → q.head.index ≡ s.queue.head.index
      → q.heap ≡ s.queue.heap
      → PushHolds vals s.queue.heap p
      → Cells lap_of vals won place (go s q i p)
  Cells-push_calm {lap_of} {vals} {s = s} k q i p tl hd mem me =
      Cells-push k lap_of vals q i p (λ c ne. refl) (λ n v e. e) (k.pushed ∙ sym tl) hd
        (rw mem k.heap) (rw mem me) (λ j ne c e. rw mem)
        (λ j ne w.
          SameValue-refl s.queue.heap q.heap (chunk_of (s.pc j)) (tail_of (s.pc j) / 2 % 32)
            (rw mem))
