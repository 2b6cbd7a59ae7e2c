-- ===== src/CoQueue/Threads/Memory.antt =====
-- src/lockless_queue.rs, `CoQueue::push` and `CoQueue::pop` by many threads: what the accesses do to
-- the contents of the chunks.
use native.Mathlib.Decide.{ℕ_discrete}
use co_queue.Base.{
  ℕ, ◌+◌, ◌-◌, ◌*◌, ◌≡◌, ◌≢◌, refl, sym, ap, ◌∙◌, Option, none, some, List, get_elem?, update,
  update_self, update_ne, get_elem?-set-some, get_elem?-set_ne, length-set, get_elem?-replicate,
  length-replicate,
}
use co_queue.Base.Outcome.{done}
use co_queue.CoQueue.Chunk.{Ptr, Slot, Chunk, Heap, new_chunk, empty_slot, chunk_cap}
use co_queue.CoQueue.State.{CoQueue, set_slot}
use co_queue.CoQueue.Threads.{change_slot}
use co_queue.CoQueue.Threads.Pushes.{link_chunk}
use co_queue.CoQueue.Threads.Links.{change_slot-heap, link_chunk-heap}
use co_queue.CoQueue.Threads.Cells.{rank, CellFits, ChunkFits, HeapFits}
use co_queue.CoQueue.Threads.Values.{change_slot-at}

-- A value that was pushed keeps its rank.
abbrev pub Grows {ℓ} : {A : Type ℓ} → List A → List A → Type ℓ
Grows {A = A} vals vals' = (n : ℕ) (v : A) → get_elem? vals n ≡ some v → get_elem? vals' n ≡ some v

module _ {ℓ} {A : Type ℓ} where
  pub Grows-eq :
      (vals vals' : List A) (n : ℕ) (v : Option A)
      → Grows vals vals'
      → v ≡ get_elem? vals n
      → v ≢ none
      → v ≡ get_elem? vals' n
  Grows-eq vals vals' n none g e ne = absurd (ne refl)
  Grows-eq vals vals' n (some v) g e ne = sym (g n v (sym e))

  pub HeapFits-Grows :
      (lap_of : ℕ → ℕ) (vals vals' : List A) (h : Heap A)
      → Grows vals vals'
      → HeapFits lap_of vals h
      → HeapFits lap_of vals' h
  HeapFits-Grows lap_of vals vals' h g fits = λ p ne.
      let (c, here, k) = fits p ne in
      (
        c,
        here,
        record {
          size = k.size;
          cells = λ o t at.
              let f = k.cells o t at in
              record {
                full = λ w.
                    let v = f.full w in
                    (Grows-eq vals vals' (rank (32 * (lap_of p - 1) + o)) t.value g v.0 v.1, v.1);
                last = f.last;
              };
        },
      )

  pub HeapFits-set :
      (lap_of : ℕ → ℕ) (vals : List A) (h : Heap A) (p : Ptr) (v : Option (Chunk A))
      → (lap_of p ≢ 0 → (c : Chunk A) × (v ≡ some c) × ChunkFits vals (lap_of p - 1) c)
      → HeapFits lap_of vals h
      → HeapFits lap_of vals (update h p v)
  HeapFits-set lap_of vals h p v new fits = λ r ne. elim (ℕ_discrete p r) [
    | yes same ↦
        let (c, e, k) = new (λ z. ne (ap lap_of (sym same) ∙ z)) in
        rw (← same) (c, update_self h p v ∙ e, k)
    | no other ↦ let (c, e, k) = fits r ne in (c, update_ne h p v r other ∙ e, k)
  ]

  ChunkFits-new : (vals : List A) (b : ℕ) → ChunkFits vals b (new_chunk A)
  ChunkFits-new vals b = record {
    size = length-replicate chunk_cap (empty_slot A);
    cells = λ o t at.
        let e = get_elem?-replicate chunk_cap (empty_slot A) o t at in
        record { full = λ w. cc (ap (λ z. z.write) e); last = λ z. ap (λ z. z.read) e };
  }

  -- A new chunk is linked.
  pub HeapFits-link :
      (lap_of : ℕ → ℕ) (vals : List A) (h : Heap A) (p : Ptr) (v : ℕ)
      → h p ≡ some (new_chunk A)
      → HeapFits lap_of vals h
      → HeapFits (update lap_of p v) vals h
  HeapFits-link lap_of vals h p v here fits = λ r ne. elim (ℕ_discrete p r) [
    | yes same ↦ rw (← same) (new_chunk A, here, ChunkFits-new vals (update lap_of p v p - 1))
    | no other ↦
        rw (update_ne lap_of p v r other) (fits r (λ z. ne (update_ne lap_of p v r other ∙ z)))
  ]

  ChunkFits-set :
      (vals : List A) (b o : ℕ) (c : Chunk A) (new : Slot A)
      → CellFits vals (rank (32 * b + o)) o new
      → ChunkFits vals b c
      → ChunkFits vals b (set_slot c o new)
  ChunkFits-set vals b o c new fit k = record {
    size = length-set c.slots o new ∙ k.size;
    cells = λ m t at. elim (ℕ_discrete o m) [
      | yes same ↦
          let is : new ≡ t = get_elem?-set-some c.slots o m new t same at in rw (← same, ← is) fit
      | no other ↦ k.cells m t (sym (get_elem?-set_ne c.slots o new m other) ∙ at)
    ];
  }

  -- An access to a slot of a chunk that was linked.
  pub HeapFits-change_slot :
      (lap_of : ℕ → ℕ) (vals : List A) (q : CoQueue A) (p : Ptr) (o : ℕ) (f : Slot A → Slot A)
      → (old : Slot A) (r : CoQueue A) → change_slot q p o f ≡ done (old, r)
      → (CellFits vals (rank (32 * (lap_of p - 1) + o)) o old
          → CellFits vals (rank (32 * (lap_of p - 1) + o)) o (f old))
      → HeapFits lap_of vals q.heap
      → HeapFits lap_of vals r.heap
  HeapFits-change_slot lap_of vals q p o f old r e keeps fits =
      let (was, here, kept) = change_slot-heap q p o f old r (q.heap p) refl e in
      rw kept (
        HeapFits-set lap_of vals q.heap p (some (set_slot was o (f old)))
          (λ ne.
            let (c, here', k) = fits p ne in
            let same : c ≡ was = some_of c was (sym here' ∙ here) in
            let k' : ChunkFits vals (lap_of p - 1) was = rw (← same) k in
            (
              set_slot was o (f old),
              refl,
              ChunkFits-set vals (lap_of p - 1) o was (f old)
                  (keeps (k'.cells o old (change_slot-at q p o f old r was here e))) k',
            ))
          fits)
    where
      some_of : (c d : Chunk A) → some c ≡ some d → c ≡ d
      some_of c d z = cc

  pub HeapFits-link_chunk :
      (lap_of : ℕ → ℕ) (vals : List A) (q : CoQueue A) (p next : Ptr) (r : CoQueue A)
      → link_chunk q p next ≡ done r
      → HeapFits lap_of vals q.heap
      → HeapFits lap_of vals r.heap
  HeapFits-link_chunk lap_of vals q p next r e fits =
      let (was, here, kept) = link_chunk-heap q p next r (q.heap p) refl e in
      rw kept (
        HeapFits-set lap_of vals q.heap p (some (record was { next = next }))
          (λ ne.
            let (c, here', k) = fits p ne in
            let same : c ≡ was = cc (here', here) in
            let k' : ChunkFits vals (lap_of p - 1) was = rw (← same) k in
            (record was { next = next }, refl, record { size = k'.size; cells = k'.cells }))
          fits)
