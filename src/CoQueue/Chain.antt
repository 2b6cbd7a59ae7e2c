-- ===== src/CoQueue/Chain.antt =====
-- The shape of the heap behind a `CoQueue` of src/lockless_queue.rs: a list of chunks, each with
-- the slots that were read, the slots that hold a value and the slots still to be written.
pub mod Slots
pub mod Front
use co_queue.Base.{
  ℕ, zero, suc, ◌+◌, ◌≤◌, ◌<◌, ◌≡◌, refl, sym, Option, some, List, [], ◌++◌, append-nil,
  append_assoc, arith, ap, ◌∙◌,
}
use co_queue.CoQueue.Chunk.{chunk_cap, Ptr, null, Chunk, Heap}
use Slots.{Layout}

-- The chunk at `p`: its link, and the values in its slots `i` to `j`.
pub record Block {ℓ} {A : Type ℓ} (heap : Heap A) (p next : Ptr) (i j : ℕ) (xs : List A)
    : Type ℓ where
  pub chunk : Chunk A
  pub here : heap p ≡ some chunk
  pub link : chunk.next ≡ next
  pub layout : Layout chunk.slots i j xs

-- The chunks from `p`, read up to slot `i`, to `tail`, written up to slot `j`, with `n` links
-- between them. A chunk is allocated after those before it.
pub data Chain {ℓ} {A : Type ℓ} (heap : Heap A) (tail : Ptr) (j : ℕ)
    : ℕ → Ptr → ℕ → List A → Type ℓ where
  last :
      {p : Ptr} {i : ℕ} {xs : List A}
      → p ≡ tail
      → Block heap p null i j xs
      → Chain heap tail j zero p i xs
  more :
      {n : ℕ} {p : Ptr} {i : ℕ} {zs : List A} (next : Ptr) (xs ys : List A)
      → Block heap p next i chunk_cap xs
      → p < next
      → Chain heap tail j n next 0 ys
      → zs ≡ xs ++ ys
      → Chain heap tail j (suc n) p i zs

module _ {ℓ} {A : Type ℓ} where
  pub Block-frame :
      (heap heap' : Heap A) {p next : Ptr} {i j : ℕ} {xs : List A}
      → heap' p ≡ heap p
      → Block heap p next i j xs
      → Block heap' p next i j xs
  Block-frame heap heap' e b = record {
    chunk = b.chunk;
    here = e ∙ b.here;
    link = b.link;
    layout = b.layout;
  }

  pub Chain-le :
      {heap : Heap A} {tail : Ptr} {j n : ℕ} {p : Ptr} {i : ℕ} {xs : List A}
      → Chain heap tail j n p i xs
      → p ≤ tail
  Chain-le (last e b) = omega arith
  Chain-le (more next xs ys b lt c e) = omega (arith, Chain-le c)

  -- A chain sees only the addresses from its first chunk to its last.
  pub Chain-frame :
      (heap heap' : Heap A) {tail : Ptr} {j n : ℕ} {p : Ptr} {i : ℕ} {xs : List A}
      → Chain heap tail j n p i xs
      → ((r : Ptr) → p ≤ r → r ≤ tail → heap' r ≡ heap r)
      → Chain heap' tail j n p i xs
  Chain-frame heap heap' {p} (last e b) same =
      last e (Block-frame heap heap' (same p (omega arith) (omega arith)) b)
  Chain-frame heap heap' {p} (more next xs ys b lt c e) same =
      more next xs ys (Block-frame heap heap' (same p (omega arith) (omega (arith, Chain-le c))) b)
        lt (Chain-frame heap heap' c (λ r above below. same r (omega arith) below)) e

-- The last chunk of a chain, and the chains that arise when it is written to or linked to another.
pub record Ending {ℓ} {A : Type ℓ} (heap : Heap A) (tail : Ptr) (j n : ℕ) (p : Ptr) (i : ℕ)
    (xs : List A) : Type ℓ where
  pub start : ℕ
  pub before : List A
  pub after : List A
  pub split : xs ≡ before ++ after
  pub block : Block heap tail null start j after
  pub refill :
      (heap' : Heap A) (j' : ℕ) (after' : List A)
      → ((r : Ptr) → r < tail → heap' r ≡ heap r)
      → Block heap' tail null start j' after'
      → Chain heap' tail j' n p i (before ++ after')
  pub extend :
      (heap' : Heap A) (next : Ptr) (after' : List A)
      → ((r : Ptr) → r < tail → heap' r ≡ heap r)
      → Block heap' tail next start chunk_cap after'
      → tail < next
      → Block heap' next null 0 0 []
      → Chain heap' next 0 (suc n) p i (before ++ after')

module _ {ℓ} {A : Type ℓ} where
  Ending-more :
      {heap : Heap A} {tail : Ptr} {j n : ℕ} {p : Ptr} {i : ℕ} {zs : List A} (next : Ptr)
      (xs ys : List A)
      → Block heap p next i chunk_cap xs
      → p < next
      → next ≤ tail
      → zs ≡ xs ++ ys
      → Ending heap tail j n next 0 ys
      → Ending heap tail j (suc n) p i zs
  Ending-more {heap} {p = p} next xs ys b lt le e t = record {
    start = t.start;
    before = xs ++ t.before;
    after = t.after;
    split = rw (e, t.split, append_assoc);
    block = t.block;
    refill = λ heap' j' after' same b'.
        more next xs (t.before ++ after') (Block-frame heap heap' (same p (omega arith)) b) lt
          (t.refill heap' j' after' same b') (append_assoc xs t.before after');
    extend = λ heap' next' after' same b' above new.
        more next xs (t.before ++ after') (Block-frame heap heap' (same p (omega arith)) b) lt
          (t.extend heap' next' after' same b' above new) (append_assoc xs t.before after');
  }

  pub ending :
      {heap : Heap A} {tail : Ptr} {j n : ℕ} {p : Ptr} {i : ℕ} {xs : List A}
      → Chain heap tail j n p i xs
      → Ending heap tail j n p i xs
  ending (more next xs ys b lt c e) = Ending-more next xs ys b lt (Chain-le c) e (ending c)
  ending {heap} {tail} {j} {p = p} {i = i} {xs = xs} (last e b) = record {
    start = i;
    before = [];
    after = xs;
    split = refl;
    block = rw (← e) b;
    refill = λ heap' j' after' same b'. last e (rw e b');
    extend = λ heap' next after' same b' above new.
        more next after' [] (rw e b') (omega arith) (last refl new) (sym (append-nil after'));
  }
