-- ===== src/CoQueue/Chain/Front.antt =====
-- The first chunk of a chain that holds a value: what `pop` of src/lockless_queue.rs reads.
use co_queue.Base.{
  ℕ, suc, ◌<◌, ◌≡◌, ◌≢◌, refl, sym, ap, ◌∙◌, false, true, List, [], ◌∷◌, ◌++◌, length, All, arith,
}
use mathlib.Core.List.{head-eq_of_cons-eq, tail-eq_of_cons-eq}
use co_queue.CoQueue.Chunk.{chunk_cap, Ptr, null, Heap, Slot, destroy_slots}
use co_queue.CoQueue.Chain.{Block, Chain, last, more, Chain-frame}

-- A value at slot `i` of the first chunk, and the chain once that slot has been read.
pub record Front {ℓ} {A : Type ℓ} (heap : Heap A) (tail : Ptr) (j n : ℕ) (p : Ptr) (i : ℕ) (x : A)
    (xs : List A) : Type ℓ where
  pub next : Ptr
  pub stop : ℕ
  pub rest : List A
  pub block : Block heap p next i stop (x ∷ rest)
  pub refill :
      (heap' : Heap A)
      → ((r : Ptr) → p ≢ r → heap' r ≡ heap r)
      → Block heap' p next (suc i) stop rest
      → Chain heap' tail j n p (suc i) xs

-- A value in the last slot of the first chunk: the rest of the values is in the next chunks.
pub record Final {ℓ} {A : Type ℓ} (heap : Heap A) (tail : Ptr) (j n : ℕ) (p : Ptr) (i : ℕ) (x : A)
    (xs : List A) : Type ℓ where
  pub next : Ptr
  pub left : ℕ
  pub laps : n ≡ suc left
  pub later : p < next
  pub block : Block heap p next i chunk_cap (x ∷ [])
  pub chain : Chain heap tail j left next 0 xs

module _ {ℓ} {A : Type ℓ} where
  Front-more :
      {heap : Heap A} {tail : Ptr} {j n : ℕ} {p : Ptr} {i : ℕ} {x : A} {xs : List A} (next : Ptr)
      (ys zs : List A)
      → i < 31
      → Block heap p next i chunk_cap ys
      → p < next
      → Chain heap tail j n next 0 zs
      → x ∷ xs ≡ ys ++ zs
      → Front heap tail j (suc n) p i x xs
  Front-more next [] zs lt b above c e = absurd (omega (arith, b.layout.finish))
  Front-more {heap} next (y ∷ ys) zs lt b above c e = record {
    next = next;
    stop = chunk_cap;
    rest = ys;
    block = rw (head-eq_of_cons-eq e) b;
    refill = λ heap' same b'.
        more next ys zs b' above (Chain-frame heap heap' c (λ r from to. same r (omega arith)))
          (tail-eq_of_cons-eq e);
  }

  pub front :
      {heap : Heap A} {tail : Ptr} {j n : ℕ} {p : Ptr} {i : ℕ} (x : A) (xs : List A) {zs : List A}
      → i < 31
      → Chain heap tail j n p i zs
      → zs ≡ x ∷ xs
      → Front heap tail j n p i x xs
  front x xs lt (more next ys zs b above c e) e' = Front-more next ys zs lt b above c (sym e' ∙ e)
  front {j = j} x xs lt (last e b) e' = record {
    next = null;
    stop = j;
    rest = xs;
    block = rw (← e') b;
    refill = λ heap' same b'. last e b';
  }

  Final-more :
      {heap : Heap A} {tail : Ptr} {j n : ℕ} {p : Ptr} {i : ℕ} {x : A} {xs : List A} (next : Ptr)
      (ys zs : List A)
      → i ≡ 30
      → Block heap p next i chunk_cap ys
      → p < next
      → Chain heap tail j n next 0 zs
      → x ∷ xs ≡ ys ++ zs
      → Final heap tail j (suc n) p i x xs
  Final-more next [] zs at b above c e = absurd (omega (arith, b.layout.finish))
  Final-more next (y ∷ z ∷ ys) zs at b above c e = absurd (omega (arith, b.layout.finish))
  Final-more {n = n} next (y ∷ []) zs at b above c e = record {
    next = next;
    left = n;
    laps = refl;
    later = above;
    block = rw (head-eq_of_cons-eq e) b;
    chain = rw (tail-eq_of_cons-eq e) c;
  }

  pub final :
      {heap : Heap A} {tail : Ptr} {j n : ℕ} {p : Ptr} {i : ℕ} (x : A) (xs : List A) {zs : List A}
      → i ≡ 30
      → j < 31
      → Chain heap tail j n p i zs
      → zs ≡ x ∷ xs
      → Final heap tail j n p i x xs
  final x xs at lt (more next ys zs b above c e) e' =
      Final-more next ys zs at b above c (sym e' ∙ e)
  final x xs at lt (last e b) e' = absurd (omega (arith, b.layout.finish, ap length e'))

  -- `Chunk::destroy` stops at the first slot that was not read, and leaves DESTROY there.
  pub destroy_slots-stops :
      (past : List (Slot A)) (s : Slot A) (rest : List (Slot A))
      → All (λ t. t.read ≡ true) past
      → s.read ≡ false
      → destroy_slots (past ++ (s ∷ rest)) ≡ (past ++ (record s { destroy = true } ∷ rest), false)
  unfolding destroy_slots
  destroy_slots-stops [] s rest h e = ground arith
  destroy_slots-stops (t ∷ past) s rest h e =
      ground (arith, h.0, destroy_slots-stops past s rest h.1 e)
