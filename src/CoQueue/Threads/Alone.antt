-- ===== src/CoQueue/Threads/Alone.antt =====
-- src/lockless_queue.rs, `CoQueue::push` and `CoQueue::pop`: what an access to a chunk leaves alone,
-- and a new queue.
use co_queue.Base.{ℕ, ◌≡◌, refl, Option, arith}
use co_queue.Base.Outcome.{done}
use co_queue.CoQueue.Chunk.{Ptr, Slot}
use co_queue.CoQueue.State.{CoQueue, free, drop_box}
use co_queue.CoQueue.Drop.{new}
use co_queue.CoQueue.Threads.{idle, change_slot}
use co_queue.CoQueue.Threads.Pushes.{link_chunk}
use co_queue.CoQueue.Threads.Run.{outset}
use co_queue.CoQueue.Threads.Invariant.{Fits, Inv}

module _ {ℓ} {A : Type ℓ} where
  -- An access to a chunk leaves both ends and the allocator as they are.
  abbrev pub Same : CoQueue A → CoQueue A → Type 0
  Same q r = (r.tail ≡ q.tail) × (r.fresh ≡ q.fresh) × (r.head ≡ q.head)

  pub link_chunk-Same :
      (q : CoQueue A) (p next : Ptr) (r : CoQueue A) → link_chunk q p next ≡ done r → Same q r
  link_chunk-Same q p next r e = ground arith

  pub change_slot-Same :
      (q : CoQueue A) (p : Ptr) (o : ℕ) (f : Slot A → Slot A) (old : Slot A) (r : CoQueue A)
      → change_slot q p o f ≡ done (old, r)
      → Same q r
  change_slot-Same q p o f old r e = ground arith

  pub free-Same : (q : CoQueue A) (p : Ptr) (r : CoQueue A) → free q p ≡ done r → Same q r
  free-Same q p r e = ground arith

  pub drop_box-Same :
      (q : CoQueue A) (n : Option Ptr) (r : CoQueue A) → drop_box q n ≡ done r → Same q r
  drop_box-Same q n r e = ground arith

  pub Fits-idle :
      (lap_of : ℕ → ℕ) (index chunk fresh : ℕ) → Fits {A = A} lap_of index chunk fresh idle
  Fits-idle lap_of index chunk fresh = record {
    even = λ h. absurd (omega arith);
    below = λ h. absurd (omega arith);
    looks = λ h. absurd (omega arith);
    claims = λ h. absurd (omega arith);
    spares = λ c e. cc;
    closes = λ h. absurd (omega arith);
    moves = λ h. absurd (omega arith);
  }

  pub Inv-new : Inv (λ _. 0) (outset A)
  unfolding new
  Inv-new = record {
    shared = record {
      unlinked = λ c h. refl;
      some_fresh = omega arith;
      even = refl;
      unset = λ h. refl;
      current = λ h. absurd (h refl);
    };
    fits = λ k. Fits-idle (λ _. 0) 0 0 1;
    apart = λ j k ne. record { slots = λ h. absurd (omega arith); boxes = λ c d e. cc };
  }
