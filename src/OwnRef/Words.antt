-- ===== src/OwnRef/Words.antt =====
-- The pointer types of src/queue/own_ref.rs: each is one word.
use co_queue.Base.{ℕ, Option, none, some, Bool, ◌==◌, ◌&&◌, ◌≡◌, arith, if◌then◌else◌, update}
use co_queue.Base.Outcome.{Outcome, done, fault}

pub record Owned : Type 0 where
  pub word : ℕ

pub record Shared : Type 0 where
  pub word : ℕ

pub record Atomic : Type 0 where
  pub word : ℕ

-- `debug_assert!(word != 0)`, in a debug build.
abbrev pub debug_assert_nonzero : (debug : Bool) → ℕ → Outcome (Unit {0})
debug_assert_nonzero debug word = if debug && word == 0 then fault else done tt

-- The boxes, by address.
abbrev pub Boxes {ℓ} : Type ℓ → Type ℓ
Boxes A = ℕ → Option A

module _ {ℓ} {A : Type ℓ} where
  -- What a reference to the address reads, and the heap behind a write through it.
  unfoldable pub read_box : Boxes A → ℕ → Outcome A
  read_box heap p = elim (heap p) [ none ↦ fault | some x ↦ done x ]

  unfoldable pub write_box : Boxes A → ℕ → A → Outcome (Boxes A)
  write_box heap p x = elim (heap p) [ none ↦ fault | some _ ↦ done (update heap p (some x)) ]

  -- `drop(Box::from_raw(p))`
  unfoldable pub free_box : Boxes A → ℕ → Outcome (Boxes A)
  free_box heap p = elim (heap p) [ none ↦ fault | some _ ↦ done (update heap p none) ]

module _ {ℓ} {A : Type ℓ} (heap : Boxes A) (p : ℕ) where
  pub read_box-some : (x : A) → heap p ≡ some x → read_box heap p ≡ done x
  unfolding read_box
  read_box-some x here = ground (arith, here)

  pub write_box-some :
      (x y : A) → heap p ≡ some x → write_box heap p y ≡ done (update heap p (some y))
  unfolding write_box
  write_box-some x y here = ground (arith, here)

  pub write_box-none : (y : A) → heap p ≡ none → write_box heap p y ≡ fault
  unfolding write_box
  write_box-none y here = ground (arith, here)

  pub free_box-some : (x : A) → heap p ≡ some x → free_box heap p ≡ done (update heap p none)
  unfolding free_box
  free_box-some x here = ground (arith, here)

  pub free_box-none : heap p ≡ none → free_box heap p ≡ fault
  unfolding free_box
  free_box-none here = ground (arith, here)
