-- ===== src/OwnRef/Owned.antt =====
-- `Owned` of src/queue/own_ref.rs, which is dropped with its box.
use co_queue.Base.{ℕ, Bool, some, ◌==◌, update}
use co_queue.Base.Outcome.{Outcome, done, ◌>>=◌, ◌>>◌}
use co_queue.OwnRef.{decompose_data, ensure_aligned}
use co_queue.OwnRef.Words.{
  Owned, Shared, debug_assert_nonzero, Boxes, read_box, write_box, free_box,
}

module _ (align : ℕ) where
  unfoldable pub from_raw : ℕ → Outcome Owned
  from_raw raw = do ensure_aligned align raw; done (record { word = raw })

  unfoldable pub as_raw : Owned → ℕ
  as_raw o = decompose_data align o.word

  unfoldable pub is_null : Owned → Bool
  unfolding as_raw
  is_null o = as_raw o == 0

abbrev pub null : Owned
null = record { word = 0 }

unfoldable pub from_usize : (debug : Bool) → ℕ → Outcome Owned
from_usize debug word = do debug_assert_nonzero debug word; done (record { word = word })

-- The word is taken, and the `Owned` forgotten.
abbrev pub into_usize : Owned → ℕ
into_usize o = o.word

abbrev pub into_shared : Owned → Shared
into_shared o = record { word = into_usize o }

module _ {ℓ} {A : Type ℓ} where
  -- A write through `deref_mut`, which does not take the tag off.
  unfoldable pub deref_mut : Boxes A → Owned → A → Outcome (Boxes A)
  deref_mut heap o x = write_box heap o.word x

module _ {ℓ} {A : Type ℓ} (align : ℕ) where
  -- The new box stands at `raw`.
  unfoldable pub new : (raw : ℕ) → A → Boxes A → Outcome (Boxes A × Owned)
  unfolding from_raw
  new raw x heap = do o ← from_raw align raw; done (update heap raw (some x), o)

  unfoldable pub deref : Boxes A → Owned → Outcome A
  unfolding as_raw
  deref heap o = read_box heap (as_raw align o)

  unfoldable pub drop : Boxes A → Owned → Outcome (Boxes A)
  drop heap o = free_box heap (decompose_data align o.word)

  -- The copy is boxed at `raw`; `copy` is the clone of the value.
  unfoldable pub clone : (copy : A → A) → (raw : ℕ) → Boxes A → Owned → Outcome (Boxes A × Owned)
  unfolding deref new
  clone copy raw heap o = do x ← deref heap o; new raw (copy x) heap
