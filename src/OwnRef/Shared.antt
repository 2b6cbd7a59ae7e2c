-- ===== src/OwnRef/Shared.antt =====
-- `Shared` of src/queue/own_ref.rs, which may be copied and owns nothing.
use co_queue.Base.{ℕ, Bool, ◌==◌}
use co_queue.Base.Outcome.{Outcome, done, ◌>>◌}
use co_queue.OwnRef.{decompose_data, ensure_aligned}
use co_queue.OwnRef.Words.{Owned, Shared, Boxes, read_box, write_box}
use co_queue.OwnRef.Owned

abbrev pub null : Shared
null = record { word = 0 }

abbrev pub from_usize : ℕ → Shared
from_usize word = record { word = word }

abbrev pub into_usize : Shared → ℕ
into_usize s = s.word

unfoldable pub into_owned : (debug : Bool) → Shared → Outcome Owned
into_owned debug s = Owned.from_usize debug s.word

module _ (align : ℕ) where
  -- `as_raw` and `as_raw_mut`
  unfoldable pub as_raw : Shared → ℕ
  as_raw s = decompose_data align s.word

  unfoldable pub is_null : Shared → Bool
  unfolding as_raw
  is_null s = as_raw s == 0

  unfoldable pub from_raw : ℕ → Outcome Shared
  from_raw raw = do ensure_aligned align raw; done (record { word = raw })

module _ {ℓ} {A : Type ℓ} where
  -- A write through `deref_mut`, which does not take the tag off.
  unfoldable pub deref_mut : Boxes A → Shared → A → Outcome (Boxes A)
  deref_mut heap s x = write_box heap s.word x

module _ {ℓ} {A : Type ℓ} (align : ℕ) where
  unfoldable pub deref : Boxes A → Shared → Outcome A
  unfolding as_raw
  deref heap s = read_box heap (as_raw align s)
