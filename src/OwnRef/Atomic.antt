-- ===== src/OwnRef/Atomic.antt =====
-- `Atomic` of src/queue/own_ref.rs, a shared cell that holds a word. Each access is atomic.
use co_queue.Base.{ℕ, ◌+◌, ◌%◌, ◌^◌, Bool, not, ◌||◌, ◌==◌, if◌then◌else◌}
use co_queue.Base.Outcome.{Outcome, done, ◌>>=◌, ◌>>◌}
use co_queue.OwnRef.Words.{Owned, Shared, Atomic, Boxes, debug_assert_nonzero}
use co_queue.OwnRef.Owned
use co_queue.OwnRef.Shared

-- `Result<Shared, Shared>`
pub data Exchanged : Type 0 where
  ok : Shared → Exchanged
  err : Shared → Exchanged

unfoldable pub from_usize : (debug : Bool) → ℕ → Outcome Atomic
from_usize debug word = do debug_assert_nonzero debug word; done (record { word = word })

abbrev pub null : Atomic
null = record { word = 0 }

-- `From<Owned<T>>`, `From<Shared<T>>` and `From<*const T>`
unfoldable pub from_owned : (debug : Bool) → Owned → Outcome Atomic
unfolding from_usize
from_owned debug o = from_usize debug o.word

unfoldable pub from_shared : (debug : Bool) → Shared → Outcome Atomic
unfolding from_usize
from_shared debug s = from_usize debug s.word

unfoldable pub from_raw : (debug : Bool) → ℕ → Outcome Atomic
unfolding from_usize
from_raw debug raw = from_usize debug raw

abbrev pub load : Atomic → Shared
load a = Shared.from_usize a.word

-- `store` of a `Shared`, and of an `Owned`
abbrev pub store_shared : Atomic → Shared → Atomic
store_shared a new = record { word = Shared.into_usize new }

abbrev pub store_owned : Atomic → Owned → Atomic
store_owned a new = record { word = Owned.into_usize new }

-- Both results are made of what the caller gave.
unfoldable pub compare_set : Atomic → (curr new : Shared) → Atomic × Exchanged
compare_set a curr new =
    if a.word == curr.word
    then (record { word = new.word }, ok (Shared.from_usize curr.word))
    else (a, err (Shared.from_usize new.word))

-- The same, with whether the weak exchange fails for no reason.
unfoldable pub compare_set_weak : (fails : Bool) → Atomic → (curr new : Shared) → Atomic × Exchanged
compare_set_weak fails a curr new =
    if fails || not (a.word == curr.word)
    then (a, err (Shared.from_usize new.word))
    else (record { word = new.word }, ok (Shared.from_usize curr.word))

unfoldable pub fetch_add : Atomic → ℕ → Atomic × Shared
fetch_add a val = (record { word = (a.word + val) % 2 ^ 64 }, Shared.from_usize a.word)

unfoldable pub into_owned : (debug : Bool) → Atomic → Outcome Owned
into_owned debug a = Owned.from_usize debug a.word

-- The new box stands at `raw`.
unfoldable pub new {ℓ} :
    {A : Type ℓ} (debug : Bool) (align raw : ℕ) → A → Boxes A → Outcome (Boxes A × Atomic)
unfolding from_owned
new debug align raw x heap = do
  (heap₁, o) ← Owned.new align raw x heap
  a ← from_owned debug o
  done (heap₁, a)
