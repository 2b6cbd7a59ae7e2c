-- ===== src/OwnRef.antt =====
-- src/queue/own_ref.rs: words that are pointers with a tag in their low bits, `Atomic`, `Owned` and
-- `Shared`. A pointed-to type whose alignment has `align` trailing zeros leaves `align` bits to the
-- tag. The boxes stand in a heap from addresses to values; lifetimes and `PhantomData` are left out.
-- `Box::into_raw(Box::new(..))` of the standard library puts its value at an address `raw` of the
-- allocator's choice, which is an argument. A panic or an access to no value is a fault.
pub mod Words
pub mod Owned
pub mod Shared
pub mod Atomic
pub mod Tags
pub mod Lifecycle
pub mod Exchange
mod Examples
use co_queue.Base.{
  ℕ, ◌+◌, ◌-◌, ◌%◌, ◌^◌, Bool, true, false, ◌||◌, ◌&&◌, not, Option, none, some, ◌==◌,
  if◌then◌else◌, update,
}
use Prim.Native.Nat.{bit_and, bit_or}
use co_queue.Base.Outcome.{Outcome, done, fault, ◌>>=◌, ◌>>◌}

-- `!x` on 64 bits
abbrev pub complement : ℕ → ℕ
complement x = 2 ^ 64 - 1 - x

-- `(1 << mem::align_of::<T>().trailing_zeros()) - 1`
abbrev pub low_bits : (align : ℕ) → ℕ
low_bits align = 2 ^ align - 1

unfoldable pub data_with_tag : (align word tag : ℕ) → ℕ
data_with_tag align word tag =
    bit_or (bit_and word (complement (low_bits align))) (bit_and tag (low_bits align))

unfoldable pub decompose_data : (align word : ℕ) → ℕ
decompose_data align word = bit_and word (complement (low_bits align))

unfoldable pub ensure_aligned : (align raw : ℕ) → Outcome (Unit {0})
ensure_aligned align raw = if bit_and raw (low_bits align) == 0 then done tt else fault
