-- ===== src/CoQueue/Measure.antt =====
-- src/lockless_queue.rs, `CoQueue::is_empty` and `CoQueue::len`. Both read the two indices once;
-- `len` reads the tail again and starts over if it has moved, which it has not here.
pub mod Counts
use co_queue.Base.{ℕ, ◌+◌, ◌-◌, ◌*◌, ◌/◌, ◌%◌, ◌^◌, Bool, ◌==◌, if◌then◌else◌}
use co_queue.CoQueue.Chunk.{lap, chunk_cap}
use co_queue.CoQueue.State.{word, position, without_next, CoQueue}

-- `usize` subtraction, as `wrapping_sub` and the release build's `-` do it
abbrev pub sub_word : ℕ → ℕ → ℕ
sub_word a b = (a + 2 ^ 64 - b) % 2 ^ 64

-- What `len` computes from the indices that it has read.
unfoldable pub len_of : (tail head : ℕ) → ℕ
len_of tail head =
    let tail₁ : ℕ = without_next tail in
    let head₁ : ℕ = without_next head in
    let laps : ℕ = position head₁ / lap in
    -- both rotated, so that the head falls into the first chunk
    let t : ℕ = position (sub_word tail₁ (word (laps * lap * 2))) in
    let h : ℕ = position (sub_word head₁ (word (laps * lap * 2))) in
    -- the fix for an index that stands at the end of a chunk
    let t' : ℕ = if h == chunk_cap then sub_word t lap else t in
    let h' : ℕ = if h == chunk_cap then 0 else h in
    let t'' : ℕ = if t' == chunk_cap then t' + 1 else t' in sub_word (sub_word t'' h') (t'' / lap)

module _ {ℓ} {A : Type ℓ} where
  unfoldable pub len : CoQueue A → ℕ
  unfolding len_of
  len q = len_of q.tail.index q.head.index

  unfoldable pub is_empty : CoQueue A → Bool
  is_empty q = position q.head.index == position q.tail.index
