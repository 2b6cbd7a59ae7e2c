-- ===== src/CoQueue/Measure/Counts.antt =====
-- `is_empty` and `len` of src/lockless_queue.rs count the values that the queue holds.
use co_queue.Base.{
  ℕ, zero, suc, ◌+◌, ◌-◌, ◌*◌, ◌/◌, ◌%◌, ◌^◌, ◌<◌, ◌≡◌, ◌∙◌, refl, List, ◌==◌, eq→==, ne→==,
  if◌then◌else◌, arith, length,
}
use native.Mathlib.Decide.{ℕ_discrete}
use co_queue.CoQueue.State.{position, word, without_next, CoQueue}
use co_queue.CoQueue.Measure.{len_of, len, is_empty, sub_word}
use co_queue.CoQueue.Holds.{Holds, blank, linked, Linked-length}

-- The positions that name a slot among the `n` from `h` on: all but the last of each lap.
unfoldable pub slots_between : (h n : ℕ) → ℕ
slots_between h zero = 0
slots_between h (suc n) = (if h % 32 == 31 then 0 else 1) + slots_between (h + 1) n

slots_between-eq : (h n : ℕ) → slots_between h n + (h - h / 32) ≡ h + n - (h + n) / 32
unfolding slots_between
slots_between-eq h zero = omega arith
slots_between-eq h (suc n) = elim (ℕ_discrete (h % 32) 31) [
  | yes end ↦ rw (eq→== (h % 32) 31 end) (omega (arith, slots_between-eq (h + 1) n))
  | no inside ↦ rw (ne→== (h % 32) 31 inside) (omega (arith, slots_between-eq (h + 1) n))
]

-- The indices rotated into the first lap, for a head at offset `o` and a tail `n` further on.
rotated :
    (tail head o n : ℕ)
    → position head % 32 ≡ o
    → position tail ≡ position head + n
    → tail < 2 ^ 64
    → (position (sub_word (without_next tail) (word (position (without_next head) / 32 * 32 * 2)))
        ≡ o + n)
      × (position (sub_word (without_next head) (word (position (without_next head) / 32 * 32 * 2)))
          ≡ o)
rotated tail head o n at dist small = (omega arith, omega arith)

len_of-at :
    (tail head o n : ℕ)
    → position head % 32 ≡ o
    → position tail ≡ position head + n
    → tail < 2 ^ 64
    → (o ≡ 31 → 0 < n)
    → len_of tail head ≡ slots_between (position head) n
unfolding len_of
len_of-at tail head o n at dist small apart = elim (ℕ_discrete o 31) [
  | yes end ↦
      rw
        (
          (rotated tail head o n at dist small).0,
          (rotated tail head o n at dist small).1,
          eq→== o 31 end,
        )
        (elim (ℕ_discrete (sub_word (o + n) 32) 31) [
          | yes full ↦
              rw (eq→== (sub_word (o + n) 32) 31 full)
                (omega (arith, slots_between-eq (position head) n))
          | no other ↦
              rw (ne→== (sub_word (o + n) 32) 31 other)
                (omega (arith, slots_between-eq (position head) n))
        ])
  | no inside ↦
      rw
        (
          (rotated tail head o n at dist small).0,
          (rotated tail head o n at dist small).1,
          ne→== o 31 inside,
        )
        (elim (ℕ_discrete (o + n) 31) [
          | yes full ↦
              rw (eq→== (o + n) 31 full) (omega (arith, slots_between-eq (position head) n))
          | no other ↦
              rw (ne→== (o + n) 31 other) (omega (arith, slots_between-eq (position head) n))
        ])
]

-- From any two indices that `len` may read, with or without the flag and also while another thread
-- stands at the end of a chunk, it counts the slots between them; only if both stand at the end of
-- one chunk does it not.
pub len_of-eq :
    (tail head n : ℕ)
    → position tail ≡ position head + n
    → tail < 2 ^ 64
    → (position head % 32 ≡ 31 → 0 < n)
    → len_of tail head ≡ slots_between (position head) n
len_of-eq tail head n dist small apart = len_of-at tail head _ n refl dist small apart

-- Where both indices stand at the end of one chunk, so that no slot is between them, the
-- subtraction wraps and the length is 2 ^ 64 - 2 ^ 59.
pub len_of-lap_end :
    (tail head : ℕ)
    → position tail ≡ position head
    → tail < 2 ^ 64
    → position head % 32 ≡ 31
    → len_of tail head ≡ 2 ^ 64 - 2 ^ 59
unfolding len_of
len_of-lap_end tail head same small end =
    let r = rotated tail head 31 0 end (omega arith) small in rw (r.0, r.1)

module _ {ℓ} {A : Type ℓ} where
  -- `len` is the number of values that the queue holds.
  pub len-Holds : (q : CoQueue A) (xs : List A) → Holds q xs → len q ≡ length xs
  unfolding len
  len-Holds q xs (blank b e) = rw (b.head_index, b.tail_index, e)
  len-Holds q xs (linked {n = n} {j = j} h) =
      let counted = slots_between-eq (position q.head.index) (length xs + n) in
      len_of-eq q.tail.index q.head.index (length xs + n)
        (omega (arith, h.head_at, h.tail_at, Linked-length h)) h.small
        (λ end. omega (arith, h.head_at, h.head_in))
      ∙ omega (arith, counted, h.head_at, h.tail_at, Linked-length h, h.head_in, h.tail_in)

  -- `is_empty` says that the queue holds no value.
  pub is_empty-Holds : (q : CoQueue A) (xs : List A) → Holds q xs → is_empty q ≡ (length xs == 0)
  unfolding is_empty
  is_empty-Holds q xs (blank b e) = rw (b.head_index, b.tail_index, e)
  is_empty-Holds q xs (linked h) = elim (ℕ_discrete (length xs) 0) [
    | yes none_left ↦ rw (
      none_left,
      eq→== (position q.head.index) (position q.tail.index)
          (omega (arith, h.head_at, h.tail_at, Linked-length h, h.head_in)),
    )
    | no some_left ↦ rw (
      ne→== (length xs) 0 some_left,
      ne→== (position q.head.index) (position q.tail.index)
          (omega (arith, h.head_at, h.tail_at, Linked-length h, h.head_in)),
    )
  ]
