-- ===== src/CoQueue/Threads/Looks.antt =====
-- src/lockless_queue.rs, `CoQueue::pop`: what its tests and its loads tell it.
use native.Mathlib.Decide.{ℕ_discrete}
use co_queue.Base.{ℕ, ◌+◌, ◌/◌, ◌%◌, ◌^◌, ◌<◌, ◌≡◌, ◌≢◌, ◌⊎◌, inl, inr, Option, none, some, arith}
use co_queue.Base.Outcome.{done}
use co_queue.CoQueue.Chunk.{Ptr, Chunk}
use co_queue.CoQueue.State.{word, with_next, without_next, CoQueue}
use co_queue.CoQueue.Pop.{next_head}
use co_queue.CoQueue.Threads.Pops.{next_of, next_index}

module _ {ℓ} {A : Type ℓ} where
  -- What a pop that goes on past the test for an empty queue knows.
  pub next_head_lem :
      (q : CoQueue A) (h n : ℕ)
      → next_head q h ≡ some n
      → h + 2 < 2 ^ 64
      → (n / 2 ≡ h / 2 + 1)
        × ((h % 2 ≡ 1)
            ⊎ ((h / 2 ≢ q.tail.index / 2) × (n % 2 ≡ 1 → h / 2 / 32 ≢ q.tail.index / 2 / 32)))
  unfolding next_head
  next_head_lem q h n e lt = elim (ℕ_discrete (word (h + 2) % 2) 0) [
    | yes even ↦ elim (ℕ_discrete (h / 2) (q.tail.index / 2)) [
      | yes empty ↦ ground (arith, e, even, empty)
      | no some_left ↦ elim (ℕ_discrete (h / 2 / 32) (q.tail.index / 2 / 32)) [
        | yes one_lap ↦
            let is : n ≡ word (h + 2) = ground (arith, e, even, some_left, one_lap) in
            (omega (arith, is), inr (some_left, λ x. absurd (omega (arith, is, x, even))))
        | no laps ↦
            let is : n ≡ with_next (word (h + 2)) = ground (arith, e, even, some_left, laps) in
            (omega (arith, is), inr (some_left, λ x. laps))
      ]
    ]
    | no odd ↦
        let is : n ≡ word (h + 2) = ground (arith, e, odd) in
        (omega (arith, is), inl (omega (arith, odd)))
  ]

  pub next_of_lem :
      (q : CoQueue A) (p next : Ptr) (c : Option (Chunk A))
      → q.heap p ≡ c
      → next_of q p ≡ done next
      → (d : Chunk A) × (q.heap p ≡ some d) × (d.next ≡ next) × (next ≢ 0)
  next_of_lem q p next none here e = ground arith
  next_of_lem q p next (some d) here e = (d, here, ground arith, ground arith)

  pub next_index_lem :
      (q : CoQueue A) (next : Ptr) (n idx : ℕ) (c : Option (Chunk A))
      → q.heap next ≡ c
      → next_index q next n ≡ done idx
      → n + 2 < 2 ^ 64
      → (idx / 2 ≡ n / 2 + 1)
        × (idx % 2 ≡ 1 → (d : Chunk A) × (q.heap next ≡ some d) × (d.next ≢ 0))
  next_index_lem q next n idx none here e lt = ground arith
  next_index_lem q next n idx (some d) here e lt = elim (ℕ_discrete d.next 0) [
    | yes last ↦
        let is : idx ≡ word (without_next n + 2) = ground (arith, e, here, last) in
        (omega (arith, is), λ x. absurd (omega (arith, is, x)))
    | no more ↦
        let is : idx ≡ with_next (word (without_next n + 2)) = ground (arith, e, here, more) in
        (omega (arith, is), λ x. (d, here, more))
  ]
