-- ===== src/Base/Tally.antt =====
-- Families indexed by thread: a weight summed over the first `n` threads.
use Prim.Native.Nat.{ℕ, zero, suc, ◌+◌, ◌≤◌, ◌<◌}
use mathlib.Core.Path.{◌≡◌, refl}
use mathlib.Core.Logic.{◌≢◌}
use native.Mathlib.Decide.{dec_lt, ℕ_discrete}
use native.Mathlib.Omega.{arith}
use co_queue.Base.Tests.{update, update_self, update_ne}

module _ {ℓ} {A : Type ℓ} (weight : A → ℕ) where
  unfoldable pub tally : ℕ → (ℕ → A) → ℕ
  tally zero f = 0
  tally (suc n) f = weight (f n) + tally n f

  tally-update_outside :
      (n : ℕ) (f : ℕ → A) (i : ℕ) (a : A) → n ≤ i → tally n (update f i a) ≡ tally n f
  unfolding tally
  tally-update_outside zero f i a h = refl
  tally-update_outside (suc n) f i a h =
      rw (update_ne f i a n (omega arith), tally-update_outside n f i a (omega arith))

  -- One thread's weight changes.
  pub tally-update :
      (n : ℕ) (f : ℕ → A) (i : ℕ) (a : A)
      → i < n
      → tally n (update f i a) + weight (f i) ≡ weight a + tally n f
  unfolding tally
  tally-update zero f i a h = absurd (omega arith)
  tally-update (suc n) f i a h = elim (ℕ_discrete i n) [
    | yes same ↦
        rw (same, update_self f n a, tally-update_outside n f n a (omega arith)) (omega arith)
    | no other ↦ rw (update_ne f i a n other) (omega (arith, tally-update n f i a (omega arith)))
  ]

  pub weight-le-tally : (n : ℕ) (f : ℕ → A) (i : ℕ) → i < n → weight (f i) ≤ tally n f
  unfolding tally
  weight-le-tally zero f i h = absurd (omega arith)
  weight-le-tally (suc n) f i h = elim (ℕ_discrete i n) [
    | yes same ↦ rw same (omega arith)
    | no other ↦ omega (arith, weight-le-tally n f i (omega arith))
  ]

  -- Two threads' weights are part of the sum.
  pub two_weights-le-tally :
      (n : ℕ) (f : ℕ → A) (i j : ℕ)
      → i < n
      → j < n
      → i ≢ j
      → weight (f i) + weight (f j) ≤ tally n f
  unfolding tally
  two_weights-le-tally zero f i j h k ne = absurd (omega arith)
  two_weights-le-tally (suc n) f i j h k ne = elim (ℕ_discrete i n) [
    | yes same ↦ rw same (omega (arith, weight-le-tally n f j (omega arith)))
    | no other ↦ elim (ℕ_discrete j n) [
      | yes same ↦ rw same (omega (arith, weight-le-tally n f i (omega arith)))
      | no other' ↦ omega (arith, two_weights-le-tally n f i j (omega arith) (omega arith) ne)
    ]
  ]

  -- A sum that is not zero has a thread with a weight.
  pub tally-find : (n : ℕ) (f : ℕ → A) → 0 < tally n f → (i : ℕ) × (0 < weight (f i)) × (i < n)
  unfolding tally
  tally-find zero f h = absurd (omega arith)
  tally-find (suc n) f h = elim (dec_lt 0 (weight (f n))) [
    | yes here ↦ (n, here, omega arith)
    | no not_here ↦ let (i, w, lt) = tally-find n f (omega arith) in (i, w, omega arith)
  ]

  pub tally-zero : (n : ℕ) (a : A) → weight a ≡ 0 → tally n (λ _. a) ≡ 0
  unfolding tally
  tally-zero zero a h = refl
  tally-zero (suc n) a h = omega (arith, h, tally-zero n a h)
