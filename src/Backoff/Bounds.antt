-- ===== src/Backoff/Bounds.antt =====
-- How far the counter of src/backoff.rs goes, and how long a thread spins before it yields.
use co_queue.Base.{
  ℕ, zero, suc, ◌^◌, ◌≤◌, min, ◌≡◌, refl, false, List, [], ◌∷◌, arith, leb, if◌then◌else◌,
}
use native.Mathlib.Decide.{dec_le}
use co_queue.Backoff.{Backoff, hints, yielded, new, reset, spin, nap, is_completed, spin_limit}

-- The calls that a loop makes on its `Backoff`.
pub data Call : Type 0 where
  resets spins naps : Call

pub call : Call → Backoff → Backoff
unfolding reset spin nap
call resets b = reset b
call spins b = (spin b).1
call naps b = (nap b).1

pub calls : List Call → Backoff → Backoff
calls [] b = b
calls (c ∷ cs) b = calls cs (call c b)

call-le : (c : Call) (b : Backoff) → b.step ≤ 11 → (call c b).step ≤ 11
unfolding call
call-le resets b h = omega arith
call-le spins b h = ground arith
call-le naps b h = ground arith

calls-le : (cs : List Call) (b : Backoff) → b.step ≤ 11 → (calls cs b).step ≤ 11
unfolding calls
calls-le [] b h = h
calls-le (c ∷ cs) b h = calls-le cs (call c b) (call-le c b h)

-- From a new counter no sequence of calls takes the step above 11, so the 32-bit counter never
-- overflows.
calls-new-le : (cs : List Call) → (calls cs new).step ≤ 11
calls-new-le cs = calls-le cs new (omega arith)

-- The counter after `n` calls of `nap`, or of `spin`, on a new `Backoff`.
unfoldable pub after_naps : ℕ → Backoff
after_naps zero = new
after_naps (suc n) = (nap (after_naps n)).1

pub after_spins : ℕ → Backoff
after_spins zero = new
after_spins (suc n) = (spin (after_spins n)).1

after_naps-step : (n : ℕ) → (after_naps n).step ≡ min n 11
unfolding after_naps nap
after_naps-step zero = refl
after_naps-step (suc n) = ground (arith, after_naps-step n)

after_spins-step : (n : ℕ) → (after_spins n).step ≡ min n 7
unfolding after_spins spin
after_spins-step zero = refl
after_spins-step (suc n) = ground (arith, after_spins-step n)

-- The call of `nap` that follows `n` others doubles the spin hints each time, up to 64 of them,
-- and yields to the scheduler from the eighth call on.
pub nap-schedule :
    (n : ℕ) → (nap (after_naps n)).0 ≡ (if leb n spin_limit then hints (2 ^ n) else yielded)
unfolding nap
nap-schedule n = elim (dec_le n 6) [
  | yes few ↦ let in_range : min n 11 ≡ n = omega arith in rw (after_naps-step, in_range)
  | no many ↦ ground (arith, after_naps-step n)
]

-- A loop that naps has completed its backoff exactly when it has napped eleven times or more; one
-- that only spins never completes it.
pub is_completed_iff :
    (n : ℕ) → (is_completed (after_naps n) ≡ leb 11 n) × (is_completed (after_spins n) ≡ false)
unfolding is_completed
is_completed_iff n = ground (arith, after_naps-step n, after_spins-step n)
