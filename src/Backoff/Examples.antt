-- ===== src/Backoff/Examples.antt =====
-- Tests of the counter of src/backoff.rs, and instances of the theorems about it.
use co_queue.Base.{◌≡◌, refl, true, false}
use co_queue.Backoff.{hints, yielded, spin, nap, is_completed}
use co_queue.Backoff.Bounds.{after_naps, after_spins, nap-schedule, is_completed_iff}

nap-schedule_example : (nap (after_naps 9)).0 ≡ yielded
nap-schedule_example = nap-schedule 9

is_completed_iff_example :
    (is_completed (after_naps 11) ≡ true) × (is_completed (after_spins 11) ≡ false)
is_completed_iff_example = is_completed_iff 11

spin_test : (spin (after_naps 4)).0 ≡ hints 16
unfolding after_naps nap spin
spin_test = refl
