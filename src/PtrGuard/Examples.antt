-- ===== src/PtrGuard/Examples.antt =====
-- Instances of the theorems about src/queue/shift_guard.rs.
use co_queue.Base.{ℕ, ◌≡◌, [], ◌∷◌, arith}
use co_queue.PtrGuard.{PtrGuard, garbage, with_threads, push, pop, read}
use co_queue.PtrGuard.Stack.{pushes, pops, calls, IsValid, calls-IsValid, pop-push, fill, pop-fill}

abbrev small : PtrGuard ℕ
small = with_threads ℕ 4

calls-IsValid_example : IsValid (calls small (pushes 7 ∷ pushes 8 ∷ pops ∷ []))
calls-IsValid_example = calls-IsValid 4 (pushes 7 ∷ pushes 8 ∷ pops ∷ [])

pop-push_example : ((pop (push small 7).0).0.len ≡ 0) × ((pop (push small 7).0).1 ≡ read small 1)
pop-push_example = pop-push small 7 (omega arith)

pop-fill_example : (pop (fill small (1 ∷ 2 ∷ 3 ∷ 4 ∷ []))).1 ≡ garbage
pop-fill_example = pop-fill 4 (1 ∷ 2 ∷ 3 ∷ 4 ∷ []) (omega arith) (omega arith)
