-- ===== src/PtrGuard/Stack.antt =====
-- What the stack of src/queue/shift_guard.rs keeps, and what it gives back.
use co_queue.Base.{
  ℕ, ◌+◌, ◌≤◌, ◌<◌, ◌≡◌, ◌≢◌, ◌⊎◌, inl, inr, refl, ◌∙◌, sym, none, some, List, [], ◌∷◌, eq→==,
  ne→==, length, update, update_self, update_ne, arith,
}
use native.Mathlib.Decide.{ℕ_discrete}
use co_queue.PtrGuard.{PtrGuard, garbage, with_threads, push, pop, read}

-- The calls on a guard.
pub data Call {ℓ} (A : Type ℓ) : Type ℓ where
  pushes : A → Call A
  pops : Call A

module _ {ℓ} {A : Type ℓ} where
  unfoldable pub call : PtrGuard A → Call A → PtrGuard A
  call g (pushes x) = (push g x).0
  call g pops = (pop g).0

  unfoldable pub calls : PtrGuard A → List (Call A) → PtrGuard A
  calls g [] = g
  calls g (c ∷ cs) = calls (call g c) cs

  -- The length fits the allocation, and nothing is written outside of it.
  pub record IsValid (g : PtrGuard A) : Type ℓ where
    pub fits : g.len ≤ g.cap
    pub outside : (i : ℕ) → g.cap ≤ i → g.guard i ≡ none

  call-IsValid : (g : PtrGuard A) (c : Call A) → IsValid g → IsValid (call g c)
  unfolding call push pop
  call-IsValid g (pushes x) v = record {
    fits = ground (arith, v.fits);
    outside = λ i h. ground (arith, v.fits, v.outside i);
  }
  call-IsValid g pops v = record {
    fits = ground (arith, v.fits);
    outside = λ i h. ground (arith, v.outside i);
  }

  calls_keep : (cs : List (Call A)) (g : PtrGuard A) → IsValid g → IsValid (calls g cs)
  unfolding calls
  calls_keep [] g v = v
  calls_keep (c ∷ cs) g v = calls_keep cs (call g c) (call-IsValid g c v)

  -- Any calls on a new guard keep its length within its capacity and write to no cell outside.
  pub calls-IsValid :
      (threads : ℕ) (cs : List (Call A)) → IsValid (calls (with_threads A threads) cs)
  calls-IsValid threads cs =
      calls_keep cs (with_threads A threads) (record { fits = omega arith; outside = λ i h. refl })

  -- A push either finds the guard full, hands its value back and changes nothing, or writes the
  -- value to the first free cell and no other.
  push_lem :
      (g : PtrGuard A) (x : A)
      → ((g.len ≡ g.cap) × (push g x ≡ (g, some x)))
        ⊎ ((g.len ≢ g.cap)
            × ((push g x).1 ≡ none)
            × ((push g x).0.len ≡ g.len + 1)
            × ((push g x).0.guard g.len ≡ some x)
            × ((i : ℕ) → i ≢ g.len → (push g x).0.guard i ≡ g.guard i))
  unfolding push
  push_lem g x = elim (ℕ_discrete g.len g.cap) [
    | yes full ↦ inl (full, rw (eq→== g.len g.cap full))
    | no room ↦ inr (
      room,
      rw (ne→== g.len g.cap room),
      rw (ne→== g.len g.cap room),
      rw (ne→== g.len g.cap room) (update_self g.guard g.len (some x)),
      λ i ne. rw (ne→== g.len g.cap room) (update_ne g.guard g.len (some x) i (λ e. ne (sym e))),
    )
  ]

  -- A pop after a push that was accepted restores the length, but does not read the value pushed:
  -- it reads the cell above it, whatever the guard held there before the push.
  pub pop-push :
      (g : PtrGuard A) (x : A)
      → g.len ≢ g.cap
      → ((pop (push g x).0).0.len ≡ g.len) × ((pop (push g x).0).1 ≡ read g (g.len + 1))
  unfolding push pop
  pop-push g x room = (ground arith, ground arith)

  -- The values are pushed in turn.
  unfoldable pub fill : PtrGuard A → List A → PtrGuard A
  fill g [] = g
  fill g (x ∷ xs) = fill (push g x).0 xs

  -- The guard after a push that was accepted.
  abbrev accepted : PtrGuard A → A → PtrGuard A
  accepted g x = record g { guard = update g.guard g.len (some x); len = g.len + 1 }

  push-accepted : (g : PtrGuard A) (x : A) → g.len ≢ g.cap → push g x ≡ (accepted g x, none)
  unfolding push
  push-accepted g x room = rw (ne→== g.len g.cap room)

  fill-len :
      (g : PtrGuard A) (xs : List A)
      → g.len + length xs ≤ g.cap
      → ((i : ℕ) → g.len ≤ i → g.guard i ≡ none)
      → ((fill g xs).len ≡ g.len + length xs)
        × ((i : ℕ) → g.len + length xs ≤ i → (fill g xs).guard i ≡ none)
  unfolding fill
  fill-len g [] h clear = (omega arith, λ i le. clear i (omega arith))
  fill-len g (x ∷ xs) h clear =
      let rest =
        fill-len (accepted g x) xs (omega arith)
          (λ i le. update_ne g.guard g.len (some x) i (omega arith) ∙ clear i (omega arith)) in
      rw (push-accepted g x (omega arith), fill)
        (omega (arith, rest.0), λ i le. rest.1 i (omega arith))

  -- The first pop from a guard that holds values, as many as fit, pushed since it was made, reads
  -- memory that was never written.
  pub pop-fill :
      (threads : ℕ) (xs : List A)
      → 0 < length xs
      → length xs ≤ threads
      → (pop (fill (with_threads A threads) xs)).1 ≡ garbage
  unfolding pop
  pop-fill threads xs some_left fits =
      let filled = fill-len (with_threads A threads) xs (omega arith) (λ i le. refl) in
      rw (
        ne→== (fill (with_threads A threads) xs).len 0 (omega (arith, filled.0)),
        filled.1 (fill (with_threads A threads) xs).len (omega (arith, filled.0)),
        read,
      )
