-- ===== src/CoQueue/Drop/Loop.antt =====
-- The rounds of the loop in the `Drop` of `CoQueue` in src/lockless_queue.rs: over the values of one chunk,
-- at the end of a chunk, and at the tail.
use co_queue.Base.{
  ℕ, zero, suc, ◌+◌, ◌*◌, ◌/◌, ◌%◌, ◌^◌, ◌≤◌, ◌<◌, ◌≡◌, refl, sym, ◌∙◌, none, some, List, [], ◌∷◌,
  ◌++◌, map, append_assoc, arith, length, length-append, get_elem?, get_elem?-append, update,
}
use co_queue.Base.Outcome.{Outcome, done, ◌>>=◌}
use co_queue.CoQueue.Chunk.{Ptr, Slot, Chunk, full_slot}
use co_queue.CoQueue.State.{CoQueue}
use co_queue.CoQueue.Drop.{drop_loop}

module _ {ℓ} {A : Type ℓ} where
  -- Values that were dropped before the rest of the loop ran.
  unfoldable pub prepend : List A → Outcome (List A × CoQueue A) → Outcome (List A × CoQueue A)
  prepend zs o = do (xs, q) ← o; done (zs ++ xs, q)

  pub round-value :
      (fuel h t : ℕ) (p : Ptr) (q : CoQueue A) (c : Chunk A) (x : A)
      → h < t
      → 2 * t < 2 ^ 64
      → h % 32 < 31
      → q.heap p ≡ some c
      → get_elem? c.slots (h % 32) ≡ some (full_slot x)
      → drop_loop (suc fuel) (2 * h) (2 * t) p q
        ≡ prepend (x ∷ []) (drop_loop fuel (2 * (h + 1)) (2 * t) p q)
  unfolding drop_loop prepend
  round-value fuel h t p q c x lt small offset here slot =
      let at : 2 * h / 2 ≡ h = omega arith in
      let next : (2 * h + 2) % 2 ^ 64 ≡ 2 * (h + 1) = omega arith in
      let slot' : get_elem? c.slots (2 * h / 2 % 32) ≡ some (full_slot x) = rw at slot in
      rw (← next) (ground (arith, here, slot', lt))

  -- At the end of a chunk it is freed, and the loop goes on in the next.
  pub round-lap :
      (fuel h t : ℕ) (p : Ptr) (q : CoQueue A) (c : Chunk A)
      → h < t
      → 2 * t < 2 ^ 64
      → h % 32 ≡ 31
      → q.heap p ≡ some c
      → drop_loop (suc fuel) (2 * h) (2 * t) p q
        ≡ drop_loop fuel (2 * (h + 1)) (2 * t) c.next (record q { heap = update q.heap p none })
  unfolding drop_loop
  round-lap fuel h t p q c lt small offset here =
      let next : (2 * h + 2) % 2 ^ 64 ≡ 2 * (h + 1) = omega arith in
      rw (← next) (ground (arith, here))

  -- At the tail the last chunk is freed.
  pub round_last :
      (fuel t : ℕ) (p : Ptr) (q : CoQueue A) (c : Chunk A)
      → 0 < p
      → q.heap p ≡ some c
      → drop_loop (suc fuel) (2 * t) (2 * t) p q
        ≡ done ([], record q { heap = update q.heap p none })
  unfolding drop_loop
  round_last fuel t p q c pos here = ground (arith, here)

  prepend-prepend :
      (x : A) (zs : List A) (o : Outcome (List A × CoQueue A))
      → prepend (x ∷ []) (prepend zs o) ≡ prepend (x ∷ zs) o
  unfolding prepend
  prepend-prepend x zs (done r) = refl
  prepend-prepend x zs Outcome.fault = refl
  prepend-prepend x zs Outcome.spinning = refl

  prepend-nil : (o : Outcome (List A × CoQueue A)) → prepend [] o ≡ o
  unfolding prepend
  prepend-nil (done r) = refl
  prepend-nil Outcome.fault = refl
  prepend-nil Outcome.spinning = refl

  -- The values that are left in one chunk are dropped in order.
  pub rounds_block :
      (zs : List A) (fuel fuel' h t : ℕ) (p : Ptr) (q : CoQueue A) (c : Chunk A)
      (past rest : List (Slot A))
      → fuel ≡ length zs + fuel'
      → q.heap p ≡ some c
      → c.slots ≡ past ++ (map full_slot zs ++ rest)
      → h % 32 ≡ length past
      → length past + length zs ≤ 31
      → h + length zs ≤ t
      → 2 * t < 2 ^ 64
      → drop_loop fuel (2 * h) (2 * t) p q
        ≡ prepend zs (drop_loop fuel' (2 * (h + length zs)) (2 * t) p q)
  rounds_block [] fuel fuel' h t p q c past rest e here shape at fits before small =
      let e' : fuel ≡ fuel' = omega arith in
      let h' : h + 0 ≡ h = omega arith in rw (e', h', prepend-nil) refl
  rounds_block (x ∷ zs) zero fuel' h t p q c past rest e here shape at fits before small =
      absurd (omega arith)
  rounds_block (x ∷ zs) (suc fuel) fuel' h t p q c past rest e here shape at fits before small =
      let slot : get_elem? c.slots (h % 32) ≡ some (full_slot x) =
        rw (shape, at) (get_elem?-append past (map full_slot zs ++ rest) (full_slot x)) in
      let later =
        rounds_block zs fuel fuel' (h + 1) t p q c (past ++ (full_slot x ∷ [])) rest (omega arith)
          here (shape ∙ sym (append_assoc past (full_slot x ∷ []) (map full_slot zs ++ rest)))
          (omega (arith, length-append past (full_slot x ∷ [])))
          (omega (arith, length-append past (full_slot x ∷ []))) (omega arith) small in
      let h' : h + 1 + length zs ≡ h + suc (length zs) = omega arith in
      round-value fuel h t p q c x (omega arith) small (omega arith) here slot
      ∙ rw (later, h') (prepend-prepend x zs _)
