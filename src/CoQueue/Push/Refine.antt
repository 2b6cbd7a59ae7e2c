-- ===== src/CoQueue/Push/Refine.antt =====
-- The exchange of `push` in src/lockless_queue.rs, with the write to the slot that it claims.
use co_queue.Base.{
  ℕ, suc, ◌+◌, ◌%◌, ◌^◌, ◌<◌, ◌≡◌, ◌≢◌, refl, sym, ap, ◌∙◌, true, false, none, some, List, [], ◌∷◌,
  ◌++◌, eq→==, ne→==, get_elem?, set, update_self, update_ne, arith, append_assoc,
}
use mathlib.Core.Path.{subst}
use co_queue.Base.Outcome.{done}
use co_queue.CoQueue.Chunk.{Ptr, Chunk, Slot, new_chunk, full_slot}
use co_queue.CoQueue.State.{word, position, CoQueue, returned, load, store, set_slot}
use co_queue.CoQueue.Push.{reload_tail, advance_tail, publish_next, write_slot}
use co_queue.CoQueue.Chain.{Chain, Ending, ending}
use co_queue.CoQueue.Chain.Slots.{Layout, Layout-new, Layout-write}
use co_queue.CoQueue.Holds.{Linked}

-- A new chunk that no chain reaches yet.
pub record Spare {ℓ} {A : Type ℓ} (q : CoQueue A) (s : Ptr) : Type ℓ where
  pub here : q.heap s ≡ some (new_chunk A)
  pub later : q.tail.chunk < s
  pub below : s < q.fresh

module _ {ℓ} {A : Type ℓ} where
  load-eq : (q : CoQueue A) (p : Ptr) {c : Chunk A} → q.heap p ≡ some c → load q p ≡ done c
  load-eq q p here = ground arith

  write_slot-eq :
      (q : CoQueue A) (p offset : ℕ) (x : A) {c : Chunk A} {s : Slot A}
      → q.heap p ≡ some c
      → get_elem? c.slots offset ≡ some s
      → write_slot q p offset x
        ≡ done (store q p (set_slot c offset (record s { value = some x; write = true })))
  unfolding write_slot
  write_slot-eq q p offset x here at = ground arith

module _ {ℓ} {A : Type ℓ} {q : CoQueue A} {l n i j : ℕ} {xs : List A} (x : A)
    (h : Linked q l n i j xs) where
  pub end : Ending q.heap q.tail.chunk j n q.head.chunk i xs
  end = ending h.chain

  pub offset_eq : position q.tail.index % 32 ≡ j
  offset_eq = omega (arith, h.tail_at, h.tail_in)

  regroup : end.before ++ (end.after ++ (x ∷ [])) ≡ xs ++ (x ∷ [])
  regroup = sym (ap (λ t. t ++ (x ∷ [])) end.split ∙ append_assoc end.before end.after (x ∷ []))

  -- The queue after the exchange, and after a push into a slot that is not the last one.
  abbrev pub moved : CoQueue A
  moved = record q { tail = record q.tail { index = word (q.tail.index + 2) } }

  abbrev pub pushed : CoQueue A
  pushed = store moved q.tail.chunk (set_slot end.block.chunk j (full_slot x))

  pub advance_inside : j < 30 → advance_tail false x (reload_tail q none) q ≡ done (returned pushed)
  unfolding advance_tail publish_next
  advance_inside lt = rw (
    eq→== q.tail.index q.tail.index refl,
    offset_eq,
    ne→== (j + 1) 31 (omega arith),
    write_slot-eq moved q.tail.chunk j x end.block.here
        (Layout-write x end.block.layout h.tail_in).0,
  )

  pub pushed-Linked :
      j < 30 → q.tail.index + 4 < 2 ^ 64 → Linked pushed l n i (suc j) (xs ++ (x ∷ []))
  pushed-Linked lt bound = record {
    head_at = h.head_at;
    flag = h.flag;
    tail_at = omega (arith, h.tail_at);
    head_in = h.head_in;
    tail_in = omega arith;
    small = omega arith;
    chain = subst (Chain pushed.heap q.tail.chunk (suc j) n q.head.chunk i) regroup (
        end.refill pushed.heap (suc j) (end.after ++ (x ∷ []))
          (λ r lt'. update_ne q.heap q.tail.chunk _ r (omega arith))
          (record {
            chunk = set_slot end.block.chunk j (full_slot x);
            here = update_self q.heap q.tail.chunk _;
            link = end.block.link;
            layout = (Layout-write x end.block.layout h.tail_in).1;
          }));
    nonnull = h.nonnull;
    below = h.below;
  }

  -- The queue after a push into the last slot of the chunk, with `s` the spare chunk.
  abbrev pub linking : Ptr → CoQueue A
  linking s =
      store (record q { tail = record { index = word (word (q.tail.index + 2) + 2); chunk = s } })
        q.tail.chunk (record end.block.chunk { next = s })

  abbrev pub filled : Ptr → CoQueue A
  filled s =
      store (linking s) q.tail.chunk
        (set_slot (record end.block.chunk { next = s }) j (full_slot x))

  pub advance_full :
      (s : Ptr)
      → j ≡ 30
      → advance_tail false x (reload_tail q (some s)) q ≡ done (returned (filled s))
  unfolding advance_tail publish_next
  advance_full s last_slot = rw (
    eq→== q.tail.index q.tail.index refl,
    offset_eq,
    eq→== (j + 1) 31 (omega arith),
    load-eq (record q { tail = record { index = word (word (q.tail.index + 2) + 2); chunk = s } })
        q.tail.chunk end.block.here,
    write_slot-eq (linking s) q.tail.chunk j x (update_self q.heap q.tail.chunk _)
        (Layout-write x end.block.layout h.tail_in).0,
  )

  pub filled-Linked :
      (s : Ptr)
      → j ≡ 30
      → q.tail.index + 4 < 2 ^ 64
      → Spare q s
      → Linked (filled s) l (suc n) i 0 (xs ++ (x ∷ []))
  filled-Linked s last_slot bound spare = record {
    head_at = h.head_at;
    flag = λ _. omega arith;
    tail_at = omega (arith, h.tail_at);
    head_in = h.head_in;
    tail_in = omega arith;
    small = omega arith;
    chain = subst (Chain (filled s).heap s 0 (suc n) q.head.chunk i) regroup (
        end.extend (filled s).heap s (end.after ++ (x ∷ [])) (λ r lt'. same r (omega arith))
          (record {
            chunk = set_slot (record end.block.chunk { next = s }) j (full_slot x);
            here = update_self (linking s).heap q.tail.chunk _;
            link = refl;
            layout =
                subst
                  (λ k.
                    Layout (set end.block.chunk.slots j (full_slot x)) end.start k
                      (end.after ++ (x ∷ [])))
                  full_after (Layout-write x end.block.layout h.tail_in).1;
          })
          spare.later
          (record {
            chunk = new_chunk A;
            here = same s (omega (arith, spare.later)) ∙ spare.here;
            link = refl;
            layout = Layout-new;
          }));
    nonnull = h.nonnull;
    below = spare.below;
  }
    where
      full_after : suc j ≡ 31
      full_after = omega (arith, last_slot)

      same : (r : Ptr) → q.tail.chunk ≢ r → (filled s).heap r ≡ q.heap r
      same r ne =
          update_ne (linking s).heap q.tail.chunk _ r ne ∙ update_ne q.heap q.tail.chunk _ r ne
