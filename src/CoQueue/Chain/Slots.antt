-- ===== src/CoQueue/Chain/Slots.antt =====
-- The slots of a chunk: read, then full, then empty.
use co_queue.Base.{
  ℕ, suc, ◌+◌, ◌-◌, ◌<◌, ◌≡◌, refl, sym, ap, ◌∙◌, true, false, some, List, [], ◌∷◌, ◌++◌, map,
  append_assoc, arith, length, get_elem?, set, replicate, All, length-append, All-append,
  get_elem?-append, set-append,
}
use mathlib.Core.List.{map-append}
use co_queue.CoQueue.Chunk.{chunk_cap, Slot, empty_slot, full_slot}

-- Slots `0..i` were read, slots `i..j` hold `xs`, and the rest is empty.
pub record Layout {ℓ} {A : Type ℓ} (slots : List (Slot A)) (i j : ℕ) (xs : List A) : Type ℓ where
  pub past : List (Slot A)
  pub room : ℕ
  pub shape : slots ≡ past ++ (map full_slot xs ++ replicate room (empty_slot A))
  pub start : length past ≡ i
  pub finish : i + length xs ≡ j
  pub total : j + room ≡ chunk_cap
  pub past_read : All (λ s. s.read ≡ true) past

-- A slot after `pop` has read it.
abbrev pub read_slot {ℓ} : {A : Type ℓ} → A → Slot A
read_slot x = record { value = some x; write = true; read = true; destroy = false }

module _ {ℓ} {A : Type ℓ} where
  length-map-full : (xs : List A) → length (map full_slot xs) ≡ length xs
  length-map-full [] = refl
  length-map-full (x ∷ xs) = omega (arith, length-map-full xs)

  pub Layout-new : Layout (replicate chunk_cap (empty_slot A)) 0 0 []
  Layout-new = record {
    past = [];
    room = 31;
    shape = refl;
    start = refl;
    finish = refl;
    total = refl;
    past_read = tt;
  }

  -- The slot at `j` is empty, and writing a value to it extends the values by one.
  pub Layout-write :
      {slots : List (Slot A)} {i j : ℕ} {xs : List A} (x : A)
      → Layout slots i j xs
      → j < chunk_cap
      → (get_elem? slots j ≡ some (empty_slot A))
        × Layout (set slots j (full_slot x)) i (suc j) (xs ++ (x ∷ []))
  Layout-write {slots} {i} {j} {xs} x l lt = (
    rw (shape', at) (get_elem?-append front rest (empty_slot A)),
    record {
      past = l.past;
      room = l.room - 1;
      shape =
          rw (shape', at, set-append front rest (empty_slot A) (full_slot x))
            (simp (append_assoc, map-append));
      start = l.start;
      finish = omega (arith, l.finish, length-append xs (x ∷ []));
      total = omega (arith, l.total);
      past_read = l.past_read;
    },
  )
    where
      front : List (Slot A)
      front = l.past ++ map full_slot xs

      rest : List (Slot A)
      rest = replicate (l.room - 1) (empty_slot A)

      some_room : l.room ≡ suc (l.room - 1)
      some_room = omega (arith, l.total)

      shape' : slots ≡ front ++ (empty_slot A ∷ rest)
      shape' =
          l.shape
          ∙ ap (λ k. l.past ++ (map full_slot xs ++ replicate k (empty_slot A))) some_room
          ∙ sym (append_assoc l.past (map full_slot xs) (empty_slot A ∷ rest))

      at : j ≡ length front
      at =
          omega
            (arith, l.start, l.finish, length-append l.past (map full_slot xs), length-map-full xs)

  -- The slot at `i` holds the first value, and marking it as read takes that value off.
  pub Layout-read :
      {slots : List (Slot A)} {i j : ℕ} {x : A} {xs : List A}
      → Layout slots i j (x ∷ xs)
      → (get_elem? slots i ≡ some (full_slot x)) × Layout (set slots i (read_slot x)) (suc i) j xs
  Layout-read {slots} {i} {j} {x} {xs} l = (
    rw (l.shape, ← l.start) (get_elem?-append l.past _ (full_slot x)),
    record {
      past = l.past ++ (read_slot x ∷ []);
      room = l.room;
      shape =
          rw (l.shape, ← l.start, set-append l.past _ (full_slot x) (read_slot x))
            (simp append_assoc);
      start = omega (arith, l.start, length-append l.past (read_slot x ∷ []));
      finish = omega (arith, l.finish);
      total = l.total;
      past_read = All-append _ l.past _ l.past_read (refl, tt);
    },
  )
