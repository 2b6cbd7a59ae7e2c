-- ===== src/OwnRef/Examples.antt =====
-- Instances of the theorems about src/queue/own_ref.rs, for a type of alignment 8.
use Prim.Native.Nat.{bit_and}
use co_queue.Base.{◌≢◌, ℕ, ◌%◌, ◌^◌, ◌≡◌, ◌≢◌, ◌↔◌, refl, true, none, some, [], ◌∷◌, update, arith}
use co_queue.Base.Outcome.{done, fault}
use co_queue.OwnRef.{low_bits, data_with_tag, decompose_data, ensure_aligned}
use co_queue.OwnRef.Words.{Boxes}
use co_queue.OwnRef.Owned
use co_queue.OwnRef.Atomic.{ok, err}
use co_queue.OwnRef.Tags.{decompose_data-data_with_tag, ensure_aligned_iff}
use co_queue.OwnRef.Lifecycle.{lifecycle, lifecycle_lem, deref-deref_mut, deref_mut-data_with_tag}
use co_queue.OwnRef.Exchange.{race, race_won}

decompose_data-data_with_tag_example :
    (decompose_data 3 (data_with_tag 3 4098 13) ≡ decompose_data 3 4098)
    × (bit_and (data_with_tag 3 4098 13) (low_bits 3) ≡ 5)
decompose_data-data_with_tag_example =
    decompose_data-data_with_tag 3 (omega arith) 4098 13 (omega arith)

ensure_aligned_iff_example : (ensure_aligned 3 4096 ≡ done tt) ↔ (decompose_data 3 4096 ≡ 4096)
ensure_aligned_iff_example = ensure_aligned_iff 3 (omega arith) 4096 (omega arith)

abbrev no_boxes : Boxes ℕ
no_boxes = λ _. none

-- One box, at 4096.
abbrev one_box : Boxes ℕ
one_box = update no_boxes 4096 (some 7)

lifecycle_lem_example :
    (heap : Boxes ℕ) × (lifecycle true 3 4096 7 no_boxes ≡ done (7, heap))
    × ((r : ℕ) → heap r ≡ none)
lifecycle_lem_example =
    lifecycle_lem true 3 (omega arith) 4096 7 no_boxes (omega arith) (omega arith) refl refl

deref-deref_mut_example :
    (heap : Boxes ℕ) × (Owned.deref_mut one_box (record { word = 4096 }) 9 ≡ done heap)
    × (Owned.deref 3 heap (record { word = 4096 }) ≡ done 9)
    × ((r : ℕ) → r ≢ 4096 → heap r ≡ one_box r)
deref-deref_mut_example = deref-deref_mut 3 (omega arith) 4096 9 7 one_box (omega arith) refl refl

one_box_boxed : (r : ℕ) → r % 2 ^ 3 ≢ 0 → one_box r ≡ none
one_box_boxed r h = ground (arith, h)

deref_mut-data_with_tag_example :
    (Owned.deref 3 one_box (record { word = data_with_tag 3 4096 1 }) ≡ done 7)
    × (Owned.deref_mut one_box (record { word = data_with_tag 3 4096 1 }) 9 ≡ fault)
deref_mut-data_with_tag_example =
    deref_mut-data_with_tag 3 (omega arith) 4096 1 9 7 one_box (omega arith) refl refl (omega arith)
      one_box_boxed

race_won_example :
    race
      (record { word = 8 })
      (record { word = 8 })
      (record { word = 16 } ∷ record { word = 24 } ∷ record { word = 32 } ∷ [])
    ≡ (
      record { word = 16 },
      ok (record { word = 8 }) ∷ err (record { word = 24 }) ∷ err (record { word = 32 }) ∷ [],
    )
race_won_example =
    race_won (record { word = 8 }) (record { word = 8 }) (record { word = 16 })
      (record { word = 24 } ∷ record { word = 32 } ∷ []) refl (omega arith)
