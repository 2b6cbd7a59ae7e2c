-- ===== src/OwnRef/Exchange.antt =====
-- The exchanges of `Atomic` in src/queue/own_ref.rs, made by several callers.
use co_queue.Base.{◌≡◌, ◌≢◌, refl, List, [], ◌∷◌, map, eq→==, ne→==}
use co_queue.OwnRef.Words.{Shared, Atomic}
use co_queue.OwnRef.Atomic.{Exchanged, ok, err, compare_set}

-- Callers that have all loaded `curr` exchange it, one after the other, each for its own pointer.
unfoldable pub race : Atomic → (curr : Shared) → List Shared → Atomic × List Exchanged
race a curr [] = (a, [])
race a curr (new ∷ news) =
    let (a₁, r) = compare_set a curr new in let (a₂, rs) = race a₁ curr news in (a₂, r ∷ rs)

-- No exchange succeeds while the cell holds another word.
pub race_lost :
    (a : Atomic) (curr : Shared) (news : List Shared)
    → a.word ≢ curr.word
    → race a curr news ≡ (a, map err news)
unfolding race compare_set
race_lost a curr [] differs = refl
race_lost a curr (new ∷ news) differs =
    rw (ne→== a.word curr.word differs, race_lost a curr news differs)

-- If the cell holds what they loaded, the first caller succeeds, and the others fail and change nothing,
-- provided that the first does not put the same word back.
pub race_won :
    (a : Atomic) (curr new : Shared) (news : List Shared)
    → a.word ≡ curr.word
    → new.word ≢ curr.word
    → race a curr (new ∷ news) ≡ (record { word = new.word }, ok curr ∷ map err news)
unfolding race compare_set
race_won a curr new news same fresh =
    rw (eq→== a.word curr.word same, race_lost (record { word = new.word }) curr news fresh)
