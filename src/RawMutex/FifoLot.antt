-- ===== src/RawMutex/FifoLot.antt =====
-- A parking lot that meets the laws of `ParkingLot`: a list of threads, the first of which is woken first.
use co_queue.Base.{
  ℕ, ◌≡◌, refl, Bool, true, false, not, ◌&&◌, ◌||◌, Option, none, some, List, [], ◌∷◌, ◌==◌,
  if◌then◌else◌, arith,
}
use co_queue.RawMutex.{ParkingLot}

abbrev pub contains : List ℕ → ℕ → Bool
contains [] u = false
contains (t ∷ q) u = t == u || contains q u

abbrev pub without : ℕ → List ℕ → List ℕ
without t [] = []
without t (u ∷ q) = let rest = without t q in if t == u then rest else u ∷ rest

abbrev pub is_cons : List ℕ → Bool
is_cons [] = false
is_cons (_ ∷ _) = true

abbrev pub take_first : List ℕ → Option (ℕ × List ℕ × Bool)
take_first [] = none
take_first (t ∷ q) = some (t, without t q, is_cons (without t q))

abbrev pub append : ℕ → List ℕ → List ℕ
append t [] = t ∷ []
append t (u ∷ q) = u ∷ append t q

pub contains-append :
    (t : ℕ) (q : List ℕ) (u : ℕ) → contains (append t q) u ≡ (t == u || contains q u)
contains-append t [] u = refl
contains-append t (v ∷ q) u = ground (arith, contains-append t q u)

pub contains-without :
    (t : ℕ) (q : List ℕ) (u : ℕ) → contains (without t q) u ≡ (not (t == u) && contains q u)
contains-without t [] u = ground arith
contains-without t (v ∷ q) u = ground (arith, contains-without t q u)

pub take_first-none : (q : List ℕ) → take_first q ≡ none → (u : ℕ) → contains q u ≡ false
take_first-none [] e u = refl
take_first-none (t ∷ q) e u = cc

pub take_first-waits :
    (q : List ℕ) (t : ℕ) (q' : List ℕ) (more : Bool)
    → take_first q ≡ some (t, q', more)
    → contains q t ≡ true
take_first-waits [] t q' more e = cc
take_first-waits (v ∷ q) t q' more e = ground arith

pub take_first-rest :
    (q : List ℕ) (t : ℕ) (q' : List ℕ) (more : Bool)
    → take_first q ≡ some (t, q', more)
    → (u : ℕ) → contains q' u ≡ (not (t == u) && contains q u)
take_first-rest [] t q' more e u = cc
take_first-rest (v ∷ q) t q' more e u = ground (arith, contains-without v q u)

pub take_first-last :
    (q : List ℕ) (t : ℕ) (q' : List ℕ)
    → take_first q ≡ some (t, q', false)
    → (u : ℕ) → contains q' u ≡ false
take_first-last q t [] e u = refl
take_first-last [] t (w ∷ q') e u = cc
take_first-last (v ∷ q) t (w ∷ q') e u = ground arith

abbrev pub fifo_lot : ParkingLot
fifo_lot = record {
  Lot = List ℕ;
  empty = [];
  park = append;
  unpark_one = take_first;
  waits = contains;
  waits-empty = λ t. refl;
  waits-park = contains-append;
  unpark-none = take_first-none;
  unpark-waits = take_first-waits;
  unpark-rest = take_first-rest;
  unpark-last = take_first-last;
}
