-- ===== src/Base/Lists.antt =====
-- Lists measured and indexed by native numbers, under the library's names.
use Prim.Native.Nat.{ℕ, zero, suc, ◌+◌, ◌<◌}
use mathlib.Core.Path.{◌≡◌, refl, ap}
use mathlib.Core.Logic.{◌≢◌}
use mathlib.Core.List.{List, [], ◌∷◌, ◌++◌}
use mathlib.Core.Option.{Option, none, some}
use native.Mathlib.Omega.{arith}

module _ {ℓ} {A : Type ℓ} where
  abbrev pub length : List A → ℕ
  length [] = 0
  length (x ∷ xs) = suc (length xs)

  abbrev pub get_elem? : List A → ℕ → Option A
  get_elem? [] i = none
  get_elem? (x ∷ xs) zero = some x
  get_elem? (x ∷ xs) (suc i) = get_elem? xs i

  -- A write out of bounds changes nothing.
  abbrev pub set : List A → ℕ → A → List A
  set [] i v = []
  set (x ∷ xs) zero v = v ∷ xs
  set (x ∷ xs) (suc i) v = x ∷ set xs i v

  abbrev pub replicate : ℕ → A → List A
  replicate zero a = []
  replicate (suc n) a = a ∷ replicate n a

  -- A predicate at every element of a list.
  abbrev pub All {κ} : (A → Type κ) → List A → Type κ
  All P [] = Unit
  All P (x ∷ xs) = P x × All P xs

module _ {ℓ} {A : Type ℓ} where
  pub length-append : (xs ys : List A) → length (xs ++ ys) ≡ length xs + length ys
  length-append [] ys = omega arith
  length-append (x ∷ xs) ys = omega (arith, length-append xs ys)

  pub All-append {κ} : (P : A → Type κ) (xs ys : List A) → All P xs → All P ys → All P (xs ++ ys)
  All-append P [] ys hx hy = hy
  All-append P (x ∷ xs) ys hx hy = (hx.0, All-append P xs ys hx.1 hy)

  -- The element that stands behind a prefix, read and written.
  pub get_elem?-append : (xs ys : List A) (y : A) → get_elem? (xs ++ (y ∷ ys)) (length xs) ≡ some y
  get_elem?-append [] ys y = refl
  get_elem?-append (x ∷ xs) ys y = get_elem?-append xs ys y

  pub set-append : (xs ys : List A) (y z : A) → set (xs ++ (y ∷ ys)) (length xs) z ≡ xs ++ (z ∷ ys)
  set-append [] ys y z = refl
  set-append (x ∷ xs) ys y z = ap (λ l. x ∷ l) (set-append xs ys y z)

  pub get_elem?-append_left :
      (xs ys : List A) (n : ℕ) (v : A) → get_elem? xs n ≡ some v → get_elem? (xs ++ ys) n ≡ some v
  get_elem?-append_left [] ys n v e = cc
  get_elem?-append_left (x ∷ xs) ys zero v e = e
  get_elem?-append_left (x ∷ xs) ys (suc n) v e = get_elem?-append_left xs ys n v e

  pub get_elem?-of_lt : (xs : List A) (n : ℕ) → n < length xs → (v : A) × (get_elem? xs n ≡ some v)
  get_elem?-of_lt [] n h = absurd (omega arith)
  get_elem?-of_lt (x ∷ xs) zero h = (x, refl)
  get_elem?-of_lt (x ∷ xs) (suc n) h = get_elem?-of_lt xs n (omega arith)

  pub get_elem?-set_self :
      (xs : List A) (n : ℕ) (v : A) → n < length xs → get_elem? (set xs n v) n ≡ some v
  get_elem?-set_self [] n v h = absurd (omega arith)
  get_elem?-set_self (x ∷ xs) zero v h = refl
  get_elem?-set_self (x ∷ xs) (suc n) v h = get_elem?-set_self xs n v (omega arith)

  pub get_elem?-set_ne :
      (xs : List A) (n : ℕ) (v : A) (m : ℕ) → n ≢ m → get_elem? (set xs n v) m ≡ get_elem? xs m
  get_elem?-set_ne [] n v m h = refl
  get_elem?-set_ne (x ∷ xs) zero v zero h = absurd (h refl)
  get_elem?-set_ne (x ∷ xs) zero v (suc m) h = refl
  get_elem?-set_ne (x ∷ xs) (suc n) v zero h = refl
  get_elem?-set_ne (x ∷ xs) (suc n) v (suc m) h = get_elem?-set_ne xs n v m (λ e. h (ap suc e))

  pub length-set : (xs : List A) (n : ℕ) (v : A) → length (set xs n v) ≡ length xs
  length-set [] n v = refl
  length-set (x ∷ xs) zero v = refl
  length-set (x ∷ xs) (suc n) v = ap suc (length-set xs n v)

  pub length-replicate : (n : ℕ) (a : A) → length (replicate n a) ≡ n
  length-replicate zero a = refl
  length-replicate (suc n) a = ap suc (length-replicate n a)

  pub get_elem?-replicate :
      (n : ℕ) (a : A) (m : ℕ) (v : A) → get_elem? (replicate n a) m ≡ some v → v ≡ a
  get_elem?-replicate zero a m v e = cc
  get_elem?-replicate (suc n) a zero v e = cc
  get_elem?-replicate (suc n) a (suc m) v e = get_elem?-replicate n a m v e

  pub get_elem?-set-some :
      (xs : List A) (n m : ℕ) (v t : A) → n ≡ m → get_elem? (set xs n v) m ≡ some t → v ≡ t
  get_elem?-set-some [] n m v t same e = cc
  get_elem?-set-some (x ∷ xs) zero zero v t same e = cc
  get_elem?-set-some (x ∷ xs) zero (suc m) v t same e = absurd (omega arith)
  get_elem?-set-some (x ∷ xs) (suc n) zero v t same e = absurd (omega arith)
  get_elem?-set-some (x ∷ xs) (suc n) (suc m) v t same e =
      get_elem?-set-some xs n m v t (omega arith) e
