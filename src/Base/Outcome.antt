-- ===== src/Base/Outcome.antt =====
-- What a call comes to when one thread runs it: a result, undefined behaviour or a panic, or a
-- loop that has not been left yet.
pub data Outcome {ℓ} (A : Type ℓ) : Type ℓ where
  done : A → Outcome A
  -- a null or dangling pointer, a read of memory that holds no value, an `unwrap` of `None`
  fault : Outcome A
  -- the loop waits for another thread, or for a weak compare-exchange to succeed
  spinning : Outcome A

infixl 5 ◌>>=◌ ◌>>◌
abbrev pub ◌>>=◌ {ℓ κ} : {A : Type ℓ} {B : Type κ} → Outcome A → (A → Outcome B) → Outcome B
done a >>= f = f a
fault >>= f = fault
spinning >>= f = spinning

abbrev pub ◌>>◌ {ℓ} : {B : Type ℓ} → Outcome (Unit {0}) → Outcome B → Outcome B
m >> k = m >>= λ _. k
