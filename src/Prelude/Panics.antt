-- ===== src/Prelude/Panics.antt =====
-- Results of code that can stop abnormally: an index out of range, a failed `unwrap` or `expect`,
-- an `unreachable!`, or a debug assertion.
use mathlib.Core.Bool.{Bool, true, false}
use mathlib.Core.Option.{Option, none, some}

pub data Run {ℓ} (A : Type ℓ) : Type ℓ where
  done : A → Run A
  panic : Run A

infixl 5 ◌>>=◌ ◌>>◌
abbrev pub ◌>>=◌ {ℓ κ} : {A : Type ℓ} {B : Type κ} → Run A → (A → Run B) → Run B
done a >>= f = f a
panic >>= f = panic

abbrev pub ◌>>◌ {ℓ} : {B : Type ℓ} → Run (Unit {0}) → Run B → Run B
m >> k = m >>= λ _. k

-- `unwrap`, `expect`, and an index that is checked.
abbrev pub unwrap {ℓ} : {A : Type ℓ} → Option A → Run A
unwrap none = panic
unwrap (some a) = done a

abbrev pub check : Bool → Run (Unit {0})
check true = done tt
check false = panic

abbrev pub run_map {ℓ κ} : {A : Type ℓ} {B : Type κ} → (A → B) → Run A → Run B
run_map f (done a) = done (f a)
run_map f panic = panic
