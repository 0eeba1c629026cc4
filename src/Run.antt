-- ===== src/Run.antt =====
-- The outcome of an operation. `thrown` is an exception of the standard library, `fault` an
-- access outside of the mapping (a segmentation fault), and `stuck` a loop that has used up its fuel.
use bitprim_database.Prelude.{◌≡◌}

pub data Run {ℓ} (Result : Type ℓ) : Type ℓ where
  ok : Result → Run Result
  thrown fault stuck : Run Result

-- Total correctness: the operation has a result, and `Post` holds of it.
abbrev pub Returns {ℓ κ} : {Result : Type ℓ} → Run Result → (Result → Type κ) → Type (ℓ ⊔ κ)
Returns {Result} run Post = (result : Result) × (run ≡ ok result) × Post result

-- What follows on a result; all else ends the operation.
infixl 5 ◌>>=◌
abbrev pub ◌>>=◌ {ℓ κ} :
    {Result : Type ℓ} {Final : Type κ} → Run Result → (Result → Run Final) → Run Final
ok result >>= continue = continue result
thrown >>= continue = thrown
fault >>= continue = fault
stuck >>= continue = stuck
