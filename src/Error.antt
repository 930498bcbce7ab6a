-- ===== src/Error.antt =====
-- error.h: the runtime errors, and the outcome of a primitive that may raise one. `error_none`, -1,
-- is the outcome `returned`.
use mudlle.Prelude.{Bool, if◌then◌else◌}

pub data RuntimeError : Type 0 where
  bad_function stack_underflow bad_type divide_by_zero bad_index bad_value : RuntimeError
  variable_read_only loop recurse wrong_parameters security_violation value_read_only : RuntimeError
  user_interrupt no_match compile_error abort : RuntimeError

-- A primitive returns to its caller or raises an error.
pub data Result {ℓ} (A : Type ℓ) : Type ℓ where
  raised : RuntimeError → Result A
  returned : A → Result A

infixl 5 ◌>>=◌ ◌>>◌
abbrev pub ◌>>=◌ {ℓ} : {A B : Type ℓ} → Result A → (A → Result B) → Result B
prim >>= continue = elim prim [ raised error ↦ raised error | returned value ↦ continue value ]

abbrev pub ◌>>◌ : {B : Type 0} → Result (Unit {0}) → Result B → Result B
check >> body = check >>= λ _. body

-- `if (!holds) RUNTIME_ERROR(error)`
abbrev pub require : Bool → RuntimeError → Result (Unit {0})
require holds error = if holds then returned tt else raised error
