-- ===== src/ObjEnv.antt =====
-- objenv.c and objenv.h: a vector of values that grows, with the number of entries in use; and
-- stack.c, the stack of the interpreter, which is one. `used` stands for the integer that the
-- field holds tagged. `none` is a failed assertion or a write outside the vector. The collector
-- is not modelled: a vector is a list. Tagging cuts no count, since a vector is far shorter.
pub mod Reserve
pub mod Growth
pub mod Refine
use mudlle.Prelude.{
  ℕ, zero, suc, ◌+◌, ◌-◌, ◌*◌, ◌%◌, ◌^◌, ◌<◌, Bool, true, false, Option, some, none, List, [], ◌∷◌,
  ◌++◌, ltb, leb, ◌==◌, if◌then◌else◌, ◌>>=◌, ◌>>◌, guard, length, get_or, get_elem?, set, take,
  drop, replicate,
}
use mudlle.Alloc.{alloc_vector}
use mudlle.Error.{Result, raised, returned, stack_underflow}

pub record ObjEnv (V : Type 0) : Type 0 where
  pub used : ℕ
  pub values : List V

-- `memcpy` of the first `n` elements.
abbrev pub memcpy {ℓ} : {V : Type ℓ} → (dest src : List V) → ℕ → List V
memcpy dest src n = take n src ++ drop n dest

-- A write to the data of a vector, as `env->values->data[used] = v`.
abbrev pub store {ℓ} : {V : Type ℓ} → List V → ℕ → V → Option (List V)
store values i v = if ltb i (length values) then some (set values i v) else none

-- `null` is the null pointer, which a new vector is full of. A ulong has 64 bits.
module _ {V : Type 0} (null : V) where
  unfoldable pub alloc_env : ℕ → Option (ObjEnv V)
  unfolding alloc_vector
  alloc_env size = do v ← alloc_vector null size; some (record { used = 0; values = v })

  unfoldable pub env_reserve : ObjEnv V → ℕ → Option (ObjEnv V)
  unfolding alloc_vector
  env_reserve env n =
      let size = length env.values in
      let newsize = (2 * size + n) % 2 ^ 64 in
      let grown = alloc_vector null newsize >>= λ newp.
      some (record env { values = memcpy newp env.values size }) in
      if ltb size ((env.used + n) % 2 ^ 64) then grown else some env

  unfoldable pub env_grow_and_add_entry : ObjEnv V → V → Option (ℕ × ObjEnv V)
  unfolding env_reserve
  env_grow_and_add_entry env v = do
    room ← env_reserve env 1
    values ← store room.values env.used v
    some (env.used, record { used = room.used + 1; values = values })

  unfoldable pub env_make_room : ObjEnv V → ℕ → Option (ObjEnv V)
  unfolding env_reserve
  env_make_room env n = do room ← env_reserve env n; some (record room { used = room.used + n })

  unfoldable pub env_add_entry : ObjEnv V → V → Option (ℕ × ObjEnv V)
  env_add_entry env v =
      if leb (length env.values) env.used
      then env_grow_and_add_entry env v
      else some (env.used, record { used = env.used + 1; values = set env.values env.used v })

  abbrev pub initial_stack : ℕ
  initial_stack = 256

  abbrev pub large_stack : ℕ
  large_stack = 1024

  -- The stack is NULL before `stack_init`.
  unfoldable pub stack_clear : Option (ObjEnv V) → Option (ObjEnv V)
  unfolding alloc_env
  stack_clear none = alloc_env initial_stack
  stack_clear (some stack) = do
    guard (stack.used == 0)
    if ltb large_stack (length stack.values) then alloc_env initial_stack else some stack

  -- `stack->values->data[used - idx - 1]`; the index is in range where it is read.
  unfoldable pub stack_pop : ObjEnv V → Result (V × ObjEnv V)
  stack_pop stack =
      if stack.used == 0
      then raised stack_underflow
      else returned
          (get_or stack.values (stack.used - 1) null, record stack { used = stack.used - 1 })

  unfoldable pub stack_push : ObjEnv V → V → Option (ObjEnv V)
  stack_push stack v = do added ← env_add_entry stack v; some added.1

  unfoldable pub stack_get : ObjEnv V → ℕ → Result V
  stack_get stack idx =
      if leb stack.used idx
      then raised stack_underflow
      else returned (get_or stack.values (stack.used - idx - 1) null)

  unfoldable pub stack_set : ObjEnv V → ℕ → V → Result (ObjEnv V)
  stack_set stack idx v =
      if leb stack.used idx
      then raised stack_underflow
      else returned (record stack { values = set stack.values (stack.used - idx - 1) v })

  abbrev pub stack_depth : ObjEnv V → ℕ
  stack_depth stack = stack.used
