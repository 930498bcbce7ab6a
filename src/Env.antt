-- ===== src/Env.antt =====
-- env.c: the compiler's environments. The stack holds the functions that are being compiled, the
-- innermost first; the pointer `prev` of a function leads to the functions before it in the list. A
-- function has its scopes, the innermost first, and the variables that its closure takes from the
-- function around it. The stores to a `uint16_t` wrap around at 65536. A null
-- `env_stack` and a failed assertion are `none`. Global variables are those of global.c, here a
-- parameter.
pub mod Names
pub mod Scopes
pub mod Closure
pub mod Resolve
pub mod Blocks
use mudlle.Prelude.{
  ℕ, zero, suc, ◌+◌, ◌-◌, ◌%◌, List, [], ◌∷◌, Bool, true, false, ◌&&◌, ◌||◌, not, Option, none,
  some, ◌>>=◌, ◌>>◌, guard, ltb, leb, ◌==◌, if◌then◌else◌, length,
}

pub data VariableClass : Type 0 where
  local closure global : VariableClass

-- A variable of a function: one of its locals, or an entry of its closure, by number.
pub record VarRef : Type 0 where
  pub vclass : VariableClass
  pub offset : ℕ

-- A variable in a `vlist`.
pub record Var : Type 0 where
  pub var : List ℕ
  pub was_read : Bool
  pub was_written : Bool

-- `struct locals_list`
pub record Scope : Type 0 where
  pub index : ℕ
  pub locals : List Var
  pub statics : Bool

-- `struct env_stack`. `cleared` is the operands of the `op_clear_local` instructions that have been
-- emitted into the function, the last first.
pub record Env : Type 0 where
  pub locals : List Scope
  pub size : ℕ
  pub max_size : ℕ
  pub loop_depth : ℕ
  pub closure_vars : List VarRef
  pub cleared : List ℕ

abbrev pub max_local_vars : ℕ
max_local_vars = 4096

unfoldable pub env_push : List Var → List Env → List Env
env_push vars stack =
    let fresh : Env = record {
      locals = elim vars [
        | [] ↦ []
        | v ∷ vs ↦ record { index = 0; locals = v ∷ vs; statics = false } ∷ []
      ];
      size = length vars % 65536;
      max_size = length vars % 65536;
      loop_depth = 0;
      closure_vars = [];
      cleared = [];
    } in
    fresh ∷ stack

-- The closure of the function, its number of locals, and the stack without it.
unfoldable pub env_pop : List Env → Option (List VarRef × ℕ × List Env)
env_pop [] = none
env_pop (env ∷ stack) = some (env.closure_vars, env.max_size, stack)

-- `for (i = from; i < last_set; i++) ins1(op_clear_local, i, fn)` in so many rounds.
unfoldable pub clear_locals : ℕ → ℕ → List ℕ → Option (List ℕ)
clear_locals zero i cleared = some cleared
clear_locals (suc rounds) i cleared = do
  guard (leb i 255)
  clear_locals rounds (i + 1) (i ∷ cleared)

-- The first result is false if the function has too many locals.
unfoldable pub env_block_push : List Var → Bool → Env → Option (Bool × Env)
unfolding clear_locals
env_block_push vars statics env =
    let scope : Scope = record { index = env.size; locals = vars; statics = statics } in
    let opened = record env { locals = scope ∷ env.locals } in
    let nsize = env.size + length vars in
    let last_set =
      if ltb env.max_size nsize
      then (if env.loop_depth == 0 then env.max_size else nsize)
      else nsize in
    if ltb max_local_vars nsize then some (false, opened) else do
      cleared ← clear_locals (last_set - env.size) env.size env.cleared
      some (
        true,
        record opened {
          size = nsize;
          max_size = if ltb env.max_size nsize then nsize else env.max_size;
          cleared = cleared;
        },
      )

unfoldable pub env_block_pop : Env → Option Env
env_block_pop env = elim env.locals [ [] ↦ none | s ∷ ss ↦ some (record env { locals = ss }) ]

unfoldable pub env_start_loop : Env → Env
env_start_loop env = record env { loop_depth = (env.loop_depth + 1) % 65536 }

unfoldable pub env_end_loop : Env → Env
env_end_loop env = record env { loop_depth = (env.loop_depth + 65535) % 65536 }

abbrev pub class_eq : VariableClass → VariableClass → Bool
class_eq local local = true
class_eq closure closure = true
class_eq global global = true
class_eq _ _ = false

abbrev pub ref_eq : VarRef → VarRef → Bool
ref_eq a b = class_eq a.vclass b.vclass && a.offset == b.offset

-- The loop of `env_close` over a closure: the position of the variable, at the end if it is new.
unfoldable pub add_to_closure : VarRef → List VarRef → ℕ → List VarRef × ℕ
add_to_closure r [] coffset = (r ∷ [], coffset)
add_to_closure r (v ∷ vars) coffset =
    let (vars', found) = add_to_closure r vars (coffset + 1) in
    if ref_eq r v then (v ∷ vars, coffset) else (v ∷ vars', found)

-- `env_close` over the functions inside the one that has the variable, from the outermost on: each
-- closure takes the variable, under its name in the function around it. What comes back is those
-- functions, in the order of the stack, before `done`.
unfoldable pub env_close : List Env → VarRef → List Env → List Env × VarRef
unfolding add_to_closure
env_close [] r done = (done, r)
env_close (env ∷ subenvs) r done =
    let (vars, coffset) = add_to_closure r env.closure_vars 0 in
    env_close subenvs (record { vclass = closure; offset = coffset })
      (record env { closure_vars = vars } ∷ done)

-- The C library's `strcasecmp (a, b) == 0` in the C locale.
abbrev pub ascii_lower : ℕ → ℕ
ascii_lower c = if leb 65 c && leb c 90 then c + 32 else c

unfoldable pub strcase_eq : List ℕ → List ℕ → Bool
strcase_eq [] [] = true
strcase_eq [] (d ∷ b) = false
strcase_eq (c ∷ a) [] = false
strcase_eq (c ∷ a) (d ∷ b) = ascii_lower c == ascii_lower d && strcase_eq a b

-- The variable of a scope, marked as it is used, and its position.
unfoldable pub find_var : List ℕ → Bool → Bool → List Var → ℕ → Option (List Var × ℕ)
unfolding strcase_eq
find_var name do_read do_write [] pos = none
find_var name do_read do_write (v ∷ vars) pos =
    let rest = find_var name do_read do_write vars (pos + 1) in
    let marked : Var = record {
      var = v.var;
      was_read = do_read || v.was_read;
      was_written = do_write || v.was_written;
    } in
    if strcase_eq name v.var
    then some (marked ∷ vars, pos)
    else elim rest [ none ↦ none | some (vars', p) ↦ some (v ∷ vars', p) ]

-- The innermost scope that has the variable; a user variable is looked for in static scopes only.
unfoldable pub find_scope :
    List ℕ → Bool → Bool → Bool → List Scope → Option (List Scope × ℕ × Bool)
unfolding find_var
find_scope name is_user do_read do_write [] = none
find_scope name is_user do_read do_write (scope ∷ scopes) =
    let rest : Option (List Scope × ℕ × Bool) =
      elim (find_scope name is_user do_read do_write scopes) [
        | none ↦ none
        | some (scopes', pos, statics) ↦ some (scope ∷ scopes', pos, statics)
      ] in
    if is_user && not scope.statics
    then rest
    else elim (find_var name do_read do_write scope.locals scope.index) [
      | some (vars, pos) ↦ some (record scope { locals = vars } ∷ scopes, pos, scope.statics)
      | none ↦ rest
    ]

-- The loop of `env_lookup` over the functions, those that it has passed the nearest first.
unfoldable pub env_search :
    List ℕ → Bool → Bool → Bool → List Env → List Env → Option (VarRef × Bool × List Env)
unfolding find_scope env_close
env_search name is_user do_read do_write passed [] = none
env_search name is_user do_read do_write passed (env ∷ stack) =
    let rest = env_search name is_user do_read do_write (env ∷ passed) stack in
    elim (find_scope name is_user do_read do_write env.locals) [
      | some (scopes, pos, statics) ↦
          let (stack', r) =
            env_close passed (record { vclass = local; offset = pos })
              (record env { locals = scopes } ∷ stack) in
          some (r, statics, stack')
      | none ↦ rest
    ]

abbrev pub starts_with : ℕ → List ℕ → Bool
starts_with c [] = false
starts_with c (d ∷ name) = c == d

abbrev pub rest_of : List ℕ → List ℕ
rest_of [] = []
rest_of (c ∷ name) = name

-- A name that starts with a colon is global, and one that starts with a dollar sign must be found.
-- `globals` is the state of global.c, and `global_lookup` its function. The result is the variable,
-- `is_static`, the stack and the state.
unfoldable pub env_lookup {ℓ} :
    {G : Type ℓ}
    → (List ℕ → G → ℕ × G)
    → List ℕ
    → Bool
    → Bool
    → List Env
    → G
    → Option (VarRef × Bool × List Env × G)
unfolding env_search
env_lookup global_lookup name do_read do_write stack globals =
    let is_user = starts_with 36 name in
    if starts_with 58 name
    then (let (offset, globals') = global_lookup (rest_of name) globals in
        some (record { vclass = global; offset = offset }, false, stack, globals'))
    else elim (env_search name is_user do_read do_write [] stack) [
      | some (r, statics, stack') ↦ some (r, statics, stack', globals)
      | none ↦
          let (offset, globals') = global_lookup name globals in
          if is_user
          then none
          else some (record { vclass = global; offset = offset }, false, stack, globals')
    ]
