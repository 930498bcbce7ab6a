-- ===== src/Tests/EnvRuns.antt =====
-- env.c at concrete functions.
use mudlle.Prelude.{
  ℕ, ◌+◌, ◌≤◌, ◌<◌, ◌≡◌, ◌↔◌, refl, List, [], ◌∷◌, Bool, true, false, none, some, Each, ◌⊎◌, arith,
}
use mudlle.Env.{
  Var, VarRef, Scope, Env, local, closure, max_local_vars, env_block_push, env_lookup, starts_with,
}
use mudlle.Env.Resolve.{Lacks, Outcome, env_lookup-Outcome}
use mudlle.Env.Blocks.{Entered, stale, env_block_push-Entered, env_block_push-none_iff}

abbrev named : List ℕ → Bool → Var
named name read = record { var = name; was_read = read; was_written = false }

-- The locals "y" and "X".
abbrev scopes : Bool → List Scope
scopes read =
    record {
      index = 0;
      locals = named (121 ∷ []) false ∷ named (88 ∷ []) read ∷ [];
      statics = false;
    }
    ∷ []

abbrev function : List Scope → ℕ → List VarRef → Env
function scopes size vars = record {
  locals = scopes;
  size = size;
  max_size = size;
  loop_depth = 0;
  closure_vars = vars;
  cleared = [];
}

-- A function without variables inside a function with two, before and after "x" has been read.
abbrev nested : List Env
nested = function [] 0 [] ∷ function (scopes false) 2 [] ∷ []

abbrev nested' : List Env
nested' =
    function [] 0 (record { vclass = local; offset = 1 } ∷ []) ∷ function (scopes true) 2 [] ∷ []

abbrev count_globals : List ℕ → ℕ → ℕ × ℕ
count_globals name g = (g, g + 1)

abbrev captured : VarRef
captured = record { vclass = closure; offset = 0 }

env_lookup-Outcome_example :
    ((res : VarRef × Bool × List Env × ℕ) × (env_lookup count_globals (120 ∷ []) true false nested 5
        ≡ some res)
      × Outcome count_globals (120 ∷ []) true false nested 5 res)
    ⊎ ((env_lookup count_globals (120 ∷ []) true false nested 5 ≡ none)
        × (starts_with 36 (120 ∷ []) ≡ true)
        × Each nested (Lacks (120 ∷ []) false true false))
env_lookup-Outcome_example = env_lookup-Outcome count_globals (120 ∷ []) true false nested 5 refl

looked_up :
    env_lookup count_globals (120 ∷ []) true false nested 5 ≡ some (captured, false, nested', 5)
unfolding env_lookup
looked_up = refl

-- A block of two variables in a function that has used three.
abbrev used : Env
used = record (function [] 1 []) { max_size = 3 }

abbrev block : List Var
block = named (97 ∷ []) false ∷ named (98 ∷ []) false ∷ []

abbrev entered : Env
entered = record used {
  locals = record { index = 1; locals = block; statics = false } ∷ [];
  size = 3;
  cleared = 2 ∷ 1 ∷ [];
}

env_block_push-Entered_example : Entered block false used entered
unfolding env_block_push
env_block_push-Entered_example = env_block_push-Entered block false used entered (omega arith) refl

-- A block in a loop of a function that has 300 variables.
abbrev looping : Env
looping = record (function [] 300 []) { loop_depth = 1 }

env_block_push-none_iff_example :
    (env_block_push block false looping ≡ none)
    ↔ (302 ≤ max_local_vars) × ((i : ℕ) × (255 < i) × (stale looping 302 i ≡ true))
env_block_push-none_iff_example = env_block_push-none_iff block false looping
