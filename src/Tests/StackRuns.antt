-- ===== src/Tests/StackRuns.antt =====
-- objenv.c and stack.c at concrete inputs.
use mudlle.Prelude.{ℕ, ◌≡◌, ◌⊎◌, none, refl, some, [], ◌∷◌, arith}
use mudlle.Error.{raised, stack_underflow}
use mudlle.ObjEnv.{
  ObjEnv, env_reserve, env_grow_and_add_entry, env_add_entry, env_make_room, stack_clear, stack_pop,
  stack_push,
}
use mudlle.ObjEnv.Reserve.{TooLarge}
use mudlle.ObjEnv.Growth.{Added, Roomy, env_add_entry-Added}
use mudlle.ObjEnv.Refine.{StackOps, stack-StackOps}

-- A full vector of two entries.
abbrev two_full : ObjEnv ℕ
two_full = record { used = 2; values = 7 ∷ 8 ∷ [] }

env_add_entry-Added_example :
    (((r : ObjEnv ℕ) × (env_add_entry 0 two_full 9 ≡ some (2, r)) × Added 0 two_full 9 r)
      ⊎ ((env_add_entry 0 two_full 9 ≡ none) × TooLarge 0 two_full 1))
    × (((r : ObjEnv ℕ) × (env_make_room 0 two_full 3 ≡ some r) × Roomy 0 two_full 3 r)
        ⊎ ((env_make_room 0 two_full 3 ≡ none) × TooLarge 0 two_full 3))
env_add_entry-Added_example =
    env_add_entry-Added 0 two_full 9 3 (omega arith) (omega arith) (omega arith)

stack-StackOps_example : StackOps 0 two_full 9 1
stack-StackOps_example = stack-StackOps 0 two_full 9 1 (omega arith) (omega arith)

pushed : stack_push 0 two_full 9 ≡ some (record { used = 3; values = 7 ∷ 8 ∷ 9 ∷ 0 ∷ 0 ∷ [] })
unfolding stack_push env_add_entry env_grow_and_add_entry env_reserve
pushed = refl

underflow : stack_pop {V = ℕ} 0 (record { used = 0; values = 7 ∷ [] }) ≡ raised stack_underflow
unfolding stack_pop
underflow = refl

cleared :
    stack_clear {V = ℕ} 0 (some (record { used = 0; values = 7 ∷ [] }))
    ≡ some (record { used = 0; values = 7 ∷ [] })
unfolding stack_clear
cleared = refl
