-- ===== src/Env/Blocks.antt =====
-- Entering a block, env_block_push of env.c: the variables that get an `op_clear_local`, and when
-- the block is refused.
use mudlle.Prelude.{
  ℕ, zero, suc, ◌+◌, ◌-◌, ◌≤◌, ◌<◌, max, ◌≡◌, refl, subst, ◌↔◌, List, [], ◌∷◌, Bool, true, false,
  ◌&&◌, ◌||◌, not, none, some, ◌⊎◌, inl, inr, ltb, leb, ◌==◌, if◌then◌else◌, guard, length,
  Bool-cases, arith,
}
use mudlle.Env.{Var, Env, max_local_vars, clear_locals, env_block_push}

unfoldable pub has : ℕ → List ℕ → Bool
has i [] = false
has i (j ∷ js) = (i == j) || has i js

abbrev Cleared : ℕ → ℕ → List ℕ → List ℕ → Type 0
Cleared rounds i cleared new =
    (j : ℕ) → has j new ≡ (has j cleared || (leb i j && ltb j (i + rounds)))

clear_locals-cases :
    (rounds i : ℕ) (cleared : List ℕ)
    → (clear_locals rounds i cleared ≡ none) × (0 < rounds) × (256 < i + rounds)
      ⊎ ((new : List ℕ) × (clear_locals rounds i cleared ≡ some new)
          × ((rounds ≡ 0) ⊎ (i + rounds ≤ 256))
          × Cleared rounds i cleared new)
unfolding clear_locals has
clear_locals-cases zero i cleared = inr (cleared, refl, inl refl, λ j. ground (arith))
clear_locals-cases (suc rounds) i cleared = elim (Bool-cases (leb i 255)) [
  | inl e ↦ elim (clear_locals-cases rounds (i + 1) (i ∷ cleared)) [
    | inl (h, pos, big) ↦ inl (rw (guard, e, h) refl, omega arith, omega arith)
    | inr (new, h, ok, mem) ↦
        inr (new, rw (guard, e, h) refl, inr (ground arith), λ j. rw (mem j) (ground arith))
  ]
  | inr e ↦ inl (rw (guard, e) refl, omega arith, ground (arith))
]

-- Where the clearing of a block's variables stops.
abbrev last_set : Env → ℕ → ℕ
last_set env nsize =
    if ltb env.max_size nsize then (if env.loop_depth == 0 then env.max_size else nsize) else nsize

-- The variables of a block that is entered get an `op_clear_local` if they may hold an old value:
-- a number that has been in use before, or any number inside a loop.
abbrev pub stale : Env → ℕ → ℕ → Bool
stale env nsize i =
    leb env.size i && ltb i nsize && (ltb i env.max_size || not (env.loop_depth == 0))

abbrev pub Entered : List Var → Bool → Env → Env → Type 0
Entered vars statics env env' =
    (env.size + length vars ≤ max_local_vars)
    × (env'.locals ≡ record { index = env.size; locals = vars; statics = statics } ∷ env.locals)
    × (env'.size ≡ env.size + length vars)
    × (env'.max_size ≡ max env.max_size (env.size + length vars))
    × (env'.loop_depth ≡ env.loop_depth)
    × (env'.closure_vars ≡ env.closure_vars)
    × ((i : ℕ) → has i env'.cleared ≡ (has i env.cleared || stale env (env.size + length vars) i))

-- If a block is entered with success, then there are at most 4096 locals, the scope has the next
-- numbers, the greatest number of locals is kept up to date, and an `op_clear_local` is emitted for
-- exactly the variables of the block that may hold an old value.
pub env_block_push-Entered :
    (vars : List Var) (statics : Bool) (env env' : Env)
    → env.size ≤ env.max_size
    → env_block_push vars statics env ≡ some (true, env')
    → Entered vars statics env env'
unfolding env_block_push
env_block_push-Entered vars statics env env' bound h =
    let nsize = env.size + length vars in
    elim (Bool-cases (ltb max_local_vars nsize)) [
      | inl e ↦ absurd (let bad = rw e at h in cc)
      | inr e ↦ elim (clear_locals-cases (last_set env nsize - env.size) env.size env.cleared) [
        | inl (c, _, _) ↦ absurd (let bad = rw (e, c) at h in cc)
        | inr (new, c, _, mem) ↦
            let entered : Env = record env {
              locals = record { index = env.size; locals = vars; statics = statics } ∷ env.locals;
              size = nsize;
              max_size = if ltb env.max_size nsize then nsize else env.max_size;
              cleared = new;
            } in
            let same : entered ≡ env' = (let ran = rw (e, c) at h in cc) in
            subst (Entered vars statics env) same
              (ground arith, refl, refl, ground arith, refl, refl, λ i. rw (mem i) (ground arith))
      ]
    ]

-- The assertion on the operand of `op_clear_local` fails exactly if the number of locals is
-- accepted and a variable numbered 256 or more is to be cleared.
pub env_block_push-none_iff :
    (vars : List Var) (statics : Bool) (env : Env)
    → (env_block_push vars statics env ≡ none)
      ↔ (env.size + length vars ≤ max_local_vars)
        × ((i : ℕ) × (255 < i) × (stale env (env.size + length vars) i ≡ true))
unfolding env_block_push
env_block_push-none_iff vars statics env =
    let nsize = env.size + length vars in
    elim (Bool-cases (ltb max_local_vars nsize)) [
      | inl e ↦ (λ h. absurd (let bad = rw e at h in cc), λ (le, _). absurd (ground arith))
      | inr e ↦ elim (clear_locals-cases (last_set env nsize - env.size) env.size env.cleared) [
        | inl (c, pos, big) ↦ (
          λ h. (ground arith, (last_set env nsize - 1, ground arith, ground arith)),
          λ _. rw (e, c) refl,
        )
        | inr (new, c, small, _) ↦ (
          λ h. absurd (let bad = rw (e, c) at h in cc),
          λ (_, (i, lt, is)). absurd (ground arith),
        )
      ]
    ]
