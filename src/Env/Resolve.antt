-- ===== src/Env/Resolve.antt =====
-- Looking up a name, env_lookup of env.c: the variable that is found, and what becomes of the
-- closures of the functions between it and the use.
use mudlle.Prelude.{
  ℕ, ◌≡◌, refl, subst, List, [], ◌∷◌, Bool, true, false, Option, none, some, ◌⊎◌, inl, inr, length,
  Each, Bool-cases, Option-cases,
}
use mudlle.Env.{VarRef, local, global, Scope, Env, find_scope, env_search, env_lookup, starts_with}
use mudlle.Env.Closure.{
  denote, Extends, unwind, env_close-denote, env_close-Extends, env_close-outer,
}
use mudlle.Env.Scopes.{Passed, Innermost, FindsScope, find_scope-FindsScope}

module _ (name : List ℕ) (is_user do_read do_write : Bool) where
  -- No scope of the function has the variable.
  abbrev pub Lacks : Env → Type 0
  Lacks env = Each env.locals (Passed name do_read do_write is_user)

  -- The variable is the innermost of its name in a function `env` of the stack, and none of the
  -- functions inside it has one; the reference that is returned stands for it, as every other
  -- reference stands for what it stood for; `env` has the variable marked, and the functions around
  -- it are unchanged.
  abbrev pub Resolves : List Env → VarRef × Bool × List Env → Type 0
  Resolves stack (r, statics, stack') =
      (inner : List Env) × (env : Env) × (outer : List Env) × (scopes : List Scope) × (pos : ℕ)
      × (stack ≡ unwind inner (env ∷ outer))
      × Each inner Lacks
      × Innermost name do_read do_write is_user env.locals (scopes, pos, statics)
      × (denote stack' r ≡ some (length outer, pos))
      × Extends stack stack'
      × ((inner' : List Env) × (stack' ≡ unwind inner' (record env { locals = scopes } ∷ outer))
          × (length inner' ≡ length inner))

  finds :
      (env : Env) (o : Option (List Scope × ℕ × Bool))
      → find_scope name is_user do_read do_write env.locals ≡ o
      → FindsScope name do_read do_write is_user env.locals o
  finds env o e =
      subst (FindsScope name do_read do_write is_user env.locals) e
        (find_scope-FindsScope name do_read do_write is_user env.locals)

  Extends-locals :
      (env : Env) (scopes : List Scope) (stack : List Env)
      → Extends (env ∷ stack) (record env { locals = scopes } ∷ stack)
  unfolding denote
  Extends-locals env scopes stack = (refl, λ q v h. h)

  -- The search over the functions, with the ones it has passed.
  pub env_search-Resolves :
      (passed stack : List Env)
      → Each passed Lacks
      → (res : VarRef × Bool × List Env)
      → env_search name is_user do_read do_write passed stack ≡ some res
      → Resolves (unwind passed stack) res
  unfolding env_search unwind denote
  env_search-Resolves passed [] lacks res h = absurd (cc)
  env_search-Resolves passed (env ∷ stack) lacks res h =
      elim (Option-cases (find_scope name is_user do_read do_write env.locals)) [
        | inl e ↦
            env_search-Resolves (env ∷ passed) stack (finds env none e, lacks) res
              (rw (e, env_search) at h)
        | inr ((scopes, pos, statics), e) ↦
            let found : Env = record env { locals = scopes } in
            let here : VarRef = record { vclass = local; offset = pos } in
            subst (Resolves (unwind passed (env ∷ stack)))
              (let same = rw (e, env_search) at h in cc)
              (
                passed,
                env,
                stack,
                scopes,
                pos,
                refl,
                lacks,
                finds env (some (scopes, pos, statics)) e,
                env_close-denote passed here (found ∷ stack) (length stack, pos) refl,
                env_close-Extends passed here _ _ (Extends-locals env scopes stack),
                env_close-outer passed here (found ∷ stack),
              )
      ]

  pub env_search-none :
      (passed stack : List Env)
      → env_search name is_user do_read do_write passed stack ≡ none
      → Each stack Lacks
  unfolding env_search
  env_search-none passed [] h = tt
  env_search-none passed (env ∷ stack) h =
      elim (Option-cases (find_scope name is_user do_read do_write env.locals)) [
        | inl e ↦ (finds env none e, env_search-none (env ∷ passed) stack (rw (e, env_search) at h))
        | inr (_, e) ↦ absurd (let bad = rw (e, env_search) at h in cc)
      ]

module _ {ℓ} {G : Type ℓ} (global_lookup : List ℕ → G → ℕ × G) (name : List ℕ) where
  -- The outcomes of `env_lookup` for a name without a colon, the state of global.c before and after
  -- included: a variable of a function, or a global variable, which no function has as its own.
  abbrev pub Outcome : Bool → Bool → List Env → G → VarRef × Bool × List Env × G → Type ℓ
  Outcome do_read do_write stack g (r, statics, stack', g') =
      (Resolves name (starts_with 36 name) do_read do_write stack (r, statics, stack') × (g' ≡ g))
      ⊎ (Each stack (Lacks name (starts_with 36 name) do_read do_write)
          × (starts_with 36 name ≡ false)
          × (statics ≡ false)
          × (stack' ≡ stack)
          × ((r.offset, g') ≡ global_lookup name g)
          × (r.vclass ≡ global))

  returned-Outcome :
      (do_read do_write : Bool) (stack : List Env) (g : G) (res : VarRef × Bool × List Env × G)
      → starts_with 58 name ≡ false
      → env_lookup global_lookup name do_read do_write stack g ≡ some res
      → Outcome do_read do_write stack g res
  unfolding env_lookup unwind
  returned-Outcome do_read do_write stack g res colon h =
      elim (Option-cases (env_search name (starts_with 36 name) do_read do_write [] stack)) [
        | inl e ↦ elim (Bool-cases (starts_with 36 name)) [
          | inl u ↦ absurd (let bad = rw (colon, e, u, env_lookup) at h in cc)
          | inr u ↦
              subst (Outcome do_read do_write stack g)
                (let same = rw (env_lookup, colon, e, u) at h in cc)
                (inr (
                  env_search-none name (starts_with 36 name) do_read do_write [] stack e,
                  u,
                  refl,
                  refl,
                  refl,
                  refl,
                ))
        ]
        | inr ((r, statics, stack'), e) ↦
            subst (Outcome do_read do_write stack g)
              (let same = rw (env_lookup, colon, e) at h in cc)
              (inl (
                env_search-Resolves name (starts_with 36 name) do_read do_write [] stack tt
                    (r, statics, stack') e,
                refl,
              ))
      ]

  failed-Lacks :
      (do_read do_write : Bool) (stack : List Env) (g : G)
      → starts_with 58 name ≡ false
      → env_lookup global_lookup name do_read do_write stack g ≡ none
      → (starts_with 36 name ≡ true)
        × Each stack (Lacks name (starts_with 36 name) do_read do_write)
  unfolding env_lookup
  failed-Lacks do_read do_write stack g colon h =
      elim (Option-cases (env_search name (starts_with 36 name) do_read do_write [] stack)) [
        | inl e ↦ elim (Bool-cases (starts_with 36 name)) [
          | inl u ↦ (u, env_search-none name (starts_with 36 name) do_read do_write [] stack e)
          | inr u ↦ absurd (let bad = rw (colon, e, u, env_lookup) at h in cc)
        ]
        | inr (found, e) ↦ absurd (let bad = rw (colon, e, env_lookup) at h in cc)
      ]

  -- For a name without a leading colon, `env_lookup` fails its assertion exactly if the name must
  -- be found and no function has it. Else it returns, and either the reference stands for the
  -- variable of that name, but for the case of letters, in the innermost scope of the innermost
  -- function that has one, where a name that must be found is looked for in static scopes only; the
  -- variable is marked as read or written, every reference of a function stands for what it stood
  -- for before, and the functions around and the state of the global variables are untouched; or no
  -- function has the name, the stack is as before, and the reference is to the global variable of
  -- that name.
  pub env_lookup-Outcome :
      (do_read do_write : Bool) (stack : List Env) (g : G)
      → starts_with 58 name ≡ false
      → ((res : VarRef × Bool × List Env × G) × (env_lookup global_lookup name do_read do_write
              stack g
            ≡ some res)
          × Outcome do_read do_write stack g res)
        ⊎ ((env_lookup global_lookup name do_read do_write stack g ≡ none)
            × (starts_with 36 name ≡ true)
            × Each stack (Lacks name (starts_with 36 name) do_read do_write))
  env_lookup-Outcome do_read do_write stack g colon =
      elim (Option-cases (env_lookup global_lookup name do_read do_write stack g)) [
        | inl e ↦
            let (user, lacks) = failed-Lacks do_read do_write stack g colon e in
            inr (e, user, lacks)
        | inr (res, e) ↦ inl (res, e, returned-Outcome do_read do_write stack g res colon e)
      ]
