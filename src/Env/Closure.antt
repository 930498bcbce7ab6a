-- ===== src/Env/Closure.antt =====
-- What a reference to a variable stands for, and that `env_close` passes a variable inwards without
-- a change to what any reference stands for.
use mudlle.Prelude.{
  ℕ, zero, suc, ◌+◌, ◌≡◌, refl, sym, ap, List, [], ◌∷◌, true, Option, none, some, length, get_elem?,
  Bool-cases, Option-cases, inl, inr, arith,
}
use mudlle.Env.{
  VariableClass, local, closure, global, VarRef, Env, class_eq, ref_eq, add_to_closure, env_close,
}

-- The variable that a function of the stack names by a reference: the number of functions around
-- the one that has it as a local, and its position there.
unfoldable pub denote : List Env → VarRef → Option (ℕ × ℕ)
denote [] r = none
denote (env ∷ stack) r =
    let through : Option (ℕ × ℕ) = elim (get_elem? env.closure_vars r.offset) [
      | some q ↦ denote stack q
      | none ↦ none
    ] in
    elim r.vclass [ local ↦ some (length stack, r.offset) | closure ↦ through | global ↦ none ]

-- What had an entry keeps it.
abbrev pub Grows : List VarRef → List VarRef → Type 0
Grows vars vars' = (i : ℕ) (q : VarRef) → get_elem? vars i ≡ some q → get_elem? vars' i ≡ some q

abbrev pub Extends : List Env → List Env → Type 0
Extends stack stack' =
    (length stack ≡ length stack')
    × ((q : VarRef) (v : ℕ × ℕ) → denote stack q ≡ some v → denote stack' q ≡ some v)

class_eq_sound : (a b : VariableClass) → class_eq a b ≡ true → a ≡ b
class_eq_sound a b h = ground arith

ref_eq_sound : (a b : VarRef) → ref_eq a b ≡ true → a ≡ b
ref_eq_sound a b h = ground (arith, class_eq_sound a.vclass b.vclass)

Grows-cons :
    (v : VarRef) (vars vars' : List VarRef) → Grows vars vars' → Grows (v ∷ vars) (v ∷ vars')
Grows-cons v vars vars' grows zero q h = h
Grows-cons v vars vars' grows (suc i) q h = grows i q h

abbrev Added : VarRef → List VarRef → ℕ → List VarRef × ℕ → Type 0
Added r vars start (vars', i) =
    ((j : ℕ) × (i ≡ start + j) × (get_elem? vars' j ≡ some r)) × Grows vars vars'

add_to_closure-Added :
    (r : VarRef) (vars : List VarRef) (start : ℕ) → Added r vars start (add_to_closure r vars start)
unfolding add_to_closure
add_to_closure-Added r [] start = ((0, omega arith, refl), λ i q h. absurd (cc))
add_to_closure-Added r (v ∷ vars) start = elim (Bool-cases (ref_eq r v)) [
  | inl e ↦ rw (e) ((0, omega arith, ap some (sym (ref_eq_sound r v e))), λ i q h. h)
  | inr e ↦
      let ((j, at, here), grows) = add_to_closure-Added r vars (start + 1) in
      rw (e) ((suc j, omega (arith, at), here), Grows-cons v _ _ grows)
]

-- `env_close` keeps what the variable stands for.
pub env_close-denote :
    (inner : List Env) (r : VarRef) (outer : List Env) (v : ℕ × ℕ)
    → denote outer r ≡ some v
    → (let (stack, q) = env_close inner r outer in denote stack q) ≡ some v
unfolding env_close denote
env_close-denote [] r outer v h = h
env_close-denote (env ∷ inner) r outer v h =
    let ((j, at, here), _) = add_to_closure-Added r env.closure_vars 0 in
    let position : (add_to_closure r env.closure_vars 0).1 ≡ j = omega (arith, at) in
    env_close-denote inner _ _ v (rw (position, denote, here) h)

-- The functions that have been passed, the nearest first, put back before the others.
unfoldable pub unwind : List Env → List Env → List Env
unwind [] outer = outer
unwind (env ∷ inner) outer = unwind inner (env ∷ outer)

Extends-cons :
    (env : Env) (vars : List VarRef) (stack stack' : List Env)
    → Grows env.closure_vars vars
    → Extends stack stack'
    → Extends (env ∷ stack) (record env { closure_vars = vars } ∷ stack')
unfolding denote
Extends-cons env vars stack stack' grows (len, keeps) = (ap suc len, λ q. keep q.vclass q.offset)
  where
    keep :
        (c : VariableClass) (i : ℕ) (v : ℕ × ℕ)
        → denote (env ∷ stack) (record { vclass = c; offset = i }) ≡ some v
        → denote (record env { closure_vars = vars } ∷ stack') (record { vclass = c; offset = i })
          ≡ some v
    keep local i v h = rw (sym len) h
    keep global i v h = h
    keep closure i v h = elim (Option-cases (get_elem? env.closure_vars i)) [
      | inl e ↦ absurd (let bad = rw (e, denote) at h in cc)
      | inr (q, e) ↦ rw (denote, grows i q e) (keeps q v (rw (e, denote) at h))
    ]

pub env_close-Extends :
    (inner : List Env) (r : VarRef) (outer outer' : List Env)
    → Extends outer outer'
    → Extends (unwind inner outer) (let (stack, q) = env_close inner r outer' in stack)
unfolding env_close unwind
env_close-Extends [] r outer outer' h = h
env_close-Extends (env ∷ inner) r outer outer' h =
    let (_, grows) = add_to_closure-Added r env.closure_vars 0 in
    env_close-Extends inner _ _ _ (Extends-cons env _ outer outer' grows h)

-- The functions outside are left as they were given, and there are as many inside as before.
pub env_close-outer :
    (inner : List Env) (r : VarRef) (outer : List Env)
    → (inner' : List Env) × ((let (stack, q) = env_close inner r outer in stack)
        ≡ unwind inner' outer)
      × (length inner' ≡ length inner)
unfolding env_close unwind
env_close-outer [] r outer = ([], refl, refl)
env_close-outer (env ∷ inner) r outer =
    let (vars, coffset) = add_to_closure r env.closure_vars 0 in
    let entered : Env = record env { closure_vars = vars } in
    let (inner', same, len) =
      env_close-outer inner (record { vclass = closure; offset = coffset }) (entered ∷ outer) in
    (entered ∷ inner', same, ap suc len)
