-- ===== src/Env/Scopes.antt =====
-- The search of env_lookup through the scopes of one function, against a description of the
-- innermost variable of a name.
use mudlle.Prelude.{
  ℕ, zero, suc, ◌+◌, ◌<◌, ◌≡◌, ◌⊎◌, inl, inr, refl, ap, List, [], ◌∷◌, ◌++◌, Bool, true, false,
  ◌&&◌, not, Option, none, some, ◌||◌, get_elem?, set, Each, Bool-cases, arith,
}
use mudlle.Env.{Var, Scope, find_var, find_scope, strcase_eq}
use mudlle.Env.Names.{SameName, strcase_eq_iff}

module _ (name : List ℕ) where
  -- The first variable of the name stands at a place of the list.
  abbrev pub FirstVar : List Var → ℕ → Var → Type 0
  FirstVar vars k v =
      (get_elem? vars k ≡ some v)
      × SameName name v.var
      × ((j : ℕ) (w : Var) → j < k → get_elem? vars j ≡ some w → ¬ SameName name w.var)

  abbrev pub NoVar : List Var → Type 0
  NoVar vars = (j : ℕ) (w : Var) → get_elem? vars j ≡ some w → ¬ SameName name w.var

  later_none : (v : Var) (vars : List Var) → ¬ SameName name v.var → NoVar vars → NoVar (v ∷ vars)
  later_none v vars h k zero w e same = h (let here : v ≡ w = cc in rw here same)
  later_none v vars h k (suc j) w e same = k j w e same

  later_first :
      (v : Var) (vars : List Var) (k : ℕ) (u : Var)
      → ¬ SameName name v.var
      → FirstVar vars k u
      → FirstVar (v ∷ vars) (suc k) u
  later_first v vars k u h (at, same, before) = (at, same, away)
    where
      away : (j : ℕ) (w : Var) → j < suc k → get_elem? (v ∷ vars) j ≡ some w → ¬ SameName name w.var
      away zero w lt e s = h (let here : v ≡ w = cc in rw here s)
      away (suc j) w lt e s = before j w (omega arith) e s

  module _ (do_read do_write : Bool) where
    -- The variable after it has been used.
    abbrev pub marked : Var → Var
    marked v = record v {
      was_read = do_read || v.was_read;
      was_written = do_write || v.was_written;
    }

    abbrev pub FindsVar : List Var → ℕ → Option (List Var × ℕ) → Type 0
    FindsVar vars index none = NoVar vars
    FindsVar vars index (some (vars', pos)) =
        (k : ℕ) × (v : Var) × FirstVar vars k v
        × (pos ≡ index + k)
        × (vars' ≡ set vars k (marked v))

    find_var-FindsVar :
        (vars : List Var) (index : ℕ)
        → FindsVar vars index (find_var name do_read do_write vars index)
    unfolding find_var
    find_var-FindsVar [] index = λ j w e. absurd (cc)
    find_var-FindsVar (v ∷ vars) index = elim (Bool-cases (strcase_eq name v.var)) [
      | inl e ↦ rw e (
        0,
        v,
        (refl, (strcase_eq_iff name v.var).0 e, λ j w lt q. absurd (omega arith)),
        omega arith,
        refl,
      )
      | inr e ↦
          let other : ¬ SameName name v.var =
            λ same. (let q = (strcase_eq_iff name v.var).1 same in cc) in
          rw e (
            deeper v vars index (find_var name do_read do_write vars (index + 1)) other
              (find_var-FindsVar vars (index + 1)))
    ]
      where
        deeper :
            (v : Var) (vars : List Var) (index : ℕ) (found : Option (List Var × ℕ))
            → ¬ SameName name v.var
            → FindsVar vars (index + 1) found
            → FindsVar
                (v ∷ vars)
                index
                (elim found [ none ↦ none | some (vars', p) ↦ some (v ∷ vars', p) ])
        deeper v vars index none other h = later_none v vars other h
        deeper v vars index (some (vars', p)) other (k, u, first, pos, same) =
            (suc k, u, later_first v vars k u other first, omega arith, ap (λ t. v ∷ t) same)

    module _ (is_user : Bool) where
      -- A scope that is passed over: it is not static where only static ones count, or has no
      -- variable of the name.
      abbrev pub Passed : Scope → Type 0
      Passed scope = ((is_user ≡ true) × (scope.statics ≡ false)) ⊎ NoVar scope.locals

      abbrev pub used_scope : Scope → ℕ → Var → Scope
      used_scope scope k v = record scope { locals = set scope.locals k (marked v) }

      -- The innermost variable of the name: in a scope that counts, with all scopes inside it
      -- passed over; the result has its position, whether it is static, and the scopes with the
      -- variable marked.
      abbrev pub Innermost : List Scope → List Scope × ℕ × Bool → Type 0
      Innermost scopes (scopes', pos, statics) =
          (inside : List Scope) × (scope : Scope) × (around : List Scope) × (k : ℕ) × (v : Var)
          × (scopes ≡ inside ++ (scope ∷ around))
          × Each inside Passed
          × (is_user ≡ true → scope.statics ≡ true)
          × FirstVar scope.locals k v
          × (pos ≡ scope.index + k)
          × (statics ≡ scope.statics)
          × (scopes' ≡ inside ++ (used_scope scope k v ∷ around))

      abbrev pub FindsScope : List Scope → Option (List Scope × ℕ × Bool) → Type 0
      FindsScope scopes none = Each scopes Passed
      FindsScope scopes (some found) = Innermost scopes found

      further :
          (scope : Scope) (scopes : List Scope) (found : Option (List Scope × ℕ × Bool))
          → Passed scope
          → FindsScope scopes found
          → FindsScope (scope ∷ scopes) (elim found [
            | none ↦ none
            | some (scopes', pos, statics) ↦ some (scope ∷ scopes', pos, statics)
          ])
      further scope scopes none passed h = (passed, h)
      further scope scopes (some (scopes', pos, statics)) passed h =
          let (inside, it, around, k, v, split, all, static, first, at, kind, after) = h in
          (
            scope ∷ inside,
            it,
            around,
            k,
            v,
            ap (λ t. scope ∷ t) split,
            (passed, all),
            static,
            first,
            at,
            kind,
            ap (λ t. scope ∷ t) after,
          )

      pub find_scope-FindsScope :
          (scopes : List Scope)
          → FindsScope scopes (find_scope name is_user do_read do_write scopes)
      unfolding find_scope
      find_scope-FindsScope [] = tt
      find_scope-FindsScope (scope ∷ scopes) =
          let deeper = find_scope-FindsScope scopes in
          elim (Bool-cases (is_user && not scope.statics)) [
            | inl e ↦ rw e (
                further scope scopes (find_scope name is_user do_read do_write scopes)
                  (inl (ground arith)) deeper)
            | inr e ↦ rw e (
                here scope scopes (find_var name do_read do_write scope.locals scope.index)
                  (λ u. ground arith) (find_var-FindsVar scope.locals scope.index) deeper)
          ]
        where
          here :
              (scope : Scope) (scopes : List Scope) (found : Option (List Var × ℕ))
              → (is_user ≡ true → scope.statics ≡ true)
              → FindsVar scope.locals scope.index found
              → FindsScope scopes (find_scope name is_user do_read do_write scopes)
              → FindsScope (scope ∷ scopes) (elim found [
                | some (vars, pos) ↦
                    some (record scope { locals = vars } ∷ scopes, pos, scope.statics)
                | none ↦ elim (find_scope name is_user do_read do_write scopes) [
                  | none ↦ none
                  | some (scopes', pos, statics) ↦ some (scope ∷ scopes', pos, statics)
                ]
              ])
          here scope scopes none static found deeper =
              further scope scopes (find_scope name is_user do_read do_write scopes) (inr found)
                deeper
          here scope scopes (some (vars, pos)) static (k, v, first, at, same) deeper =
              ([], scope, scopes, k, v, refl, tt, static, first, at, refl, rw same refl)
