-- ===== src/Module/Ownership.antt =====
-- Who may change a global variable: `module_vset` and `module_unload` of module.c.
use mudlle.Prelude.{
  ℕ, zero, suc, ◌<◌, ◌≡◌, ◌≢◌, ◌⊎◌, ◌↔◌, ◌==◌, inl, inr, refl, sym, ap, List, [], ◌∷◌, Bool, true,
  false, ◌||◌, not, Option, none, some, if◌then◌else◌, length, get_elem?, set, get_elem?-set_self,
  get_elem?-set_ne, Bool-cases, arith,
}
use mudlle.Env.{strcase_eq}
use mudlle.Env.Names.{SameName, strcase_eq_iff}
use mudlle.Module.{
  Vstatus, var_normal, var_module, var_write, var_system_write, var_system_mutable, Mvar, marked,
  system, defined, string_equalp, gconstant, is_mutable, is_module, has_name, owned_by, entry,
  status_of, owner_is, module_vstatus, module_vset, unset_vars,
}

-- An entry that is kept: null, which is the system's, the name of a module, and mutable for all.
abbrev pub locked : Mvar → Bool
locked (marked var_normal) = false
locked (marked var_module) = false
locked (marked var_write) = false
locked (marked var_system_write) = false
locked (marked var_system_mutable) = true
locked system = true
locked (defined name) = true

locked-guard : (v : Mvar) → (gconstant v || is_mutable v) ≡ locked v
locked-guard v = ground arith

-- The entry is the name of that module.
abbrev pub Owns : Mvar → Option (List ℕ) → Type 0
Owns v name = (m : List ℕ) × (v ≡ defined m) × (name ≡ some m)

string_equalp_lem : (a b : List ℕ) → string_equalp a b ≡ true → a ≡ b
string_equalp_lem [] [] h = refl
string_equalp_lem [] (d ∷ b) h = absurd (cc)
string_equalp_lem (c ∷ a) [] h = absurd (cc)
string_equalp_lem (c ∷ a) (d ∷ b) h = elim (Bool-cases (c == d)) [
  | inr e ↦ absurd (let bad = rw e at h in cc)
  | inl e ↦
      let first : c ≡ d = ground arith in
      let rest = string_equalp_lem a b (rw e at h) in rw (first, rest) refl
]

string_equalp_self : (a : List ℕ) → string_equalp a a ≡ true
string_equalp_self [] = refl
string_equalp_self (c ∷ a) = ground (arith, string_equalp_self a)

owned_by-Owns : (v : Mvar) (name : Option (List ℕ)) → owned_by v name ≡ true → Owns v name
owned_by-Owns (defined m) (some name) h = (m, refl, ap some (sym (string_equalp_lem m name h)))
owned_by-Owns (defined m) none h = absurd (cc)
owned_by-Owns (marked status) name h = absurd (cc)
owned_by-Owns system name h = absurd (cc)

Owns-owned_by : (v : Mvar) (name : Option (List ℕ)) → Owns v name → owned_by v name ≡ true
Owns-owned_by v name (m, here, same) = rw (here, same) (string_equalp_self m)

abbrev pub named_right : Vstatus → Option (List ℕ) → Bool
named_right status name = if has_name name then is_module status else not (is_module status)

entry-vstatus :
    (status : Vstatus) (name : Option (List ℕ))
    → named_right status name ≡ true
    → status_of (entry status name) ≡ (status, name)
entry-vstatus status name h = ground arith

-- A change of the status of a variable is refused, and changes nothing, exactly if its entry is
-- null, for the system, the name of a module, or marked as mutable for all; else the variable has
-- the new status, with the name of its module, and no other variable changes. A dry run changes
-- nothing and allows what is not refused, and besides a variable that the same module defines
-- already.
pub module_vset_lem :
    (mvars : List Mvar) (n : ℕ) (status : Vstatus) (name : Option (List ℕ)) (v : Mvar)
    → get_elem? mvars n ≡ some v
    → named_right status name ≡ true
    → (locked v ≡ true → module_vset mvars n status name false ≡ some (false, mvars))
      × (locked v ≡ false
          → (mvars' : List Mvar) × (module_vset mvars n status name false ≡ some (true, mvars'))
            × (module_vstatus mvars' n ≡ some (status, name))
            × ((m : ℕ) → n ≢ m → get_elem? mvars' m ≡ get_elem? mvars m))
      × ((allowed : Bool) × (module_vset mvars n status name true ≡ some (allowed, mvars))
          × ((allowed ≡ true) ↔ (Owns v name ⊎ (locked v ≡ false))))
unfolding module_vset module_vstatus
module_vset_lem mvars n status name v at right =
    let same = locked-guard v in
    (
      λ l. rw (at, right, same, l) refl,
      λ l. (
        set mvars n (entry status name),
        rw (at, right, same, l) refl,
        rw (get_elem?-set_self mvars n (entry status name) (inside mvars n v at))
            (ap some (entry-vstatus status name right)),
        λ m ne. get_elem?-set_ne mvars (entry status name) ne,
      ),
      (
        owned_by v name || not (locked v),
        rw (at, right, same) (dry (owned_by v name) (locked v)),
        (
          λ h. allows h,
          λ h. elim h [
            | inl owns ↦ rw (Owns-owned_by v name owns) refl
            | inr free ↦ rw free (or_true (owned_by v name))
          ],
        ),
      ),
    )
  where
    or_true : (a : Bool) → (a || true) ≡ true
    or_true true = refl
    or_true false = refl

    allows : (owned_by v name || not (locked v)) ≡ true → Owns v name ⊎ (locked v ≡ false)
    allows h = elim (Bool-cases (owned_by v name)) [
      | inl e ↦ inl (owned_by-Owns v name e)
      | inr e ↦ inr (let open_ = rw e at h in ground arith)
    ]

    dry :
        (a b : Bool)
        → ◌≡◌ {A = Option (Bool × List Mvar)}
            (if a
              then some (true, mvars)
              else if b
              then some (false, mvars)
              else some (true, mvars))
            (some (a || not b, mvars))
    dry true b = refl
    dry false true = refl
    dry false false = refl

    inside : (xs : List Mvar) (i : ℕ) (x : Mvar) → get_elem? xs i ≡ some x → i < length xs
    inside [] i x e = absurd (cc)
    inside (y ∷ xs) zero x e = omega arith
    inside (y ∷ xs) (suc i) x e = omega (arith, inside xs i x e)

owner_is_iff :
    (name : List ℕ) (v : Mvar)
    → (owner_is name v ≡ true) ↔ ((owner : List ℕ) × (v ≡ defined owner) × SameName name owner)
unfolding strcase_eq
owner_is_iff name (defined owner) = (
  λ h. (owner, refl, (strcase_eq_iff name owner).0 h),
  λ (m, e, same).
      let here : owner ≡ m = (let q = e in cc) in (strcase_eq_iff name owner).1 (rw here same),
)
owner_is_iff name (marked s) = (λ h. absurd (cc), λ t. absurd (let (m, e, same) = t in cc))
owner_is_iff name system = (λ h. absurd (cc), λ t. absurd (let (m, e, same) = t in cc))

-- An entry and a value of a variable become normal and null if the entry is the module's name, but
-- for the case of letters, and else stay.
abbrev pub GivenUp {ℓ} :
    {V : Type ℓ} → List ℕ → Mvar → Option V → Option Mvar → Option (Option V) → Type ℓ
GivenUp name v x v' x' =
    ((owner : List ℕ)
      → v ≡ defined owner
      → SameName name owner
      → (v' ≡ some (marked var_normal)) × (x' ≡ some none))
    × (((owner : List ℕ) → v ≡ defined owner → ¬ SameName name owner)
        → (v' ≡ some v) × (x' ≡ some x))

given_up {ℓ} :
    {V : Type ℓ} (name : List ℕ) (v : Mvar) (x : Option V)
    → GivenUp name v x
        (some (if owner_is name v then marked var_normal else v))
        (some (if owner_is name v then none else x))
given_up name v x = (
  λ owner e same. rw ((owner_is_iff name v).1 (owner, e, same)) (refl, refl),
  λ other. elim (Bool-cases (owner_is name v)) [
    | inl o ↦ (let (m, e, same) = (owner_is_iff name v).0 o in absurd (other m e same))
    | inr o ↦ rw o (refl, refl)
  ],
)

unset_vars-at {ℓ} :
    {V : Type ℓ} (gsize : ℕ) (name : List ℕ) (mvars : List Mvar) (values : List (Option V)) (i : ℕ)
    (v : Mvar) (x : Option V)
    → i < gsize
    → get_elem? mvars i ≡ some v
    → get_elem? values i ≡ some x
    → (get_elem? (unset_vars gsize name mvars values).0 i
        ≡ some (if owner_is name v then marked var_normal else v))
      × (get_elem? (unset_vars gsize name mvars values).1 i
          ≡ some (if owner_is name v then none else x))
unfolding unset_vars
unset_vars-at zero name mvars values i v x lt e f = absurd (omega arith)
unset_vars-at (suc gsize) name [] values i v x lt e f = absurd (cc)
unset_vars-at (suc gsize) name (w ∷ mvars) [] i v x lt e f = absurd (cc)
unset_vars-at (suc gsize) name (w ∷ mvars) (y ∷ values) zero v x lt e f =
    let entry_is : w ≡ v = cc in
    let value_is : y ≡ x = cc in
    elim (Bool-cases (owner_is name w)) [
      | inl o ↦ rw (← entry_is, ← value_is, o) (refl, refl)
      | inr o ↦ rw (← entry_is, ← value_is, o) (refl, refl)
    ]
unset_vars-at (suc gsize) name (w ∷ mvars) (y ∷ values) (suc i) v x lt e f =
    let (ih_var, ih_value) = unset_vars-at gsize name mvars values i v x (omega arith) e f in
    elim (Bool-cases (owner_is name w)) [
      | inl o ↦ rw o (ih_var, ih_value)
      | inr o ↦ rw o (ih_var, ih_value)
    ]

pub unset_vars-GivenUp {ℓ} :
    {V : Type ℓ} (gsize : ℕ) (name : List ℕ) (mvars : List Mvar) (values : List (Option V)) (i : ℕ)
    (v : Mvar) (x : Option V)
    → i < gsize
    → get_elem? mvars i ≡ some v
    → get_elem? values i ≡ some x
    → GivenUp name v x
        (get_elem? (unset_vars gsize name mvars values).0 i)
        (get_elem? (unset_vars gsize name mvars values).1 i)
unset_vars-GivenUp gsize name mvars values i v x lt e f =
    let (entry_after, value_after) = unset_vars-at gsize name mvars values i v x lt e f in
    rw (entry_after, value_after) (given_up name v x)
