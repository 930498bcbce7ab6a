-- ===== src/Module.antt =====
-- module.c: the status of the global variables, which says who may write them. `mvars` has an entry
-- for each variable: an integer that is a status, null for a variable of the system, or the name of
-- the module that defines the variable. A failed assertion is `none`. Module/Status has the modules
-- themselves; the loading of a module, which calls mudlle code, is not modelled.
pub mod Ownership
pub mod Status
pub mod Unload
use mudlle.Prelude.{
  ℕ, zero, suc, ◌+◌, List, [], ◌∷◌, Bool, true, false, ◌&&◌, ◌||◌, not, Option, none, some, ◌>>=◌,
  ◌>>◌, guard, ltb, ◌==◌, if◌then◌else◌, length, get_elem?, set,
}
use mudlle.Env.{strcase_eq}

pub data Vstatus : Type 0 where
  var_normal var_module var_write var_system_write var_system_mutable : Vstatus

-- An entry of `mvars`.
pub data Mvar : Type 0 where
  marked : Vstatus → Mvar
  system : Mvar
  defined : List ℕ → Mvar

abbrev pub string_equalp : List ℕ → List ℕ → Bool
string_equalp [] [] = true
string_equalp [] (d ∷ b) = false
string_equalp (c ∷ a) [] = false
string_equalp (c ∷ a) (d ∷ b) = c == d && string_equalp a b

-- `GCONSTANT`: the entry is no integer.
abbrev pub gconstant : Mvar → Bool
gconstant (marked s) = false
gconstant system = true
gconstant (defined name) = true

abbrev pub is_mutable : Mvar → Bool
is_mutable (marked var_system_mutable) = true
is_mutable _ = false

abbrev pub status_of : Mvar → Vstatus × Option (List ℕ)
status_of (marked s) = (s, none)
status_of system = (var_system_write, none)
status_of (defined name) = (var_module, some name)

-- The status, and the name of the module.
unfoldable pub module_vstatus : List Mvar → ℕ → Option (Vstatus × Option (List ℕ))
module_vstatus mvars n = do v ← get_elem? mvars n; some (status_of v)

abbrev pub is_module : Vstatus → Bool
is_module var_module = true
is_module _ = false

abbrev pub has_name : Option (List ℕ) → Bool
has_name none = false
has_name (some name) = true

abbrev pub owned_by : Mvar → Option (List ℕ) → Bool
owned_by (defined v) (some name) = string_equalp v name
owned_by _ _ = false

-- The new entry.
abbrev pub entry : Vstatus → Option (List ℕ) → Mvar
entry var_module none = system
entry var_module (some name) = defined name
entry var_system_write name = system
entry s name = marked s

unfoldable pub module_vset :
    List Mvar → ℕ → Vstatus → Option (List ℕ) → Bool → Option (Bool × List Mvar)
module_vset mvars n status name dry_run = do
  old_state ← get_elem? mvars n
  guard (if has_name name then is_module status else not (is_module status))
  if dry_run && owned_by old_state name
      then some (true, mvars)
      else if gconstant old_state || is_mutable old_state
      then some (false, mvars)
      else if dry_run
      then some (true, mvars)
      else some (true, set mvars n (entry status name))

abbrev pub owner_is : List ℕ → Mvar → Bool
unfolding strcase_eq
owner_is name (defined owner) = strcase_eq name owner
owner_is name _ = false

-- The loop of `module_unload` over so many variables: those of the module become normal, and null.
-- `none` in the second list is null.
unfoldable pub unset_vars {ℓ} :
    {V : Type ℓ} → ℕ → List ℕ → List Mvar → List (Option V) → List Mvar × List (Option V)
unfolding strcase_eq
unset_vars zero name mvars values = (mvars, values)
unset_vars (suc gsize) name [] values = ([], values)
unset_vars (suc gsize) name (v ∷ mvars) [] = (v ∷ mvars, [])
unset_vars (suc gsize) name (v ∷ mvars) (x ∷ values) =
    let (mvars', values') = unset_vars gsize name mvars values in
    if owner_is name v
    then (marked var_normal ∷ mvars', none ∷ values')
    else (v ∷ mvars', x ∷ values')
