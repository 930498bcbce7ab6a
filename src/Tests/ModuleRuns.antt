-- ===== src/Tests/ModuleRuns.antt =====
-- module.c at concrete variables.
use mudlle.Prelude.{
  ℕ, ◌≡◌, ◌≢◌, ◌⊎◌, ◌↔◌, inl, inr, refl, ap, List, [], ◌∷◌, Bool, Option, some, none, true, false,
  get_elem?, replicate, arith,
}
use mudlle.Prelude.Int.{pos}
use mudlle.Table.{Symbol, Table}
use mudlle.Table.Valid.{IsValid}
use mudlle.Table.Add.{empty-IsValid, nothing-held, table_add_sym_fast-Adds}
use mudlle.Table.ReAdd.{find_vacant}
use mudlle.Module.{
  Mvar, var_module, var_normal, var_write, marked, system, defined, module_vset, module_vstatus,
  unset_vars,
}
use mudlle.Module.Ownership.{Owns, locked, module_vset_lem}
use mudlle.Module.Status.{ModuleStatus, module_loaded, Vmodule, Modules}
use mudlle.Module.Unload.{HaveVectors, UnloadOutcome, module_unload-Unloaded}

-- A variable of the module "m", one of the system and one that is written.
abbrev variables : List Mvar
variables = defined (109 ∷ []) ∷ system ∷ marked var_write ∷ []

abbrev values : List (Option ℕ)
values = some 1 ∷ some 2 ∷ some 3 ∷ []

-- "M"
abbrev name : List ℕ
name = 77 ∷ []

module_vset_lem_example :
    (false ≡ true → module_vset variables 2 var_module (some name) false ≡ some (false, variables))
    × (false ≡ false
        → (mvars' : List Mvar) × (module_vset variables 2 var_module (some name) false
            ≡ some (true, mvars'))
          × (module_vstatus mvars' 2 ≡ some (var_module, some name))
          × ((m : ℕ) → ◌≢◌ {A = ℕ} 2 m → get_elem? mvars' m ≡ get_elem? variables m))
    × ((allowed : Bool) × (module_vset variables 2 var_module (some name) true
          ≡ some (allowed, variables))
        × ((allowed ≡ true)
            ↔ (Owns (marked var_write) (some name) ⊎ (locked (marked var_write) ≡ false))))
module_vset_lem_example =
    module_vset_lem variables 2 var_module (some name) (marked var_write) refl refl

-- The table of the modules with "m", which has been loaded.
abbrev no_modules : Table Vmodule
no_modules = record {
  buckets = replicate 8 none;
  used = pos 0;
  readonly = false;
  buckets_readonly = false;
}

no_modules-IsValid : IsValid no_modules
no_modules-IsValid = empty-IsValid no_modules 3 8 (omega arith) refl refl refl

abbrev m_symbol : Symbol Vmodule
m_symbol = record {
  name = record { bytes = 109 ∷ []; readonly = true };
  val = some (record { status = module_loaded; seclev = 1 });
  readonly = false;
}

with_m : (t : Table Vmodule) × IsValid t × HaveVectors t
with_m =
    let (p, ran, finds) =
      find_vacant no_modules no_modules-IsValid (109 ∷ []) (λ u h. absurd (nothing-held 8 u h)) in
    let (t, added, a) =
      table_add_sym_fast-Adds no_modules no_modules-IsValid p m_symbol finds refl (refl, refl) 0
        (omega arith, omega arith) in
    (
      t,
      a.valid,
      λ i s e. elim ((a.holds s).0 (i, e)) [
        | inl x ↦ absurd (nothing-held 8 s x)
        | inr q ↦
            (record { status = module_loaded; seclev = 1 }, ap (λ (y : Symbol Vmodule). y.val) q)
      ],
    )

abbrev loaded_m : Modules ℕ
loaded_m = record { module_data = with_m.0; mvars = variables; env_values = values }

module_unload-Unloaded_example :
    (status : ModuleStatus) × UnloadOutcome 3 name loaded_m with_m.1 status
module_unload-Unloaded_example = module_unload-Unloaded 3 name loaded_m with_m.1 with_m.2

unloaded :
    unset_vars 3 name variables values
    ≡ (marked var_normal ∷ system ∷ marked var_write ∷ [], none ∷ some 2 ∷ some 3 ∷ [])
unfolding unset_vars
unloaded = refl

-- The loop ends before the third variable.
two_variables :
    unset_vars 2 name (defined name ∷ system ∷ defined name ∷ []) values
    ≡ (marked var_normal ∷ system ∷ defined name ∷ [], none ∷ some 2 ∷ some 3 ∷ [])
unfolding unset_vars
two_variables = refl
