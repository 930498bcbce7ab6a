-- ===== src/Module/Status.antt =====
-- module.c: the status of the modules, in a table, and the unloading of a module. `none` is a
-- failed assertion or a null pointer that is followed.
use mudlle.Prelude.{ℕ, List, Bool, true, false, Option, none, some, ◌>>=◌, ◌>>◌, guard, leb, length}
use mudlle.Prelude.Int.{ℤ, pos, negsuc}
use mudlle.Table.{Table, table_find, table_lookup_len}
use mudlle.Table.Probe.{at, vacant, full, cell}
use mudlle.Table.Access.{assign, table_set_len}
use mudlle.Module.{Mvar, unset_vars}

pub data ModuleStatus : Type 0 where
  module_unloaded module_error module_loading module_loaded module_protected : ModuleStatus

-- The vector of a module: `vmodule_status` and `vmodule_seclev`.
pub record Vmodule : Type 0 where
  pub status : ModuleStatus
  pub seclev : ℕ

abbrev pub max_module_name_lenght : ℕ
max_module_name_lenght = 256

unfoldable pub module_status : Table Vmodule → List ℕ → Option ModuleStatus
unfolding table_lookup_len
module_status module_data name = do
  sym ← table_lookup_len module_data name
  elim sym [ none ↦ some module_unloaded | some s ↦ do v ← s.val; some v.status ]

unfoldable pub module_seclevel : Table Vmodule → List ℕ → Option ℤ
unfolding table_lookup_len
module_seclevel module_data name = do
  sym ← table_lookup_len module_data name
  elim sym [ none ↦ some (negsuc 0) | some s ↦ do v ← s.val; some (pos v.seclev) ]

-- The vector of a known module is written to, whatever the flags of its symbol.
unfoldable pub module_set : Table Vmodule → List ℕ → ModuleStatus → ℕ → Option (Table Vmodule)
unfolding table_find table_set_len
module_set module_data name status seclev = do
  found ← table_find module_data name
  elim found [
    | at i ↦ do
      sym ← cell module_data.buckets i
      v ← sym.val
      some (assign module_data i sym (some (record { status = status; seclev = seclev })))
    | vacant p ↦ do
      guard (leb (length name) max_module_name_lenght)
      done ← table_set_len module_data name (some (record { status = status; seclev = seclev }))
      some done.1
    | full ↦ none
  ]

-- The table of the modules, the entries of the variables, and their values.
pub record Modules (V : Type 0) : Type 0 where
  pub module_data : Table Vmodule
  pub mvars : List Mvar
  pub env_values : List (Option V)

-- `gsize` is the number of global variables.
unfoldable pub module_unload : {V : Type 0} → ℕ → List ℕ → Modules V → Option (Bool × Modules V)
unfolding module_status module_set unset_vars
module_unload gsize name m = do
  status ← module_status m.module_data name
  let unset = unset_vars gsize name m.mvars m.env_values
  let unload = module_set m.module_data name module_unloaded 0 >>= λ table'.
      some (true, record { module_data = table'; mvars = unset.0; env_values = unset.1 })
  elim status [
    | module_unloaded ↦ some (true, m)
    | module_loading ↦ some (false, m)
    | module_protected ↦ some (false, m)
    | module_error ↦ unload
    | module_loaded ↦ unload
  ]
