-- ===== src/Global.antt =====
-- global.c and global.h: the global variables. A table maps a name to an index into three vectors:
-- the values, the status of each variable, which module.c changes, and the names. `none` is a
-- failed assertion. The frames that keep a pointer to the old values are not modelled.
pub mod Valid
pub mod Lookup
pub mod Access
use mudlle.Prelude.{
  ℕ, suc, ◌+◌, ◌<◌, Bool, true, false, ◌&&◌, ◌||◌, not, Option, some, none, List, [], ◌∷◌, length,
  replicate, ltb, leb, ◌==◌, if◌then◌else◌, ◌>>=◌, ◌>>◌, guard, get_elem?,
}
use mudlle.Error.{Result, RuntimeError, raised, returned, variable_read_only, security_violation}
use mudlle.Table.{Str, Symbol, Table, table_find, table_add_sym_fast, alloc_table}
use mudlle.Table.Probe.{at, vacant, full, cell}
use mudlle.Table.Access.{add_depth}
use mudlle.Alloc.{alloc_vector}
use mudlle.ObjEnv.{ObjEnv, memcpy, store, env_add_entry, alloc_env}
use mudlle.Module.{
  Mvar, Vstatus, marked, system, var_normal, var_system_mutable, var_system_write, var_module,
  gconstant, is_mutable, module_vstatus,
}

abbrev pub readable : Vstatus → Bool
readable var_system_mutable = true
readable var_system_write = true
readable var_module = true
readable _ = false

-- `V` has the values, with the null pointer; a name is missing where its vector is not written yet.
pub record Globals (V : Type 0) : Type 0 where
  pub environment : ObjEnv V
  pub env_values : List V
  pub global : Table ℕ
  pub mvars : List Mvar
  pub global_names : List (Option Str)

abbrev pub global_size : ℕ
global_size = 512

abbrev pub max_variable_length : ℕ
max_variable_length = 1024

-- A vector that is as long as the values again after these have grown.
unfoldable pub follow : {A : Type 0} → A → ℕ → ℕ → List A → Option (List A)
unfolding alloc_vector
follow unset old_size new_size vec =
    let grown = alloc_vector unset new_size >>= λ newp. some (memcpy newp vec (length vec)) in
    if new_size == old_size then some vec else grown

module _ {V : Type 0} (null : V) where
  -- The name of the symbol is where the lookup before left off. The symbol is made read-only
  -- here before it is added, which does not look at that.
  unfoldable pub global_add : Globals V → ℕ → Str → V → Option (ℕ × Globals V)
  unfolding follow
  global_add g add_position name val = do
    guard (leb 1 (length name.bytes) && leb (length name.bytes) max_variable_length)
    guard name.readonly
    let old_size = length g.environment.values
    (aindex, environment) ← env_add_entry null g.environment val
    let new_size = length environment.values
    new_mvars ← follow system old_size new_size g.mvars
    new_names ← follow none old_size new_size g.global_names
    mvars ← store new_mvars aindex (marked var_normal)
    global_names ← store new_names aindex (some name)
    global ←
        table_add_sym_fast add_depth g.global add_position
          (record { name = name; val = some aindex; readonly = true })
    some (
      aindex,
      record {
        environment = environment;
        env_values = environment.values;
        global = global;
        mvars = mvars;
        global_names = global_names;
      },
    )

  -- A name that may still change is copied.
  unfoldable pub mglobal_lookup : Globals V → Str → Option (ℕ × Globals V)
  mglobal_lookup g name = do
    found ← table_find g.global name.bytes
    elim found [
      | at i ↦ do sym ← cell g.global.buckets i; ofs ← sym.val; some (ofs, g)
      | vacant p ↦ global_add g p (record { bytes = name.bytes; readonly = true }) null
      | full ↦ none
    ]

  unfoldable pub global_lookup : Globals V → List ℕ → Option (ℕ × Globals V)
  global_lookup g name = mglobal_lookup g (record { bytes = name; readonly = true })

  -- The first global is `null`, whose index is 0; else `abort`.
  unfoldable pub global_init : Option (Globals V)
  unfolding alloc_env alloc_vector
  global_init = do
    environment ← alloc_env null global_size
    mvars ← alloc_vector system global_size
    global_names ← alloc_vector none global_size
    (first, g) ←
        mglobal_lookup
          (record {
            environment = environment;
            env_values = environment.values;
            global = alloc_table global_size;
            mvars = mvars;
            global_names = global_names;
          })
          (record { bytes = 110 ∷ 117 ∷ 108 ∷ 108 ∷ []; readonly = true })
    guard (first == 0)
    some g

module _ {V : Type 0} where
  -- The index of a known global.
  unfoldable pub global_exists : Globals V → List ℕ → Option (Option ℕ)
  global_exists g name = do
    found ← table_find g.global name
    elim found [
      | at i ↦ do sym ← cell g.global.buckets i; ofs ← sym.val; some (some ofs)
      | _ ↦ some none
    ]

  -- `maxseclevel` is the greatest level of the calling session, `seclevel_globals` is
  -- `SECLEVEL_GLOBALS`. The outer Option is a failed assertion.
  module _ (maxseclevel seclevel_globals : ℕ) where
    unfoldable pub check_global_write : Globals V → ℕ → Option (Result (Unit {0}))
    check_global_write g goffset = do
      guard (ltb goffset (length g.global_names))
      mvar ← get_elem? g.mvars goffset
      some (
          if is_mutable mvar
          then returned tt
          else if gconstant mvar
          then raised variable_read_only
          else if ltb maxseclevel seclevel_globals
          then raised security_violation
          else returned tt)

    unfoldable pub check_global_read : Globals V → ℕ → Option (Result (Unit {0}))
    check_global_read g goffset =
        if leb seclevel_globals maxseclevel then some (returned tt) else do
          guard (ltb goffset (length g.global_names))
          status ← module_vstatus g.mvars goffset
          some (if readable status.0 then returned tt else raised security_violation)
