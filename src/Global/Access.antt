-- ===== src/Global/Access.antt =====
-- global.c: who may write and read a global variable, by the status that module.c gives it.
use mudlle.Prelude.{
  ℕ, ◌<◌, ◌≡◌, Bool, true, false, some, arith, length, get_elem?, leb, ltb, lt→ltb, if◌then◌else◌,
  Bool-cases, inl, inr,
}
use mudlle.Error.{Result, raised, returned, variable_read_only, security_violation}
use mudlle.Module.{
  Mvar, Vstatus, var_normal, var_write, marked, var_system_mutable, var_system_write, var_module,
  status_of, module_vstatus,
}
use mudlle.Global.{Globals, check_global_write, check_global_read}
use mudlle.Global.Valid.{IsValid}

-- An integer entry is no status of an owner, which are a name or null.
abbrev pub is_plain : Mvar → Bool
is_plain (marked var_module) = false
is_plain (marked var_system_write) = false
is_plain _ = true

-- The verdict on a write, by the status.
abbrev pub write_verdict : Vstatus → Bool → Result (Unit {0})
write_verdict var_system_mutable trusted = returned tt
write_verdict var_system_write trusted = raised variable_read_only
write_verdict var_module trusted = raised variable_read_only
write_verdict _ trusted = if trusted then returned tt else raised security_violation

-- The verdict on a read.
abbrev pub read_verdict : Vstatus → Bool → Result (Unit {0})
read_verdict var_normal trusted = if trusted then returned tt else raised security_violation
read_verdict var_write trusted = if trusted then returned tt else raised security_violation
read_verdict var_module trusted = returned tt
read_verdict var_system_write trusted = returned tt
read_verdict var_system_mutable trusted = returned tt

module _ {V : Type 0} (maxseclevel seclevel_globals : ℕ) where
  -- In a valid state, for a variable whose entry is plain: the checks fail no assertion. By the
  -- status that module_vstatus gives: a system-mutable variable can always be written, one that a
  -- module or the system owns never, any other only with the security level of globals; with that
  -- level every variable can be read, else only those of the system or a module.
  pub check_global-verdict :
      (g : Globals V)
      → IsValid g
      → (n : ℕ) (m : Mvar) → n < g.environment.used
      → get_elem? g.mvars n ≡ some m
      → is_plain m ≡ true
      → let status = (status_of m).0 in
        let trusted = leb seclevel_globals maxseclevel in
        (module_vstatus g.mvars n ≡ some (status_of m))
        × (check_global_write maxseclevel seclevel_globals g n
            ≡ some (write_verdict status trusted))
        × (check_global_read maxseclevel seclevel_globals g n ≡ some (read_verdict status trusted))
  unfolding module_vstatus check_global_write check_global_read
  check_global-verdict g valid n m lt entry plain =
      let inside : ltb n (length g.global_names) ≡ true =
        lt→ltb n (length g.global_names) (omega (arith, valid.names, valid.fits)) in
      (
        rw entry,
        rw (inside, entry) (ground arith),
        elim (Bool-cases (leb seclevel_globals maxseclevel)) [
          | inl e ↦ rw e (ground arith)
          | inr e ↦ rw (e, inside, entry) (ground arith)
        ],
      )
