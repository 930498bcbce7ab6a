-- ===== src/Tests/GlobalRuns.antt =====
-- global.c at concrete states: a table of eight cells, and the variable "x".
use mudlle.Prelude.{ℕ, ◌≡◌, ◌↔◌, refl, some, none, [], ◌∷◌, arith, true, false, leb, get_elem?}
use mudlle.Table.{Str, alloc_table, same_name, get_methods}
use mudlle.Global.{Globals, global_init, mglobal_lookup, check_global_write, check_global_read}
use mudlle.Global.Valid.{IsValid, blank, blank-IsValid}
use mudlle.Global.Lookup.{
  GlobalLookup, global_init-IsValid, mglobal_lookup-GlobalLookup, global_exists-same_name,
}
use mudlle.Global.Access.{write_verdict, read_verdict, check_global-verdict}
use mudlle.Module.{marked, var_normal, module_vstatus}

abbrev start : Globals ℕ
start = blank 0 8

start-IsValid : IsValid start
start-IsValid = blank-IsValid 0 3 8 (omega arith) refl

-- "x", a string that may change
abbrev x_name : Str
x_name = record { bytes = 120 ∷ []; readonly = false }

mglobal_lookup-GlobalLookup_example :
    (i : ℕ) × (r : Globals ℕ) × (mglobal_lookup 0 start x_name ≡ some (i, r))
    × GlobalLookup 0 start (120 ∷ []) i r
unfolding alloc_table
mglobal_lookup-GlobalLookup_example =
    mglobal_lookup-GlobalLookup 0 start start-IsValid x_name (omega arith, omega arith)
      (omega arith, omega arith) (omega arith, λ h. omega arith)

with_x :
    (i : ℕ) × (r : Globals ℕ) × (mglobal_lookup 0 start x_name ≡ some (i, r))
    × GlobalLookup 0 start (120 ∷ []) i r
unfolding alloc_table
with_x =
    mglobal_lookup-GlobalLookup 0 start start-IsValid x_name (omega arith, omega arith)
      (omega arith, omega arith) (omega arith, λ h. omega arith)

global_exists-same_name_example :
    ◌≡◌ {A = ℕ} with_x.0 with_x.0
    ↔ (same_name (get_methods with_x.1.global) (120 ∷ []) (120 ∷ []) ≡ true)
global_exists-same_name_example =
    global_exists-same_name with_x.1 with_x.3.valid (120 ∷ []) (120 ∷ []) with_x.0 with_x.0
      with_x.3.exists with_x.3.exists

-- The state after `global_init`, whose variable 0 is normal.
made :
    (g : Globals ℕ) × (global_init 0 ≡ some g)
    × IsValid g
    × (g.environment.used ≡ 1)
    × (get_elem? g.mvars 0 ≡ some (marked var_normal))
made = global_init-IsValid 0

abbrev initial : Globals ℕ
initial = made.0

check_global-verdict_example :
    (module_vstatus initial.mvars 0 ≡ some (var_normal, none))
    × (check_global_write 5 9 initial 0 ≡ some (write_verdict var_normal (leb 9 5)))
    × (check_global_read 5 9 initial 0 ≡ some (read_verdict var_normal (leb 9 5)))
check_global-verdict_example =
    check_global-verdict 5 9 initial made.2 0 (marked var_normal) (omega (arith, made.3)) made.4
      refl
