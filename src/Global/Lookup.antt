-- ===== src/Global/Lookup.antt =====
-- global.c: looking up a name, with a new variable for a name that is not known.
use mudlle.Prelude.{
  ℕ, ◌≤◌, ◌<◌, ◌≡◌, ◌↔◌, ◌⊎◌, inl, inr, refl, sym, ap, ◌∙◌, Bool, true, Option, some, none, List,
  [], ◌∷◌, length-replicate, arith, length, ◌>>=◌, get_elem?,
}
use mudlle.Table.{Str, Symbol, alloc_table, table_find, table_lookup_len, same_name, get_methods}
use mudlle.Table.Probe.{Found, at, vacant, full, cell}
use mudlle.Table.Valid.{fold, get_methods-Folds, Finds, table_find-Finds}
use mudlle.Table.Grow.{HasSpace}
use mudlle.Table.Lookup.{same_cell}
use mudlle.ObjEnv.{alloc_env}
use mudlle.ObjEnv.Growth.{CanAdd}
use mudlle.Module.{marked, var_normal}
use mudlle.Global.{Globals, global_size, global_init, global_exists, mglobal_lookup}
use mudlle.Global.Valid.{blank, blank-IsValid, IsValid, AddsGlobal, global_add-AddsGlobal}

module _ {V : Type 0} (null : V) where
  -- A name that the table has under some index.
  known :
      (g : Globals V)
      → IsValid g
      → (name : Str) (s : Symbol ℕ) (i : ℕ) → table_lookup_len g.global name.bytes ≡ some (some s)
      → s.val ≡ some i
      → (mglobal_lookup null g name ≡ some (i, g)) × (global_exists g name.bytes ≡ some (some i))
  unfolding mglobal_lookup global_exists table_lookup_len
  known g valid name s i there val =
      let (f, ran, finds) = table_find-Finds g.global valid.table name.bytes in go f ran finds
    where
      go :
          (f : Found)
          → table_find g.global name.bytes ≡ some f
          → Finds g.global valid.table name.bytes f
          → (mglobal_lookup null g name ≡ some (i, g))
            × (global_exists g name.bytes ≡ some (some i))
      go (at j) ran (s', es, e) =
          let same : s' ≡ s = (let p = rw (ran, ◌>>=◌, es) at there in cc) in
          let val' : s'.val ≡ some i = ap (λ (x : Symbol ℕ). x.val) same ∙ val in
          (rw (ran, ◌>>=◌, es, val'), rw (ran, ◌>>=◌, es, val'))
      go (vacant p) ran finds = absurd (let p = rw (ran, ◌>>=◌) at there in cc)
      go full ran d = absurd d

  -- What looking up `name` in `g` gave: the index `i`, with the state `r`.
  pub record GlobalLookup (g : Globals V) (name : List ℕ) (i : ℕ) (r : Globals V) : Type 0 where
    pub valid : IsValid r
    pub index : i < r.environment.used
    pub exists : global_exists r name ≡ some (some i)
    pub again :
        (readonly : Bool)
        → mglobal_lookup null r (record { bytes = name; readonly = readonly }) ≡ some (i, r)
    pub outcome :
        ((global_exists g name ≡ some (some i)) × (r ≡ g))
        ⊎ ((global_exists g name ≡ some none)
            × (i ≡ g.environment.used)
            × AddsGlobal null g (record { bytes = name; readonly = true }) r)

  module _ (g : Globals V) (valid : IsValid g) (name : Str)
      (short : (1 ≤ length name.bytes) × (length name.bytes ≤ 1024)) (small : HasSpace g.global)
      (room : CanAdd null g.environment) where
    -- In a valid state, for a name of 1 to 1024 bytes, a table of fewer than MAX_TABLE_ENTRIES
    -- symbols and at most 2 ^ 20 cells, and values of which one is free or which can grow, no
    -- assertion fails. A known name gives its index and changes nothing. A new name gives the next
    -- index: its value is NULL, its status var_normal, and the other variables are as before. The
    -- state is valid after it, the name is known, and looking it up again gives the same index and
    -- changes nothing.
    pub mglobal_lookup-GlobalLookup :
        (i : ℕ) × (r : Globals V) × (mglobal_lookup null g name ≡ some (i, r))
        × GlobalLookup g name.bytes i r
    unfolding mglobal_lookup global_exists table_lookup_len
    mglobal_lookup-GlobalLookup =
        let (f, ran, finds) = table_find-Finds g.global valid.table name.bytes in go f ran finds
      where
        go :
            (f : Found)
            → table_find g.global name.bytes ≡ some f
            → Finds g.global valid.table name.bytes f
            → (i : ℕ) × (r : Globals V) × (mglobal_lookup null g name ≡ some (i, r))
              × GlobalLookup g name.bytes i r
        go (at j) ran (s, es, e) =
            let there : table_lookup_len g.global name.bytes ≡ some (some s) =
              rw (ran, ◌>>=◌, es) in
            let (i, val, lt, _) = valid.found name.bytes s there in
            let (run, exists) = known g valid name s i there val in
            (
              i,
              g,
              run,
              record {
                valid = valid;
                index = lt;
                exists = exists;
                again = λ ro.
                    (known g valid (record { bytes = name.bytes; readonly = ro }) s i there val).0;
                outcome = inl (exists, refl);
              },
            )
        go (vacant p) ran finds =
            let (r, run, a) =
              global_add-AddsGlobal null g valid p name.bytes finds short small room in
            let (s, _, val, looked) = a.looked_up in
            let same = ((get_methods-Folds g.global).same_iff name.bytes name.bytes).1 refl in
            let there : table_lookup_len r.global name.bytes ≡ some (some s) =
              rw same at (looked name.bytes) in
            (
              g.environment.used,
              r,
              rw (ran, ◌>>=◌) run,
              record {
                valid = a.valid;
                index = omega (arith, a.used);
                exists =
                    (known r a.valid (record { bytes = name.bytes; readonly = true }) s
                      g.environment.used there val).1;
                again = λ ro.
                    (known r a.valid (record { bytes = name.bytes; readonly = ro }) s
                      g.environment.used there val).0;
                outcome = inr (rw (ran, ◌>>=◌), refl, a);
              },
            )
        go full ran d = absurd d

-- `global_init` does not abort, and gives a valid state whose one variable is `null`.
pub global_init-IsValid :
    {V : Type 0} (null : V)
    → (g : Globals V) × (global_init null ≡ some g)
      × IsValid g
      × (g.environment.used ≡ 1)
      × (get_elem? g.mvars 0 ≡ some (marked var_normal))
unfolding global_init alloc_env alloc_table
global_init-IsValid null =
    let start = blank null global_size in
    let (i, r, run, l) =
      mglobal_lookup-GlobalLookup null start (blank-IsValid null 9 512 (omega arith) refl)
        (record { bytes = 110 ∷ 117 ∷ 108 ∷ 108 ∷ []; readonly = true }) (omega arith, omega arith)
        (let n = length-replicate {A = Option (Symbol ℕ)} 512 none in (omega arith, omega arith))
        (let n = length-replicate 512 null in (omega arith, λ h. omega arith)) in
    elim l.outcome [
      | inl (exists, e) ↦ absurd (let lt = rw e at l.index in omega arith)
      | inr (exists, e, a) ↦ (r, rw (run, e), l.valid, a.used, a.status)
    ]

module _ {V : Type 0} (g : Globals V) (valid : IsValid g) where
  -- The symbol behind a known name.
  behind :
      (name : List ℕ) (i : ℕ)
      → global_exists g name ≡ some (some i)
      → (j : ℕ) × (s : Symbol ℕ) × (cell g.global.buckets j ≡ some s)
        × (fold g.global name ≡ fold g.global s.name.bytes)
        × (s.val ≡ some i)
        × (get_elem? g.global_names i ≡ some (some s.name))
  unfolding global_exists table_lookup_len
  behind name i ex =
      let (f, ran, finds) = table_find-Finds g.global valid.table name in go f ran finds
    where
      go :
          (f : Found)
          → table_find g.global name ≡ some f
          → Finds g.global valid.table name f
          → (j : ℕ) × (s : Symbol ℕ) × (cell g.global.buckets j ≡ some s)
            × (fold g.global name ≡ fold g.global s.name.bytes)
            × (s.val ≡ some i)
            × (get_elem? g.global_names i ≡ some (some s.name))
      go (at j) ran (s, es, e) =
          let (k, val, lt, nm) = valid.found name s (rw (ran, ◌>>=◌, es)) in
          let same : k ≡ i = (let p = rw (ran, ◌>>=◌, es, val) at ex in cc) in
          (j, s, es, e, val ∙ ap some same, rw same at nm)
      go (vacant p) ran finds = absurd (let p = rw (ran, ◌>>=◌) at ex in cc)
      go full ran d = absurd d

  -- Two names that a valid state knows have one index exactly when the table of the globals takes
  -- them for one name.
  pub global_exists-same_name :
      (a b : List ℕ) (i j : ℕ)
      → global_exists g a ≡ some (some i)
      → global_exists g b ≡ some (some j)
      → (i ≡ j) ↔ (same_name (get_methods g.global) a b ≡ true)
  global_exists-same_name a b i j ea eb =
      let (ia, sa, ca, fa, va, na) = behind a i ea in
      let (ib, sb, cb, fb, vb, nb) = behind b j eb in
      let folds = get_methods-Folds g.global in
      (
        λ e.
            let one : sa.name ≡ sb.name = (let p = rw e at na in cc) in
            (folds.same_iff a b).1 (fa ∙ ap (λ (n : Str). fold g.global n.bytes) one ∙ sym fb),
        λ same.
            let alike : fold g.global sb.name.bytes ≡ fold g.global sa.name.bytes =
              sym fb ∙ sym ((folds.same_iff a b).0 same) ∙ fa in
            let there : ia ≡ ib = same_cell g.global valid.table ia ib sa sb ca cb (sym alike) in
            let one : sa ≡ sb = (let p = rw there at ca in cc) in
            let val : sa.val ≡ sb.val = ap (λ (x : Symbol ℕ). x.val) one in cc,
      )
