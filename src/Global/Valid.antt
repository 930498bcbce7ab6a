-- ===== src/Global/Valid.antt =====
-- global.c: the table of names and the three vectors in step, and adding a variable.
use mudlle.Prelude.{
  ℕ, ◌+◌, ◌^◌, ◌≤◌, ◌<◌, ◌≡◌, refl, sym, ap, ◌∙◌, subst, true, Option, some, none, List, [], ◌∷◌,
  ◌++◌, arith, length, replicate, set, get_elem?, ltb, lt→ltb, le→leb, ◌==◌, if◌then◌else◌, ◌>>=◌,
  ℕ_discrete, length-set, length-replicate, get_elem?-set_self, get_elem?-set_ne, Bool-cases, inl,
  inr,
}
use mudlle.Table.{
  Str, Symbol, Table, get_methods, same_name, table_lookup_len, table_add_sym_fast, alloc_table,
}
use mudlle.Table.Probe.{vacant}
use mudlle.Table.Valid.{get_methods-Folds, Finds}
use mudlle.Table.Valid
use mudlle.Table.Grow.{HasSpace, Writable}
use mudlle.Table.Lookup.{table_lookup_len_iff}
use mudlle.Table.Add.{empty-IsValid, nothing-held, table_add_sym_fast-Adds}
use mudlle.Table.Map.{lookup-add}
use mudlle.Table.Access.Set.{no_value}
use mudlle.Alloc.{max_vector_size, alloc_vector-fits}
use mudlle.ObjEnv.{memcpy}
use mudlle.ObjEnv.Reserve
use mudlle.ObjEnv.Reserve.{entries, length-memcpy, get_elem?-memcpy}
use mudlle.ObjEnv.Growth.{CanAdd, env_add_entry-CanAdd}
use mudlle.Module.{marked, system, var_normal}
use mudlle.Global.{Globals, follow, global_add}

-- The vector is as long as the values, and keeps its entries.
follow-Keeps :
    {A : Type 0} (unset : A) (old_size new_size : ℕ) (vec : List A)
    → length vec ≡ old_size
    → old_size ≤ new_size
    → new_size ≤ max_vector_size
    → (vec' : List A) × (follow unset old_size new_size vec ≡ some vec')
      × (length vec' ≡ new_size)
      × ((i : ℕ) → i < old_size → get_elem? vec' i ≡ get_elem? vec i)
unfolding follow
follow-Keeps unset old_size new_size vec len grows fits = elim (Bool-cases (new_size == old_size)) [
  | inl e ↦ (vec, rw e refl, ground arith, λ i lt. refl)
  | inr e ↦
      let newp = replicate new_size unset in
      let room : length vec ≤ length newp = rw (len, length-replicate new_size unset) grows in
      (
        memcpy newp vec (length vec),
        rw e (rw (alloc_vector-fits unset new_size fits) refl),
        length-memcpy newp vec (length vec) (omega arith) room ∙ length-replicate new_size unset,
        λ i lt. get_elem?-memcpy newp vec (length vec) i (omega arith) (omega arith),
      )
]

module _ {V : Type 0} where
  -- The name of variable `i` is `name`, and the table has `i` under it.
  abbrev pub Names : Globals V → ℕ → Str → Type 0
  Names g i name =
      (get_elem? g.global_names i ≡ some (some name))
      × ((s : Symbol ℕ) × (table_lookup_len g.global name.bytes ≡ some (some s)) × (s.val ≡ some i))

  pub record IsValid (g : Globals V) : Type 0 where
    pub table : Valid.IsValid g.global
    pub writable : Writable g.global
    pub fits : Reserve.IsValid g.environment
    pub aliased : g.env_values ≡ g.environment.values
    pub mvars : length g.mvars ≡ length g.environment.values
    pub names : length g.global_names ≡ length g.environment.values
    -- What the table finds is the index of a variable, whose name is that of the symbol.
    pub found :
        (name : List ℕ) (s : Symbol ℕ)
        → table_lookup_len g.global name ≡ some (some s)
        → (i : ℕ) × (s.val ≡ some i)
          × (i < g.environment.used)
          × (get_elem? g.global_names i ≡ some (some s.name))
    -- Each variable has a name, under which the table finds it.
    pub named : (i : ℕ) → i < g.environment.used → (name : Str) × Names g i name

  -- What adding the variable `name` made of `g`.
  pub record AddsGlobal (null_value : V) (g : Globals V) (name : Str) (r : Globals V) : Type 0 where
    pub valid : IsValid r
    pub used : r.environment.used ≡ g.environment.used + 1
    pub values : entries r.environment ≡ entries g.environment ++ null_value ∷ []
    pub status : get_elem? r.mvars g.environment.used ≡ some (marked var_normal)
    pub others :
        (i : ℕ)
        → i < g.environment.used
        → (get_elem? r.mvars i ≡ get_elem? g.mvars i)
          × (get_elem? r.global_names i ≡ get_elem? g.global_names i)
    pub looked_up :
        (s : Symbol ℕ) × (s.name ≡ name)
        × (s.val ≡ some g.environment.used)
        × ((other : List ℕ)
            → table_lookup_len r.global other ≡ (
                if same_name (get_methods g.global) name.bytes other
                then some (some s)
                else table_lookup_len g.global other))

  module _ (null : V) (g : Globals V) (valid : IsValid g) (p : ℕ) (bytes : List ℕ)
      (finds : Finds g.global valid.table bytes (vacant p))
      (short : (1 ≤ length bytes) × (length bytes ≤ 1024)) (small : HasSpace g.global)
      (room : CanAdd null g.environment) where
    abbrev name : Str
    name = record { bytes = bytes; readonly = true }

    -- The table that has the new name too, and names that go on as before.
    module _ (u : Table ℕ) (names' : List (Option Str)) (used' : ℕ)
        (looked : (other : List ℕ)
          → table_lookup_len u other ≡ (
              if same_name (get_methods g.global) bytes other
              then some
                  (some (record { name = name; val = some g.environment.used; readonly = true }))
              else table_lookup_len g.global other))
        (kept : (i : ℕ) → i < g.environment.used → get_elem? names' i ≡ get_elem? g.global_names i)
        (here : get_elem? names' g.environment.used ≡ some (some name))
        (more : used' ≡ g.environment.used + 1) where
      abbrev new : Symbol ℕ
      new = record { name = name; val = some g.environment.used; readonly = true }

      found_after :
          (nm : List ℕ) (s : Symbol ℕ)
          → table_lookup_len u nm ≡ some (some s)
          → (i : ℕ) × (s.val ≡ some i) × (i < used') × (get_elem? names' i ≡ some (some s.name))
      found_after nm s e = elim (Bool-cases (same_name (get_methods g.global) bytes nm)) [
        | inl same ↦
            let it : new ≡ s = (let p = rw same at (looked nm) in cc) in
            (
              g.environment.used,
              sym (ap (λ (x : Symbol ℕ). x.val) it),
              omega arith,
              here ∙ ap (λ (x : Symbol ℕ). some (some x.name)) it,
            )
        | inr other ↦
            let old : table_lookup_len g.global nm ≡ some (some s) =
              (let p = rw other at (looked nm) in cc) in
            let (i, val, lt, at) = valid.found nm s old in (i, val, omega arith, kept i lt ∙ at)
      ]

      named_after :
          (i : ℕ)
          → i < used'
          → (nm : Str) × ((get_elem? names' i ≡ some (some nm))
              × ((s : Symbol ℕ) × (table_lookup_len u nm.bytes ≡ some (some s)) × (s.val ≡ some i)))
      named_after i lt = elim (ℕ_discrete i g.environment.used) [
        | yes e ↦
            let same = ((get_methods-Folds g.global).same_iff bytes bytes).1 refl in
            (name, (rw e here, (new, rw same at (looked bytes), rw e)))
        | no ne ↦
            let (nm, (at, (s, l, val))) = valid.named i (omega arith) in
            (nm, (kept i (omega arith) ∙ at, (s, unaffected nm s l, val)))
      ]
        where
          unaffected :
              (nm : Str) (s : Symbol ℕ)
              → table_lookup_len g.global nm.bytes ≡ some (some s)
              → table_lookup_len u nm.bytes ≡ some (some s)
          unaffected nm s l = elim (Bool-cases (same_name (get_methods g.global) bytes nm.bytes)) [
            | inl same ↦
                absurd
                  (let none_there = no_value g.global valid.table bytes nm.bytes finds.3 same in cc)
            | inr other ↦ (rw other at (looked nm.bytes)) ∙ l
          ]

    pub global_add-AddsGlobal :
        (r : Globals V) × (global_add null g p name null ≡ some (g.environment.used, r))
        × AddsGlobal null g name r
    unfolding global_add
    global_add-AddsGlobal =
        let env = g.environment in
        let new : Symbol ℕ = record { name = name; val = some env.used; readonly = true } in
        let (env', run, a, fits) = env_add_entry-CanAdd null env null valid.fits room in
        let (u, added, uv, _, looked) =
          lookup-add g.global valid.table p new finds refl valid.writable small in
        let grows : length env.values ≤ length env'.values = rw a.size (ground arith) in
        let inside : env.used < length env'.values = omega (arith, a.valid, a.used) in
        let (mvars', mvars_run, mvars_len, mvars_kept) =
          follow-Keeps system (length env.values) (length env'.values) g.mvars valid.mvars grows
            fits in
        let (names', names_run, names_len, names_kept) =
          follow-Keeps none (length env.values) (length env'.values) g.global_names valid.names
            grows fits in
        let mvars_in : ltb env.used (length mvars') ≡ true =
          lt→ltb env.used (length mvars') (omega arith) in
        let names_in : ltb env.used (length names') ≡ true =
          lt→ltb env.used (length names') (omega arith) in
        let kept : (i : ℕ)
            → i < env.used
            → get_elem? (set names' env.used (some name)) i ≡ get_elem? g.global_names i =
          λ i lt.
            get_elem?-set_ne names' (some name) (omega arith)
            ∙ names_kept i (omega (arith, valid.fits)) in
        let here = get_elem?-set_self names' env.used (some name) (omega arith) in
        let long_enough = le→leb 1 (length bytes) short.0 in
        let short_enough = le→leb (length bytes) 1024 short.1 in
        (
          record {
            environment = env';
            env_values = env'.values;
            global = u;
            mvars = set mvars' env.used (marked var_normal);
            global_names = set names' env.used (some name);
          },
          rw (
            long_enough, short_enough, run, ◌>>=◌, mvars_run, names_run, mvars_in, names_in, added,
          ),
          record {
            valid = record {
              table = uv;
              writable = flags u added;
              fits = a.valid;
              aliased = refl;
              mvars = length-set mvars' env.used (marked var_normal) ∙ mvars_len;
              names = length-set names' env.used (some name) ∙ names_len;
              found =
                  found_after u (set names' env.used (some name)) env'.used looked kept here a.used;
              named =
                  named_after u (set names' env.used (some name)) env'.used looked kept here a.used;
            };
            used = a.used;
            values = a.kept;
            status = get_elem?-set_self mvars' env.used (marked var_normal) (omega arith);
            others = λ i lt. (
              get_elem?-set_ne mvars' (marked var_normal) (omega arith)
                  ∙ mvars_kept i (omega (arith, valid.fits)),
              kept i lt,
            );
            looked_up = (new, refl, refl, looked);
          },
        )
      where
        flags :
            (u : Table ℕ)
            → table_add_sym_fast 3 g.global p
                (record { name = name; val = some g.environment.used; readonly = true })
              ≡ some u
            → Writable u
        flags u ran =
            let (r, ran', adds) =
              table_add_sym_fast-Adds g.global valid.table p
                (record { name = name; val = some g.environment.used; readonly = true }) finds refl
                valid.writable 0 small in
            let same : r ≡ u = cc in subst Writable same adds.flags

-- The state that `global_init` starts from.
abbrev pub blank : {V : Type 0} → V → ℕ → Globals V
blank null size = record {
  environment = record { used = 0; values = replicate size null };
  env_values = replicate size null;
  global = alloc_table size;
  mvars = replicate size system;
  global_names = replicate size none;
}

pub blank-IsValid :
    {V : Type 0} (null : V) (bits size : ℕ)
    → bits < 32
    → size ≡ 2 ^ bits
    → IsValid (blank null size)
unfolding alloc_table
blank-IsValid null bits size small power =
    let table = empty-IsValid (alloc_table size) bits size small power refl refl in
    record {
      table = table;
      writable = (refl, refl);
      fits = omega arith;
      aliased = refl;
      mvars = length-replicate size system ∙ sym (length-replicate size null);
      names = length-replicate size none ∙ sym (length-replicate size null);
      found = λ name s e. absurd (
          let (r, ran, iff) = table_lookup_len_iff (alloc_table size) table name in
          let held = (iff s).0 (let p = sym ran ∙ e in cc) in nothing-held size s held.0);
      named = λ i lt. absurd (omega arith);
    }
