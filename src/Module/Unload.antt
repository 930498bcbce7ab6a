-- ===== src/Module/Unload.antt =====
-- module.c: what unloading a module does.
use mudlle.Prelude.{
  ℕ, ◌<◌, ◌≡◌, ◌≢◌, ◌⊎◌, ◌↔◌, inl, inr, refl, ◌∙◌, List, Bool, true, false, Option, none, some,
  ◌>>=◌, get_elem?, if◌then◌else◌,
}
use mudlle.Table.{Symbol, Table, get_methods, same_name, table_find, table_lookup_len}
use mudlle.Table.Probe.{Found, at, vacant, full, cell}
use mudlle.Table.Valid.{fold, get_methods-Folds, IsValid, Finds, table_find-Finds}
use mudlle.Table.Access.{assign}
use mudlle.Table.Access.Set.{lookup-assign, assign-IsValid, same_congr}
use mudlle.Module.{Mvar, unset_vars}
use mudlle.Module.Ownership.{GivenUp, unset_vars-GivenUp}
use mudlle.Module.Status.{
  ModuleStatus, module_unloaded, module_error, module_loading, module_loaded, module_protected,
  Vmodule, module_status, module_set, Modules, module_unload,
}

-- Each module has its vector.
abbrev pub HaveVectors : Table Vmodule → Type 0
HaveVectors table =
    (i : ℕ) (s : Symbol Vmodule) → cell table.buckets i ≡ some s → (v : Vmodule) × (s.val ≡ some v)

module _ (table : Table Vmodule) (valid : IsValid table) (name : List ℕ) (i : ℕ)
    (s : Symbol Vmodule) (v : Vmodule) (found : table_find table name ≡ some (at i))
    (here : cell table.buckets i ≡ some s) (val : s.val ≡ some v)
    (alike : fold table name ≡ fold table s.name.bytes) where
  known_status : module_status table name ≡ some v.status
  unfolding module_status table_lookup_len
  known_status = rw (found, ◌>>=◌, here, val) refl

  abbrev unloaded : Vmodule
  unloaded = record { status = module_unloaded; seclev = 0 }

  set_known : module_set table name module_unloaded 0 ≡ some (assign table i s (some unloaded))
  unfolding module_set
  set_known = rw (found, ◌>>=◌, here, val) refl

  -- The status of every module after that.
  status_after :
      (other : List ℕ)
      → module_status (assign table i s (some unloaded)) other ≡ (
          if same_name (get_methods table) name other
          then some module_unloaded
          else module_status table other)
  unfolding module_status
  status_after other =
      let read = lookup-assign table valid i s (some unloaded) here other in
      let same = same_congr table name s.name.bytes other alike in
      rw (module_status, read, same) (go (same_name (get_methods table) s.name.bytes other))
    where
      go :
          (b : Bool)
          → ((if b
                then some (some (record s { val = some unloaded }))
                else table_lookup_len table other)
              >>= λ sym. elim sym [
                | none ↦ some module_unloaded
                | some s ↦ s.val >>= λ v. some v.status
              ])
            ≡ (if b then some module_unloaded else module_status table other)
      go true = refl
      go false = refl

-- `module_unload` of `name` returned `done`.
pub record Unloaded {V : Type 0} (gsize : ℕ) (name : List ℕ) (m : Modules V) (status : ModuleStatus)
    (done : Bool) (r : Modules V) : Type 0 where
  pub valid : IsValid r.module_data
  pub refused : (done ≡ false) ↔ ((status ≡ module_loading) ⊎ (status ≡ module_protected))
  pub unchanged : (done ≡ false) ⊎ (status ≡ module_unloaded) → r ≡ m
  pub unloaded : done ≡ true → module_status r.module_data name ≡ some module_unloaded
  -- What was unloaded is the module under every form of its name, and no other module.
  pub modules :
      done ≡ true
      → status ≢ module_unloaded
      → (other : List ℕ)
      → module_status r.module_data other ≡ (
          if same_name (get_methods m.module_data) name other
          then some module_unloaded
          else module_status m.module_data other)
  pub variables :
      done ≡ true
      → status ≢ module_unloaded
      → (i : ℕ) (v : Mvar) (x : Option V) → i < gsize
      → get_elem? m.mvars i ≡ some v
      → get_elem? m.env_values i ≡ some x
      → GivenUp name v x (get_elem? r.mvars i) (get_elem? r.env_values i)

module _ {V : Type 0} (gsize : ℕ) (name : List ℕ) (m : Modules V)
    (valid : IsValid m.module_data) where
  abbrev pub UnloadOutcome : ModuleStatus → Type 0
  UnloadOutcome status =
      (done : Bool) × (r : Modules V) × (module_unload gsize name m ≡ some (done, r))
      × (module_status m.module_data name ≡ some status)
      × Unloaded gsize name m status done r

  refuse :
      (status : ModuleStatus)
      → (status ≡ module_loading) ⊎ (status ≡ module_protected)
      → module_status m.module_data name ≡ some status
      → module_unload gsize name m ≡ some (false, m)
      → UnloadOutcome status
  refuse status bad before runs = (
    false,
    m,
    runs,
    before,
    record {
      valid = valid;
      refused = (λ h. bad, λ h. refl);
      unchanged = λ h. refl;
      unloaded = λ h. absurd (cc);
      modules = λ h. absurd (cc);
      variables = λ h. absurd (cc);
    },
  )

  no_module :
      module_status m.module_data name ≡ some module_unloaded → UnloadOutcome module_unloaded
  unfolding module_unload
  no_module before = (
    true,
    m,
    rw (before, ◌>>=◌, module_unload) refl,
    before,
    record {
      valid = valid;
      refused = (λ h. absurd (cc), λ h. absurd (elim h [ inl e ↦ cc | inr e ↦ cc ]));
      unchanged = λ h. refl;
      unloaded = λ h. before;
      modules = λ h present. absurd (present refl);
      variables = λ h present. absurd (present refl);
    },
  )

  module _ (i : ℕ) (s : Symbol Vmodule) (status : ModuleStatus) (seclev : ℕ)
      (found : table_find m.module_data name ≡ some (at i))
      (here : cell m.module_data.buckets i ≡ some s)
      (val : s.val ≡ some (record { status = status; seclev = seclev }))
      (alike : fold m.module_data name ≡ fold m.module_data s.name.bytes) where
    abbrev table' : Table Vmodule
    table' = assign m.module_data i s (some (record { status = module_unloaded; seclev = 0 }))

    abbrev rest : Modules V
    rest =
        let unset = unset_vars gsize name m.mvars m.env_values in
        record { module_data = table'; mvars = unset.0; env_values = unset.1 }

    unload :
        ¬ ((status ≡ module_loading) ⊎ (status ≡ module_protected))
        → module_unload gsize name m ≡ some (true, rest)
        → status ≢ module_unloaded
        → UnloadOutcome status
    unload good runs present =
        let v : Vmodule = record { status = status; seclev = seclev } in
        let after = status_after m.module_data valid name i s v found here val alike in
        let self = ((get_methods-Folds m.module_data).same_iff name name).1 refl in
        (
          true,
          rest,
          runs,
          known_status m.module_data valid name i s v found here val alike,
          record {
            valid = assign-IsValid m.module_data valid i s _ here;
            refused = (λ h. absurd (cc), λ h. absurd (good h));
            unchanged = λ h. absurd (elim h [ inl e ↦ cc | inr e ↦ present e ]);
            unloaded = λ h. after name ∙ rw self refl;
            modules = λ h p other. after other;
            variables =
                λ h p i v x lt e f. unset_vars-GivenUp gsize name m.mvars m.env_values i v x lt e f;
          },
        )

  unload_known :
      (i : ℕ) (s : Symbol Vmodule) (status : ModuleStatus) (seclev : ℕ)
      → table_find m.module_data name ≡ some (at i)
      → cell m.module_data.buckets i ≡ some s
      → s.val ≡ some (record { status = status; seclev = seclev })
      → fold m.module_data name ≡ fold m.module_data s.name.bytes
      → UnloadOutcome status
  unfolding module_unload
  unload_known i s module_unloaded seclev found here val alike =
      no_module (known_status m.module_data valid name i s _ found here val alike)
  unload_known i s module_loading seclev found here val alike =
      let before = known_status m.module_data valid name i s _ found here val alike in
      refuse module_loading (inl refl) before (rw (before, ◌>>=◌, module_unload) refl)
  unload_known i s module_protected seclev found here val alike =
      let before = known_status m.module_data valid name i s _ found here val alike in
      refuse module_protected (inr refl) before (rw (before, ◌>>=◌, module_unload) refl)
  unload_known i s module_error seclev found here val alike =
      let before = known_status m.module_data valid name i s _ found here val alike in
      let set' = set_known m.module_data valid name i s _ found here val alike in
      unload i s module_error seclev found here val alike (λ h. elim h [ inl e ↦ cc | inr e ↦ cc ])
        (rw (before, ◌>>=◌, module_unload) (rw (set', ◌>>=◌) refl)) (λ e. cc)
  unload_known i s module_loaded seclev found here val alike =
      let before = known_status m.module_data valid name i s _ found here val alike in
      let set' = set_known m.module_data valid name i s _ found here val alike in
      unload i s module_loaded seclev found here val alike (λ h. elim h [ inl e ↦ cc | inr e ↦ cc ])
        (rw (before, ◌>>=◌, module_unload) (rw (set', ◌>>=◌) refl)) (λ e. cc)

  -- Unloading a module, where the table of the modules is in order and each has its vector, fails
  -- no assertion. It is refused, and changes nothing, exactly for a module that is loading or
  -- protected, and changes nothing for one that is not loaded. Else the module, under all that the
  -- table takes for its name, is unloaded and no other module changes; of the first `gsize`
  -- variables, those whose entry is its name, but for the case of letters, become normal and null,
  -- and the others stay.
  pub module_unload-Unloaded :
      HaveVectors m.module_data → (status : ModuleStatus) × UnloadOutcome status
  unfolding module_status table_lookup_len
  module_unload-Unloaded vectors =
      let (f, ran, finds) = table_find-Finds m.module_data valid name in go f ran finds
    where
      go :
          (f : Found)
          → table_find m.module_data name ≡ some f
          → Finds m.module_data valid name f
          → (status : ModuleStatus) × UnloadOutcome status
      go (at i) ran (s, es, e) =
          let (v, val) = vectors i s es in
          (v.status, unload_known i s v.status v.seclev ran es val e)
      go (vacant p) ran finds = (module_unloaded, no_module (rw (ran, ◌>>=◌) refl))
      go full ran d = absurd d
