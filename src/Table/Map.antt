-- ===== src/Table/Map.antt =====
-- A symbol table of table.c as a map from names to symbols: what a lookup returns after a symbol
-- has been added or a name removed.
use mudlle.Prelude.{
  ℕ, ◌+◌, ◌≡◌, ◌≢◌, ◌↔◌, refl, inl, inr, List, true, Option, none, some, ap, sym, ◌∙◌,
  if◌then◌else◌, Bool-cases,
}
use mudlle.Table.{
  Symbol, Table, same_name, get_methods, table_entries, table_lookup_len, table_remove_len,
  table_add_sym_fast,
}
use mudlle.Table.Probe.{vacant}
use mudlle.Table.Probe.Placed.{Holds}
use mudlle.Table.Valid.{fold, get_methods-Folds, IsValid, Finds}
use mudlle.Table.Lookup.{HoldsNamed, table_lookup_len_iff, option_ext}
use mudlle.Table.Grow.{HasSpace, Writable, Adds}
use mudlle.Table.Add.{table_add_sym_fast-Adds}
use mudlle.Table.Remove.{Removes, table_remove_len-Removes}

module _ {V : Type 0} where
  -- A lookup is known from the symbols that the table holds.
  pub lookup_by :
      (t : Table V)
      → IsValid t
      → (name : List ℕ) (o : Option (Symbol V))
      → ((s : Symbol V) → (o ≡ some s) ↔ HoldsNamed t name s)
      → table_lookup_len t name ≡ some o
  lookup_by t v name o h =
      let (r, ran, iff) = table_lookup_len_iff t v name in
      ran ∙ ap some (option_ext r o (λ s. (λ e. (h s).1 ((iff s).0 e), λ e. (iff s).1 ((h s).0 e))))

  lookup-Removes :
      (t u : Table V) (name other : List ℕ) (o : Option (Symbol V))
      → IsValid t
      → Removes t name o u
      → table_lookup_len u other
        ≡ (if same_name (get_methods t) name other then some none else table_lookup_len t other)
  lookup-Removes t u name other o v d = elim (Bool-cases (same_name (get_methods t) name other)) [
    | inl same ↦ rw same (
        lookup_by u d.valid other none (λ s. (
          λ q. cc,
          λ h. absurd (
              ((d.holds s).0 h.0).1
                (((get_methods-Folds t).same_iff name other).0 same ∙ (rw d.kind at h).1)),
        )))
    | inr ne ↦
        let (r, ran, iff) = table_lookup_len_iff t v other in
        rw (ne, ran)
          (lookup_by u d.valid other r (λ s. (
            λ q.
                let h = (iff s).0 q in
                (
                  (d.holds s).1 (
                    h.0,
                    λ e.
                        (let same = ((get_methods-Folds t).same_iff name other).1 (e ∙ sym h.1) in
                          cc),
                  ),
                  rw d.kind h.1,
                ),
            λ h. (iff s).1 (((d.holds s).0 h.0).0, rw d.kind at (h.1)),
          )))
  ]

  lookup-Adds :
      (t u : Table V) (x : Symbol V) (other : List ℕ)
      → IsValid t
      → ((s : Symbol V) → Holds t.buckets s → fold t x.name.bytes ≢ fold t s.name.bytes)
      → Adds t 1 (λ s. s ≡ x) u
      → table_lookup_len u other ≡ (
          if same_name (get_methods t) x.name.bytes other
          then some (some x)
          else table_lookup_len t other)
  lookup-Adds t u x other v new a =
      elim (Bool-cases (same_name (get_methods t) x.name.bytes other)) [
        | inl same ↦
            let e = ((get_methods-Folds t).same_iff x.name.bytes other).0 same in
            rw same (
              lookup_by u a.valid other (some x) (λ s. (
                λ q.
                    (let xs : x ≡ s = cc in
                      let hx : HoldsNamed u other x =
                        ((a.holds x).1 (inr refl), rw a.kind (sym e)) in
                      rw xs at hx),
                λ h. elim ((a.holds s).0 h.0) [
                  | inl k ↦ absurd (new s k (e ∙ (rw a.kind at (h.1))))
                  | inr q ↦ ap some (sym q)
                ],
              )))
        | inr ne ↦
            let (r, ran, iff) = table_lookup_len_iff t v other in
            rw (ne, ran)
              (lookup_by u a.valid other r (λ s. (
                λ q. (let h = (iff s).0 q in ((a.holds s).1 (inl h.0), rw a.kind h.1)),
                λ h. elim ((a.holds s).0 h.0) [
                  | inl k ↦ (iff s).1 (k, rw a.kind at (h.1))
                  | inr q ↦
                      (let e = sym (rw (a.kind, q) at (h.1)) in
                        let same = ((get_methods-Folds t).same_iff x.name.bytes other).1 e in cc)
                ],
              )))
      ]

  -- After a symbol of a new name has been added at the cell that `table_find` gave, a lookup
  -- returns it for every name that the table takes for its name, and for any other name what it
  -- returned before. The table has fewer than MAX_TABLE_ENTRIES symbols and at most 2 ^ 20 cells
  -- and is writable, and the name is read-only.
  pub lookup-add :
      (t : Table V) (v : IsValid t) (p : ℕ) (x : Symbol V)
      → Finds t v x.name.bytes (vacant p)
      → x.name.readonly ≡ true
      → Writable t
      → HasSpace t
      → (u : Table V) × (table_add_sym_fast 3 t p x ≡ some u)
        × IsValid u
        × (table_entries u ≡ table_entries t + 1)
        × ((other : List ℕ)
            → table_lookup_len u other ≡ (
                if same_name (get_methods t) x.name.bytes other
                then some (some x)
                else table_lookup_len t other))
  lookup-add t v p x f ro w small =
      let (u, ran, a) = table_add_sym_fast-Adds t v p x f ro w 0 small in
      (u, ran, a.valid, a.entries, λ other. lookup-Adds t u x other v (λ s h. f.3 h.0 s h.1) a)

  -- Removing a name from a table that is in order returns what a lookup of the name returned, keeps
  -- the table in order, and afterwards a lookup returns nothing for every name that the table takes
  -- for this one, and for any other name what it returned before.
  pub lookup-remove :
      (t : Table V)
      → IsValid t
      → (name : List ℕ)
      → (o : Option (Symbol V)) × (u : Table V) × (table_remove_len t name ≡ some (o, u))
        × (table_lookup_len t name ≡ some o)
        × IsValid u
        × ((other : List ℕ)
            → table_lookup_len u other ≡ (
                if same_name (get_methods t) name other
                then some none
                else table_lookup_len t other))
  lookup-remove t v name =
      let (r, ran, d) = table_remove_len-Removes t v name in
      (r.0, r.1, ran, d.looked_up, d.valid, λ other. lookup-Removes t r.1 name other r.0 v d)
