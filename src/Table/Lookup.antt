-- ===== src/Table/Lookup.antt =====
-- What a lookup in a symbol table of table.c returns.
use mudlle.Prelude.{ℕ, ◌≡◌, ◌↔◌, refl, List, Option, none, some, sym, ◌∙◌, ◌>>=◌}
use mudlle.Table.{Symbol, Table, table_find, table_lookup_len}
use mudlle.Table.Probe.{Found, at, vacant, full, cell}
use mudlle.Table.Probe.Placed.{Holds}
use mudlle.Table.Valid.{fold, get_methods-Folds, IsValid, Finds, table_find-Finds}

module _ {V : Type 0} where
  -- The table holds the symbol, under a name that folds as this one.
  abbrev pub HoldsNamed : Table V → List ℕ → Symbol V → Type 0
  HoldsNamed t name s = Holds t.buckets s × (fold t name ≡ fold t s.name.bytes)

  pub same_cell :
      (t : Table V)
      → IsValid t
      → (i j : ℕ) (s u : Symbol V) → cell t.buckets i ≡ some s
      → cell t.buckets j ≡ some u
      → fold t s.name.bytes ≡ fold t u.name.bytes
      → i ≡ j
  same_cell t v i j s u es eu e =
      v.placed.unique i j s u es eu (((get_methods-Folds t).same_iff s.name.bytes u.name.bytes).1 e)

  -- A lookup in a table that is in order ends, and returns a symbol exactly when the table holds
  -- it under a name that folds as the one that is looked up.
  pub table_lookup_len_iff :
      (t : Table V)
      → IsValid t
      → (name : List ℕ)
      → (r : Option (Symbol V)) × (table_lookup_len t name ≡ some r)
        × ((s : Symbol V) → (r ≡ some s) ↔ HoldsNamed t name s)
  unfolding table_lookup_len
  table_lookup_len_iff t v name = let (f, ran, finds) = table_find-Finds t v name in go f ran finds
    where
      go :
          (f : Found)
          → table_find t name ≡ some f
          → Finds t v name f
          → (r : Option (Symbol V)) × (table_lookup_len t name ≡ some r)
            × ((s : Symbol V) → (r ≡ some s) ↔ HoldsNamed t name s)
      go (at i) ran (s, es, e) = (
        some s,
        rw (ran, ◌>>=◌, es),
        λ u. (
          λ q. (let su : s ≡ u = cc in ((i, es ∙ q), rw su at e)),
          λ h.
              let (j, eu) = h.0 in
              let ij = same_cell t v i j s u es eu (sym e ∙ h.1) in
              let eu' = rw (← ij) at eu in sym es ∙ eu',
        ),
      )
      go (vacant p) ran (lt, free, pre, gone) =
          (none, rw (ran, ◌>>=◌), λ u. (λ q. absurd (cc), λ h. absurd (gone h.0.0 u h.0.1 h.1)))
      go full ran d = absurd d

  -- Two answers that return the same symbols are one.
  pub option_ext :
      (a b : Option (Symbol V)) → ((s : Symbol V) → (a ≡ some s) ↔ (b ≡ some s)) → a ≡ b
  option_ext none none h = refl
  option_ext none (some s) h = (h s).1 refl
  option_ext (some s) b h = sym ((h s).0 refl)
