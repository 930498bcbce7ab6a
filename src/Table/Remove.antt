-- ===== src/Table/Remove.antt =====
-- Removing a name from a symbol table of table.c.
use mudlle.Prelude.{
  ℕ, ◌+◌, ◌<◌, ◌≡◌, ◌≢◌, ◌↔◌, refl, List, Option, none, some, arith, length, set, ap, sym, ◌∙◌,
  ◌>>=◌, ℕ_discrete,
}
use mudlle.Prelude.Int.{◌-ℤ◌}
use mudlle.Table.{
  Symbol, Table, get_methods, is_ctable, table_entries, size_bits, table_find, table_lookup_len,
  table_remove_len,
}
use mudlle.Table.Probe.{Found, at, vacant, full, next, cell, reseat}
use mudlle.Table.Probe.Placed.{cell-set, cell-lt, count, count-set, Holds}
use mudlle.Table.Probe.Reseat.{Reseated}
use mudlle.Table.Probe.Vacate.{vacate_lem}
use mudlle.Table.Valid.{
  fold, get_methods-Folds, home_of, same_symbol, size_bits-pow, IsValid, Finds, table_find-Finds,
}
use mudlle.Table.Store.{get_methods_congr}
use mudlle.Table.Lookup.{same_cell}

module _ {V : Type 0} where
  abbrev pub found : Option (Symbol V) → ℕ
  found none = 0
  found (some s) = 1

  used-sub :
      (t : Table V)
      → 0 < table_entries t
      → let t' = record t { used = t.used -ℤ (get_methods t).used_delta } in
        (is_ctable t' ≡ is_ctable t) × (table_entries t' + 1 ≡ table_entries t)
  unfolding get_methods ◌-ℤ◌
  used-sub t h = ground arith

  -- The table `u` is in order, of the kind of `t`, and holds the symbols of `t` but the one under
  -- the name, which is `o`.
  pub record Removes (t : Table V) (name : List ℕ) (o : Option (Symbol V)) (u : Table V)
      : Type 0 where
    pub looked_up : table_lookup_len t name ≡ some o
    pub valid : IsValid u
    pub kind : is_ctable u ≡ is_ctable t
    pub entries : table_entries u + found o ≡ table_entries t
    pub holds :
        (s : Symbol V)
        → Holds u.buckets s ↔ (Holds t.buckets s × (fold t name ≢ fold t s.name.bytes))

  module _ (t : Table V) (v : IsValid t) (name : List ℕ) where
    module _ (r : ℕ) (gone : Symbol V) (er : cell t.buckets r ≡ some gone)
        (e : fold t name ≡ fold t gone.name.bytes) where
      bits_ok : size_bits (length t.buckets) ≡ some v.bits
      bits_ok = ap size_bits v.size ∙ size_bits-pow v.bits v.bits_lt

      r_lt : r < length t.buckets
      r_lt = cell-lt t.buckets r er

      home-lt : (s : Symbol V) → home_of (get_methods t) v.bits s < length t.buckets
      home-lt s = rw v.size ((get_methods-Folds t).home-lt v.bits _ (omega (arith, v.bits_lt)))

      vacated :
          (result : List (Option (Symbol V))) × (reseat
              (home_of (get_methods t) v.bits)
              (length t.buckets)
              (set t.buckets r none)
              (next (length t.buckets) r)
            ≡ some result)
          × Reseated
              (home_of (get_methods t) v.bits)
              (same_symbol (get_methods t))
              (length t.buckets)
              home-lt
              (set t.buckets r none)
              result
      vacated = vacate_lem _ _ _ home-lt t.buckets r gone refl er v.placed v.room

      abbrev result : Table V
      result = record t { buckets = vacated.0; used = t.used -ℤ (get_methods t).used_delta }

      cleared : count (set t.buckets r none) + 1 ≡ count t.buckets
      cleared = let c = count-set t.buckets r none r_lt in let c' = rw er at c in omega arith

      left :
          (s : Symbol V)
          → Holds (set t.buckets r none) s
            ↔ (Holds t.buckets s × (fold t name ≢ fold t s.name.bytes))
      left s = (there, back)
        where
          there :
              Holds (set t.buckets r none) s
              → Holds t.buckets s × (fold t name ≢ fold t s.name.bytes)
          there (i, es) =
              let old : cell t.buckets i ≡ some s =
                ground (arith, cell-set t.buckets r i none r_lt) in
              let ne : i ≢ r = ground (arith, cell-set t.buckets r i none r_lt) in
              ((i, old), λ q. ne (same_cell t v i r s gone old er (sym q ∙ e)))

          back :
              Holds t.buckets s × (fold t name ≢ fold t s.name.bytes)
              → Holds (set t.buckets r none) s
          back ((i, es), ne) = elim (ℕ_discrete r i) [
            | yes q ↦ absurd (
                ne (
                  let same : some gone ≡ some s = (sym er ∙ ap (λ k. cell t.buckets k) q ∙ es) in
                  let gs : gone ≡ s = cc in rw gs at e))
            | no q ↦ (i, ground (arith, cell-set t.buckets r i none r_lt))
          ]

      remove_found :
          table_find t name ≡ some (at r)
          → (table_remove_len t name ≡ some (some gone, result)) × Removes t name (some gone) result
      unfolding table_remove_len table_lookup_len
      remove_found ran =
          let k = used-sub t (omega (arith, cleared, v.counted)) in
          let sb = vacated.2 in
          (
            rw (ran, ◌>>=◌, bits_ok) (rw (◌>>=◌, vacated.1, er)),
            record {
              looked_up = rw (ran, ◌>>=◌, er);
              valid = record {
                bits = v.bits;
                bits_lt = v.bits_lt;
                size = sb.len ∙ v.size;
                placed = rw (get_methods_congr result t k.0) (record {
                  reached = sb.reached;
                  unique = sb.unique (λ i j x y ex ey q.
                      v.placed.unique i j x y (ground (arith, cell-set t.buckets r i none r_lt))
                        (ground (arith, cell-set t.buckets r j none r_lt)) q);
                });
                counted = omega (arith, sb.counted, cleared, v.counted, k.1);
                room = omega (arith, sb.counted, cleared, v.room, sb.len);
                names = λ i s es.
                    let (j, ej) = ((left s).0 ((sb.holds s).1 (i, es))).0 in v.names j s ej;
              };
              kind = k.0;
              entries = k.1;
              holds = λ s. (λ h. (left s).0 ((sb.holds s).1 h), λ h. (sb.holds s).0 ((left s).1 h));
            },
          )

    -- Removing a name from a table that is in order ends without a failed assertion. It returns
    -- what a lookup of the name returns; the table is in order again, of the same kind, counts one
    -- symbol less if the name was there, and holds exactly the symbols under other names.
    pub table_remove_len-Removes :
        (r : Option (Symbol V) × Table V) × (table_remove_len t name ≡ some r)
        × Removes t name r.0 r.1
    unfolding table_remove_len table_lookup_len
    table_remove_len-Removes = let (f, ran, finds) = table_find-Finds t v name in go f ran finds
      where
        go :
            (f : Found)
            → table_find t name ≡ some f
            → Finds t v name f
            → (r : Option (Symbol V) × Table V) × (table_remove_len t name ≡ some r)
              × Removes t name r.0 r.1
        go (at r) ran (s, es, e) =
            let (ok, removes) = remove_found r s es e ran in
            ((some s, result r s es e), ok, removes)
        go (vacant p) ran (lt, free, pre, gone) = (
          (none, t),
          rw (ran, ◌>>=◌),
          record {
            looked_up = rw (ran, ◌>>=◌);
            valid = v;
            kind = refl;
            entries = omega arith;
            holds = λ s. (λ h. (h, gone h.0 s h.1), λ h. h.0);
          },
        )
        go full ran d = absurd d
