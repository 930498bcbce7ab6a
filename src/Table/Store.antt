-- ===== src/Table/Store.antt =====
-- Storing a symbol of a new name in the cell that `table_find` left in `add_position`.
use mudlle.Prelude.{
  ℕ, ◌+◌, ◌<◌, ◌≡◌, ◌≢◌, ◌↔◌, ◌⊎◌, inl, inr, true, false, some, arith, length, set, ap, sym, ◌∙◌,
  ℕ_discrete, length-set, Bool-cases,
}
use mudlle.Prelude.Int.{◌+ℤ◌}
use mudlle.Table.{Symbol, Table, get_methods, is_ctable, table_entries}
use mudlle.Table.Probe.{vacant}
use mudlle.Table.Probe.Placed.{cell-set, count, count-set, Holds, IsPlaced, set-IsPlaced}
use mudlle.Table.Valid.{fold, get_methods-Folds, home_of, same_symbol, IsValid, Finds}

module _ {V : Type 0} where
  pub get_methods_congr :
      (t u : Table V) → is_ctable t ≡ is_ctable u → get_methods t ≡ get_methods u
  unfolding get_methods
  get_methods_congr t u e = rw e

  -- One symbol more keeps the kind of the table.
  pub used-add :
      (t : Table V)
      → let t' = record t { used = t.used +ℤ (get_methods t).used_delta } in
        (is_ctable t' ≡ is_ctable t) × (table_entries t' ≡ table_entries t + 1)
  unfolding get_methods ◌+ℤ◌
  used-add t = ground arith

  -- The table with the symbol stored, as `table_add_sym_fast` makes it before it looks at the load.
  abbrev pub stored : Table V → ℕ → Symbol V → Table V
  stored t p s = record t {
    buckets = set t.buckets p (some s);
    used = t.used +ℤ (get_methods t).used_delta;
  }

  module _ (t : Table V) (v : IsValid t) (p : ℕ) (s : Symbol V)
      (f : Finds t v s.name.bytes (vacant p)) where
    pub stored-methods : get_methods (stored t p s) ≡ get_methods t
    stored-methods = get_methods_congr (stored t p s) t (used-add t).0

    pub stored-IsPlaced :
        IsPlaced
          (home_of (get_methods t) v.bits)
          (same_symbol (get_methods t))
          (stored t p s).buckets
    stored-IsPlaced =
        let (lt, free, pre, gone) = f in
        set-IsPlaced _ _ t.buckets p s lt free pre
          (λ i u eu. (distinct u (gone i u eu), distinct_symm u (gone i u eu))) v.placed
      where
        distinct :
            (u : Symbol V)
            → fold t s.name.bytes ≢ fold t u.name.bytes
            → same_symbol (get_methods t) s u ≡ false
        distinct u ne = elim (Bool-cases (same_symbol (get_methods t) s u)) [
          | inl e ↦ absurd (ne (((get_methods-Folds t).same_iff _ _).0 e))
          | inr e ↦ e
        ]

        distinct_symm :
            (u : Symbol V)
            → fold t s.name.bytes ≢ fold t u.name.bytes
            → same_symbol (get_methods t) u s ≡ false
        distinct_symm u ne = elim (Bool-cases (same_symbol (get_methods t) u s)) [
          | inl e ↦ absurd (ne (sym (((get_methods-Folds t).same_iff _ _).0 e)))
          | inr e ↦ e
        ]

    pub stored-count : count (stored t p s).buckets ≡ count t.buckets + 1
    stored-count =
        let c = count-set t.buckets p (some s) f.0 in let c' = rw (f.1) at c in omega arith

    pub stored-Holds :
        (u : Symbol V) → Holds (stored t p s).buckets u ↔ (Holds t.buckets u ⊎ (u ≡ s))
    stored-Holds u = (there, back)
      where
        there : Holds (stored t p s).buckets u → Holds t.buckets u ⊎ (u ≡ s)
        there (i, e) = elim (ℕ_discrete p i) [
          | yes q ↦ inr (ground (arith, cell-set t.buckets p i (some s) f.0))
          | no q ↦ inl (i, ground (arith, cell-set t.buckets p i (some s) f.0))
        ]

        back : Holds t.buckets u ⊎ (u ≡ s) → Holds (stored t p s).buckets u
        back (inl (i, e)) = (i, ground (arith, cell-set t.buckets p i (some s) f.0, f.1))
        back (inr e) = (p, ground (arith, cell-set t.buckets p p (some s) f.0))

    -- Where a cell stays empty the table is in order again.
    pub stored-IsValid :
        s.name.readonly ≡ true → count t.buckets + 1 < length t.buckets → IsValid (stored t p s)
    stored-IsValid ro room = record {
      bits = v.bits;
      bits_lt = v.bits_lt;
      size = length-set t.buckets p (some s) ∙ v.size;
      placed = rw stored-methods stored-IsPlaced;
      counted = stored-count ∙ ap (λ c. c + 1) v.counted ∙ sym (used-add t).1;
      room = rw (stored-count, length-set) room;
      names = λ i u eu. elim (ℕ_discrete p i) [
        | yes q ↦ ground (arith, cell-set t.buckets p i (some s) f.0)
        | no q ↦ v.names i u (ground (arith, cell-set t.buckets p i (some s) f.0))
      ];
    }
