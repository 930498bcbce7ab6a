-- ===== src/Table/Grow.antt =====
-- `table_add_sym_fast` of table.c: storing a symbol, and doubling a table that is three quarters
-- full, which adds every symbol to the new vector.
use mudlle.Prelude.{
  ℕ, suc, ◌+◌, ◌*◌, ◌/◌, ◌^◌, ◌>>=◌, Option, ◌≤◌, ◌<◌, ◌≡◌, ◌↔◌, ◌⊎◌, true, false, none, some,
  arith, length, replicate, ltb, lt→ltb,
}
use mudlle.Alloc.{alloc_vector-fits}
use mudlle.Table.{Symbol, Table, get_methods, is_ctable, table_entries, re_add, table_add_sym_fast}
use mudlle.Table.Access.{max_table_entries}
use mudlle.Table.Probe.{vacant}
use mudlle.Table.Probe.Placed.{Holds}
use mudlle.Table.Valid.{IsValid, Finds}
use mudlle.Table.Store.{stored, used-add, stored-Holds, stored-IsValid}

module _ {V : Type 0} where
  abbrev pub threshold : Table V → ℕ
  threshold t = length t.buckets / 2 + length t.buckets / 4

  -- The table may be changed.
  abbrev pub Writable : Table V → Type 0
  Writable t = (t.readonly ≡ false) × (t.buckets_readonly ≡ false)

  -- The table `u` is in order, and holds besides the symbols of `t` those that `new` describes, `k`
  -- of them.
  pub record Adds (t : Table V) (k : ℕ) (new : Symbol V → Type 0) (u : Table V) : Type 0 where
    pub valid : IsValid u
    pub kind : is_ctable u ≡ is_ctable t
    pub entries : table_entries u ≡ table_entries t + k
    pub holds : (s : Symbol V) → Holds u.buckets s ↔ (Holds t.buckets s ⊎ new s)
    pub flags : Writable u

  -- There is space for one more symbol: the number of symbols is below MAX_TABLE_ENTRIES, and the
  -- vector is no longer than a table can have.
  abbrev pub HasSpace : Table V → Type 0
  HasSpace t = (length t.buckets ≤ 2 ^ 20) × (table_entries t < max_table_entries)

  -- The table that the symbols of the old vector are added to.
  abbrev pub doubled : Table V → Table V
  doubled t = record {
    buckets = replicate (2 * length t.buckets) none;
    used = (get_methods t).make_used 0;
    readonly = t.readonly;
    buckets_readonly = false;
  }

  module _ (t : Table V) (v : IsValid t) (p : ℕ) (s : Symbol V)
      (f : Finds t v s.name.bytes (vacant p)) (ro : s.name.readonly ≡ true) (w : Writable t) where
    -- Below the threshold the symbol is stored, and no more.
    pub add_below :
        (depth : ℕ)
        → table_entries t + 1 < threshold t
        → (table_add_sym_fast (suc depth) t p s ≡ some (stored t p s))
          × Adds t 1 (λ u. u ≡ s) (stored t p s)
    unfolding table_add_sym_fast
    add_below depth h =
        let below : ltb (table_entries (stored t p s)) (threshold t) ≡ true =
          lt→ltb _ _ (rw ((used-add t).1) h) in
        (
          rw (w.0, w.1, ro, lt→ltb _ _ f.0, f.1, below),
          record {
            valid = stored-IsValid t v p s f ro (omega (arith, v.counted));
            kind = (used-add t).0;
            entries = (used-add t).1;
            holds = stored-Holds t v p s f;
            flags = w;
          },
        )

    pub add_above :
        (depth : ℕ)
        → threshold t ≤ table_entries t + 1
        → length t.buckets < 2 ^ 20
        → table_add_sym_fast (suc depth) t p s
          ≡ re_add (table_add_sym_fast depth) (stored t p s).buckets (doubled t)
    unfolding table_add_sym_fast
    add_above depth h fits =
        let above : ltb (table_entries (stored t p s)) (threshold t) ≡ false =
          rw ((used-add t).1) (ground arith) in
        let new =
          alloc_vector-fits {A = Option (Symbol V)} none (2 * length t.buckets) (omega arith) in
        rw (w.0, w.1, ro, lt→ltb _ _ f.0, f.1, above, new, ◌>>=◌)
