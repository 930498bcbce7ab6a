-- ===== src/Table/ReAdd.antt =====
-- The loop of table.c that adds the symbols of a vector to a table, in `table_add_sym_fast` and
-- `rehash_table`.
use mudlle.Prelude.{
  ℕ, zero, suc, ◌+◌, ◌/◌, ◌<◌, ◌≡◌, ◌≢◌, refl, ◌⊎◌, inl, inr, List, [], ◌∷◌, Bool, true, Option,
  none, some, arith, length, ap, sym, ◌∙◌, ◌>>=◌, length-set,
}
use mudlle.Table.{Symbol, Table, is_ctable, table_entries, table_find, re_add, table_add_sym_fast}
use mudlle.Table.Probe.{Found, at, vacant, full, cell}
use mudlle.Table.Probe.Placed.{count, Holds}
use mudlle.Table.Valid.{fold, fold_name, IsValid, Finds, table_find-Finds}
use mudlle.Table.Store.{stored}
use mudlle.Table.Grow.{Writable, Adds, add_below}

module _ {V : Type 0} where
  -- No two cells hold names that fold alike.
  abbrev pub NamesDiffer : Bool → List (Option (Symbol V)) → Type 0
  NamesDiffer c old =
      (i j : ℕ) (s u : Symbol V)
      → cell old i ≡ some s
      → cell old j ≡ some u
      → fold_name c s.name.bytes ≡ fold_name c u.name.bytes
      → i ≡ j

  abbrev pub NamesReadonly : List (Option (Symbol V)) → Type 0
  NamesReadonly old = (i : ℕ) (s : Symbol V) → cell old i ≡ some s → s.name.readonly ≡ true

  -- No symbol of the vector is in the table under its name.
  abbrev pub Apart : List (Option (Symbol V)) → Table V → Type 0
  Apart old t =
      (s u : Symbol V) → Holds old s → Holds t.buckets u → fold t s.name.bytes ≢ fold t u.name.bytes

  -- A name that the table does not have is found in an empty cell.
  pub find_vacant :
      (t : Table V) (v : IsValid t) (name : List ℕ)
      → ((u : Symbol V) → Holds t.buckets u → fold t name ≢ fold t u.name.bytes)
      → (p : ℕ) × (table_find t name ≡ some (vacant p)) × Finds t v name (vacant p)
  find_vacant t v name gone = let (f, ran, finds) = table_find-Finds t v name in go f ran finds
    where
      go :
          (f : Found)
          → table_find t name ≡ some f
          → Finds t v name f
          → (p : ℕ) × (table_find t name ≡ some (vacant p)) × Finds t v name (vacant p)
      go (at i) ran (s, es, e) = absurd (gone s (i, es) e)
      go (vacant p) ran finds = (p, ran, finds)
      go full ran d = absurd d

  re_add_nil-Adds : (t : Table V) → IsValid t → Writable t → Adds t 0 (Holds []) t
  re_add_nil-Adds t v w = record {
    valid = v;
    kind = refl;
    entries = omega arith;
    holds = λ s. (λ h. inl h, λ h. elim h [ inl x ↦ x | inr (i, e) ↦ absurd (cc) ]);
    flags = w;
  }

  re_add_none-Adds :
      (t u : Table V) (old : List (Option (Symbol V)))
      → Adds t (count old) (Holds old) u
      → Adds t (count (none ∷ old)) (Holds (none ∷ old)) u
  re_add_none-Adds t u old a = record {
    valid = a.valid;
    kind = a.kind;
    entries = omega (arith, a.entries);
    holds = λ s. (
      λ h. elim ((a.holds s).0 h) [ inl x ↦ inl x | inr (i, e) ↦ inr (suc i, e) ],
      λ h. (a.holds s).1 (shift s h),
    );
    flags = a.flags;
  }
    where
      shift :
          (s : Symbol V)
          → Holds t.buckets s ⊎ Holds (none ∷ old) s
          → Holds t.buckets s ⊎ Holds old s
      shift s (inl x) = inl x
      shift s (inr (zero, e)) = absurd (cc)
      shift s (inr (suc i, e)) = inr (i, e)

  re_add_some-Adds :
      (t u r : Table V) (x : Symbol V) (old : List (Option (Symbol V)))
      → Adds t 1 (λ s. s ≡ x) u
      → Adds u (count old) (Holds old) r
      → Adds t (count (some x ∷ old)) (Holds (some x ∷ old)) r
  re_add_some-Adds t u r x old a b = record {
    valid = b.valid;
    kind = b.kind ∙ a.kind;
    entries = omega (arith, a.entries, b.entries);
    holds = λ s. (there s, back s);
    flags = b.flags;
  }
    where
      there : (s : Symbol V) → Holds r.buckets s → Holds t.buckets s ⊎ Holds (some x ∷ old) s
      there s h = elim ((b.holds s).0 h) [
        | inr (i, e) ↦ inr (suc i, e)
        | inl k ↦ elim ((a.holds s).0 k) [ inl y ↦ inl y | inr e ↦ inr (0, ap some (sym e)) ]
      ]

      back : (s : Symbol V) → Holds t.buckets s ⊎ Holds (some x ∷ old) s → Holds r.buckets s
      back s (inl h) = (b.holds s).1 (inl ((a.holds s).1 (inl h)))
      back s (inr (zero, e)) = (b.holds s).1 (inl ((a.holds s).1 (inr (cc))))
      back s (inr (suc i, e)) = (b.holds s).1 (inr (i, e))

  -- Where the symbols of the vector fit below the threshold, and differ in their names from one
  -- another and from those of the table, all are added and the table does not grow.
  pub re_add-Adds :
      (depth : ℕ) (old : List (Option (Symbol V))) (t : Table V) (size : ℕ)
      → IsValid t
      → Writable t
      → length t.buckets ≡ size
      → NamesDiffer (is_ctable t) old
      → NamesReadonly old
      → Apart old t
      → table_entries t + count old < size / 2 + size / 4
      → (r : Table V) × (re_add (table_add_sym_fast (suc depth)) old t ≡ some r)
        × Adds t (count old) (Holds old) r
        × (length r.buckets ≡ size)
  unfolding re_add
  re_add-Adds depth [] t size v w len diff ro apart lt = (t, refl, re_add_nil-Adds t v w, len)
  re_add-Adds depth (none ∷ old) t size v w len diff ro apart lt =
      let (r, ran, a, l) =
        re_add-Adds depth old t size v w len
          (λ i j s u es eu e. omega (arith, diff (suc i) (suc j) s u es eu e))
          (λ i s e. ro (suc i) s e) (λ s u h k. apart s u (suc h.0, h.1) k) (omega arith) in
      (r, ran, re_add_none-Adds t r old a, l)
  re_add-Adds depth (some x ∷ old) t size v w len diff ro apart lt =
      let (p, found, finds) = find_vacant t v x.name.bytes (λ u h. apart x u (0, refl) h) in
      let (added, a) = add_below t v p x finds (ro 0 x refl) w depth (rw len (omega arith)) in
      let (r, ran, b, l) =
        re_add-Adds depth old (stored t p x) size a.valid w (length-set t.buckets p (some x) ∙ len)
          (λ i j s u es eu e. omega (arith, diff (suc i) (suc j) s u es eu (rw a.kind at e)))
          (λ i s e. ro (suc i) s e) (λ s u h k e. far s u h (rw a.kind at e) ((a.holds u).0 k))
          (omega (arith, a.entries)) in
      (
        r,
        rw (found, ◌>>=◌) (rw (added, ◌>>=◌) ran),
        re_add_some-Adds t (stored t p x) r x old a b,
        l,
      )
    where
      far :
          (s u : Symbol V)
          → Holds old s
          → fold t s.name.bytes ≡ fold t u.name.bytes
          → Holds t.buckets u ⊎ (u ≡ x)
          → ⊥
      far s u h e (inl k) = apart s u (suc h.0, h.1) k e
      far s u h e (inr q) =
          omega (arith, diff (suc h.0) 0 s x h.1 refl (e ∙ ap (λ y. fold t y.name.bytes) q))
