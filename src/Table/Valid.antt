-- ===== src/Table/Valid.antt =====
-- What it means for a symbol table of table.c to be in order, and what `table_find` and the lookup
-- find in one.
use mudlle.Prelude.{
  ℕ, ◌<◌, ◌^◌, ◌≡◌, ◌≢◌, refl, List, map, Bool, true, false, Option, none, some, arith, length, ap,
  sym, ◌∙◌, ◌==◌, Bool-cases, inl, inr, ==_iff, dec_lt, ◌>>=◌,
}
use mudlle.Prelude.Bits.{checks, checks-at}
use mudlle.Charset.{to_7lower}
use mudlle.Table.{
  Symbol, Table, TableMethods, same_name, home, matches, size_bits, get_methods, is_ctable,
  table_entries, table_find,
}
use mudlle.Table.Methods.{Folds, methods_fold}
use mudlle.Table.Probe.{Found, at, vacant, full, dist, cell, probe}
use mudlle.Table.Probe.Laws.{Passed, ProbeEnds, probe_lem}
use mudlle.Table.Probe.Placed.{cell-lt, count, empty_cell, IsPlaced}

bits_table : checks (λ b. elim (size_bits (2 ^ b)) [ some c ↦ c == b | none ↦ false ]) 32 ≡ true
unfolding checks size_bits
bits_table = refl

pub size_bits-pow : (b : ℕ) → b < 32 → size_bits (2 ^ b) ≡ some b
size_bits-pow b h = go (size_bits (2 ^ b)) (checks-at _ b h bits_table)
  where
    go : (o : Option ℕ) → elim o [ some c ↦ c == b | none ↦ false ] ≡ true → o ≡ some b
    go none e = cc
    go (some c) e = ap some ((==_iff c b).0 e)

-- How the two kinds of tables fold names.
abbrev pub fold_name : Bool → List ℕ → List ℕ
fold_name true = λ a. a
fold_name false = map to_7lower

module _ {V : Type 0} where
  abbrev pub fold : Table V → List ℕ → List ℕ
  fold t = fold_name (is_ctable t)

  pub get_methods-Folds : (t : Table V) → Folds (get_methods t) (fold t)
  unfolding get_methods
  get_methods-Folds t = elim (Bool-cases (is_ctable t)) [
    | inl e ↦ rw e methods_fold.1
    | inr e ↦ rw e methods_fold.0
  ]

  abbrev pub home_of : TableMethods → ℕ → Symbol V → ℕ
  home_of m bits s = home m bits s.name.bytes

  abbrev pub same_symbol : TableMethods → Symbol V → Symbol V → Bool
  same_symbol m s u = same_name m s.name.bytes u.name.bytes

  -- The size is a power of two below 2 ^ 32, the symbols are in place under names that differ, they
  -- are counted, one cell is empty, and the names are read-only.
  pub record IsValid (t : Table V) : Type 0 where
    pub bits : ℕ
    pub bits_lt : bits < 32
    pub size : length t.buckets ≡ 2 ^ bits
    pub placed : IsPlaced (home_of (get_methods t) bits) (same_symbol (get_methods t)) t.buckets
    pub counted : count t.buckets ≡ table_entries t
    pub room : count t.buckets < length t.buckets
    pub names : (i : ℕ) (s : Symbol V) → cell t.buckets i ≡ some s → s.name.readonly ≡ true

  -- What `table_find` says of the name: its symbol stands in the cell, or it is not in the table
  -- and the cell is the first empty one from its hash.
  abbrev pub Finds : (t : Table V) → IsValid t → List ℕ → Found → Type 0
  Finds t v name (at i) =
      (s : Symbol V) × (cell t.buckets i ≡ some s) × (fold t name ≡ fold t s.name.bytes)
  Finds t v name (vacant p) =
      (p < length t.buckets)
      × (cell t.buckets p ≡ none)
      × ((j : ℕ)
          → j < length t.buckets
          → dist (length t.buckets) (home (get_methods t) v.bits name) j
            < dist (length t.buckets) (home (get_methods t) v.bits name) p
          → cell t.buckets j ≢ none)
      × ((i : ℕ) (s : Symbol V) → cell t.buckets i ≡ some s → fold t name ≢ fold t s.name.bytes)
  Finds t v name full = ⊥

  module _ (t : Table V) (v : IsValid t) (name : List ℕ) where
    start : ℕ
    start = home (get_methods t) v.bits name

    start_lt : start < length t.buckets
    unfolding start
    start_lt = rw v.size ((get_methods-Folds t).home-lt v.bits name (omega (arith, v.bits_lt)))

    -- A symbol past the first empty cell is under another name.
    absent :
        (p : ℕ)
        → p < length t.buckets
        → cell t.buckets p ≡ none
        → Passed (matches (get_methods t) name) t.buckets start (dist (length t.buckets) start p)
        → (i : ℕ) (s : Symbol V) → cell t.buckets i ≡ some s
        → fold t name ≢ fold t s.name.bytes
    unfolding start
    absent p hp free pre i s es eq =
        let fs = get_methods-Folds t in
        let h : home_of (get_methods t) v.bits s ≡ start = sym (fs.home-fold v.bits _ _ eq) in
        let hit = (fs.same_iff name s.name.bytes).1 eq in
        let hi = cell-lt t.buckets i es in
        let i-ne-p : i ≢ p = λ q. (let bad = rw q at es in cc) in
        let reach = rw h at (v.placed.reached i s es p hp) in
        elim (dec_lt (dist (length t.buckets) start i) (dist (length t.buckets) start p)) [
          | yes d ↦ let (u, eu, miss) = pre i hi d in ground (arith, eu, es, miss, hit)
          | no d ↦ reach (ground (arith, start_lt)) free
        ]

    probe-Finds :
        (f : Found) → ProbeEnds (matches (get_methods t) name) t.buckets start f → Finds t v name f
    unfolding start
    probe-Finds (at i) (lt, (s, es, hit), pre) =
        (s, es, ((get_methods-Folds t).same_iff name s.name.bytes).0 hit)
    probe-Finds (vacant p) (lt, free, pre) =
        (lt, free, λ j hj d e. (let (s, es, miss) = pre j hj d in cc), absent p lt free pre)
    probe-Finds full pre =
        let (e, lt, free) = empty_cell t.buckets v.room in
        let (s, es, miss) = pre e lt (ground (arith, start_lt)) in cc

    -- In a table that is in order `table_find` fails no assertion, and finds the name.
    pub table_find-Finds : (f : Found) × (table_find t name ≡ some f) × Finds t v name f
    unfolding table_find start
    table_find-Finds =
        go (probe (matches (get_methods t) name) t.buckets (length t.buckets) start) refl
          (probe-Finds _ (probe_lem (matches (get_methods t) name) t.buckets start start_lt))
      where
        bits_ok : size_bits (length t.buckets) ≡ some v.bits
        bits_ok = ap size_bits v.size ∙ size_bits-pow v.bits v.bits_lt

        go :
            (f : Found)
            → probe (matches (get_methods t) name) t.buckets (length t.buckets) start ≡ f
            → Finds t v name f
            → (f : Found) × (table_find t name ≡ some f) × Finds t v name f
        go (at i) e d = (at i, rw (bits_ok, ◌>>=◌, e), d)
        go (vacant i) e d = (vacant i, rw (bits_ok, ◌>>=◌, e), d)
        go full e d = absurd d
