-- ===== src/Tests/TableRuns.antt =====
-- table.c at concrete tables.
use mudlle.Prelude.{
  ℕ, ◌+◌, ◌*◌, ◌/◌, ◌≤◌, ◌<◌, ◌^◌, ◌≡◌, ◌↔◌, refl, List, [], ◌∷◌, true, false, Option, none, some,
  arith, length, replicate, if◌then◌else◌, ◌>>=◌,
}
use mudlle.Prelude.Int.{pos, ◌+ℤ◌, ◌-ℤ◌}
use mudlle.Charset.{to_7lower, mem7icmp}
use mudlle.Hash.{symbol_7inhash, fold_hash_n, fnv_loop}
use mudlle.Table.Probe.{first_free}
use mudlle.Table.{
  Symbol, Table, get_methods, same_name, table_entries, table_lookup_len, table_remove_len,
  table_add_sym_fast,
}
use mudlle.Table.Valid.{IsValid}
use mudlle.Table.Lookup.{HoldsNamed, table_lookup_len_iff}
use mudlle.Table.Add.{empty-IsValid, nothing-held}
use mudlle.Table.ReAdd.{find_vacant}
use mudlle.Table.Map.{lookup-add, lookup-remove}
use mudlle.Table.Access.{table_set_len, table_good_size, rehash_table}
use mudlle.Table.Access.Size.{table_good_size-fits}
use mudlle.Table.Access.Rehash.{rehash_table-lookup}

abbrev empty : Table ℕ
empty = record {
  buckets = replicate 8 none;
  used = pos 0;
  readonly = false;
  buckets_readonly = false;
}

empty_table-IsValid : IsValid empty
empty_table-IsValid = empty-IsValid empty 3 8 (omega arith) refl refl refl

-- "Foo" and "fOO"
abbrev foo : List ℕ
foo = 70 ∷ 111 ∷ 111 ∷ []

abbrev foo' : List ℕ
foo' = 102 ∷ 79 ∷ 79 ∷ []

abbrev foo_symbol : Symbol ℕ
foo_symbol = record {
  name = record { bytes = foo; readonly = true };
  val = some 7;
  readonly = false;
}

foo_cell : ℕ
foo_cell = (find_vacant empty empty_table-IsValid foo (λ u h. absurd (nothing-held 8 u h))).0

lookup-add_example :
    (u : Table ℕ) × (table_add_sym_fast 3 empty foo_cell foo_symbol ≡ some u)
    × IsValid u
    × (table_entries u ≡ 1)
    × ((other : List ℕ)
        → table_lookup_len u other ≡ (
            if same_name (get_methods empty) foo other
            then some (some foo_symbol)
            else table_lookup_len empty other))
unfolding foo_cell
lookup-add_example =
    lookup-add empty empty_table-IsValid foo_cell foo_symbol
      (find_vacant empty empty_table-IsValid foo (λ u h. absurd (nothing-held 8 u h))).2 refl
      (refl, refl) (omega arith, omega arith)

abbrev one : Table ℕ
one = lookup-add_example.0

one-IsValid : IsValid one
one-IsValid = lookup-add_example.2

lookup-remove_example :
    (o : Option (Symbol ℕ)) × (u : Table ℕ) × (table_remove_len one foo' ≡ some (o, u))
    × (table_lookup_len one foo' ≡ some o)
    × IsValid u
    × ((other : List ℕ)
        → table_lookup_len u other ≡ (
            if same_name (get_methods one) foo' other
            then some none
            else table_lookup_len one other))
lookup-remove_example = lookup-remove one one-IsValid foo'

table_lookup_len_iff_example :
    (r : Option (Symbol ℕ)) × (table_lookup_len one foo' ≡ some r)
    × ((s : Symbol ℕ) → (r ≡ some s) ↔ HoldsNamed one foo' s)
table_lookup_len_iff_example = table_lookup_len_iff one one-IsValid foo'

rehash_table-lookup_example :
    (u : Table ℕ) × (rehash_table empty ≡ some u)
    × IsValid u
    × (length u.buckets ≡ 8)
    × (table_entries u ≡ 0)
    × (u.readonly ≡ false)
    × (u.buckets_readonly ≡ false)
    × ((name : List ℕ) → table_lookup_len u name ≡ table_lookup_len empty name)
rehash_table-lookup_example = rehash_table-lookup empty empty_table-IsValid (omega arith)

table_good_size-fits_example :
    (n : ℕ) × (bits : ℕ) × (table_good_size 100 ≡ some n)
    × (n ≡ 2 ^ bits)
    × (0 < 100 → 100 < n / 2 + n / 4)
    × (n ≤ 1 + 2 * ((100 * 4 + 2) / 3))
table_good_size-fits_example = table_good_size-fits 100 (omega arith)

-- A table of four cells takes a third symbol by doubling, which the lookups do not see.
abbrev names : List (List ℕ)
names = foo ∷ (98 ∷ []) ∷ (99 ∷ 100 ∷ []) ∷ []

fill : List (List ℕ) → ℕ → Table ℕ → Option (Table ℕ)
fill [] n t = some t
fill (x ∷ xs) n t = table_set_len t x (some n) >>= λ r. fill xs (n + 1) r.1

abbrev small : Table ℕ
small = record empty { buckets = replicate 4 none }

abbrev sizes : Table ℕ → Option (ℕ × ℕ)
sizes t = some (length t.buckets, table_entries t)

fill_doubles : fill names 1 small >>= sizes ≡ some (8, 3)
unfolding fill table_set_len symbol_7inhash fold_hash_n fnv_loop to_7lower ◌+ℤ◌
fill_doubles = refl

fill_removed :
    fill names 1 small >>= (λ t. table_remove_len t (66 ∷ [])) >>= (λ r. table_lookup_len r.1 foo')
    ≡ some (
        some (record {
          name = record { bytes = foo; readonly = true };
          val = some 1;
          readonly = false;
        }))
unfolding fill table_set_len table_remove_len table_lookup_len symbol_7inhash fold_hash_n fnv_loop
    to_7lower mem7icmp first_free ◌+ℤ◌ ◌-ℤ◌
fill_removed = refl
