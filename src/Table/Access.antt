-- ===== src/Table/Access.antt =====
-- table.c: reading and writing a symbol table by name, and the functions that walk its buckets.
pub mod Set
pub mod Size
pub mod Rehash
use mudlle.Prelude.{
  ℕ, zero, suc, ◌+◌, ◌-◌, ◌*◌, ◌/◌, ◌^◌, List, [], ◌∷◌, Bool, true, false, Option, none, some,
  ◌>>=◌, ◌>>◌, guard, ltb, leb, ◌&&◌, ◌==◌, if◌then◌else◌, length, replicate, set,
}
use mudlle.Error.{RuntimeError, value_read_only, bad_value}
use mudlle.Table.{
  Str, Symbol, Table, TableMethods, get_methods, is_ctable, is_zero, table_entries, alloc_table,
  alloc_ctable, table_find, re_add, table_add_sym_fast,
}
use mudlle.Table.Probe.{at, vacant, full, cell}

-- The doublings that one addition can cause are nested at most this deep (Table/Add.antt).
abbrev pub add_depth : ℕ
add_depth = 3

-- Half of 16 MB in words of 8 bytes, three quarters of that, less one.
abbrev pub max_table_entries : ℕ
max_table_entries = 2 ^ 24 / 8 / 2 * 3 / 4 - 1

-- `NEXT_POW2` for a number of so many bits: the smallest power of two above it.
unfoldable pub next_pow2 : ℕ → ℕ → ℕ
next_pow2 zero u = 1
next_pow2 (suc bits) u = let rest = next_pow2 bits (u / 2) in if u == 0 then 1 else 2 * rest

-- `(INT_MAX - 2) / 4` is 536870911.
unfoldable pub table_good_size : ℕ → Option ℕ
unfolding next_pow2
table_good_size entries = do
  guard (ltb entries 536_870_911)
  some (next_pow2 64 ((entries * 4 + 2) / 3))

module _ {V : Type 0} where
  unfoldable pub table_add_fast : Table V → ℕ → Str → Option V → Option (Table V)
  unfolding table_add_sym_fast
  table_add_fast t add_position name val =
      table_add_sym_fast add_depth t add_position
        (record { name = name; val = val; readonly = false })

  -- The result says whether the symbol was added.
  unfoldable pub table_add : Table V → Str → Option V → Option (Bool × Table V)
  unfolding table_find table_add_fast
  table_add t name val = do
    found ← table_find t name.bytes
    elim found [
      | vacant p ↦ do u ← table_add_fast t p name val; some (true, u)
      | _ ↦ some (false, t)
    ]

  -- A write to the symbol in a cell.
  abbrev pub assign : Table V → ℕ → Symbol V → Option V → Table V
  assign t i sym val = record t { buckets = set t.buckets i (some (record sym { val = val })) }

  -- The result is false if the symbol is read-only.
  unfoldable pub table_set_len : Table V → List ℕ → Option V → Option (Bool × Table V)
  unfolding table_find table_add_fast
  table_set_len t name val = do
    found ← table_find t name
    elim found [
      | at i ↦ do
        sym ← cell t.buckets i
        if sym.readonly then some (false, t) else some (true, assign t i sym val)
      | vacant p ↦ elim val [
        | some x ↦ do
          u ← table_add_fast t p (record { bytes = name; readonly = true }) (some x)
          some (true, u)
        | none ↦ some (true, t)
      ]
      | full ↦ none
    ]

  -- A name that is not read-only is copied, so that it is read-only in the table. The first result
  -- is the error, if any.
  unfoldable pub safe_table_mset : Table V → Str → Option V → Option (Option RuntimeError × Table V)
  unfolding table_find table_add_fast
  safe_table_mset t s x = if t.readonly then some (some value_read_only, t) else do
    found ← table_find t s.bytes
    elim found [
      | at i ↦ do
        sym ← cell t.buckets i
        if sym.readonly then some (some value_read_only, t) else some (none, assign t i sym x)
      | vacant p ↦ elim x [
        | some y ↦ if leb max_table_entries (table_entries t) then some (some bad_value, t) else do
          u ← table_add_fast t p (record { bytes = s.bytes; readonly = true }) (some y)
          some (none, u)
        | none ↦ some (none, t)
      ]
      | full ↦ none
    ]

  -- An error aborts.
  unfoldable pub table_mset : Table V → Str → Option V → Option (Table V)
  unfolding safe_table_mset
  table_mset t name val = do
    r ← safe_table_mset t name val
    elim r.0 [ none ↦ some r.1 | some e ↦ none ]

  abbrev pub has_value : Option (Symbol V) → Bool
  has_value none = false
  has_value (some s) = elim s.val [ none ↦ false | some x ↦ true ]

  -- `table_vector`: the symbols with a value, in the order of the buckets. `table_list`, which
  -- walks the buckets from the end and prepends, makes the same sequence.
  unfoldable pub table_vector_from : List (Option (Symbol V)) → List (Symbol V)
  table_vector_from [] = []
  table_vector_from (none ∷ bs) = table_vector_from bs
  table_vector_from (some s ∷ bs) =
      let rest = table_vector_from bs in if has_value (some s) then s ∷ rest else rest

  unfoldable pub table_vector : Table V → List (Symbol V)
  unfolding table_vector_from
  table_vector t = table_vector_from t.buckets

  -- `table_list`: from the last bucket to the first, each symbol with a value goes to the front.
  unfoldable pub table_list_down : List (Option (Symbol V)) → ℕ → List (Symbol V) → List (Symbol V)
  table_list_down bs zero l = l
  table_list_down bs (suc size) l =
      table_list_down bs size
        (elim (cell bs size) [ none ↦ l | some s ↦ if has_value (some s) then s ∷ l else l ])

  unfoldable pub table_list : Table V → List (Symbol V)
  unfolding table_list_down
  table_list t = table_list_down t.buckets (length t.buckets) []

  unfoldable pub non_null_from : List (Option (Symbol V)) → ℕ → ℕ
  non_null_from [] n = n
  non_null_from (b ∷ bs) n = non_null_from bs (if has_value b then n + 1 else n)

  unfoldable pub table_non_null_entries : Table V → ℕ
  unfolding non_null_from
  table_non_null_entries t = non_null_from t.buckets 0

  -- The symbols with a value whose name starts with the prefix, as the table compares names.
  unfoldable pub table_prefix_down :
      TableMethods → List (Option (Symbol V)) → List ℕ → ℕ → List (Symbol V) → List (Symbol V)
  table_prefix_down m bs prefix zero l = l
  table_prefix_down m bs prefix (suc size) l =
      table_prefix_down m bs prefix size (elim (cell bs size) [
        | none ↦ l
        | some s ↦
            if has_value (some s)
              && leb (length prefix) (length s.name.bytes)
              && is_zero (m.compare s.name.bytes prefix (length prefix))
            then s ∷ l
            else l
      ])

  unfoldable pub table_prefix : Table V → List ℕ → List (Symbol V)
  unfolding table_prefix_down get_methods
  table_prefix t prefix = table_prefix_down (get_methods t) t.buckets prefix (length t.buckets) []

  unfoldable pub table_exists : List (Option (Symbol V)) → (Symbol V → Bool) → Option (Symbol V)
  table_exists [] check = none
  table_exists (none ∷ bs) check = table_exists bs check
  table_exists (some s ∷ bs) check =
      let rest = table_exists bs check in if check s then some s else rest

  -- The copy shares its symbols with the table.
  unfoldable pub table_shallow_copy : Table V → Table V
  unfolding alloc_table alloc_ctable
  table_shallow_copy t =
      let fresh : Table V =
        if is_ctable t then alloc_ctable (length t.buckets) else alloc_table (length t.buckets) in
      record fresh { buckets = t.buckets; used = t.used }

  unfoldable pub copy_from : List (Option (Symbol V)) → Table V → Option (Table V)
  unfolding table_mset
  copy_from [] t = some t
  copy_from (b ∷ bs) t = do
    u ← elim b [
      | none ↦ some t
      | some s ↦ if has_value (some s) then table_mset t s.name s.val else some t
    ]
    copy_from bs u

  unfoldable pub table_copy : Table V → Option (Table V)
  unfolding copy_from table_good_size alloc_table alloc_ctable non_null_from
  table_copy t = do
    nsize ← table_good_size (non_null_from t.buckets 0)
    copy_from t.buckets (if is_ctable t then alloc_ctable nsize else alloc_table nsize)

  -- The buckets are cleared and filled anew; the vector must keep its size. The kind of the table
  -- does not change, so `used` is what it was if the number of symbols is.
  unfoldable pub rehash_table : Table V → Option (Table V)
  unfolding re_add table_add_sym_fast get_methods
  rehash_table t = do
    let cleared = record t {
      buckets = replicate (length t.buckets) none;
      used = (get_methods t).make_used 0;
      readonly = false;
      buckets_readonly = false;
    }
    u ← re_add (table_add_sym_fast add_depth) t.buckets cleared
    guard (length u.buckets == length t.buckets)
    guard (table_entries u == table_entries t)
    some (record u { readonly = t.readonly; buckets_readonly = t.buckets_readonly })

  unfoldable pub protect_table : Table V → Table V
  protect_table t = record t { readonly = true; buckets_readonly = true }
