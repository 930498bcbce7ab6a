-- ===== src/Table.antt =====
-- table.c: the symbol tables, open tables with linear probing whose size is a power of two. A table
-- of the first kind ignores case and accents (`used` is the number of symbols), one of the second
-- (a ctable, `used` is the complement of that number) compares bytes. A symbol stands in one cell,
-- and is changed there. `none` is a failed assertion or `abort`. `add_position`, the static
-- variable, is handed on in `vacant`. Of memory allocation, the assertion on the size of a new
-- vector is modelled where a table is doubled; the collector is not.
pub mod Probe
pub mod Methods
pub mod Valid
pub mod Lookup
pub mod Store
pub mod Grow
pub mod ReAdd
pub mod Add
pub mod Remove
pub mod Map
pub mod Access
use mudlle.Prelude.{
  ℕ, zero, suc, ◌+◌, ◌-◌, ◌*◌, ◌/◌, ◌%◌, ◌^◌, List, [], ◌∷◌, Bool, true, false, ◌&&◌, not, Option,
  none, some, ◌>>=◌, ◌>>◌, guard, ltb, ◌==◌, if◌then◌else◌, length, replicate, set,
}
use mathlib.Core.Option
use mudlle.Prelude.Int.{ℤ, pos, negsuc, ◌+ℤ◌, ◌-ℤ◌}
use mudlle.Alloc.{alloc_vector}
use mudlle.Charset.{mem7icmp}
use mudlle.Hash.{symbol_nhash, symbol_7inhash}
use Probe.{Found, at, vacant, full, next, cell, probe, reseat}

-- A mudlle string: its bytes, and the flag OBJ_READONLY.
pub record Str : Type 0 where
  pub bytes : List ℕ
  pub readonly : Bool

-- `none` is the null value.
pub record Symbol (V : Type 0) : Type 0 where
  pub name : Str
  pub val : Option V
  pub readonly : Bool

pub record Table (V : Type 0) : Type 0 where
  pub buckets : List (Option (Symbol V))
  pub used : ℤ
  pub readonly : Bool
  pub buckets_readonly : Bool

pub record TableMethods : Type 0 where
  pub hash : List ℕ → ℕ → Option ℕ
  pub compare : List ℕ → List ℕ → ℕ → Option ℤ
  pub make_used : ℕ → ℤ
  pub used_delta : ℤ

-- The C library's `memcmp`; `none` is a read past the end of a block.
unfoldable pub memcmp : List ℕ → List ℕ → ℕ → Option ℤ
memcmp s1 s2 zero = some (pos 0)
memcmp [] s2 (suc n) = none
memcmp (a ∷ s1) [] (suc n) = none
memcmp (a ∷ s1) (b ∷ s2) (suc n) =
    let rest = memcmp s1 s2 n in if a == b then rest else some (if ltb a b then negsuc 0 else pos 1)

unfoldable pub table_methods : TableMethods
table_methods = record {
  hash = symbol_7inhash;
  compare = mem7icmp;
  make_used = pos;
  used_delta = pos 1;
}

-- `makeint(~n)`
unfoldable pub ctable_methods : TableMethods
ctable_methods = record {
  hash = symbol_nhash;
  compare = memcmp;
  make_used = negsuc;
  used_delta = negsuc 0;
}

-- `ffsl`: the position of the lowest bit that is set, from 1, in so many bits.
unfoldable pub ffs_from : ℕ → ℕ → ℕ
ffs_from zero n = 0
ffs_from (suc bits) n =
    let rest = ffs_from bits (n / 2) in if n == 0 then 0 else if n % 2 == 1 then 1 else suc rest

-- `ffsl(size) - 1`, with the assertions of `table_find`.
unfoldable pub size_bits : ℕ → Option ℕ
unfolding ffs_from
size_bits size = do
  let bits = ffs_from 64 size - 1
  guard (ltb size (2 ^ 32))
  guard (2 ^ bits == size)
  some bits

-- The cell that a name hashes to. The assertion of `fold_hash` holds, since `bits` is below 32.
abbrev pub home : TableMethods → ℕ → List ℕ → ℕ
home m bits name = Option.get_or (m.hash name bits) 0

abbrev pub is_zero : Option ℤ → Bool
is_zero (some (pos n)) = n == 0
is_zero _ = false

-- The test of `table_find`. Blocks of one length are not read past their end.
abbrev pub same_name : TableMethods → List ℕ → List ℕ → Bool
same_name m name other = length other == length name && is_zero (m.compare name other (length name))

abbrev pub matches : {V : Type 0} → TableMethods → List ℕ → Symbol V → Bool
matches m name s = same_name m name s.name.bytes

module _ {V : Type 0} where
  abbrev pub is_ctable : Table V → Bool
  is_ctable t = elim t.used [ pos n ↦ false | negsuc n ↦ true ]

  unfoldable pub get_methods : Table V → TableMethods
  unfolding table_methods ctable_methods
  get_methods t = if is_ctable t then ctable_methods else table_methods

  -- `n < 0 ? ~n : n`
  abbrev pub table_entries : Table V → ℕ
  table_entries t = elim t.used [ pos n ↦ n | negsuc n ↦ n ]

  -- `size` is a power of two, at most MAX_VECTOR_SIZE, as the source requires.
  unfoldable pub alloc_table : ℕ → Table V
  alloc_table size = record {
    buckets = replicate size none;
    used = pos 0;
    readonly = false;
    buckets_readonly = false;
  }

  unfoldable pub alloc_ctable : ℕ → Table V
  unfolding alloc_table
  alloc_ctable size = record (alloc_table size) { used = negsuc 0 }

  unfoldable pub table_find : Table V → List ℕ → Option Found
  unfolding size_bits probe
  table_find t name = do
    let m = get_methods t
    bits ← size_bits (length t.buckets)
    elim (probe (matches m name) t.buckets (length t.buckets) (home m bits name)) [
      | full ↦ none
      | at i ↦ some (at i)
      | vacant i ↦ some (vacant i)
    ]

  unfoldable pub table_lookup_len : Table V → List ℕ → Option (Option (Symbol V))
  unfolding table_find
  table_lookup_len t name = do
    found ← table_find t name
    some (elim found [ at i ↦ cell t.buckets i | _ ↦ none ])

  -- The result is the removed symbol, if the name was there.
  unfoldable pub table_remove_len : Table V → List ℕ → Option (Option (Symbol V) × Table V)
  unfolding table_find size_bits reseat get_methods
  table_remove_len t name = do
    let m = get_methods t
    let size = length t.buckets
    found ← table_find t name
    elim found [
      | at scan ↦ do
        bits ← size_bits size
        buckets ←
            reseat (λ s. home m bits s.name.bytes) size (set t.buckets scan none) (next size scan)
        some (cell t.buckets scan, record t { buckets = buckets; used = t.used -ℤ m.used_delta })
      | _ ↦ some (none, t)
    ]

  -- The loop that adds the symbols of the old vector to the table.
  unfoldable pub re_add :
      (Table V → ℕ → Symbol V → Option (Table V))
      → List (Option (Symbol V))
      → Table V
      → Option (Table V)
  unfolding table_find
  re_add add [] t = some t
  re_add add (none ∷ old) t = re_add add old t
  re_add add (some s ∷ old) t = do
    found ← table_find t s.name.bytes
    elim found [ vacant i ↦ add t i s >>= re_add add old | _ ↦ none ]

  -- The first argument bounds how deep the calls nest: a call that doubles the table makes one for
  -- each of its symbols.
  unfoldable pub table_add_sym_fast : ℕ → Table V → ℕ → Symbol V → Option (Table V)
  unfolding get_methods re_add alloc_vector
  table_add_sym_fast zero t add_position sym = none
  table_add_sym_fast (suc depth) t add_position sym =
      let m = get_methods t in
      let size = length t.buckets in
      let t' = record t {
        buckets = set t.buckets add_position (some sym);
        used = t.used +ℤ m.used_delta;
      } in
      let grown = alloc_vector none (2 * size) >>= λ newp.
      re_add (table_add_sym_fast depth) t'.buckets
        (record t' { buckets = newp; used = m.make_used 0; buckets_readonly = false }) in
      do
        guard (not t.readonly)
        guard (not t.buckets_readonly)
        guard sym.name.readonly
        guard (ltb add_position size)
        guard (elim (cell t.buckets add_position) [ none ↦ true | some _ ↦ false ])
        if ltb (table_entries t') (size / 2 + size / 4) then some t' else grown
