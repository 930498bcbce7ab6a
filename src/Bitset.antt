-- ===== src/Bitset.antt =====
-- runtime/bitset.c: sets of small numbers in the bits of a mudlle string. A primitive that changes
-- its argument returns the string after it. A value that is neither a string nor an integer is
-- `other`. A string is the list of its bytes; a byte is a number below 256, a word of 8 bytes is
-- read with the first byte as the lowest. Messages of errors are not modelled.
pub mod Bytes
pub mod Members
pub mod Binary
pub mod Count
pub mod Subset
use Prim.Native.Nat.{bit_or, bit_and}
use mudlle.Prelude.{
  ℕ, zero, suc, ◌+◌, ◌-◌, ◌*◌, ◌/◌, ◌%◌, ◌^◌, List, [], ◌∷◌, Bool, true, false, ◌&&◌, ◌||◌, not,
  ltb, leb, ◌==◌, if◌then◌else◌, length, replicate, set, get_or, drop, take, Option, none, some,
}
use mudlle.Prelude.Int.{ℤ, pos, negsuc}
use mudlle.Error.{
  RuntimeError, bad_type, bad_value, bad_index, value_read_only, Result, raised, returned, ◌>>=◌,
  ◌>>◌, require,
}
use mudlle.Table.{Str}

pub data Value : Type 0 where
  string : Str → Value
  integer : ℤ → Value
  other : Value

abbrev pub as_string : Value → Result Str
as_string (string s) = returned s
as_string (integer n) = raised bad_type
as_string other = raised bad_type

abbrev pub as_integer : Value → Result ℤ
as_integer (string s) = raised bad_type
as_integer (integer n) = returned n
as_integer other = raised bad_type

abbrev pub max_string_size : ℕ
max_string_size = 16 * 1024 * 1024 - 16 - 1

unfoldable pub new_bitset : Value → Result Str
new_bitset mbits = do
  size ← as_integer mbits
  elim size [
    | negsuc n ↦ raised bad_value
    | pos n ↦
        if ltb (max_string_size * 8) n
        then raised bad_value
        else returned (record { bytes = replicate ((n + 8 - 1) / 8) 0; readonly = false })
  ]

unfoldable pub bclear : Value → Result Str
bclear v = do b ← as_string v; returned (record b { bytes = replicate (length b.bytes) 0 })

-- The byte and the mask of a bit.
unfoldable pub ct_bit_e : ℤ → Str → Result (ℕ × ℕ)
ct_bit_e n bitset =
    let maxn = length bitset.bytes in
    if maxn == 0 then raised bad_value else elim n [
      | negsuc k ↦ raised bad_index
      | pos u ↦ if ltb (maxn * 8 - 1) u then raised bad_index else returned (u / 8, 2 ^ (u % 8))
    ]

abbrev pub update : Str → ℕ → (ℕ → ℕ) → Str
update s i change = record s { bytes = set s.bytes i (change (get_or s.bytes i 0)) }

unfoldable pub set_bitb : Value → Value → Result Str
unfolding ct_bit_e
set_bitb v mnum = do
  bitset ← as_string v
  n ← as_integer mnum
  place ← ct_bit_e n bitset
  require (not bitset.readonly) value_read_only
  returned (update bitset place.0 (λ c. bit_or c place.1))

-- `~mask` of a byte is `255 - mask`.
unfoldable pub clear_bitb : Value → Value → Result Str
unfolding ct_bit_e
clear_bitb v mnum = do
  bitset ← as_string v
  n ← as_integer mnum
  place ← ct_bit_e n bitset
  require (not bitset.readonly) value_read_only
  returned (update bitset place.0 (λ c. bit_and c (255 - place.1)))

abbrev pub under : ℕ → ℕ → Bool
under c mask = not (bit_and c mask == 0)

unfoldable pub bit_is_set : Value → Value → Result Bool
unfolding ct_bit_e
bit_is_set v mnum = do
  bitset ← as_string v
  n ← as_integer mnum
  place ← ct_bit_e n bitset
  returned (under (get_or bitset.bytes place.0 0) place.1)

unfoldable pub bit_clearp : Value → Value → Result Bool
unfolding bit_is_set
bit_clearp v mnum = bit_is_set v mnum >>= λ b. returned (not b)

-- The loops of the operations on two sets, over bytes.
unfoldable pub bitset_op : (ℕ → ℕ → ℕ) → List ℕ → List ℕ → List ℕ
bitset_op op [] s2 = []
bitset_op op (a ∷ s1) [] = []
bitset_op op (a ∷ s1) (b ∷ s2) = op a b ∷ bitset_op op s1 s2

unfoldable pub bunion_op : List ℕ → List ℕ → List ℕ
unfolding bitset_op
bunion_op s1 s2 = bitset_op bit_or s1 s2

unfoldable pub bintersection_op : List ℕ → List ℕ → List ℕ
unfolding bitset_op
bintersection_op s1 s2 = bitset_op bit_and s1 s2

unfoldable pub bdifference_op : List ℕ → List ℕ → List ℕ
unfolding bitset_op
bdifference_op s1 s2 = bitset_op (λ a b. bit_and a (255 - b)) s1 s2

abbrev pub bassign_op : List ℕ → List ℕ → List ℕ
bassign_op s1 s2 = s2

-- The result is a new set, or the first one after the change.
unfoldable pub bitset_binop : Value → Value → Bool → (List ℕ → List ℕ → List ℕ) → Result Str
bitset_binop v1 v2 alloc_new op = do
  b1 ← as_string v1
  b2 ← as_string v2
  require (length b1.bytes == length b2.bytes) bad_value
  if alloc_new then returned (record { bytes = op b1.bytes b2.bytes; readonly = false }) else (do
    require (not b1.readonly) value_read_only
    returned (record b1 { bytes = op b1.bytes b2.bytes }))

unfoldable pub bunion : Bool → Value → Value → Result Str
unfolding bitset_binop bunion_op
bunion alloc_new v1 v2 = bitset_binop v1 v2 alloc_new bunion_op

unfoldable pub bintersection : Bool → Value → Value → Result Str
unfolding bitset_binop bintersection_op
bintersection alloc_new v1 v2 = bitset_binop v1 v2 alloc_new bintersection_op

unfoldable pub bdifference : Bool → Value → Value → Result Str
unfolding bitset_binop bdifference_op
bdifference alloc_new v1 v2 = bitset_binop v1 v2 alloc_new bdifference_op

unfoldable pub bassign_mod : Value → Value → Result Str
unfolding bitset_binop
bassign_mod v1 v2 = bitset_binop v1 v2 false bassign_op

-- The loops that compare bytes; strings have the same length here.
unfoldable pub subset_loop : List ℕ → List ℕ → Bool
subset_loop [] s2 = true
subset_loop (a ∷ s1) [] = true
subset_loop (a ∷ s1) (b ∷ s2) =
    let rest = subset_loop s1 s2 in if bit_and a (255 - b) == 0 then rest else false

unfoldable pub bitset_inp : Value → Value → Result Bool
unfolding subset_loop
bitset_inp v1 v2 = do
  b1 ← as_string v1
  b2 ← as_string v2
  require (length b1.bytes == length b2.bytes) bad_value
  returned (subset_loop b1.bytes b2.bytes)

unfoldable pub same_bytes : List ℕ → List ℕ → Bool
same_bytes [] s2 = true
same_bytes (a ∷ s1) [] = true
same_bytes (a ∷ s1) (b ∷ s2) = let rest = same_bytes s1 s2 in if a == b then rest else false

unfoldable pub bitset_eqp : Value → Value → Result Bool
unfolding same_bytes
bitset_eqp v1 v2 = do
  b1 ← as_string v1
  b2 ← as_string v2
  require (length b1.bytes == length b2.bytes) bad_value
  returned (same_bytes b1.bytes b2.bytes)

unfoldable pub empty_loop : List ℕ → Bool
empty_loop [] = true
empty_loop (a ∷ sb) = let rest = empty_loop sb in if a == 0 then rest else false

unfoldable pub bemptyp : Value → Result Bool
unfolding empty_loop
bemptyp v = do b ← as_string v; returned (empty_loop b.bytes)

-- `popcountl`, the ones among so many bits.
unfoldable pub popcount : ℕ → ℕ → ℕ
popcount zero n = 0
popcount (suc bits) n = n % 2 + popcount bits (n / 2)

-- `*(unsigned long *)sb`, and the word that the last loop collects from fewer than 8 bytes.
unfoldable pub word_of : List ℕ → ℕ
word_of [] = 0
word_of (c ∷ cs) = c + 256 * word_of cs

unfoldable pub collect : ℕ → List ℕ → ℕ
collect u [] = u
collect u (c ∷ cs) = collect (bit_or (u * 256 % 2 ^ 64) c) cs

-- In rounds of 8 bytes; a round for each byte is enough.
unfoldable pub bcount_loop : ℕ → List ℕ → ℕ → ℕ
unfolding popcount word_of collect
bcount_loop zero sb n = n
bcount_loop (suc rounds) sb n =
    let rest = bcount_loop rounds (drop 8 sb) (n + popcount 64 (word_of (take 8 sb))) in
    if leb 8 (length sb) then rest else if length sb == 0 then n else n + popcount 64 (collect 0 sb)

unfoldable pub bcount : Value → Result ℕ
unfolding bcount_loop
bcount v = do b ← as_string v; returned (bcount_loop (length b.bytes + 1) b.bytes 0)

-- The loop takes the intersection byte by byte, or in words of 8 bytes.
unfoldable pub bcount_intersection : Value → Value → Result ℕ
unfolding bcount_loop bintersection_op
bcount_intersection v1 v2 = do
  b1 ← as_string v1
  b2 ← as_string v2
  require (length b1.bytes == length b2.bytes) bad_value
  returned (bcount_loop (length b1.bytes + 1) (bintersection_op b1.bytes b2.bytes) 0)
