-- ===== src/Hash.antt =====
-- hash.c on a machine with 64-bit longs: FNV-1a over bytes, folded to a number of bits.
-- A word is a number below 2 ^ 32 or 2 ^ 64; `none` is a failed assertion of `fold_hash`. The
-- case-insensitive hashes put each byte through a table of charset.c first. The tests
-- `sizeof (long) == 4` fail, so `symbol_nhash` and `symbol_7inhash` are the 64-bit versions.
pub mod Laws
use Prim.Native.Nat.{bit_xor}
use mudlle.Prelude.{
  ℕ, ◌*◌, ◌/◌, ◌%◌, ◌^◌, List, [], ◌∷◌, Option, some, none, ltb, ◌==◌, if◌then◌else◌,
}
use mudlle.Charset.{to_7lower, to_8lower}

abbrev pub fnv_prime32 : ℕ
fnv_prime32 = 0x01000193

abbrev pub fnv_prime64 : ℕ
fnv_prime64 = 0x00000100000001b3

abbrev pub fnv_offset32 : ℕ
fnv_offset32 = 0x811c9dc5

abbrev pub fnv_offset64 : ℕ
fnv_offset64 = 0xcbf29ce484222325

-- `code & ~(~0 << bits)` keeps the low `bits` bits.
unfoldable pub fold_hash_n : ℕ → ℕ → ℕ → Option ℕ
fold_hash_n width code bits =
    if bits == width
    then some code
    else if ltb bits width
    then some (bit_xor code (code / 2 ^ bits) % 2 ^ bits)
    else none

-- The loop of a hash function, whose bytes go through `conv`.
unfoldable pub fnv_loop : ℕ → ℕ → (ℕ → ℕ) → ℕ → List ℕ → ℕ
fnv_loop width prime conv code [] = code
fnv_loop width prime conv code (c ∷ name) =
    fnv_loop width prime conv ((bit_xor code (conv c) * prime) % 2 ^ width) name

unfoldable pub symbol_nhash32 : List ℕ → ℕ → Option ℕ
symbol_nhash32 name bits = fold_hash_n 32 (fnv_loop 32 fnv_prime32 (λ c. c) fnv_offset32 name) bits

unfoldable pub symbol_7inhash32 : List ℕ → ℕ → Option ℕ
symbol_7inhash32 name bits =
    fold_hash_n 32 (fnv_loop 32 fnv_prime32 to_7lower fnv_offset32 name) bits

unfoldable pub symbol_8inhash32 : List ℕ → ℕ → Option ℕ
symbol_8inhash32 name bits =
    fold_hash_n 32 (fnv_loop 32 fnv_prime32 to_8lower fnv_offset32 name) bits

unfoldable pub fold_hash : ℕ → ℕ → Option ℕ
unfolding fold_hash_n
fold_hash code bits = fold_hash_n 64 code bits

unfoldable pub symbol_nhash : List ℕ → ℕ → Option ℕ
symbol_nhash s bits = fold_hash_n 64 (fnv_loop 64 fnv_prime64 (λ c. c) fnv_offset64 s) bits

unfoldable pub symbol_7inhash : List ℕ → ℕ → Option ℕ
symbol_7inhash s bits = fold_hash_n 64 (fnv_loop 64 fnv_prime64 to_7lower fnv_offset64 s) bits

-- `TAGGED_INT_BITS - 1` is 62.
unfoldable pub string_nhash : List ℕ → Option ℕ
unfolding symbol_nhash
string_nhash s = symbol_nhash s 62

unfoldable pub mudlle_string_hash : List ℕ → Option ℕ
unfolding symbol_nhash32
mudlle_string_hash s = symbol_nhash32 s 30

unfoldable pub mudlle_string_7ihash : List ℕ → Option ℕ
unfolding symbol_7inhash32
mudlle_string_7ihash s = symbol_7inhash32 s 30

unfoldable pub mudlle_string_8ihash : List ℕ → Option ℕ
unfolding symbol_8inhash32
mudlle_string_8ihash s = symbol_8inhash32 s 30
