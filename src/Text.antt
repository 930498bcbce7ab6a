-- ===== src/Text.antt =====
-- runtime/mudlle-string.c: strings, by their bytes. A primitive that changes its argument returns
-- the string after it. memchr is that of the C library.
pub mod Span
pub mod Find
use mudlle.Prelude.{
  ℕ, zero, suc, ◌+◌, ◌-◌, ◌%◌, List, [], ◌∷◌, Bool, true, false, ◌||◌, not, Option, none, some,
  ◌==◌, ltb, leb, if◌then◌else◌, length, get_or, set, replicate, take, drop, map,
}
use mudlle.Prelude.Int.{ℤ, pos, negsuc, ◌+ℤ◌}
use mudlle.Error.{
  RuntimeError, bad_type, bad_value, bad_index, value_read_only, Result, raised, returned, ◌>>=◌,
  ◌>>◌, require,
}
use mudlle.Charset.{to_8lower, to_8upper, to_7print}
use mudlle.Table.{Str}
use mudlle.Bitset.{Value, string, integer, other, as_string, as_integer, max_string_size}

unfoldable pub ct_string_index : ℤ → Str → Bool → Result ℕ
ct_string_index idx str beyond =
    let len = length str.bytes in
    let idx' : ℤ = elim idx [ pos n ↦ pos n | negsuc n ↦ negsuc n +ℤ pos len ] in
    elim idx' [
      | negsuc n ↦ raised bad_index
      | pos n ↦ if leb (len + (if beyond then 1 else 0)) n then raised bad_index else returned n
    ]

-- CT_RANGE(size, 0, LONG_MAX)
abbrev pub ct_size : ℤ → Result ℕ
ct_size (pos n) = returned n
ct_size (negsuc n) = raised bad_value

-- CT_RANGE(c, SCHAR_MIN, UCHAR_MAX), read into an unsigned char
unfoldable pub ct_char : ℤ → Result ℕ
ct_char (pos n) = if ltb 255 n then raised bad_value else returned n
ct_char (negsuc n) = if ltb 127 n then raised bad_value else returned (255 - n)

-- The conversion of a long to an unsigned char.
unfoldable pub low_byte : ℤ → ℕ
low_byte (pos n) = n % 256
low_byte (negsuc n) = 255 - n % 256

abbrev pub writable : List ℕ → Str
writable bytes = record { bytes = bytes; readonly = false }

unfoldable pub stringp : Value → Bool
stringp (string s) = true
stringp (integer n) = false
stringp other = false

unfoldable pub make_string : Value → Result Str
make_string msize = do
  n ← as_integer msize
  size ← ct_size n
  if ltb max_string_size size then raised bad_value else returned (writable (replicate size 0))

unfoldable pub slength : Value → Result ℕ
slength str = do s ← as_string str; returned (length s.bytes)

-- The loop of DEF_MEM_TRANS.
unfoldable pub mem_trans : (ℕ → ℕ) → List ℕ → List ℕ
mem_trans op [] = []
mem_trans op (c ∷ src) = op c ∷ mem_trans op src

unfoldable pub string_translate : Value → (ℕ → ℕ) → Result Str
unfolding mem_trans
string_translate src op = do s ← as_string src; returned (writable (mem_trans op s.bytes))

unfoldable pub string_downcase : Value → Result Str
unfolding string_translate
string_downcase s = string_translate s to_8lower

unfoldable pub string_upcase : Value → Result Str
unfolding string_translate
string_upcase s = string_translate s to_8upper

unfoldable pub string_7bit : Value → Result Str
unfolding string_translate
string_7bit s = string_translate s to_7print

unfoldable pub memchr : List ℕ → ℕ → Option ℕ
memchr [] c = none
memchr (x ∷ s) c =
    let rest : Option ℕ = elim (memchr s c) [ none ↦ none | some i ↦ some (suc i) ] in
    if x == c then some 0 else rest

-- How far the loop with `*str != c` goes, and the one with `==`.
unfoldable pub same_loop : Bool → ℕ → List ℕ → ℕ
same_loop wanted c [] = 0
same_loop wanted c (x ∷ str) =
    let rest = same_loop wanted c str in
    if (if wanted then x == c else not (x == c)) then suc rest else 0

-- The same for the loops with memchr.
unfoldable pub memchr_loop : Bool → List ℕ → List ℕ → ℕ
unfolding memchr
memchr_loop wanted set [] = 0
memchr_loop wanted set (x ∷ str) =
    let rest = memchr_loop wanted set str in
    elim (memchr set x) [
      | none ↦ if wanted then 0 else suc rest
      | some i ↦ if wanted then suc rest else 0
    ]

-- The bytes from `start` up to `end`.
unfoldable pub string_span : List ℕ → List ℕ → ℕ
unfolding same_loop memchr_loop
string_span str accept =
    if length accept == 1
    then same_loop true (get_or accept 0 0) str
    else memchr_loop true accept str

unfoldable pub string_cspan : List ℕ → List ℕ → ℕ
unfolding same_loop memchr_loop
string_cspan str reject =
    if length reject == 0
    then 0
    else if length reject == 1
    then same_loop false (get_or reject 0 0) str
    else memchr_loop false reject str

unfoldable pub string_xspan : Value → Value → Value → Value → (List ℕ → List ℕ → ℕ) → Result ℕ
unfolding ct_string_index
string_xspan s mofs mmax filter func = do
  str ← as_string s
  n ← as_integer mofs
  m ← as_integer mmax
  set ← as_string filter
  ofs ← ct_string_index n str true
  max ← ct_size m
  let slen = length str.bytes
  let end = if ltb slen (max + ofs) then slen else max + ofs
  returned (func (take (end - ofs) (drop ofs str.bytes)) set.bytes)

unfoldable pub code_string_span : Value → Value → Value → Value → Result ℕ
unfolding string_xspan string_span
code_string_span s mofs mmax accept = string_xspan s mofs mmax accept string_span

unfoldable pub code_string_cspan : Value → Value → Value → Value → Result ℕ
unfolding string_xspan string_cspan
code_string_cspan s mofs mmax reject = string_xspan s mofs mmax reject string_cspan

unfoldable pub sfillb : Value → Value → Result Str
unfolding ct_char
sfillb str mc = do
  s ← as_string str
  n ← as_integer mc
  c ← ct_char n
  if length s.bytes == 0 then returned s else (do
    require (not s.readonly) value_read_only
    returned (record s { bytes = replicate (length s.bytes) c }))

unfoldable pub string_ref : Value → Value → Result ℕ
unfolding ct_string_index
string_ref str midx = do
  s ← as_string str
  n ← as_integer midx
  idx ← ct_string_index n s false
  returned (get_or s.bytes idx 0)

-- The stored byte, and the string.
unfoldable pub mudlle_string_set : Value → Value → Value → Result (ℕ × Str)
unfolding ct_string_index low_byte
mudlle_string_set str midx mc = do
  s ← as_string str
  n ← as_integer midx
  c ← as_integer mc
  idx ← ct_string_index n s false
  require (not s.readonly) value_read_only
  returned (low_byte c, record s { bytes = set s.bytes idx (low_byte c) })

unfoldable pub string_index : List ℕ → ℤ → ℕ → ℤ
unfolding memchr low_byte
string_index haystack needle ofs = elim (memchr (drop ofs haystack) (low_byte needle)) [
  | none ↦ negsuc 0
  | some i ↦ pos (ofs + i)
]

unfoldable pub code_string_index : Value → Value → Result ℤ
unfolding string_index
code_string_index haystack mneedle = do
  s ← as_string haystack
  needle ← as_integer mneedle
  returned (string_index s.bytes needle 0)

unfoldable pub string_index_offset : Value → Value → Value → Result ℤ
unfolding string_index ct_string_index
string_index_offset haystack mneedle mofs = do
  s ← as_string haystack
  needle ← as_integer mneedle
  n ← as_integer mofs
  ofs ← ct_string_index n s true
  returned (string_index s.bytes needle ofs)

unfoldable pub substring : Value → Value → Value → Result Str
unfolding ct_string_index
substring str start len = do
  s ← as_string str
  m ← as_integer start
  n ← as_integer len
  first ← ct_string_index m s true
  size ← ct_size n
  if ltb (length s.bytes) (first + size)
      then raised bad_index
      else returned (writable (take size (drop first s.bytes)))
