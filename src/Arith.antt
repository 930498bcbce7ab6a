-- ===== src/Arith.antt =====
-- runtime/arith.c: the arithmetic on mudlle integers, and their tagging in mvalues.h. A value is a
-- word of 64 bits, that is a number below 2 ^ 64; an integer of 63 bits has the lowest bit set. The
-- machine's operations wrap around. The strings that `+` appends, sqrt, and the random numbers are
-- not modelled.
pub mod Linear
pub mod Checked
pub mod Ordering
pub mod Division
pub mod Modulo
use Prim.Native.Nat.{bit_or, bit_xor, bit_and}
use mudlle.Prelude.{
  ℕ, ◌+◌, ◌-◌, ◌*◌, ◌/◌, ◌%◌, ◌^◌, Bool, true, false, ◌&&◌, ◌||◌, not, ltb, leb, ◌==◌,
  if◌then◌else◌,
}
use mudlle.Prelude.Int.{ℤ, pos, negsuc, ◌+ℤ◌, ◌-ℤ◌, ◌*ℤ◌, ltb_ℤ}
use mudlle.Error.{
  RuntimeError, bad_type, bad_value, divide_by_zero, Result, raised, returned, ◌>>◌, require,
}
use mudlle.Table.{ffs_from}

-- 2 ^ 64 and 2 ^ 63
abbrev pub words : ℕ
words = 18_446_744_073_709_551_616

abbrev pub half : ℕ
half = 9_223_372_036_854_775_808

abbrev pub is_negative : ℕ → Bool
is_negative w = leb half w

-- A word as a `long`, and a `long` as a word.
abbrev pub signed : ℕ → ℤ
signed w = if ltb w half then pos w else negsuc (words - 1 - w)

abbrev pub to_word : ℤ → ℕ
to_word (pos n) = n % words
to_word (negsuc n) = words - 1 - n % words

abbrev pub integerp : ℕ → Bool
integerp v = v % 2 == 1

-- `(long)v >> 1`
abbrev pub intval : ℕ → ℕ
intval v = if is_negative v then v / 2 + half else v / 2

abbrev pub uintval : ℕ → ℕ
uintval v = v / 2

abbrev pub makeint : ℕ → ℕ
makeint i = (i * 2 + 1) % words

abbrev pub makebool : Bool → ℕ
makebool b = if b then 3 else 1

-- `MIN_TAGGED_INT` as a word: -2 ^ 62
abbrev pub min_tagged_int : ℕ
min_tagged_int = 13_835_058_055_282_163_712

unfoldable pub check_integers : ℕ → ℕ → Result (Unit {0})
check_integers a b = require (integerp a && integerp b) bad_type

unfoldable pub check_division : ℕ → ℕ → Result (Unit {0})
unfolding check_integers
check_division a b = check_integers a b >> require (not (b == 1)) divide_by_zero

unfoldable pub code_iadd : ℕ → ℕ → Result ℕ
unfolding check_integers
code_iadd v1 v2 = check_integers v1 v2 >> returned ((v1 + v2 + (words - 1)) % words)

unfoldable pub code_subtract : ℕ → ℕ → Result ℕ
unfolding check_integers
code_subtract v1 v2 = check_integers v1 v2 >> returned ((v1 + (words - v2) + 1) % words)

unfoldable pub code_negate : ℕ → Result ℕ
code_negate n = require (integerp n) bad_type >> returned ((2 + (words - n)) % words)

unfoldable pub code_multiply : ℕ → ℕ → Result ℕ
unfolding check_integers
code_multiply v1 v2 = check_integers v1 v2 >> returned (makeint (intval v1 * intval v2 % words))

-- The absolute value, and C's division of longs, which truncates towards zero.
abbrev pub magnitude : ℕ → ℕ
magnitude w = if is_negative w then words - w else w

abbrev pub negated : ℕ → ℕ
negated w = (words - w) % words

abbrev pub same_sign : ℕ → ℕ → Bool
same_sign a b = if is_negative a then is_negative b else not (is_negative b)

abbrev pub long_div : ℕ → ℕ → ℕ
long_div a b =
    if same_sign a b then magnitude a / magnitude b else negated (magnitude a / magnitude b)

abbrev pub long_rem : ℕ → ℕ → ℕ
long_rem a b =
    if is_negative a then negated (magnitude a % magnitude b) else magnitude a % magnitude b

unfoldable pub code_divide : ℕ → ℕ → Result ℕ
unfolding check_division
code_divide v1 v2 = check_division v1 v2 >> returned (makeint (long_div (intval v1) (intval v2)))

unfoldable pub code_remainder : ℕ → ℕ → Result ℕ
unfolding check_division
code_remainder v1 v2 = check_division v1 v2 >> returned (makeint (long_rem (intval v1) (intval v2)))

-- `if (result && (p1 ^ p2) < 0) result += p2`
unfoldable pub code_modulo : ℕ → ℕ → Result ℕ
unfolding check_division
code_modulo v1 v2 =
    let p1 = intval v1 in
    let p2 = intval v2 in
    let result = long_rem p1 p2 in
    check_division v1 v2
    >> returned (
        makeint
          (if not (result == 0) && not (same_sign p1 p2) then (result + p2) % words else result))

-- `(long)a < (long)b`
abbrev pub long_lt : ℕ → ℕ → Bool
long_lt a b =
    if is_negative a
    then (if is_negative b then ltb a b else true)
    else (if is_negative b then false else ltb a b)

unfoldable pub code_smaller : ℕ → ℕ → Result ℕ
unfolding check_integers
code_smaller v1 v2 = check_integers v1 v2 >> returned (makebool (long_lt v1 v2))

unfoldable pub code_smaller_equal : ℕ → ℕ → Result ℕ
unfolding check_integers
code_smaller_equal v1 v2 = check_integers v1 v2 >> returned (makebool (not (long_lt v2 v1)))

unfoldable pub code_greater : ℕ → ℕ → Result ℕ
unfolding check_integers
code_greater v1 v2 = check_integers v1 v2 >> returned (makebool (long_lt v2 v1))

unfoldable pub code_greater_equal : ℕ → ℕ → Result ℕ
unfolding check_integers
code_greater_equal v1 v2 = check_integers v1 v2 >> returned (makebool (not (long_lt v1 v2)))

unfoldable pub code_max : ℕ → ℕ → Result ℕ
unfolding check_integers
code_max v1 v2 = check_integers v1 v2 >> returned (if long_lt v1 v2 then v2 else v1)

unfoldable pub code_min : ℕ → ℕ → Result ℕ
unfolding check_integers
code_min v1 v2 = check_integers v1 v2 >> returned (if long_lt v1 v2 then v1 else v2)

-- `labs((long)n - 1) + 1`; `labs` of the least long is itself.
abbrev pub tagged_abs : ℕ → ℕ
tagged_abs n = (magnitude ((n + (words - 1)) % words) + 1) % words

unfoldable pub code_abs : ℕ → Result ℕ
code_abs n = require (integerp n) bad_type >> returned (tagged_abs n)

unfoldable pub code_bitor : ℕ → ℕ → Result ℕ
unfolding check_integers
code_bitor v1 v2 = check_integers v1 v2 >> returned (bit_or v1 v2)

unfoldable pub code_bitxor : ℕ → ℕ → Result ℕ
unfolding check_integers
code_bitxor v1 v2 = check_integers v1 v2 >> returned (bit_or (bit_xor v1 v2) 1)

unfoldable pub code_bitand : ℕ → ℕ → Result ℕ
unfolding check_integers
code_bitand v1 v2 = check_integers v1 v2 >> returned (bit_and v1 v2)

unfoldable pub code_bitnot : ℕ → Result ℕ
code_bitnot n = require (integerp n) bad_type >> returned (bit_xor n (words - 2))

-- `w << k` and `w >> k` of longs, for k below 64.
abbrev pub shl : ℕ → ℕ → ℕ
shl w k = w * 2 ^ k % words

abbrev pub asr : ℕ → ℕ → ℕ
asr w k = if is_negative w then w / 2 ^ k + (words - words / 2 ^ k) else w / 2 ^ k

unfoldable pub code_shift_left : ℕ → ℕ → Result ℕ
unfolding check_integers
code_shift_left v1 v2 =
    check_integers v1 v2 >> returned (makeint (shl (uintval v1) (uintval v2 % 64)))

unfoldable pub code_shift_right : ℕ → ℕ → Result ℕ
unfolding check_integers
code_shift_right v1 v2 =
    check_integers v1 v2 >> returned (makeint (asr (intval v1) (uintval v2 % 64)))

unfoldable pub code_ffs : ℕ → Result ℕ
unfolding ffs_from
code_ffs n = require (integerp n) bad_type >> returned (makeint (ffs_from 64 (intval n)))

-- A result that does not fit a `long` is an error: the built-ins that detect overflow.
abbrev pub in_long : ℤ → Bool
in_long (pos n) = ltb n half
in_long (negsuc n) = ltb n half

abbrev pub checked : ℤ → Result ℕ
checked r = if in_long r then returned (to_word r) else raised bad_value

unfoldable pub code_overflow_neg : ℕ → Result ℕ
unfolding ◌-ℤ◌
code_overflow_neg n = require (integerp n) bad_type >> checked (pos 2 -ℤ signed n)

unfoldable pub code_overflow_abs : ℕ → Result ℕ
code_overflow_abs n =
    require (integerp n) bad_type
    >> (if n == makeint min_tagged_int then raised bad_value else returned (tagged_abs n))

unfoldable pub code_overflow_add : ℕ → ℕ → Result ℕ
unfolding ◌+ℤ◌ ◌-ℤ◌
code_overflow_add a b =
    require (integerp a) bad_type
    >> (require (integerp b) bad_type >> checked (signed a +ℤ (signed b -ℤ pos 1)))

unfoldable pub code_overflow_sub : ℕ → ℕ → Result ℕ
unfolding ◌-ℤ◌
code_overflow_sub a b =
    require (integerp a) bad_type
    >> (require (integerp b) bad_type >> checked (signed a -ℤ (signed b -ℤ pos 1)))

unfoldable pub code_overflow_mul : ℕ → ℕ → Result ℕ
unfolding ◌-ℤ◌ ◌*ℤ◌
code_overflow_mul a b =
    let r = signed (intval a) *ℤ (signed b -ℤ pos 1) in
    require (integerp a) bad_type
    >> (require (integerp b) bad_type
        >> (if in_long r then returned (bit_or (to_word r) 1) else raised bad_value))

-- `MIN_TAGGED_INT / -1` does not fit.
unfoldable pub code_overflow_div : ℕ → ℕ → Result ℕ
code_overflow_div a b =
    require (integerp a) bad_type
    >> (require (integerp b) bad_type
        >> (require (not (b == 1)) divide_by_zero
            >> (if a == makeint min_tagged_int && b == words - 1
                then raised bad_value
                else returned (makeint (long_div (intval a) (intval b))))))

-- The mask has the sign bit of an integer and every bit that is shifted out.
unfoldable pub code_overflow_shl : ℕ → ℕ → Result ℕ
code_overflow_shl a b =
    let an = intval a in
    let bn = intval b in
    let mask = words - 2 ^ (62 - bn) in
    let ah = bit_and an mask in
    require (integerp a) bad_type
    >> (require (integerp b) bad_type
        >> (require (not (is_negative bn)) bad_value
            >> (if leb 63 bn
                then (if an == 0 then returned (makeint 0) else raised bad_value)
                else (if ah == 0 || ah == mask
                    then returned (makeint (shl an bn))
                    else raised bad_value))))

unfoldable pub code_overflow_shr : ℕ → ℕ → Result ℕ
code_overflow_shr a b =
    let an = intval a in
    let bn = intval b in
    require (integerp a) bad_type
    >> (require (integerp b) bad_type
        >> (require (not (is_negative bn)) bad_value
            >> (if leb 63 bn
                then returned (makeint (if is_negative an then words - 1 else 0))
                else returned (makeint (asr an bn)))))
