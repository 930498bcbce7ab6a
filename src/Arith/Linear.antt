-- ===== src/Arith/Linear.antt =====
-- Addition, subtraction and negation of runtime/arith.c as arithmetic modulo 2 ^ 63, and the
-- tagging of integers.
use mudlle.Prelude.{ℕ, ◌+◌, ◌-◌, ◌<◌, ◌%◌, ◌≡◌, true, ltb, if◌then◌else◌, arith}
use mudlle.Prelude.Int.{ℤ, pos, negsuc, ◌+ℤ◌, ◌-ℤ◌, ltb_ℤ}
use mudlle.Error.{Result, returned}
use mudlle.Arith.{
  words, half, signed, to_word, intval, makeint, integerp, tagged_abs, code_iadd, code_subtract,
  code_negate, code_abs,
}

-- The number that a mudlle integer stands for.
abbrev pub num : ℕ → ℤ
num v = signed (intval v)

-- A tagged integer.
abbrev pub IsInteger : ℕ → Type 0
IsInteger v = (v < words) × (integerp v ≡ true)

-- 2 ^ 62
abbrev pub quarter : ℕ
quarter = 4_611_686_018_427_387_904

-- The number from -2 ^ 62 up to 2 ^ 62, without that one, which is the same modulo 2 ^ 63.
abbrev pub residue : ℕ → ℤ
residue n = if ltb n quarter then pos n else negsuc (half - 1 - n)

abbrev pub wrap : ℤ → ℤ
wrap (pos n) = residue (n % half)
wrap (negsuc n) = residue (half - 1 - n % half)

abbrev pub Gives : Result ℕ → ℤ → Type 0
Gives result n = (r : ℕ) × (result ≡ returned r) × IsInteger r × (num r ≡ n)

-- A number that is tagged is read back modulo 2 ^ 63, and tagging what was read gives the value.
pub makeint-intval :
    (n : ℤ) (v : ℕ)
    → IsInteger v
    → IsInteger (makeint (to_word n))
      × (num (makeint (to_word n)) ≡ wrap n)
      × (makeint (intval v) ≡ v)
makeint-intval n v iv = ((ground arith, ground arith), ground arith, ground arith)

code_iadd-wrap :
    (a b : ℕ) → IsInteger a → IsInteger b → Gives (code_iadd a b) (wrap (num a +ℤ num b))
unfolding code_iadd ◌+ℤ◌
code_iadd-wrap a b ia ib =
    ((a + b + (words - 1)) % words, ground arith, (ground arith, ground arith), ground arith)

code_subtract-wrap :
    (a b : ℕ) → IsInteger a → IsInteger b → Gives (code_subtract a b) (wrap (num a -ℤ num b))
unfolding code_subtract ◌-ℤ◌
code_subtract-wrap a b ia ib =
    ((a + (words - b) + 1) % words, ground arith, (ground arith, ground arith), ground arith)

code_negate-wrap : (a : ℕ) → IsInteger a → Gives (code_negate a) (wrap (pos 0 -ℤ num a))
unfolding code_negate ◌-ℤ◌
code_negate-wrap a ia =
    ((2 + (words - a)) % words, ground arith, (ground arith, ground arith), ground arith)

pub tagged_abs-wrap :
    (a : ℕ)
    → IsInteger a
    → IsInteger (tagged_abs a)
      × (num (tagged_abs a) ≡ wrap (if ltb_ℤ (num a) (pos 0) then pos 0 -ℤ num a else num a))
unfolding ◌-ℤ◌
tagged_abs-wrap a ia = ((ground arith, ground arith), ground arith)

-- The sum, the difference, the opposite and the absolute value of integers are again integers, and
-- are right modulo 2 ^ 63.
pub linear_lem :
    (a b : ℕ)
    → IsInteger a
    → IsInteger b
    → Gives (code_iadd a b) (wrap (num a +ℤ num b))
      × Gives (code_subtract a b) (wrap (num a -ℤ num b))
      × Gives (code_negate a) (wrap (pos 0 -ℤ num a))
      × Gives (code_abs a) (wrap (if ltb_ℤ (num a) (pos 0) then pos 0 -ℤ num a else num a))
unfolding code_abs
linear_lem a b ia ib = (
  code_iadd-wrap a b ia ib,
  code_subtract-wrap a b ia ib,
  code_negate-wrap a ia,
  (tagged_abs a, ground arith, (tagged_abs-wrap a ia).0, (tagged_abs-wrap a ia).1),
)
