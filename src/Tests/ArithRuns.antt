-- ===== src/Tests/ArithRuns.antt =====
-- runtime/arith.c at concrete integers: 7 and -4.
use mudlle.Prelude.{ℕ, ◌<◌, ◌≡◌, ◌≢◌, ◌⊎◌, refl, arith}
use mudlle.Prelude.Int.{ℤ, pos, negsuc, ◌+ℤ◌, ◌-ℤ◌, ◌*ℤ◌}
use mudlle.Error.{Result, returned, raised, divide_by_zero}
use mudlle.Arith.{
  code_iadd, code_subtract, code_negate, code_abs, code_divide, code_remainder, code_modulo,
  code_overflow_add, code_overflow_sub, code_overflow_neg, code_overflow_abs,
}
use mudlle.Arith.Linear.{num, IsInteger, wrap, Gives, linear_lem}
use mudlle.Arith.Checked.{Checks, absolute, overflow_lem}
use mudlle.Arith.Division.{size, below_zero, quotient, remainder, division_lem}
use mudlle.Arith.Modulo.{modulo_lem}

abbrev seven : ℕ
seven = 15

abbrev minus_four : ℕ
minus_four = 18_446_744_073_709_551_609

seven-IsInteger : IsInteger seven
seven-IsInteger = (omega arith, refl)

minus_four-IsInteger : IsInteger minus_four
minus_four-IsInteger = (omega arith, refl)

linear_lem_example :
    Gives (code_iadd seven minus_four) (wrap (num seven +ℤ num minus_four))
    × Gives (code_subtract seven minus_four) (wrap (num seven -ℤ num minus_four))
    × Gives (code_negate seven) (wrap (pos 0 -ℤ num seven))
    × Gives (code_abs seven) (wrap (absolute (num seven)))
linear_lem_example = linear_lem seven minus_four seven-IsInteger minus_four-IsInteger

overflow_lem_example :
    Checks (code_overflow_add seven minus_four) (num seven +ℤ num minus_four)
    × Checks (code_overflow_sub seven minus_four) (num seven -ℤ num minus_four)
    × Checks (code_overflow_neg seven) (pos 0 -ℤ num seven)
    × Checks (code_overflow_abs seven) (absolute (num seven))
overflow_lem_example = overflow_lem seven minus_four seven-IsInteger minus_four-IsInteger

division_lem_example :
    (minus_four ≢ 1
      → Gives (code_divide seven minus_four) (wrap (quotient (num seven) (num minus_four)))
        × Gives (code_remainder seven minus_four) (remainder (num seven) (num minus_four))
        × (quotient (num seven) (num minus_four) *ℤ num minus_four
              +ℤ remainder (num seven) (num minus_four)
            ≡ num seven)
        × (size (remainder (num seven) (num minus_four)) < size (num minus_four))
        × ((remainder (num seven) (num minus_four) ≡ pos 0)
            ⊎ (below_zero (remainder (num seven) (num minus_four)) ≡ below_zero (num seven))))
    × (code_divide seven 1 ≡ raised divide_by_zero)
    × (code_remainder seven 1 ≡ raised divide_by_zero)
division_lem_example = division_lem seven minus_four seven-IsInteger minus_four-IsInteger

modulo_lem_example :
    (minus_four ≢ 1
      → (m : ℤ) × Gives (code_modulo seven minus_four) m
        × (size m < size (num minus_four))
        × ((m ≡ pos 0) ⊎ (below_zero m ≡ below_zero (num minus_four)))
        × ((m ≡ remainder (num seven) (num minus_four))
            ⊎ (m ≡ remainder (num seven) (num minus_four) +ℤ num minus_four)))
    × (code_modulo seven 1 ≡ raised divide_by_zero)
modulo_lem_example = modulo_lem seven minus_four seven-IsInteger minus_four-IsInteger

abbrev number : Result ℕ → ℤ
number (returned v) = num v
number (raised e) = pos 0

-- 7 / -4 is -1, and 7 modulo -4 is -1.
rounding :
    (number (code_divide seven minus_four) ≡ negsuc 0)
    × (number (code_modulo seven minus_four) ≡ negsuc 0)
unfolding code_divide code_modulo
rounding = (refl, refl)
