-- ===== src/Arith/Ordering.antt =====
-- The comparisons of runtime/arith.c, which compare the tagged words, order the integers.
use mudlle.Prelude.{ℕ, ◌≡◌, not, if◌then◌else◌, arith}
use mudlle.Prelude.Int.{ltb_ℤ}
use mudlle.Error.{returned}
use mudlle.Arith.{
  makebool, long_lt, code_smaller, code_smaller_equal, code_greater, code_greater_equal, code_max,
  code_min,
}
use mudlle.Arith.Linear.{num, IsInteger}

long_lt-num : (a b : ℕ) → IsInteger a → IsInteger b → long_lt a b ≡ ltb_ℤ (num a) (num b)
long_lt-num a b ia ib = ground arith

-- The comparisons of integers compare the numbers that they stand for, and the greater and the
-- lesser of two integers are one of them, by their numbers.
pub ordering_lem :
    (a b : ℕ)
    → IsInteger a
    → IsInteger b
    → (code_smaller a b ≡ returned (makebool (ltb_ℤ (num a) (num b))))
      × (code_smaller_equal a b ≡ returned (makebool (not (ltb_ℤ (num b) (num a)))))
      × (code_greater a b ≡ returned (makebool (ltb_ℤ (num b) (num a))))
      × (code_greater_equal a b ≡ returned (makebool (not (ltb_ℤ (num a) (num b)))))
      × (code_max a b ≡ returned (if ltb_ℤ (num a) (num b) then b else a))
      × (code_min a b ≡ returned (if ltb_ℤ (num a) (num b) then a else b))
unfolding code_smaller code_smaller_equal code_greater code_greater_equal code_max code_min
ordering_lem a b ia ib =
    rw (← long_lt-num a b ia ib, ← long_lt-num b a ib ia)
      (ground arith, ground arith, ground arith, ground arith, ground arith, ground arith)
