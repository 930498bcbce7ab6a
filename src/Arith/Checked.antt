-- ===== src/Arith/Checked.antt =====
-- The operations of runtime/arith.c that detect overflow.
use mudlle.Prelude.{
  ℕ, ◌+◌, ◌-◌, ◌≡◌, ◌⊎◌, ◌%◌, inl, inr, Bool-cases, Bool, ltb, true, false, if◌then◌else◌, arith,
}
use mudlle.Prelude.Int.{ℤ, pos, negsuc, ◌+ℤ◌, ◌-ℤ◌, ltb_ℤ}
use mudlle.Error.{Result, raised, bad_value}
use mudlle.Arith.{
  words, tagged_abs, code_overflow_neg, code_overflow_abs, code_overflow_add, code_overflow_sub,
}
use mudlle.Arith.Linear.{num, IsInteger, quarter, Gives}

-- The number is one that 63 bits can hold.
abbrev pub fits : ℤ → Bool
fits (pos n) = ltb n quarter
fits (negsuc n) = ltb n quarter

-- The number, if it fits, or an error.
abbrev pub Checks : Result ℕ → ℤ → Type 0
Checks result n = (fits n ≡ true) × Gives result n ⊎ (fits n ≡ false) × (result ≡ raised bad_value)

code_overflow_add-Checks :
    (a b : ℕ) → IsInteger a → IsInteger b → Checks (code_overflow_add a b) (num a +ℤ num b)
unfolding code_overflow_add ◌+ℤ◌ ◌-ℤ◌
code_overflow_add-Checks a b ia ib = elim (Bool-cases (fits (num a +ℤ num b))) [
  | inl e ↦
      inl (
        e,
        ((a + b + (words - 1)) % words, ground arith, (ground arith, ground arith), ground arith),
      )
  | inr e ↦ inr (e, ground arith)
]

code_overflow_sub-Checks :
    (a b : ℕ) → IsInteger a → IsInteger b → Checks (code_overflow_sub a b) (num a -ℤ num b)
unfolding code_overflow_sub ◌-ℤ◌
code_overflow_sub-Checks a b ia ib = elim (Bool-cases (fits (num a -ℤ num b))) [
  | inl e ↦
      inl (
        e,
        ((a + (words - b) + 1) % words, ground arith, (ground arith, ground arith), ground arith),
      )
  | inr e ↦ inr (e, ground arith)
]

code_overflow_neg-Checks : (a : ℕ) → IsInteger a → Checks (code_overflow_neg a) (pos 0 -ℤ num a)
unfolding code_overflow_neg ◌-ℤ◌
code_overflow_neg-Checks a ia = elim (Bool-cases (fits (pos 0 -ℤ num a))) [
  | inl e ↦
      inl (e, ((2 + (words - a)) % words, ground arith, (ground arith, ground arith), ground arith))
  | inr e ↦ inr (e, ground arith)
]

abbrev pub absolute : ℤ → ℤ
absolute n = if ltb_ℤ n (pos 0) then pos 0 -ℤ n else n

code_overflow_abs-Checks : (a : ℕ) → IsInteger a → Checks (code_overflow_abs a) (absolute (num a))
unfolding code_overflow_abs ◌-ℤ◌
code_overflow_abs-Checks a ia = elim (Bool-cases (fits (absolute (num a)))) [
  | inl e ↦ inl (e, (tagged_abs a, ground arith, (ground arith, ground arith), ground arith))
  | inr e ↦ inr (e, ground arith)
]

-- The operations that detect overflow give the exact sum, difference, opposite or absolute value of
-- integers if it lies from -2 ^ 62 up to and without 2 ^ 62, and raise the error if it does not.
pub overflow_lem :
    (a b : ℕ)
    → IsInteger a
    → IsInteger b
    → Checks (code_overflow_add a b) (num a +ℤ num b)
      × Checks (code_overflow_sub a b) (num a -ℤ num b)
      × Checks (code_overflow_neg a) (pos 0 -ℤ num a)
      × Checks (code_overflow_abs a) (absolute (num a))
overflow_lem a b ia ib = (
  code_overflow_add-Checks a b ia ib,
  code_overflow_sub-Checks a b ia ib,
  code_overflow_neg-Checks a ia,
  code_overflow_abs-Checks a ia,
)
