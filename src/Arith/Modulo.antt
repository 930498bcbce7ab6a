-- ===== src/Arith/Modulo.antt =====
-- `modulo` of runtime/arith.c, the remainder of the division that rounds downwards.
use native.Mathlib.Nat.{mod-lt}
use mudlle.Prelude.{
  ℕ, ◌+◌, ◌%◌, ◌<◌, ◌≡◌, ◌≢◌, ◌⊎◌, inl, inr, Bool, true, false, not, ◌&&◌, ◌==◌, if◌then◌else◌,
  arith, refl,
}
use mudlle.Prelude.Int.{ℤ, pos, ◌+ℤ◌}
use mudlle.Error.{raised, divide_by_zero}
use mudlle.Arith.{words, is_negative, intval, makeint, magnitude, negated, same_sign, code_modulo}
use mudlle.Arith.Linear.{num, IsInteger, Gives}
use mudlle.Arith.Division.{size, opposite, below_zero, remainder, remainder-num}

-- The remainder with its sign, and with the divisor added where the signs differ.
abbrev rest : ℕ → ℕ → ℕ
rest p1 r = if is_negative p1 then negated r else r

abbrev floored : ℕ → ℕ → ℕ → ℕ
floored p1 p2 r =
    if not (rest p1 r == 0) && not (same_sign p1 p2) then (rest p1 r + p2) % words else rest p1 r

abbrev rest_number : ℕ → ℕ → ℤ
rest_number p1 r = if is_negative p1 then opposite r else pos r

tag_floored :
    (a b r : ℕ)
    → IsInteger a
    → IsInteger b
    → r < magnitude (intval b)
    → IsInteger (makeint (floored (intval a) (intval b) r))
      × (num (makeint (floored (intval a) (intval b) r)) ≡ (
          if not (r == 0) && not (same_sign (intval a) (intval b))
          then rest_number (intval a) r +ℤ num b
          else rest_number (intval a) r))
unfolding ◌+ℤ◌
tag_floored a b r ia ib lt = ((ground arith, ground arith), ground arith)

abbrev floor_number : ℕ → ℕ → ℕ → ℤ
floor_number a b r =
    if not (r == 0) && not (same_sign (intval a) (intval b))
    then rest_number (intval a) r +ℤ num b
    else rest_number (intval a) r

floor_number-sign :
    (a b r : ℕ)
    → IsInteger a
    → IsInteger b
    → r < magnitude (intval b)
    → (size (floor_number a b r) < size (num b))
      × ((floor_number a b r ≡ pos 0) ⊎ (below_zero (floor_number a b r) ≡ below_zero (num b)))
unfolding ◌+ℤ◌
floor_number-sign a b r ia ib lt = (ground arith, ground arith)

one_of : (s : Bool) (x y : ℤ) → ((if s then x else y) ≡ y) ⊎ ((if s then x else y) ≡ x)
one_of true x y = inr refl
one_of false x y = inl refl

-- For integers of which the second is not zero, `modulo` gives a number that is smaller than the
-- divisor, is zero or has the sign of the divisor, and is the remainder of `%` or that plus the
-- divisor, so it differs from the dividend by a multiple of the divisor. Division by zero raises
-- the error.
pub modulo_lem :
    (a b : ℕ)
    → IsInteger a
    → IsInteger b
    → (b ≢ 1
        → (m : ℤ) × Gives (code_modulo a b) m
          × (size m < size (num b))
          × ((m ≡ pos 0) ⊎ (below_zero m ≡ below_zero (num b)))
          × ((m ≡ remainder (num a) (num b)) ⊎ (m ≡ remainder (num a) (num b) +ℤ num b)))
      × (code_modulo a 1 ≡ raised divide_by_zero)
unfolding code_modulo
modulo_lem a b ia ib = (
  λ ne.
      (let r = magnitude (intval a) % magnitude (intval b) in
        let small : r < magnitude (intval b) = mod-lt (magnitude (intval a)) (ground arith) in
        let t = tag_floored a b r ia ib small in
        let f = floor_number-sign a b r ia ib small in
        (
          floor_number a b r,
          (makeint (floored (intval a) (intval b) r), ground arith, t.0, t.1),
          f.0,
          f.1,
          rw (remainder-num a b ia ib) (one_of _ _ _),
        )),
  ground arith,
)
