-- ===== src/Arith/Division.antt =====
-- The division of runtime/arith.c on integers.
use native.Mathlib.Nat.{div-le_self, mod-lt, div-add-mod}
use mudlle.Prelude.{
  ap, sym, ◌∙◌, ℕ, zero, suc, ◌+◌, ◌*◌, ◌/◌, ◌%◌, ◌≤◌, ◌<◌, ◌≡◌, ◌≢◌, ◌⊎◌, refl, Bool, true, false,
  if◌then◌else◌, arith,
}
use mudlle.Prelude.Int.{ℤ, pos, negsuc, ◌+ℤ◌, ◌*ℤ◌}
use mudlle.Error.{divide_by_zero, raised}
use mudlle.Arith.{
  is_negative, intval, makeint, magnitude, negated, same_sign, long_div, long_rem, code_divide,
  code_remainder,
}
use mudlle.Arith.Linear.{num, IsInteger, wrap, quarter, Gives}

abbrev pub size : ℤ → ℕ
size (pos n) = n
size (negsuc n) = suc n

abbrev pub opposite : ℕ → ℤ
opposite zero = pos 0
opposite (suc n) = negsuc n

abbrev pub below_zero : ℤ → Bool
below_zero (pos n) = false
below_zero (negsuc n) = true

abbrev pub alike : ℤ → ℤ → Bool
alike (pos x) (pos y) = true
alike (negsuc x) (negsuc y) = true
alike _ _ = false

-- Division with a remainder: truncating towards zero, and the remainder rounded downwards.
abbrev pub quotient : ℤ → ℤ → ℤ
quotient x y = if alike x y then pos (size x / size y) else opposite (size x / size y)

abbrev pub remainder : ℤ → ℤ → ℤ
remainder x y = if below_zero x then opposite (size x % size y) else pos (size x % size y)

pub size-num : (a : ℕ) → IsInteger a → size (num a) ≡ magnitude (intval a)
size-num a ia = ground arith

signs :
    (a b : ℕ)
    → IsInteger a
    → IsInteger b
    → (below_zero (num a) ≡ is_negative (intval a))
      × (alike (num a) (num b) ≡ same_sign (intval a) (intval b))
signs a b ia ib = (ground arith, ground arith)

-- A small number with a sign, tagged.
tag_signed :
    (s : Bool) (n : ℕ)
    → n ≤ quarter
    → IsInteger (makeint (if s then n else negated n))
      × (num (makeint (if s then n else negated n)) ≡ wrap (if s then pos n else opposite n))
tag_signed s n small = ((ground arith, ground arith), ground arith)

abbrev int_quotient : ℕ → ℕ → ℕ
int_quotient a b = magnitude (intval a) / magnitude (intval b)

abbrev int_remainder : ℕ → ℕ → ℕ
int_remainder a b = magnitude (intval a) % magnitude (intval b)

quotient-num :
    (a b : ℕ)
    → IsInteger a
    → IsInteger b
    → quotient (num a) (num b) ≡ (
        if same_sign (intval a) (intval b)
        then pos (int_quotient a b)
        else opposite (int_quotient a b))
quotient-num a b ia ib = rw (size-num a ia, size-num b ib, (signs a b ia ib).1) refl

pub remainder-num :
    (a b : ℕ)
    → IsInteger a
    → IsInteger b
    → remainder (num a) (num b)
      ≡ (if is_negative (intval a) then opposite (int_remainder a b) else pos (int_remainder a b))
remainder-num a b ia ib = rw (size-num a ia, size-num b ib, (signs a b ia ib).0) refl

magnitude_bound : (a : ℕ) → IsInteger a → magnitude (intval a) ≤ quarter
magnitude_bound a ia = ground arith

code_divide-wrap :
    (a b : ℕ)
    → IsInteger a
    → IsInteger b
    → b ≢ 1
    → Gives (code_divide a b) (wrap (quotient (num a) (num b)))
unfolding code_divide
code_divide-wrap a b ia ib ne =
    let t = tag_signed (same_sign (intval a) (intval b)) (int_quotient a b) (
      omega
        (arith, magnitude_bound a ia, div-le_self (magnitude (intval a)) (magnitude (intval b)))) in
    (
      makeint (long_div (intval a) (intval b)),
      ground arith,
      t.0,
      t.1 ∙ ap wrap (sym (quotient-num a b ia ib)),
    )

-- A remainder is too small to wrap around.
tag_rest :
    (s : Bool) (n : ℕ)
    → n < quarter
    → IsInteger (makeint (if s then negated n else n))
      × (num (makeint (if s then negated n else n)) ≡ (if s then opposite n else pos n))
tag_rest s n small = ((ground arith, ground arith), ground arith)

code_remainder-exact :
    (a b : ℕ)
    → IsInteger a
    → IsInteger b
    → b ≢ 1
    → Gives (code_remainder a b) (remainder (num a) (num b))
unfolding code_remainder
code_remainder-exact a b ia ib ne =
    let small : int_remainder a b < magnitude (intval b) =
      mod-lt (magnitude (intval a)) (ground arith) in
    let t =
      tag_rest (is_negative (intval a)) (int_remainder a b) (omega (arith, magnitude_bound b ib)) in
    (
      makeint (long_rem (intval a) (intval b)),
      ground arith,
      t.0,
      t.1 ∙ sym (remainder-num a b ia ib),
    )

product_pp : (q m r n : ℕ) → m * q + r ≡ n → pos q *ℤ pos m +ℤ pos r ≡ pos n
unfolding ◌+ℤ◌ ◌*ℤ◌
product_pp q m r n h = ground arith

product_pn : (q m r n : ℕ) → suc m * q + r ≡ n → opposite q *ℤ negsuc m +ℤ pos r ≡ pos n
unfolding ◌+ℤ◌ ◌*ℤ◌
product_pn zero m r n h = ground arith
product_pn (suc q) m r n h = ground arith

product_np : (q m r n : ℕ) → m * q + r ≡ n → opposite q *ℤ pos m +ℤ opposite r ≡ opposite n
unfolding ◌+ℤ◌ ◌*ℤ◌
product_np zero m r n h = ground arith
product_np (suc q) m r n h = ground arith

product_nn : (q m r n : ℕ) → suc m * q + r ≡ n → pos q *ℤ negsuc m +ℤ opposite r ≡ opposite n
unfolding ◌+ℤ◌ ◌*ℤ◌
product_nn q m r n h = ground arith

-- The laws of division.
quotient-remainder : (x y : ℤ) → quotient x y *ℤ y +ℤ remainder x y ≡ x
quotient-remainder (pos n) (pos m) = product_pp (n / m) m (n % m) n (div-add-mod n m)
quotient-remainder (pos n) (negsuc m) =
    product_pn (n / suc m) m (n % suc m) n (div-add-mod n (suc m))
quotient-remainder (negsuc n) (pos m) =
    product_np (suc n / m) m (suc n % m) (suc n) (div-add-mod (suc n) m)
quotient-remainder (negsuc n) (negsuc m) =
    product_nn (suc n / suc m) m (suc n % suc m) (suc n) (div-add-mod (suc n) (suc m))

size-remainder : (x y : ℤ) → size y ≢ 0 → size (remainder x y) < size y
size-remainder x y ne = ground (arith, mod-lt (size x) {m = size y})

-- For integers of which the second is not zero, `/` and `%` give the quotient, modulo 2 ^ 63, and
-- the remainder of the division that truncates towards zero: the quotient times the divisor plus
-- the remainder is the dividend, the remainder is smaller than the divisor and is zero or has the
-- sign of the dividend. Division by zero raises the error.
pub division_lem :
    (a b : ℕ)
    → IsInteger a
    → IsInteger b
    → (b ≢ 1
        → Gives (code_divide a b) (wrap (quotient (num a) (num b)))
          × Gives (code_remainder a b) (remainder (num a) (num b))
          × (quotient (num a) (num b) *ℤ num b +ℤ remainder (num a) (num b) ≡ num a)
          × (size (remainder (num a) (num b)) < size (num b))
          × ((remainder (num a) (num b) ≡ pos 0)
              ⊎ (below_zero (remainder (num a) (num b)) ≡ below_zero (num a))))
      × (code_divide a 1 ≡ raised divide_by_zero)
      × (code_remainder a 1 ≡ raised divide_by_zero)
unfolding code_divide code_remainder
division_lem a b ia ib = (
  λ ne. (
    code_divide-wrap a b ia ib ne,
    code_remainder-exact a b ia ib ne,
    quotient-remainder (num a) (num b),
    size-remainder (num a) (num b) (nonzero ne),
    sign-remainder (num a) (num b),
  ),
  ground arith,
  ground arith,
)
  where
    nonzero : b ≢ 1 → size (num b) ≢ 0
    nonzero ne = ground arith

    sign-remainder :
        (x y : ℤ) → (remainder x y ≡ pos 0) ⊎ (below_zero (remainder x y) ≡ below_zero x)
    sign-remainder x y = ground arith
