-- ===== src/Bitset/Bytes.antt =====
-- The binary digits of the bit operations that runtime/bitset.c applies to bytes.
use Prim.Native.Nat.{bit_or, bit_and, bit_or-bitwise, bit_and-bitwise, digits}
use native.Mathlib.Nat.{one-le-pow}
use mudlle.Prelude.{
  ℕ, zero, suc, ◌+◌, ◌*◌, ◌/◌, ◌%◌, ◌-◌, ◌^◌, ◌≤◌, ◌<◌, min, max, ◌≡◌, ◌∙◌, refl, true, not, ◌==◌,
  ==_iff, if◌then◌else◌, arith,
}
use mudlle.Prelude.Bits.{checks, checks-at}
use mudlle.Bitset.{under}

module _ (ends : ℕ → ℕ) (op : ℕ → ℕ → ℕ) where
  enough_fuel :
      (fuel more a b : ℕ) → a ≤ fuel → a ≤ more → digits ends op fuel a b ≡ digits ends op more a b
  enough_fuel zero zero zero b h k = refl
  enough_fuel zero (suc more) zero b h k = refl
  enough_fuel (suc fuel) zero zero b h k = refl
  enough_fuel (suc fuel) (suc more) zero b h k = refl
  enough_fuel zero more (suc a) b h k = absurd (omega arith)
  enough_fuel (suc fuel) zero (suc a) b h k = absurd (omega arith)
  enough_fuel (suc fuel) (suc more) (suc a) b h k =
      rw (enough_fuel fuel more (suc a / 2) (b / 2) (omega arith) (omega arith)) refl

  lowest_digit :
      ((b : ℕ) → ends b ≡ ends (b / 2) * 2 + op 0 (b % 2))
      → (a b : ℕ)
      → digits ends op a a b ≡ digits ends op (a / 2) (a / 2) (b / 2) * 2 + op (a % 2) (b % 2)
  lowest_digit law zero b = law b
  lowest_digit law (suc a) b =
      rw (enough_fuel a (suc a / 2) (suc a / 2) (b / 2) (omega arith) (omega arith)) refl

pub or_lowest : (a b : ℕ) → bit_or a b ≡ bit_or (a / 2) (b / 2) * 2 + max (a % 2) (b % 2)
or_lowest a b = omega (
  arith,
  bit_or-bitwise a b,
  bit_or-bitwise (a / 2) (b / 2),
  lowest_digit (λ b. b) max (λ b. omega arith) a b,
)

pub and_lowest : (a b : ℕ) → bit_and a b ≡ bit_and (a / 2) (b / 2) * 2 + min (a % 2) (b % 2)
and_lowest a b = omega (
  arith,
  bit_and-bitwise a b,
  bit_and-bitwise (a / 2) (b / 2),
  lowest_digit (λ b. zero) min (λ b. omega arith) a b,
)

-- The digit at a place, from the lowest on.
unfoldable pub digit : ℕ → ℕ → ℕ
digit zero n = n % 2
digit (suc place) n = digit place (n / 2)

pub digit_bound : (j n : ℕ) → digit j n < 2
unfolding digit
digit_bound zero n = omega arith
digit_bound (suc j) n = digit_bound j (n / 2)

pub digit-or : (j a b : ℕ) → digit j (bit_or a b) ≡ max (digit j a) (digit j b)
unfolding digit
digit-or zero a b = omega (arith, or_lowest a b)
digit-or (suc j) a b =
    let half : bit_or a b / 2 ≡ bit_or (a / 2) (b / 2) = omega (arith, or_lowest a b) in
    rw half (digit-or j (a / 2) (b / 2))

pub digit-and : (j a b : ℕ) → digit j (bit_and a b) ≡ min (digit j a) (digit j b)
unfolding digit
digit-and zero a b = omega (arith, and_lowest a b)
digit-and (suc j) a b =
    let half : bit_and a b / 2 ≡ bit_and (a / 2) (b / 2) = omega (arith, and_lowest a b) in
    rw half (digit-and j (a / 2) (b / 2))

and-zero : (fuel a : ℕ) → a ≤ fuel → bit_and a 0 ≡ 0
and-zero fuel zero h = refl
and-zero zero (suc a) h = absurd (omega arith)
and-zero (suc fuel) (suc a) h =
    omega (arith, and_lowest (suc a) 0, and-zero fuel (suc a / 2) (omega arith))

twice : (d p q : ℕ) → q ≡ p + p → d * p * 2 ≡ d * q
twice d p q e = rw e (grind arith)

and_power : (j c : ℕ) → bit_and c (2 ^ j) ≡ digit j c * 2 ^ j
unfolding digit
and_power zero c = omega (arith, and_lowest c 1, and-zero (c / 2) (c / 2) (omega arith))
and_power (suc j) c =
    let even : 2 ^ suc j ≡ 2 ^ j + 2 ^ j = omega arith in
    let half : 2 ^ suc j / 2 ≡ 2 ^ j = omega (arith, even) in
    let down : bit_and c (2 ^ suc j) ≡ bit_and (c / 2) (2 ^ suc j / 2) * 2 =
      omega (arith, even, and_lowest c (2 ^ suc j)) in
    let ih = and_power j (c / 2) in
    down ∙ rw (half, ih) (twice (digit j (c / 2)) (2 ^ j) (2 ^ suc j) even)

power_pos : (j : ℕ) → 0 < 2 ^ j
power_pos j = one-le-pow j 2 (omega arith)

-- The test of a byte against the mask of a bit reads the digit.
pub under-power : (j c : ℕ) → under c (2 ^ j) ≡ (digit j c == 1)
under-power j c =
    nonzero (digit j c) (2 ^ j) (bit_and c (2 ^ j)) (and_power j c) (power_pos j) (digit_bound j c)
  where
    nonzero : (d p x : ℕ) → x ≡ d * p → 0 < p → d < 2 → not (x == 0) ≡ (d == 1)
    nonzero zero p x e h k = ground arith
    nonzero (suc zero) p x e h k = ground arith
    nonzero (suc (suc d)) p x e h k = absurd (omega arith)

-- Digits of the masks, and of the complement of a byte.
mask_table : checks (λ i. checks (λ j. digit j (2 ^ i) == (if i == j then 1 else 0)) 8) 8 ≡ true
unfolding checks digit
mask_table = refl

complement_table : checks (λ y. checks (λ j. digit j (255 - y) == 1 - digit j y) 8) 256 ≡ true
unfolding checks digit
complement_table = refl

off_mask_table :
    checks (λ i. checks (λ j. digit j (255 - 2 ^ i) == (if i == j then 0 else 1)) 8) 8 ≡ true
unfolding checks digit
off_mask_table = refl

pub mask_digit : (i j : ℕ) → i < 8 → j < 8 → digit j (2 ^ i) ≡ (if i == j then 1 else 0)
mask_digit i j hi hj = (==_iff _ _).0 (checks-at _ j hj (checks-at _ i hi mask_table))

pub off_mask_digit : (i j : ℕ) → i < 8 → j < 8 → digit j (255 - 2 ^ i) ≡ (if i == j then 0 else 1)
off_mask_digit i j hi hj = (==_iff _ _).0 (checks-at _ j hj (checks-at _ i hi off_mask_table))

pub complement_digit : (y j : ℕ) → y < 256 → j < 8 → digit j (255 - y) ≡ 1 - digit j y
complement_digit y j hy hj = (==_iff _ _).0 (checks-at _ j hj (checks-at _ y hy complement_table))
