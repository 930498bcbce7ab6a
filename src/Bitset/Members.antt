-- ===== src/Bitset/Members.antt =====
-- A bitset of runtime/bitset.c as a set of numbers: the primitives on one bit.
use Prim.Native.Nat.{bit_or, bit_and}
use mudlle.Prelude.{
  ℕ, zero, suc, ◌+◌, ◌*◌, ◌-◌, ◌/◌, ◌%◌, ◌^◌, ◌≤◌, ◌<◌, ◌≡◌, refl, List, [], ◌∷◌, Bool, true, false,
  ◌&&◌, ◌||◌, not, ◌==◌, if◌then◌else◌, arith, length, get_or, set, length-set, replicate,
  length-replicate, Bool-cases, inl, inr, ==_iff,
}
use mudlle.Prelude.Bits.{checks, checks-at}
use mudlle.Prelude.Int.{pos}
use mudlle.Error.{Result, returned, raised, value_read_only}
use mudlle.Table.{Str}
use mudlle.Bitset.{
  string, integer, under, update, set_bitb, clear_bitb, bit_is_set, bclear, new_bitset,
  max_string_size, ct_bit_e,
}
use mudlle.Bitset.Bytes.{digit_bound, digit-or, digit-and, under-power, mask_digit, off_mask_digit}

-- The numbers in the set.
abbrev pub member : List ℕ → ℕ → Bool
member bytes m = under (get_or bytes (m / 8) 0) (2 ^ (m % 8))

get_or-set :
    (xs : List ℕ) (i j v : ℕ)
    → i < length xs
    → get_or (set xs i v) j 0 ≡ (if i == j then v else get_or xs j 0)
get_or-set [] i j v h = absurd (omega arith)
get_or-set (x ∷ xs) zero zero v h = refl
get_or-set (x ∷ xs) zero (suc j) v h = ground arith
get_or-set (x ∷ xs) (suc i) zero v h = ground arith
get_or-set (x ∷ xs) (suc i) (suc j) v h = ground (arith, get_or-set xs i j v)

under-set :
    (x i j : ℕ) → i < 8 → j < 8 → under (bit_or x (2 ^ i)) (2 ^ j) ≡ ((i == j) || under x (2 ^ j))
under-set x i j hi hj =
    rw (under-power j (bit_or x (2 ^ i)), under-power j x, digit-or j x (2 ^ i))
      (ground (arith, mask_digit i j hi hj, digit_bound j x))

under-clear :
    (x i j : ℕ)
    → i < 8
    → j < 8
    → under (bit_and x (255 - 2 ^ i)) (2 ^ j) ≡ (not (i == j) && under x (2 ^ j))
under-clear x i j hi hj =
    rw (under-power j (bit_and x (255 - 2 ^ i)), under-power j x, digit-and j x (255 - 2 ^ i))
      (ground (arith, off_mask_digit i j hi hj, digit_bound j x))

-- A change of the byte of one number that acts on its bits as `f` does.
member-update :
    (f : Bool → Bool → Bool) (op : ℕ → ℕ) (xs : List ℕ) (n m : ℕ)
    → n / 8 < length xs
    → ((b : Bool) → f false b ≡ b)
    → ((x j : ℕ) → j < 8 → under (op x) (2 ^ j) ≡ f (n % 8 == j) (under x (2 ^ j)))
    → member (set xs (n / 8) (op (get_or xs (n / 8) 0))) m ≡ f (n == m) (member xs m)
member-update f op xs n m h off on = elim (Bool-cases (n / 8 == m / 8)) [
  | inl e ↦
      let byte : n / 8 ≡ m / 8 = (==_iff _ _).0 e in
      let place : (n % 8 == m % 8) ≡ (n == m) = ground arith in
      rw
        (
          get_or-set xs (n / 8) (m / 8) (op (get_or xs (n / 8) 0)) h,
          e,
          on (get_or xs (n / 8) 0) (m % 8) (omega arith),
          place,
        )
        (rw byte refl)
  | inr e ↦
      let differ : (n == m) ≡ false = ground arith in
      rw (get_or-set xs (n / 8) (m / 8) (op (get_or xs (n / 8) 0)) h, e, differ, off (member xs m))
        refl
]

abbrev pub Changed : Result Str → Str → (ℕ → Bool) → Type 0
Changed result b members =
    (b' : Str) × (result ≡ returned b')
    × (length b'.bytes ≡ length b.bytes)
    × ((m : ℕ) → member b'.bytes m ≡ members m)

ct_bit_e-place :
    (b : Str) (n : ℕ) → n < 8 * length b.bytes → ct_bit_e (pos n) b ≡ returned (n / 8, 2 ^ (n % 8))
unfolding ct_bit_e
ct_bit_e-place b n h = ground arith

-- A number below 8 times the bytes of a bitset can be put in and taken out, which changes nothing
-- else, unless the bitset is read-only, which is an error; and the test of a bit says whether the
-- number is in the set.
pub bit_lem :
    (b : Str) (n : ℕ)
    → n < 8 * length b.bytes
    → (b.readonly ≡ false
        → Changed (set_bitb (string b) (integer (pos n))) b (λ m. (n == m) || member b.bytes m)
          × Changed
              (clear_bitb (string b) (integer (pos n)))
              b
              (λ m. not (n == m) && member b.bytes m))
      × (b.readonly ≡ true
          → (set_bitb (string b) (integer (pos n)) ≡ raised value_read_only)
            × (clear_bitb (string b) (integer (pos n)) ≡ raised value_read_only))
      × (bit_is_set (string b) (integer (pos n)) ≡ returned (member b.bytes n))
unfolding set_bitb clear_bitb bit_is_set
bit_lem b n lt = (
  λ w. (
    (
      update b (n / 8) (λ c. bit_or c (2 ^ (n % 8))),
      rw (ct_bit_e-place b n lt, w) refl,
      length-set _ _ _,
      λ m.
          member-update (λ s t. s || t) (λ c. bit_or c (2 ^ (n % 8))) b.bytes n m (omega arith)
            (λ _. refl) (λ x j hj. under-set x (n % 8) j (omega arith) hj),
    ),
    (
      update b (n / 8) (λ c. bit_and c (255 - 2 ^ (n % 8))),
      rw (ct_bit_e-place b n lt, w) refl,
      length-set _ _ _,
      λ m.
          member-update (λ s t. not s && t) (λ c. bit_and c (255 - 2 ^ (n % 8))) b.bytes n m
            (omega arith) (λ _. refl) (λ x j hj. under-clear x (n % 8) j (omega arith) hj),
    ),
  ),
  λ r. (rw (ct_bit_e-place b n lt, r) refl, rw (ct_bit_e-place b n lt, r) refl),
  rw (ct_bit_e-place b n lt) refl,
)

zero_byte : (n i : ℕ) → ◌≡◌ {A = ℕ} (get_or (replicate n 0) i 0) 0
zero_byte zero i = refl
zero_byte (suc n) zero = refl
zero_byte (suc n) (suc i) = zero_byte n i

pub under-zero : (j : ℕ) → j < 8 → under 0 (2 ^ j) ≡ false
unfolding checks
under-zero j h = ground (arith, checks-at (λ j. not (under 0 (2 ^ j))) {bound = 8} j h refl)

-- Clearing a bitset leaves no number in it, whether it is read-only or not, and a new bitset for n
-- numbers is empty and takes every one of them.
pub clear_lem :
    (b : Str) (n : ℕ)
    → n ≤ 8 * max_string_size
    → ((b' : Str) × (bclear (string b) ≡ returned b')
        × (length b'.bytes ≡ length b.bytes)
        × (b'.readonly ≡ b.readonly)
        × ((m : ℕ) → member b'.bytes m ≡ false))
      × ((b' : Str) × (new_bitset (integer (pos n)) ≡ returned b')
          × (n ≤ 8 * length b'.bytes)
          × (b'.readonly ≡ false)
          × ((m : ℕ) → member b'.bytes m ≡ false))
unfolding bclear new_bitset
clear_lem b n small = (
  (
    record b { bytes = replicate (length b.bytes) 0 },
    refl,
    length-replicate (length b.bytes) zero,
    refl,
    none_in (length b.bytes),
  ),
  (
    record { bytes = replicate ((n + 8 - 1) / 8) 0; readonly = false },
    ground arith,
    omega (arith, length-replicate ((n + 8 - 1) / 8) zero),
    refl,
    none_in ((n + 8 - 1) / 8),
  ),
)
  where
    none_in : (k m : ℕ) → member (replicate k 0) m ≡ false
    none_in k m = rw (zero_byte k (m / 8)) (under-zero (m % 8) (omega arith))
