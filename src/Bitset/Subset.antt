-- ===== src/Bitset/Subset.antt =====
-- The test of runtime/bitset.c whether a set is a subset of another.
use Prim.Native.Nat.{bit_and, bit_and-bitwise}
use mudlle.Prelude.{
  ℕ, zero, suc, ◌+◌, ◌-◌, ◌/◌, ◌%◌, ◌^◌, ◌≤◌, ◌<◌, ◌≡◌, ◌↔◌, refl, List, [], ◌∷◌, Bool, true, false,
  ◌||◌, not, ◌==◌, ==_iff, length, Bool-cases, inl, inr, arith, ltb,
}
use mudlle.Prelude.Bits.{checks, checks-at}
use mudlle.Error.{returned}
use mudlle.Table.{Str}
use mudlle.Bitset.{string, under, subset_loop, bitset_inp}
use mudlle.Bitset.Bytes.{and_lowest}
use mudlle.Bitset.Members.{member, under-zero}
use mudlle.Bitset.Binary.{AreBytes, under-and, under-complement}

and-le : (fuel a b : ℕ) → a ≤ fuel → bit_and a b ≤ a
and-le fuel zero b h = omega (arith, bit_and-bitwise 0 b)
and-le zero (suc a) b h = absurd (omega arith)
and-le (suc fuel) (suc a) b h =
    omega (arith, and_lowest (suc a) b, and-le fuel (suc a / 2) (b / 2) (omega arith))

checks-all : (test : ℕ → Bool) (n : ℕ) → ((j : ℕ) → j < n → test j ≡ true) → checks test n ≡ true
unfolding checks
checks-all test zero h = refl
checks-all test (suc n) h = rw (h n (omega arith)) (checks-all test n (λ j lt. h j (omega arith)))

zero_table : checks (λ x. x == 0 || not (checks (λ j. not (under x (2 ^ j))) 8)) 256 ≡ true
unfolding checks
zero_table = refl

-- A byte without bits is zero.
no_bits : (x : ℕ) → x < 256 → ((j : ℕ) → j < 8 → under x (2 ^ j) ≡ false) → x ≡ 0
no_bits x h none = ground (
  arith,
  checks-at (λ x. x == 0 || not (checks (λ j. not (under x (2 ^ j))) 8)) {bound = 256} x h
      zero_table,
  checks-all (λ j. not (under x (2 ^ j))) 8 (λ j lt. rw (none j lt) refl),
)

member-first : (c : ℕ) (bytes : List ℕ) (j : ℕ) → j < 8 → member (c ∷ bytes) j ≡ under c (2 ^ j)
member-first c bytes j h =
    let byte : j / 8 ≡ 0 = omega arith in let bit : j % 8 ≡ j = omega arith in rw (byte, bit) refl

member-rest : (c : ℕ) (bytes : List ℕ) (m : ℕ) → member (c ∷ bytes) (m + 8) ≡ member bytes m
member-rest c bytes m =
    let byte : (m + 8) / 8 ≡ suc (m / 8) = omega arith in
    let bit : (m + 8) % 8 ≡ m % 8 = omega arith in rw (byte, bit) refl

abbrev pub Subset : List ℕ → List ℕ → Type 0
Subset s1 s2 = (m : ℕ) → member s1 m ≡ true → member s2 m ≡ true

byte_within :
    (a b : ℕ)
    → a < 256
    → b < 256
    → (bit_and a (255 - b) ≡ 0)
      ↔ ((j : ℕ) → j < 8 → under a (2 ^ j) ≡ true → under b (2 ^ j) ≡ true)
byte_within a b ha hb = (
  λ z j hj at.
      let off = under-and a (255 - b) j in
      let flip = under-complement b j hb hj in
      let none = under-zero j hj in
      let clash = rw (z, none, flip, at) at off in ground (arith, clash),
  λ h.
      no_bits (bit_and a (255 - b)) (omega (arith, and-le a a (255 - b) (omega arith)))
        (λ j hj. rw (under-and a (255 - b) j, under-complement b j hb hj) (ground (arith, h j hj))),
)

Subset-cons :
    (a b : ℕ) (s1 s2 : List ℕ)
    → a < 256
    → b < 256
    → ((bit_and a (255 - b) ≡ 0) × Subset s1 s2) ↔ Subset (a ∷ s1) (b ∷ s2)
Subset-cons a b s1 s2 ha hb = (
  λ h m at. elim (Bool-cases (ltb m 8)) [
    | inl e ↦
        let small : m < 8 = ground arith in
        rw (member-first b s2 m small)
          ((byte_within a b ha hb).0 h.0 m small (rw (member-first a s1 m small) at at))
    | inr e ↦
        let shifted : m ≡ m - 8 + 8 = ground arith in
        rw (shifted, member-rest b s2 (m - 8))
          (h.1 (m - 8) (rw (shifted, member-rest a s1 (m - 8)) at at))
  ],
  λ h. (
    (byte_within a b ha hb).1
        (λ j hj at. rw (member-first b s2 j hj) at (h j (rw (member-first a s1 j hj) at))),
    λ m at. rw (member-rest b s2 m) at (h (m + 8) (rw (member-rest a s1 m) at)),
  ),
)

subset_loop_iff :
    (s1 s2 : List ℕ)
    → AreBytes s1
    → AreBytes s2
    → length s1 ≡ length s2
    → (subset_loop s1 s2 ≡ true) ↔ Subset s1 s2
unfolding subset_loop
subset_loop_iff [] [] b1 b2 len = (λ _ m at. at, λ _. refl)
subset_loop_iff [] (b ∷ s2) b1 b2 len = absurd (omega arith)
subset_loop_iff (a ∷ s1) [] b1 b2 len = absurd (omega arith)
subset_loop_iff (a ∷ s1) (b ∷ s2) b1 b2 len =
    let ih = subset_loop_iff s1 s2 b1.1 b2.1 (omega arith) in
    let cons = Subset-cons a b s1 s2 (b1.0) (b2.0) in
    elim (Bool-cases (bit_and a (255 - b) == 0)) [
      | inl e ↦ let z = (==_iff _ _).0 e in rw e (λ h. cons.0 (z, ih.0 h), λ h. ih.1 (cons.1 h).1)
      | inr e ↦ rw e (λ h. absurd (cc), λ h. absurd (let z = (==_iff _ _).1 (cons.1 h).0 in cc))
    ]

-- For bitsets of the same length the test says whether every number in the first is in the second.
pub bitset_inp_iff :
    (b1 b2 : Str)
    → AreBytes b1.bytes
    → AreBytes b2.bytes
    → length b1.bytes ≡ length b2.bytes
    → (result : Bool) × (bitset_inp (string b1) (string b2) ≡ returned result)
      × ((result ≡ true) ↔ Subset b1.bytes b2.bytes)
unfolding bitset_inp
bitset_inp_iff b1 b2 y1 y2 len = (
  subset_loop b1.bytes b2.bytes,
  rw ((==_iff _ _).1 len) refl,
  subset_loop_iff b1.bytes b2.bytes y1 y2 len,
)
