-- ===== src/Bitset/Count.antt =====
-- `bcount` of runtime/bitset.c counts the numbers in a set, although it reads words.
use Prim.Native.Nat.{bit_or}
use mudlle.Prelude.{
  ℕ, zero, suc, ◌+◌, ◌*◌, ◌-◌, ◌/◌, ◌%◌, ◌^◌, ◌≤◌, ◌<◌, ◌≡◌, ◌∙◌, refl, ltb, ltb→lt, ap,
  length-take, length-drop, List, [], ◌∷◌, true, ◌==◌, if◌then◌else◌, length, take, drop, leb,
  Bool-cases, inl, inr, ==_iff, arith,
}
use mudlle.Prelude.Bits.{checks, checks-at}
use mudlle.Error.{returned}
use mudlle.Table.{Str}
use mudlle.Bitset.{string, under, popcount, word_of, collect, bcount_loop, bcount}
use mudlle.Bitset.Bytes.{digit, digit_bound, under-power, or_lowest}
use mudlle.Bitset.Binary.{AreBytes}

-- The numbers below j whose bit in the byte is set, and the numbers in a set.
unfoldable pub ones_below : ℕ → ℕ → ℕ
ones_below zero c = 0
ones_below (suc j) c = (if under c (2 ^ j) then 1 else 0) + ones_below j c

unfoldable pub population : List ℕ → ℕ
population [] = 0
population (c ∷ bytes) = ones_below 8 c + population bytes

popcount-last : (j c : ℕ) → popcount (suc j) c ≡ popcount j c + digit j c
unfolding popcount digit
popcount-last zero c = omega arith
popcount-last (suc j) c = omega (arith, popcount-last j (c / 2))

popcount-ones : (j c : ℕ) → popcount j c ≡ ones_below j c
unfolding ones_below
popcount-ones zero c = unfold popcount in refl
popcount-ones (suc j) c =
    ground (arith, popcount-last j c, popcount-ones j c, under-power j c, digit_bound j c)

-- v is w shifted by so many bits.
abbrev Shifted : ℕ → ℕ → ℕ → Type 0
Shifted zero v w = v ≡ w
Shifted (suc i) v w = (u : ℕ) × (v ≡ u + u) × Shifted i u w

popcount-split :
    (i k n c v w : ℕ)
    → n ≡ i + k
    → Shifted i v w
    → c < 2 ^ i
    → popcount n (c + v) ≡ popcount i c + popcount k w
unfolding popcount
popcount-split zero k n c v w e s h =
    let at : c + v ≡ w = omega (arith, s) in
    let bits : n ≡ k = omega arith in rw (at, bits) (omega arith)
popcount-split (suc i) k zero c v w e s h = absurd (omega arith)
popcount-split (suc i) k (suc n) c v w e (u, twice, s) h =
    let even : 2 ^ suc i ≡ 2 ^ i + 2 ^ i = omega arith in
    let small : c / 2 < 2 ^ i = omega (arith, even) in
    let bits : n ≡ i + k = omega arith in
    let rest = popcount-split i k n (c / 2) u w bits s small in
    let half : (c + v) / 2 ≡ c / 2 + u = omega arith in
    let low : (c + v) % 2 ≡ c % 2 = omega arith in rw (low, half, rest) (omega arith)

Shifted-byte : (w : ℕ) → Shifted 8 (256 * w) w
Shifted-byte w = (
  128 * w,
  omega arith,
  (
    64 * w,
    omega arith,
    (
      32 * w,
      omega arith,
      (
        16 * w,
        omega arith,
        (8 * w, omega arith, (4 * w, omega arith, (2 * w, omega arith, (w, omega arith, refl)))),
      ),
    ),
  ),
)

Shifted-zero : (i : ℕ) → Shifted i 0 0
Shifted-zero zero = refl
Shifted-zero (suc i) = (0, refl, Shifted-zero i)

popcount-zero : (k : ℕ) → popcount k 0 ≡ 0
unfolding popcount
popcount-zero zero = refl
popcount-zero (suc k) = omega (arith, popcount-zero k)

-- A word of so many bits, with a byte put below it.
popcount_byte :
    (k n c w : ℕ) → n ≡ 8 + k → c < 256 → popcount n (c + 256 * w) ≡ ones_below 8 c + popcount k w
popcount_byte k n c w e h =
    popcount-split 8 k n c (256 * w) w e (Shifted-byte w) h ∙ omega (arith, popcount-ones 8 c)

-- More bits than a number has.
popcount_more : (i k n c : ℕ) → n ≡ i + k → c < 2 ^ i → popcount n c ≡ popcount i c
popcount_more i k n c e h =
    let whole : c + 0 ≡ c = omega arith in
    rw whole at (popcount-split i k n c 0 0 e (Shifted-zero i) h) ∙ omega (arith, popcount-zero k)

popcount-word_of :
    (bytes : List ℕ) (n : ℕ)
    → 8 * length bytes ≤ n
    → AreBytes bytes
    → popcount n (word_of bytes) ≡ population bytes
unfolding word_of population
popcount-word_of [] n h b = popcount-zero n
popcount-word_of (c ∷ bytes) n h b =
    popcount_byte (n - 8) n c (word_of bytes) (omega arith) (b.0)
    ∙ omega (arith, popcount-word_of bytes (n - 8) (omega arith) b.1)

or_none : (fuel a : ℕ) → a ≤ fuel → bit_or a 0 ≡ a
or_none fuel zero h = refl
or_none zero (suc a) h = absurd (omega arith)
or_none (suc fuel) (suc a) h =
    omega (arith, or_lowest (suc a) 0, or_none fuel (suc a / 2) (omega arith))

-- A number put below one that is shifted.
or_below : (i v c w : ℕ) → Shifted i v w → c < 2 ^ i → bit_or v c ≡ c + v
or_below zero v c w s h =
    let none : c ≡ 0 = omega arith in rw none (omega (arith, or_none v v (omega arith)))
or_below (suc i) v c w (u, twice, s) h =
    let even : 2 ^ suc i ≡ 2 ^ i + 2 ^ i = omega arith in
    let small : c / 2 < 2 ^ i = omega (arith, even) in
    let half : v / 2 ≡ u = omega arith in
    let ih = or_below i u (c / 2) w s small in
    let step = rw half at (or_lowest v c) in omega (arith, step, ih, twice)

-- The numbers that leave room for so many bytes below them in 56 bits.
abbrev room : ℕ → ℕ
room zero = 72_057_594_037_927_936
room (suc k) = room k / 256

room_bound : (k : ℕ) → room k ≤ 72_057_594_037_927_936
room_bound zero = omega arith
room_bound (suc k) = omega (arith, room_bound k)

popcount-collect :
    (bytes : List ℕ) (u : ℕ)
    → AreBytes bytes
    → u < room (length bytes)
    → popcount 64 (collect u bytes) ≡ popcount 64 u + population bytes
unfolding collect population
popcount-collect [] u b h = omega arith
popcount-collect (c ∷ bytes) u b h =
    let small = room_bound (length bytes) in
    let shifted : u * 256 % 2 ^ 64 ≡ 256 * u = omega arith in
    let next : bit_or (u * 256 % 2 ^ 64) c ≡ c + 256 * u =
      rw shifted (or_below 8 (256 * u) c u (Shifted-byte u) (b.0)) in
    let ih = popcount-collect bytes (c + 256 * u) b.1 (omega (arith, b.0, h)) in
    rw next (
      omega (
        arith,
        ih,
        popcount_byte 56 64 c u refl (b.0),
        popcount_more 56 8 64 u refl (omega (arith, h, small)),
      ))

population-append :
    (k : ℕ) (bytes : List ℕ)
    → population (take k bytes) + population (drop k bytes) ≡ population bytes
unfolding population
population-append zero bytes = omega arith
population-append (suc k) [] = refl
population-append (suc k) (c ∷ bytes) = omega (arith, population-append k bytes)

take-AreBytes :
    (k : ℕ) (bytes : List ℕ) → AreBytes bytes → AreBytes (take k bytes) × AreBytes (drop k bytes)
take-AreBytes zero bytes b = (tt, b)
take-AreBytes (suc k) [] b = (tt, tt)
take-AreBytes (suc k) (c ∷ bytes) b = let (t, d) = take-AreBytes k bytes b.1 in ((b.0, t), d)

room_table : checks (λ k. ltb 0 (room k)) 8 ≡ true
unfolding checks
room_table = refl

first_room : (k : ℕ) → k < 8 → 0 < room k
first_room k h = ltb→lt 0 (room k) (checks-at (λ k. ltb 0 (room k)) {bound = 8} k h room_table)

population-empty : (bytes : List ℕ) → length bytes ≡ 0 → population bytes ≡ 0
unfolding population
population-empty [] h = refl
population-empty (c ∷ bytes) h = absurd (omega arith)

bcount_loop-population :
    (rounds : ℕ) (bytes : List ℕ) (n : ℕ)
    → length bytes < rounds
    → AreBytes bytes
    → bcount_loop rounds bytes n ≡ n + population bytes
unfolding bcount_loop
bcount_loop-population zero bytes n h b = absurd (omega arith)
bcount_loop-population (suc rounds) bytes n h b = elim (Bool-cases (leb 8 (length bytes))) [
  | inl e ↦
      let (t, d) = take-AreBytes 8 bytes b in
      let l = length-take 8 bytes in
      rw e (
        bcount_loop-population rounds (drop 8 bytes) (n + popcount 64 (word_of (take 8 bytes)))
          (ground (arith, length-drop 8 bytes)) d
        ∙ omega (
          arith,
          popcount-word_of (take 8 bytes) 64 (omega (arith, l)) t,
          population-append 8 bytes,
        ))
  | inr e ↦ elim (Bool-cases (length bytes == 0)) [
    | inl z ↦ rw (e, z) (omega (arith, population-empty bytes ((==_iff _ _).0 z)))
    | inr z ↦
        rw (e, z)
          (omega (
            arith,
            popcount-collect bytes 0 b (first_room (length bytes) (ground arith)),
            popcount-zero 64,
          ))
  ]
]

-- The count of a bitset, which is read in words of 8 bytes and a rest, is the number of the bits
-- that are set in its bytes.
pub bcount-population :
    (b : Str) → AreBytes b.bytes → bcount (string b) ≡ returned (population b.bytes)
unfolding bcount
bcount-population b bytes =
    ap returned
      (bcount_loop-population (length b.bytes + 1) b.bytes 0 (omega arith) bytes ∙ omega arith)
