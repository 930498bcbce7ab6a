-- ===== src/Random.antt =====
-- random.c: the generator PCG32 on words of 32 and 64 bits, and numbers in a range from it. A word
-- is a number; a conversion to a type of `w` bits is `% 2 ^ w`. Where the code passes NULL for the
-- shared generator, the caller passes its state. The numbers of the type double and the seed from
-- the operating system are not modelled.
pub mod Product
pub mod Uniform
pub mod Draws
use Prim.Native.Nat.{bit_or, bit_xor}
use mudlle.Prelude.{
  ℕ, zero, suc, ◌+◌, ◌-◌, ◌*◌, ◌/◌, ◌%◌, ◌^◌, Bool, true, false, ◌&&◌, not, Option, some, none, ltb,
  ◌==◌, if◌then◌else◌,
}

pub record Pcg32 : Type 0 where
  pub state : ℕ
  pub inc : ℕ

abbrev pub pcg_default_multiplier_64 : ℕ
pcg_default_multiplier_64 = 6364136223846793005

unfoldable pub pcg32_step_r : Pcg32 → Pcg32
pcg32_step_r rng = record rng {
  state = (rng.state * pcg_default_multiplier_64 % 2 ^ 64 + rng.inc) % 2 ^ 64;
}

unfoldable pub pcg32_srandom_r : ℕ → ℕ → Pcg32
pcg32_srandom_r initstate initseq =
    let stepped = pcg32_step_r (record { state = 0; inc = bit_or (initseq * 2 % 2 ^ 64) 1 }) in
    pcg32_step_r (record stepped { state = (stepped.state + initstate) % 2 ^ 64 })

-- `(-rot) & 31` is the number of bits that a rotation by `rot` below 32 wraps.
unfoldable pub pcg32_random_r : Pcg32 → ℕ × Pcg32
pcg32_random_r rng =
    let oldstate = rng.state in
    let xorshifted = bit_xor (oldstate / 2 ^ 18) oldstate / 2 ^ 27 % 2 ^ 32 in
    let rot = oldstate / 2 ^ 59 in
    (
      bit_or (xorshifted / 2 ^ rot) (xorshifted * 2 ^ ((32 - rot) % 32) % 2 ^ 32) % 2 ^ 32,
      pcg32_step_r rng,
    )

unfoldable pub random64 : Pcg32 → ℕ × Pcg32
random64 rng =
    let (high, rng') = pcg32_random_r rng in
    let (low, rng'') = pcg32_random_r rng' in (bit_or (high * 2 ^ 32) low % 2 ^ 64, rng'')

-- A generator seeded from the shared one, and the shared one after that.
unfoldable pub pcg32_srandom : Pcg32 → Pcg32 × Pcg32
pcg32_srandom shared =
    let (initstate, shared') = random64 shared in
    let (initseq, shared'') = random64 shared' in (pcg32_srandom_r initstate initseq, shared'')

pub record Uint128 : Type 0 where
  pub l : ℕ
  pub h : ℕ

-- With the type `__uint128_t`.
unfoldable pub mul_u64 : ℕ → ℕ → Uint128
mul_u64 a b = let r = a * b % 2 ^ 128 in record { l = r % 2 ^ 64; h = r / 2 ^ 64 % 2 ^ 64 }

-- Without it, from the products of the halves.
unfoldable pub mul_u64_halves : ℕ → ℕ → Uint128
mul_u64_halves a b =
    let al = a % 2 ^ 32 in
    let ah = a / 2 ^ 32 % 2 ^ 32 in
    let bl = b % 2 ^ 32 in
    let bh = b / 2 ^ 32 % 2 ^ 32 in
    let albl = al * bl % 2 ^ 64 in
    let albh = al * bh % 2 ^ 64 in
    let ahbl = ah * bl % 2 ^ 64 in
    let ahbh = ah * bh % 2 ^ 64 in
    let s = (albh + albl / 2 ^ 32) % 2 ^ 64 in
    let t = (ahbl + s % 2 ^ 32) % 2 ^ 64 in
    record {
      l = (albl % 2 ^ 32 + t * 2 ^ 32 % 2 ^ 64) % 2 ^ 64;
      h = (ahbh + s / 2 ^ 32 + t / 2 ^ 32) % 2 ^ 64;
    }

-- `(uint64_t)x * (uint64_t)range` for words of 32 bits, as its low and its high word.
abbrev pub mul_u32 : ℕ → ℕ → Uint128
mul_u32 x range = let m = x * range % 2 ^ 64 in record { l = m % 2 ^ 32; h = m / 2 ^ 32 }

-- The loop `while (l < t)` on fuel, which is the number of tests; `x` is the last draw.
unfoldable pub reject_loop :
    (Pcg32 → ℕ × Pcg32) → (ℕ → ℕ → Uint128) → ℕ → Pcg32 → (range t x : ℕ) → Option (ℕ × Pcg32)
reject_loop draw mul zero rng range t x = none
reject_loop draw mul (suc fuel) rng range t x =
    let rest = reject_loop draw mul fuel (draw rng).1 range t (draw rng).0 in
    let m = mul x range in if ltb m.l t then rest else some (m.h, rng)

-- `-range % range` on words of 64 bits.
unfoldable pub random_range64_r : ℕ → Pcg32 → ℕ → Option (ℕ × Pcg32)
random_range64_r fuel rng range =
    let (x, rng') = random64 rng in
    if range == 2 ^ 64 - 1
    then some (x, rng')
    else let range' = range + 1 in
      let m = mul_u64 x range' in
      if ltb m.l range'
      then reject_loop random64 mul_u64 fuel rng' range' ((2 ^ 64 - range') % 2 ^ 64 % range') x
      else some (m.h, rng')

unfoldable pub random_range32_r : ℕ → Pcg32 → ℕ → Option (ℕ × Pcg32)
random_range32_r fuel rng range =
    let (x, rng') = pcg32_random_r rng in
    if range == 2 ^ 32 - 1
    then some (x, rng')
    else let range' = range + 1 in
      let m = mul_u32 x range' in
      if ltb m.l range'
      then reject_loop pcg32_random_r mul_u32 fuel rng' range' ((2 ^ 32 - range') % 2 ^ 32 % range')
          x
      else some (m.h, rng')
