-- ===== src/Tests/RandomRuns.antt =====
-- random.c at concrete words.
use mudlle.Prelude.{◌+◌, ◌-◌, ◌*◌, ◌^◌, ◌<◌, ◌≡◌, refl, arith}
use mudlle.Random.{
  Pcg32, pcg32_step_r, pcg32_srandom_r, pcg32_random_r, random64, mul_u64, mul_u64_halves,
  random_range32_r, random_range64_r,
}
use mudlle.Random.Product.{mul_u64-product}
use mudlle.Random.Draws.{word_at, Drawn, random_range32_r-Drawn, random_range64_r-Drawn}

mul_u64-product_example :
    ((mul_u64 (2 ^ 63 + 5) (2 ^ 64 - 1)).h * 2 ^ 64 + (mul_u64 (2 ^ 63 + 5) (2 ^ 64 - 1)).l
      ≡ (2 ^ 63 + 5) * (2 ^ 64 - 1))
    × ((mul_u64 (2 ^ 63 + 5) (2 ^ 64 - 1)).l < 2 ^ 64)
    × (mul_u64_halves (2 ^ 63 + 5) (2 ^ 64 - 1) ≡ mul_u64 (2 ^ 63 + 5) (2 ^ 64 - 1))
mul_u64-product_example = mul_u64-product (2 ^ 63 + 5) (2 ^ 64 - 1) (omega arith) (omega arith)

-- The generator of the demonstration program of PCG.
unfoldable demo : Pcg32
unfolding pcg32_srandom_r pcg32_step_r
demo = pcg32_srandom_r 42 54

demo_draws : (pcg32_random_r demo).0 ≡ 0xa15c_02b7
unfolding demo pcg32_random_r
demo_draws = refl

random_range32_r-Drawn_example :
    Drawn pcg32_random_r (2 ^ 32) (5 + 1) 0 demo (random_range32_r 1 demo 5)
unfolding demo pcg32_random_r word_at
random_range32_r-Drawn_example =
    random_range32_r-Drawn 5 0 1 demo (omega arith) (omega arith) (λ j lt. absurd (omega arith))
      (omega arith)

random_range64_r-Drawn_example : Drawn random64 (2 ^ 64) (5 + 1) 0 demo (random_range64_r 1 demo 5)
unfolding demo random64 pcg32_random_r pcg32_step_r word_at
random_range64_r-Drawn_example =
    random_range64_r-Drawn 5 0 1 demo (omega arith) (omega arith) (λ j lt. absurd (omega arith))
      (omega arith)
