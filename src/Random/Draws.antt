-- ===== src/Random/Draws.antt =====
-- random.c: the numbers of a range, by the words that the generator draws.
use mudlle.Prelude.{
  ℕ, zero, suc, ◌+◌, ◌-◌, ◌*◌, ◌/◌, ◌%◌, ◌^◌, ◌≤◌, ◌<◌, ◌≡◌, ◌↔◌, refl, sym, ◌∙◌, true, false,
  Option, some, arith, ltb, lt→ltb, ◌==◌, if◌then◌else◌, Bool-cases, inl, inr,
}
use mudlle.Random.{
  Pcg32, Uint128, pcg32_random_r, random64, mul_u64, mul_u32, reject_loop, random_range64_r,
  random_range32_r,
}
use mudlle.Random.Product.{mul_u64-product}
use mudlle.Random.Uniform.{first_word, high-lt, accepted_iff}

module _ (draw : Pcg32 → ℕ × Pcg32) where
  -- The word of draw number `k`, and the generator after `k` draws.
  unfoldable pub word_at : ℕ → Pcg32 → ℕ
  word_at zero rng = (draw rng).0
  word_at (suc k) rng = word_at k (draw rng).1

  unfoldable pub after : ℕ → Pcg32 → Pcg32
  after zero rng = rng
  after (suc k) rng = after k (draw rng).1

-- A call that drew `k` words that are rejected, and then one that is not: it returns a number `v`
-- of the range below `s`, the one that the last word is accepted for.
pub record Drawn (draw : Pcg32 → ℕ × Pcg32) (words s k : ℕ) (rng : Pcg32) (run : Option (ℕ × Pcg32))
    : Type 0 where
  pub v : ℕ
  pub returns : run ≡ some (v, after draw (suc k) rng)
  pub in_range : v < s
  pub uniform :
      (r : ℕ)
      → (v ≡ r) ↔ (
          (first_word words s r ≤ word_at draw k rng)
          × (word_at draw k rng < first_word words s r + words / s))

abbrev pub IsDraw : (Pcg32 → ℕ × Pcg32) → ℕ → Type 0
IsDraw draw words = (rng : Pcg32) → (draw rng).0 < words

abbrev pub IsProduct : (ℕ → ℕ → Uint128) → ℕ → Type 0
IsProduct mul words =
    (x s : ℕ)
    → x < words
    → s < words
    → ((mul x s).l ≡ x * s % words) × ((mul x s).h ≡ x * s / words)

module _ (draw : Pcg32 → ℕ × Pcg32) (mul : ℕ → ℕ → Uint128) (words : ℕ) where
  module _ (bounded : IsDraw draw words) (product : IsProduct mul words) (s : ℕ) (pos : 0 < s)
      (fits : s < words) where
    word_at-lt : (k : ℕ) (rng : Pcg32) → word_at draw k rng < words
    unfolding word_at
    word_at-lt zero rng = bounded rng
    word_at-lt (suc k) rng = word_at-lt k (draw rng).1

    abbrev pub Rejected : ℕ → Type 0
    Rejected x = x * s % words < words % s

    abbrev pub Accepted : ℕ → Type 0
    Accepted x = words % s ≤ x * s % words

    loop-runs :
        (k fuel : ℕ) (rng : Pcg32)
        → k < fuel
        → ((j : ℕ) → j < k → Rejected (word_at draw j rng))
        → Accepted (word_at draw k rng)
        → reject_loop draw mul fuel (draw rng).1 s (words % s) (draw rng).0
          ≡ some (word_at draw k rng * s / words, after draw (suc k) rng)
    unfolding reject_loop word_at after
    loop-runs k zero rng enough before now = absurd (omega arith)
    loop-runs zero (suc fuel) rng enough before now =
        let (l, h) = product (draw rng).0 s (bounded rng) fits in
        let stop : ltb (mul (draw rng).0 s).l (words % s) ≡ false = ground arith in rw (stop, h)
    loop-runs (suc k) (suc fuel) rng enough before now =
        let (l, h) = product (draw rng).0 s (bounded rng) fits in
        let again =
          loop-runs k fuel (draw rng).1 (omega arith) (λ j lt. before (suc j) (omega arith)) now in
        let first = before zero (omega arith) in
        let on : ltb (mul (draw rng).0 s).l (words % s) ≡ true =
          lt→ltb (mul (draw rng).0 s).l (words % s) (rw l first) in
        rw on again

    value-Drawn :
        (k : ℕ) (rng : Pcg32) (run : Option (ℕ × Pcg32))
        → Accepted (word_at draw k rng)
        → run ≡ some (word_at draw k rng * s / words, after draw (suc k) rng)
        → Drawn draw words s k rng run
    value-Drawn k rng run now e = record {
      v = word_at draw k rng * s / words;
      returns = e;
      in_range = high-lt words s pos (omega arith) (word_at draw k rng) (word_at-lt k rng);
      uniform = λ r. accepted_iff words s pos (omega arith) (word_at draw k rng) r now;
    }

    pub body-Drawn :
        (k fuel : ℕ) (rng : Pcg32)
        → k < fuel
        → ((j : ℕ) → j < k → Rejected (word_at draw j rng))
        → Accepted (word_at draw k rng)
        → Drawn draw words s k rng (
            if ltb (mul (draw rng).0 s).l s
            then reject_loop draw mul fuel (draw rng).1 s (words % s) (draw rng).0
            else some ((mul (draw rng).0 s).h, (draw rng).1))
    unfolding word_at after
    body-Drawn k fuel rng enough before now =
        let (l, h) = product (draw rng).0 s (bounded rng) fits in
        elim (Bool-cases (ltb (mul (draw rng).0 s).l s)) [
          | inl e ↦ value-Drawn k rng _ now (rw e (loop-runs k fuel rng enough before now))
          | inr e ↦ value-Drawn k rng _ now (rw (e, h) (at_once k before (ground arith)))
        ]
      where
        at_once :
            (k : ℕ)
            → ((j : ℕ) → j < k → Rejected (word_at draw j rng))
            → s ≤ (draw rng).0 * s % words
            → ◌≡◌ {A = Option (ℕ × Pcg32)}
                (some ((draw rng).0 * s / words, (draw rng).1))
                (some (word_at draw k rng * s / words, after draw (suc k) rng))
        at_once zero before large = refl
        at_once (suc k) before large = absurd (
            let first = before zero (omega arith) in
            let small : words % s < s = grind arith in omega arith)

mod_self : (n : ℕ) → 0 < n → n % n ≡ 0
mod_self n pos = grind arith

mul_self : (x n : ℕ) → 0 < n → x * n / n ≡ x
mul_self x n pos = grind arith

-- With the whole range every word is accepted, and is the number.
whole-Drawn :
    (draw : Pcg32 → ℕ × Pcg32) (words k : ℕ) (rng : Pcg32)
    → 0 < words
    → (draw rng).0 < words
    → ((j : ℕ) → j < k → word_at draw j rng * words % words < words % words)
    → Drawn draw words words k rng (some (draw rng))
unfolding word_at after
whole-Drawn draw words zero rng pos lt before =
    let self = mod_self words pos in
    record {
      v = (draw rng).0;
      returns = refl;
      in_range = lt;
      uniform = λ r.
          rw (mul_self (draw rng).0 words pos) at
            (accepted_iff words words pos (omega arith) (draw rng).0 r (rw self (omega arith)));
    }
whole-Drawn draw words (suc k) rng pos lt before =
    absurd (let bad = before zero (omega arith) in let self = mod_self words pos in omega arith)

mul_u32-IsProduct : IsProduct mul_u32 (2 ^ 32)
mul_u32-IsProduct x s lt fits =
    let small : x * s < 2 ^ 64 = grind arith in (omega arith, omega arith)

mul_u64-IsProduct : IsProduct mul_u64 (2 ^ 64)
mul_u64-IsProduct x s lt fits =
    let (whole, low, _) = mul_u64-product x s lt fits in (omega arith, omega arith)

mod-add_self : (n s : ℕ) → 0 < s → (n + s) % s ≡ n % s
mod-add_self n s pos = grind arith

-- `-range % range` is what the number of words leaves over.
threshold : (words s : ℕ) → 0 < s → s < words → (words - s) % words % s ≡ words % s
threshold words s pos fits =
    let inside : (words - s) % words ≡ words - s = grind arith in
    let whole : words - s + s ≡ words = omega arith in
    rw inside (sym (mod-add_self (words - s) s pos) ∙ (rw whole))

pcg32_random_r-IsDraw : IsDraw pcg32_random_r (2 ^ 32)
unfolding pcg32_random_r
pcg32_random_r-IsDraw rng = omega arith

random64-IsDraw : IsDraw random64 (2 ^ 64)
unfolding random64
random64-IsDraw rng = omega arith

-- With fuel for more than `k` tests, where the first `k` words drawn are rejected and the next is
-- accepted: a number of the range [0..range] is returned, the one whose words the accepted word is
-- among. Each number has the same count, 2^32 / (range + 1), of successive words.
pub random_range32_r-Drawn :
    (range k fuel : ℕ) (rng : Pcg32)
    → range < 2 ^ 32
    → k < fuel
    → ((j : ℕ) → j < k → word_at pcg32_random_r j rng * (range + 1) % 2 ^ 32 < 2 ^ 32 % (range + 1))
    → 2 ^ 32 % (range + 1) ≤ word_at pcg32_random_r k rng * (range + 1) % 2 ^ 32
    → Drawn pcg32_random_r (2 ^ 32) (range + 1) k rng (random_range32_r fuel rng range)
unfolding random_range32_r
random_range32_r-Drawn range k fuel rng lt enough before now =
    elim (Bool-cases (range == 2 ^ 32 - 1)) [
      | inl e ↦
          let all : range + 1 ≡ 2 ^ 32 = ground arith in
          let before' = rw all at before in
          rw (e, all)
            (whole-Drawn pcg32_random_r (2 ^ 32) k rng (omega arith) (pcg32_random_r-IsDraw rng)
              before')
      | inr e ↦
          let fits : range + 1 < 2 ^ 32 = ground arith in
          rw (e, threshold (2 ^ 32) (range + 1) (omega arith) fits)
            (body-Drawn pcg32_random_r mul_u32 (2 ^ 32) pcg32_random_r-IsDraw mul_u32-IsProduct
              (range + 1) (omega arith) fits k fuel rng enough before now)
    ]

-- The same of the 64-bit words: with fuel for more than `k` tests, where the first `k` words drawn
-- are rejected and the next is accepted, a number of the range [0..range] is returned, and each
-- number has the same count, 2^64 / (range + 1), of successive words.
pub random_range64_r-Drawn :
    (range k fuel : ℕ) (rng : Pcg32)
    → range < 2 ^ 64
    → k < fuel
    → ((j : ℕ) → j < k → word_at random64 j rng * (range + 1) % 2 ^ 64 < 2 ^ 64 % (range + 1))
    → 2 ^ 64 % (range + 1) ≤ word_at random64 k rng * (range + 1) % 2 ^ 64
    → Drawn random64 (2 ^ 64) (range + 1) k rng (random_range64_r fuel rng range)
unfolding random_range64_r
random_range64_r-Drawn range k fuel rng lt enough before now =
    elim (Bool-cases (range == 2 ^ 64 - 1)) [
      | inl e ↦
          let all : range + 1 ≡ 2 ^ 64 = ground arith in
          let before' = rw all at before in
          rw (e, all)
            (whole-Drawn random64 (2 ^ 64) k rng (omega arith) (random64-IsDraw rng) before')
      | inr e ↦
          let fits : range + 1 < 2 ^ 64 = ground arith in
          rw (e, threshold (2 ^ 64) (range + 1) (omega arith) fits)
            (body-Drawn random64 mul_u64 (2 ^ 64) random64-IsDraw mul_u64-IsProduct (range + 1)
              (omega arith) fits k fuel rng enough before now)
    ]
