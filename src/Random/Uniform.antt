-- ===== src/Random/Uniform.antt =====
-- random.c: which words the rejection of Lemire's method accepts for each number of a range.
use mudlle.Prelude.{ℕ, ◌+◌, ◌-◌, ◌*◌, ◌/◌, ◌%◌, ◌≤◌, ◌<◌, ◌≡◌, ◌↔◌, refl, arith}

-- `ceil (a / s)` is the least factor that takes `s` to `a`.
ceiling : (a s x : ℕ) → 0 < s → (a ≤ x * s) ↔ ((a + s - 1) / s ≤ x)
ceiling a s x pos = (λ h. grind arith, λ h. grind arith)

quotient_iff : (n w r : ℕ) → 0 < w → (n / w ≡ r) ↔ ((r * w ≤ n) × (n < r * w + w))
quotient_iff n w r pos = (λ h. grind arith, λ h. grind arith)

ceiling_shift : (a s q : ℕ) → 0 < s → (a + q * s + s - 1) / s ≡ (a + s - 1) / s + q
ceiling_shift a s q pos =
    let m = (a + s - 1) / s in
    let bounds = (quotient_iff (a + s - 1) s m pos).0 refl in
    let parts : (m + q) * s ≡ m * s + q * s = grind arith in
    (quotient_iff (a + q * s + s - 1) s (m + q) pos).1 (omega arith, omega arith)

pub remainder_lem : (n w : ℕ) → 0 < w → n ≡ n / w * w + n % w
remainder_lem n w pos = grind arith

-- The first word that is accepted for `r`.
abbrev pub first_word : ℕ → ℕ → ℕ → ℕ
first_word words s r = (r * words + words % s + s - 1) / s

module _ (words s : ℕ) (pos : 0 < s) (fits : s ≤ words) where
  pub high-lt : (x : ℕ) → x < words → x * s / words < s
  high-lt x lt = grind arith

  -- The accepted words for `r` are `words / s` successive ones.
  pub accepted_iff :
      (x r : ℕ)
      → words % s ≤ x * s % words
      → (x * s / words ≡ r) ↔ ((first_word words s r ≤ x) × (x < first_word words s r + words / s))
  accepted_iff x r ok = (
    λ h.
        let low : least ≤ x * s = (let e = rw h at split in omega arith) in
        let high = ((quotient_iff (x * s) words r (omega arith)).0 h).1 in
        ((ceiling least s x pos).0 low, below.0 (omega (arith, whole))),
    λ h.
        let low = (ceiling least s x pos).1 h.0 in
        let high = below.1 h.1 in
        (quotient_iff (x * s) words r (omega arith)).1 (omega arith, omega (arith, whole)),
  )
    where
      least : ℕ
      least = r * words + words % s

      split : x * s ≡ x * s / words * words + x * s % words
      split = remainder_lem (x * s) words (omega arith)

      whole : words ≡ words / s * s + words % s
      whole = remainder_lem words s pos

      below : (x * s < least + words / s * s) ↔ (x < first_word words s r + words / s)
      below =
          let c = ceiling (least + words / s * s) s x pos in
          let e = ceiling_shift least s (words / s) pos in (λ h. ground arith, λ h. ground arith)
