-- ===== src/Random/Product.antt =====
-- random.c: the product of two words of 64 bits.
use mudlle.Prelude.{ℕ, ◌+◌, ◌-◌, ◌*◌, ◌/◌, ◌%◌, ◌^◌, ◌≤◌, ◌<◌, ◌≡◌, sym, ap, ◌∙◌, arith}
use mudlle.Random.{Uint128, mul_u64, mul_u64_halves}

-- The sums of the halves of the products.
halves :
    (ll lh hl hh : ℕ)
    → ll ≤ (2 ^ 32 - 1) * (2 ^ 32 - 1)
    → lh ≤ (2 ^ 32 - 1) * (2 ^ 32 - 1)
    → hl ≤ (2 ^ 32 - 1) * (2 ^ 32 - 1)
    → hh ≤ (2 ^ 32 - 1) * (2 ^ 32 - 1)
    → let s = (lh + ll / 2 ^ 32) % 2 ^ 64 in
      let t = (hl + s % 2 ^ 32) % 2 ^ 64 in
      let l = (ll % 2 ^ 32 + t * 2 ^ 32 % 2 ^ 64) % 2 ^ 64 in
      let h = (hh + s / 2 ^ 32 + t / 2 ^ 32) % 2 ^ 64 in
      ll + 2 ^ 32 * (lh + hl) + 2 ^ 64 * hh ≡ h * 2 ^ 64 + l
halves ll lh hl hh a b c d = omega arith

half-product : (x y : ℕ) → x < 2 ^ 32 → y < 2 ^ 32 → x * y ≤ (2 ^ 32 - 1) * (2 ^ 32 - 1)
half-product x y hx hy = grind arith

split-product :
    (al ah bl bh : ℕ)
    → (ah * 2 ^ 32 + al) * (bh * 2 ^ 32 + bl)
      ≡ al * bl + 2 ^ 32 * (al * bh + ah * bl) + 2 ^ 64 * (ah * bh)
split-product al ah bl bh = grind arith

small : (p : ℕ) → p ≤ (2 ^ 32 - 1) * (2 ^ 32 - 1) → p % 2 ^ 64 ≡ p
small p h = omega arith

word-product : (a b : ℕ) → a < 2 ^ 64 → b < 2 ^ 64 → a * b < 2 ^ 128
word-product a b ha hb = grind arith

abbrev value_of : Uint128 → ℕ
value_of r = r.h * 2 ^ 64 + r.l

halves-value :
    (a b : ℕ)
    → a < 2 ^ 64
    → b < 2 ^ 64
    → (value_of (mul_u64_halves a b) ≡ a * b) × ((mul_u64_halves a b).l < 2 ^ 64)
unfolding mul_u64_halves
halves-value a b ha hb =
    let al = a % 2 ^ 32 in
    let ah = a / 2 ^ 32 % 2 ^ 32 in
    let bl = b % 2 ^ 32 in
    let bh = b / 2 ^ 32 % 2 ^ 32 in
    let ll = half-product al bl (omega arith) (omega arith) in
    let lh = half-product al bh (omega arith) (omega arith) in
    let hl = half-product ah bl (omega arith) (omega arith) in
    let hh = half-product ah bh (omega arith) (omega arith) in
    let ea : a ≡ ah * 2 ^ 32 + al = omega arith in
    let eb : b ≡ bh * 2 ^ 32 + bl = omega arith in
    let whole : a * b ≡ al * bl + 2 ^ 32 * (al * bh + ah * bl) + 2 ^ 64 * (ah * bh) =
      ap (λ x. x * b) ea ∙ ap (λ y. (ah * 2 ^ 32 + al) * y) eb ∙ split-product al ah bl bh in
    (
      sym (
          whole
          ∙ halves (al * bl) (al * bh) (ah * bl) (ah * bh) ll lh hl hh
          ∙ (rw (small (al * bl) ll, small (al * bh) lh, small (ah * bl) hl, small (ah * bh) hh))),
      omega arith,
    )

same_words : (r s : Uint128) → value_of r ≡ value_of s → r.l < 2 ^ 64 → s.l < 2 ^ 64 → r ≡ s
same_words r s e hr hs =
    let l : r.l ≡ s.l = omega arith in let h : r.h ≡ s.h = omega arith in ground arith

-- For words of 64 bits both ways to multiply give the whole product, as two words: the one with
-- 128-bit integers and the one from the products of the halves, none of whose sums overflows.
pub mul_u64-product :
    (a b : ℕ)
    → a < 2 ^ 64
    → b < 2 ^ 64
    → ((mul_u64 a b).h * 2 ^ 64 + (mul_u64 a b).l ≡ a * b)
      × ((mul_u64 a b).l < 2 ^ 64)
      × (mul_u64_halves a b ≡ mul_u64 a b)
unfolding mul_u64
mul_u64-product a b ha hb =
    let p = word-product a b ha hb in
    let value : value_of (mul_u64 a b) ≡ a * b = omega arith in
    let (value', low) = halves-value a b ha hb in
    (
      value,
      omega arith,
      same_words (mul_u64_halves a b) (mul_u64 a b) (value' ∙ sym value) low (omega arith),
    )
