-- ===== src/Table/Access/Size.antt =====
-- The size that table.c chooses for a number of entries.
use native.Mathlib.Nat.{pow-suc}
use mudlle.Prelude.{
  ℕ, zero, suc, ◌+◌, ◌*◌, ◌/◌, ◌^◌, ◌≤◌, ◌<◌, ◌≡◌, refl, ◌⊎◌, some, arith, lt→ltb, ◌==◌, ℕ_discrete,
  inr, false,
}
use mudlle.Table.Access.{next_pow2, table_good_size}

-- A power of two above `u`, and the smallest.
record IsNextPow2 (u n : ℕ) : Type 0 where
  bits : ℕ
  power : n ≡ 2 ^ bits
  above : u < n
  least : n ≤ 2 * u ⊎ (u ≡ 0) × (n ≡ 1)

next_pow2-IsNextPow2 : (bits u : ℕ) → u < 2 ^ bits → IsNextPow2 u (next_pow2 bits u)
unfolding next_pow2
next_pow2-IsNextPow2 zero u h = record {
  bits = 0;
  power = refl;
  above = omega arith;
  least = inr (omega arith, refl);
}
next_pow2-IsNextPow2 (suc bits) u h =
    let half = next_pow2-IsNextPow2 bits (u / 2) (omega (arith, pow-suc 2 bits)) in
    elim (ℕ_discrete u 0) [
      | yes z ↦
          rw z (record { bits = 0; power = refl; above = omega arith; least = inr (refl, refl) })
      | no n ↦
          let e : (u == 0) ≡ false = ground arith in
          rw e (record {
            bits = suc half.bits;
            power = omega (arith, half.power, pow-suc 2 half.bits);
            above = omega (arith, half.above);
            least = omega (arith, half.least);
          })
    ]

fit_under : (bits n : ℕ) {e : ℕ} → n ≡ 2 ^ bits → 3 ≤ n → (e * 4 + 2) / 3 < n → e < n / 2 + n / 4
fit_under zero n p h lt = absurd (omega arith)
fit_under (suc zero) n p h lt = absurd (omega (arith, pow-suc 2 0))
fit_under (suc (suc bits)) n p h lt = omega (arith, p, pow-suc 2 (suc bits), pow-suc 2 bits)

-- For fewer than 536870911 entries the size is a power of two, the entries stay below its threshold
-- for doubling, and no more than twice what was asked for is allocated.
pub table_good_size-fits :
    (entries : ℕ)
    → entries < 536_870_911
    → (n : ℕ) × (bits : ℕ) × (table_good_size entries ≡ some n)
      × (n ≡ 2 ^ bits)
      × (0 < entries → entries < n / 2 + n / 4)
      × (n ≤ 1 + 2 * ((entries * 4 + 2) / 3))
unfolding table_good_size
table_good_size-fits entries h =
    let p = next_pow2-IsNextPow2 64 ((entries * 4 + 2) / 3) (omega arith) in
    (
      next_pow2 64 ((entries * 4 + 2) / 3),
      p.bits,
      rw (lt→ltb _ _ h),
      p.power,
      λ pos. fit_under p.bits _ p.power (omega (arith, p.above)) (omega (arith, p.above)),
      omega (arith, p.least),
    )
