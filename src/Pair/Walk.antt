-- ===== src/Pair/Walk.antt =====
-- Lists of runtime/list.c by following the second elements of pairs.
use mudlle.Prelude.{
  ℕ, zero, suc, ◌+◌, ◌-◌, ◌<◌, ◌≡◌, ◌≢◌, inl, inr, refl, sym, ◌∙◌, Bool, true, Option, none, some,
  leb, if◌then◌else◌, ◌>>=◌, Bool-cases, Option-cases, arith,
}
use mudlle.Pair.{Value, null, Pair, Heap, value_eq, fetch}

pub value_eq_sound : (a b : Value) → value_eq a b ≡ true → a ≡ b
value_eq_sound a b h = ground arith

module _ (heap : Heap) (is_typeset : Value → Bool) where
  -- What follows a pair whose first element is accepted.
  abbrev pub step : Value → Option Value
  step v = elim (fetch heap v) [
    | none ↦ none
    | some p ↦ if is_typeset p.car then some p.cdr else none
  ]

  -- What stands after so many such pairs.
  unfoldable pub walk : ℕ → Value → Option Value
  walk zero v = some v
  walk (suc n) v = step v >>= walk n

  -- A walk goes on from where it has come to.
  pub walk_on : (m n k : ℕ) (v w : Value) → walk m v ≡ some w → k ≡ m + n → walk k v ≡ walk n w
  unfolding walk
  walk_on zero n k v w h e =
      let here : v ≡ w = cc in let rounds : k ≡ n = omega arith in rw (rounds, here) refl
  walk_on (suc m) n zero v w h e = absurd (omega arith)
  walk_on (suc m) n (suc k) v w h e = elim (Option-cases (step v)) [
    | inl q ↦ absurd (let bad = rw q at h in cc)
    | inr (u, q) ↦ rw q (walk_on m n k u w (rw q at h) (omega arith))
  ]

  pub no_start : (n : ℕ) (v : Value) → 0 < n → walk n null ≢ some v
  unfolding walk
  no_start zero v h r = absurd (omega arith)
  no_start (suc n) v h r = absurd (cc)

  -- A walk that comes back to where it was does not end.
  pub no_end :
      (fuel d m : ℕ) (v : Value) → m < fuel → walk (suc d) v ≡ some v → walk m v ≢ some null
  no_end zero d m v small cycle end = absurd (omega arith)
  no_end (suc fuel) d m v small cycle end = elim (Bool-cases (leb (suc d) m)) [
    | inl e ↦
        no_end fuel d (m - suc d) v (ground arith) cycle
          (sym (walk_on (suc d) (m - suc d) m v v cycle (ground arith)) ∙ end)
    | inr e ↦
        no_start (suc d - m) v (ground arith)
          (sym (walk_on m (suc d - m) (suc d) v null end (ground arith)) ∙ cycle)
  ]

  pub one_more :
      (n : ℕ) (v w x : Value) → walk n v ≡ some w → step w ≡ some x → walk (n + 1) v ≡ some x
  unfolding walk
  one_more n v w x h e = walk_on n 1 (n + 1) v w h (omega arith) ∙ rw e refl

  pub first_step :
      (n : ℕ) (v w : Value)
      → walk (suc n) v ≡ some w
      → (x : Value) × (step v ≡ some x) × (walk n x ≡ some w)
  unfolding walk
  first_step n v w h = elim (Option-cases (step v)) [
    | inl q ↦ absurd (let bad = rw q at h in cc)
    | inr (x, q) ↦ (x, q, rw q at h)
  ]

  pub step-fetch :
      (v x : Value) → step v ≡ some x → (q : Pair) × (fetch heap v ≡ some q) × (q.cdr ≡ x)
  step-fetch v x h = elim (Option-cases (fetch heap v)) [
    | inl e ↦ absurd (let bad = rw (e, step) at h in cc)
    | inr (q, e) ↦ elim (Bool-cases (is_typeset q.car)) [
      | inl t ↦ (q, e, (let same = rw (e, step, t) at h in cc))
      | inr t ↦ absurd (let bad = rw (e, step, t) at h in cc)
    ]
  ]
