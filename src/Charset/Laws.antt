-- ===== src/Charset/Laws.antt =====
-- What the conversion tables and the comparisons of charset.c decide.
use mudlle.Prelude.{
  ℕ, zero, suc, ◌≤◌, ◌<◌, ◌≡◌, ◌≢◌, refl, subst, ◌↔◌, List, [], ◌∷◌, map, true, some, arith, length,
  take, Each, ◌==◌, ◌||◌, ◌&&◌, not, if◌then◌else◌, false, ==_iff,
}
use mudlle.Prelude.Int.{pos}
use mudlle.Prelude.Bits.{checks, checks-at}
use mudlle.Charset.{
  to_7lower, to_8lower, to_8upper, str7icmp, mem7icmp, is_8alpha, is_8print, is_8digit, is_8namenum,
  is_8nospace, is_8space,
}

folding_table : checks (λ c. to_7lower (to_7lower c) == to_7lower c) 256 ≡ true
unfolding checks to_7lower
folding_table = refl

lower_table : checks (λ c. to_7lower (to_8lower c) == to_7lower c) 256 ≡ true
unfolding checks to_7lower to_8lower
lower_table = refl

upper_table : checks (λ c. c == 181 || to_7lower (to_8upper c) == to_7lower c) 256 ≡ true
unfolding checks to_7lower to_8upper
upper_table = refl

micro_sign : to_7lower (to_8upper 181) ≢ to_7lower 181
unfolding to_7lower to_8upper
micro_sign e = omega arith

-- For every byte, folding to lower-case ASCII twice is folding once, and changing the case first
-- does not change the result, except exactly for the upper case of the micro sign, byte 181.
pub folding_lem :
    (c : ℕ)
    → c < 256
    → (to_7lower (to_7lower c) ≡ to_7lower c)
      × (to_7lower (to_8lower c) ≡ to_7lower c)
      × ((to_7lower (to_8upper c) ≡ to_7lower c) ↔ (c ≢ 181))
folding_lem c h = (
  (==_iff _ _).0 (checks-at _ c h folding_table),
  (==_iff _ _).0 (checks-at _ c h lower_table),
  (
    λ e q. micro_sign (subst (λ b. to_7lower (to_8upper b) ≡ to_7lower b) q e),
    λ ne. ground (arith, checks-at _ c h upper_table),
  ),
)

-- Two blocks of at least n bytes compare as equal over n bytes exactly when their first n bytes
-- fold to the same bytes.
pub mem7icmp_iff :
    (s1 s2 : List ℕ) (n : ℕ)
    → n ≤ length s1
    → n ≤ length s2
    → (mem7icmp s1 s2 n ≡ some (pos 0)) ↔ (map to_7lower (take n s1) ≡ map to_7lower (take n s2))
unfolding mem7icmp
mem7icmp_iff s1 s2 zero h k = (λ _. refl, λ _. refl)
mem7icmp_iff [] s2 (suc n) h k = absurd (omega arith)
mem7icmp_iff (a ∷ s1) [] (suc n) h k = absurd (omega arith)
mem7icmp_iff (a ∷ s1) (b ∷ s2) (suc n) h k =
    let ih = mem7icmp_iff s1 s2 n (omega arith) (omega arith) in
    (λ e. ground (arith, ih), λ e. ground (arith, ih))

-- Two strings, none of whose bytes folds to NUL, compare as equal exactly when they fold to the
-- same bytes.
pub str7icmp_iff :
    (s1 s2 : List ℕ)
    → Each s1 (λ c. to_7lower c ≢ 0)
    → Each s2 (λ c. to_7lower c ≢ 0)
    → (str7icmp s1 s2 ≡ pos 0) ↔ (map to_7lower s1 ≡ map to_7lower s2)
unfolding str7icmp
str7icmp_iff [] [] h k = (λ _. refl, λ _. refl)
str7icmp_iff [] (b ∷ s2) h k = (λ e. ground (arith, k.0), λ e. ground arith)
str7icmp_iff (a ∷ s1) [] h k = (λ e. ground (arith, h.0), λ e. ground arith)
str7icmp_iff (a ∷ s1) (b ∷ s2) h k =
    let ih = str7icmp_iff s1 s2 h.1 k.1 in
    (λ e. ground (arith, ih, h.0), λ e. ground (arith, ih, h.0))

case_table :
    checks
      (λ c.
        to_8lower (to_8lower c) == to_8lower c
        && to_8upper (to_8lower c) == to_8upper c
        && (if is_8alpha c then is_8alpha (to_8lower c) else to_8lower c == c)
        && (c == 181 || (if is_8alpha c then is_8alpha (to_8upper c) else to_8upper c == c)))
      256
    ≡ true
unfolding checks to_8lower to_8upper is_8alpha
case_table = refl

class_table :
    checks
      (λ c.
        (if is_8alpha c then is_8print c && not (is_8digit c) else true)
        && (if is_8namenum c then is_8nospace c else true)
        && (if is_8nospace c then is_8print c && not (is_8space c) else true))
      256
    ≡ true
unfolding checks is_8alpha is_8print is_8digit is_8namenum is_8nospace is_8space
class_table = refl

-- For every byte: lower case is a fixed point, and upper case does not depend on the case; a change
-- of case takes letters to letters and keeps every other byte, except the upper case of the micro
-- sign, byte 181. Letters are printing characters and not digits, the characters of names are no
-- spaces, and what is no space is a printing character and not in the class of spaces.
pub case_lem :
    (c : ℕ)
    → c < 256
    → (to_8lower (to_8lower c) ≡ to_8lower c)
      × (to_8upper (to_8lower c) ≡ to_8upper c)
      × (is_8alpha c ≡ true → is_8alpha (to_8lower c) ≡ true)
      × (is_8alpha c ≡ false → to_8lower c ≡ c)
      × (c ≢ 181 → is_8alpha c ≡ true → is_8alpha (to_8upper c) ≡ true)
      × (c ≢ 181 → is_8alpha c ≡ false → to_8upper c ≡ c)
      × (is_8alpha c ≡ true → (is_8print c ≡ true) × (is_8digit c ≡ false))
      × (is_8namenum c ≡ true → is_8nospace c ≡ true)
      × (is_8nospace c ≡ true → (is_8print c ≡ true) × (is_8space c ≡ false))
case_lem c h =
    let cases = checks-at _ c h case_table in
    let classes = checks-at _ c h class_table in
    (
      ground (arith, cases),
      ground (arith, cases),
      λ a. ground (arith, cases),
      λ a. ground (arith, cases),
      λ ne a. ground (arith, cases),
      λ ne a. ground (arith, cases),
      λ a. ground (arith, classes),
      λ a. ground (arith, classes),
      λ a. ground (arith, classes),
    )
