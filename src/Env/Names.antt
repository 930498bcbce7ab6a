-- ===== src/Env/Names.antt =====
-- The C library's strcasecmp, by which env.c and module.c compare names, against a description of
-- names that are the same but for the case of the letters from A to Z.
use mudlle.Prelude.{ℕ, ◌+◌, ◌≤◌, ◌≡◌, ◌⊎◌, ◌↔◌, refl, List, [], ◌∷◌, true, arith}
use mudlle.Env.{ascii_lower, strcase_eq}

abbrev pub UpperOf : ℕ → ℕ → Type 0
UpperOf c d = (65 ≤ c) × (c ≤ 90) × (d ≡ c + 32)

abbrev pub SameLetter : ℕ → ℕ → Type 0
SameLetter c d = (c ≡ d) ⊎ UpperOf c d ⊎ UpperOf d c

abbrev pub SameName : List ℕ → List ℕ → Type 0
SameName [] [] = Unit
SameName [] (d ∷ b) = ⊥
SameName (c ∷ a) [] = ⊥
SameName (c ∷ a) (d ∷ b) = SameLetter c d × SameName a b

ascii_lower_iff : (c d : ℕ) → (ascii_lower c ≡ ascii_lower d) ↔ SameLetter c d
ascii_lower_iff c d = ground arith

pub strcase_eq_iff : (a b : List ℕ) → (strcase_eq a b ≡ true) ↔ SameName a b
unfolding strcase_eq
strcase_eq_iff [] [] = (λ h. tt, λ h. refl)
strcase_eq_iff [] (d ∷ b) = (λ h. cc, λ h. absurd h)
strcase_eq_iff (c ∷ a) [] = (λ h. cc, λ h. absurd h)
strcase_eq_iff (c ∷ a) (d ∷ b) = ground (arith, ascii_lower_iff c d, strcase_eq_iff a b)
