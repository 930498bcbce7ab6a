-- ===== src/Tests/HashRuns.antt =====
-- charset.c and hash.c at concrete names.
use mudlle.Prelude.{◌↔◌, ℕ, ◌≡◌, ◌≢◌, refl, List, [], ◌∷◌, some, arith}
use mudlle.Prelude.Int.{pos}
use mudlle.Charset.{to_7lower, to_8lower, to_8upper, mem7icmp}
use mudlle.Charset.Laws.{folding_lem}
use mudlle.Hash.{symbol_7inhash}
use mudlle.Hash.Laws.{symbol_7inhash-mem7icmp}

-- "Foo" and "fOO"
abbrev foo : List ℕ
foo = 70 ∷ 111 ∷ 111 ∷ []

abbrev foo' : List ℕ
foo' = 102 ∷ 79 ∷ 79 ∷ []

same_foo : mem7icmp foo foo' 3 ≡ some (pos 0)
unfolding mem7icmp to_7lower
same_foo = refl

folding_lem_example :
    (to_7lower (to_7lower 201) ≡ to_7lower 201)
    × (to_7lower (to_8lower 201) ≡ to_7lower 201)
    × ((to_7lower (to_8upper 201) ≡ to_7lower 201) ↔ ◌≢◌ {A = ℕ} 201 181)
folding_lem_example = folding_lem 201 (omega arith)

symbol_7inhash-mem7icmp_example : symbol_7inhash foo 9 ≡ symbol_7inhash foo' 9
symbol_7inhash-mem7icmp_example = symbol_7inhash-mem7icmp foo foo' 9 refl same_foo
