-- ===== src/Tests/PairRuns.antt =====
-- runtime/list.c at concrete heaps.
use mudlle.Prelude.{ℕ, ◌≤◌, ◌≡◌, ◌↔◌, refl, [], ◌∷◌, Bool, true, false, some}
use mudlle.Error.{Result, returned, raised, loop}
use mudlle.Pair.{Value, null, integer, pair, Pair, Heap, check_proper_list, list, set_cdrb}
use mudlle.Pair.Walk.{walk}
use mudlle.Pair.Proper.{Verdict, check_proper_list-Verdict}

abbrev link : Value → Value → Pair
link car cdr = record { car = car; cdr = cdr; readonly = false }

-- A list of two integers, and a loop of two pairs.
abbrev two : Heap
two = link (integer 2) null ∷ link (integer 1) (pair 0) ∷ []

abbrev ring : Heap
ring = link (integer 2) (pair 1) ∷ link (integer 1) (pair 0) ∷ []

abbrev any : Value → Bool
any v = true

check_proper_list-Verdict_example :
    (result : Result ℕ) × (check_proper_list two any 10 (pair 1) ≡ some result)
    × Verdict two any 10 (pair 1) result
    × ((n : ℕ) → (result ≡ returned n) ↔ ((n ≤ 10) × (walk two any n (pair 1) ≡ some null)))
check_proper_list-Verdict_example = check_proper_list-Verdict two any 10 (pair 1)

two_pairs : check_proper_list two any 10 (pair 1) ≡ some (returned 2)
unfolding check_proper_list
two_pairs = refl

ring_loops : check_proper_list ring any 10 (pair 1) ≡ some (raised loop)
unfolding check_proper_list
ring_loops = refl

listed : list (integer 1 ∷ integer 2 ∷ []) [] ≡ (pair 1, two)
unfolding list
listed = refl

closed : set_cdrb two (pair 0) (pair 1) ≡ returned (pair 1, ring)
unfolding set_cdrb
closed = refl
