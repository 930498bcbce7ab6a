-- ===== src/Tests/DlistRuns.antt =====
-- dlist.c at a concrete store: the head at 1 and one node at 2.
use mudlle.Prelude.{◌≡◌, refl, some, none, [], ◌∷◌, arith, ◌==◌, if◌then◌else◌}
use mudlle.Dlist.{Store, count_loop, dlist_entries}
use mudlle.Dlist.Ring.{IsRing, occurs}
use mudlle.Dlist.Operations.{Edits, ring-Edits}

abbrev pair : Store
pair = record {
  next = λ a. if a == 1 then some 2 else if a == 2 then some 1 else none;
  prev = λ a. if a == 1 then some 2 else if a == 2 then some 1 else none;
}

pair-IsRing : IsRing pair 1 (2 ∷ [])
unfolding occurs
pair-IsRing = record { linked = (refl, refl, (refl, refl)); distinct = λ q. ground arith }

ring-Edits_example : Edits pair 1 3 2 [] []
ring-Edits_example = ring-Edits pair 1 3 2 [] [] pair-IsRing (refl, refl)

counted : dlist_entries 2 1 pair ≡ some 1
unfolding dlist_entries count_loop
counted = refl
