-- ===== src/Tests/CallocRuns.antt =====
-- calloc.c at a concrete block, which starts at 4096.
use mudlle.Prelude.{ℕ, ◌<◌, ◌≡◌, refl, some, none, [], ◌∷◌, arith, inr}
use mudlle.Calloc.{Memblock, make_block, new_block, allocate, free_block}
use mudlle.Calloc.Sound.{IsSound, new_block-IsSound, piece, allocate-IsSound}

abbrev block : Memblock
block = record { data_start = 4096; pos = 4096; end_of_block = 20456 }

block-IsSound : IsSound (block ∷ []) []
unfolding new_block make_block
block-IsSound = new_block-IsSound 4096 refl

allocate-IsSound_example :
    (allocate 32768 (block ∷ []) 0 ≡ (none, block ∷ []))
    × (0 < 13
        → (p : ℕ) × ((allocate 32768 (block ∷ []) 13).0 ≡ some p)
          × IsSound (allocate 32768 (block ∷ []) 13).1 (piece p 13 ∷ []))
unfolding make_block
allocate-IsSound_example =
    allocate-IsSound 32768 13 block [] [] block-IsSound (refl, (inr (omega arith), tt))

taken : (allocate 32768 (block ∷ []) 13).1 ≡ record block { pos = 4112 } ∷ []
unfolding allocate make_block
taken = refl

freed : free_block (block ∷ record block { data_start = 32768 } ∷ []) ≡ 4096 ∷ 32768 ∷ []
unfolding free_block
freed = refl
