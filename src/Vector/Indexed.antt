-- ===== src/Vector/Indexed.antt =====
-- runtime/vector.c: vectors from pairs of an index and an element. The `goto` to the error is an
-- error that is passed on.
use mudlle.Prelude.{
  ℕ, ◌+◌, List, [], ◌∷◌, Bool, true, false, ◌&&◌, Option, none, some, ltb, leb, if◌then◌else◌,
  length, set, ◌>>=◌,
}
use mudlle.Prelude.Int.{ℤ, pos, negsuc, ◌+ℤ◌}
use mudlle.Error.{bad_type, bad_index, Result, raised, returned}
use mudlle.Alloc.{max_vector_size}
use mudlle.Vector.{Value, null, integer, pair, vector, other, Vector, Heap, as_vector, alloc_vector}

-- The index of a pair, after the index of the one before it.
unfoldable pub next_index : Value → ℤ → Result ℤ
next_index (pair immutable null cdr) idx = returned (idx +ℤ pos 1)
next_index (pair immutable (integer n) cdr) idx = returned n
next_index (pair immutable (pair i car d) cdr) idx = raised bad_type
next_index (pair immutable (vector a) cdr) idx = raised bad_type
next_index (pair immutable (other i a) cdr) idx = raised bad_type
next_index null idx = raised bad_type
next_index (integer n) idx = raised bad_type
next_index (vector a) idx = raised bad_type
next_index (other immutable a) idx = raised bad_type

-- The first loop: the size of the result.
unfoldable pub size_loop : List Value → ℤ → ℕ → Result ℕ
unfolding next_index
size_loop [] idx size = returned size
size_loop (p ∷ args) idx size = elim (next_index p idx) [
  | raised e ↦ raised e
  | returned (negsuc n) ↦ raised bad_index
  | returned (pos n) ↦
      let rest = size_loop args (pos n) (if leb size n then n + 1 else size) in
      if leb max_vector_size n then raised bad_index else rest
]

abbrev pub immutablep : Heap → Value → Bool
immutablep heap null = true
immutablep heap (integer n) = true
immutablep heap (pair immutable car cdr) = immutable
immutablep heap (vector a) = elim (as_vector heap (vector a)) [
  | raised e ↦ false
  | returned place ↦ place.1.immutable
]
immutablep heap (other immutable a) = immutable

-- The elements and `immutable` after the second loop; `none` is a write outside the vector, or a
-- value that is no pair.
unfoldable pub place_loop : Heap → List Value → ℤ → List Value → Bool → Option (List Value × Bool)
unfolding next_index
place_loop heap [] idx items immutable = some (items, immutable)
place_loop heap (pair i car cdr ∷ args) idx items immutable =
    elim (next_index (pair i car cdr) idx) [
      | raised e ↦ none
      | returned (negsuc n) ↦ none
      | returned (pos n) ↦
          let rest =
            place_loop heap args (pos n) (set items n cdr) (immutable && immutablep heap cdr) in
          if ltb n (length items) then rest else none
    ]
place_loop heap (null ∷ args) idx items immutable = none
place_loop heap (integer n ∷ args) idx items immutable = none
place_loop heap (vector a ∷ args) idx items immutable = none
place_loop heap (other i a ∷ args) idx items immutable = none

-- The arguments are the elements of a vector.
unfoldable pub indexed_vector : List Value → Bool → Heap → Option (Result (Value × Heap))
unfolding size_loop place_loop alloc_vector
indexed_vector args readonly heap = elim (size_loop args (negsuc 0) 0) [
  | raised e ↦ some (raised e)
  | returned size ↦ (do
    let (result, heap') = alloc_vector size heap
    let fresh : Option (ℕ × Vector) = elim (as_vector heap' result) [
      | raised e ↦ none
      | returned place ↦ some place
    ]
    place ← fresh
    filled ← place_loop heap' args (negsuc 0) place.1.items readonly
    let plain : Vector = record place.1 { items = filled.0 }
    let flagged : Vector = record plain {
      readonly = true;
      immutable = if filled.1 then true else plain.immutable;
    }
    some (returned (result, set heap' place.0 (if readonly then flagged else plain))))
]

unfoldable pub code_indexed_vector : List Value → Heap → Option (Result (Value × Heap))
unfolding indexed_vector
code_indexed_vector args heap = indexed_vector args false heap

unfoldable pub indexed_sequence : List Value → Heap → Option (Result (Value × Heap))
unfolding indexed_vector
indexed_sequence args heap = indexed_vector args true heap

unfoldable pub vindexed_sequence : Value → Heap → Option (Result (Value × Heap))
unfolding indexed_vector
vindexed_sequence args heap = elim (as_vector heap args) [
  | raised e ↦ some (raised e)
  | returned place ↦ indexed_vector place.1.items true heap
]
