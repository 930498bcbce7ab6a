-- ===== src/Tests/VectorRuns.antt =====
-- runtime/vector.c at concrete heaps.
use mudlle.Prelude.{ℕ, ◌+◌, ◌≡◌, refl, List, [], ◌∷◌, true, false, some}
use mudlle.Prelude.Int.{pos, negsuc, ◌+ℤ◌}
use mudlle.Error.{raised, returned, bad_type, bad_index, bad_value, value_read_only}
use mudlle.Alloc.{max_vector_size}
use mudlle.Vector.{
  Value, null, integer, pair, vector, Vector, Heap, make_vector, vfillb, vector_ref, vector_set,
  vswap,
}
use mudlle.Vector.Indexed.{code_indexed_vector, indexed_sequence}
use mudlle.Vector.Built.{Built, indexed_vector-Built}
use mudlle.Vector.Update.{Updated, vector_set-Updated}
use mudlle.Vector.Swap.{SwapOutcome, vswap-Swapped}

abbrev num : ℕ → Value
num n = integer (pos n)

-- A vector of three elements, and a read-only one.
abbrev three : Vector
three = record { items = num 7 ∷ num 8 ∷ num 9 ∷ []; readonly = false; immutable = false }

abbrev fixed : Vector
fixed = record { items = num 1 ∷ []; readonly = true; immutable = true }

abbrev two_vectors : Heap
two_vectors = three ∷ fixed ∷ []

-- An index, then the one after it, and an earlier one again.
abbrev scattered : List Value
scattered = pair true (num 2) (num 5) ∷ pair true null (num 6) ∷ pair true (num 2) (num 4) ∷ []

indexed_vector-Built_example : Built scattered true two_vectors
indexed_vector-Built_example = indexed_vector-Built scattered true two_vectors

vector_set-Updated_example : Updated two_vectors (vector 0) (integer (negsuc 0)) (num 5)
vector_set-Updated_example = vector_set-Updated two_vectors (vector 0) (integer (negsuc 0)) (num 5)

vswap-Swapped_example : SwapOutcome two_vectors (vector 0) (num 0) (integer (negsuc 0))
vswap-Swapped_example = vswap-Swapped two_vectors (vector 0) (num 0) (integer (negsuc 0))

from_the_end : vector_ref two_vectors (vector 0) (integer (negsuc 1)) ≡ returned (num 8)
unfolding vector_ref ◌+ℤ◌
from_the_end = refl

before_the_start : vector_ref two_vectors (vector 0) (integer (negsuc 3)) ≡ raised bad_index
unfolding vector_ref ◌+ℤ◌
before_the_start = refl

-- Types are checked before indices, and the flag last.
types_first : vswap two_vectors (vector 1) (num 9) null ≡ raised bad_type
unfolding vswap
types_first = refl

indices_next : vector_set two_vectors (vector 1) (num 1) null ≡ raised bad_index
unfolding vector_set
indices_next = refl

flag_last : vector_set two_vectors (vector 1) (num 0) null ≡ raised value_read_only
unfolding vector_set
flag_last = refl

filled :
    vfillb two_vectors (vector 0) null
    ≡ returned (vector 0, record three { items = null ∷ null ∷ null ∷ [] } ∷ fixed ∷ [])
unfolding vfillb
filled = refl

too_large : make_vector (num (max_vector_size + 1)) [] ≡ raised bad_value
unfolding make_vector
too_large = refl

gathered :
    indexed_sequence scattered []
    ≡ some (
        returned (
          vector 0,
          (record { items = null ∷ null ∷ num 4 ∷ num 6 ∷ []; readonly = true; immutable = true }
              ∷ []),
        ))
unfolding indexed_sequence ◌+ℤ◌
gathered = refl

not_a_pair : code_indexed_vector (num 1 ∷ []) [] ≡ some (raised bad_type)
unfolding code_indexed_vector
not_a_pair = refl
