-- ===== src/Alloc.antt =====
-- alloc.c: the assertion of gc_allocate on the size of an object, for vectors. `none` is the failed
-- assertion. An object has a header of 16 bytes, and a value has 8; sizes are 64-bit words.
use mudlle.Prelude.{
  ℕ, ◌+◌, ◌-◌, ◌*◌, ◌/◌, ◌%◌, ◌^◌, ◌≤◌, ◌<◌, ◌≡◌, refl, true, false, List, Option, some, none, leb,
  le→leb, guard, ◌>>◌, replicate, arith,
}

abbrev pub max_mudlle_object_size : ℕ
max_mudlle_object_size = 16 * 1024 * 1024

-- `MAX_VECTOR_SIZE`
abbrev pub max_vector_size : ℕ
max_vector_size = (max_mudlle_object_size - 16) / 8

-- `sizeof (struct obj) + entries * sizeof (value)`
abbrev pub record_size : ℕ → ℕ
record_size entries = (16 + entries * 8) % 2 ^ 64

-- `null` is the null pointer, which a new vector is full of. The length of a vector comes from its
-- size; an object that wraps around to less than its header is undefined behaviour.
unfoldable pub alloc_vector {ℓ} : {A : Type ℓ} → A → ℕ → Option (List A)
alloc_vector null entries = do
  guard (leb 16 (record_size entries))
  guard (leb (record_size entries) max_mudlle_object_size)
  some (replicate ((record_size entries - 16) / 8) null)

pub alloc_vector-fits {ℓ} :
    {A : Type ℓ} (null : A) (entries : ℕ)
    → entries ≤ max_vector_size
    → alloc_vector null entries ≡ some (replicate entries null)
unfolding alloc_vector
alloc_vector-fits null entries h =
    let low : leb 16 (record_size entries) ≡ true = le→leb 16 (record_size entries) (omega arith) in
    let high : leb (record_size entries) max_mudlle_object_size ≡ true =
      le→leb (record_size entries) max_mudlle_object_size (omega arith) in
    let size : (record_size entries - 16) / 8 ≡ entries = omega arith in rw (low, high, size) refl

-- A vector that is too large, but not so large that its size wraps around.
pub alloc_vector-none {ℓ} :
    {A : Type ℓ} (null : A) (entries : ℕ)
    → max_vector_size < entries
    → entries < 2 ^ 60
    → alloc_vector null entries ≡ none
unfolding alloc_vector
alloc_vector-none null entries h k =
    let low : leb 16 (record_size entries) ≡ true = le→leb 16 (record_size entries) (omega arith) in
    let high : leb (record_size entries) max_mudlle_object_size ≡ false = ground arith in
    rw (low, high) refl
