-- ===== src/Vector.antt =====
-- runtime/vector.c: vectors. The heap is the list of the vectors, and the address of a vector is
-- its position. Pairs are only read here, and stand with their elements; other objects are `other`.
-- A pair and an other object carry their immutable flag. The messages of errors are not modelled.
pub mod Access
pub mod Built
pub mod Indexed
pub mod Placed
pub mod Swap
pub mod Update
use mudlle.Prelude.{
  ℕ, zero, suc, ◌+◌, ◌-◌, ◌*◌, ◌/◌, List, [], ◌∷◌, ◌++◌, Bool, true, false, ◌&&◌, not, Option, none,
  some, ◌==◌, ltb, leb, if◌then◌else◌, length, get_elem?, get_or, set, replicate,
}
use mudlle.Prelude.Int.{ℤ, pos, negsuc, ◌+ℤ◌}
use mudlle.Alloc.{max_vector_size}
use mudlle.Error.{
  RuntimeError, bad_type, bad_value, bad_index, value_read_only, Result, raised, returned, ◌>>=◌,
  ◌>>◌, require,
}

pub data Value : Type 0 where
  null : Value
  integer : ℤ → Value
  pair : Bool → Value → Value → Value
  vector : ℕ → Value
  other : Bool → ℕ → Value

-- `struct vector`
pub record Vector : Type 0 where
  pub items : List Value
  pub readonly : Bool
  pub immutable : Bool

abbrev pub Heap : Type 0
Heap = List Vector

-- A vector is passed with its address.
abbrev pub as_vector : Heap → Value → Result (ℕ × Vector)
as_vector heap (vector a) = elim (get_elem? heap a) [
  | none ↦ raised bad_type
  | some vec ↦ returned (a, vec)
]
as_vector heap null = raised bad_type
as_vector heap (integer n) = raised bad_type
as_vector heap (pair immutable car cdr) = raised bad_type
as_vector heap (other immutable a) = raised bad_type

abbrev pub as_integer : Value → Result ℤ
as_integer (integer n) = returned n
as_integer null = raised bad_type
as_integer (pair immutable car cdr) = raised bad_type
as_integer (vector a) = raised bad_type
as_integer (other immutable a) = raised bad_type

-- `vec->data[i] = x`
abbrev pub write : Heap → ℕ → Vector → ℕ → Value → Heap
write heap a vec i x = set heap a (record vec { items = set vec.items i x })

-- The object is new, with only null for elements. An empty one is immutable. No caller here asks
-- for more than MAX_VECTOR_SIZE elements, so that the size of the object passes its check.
unfoldable pub alloc_vector : ℕ → Heap → Value × Heap
alloc_vector size heap = (
  vector (length heap),
  heap
      ++ (record { items = replicate size null; readonly = size == 0; immutable = size == 0 } ∷ []),
)

unfoldable pub ct_vector_index : ℤ → Vector → Bool → Result ℕ
ct_vector_index idx vec beyond =
    let len = length vec.items in
    let idx' : ℤ = elim idx [ pos n ↦ pos n | negsuc n ↦ negsuc n +ℤ pos len ] in
    elim idx' [
      | negsuc n ↦ raised bad_index
      | pos n ↦ if leb (len + (if beyond then 1 else 0)) n then raised bad_index else returned n
    ]

unfoldable pub vectorp : Heap → Value → Bool
vectorp heap v = elim (as_vector heap v) [ raised e ↦ false | returned place ↦ true ]

unfoldable pub make_vector : Value → Heap → Result (Value × Heap)
make_vector msize heap = do
  n ← as_integer msize
  elim n [
    | negsuc k ↦ raised bad_value
    | pos size ↦
        if ltb max_vector_size size then raised bad_value else returned (alloc_vector size heap)
  ]

unfoldable pub vlength : Heap → Value → Result ℕ
vlength heap v = do place ← as_vector heap v; returned (length place.1.items)

-- `while (len-- > 0) vec->data[len] = x`
unfoldable pub fill_loop : ℕ → List Value → Value → List Value
fill_loop zero items x = items
fill_loop (suc len) items x = fill_loop len (set items len x) x

unfoldable pub vfillb : Heap → Value → Value → Result (Value × Heap)
unfolding fill_loop
vfillb heap v x = do
  place ← as_vector heap v
  let len = length place.1.items
  let filled : Vector = record place.1 { items = fill_loop len place.1.items x }
  if len == 0 then returned (v, heap) else (do
    require (not place.1.readonly) value_read_only
    returned (v, set heap place.0 filled))

unfoldable pub vector_ref : Heap → Value → Value → Result Value
unfolding ct_vector_index
vector_ref heap v midx = do
  place ← as_vector heap v
  n ← as_integer midx
  idx ← ct_vector_index n place.1 false
  returned (get_or place.1.items idx null)

unfoldable pub vector_set : Heap → Value → Value → Value → Result (Value × Heap)
unfolding ct_vector_index
vector_set heap v midx x = do
  place ← as_vector heap v
  n ← as_integer midx
  idx ← ct_vector_index n place.1 false
  require (not place.1.readonly) value_read_only
  returned (x, write heap place.0 place.1 idx x)

-- The types of all arguments are checked before the indices.
unfoldable pub vswap : Heap → Value → Value → Value → Result (Value × Heap)
unfolding ct_vector_index
vswap heap v idx0 idx1 = do
  place ← as_vector heap v
  m ← as_integer idx0
  n ← as_integer idx1
  a ← ct_vector_index m place.1 false
  b ← ct_vector_index n place.1 false
  require (not place.1.readonly) value_read_only
  let items = place.1.items
  let swapped : Vector = record place.1 {
    items = set (set items a (get_or items b null)) b (get_or items a null);
  }
  returned (v, set heap place.0 swapped)

-- `vector`: the caller has made a vector of the arguments.
unfoldable pub code_vector : Value → Heap → Value × Heap
code_vector args heap = (args, heap)

unfoldable pub sequence : Value → Heap → Value × Heap
sequence args heap = elim (as_vector heap args) [
  | raised e ↦ (args, heap)
  | returned place ↦ (args, set heap place.0 (record place.1 { readonly = true }))
]
