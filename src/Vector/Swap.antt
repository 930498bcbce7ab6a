-- ===== src/Vector/Swap.antt =====
-- runtime/vector.c: the swap of two elements.
use mudlle.Prelude.{
  Bool, true, ℕ, zero, suc, ◌<◌, ◌≡◌, refl, ap, ◌∙◌, ◌⊎◌, inl, inr, List, [], ◌∷◌, false, some,
  ◌==◌, if◌then◌else◌, length, get_elem?, get_or, set, length-set, get_or-set, Bool-cases, arith,
}
use mudlle.Prelude.Int.{ℤ}
use mudlle.Error.{bad_type, bad_index, value_read_only, RuntimeError, raised, returned}
use mudlle.Vector.{Value, null, integer, vector, Vector, Heap, as_vector, vector_ref, vswap}
use mudlle.Vector.Access.{
  Names, index_cases, names_once, names_small, place_cases, integer_cases, ref_returned,
  ref_refused,
}
use mudlle.Vector.Update.{in_heap, ref_elsewhere}

-- Lists of one length with the same elements are the same.
list_ext :
    (xs ys : List Value)
    → length xs ≡ length ys
    → ((i : ℕ) → i < length xs → get_or xs i null ≡ get_or ys i null)
    → xs ≡ ys
list_ext [] [] h same = refl
list_ext [] (y ∷ ys) h same = absurd (omega arith)
list_ext (x ∷ xs) [] h same = absurd (omega arith)
list_ext (x ∷ xs) (y ∷ ys) h same =
    let head = same 0 (omega arith) in
    let tail = list_ext xs ys (omega arith) (λ i k. same (suc i) (omega arith)) in
    rw (head, tail) refl

abbrev exchange : List Value → ℕ → ℕ → List Value
exchange items a b = set (set items a (get_or items b null)) b (get_or items a null)

get_or-exchange :
    (items : List Value) (a b i : ℕ)
    → a < length items
    → b < length items
    → get_or (exchange items a b) i null ≡ (
        if b == i
        then get_or items a null
        else if a == i
        then get_or items b null
        else get_or items i null)
get_or-exchange items a b i h k =
    get_or-set (set items a (get_or items b null)) b i (get_or items a null) null
      (grind (arith, length-set items a (get_or items b null)))
    ∙ rw (get_or-set items a i (get_or items b null) null h) refl

length-exchange : (items : List Value) (a b : ℕ) → length (exchange items a b) ≡ length items
length-exchange items a b =
    length-set (set items a (get_or items b null)) b (get_or items a null)
    ∙ length-set items a (get_or items b null)

exchange_twice :
    (items : List Value) (a b : ℕ)
    → a < length items
    → b < length items
    → exchange (exchange items a b) a b ≡ items
exchange_twice items a b h k =
    let once = exchange items a b in
    let size = length-exchange items a b in
    list_ext (exchange once a b) items (length-exchange once a b ∙ size) (λ i small.
      get_or-exchange once a b i (grind (arith, size)) (grind (arith, size))
      ∙ rw
          (
            get_or-exchange items a b a h k,
            get_or-exchange items a b b h k,
            get_or-exchange items a b i h k,
          )
          (grind arith))

set_back {ℓ} :
    {A : Type ℓ} (xs : List A) (i : ℕ) (x y : A)
    → get_elem? xs i ≡ some x
    → set (set xs i y) i x ≡ xs
set_back [] i x y h = refl
set_back (z ∷ xs) zero x y h = let same : z ≡ x = cc in rw same refl
set_back (z ∷ xs) (suc i) x y h = ap (λ zs. z ∷ zs) (set_back xs i x y h)

abbrev put : Heap → ℕ → Vector → List Value → Heap
put heap a vec items = set heap a (record vec { items = items })

swap_returned :
    (heap : Heap) (a i j : ℕ) (vec : Vector) (m n : ℤ)
    → get_elem? heap a ≡ some vec
    → Names m (length vec.items) i
    → Names n (length vec.items) j
    → vec.readonly ≡ false
    → vswap heap (vector a) (integer m) (integer n)
      ≡ returned (vector a, put heap a vec (exchange vec.items i j))
unfolding vswap
swap_returned heap a i j vec m n found h k writable = elim (index_cases m vec) [
  | inr (bad, no_place) ↦ absurd (no_place i h)
  | inl (i', h', e) ↦ elim (index_cases n vec) [
    | inr (bad, no_place) ↦ absurd (no_place j k)
    | inl (j', k', q) ↦
        let same : i ≡ i' = names_once m (length vec.items) i i' h h' in
        let same' : j ≡ j' = names_once n (length vec.items) j j' k k' in
        rw (found, as_vector, vswap) (rw e (rw q (rw writable (rw (same, same') refl))))
  ]
]

-- The elements at two indices have changed places, another vector is as it was, and a second swap
-- brings the first heap back.
abbrev pub Swapped : Heap → Value → Value → Value → Heap → Type 0
Swapped heap v idx0 idx1 heap' =
    (vector_ref heap' v idx0 ≡ vector_ref heap v idx1)
    × (vector_ref heap' v idx1 ≡ vector_ref heap v idx0)
    × ((b : ℕ) (m : Value)
        → ¬ (v ≡ vector b)
        → vector_ref heap' (vector b) m ≡ vector_ref heap (vector b) m)
    × (vswap heap' v idx0 idx1 ≡ returned (v, heap))

swap-Swapped :
    (heap : Heap) (a i j : ℕ) (vec : Vector) (m n : ℤ)
    → get_elem? heap a ≡ some vec
    → Names m (length vec.items) i
    → Names n (length vec.items) j
    → vec.readonly ≡ false
    → Swapped heap (vector a) (integer m) (integer n) (put heap a vec (exchange vec.items i j))
swap-Swapped heap a i j vec m n found h k writable =
    let items' = exchange vec.items i j in
    let vec' : Vector = record vec { items = items' } in
    let heap' = put heap a vec items' in
    let found' = in_heap heap a vec vec' found in
    let size = length-exchange vec.items i j in
    let small = names_small m (length vec.items) i h in
    let small' = names_small n (length vec.items) j k in
    let h' : Names m (length items') i = rw size h in
    let k' : Names n (length items') j = rw size k in
    (
      ref_returned heap' a vec' found' m i h'
          ∙ rw (get_or-exchange vec.items i j i small small')
              (rw (ref_returned heap a vec found n j k) (grind arith)),
      ref_returned heap' a vec' found' n j k'
          ∙ rw (get_or-exchange vec.items i j j small small')
              (rw (ref_returned heap a vec found m i h) (grind arith)),
      λ b l apart. ref_elsewhere heap a b vec' l (λ q. apart (ap vector q)),
      swap_returned heap' a i j vec' m n found' h' k' writable
          ∙ rw (exchange_twice vec.items i j small small')
              (rw (set_back heap a vec vec' found) refl),
    )

-- The value is a vector with this read-only flag.
abbrev pub Flagged : Heap → Value → Bool → Type 0
Flagged heap v flag =
    (a : ℕ) × (vec : Vector) × (v ≡ vector a)
    × (get_elem? heap a ≡ some vec)
    × (vec.readonly ≡ flag)

abbrev pub SwapOutcome : Heap → Value → Value → Value → Type 0
SwapOutcome heap v idx0 idx1 =
    ((heap' : Heap) × (vswap heap v idx0 idx1 ≡ returned (v, heap'))
      × Flagged heap v false
      × Swapped heap v idx0 idx1 heap')
    ⊎ ((e : RuntimeError) × (vswap heap v idx0 idx1 ≡ raised e)
        × ((vector_ref heap v idx0 ≡ raised e)
            ⊎ (vector_ref heap v idx1 ≡ raised e)
            ⊎ ((e ≡ value_read_only) × Flagged heap v true)))

swap_at :
    (heap : Heap) (a : ℕ) (vec : Vector) (m n : ℤ)
    → get_elem? heap a ≡ some vec
    → SwapOutcome heap (vector a) (integer m) (integer n)
unfolding vswap
swap_at heap a vec m n found = elim (index_cases m vec) [
  | inr (bad, no_place) ↦ inr (
    bad_index,
    rw (found, as_vector, vswap) (rw bad refl),
    inl (ref_refused heap a vec found m no_place),
  )
  | inl (i, h, e) ↦ elim (index_cases n vec) [
    | inr (bad, no_place) ↦ inr (
      bad_index,
      rw (found, as_vector, vswap) (rw e (rw bad refl)),
      inr (inl (ref_refused heap a vec found n no_place)),
    )
    | inl (j, k, q) ↦ elim (Bool-cases vec.readonly) [
      | inl fixed ↦ inr (
        value_read_only,
        rw (found, as_vector, vswap) (rw e (rw q (rw fixed refl))),
        inr (inr (refl, (a, vec, refl, found, fixed))),
      )
      | inr writable ↦ inl (
        put heap a vec (exchange vec.items i j),
        swap_returned heap a i j vec m n found h k writable,
        (a, vec, refl, found, writable),
        swap-Swapped heap a i j vec m n found h k writable,
      )
    ]
  ]
]

-- A swap exchanges the elements of a vector that is not read-only, for any two indices, also equal
-- ones, leaves other vectors as they were, and is undone by a second swap; else it raises an error,
-- which reading one of the elements raises too, or which says that the vector is read-only, as it
-- is.
pub vswap-Swapped : (heap : Heap) (v idx0 idx1 : Value) → SwapOutcome heap v idx0 idx1
unfolding vswap vector_ref
vswap-Swapped heap v idx0 idx1 = elim (place_cases heap v) [
  | inr bad ↦ inr (bad_type, rw (bad, vswap) refl, inl (rw (bad, vector_ref) refl))
  | inl (a, vec, here, found) ↦ elim (integer_cases idx0) [
    | inr bad ↦ inr (
      bad_type,
      rw here (rw (found, as_vector, vswap) (rw bad refl)),
      inl (rw here (rw (found, as_vector, vector_ref) (rw bad refl))),
    )
    | inl (m, number) ↦ elim (integer_cases idx1) [
      | inr bad ↦ inr (
        bad_type,
        rw (here, number) (rw (found, as_vector, vswap) (rw bad refl)),
        inr (inl (rw here (rw (found, as_vector, vector_ref) (rw bad refl)))),
      )
      | inl (n, number') ↦ rw (here, number, number') (swap_at heap a vec m n found)
    ]
  ]
]
