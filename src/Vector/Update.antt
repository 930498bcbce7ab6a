-- ===== src/Vector/Update.antt =====
-- runtime/vector.c: what a write changes, and when it is refused.
use mudlle.Prelude.{
  ℕ, zero, suc, List, [], ◌∷◌, ◌≡◌, ◌≢◌, refl, sym, ◌∙◌, ◌⊎◌, inl, inr, true, false, some, length,
  get_elem?, set, length-set, get_elem?-set_ne, get_or-set, ◌<◌, Bool-cases, arith, ◌==◌,
}
use mudlle.Prelude.Int.{ℤ}
use mudlle.Error.{RuntimeError, bad_type, bad_index, value_read_only, raised, returned}
use mudlle.Vector.{
  Value, null, integer, vector, Vector, Heap, as_vector, as_integer, write, vector_ref, vector_set,
}
use mudlle.Vector.Access.{
  Names, index_cases, names_small, place_cases, integer_cases, ref_returned, ref_refused,
  set_returned, set_refused, set_read_only,
}

-- A value is a vector, and an index names a place in it.
abbrev pub Site : Heap → Value → Value → ℕ → Vector → ℕ → Type 0
Site heap v midx a vec i =
    (v ≡ vector a)
    × (get_elem? heap a ≡ some vec)
    × ((n : ℤ) × (midx ≡ integer n) × Names n (length vec.items) i)

-- The same for reads before and after, but for the place that is written.
abbrev pub Written : Heap → Heap → ℕ → ℕ → ℕ → Value → Type 0
Written heap heap' a len i x =
    ((m : ℤ) → Names m len i → vector_ref heap' (vector a) (integer m) ≡ returned x)
    × ((m : ℤ)
        → ¬ Names m len i
        → vector_ref heap' (vector a) (integer m) ≡ vector_ref heap (vector a) (integer m))
    × ((b : ℕ) (m : ℤ)
        → a ≢ b
        → vector_ref heap' (vector b) (integer m) ≡ vector_ref heap (vector b) (integer m))

-- Why a write is refused.
abbrev pub Refused : Heap → Value → Value → RuntimeError → Type 0
Refused heap v midx e =
    (e ≡ bad_type) × ((as_vector heap v ≡ raised bad_type) ⊎ (as_integer midx ≡ raised bad_type))
    ⊎ (e ≡ bad_index)
      × ((a : ℕ) × (vec : Vector) × (n : ℤ) × (v ≡ vector a)
          × (get_elem? heap a ≡ some vec)
          × (midx ≡ integer n)
          × ((i : ℕ) → ¬ Names n (length vec.items) i))
    ⊎ (e ≡ value_read_only)
      × ((a : ℕ) × (vec : Vector) × (i : ℕ) × Site heap v midx a vec i × (vec.readonly ≡ true))

abbrev pub Updated : Heap → Value → Value → Value → Type 0
Updated heap v midx x =
    ((a : ℕ) × (vec : Vector) × (i : ℕ) × (heap' : Heap) × Site heap v midx a vec i
      × (vec.readonly ≡ false)
      × (vector_set heap v midx x ≡ returned (x, heap'))
      × Written heap heap' a (length vec.items) i x)
    ⊎ ((e : RuntimeError) × (vector_set heap v midx x ≡ raised e) × Refused heap v midx e)

pub in_heap {ℓ} :
    {A : Type ℓ} (xs : List A) (i : ℕ) (x y : A)
    → get_elem? xs i ≡ some x
    → get_elem? (set xs i y) i ≡ some y
in_heap [] i x y h = absurd (cc)
in_heap (z ∷ xs) zero x y h = refl
in_heap (z ∷ xs) (suc i) x y h = in_heap xs i x y h

pub ref_elsewhere :
    (heap : Heap) (a b : ℕ) (vec : Vector) (m : Value)
    → a ≢ b
    → vector_ref (set heap a vec) (vector b) m ≡ vector_ref heap (vector b) m
unfolding vector_ref
ref_elsewhere heap a b vec m h = rw (get_elem?-set_ne heap vec h, as_vector, vector_ref) refl

ne→false : (i j : ℕ) → i ≢ j → (i == j) ≡ false
ne→false i j h = ground arith

write-Written :
    (heap : Heap) (a : ℕ) (vec : Vector) (i : ℕ) (x : Value)
    → get_elem? heap a ≡ some vec
    → i < length vec.items
    → Written heap (write heap a vec i x) a (length vec.items) i x
write-Written heap a vec i x found small =
    let vec' : Vector = record vec { items = set vec.items i x } in
    let found' = in_heap heap a vec vec' found in
    let same = length-set vec.items i x in
    (
      λ m named.
          ref_returned (write heap a vec i x) a vec' found' m i (rw same named)
          ∙ rw (get_or-set vec.items i i x null small) (ground arith),
      λ m elsewhere. elim (index_cases m vec) [
        | inr (bad, no_place) ↦
            ref_refused (write heap a vec i x) a vec' found' m (rw same no_place)
            ∙ sym (ref_refused heap a vec found m no_place)
        | inl (j, named, e) ↦
            let apart : i ≢ j = λ q. elsewhere (rw q named) in
            ref_returned (write heap a vec i x) a vec' found' m j (rw same named)
            ∙ rw (get_or-set vec.items i j x null small)
                (rw (ne→false i j apart) (sym (ref_returned heap a vec found m j named)))
      ],
      λ b m h. ref_elsewhere heap a b vec' (integer m) h,
    )

vector_set-bad_vector :
    (heap : Heap) (v midx x : Value)
    → as_vector heap v ≡ raised bad_type
    → vector_set heap v midx x ≡ raised bad_type
unfolding vector_set
vector_set-bad_vector heap v midx x h = rw (h, vector_set) refl

vector_set-bad_integer :
    (heap : Heap) (v midx x : Value) (a : ℕ) (vec : Vector)
    → v ≡ vector a
    → get_elem? heap a ≡ some vec
    → as_integer midx ≡ raised bad_type
    → vector_set heap v midx x ≡ raised bad_type
unfolding vector_set
vector_set-bad_integer heap v midx x a vec here found h =
    rw here (rw (found, as_vector, vector_set) (rw h refl))

-- Writing an element either changes exactly the place that the index names, from the start or from
-- the end, in the one vector, whatever number reads it, or raises an error and says which: a wrong
-- type, an index that names no place, and, after these, a read-only vector.
pub vector_set-Updated : (heap : Heap) (v midx x : Value) → Updated heap v midx x
vector_set-Updated heap v midx x = elim (place_cases heap v) [
  | inr bad ↦ inr (bad_type, vector_set-bad_vector heap v midx x bad, inl (refl, inl bad))
  | inl (a, vec, here, found) ↦ elim (integer_cases midx) [
    | inr bad ↦
        inr
          (bad_type, vector_set-bad_integer heap v midx x a vec here found bad, inl (refl, inr bad))
    | inl (n, number) ↦ elim (index_cases n vec) [
      | inr (e, no_place) ↦ inr (
        bad_index,
        rw (here, number) (set_refused heap a vec found n x no_place),
        inr (inl (refl, (a, vec, n, here, found, number, no_place))),
      )
      | inl (i, named, e) ↦ elim (Bool-cases vec.readonly) [
        | inl fixed ↦ inr (
          value_read_only,
          rw (here, number) (set_read_only heap a vec found n i x named fixed),
          inr (inr (refl, (a, vec, i, (here, found, (n, number, named)), fixed))),
        )
        | inr writable ↦ inl (
          a,
          vec,
          i,
          write heap a vec i x,
          (here, found, (n, number, named)),
          writable,
          rw (here, number) (set_returned heap a vec found n i x named writable),
          write-Written heap a vec i x found (names_small n (length vec.items) i named),
        )
      ]
    ]
  ]
]
