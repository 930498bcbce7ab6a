-- ===== src/Vector/Access.antt =====
-- runtime/vector.c: reading and writing elements.
use mudlle.Prelude.{
  ℕ, suc, ◌+◌, ◌-◌, ◌<◌, ◌≡◌, refl, ◌⊎◌, inl, inr, true, false, some, leb, length, get_elem?,
  get_or, Bool-cases, Option-cases, arith,
}
use mudlle.Prelude.Int.{ℤ, pos, negsuc, ◌+ℤ◌}
use mudlle.Error.{bad_type, bad_index, value_read_only, raised, returned}
use mudlle.Vector.{
  Value, null, integer, pair, vector, other, Vector, Heap, as_vector, as_integer, write,
  ct_vector_index, vector_ref, vector_set,
}

-- A number names a place: from the start, or from the end when it is negative.
abbrev pub Names : ℤ → ℕ → ℕ → Type 0
Names (pos n) len i = (i ≡ n) × (i < len)
Names (negsuc k) len i = i + k + 1 ≡ len

pub index_cases :
    (n : ℤ) (vec : Vector)
    → ((i : ℕ) × Names n (length vec.items) i × (ct_vector_index n vec false ≡ returned i))
      ⊎ (ct_vector_index n vec false ≡ raised bad_index)
        × ((i : ℕ) → ¬ Names n (length vec.items) i)
unfolding ct_vector_index ◌+ℤ◌
index_cases (pos n) vec = elim (Bool-cases (leb (length vec.items) n)) [
  | inl e ↦ inr (ground arith, λ i h. absurd (ground arith))
  | inr e ↦ inl (n, (refl, ground arith), ground arith)
]
index_cases (negsuc k) vec = elim (Bool-cases (leb (suc k) (length vec.items))) [
  | inl e ↦ inl (length vec.items - suc k, ground arith, ground arith)
  | inr e ↦ inr (ground arith, λ i h. absurd (ground arith))
]

pub names_once : (n : ℤ) (len i j : ℕ) → Names n len i → Names n len j → i ≡ j
names_once (pos n) len i j h k = omega arith
names_once (negsuc m) len i j h k = omega arith

pub names_small : (n : ℤ) (len i : ℕ) → Names n len i → i < len
names_small (pos n) len i h = omega arith
names_small (negsuc m) len i h = omega arith

pub place_cases :
    (heap : Heap) (v : Value)
    → ((a : ℕ) × (vec : Vector) × (v ≡ vector a) × (get_elem? heap a ≡ some vec))
      ⊎ (as_vector heap v ≡ raised bad_type)
place_cases heap (vector a) = elim (Option-cases (get_elem? heap a)) [
  | inl e ↦ inr (rw (e, as_vector) refl)
  | inr (vec, e) ↦ inl (a, vec, refl, e)
]
place_cases heap null = inr refl
place_cases heap (integer n) = inr refl
place_cases heap (pair i car cdr) = inr refl
place_cases heap (other i a) = inr refl

pub integer_cases :
    (midx : Value) → ((n : ℤ) × (midx ≡ integer n)) ⊎ (as_integer midx ≡ raised bad_type)
integer_cases (integer n) = inl (n, refl)
integer_cases null = inr refl
integer_cases (vector a) = inr refl
integer_cases (pair i car cdr) = inr refl
integer_cases (other i a) = inr refl

module _ (heap : Heap) (a : ℕ) (vec : Vector) (found : get_elem? heap a ≡ some vec) where
  pub ref_returned :
      (n : ℤ) (i : ℕ)
      → Names n (length vec.items) i
      → vector_ref heap (vector a) (integer n) ≡ returned (get_or vec.items i null)
  unfolding vector_ref
  ref_returned n i named = elim (index_cases n vec) [
    | inr (bad, no_place) ↦ absurd (no_place i named)
    | inl (j, named', e) ↦
        let same : i ≡ j = names_once n (length vec.items) i j named named' in
        rw (found, as_vector, vector_ref) (rw e (rw same refl))
  ]

  pub ref_refused :
      (n : ℤ)
      → ((i : ℕ) → ¬ Names n (length vec.items) i)
      → vector_ref heap (vector a) (integer n) ≡ raised bad_index
  unfolding vector_ref
  ref_refused n no_place = elim (index_cases n vec) [
    | inl (j, named, e) ↦ absurd (no_place j named)
    | inr (bad, no_place') ↦ rw (found, as_vector, vector_ref) (rw bad refl)
  ]

  pub set_returned :
      (n : ℤ) (i : ℕ) (x : Value)
      → Names n (length vec.items) i
      → vec.readonly ≡ false
      → vector_set heap (vector a) (integer n) x ≡ returned (x, write heap a vec i x)
  unfolding vector_set
  set_returned n i x named writable = elim (index_cases n vec) [
    | inr (bad, no_place) ↦ absurd (no_place i named)
    | inl (j, named', e) ↦
        let same : i ≡ j = names_once n (length vec.items) i j named named' in
        rw (found, as_vector, vector_set) (rw e (rw writable (rw same refl)))
  ]

  pub set_refused :
      (n : ℤ) (x : Value)
      → ((i : ℕ) → ¬ Names n (length vec.items) i)
      → vector_set heap (vector a) (integer n) x ≡ raised bad_index
  unfolding vector_set
  set_refused n x no_place = elim (index_cases n vec) [
    | inl (j, named, e) ↦ absurd (no_place j named)
    | inr (bad, no_place') ↦ rw (found, as_vector, vector_set) (rw bad refl)
  ]

  pub set_read_only :
      (n : ℤ) (i : ℕ) (x : Value)
      → Names n (length vec.items) i
      → vec.readonly ≡ true
      → vector_set heap (vector a) (integer n) x ≡ raised value_read_only
  unfolding vector_set
  set_read_only n i x named fixed = elim (index_cases n vec) [
    | inr (bad, no_place) ↦ absurd (no_place i named)
    | inl (j, named', e) ↦ rw (found, as_vector, vector_set) (rw e (rw fixed refl))
  ]
