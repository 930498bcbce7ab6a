-- ===== src/Vector/Built.antt =====
-- runtime/vector.c: the primitives that build a vector from pairs of an index and an element.
use mudlle.Prelude.{
  ℕ, ◌≤◌, ◌≡◌, refl, ap, ◌∙◌, ◌⊎◌, inl, inr, List, [], ◌∷◌, ◌++◌, Bool, true, false, ◌||◌, some,
  ◌==◌, if◌then◌else◌, length, get_elem?, get_or, set, replicate, get_or-replicate,
  length-replicate, arith,
}
use mudlle.Prelude.Int.{negsuc}
use mudlle.Error.{RuntimeError, raised, returned}
use mudlle.Vector.{Value, null, vector, Vector, Heap, alloc_vector}
use mudlle.Vector.Indexed.{indexed_vector, size_loop}
use mudlle.Vector.Placed.{
  Lists, bound, latest, all_immutable, placed, length-placed, get_or-placed, Sized, size_loop-Sized,
  place_loop-placed,
}

get_elem?-last {ℓ} :
    {A : Type ℓ} (xs : List A) (x : A) → get_elem? (xs ++ (x ∷ [])) (length xs) ≡ some x
get_elem?-last [] x = refl
get_elem?-last (y ∷ xs) x = get_elem?-last xs x

set-last {ℓ} :
    {A : Type ℓ} (xs : List A) (x y : A) → set (xs ++ (x ∷ [])) (length xs) y ≡ xs ++ (y ∷ [])
set-last [] x y = refl
set-last (z ∷ xs) x y = ap (λ zs. z ∷ zs) (set-last xs x y)

-- The new vector: its size, its elements and its flags.
abbrev pub Holds : Heap → List (ℕ × Value) → Bool → Vector → Type 0
Holds heap entries readonly built =
    (length built.items ≡ bound entries 0)
    × ((i : ℕ) → get_or built.items i null ≡ latest entries i null)
    × (built.readonly ≡ (readonly || (bound entries 0 == 0)))
    × (built.immutable ≡ (
        (if readonly
          then all_immutable (alloc_vector (bound entries 0) heap).1 entries true
          else false)
        || (bound entries 0 == 0)))

abbrev pub Built : List Value → Bool → Heap → Type 0
Built args readonly heap =
    ((entries : List (ℕ × Value)) × (built : Vector) × Lists args (negsuc 0) entries
      × (indexed_vector args readonly heap
          ≡ some (returned (vector (length heap), heap ++ (built ∷ []))))
      × Holds heap entries readonly built)
    ⊎ ((e : RuntimeError) × (indexed_vector args readonly heap ≡ some (raised e))
        × ((entries : List (ℕ × Value)) → ¬ Lists args (negsuc 0) entries))

abbrev finish_items : List (ℕ × Value) → List Value
finish_items entries = placed entries (replicate (bound entries 0) null)

abbrev finish : List (ℕ × Value) → Bool → Heap → Vector
finish entries readonly heap =
    let size = bound entries 0 in
    let items = finish_items entries in
    let imm = all_immutable (alloc_vector size heap).1 entries readonly in
    if readonly
    then record { items = items; readonly = true; immutable = if imm then true else size == 0 }
    else record { items = items; readonly = size == 0; immutable = size == 0 }

length-finish : (entries : List (ℕ × Value)) → length (finish_items entries) ≡ bound entries 0
length-finish entries =
    length-placed entries (replicate (bound entries 0) null)
    ∙ length-replicate (bound entries 0) null

get_or-finish :
    (entries : List (ℕ × Value)) (i : ℕ)
    → get_or (finish_items entries) i null ≡ latest entries i null
get_or-finish entries i =
    get_or-placed entries (replicate (bound entries 0) null) 0 i
      (grind (arith, length-replicate (bound entries 0) null))
    ∙ ap (latest entries i) (get_or-replicate (bound entries 0) i null)

if_or : (a b : Bool) → (if a then true else b) ≡ (a || b)
if_or true b = refl
if_or false b = refl

finish-Holds :
    (entries : List (ℕ × Value)) (readonly : Bool) (heap : Heap)
    → Holds heap entries readonly (finish entries readonly heap)
finish-Holds entries true heap = (
  length-finish entries,
  get_or-finish entries,
  refl,
  if_or (all_immutable (alloc_vector (bound entries 0) heap).1 entries true) (bound entries 0 == 0),
)
finish-Holds entries false heap = (length-finish entries, get_or-finish entries, refl, refl)

runs_to_finish :
    (args : List Value) (entries : List (ℕ × Value)) (readonly : Bool) (heap : Heap)
    → Lists args (negsuc 0) entries
    → size_loop args (negsuc 0) 0 ≡ returned (bound entries 0)
    → indexed_vector args readonly heap
      ≡ some (returned (vector (length heap), heap ++ (finish entries readonly heap ∷ [])))
unfolding indexed_vector alloc_vector
runs_to_finish args entries readonly heap lists sized =
    let size = bound entries 0 in
    let blank : Vector = record {
      items = replicate size null;
      readonly = size == 0;
      immutable = size == 0;
    } in
    let fits : size ≤ length (replicate size null) = grind (arith, length-replicate size null) in
    let filled =
      place_loop-placed (heap ++ (blank ∷ [])) args (negsuc 0) entries 0 (replicate size null)
        readonly lists fits in
    rw (sized, indexed_vector)
      (rw (get_elem?-last heap blank) (
        rw filled (
          ap (λ h. some (returned (vector (length heap), h)))
            (set-last heap blank (finish entries readonly heap)))))

-- An indexed vector is built without a write outside it, exactly if each argument is a pair that
-- puts an element at an index in bounds. It holds, at each index, the last element put there, and
-- null where none is; its size is one more than the greatest index. It is read-only when that is
-- asked for or it is empty, and immutable when it is empty, or read-only with only immutable
-- elements. Otherwise an error is raised.
pub indexed_vector-Built :
    (args : List Value) (readonly : Bool) (heap : Heap) → Built args readonly heap
unfolding Sized indexed_vector
indexed_vector-Built args readonly heap = elim (size_loop-Sized args (negsuc 0) 0) [
  | inl (entries, lists, sized) ↦ inl (
    entries,
    finish entries readonly heap,
    lists,
    runs_to_finish args entries readonly heap lists sized,
    finish-Holds entries readonly heap,
  )
  | inr (e, failed, no_entries) ↦ inr (e, rw (failed, indexed_vector) refl, no_entries)
]
