-- ===== src/Vector/Placed.antt =====
-- runtime/vector.c: the vector that is built from pairs of an index and an element.
use mudlle.Prelude.{
  ℕ, ◌+◌, ◌≤◌, ◌<◌, ◌≡◌, refl, ◌∙◌, ◌⊎◌, inl, inr, List, [], ◌∷◌, Bool, ◌&&◌, some, ◌==◌, ltb, leb,
  if◌then◌else◌, length, get_or, set, length-set, get_or-set, Bool-cases, arith,
}
use mudlle.Prelude.Int.{ℤ, pos, negsuc, ◌+ℤ◌}
use mudlle.Error.{RuntimeError, bad_index, Result, raised, returned}
use mudlle.Alloc.{max_vector_size}
use mudlle.Vector.{Value, null, integer, pair, vector, other, Heap}
use mudlle.Vector.Indexed.{next_index, size_loop, immutablep, place_loop}

-- An argument puts an element at an index, which is its own or follows the one before.
abbrev pub Puts : Value → ℤ → ℕ → Value → Type 0
Puts (pair i null x) idx n y = (pos n ≡ idx +ℤ pos 1) × (x ≡ y) × (n < max_vector_size)
Puts (pair i (integer m) x) idx n y = (pos n ≡ m) × (x ≡ y) × (n < max_vector_size)
Puts _ idx n y = ⊥

-- What the arguments put, in their order.
abbrev pub Lists : List Value → ℤ → List (ℕ × Value) → Type 0
Lists [] idx [] = Unit
Lists [] idx (e ∷ entries) = ⊥
Lists (p ∷ args) idx [] = ⊥
Lists (p ∷ args) idx ((n, x) ∷ entries) = Puts p idx n x × Lists args (pos n) entries

-- One more than the greatest index, and at least the number given.
abbrev pub bound : List (ℕ × Value) → ℕ → ℕ
bound [] size = size
bound ((n, x) ∷ entries) size = bound entries (if leb size n then n + 1 else size)

-- The last element at an index, or the value given.
abbrev pub latest : List (ℕ × Value) → ℕ → Value → Value
latest [] i v = v
latest ((n, x) ∷ entries) i v = latest entries i (if n == i then x else v)

abbrev pub all_immutable : Heap → List (ℕ × Value) → Bool → Bool
all_immutable heap [] b = b
all_immutable heap ((n, x) ∷ entries) b = all_immutable heap entries (b && immutablep heap x)

abbrev pub placed : List (ℕ × Value) → List Value → List Value
placed [] items = items
placed ((n, x) ∷ entries) items = placed entries (set items n x)

bound_grows : (entries : List (ℕ × Value)) (size : ℕ) → size ≤ bound entries size
bound_grows [] size = omega arith
bound_grows ((n, x) ∷ entries) size =
    ground (arith, bound_grows entries (n + 1), bound_grows entries size)

pub length-placed :
    (entries : List (ℕ × Value)) (items : List Value) → length (placed entries items) ≡ length items
length-placed [] items = refl
length-placed ((n, x) ∷ entries) items =
    length-placed entries (set items n x) ∙ length-set items n x

pub get_or-placed :
    (entries : List (ℕ × Value)) (items : List Value) (size i : ℕ)
    → bound entries size ≤ length items
    → get_or (placed entries items) i null ≡ latest entries i (get_or items i null)
get_or-placed [] items size i h = refl
get_or-placed ((n, x) ∷ entries) items size i h =
    get_or-placed entries (set items n x) (if leb size n then n + 1 else size) i
      (grind (arith, length-set items n x))
    ∙ rw (
        get_or-set items n i x null
          (grind (arith, bound_grows entries (if leb size n then n + 1 else size))))

-- An index is in bounds, or no natural number in bounds is equal to it.
in_bounds :
    (m : ℤ)
    → ((n : ℕ) × (pos n ≡ m) × (n < max_vector_size)) ⊎ ((n : ℕ) → pos n ≡ m → max_vector_size ≤ n)
in_bounds (negsuc k) = inr (λ n e. absurd (cc))
in_bounds (pos k) = elim (Bool-cases (ltb k max_vector_size)) [
  | inl e ↦ inl (k, refl, ground arith)
  | inr e ↦ inr (λ n q. ground arith)
]

-- An argument puts an element, or none and its index is out of bounds or missing.
Put : Value → ℤ → Type 0
Put p idx =
    (i : Bool) × (car : Value) × (n : ℕ) × (x : Value) × (p ≡ pair i car x)
    × Puts p idx n x
    × (next_index p idx ≡ returned (pos n))

Idle : Value → ℤ → Type 0
Idle p idx =
    ((n : ℕ) (x : Value) → ¬ Puts p idx n x)
    × ((n : ℕ) → next_index p idx ≡ returned (pos n) → max_vector_size ≤ n)

argument_cases : (p : Value) (idx : ℤ) → Put p idx ⊎ Idle p idx
unfolding Put Idle next_index
argument_cases (pair i null x) idx = elim (in_bounds (idx +ℤ pos 1)) [
  | inl (n, e, small) ↦ inl (i, null, n, x, refl, (e, refl, small), rw e refl)
  | inr out ↦ inr (λ n y h. absurd (grind (arith, out n h.0)), λ n e. out n (cc))
]
argument_cases (pair i (integer m) x) idx = elim (in_bounds m) [
  | inl (n, e, small) ↦ inl (i, integer m, n, x, refl, (e, refl, small), rw e refl)
  | inr out ↦ inr (λ n y h. absurd (grind (arith, out n h.0)), λ n e. out n (cc))
]
argument_cases (pair i (pair j car cdr) x) idx = inr (λ n y h. h, λ n e. absurd (cc))
argument_cases (pair i (vector a) x) idx = inr (λ n y h. h, λ n e. absurd (cc))
argument_cases (pair i (other j a) x) idx = inr (λ n y h. h, λ n e. absurd (cc))
argument_cases null idx = inr (λ n y h. h, λ n e. absurd (cc))
argument_cases (integer m) idx = inr (λ n y h. h, λ n e. absurd (cc))
argument_cases (vector a) idx = inr (λ n y h. h, λ n e. absurd (cc))
argument_cases (other j a) idx = inr (λ n y h. h, λ n e. absurd (cc))

-- The first loop finds the size, or there is an argument that puts nothing.
unfoldable pub Sized : List Value → ℤ → ℕ → Type 0
Sized args idx size =
    ((entries : List (ℕ × Value)) × Lists args idx entries
      × (size_loop args idx size ≡ returned (bound entries size)))
    ⊎ ((e : RuntimeError) × (size_loop args idx size ≡ raised e)
        × ((entries : List (ℕ × Value)) → ¬ Lists args idx entries))

small_index : (p : Value) (idx : ℤ) (n : ℕ) (x : Value) → Puts p idx n x → n < max_vector_size
small_index (pair i null x) idx n y h = h.2
small_index (pair i (integer m) x) idx n y h = h.2
small_index null idx n y h = absurd h
small_index (integer _) idx n y h = absurd h
small_index (pair i (pair _ _ _) x) idx n y h = absurd h
small_index (pair i (vector _) x) idx n y h = absurd h
small_index (pair i (other _ _) x) idx n y h = absurd h
small_index (vector _) idx n y h = absurd h
small_index (other _ _) idx n y h = absurd h

one_put :
    (p : Value) (idx : ℤ) (m n : ℕ) (x y : Value)
    → Puts p idx m x
    → Puts p idx n y
    → (m ≡ n) × (x ≡ y)
one_put (pair i null z) idx m n x y h k = (cc, cc)
one_put (pair i (integer l) z) idx m n x y h k = (cc, cc)
one_put null idx m n x y h k = absurd h
one_put (integer _) idx m n x y h k = absurd h
one_put (pair i (pair _ _ _) z) idx m n x y h k = absurd h
one_put (pair i (vector _) z) idx m n x y h k = absurd h
one_put (pair i (other _ _) z) idx m n x y h k = absurd h
one_put (vector _) idx m n x y h k = absurd h
one_put (other _ _) idx m n x y h k = absurd h

unlisted :
    (p : Value) (args : List Value) (idx : ℤ)
    → ((n : ℕ) (x : Value) → ¬ Puts p idx n x)
    → (entries : List (ℕ × Value)) → ¬ Lists (p ∷ args) idx entries
unlisted p args idx none_put [] h = h
unlisted p args idx none_put ((n, x) ∷ entries) h = none_put n x h.0

no_rest :
    (p : Value) (args : List Value) (idx : ℤ) (n : ℕ) (x : Value)
    → Puts p idx n x
    → ((entries : List (ℕ × Value)) → ¬ Lists args (pos n) entries)
    → (entries : List (ℕ × Value)) → ¬ Lists (p ∷ args) idx entries
no_rest p args idx n x put no_tail [] h = h
no_rest p args idx n x put no_tail ((m, y) ∷ entries) h =
    no_tail entries (rw ((one_put p idx n m x y put h.0).0) h.1)

size_idle :
    (p : Value) (args : List Value) (idx : ℤ) (size : ℕ) (r : Result ℤ)
    → next_index p idx ≡ r
    → ((n : ℕ) → next_index p idx ≡ returned (pos n) → max_vector_size ≤ n)
    → (e : RuntimeError) × (size_loop (p ∷ args) idx size ≡ raised e)
unfolding size_loop
size_idle p args idx size (raised e) h out = (e, rw (h, size_loop) refl)
size_idle p args idx size (returned (negsuc n)) h out = (bad_index, rw (h, size_loop) refl)
size_idle p args idx size (returned (pos n)) h out =
    (bad_index, rw (h, size_loop) (let big = out n h in ground arith))

size_put :
    (p : Value) (args : List Value) (idx : ℤ) (size n : ℕ)
    → next_index p idx ≡ returned (pos n)
    → n < max_vector_size
    → size_loop (p ∷ args) idx size ≡ size_loop args (pos n) (if leb size n then n + 1 else size)
unfolding size_loop
size_put p args idx size n h small = rw (h, size_loop) (ground arith)

pub size_loop-Sized : (args : List Value) (idx : ℤ) (size : ℕ) → Sized args idx size
unfolding Sized Put Idle size_loop
size_loop-Sized [] idx size = inl ([], tt, refl)
size_loop-Sized (p ∷ args) idx size = elim (argument_cases p idx) [
  | inl (i, car, n, x, e, put, next) ↦
      let step = size_put p args idx size n next (small_index p idx n x put) in
      elim (size_loop-Sized args (pos n) (if leb size n then n + 1 else size)) [
        | inl (entries, lists, found) ↦ inl ((n, x) ∷ entries, (put, lists), step ∙ found)
        | inr (er, failed, no_tail) ↦ inr (er, step ∙ failed, no_rest p args idx n x put no_tail)
      ]
  | inr (none_put, out) ↦
      let (er, failed) = size_idle p args idx size (next_index p idx) refl out in
      inr (er, failed, unlisted p args idx none_put)
]

place_step :
    (heap : Heap) (i : Bool) (car x : Value) (args : List Value) (idx : ℤ) (n : ℕ)
    (items : List Value) (immutable : Bool)
    → next_index (pair i car x) idx ≡ returned (pos n)
    → n < length items
    → place_loop heap (pair i car x ∷ args) idx items immutable
      ≡ place_loop heap args (pos n) (set items n x) (immutable && immutablep heap x)
unfolding place_loop
place_step heap i car x args idx n items immutable h small = rw (h, place_loop) (ground arith)

-- The second loop puts the elements, and stays in the vector.
pub place_loop-placed :
    (heap : Heap) (args : List Value) (idx : ℤ) (entries : List (ℕ × Value)) (size : ℕ)
    (items : List Value) (immutable : Bool)
    → Lists args idx entries
    → bound entries size ≤ length items
    → place_loop heap args idx items immutable
      ≡ some (placed entries items, all_immutable heap entries immutable)
unfolding place_loop Put Idle
place_loop-placed heap [] idx [] size items immutable h small = refl
place_loop-placed heap [] idx (e ∷ entries) size items immutable h small = absurd h
place_loop-placed heap (p ∷ args) idx [] size items immutable h small = absurd h
place_loop-placed heap (p ∷ args) idx ((n, x) ∷ entries) size items immutable h small =
    elim (argument_cases p idx) [
      | inr (none_put, out) ↦ absurd (none_put n x h.0)
      | inl (i, car, m, y, e, put, next) ↦
          let (same_index, same_value) = one_put p idx m n y x put h.0 in
          let next_size = if leb size n then n + 1 else size in
          let whole : p ≡ pair i car x = cc in
          let step =
            place_step heap i car x args idx n items immutable (cc)
              (grind (arith, bound_grows entries next_size)) in
          rw whole (
            step
            ∙ place_loop-placed heap args (pos n) entries next_size (set items n x)
                (immutable && immutablep heap x) h.1 (grind (arith, length-set items n x)))
    ]
