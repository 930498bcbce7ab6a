-- ===== src/Table/Probe/Placed.antt =====
-- The invariant of an open table: a symbol can be reached from its hash over cells that are not
-- empty, and no two cells hold symbols of one name. Putting a symbol into the empty cell that a
-- probe found keeps it.
use mudlle.Prelude.{
  ℕ, zero, suc, ◌+◌, ◌<◌, ◌≡◌, ◌≢◌, refl, List, [], ◌∷◌, Bool, true, false, Option, none, some,
  arith, length, set, ◌==◌, if◌then◌else◌, length-set,
}
use mudlle.Table.Probe.{dist, cell}

module _ {S : Type 0} where
  pub cell-set :
      (buckets : List (Option S)) (p j : ℕ) (v : Option S)
      → p < length buckets
      → cell (set buckets p v) j ≡ (if p == j then v else cell buckets j)
  cell-set [] p j v h = absurd (omega arith)
  cell-set (b ∷ bs) zero zero v h = refl
  cell-set (b ∷ bs) zero (suc j) v h = ground arith
  cell-set (b ∷ bs) (suc p) zero v h = ground arith
  cell-set (b ∷ bs) (suc p) (suc j) v h = ground (arith, cell-set bs p j v)

  pub cell-lt :
      (buckets : List (Option S)) (i : ℕ) {s : S} → cell buckets i ≡ some s → i < length buckets
  cell-lt [] i e = absurd (cc)
  cell-lt (b ∷ bs) zero e = omega arith
  cell-lt (b ∷ bs) (suc i) e = omega (arith, cell-lt bs i e)

  abbrev pub occupied : Option S → ℕ
  occupied none = 0
  occupied (some s) = 1

  -- The cells that are not empty.
  abbrev pub count : List (Option S) → ℕ
  count [] = 0
  count (b ∷ bs) = occupied b + count bs

  pub count-set :
      (buckets : List (Option S)) (p : ℕ) (v : Option S)
      → p < length buckets
      → count (set buckets p v) + occupied (cell buckets p) ≡ count buckets + occupied v
  count-set [] p v h = absurd (omega arith)
  count-set (b ∷ bs) zero v h = omega arith
  count-set (b ∷ bs) (suc p) v h = omega (arith, count-set bs p v (omega arith))

  -- A table with fewer symbols than cells has an empty cell.
  pub empty_cell :
      (buckets : List (Option S))
      → count buckets < length buckets
      → (e : ℕ) × (e < length buckets) × (cell buckets e ≡ none)
  empty_cell [] h = absurd (omega arith)
  empty_cell (none ∷ bs) h = (0, omega arith, refl)
  empty_cell (some s ∷ bs) h =
      let (e, lt, eq) = empty_cell bs (omega arith) in (suc e, omega arith, eq)

  abbrev pub Holds : List (Option S) → S → Type 0
  Holds buckets s = (i : ℕ) × (cell buckets i ≡ some s)

  -- No two cells hold symbols of one name.
  abbrev pub IsUnique : (S → S → Bool) → List (Option S) → Type 0
  IsUnique same buckets =
      (i j : ℕ) (s t : S)
      → cell buckets i ≡ some s
      → cell buckets j ≡ some t
      → same s t ≡ true
      → i ≡ j

  module _ (home : S → ℕ) (same : S → S → Bool) where
    -- The cells from the hash of `s` up to the cell `i` are not empty.
    abbrev pub ReachedAt : List (Option S) → S → ℕ → Type 0
    ReachedAt buckets s i =
        (j : ℕ)
        → j < length buckets
        → dist (length buckets) (home s) j < dist (length buckets) (home s) i
        → cell buckets j ≢ none

    pub record IsPlaced (buckets : List (Option S)) : Type 0 where
      pub reached : (i : ℕ) (s : S) → cell buckets i ≡ some s → ReachedAt buckets s i
      pub unique : IsUnique same buckets

    -- A symbol of a new name goes into the first empty cell from its hash.
    pub set-IsPlaced :
        (buckets : List (Option S)) (p : ℕ) (s : S)
        → p < length buckets
        → cell buckets p ≡ none
        → ReachedAt buckets s p
        → ((i : ℕ) (t : S) → cell buckets i ≡ some t → (same s t ≡ false) × (same t s ≡ false))
        → IsPlaced buckets
        → IsPlaced (set buckets p (some s))
    set-IsPlaced buckets p s hp e r new w = record {
      reached = λ i t et j. rw (length-set) (λ hj d. ground (
        arith,
        cell-set buckets p i (some s) hp,
        cell-set buckets p j (some s) hp,
        r j hj,
        w.reached i t,
        w.reached i t _ j hj,
      ));
      unique = λ i j t u et eu eq. ground (
        arith,
        cell-set buckets p i (some s) hp,
        cell-set buckets p j (some s) hp,
        new i t,
        new j u,
        w.unique i j t u,
      );
    }
