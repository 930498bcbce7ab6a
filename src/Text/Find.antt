-- ===== src/Text/Find.antt =====
-- runtime/mudlle-string.c: the search for a character.
use mudlle.Prelude.{
  ℕ, zero, suc, ◌+◌, ◌-◌, ◌≤◌, ◌<◌, ◌≡◌, ◌≢◌, refl, sym, ap, ◌∙◌, inl, inr, List, [], ◌∷◌, Option,
  none, some, ◌==◌, length, get_or, drop, length-drop, Bool-cases, arith,
}
use mudlle.Prelude.Int.{ℤ, pos, negsuc}
use mudlle.Error.{returned}
use mudlle.Table.{Str}
use mudlle.Bitset.{string, integer}
use mudlle.Text.{low_byte, memchr, string_index, code_string_index, string_index_offset}
use mudlle.Text.Span.{Offset, get_or-drop, ct_string_index-Offset}

-- The first place of a byte, or that there is none.
abbrev pub First : List ℕ → ℕ → Option ℕ → Type 0
First s c none = (i : ℕ) → i < length s → get_or s i 0 ≢ c
First s c (some j) = (j < length s) × (get_or s j 0 ≡ c) × ((i : ℕ) → i < j → get_or s i 0 ≢ c)

one_later :
    (s : List ℕ) (x c : ℕ) (found : Option ℕ)
    → x ≢ c
    → First s c found
    → First (x ∷ s) c (elim found [ none ↦ none | some i ↦ some (suc i) ])
one_later s x c none h absent = away
  where
    away : (i : ℕ) → i < suc (length s) → get_or (x ∷ s) i 0 ≢ c
    away zero k = h
    away (suc i) k = absent i (omega arith)
one_later s x c (some j) h (small, here, before) = (omega arith, here, away)
  where
    away : (i : ℕ) → i < suc j → get_or (x ∷ s) i 0 ≢ c
    away zero k = h
    away (suc i) k = before i (omega arith)

memchr-First : (s : List ℕ) (c : ℕ) → First s c (memchr s c)
unfolding memchr
memchr-First [] c = λ i h. absurd (omega arith)
memchr-First (x ∷ s) c = elim (Bool-cases (x == c)) [
  | inl e ↦ rw e (omega arith, ground arith, λ i h. absurd (omega arith))
  | inr e ↦ rw e (one_later s x c (memchr s c) (ground arith) (memchr-First s c))
]

-- The index of the first byte from an offset that is the character, or -1.
abbrev pub Finds : List ℕ → ℕ → ℕ → ℤ → Type 0
Finds s c ofs (negsuc k) = (k ≡ 0) × ((i : ℕ) → ofs ≤ i → i < length s → get_or s i 0 ≢ c)
Finds s c ofs (pos j) =
    (ofs ≤ j) × (j < length s) × (get_or s j 0 ≡ c) × ((i : ℕ) → ofs ≤ i → i < j → get_or s i 0 ≢ c)

from_drop : (s : List ℕ) (ofs i : ℕ) → ofs ≤ i → get_or (drop ofs s) (i - ofs) 0 ≡ get_or s i 0
from_drop s ofs i h =
    let back : ofs + (i - ofs) ≡ i = omega arith in
    get_or-drop s ofs (i - ofs) ∙ ap (λ k. get_or s k 0) back

found_index :
    (s : List ℕ) (c ofs : ℕ) (found : Option ℕ)
    → First (drop ofs s) c found
    → Finds s c ofs (elim found [ none ↦ negsuc 0 | some i ↦ pos (ofs + i) ])
found_index s c ofs none absent =
    (refl, λ i h k e. absent (i - ofs) (omega (arith, length-drop ofs s)) (from_drop s ofs i h ∙ e))
found_index s c ofs (some j) (small, here, before) = (
  omega arith,
  omega (arith, length-drop ofs s),
  sym (get_or-drop s ofs j) ∙ here,
  λ i h k e. before (i - ofs) (omega arith) (from_drop s ofs i h ∙ e),
)

-- The search for a character, whose low 8 bits count, finds the first byte that is not before the
-- offset, and returns -1 only if there is none; without an offset it searches the whole string.
pub string_index-Finds :
    (s : Str) (needle n : ℤ) (ofs : ℕ)
    → Offset n (length s.bytes) ofs
    → ((j : ℤ) × (string_index_offset (string s) (integer needle) (integer n) ≡ returned j)
        × Finds s.bytes (low_byte needle) ofs j)
      × ((j : ℤ) × (code_string_index (string s) (integer needle) ≡ returned j)
          × Finds s.bytes (low_byte needle) 0 j)
unfolding string_index_offset code_string_index string_index
string_index-Finds s needle n ofs h =
    let here = ct_string_index-Offset n s ofs h in
    (
      (
        string_index s.bytes needle ofs,
        rw here refl,
        found_index s.bytes (low_byte needle) ofs (memchr (drop ofs s.bytes) (low_byte needle))
            (memchr-First (drop ofs s.bytes) (low_byte needle)),
      ),
      (
        string_index s.bytes needle 0,
        refl,
        found_index s.bytes (low_byte needle) 0 (memchr s.bytes (low_byte needle))
            (memchr-First s.bytes (low_byte needle)),
      ),
    )
