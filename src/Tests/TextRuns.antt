-- ===== src/Tests/TextRuns.antt =====
-- runtime/mudlle-string.c at concrete strings.
use mudlle.Prelude.{ℕ, ◌<◌, ◌≡◌, refl, [], ◌∷◌, length, arith, true, false}
use mudlle.Prelude.Int.{ℤ, pos, negsuc, ◌+ℤ◌}
use mudlle.Error.{raised, returned, bad_index, value_read_only}
use mudlle.Charset.{to_8upper}
use mudlle.Table.{Str}
use mudlle.Bitset.{string, integer}
use mudlle.Text.{
  writable, code_string_span, code_string_cspan, code_string_index, string_index_offset, string_ref,
  mudlle_string_set, substring, low_byte, sfillb, string_upcase,
}
use mudlle.Text.Span.{Spans, string_xspan-Spans}
use mudlle.Text.Find.{Finds, string_index-Finds}

-- aabca
abbrev letters : Str
letters = writable (97 ∷ 97 ∷ 98 ∷ 99 ∷ 97 ∷ [])

abbrev ab : Str
ab = writable (97 ∷ 98 ∷ [])

string_xspan-Spans_example :
    ((k : ℕ) × (code_string_span (string letters) (integer (negsuc 3)) (integer (pos 9)) (string ab)
        ≡ returned k)
      × Spans true letters.bytes ab.bytes 1 9 k)
    × ((k : ℕ) × (code_string_cspan
            (string letters)
            (integer (negsuc 3))
            (integer (pos 9))
            (string ab)
          ≡ returned k)
        × (0 < length ab.bytes → Spans false letters.bytes ab.bytes 1 9 k)
        × (length ab.bytes ≡ 0 → k ≡ 0))
string_xspan-Spans_example = string_xspan-Spans letters ab (negsuc 3) 1 9 refl

string_index-Finds_example :
    ((j : ℤ) × (string_index_offset (string letters) (integer (pos 97)) (integer (pos 2))
        ≡ returned j)
      × Finds letters.bytes (low_byte (pos 97)) 2 j)
    × ((j : ℤ) × (code_string_index (string letters) (integer (pos 97)) ≡ returned j)
        × Finds letters.bytes (low_byte (pos 97)) 0 j)
string_index-Finds_example = string_index-Finds letters (pos 97) (pos 2) 2 (refl, omega arith)

-- No character is in the empty set, and yet the span without such characters is empty.
cspan_of_nothing :
    code_string_cspan (string letters) (integer (pos 0)) (integer (pos 9)) (string (writable []))
    ≡ returned 0
unfolding code_string_cspan
cspan_of_nothing = refl

spanned :
    code_string_span (string letters) (integer (pos 0)) (integer (pos 9)) (string ab) ≡ returned 3
unfolding code_string_span
spanned = refl

last : string_ref (string letters) (integer (negsuc 1)) ≡ returned 99
unfolding string_ref ◌+ℤ◌
last = refl

-- The low byte of -1 is 255.
stored :
    mudlle_string_set (string ab) (integer (pos 0)) (integer (negsuc 0))
    ≡ returned (255, writable (255 ∷ 98 ∷ []))
unfolding mudlle_string_set
stored = refl

cut :
    substring (string letters) (integer (pos 2)) (integer (pos 2))
    ≡ returned (writable (98 ∷ 99 ∷ []))
unfolding substring
cut = refl

cut_too_far : substring (string letters) (integer (pos 2)) (integer (pos 4)) ≡ raised bad_index
unfolding substring
cut_too_far = refl

fixed_text :
    sfillb (string (record { bytes = 97 ∷ []; readonly = true })) (integer (pos 98))
    ≡ raised value_read_only
unfolding sfillb
fixed_text = refl

upper : string_upcase (string ab) ≡ returned (writable (65 ∷ 66 ∷ []))
unfolding string_upcase to_8upper
upper = refl
