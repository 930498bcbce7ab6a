-- ===== src/Assoc/Types.antt =====
-- assoc.c: the types of keys that come with it, on a little-endian machine with 64-bit longs.
use mudlle.Prelude.{
  ℕ, ◌/◌, ◌%◌, ◌^◌, ◌<◌, Bool, true, false, ◌&&◌, Option, List, [], ◌∷◌, Each, ◌==◌,
}
use mudlle.Prelude.Int.{ℤ, pos, negsuc}
use mudlle.Charset.{str7icmp}
use mudlle.Hash.{string_nhash, symbol_7inhash}
use mudlle.Assoc.{AssocType}

-- The bytes before the NUL that ends the string.
pub record CString : Type 0 where
  pub text : List ℕ
  pub ended : Each text (λ c. (0 < c) × (c < 256))

-- `strcmp` of such strings is 0
abbrev pub strcmp_equal : List ℕ → List ℕ → Bool
strcmp_equal [] [] = true
strcmp_equal [] (b ∷ s2) = false
strcmp_equal (a ∷ s1) [] = false
strcmp_equal (a ∷ s1) (b ∷ s2) = a == b && strcmp_equal s1 s2

unfoldable pub assoc_array_string_equal : CString → CString → Bool
assoc_array_string_equal a b = strcmp_equal a.text b.text

unfoldable pub assoc_array_hash_string : CString → Option ℕ
assoc_array_hash_string s = string_nhash s.text

unfoldable pub const_charp_to_voidp_assoc_array_type : AssocType CString
const_charp_to_voidp_assoc_array_type = record {
  is_equal = assoc_array_string_equal;
  hash = assoc_array_hash_string;
  free_key = false;
  free_data = false;
}

unfoldable pub malloc_charp_to_voidp_assoc_array_type : AssocType CString
malloc_charp_to_voidp_assoc_array_type = record {
  is_equal = assoc_array_string_equal;
  hash = assoc_array_hash_string;
  free_key = true;
  free_data = false;
}

-- A long is the number of its bits.
unfoldable pub assoc_array_long_equal : ℕ → ℕ → Bool
assoc_array_long_equal a b = a == b

abbrev pub bytes_of_long : ℕ → List ℕ
bytes_of_long l =
    l % 256
    ∷ l / 2 ^ 8 % 256
    ∷ l / 2 ^ 16 % 256
    ∷ l / 2 ^ 24 % 256
    ∷ l / 2 ^ 32 % 256
    ∷ l / 2 ^ 40 % 256
    ∷ l / 2 ^ 48 % 256
    ∷ l / 2 ^ 56 % 256
    ∷ []

unfoldable pub assoc_array_hash_long : ℕ → Option ℕ
assoc_array_hash_long l = string_nhash (bytes_of_long l)

unfoldable pub long_to_mallocp_assoc_array_type : AssocType ℕ
long_to_mallocp_assoc_array_type = record {
  is_equal = assoc_array_long_equal;
  hash = assoc_array_hash_long;
  free_key = false;
  free_data = true;
}

unfoldable pub long_to_voidp_assoc_array_type : AssocType ℕ
long_to_voidp_assoc_array_type = record {
  is_equal = assoc_array_long_equal;
  hash = assoc_array_hash_long;
  free_key = false;
  free_data = false;
}

-- `CHAR_BIT * sizeof (assoc_hash_t)` is 64.
unfoldable pub assoc_array_hash_istring : CString → Option ℕ
assoc_array_hash_istring s = symbol_7inhash s.text 64

abbrev pub is_zero : ℤ → Bool
is_zero (pos n) = n == 0
is_zero (negsuc n) = false

unfoldable pub assoc_array_istring_equal : CString → CString → Bool
assoc_array_istring_equal a b = is_zero (str7icmp a.text b.text)

unfoldable pub const_icharp_to_voidp_assoc_array_type : AssocType CString
const_icharp_to_voidp_assoc_array_type = record {
  is_equal = assoc_array_istring_equal;
  hash = assoc_array_hash_istring;
  free_key = false;
  free_data = false;
}
