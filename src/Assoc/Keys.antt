-- ===== src/Assoc/Keys.antt =====
-- assoc.c: the comparisons of its types of keys are equalities, and equal keys hash alike.
use mudlle.Prelude.{
  ℕ, ◌<◌, ◌≡◌, ◌≢◌, refl, ap, sym, ◌∙◌, true, ◌||◌, not, some, List, [], ◌∷◌, arith, map, Each,
  ◌==◌, ==_iff, ◌↔◌,
}
use mudlle.Prelude.Int.{ℤ, pos, negsuc}
use mudlle.Prelude.Bits.{checks, checks-at}
use mudlle.Charset.{to_7lower, str7icmp}
use mudlle.Charset.Laws.{str7icmp_iff}
use mudlle.Hash.{
  fold_hash_n, fnv_loop, fnv_prime64, fnv_offset64, symbol_nhash, symbol_7inhash, string_nhash,
}
use mudlle.Hash.Laws.{symbol_hash-range, symbol_7inhash-map}
use mudlle.Assoc.{AssocType}
use mudlle.Assoc.Buckets.{IsLawful}
use mudlle.Assoc.Types.{
  CString, strcmp_equal, assoc_array_string_equal, assoc_array_hash_string,
  const_charp_to_voidp_assoc_array_type, malloc_charp_to_voidp_assoc_array_type, bytes_of_long,
  assoc_array_long_equal, assoc_array_hash_long, long_to_mallocp_assoc_array_type,
  long_to_voidp_assoc_array_type, assoc_array_hash_istring, is_zero, assoc_array_istring_equal,
  const_icharp_to_voidp_assoc_array_type,
}

strcmp_equal_iff : (s1 s2 : List ℕ) → (strcmp_equal s1 s2 ≡ true) ↔ (s1 ≡ s2)
strcmp_equal_iff [] [] = (λ _. refl, λ _. refl)
strcmp_equal_iff [] (b ∷ s2) = (λ e. absurd (cc), λ e. absurd (cc))
strcmp_equal_iff (a ∷ s1) [] = (λ e. absurd (cc), λ e. absurd (cc))
strcmp_equal_iff (a ∷ s1) (b ∷ s2) =
    let ih = strcmp_equal_iff s1 s2 in (λ e. ground (arith, ih), λ e. ground (arith, ih))

string_code : List ℕ → ℕ
string_code s = (symbol_hash-range s 62 (omega arith)).0.0

string_nhash-code : (s : List ℕ) → string_nhash s ≡ some (string_code s)
unfolding string_nhash string_code
string_nhash-code s = (symbol_hash-range s 62 (omega arith)).0.1

lower_nonzero_table : checks (λ c. c == 0 || not (to_7lower c == 0)) 256 ≡ true
unfolding checks to_7lower
lower_nonzero_table = refl

lower_nonzero : (s : List ℕ) → Each s (λ c. (0 < c) × (c < 256)) → Each s (λ c. to_7lower c ≢ 0)
lower_nonzero [] h = tt
lower_nonzero (c ∷ s) h =
    let here = checks-at (λ c. c == 0 || not (to_7lower c == 0)) c h.0.1 lower_nonzero_table in
    (ground arith, lower_nonzero s h.1)

is_zero_iff : (z : ℤ) → (is_zero z ≡ true) ↔ (z ≡ pos 0)
is_zero_iff (pos n) = ground arith
is_zero_iff (negsuc n) = ground arith

istring_equal_iff :
    (a b : CString)
    → (assoc_array_istring_equal a b ≡ true) ↔ (map to_7lower a.text ≡ map to_7lower b.text)
unfolding assoc_array_istring_equal
istring_equal_iff a b =
    let zero_iff = is_zero_iff (str7icmp a.text b.text) in
    let same =
      str7icmp_iff a.text b.text (lower_nonzero a.text a.ended) (lower_nonzero b.text b.ended) in
    (λ e. same.0 (zero_iff.0 e), λ e. zero_iff.1 (same.1 e))

-- A comparison that decides whether two keys have the same view, which the hash is of.
from_view :
    {K : Type 0} {A : Type 0} (type : AssocType K) (view : K → A) (code : K → ℕ)
    → ((k : K) → type.hash k ≡ some (code k))
    → ((a b : K) → (type.is_equal a b ≡ true) ↔ (view a ≡ view b))
    → ((a b : K) → view a ≡ view b → code a ≡ code b)
    → IsLawful type
from_view type view code hashes decides codes = record {
  code = code;
  hashes = hashes;
  refl_equal = λ k. (decides k k).1 refl;
  sym_equal = λ a b e. (decides b a).1 (sym ((decides a b).0 e));
  trans_equal = λ a b c e f. (decides a c).1 ((decides a b).0 e ∙ (decides b c).0 f);
  code_equal = λ a b e. codes a b ((decides a b).0 e);
}

pub charp-IsLawful :
    IsLawful const_charp_to_voidp_assoc_array_type × IsLawful malloc_charp_to_voidp_assoc_array_type
unfolding const_charp_to_voidp_assoc_array_type malloc_charp_to_voidp_assoc_array_type
    assoc_array_hash_string assoc_array_string_equal
charp-IsLawful = (
  from_view _ (λ k. k.text) (λ k. string_code k.text) (λ k. string_nhash-code k.text)
      (λ a b. strcmp_equal_iff a.text b.text) (λ a b e. ap string_code e),
  from_view _ (λ k. k.text) (λ k. string_code k.text) (λ k. string_nhash-code k.text)
      (λ a b. strcmp_equal_iff a.text b.text) (λ a b e. ap string_code e),
)

pub long-IsLawful :
    IsLawful long_to_mallocp_assoc_array_type × IsLawful long_to_voidp_assoc_array_type
unfolding long_to_mallocp_assoc_array_type long_to_voidp_assoc_array_type assoc_array_hash_long
    assoc_array_long_equal
long-IsLawful = (
  from_view _ (λ k. k) (λ k. string_code (bytes_of_long k))
      (λ k. string_nhash-code (bytes_of_long k)) (λ a b. ==_iff a b)
      (λ a b e. ap (λ k. string_code (bytes_of_long k)) e),
  from_view _ (λ k. k) (λ k. string_code (bytes_of_long k))
      (λ k. string_nhash-code (bytes_of_long k)) (λ a b. ==_iff a b)
      (λ a b e. ap (λ k. string_code (bytes_of_long k)) e),
)

abbrev folded_code : List ℕ → ℕ
folded_code s = fnv_loop 64 fnv_prime64 (λ c. c) fnv_offset64 s

symbol_7inhash-code : (s : List ℕ) → symbol_7inhash s 64 ≡ some (folded_code (map to_7lower s))
unfolding symbol_nhash fold_hash_n
symbol_7inhash-code s = symbol_7inhash-map s 64

pub icharp-IsLawful : IsLawful const_icharp_to_voidp_assoc_array_type
unfolding const_icharp_to_voidp_assoc_array_type assoc_array_hash_istring
icharp-IsLawful =
    from_view _ (λ k. map to_7lower k.text) (λ k. folded_code (map to_7lower k.text))
      (λ k. symbol_7inhash-code k.text) istring_equal_iff (λ a b e. ap folded_code e)

-- Each of the five types of associative arrays compares keys by an equivalence that its hash
-- respects, and its hash fails no assertion.
pub assoc_types-IsLawful :
    IsLawful const_charp_to_voidp_assoc_array_type
    × IsLawful malloc_charp_to_voidp_assoc_array_type
    × IsLawful long_to_mallocp_assoc_array_type
    × IsLawful long_to_voidp_assoc_array_type
    × IsLawful const_icharp_to_voidp_assoc_array_type
assoc_types-IsLawful =
    (charp-IsLawful.0, charp-IsLawful.1, long-IsLawful.0, long-IsLawful.1, icharp-IsLawful)
