-- ===== src/Hash/Laws.antt =====
-- The range of the hashes, and which names hash alike.
use Prim.Native.Nat.{bit_xor}
use native.Mathlib.Nat.{one-le-pow}
use mudlle.Prelude.{
  ℕ, ◌<◌, ◌/◌, ◌%◌, ◌^◌, ◌≡◌, refl, List, [], ◌∷◌, map, some, arith, length, take, ap, ◌∙◌, sym,
}
use mudlle.Prelude.Int.{pos}
use mudlle.Charset.{to_7lower, mem7icmp}
use mudlle.Charset.Laws.{mem7icmp_iff}
use mudlle.Hash.{fold_hash_n, fnv_loop, symbol_nhash, symbol_7inhash, fnv_prime64, fnv_offset64}

pub pow-pos : (b : ℕ) → 0 < 2 ^ b
pow-pos b = one-le-pow b 2 (omega arith)

fold_hash_n-range :
    (width code bits : ℕ)
    → bits < width
    → (h : ℕ) × (fold_hash_n width code bits ≡ some h) × (h < 2 ^ bits)
unfolding fold_hash_n
fold_hash_n-range width code bits lt =
    (bit_xor code (code / 2 ^ bits) % 2 ^ bits, ground arith, omega (arith, pow-pos bits))

-- The loop sees a name only through the converted bytes.
fnv_loop-map :
    (width prime : ℕ) (conv : ℕ → ℕ) (s : List ℕ) (code : ℕ)
    → fnv_loop width prime conv code s ≡ fnv_loop width prime (λ c. c) code (map conv s)
unfolding fnv_loop
fnv_loop-map width prime conv [] code = refl
fnv_loop-map width prime conv (c ∷ s) code = fnv_loop-map width prime conv s _

-- With fewer than 64 bits no assertion fails in the two hashes of symbol tables, and the hash is
-- a number of that many bits.
pub symbol_hash-range :
    (s : List ℕ) (bits : ℕ)
    → bits < 64
    → ((h : ℕ) × (symbol_nhash s bits ≡ some h) × (h < 2 ^ bits))
      × ((h : ℕ) × (symbol_7inhash s bits ≡ some h) × (h < 2 ^ bits))
unfolding symbol_nhash symbol_7inhash
symbol_hash-range s bits lt = (fold_hash_n-range 64 _ bits lt, fold_hash_n-range 64 _ bits lt)

-- The case-insensitive hash of a name is the plain hash of its folded bytes, for any number of
-- bits.
pub symbol_7inhash-map :
    (s : List ℕ) (bits : ℕ) → symbol_7inhash s bits ≡ symbol_nhash (map to_7lower s) bits
unfolding symbol_nhash symbol_7inhash
symbol_7inhash-map s bits =
    ap (λ c. fold_hash_n 64 c bits) (fnv_loop-map 64 fnv_prime64 to_7lower s fnv_offset64)

pub take-length : (s : List ℕ) → take (length s) s ≡ s
take-length [] = refl
take-length (c ∷ s) = ap (λ r. c ∷ r) (take-length s)

-- Names of one length that `mem7icmp` takes for equal hash alike, which a symbol table relies on.
pub symbol_7inhash-mem7icmp :
    (s1 s2 : List ℕ) (bits : ℕ)
    → length s1 ≡ length s2
    → mem7icmp s1 s2 (length s1) ≡ some (pos 0)
    → symbol_7inhash s1 bits ≡ symbol_7inhash s2 bits
symbol_7inhash-mem7icmp s1 s2 bits len e =
    symbol_7inhash-map s1 bits
    ∙ ap (λ r. symbol_nhash r bits) same
    ∙ sym (symbol_7inhash-map s2 bits)
  where
    folded : map to_7lower (take (length s1) s1) ≡ map to_7lower (take (length s1) s2)
    folded = (mem7icmp_iff s1 s2 (length s1) (omega arith) (omega arith)).0 e

    same : map to_7lower s1 ≡ map to_7lower s2
    same =
        ap (map to_7lower) (sym (take-length s1))
        ∙ folded
        ∙ ap (λ n. map to_7lower (take n s2)) len
        ∙ ap (map to_7lower) (take-length s2)
