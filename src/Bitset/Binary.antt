-- ===== src/Bitset/Binary.antt =====
-- The operations of runtime/bitset.c on two sets, and the tests of whole sets.
use Prim.Native.Nat.{bit_or, bit_and}
use mudlle.Prelude.{
  ℕ, zero, suc, ◌-◌, ◌/◌, ◌%◌, ◌^◌, ◌<◌, ◌≡◌, refl, sym, List, [], ◌∷◌, Bool, true, false, ◌&&◌,
  ◌||◌, not, if◌then◌else◌, arith, length, get_or, Each, ==_iff,
}
use mudlle.Error.{Result, returned}
use mudlle.Table.{Str}
use mudlle.Bitset.{
  string, under, bitset_op, bitset_binop, bunion_op, bintersection_op, bdifference_op, bunion,
  bintersection, bdifference,
}
use mudlle.Bitset.Bytes.{digit_bound, digit-or, digit-and, under-power, complement_digit}
use mudlle.Bitset.Members.{member}

-- The bytes are below 256.
abbrev pub AreBytes : List ℕ → Type 0
AreBytes bytes = Each bytes (λ c. c < 256)

byte_at : (bytes : List ℕ) (i : ℕ) → AreBytes bytes → get_or bytes i 0 < 256
byte_at [] i h = omega arith
byte_at (c ∷ bytes) zero h = h.0
byte_at (c ∷ bytes) (suc i) h = byte_at bytes i h.1

bitset_op-byte :
    (op : ℕ → ℕ → ℕ) (s1 s2 : List ℕ) (i : ℕ)
    → length s1 ≡ length s2
    → op 0 0 ≡ 0
    → get_or (bitset_op op s1 s2) i 0 ≡ op (get_or s1 i 0) (get_or s2 i 0)
unfolding bitset_op
bitset_op-byte op [] [] i len e = sym e
bitset_op-byte op [] (b ∷ s2) i len e = absurd (omega arith)
bitset_op-byte op (a ∷ s1) [] i len e = absurd (omega arith)
bitset_op-byte op (a ∷ s1) (b ∷ s2) zero len e = refl
bitset_op-byte op (a ∷ s1) (b ∷ s2) (suc i) len e = bitset_op-byte op s1 s2 i (omega arith) e

length-bitset_op :
    (op : ℕ → ℕ → ℕ) (s1 s2 : List ℕ)
    → length s1 ≡ length s2
    → length (bitset_op op s1 s2) ≡ length s1
unfolding bitset_op
length-bitset_op op [] s2 len = refl
length-bitset_op op (a ∷ s1) [] len = absurd (omega arith)
length-bitset_op op (a ∷ s1) (b ∷ s2) len = omega (arith, length-bitset_op op s1 s2)

under-or : (x y j : ℕ) → under (bit_or x y) (2 ^ j) ≡ (under x (2 ^ j) || under y (2 ^ j))
under-or x y j =
    rw (under-power j (bit_or x y), under-power j x, under-power j y, digit-or j x y)
      (ground (arith, digit_bound j x, digit_bound j y))

pub under-and : (x y j : ℕ) → under (bit_and x y) (2 ^ j) ≡ (under x (2 ^ j) && under y (2 ^ j))
under-and x y j =
    rw (under-power j (bit_and x y), under-power j x, under-power j y, digit-and j x y)
      (ground (arith, digit_bound j x, digit_bound j y))

pub under-complement : (y j : ℕ) → y < 256 → j < 8 → under (255 - y) (2 ^ j) ≡ not (under y (2 ^ j))
under-complement y j hy hj =
    rw (under-power j (255 - y), under-power j y)
      (ground (arith, digit_bound j y, complement_digit y j hy hj))

-- A result of the length of a set, with these members.
abbrev pub MakesSet : Result Str → Str → (ℕ → Bool) → Type 0
MakesSet result b members =
    (b' : Str) × (result ≡ returned b')
    × (length b'.bytes ≡ length b.bytes)
    × ((m : ℕ) → member b'.bytes m ≡ members m)

bitset_op-MakesSet :
    (op : ℕ → ℕ → ℕ) (f : Bool → Bool → Bool) (alloc_new : Bool) (b1 b2 : Str)
    → op 0 0 ≡ 0
    → ((x y j : ℕ)
        → y < 256
        → j < 8
        → under (op x y) (2 ^ j) ≡ f (under x (2 ^ j)) (under y (2 ^ j)))
    → AreBytes b2.bytes
    → length b1.bytes ≡ length b2.bytes
    → (alloc_new || not b1.readonly) ≡ true
    → MakesSet
        (bitset_binop (string b1) (string b2) alloc_new (bitset_op op))
        b1
        (λ m. f (member b1.bytes m) (member b2.bytes m))
unfolding bitset_binop
bitset_op-MakesSet op f alloc_new b1 b2 e law bytes len ok = (
  record {
    bytes = bitset_op op b1.bytes b2.bytes;
    readonly = if alloc_new then false else b1.readonly;
  },
  ran alloc_new ok,
  length-bitset_op op b1.bytes b2.bytes len,
  λ m. rw (bitset_op-byte op b1.bytes b2.bytes (m / 8) len e) (
      law (get_or b1.bytes (m / 8) 0) (get_or b2.bytes (m / 8) 0) (m % 8)
        (byte_at b2.bytes (m / 8) bytes) (omega arith)),
)
  where
    ran :
        (new : Bool)
        → (new || not b1.readonly) ≡ true
        → bitset_binop (string b1) (string b2) new (bitset_op op)
          ≡ returned (record {
            bytes = bitset_op op b1.bytes b2.bytes;
            readonly = if new then false else b1.readonly;
          })
    ran true ok = rw ((==_iff _ _).1 len) refl
    ran false ok = rw ((==_iff _ _).1 len, ok) refl

-- Union, intersection and difference of bitsets of the same length, into a new set or into the
-- first one if that is not read-only, give a set of that length with the members that the
-- operation on sets has.
pub binary_lem :
    (alloc_new : Bool) (b1 b2 : Str)
    → AreBytes b2.bytes
    → length b1.bytes ≡ length b2.bytes
    → (alloc_new || not b1.readonly) ≡ true
    → MakesSet
        (bunion alloc_new (string b1) (string b2))
        b1
        (λ m. member b1.bytes m || member b2.bytes m)
      × MakesSet
          (bintersection alloc_new (string b1) (string b2))
          b1
          (λ m. member b1.bytes m && member b2.bytes m)
      × MakesSet
          (bdifference alloc_new (string b1) (string b2))
          b1
          (λ m. member b1.bytes m && not (member b2.bytes m))
unfolding bunion bintersection bdifference bunion_op bintersection_op bdifference_op
binary_lem alloc_new b1 b2 bytes len ok = (
  bitset_op-MakesSet bit_or (λ s t. s || t) alloc_new b1 b2 refl (λ x y j _ _. under-or x y j) bytes
      len ok,
  bitset_op-MakesSet bit_and (λ s t. s && t) alloc_new b1 b2 refl (λ x y j _ _. under-and x y j)
      bytes len ok,
  bitset_op-MakesSet (λ a b. bit_and a (255 - b)) (λ s t. s && not t) alloc_new b1 b2 refl
      (λ x y j hy hj. rw (under-and x (255 - y) j, under-complement y j hy hj) refl) bytes len ok,
)
