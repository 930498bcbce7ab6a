-- ===== src/Tests/BitsetRuns.antt =====
-- runtime/bitset.c at concrete sets.
use mudlle.Prelude.{Bool, ◌≡◌, ◌↔◌, refl, [], ◌∷◌, true, false, ◌&&◌, ◌||◌, not, ◌==◌, arith}
use mudlle.Prelude.Int.{pos}
use mudlle.Error.{returned, raised, value_read_only}
use mudlle.Table.{Str}
use mudlle.Bitset.{
  string, integer, set_bitb, clear_bitb, bit_is_set, bunion, bintersection, bdifference, bitset_inp,
  bcount,
}
use mudlle.Bitset.Members.{member, Changed, bit_lem}
use mudlle.Bitset.Count.{population, bcount-population}
use mudlle.Bitset.Subset.{Subset, bitset_inp_iff}
use mudlle.Bitset.Binary.{MakesSet, binary_lem}

-- The sets of 0, 3 and 8, and of 3 and 15.
abbrev some_bits : Str
some_bits = record { bytes = 9 ∷ 1 ∷ []; readonly = false }

abbrev more_bits : Str
more_bits = record { bytes = 8 ∷ 128 ∷ []; readonly = true }

bit_lem_example :
    (false ≡ false
      → Changed
          (set_bitb (string some_bits) (integer (pos 9)))
          some_bits
          (λ m. (9 == m) || member some_bits.bytes m)
        × Changed
            (clear_bitb (string some_bits) (integer (pos 9)))
            some_bits
            (λ m. not (9 == m) && member some_bits.bytes m))
    × (false ≡ true
        → (set_bitb (string some_bits) (integer (pos 9)) ≡ raised value_read_only)
          × (clear_bitb (string some_bits) (integer (pos 9)) ≡ raised value_read_only))
    × (bit_is_set (string some_bits) (integer (pos 9)) ≡ returned (member some_bits.bytes 9))
bit_lem_example = bit_lem some_bits 9 (omega arith)

binary_lem_example :
    MakesSet
      (bunion true (string some_bits) (string more_bits))
      some_bits
      (λ m. member some_bits.bytes m || member more_bits.bytes m)
    × MakesSet
        (bintersection true (string some_bits) (string more_bits))
        some_bits
        (λ m. member some_bits.bytes m && member more_bits.bytes m)
    × MakesSet
        (bdifference true (string some_bits) (string more_bits))
        some_bits
        (λ m. member some_bits.bytes m && not (member more_bits.bytes m))
binary_lem_example = binary_lem true some_bits more_bits (omega arith, (omega arith, tt)) refl refl

bcount-population_example : bcount (string some_bits) ≡ returned (population some_bits.bytes)
bcount-population_example = bcount-population some_bits (omega arith, (omega arith, tt))

bitset_inp_iff_example :
    (result : Bool) × (bitset_inp (string some_bits) (string more_bits) ≡ returned result)
    × ((result ≡ true) ↔ Subset some_bits.bytes more_bits.bytes)
bitset_inp_iff_example =
    bitset_inp_iff some_bits more_bits (omega arith, (omega arith, tt))
      (omega arith, (omega arith, tt)) refl

count_of_three : bcount (string some_bits) ≡ returned 3
unfolding bcount
count_of_three = refl
