-- ===== src/Tests/AssocRuns.antt =====
-- assoc.c at concrete inputs: arrays with longs for keys.
use mudlle.Prelude.{ℕ, ◌≡◌, refl, true, Option, some, [], ◌∷◌, arith, ltb, set, replicate}
use mudlle.Hash.{fold_hash_n, fnv_loop, symbol_nhash, string_nhash, fold_hash}
use mudlle.Assoc.{
  AssocArray, key_of, empty, bits_size, find_node, unlink_node, move_all, rehash_assoc_array,
  locate, assoc_array_lookup_node, assoc_array_lookup_key, grow, assoc_array_add, assoc_array_set,
  assoc_array_remove, assoc_array_free, free_nodes, free_chain, assoc_array_exists, exists_nodes,
  exists_chain,
}
use mudlle.Assoc.Types.{
  long_to_voidp_assoc_array_type, malloc_charp_to_voidp_assoc_array_type, assoc_array_hash_long,
  assoc_array_long_equal, CString,
}
use mudlle.Assoc.Keys.{long-IsLawful}
use mudlle.Assoc.Reach.{Reach, Step, IsWellFormed, Reach-IsWellFormed}
use mudlle.Assoc.Reach.Reach.{new, next}
use mudlle.Assoc.Lookup.{LookupAfter, lookup-LookupAfter}

-- An array with data 100 at the key 5, whose bucket of 16 is the third.
abbrev one_key : AssocArray ℕ ℕ
one_key = record {
  used = 1;
  size_bits = 4;
  nodes =
      set (replicate 16 []) 2
        ((record { hash = 1_000_385_178_204_227_360; key = 5; value = 100 }) ∷ []);
}

abbrev letter : CString
letter = record { text = 97 ∷ []; ended = ((omega arith, omega arith), tt) }

set_first : assoc_array_set long_to_voidp_assoc_array_type empty 5 100 ≡ some ([], one_key)
unfolding long_to_voidp_assoc_array_type assoc_array_hash_long assoc_array_long_equal
    assoc_array_set assoc_array_lookup_node assoc_array_add grow rehash_assoc_array move_all
    bits_size locate string_nhash symbol_nhash fold_hash fold_hash_n fnv_loop
set_first = refl

reach_one : Reach long_to_voidp_assoc_array_type long-IsLawful.1 0 one_key
reach_one = next new (Step.set 5 100 [] (omega arith) set_first)

Reach-IsWellFormed_example : IsWellFormed long_to_voidp_assoc_array_type long-IsLawful.1 0 one_key
Reach-IsWellFormed_example =
    Reach-IsWellFormed long_to_voidp_assoc_array_type long-IsLawful.1 0 one_key reach_one

lookup-LookupAfter_example :
    (o : Option ℕ) × LookupAfter long_to_voidp_assoc_array_type long-IsLawful.1 0 one_key 7 5 200 o
lookup-LookupAfter_example =
    lookup-LookupAfter long_to_voidp_assoc_array_type long-IsLawful.1 0 reach_one (omega arith) 7 5
      200

looked_up : assoc_array_lookup_key long_to_voidp_assoc_array_type 0 one_key 5 ≡ some (100, some 5)
unfolding long_to_voidp_assoc_array_type assoc_array_hash_long assoc_array_long_equal locate
    find_node assoc_array_lookup_node assoc_array_lookup_key string_nhash symbol_nhash fold_hash
    fold_hash_n fnv_loop
looked_up = refl

removed :
    assoc_array_remove long_to_voidp_assoc_array_type one_key 5
    ≡ some (true, [], record { used = 0; size_bits = 4; nodes = replicate 16 [] })
unfolding long_to_voidp_assoc_array_type assoc_array_hash_long assoc_array_long_equal locate
    find_node assoc_array_remove unlink_node string_nhash symbol_nhash fold_hash fold_hash_n
    fnv_loop
removed = refl

all_freed :
    assoc_array_free {V = ℕ} malloc_charp_to_voidp_assoc_array_type (record {
      used = 2;
      size_bits = 1;
      nodes =
          ((record { hash = 0; key = letter; value = 1 }) ∷ [])
          ∷ ((record { hash = 1; key = letter; value = 2 }) ∷ [])
          ∷ [];
    })
    ≡ (key_of letter ∷ key_of letter ∷ [], empty)
unfolding malloc_charp_to_voidp_assoc_array_type assoc_array_free free_nodes free_chain
all_freed = refl

one_large : assoc_array_exists one_key (λ k v. ltb 50 v) ≡ true
unfolding assoc_array_exists exists_nodes exists_chain
one_large = refl
