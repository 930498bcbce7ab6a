-- ===== src/Assoc.antt =====
-- assoc.c and assoc.h: hash tables whose buckets are chains of nodes.
-- `none` of a function that returns an Option is a failed assertion or an index outside `nodes`.
-- The field `type`, which is set once, is a parameter. A pointer to a node or to its data is
-- read and written through the key that found it. Counts of nodes, each of which takes memory,
-- do not wrap.
pub mod Chain
pub mod Buckets
pub mod Rehash
pub mod Valid
pub mod Map
pub mod Reach
pub mod Lookup
pub mod Types
pub mod Keys
use mudlle.Prelude.{
  ℕ, suc, ◌+◌, ◌-◌, ◌*◌, ◌^◌, Bool, true, false, ◌&&◌, ◌||◌, Option, some, none, List, [], ◌∷◌,
  ◌++◌, leb, ltb, ◌==◌, if◌then◌else◌, ◌>>=◌, ◌>>◌, guard, get_elem?, set, replicate,
}
use mudlle.Hash.{fold_hash}

-- Whether there is a function to free keys, and one for data.
pub record AssocType (K : Type 0) : Type 0 where
  pub is_equal : K → K → Bool
  pub hash : K → Option ℕ
  pub free_key : Bool
  pub free_data : Bool

pub record Node (K V : Type 0) : Type 0 where
  pub hash : ℕ
  pub key : K
  pub value : V

-- `nodes` has the chain of each bucket; it is empty when it is NULL.
pub record AssocArray (K V : Type 0) : Type 0 where
  pub used : ℕ
  pub size_bits : ℕ
  pub nodes : List (List (Node K V))

-- What a call hands to `free_key` and `free_data`.
pub data Freed (K V : Type 0) : Type 0 where
  key_of : K → Freed K V
  data_of : V → Freed K V

unfoldable pub bits_size : ℕ → ℕ
bits_size bits = if bits == 0 then 0 else 2 ^ bits

abbrev pub empty : {K V : Type 0} → AssocArray K V
empty = record { used = 0; size_bits = 0; nodes = [] }

-- The test of the two loops over a chain.
abbrev pub same : {K : Type 0} → AssocType K → ℕ → K → ℕ → K → Bool
same type hash key h k = (h == hash) && type.is_equal key k

module _ {K V : Type 0} where
  unfoldable pub find_node : (ℕ → K → Bool) → List (Node K V) → Option (Node K V)
  find_node test [] = none
  find_node test (node ∷ chain) =
      let rest = find_node test chain in if test node.hash node.key then some node else rest

  -- `node->data = data` for the node that is found
  unfoldable pub write_data : (ℕ → K → Bool) → V → List (Node K V) → List (Node K V)
  write_data test v [] = []
  write_data test v (node ∷ chain) =
      let rest = write_data test v chain in
      if test node.hash node.key then (record node { value = v }) ∷ chain else node ∷ rest

  -- `*nodep = node->next`
  unfoldable pub unlink_node : (ℕ → K → Bool) → List (Node K V) → List (Node K V)
  unlink_node test [] = []
  unlink_node test (node ∷ chain) =
      let rest = unlink_node test chain in if test node.hash node.key then chain else node ∷ rest

  -- The inner and the outer loop of `rehash_assoc_array`.
  unfoldable pub move_chain :
      ℕ → List (Node K V) → List (List (Node K V)) → Option (List (List (Node K V)))
  move_chain size_bits [] nodes = some nodes
  move_chain size_bits (node ∷ chain) nodes = do
    bucket ← fold_hash node.hash size_bits
    there ← get_elem? nodes bucket
    move_chain size_bits chain (set nodes bucket (node ∷ there))

  unfoldable pub move_all :
      ℕ → List (List (Node K V)) → List (List (Node K V)) → Option (List (List (Node K V)))
  move_all size_bits [] nodes = some nodes
  move_all size_bits (chain ∷ chains) nodes =
      move_chain size_bits chain nodes >>= move_all size_bits chains

  unfoldable pub rehash_assoc_array : AssocArray K V → ℕ → Option (AssocArray K V)
  rehash_assoc_array assoc size_bits = do
    let size = bits_size size_bits
    guard (ltb 0 size)
    nodes ← move_all size_bits assoc.nodes (replicate size [])
    some (record assoc { nodes = nodes; size_bits = size_bits })

  -- The growth at the start of `assoc_array_add`.
  unfoldable pub grow : AssocArray K V → Option (AssocArray K V)
  grow assoc =
      if leb (bits_size assoc.size_bits * 2) (assoc.used * 3)
      then rehash_assoc_array assoc (if assoc.size_bits == 0 then 4 else assoc.size_bits + 1)
      else some assoc

module _ {K V : Type 0} (type : AssocType K) where
  -- The bucket of a key and the chain that starts there, with the hash.
  unfoldable pub locate : AssocArray K V → K → Option (ℕ × ℕ × List (Node K V))
  locate assoc key = do
    hash ← type.hash key
    bucket ← fold_hash hash assoc.size_bits
    chain ← get_elem? assoc.nodes bucket
    some (hash, bucket, chain)

  unfoldable pub assoc_array_lookup_node : AssocArray K V → K → Option (Option (Node K V))
  assoc_array_lookup_node assoc key =
      if assoc.used == 0
      then some none
      else do (hash, _, chain) ← locate assoc key; some (find_node (same type hash key) chain)

  -- `null` is the null pointer among the data.
  module _ (null : V) where
    unfoldable pub assoc_array_lookup_key : AssocArray K V → K → Option (V × Option K)
    assoc_array_lookup_key assoc key = do
      node ← assoc_array_lookup_node assoc key
      some (elim node [ some n ↦ (n.value, some n.key) | none ↦ (null, none) ])

    unfoldable pub assoc_array_lookup : AssocArray K V → K → Option V
    assoc_array_lookup assoc key = do r ← assoc_array_lookup_key assoc key; some r.0

  -- The data that the returned pointer points to, if it is not NULL.
  unfoldable pub assoc_array_lookup_ref : AssocArray K V → K → Option (Option V)
  assoc_array_lookup_ref assoc key = do
    node ← assoc_array_lookup_node assoc key
    some (elim node [ some n ↦ some n.value | none ↦ none ])

  unfoldable pub assoc_array_add : AssocArray K V → K → V → Option (AssocArray K V)
  assoc_array_add assoc key v = do
    grown ← grow assoc
    (hash, bucket, chain) ← locate grown key
    let node : Node K V = record { hash = hash; key = key; value = v }
    some (record grown { nodes = set grown.nodes bucket (node ∷ chain); used = grown.used + 1 })

  -- A write through the pointer that `assoc_array_lookup_ref` returns.
  unfoldable pub write_ref : AssocArray K V → K → V → Option (AssocArray K V)
  write_ref assoc key v = do
    (hash, bucket, chain) ← locate assoc key
    some (record assoc { nodes = set assoc.nodes bucket (write_data (same type hash key) v chain) })

  -- The data that the returned pointer points to.
  unfoldable pub assoc_array_force_ref : V → AssocArray K V → K → Option (V × AssocArray K V)
  assoc_array_force_ref null assoc key = do
    found ← assoc_array_lookup_ref assoc key
    elim found [
      | some v ↦ some (v, assoc)
      | none ↦ do added ← assoc_array_add assoc key null; some (null, added)
    ]

  unfoldable pub assoc_array_set :
      AssocArray K V → K → V → Option (List (Freed K V) × AssocArray K V)
  assoc_array_set assoc key v = do
    found ← assoc_array_lookup_node assoc key
    elim found [
      | some node ↦ do
        written ← write_ref assoc key v
        some (if type.free_data then data_of node.value ∷ [] else [], written)
      | none ↦ do added ← assoc_array_add assoc key v; some ([], added)
    ]

  unfoldable pub assoc_array_set_adopt_key :
      AssocArray K V → K → V → Option (List (Freed K V) × AssocArray K V)
  assoc_array_set_adopt_key assoc key v = do guard type.free_key; assoc_array_set assoc key v

  -- What is freed with a node.
  abbrev pub free_node : Node K V → List (Freed K V)
  free_node node =
      (if type.free_key then key_of node.key ∷ [] else [])
      ++ (if type.free_data then data_of node.value ∷ [] else [])

  -- Whether the key was found, what was freed, and the array after the call.
  unfoldable pub assoc_array_remove :
      AssocArray K V → K → Option (Bool × List (Freed K V) × AssocArray K V)
  assoc_array_remove assoc key = if assoc.used == 0 then some (false, [], assoc) else do
    (hash, bucket, chain) ← locate assoc key
    elim (find_node (same type hash key) chain) [
      | none ↦ some (false, [], assoc)
      | some node ↦
          let shorter = unlink_node (same type hash key) chain in
          some (
            true,
            free_node node,
            record assoc { nodes = set assoc.nodes bucket shorter; used = assoc.used - 1 },
          )
    ]

module _ {K V : Type 0} where
  -- The two nested loops of a walk, with what the callback makes of its own state.
  unfoldable pub foreach_chain : {S : Type 0} → (K → V → S → S) → List (Node K V) → S → S
  foreach_chain f [] s = s
  foreach_chain f (node ∷ chain) s = foreach_chain f chain (f node.key node.value s)

  unfoldable pub foreach_nodes : {S : Type 0} → (K → V → S → S) → List (List (Node K V)) → S → S
  foreach_nodes f [] s = s
  foreach_nodes f (chain ∷ chains) s = foreach_nodes f chains (foreach_chain f chain s)

  unfoldable pub assoc_array_foreach : {S : Type 0} → AssocArray K V → (K → V → S → S) → S → S
  assoc_array_foreach assoc f s = foreach_nodes f assoc.nodes s

  unfoldable pub exists_chain : (K → V → Bool) → List (Node K V) → Bool
  exists_chain f [] = false
  exists_chain f (node ∷ chain) = f node.key node.value || exists_chain f chain

  unfoldable pub exists_nodes : (K → V → Bool) → List (List (Node K V)) → Bool
  exists_nodes f [] = false
  exists_nodes f (chain ∷ chains) = exists_chain f chain || exists_nodes f chains

  unfoldable pub assoc_array_exists : AssocArray K V → (K → V → Bool) → Bool
  assoc_array_exists assoc f = exists_nodes f assoc.nodes

module _ {K V : Type 0} (type : AssocType K) where
  unfoldable pub free_chain : List (Node K V) → List (Freed K V)
  free_chain [] = []
  free_chain (node ∷ chain) = free_node type node ++ free_chain chain

  unfoldable pub free_nodes : List (List (Node K V)) → List (Freed K V)
  free_nodes [] = []
  free_nodes (chain ∷ chains) = free_chain chain ++ free_nodes chains

  -- What is freed, and the array after the call.
  unfoldable pub assoc_array_free : AssocArray K V → List (Freed K V) × AssocArray K V
  assoc_array_free assoc = (free_nodes assoc.nodes, empty)
