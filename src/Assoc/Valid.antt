-- ===== src/Assoc/Valid.antt =====
-- assoc.c: an array that is well formed and stands for a finite map; lookup and growth.
use mathlib.Core.List.{flatten}
use mathlib.Core.Path.{fun_ext}
use native.Mathlib.Numerals.{unary_clauses}
use mudlle.Prelude.{
  ℕ, zero, suc, ◌+◌, ◌*◌, ◌^◌, ◌≤◌, ◌<◌, ◌≡◌, inl, inr, refl, ◌∙◌, sym, subst, true, Option, some,
  none, List, [], ◌∷◌, arith, length, get_or, replicate, if◌then◌else◌, Bool-cases, lt→ltb, ◌==◌,
  leb, ltb,
}
use mudlle.Hash.Laws.{pow-pos}
use mudlle.Assoc.{
  AssocType, Node, AssocArray, same, bits_size, find_node, move_all, rehash_assoc_array,
  assoc_array_lookup_node, grow,
}
use mudlle.Assoc.Chain.{Test, value_at}
use mudlle.Assoc.Buckets.{home, IsLawful, test, home_chain, view, Holds, locate-home}
use mudlle.Assoc.Rehash.{replicate-Holds, move_all-Holds}

abbrev pub value_of : {K V : Type 0} → Option (Node K V) → Option V
value_of none = none
value_of (some n) = some n.value

no_nodes : {A : Type 0} (cs : List (List A)) (i : ℕ) → length (flatten cs) ≡ 0 → get_or cs i [] ≡ []
unfolding flatten
no_nodes [] i h = refl
no_nodes ([] ∷ cs) zero h = refl
no_nodes ([] ∷ cs) (suc i) h = no_nodes cs i h
no_nodes ((x ∷ c) ∷ cs) i h = absurd (omega arith)

pub value_at-value_of :
    {K V : Type 0} (p : Test K) (c : List (Node K V)) → value_of (find_node p c) ≡ value_at p c
unfolding value_at
value_at-value_of p c = ground arith

pub bits_size-pos : (b : ℕ) → 0 < b → bits_size b ≡ 2 ^ b
unfolding bits_size
bits_size-pos b h = ground arith

pub bits_size-suc : (b : ℕ) → 0 < b → bits_size (b + 1) ≡ 2 * bits_size b
bits_size-suc b h =
    rw (bits_size-pos b h, bits_size-pos (b + 1) (omega arith)) (simp unary_clauses (omega arith))

pub bits_size-filled : (b n : ℕ) → n < bits_size b * 2 → 0 < b
unfolding bits_size
bits_size-filled b n h = ground arith

module _ {K : Type 0} (type : AssocType K) (law : IsLawful type) {V : Type 0} where
  -- The array is well formed and stands for the map `f`. Less than one node is over a load of 2/3.
  pub record Models (f : K → Option V) (assoc : AssocArray K V) : Type 0 where
    pub narrow : assoc.size_bits < 64
    pub unset : assoc.size_bits ≡ 0 → (assoc.used ≡ 0) × (assoc.nodes ≡ []) × ((q : K) → f q ≡ none)
    pub filled : 0 < assoc.size_bits → Holds type law assoc.size_bits assoc.used f assoc.nodes
    pub sparse : assoc.used * 3 ≤ bits_size assoc.size_bits * 2 + 2

  pub Models-ext :
      (f g : K → Option V) (assoc : AssocArray K V)
      → ((q : K) → f q ≡ g q)
      → Models f assoc
      → Models g assoc
  Models-ext f g assoc same models = subst (λ h. Models h assoc) (fun_ext same) models

  module _ (f : K → Option V) (assoc : AssocArray K V) (models : Models f assoc) where
    pub unused : (k : K) → assoc.used ≡ 0 → f k ≡ none
    unfolding view value_at find_node
    unused k h = elim (Bool-cases (assoc.size_bits == 0)) [
      | inl e ↦ (models.unset (ground arith)).2 k
      | inr e ↦
          let holds = models.filled (ground arith) in
          let empty_chain =
            no_nodes assoc.nodes (home (law.code k) assoc.size_bits) (holds.entries ∙ h) in
          sym (rw empty_chain at (holds.reads k))
    ]

    pub used_filled : 0 < assoc.used → 0 < assoc.size_bits
    used_filled h = elim (Bool-cases (assoc.size_bits == 0)) [
      | inl e ↦ let none_used = (models.unset (ground arith)).0 in omega arith
      | inr e ↦ ground arith
    ]

    -- A lookup fails no assertion and gives what the map has at the key.
    pub assoc_array_lookup_node-Models :
        (k : K)
        → (o : Option (Node K V)) × (assoc_array_lookup_node type assoc k ≡ some o)
          × (value_of o ≡ f k)
          × ((n : Node K V)
              → o ≡ some n
              → (0 < assoc.size_bits)
                × (find_node (test type law k) (home_chain type law assoc.size_bits assoc.nodes k)
                    ≡ some n))
    unfolding assoc_array_lookup_node view
    assoc_array_lookup_node-Models k = elim (Bool-cases (assoc.used == 0)) [
      | inl e ↦ (none, rw e, sym (unused k (ground arith)), λ n absurd_e. absurd (cc))
      | inr e ↦
          let holds = models.filled (used_filled (ground arith)) in
          let chain = home_chain type law assoc.size_bits assoc.nodes k in
          (
            find_node (test type law k) chain,
            rw (e, locate-home type law assoc k models.narrow holds.width),
            value_at-value_of (test type law k) chain ∙ holds.reads k,
            λ n found. (used_filled (ground arith), found),
          )
    ]

    pub rehash_assoc_array-Models :
        (bits : ℕ)
        → 0 < bits
        → bits < 64
        → assoc.used * 3 ≤ bits_size bits * 2
        → (g : AssocArray K V) × (rehash_assoc_array assoc bits ≡ some g)
          × Models f g
          × (g.used ≡ assoc.used)
          × (g.size_bits ≡ bits)
    unfolding rehash_assoc_array move_all
    rehash_assoc_array-Models bits pos narrow room =
        let (result, run, t) = moved in
        (
          record assoc { nodes = result; size_bits = bits },
          (let positive : ltb 0 (bits_size bits) ≡ true =
                lt→ltb 0 (bits_size bits) (rw (bits_size-pos bits pos) (pow-pos bits)) in
              rw (positive, bits_size-pos bits pos, run)),
          record {
            narrow = narrow;
            unset = λ z. absurd (omega arith);
            filled = λ _. t;
            sparse = omega arith;
          },
          refl,
          refl,
        )
      where
        moved :
            (result : List (List (Node K V))) × (move_all bits assoc.nodes (replicate (2 ^ bits) [])
              ≡ some result)
            × Holds type law bits assoc.used f result
        moved = elim (Bool-cases (assoc.size_bits == 0)) [
          | inl e ↦
              let start = replicate-Holds type law {V = V} bits in
              let (none_used, no_chains, nothing) = models.unset (ground arith) in
              (
                replicate (2 ^ bits) [],
                rw no_chains,
                record {
                  width = start.width;
                  entries = start.entries ∙ sym none_used;
                  placed = start.placed;
                  hashed = start.hashed;
                  reads = λ q. start.reads q ∙ sym (nothing q);
                },
              )
          | inr e ↦
              move_all-Holds type law assoc.size_bits bits assoc.used f assoc.nodes narrow
                (models.filled (ground arith))
        ]

    -- The next size has room for one more node.
    more_room :
        let bits = if assoc.size_bits == 0 then 4 else assoc.size_bits + 1 in
        assoc.used * 3 < bits_size bits * 2
    more_room = elim (Bool-cases (assoc.size_bits == 0)) [
      | inl e ↦
          let none_used = (models.unset (ground arith)).0 in
          rw (e, none_used, bits_size-pos 4 (omega arith)) (omega arith)
      | inr e ↦
          let sparse = models.sparse in
          let bits_pos : 0 < assoc.size_bits = ground arith in
          let old = bits_size-pos assoc.size_bits bits_pos in
          rw (e, bits_size-suc assoc.size_bits bits_pos)
            (omega (arith, pow-pos assoc.size_bits, old, sparse))
    ]

    -- With room for the new node no assertion fails, and the map is the same.
    pub grow-Models :
        assoc.size_bits < 63
        → (g : AssocArray K V) × (grow assoc ≡ some g)
          × Models f g
          × (g.used ≡ assoc.used)
          × (g.used * 3 < bits_size g.size_bits * 2)
    unfolding grow
    grow-Models narrow = elim (Bool-cases (leb (bits_size assoc.size_bits * 2) (assoc.used * 3))) [
      | inr e ↦ (assoc, rw e, models, refl, ground arith)
      | inl e ↦
          let bits : ℕ = if assoc.size_bits == 0 then 4 else assoc.size_bits + 1 in
          let room : assoc.used * 3 < bits_size bits * 2 = more_room in
          let (g, run, m, same_used, width) =
            rehash_assoc_array-Models bits (ground arith) (ground arith) (omega arith) in
          (g, rw (e, run), m, same_used, rw (same_used, width) room)
    ]
