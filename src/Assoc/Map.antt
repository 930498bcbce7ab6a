-- ===== src/Assoc/Map.antt =====
-- assoc.c: the operations on a well-formed array, as operations on the map that it stands for.
use mudlle.Prelude.{
  ℕ, suc, ◌+◌, ◌-◌, ◌*◌, ◌<◌, ◌≡◌, inl, inr, refl, ◌∙◌, sym, Bool, true, false, Option, some, none,
  List, [], ◌∷◌, arith, Each, if◌then◌else◌, Bool-cases, Option-cases, ◌==◌, ◌>>=◌, set,
}
use mudlle.Assoc.{
  AssocType, Node, AssocArray, Freed, data_of, empty, bits_size, find_node, write_data, unlink_node,
  assoc_array_lookup_ref, assoc_array_add, write_ref, assoc_array_force_ref, assoc_array_set,
  free_node, assoc_array_remove,
}
use mudlle.Assoc.Chain.{
  Test, value_at-write_data, value_at-unlink_node, hits-write_data, hits-unlink_node,
  length-write_data, length-unlink_node,
}
use mudlle.Assoc.Buckets.{
  home, IsLawful, test, test-Related, home_chain, view, view_alike, update, set-Holds,
  prepend-Holds, length-home_chain, locate-home,
}
use mudlle.Assoc.Valid.{
  value_of, unused, used_filled, Models-ext, value_at-value_of, bits_size-filled, Models,
  assoc_array_lookup_node-Models, grow-Models,
}

abbrev pub is_some {ℓ} : {A : Type ℓ} → Option A → Bool
is_some none = false
is_some (some _) = true

abbrev pub or_null : {V : Type 0} → V → Option V → V
or_null null none = null
or_null null (some v) = v

abbrev pub freed_node : {K V : Type 0} → AssocType K → Option (Node K V) → List (Freed K V)
freed_node type none = []
freed_node type (some n) = free_node type n

module _ {K V : Type 0} (code : K → ℕ) (p : Test K) where
  hashed-write_data :
      (v : V) (c : List (Node K V))
      → Each c (λ n. n.hash ≡ code n.key)
      → Each (write_data p v c) (λ n. n.hash ≡ code n.key)
  unfolding write_data
  hashed-write_data v [] h = h
  hashed-write_data v (n ∷ c) h = ground (arith, hashed-write_data v c)

  hashed-unlink_node :
      (c : List (Node K V))
      → Each c (λ n. n.hash ≡ code n.key)
      → Each (unlink_node p c) (λ n. n.hash ≡ code n.key)
  unfolding unlink_node
  hashed-unlink_node [] h = h
  hashed-unlink_node (n ∷ c) h = ground (arith, hashed-unlink_node c)

test-find_node :
    {K V : Type 0} (p : Test K) (c : List (Node K V)) (n : Node K V)
    → find_node p c ≡ some n
    → p n.hash n.key ≡ true
unfolding find_node
test-find_node p [] n h = absurd (cc)
test-find_node p (m ∷ c) n h = ground (arith, test-find_node p c n)

module _ {K : Type 0} (type : AssocType K) (law : IsLawful type) {V : Type 0} where
  module _ (f : K → Option V) (assoc : AssocArray K V) (models : Models type law f assoc)
      (k : K) where
    assoc_array_add-Models :
        (v : V)
        → assoc.size_bits < 63
        → f k ≡ none
        → (a : AssocArray K V) × (assoc_array_add type assoc k v ≡ some a)
          × Models type law (update type law f k (some v)) a
    unfolding assoc_array_add
    assoc_array_add-Models v narrow absent =
        let (g, run, m, same_used, room) = grow-Models type law f assoc models narrow in
        let filled : 0 < g.size_bits = bits_size-filled g.size_bits (g.used * 3) room in
        let holds = m.filled filled in
        let node : Node K V = record { hash = law.code k; key = k; value = v } in
        let t = prepend-Holds type law g.size_bits g.used f g.nodes node holds refl absent in
        let more : suc g.used ≡ g.used + 1 = omega arith in
        (
          record g { nodes = _; used = g.used + 1 },
          rw (run, locate-home type law g k m.narrow holds.width),
          record {
            narrow = m.narrow;
            unset = λ z. absurd (omega arith);
            filled = λ _. rw more at t;
            sparse = omega arith;
          },
        )

    module _ (n : Node K V) (filled : 0 < assoc.size_bits) where
      abbrev chain : List (Node K V)
      chain = home_chain type law assoc.size_bits assoc.nodes k

      write_ref-Models :
          (v : V)
          → find_node (test type law k) chain ≡ some n
          → (a : AssocArray K V) × (write_ref type assoc k v ≡ some a)
            × Models type law (update type law f k (some v)) a
      unfolding write_ref
      write_ref-Models v found =
          let holds = models.filled filled in
          let t =
            set-Holds type law assoc.size_bits assoc.used f assoc.nodes k holds (some v)
              (write_data (test type law k) v chain) assoc.used
              (omega (arith, length-write_data (test type law k) v chain))
              (λ q. omega (arith, hits-write_data (test type law k) (test type law q) v chain))
              (λ q.
                value_at-write_data (type.is_equal q k) (test type law k) (test type law q)
                  (test-Related type law k q) v chain n found)
              (hashed-write_data law.code (test type law k) v chain (holds.hashed _)) in
          (
            record assoc { nodes = _ },
            rw (locate-home type law assoc k models.narrow holds.width),
            record {
              narrow = models.narrow;
              unset = λ z. absurd (omega arith);
              filled = λ _. t;
              sparse = models.sparse;
            },
          )

      unlink-Models :
          find_node (test type law k) chain ≡ some n
          → Models type law (update type law f k none) (record assoc {
            nodes =
                set assoc.nodes
                  (home (law.code k) assoc.size_bits)
                  (unlink_node (test type law k) chain);
            used = assoc.used - 1;
          })
      unlink-Models found =
          let holds = models.filled filled in
          let shorter = length-unlink_node (test type law k) chain n found in
          let t =
            set-Holds type law assoc.size_bits assoc.used f assoc.nodes k holds none
              (unlink_node (test type law k) chain) (assoc.used - 1)
              (omega (
                arith,
                shorter,
                length-home_chain type law assoc.size_bits assoc.used f assoc.nodes k holds,
              ))
              (λ q. omega (arith, hits-unlink_node (test type law k) (test type law q) chain))
              (λ q.
                value_at-unlink_node (type.is_equal q k) (test type law k) (test type law q)
                  (test-Related type law k q) chain (holds.placed q _).0)
              (hashed-unlink_node law.code (test type law k) chain (holds.hashed _)) in
          record {
            narrow = models.narrow;
            unset = λ z. absurd (omega arith);
            filled = λ _. t;
            sparse = omega (arith, models.sparse);
          }

    -- What a call of `assoc_array_set` frees, by the old data.
    abbrev pub freed_data : Option V → List (Freed K V)
    freed_data none = []
    freed_data (some old) = if type.free_data then data_of old ∷ [] else []

    -- Setting a key updates the map there, and frees the data that it replaces.
    pub assoc_array_set-Models :
        (v : V)
        → assoc.size_bits < 63
        → (a : AssocArray K V) × (assoc_array_set type assoc k v ≡ some (freed_data (f k), a))
          × Models type law (update type law f k (some v)) a
    unfolding assoc_array_set
    assoc_array_set-Models v narrow =
        let (o, run, value, where_it_is) =
          assoc_array_lookup_node-Models type law f assoc models k in
        elim (Option-cases o) [
          | inl e ↦
              let absent : f k ≡ none = sym value ∙ (rw e) in
              let (a, add, m) = assoc_array_add-Models v narrow absent in
              (a, rw (run, e, add, absent), m)
          | inr (n, e) ↦
              let present : f k ≡ some n.value = sym value ∙ (rw e) in
              let (filled, found) = where_it_is n e in
              let (a, write, m) = write_ref-Models n filled v found in
              (a, rw (run, e, write, present), m)
        ]

    -- The map has one value for equal keys.
    pub reads_alike : (q : K) → type.is_equal q k ≡ true → f q ≡ f k
    reads_alike q same = elim (Bool-cases (assoc.size_bits == 0)) [
      | inl e ↦ let nothing = (models.unset (ground arith)).2 in nothing q ∙ sym (nothing k)
      | inr e ↦
          let holds = models.filled (ground arith) in
          sym (holds.reads q)
          ∙ view_alike type law assoc.size_bits assoc.nodes k q same
          ∙ holds.reads k
    ]

    unchanged : (v : Option V) → f k ≡ v → (q : K) → f q ≡ update type law f k v q
    unchanged v e q = ground (arith, reads_alike q)

    -- Removing a key clears the map there; the node that is freed had a key equal to it.
    pub assoc_array_remove-Models :
        (o : Option (Node K V)) × (a : AssocArray K V) × (assoc_array_remove type assoc k
          ≡ some (is_some o, freed_node type o, a))
        × (value_of o ≡ f k)
        × Models type law (update type law f k none) a
        × ((n : Node K V) → o ≡ some n → type.is_equal k n.key ≡ true)
    unfolding assoc_array_remove view
    assoc_array_remove-Models = elim (Bool-cases (assoc.used == 0)) [
      | inl e ↦
          let absent = unused type law f assoc models k (ground arith) in
          (
            none,
            assoc,
            rw e,
            sym absent,
            Models-ext type law f _ assoc (unchanged none absent) models,
            λ n bad. absurd (cc),
          )
      | inr e ↦
          let filled = used_filled type law f assoc models (ground arith) in
          let holds = models.filled filled in
          let old = home_chain type law assoc.size_bits assoc.nodes k in
          let located = locate-home type law assoc k models.narrow holds.width in
          let value = value_at-value_of (test type law k) old ∙ holds.reads k in
          elim (Option-cases (find_node (test type law k) old)) [
            | inl missing ↦
                let absent : f k ≡ none = sym value ∙ (rw missing) in
                (
                  none,
                  assoc,
                  rw (e, located, ◌>>=◌, missing),
                  sym absent,
                  Models-ext type law f _ assoc (unchanged none absent) models,
                  λ n bad. absurd (cc),
                )
            | inr (n, found) ↦ (
              some n,
              record assoc { nodes = _; used = assoc.used - 1 },
              rw (e, located, ◌>>=◌, found),
              rw found at value,
              unlink-Models n filled found,
              λ m same_node.
                  let hit = test-find_node (test type law k) old m (found ∙ same_node) in
                  ground arith,
            )
          ]
    ]

    pub assoc_array_lookup_ref-Models : assoc_array_lookup_ref type assoc k ≡ some (f k)
    unfolding assoc_array_lookup_ref
    assoc_array_lookup_ref-Models =
        let (o, run, value, _) = assoc_array_lookup_node-Models type law f assoc models k in
        elim (Option-cases o) [
          | inl e ↦ let absent : f k ≡ none = sym value ∙ (rw e) in rw (run, e, absent)
          | inr (n, e) ↦
              let present : f k ≡ some n.value = sym value ∙ (rw e) in rw (run, e, present)
        ]

    pub write_ref-lookup :
        (old v : V)
        → f k ≡ some old
        → (a : AssocArray K V) × (write_ref type assoc k v ≡ some a)
          × Models type law (update type law f k (some v)) a
    write_ref-lookup old v present =
        let (o, run, value, where_it_is) =
          assoc_array_lookup_node-Models type law f assoc models k in
        elim (Option-cases o) [
          | inl e ↦ absurd (let missing : f k ≡ none = sym value ∙ (rw e) in cc)
          | inr (n, e) ↦ write_ref-Models n (where_it_is n e).0 v (where_it_is n e).1
        ]

    pub assoc_array_force_ref-Models :
        (null : V)
        → assoc.size_bits < 63
        → (a : AssocArray K V) × (assoc_array_force_ref type null assoc k
            ≡ some (or_null null (f k), a))
          × Models type law (update type law f k (some (or_null null (f k)))) a
    unfolding assoc_array_force_ref
    assoc_array_force_ref-Models null narrow = elim (Option-cases (f k)) [
      | inl absent ↦
          let (a, add, m) = assoc_array_add-Models null narrow absent in
          (a, rw (assoc_array_lookup_ref-Models, absent, add), rw absent m)
      | inr (v, present) ↦ (
        assoc,
        rw (assoc_array_lookup_ref-Models, present),
        Models-ext type law f _ assoc (unchanged _ (rw present)) models,
      )
    ]

  pub empty-Models : Models type law {V = V} (λ _. none) empty
  unfolding bits_size
  empty-Models = record {
    narrow = omega arith;
    unset = λ _. (refl, refl, λ _. refl);
    filled = λ h. absurd (omega arith);
    sparse = omega arith;
  }
