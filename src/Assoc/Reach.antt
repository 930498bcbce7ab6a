-- ===== src/Assoc/Reach.antt =====
-- assoc.c: what any sequence of calls makes of an empty array, and what a lookup gives after one.
use mathlib.Core.List.{flatten}
use mudlle.Prelude.{
  ℕ, ◌*◌, ◌+◌, ◌≤◌, ◌<◌, ◌≡◌, ◌≢◌, sym, subst, ◌∙◌, Bool, Option, some, none, List, [], ◌∷◌, arith,
  ℕ_discrete, length, get_or, Each, Bool-cases, inl, inr, ◌==◌,
}
use mudlle.Hash.{fold_hash}
use mudlle.Assoc.{
  AssocType, Node, AssocArray, Freed, empty, bits_size, assoc_array_lookup_ref, write_ref,
  assoc_array_force_ref, assoc_array_set, assoc_array_remove, assoc_array_free,
}
use mudlle.Assoc.Chain.{hits}
use mudlle.Assoc.Buckets.{IsLawful, home, test, fold_hash-home}
use mudlle.Assoc.Rehash.{only_there}
use mudlle.Assoc.Valid.{Models}
use mudlle.Assoc.Map.{
  assoc_array_set-Models, assoc_array_remove-Models, assoc_array_lookup_ref-Models,
  assoc_array_force_ref-Models, write_ref-lookup, empty-Models,
}

in_bucket :
    {K V : Type 0} (type : AssocType K) (law : IsLawful type) (c : List (Node K V)) (bits i : ℕ)
    → bits < 64
    → ((q : K) → home (law.code q) bits ≢ i → hits (test type law q) c ≡ 0)
    → Each c (λ n. n.hash ≡ law.code n.key)
    → Each c (λ n. (type.hash n.key ≡ some n.hash) × (fold_hash n.hash bits ≡ some i))
unfolding hits
in_bucket type law [] bits i narrow placed hashed = tt
in_bucket type law (n ∷ c) bits i narrow placed hashed =
    let at = home (law.code n.key) bits in
    let there : at ≡ i = elim (ℕ_discrete at i) [
      | yes e ↦ e
      | no ne ↦ absurd (let none_hit = placed n.key ne in ground (arith, law.refl_equal n.key))
    ] in
    (
      (
        law.hashes n.key ∙ (rw hashed.0),
        rw (hashed.0, fold_hash-home (law.code n.key) bits narrow, there),
      ),
      in_bucket type law c bits i narrow (λ q ne. omega (arith, placed q ne)) hashed.1,
    )

module _ {K : Type 0} (type : AssocType K) (law : IsLawful type) {V : Type 0} (null : V) where
  -- A call that returns. The bound on `size_bits` is that of a table that fits the memory.
  pub data Step (a b : AssocArray K V) : Type 0 where
    set :
        (k : K) (v : V) (freed : List (Freed K V))
        → a.size_bits < 63
        → assoc_array_set type a k v ≡ some (freed, b)
        → Step a b
    remove :
        (k : K) (found : Bool) (freed : List (Freed K V))
        → assoc_array_remove type a k ≡ some (found, freed, b)
        → Step a b
    force :
        (k : K) (v : V)
        → a.size_bits < 63
        → assoc_array_force_ref type null a k ≡ some (v, b)
        → Step a b
    write :
        (k : K) (old v : V)
        → assoc_array_lookup_ref type a k ≡ some (some old)
        → write_ref type a k v ≡ some b
        → Step a b
    free : (assoc_array_free type a).1 ≡ b → Step a b

  pub data Reach : AssocArray K V → Type 0 where
    new : Reach empty
    next : {a b : AssocArray K V} → Reach a → Step a b → Reach b

  pub record IsValid (a : AssocArray K V) : Type 0 where
    pub meaning : K → Option V
    pub models : Models type law meaning a

  Step-IsValid : (a b : AssocArray K V) → Step a b → IsValid a → IsValid b
  unfolding assoc_array_free
  Step-IsValid a b (set k v freed narrow e) valid =
      let (c, run, m) = assoc_array_set-Models type law valid.meaning a valid.models k v narrow in
      let same : c ≡ b = cc in record { meaning = _; models = rw same at m }
  Step-IsValid a b (remove k found freed e) valid =
      let (o, c, run, _, m, _) =
        assoc_array_remove-Models type law valid.meaning a valid.models k in
      let same : c ≡ b = cc in record { meaning = _; models = rw same at m }
  Step-IsValid a b (force k v narrow e) valid =
      let (c, run, m) =
        assoc_array_force_ref-Models type law valid.meaning a valid.models k null narrow in
      let same : c ≡ b = cc in record { meaning = _; models = rw same at m }
  Step-IsValid a b (write k old v there e) valid =
      let read = assoc_array_lookup_ref-Models type law valid.meaning a valid.models k in
      let present : valid.meaning k ≡ some old = cc in
      let (c, run, m) = write_ref-lookup type law valid.meaning a valid.models k old v present in
      let same : c ≡ b = cc in record { meaning = _; models = rw same at m }
  Step-IsValid a b (free e) valid = record {
    meaning = _;
    models = subst (Models type law (λ _. none)) e (empty-Models type law);
  }

  pub Reach-IsValid : {a : AssocArray K V} → Reach a → IsValid a
  Reach-IsValid new = record { meaning = _; models = empty-Models type law }
  Reach-IsValid (next r s) = Step-IsValid _ _ s (Reach-IsValid r)

  -- The count, the number of buckets, the load, each node in the bucket of its hash, which is that
  -- of its key, and one node at most for a key.
  pub record IsWellFormed (a : AssocArray K V) : Type 0 where
    pub counted : length (flatten a.nodes) ≡ a.used
    pub sized : length a.nodes ≡ bits_size a.size_bits
    pub loaded : a.used * 3 ≤ bits_size a.size_bits * 2 + 2
    pub placed :
        (i : ℕ)
        → Each
            (get_or a.nodes i [])
            (λ n. (type.hash n.key ≡ some n.hash) × (fold_hash n.hash a.size_bits ≡ some i))
    pub distinct : (q : K) → hits (test type law q) (flatten a.nodes) ≤ 1

  -- Whatever calls of set, remove, force_ref, free and writes through a reference return, in any
  -- order from an empty array, with sizes below 2^63: the array is well formed.
  pub Reach-IsWellFormed : (a : AssocArray K V) → Reach a → IsWellFormed a
  unfolding bits_size hits flatten
  Reach-IsWellFormed a reach =
      let valid = Reach-IsValid reach in
      let models = valid.models in
      elim (Bool-cases (a.size_bits == 0)) [
        | inl e ↦
            let (none_used, no_chains, _) = models.unset (ground arith) in
            record {
              counted = rw (no_chains, none_used);
              sized = rw (no_chains, e);
              loaded = models.sparse;
              placed = λ i. rw no_chains tt;
              distinct = λ q. rw no_chains (omega arith);
            }
        | inr e ↦
            let holds = models.filled (ground arith) in
            record {
              counted = holds.entries;
              sized = rw e holds.width;
              loaded = models.sparse;
              placed = λ i.
                  in_bucket type law (get_or a.nodes i []) a.size_bits i models.narrow
                    (λ q. (holds.placed q i).1) (holds.hashed i);
              distinct = λ q.
                  rw
                    (only_there (test type law q) a.nodes (home (law.code q) a.size_bits)
                      (λ i n. (holds.placed q i).1 (λ e. n (sym e)))).1
                    (holds.placed q _).0;
            }
      ]
