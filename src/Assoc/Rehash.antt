-- ===== src/Assoc/Rehash.antt =====
-- assoc.c: `rehash_assoc_array`, which puts every node into the buckets of another size.
use mathlib.Core.List.{flatten}
use mathlib.Core.Path.{fun_ext}
use mudlle.Prelude.{
  ℕ, zero, suc, ◌+◌, ◌^◌, ◌≤◌, ◌<◌, ◌≡◌, ◌≢◌, refl, sym, ◌∙◌, Option, some, none, List, [], ◌∷◌,
  ◌++◌, arith, length, get_or, replicate, Each, ◌>>=◌, bind_assoc, if◌then◌else◌, length-replicate,
  get_or-replicate, get_elem?-get_or,
}
use mudlle.Hash.{fold_hash}
use mudlle.Assoc.{AssocType, Node, find_node, move_chain, move_all}
use mudlle.Assoc.Chain.{Test, hits, value_at, value_at-none}
use mudlle.Assoc.Buckets.{
  home, home-lt, fold_hash-home, IsLawful, test, home_chain, view, update, Holds, prepend-Holds,
}

abbrev pub first_of {ℓ} : {A : Type ℓ} → Option A → Option A → Option A
first_of none b = b
first_of (some a) b = some a

module _ {K V : Type 0} (q : Test K) where
  hits-append : (a b : List (Node K V)) → hits q (a ++ b) ≡ hits q a + hits q b
  unfolding hits
  hits-append [] b = omega arith
  hits-append (n ∷ a) b = omega (arith, hits-append a b)

  value_at-append :
      (a b : List (Node K V)) → value_at q (a ++ b) ≡ first_of (value_at q a) (value_at q b)
  unfolding value_at find_node
  value_at-append [] b = refl
  value_at-append (n ∷ a) b = ground (arith, value_at-append a b)

  nowhere :
      (cs : List (List (Node K V)))
      → ((i : ℕ) → hits q (get_or cs i []) ≡ 0)
      → hits q (flatten cs) ≡ 0
  unfolding flatten hits
  nowhere [] h = refl
  nowhere (c ∷ cs) h = rw (hits-append, h 0, nowhere cs (λ i. h (suc i)))

  -- If a search hits only in one chain, the other chains make no difference.
  pub only_there :
      (cs : List (List (Node K V))) (j : ℕ)
      → ((i : ℕ) → i ≢ j → hits q (get_or cs i []) ≡ 0)
      → (value_at q (flatten cs) ≡ value_at q (get_or cs j []))
        × (hits q (flatten cs) ≡ hits q (get_or cs j []))
  unfolding flatten hits
  only_there [] j h = (refl, refl)
  only_there (c ∷ cs) zero h =
      let rest = nowhere cs (λ i. h (suc i) (omega arith)) in
      (
        rw (value_at-append, value_at-none q (flatten cs) rest) (ground arith),
        rw (hits-append, rest) (omega arith),
      )
  only_there (c ∷ cs) (suc j) h =
      let here = h 0 (omega arith) in
      let (found, counted) = only_there cs j (λ i n. h (suc i) (omega arith)) in
      (
        rw (value_at-append, value_at-none q c here) found,
        rw (hits-append, here) (omega (arith, counted)),
      )

  pub value_at-cons :
      (n : Node K V) (c : List (Node K V))
      → value_at q (n ∷ c) ≡ (if q n.hash n.key then some n.value else value_at q c)
  unfolding value_at find_node
  value_at-cons n c = ground arith

first_of-nil : {K V : Type 0} (q : Test K) (o : Option V) → o ≡ first_of o (value_at {V = V} q [])
unfolding value_at find_node
first_of-nil q none = refl
first_of-nil q (some v) = refl

flatten-replicate : {A : Type 0} (n : ℕ) → flatten {A = A} (replicate n []) ≡ []
unfolding flatten
flatten-replicate zero = refl
flatten-replicate (suc n) = flatten-replicate n

module _ {K V : Type 0} where
  move_chain-append :
      (bits : ℕ) (a b : List (Node K V)) (nodes : List (List (Node K V)))
      → move_chain bits (a ++ b) nodes ≡ move_chain bits a nodes >>= move_chain bits b
  unfolding move_chain
  move_chain-append bits [] b nodes = refl
  move_chain-append bits (n ∷ a) b nodes = simp (bind_assoc, move_chain-append bits a b)

  -- The two nested loops are one over all nodes.
  move_all-flatten :
      (bits : ℕ) (cs nodes : List (List (Node K V)))
      → move_all bits cs nodes ≡ move_chain bits (flatten cs) nodes
  unfolding move_all move_chain flatten
  move_all-flatten bits [] nodes = refl
  move_all-flatten bits (c ∷ cs) nodes =
      rw (move_chain-append, ← fun_ext (move_all-flatten bits cs))

Each-append {ℓ} :
    {A : Type ℓ} (P : A → Type 0) (a b : List A) → Each a P → Each b P → Each (a ++ b) P
Each-append P [] b pa pb = pb
Each-append P (x ∷ a) b pa pb = (pa.0, Each-append P a b pa.1 pb)

Each-flatten {ℓ} :
    {A : Type ℓ} (P : A → Type 0) (cs : List (List A))
    → ((i : ℕ) → Each (get_or cs i []) P)
    → Each (flatten cs) P
unfolding flatten
Each-flatten P [] h = tt
Each-flatten P (c ∷ cs) h = Each-append P c (flatten cs) (h 0) (Each-flatten P cs (λ i. h (suc i)))

module _ {K : Type 0} (type : AssocType K) (law : IsLawful type) {V : Type 0} where
  pub replicate-Holds :
      (bits : ℕ) → Holds type law {V = V} bits 0 (λ _. none) (replicate (2 ^ bits) [])
  unfolding view value_at find_node hits
  replicate-Holds bits = record {
    width = length-replicate (2 ^ bits) [];
    entries = rw (flatten-replicate (2 ^ bits));
    placed = λ q i. rw get_or-replicate (omega arith);
    hashed = λ i. rw get_or-replicate tt;
    reads = λ q. rw get_or-replicate;
  }

  move_chain-Holds :
      (bits : ℕ) (es : List (Node K V)) (total : ℕ) (f : K → Option V)
      (nodes : List (List (Node K V)))
      → bits < 64
      → Holds type law bits total f nodes
      → Each es (λ n. n.hash ≡ law.code n.key)
      → ((q : K) → hits (test type law q) es ≤ 1)
      → ((q : K) → 0 < hits (test type law q) es → f q ≡ none)
      → (result : List (List (Node K V))) × (move_chain bits es nodes ≡ some result)
        × Holds type law bits
            (total + length es)
            (λ q. first_of (f q) (value_at (test type law q) es))
            result
  unfolding move_chain hits
  move_chain-Holds bits [] total f nodes narrow holds good once apart = (
    nodes,
    refl,
    record {
      width = holds.width;
      entries = omega (arith, holds.entries);
      placed = holds.placed;
      hashed = holds.hashed;
      reads = λ q. rw (holds.reads q) (first_of-nil (test type law q) (f q));
    },
  )
  move_chain-Holds bits (n ∷ es) total f nodes narrow holds good once apart =
      let at = home (law.code n.key) bits in
      let in_range : at < length nodes = rw holds.width (home-lt (law.code n.key) bits) in
      let folded : fold_hash n.hash bits ≡ some at =
        rw good.0 (fold_hash-home (law.code n.key) bits narrow) in
      let absent : f n.key ≡ none = apart n.key (ground (arith, law.refl_equal n.key)) in
      let step = prepend-Holds type law bits total f nodes n holds good.0 absent in
      let (result, run, t) =
        move_chain-Holds bits es (suc total) (update type law f n.key (some n.value)) _ narrow step
          good.1 (λ q. omega (arith, once q))
          (λ q h. ground (arith, apart q, once q, law.code_equal q n.key)) in
      (
        result,
        rw (folded, get_elem?-get_or nodes at [] in_range) run,
        record {
          width = t.width;
          entries = omega (arith, t.entries);
          placed = t.placed;
          hashed = t.hashed;
          reads =
              λ q. rw (t.reads q, value_at-cons) (ground (arith, apart q, law.code_equal q n.key));
        },
      )

  pub move_all-Holds :
      (bits bits' total : ℕ) (f : K → Option V) (nodes : List (List (Node K V)))
      → bits' < 64
      → Holds type law bits total f nodes
      → (result : List (List (Node K V))) × (move_all bits' nodes (replicate (2 ^ bits') [])
          ≡ some result)
        × Holds type law bits' total f result
  unfolding view
  move_all-Holds bits bits' total f nodes narrow holds =
      let (result, run, t) =
        move_chain-Holds bits' (flatten nodes) 0 (λ _. none) _ narrow (replicate-Holds bits')
          (Each-flatten _ nodes holds.hashed) (λ q. rw (flattened q).1 (holds.placed q _).0)
          (λ q _. refl) in
      (
        result,
        rw move_all-flatten run,
        record {
          width = t.width;
          entries = omega (arith, t.entries, holds.entries);
          placed = t.placed;
          hashed = t.hashed;
          reads = λ q. t.reads q ∙ (flattened q).0 ∙ holds.reads q;
        },
      )
    where
      flattened :
          (q : K)
          → (value_at (test type law q) (flatten nodes)
              ≡ value_at (test type law q) (home_chain type law bits nodes q))
            × (hits (test type law q) (flatten nodes)
                ≡ hits (test type law q) (home_chain type law bits nodes q))
      flattened q =
          only_there (test type law q) nodes (home (law.code q) bits)
            (λ i n. (holds.placed q i).1 (λ e. n (sym e)))
