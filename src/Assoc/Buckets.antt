-- ===== src/Assoc/Buckets.antt =====
-- assoc.c: where nodes stand, what the chains mean as a map, and writes to one bucket.
use Prim.Native.Nat.{bit_xor}
use mathlib.Core.List.{flatten}
use mudlle.Prelude.{
  ℕ, zero, suc, ◌+◌, ◌/◌, ◌%◌, ◌^◌, ◌≤◌, ◌<◌, max, ◌≡◌, ◌≢◌, true, Option, some, none, List, [],
  ◌∷◌, arith, length, get_or, set, Each, if◌then◌else◌, length-append, length-set, subst, sym, ◌∙◌,
  get_elem?-get_or, get_or-set,
}
use mudlle.Hash.{fold_hash, fold_hash_n}
use mudlle.Hash.Laws.{pow-pos}
use mudlle.Assoc.{AssocType, Node, AssocArray, same, locate, find_node}
use mudlle.Assoc.Chain.{
  Test, Related, hits, value_at, hits-none, hits-alike, value_at-alike, to_nat,
}

unfoldable pub home : ℕ → ℕ → ℕ
home code bits = bit_xor code (code / 2 ^ bits) % 2 ^ bits

pub fold_hash-home : (code bits : ℕ) → bits < 64 → fold_hash code bits ≡ some (home code bits)
unfolding fold_hash fold_hash_n home
fold_hash-home code bits h = ground arith

pub home-lt : (code bits : ℕ) → home code bits < 2 ^ bits
unfolding home
home-lt code bits = omega (arith, pow-pos bits)

pub length-flatten-set {ℓ} :
    {A : Type ℓ} (cs : List (List A)) (i : ℕ) (c : List A)
    → i < length cs
    → length (flatten (set cs i c)) + length (get_or cs i []) ≡ length (flatten cs) + length c
unfolding flatten
length-flatten-set [] i c h = absurd (omega arith)
length-flatten-set (x ∷ cs) zero c h = simp length-append (omega arith)
length-flatten-set (x ∷ cs) (suc i) c h =
    simp length-append (omega (arith, length-flatten-set cs i c (omega arith)))

-- What an array relies on: the comparison is an equality that the hash respects.
pub record IsLawful {K : Type 0} (type : AssocType K) : Type 0 where
  pub code : K → ℕ
  pub hashes : (k : K) → type.hash k ≡ some (code k)
  pub refl_equal : (k : K) → type.is_equal k k ≡ true
  pub sym_equal : (a b : K) → type.is_equal a b ≡ true → type.is_equal b a ≡ true
  pub trans_equal :
      (a b c : K) → type.is_equal a b ≡ true → type.is_equal b c ≡ true → type.is_equal a c ≡ true
  pub code_equal : (a b : K) → type.is_equal a b ≡ true → code a ≡ code b

module _ {K : Type 0} (type : AssocType K) (law : IsLawful type) where
  -- The test of a search for `k`.
  abbrev pub test : K → Test K
  test k = same type (law.code k) k

  pub test-Related : (k q : K) → Related (type.is_equal q k) (test k) (test q)
  test-Related k q h n = (
    λ p. ground (
      arith,
      law.code_equal q k,
      law.trans_equal q k n,
      law.trans_equal q n k,
      law.sym_equal k n,
    ),
    λ p. ground (
      arith,
      law.code_equal q k,
      law.trans_equal k q n,
      law.sym_equal q k,
      law.trans_equal q n k,
      law.sym_equal k n,
    ),
  )

  home_alike :
      (k q : K) (bits : ℕ)
      → type.is_equal q k ≡ true
      → home (law.code q) bits ≡ home (law.code k) bits
  home_alike k q bits e = rw (law.code_equal q k e)

  tests_alike : (k q : K) → type.is_equal q k ≡ true → Related true (test k) (test q)
  tests_alike k q e = subst (λ b. Related b (test k) (test q)) e (test-Related k q)

  absent_alike :
      {V : Type 0} (k q : K) (c : List (Node K V))
      → type.is_equal q k ≡ true
      → value_at (test k) c ≡ none
      → hits (test q) c ≡ 0
  absent_alike k q c e absent =
      sym (hits-alike (test k) (test q) c (tests_alike k q e)) ∙ hits-none (test k) c absent

  module _ {V : Type 0} where
    abbrev pub home_chain : ℕ → List (List (Node K V)) → K → List (Node K V)
    home_chain bits nodes k = get_or nodes (home (law.code k) bits) []

    -- A key is at most once in its home bucket, and in no other.
    abbrev pub IsPlaced : ℕ → List (List (Node K V)) → Type 0
    IsPlaced bits nodes =
        (q : K) (i : ℕ)
        → (hits (test q) (get_or nodes i []) ≤ 1)
          × (home (law.code q) bits ≢ i → hits (test q) (get_or nodes i []) ≡ 0)

    -- The hash in a node is that of its key.
    abbrev pub IsHashed : List (List (Node K V)) → Type 0
    IsHashed nodes = (i : ℕ) → Each (get_or nodes i []) (λ n. n.hash ≡ law.code n.key)

    unfoldable pub view : ℕ → List (List (Node K V)) → K → Option V
    view bits nodes q = value_at (test q) (home_chain bits nodes q)

    abbrev pub update : (K → Option V) → K → Option V → K → Option V
    update f k v q = if type.is_equal q k then v else f q

    -- `2 ^ bits` buckets with `total` nodes, all in place, that read as `f`.
    pub record Holds (bits total : ℕ) (f : K → Option V) (nodes : List (List (Node K V)))
        : Type 0 where
      pub width : length nodes ≡ 2 ^ bits
      pub entries : length (flatten nodes) ≡ total
      pub placed : IsPlaced bits nodes
      pub hashed : IsHashed nodes
      pub reads : (q : K) → view bits nodes q ≡ f q

    -- Every write replaces the home chain of a key.
    pub set-Holds :
        (bits total : ℕ) (f : K → Option V) (nodes : List (List (Node K V))) (k : K)
        → Holds bits total f nodes
        → (v : Option V) (c : List (Node K V)) (total' : ℕ)
        → total' + length (home_chain bits nodes k) ≡ total + length c
        → ((q : K)
            → hits (test q) c
              ≤ max (to_nat (type.is_equal q k)) (hits (test q) (home_chain bits nodes k)))
        → ((q : K)
            → value_at (test q) c
              ≡ (if type.is_equal q k then v else value_at (test q) (home_chain bits nodes k)))
        → Each c (λ n. n.hash ≡ law.code n.key)
        → Holds bits total' (update f k v) (set nodes (home (law.code k) bits) c)
    unfolding view
    set-Holds bits total f nodes k holds v c total' size few reads good =
        let at = home (law.code k) bits in
        let in_range : at < length nodes = rw holds.width (home-lt (law.code k) bits) in
        record {
          width = rw length-set holds.width;
          entries = omega (arith, length-flatten-set nodes at c in_range, holds.entries);
          placed = λ q j.
              rw (get_or-set nodes at j c [] in_range)
                (ground (arith, holds.placed q j, few q, home_alike k q bits));
          hashed = λ j. rw (get_or-set nodes at j c [] in_range) (ground (arith, holds.hashed j));
          reads = λ q.
              rw (get_or-set nodes at (home (law.code q) bits) c [] in_range)
                (ground (arith, reads q, holds.reads q, home_alike k q bits));
        }

    -- Equal keys read alike.
    pub view_alike :
        (bits : ℕ) (nodes : List (List (Node K V))) (k q : K)
        → type.is_equal q k ≡ true
        → view bits nodes q ≡ view bits nodes k
    unfolding view
    view_alike bits nodes k q e =
        rw (home_alike k q bits e)
          (value_at-alike (test k) (test q) (home_chain bits nodes k) (tests_alike k q e))

    pub length-home_chain :
        (bits total : ℕ) (f : K → Option V) (nodes : List (List (Node K V))) (k : K)
        → Holds bits total f nodes
        → length (home_chain bits nodes k) ≤ total
    length-home_chain bits total f nodes k holds =
        let at = home (law.code k) bits in
        let in_range : at < length nodes = rw holds.width (home-lt (law.code k) bits) in
        omega (arith, length-flatten-set nodes at [] in_range, holds.entries)

    -- A node for a new key goes in front of its chain.
    pub prepend-Holds :
        (bits total : ℕ) (f : K → Option V) (nodes : List (List (Node K V))) (node : Node K V)
        → Holds bits total f nodes
        → node.hash ≡ law.code node.key
        → f node.key ≡ none
        → Holds bits
            (suc total)
            (update f node.key (some node.value))
            (set nodes (home (law.code node.key) bits) (node ∷ home_chain bits nodes node.key))
    unfolding view hits value_at find_node
    prepend-Holds bits total f nodes node holds good absent =
        let k = node.key in
        let old = home_chain bits nodes k in
        let none_here = holds.reads k ∙ absent in
        set-Holds bits total f nodes k holds (some node.value) (node ∷ old) (suc total)
          (omega arith) (λ q. ground (arith, absent_alike k q old))
          (λ q. ground (arith, law.code_equal q k)) (good, holds.hashed (home (law.code k) bits))

  -- A chain is reached without a failed assertion.
  pub locate-home :
      {V : Type 0} (assoc : AssocArray K V) (k : K)
      → assoc.size_bits < 64
      → length assoc.nodes ≡ 2 ^ assoc.size_bits
      → locate type assoc k
        ≡ some (
          law.code k,
          home (law.code k) assoc.size_bits,
          home_chain assoc.size_bits assoc.nodes k,
        )
  unfolding locate
  locate-home assoc k narrow width =
      let in_range : home (law.code k) assoc.size_bits < length assoc.nodes =
        rw width (home-lt (law.code k) assoc.size_bits) in
      rw (
        law.hashes k,
        fold_hash-home (law.code k) assoc.size_bits narrow,
        get_elem?-get_or assoc.nodes _ [] in_range,
      )
