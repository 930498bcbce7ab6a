-- ===== src/Assoc/Chain.antt =====
-- assoc.c: one chain, and the searches with two keys that hash and compare alike or not.
use mudlle.Prelude.{
  ℕ, ◌+◌, ◌≤◌, ◌≡◌, refl, Bool, true, false, Option, some, none, List, [], ◌∷◌, arith, length,
  if◌then◌else◌,
}
use mudlle.Assoc.{Node, find_node, write_data, unlink_node}

abbrev pub to_nat : Bool → ℕ
to_nat true = 1
to_nat false = 0

abbrev pub Test : Type 0 → Type 0
Test K = ℕ → K → Bool

-- Two searches stop at the same nodes when `alike`, and at no common node otherwise.
abbrev pub Related : {K : Type 0} → Bool → Test K → Test K → Type 0
Related {K} alike p q =
    (h : ℕ) (k : K) → (p h k ≡ true → q h k ≡ alike) × (q h k ≡ true → p h k ≡ alike)

module _ {K V : Type 0} where
  -- How many nodes a search stops at.
  unfoldable pub hits : Test K → List (Node K V) → ℕ
  hits test [] = 0
  hits test (node ∷ chain) = to_nat (test node.hash node.key) + hits test chain

  -- The data of the node that a search finds.
  unfoldable pub value_at : Test K → List (Node K V) → Option V
  value_at test chain = elim (find_node test chain) [ some n ↦ some n.value | none ↦ none ]

  pub value_at-none : (q : Test K) (c : List (Node K V)) → hits q c ≡ 0 → value_at q c ≡ none
  unfolding hits value_at find_node
  value_at-none q [] h = refl
  value_at-none q (n ∷ c) h = ground (arith, value_at-none q c)

  pub hits-none : (q : Test K) (c : List (Node K V)) → value_at q c ≡ none → hits q c ≡ 0
  unfolding hits value_at find_node
  hits-none q [] h = refl
  hits-none q (n ∷ c) h = ground (arith, hits-none q c)

  pub hits-alike : (p q : Test K) (c : List (Node K V)) → Related true p q → hits p c ≡ hits q c
  unfolding hits
  hits-alike p q [] r = refl
  hits-alike p q (n ∷ c) r = ground (arith, hits-alike p q c r, r n.hash n.key)

  pub value_at-alike :
      (p q : Test K) (c : List (Node K V)) → Related true p q → value_at q c ≡ value_at p c
  unfolding value_at find_node
  value_at-alike p q [] r = refl
  value_at-alike p q (n ∷ c) r = ground (arith, value_at-alike p q c r, r n.hash n.key)

  module _ (alike : Bool) (p q : Test K) (r : Related alike p q) where
    pub value_at-write_data :
        (v : V) (c : List (Node K V)) (old : Node K V)
        → find_node p c ≡ some old
        → value_at q (write_data p v c) ≡ (if alike then some v else value_at q c)
    unfolding value_at find_node write_data
    value_at-write_data v [] old h = cc
    value_at-write_data v (n ∷ c) old h =
        ground (arith, value_at-write_data v c old, r n.hash n.key)

    pub value_at-unlink_node :
        (c : List (Node K V))
        → hits q c ≤ 1
        → value_at q (unlink_node p c) ≡ (if alike then none else value_at q c)
    unfolding hits value_at find_node unlink_node
    value_at-unlink_node [] h = ground arith
    value_at-unlink_node (n ∷ c) h =
        ground (arith, value_at-unlink_node c, value_at-none q c, r n.hash n.key)

  pub hits-write_data :
      (p q : Test K) (v : V) (c : List (Node K V)) → hits q (write_data p v c) ≡ hits q c
  unfolding hits write_data
  hits-write_data p q v [] = refl
  hits-write_data p q v (n ∷ c) = ground (arith, hits-write_data p q v c)

  pub hits-unlink_node : (p q : Test K) (c : List (Node K V)) → hits q (unlink_node p c) ≤ hits q c
  unfolding hits unlink_node
  hits-unlink_node p q [] = omega arith
  hits-unlink_node p q (n ∷ c) = ground (arith, hits-unlink_node p q c)

  pub length-write_data :
      (p : Test K) (v : V) (c : List (Node K V)) → length (write_data p v c) ≡ length c
  unfolding write_data
  length-write_data p v [] = refl
  length-write_data p v (n ∷ c) = ground (arith, length-write_data p v c)

  pub length-unlink_node :
      (p : Test K) (c : List (Node K V)) (old : Node K V)
      → find_node p c ≡ some old
      → length (unlink_node p c) + 1 ≡ length c
  unfolding unlink_node find_node
  length-unlink_node p [] old h = cc
  length-unlink_node p (n ∷ c) old h = ground (arith, length-unlink_node p c old)
