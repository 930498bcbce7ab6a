-- ===== src/Dlist/Ring.antt =====
-- dlist.c: a ring as the sequence of its nodes from one of them on.
use mudlle.Prelude.{
  ℕ, ◌+◌, ◌≤◌, ◌<◌, ◌≡◌, ◌≢◌, ◌∙◌, Bool, true, false, some, none, List, [], ◌∷◌, ◌++◌, arith, ◌==◌,
}
use mudlle.Dlist.{Store}

abbrev to_nat : Bool → ℕ
to_nat true = 1
to_nat false = 0

unfoldable pub occurs : ℕ → List ℕ → ℕ
occurs q [] = 0
occurs q (x ∷ xs) = to_nat (q == x) + occurs q xs

-- The nodes `xs` lead from `a` to `b`, and back.
abbrev pub Linked : Store → ℕ → List ℕ → ℕ → Type 0
Linked s a [] b = (s.next a ≡ some b) × (s.prev b ≡ some a)
Linked s a (x ∷ xs) b = (s.next a ≡ some x) × (s.prev x ≡ some a) × Linked s x xs b

-- The ring through `head` has the nodes `xs` after it, and no node twice.
pub record IsRing (s : Store) (head : ℕ) (xs : List ℕ) : Type 0 where
  pub linked : Linked s head xs head
  pub distinct : (q : ℕ) → occurs q (head ∷ xs) ≤ 1

pub occurs-append : (q : ℕ) (xs ys : List ℕ) → occurs q (xs ++ ys) ≡ occurs q xs + occurs q ys
unfolding occurs
occurs-append q [] ys = omega arith
occurs-append q (x ∷ xs) ys = omega (arith, occurs-append q xs ys)

pub Linked-append :
    (s : Store) (a x b : ℕ) (xs ys : List ℕ)
    → Linked s a xs x
    → Linked s x ys b
    → Linked s a (xs ++ x ∷ ys) b
Linked-append s a x b [] ys l m = (l.0, l.1, m)
Linked-append s a x b (y ∷ xs) ys l m = (l.0, l.1, Linked-append s y x b xs ys l.2 m)

pub Linked-split :
    (s : Store) (a x b : ℕ) (xs ys : List ℕ)
    → Linked s a (xs ++ x ∷ ys) b
    → Linked s a xs x × Linked s x ys b
Linked-split s a x b [] ys l = ((l.0, l.1), l.2)
Linked-split s a x b (y ∷ xs) ys l =
    let (m, n) = Linked-split s y x b xs ys l.2 in ((l.0, l.1, m), n)

-- A ring can be read from any of its nodes.
pub rotate-IsRing :
    (s : Store) (head x : ℕ) (xs ys : List ℕ)
    → IsRing s head (xs ++ x ∷ ys)
    → IsRing s x (ys ++ head ∷ xs)
unfolding occurs
rotate-IsRing s head x xs ys r =
    let (l, m) = Linked-split s head x head xs ys r.linked in
    record {
      linked = Linked-append s x head x ys xs m l;
      distinct = λ q.
          omega (arith, r.distinct q, occurs-append q xs (x ∷ ys), occurs-append q ys (head ∷ xs));
    }

-- A path is as before where its nodes are.
pub Linked-frame :
    (s t : Store) (a b : ℕ) (xs : List ℕ)
    → ((q : ℕ) → 0 < occurs q (a ∷ xs) → t.next q ≡ s.next q)
    → ((q : ℕ) → 0 < occurs q (xs ++ b ∷ []) → t.prev q ≡ s.prev q)
    → Linked s a xs b
    → Linked t a xs b
unfolding occurs
Linked-frame s t a b [] n p l = (n a (ground arith) ∙ l.0, p b (ground arith) ∙ l.1)
Linked-frame s t a b (x ∷ xs) n p l = (
  n a (ground arith) ∙ l.0,
  p x (ground arith) ∙ l.1,
  Linked-frame s t x b xs (λ q h. n q (omega arith)) (λ q h. p q (omega arith)) l.2,
)

-- The nodes of a path have a next one.
pub Linked-next :
    (s : Store) (a b q : ℕ) (xs : List ℕ)
    → Linked s a xs b
    → s.next q ≡ none
    → occurs q (a ∷ xs) ≡ 0
unfolding occurs
Linked-next s a b q [] l e = ground arith
Linked-next s a b q (x ∷ xs) l e = let rest = Linked-next s x b q xs l.2 e in ground arith

-- The last node `p` before `b` on the path, which a store can send to another `c`.
pub record Last (s : Store) (a b : ℕ) (xs : List ℕ) : Type 0 where
  pub p : ℕ
  pub back : s.prev b ≡ some p
  pub forth : s.next p ≡ some b
  pub on_path : 0 < occurs p (a ∷ xs)
  pub relink :
      (t : Store) (c : ℕ)
      → t.next p ≡ some c
      → t.prev c ≡ some p
      → ((q : ℕ) → 0 < occurs q (a ∷ xs) → q ≢ p → t.next q ≡ s.next q)
      → ((q : ℕ) → 0 < occurs q xs → t.prev q ≡ s.prev q)
      → Linked t a xs c

pub Linked-Last :
    (s : Store) (a b : ℕ) (xs : List ℕ)
    → Linked s a xs b
    → ((q : ℕ) → occurs q (a ∷ xs) ≤ 1)
    → Last s a b xs
unfolding occurs
Linked-Last s a b [] l once = record {
  p = a;
  back = l.1;
  forth = l.0;
  on_path = ground arith;
  relink = λ t c n p same_next same_prev. (n, p);
}
Linked-Last s a b (x ∷ xs) l once =
    let rest = Linked-Last s x b xs l.2 (λ q. omega (arith, once q)) in
    let apart : a ≢ rest.p = (λ e. let o = once rest.p in let i = rest.on_path in ground arith) in
    record {
      p = rest.p;
      back = rest.back;
      forth = rest.forth;
      on_path = omega (arith, rest.on_path);
      relink = λ t c n p same_next same_prev. (
        same_next a (ground arith) apart ∙ l.0,
        same_prev x (ground arith) ∙ l.1,
        rest.relink t c n p (λ q h. same_next q (omega arith)) (λ q h. same_prev q (omega arith)),
      );
    }
