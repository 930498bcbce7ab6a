-- ===== src/Table/Methods.antt =====
-- The two kinds of symbol tables in table.c: which names they take for one, and that such names
-- hash alike.
use mathlib.Core.Option
use mudlle.Prelude.{
  ℕ, suc, ◌<◌, ◌^◌, ◌≡◌, ◌↔◌, refl, List, [], ◌∷◌, map, true, some, arith, length, take, ap, ◌∙◌,
  sym, ◌==◌, ◌&&◌, Option, none,
}
use mudlle.Prelude.Int.{ℤ, pos, negsuc}
use mudlle.Charset.{to_7lower, mem7icmp}
use mudlle.Charset.Laws.{mem7icmp_iff}
use mudlle.Hash.{symbol_nhash}
use mudlle.Hash.Laws.{symbol_hash-range, symbol_7inhash-map, take-length}
use mudlle.Table.{TableMethods, memcmp, table_methods, ctable_methods, same_name, home, is_zero}

-- A table takes two names for one if they fold to the same bytes.
pub record Folds (m : TableMethods) (fold : List ℕ → List ℕ) : Type 0 where
  pub same_iff : (a b : List ℕ) → (same_name m a b ≡ true) ↔ (fold a ≡ fold b)
  pub home-fold : (bits : ℕ) (a b : List ℕ) → fold a ≡ fold b → home m bits a ≡ home m bits b
  pub home-lt : (bits : ℕ) (a : List ℕ) → bits < 64 → home m bits a < 2 ^ bits

memcmp_iff : (a b : List ℕ) → length b ≡ length a → (memcmp a b (length a) ≡ some (pos 0)) ↔ (a ≡ b)
unfolding memcmp
memcmp_iff [] [] e = (λ _. refl, λ _. refl)
memcmp_iff [] (y ∷ b) e = absurd (omega arith)
memcmp_iff (x ∷ a) [] e = absurd (omega arith)
memcmp_iff (x ∷ a) (y ∷ b) e =
    let ih = memcmp_iff a b (omega arith) in (λ q. ground (arith, ih), λ q. ground (arith, ih))

is_zero_iff : (o : Option ℤ) → (is_zero o ≡ true) ↔ (o ≡ some (pos 0))
is_zero_iff none = (λ q. ground arith, λ q. ground arith)
is_zero_iff (some (pos n)) = (λ q. ground arith, λ q. ground arith)
is_zero_iff (some (negsuc n)) = (λ q. ground arith, λ q. ground arith)

length-map : (f : ℕ → ℕ) (a : List ℕ) → length (map f a) ≡ length a
length-map f [] = refl
length-map f (x ∷ a) = ap suc (length-map f a)

mem7icmp_same :
    (a b : List ℕ)
    → length b ≡ length a
    → (mem7icmp a b (length a) ≡ some (pos 0)) ↔ (map to_7lower a ≡ map to_7lower b)
mem7icmp_same a b e =
    let h = mem7icmp_iff a b (length a) (omega arith) (omega arith) in
    let ta = take-length a in
    let tb : take (length a) b ≡ b = ap (λ n. take n b) (sym e) ∙ take-length b in rw (ta, tb) at h

home-range : (o : Option ℕ) (k : ℕ) → (h : ℕ) × (o ≡ some h) × (h < k) → Option.get_or o 0 < k
home-range o k (h, e, lt) = rw e lt

same_lem :
    (la lb : ℕ) (o : Option ℤ) (P : Type 0)
    → (P → lb ≡ la)
    → (lb ≡ la → (o ≡ some (pos 0)) ↔ P)
    → ((lb == la && is_zero o) ≡ true) ↔ P
same_lem la lb o P len h = (
  λ q.
      let e : lb ≡ la = ground (arith, q) in
      let z : is_zero o ≡ true = ground (arith, q) in (h e).0 ((is_zero_iff o).0 z),
  λ p. let e = len p in let z = (is_zero_iff o).1 ((h e).1 p) in ground (arith, e, z),
)

length_of_map : (f : ℕ → ℕ) (a b : List ℕ) → map f a ≡ map f b → length b ≡ length a
length_of_map f a b e = sym (length-map f b) ∙ ap length (sym e) ∙ length-map f a

-- A table compares names, and hashes them, by their folded bytes; a ctable by their bytes. With
-- fewer than 64 bits the hash is a number of that many bits.
pub methods_fold : Folds table_methods (map to_7lower) × Folds ctable_methods (λ a. a)
unfolding table_methods ctable_methods
methods_fold = (
  record {
    same_iff = λ a b.
        same_lem (length a) (length b) (mem7icmp a b (length a)) _ (length_of_map to_7lower a b)
          (mem7icmp_same a b);
    home-fold = λ bits a b e.
        ap (λ h. Option.get_or h 0)
          (symbol_7inhash-map a bits
            ∙ ap (λ r. symbol_nhash r bits) e
            ∙ sym (symbol_7inhash-map b bits));
    home-lt = λ bits a lt. home-range _ _ (symbol_hash-range a bits lt).1;
  },
  record {
    same_iff = λ a b.
        same_lem (length a) (length b) (memcmp a b (length a)) _ (λ e. ap length (sym e))
          (memcmp_iff a b);
    home-fold = λ bits a b e. ap (λ r. home ctable_methods bits r) e;
    home-lt = λ bits a lt. home-range _ _ (symbol_hash-range a bits lt).0;
  },
)
