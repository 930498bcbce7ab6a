-- ===== src/ObjEnv/Refine.antt =====
-- stack.c: the stack of the interpreter is a list whose first element is the top.
use mudlle.Prelude.{
  ℕ, zero, suc, ◌+◌, ◌-◌, ◌≤◌, ◌<◌, ◌≡◌, refl, sym, ap, ◌∙◌, ◌⊎◌, inl, inr, some, none, List, [],
  ◌∷◌, ◌++◌, arith, ltb, if◌then◌else◌, length, set, take, get_or, get_elem?, length-take,
  get_or-set, length-set,
}
use mudlle.Error.{raised, returned, stack_underflow}
use mudlle.ObjEnv.{ObjEnv, stack_pop, stack_push, stack_get, stack_set, stack_depth}
use mudlle.ObjEnv.Reserve.{IsValid, entries, TooLarge}
use mudlle.ObjEnv.Growth.{Added, env_add_entry-Added}
use mudlle.Alloc.{max_vector_size}

module _ {V : Type 0} (null : V) where
  -- The first `n` values, the last of them first.
  unfoldable pub top_first : List V → ℕ → List V
  top_first values zero = []
  top_first values (suc n) = get_or values n null ∷ top_first values n

  abbrev pub contents : ObjEnv V → List V
  contents stack = top_first stack.values stack.used

  length-top_first : (a : List V) (n : ℕ) → length (top_first a n) ≡ n
  unfolding top_first
  length-top_first a zero = refl
  length-top_first a (suc n) = ap suc (length-top_first a n)

  top_first_congr :
      (a b : List V) (n : ℕ)
      → ((i : ℕ) → i < n → get_or a i null ≡ get_or b i null)
      → top_first a n ≡ top_first b n
  unfolding top_first
  top_first_congr a b zero h = refl
  top_first_congr a b (suc n) h =
      rw (h n (omega arith), top_first_congr a b n (λ i lt. h i (omega arith)))

  get_or-take : (a : List V) (n i : ℕ) → i < n → get_or (take n a) i null ≡ get_or a i null
  get_or-take a zero i lt = absurd (omega arith)
  get_or-take [] (suc n) i lt = refl
  get_or-take (x ∷ a) (suc n) zero lt = refl
  get_or-take (x ∷ a) (suc n) (suc i) lt = get_or-take a n i (omega arith)

  get_or-append_end : (a : List V) (v : V) (n : ℕ) → n ≡ length a → get_or (a ++ v ∷ []) n null ≡ v
  get_or-append_end [] v zero e = refl
  get_or-append_end [] v (suc n) e = absurd (omega arith)
  get_or-append_end (x ∷ a) v zero e = absurd (omega arith)
  get_or-append_end (x ∷ a) v (suc n) e = get_or-append_end a v n (omega arith)

  get_or-append_front :
      (a b : List V) (i : ℕ) → i < length a → get_or (a ++ b) i null ≡ get_or a i null
  get_or-append_front [] b i lt = absurd (omega arith)
  get_or-append_front (x ∷ a) b zero lt = refl
  get_or-append_front (x ∷ a) b (suc i) lt = get_or-append_front a b i (omega arith)

  get_elem?-top_first :
      (a : List V) (n idx : ℕ)
      → get_elem? (top_first a n) idx
        ≡ (if ltb idx n then some (get_or a (n - idx - 1) null) else none)
  unfolding top_first
  get_elem?-top_first a zero idx = ground arith
  get_elem?-top_first a (suc n) zero =
      let e : suc n - 0 - 1 ≡ n = omega arith in rw e (ground arith)
  get_elem?-top_first a (suc n) (suc idx) =
      let e : suc n - suc idx - 1 ≡ n - idx - 1 = omega arith in
      rw e (get_elem?-top_first a n idx ∙ (ground arith))

  top_first-set :
      (a : List V) (n idx at : ℕ) (v : V)
      → at + idx + 1 ≡ n
      → n ≤ length a
      → top_first (set a at v) n ≡ set (top_first a n) idx v
  unfolding top_first
  top_first-set a zero idx at v e fits = absurd (omega arith)
  top_first-set a (suc n) zero at v e fits =
      let below =
        top_first_congr (set a at v) a n
          (λ i lt. get_or-set a at i v null (omega arith) ∙ (ground arith)) in
      rw (get_or-set a at n v null (omega arith), below) (ground arith)
  top_first-set a (suc n) (suc idx) at v e fits =
      let deeper = top_first-set a n idx at v (omega arith) (omega arith) in
      rw (get_or-set a at n v null (omega arith), deeper) (ground arith)

  -- What a call on a stack `s` does, where the list is `s`'s.
  pub record StackOps (s : ObjEnv V) (v : V) (idx : ℕ) : Type 0 where
    pub push :
        ((r : ObjEnv V) × (stack_push null s v ≡ some r)
          × IsValid r
          × (contents r ≡ v ∷ contents s))
        ⊎ ((stack_push null s v ≡ none) × TooLarge null s 1)
    pub pop_empty : contents s ≡ [] → stack_pop null s ≡ raised stack_underflow
    pub pop :
        (x : V) (rest : List V)
        → contents s ≡ x ∷ rest
        → (r : ObjEnv V) × (stack_pop null s ≡ returned (x, r)) × IsValid r × (contents r ≡ rest)
    pub get :
        stack_get null s idx
        ≡ elim (get_elem? (contents s) idx) [ none ↦ raised stack_underflow | some x ↦ returned x ]
    pub set_beyond : length (contents s) ≤ idx → stack_set null s idx v ≡ raised stack_underflow
    pub set :
        idx < length (contents s)
        → (r : ObjEnv V) × (stack_set null s idx v ≡ returned r)
          × IsValid r
          × (contents r ≡ set (contents s) idx v)
    pub depth : stack_depth null s ≡ length (contents s)

  contents-Added :
      (s : ObjEnv V) (v : V) (r : ObjEnv V)
      → IsValid s
      → Added null s v r
      → contents r ≡ v ∷ contents s
  unfolding top_first
  contents-Added s v r valid a =
      let next : s.used + 1 ≡ suc s.used = omega arith in
      let grown : take (suc s.used) r.values ≡ entries s ++ v ∷ [] =
        rw next at (rw a.used at a.kept) in
      let size : length (entries s) ≡ s.used = length-take s.used s.values ∙ (omega arith) in
      rw (a.used, next)
        (rw (
          sym (get_or-take r.values (suc s.used) s.used (omega arith))
              ∙ ap (λ t. get_or t s.used null) grown
              ∙ get_or-append_end (entries s) v s.used (sym size),
          top_first_congr r.values s.values s.used (λ i lt.
              sym (get_or-take r.values (suc s.used) i (omega arith))
              ∙ ap (λ t. get_or t i null) grown
              ∙ get_or-append_front (entries s) (v ∷ []) i (omega arith)
              ∙ get_or-take s.values s.used i lt),
        ))

  push-lem :
      (s : ObjEnv V) (v : V)
      → IsValid s
      → length s.values ≤ max_vector_size
      → ((r : ObjEnv V) × (stack_push null s v ≡ some r)
          × IsValid r
          × (contents r ≡ v ∷ contents s))
        ⊎ ((stack_push null s v ≡ none) × TooLarge null s 1)
  unfolding stack_push top_first
  push-lem s v valid small = elim (env_add_entry-Added null s v 0 valid small (omega arith)).0 [
    | inr (fails, large) ↦ inr (rw fails refl, large)
    | inl (r, run, a) ↦ inl (r, rw run refl, a.valid, contents-Added s v r valid a)
  ]

  pop-lem :
      (values : List V) (used : ℕ) (x : V) (rest : List V)
      → used ≤ length values
      → top_first values used ≡ x ∷ rest
      → (r : ObjEnv V) × (stack_pop null (record { used = used; values = values })
          ≡ returned (x, r))
        × IsValid r
        × (contents r ≡ rest)
  unfolding stack_pop top_first
  pop-lem values zero x rest fits e = absurd (cc)
  pop-lem values (suc n) x rest fits e =
      let top : get_or values n null ≡ x = cc in
      let last : suc n - 1 ≡ n = omega arith in
      (record { used = n; values = values }, rw (last, top) (ground arith), omega arith, cc)

  -- On a valid stack of the interpreter, whose vector is no longer than the largest one, seen as a
  -- list with the top first: push puts its value in front, unless a full vector would have to grow
  -- beyond the largest one, and then fails the assertion of the allocation; pop takes the first
  -- element, get reads and set replaces the element at an index; each of the three raises
  -- error_stack_underflow exactly when there is no such element; the depth is the length; all
  -- results are valid.
  pub stack-StackOps :
      (s : ObjEnv V) (v : V) (idx : ℕ)
      → IsValid s
      → length s.values ≤ max_vector_size
      → StackOps s v idx
  unfolding stack_pop stack_get stack_set top_first
  stack-StackOps s v idx valid small = record {
    push = push-lem s v valid small;
    pop_empty = λ e.
        let none_used : s.used ≡ 0 = sym (length-top_first s.values s.used) ∙ ap length e in
        ground arith;
    pop = λ x rest e. pop-lem s.values s.used x rest valid e;
    get = rw (get_elem?-top_first s.values s.used idx) (ground arith);
    set_beyond = λ h. let deep = length-top_first s.values s.used in ground arith;
    set = λ h.
        let deep = length-top_first s.values s.used in
        (
          record s { values = _ },
          ground arith,
          rw length-set valid,
          top_first-set s.values s.used idx (s.used - idx - 1) v (omega arith) valid,
        );
    depth = sym (length-top_first s.values s.used);
  }
