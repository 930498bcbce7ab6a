-- ===== src/Table/Access/Set.antt =====
-- Writing a value under a name: `table_set` of table.c.
use mudlle.Prelude.{
  ℕ, ◌≡◌, ◌≢◌, ◌↔◌, refl, inl, inr, List, Bool, true, false, Option, none, some, arith, ap, sym,
  ◌∙◌, ◌==◌, if◌then◌else◌, Bool-cases, ◌>>=◌, ℕ_discrete, length-set, subst,
}
use mudlle.Table.{Symbol, Table, same_name, get_methods, table_lookup_len}
use mudlle.Table.Methods.{Folds}
use mudlle.Table.Probe.{at, cell}
use mudlle.Table.Probe.Placed.{cell-set, cell-lt, count, count-set, IsPlaced}
use mudlle.Table.Valid.{fold, home_of, same_symbol, get_methods-Folds, IsValid}
use mudlle.Table.Store.{get_methods_congr}
use mudlle.Table.Lookup.{HoldsNamed, same_cell, table_lookup_len_iff}
use mudlle.Table.Map.{lookup_by}
use mudlle.Table.Access.{assign}

module _ {V : Type 0} where
  module _ (t : Table V) (v : IsValid t) (i : ℕ) (x : Symbol V) (val : Option V)
      (ex : cell t.buckets i ≡ some x) where
    at_cell :
        (j : ℕ)
        → cell (assign t i x val).buckets j
          ≡ (if i == j then some (record x { val = val }) else cell t.buckets j)
    at_cell j = cell-set t.buckets i j _ (cell-lt t.buckets i ex)

    -- The symbol that stood in a cell, or was overwritten there, under the same name.
    before :
        (j : ℕ) (s : Symbol V)
        → cell (assign t i x val).buckets j ≡ some s
        → (s' : Symbol V) × (cell t.buckets j ≡ some s') × (s'.name ≡ s.name)
    before j s es = elim (ℕ_discrete i j) [
      | yes q ↦
          let e : record x { val = val } ≡ s = (let p = at_cell j in ground arith) in
          (x, rw q at ex, ap (λ (y : Symbol V). y.name) e)
      | no q ↦ (s, ground (arith, at_cell j), refl)
    ]

    assign-IsPlaced :
        IsPlaced
          (home_of (get_methods t) v.bits)
          (same_symbol (get_methods t))
          (assign t i x val).buckets
    assign-IsPlaced = record {
      reached = λ j s es k. rw length-set (λ hk d e.
          (let (s', es', n) = before j s es in
            v.placed.reached j s' es' k hk (rw n d) (ground (arith, at_cell k))));
      unique = λ j k s u es eu same.
          let (s', es', n) = before j s es in
          let (u', eu', m) = before k u eu in v.placed.unique j k s' u' es' eu' (rw (n, m) same);
    }

    assign-count : count (assign t i x val).buckets ≡ count t.buckets
    assign-count =
        let c = count-set t.buckets i (some (record x { val = val })) (cell-lt t.buckets i ex) in
        let c' = rw ex at c in omega arith

    -- Overwriting a value keeps the table in order.
    pub assign-IsValid : IsValid (assign t i x val)
    assign-IsValid = record {
      bits = v.bits;
      bits_lt = v.bits_lt;
      size = length-set t.buckets i _ ∙ v.size;
      placed = rw (get_methods_congr (assign t i x val) t refl) assign-IsPlaced;
      counted = assign-count ∙ v.counted;
      room = rw (assign-count, length-set) v.room;
      names = λ j s es. let (s', es', n) = before j s es in rw (← n) (v.names j s' es');
    }

    overwritten :
        (other : List ℕ) (s : Symbol V)
        → fold t x.name.bytes ≡ fold t other
        → HoldsNamed (assign t i x val) other s
        → some (record x { val = val }) ≡ some s
    overwritten other s e ((j, es), n) = elim (ℕ_discrete i j) [
      | yes q ↦ ground (arith, at_cell j)
      | no q ↦ absurd (q (same_cell t v i j x s ex (ground (arith, at_cell j)) (e ∙ n)))
    ]

    differ :
        (other : List ℕ)
        → same_name (get_methods t) x.name.bytes other ≡ false
        → fold t x.name.bytes ≢ fold t other
    differ other ne e = (let same = ((get_methods-Folds t).same_iff x.name.bytes other).1 e in cc)

    kept_there :
        (other : List ℕ) (s : Symbol V)
        → same_name (get_methods t) x.name.bytes other ≡ false
        → HoldsNamed t other s
        → HoldsNamed (assign t i x val) other s
    kept_there other s ne ((j, es), n) = elim (ℕ_discrete i j) [
      | yes q ↦
          let xs : x ≡ s = (let es' = rw (← q) at es in cc) in
          absurd (differ other ne (ap (λ (y : Symbol V). fold t y.name.bytes) xs ∙ sym n))
      | no q ↦ ((j, ground (arith, at_cell j)), n)
    ]

    kept_back :
        (other : List ℕ) (s : Symbol V)
        → same_name (get_methods t) x.name.bytes other ≡ false
        → HoldsNamed (assign t i x val) other s
        → HoldsNamed t other s
    kept_back other s ne ((j, es), n) = elim (ℕ_discrete i j) [
      | yes q ↦
          let xs : record x { val = val } ≡ s = (let p = at_cell j in ground arith) in
          absurd (differ other ne (ap (λ (y : Symbol V). fold t y.name.bytes) xs ∙ sym n))
      | no q ↦ ((j, ground (arith, at_cell j)), n)
    ]

    -- The symbol is read under all that the table takes for its name.
    pub lookup-assign :
        (other : List ℕ)
        → table_lookup_len (assign t i x val) other ≡ (
            if same_name (get_methods t) x.name.bytes other
            then some (some (record x { val = val }))
            else table_lookup_len t other)
    lookup-assign other = elim (Bool-cases (same_name (get_methods t) x.name.bytes other)) [
      | inl same ↦
          let e = ((get_methods-Folds t).same_iff x.name.bytes other).0 same in
          let here : HoldsNamed (assign t i x val) other (record x { val = val }) =
            ((i, ground (arith, at_cell i)), sym e) in
          rw same (
            lookup_by (assign t i x val) assign-IsValid other _ (λ s. (
              λ q.
                  (let xs : record x { val = val } ≡ s = cc in
                    subst (HoldsNamed (assign t i x val) other) xs here),
              λ h. overwritten other s e h,
            )))
      | inr ne ↦
          let (r, ran, iff) = table_lookup_len_iff t v other in
          rw (ne, ran)
            (lookup_by (assign t i x val) assign-IsValid other r (λ s.
              (λ q. kept_there other s ne ((iff s).0 q), λ h. (iff s).1 (kept_back other s ne h))))
    ]

  -- The value under a name, where a symbol that is missing has no value.
  abbrev pub value_of : Option (Symbol V) → Option V
  value_of none = none
  value_of (some s) = s.val

  abbrev pub value_at : Table V → List ℕ → Option (Option V)
  value_at t name = table_lookup_len t name >>= λ o. some (value_of o)

  -- What setting a name does: it is refused exactly if the name has a read-only symbol, and changes
  -- nothing then; else the value under every name that the table takes for this one is the one set,
  -- and under any other name what it was.
  pub record Sets (t : Table V) (name : List ℕ) (val : Option V) (done : Bool) (u : Table V)
      : Type 0 where
    pub valid : IsValid u
    pub refused :
        (done ≡ false)
        ↔ ((s : Symbol V) × (table_lookup_len t name ≡ some (some s)) × (s.readonly ≡ true))
    pub unchanged : done ≡ false → u ≡ t
    pub values :
        done ≡ true
        → (other : List ℕ)
        → value_at u other
          ≡ (if same_name (get_methods t) name other then some val else value_at t other)

  pub same_congr :
      (t : Table V) (a b other : List ℕ)
      → fold t a ≡ fold t b
      → same_name (get_methods t) a other ≡ same_name (get_methods t) b other
  same_congr t a b other e =
      bool_ext _ _ (λ q. (fs.same_iff b other).1 (sym e ∙ (fs.same_iff a other).0 q))
        (λ q. (fs.same_iff a other).1 (e ∙ (fs.same_iff b other).0 q))
    where
      fs : Folds (get_methods t) (fold t)
      fs = get_methods-Folds t

      bool_ext : (x y : Bool) → (x ≡ true → y ≡ true) → (y ≡ true → x ≡ true) → x ≡ y
      bool_ext true y f g = sym (f refl)
      bool_ext false true f g = g refl
      bool_ext false false f g = refl

  -- A name that has no symbol has no value, under any of its forms.
  pub no_value :
      (t : Table V)
      → IsValid t
      → (name other : List ℕ)
      → ((i : ℕ) (s : Symbol V) → cell t.buckets i ≡ some s → fold t name ≢ fold t s.name.bytes)
      → same_name (get_methods t) name other ≡ true
      → table_lookup_len t other ≡ some none
  no_value t v name other gone same = lookup_by t v other none (λ s. (
    λ q. cc,
    λ h. absurd (gone h.0.0 s h.0.1 (((get_methods-Folds t).same_iff name other).0 same ∙ h.1)),
  ))
