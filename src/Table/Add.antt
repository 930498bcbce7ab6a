-- ===== src/Table/Add.antt =====
-- Adding a symbol to a symbol table of table.c, with the doubling.
use native.Mathlib.Nat.{one-le-pow, pow-suc, mul_comm, pow-le-pow_right}
use native.Mathlib.Numerals.{add-one}
use mudlle.Prelude.{
  ℕ, zero, suc, ◌+◌, ◌*◌, ◌≤◌, ◌<◌, ◌^◌, ◌≡◌, refl, inl, inr, List, [], ◌∷◌, true, Option, none,
  some, arith, length, replicate, set, ap, sym, ◌∙◌, ◌>>=◌, length-replicate, dec_lt,
}
use mudlle.Table.{Symbol, Table, get_methods, is_ctable, table_entries, re_add, table_add_sym_fast}
use mudlle.Table.Probe.{vacant, cell}
use mudlle.Table.Probe.Placed.{count, Holds}
use mudlle.Table.Valid.{get_methods-Folds, IsValid, Finds}
use mudlle.Table.Store.{stored, stored-IsPlaced, stored-count, stored-Holds}
use mudlle.Table.Grow.{Writable, Adds, HasSpace, threshold, add_below, add_above, doubled}
use mudlle.Table.ReAdd.{NamesDiffer, NamesReadonly, find_vacant, re_add-Adds}

pow-add_one : (b : ℕ) → 2 ^ (b + 1) ≡ 2 * 2 ^ b
pow-add_one b = ap (λ k. 2 ^ k) (add-one b) ∙ pow-suc 2 b ∙ mul_comm (2 ^ b) 2

bits-lt : (b k : ℕ) → 2 ^ b < 2 ^ k → b < k
bits-lt b k h = elim (dec_lt b k) [
  | yes lt ↦ lt
  | no ge ↦
      absurd (omega (arith, pow-le-pow_right {n = 2} (omega arith) {i = k} {j = b} (omega arith)))
]

cell-replicate : (S : Type 0) (n i : ℕ) → cell {S = S} (replicate n none) i ≡ none
cell-replicate S zero i = refl
cell-replicate S (suc n) zero = refl
cell-replicate S (suc n) (suc i) = cell-replicate S n i

count-replicate : (S : Type 0) (n : ℕ) → count {S = S} (replicate n none) ≡ 0
count-replicate S zero = refl
count-replicate S (suc n) = omega (arith, count-replicate S n)

module _ {S : Type 0} where
  only_cell :
      (bs : List (Option S)) (p : ℕ) (s : S)
      → length bs ≡ 1
      → p < length bs
      → set bs p (some s) ≡ some s ∷ []
  only_cell [] p s e h = absurd (omega arith)
  only_cell (b ∷ []) zero s e h = refl
  only_cell (b ∷ []) (suc p) s e h = absurd (omega arith)
  only_cell (b ∷ c ∷ bs) p s e h = absurd (omega arith)

  none_held : (bs : List (Option S)) (i : ℕ) (s : S) → count bs ≡ 0 → cell bs i ≡ some s → ⊥
  none_held [] i s h e = cc
  none_held (none ∷ bs) zero s h e = cc
  none_held (some x ∷ bs) zero s h e = omega arith
  none_held (b ∷ bs) (suc i) s h e = none_held bs i s (omega arith) e

module _ {V : Type 0} where
  pub nothing-held : (n : ℕ) (s : Symbol V) → Holds (replicate n none) s → ⊥
  nothing-held n s (i, e) = let e' = cell-replicate (Symbol V) n i in cc

  -- A table with no symbol is in order.
  pub empty-IsValid :
      (t : Table V) (b n : ℕ)
      → b < 32
      → n ≡ 2 ^ b
      → t.buckets ≡ replicate n none
      → table_entries t ≡ 0
      → IsValid t
  empty-IsValid t b n lt size e zero' = record {
    bits = b;
    bits_lt = lt;
    size = rw (e, length-replicate) size;
    placed = record {
      reached = λ i s es. absurd (gone i s es);
      unique = λ i j s u es eu same. absurd (gone i s es);
    };
    counted = rw (e, count-replicate, zero');
    room = rw (e, count-replicate, length-replicate) (rw size (one-le-pow b 2 (omega arith)));
    names = λ i s es. absurd (gone i s es);
  }
    where
      gone : (i : ℕ) (s : Symbol V) → cell t.buckets i ≡ some s → ⊥
      gone i s es = nothing-held n s (i, rw e at es)

  doubled_kind :
      (t : Table V) → (is_ctable (doubled t) ≡ is_ctable t) × (table_entries (doubled t) ≡ 0)
  unfolding get_methods
  doubled_kind t = ground arith

  doubled-IsValid : (t : Table V) (v : IsValid t) → v.bits < 31 → IsValid (doubled t)
  doubled-IsValid t v lt =
      empty-IsValid (doubled t) (v.bits + 1) (2 * length t.buckets) (omega arith)
        (rw v.size (sym (pow-add_one v.bits))) refl (doubled_kind t).1

  module _ (t : Table V) (v : IsValid t) (p : ℕ) (s : Symbol V)
      (f : Finds t v s.name.bytes (vacant p)) (ro : s.name.readonly ≡ true) (w : Writable t) where
    big : length t.buckets < 2 ^ 20 → length t.buckets < 2 ^ 31
    big h = omega arith

    stored_differ : NamesDiffer (is_ctable t) (stored t p s).buckets
    stored_differ i j x y ex ey e =
        (stored-IsPlaced t v p s f).unique i j x y ex ey (((get_methods-Folds t).same_iff _ _).1 e)

    stored_readonly : NamesReadonly (stored t p s).buckets
    stored_readonly i x ex = elim ((stored-Holds t v p s f x).0 (i, ex)) [
      | inl (j, h) ↦ v.names j x h
      | inr e ↦ rw e ro
    ]

    -- A table of two cells or more, three quarters full with the new symbol, is doubled once.
    add_doubling :
        (depth : ℕ)
        → length t.buckets < 2 ^ 20
        → 2 ≤ length t.buckets
        → threshold t ≤ table_entries t + 1
        → (r : Table V) × (table_add_sym_fast (suc (suc depth)) t p s ≡ some r)
          × Adds t 1 (λ u. u ≡ s) r
    add_doubling depth lt two full' =
        let d = doubled_kind t in
        let n = length t.buckets in
        let (r, ran, a, l) =
          re_add-Adds depth (stored t p s).buckets (doubled t) (2 * n)
            (doubled-IsValid t v (bits-lt v.bits 31 (rw v.size at (big lt)))) (w.0, refl)
            (length-replicate _ _) (rw d.0 stored_differ) stored_readonly
            (λ x u hx hu. absurd (nothing-held _ u hu))
            (omega (arith, d.1, stored-count t v p s f, v.counted, v.room)) in
        (
          r,
          add_above t v p s f ro w (suc depth) full' lt ∙ ran,
          record {
            valid = a.valid;
            kind = a.kind ∙ d.0;
            entries = omega (arith, a.entries, d.1, stored-count t v p s f, v.counted);
            holds = λ u. (
              λ h. elim ((a.holds u).0 h) [
                | inl x ↦ absurd (nothing-held _ u x)
                | inr x ↦ (stored-Holds t v p s f u).0 x
              ],
              λ h. (a.holds u).1 (inr ((stored-Holds t v p s f u).1 h)),
            );
            flags = a.flags;
          },
        )

  module _ (t : Table V) (v : IsValid t) (p : ℕ) (s : Symbol V)
      (f : Finds t v s.name.bytes (vacant p)) (ro : s.name.readonly ≡ true) (w : Writable t) where
    -- A table of one cell is doubled twice, the second time by the nested call.
    add_single :
        (depth : ℕ)
        → length t.buckets ≡ 1
        → (r : Table V) × (table_add_sym_fast (suc (suc (suc depth))) t p s ≡ some r)
          × Adds t 1 (λ u. u ≡ s) r
    unfolding re_add
    add_single depth n1 =
        let d = doubled_kind t in
        let n2 : length (doubled t).buckets ≡ 2 = length-replicate _ _ ∙ ap (λ k. 2 * k) n1 in
        let dv = doubled-IsValid t v (bits-lt v.bits 31 (rw (← v.size, n1) (omega arith))) in
        let (q, found, finds) =
          find_vacant (doubled t) dv s.name.bytes (λ u h. absurd (nothing-held _ u h)) in
        let (r, ran, a) =
          add_doubling (doubled t) dv q s finds ro (w.0, refl) depth (rw n2 (omega arith))
            (rw n2 (omega arith)) (rw (d.1, n2) (omega arith)) in
        (
          r,
          add_above t v p s f ro w (suc (suc depth)) (rw n1 (omega arith)) (rw n1 (omega arith))
              ∙ rw (only_cell t.buckets p s n1 f.0, found, ◌>>=◌) (rw (ran, ◌>>=◌)),
          record {
            valid = a.valid;
            kind = a.kind ∙ d.0;
            entries = omega (arith, a.entries, d.1, v.counted, v.room);
            holds = λ u. (
              λ h. elim ((a.holds u).0 h) [ inl x ↦ absurd (nothing-held _ u x) | inr x ↦ inr x ],
              λ h. (a.holds u).1 (
                  inr (elim h [
                    | inl (i, e) ↦ absurd (none_held t.buckets i u (omega (arith, v.room)) e)
                    | inr e ↦ e
                  ])),
            );
            flags = a.flags;
          },
        )

    -- Adding a symbol whose name the table does not have, at the cell that `table_find` gave, to a
    -- table that has space for one more: with three nested calls allowed it does not abort, the
    -- table is in order again, of the same kind, and holds the symbol besides what it held.
    pub table_add_sym_fast-Adds :
        (depth : ℕ)
        → HasSpace t
        → (r : Table V) × (table_add_sym_fast (suc (suc (suc depth))) t p s ≡ some r)
          × Adds t 1 (λ u. u ≡ s) r
    table_add_sym_fast-Adds depth small = elim (dec_lt (table_entries t + 1) (threshold t)) [
      | yes below ↦
          let (ran, a) = add_below t v p s f ro w (suc (suc depth)) below in (stored t p s, ran, a)
      | no above ↦ elim (dec_lt 1 (length t.buckets)) [
        | yes two ↦ add_doubling t v p s f ro w (suc depth) (omega arith) two (omega arith)
        | no one ↦ add_single depth (omega (arith, f.0))
      ]
    ]
