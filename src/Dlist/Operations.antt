-- ===== src/Dlist/Operations.antt =====
-- dlist.c: insertion and removal in a ring as operations on the sequence of its nodes.
use mathlib.Core.List.{append-nil, append_assoc}
use mudlle.Prelude.{
  ℕ, zero, suc, ◌+◌, ◌≤◌, ◌<◌, ◌≡◌, ◌≢◌, ◌∙◌, false, some, none, List, [], ◌∷◌, ◌++◌, arith, ◌==◌,
  length, ◌>>=◌,
}
use mudlle.Dlist.{
  Store, set_next, set_prev, init_dlist, dlist_is_empty, dlist_insert_before, dlist_insert_after,
  dlist_remove, count_loop, dlist_entries,
}
use mudlle.Dlist.Ring.{
  occurs, Linked, IsRing, occurs-append, Linked-append, rotate-IsRing, Linked-frame, Linked-next,
  Linked-Last,
}

-- A node that is in no list.
abbrev pub IsFree : Store → ℕ → Type 0
IsFree s node = (s.next node ≡ none) × (s.prev node ≡ none)

module _ (s : Store) (head node : ℕ) (xs : List ℕ) (ring : IsRing s head xs)
    (free : IsFree s node) where
  -- A free node put in front of `head` becomes the last of the ring.
  insert_before-IsRing :
      (t : Store) × (dlist_insert_before head node s ≡ some t) × IsRing t head (xs ++ node ∷ [])
  unfolding dlist_insert_before set_next set_prev occurs
  insert_before-IsRing =
      let last = Linked-Last s head head xs ring.linked ring.distinct in
      let absent = Linked-next s head head node xs ring.linked free.0 in
      let other : head ≢ node = (λ e. ground arith) in
      let apart : last.p ≢ node = (λ e. let on = last.on_path in ground arith) in
      let once : occurs head xs ≡ 0 = (let d = ring.distinct head in ground arith) in
      let back = last.back in
      (
        set_prev head (some node) (
            set_next last.p (some node)
              (set_next node (some head) (set_prev node (s.prev head) s))),
        rw (free.0, free.1, ◌>>=◌) (ground arith),
        record {
          linked =
              Linked-append _ head node head xs []
                (last.relink _ node (ground arith) (ground arith) (λ q on ne. ground arith)
                  (λ q on. ground arith))
                (ground arith, ground arith);
          distinct = λ q.
              let d = ring.distinct q in let e = occurs-append q xs (node ∷ []) in ground arith;
        },
      )

  -- A free node put behind `head` becomes the first of the ring.
  insert_after-IsRing :
      (t : Store) × (dlist_insert_after head node s ≡ some t) × IsRing t head (node ∷ xs)
  unfolding dlist_insert_after set_next set_prev occurs
  insert_after-IsRing =
      let absent = Linked-next s head head node xs ring.linked free.0 in
      let other : head ≢ node = (λ e. ground arith) in
      let once : occurs head xs ≡ 0 = (let d = ring.distinct head in ground arith) in
      go xs ring.linked absent once ring.distinct
    where
      go :
          (xs : List ℕ)
          → Linked s head xs head
          → occurs node (head ∷ xs) ≡ 0
          → occurs head xs ≡ 0
          → ((q : ℕ) → occurs q (head ∷ xs) ≤ 1)
          → (t : Store) × (dlist_insert_after head node s ≡ some t) × IsRing t head (node ∷ xs)
      go [] l absent once distinct =
          let other : head ≢ node = (λ e. ground arith) in
          (
            set_next head (some node) (
                set_prev head (some node)
                  (set_next node (some head) (set_prev node (some head) s))),
            rw (free.0, free.1, ◌>>=◌) (ground arith),
            record {
              linked = (ground arith, ground arith, (ground arith, ground arith));
              distinct = λ q. ground arith;
            },
          )
      go (y ∷ ys) l absent once distinct =
          let other : head ≢ node = (λ e. ground arith) in
          let first : y ≢ node = (λ e. ground arith) in
          let once' : occurs y ys ≡ 0 = (let d = distinct y in ground arith) in
          (
            set_next head (some node)
                (set_prev y (some node) (set_next node (some y) (set_prev node (some head) s))),
            rw (free.0, free.1, ◌>>=◌) (ground arith),
            record {
              linked = (
                ground arith,
                ground arith,
                (
                  ground arith,
                  ground arith,
                  Linked-frame s _ y head ys (λ q on. ground arith)
                      (λ q on. let e = occurs-append q ys (head ∷ []) in ground arith) l.2,
                ),
              );
              distinct = λ q. let d = distinct q in ground arith;
            },
          )

-- The node that a ring is read from is taken out, if it is not alone: the ring of the others, read
-- from the next one.
remove_head :
    (s : Store) (x z : ℕ) (zs : List ℕ)
    → IsRing s x (z ∷ zs)
    → (t : Store) × (dlist_remove x s ≡ some t) × IsRing t z zs × IsFree t x
unfolding dlist_remove set_next set_prev occurs
remove_head s x z zs ring =
    let last = Linked-Last s z x zs ring.linked.2 (λ q. omega (arith, ring.distinct q)) in
    let on = last.on_path in
    let alone = ring.distinct x in
    let apart : last.p ≢ x = (λ e. ground arith) in
    let other : x ≢ z = (λ e. ground arith) in
    let once : occurs z zs ≡ 0 = (let d = ring.distinct z in ground arith) in
    let absent : occurs x zs ≡ 0 = ground arith in
    let next = ring.linked.0 in
    let back = last.back in
    (
      set_next x none (set_prev x none (set_prev z (some last.p) (set_next last.p (some z) s))),
      rw (back, ◌>>=◌) (ground arith),
      record {
        linked =
            last.relink _ z (ground arith) (ground arith) (λ q on ne. ground arith)
              (λ q on. ground arith);
        distinct = λ q. omega (arith, ring.distinct q);
      },
      (ground arith, ground arith),
    )

remove-IsRing :
    (s : Store) (head x : ℕ) (xs ys : List ℕ)
    → IsRing s head (xs ++ x ∷ ys)
    → (t : Store) × (dlist_remove x s ≡ some t) × IsRing t head (xs ++ ys) × IsFree t x
remove-IsRing s head x xs [] ring =
    let (t, run, r, free) = remove_head s x head xs (rotate-IsRing s head x xs [] ring) in
    (t, run, rw append-nil r, free)
remove-IsRing s head x xs (y ∷ ys) ring =
    let (t, run, r, free) =
      remove_head s x y (ys ++ head ∷ xs) (rotate-IsRing s head x xs (y ∷ ys) ring) in
    (t, run, rotate-IsRing t y head ys xs r, free)

count_loop-length :
    (s : Store) (head d : ℕ) (xs : List ℕ) (fuel n : ℕ)
    → Linked s d xs head
    → occurs head (d ∷ xs) ≡ 0
    → length xs + 1 < fuel
    → count_loop fuel head s d n ≡ some (n + length xs + 1)
unfolding count_loop occurs
count_loop-length s head d xs zero n l absent enough = absurd (omega arith)
count_loop-length s head d [] (suc zero) n l absent enough = absurd (omega arith)
count_loop-length s head d [] (suc (suc fuel)) n l absent enough =
    let other : (d == head) ≡ false = ground arith in rw (other, l.0, ◌>>=◌) (ground arith)
count_loop-length s head d (x ∷ xs) (suc fuel) n l absent enough =
    let other : (d == head) ≡ false = ground arith in
    let rest = count_loop-length s head x xs fuel (n + 1) l.2 (omega arith) (omega arith) in
    rw (other, l.0, ◌>>=◌) (ground arith)

-- A list that is made empty, and the test for that.
pub init_dlist-IsRing : (s : Store) (head : ℕ) → IsRing (init_dlist head s) head []
unfolding init_dlist set_next set_prev occurs
init_dlist-IsRing s head = record {
  linked = (ground arith, ground arith);
  distinct = λ q. ground arith;
}

pub dlist_is_empty-length :
    (s : Store) (head : ℕ) (xs : List ℕ)
    → IsRing s head xs
    → dlist_is_empty head s ≡ some (length xs == 0)
unfolding dlist_is_empty occurs
dlist_is_empty-length s head [] ring = rw (ring.linked.0, ◌>>=◌) (ground arith)
dlist_is_empty-length s head (x ∷ xs) ring =
    let absent : occurs head (x ∷ xs) ≡ 0 = (let d = ring.distinct head in ground arith) in
    let other : (x == head) ≡ false = ground arith in
    rw (ring.linked.0, ◌>>=◌, other) (ground arith)

dlist_entries-length :
    (s : Store) (head : ℕ) (xs : List ℕ) (fuel : ℕ)
    → IsRing s head xs
    → length xs < fuel
    → dlist_entries fuel head s ≡ some (length xs)
unfolding dlist_entries count_loop occurs
dlist_entries-length s head xs zero ring enough = absurd (omega arith)
dlist_entries-length s head [] (suc fuel) ring enough = rw (ring.linked.0, ◌>>=◌) (ground arith)
dlist_entries-length s head (x ∷ xs) (suc fuel) ring enough =
    let absent : occurs head (x ∷ xs) ≡ 0 = (let d = ring.distinct head in ground arith) in
    rw (ring.linked.0, ◌>>=◌)
      (count_loop-length s head x xs (suc fuel) 0 ring.linked.2 absent (omega arith)
        ∙ (ground arith))

-- The operations on a ring whose sequence is `xs`, then `x`, then `ys`.
pub record Edits (s : Store) (head node x : ℕ) (xs ys : List ℕ) : Type 0 where
  pub at_end :
      (t : Store) × (dlist_insert_before head node s ≡ some t)
      × IsRing t head ((xs ++ x ∷ ys) ++ node ∷ [])
  pub at_front :
      (t : Store) × (dlist_insert_after head node s ≡ some t) × IsRing t head (node ∷ xs ++ x ∷ ys)
  pub before :
      (t : Store) × (dlist_insert_before x node s ≡ some t) × IsRing t head (xs ++ node ∷ x ∷ ys)
  pub behind :
      (t : Store) × (dlist_insert_after x node s ≡ some t) × IsRing t head (xs ++ x ∷ node ∷ ys)
  pub removed : (t : Store) × (dlist_remove x s ≡ some t) × IsRing t head (xs ++ ys) × IsFree t x
  pub entries :
      (fuel : ℕ)
      → length (xs ++ x ∷ ys) < fuel
      → dlist_entries fuel head s ≡ some (length (xs ++ x ∷ ys))

-- In a ring whose nodes after the head are `xs`, `x` and `ys`, none twice, and with a node whose
-- two fields are NULL: inserting it before or after the head makes it the last or the first,
-- inserting it before or after `x` puts it there in the sequence; removing `x` takes it out and
-- leaves its fields NULL; no assertion fails, no NULL is read, and every result is such a ring
-- again. The count ends, with fuel for one round more than the nodes, and is right.
pub ring-Edits :
    (s : Store) (head node x : ℕ) (xs ys : List ℕ)
    → IsRing s head (xs ++ x ∷ ys)
    → IsFree s node
    → Edits s head node x xs ys
ring-Edits s head node x xs ys ring free =
    let turned = rotate-IsRing s head x xs ys ring in
    record {
      at_end = insert_before-IsRing s head node (xs ++ x ∷ ys) ring free;
      at_front = insert_after-IsRing s head node (xs ++ x ∷ ys) ring free;
      before =
          (let (t, run, r) = insert_before-IsRing s x node (ys ++ head ∷ xs) turned free in
            let r' = rw (append_assoc ys (head ∷ xs) (node ∷ [])) at r in
            let r'' = rotate-IsRing t x head ys (xs ++ node ∷ []) r' in
            (t, run, rw (append_assoc xs (node ∷ []) (x ∷ ys)) at r''));
      behind =
          (let (t, run, r) = insert_after-IsRing s x node (ys ++ head ∷ xs) turned free in
            (t, run, rotate-IsRing t x head (node ∷ ys) xs r));
      removed = remove-IsRing s head x xs ys ring;
      entries = λ fuel enough. dlist_entries-length s head (xs ++ x ∷ ys) fuel ring enough;
    }
