-- ===== src/Pair/Proper.antt =====
-- `check_proper_list` of runtime/list.c against the definition of a proper list.
use mudlle.Prelude.{
  ℕ, zero, suc, ◌+◌, ◌*◌, ◌-◌, ◌%◌, ◌≤◌, ◌<◌, ◌≡◌, ◌≢◌, ◌↔◌, ◌⊎◌, inl, inr, refl, sym, ap, ◌∙◌,
  Bool, false, not, Option, none, some, ◌==◌, leb, ==_iff, if◌then◌else◌, ◌>>=◌, Bool-cases,
  Option-cases, arith,
}
use mudlle.Error.{bad_type, loop, Result, raised, returned}
use mudlle.Pair.Walk.{
  value_eq_sound, step, walk, walk_on, no_start, no_end, one_more, first_step, step-fetch,
}
use mudlle.Pair.{
  Value, null, integer, pair, other, Heap, value_eq, fetch, proper_loop, check_proper_list,
}

module _ (heap : Heap) (is_typeset : Value → Bool) (max_vector_size : ℕ) (start : Value) where
  abbrev go : ℕ → Value → Option Value
  go n v = walk heap is_typeset n v

  abbrev is_null : Value → Bool
  is_null v = value_eq v null

  -- A value other than null stands after n pairs.
  abbrev pub Stops : ℕ → Value → Type 0
  Stops n v = (go n start ≡ some v) × (is_null v ≡ false)

  abbrev pub Cycles : Type 0
  Cycles = (i d : ℕ) × (v : Value) × (go i start ≡ some v) × (go (suc d) v ≡ some v)

  -- What a result says of the list.
  abbrev pub Verdict : Result ℕ → Type 0
  Verdict (returned n) = (n ≤ max_vector_size) × (go n start ≡ some null)
  Verdict (raised e) =
      (e ≡ bad_type)
        × ((n : ℕ) × (v : Value) × (n < max_vector_size)
            × Stops n v
            × (step heap is_typeset v ≡ none))
      ⊎ (e ≡ loop) × (Cycles ⊎ ((v : Value) × Stops max_vector_size v))

  abbrev body : ℕ → Value → Value → ℕ → Option (Result ℕ)
  body rounds l slowl n = if n == max_vector_size then some (raised loop) else elim (fetch heap l) [
    | none ↦ some (raised bad_type)
    | some p ↦ if not (is_typeset p.car) then some (raised bad_type) else (do
      slowl' ← (if n % 2 == 1 then (fetch heap slowl >>= λ q. some q.cdr) else some slowl)
      let rest = proper_loop heap is_typeset max_vector_size rounds p.cdr slowl' (n + 1)
      if value_eq slowl' p.cdr then some (raised loop) else rest)
  ]

  proper_loop-null :
      (rounds : ℕ) (slowl : Value) (n : ℕ)
      → proper_loop heap is_typeset max_vector_size (suc rounds) null slowl n ≡ some (returned n)
  unfolding proper_loop
  proper_loop-null rounds slowl n = refl

  proper_loop-body :
      (rounds : ℕ) (l slowl : Value) (n : ℕ)
      → is_null l ≡ false
      → proper_loop heap is_typeset max_vector_size (suc rounds) l slowl n ≡ body rounds l slowl n
  unfolding proper_loop
  proper_loop-body rounds null slowl n h = absurd (cc)
  proper_loop-body rounds (integer k) slowl n h = refl
  proper_loop-body rounds (pair a) slowl n h = refl
  proper_loop-body rounds (other a) slowl n h = refl

  -- The slow pointer is s steps from the start, and the fast one is d steps further.
  abbrev Chase : ℕ → ℕ → Value → Value → ℕ → Type 0
  Chase s d slowl l n =
      (go s start ≡ some slowl)
      × (go d slowl ≡ some l)
      × (s + d ≡ n)
      × (2 * s ≤ n)
      × (go n start ≡ some l)

  plus_one : (n : ℕ) → n + 1 ≡ suc n
  plus_one n = omega arith

  abbrev Ends : Option (Result ℕ) → Type 0
  Ends outcome = (result : Result ℕ) × (outcome ≡ some result) × Verdict result

  -- The test of the two pointers after a round, and the rounds after it.
  after :
      (rounds s d n : ℕ) (l slowl : Value)
      → Chase s (suc d) slowl l n
      → Ends (proper_loop heap is_typeset max_vector_size rounds l slowl n)
      → Ends (
          if value_eq slowl l
          then some (raised loop)
          else proper_loop heap is_typeset max_vector_size rounds l slowl n)
  after rounds s d n l slowl c ends = elim (Bool-cases (value_eq slowl l)) [
    | inl e ↦
        let same = value_eq_sound slowl l e in
        rw e (raised loop, refl, inr (refl, inl (s, d, slowl, c.0, rw (← same) at (c.1))))
    | inr e ↦ rw e ends
  ]

  round :
      (rounds s d n : ℕ) (l slowl : Value)
      → n < max_vector_size
      → Chase s d slowl l n
      → is_null l ≡ false
      → ((s' d' : ℕ) (l' slowl' : Value)
          → Chase s' d' slowl' l' (n + 1)
          → Ends (proper_loop heap is_typeset max_vector_size rounds l' slowl' (n + 1)))
      → Ends (body rounds l slowl n)
  round rounds s d n l slowl lt c nl ih =
      let running : (n == max_vector_size) ≡ false = ground arith in
      elim (Option-cases (fetch heap l)) [
        | inl f ↦
            rw (running, f)
              (raised bad_type, refl, inl (refl, (n, l, lt, (c.4, nl), rw (step, f) refl)))
        | inr (p, f) ↦ elim (Bool-cases (is_typeset p.car)) [
          | inr t ↦
              rw (running, f, t)
                (raised bad_type, refl, inl (refl, (n, l, lt, (c.4, nl), rw (step, f, t) refl)))
          | inl t ↦
              let next : step heap is_typeset l ≡ some p.cdr = rw (step, f, t) refl in
              let fast = one_more heap is_typeset n start l p.cdr c.4 next in
              let apart = one_more heap is_typeset d slowl l p.cdr c.1 next in
              elim (Bool-cases (n % 2 == 1)) [
                | inl odd ↦
                    let (x, stepped, rest) =
                      first_step heap is_typeset d slowl p.cdr (rw (plus_one d) at apart) in
                    let (q, g, cdr) = step-fetch heap is_typeset slowl x stepped in
                    let whole : suc (d - 1) ≡ d = ground (arith, c.2, c.3) in
                    let c' : Chase (s + 1) (suc (d - 1)) x p.cdr (n + 1) = (
                      one_more heap is_typeset s start slowl x c.0 stepped,
                      rw whole rest,
                      omega (arith, c.2, whole),
                      ground (arith, c.3),
                      fast,
                    ) in
                    rw (running, f, t, odd, g, cdr)
                      (after rounds (s + 1) (d - 1) (n + 1) p.cdr x c'
                        (ih (s + 1) (suc (d - 1)) p.cdr x c'))
                | inr even ↦
                    let c' : Chase s (suc d) slowl p.cdr (n + 1) = (
                      c.0,
                      rw (plus_one d) at apart,
                      omega (arith, c.2),
                      omega (arith, c.3),
                      fast,
                    ) in
                    rw (running, f, t, even)
                      (after rounds s d (n + 1) p.cdr slowl c' (ih s (suc d) p.cdr slowl c'))
              ]
        ]
      ]

  loop-Ends :
      (rounds s d n : ℕ) (l slowl : Value)
      → n + rounds ≡ max_vector_size + 1
      → n ≤ max_vector_size
      → Chase s d slowl l n
      → Ends (proper_loop heap is_typeset max_vector_size rounds l slowl n)
  loop-Ends zero s d n l slowl total small c = absurd (omega arith)
  loop-Ends (suc rounds) s d n l slowl total small c = elim (Bool-cases (is_null l)) [
    | inl e ↦
        let empty = value_eq_sound l null e in
        rw empty (returned n, proper_loop-null rounds slowl n, (small, rw empty at (c.4)))
    | inr nl ↦ elim (Bool-cases (n == max_vector_size)) [
      | inl e ↦
          let last : n ≡ max_vector_size = (==_iff _ _).0 e in
          rw (proper_loop-body rounds l slowl n nl, e)
            (raised loop, refl, inr (refl, inr (l, (rw last at (c.4), nl))))
      | inr e ↦ rw (proper_loop-body rounds l slowl n nl) (
          round rounds s d n l slowl (ground arith) c nl (λ s' d' l' slowl' c'.
            loop-Ends rounds s' d' (n + 1) l' slowl' (omega arith) (ground arith) c'))
    ]
  ]

  not_past : (m n : ℕ) (v : Value) → go m start ≡ some null → go n start ≡ some v → n ≤ m
  not_past m n v end at = elim (Bool-cases (leb n m)) [
    | inl e ↦ ground arith
    | inr e ↦ absurd (
        no_start heap is_typeset (n - m) v (ground arith)
          (sym (walk_on heap is_typeset m (n - m) n start null end (ground arith)) ∙ at))
  ]

  same_place : (n : ℕ) (v w : Value) → go n start ≡ some v → go n start ≡ some w → v ≡ w
  same_place n v w h k = cc

  -- What stands before the end is a pair with an accepted element.
  goes_on :
      (m n : ℕ) (v : Value)
      → go m start ≡ some null
      → go n start ≡ some v
      → is_null v ≡ false
      → (n < m) × (step heap is_typeset v ≢ none)
  goes_on m n v end at nn = elim (Bool-cases (n == m)) [
    | inl e ↦
        let same : n ≡ m = (==_iff _ _).0 e in
        let empty = same_place m v null (rw same at at) end in
        absurd (let bad = rw empty at nn in cc)
    | inr e ↦
        let le = not_past m n v end at in
        let whole : m - n ≡ suc (m - n - 1) = ground arith in
        let rest = sym (walk_on heap is_typeset n (m - n) m start v at (omega arith)) ∙ end in
        let (x, stepped, _) = first_step heap is_typeset (m - n - 1) v null (rw whole at rest) in
        (ground arith, λ none. cc)
  ]

  -- A proper list has no other verdict.
  Verdict-proper :
      (m : ℕ) (r : Result ℕ)
      → m ≤ max_vector_size
      → go m start ≡ some null
      → Verdict r
      → r ≡ returned m
  Verdict-proper m (returned n) le end v =
      let same : n ≡ m = omega (arith, not_past m n null end (v.1), not_past n m null (v.1) end) in
      ap returned same
  Verdict-proper m (raised e) le end (inl (_, (n, v, lt, at, stuck))) =
      absurd ((goes_on m n v end at.0 at.1).1 stuck)
  Verdict-proper m (raised e) le end (inr (_, inl (i, d, v, at, cycle))) = absurd (
      no_end heap is_typeset (m - i + 1) d (m - i) v (omega arith) cycle (
        sym (walk_on heap is_typeset i (m - i) m start v at (omega (arith, not_past m i v end at)))
        ∙ end))
  Verdict-proper m (raised e) le end (inr (_, inr (v, at))) =
      absurd (omega (arith, (goes_on m max_vector_size v end at.0 at.1).0))

  -- The check ends and follows no null pointer. It returns a length of at most `max_vector_size` if
  -- and only if following that many pairs with accepted elements leads to null. Else it raises
  -- `bad_type` at a value, no null, that is no pair with an accepted element, or `loop` at a list
  -- that comes back to a pair or goes on after `max_vector_size` pairs.
  pub check_proper_list-Verdict :
      (result : Result ℕ) × (check_proper_list heap is_typeset max_vector_size start ≡ some result)
      × Verdict result
      × ((n : ℕ)
          → (result ≡ returned n)
            ↔ ((n ≤ max_vector_size) × (walk heap is_typeset n start ≡ some null)))
  unfolding check_proper_list walk
  check_proper_list-Verdict =
      let (result, ran, verdict) =
        loop-Ends (max_vector_size + 1) 0 0 0 start start (omega arith) (omega arith)
          (refl, refl, refl, omega arith, refl) in
      (
        result,
        ran,
        verdict,
        λ n. (λ e. rw e at verdict, λ h. Verdict-proper n result h.0 h.1 verdict),
      )
