-- ===== src/Table/Probe/Vacate.antt =====
-- Emptying a cell and running the loop of `table_remove_len` puts an open table in order again.
use mudlle.Prelude.{
  ℕ, ◌+◌, ◌<◌, ◌≡◌, ◌≢◌, List, Bool, Option, none, some, arith, length, set, ◌==◌, length-set, ◌∙◌,
  if◌then◌else◌, dec_lt,
}
use mudlle.Table.Probe.{next, dist, cell, reseat}
use mudlle.Table.Probe.Placed.{cell-set, cell-lt, count, empty_cell, IsPlaced}
use mudlle.Table.Probe.Reseat.{
  FirstFree, first_free_lem, dist-between, Cluster, Reseated, reseat_loop,
}

module _ {S : Type 0} (home : S → ℕ) (same : S → S → Bool) (n : ℕ) (home-lt : (s : S) → home s < n)
    (buckets : List (Option S)) (r : ℕ) (gone : S) (len : length buckets ≡ n)
    (er : cell buckets r ≡ some gone) (w : IsPlaced home same buckets)
    (room : count buckets < n) where
  r_lt : r < n
  r_lt = rw len at (cell-lt buckets r er)

  after : (j : ℕ) → cell (set buckets r none) j ≡ (if r == j then none else cell buckets j)
  after j = cell-set buckets r j none (rw len r_lt)

  -- The next empty cell is not the vacated one, since the table had another.
  e-ne-r : (e : ℕ) → FirstFree home same n home-lt (set buckets r none) (next n r) r e → e ≢ r
  e-ne-r e f eq =
      let (e0, lt, free) = empty_cell buckets (rw len room) in
      let e0_lt : e0 < n = rw len at lt in
      let ne : e0 ≢ r = λ q. (let bad = rw q at free in cc) in
      f.before e0 e0_lt (ground (arith, r_lt)) (ground (arith, after e0))

  start :
      (e : ℕ)
      → FirstFree home same n home-lt (set buckets r none) (next n r) r e
      → Cluster home same n home-lt (set buckets r none) (next n r) e
  start e f = record {
    len = length-set buckets r none ∙ len;
    c_lt = next_lt;
    e_lt = f.in_range;
    stop = f.free;
    run = f.before;
    short = short;
    beyond = λ i s es d j hj dj.
        rw (after j) (ground (arith, on_path i s (stays i s es) j hj dj, off i s es d j dj));
  }
    where
      next_lt : next n r < n
      next_lt = ground (arith, r_lt)

      stays : (i : ℕ) (s : S) → cell (set buckets r none) i ≡ some s → cell buckets i ≡ some s
      stays i s es = ground (arith, after i)

      on_path :
          (i : ℕ) (s : S)
          → cell buckets i ≡ some s
          → (j : ℕ) → j < n
          → dist n (home s) j < dist n (home s) i
          → cell buckets j ≢ none
      on_path i s es = rw len at (w.reached i s es)

      short :
          (i : ℕ) (s : S)
          → cell (set buckets r none) i ≡ some s
          → dist n (home s) i < dist n (home s) e
      short i s es = elim (dec_lt (dist n (home s) i) (dist n (home s) e)) [
        | yes d ↦ d
        | no d ↦
            let old = stays i s es in
            let e-ne-i : e ≢ i = λ q. (let bad = rw q at (f.free) in cc) in
            let i_lt : i < n = rw len at (cell-lt buckets i old) in
            absurd (
              on_path i s old e f.in_range (ground (arith, home-lt s, f.in_range))
                (ground (arith, after e, f.free, e-ne-r e f)))
      ]

      off :
          (i : ℕ) (s : S)
          → cell (set buckets r none) i ≡ some s
          → dist n (next n r) e < dist n (next n r) i
          → (j : ℕ) → dist n (home s) j < dist n (home s) i
          → r ≢ j
      off i s es d j dj eq =
          let i_lt : i < n = rw len at (cell-lt buckets i (stays i s es)) in
          let dr : dist n (home s) r < dist n (home s) i = rw eq dj in
          let step : dist n (home s) (next n r) ≡ dist n (home s) r + 1 =
            ground (arith, r_lt, home-lt s, i_lt) in
          omega (
            arith,
            short i s es,
            step,
            dist-between n (home s) (next n r) i (home-lt s) next_lt i_lt (omega (arith, step)),
            dist-between n (home s) (next n r) e (home-lt s) next_lt f.in_range
                (omega (arith, step, short i s es)),
          )

  -- The loop ends, and leaves every other symbol in place.
  pub vacate_lem :
      (result : List (Option S)) × (reseat home n (set buckets r none) (next n r) ≡ some result)
      × Reseated home same n home-lt (set buckets r none) result
  vacate_lem =
      let c_lt : next n r < n = ground (arith, r_lt) in
      let (e, f) =
        first_free_lem home same n home-lt (set buckets r none) (next n r) r
          (length-set buckets r none ∙ len) c_lt r_lt (ground (arith, after r)) in
      reseat_loop home same n home-lt n (set buckets r none) (next n r) e
        (ground (arith, c_lt, f.in_range)) (start e f)
