-- ===== src/Table/Probe/Laws.antt =====
-- Where the probing loop of table.c ends.
use mudlle.Prelude.{
  ℕ, zero, suc, ◌+◌, ◌<◌, ◌≡◌, inl, inr, List, Bool, true, false, Option, none, some, arith, length,
  ℕ_discrete, Option-cases, Bool-cases,
}
use mudlle.Table.Probe.{Found, at, vacant, full, next, dist, cell, probe}

module _ {S : Type 0} (hit : S → Bool) (buckets : List (Option S)) (home : ℕ) where
  -- The cells up to `k` steps from `home` hold symbols that do not match.
  abbrev pub Passed : ℕ → Type 0
  Passed k =
      (j : ℕ)
      → j < length buckets
      → dist (length buckets) home j < k
      → (s : S) × (cell buckets j ≡ some s) × (hit s ≡ false)

  abbrev pub ProbeEnds : Found → Type 0
  ProbeEnds (at i) =
      (i < length buckets)
      × ((s : S) × (cell buckets i ≡ some s) × (hit s ≡ true))
      × Passed (dist (length buckets) home i)
  ProbeEnds (vacant i) =
      (i < length buckets) × (cell buckets i ≡ none) × Passed (dist (length buckets) home i)
  ProbeEnds full = Passed (length buckets)

  Passed-step :
      (k scan : ℕ) (s : S)
      → home < length buckets
      → scan < length buckets
      → dist (length buckets) home scan ≡ k
      → cell buckets scan ≡ some s
      → hit s ≡ false
      → Passed k
      → Passed (suc k)
  Passed-step k scan s hh hs d e miss p j hj lt = elim (ℕ_discrete j scan) [
    | yes same ↦ (s, rw same e, miss)
    | no ne ↦ p j hj (ground arith)
  ]

  probe_ends :
      (rounds k scan : ℕ)
      → home < length buckets
      → scan < length buckets
      → k + rounds ≡ length buckets
      → (k < length buckets → dist (length buckets) home scan ≡ k)
      → Passed k
      → ProbeEnds (probe hit buckets rounds scan)
  unfolding probe
  probe_ends zero k scan hh hs sum d p = λ j hj lt. p j hj (omega arith)
  probe_ends (suc rounds) k scan hh hs sum d p =
      let here = d (omega arith) in
      elim (Option-cases (cell buckets scan)) [
        | inl e ↦ rw (e, probe) (hs, e, rw here p)
        | inr (s, e) ↦ elim (Bool-cases (hit s)) [
          | inl h ↦ rw (e, probe, h) (hs, (s, e, h), rw here p)
          | inr m ↦
              rw (e, probe, m)
                (probe_ends rounds (suc k) (next (length buckets) scan) hh (ground arith)
                  (omega arith) (λ lt. ground (arith, here))
                  (Passed-step k scan s hh hs here e m p))
        ]
      ]

  -- The loop, started at `home`: a match is the first, an empty cell has no match before it, and
  -- the assertion fails only if no cell is empty.
  pub probe_lem : home < length buckets → ProbeEnds (probe hit buckets (length buckets) home)
  probe_lem hh =
      probe_ends (length buckets) 0 home hh hh (omega arith) (λ _. ground arith)
        (λ j hj lt. absurd (omega arith))
