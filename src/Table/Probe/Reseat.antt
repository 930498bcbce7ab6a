-- ===== src/Table/Probe/Reseat.antt =====
-- The loop of `table_remove_len` that puts the symbols after a removed one back in place.
use mudlle.Prelude.{
  ℕ, zero, suc, ◌+◌, ◌≤◌, ◌<◌, ◌≡◌, ◌≢◌, ◌↔◌, refl, inl, inr, List, Bool, false, Option, none, some,
  arith, length, set, ◌==◌, if◌then◌else◌, ℕ_discrete, length-set, Option-cases, dec_lt, ◌∙◌,
}
use mudlle.Table.Probe.{Found, at, vacant, full, next, dist, cell, first_free, reseat}
use mudlle.Table.Probe.Laws.{Passed, ProbeEnds, probe_lem}
use mudlle.Table.Probe.Placed.{cell-set, cell-lt, count, count-set, Holds, ReachedAt, IsUnique}

-- Steps on the cycle of cells.
dist-next : (n c e : ℕ) → c < n → e < n → c ≢ e → dist n (next n c) e + 1 ≡ dist n c e
dist-next n c e hc he ne = ground arith

pub dist-between :
    (n h c e : ℕ)
    → h < n
    → c < n
    → e < n
    → dist n h c ≤ dist n h e
    → dist n h c + dist n c e ≡ dist n h e
dist-between n h c e hh hc he le = ground arith

module _ {S : Type 0} (home : S → ℕ) (same : S → S → Bool) (n : ℕ)
    (home-lt : (s : S) → home s < n) where
  -- The first free cell from the hash of a symbol exists if some cell `e` is free, and it is not
  -- after `e`.
  pub record FirstFree (buckets : List (Option S)) (h e p : ℕ) : Type 0 where
    pub found : first_free buckets h ≡ vacant p
    pub in_range : p < n
    pub free : cell buckets p ≡ none
    pub before : (j : ℕ) → j < n → dist n h j < dist n h p → cell buckets j ≢ none
    pub not_after : dist n h p ≤ dist n h e

  filled :
      (buckets : List (Option S)) (h k : ℕ)
      → length buckets ≡ n
      → Passed (λ _. false) buckets h k
      → (j : ℕ) → j < n
      → dist n h j < k
      → cell buckets j ≢ none
  filled buckets h k len pre j hj d e = let (s, es, miss) = (rw len at pre) j hj d in cc

  pub first_free_lem :
      (buckets : List (Option S)) (h e : ℕ)
      → length buckets ≡ n
      → h < n
      → e < n
      → cell buckets e ≡ none
      → (p : ℕ) × FirstFree buckets h e p
  first_free_lem buckets h e len hh he free = go (first_free buckets h) refl ends
    where
      ends : ProbeEnds (λ _. false) buckets h (first_free buckets h)
      ends = unfold first_free in probe_lem (λ _. false) buckets h (rw len hh)

      go :
          (f : Found)
          → first_free buckets h ≡ f
          → ProbeEnds (λ _. false) buckets h f
          → (p : ℕ) × FirstFree buckets h e p
      go (at i) eq (lt, (s, es, y), pre) = absurd (cc)
      go (vacant p) eq (lt, ep, pre) = (
        p,
        record {
          found = eq;
          in_range = omega (arith, len);
          free = ep;
          before = rw len at (filled buckets h _ len pre);
          not_after = elim (dec_lt (dist n h e) (dist n h p)) [
            | yes d ↦ absurd ((rw len at (filled buckets h _ len pre)) e he d free)
            | no d ↦ omega arith
          ];
        },
      )
      go full eq pre = absurd (filled buckets h _ len pre e he (rw len (ground arith)) free)

  -- The state of the loop at the cell `c`: `e` is the next empty cell, the symbols past it are in
  -- place, and none has `e` between its hash and its cell.
  pub record Cluster (buckets : List (Option S)) (c e : ℕ) : Type 0 where
    pub len : length buckets ≡ n
    pub c_lt : c < n
    pub e_lt : e < n
    pub stop : cell buckets e ≡ none
    pub run : (j : ℕ) → j < n → dist n c j < dist n c e → cell buckets j ≢ none
    pub short : (i : ℕ) (s : S) → cell buckets i ≡ some s → dist n (home s) i < dist n (home s) e
    pub beyond :
        (i : ℕ) (s : S)
        → cell buckets i ≡ some s
        → dist n c e < dist n c i
        → (j : ℕ) → j < n
        → dist n (home s) j < dist n (home s) i
        → cell buckets j ≢ none

  -- What one round makes of the buckets.
  abbrev moved : List (Option S) → ℕ → ℕ → S → List (Option S)
  moved buckets c p s = set (set buckets c none) p (some s)

  cell-moved :
      (buckets : List (Option S)) (c p : ℕ) (s : S) (j : ℕ)
      → c < length buckets
      → p < length buckets
      → cell (moved buckets c p s) j
        ≡ (if p == j then some s else if c == j then none else cell buckets j)
  cell-moved buckets c p s j hc hp =
      rw (
        cell-set (set buckets c none) p j (some s) (rw length-set hp),
        cell-set buckets c j none hc,
      )

  module _ (buckets : List (Option S)) (c e : ℕ) (s : S) (k : Cluster buckets c e)
      (es : cell buckets c ≡ some s) where
    c-ne-e : c ≢ e
    c-ne-e eq = let stop = rw (← eq) at (k.stop) in cc

    module _ (p : ℕ) (f : FirstFree (set buckets c none) (home s) c p) where
      p-ne-e : p ≢ e
      p-ne-e = λ eq. ground (arith, k.short c s es, f.not_after)

      at_cell :
          (j : ℕ)
          → cell (moved buckets c p s) j
            ≡ (if p == j then some s else if c == j then none else cell buckets j)
      at_cell j = cell-moved buckets c p s j (rw k.len k.c_lt) (rw k.len f.in_range)

      moved_run :
          (j : ℕ)
          → j < n
          → dist n (next n c) j < dist n (next n c) e
          → cell (moved buckets c p s) j ≢ none
      moved_run j hj d = rw (at_cell j) (ground (arith, k.run j hj, c-ne-e, k.c_lt, k.e_lt))

      moved_short :
          (i : ℕ) (t : S)
          → cell (moved buckets c p s) i ≡ some t
          → dist n (home t) i < dist n (home t) e
      moved_short i t et = ground (arith, at_cell i, k.short i t, k.short c s es, f.not_after)

      moved_beyond :
          (i : ℕ) (t : S)
          → cell (moved buckets c p s) i ≡ some t
          → dist n (next n c) e < dist n (next n c) i
          → (j : ℕ) → j < n
          → dist n (home t) j < dist n (home t) i
          → cell (moved buckets c p s) j ≢ none
      moved_beyond i t et d j hj dj = elim (ℕ_discrete i p) [
        | yes here ↦ rw (at_cell j) (
            ground
              (arith, at_cell i, here, cell-set buckets c j none (rw k.len k.c_lt), f.before j hj))
        | no ne ↦
            let stays : cell buckets i ≡ some t = ground (arith, at_cell i) in
            let i-ne-c : i ≢ c = ground (arith, at_cell i) in
            let i_lt : i < n = rw k.len at (cell-lt buckets i stays) in
            let past : dist n c e < dist n c i = ground (arith, k.c_lt, k.e_lt, c-ne-e, d) in
            let old = k.beyond i t stays past j hj dj in
            let j-ne-c : j ≢ c = λ eq. omega (
              arith,
              dist-between n (home t) c i (home-lt t) k.c_lt i_lt (rw (← eq) (omega arith)),
              dist-between n (home t) c e (home-lt t) k.c_lt k.e_lt
                  (rw (← eq) (omega (arith, k.short i t stays))),
              k.short i t stays,
            ) in
            rw (at_cell j) (ground (arith, old, j-ne-c))
      ]

      moved-Cluster : Cluster (moved buckets c p s) (next n c) e
      moved-Cluster = record {
        len = length-set _ p _ ∙ length-set buckets c none ∙ k.len;
        c_lt = ground (arith, k.c_lt);
        e_lt = k.e_lt;
        stop = rw (at_cell e) (ground (arith, p-ne-e, c-ne-e, k.stop));
        run = moved_run;
        short = moved_short;
        beyond = moved_beyond;
      }

      moved-IsUnique : IsUnique same buckets → IsUnique same (moved buckets c p s)
      moved-IsUnique u i j t v et ev eq = ground (
        arith,
        at_cell i,
        at_cell j,
        es,
        cell-set buckets c p none (rw k.len k.c_lt),
        f.free,
        u c j s v es,
        u i c t s,
        u i j t v,
      )

      moved-count : count (moved buckets c p s) ≡ count buckets
      moved-count =
          let hc : c < length buckets = rw k.len k.c_lt in
          let hp : p < length (set buckets c none) = rw (length-set, k.len) f.in_range in
          let one = count-set buckets c none hc in
          let two = count-set (set buckets c none) p (some s) hp in
          let one' = rw es at one in let two' = rw f.free at two in omega arith

      moved-Holds : (t : S) → Holds buckets t ↔ Holds (moved buckets c p s) t
      moved-Holds t = (there, back)
        where
          there : Holds buckets t → Holds (moved buckets c p s) t
          there (i, et) = elim (ℕ_discrete i c) [
            | yes eq ↦ (p, rw (at_cell p) (ground (arith, es, eq)))
            | no ne ↦ (
              i,
              rw (at_cell i)
                  (ground (arith, ne, cell-set buckets c p none (rw k.len k.c_lt), f.free)),
            )
          ]

          back : Holds (moved buckets c p s) t → Holds buckets t
          back (i, et) = elim (ℕ_discrete i p) [
            | yes eq ↦ (c, ground (arith, at_cell i, es))
            | no ne ↦ (i, ground (arith, at_cell i))
          ]

  -- What the whole loop makes of the buckets: every symbol is in place, and none is lost or added.
  pub record Reseated (buckets result : List (Option S)) : Type 0 where
    pub len : length result ≡ n
    pub reached : (i : ℕ) (s : S) → cell result i ≡ some s → ReachedAt home same result s i
    pub unique : IsUnique same buckets → IsUnique same result
    pub counted : count result ≡ count buckets
    pub holds : (s : S) → Holds buckets s ↔ Holds result s

  -- At the end of the loop nothing is left to put back.
  cluster_done :
      (buckets : List (Option S)) (c e : ℕ)
      → Cluster buckets c e
      → cell buckets c ≡ none
      → Reseated buckets buckets
  cluster_done buckets c e k free = record {
    len = k.len;
    reached = λ i s es j. rw k.len (λ hj d. k.beyond i s es (away i s es) j hj d);
    unique = λ u. u;
    counted = refl;
    holds = λ s. (λ x. x, λ x. x);
  }
    where
      at_e : c ≡ e
      at_e = elim (ℕ_discrete c e) [
        | yes eq ↦ eq
        | no ne ↦ absurd (k.run c k.c_lt (ground (arith, k.c_lt, k.e_lt)) free)
      ]

      away : (i : ℕ) (s : S) → cell buckets i ≡ some s → dist n c e < dist n c i
      away i s es =
          let i-ne-c : i ≢ c = λ eq. (let bad = rw eq at es in cc) in
          let i_lt : i < n = rw k.len at (cell-lt buckets i es) in
          ground (arith, at_e, k.c_lt, k.e_lt)

  pub reseat_loop :
      (rounds : ℕ) (buckets : List (Option S)) (c e : ℕ)
      → dist n c e < rounds
      → Cluster buckets c e
      → (result : List (Option S)) × (reseat home rounds buckets c ≡ some result)
        × Reseated buckets result
  unfolding reseat
  reseat_loop zero buckets c e h k = absurd (omega arith)
  reseat_loop (suc rounds) buckets c e h k = elim (Option-cases (cell buckets c)) [
    | inl free ↦ (buckets, rw (free, reseat), cluster_done buckets c e k free)
    | inr (s, es) ↦
        let hc : c < length buckets = rw k.len k.c_lt in
        let (p, f) =
          first_free_lem (set buckets c none) (home s) c (length-set buckets c none ∙ k.len)
            (home-lt s) k.c_lt (ground (arith, cell-set buckets c c none hc)) in
        let (result, ran, r) =
          reseat_loop rounds (moved buckets c p s) (next n c) e
            (omega (arith, dist-next n c e k.c_lt k.e_lt (c-ne-e buckets c e s k es)))
            (moved-Cluster buckets c e s k es p f) in
        (
          result,
          rw (es, reseat) (rw (f.found, reseat) (rw k.len ran)),
          record {
            len = r.len;
            reached = r.reached;
            unique = λ u. r.unique (moved-IsUnique buckets c e s k es p f u);
            counted = r.counted ∙ moved-count buckets c e s k es p f;
            holds = λ t. (
              λ x. (r.holds t).0 ((moved-Holds buckets c e s k es p f t).0 x),
              λ x. (moved-Holds buckets c e s k es p f t).1 ((r.holds t).1 x),
            );
          },
        )
  ]
