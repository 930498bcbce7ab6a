-- ===== src/Table/Probe.antt =====
-- table.c: the probing loops over the buckets, for any type of symbols. A cell is empty or holds a
-- symbol, and the loops go round the vector from the cell that the hash names.
pub mod Laws
pub mod Placed
pub mod Reseat
pub mod Vacate
use mudlle.Prelude.{
  ℕ, zero, suc, ◌+◌, ◌-◌, List, Bool, false, Option, none, some, ◌==◌, leb, if◌then◌else◌, length,
  get_or, set,
}

-- What the loop of `table_find` ends with: the cell of a match, the empty cell that it leaves in
-- `add_position`, or the failed assertion that the table is never full.
pub data Found : Type 0 where
  at : ℕ → Found
  vacant : ℕ → Found
  full : Found

-- `++scan; if (scan == size) scan = 0`
abbrev pub next : ℕ → ℕ → ℕ
next size scan = if scan + 1 == size then 0 else scan + 1

-- The steps from the cell `home` on to the cell `i`.
abbrev pub dist : ℕ → ℕ → ℕ → ℕ
dist size home i = if leb home i then i - home else size - home + i

module _ {S : Type 0} where
  abbrev pub cell : List (Option S) → ℕ → Option S
  cell buckets i = get_or buckets i none

  -- The loop of `table_find`. The assertion fails when `scan` is back at its start, so after as
  -- many rounds as there are cells.
  unfoldable pub probe : (S → Bool) → List (Option S) → ℕ → ℕ → Found
  probe hit buckets zero scan = full
  probe hit buckets (suc rounds) scan =
      let rest = probe hit buckets rounds (next (length buckets) scan) in
      elim (cell buckets scan) [ none ↦ vacant scan | some s ↦ if hit s then at scan else rest ]

  -- `while (*newbuck)` of `table_remove_len`, which looks at no symbol.
  unfoldable pub first_free : List (Option S) → ℕ → Found
  unfolding probe
  first_free buckets newpos = probe (λ _. false) buckets (length buckets) newpos

  -- The loop of `table_remove_len` from the cell after the removed one: each symbol up to the next
  -- empty cell is taken out and put back at the first free cell from its hash. `none` means that a
  -- loop did not end.
  unfoldable pub reseat : (S → ℕ) → ℕ → List (Option S) → ℕ → Option (List (Option S))
  reseat home zero buckets scan = none
  reseat home (suc rounds) buckets scan = elim (cell buckets scan) [
    | none ↦ some buckets
    | some s ↦
        let cleared = set buckets scan none in
        elim (first_free cleared (home s)) [
          | vacant newpos ↦
              reseat home rounds (set cleared newpos (some s)) (next (length buckets) scan)
          | _ ↦ none
        ]
  ]
