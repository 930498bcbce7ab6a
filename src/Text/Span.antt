-- ===== src/Text/Span.antt =====
-- runtime/mudlle-string.c: the spans of characters.
use mudlle.Prelude.{
  ℕ, zero, suc, ◌+◌, ◌-◌, ◌≤◌, ◌<◌, ◌≡◌, refl, sym, ap, ◌∙◌, inl, inr, List, [], ◌∷◌, Bool, true,
  false, ◌||◌, not, none, some, ◌==◌, ltb, if◌then◌else◌, length, get_or, take, drop, min,
  length-take, length-drop, Bool-cases, arith,
}
use mudlle.Prelude.Int.{ℤ, pos, negsuc, ◌+ℤ◌}
use mudlle.Error.{returned}
use mudlle.Table.{Str}
use mudlle.Bitset.{string, integer}
use mudlle.Text.{
  ct_string_index, memchr, same_loop, memchr_loop, string_span, string_cspan, string_xspan,
  code_string_span, code_string_cspan,
}

abbrev pub elem : ℕ → List ℕ → Bool
elem c [] = false
elem c (x ∷ set) = (x == c) || elem c set

-- An offset, which may be the end, from the start or from the end.
abbrev pub Offset : ℤ → ℕ → ℕ → Type 0
Offset (pos n) len ofs = (ofs ≡ n) × (ofs ≤ len)
Offset (negsuc k) len ofs = ofs + k + 1 ≡ len

-- n bytes from an offset are in the set or, if not wanted, outside it; the next one is not so,
-- unless the string or the number asked for ends there.
abbrev pub Spans : Bool → List ℕ → List ℕ → ℕ → ℕ → ℕ → Type 0
Spans wanted s set ofs most n =
    (n ≤ most)
    × (ofs + n ≤ length s)
    × ((i : ℕ) → i < n → elem (get_or s (ofs + i) 0) set ≡ wanted)
    × (n < most → ofs + n < length s → elem (get_or s (ofs + n) 0) set ≡ not wanted)

-- The bytes at the front that are wanted.
abbrev run : Bool → List ℕ → List ℕ → ℕ
run wanted set [] = 0
run wanted set (x ∷ s) =
    let rest = run wanted set s in
    if (if wanted then elem x set else not (elem x set)) then suc rest else 0

memchr-elem :
    (set : List ℕ) (c : ℕ)
    → (elim (memchr set c) as (λ o. Bool) [ none ↦ false | some i ↦ true ]) ≡ elem c set
unfolding memchr
memchr-elem [] c = refl
memchr-elem (x ∷ set) c = ground (arith, memchr-elem set c)

memchr_loop-run : (wanted : Bool) (set s : List ℕ) → memchr_loop wanted set s ≡ run wanted set s
unfolding memchr_loop
memchr_loop-run wanted set [] = refl
memchr_loop-run wanted set (x ∷ s) = ground (arith, memchr-elem set x, memchr_loop-run wanted set s)

same_loop-run : (wanted : Bool) (c : ℕ) (s : List ℕ) → same_loop wanted c s ≡ run wanted (c ∷ []) s
unfolding same_loop
same_loop-run wanted c [] = refl
same_loop-run wanted c (x ∷ s) = ground (arith, same_loop-run wanted c s)

abbrev Runs : Bool → List ℕ → List ℕ → ℕ → Type 0
Runs wanted set s n =
    (n ≤ length s)
    × ((i : ℕ) → i < n → elem (get_or s i 0) set ≡ wanted)
    × (n < length s → elem (get_or s n 0) set ≡ not wanted)

longer_run :
    (wanted : Bool) (set s : List ℕ) (x n : ℕ)
    → elem x set ≡ wanted
    → Runs wanted set s n
    → Runs wanted set (x ∷ s) (suc n)
longer_run wanted set s x n h (short, all, stop) = (omega arith, every, λ k. stop (omega arith))
  where
    every : (i : ℕ) → i < suc n → elem (get_or (x ∷ s) i 0) set ≡ wanted
    every zero k = h
    every (suc i) k = all i (omega arith)

run-Runs : (wanted : Bool) (set s : List ℕ) → Runs wanted set s (run wanted set s)
run-Runs wanted set [] = (omega arith, λ i h. absurd (omega arith), λ h. absurd (omega arith))
run-Runs wanted set (x ∷ s) = elim (Bool-cases (if wanted then elem x set else not (elem x set))) [
  | inl e ↦
      rw e (longer_run wanted set s x (run wanted set s) (ground arith) (run-Runs wanted set s))
  | inr e ↦ rw e (omega arith, λ i h. absurd (omega arith), λ h. ground arith)
]

more_than_one : (n : ℕ) → (suc (suc n) == 1) ≡ false
more_than_one n = ground arith

more_than_none : (n : ℕ) → (suc n == 0) ≡ false
more_than_none n = ground arith

string_span-run : (s accept : List ℕ) → string_span s accept ≡ run true accept s
unfolding string_span
string_span-run s [] = memchr_loop-run true [] s
string_span-run s (c ∷ []) = same_loop-run true c s
string_span-run s (c ∷ d ∷ accept) =
    rw (more_than_one (length accept)) (memchr_loop-run true (c ∷ d ∷ accept) s)

string_cspan-run :
    (s reject : List ℕ) → 0 < length reject → string_cspan s reject ≡ run false reject s
unfolding string_cspan
string_cspan-run s [] h = absurd (omega arith)
string_cspan-run s (c ∷ []) h = same_loop-run false c s
string_cspan-run s (c ∷ d ∷ reject) h =
    rw (more_than_none (suc (length reject)), more_than_one (length reject))
      (memchr_loop-run false (c ∷ d ∷ reject) s)

cspan_empty : (s reject : List ℕ) → length reject ≡ 0 → string_cspan s reject ≡ 0
unfolding string_cspan
cspan_empty s [] h = refl
cspan_empty s (c ∷ reject) h = absurd (omega arith)

get_or-take : (s : List ℕ) (size i : ℕ) → i < size → get_or (take size s) i 0 ≡ get_or s i 0
get_or-take s zero i h = absurd (omega arith)
get_or-take [] (suc size) i h = refl
get_or-take (x ∷ s) (suc size) zero h = refl
get_or-take (x ∷ s) (suc size) (suc i) h = get_or-take s size i (omega arith)

pub get_or-drop : (s : List ℕ) (ofs i : ℕ) → get_or (drop ofs s) i 0 ≡ get_or s (ofs + i) 0
get_or-drop s zero i = ap (λ k. get_or s k 0) (omega arith)
get_or-drop [] (suc ofs) i = refl
get_or-drop (x ∷ s) (suc ofs) i =
    let onward : suc (ofs + i) ≡ suc ofs + i = omega arith in
    get_or-drop s ofs i ∙ ap (λ k. get_or (x ∷ s) k 0) onward

abbrev stop_at : ℕ → ℕ → ℕ → ℕ
stop_at slen ofs most = if ltb slen (most + ofs) then slen else most + ofs

window_size : (slen ofs most : ℕ) → ofs ≤ slen → stop_at slen ofs most - ofs ≡ min most (slen - ofs)
window_size slen ofs most h = ground arith

window-Spans :
    (wanted : Bool) (s set : List ℕ) (ofs most n : ℕ)
    → ofs ≤ length s
    → Runs wanted set (take (stop_at (length s) ofs most - ofs) (drop ofs s)) n
    → Spans wanted s set ofs most n
window-Spans wanted s set ofs most n h (short, all, stop) =
    let size = stop_at (length s) ofs most - ofs in
    let window = take size (drop ofs s) in
    let size_is : size ≡ min most (length s - ofs) = window_size (length s) ofs most h in
    let len : length window ≡ min size (length (drop ofs s)) = length-take size (drop ofs s) in
    let left : length (drop ofs s) ≡ length s - ofs = length-drop ofs s in
    let same : (i : ℕ) → i < size → get_or window i 0 ≡ get_or s (ofs + i) 0 =
      λ i small. get_or-take (drop ofs s) size i small ∙ get_or-drop s ofs i in
    (
      omega arith,
      omega arith,
      λ i small. ap (λ c. elem c set) (sym (same i (omega arith))) ∙ all i small,
      λ more rest. ap (λ c. elem c set) (sym (same n (omega arith))) ∙ stop (omega arith),
    )

pub ct_string_index-Offset :
    (n : ℤ) (s : Str) (ofs : ℕ)
    → Offset n (length s.bytes) ofs
    → ct_string_index n s true ≡ returned ofs
unfolding ct_string_index ◌+ℤ◌
ct_string_index-Offset (pos n) s ofs h = ground arith
ct_string_index-Offset (negsuc k) s ofs h = ground arith

pub start_small : (n : ℤ) (len ofs : ℕ) → Offset n len ofs → ofs ≤ len
start_small (pos n) len ofs h = h.1
start_small (negsuc k) len ofs h = omega arith

-- From an offset, given from the start or from the end, string_span counts the bytes that are in
-- the set, at most as many as asked for and up to the end of the string, and string_cspan those
-- that are not in it; but for the empty set, string_cspan returns 0.
pub string_xspan-Spans :
    (s filter : Str) (n : ℤ) (ofs most : ℕ)
    → Offset n (length s.bytes) ofs
    → ((k : ℕ) × (code_string_span (string s) (integer n) (integer (pos most)) (string filter)
          ≡ returned k)
        × Spans true s.bytes filter.bytes ofs most k)
      × ((k : ℕ) × (code_string_cspan (string s) (integer n) (integer (pos most)) (string filter)
            ≡ returned k)
          × (0 < length filter.bytes → Spans false s.bytes filter.bytes ofs most k)
          × (length filter.bytes ≡ 0 → k ≡ 0))
unfolding code_string_span code_string_cspan string_xspan
string_xspan-Spans s filter n ofs most h =
    let window = take (stop_at (length s.bytes) ofs most - ofs) (drop ofs s.bytes) in
    let here = ct_string_index-Offset n s ofs h in
    let small = start_small n (length s.bytes) ofs h in
    (
      (
        string_span window filter.bytes,
        rw here refl,
        window-Spans true s.bytes filter.bytes ofs most (string_span window filter.bytes) small
            (rw (string_span-run window filter.bytes) (run-Runs true filter.bytes window)),
      ),
      (
        string_cspan window filter.bytes,
        rw here refl,
        λ some_byte.
            window-Spans false s.bytes filter.bytes ofs most (string_cspan window filter.bytes)
              small
              (rw (string_cspan-run window filter.bytes some_byte)
                (run-Runs false filter.bytes window)),
        λ empty. cspan_empty window filter.bytes empty,
      ),
    )
