-- ===== src/Calloc.antt =====
-- calloc.c: memory for the compiler that is freed in one go. A block of memory has the addresses of
-- its data; the blocks are a list, the one that is allocated from first. `malloc` and running out
-- of memory are not modelled: a call is given the address `fresh` of the data of the block that it
-- makes, if it makes one. Addresses do not wrap. The calls to valgrind are left out.
pub mod Sound
use mudlle.Prelude.{
  ℕ, zero, suc, ◌+◌, ◌-◌, ◌*◌, ◌/◌, ◌<◌, Bool, true, false, Option, some, none, List, [], ◌∷◌, ◌++◌,
  ltb, ◌==◌, if◌then◌else◌, length,
}

pub record Memblock : Type 0 where
  pub data_start : ℕ
  pub pos : ℕ
  pub end_of_block : ℕ

-- 16384 less the three pointers of the header.
abbrev pub dflt_block_size : ℕ
dflt_block_size = 16384 - 24

unfoldable pub make_block : ℕ → ℕ → Memblock
make_block fresh size =
    let size' = if ltb size dflt_block_size then dflt_block_size else size in
    record { data_start = fresh; pos = fresh; end_of_block = fresh + size' }

unfoldable pub new_block : ℕ → List Memblock
new_block fresh = make_block fresh dflt_block_size ∷ []

-- `MUDLLE_ALIGN(size, sizeof (long))`
abbrev pub align : ℕ → ℕ
align size = (size + 7) / 8 * 8

-- The result, where `none` is NULL, and the blocks after the call.
unfoldable pub allocate : ℕ → List Memblock → ℕ → Option ℕ × List Memblock
allocate fresh [] size = (none, [])
allocate fresh (blk ∷ previous) size =
    let asize = align size in
    let moved = record blk { pos = blk.pos + asize } in
    let newp = make_block fresh asize in
    if size == 0
    then (none, blk ∷ previous)
    else if ltb moved.end_of_block moved.pos
    then (some newp.pos, (record newp { pos = newp.pos + asize }) ∷ moved ∷ previous)
    else (some blk.pos, moved ∷ previous)

-- The blocks that are freed, in order.
unfoldable pub free_block : List Memblock → List ℕ
free_block [] = []
free_block (blk ∷ previous) = blk.data_start ∷ free_block previous
