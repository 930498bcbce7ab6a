-- ===== src/Calloc/Sound.antt =====
-- calloc.c: what is allocated does not overlap, for any sequence of calls.
use mudlle.Prelude.{
  ℕ, ◌+◌, ◌-◌, ◌%◌, ◌≤◌, ◌<◌, ◌≡◌, ◌⊎◌, inl, inr, false, some, none, List, [], ◌∷◌, arith, ltb,
  ◌==◌, Each, Bool-cases,
}
use mudlle.Calloc.{Memblock, make_block, new_block, align, allocate}

-- The bytes from `start` on.
pub record Piece : Type 0 where
  pub start : ℕ
  pub size : ℕ

abbrev pub Apart : Piece → Piece → Type 0
Apart a b = (a.start + a.size ≤ b.start) ⊎ (b.start + b.size ≤ a.start)

abbrev pub whole : Memblock → Piece
whole blk = record { start = blk.data_start; size = blk.end_of_block - blk.data_start }

-- The piece is in the block, before the position of the block.
abbrev pub IsUsed : Memblock → Piece → Type 0
IsUsed blk p =
    (blk.data_start ≤ p.start)
    × (p.start + p.size ≤ blk.pos)
    × (p.start + p.size ≤ blk.end_of_block)

abbrev pub InSome : List Memblock → Piece → Type 0
InSome [] p = ⊥
InSome (blk ∷ blks) p = IsUsed blk p ⊎ InSome blks p

-- The blocks do not overlap, and positions are multiples of 8.
abbrev pub AreBlocks : List Memblock → Type 0
AreBlocks [] = Unit
AreBlocks (blk ∷ blks) =
    (blk.data_start ≤ blk.end_of_block)
    × (blk.data_start ≤ blk.pos)
    × (blk.pos % 8 ≡ 0)
    × Each blks (λ other. Apart (whole blk) (whole other))
    × AreBlocks blks

Each-map :
    {A : Type 0} {P Q : A → Type 0} (xs : List A) → ((x : A) → P x → Q x) → Each xs P → Each xs Q
Each-map [] f h = tt
Each-map (x ∷ xs) f h = (f x h.0, Each-map xs f h.1)

abbrev pub PairwiseApart : List Piece → Type 0
PairwiseApart [] = Unit
PairwiseApart (p ∷ ps) = Each ps (λ q. Apart p q) × PairwiseApart ps

-- The pieces that were handed out are in blocks, do not overlap, and start at multiples of 8.
pub record IsSound (blks : List Memblock) (pieces : List Piece) : Type 0 where
  pub blocks : AreBlocks blks
  pub inside : Each pieces (λ p. InSome blks p)
  pub aligned : Each pieces (λ p. p.start % 8 ≡ 0)
  pub apart : PairwiseApart pieces

-- What is apart from the blocks is apart from what is in them.
outside_blocks :
    (q p : Piece) (blks : List Memblock)
    → Each blks (λ blk. Apart q (whole blk))
    → InSome blks p
    → Apart q p
outside_blocks q p [] away inside = absurd inside
outside_blocks q p (blk ∷ blks) away (inl used) = ground (arith, away.0)
outside_blocks q p (blk ∷ blks) away (inr rest) = outside_blocks q p blks away.1 rest

part_of :
    (q p big : Piece)
    → Apart big p
    → big.start ≤ q.start
    → q.start + q.size ≤ big.start + big.size
    → Apart q p
part_of q p big away low high = ground arith

-- What `malloc` promises of the data of a new block.
abbrev pub IsFresh : ℕ → ℕ → List Memblock → Type 0
IsFresh fresh size blks =
    (fresh % 8 ≡ 0) × Each blks (λ blk. Apart (whole (make_block fresh size)) (whole blk))

abbrev pub piece : ℕ → ℕ → Piece
piece start size = record { start = start; size = size }

module _ (fresh size : ℕ) (blk : Memblock) (previous : List Memblock) (pieces : List Piece)
    (sound : IsSound (blk ∷ previous) pieces) (positive : 0 < size)
    (new : IsFresh fresh (align size) (blk ∷ previous)) where
  abbrev moved : Memblock
  moved = record blk { pos = blk.pos + align size }

  still_inside : (p : Piece) → InSome (blk ∷ previous) p → InSome (moved ∷ previous) p
  still_inside p (inl used) = inl (used.0, omega arith, used.2)
  still_inside p (inr rest) = inr rest

  not_used :
      ltb blk.end_of_block (blk.pos + align size) ≡ false
      → (p : Piece) → InSome (blk ∷ previous) p
      → Apart (piece blk.pos size) p
  not_used room p (inl used) = inr used.1
  not_used room p (inr rest) =
      part_of (piece blk.pos size) p (whole blk)
        (outside_blocks (whole blk) p previous sound.blocks.3 rest) sound.blocks.1 (ground arith)

  -- There is room in the first block.
  allocate_here :
      ltb blk.end_of_block (blk.pos + align size) ≡ false
      → IsSound (moved ∷ previous) (piece blk.pos size ∷ pieces)
  allocate_here room = record {
    blocks = (
      sound.blocks.0,
      omega (arith, sound.blocks.1),
      omega (arith, sound.blocks.2),
      sound.blocks.3,
      sound.blocks.4,
    );
    inside = (
      inl (sound.blocks.1, omega arith, ground arith),
      Each-map pieces still_inside sound.inside,
    );
    aligned = (sound.blocks.2, sound.aligned);
    apart = (Each-map pieces (not_used room) sound.inside, sound.apart);
  }

  -- The first block is full.
  allocate_fresh :
      IsSound
        ((record (make_block fresh (align size)) { pos = fresh + align size }) ∷ moved ∷ previous)
        (piece fresh size ∷ pieces)
  unfolding make_block
  allocate_fresh = record {
    blocks = (
      ground arith,
      omega arith,
      omega (arith, new.0),
      new.1,
      (
        sound.blocks.0,
        omega (arith, sound.blocks.1),
        omega (arith, sound.blocks.2),
        sound.blocks.3,
        sound.blocks.4,
      ),
    );
    inside = (
      inl (omega arith, omega arith, ground arith),
      Each-map pieces (λ p h. inr (still_inside p h)) sound.inside,
    );
    aligned = (new.0, sound.aligned);
    apart = (
      Each-map pieces
          (λ p h.
            part_of (piece fresh size) p (whole (make_block fresh (align size)))
              (outside_blocks (whole (make_block fresh (align size))) p (blk ∷ previous) new.1 h)
              (omega arith) (ground arith))
          sound.inside,
      sound.apart,
    );
  }

pub new_block-IsSound : (fresh : ℕ) → fresh % 8 ≡ 0 → IsSound (new_block fresh) []
unfolding new_block make_block
new_block-IsSound fresh even = record {
  blocks = (ground arith, omega arith, even, tt, tt);
  inside = tt;
  aligned = tt;
  apart = tt;
}

-- From blocks that are sound with what was handed out of them, and where `malloc` gives a new block
-- at a multiple of 8 that overlaps none of the others: allocating a size above 0 gives an address
-- that is a multiple of 8, whose bytes are in one block and overlap nothing that was handed out,
-- and the state is sound again. Allocating 0 bytes gives NULL and changes nothing.
pub allocate-IsSound :
    (fresh size : ℕ) (blk : Memblock) (previous : List Memblock) (pieces : List Piece)
    → IsSound (blk ∷ previous) pieces
    → IsFresh fresh (align size) (blk ∷ previous)
    → (allocate fresh (blk ∷ previous) 0 ≡ (none, blk ∷ previous))
      × (0 < size
          → (p : ℕ) × ((allocate fresh (blk ∷ previous) size).0 ≡ some p)
            × IsSound (allocate fresh (blk ∷ previous) size).1 (piece p size ∷ pieces))
unfolding allocate make_block
allocate-IsSound fresh size blk previous pieces sound new = (
  ground arith,
  λ positive.
      let some_bytes : (size == 0) ≡ false = ground arith in
      elim (Bool-cases (ltb blk.end_of_block (blk.pos + align size))) [
        | inr room ↦ (
          blk.pos,
          rw (some_bytes, room),
          rw (some_bytes, room)
              (allocate_here fresh size blk previous pieces sound positive new room),
        )
        | inl full ↦ (
          fresh,
          rw (some_bytes, full),
          rw (some_bytes, full) (allocate_fresh fresh size blk previous pieces sound positive new),
        )
      ],
)
