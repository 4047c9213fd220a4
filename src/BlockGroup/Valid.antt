-- ===== src/BlockGroup/Valid.antt =====
-- What holds of the array of block groups between two operations, and its abstract view: which
-- inodes and data blocks are taken.
use chisai_fs.Base.{
  ℕ, ◌-◌, ◌*◌, ◌/◌, ◌%◌, ◌^◌, ◌≤◌, ◌<◌, ◌≡◌, ◌⊎◌, inl, inr, some, List, length, get_elem?, get_or,
}
use chisai_fs.Bitvec.{Bitvec}
use chisai_fs.Bitvec.Laws
use chisai_fs.Bitvec.Laws.{bit_at}
use chisai_fs.Bitvec.Search.{FirstClear}
use chisai_fs.BlockGroup.{BlockGroup, Kind, bitmap, next}

abbrev pub other : Kind → Kind
other Kind.inodes = Kind.blocks
other Kind.blocks = Kind.inodes

-- `r` is one plus the index of a clear bit, or 0 where all `n` bits are set.
abbrev pub NextFree : ℕ → (ℕ → ℕ) → ℕ → Type 0
NextFree n f r = ((r ≡ 0) × ((j : ℕ) → j < n → f j ≡ 1)) ⊎ ((1 ≤ r) × (r ≤ n) × (f (r - 1) ≡ 0))

pub NextFree-of_FirstClear : (n : ℕ) (f : ℕ → ℕ) (r : ℕ) → FirstClear n f r → NextFree n f r
NextFree-of_FirstClear n f r (inl full) = inl full
NextFree-of_FirstClear n f r (inr (p, q, c, below)) = inr (p, q, c)

-- The bitmap of one kind in a group of `n` indices.
pub record IsTable (n : ℕ) (k : Kind) (g : BlockGroup) : Type 0 where
  pub valid : Laws.IsValid (bitmap k g)
  pub sized : 8 * (bitmap k g).size ≡ n
  pub next_free : NextFree n (bit_at (bitmap k g)) (next k g)

-- `g'` is `g` but for the table of kind `k`, which is well-formed again.
pub record IsChange (n : ℕ) (k : Kind) (g g' : BlockGroup) : Type 0 where
  pub same_groups : g'.groups ≡ g.groups
  pub same_inode_num : g'.blk_inode_num ≡ g.blk_inode_num
  pub table : IsTable n k g'
  pub other_bitmap : bitmap (other k) g' ≡ bitmap (other k) g
  pub other_next : next (other k) g' ≡ next (other k) g

-- The groups of an array, and the numbers that its first element holds.
pub record IsValid (n : ℕ) (blk_grps : List BlockGroup) : Type 0 where
  pub head : BlockGroup
  pub at_head : get_elem? blk_grps 0 ≡ some head
  pub counted : head.groups ≡ length blk_grps
  pub numbered : head.blk_inode_num ≡ n
  pub positive : 0 < n
  pub fits : length blk_grps * n < 2 ^ 32
  pub tables : (i : ℕ) (g : BlockGroup) → get_elem? blk_grps i ≡ some g → (k : Kind) → IsTable n k g

abbrev pub blank_bitvec : Bitvec
blank_bitvec = record { size = 0; inner = List.[] }

abbrev pub blank : BlockGroup
blank = record {
  groups = 0;
  blk_inode_num = 0;
  blkgrp_size = 0;
  data_bitmap = blank_bitvec;
  inode_bitmap = blank_bitvec;
  next_data = 0;
  next_inode = 0;
}

-- Bit of the index `j + 1`: 1 where it is taken. Indices are numbered through the groups.
abbrev pub taken : Kind → ℕ → List BlockGroup → ℕ → ℕ
taken k n blk_grps j = bit_at (bitmap k (get_or blk_grps (j / n) blank)) (j % n)

pub IsTable-other :
    (n : ℕ) (k : Kind) (g g' : BlockGroup)
    → bitmap k g' ≡ bitmap k g
    → next k g' ≡ next k g
    → IsTable n k g
    → IsTable n k g'
IsTable-other n k g g' same_bitmap same_next t = record {
  valid = rw same_bitmap t.valid;
  sized = rw same_bitmap t.sized;
  next_free = rw (same_bitmap, same_next) t.next_free;
}

-- A changed group is well-formed in both kinds.
pub IsTable-IsChange :
    (n : ℕ) (k : Kind) (g g' : BlockGroup)
    → ((k' : Kind) → IsTable n k' g)
    → IsChange n k g g'
    → (k' : Kind) → IsTable n k' g'
IsTable-IsChange n Kind.inodes g g' t c Kind.inodes = c.table
IsTable-IsChange n Kind.inodes g g' t c Kind.blocks =
    IsTable-other n Kind.blocks g g' c.other_bitmap c.other_next (t Kind.blocks)
IsTable-IsChange n Kind.blocks g g' t c Kind.inodes =
    IsTable-other n Kind.inodes g g' c.other_bitmap c.other_next (t Kind.inodes)
IsTable-IsChange n Kind.blocks g g' t c Kind.blocks = c.table
