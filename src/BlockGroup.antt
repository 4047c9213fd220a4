-- ===== src/BlockGroup.antt =====
-- src/chisai-core/block_group.c and include/chisai-core/block_group.h: the allocation bitmaps.
-- The source has each operation twice, for inodes and for data blocks, in the same words; here it
-- is one definition over `Kind`, and the two functions of the source are its instances. The array
-- `blk_grps` is a list; only its first element holds `groups` and `blk_inode_num`, as in the source.
pub mod Valid
pub mod Update
pub mod Take
pub mod Alloc
pub mod Load
pub mod Release
pub mod Stale
use chisai_fs.Base.{
  ℕ, zero, suc, ◌+◌, ◌-◌, ◌*◌, ◌/◌, ◌%◌, ◌^◌, Bool, false, not, Option, none, some, List, ◌>>=◌,
  ◌==◌, if◌then◌else◌, u32, get_elem?, set,
}
use chisai_fs.Bitvec.{
  Bitvec, bitvec_get, bitvec_set, bitvec_reset, bitvec_count_zeros, bitvec_find_first_set,
}

pub record BlockGroup : Type 0 where
  pub groups : ℕ
  pub blk_inode_num : ℕ
  pub blkgrp_size : ℕ
  pub data_bitmap : Bitvec
  pub inode_bitmap : Bitvec
  pub next_data : ℕ
  pub next_inode : ℕ

pub data Kind : Type 0 where
  inodes blocks : Kind

abbrev pub bitmap : Kind → BlockGroup → Bitvec
bitmap Kind.inodes g = g.inode_bitmap
bitmap Kind.blocks g = g.data_bitmap

abbrev pub next : Kind → BlockGroup → ℕ
next Kind.inodes g = g.next_inode
next Kind.blocks g = g.next_data

abbrev pub with_bitmap : Kind → Bitvec → BlockGroup → BlockGroup
with_bitmap Kind.inodes v g = record g { inode_bitmap = v }
with_bitmap Kind.blocks v g = record g { data_bitmap = v }

abbrev pub with_next : Kind → ℕ → BlockGroup → BlockGroup
with_next Kind.inodes r g = record g { next_inode = r }
with_next Kind.blocks r g = record g { next_data = r }

-- blkgrp_update_next_inode, blkgrp_update_next_data
unfoldable pub blkgrp_update_next : Kind → BlockGroup → Option BlockGroup
blkgrp_update_next k g = do r ← bitvec_find_first_set (bitmap k g); some (with_next k (u32 r) g)

-- idx - 1, in chisai_size_t
abbrev pub before : ℕ → ℕ
before idx = u32 (idx + 2 ^ 32 - 1)

-- blkgrp_inode_alloc, blkgrp_data_alloc
unfoldable pub blkgrp_alloc : Kind → BlockGroup → Option (ℕ × BlockGroup)
blkgrp_alloc k g = do
  v ← bitvec_set (bitmap k g) (before (next k g))
  g' ← blkgrp_update_next k (with_bitmap k v g)
  some (next k g, g')

-- blkgrp_free_inode_num, blkgrp_free_data_num
unfoldable pub blkgrp_free_num : Kind → BlockGroup → Option ℕ
blkgrp_free_num k g = do sum ← bitvec_count_zeros (bitmap k g); some (u32 sum)

-- x / y and x % y, which C leaves undefined for 0
abbrev pub divide : ℕ → ℕ → Option ℕ
divide x y = if y == 0 then none else some (x / y)

abbrev pub modulo : ℕ → ℕ → Option ℕ
modulo x y = if y == 0 then none else some (x % y)

-- blkgrps_inode_exist, blkgrps_data_exist
unfoldable pub blkgrps_exist : Kind → List BlockGroup → ℕ → Option Bool
blkgrps_exist k blk_grps idx = if idx == 0 then some false else do
  head ← get_elem? blk_grps 0
  grp_idx ← divide (idx - 1) head.blk_inode_num
  bitvec_idx ← modulo (idx - 1) head.blk_inode_num
  g ← get_elem? blk_grps grp_idx
  b ← bitvec_get (bitmap k g) bitvec_idx
  some (not (b == 0))

-- The loop with the rounds left, at group `i`.
pub blkgrps_alloc_loop : Kind → ℕ → ℕ → List BlockGroup → Option (ℕ × List BlockGroup)
blkgrps_alloc_loop k zero i blk_grps = some (0, blk_grps)
blkgrps_alloc_loop k (suc left) i blk_grps =
    let continue = blkgrps_alloc_loop k left (i + 1) blk_grps in
    do
      g ← get_elem? blk_grps i
      free ← blkgrp_free_num k g
      if free == 0 then continue else do
        (idx, g') ← blkgrp_alloc k g
        head ← get_elem? (set blk_grps i g') 0
        some (u32 (i * head.blk_inode_num + idx), set blk_grps i g')

-- blkgrps_inode_alloc, blkgrps_data_alloc: 0 where every bit is taken
unfoldable pub blkgrps_alloc : Kind → List BlockGroup → Option (ℕ × List BlockGroup)
unfolding blkgrps_alloc_loop
blkgrps_alloc k blk_grps = do
  head ← get_elem? blk_grps 0
  blkgrps_alloc_loop k head.groups 0 blk_grps

-- blkgrps_inode_release, blkgrps_data_release
unfoldable pub blkgrps_release : Kind → List BlockGroup → ℕ → Option (List BlockGroup)
blkgrps_release k blk_grps idx = if idx == 0 then some blk_grps else do
  head ← get_elem? blk_grps 0
  grp_idx ← divide (idx - 1) head.blk_inode_num
  bitvec_idx ← modulo (idx - 1) head.blk_inode_num
  g ← get_elem? blk_grps grp_idx
  v ← bitvec_reset (bitmap k g) bitvec_idx
  some (set blk_grps grp_idx (with_bitmap k v g))

abbrev pub blkgrps_inode_exist : List BlockGroup → ℕ → Option Bool
blkgrps_inode_exist = blkgrps_exist Kind.inodes

abbrev pub blkgrps_data_exist : List BlockGroup → ℕ → Option Bool
blkgrps_data_exist = blkgrps_exist Kind.blocks

abbrev pub blkgrps_inode_alloc : List BlockGroup → Option (ℕ × List BlockGroup)
blkgrps_inode_alloc = blkgrps_alloc Kind.inodes

abbrev pub blkgrps_data_alloc : List BlockGroup → Option (ℕ × List BlockGroup)
blkgrps_data_alloc = blkgrps_alloc Kind.blocks

abbrev pub blkgrps_inode_release : List BlockGroup → ℕ → Option (List BlockGroup)
blkgrps_inode_release = blkgrps_release Kind.inodes

abbrev pub blkgrps_data_release : List BlockGroup → ℕ → Option (List BlockGroup)
blkgrps_data_release = blkgrps_release Kind.blocks
