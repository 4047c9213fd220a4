-- ===== src/BlockGroup/Load.antt =====
-- `blkgrps_load`: the bitmaps of every group, read from the device. The source reads by `d->read`
-- and dies on a negative result, which is what `device_data_load` does.
pub mod Group
pub mod Loaded
use chisai_fs.Base.{ℕ, zero, suc, ◌+◌, ◌*◌, List, ◌++◌, u32, u64, length, get_elem?, set, drop}
use chisai_fs.Base.Outcome.{Cmd, pure, ◌>>=◌, defined}
use chisai_fs.Bitvec.{Bitvec, bitvec_init}
use chisai_fs.BlockGroup.{BlockGroup, Kind, blkgrp_update_next}
use chisai_fs.Config.{byte_bits, blkgrp_bytes}
use chisai_fs.Device.{Device, device_data_load}

-- The bytes that a read filled in, over the zeros of calloc.
abbrev pub filled : Bitvec → List ℕ → Bitvec
filled v bytes = record v { inner = bytes ++ drop (length bytes) v.inner }

module _ (d : Device) (blk_size : ℕ) where
  pub load_bitmap : ℕ → Cmd d.State Bitvec
  load_bitmap off = do
    bytes ← device_data_load d off blk_size
    pure (filled (bitvec_init blk_size) bytes)

  -- The body of the loop, at the group that starts at `off`.
  pub load_group : ℕ → BlockGroup → Cmd d.State BlockGroup
  unfolding load_bitmap
  load_group off g = do
    data_bits ← load_bitmap off
    inode_bits ← load_bitmap (u64 (off + blk_size))
    let g' = record g { data_bitmap = data_bits; inode_bitmap = inode_bits }
    g'' ← defined (blkgrp_update_next Kind.blocks g')
    defined (blkgrp_update_next Kind.inodes g'')

  -- The loop with the rounds left, at group `i`.
  pub load_loop : ℕ → ℕ → ℕ → List BlockGroup → Cmd d.State (List BlockGroup)
  load_loop blkgrp_size zero i blk_grps = pure blk_grps
  load_loop blkgrp_size (suc left) i blk_grps = do
    g ← defined (get_elem? blk_grps i)
    g' ← load_group (u64 (blk_size + u64 (blkgrp_size * i))) g
    load_loop blkgrp_size left (i + 1) (set blk_grps i g')

  -- `blk_grps` is what malloc returned: its elements hold anything.
  unfoldable pub blkgrps_load : List BlockGroup → ℕ → Cmd d.State (List BlockGroup)
  unfolding load_loop load_group load_bitmap
  blkgrps_load blk_grps groups = do
    head ← defined (get_elem? blk_grps 0)
    let head' = record head {
      groups = groups;
      blk_inode_num = u32 (blk_size * byte_bits);
      blkgrp_size = blkgrp_bytes blk_size;
    }
    load_loop (blkgrp_bytes blk_size) groups 0 (set blk_grps 0 head')
