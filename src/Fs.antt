-- ===== src/Fs.antt =====
-- src/chisai-core/fs.c and include/chisai-core/fs.h: the file system. This file has its state, the
-- error codes, and the functions that reach the device and the bitmaps; the children have the rest.
pub mod Path
pub mod Create
pub mod Block
pub mod File
pub mod Init
pub mod Layout
pub mod Store
pub mod Truncate
pub mod Listing
pub mod Content
pub mod Tree
pub mod Halts
use chisai_fs.Base.{
  ℕ, ◌+◌, ◌-◌, ◌*◌, ◌/◌, ◌%◌, ◌^◌, Bool, true, false, Option, none, some, List, ◌==◌, ltb,
  if◌then◌else◌, u32, u64,
}
use chisai_fs.Base.Outcome.{Outcome, Cmd, pure, get, put, defined, require, on, ◌>>=◌, ◌>>◌}
use chisai_fs.BlockGroup.{
  BlockGroup, before, blkgrps_inode_exist, blkgrps_data_exist, blkgrps_inode_alloc,
  blkgrps_data_alloc, blkgrps_inode_release, blkgrps_data_release,
}
use chisai_fs.Config.{inode_size}
use chisai_fs.Device.{Device}
use chisai_fs.Dir.{Dir}
use chisai_fs.Dir.Store.{dir_save, dir_load}
use chisai_fs.Inode.{Inode, inode_save, inode_load}
use chisai_fs.Superblock.{Superblock}

-- enum chisai_error
pub data Code : Type 0 where
  err_ok enoent enomem eexist einval efbig enametoolong corrupt : Code

-- struct chisai_dir_info, struct chisai_file_info
pub record DirInfo : Type 0 where
  pub dir : Dir
  pub pos : ℕ

pub record FileInfo : Type 0 where
  pub inode : Inode
  pub idx : ℕ

-- S_IFDIR, and S_IRWXU | S_IRWXG | S_IRWXO
abbrev pub s_ifdir : ℕ
s_ifdir = 0o40000

abbrev pub s_rwx : ℕ
s_rwx = 0o777

-- Offsets on the device, with the wrap-around of the source: `unsigned int` products, a `size_t` sum.
unfoldable pub inode_offset : Superblock → ℕ → ℕ → ℕ
inode_offset sb blkgrp_size inode_idx =
    let grp_idx = before inode_idx / sb.data_block_per_groups in
    let bitvec_idx = before inode_idx % sb.data_block_per_groups in
    u64 (
      sb.block_size
      + grp_idx * blkgrp_size
      + u32 (2 * sb.block_size)
      + u32 (inode_size * bitvec_idx))

unfoldable pub data_offset : Superblock → ℕ → ℕ → ℕ
data_offset sb blkgrp_size data_idx =
    let grp_idx = before data_idx / sb.data_block_per_groups in
    let bitvec_idx = before data_idx % sb.data_block_per_groups in
    u64 (
      sb.block_size
      + grp_idx * blkgrp_size
      + u32 (2 * sb.block_size)
      + u32 (inode_size * sb.data_block_per_groups)
      + u32 (sb.block_size * bitvec_idx))

-- `device` is what the open device holds; `blkgrp_size` is the static BLKGRP_SIZE.
pub record Filesystem (d : Device) : Type 0 where
  pub sb : Superblock
  pub blk_grps : List BlockGroup
  pub device : d.State
  pub blkgrp_size : ℕ

module _ (d : Device) where
  abbrev pub Fs : Type 0 → Type 0
  Fs A = Cmd (Filesystem d) A

  abbrev pub on_device : {A : Type 0} → Cmd d.State A → Fs A
  on_device = on (λ (fs : Filesystem d). fs.device) (λ fs s. record fs { device = s })

  -- Both divide by `data_block_per_groups`.
  unfoldable pub fs_inode_to_offset : ℕ → Fs ℕ
  fs_inode_to_offset inode_idx = do
    fs ← get
    require (ltb 0 fs.sb.data_block_per_groups)
    pure (inode_offset fs.sb fs.blkgrp_size inode_idx)

  unfoldable pub fs_data_to_offset : ℕ → Fs ℕ
  fs_data_to_offset data_idx = do
    fs ← get
    require (ltb 0 fs.sb.data_block_per_groups)
    pure (data_offset fs.sb fs.blkgrp_size data_idx)

  -- NO_INODE is 0. The counter goes down in `unsigned int`.
  unfoldable pub fs_inode_alloc : Fs ℕ
  fs_inode_alloc = do
    fs ← get
    (inode_idx, blk_grps) ← defined (blkgrps_inode_alloc fs.blk_grps)
    if inode_idx == 0 then (put (record fs { blk_grps = blk_grps }) >> pure 0) else (do
      put (record fs {
        blk_grps = blk_grps;
        sb = record (fs.sb) { free_inodes = before fs.sb.free_inodes };
      })
      pure inode_idx)

  unfoldable pub fs_data_alloc : Fs ℕ
  fs_data_alloc = do
    fs ← get
    (data_idx, blk_grps) ← defined (blkgrps_data_alloc fs.blk_grps)
    if data_idx == 0 then (put (record fs { blk_grps = blk_grps }) >> pure 0) else (do
      put (record fs {
        blk_grps = blk_grps;
        sb = record (fs.sb) { free_blocks = before fs.sb.free_blocks };
      })
      pure data_idx)

  unfoldable pub fs_inode_release : ℕ → Fs (Unit {0})
  fs_inode_release inode_idx = do
    fs ← get
    blk_grps ← defined (blkgrps_inode_release fs.blk_grps inode_idx)
    put (record fs {
      blk_grps = blk_grps;
      sb = record (fs.sb) { free_inodes = u32 (fs.sb.free_inodes + 1) };
    })

  unfoldable pub fs_data_release : ℕ → Fs (Unit {0})
  fs_data_release data_idx = do
    fs ← get
    blk_grps ← defined (blkgrps_data_release fs.blk_grps data_idx)
    put (record fs {
      blk_grps = blk_grps;
      sb = record (fs.sb) { free_blocks = u32 (fs.sb.free_blocks + 1) };
    })

  unfoldable pub fs_save_inode : Inode → ℕ → Fs (Unit {0})
  fs_save_inode inode inode_idx = do
    offset ← fs_inode_to_offset inode_idx
    on_device (inode_save d inode offset)

  unfoldable pub fs_save_dir : Dir → ℕ → Fs (Unit {0})
  fs_save_dir dir data_idx = do
    offset ← fs_data_to_offset data_idx
    on_device (dir_save d dir offset)

  -- `none` where the source returns false.
  unfoldable pub fs_find_inode : ℕ → Fs (Option Inode)
  fs_find_inode inode_idx = do
    fs ← get
    exists ← defined (blkgrps_inode_exist fs.blk_grps inode_idx)
    if exists
        then (do
          offset ← fs_inode_to_offset inode_idx
          inode ← on_device (inode_load d offset)
          pure (some inode))
        else pure none

  unfoldable pub fs_find_dir : ℕ → Fs (Option Dir)
  fs_find_dir data_idx = do
    fs ← get
    exists ← defined (blkgrps_data_exist fs.blk_grps data_idx)
    if exists
        then (do
          offset ← fs_data_to_offset data_idx
          dir ← on_device (dir_load d offset)
          pure (some dir))
        else pure none
