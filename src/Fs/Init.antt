-- ===== src/Fs/Init.antt =====
-- `fs_init` and `fs_create_root`: a mount reads the superblock and the bitmaps, and makes the root
-- directory on a device that has none.
use chisai_fs.Base.{ℕ, ◌+◌, List, ◌==◌, if◌then◌else◌}
use chisai_fs.Base.Macros.{assert_eq, assert_le}
use chisai_fs.Base.Outcome.{died, pure, get, put, defined, ◌>>=◌, ◌>>◌}
use chisai_fs.BlockGroup.{BlockGroup, blkgrps_inode_exist}
use chisai_fs.BlockGroup.Load.{blkgrps_load}
use chisai_fs.Config.{inode_size, blkgrp_bytes}
use chisai_fs.Device.{Device}
use chisai_fs.Dir.{dir_init}
use chisai_fs.Fs.{
  Fs, on_device, s_ifdir, s_rwx, fs_inode_alloc, fs_data_alloc, fs_save_inode, fs_save_dir,
}
use chisai_fs.Inode.{
  Inode, inode_init, inode_set_mode, inode_set_nlink, inode_add_block, badblk_inode, root_inode,
  inode_bytes,
}
use chisai_fs.Superblock.{superblock_load, magic_number}

-- sizeof(dir_t)
abbrev dir_bytes : ℕ
dir_bytes = 488

unfoldable pub root_inode_of : ℕ → Inode
root_inode_of data_idx =
    inode_add_block (inode_set_nlink (inode_set_mode inode_init (s_ifdir + s_rwx)) 2) data_idx

module _ (d : Device) where
  unfoldable pub fs_create_root : Fs d (Unit {0})
  fs_create_root = do
    data_idx ← fs_data_alloc d
    assert_eq data_idx 1
    fs_save_dir d dir_init data_idx
    badblk_idx ← fs_inode_alloc d
    assert_eq badblk_idx badblk_inode
    inode_idx ← fs_inode_alloc d
    assert_eq inode_idx root_inode
    fs_save_inode d (root_inode_of data_idx) inode_idx

  -- The superblock and the bitmaps. `blk_grps` is what malloc returns for a number of groups.
  unfoldable pub load_metadata : (ℕ → List BlockGroup) → Fs d (Unit {0})
  load_metadata malloc_groups = do
    sb ← on_device d (superblock_load d)
    fs ← get
    assert_eq fs.blkgrp_size 0
    blk_grps ← on_device d (blkgrps_load d sb.block_size (malloc_groups sb.groups) sb.groups)
    fs ← get
    put (record fs { sb = sb; blk_grps = blk_grps; blkgrp_size = blkgrp_bytes sb.block_size })

  unfoldable pub fs_init : (ℕ → List BlockGroup) → Fs d (Unit {0})
  fs_init malloc_groups = do
    load_metadata malloc_groups
    fs ← get
    if fs.sb.magic == magic_number
        then (do
          exists ← defined (blkgrps_inode_exist fs.blk_grps root_inode)
          if exists then pure tt else fs_create_root
          assert_le inode_bytes inode_size
          assert_le dir_bytes fs.sb.block_size)
        else (λ _. died)
