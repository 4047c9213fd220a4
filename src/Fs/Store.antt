-- ===== src/Fs/Store.antt =====
-- Inodes and directories on the device: `fs_save_inode`, `fs_find_inode`, `fs_save_dir` and
-- `fs_find_dir` (src/chisai-core/fs.c).
use chisai_fs.Base.{ℕ, ◌≡◌, true, some, ltb}
use chisai_fs.Base.Outcome.{ok}
use chisai_fs.BlockGroup.{blkgrps_inode_exist, blkgrps_data_exist}
use chisai_fs.Device.{Device}
use chisai_fs.Dir.{Dir}
use chisai_fs.Dir.Store.{dir_save, dir_load}
use chisai_fs.Fs.{
  data_offset, fs_data_to_offset, fs_save_dir, fs_find_dir, Filesystem, inode_offset,
  fs_inode_to_offset, fs_save_inode, fs_find_inode,
}
use chisai_fs.Inode.{Inode, inode_save, inode_load}

module _ (d : Device) (idx : ℕ) (fs : Filesystem d)
    (divides : ltb 0 fs.sb.data_block_per_groups ≡ true) where
  -- Where the saving and the loading of an inode come down to the device.
  pub fs_save_inode_of :
      (inode : Inode) {s' : d.State}
      → inode_save d inode (inode_offset fs.sb fs.blkgrp_size idx) fs.device ≡ ok tt s'
      → fs_save_inode d inode idx fs ≡ ok tt (record fs { device = s' })
  unfolding fs_save_inode fs_inode_to_offset
  fs_save_inode_of inode saved = rw (divides, saved)

  pub fs_find_inode_of :
      {inode : Inode} {s' : d.State}
      → blkgrps_inode_exist fs.blk_grps idx ≡ some true
      → inode_load d (inode_offset fs.sb fs.blkgrp_size idx) fs.device ≡ ok inode s'
      → fs_find_inode d idx fs ≡ ok (some inode) (record fs { device = s' })
  unfolding fs_find_inode fs_inode_to_offset
  fs_find_inode_of exists loaded = rw (exists, divides, loaded)

  pub fs_save_dir_of :
      (dir : Dir) {s' : d.State}
      → dir_save d dir (data_offset fs.sb fs.blkgrp_size idx) fs.device ≡ ok tt s'
      → fs_save_dir d dir idx fs ≡ ok tt (record fs { device = s' })
  unfolding fs_save_dir fs_data_to_offset
  fs_save_dir_of dir saved = rw (divides, saved)

  pub fs_find_dir_of :
      {dir : Dir} {s' : d.State}
      → blkgrps_data_exist fs.blk_grps idx ≡ some true
      → dir_load d (data_offset fs.sb fs.blkgrp_size idx) fs.device ≡ ok dir s'
      → fs_find_dir d idx fs ≡ ok (some dir) (record fs { device = s' })
  unfolding fs_find_dir fs_data_to_offset
  fs_find_dir_of exists loaded = rw (exists, divides, loaded)
