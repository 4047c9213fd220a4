-- ===== src/Fs/Tree/Saves.antt =====
-- `fs_save_dir` and `fs_save_inode` on the image.
use chisai_fs.Base.{ℕ, ◌≡◌, ap}
use chisai_fs.Base.Outcome.{ok}
use chisai_fs.Device.{Device}
use chisai_fs.Device.Laws.{DeviceLaws}
use chisai_fs.Dir.{Dir}
use chisai_fs.Dir.Bytes.{IsStorable, dir_save-patch}
use chisai_fs.Fs.{Filesystem, inode_offset, data_offset, fs_save_dir, fs_save_inode}
use chisai_fs.Fs.Layout.{IsIndex}
use chisai_fs.Fs.Store.{fs_save_dir_of, fs_save_inode_of}
use chisai_fs.Fs.Tree.{Image, image, IsMounted}
use chisai_fs.Fs.Tree.Reads.{divides, inode_room, data_room}
use chisai_fs.Fs.Tree.Writes.{with_inode, with_dir}
use chisai_fs.Inode.{Inode}
use chisai_fs.Inode.Laws
use chisai_fs.Inode.Laws.{inode_save-patch}

-- Being mounted does not depend on the bytes.
pub with_bytes-IsMounted :
    (size : ℕ) (m : Image) (bytes : ℕ → ℕ)
    → IsMounted size m
    → IsMounted size (record m { bytes = bytes })
with_bytes-IsMounted size m bytes v = record {
  laid_out = v.laid_out;
  groups = v.groups;
  all_groups = v.all_groups;
  room = v.room;
  wide = v.wide;
}

module _ {d : Device} {size : ℕ} {byte : d.State → ℕ → ℕ} (laws : DeviceLaws d size byte)
    (fs : Filesystem d) (v : IsMounted size (image byte fs)) where
  pub fs_save_dir-with_dir :
      (block : ℕ) (dir : Dir)
      → IsIndex fs.sb block
      → IsStorable dir
      → (s' : d.State) × (fs_save_dir d dir block fs ≡ ok tt (record fs { device = s' }))
        × (image byte (record fs { device = s' }) ≡ with_dir (image byte fs) block dir)
  unfolding data_offset
  fs_save_dir-with_dir block dir i storable =
      let (s', saved, holds) =
        dir_save-patch laws dir (data_offset fs.sb fs.blkgrp_size block) fs.device storable
          (data_room laws fs v block i) in
      (
        s',
        fs_save_dir_of d block fs (divides laws fs v) dir saved,
        ap (λ f. record (image byte fs) { bytes = f }) holds,
      )

  pub fs_save_inode-with_inode :
      (idx : ℕ) (inode : Inode)
      → IsIndex fs.sb idx
      → Laws.IsValid inode
      → (s' : d.State) × (fs_save_inode d inode idx fs ≡ ok tt (record fs { device = s' }))
        × (image byte (record fs { device = s' }) ≡ with_inode (image byte fs) idx inode)
  unfolding inode_offset
  fs_save_inode-with_inode idx inode i valid =
      let (s', saved, holds) =
        inode_save-patch laws inode (inode_offset fs.sb fs.blkgrp_size idx) fs.device valid
          (inode_room laws fs v idx i) in
      (
        s',
        fs_save_inode_of d idx fs (divides laws fs v) inode saved,
        ap (λ f. record (image byte fs) { bytes = f }) holds,
      )
