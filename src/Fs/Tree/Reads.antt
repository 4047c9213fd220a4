-- ===== src/Fs/Tree/Reads.antt =====
-- `fs_find_inode` and `fs_find_dir` find what stands on the device, and change no byte of it.
use mathlib.Core.Path.{subst}
use chisai_fs.Base.{ℕ, ◌+◌, ◌*◌, ◌≤◌, ◌≡◌, sym, ap, ◌∙◌, true, not, some, arith, ltb, ◌==◌}
use chisai_fs.Base.Outcome.{ok}
use chisai_fs.BlockGroup.{Kind, blkgrps_exist}
use chisai_fs.BlockGroup.Release.{blkgrps_exist-taken}
use chisai_fs.Device.{Device}
use chisai_fs.Device.Laws.{DeviceLaws}
use chisai_fs.Dir.{Dir}
use chisai_fs.Dir.Bytes.{dir_load-encode}
use chisai_fs.Dir.Store.{dir_bytes}
use chisai_fs.Fs.{Filesystem, inode_offset, data_offset, fs_find_inode, fs_find_dir}
use chisai_fs.Fs.Layout.{IsIndex, inode_offset-data_offset-Disjoint}
use chisai_fs.Fs.Store.{fs_find_inode_of, fs_find_dir_of}
use chisai_fs.Fs.Tree.{Image, image, IsMounted, marked, HasInode, HasDir}
use chisai_fs.Inode.{Inode, inode_bytes}
use chisai_fs.Inode.Laws.{inode_load-encode}

-- A taken index exists.
pub exist-marked :
    (size : ℕ) (m : Image) (k : Kind) (idx : ℕ)
    → IsMounted size m
    → IsIndex m.sb idx
    → marked m k idx ≡ 1
    → blkgrps_exist k m.blk_grps idx ≡ some true
exist-marked size m k idx v h used =
    blkgrps_exist-taken m.sb.data_block_per_groups k m.blk_grps idx v.groups h.0
      (subst (λ g. idx ≤ g * m.sb.data_block_per_groups) (sym v.all_groups) h.1)
    ∙ ap (λ t. some (not (t == 0))) used

module _ {d : Device} {size : ℕ} {byte : d.State → ℕ → ℕ} (laws : DeviceLaws d size byte)
    (fs : Filesystem d) (v : IsMounted size (image byte fs)) where
  pub divides : ltb 0 fs.sb.data_block_per_groups ≡ true
  divides = ground (arith, v.laid_out.some_blocks)

  -- The places of an index lie on the device.
  pub inode_room :
      (idx : ℕ) → IsIndex fs.sb idx → inode_offset fs.sb fs.blkgrp_size idx + inode_bytes ≤ size
  unfolding inode_offset
  inode_room idx h =
      let (apart, low, low', high, high') =
        inode_offset-data_offset-Disjoint (image byte fs).sb fs.blkgrp_size v.laid_out idx idx h
          h in
      omega (arith, high, v.room)

  pub data_room :
      (idx : ℕ) → IsIndex fs.sb idx → data_offset fs.sb fs.blkgrp_size idx + dir_bytes ≤ size
  unfolding data_offset
  data_room idx h =
      let (apart, low, low', high, high') =
        inode_offset-data_offset-Disjoint (image byte fs).sb fs.blkgrp_size v.laid_out idx idx h
          h in
      omega (arith, high', v.room, v.wide)

  -- An inode that stands on the device is found.
  pub fs_find_inode-HasInode :
      (idx : ℕ) (inode : Inode)
      → HasInode (image byte fs) idx inode
      → (s' : d.State) × (fs_find_inode d idx fs ≡ ok (some inode) (record fs { device = s' }))
        × (byte s' ≡ byte fs.device)
  unfolding inode_offset
  fs_find_inode-HasInode idx inode h =
      let (s', loaded, same) =
        inode_load-encode laws inode (inode_offset fs.sb fs.blkgrp_size idx) fs.device h.valid
          (inode_room idx h.index) h.stored in
      (
        s',
        fs_find_inode_of d idx fs divides
            (exist-marked size (image byte fs) Kind.inodes idx v h.index h.used) loaded,
        same,
      )

  -- A directory that stands on the device is found.
  pub fs_find_dir-HasDir :
      (idx : ℕ) (dir : Dir)
      → HasDir (image byte fs) idx dir
      → (s' : d.State) × (fs_find_dir d idx fs ≡ ok (some dir) (record fs { device = s' }))
        × (byte s' ≡ byte fs.device)
  unfolding data_offset
  fs_find_dir-HasDir idx dir h =
      let (s', loaded, same) =
        dir_load-encode laws dir (data_offset fs.sb fs.blkgrp_size idx) fs.device h.valid.storable
          (data_room idx h.index) h.stored in
      (
        s',
        fs_find_dir_of d idx fs divides
            (exist-marked size (image byte fs) Kind.blocks idx v h.index h.used) loaded,
        same,
      )
