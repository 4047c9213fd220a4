-- ===== src/Fs/Tree/Stored.antt =====
-- `fs_save_inode` and `fs_save_dir`, and what is found behind them.
use mathlib.Core.Path.{subst, sym}
use chisai_fs.Base.{ℕ, ◌≡◌, ◌≢◌, some}
use chisai_fs.Base.Outcome.{ok}
use chisai_fs.BlockGroup.{Kind}
use chisai_fs.Device.{Device}
use chisai_fs.Device.Laws.{DeviceLaws}
use chisai_fs.Dir.{Dir}
use chisai_fs.Dir.Entries
use chisai_fs.Fs.{Filesystem, fs_save_inode, fs_find_inode, fs_save_dir, fs_find_dir}
use chisai_fs.Fs.Layout.{IsIndex}
use chisai_fs.Fs.Tree.{Image, image, IsMounted, marked, HasInode, HasDir}
use chisai_fs.Fs.Tree.DirWrites.{with_dir-HasDir, with_dir-inodes, with_dir-dirs}
use chisai_fs.Fs.Tree.Reads.{fs_find_inode-HasInode, fs_find_dir-HasDir}
use chisai_fs.Fs.Tree.Saves.{with_bytes-IsMounted, fs_save_inode-with_inode, fs_save_dir-with_dir}
use chisai_fs.Fs.Tree.Writes.{
  with_inode, with_dir, with_inode-HasInode, with_inode-inodes, with_inode-dirs,
}
use chisai_fs.Inode.{Inode}
use chisai_fs.Inode.Laws

-- `fs_find_inode` finds the inode, and `fs_find_dir` the directory.
abbrev pub FindsInode : (d : Device) → Filesystem d → ℕ → Inode → Type 0
FindsInode d fs idx inode = (fs' : Filesystem d) × (fs_find_inode d idx fs ≡ ok (some inode) fs')

abbrev pub FindsDir : (d : Device) → Filesystem d → ℕ → Dir → Type 0
FindsDir d fs block dir = (fs' : Filesystem d) × (fs_find_dir d block fs ≡ ok (some dir) fs')

module _ {d : Device} {size : ℕ} {byte : d.State → ℕ → ℕ} (laws : DeviceLaws d size byte) where
  -- What stands in an image is found on a device that has it.
  found_inode :
      (fs : Filesystem d) (m : Image) (idx : ℕ) (inode : Inode)
      → image byte fs ≡ m
      → IsMounted size m
      → HasInode m idx inode
      → FindsInode d fs idx inode
  found_inode fs m idx inode e v h =
      let (s', found, _) =
        fs_find_inode-HasInode laws fs (subst (IsMounted size) (sym e) v) idx inode
          (subst (λ x. HasInode x idx inode) (sym e) h) in
      (record fs { device = s' }, found)

  found_dir :
      (fs : Filesystem d) (m : Image) (block : ℕ) (dir : Dir)
      → image byte fs ≡ m
      → IsMounted size m
      → HasDir m block dir
      → FindsDir d fs block dir
  found_dir fs m block dir e v h =
      let (s', found, _) =
        fs_find_dir-HasDir laws fs (subst (IsMounted size) (sym e) v) block dir
          (subst (λ x. HasDir x block dir) (sym e) h) in
      (record fs { device = s' }, found)

  -- On a mounted device, an inode whose fields are in range is saved at a taken index. Then
  -- `fs_save_inode` returns and changes only the device, `fs_find_inode` of the index finds that inode, and every inode at another
  -- index and every directory that the device had is found as it was.
  pub fs_find_inode-fs_save_inode :
      (fs : Filesystem d) (idx : ℕ) (inode : Inode)
      → IsMounted size (image byte fs)
      → IsIndex fs.sb idx
      → marked (image byte fs) Kind.inodes idx ≡ 1
      → Laws.IsValid inode
      → (s' : d.State) × (fs_save_inode d inode idx fs ≡ ok tt (record fs { device = s' }))
        × FindsInode d (record fs { device = s' }) idx inode
        × ((j : ℕ) (other : Inode)
            → j ≢ idx
            → HasInode (image byte fs) j other
            → FindsInode d (record fs { device = s' }) j other)
        × ((block : ℕ) (dir : Dir)
            → HasDir (image byte fs) block dir
            → FindsDir d (record fs { device = s' }) block dir)
  fs_find_inode-fs_save_inode fs idx inode v i used valid =
      let m = image byte fs in
      let m' = with_inode m idx inode in
      let (s', saved, e) = fs_save_inode-with_inode laws fs v idx inode i valid in
      let fs' = record fs { device = s' } in
      let v' = with_bytes-IsMounted size m m'.bytes v in
      (
        s',
        saved,
        found_inode fs' m' idx inode e v' (with_inode-HasInode size m v idx inode i used valid),
        λ j other ne h.
            found_inode fs' m' j other e v'
              (with_inode-inodes size m v idx inode i valid j other ne h),
        λ block dir h.
            found_dir fs' m' block dir e v'
              (with_inode-dirs size m v idx inode i valid block dir h),
      )

  -- On a mounted device, a well-formed directory is saved in a taken block. Then `fs_save_dir` returns
  -- and changes only the device, `fs_find_dir` of the block finds that directory, and every directory in another block and every
  -- inode that the device had is found as it was.
  pub fs_find_dir-fs_save_dir :
      (fs : Filesystem d) (block : ℕ) (dir : Dir)
      → IsMounted size (image byte fs)
      → IsIndex fs.sb block
      → marked (image byte fs) Kind.blocks block ≡ 1
      → Entries.IsValid dir
      → (s' : d.State) × (fs_save_dir d dir block fs ≡ ok tt (record fs { device = s' }))
        × FindsDir d (record fs { device = s' }) block dir
        × ((j : ℕ) (other : Dir)
            → j ≢ block
            → HasDir (image byte fs) j other
            → FindsDir d (record fs { device = s' }) j other)
        × ((idx : ℕ) (inode : Inode)
            → HasInode (image byte fs) idx inode
            → FindsInode d (record fs { device = s' }) idx inode)
  fs_find_dir-fs_save_dir fs block dir v i used valid =
      let m = image byte fs in
      let m' = with_dir m block dir in
      let (s', saved, e) = fs_save_dir-with_dir laws fs v block dir i valid.storable in
      let fs' = record fs { device = s' } in
      let v' = with_bytes-IsMounted size m m'.bytes v in
      (
        s',
        saved,
        found_dir fs' m' block dir e v' (with_dir-HasDir size m v block dir i used valid),
        λ j other ne h.
            found_dir fs' m' j other e v' (with_dir-dirs size m v block dir i valid j other ne h),
        λ idx inode h.
            found_inode fs' m' idx inode e v'
              (with_dir-inodes size m v block dir i valid idx inode h),
      )
