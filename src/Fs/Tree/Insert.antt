-- ===== src/Fs/Tree/Insert.antt =====
-- The steps of `fs_mkdir` and `fs_create_file` on the image: an allocation, a name inserted into a
-- directory, and the saves.
use mathlib.Core.Path.{subst, sym}
use chisai_fs.Base.{
  ℕ, ◌-◌, ◌*◌, ◌<◌, ◌≡◌, inl, inr, ap, ◌∙◌, true, false, some, List, arith, ◌==◌, get_elem?,
}
use chisai_fs.Base.Outcome.{ok}
use chisai_fs.BlockGroup.{BlockGroup, Kind, before, blkgrps_alloc}
use chisai_fs.BlockGroup.Alloc.{IsAllocated, blkgrps_alloc-IsAllocated}
use chisai_fs.Device.{Device}
use chisai_fs.Device.Laws.{DeviceLaws}
use chisai_fs.Dir.{Dir, dir_insert}
use chisai_fs.Dir.Bytes.{IsStorable}
use chisai_fs.Dir.Entries
use chisai_fs.Dir.Entries.{entries, lookup, has}
use chisai_fs.Dir.Insert.{dir_insert-entries}
use chisai_fs.Fs.{Filesystem, Fs, fs_inode_alloc, fs_data_alloc, fs_save_dir, fs_save_inode}
use chisai_fs.Fs.Create.{insert_into}
use chisai_fs.Fs.Layout.{IsIndex}
use chisai_fs.Fs.Tree.{Image, image, IsMounted, marked, HasDir}
use chisai_fs.Fs.Tree.Grows.{IsLarger}
use chisai_fs.Fs.Tree.Parent.{IsFileName, lookup_new, lookup_old}
use chisai_fs.Fs.Tree.Saves.{fs_save_dir-with_dir, fs_save_inode-with_inode}
use chisai_fs.Fs.Tree.Writes.{with_groups, with_inode, with_dir}
use chisai_fs.Inode.{Inode}
use chisai_fs.Inode.Laws

abbrev fs_alloc : (d : Device) → Kind → Fs d ℕ
fs_alloc d Kind.inodes = fs_inode_alloc d
fs_alloc d Kind.blocks = fs_data_alloc d

-- With a free index left, `blkgrps_alloc` takes one that was free.
alloc_free :
    (size : ℕ) (m : Image) (k : Kind) (free : ℕ)
    → IsMounted size m
    → IsIndex m.sb free
    → marked m k free ≡ 0
    → (idx : ℕ) × (grps : List BlockGroup) × (blkgrps_alloc k m.blk_grps ≡ some (idx, grps))
      × IsAllocated m.sb.data_block_per_groups k m.blk_grps idx grps
alloc_free size m k free v i unused =
    let (idx, grps, returns, result) =
      blkgrps_alloc-IsAllocated m.sb.data_block_per_groups k m.blk_grps v.groups in
    (
      idx,
      grps,
      returns,
      elim result [
        | inl a ↦ a
        | inr (zero_idx, same, full) ↦
            let used = full (free - 1) (omega arith) (
              subst (λ g. free - 1 < g * m.sb.data_block_per_groups) (sym v.all_groups)
                (omega (arith, i.0, i.1))) in
            absurd (omega (arith, used, unused))
      ],
    )

module _ (d : Device) (fs : Filesystem d) where
  inode_alloc_of :
      {idx : ℕ} {grps : List BlockGroup}
      → blkgrps_alloc Kind.inodes fs.blk_grps ≡ some (idx, grps)
      → (idx == 0) ≡ false
      → fs_inode_alloc d fs
        ≡ ok idx (record fs {
          blk_grps = grps;
          sb = record (fs.sb) { free_inodes = before fs.sb.free_inodes };
        })
  unfolding fs_inode_alloc
  inode_alloc_of returns positive = rw (returns, positive)

  pub data_alloc_of :
      {idx : ℕ} {grps : List BlockGroup}
      → blkgrps_alloc Kind.blocks fs.blk_grps ≡ some (idx, grps)
      → (idx == 0) ≡ false
      → fs_data_alloc d fs
        ≡ ok idx (record fs {
          blk_grps = grps;
          sb = record (fs.sb) { free_blocks = before fs.sb.free_blocks };
        })
  unfolding fs_data_alloc
  data_alloc_of returns positive = rw (returns, positive)

  insert_into_of :
      (inode : Inode) (dir dir' : Dir) (name : List ℕ) (idx block : ℕ) {fs' : Filesystem d}
      → dir_insert dir name idx ≡ some (true, dir')
      → get_elem? inode.direct_blks 0 ≡ some block
      → fs_save_dir d dir' block fs ≡ ok tt fs'
      → insert_into d inode dir name idx fs ≡ ok tt fs'
  unfolding insert_into
  insert_into_of inode dir dir' name idx block inserted at saved = rw (inserted, at, saved)

module _ {d : Device} {size : ℕ} {byte : d.State → ℕ → ℕ} (laws : DeviceLaws d size byte)
    (fs : Filesystem d) {m : Image} (e : image byte fs ≡ m) (v : IsMounted size m) where
  pub alloc_on :
      (k : Kind) {idx : ℕ} {grps : List BlockGroup}
      → blkgrps_alloc k m.blk_grps ≡ some (idx, grps)
      → (idx == 0) ≡ false
      → (fs' : Filesystem d) × (fs_alloc d k fs ≡ ok idx fs')
        × (image byte fs' ≡ with_groups m grps)
  alloc_on Kind.inodes {idx} {grps} returns positive = (
    record fs { blk_grps = grps; sb = record (fs.sb) { free_inodes = before fs.sb.free_inodes } },
    inode_alloc_of d fs (ap (λ x. blkgrps_alloc Kind.inodes x.blk_grps) e ∙ returns) positive,
    ap (λ x. with_groups x grps) e,
  )
  alloc_on Kind.blocks {idx} {grps} returns positive = (
    record fs { blk_grps = grps; sb = record (fs.sb) { free_blocks = before fs.sb.free_blocks } },
    data_alloc_of d fs (ap (λ x. blkgrps_alloc Kind.blocks x.blk_grps) e ∙ returns) positive,
    ap (λ x. with_groups x grps) e,
  )

  pub fs_alloc-with_groups :
      (k : Kind) (free : ℕ)
      → IsIndex m.sb free
      → marked m k free ≡ 0
      → (idx : ℕ) × (grps : List BlockGroup) × (fs' : Filesystem d) × (fs_alloc d k fs ≡ ok idx fs')
        × ((idx == 0) ≡ false)
        × IsAllocated m.sb.data_block_per_groups k m.blk_grps idx grps
        × (image byte fs' ≡ with_groups m grps)
  fs_alloc-with_groups k free i unused =
      let (idx, grps, returns, a) = alloc_free size m k free v i unused in
      let positive : (idx == 0) ≡ false = ground (arith, a.not_zero) in
      let (fs', alloc, e') = alloc_on k returns positive in (idx, grps, fs', alloc, positive, a, e')

  pub save_dir_on :
      (block : ℕ) (dir : Dir)
      → IsIndex m.sb block
      → IsStorable dir
      → (fs' : Filesystem d) × (fs_save_dir d dir block fs ≡ ok tt fs')
        × (image byte fs' ≡ with_dir m block dir)
  save_dir_on block dir i storable =
      let (s', saved, e') =
        fs_save_dir-with_dir laws fs (subst (IsMounted size) (sym e) v) block dir
          (subst (λ x. IsIndex x.sb block) (sym e) i) storable in
      (record fs { device = s' }, saved, e' ∙ ap (λ x. with_dir x block dir) e)

  pub save_inode_on :
      (idx : ℕ) (inode : Inode)
      → IsIndex m.sb idx
      → Laws.IsValid inode
      → (fs' : Filesystem d) × (fs_save_inode d inode idx fs ≡ ok tt fs')
        × (image byte fs' ≡ with_inode m idx inode)
  save_inode_on idx inode i valid =
      let (s', saved, e') =
        fs_save_inode-with_inode laws fs (subst (IsMounted size) (sym e) v) idx inode
          (subst (λ x. IsIndex x.sb idx) (sym e) i) valid in
      (record fs { device = s' }, saved, e' ∙ ap (λ x. with_inode x idx inode) e)

  -- A new name in a directory that has room.
  pub insert_into_on :
      (inode : Inode) (dir : Dir) (name : List ℕ) (idx block : ℕ)
      → get_elem? inode.direct_blks 0 ≡ some block
      → HasDir m block dir
      → dir.size < 15
      → IsFileName name
      → has name (entries dir) ≡ false
      → IsIndex m.sb idx
      → (dir' : Dir) × (fs' : Filesystem d) × (insert_into d inode dir name idx fs ≡ ok tt fs')
        × (image byte fs' ≡ with_dir m block dir')
        × Entries.IsValid dir'
        × IsLarger dir dir'
        × (lookup name (entries dir') ≡ idx)
  insert_into_on inode dir name idx block at there room n missing i =
      let (dir', inserted, valid', listed) =
        dir_insert-entries dir there.valid name idx room n.string n.bytes n.short
          (omega (arith, i.1, v.laid_out.indices_fit)) in
      let (fs', saved, e') = save_dir_on block dir' there.index valid'.storable in
      (
        dir',
        fs',
        insert_into_of d fs inode dir dir' name idx block inserted at saved,
        e',
        valid',
        λ other pos. ap (lookup other) listed ∙ lookup_old other (entries dir) (name, idx) pos,
        ap (lookup name) listed ∙ (lookup_new name idx (entries dir) missing).1,
      )
