-- ===== src/Fs/Tree/Removed.antt =====
-- `fs_remove_file` on the tree.
use mathlib.Core.Path.{subst, sym}
use mathlib.Core.List.{Perm}
use chisai_fs.Base.{
  ℕ, ◌-◌, ◌*◌, ◌/◌, ◌≤◌, ◌≡◌, ◌≢◌, refl, ap, ◌∙◌, inl, inr, some, List, ◌∷◌, ◌++◌, arith, get_elem?,
  get_or, u32, ◌+◌, ◌==◌, Bool-cases,
}
use chisai_fs.Base.Outcome.{ok}
use chisai_fs.BlockGroup.{BlockGroup, Kind, next, blkgrps_release}
use chisai_fs.BlockGroup.Release.{IsReleased, blkgrps_release-IsReleased}
use chisai_fs.BlockGroup.Valid.{blank}
use chisai_fs.Device.{Device}
use chisai_fs.Device.Laws.{DeviceLaws}
use chisai_fs.Dir.{Dir, dir_remove}
use chisai_fs.Dir.Entries
use chisai_fs.Dir.Entries.{entries, lookup}
use chisai_fs.Dir.Remove.{dir_remove-entries}
use chisai_fs.Fs.{Filesystem, err_ok, fs_find_inode, fs_inode_release, fs_data_release, fs_save_dir}
use chisai_fs.Fs.Create.{fs_remove_file}
use chisai_fs.Fs.Layout.{IsIndex}
use chisai_fs.Fs.Path.{parent, fs_path_to_parent}
use chisai_fs.Fs.Tree.{Image, image, IsMounted, marked, HasInode, HasDir, Resolves}
use chisai_fs.Fs.Tree.Insert.{save_dir_on}
use chisai_fs.Fs.Tree.Parent.{IsFileName, fs_path_to_parent-Resolves}
use chisai_fs.Fs.Tree.Reads.{fs_find_inode-HasInode}
use chisai_fs.Fs.Tree.Saves.{with_bytes-IsMounted}
use chisai_fs.Fs.Tree.Walk.{image_read}
use chisai_fs.Fs.Tree.DirWrites.{with_dir-HasDir, with_dir-inodes}
use chisai_fs.Fs.Tree.Writes.{with_groups, with_dir}
use chisai_fs.Inode.{Inode}

remove_of :
    (d : Device) (fs : Filesystem d) (path name : List ℕ) (inode file : Inode) (dir dir' : Dir)
    (idx b block : ℕ) {fs1 fs2 fs3 fs4 fs5 : Filesystem d}
    → fs_path_to_parent d path fs ≡ ok (parent inode dir name) fs1
    → dir_remove dir name ≡ some (idx, dir')
    → fs_find_inode d idx fs1 ≡ ok (some file) fs2
    → get_elem? file.direct_blks 0 ≡ some b
    → fs_data_release d b fs2 ≡ ok tt fs3
    → fs_inode_release d idx fs3 ≡ ok tt fs4
    → get_elem? inode.direct_blks 0 ≡ some block
    → fs_save_dir d dir' block fs4 ≡ ok tt fs5
    → fs_remove_file d path fs ≡ ok err_ok fs5
unfolding fs_remove_file
remove_of d fs path name inode file dir dir' idx b block found removed loaded first block_freed
      inode_freed at saved =
    rw (found, removed, loaded, first, block_freed, inode_freed, at, saved)

module _ (d : Device) (fs : Filesystem d) (idx : ℕ) {grps : List BlockGroup} where
  pub data_release_of :
      blkgrps_release Kind.blocks fs.blk_grps idx ≡ some grps
      → fs_data_release d idx fs
        ≡ ok tt (record fs {
          blk_grps = grps;
          sb = record (fs.sb) { free_blocks = u32 (fs.sb.free_blocks + 1) };
        })
  unfolding fs_data_release
  data_release_of returns = rw returns

  inode_release_of :
      blkgrps_release Kind.inodes fs.blk_grps idx ≡ some grps
      → fs_inode_release d idx fs
        ≡ ok tt (record fs {
          blk_grps = grps;
          sb = record (fs.sb) { free_inodes = u32 (fs.sb.free_inodes + 1) };
        })
  unfolding fs_inode_release
  inode_release_of returns = rw returns

-- The `next` of the group that an index is in is not 0.
abbrev pub HasNext : Image → Kind → ℕ → Type 0
HasNext m k idx = 1 ≤ next k (get_or m.blk_grps ((idx - 1) / m.sb.data_block_per_groups) blank)

module _ (size : ℕ) (m : Image) (v : IsMounted size m) where
  pub released :
      (k : Kind) (idx : ℕ)
      → IsIndex m.sb idx
      → HasNext m k idx
      → (grps : List BlockGroup) × (blkgrps_release k m.blk_grps idx ≡ some grps)
        × IsReleased m.sb.data_block_per_groups k m.blk_grps idx grps
  released k idx i h =
      blkgrps_release-IsReleased m.sb.data_block_per_groups k m.blk_grps idx v.groups i.0
        (subst (λ g. idx ≤ g * m.sb.data_block_per_groups) (sym v.all_groups) i.1) h

  pub released-IsMounted :
      (k : Kind) (idx : ℕ) (grps : List BlockGroup)
      → IsReleased m.sb.data_block_per_groups k m.blk_grps idx grps
      → IsMounted size (with_groups m grps)
  released-IsMounted k idx grps r = record {
    laid_out = v.laid_out;
    groups = r.valid;
    all_groups = r.same_length ∙ v.all_groups;
    room = v.room;
    wide = v.wide;
  }

  -- Another index of the same kind stays as it was.
  pub released_kept :
      (k : Kind) (idx : ℕ) (grps : List BlockGroup)
      → IsReleased m.sb.data_block_per_groups k m.blk_grps idx grps
      → (j : ℕ) → 1 ≤ idx
      → 1 ≤ j
      → j ≢ idx
      → marked (with_groups m grps) k j ≡ marked m k j
  released_kept k idx grps r j p q ne = elim (Bool-cases (idx - 1 == j - 1)) [
    | inl e ↦ absurd (ne (ground arith))
    | inr e ↦ r.cleared (j - 1) ∙ rw e refl
  ]

  pub released_free :
      (k : Kind) (idx : ℕ) (grps : List BlockGroup)
      → IsReleased m.sb.data_block_per_groups k m.blk_grps idx grps
      → marked (with_groups m grps) k idx ≡ 0
  released_free k idx grps r = ground (arith, r.cleared (idx - 1))

-- What the removal of the name of the inode `idx`, whose first block is `b`, leaves of the image `m`.
pub record IsRemoved (size : ℕ) (m m' : Image) (name : List ℕ) (block idx b : ℕ) (dir : Dir)
    : Type 0 where
  pub mounted : IsMounted size m'
  pub inode_free : marked m' Kind.inodes idx ≡ 0
  pub block_free : marked m' Kind.blocks b ≡ 0
  pub left : Dir
  pub has_dir : HasDir m' block left
  pub without_name : Perm ((name, idx) ∷ entries left) (entries dir)
  pub inodes : (j : ℕ) (inode : Inode) → j ≢ idx → HasInode m j inode → HasInode m' j inode

module _ (size : ℕ) (m : Image) (v : IsMounted size m) (block idx b : ℕ) (dir dir' : Dir)
    (grps1 grps2 : List BlockGroup) (there : HasDir m block dir) (i : IsIndex m.sb idx)
    (i' : IsIndex m.sb b) (apart : block ≢ b)
    (r1 : IsReleased m.sb.data_block_per_groups Kind.blocks m.blk_grps b grps1)
    (r2 : IsReleased m.sb.data_block_per_groups Kind.inodes grps1 idx grps2)
    (valid : Entries.IsValid dir') where
  abbrev pub removed_image : Image
  removed_image = with_dir (with_groups m grps2) block dir'

  w1 : IsMounted size (with_groups m grps1)
  w1 = released-IsMounted size m v Kind.blocks b grps1 r1

  w2 : IsMounted size (with_groups m grps2)
  w2 = released-IsMounted size (with_groups m grps1) w1 Kind.inodes idx grps2 r2

  both_freed-IsRemoved :
      (name : List ℕ)
      → Perm ((name, idx) ∷ entries dir') (entries dir)
      → IsRemoved size m removed_image name block idx b dir
  both_freed-IsRemoved name perm = record {
    mounted = with_bytes-IsMounted size (with_groups m grps2) removed_image.bytes w2;
    inode_free = released_free size (with_groups m grps1) w1 Kind.inodes idx grps2 r2;
    block_free = r2.other_kept (b - 1) ∙ released_free size m v Kind.blocks b grps1 r1;
    left = dir';
    has_dir =
        with_dir-HasDir size (with_groups m grps2) w2 block dir' there.index
          (r2.other_kept (block - 1)
            ∙ released_kept size m v Kind.blocks b grps1 r1 block i'.0 there.index.0 apart
            ∙ there.used)
          valid;
    without_name = perm;
    inodes = λ j inode ne h.
        with_dir-inodes size (with_groups m grps2) w2 block dir' there.index valid j inode (record {
          index = h.index;
          used =
              released_kept size (with_groups m grps1) w1 Kind.inodes idx grps2 r2 j i.0 h.index.0
                ne
              ∙ r1.other_kept (j - 1)
              ∙ h.used;
          stored = h.stored;
          valid = h.valid;
        });
  }

module _ {d : Device} {size : ℕ} {byte : d.State → ℕ → ℕ} (laws : DeviceLaws d size byte)
    (fs : Filesystem d) (v : IsMounted size (image byte fs)) where
  -- On a mounted device, `fs_remove_file` of a name of 1 to 27 bytes, in a directory that a path leads
  -- to, that has the name with an inode that stands on the device, whose first block is a data block
  -- other than that of the directory, returns CHISAI_ERR_OK, if neither the group of the inode nor that
  -- of the block is full by its `next`. The inode and its first block are free afterwards, the directory
  -- has lost that entry and no other, every other inode stays what it is, and the device stays
  -- well-formed.
  pub fs_remove_file-IsRemoved :
      (parent_path name : List ℕ) (p block idx b : ℕ) (parent_inode inode : Inode) (dir : Dir)
      → IsFileName name
      → Resolves (image byte fs) parent_path p parent_inode
      → get_elem? parent_inode.direct_blks 0 ≡ some block
      → HasDir (image byte fs) block dir
      → lookup name (entries dir) ≡ idx
      → HasInode (image byte fs) idx inode
      → get_elem? inode.direct_blks 0 ≡ some b
      → IsIndex fs.sb b
      → block ≢ b
      → HasNext (image byte fs) Kind.inodes idx
      → HasNext (image byte fs) Kind.blocks b
      → (fs' : Filesystem d) × (fs_remove_file d (parent_path ++ (b'/' ∷ name)) fs ≡ ok err_ok fs')
        × IsRemoved size (image byte fs) (image byte fs') name block idx b dir
  fs_remove_file-IsRemoved parent_path name p block idx b parent_inode inode dir n r at there named
        stands first i' apart next_inode next_block =
      let m = image byte fs in
      let (s1, found, same1) =
        fs_path_to_parent-Resolves laws fs v parent_path name p block parent_inode dir n r at
          there in
      let e1 = image_read byte fs same1 refl in
      let (dir', removed, valid, lost) = dir_remove-entries dir there.valid name n.string in
      let perm : Perm ((name, idx) ∷ entries dir') (entries dir) = elim lost [
        | inl q ↦ subst (λ x. Perm ((name, x) ∷ entries dir') (entries dir)) named q
        | inr (absent, zero_idx, same) ↦ absurd (omega (arith, stands.index.0, zero_idx, named))
      ] in
      let (s2, loaded, same2) =
        fs_find_inode-HasInode laws (record fs { device = s1 }) (subst (IsMounted size) (sym e1) v)
          idx inode (subst (λ x. HasInode x idx inode) (sym e1) stands) in
      let fs2 = record fs { device = s2 } in
      let e2 = image_read byte (record fs { device = s1 }) same2 e1 in
      let (grps1, returns1, r1) = released size m v Kind.blocks b i' next_block in
      let m1 = with_groups m grps1 in
      let v1 = released-IsMounted size m v Kind.blocks b grps1 r1 in
      let (grps2, returns2, r2) =
        released size m1 v1 Kind.inodes idx stands.index
          (subst (λ x. 1 ≤ x) (sym (r1.next_kept Kind.inodes _)) next_inode) in
      let v2 = released-IsMounted size m1 v1 Kind.inodes idx grps2 r2 in
      let fs3 = record fs2 {
        blk_grps = grps1;
        sb = record (fs.sb) { free_blocks = u32 (fs.sb.free_blocks + 1) };
      } in
      let fs4 = record fs3 {
        blk_grps = grps2;
        sb = record (fs3.sb) { free_inodes = u32 (fs3.sb.free_inodes + 1) };
      } in
      let e4 : image byte fs4 ≡ with_groups m grps2 = ap (λ x. with_groups x grps2) e2 in
      let (fs5, saved, e5) = save_dir_on laws fs4 e4 v2 block dir' there.index valid.storable in
      (
        fs5,
        remove_of d fs (parent_path ++ (b'/' ∷ name)) name parent_inode inode dir dir' idx b block
            found (removed ∙ ap (λ (x : ℕ). some (x, dir')) named) loaded first
            (data_release_of d fs2 b returns1) (inode_release_of d fs3 idx returns2) at saved,
        subst (λ x. IsRemoved size m x name block idx b dir) (sym e5)
            (both_freed-IsRemoved size m v block idx b dir dir' grps1 grps2 there stands.index i'
              apart r1 r2 valid name perm),
      )
