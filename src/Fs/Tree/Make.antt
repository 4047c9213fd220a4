-- ===== src/Fs/Tree/Make.antt =====
-- `fs_create_file` on the tree.
use mathlib.Core.Path.{subst, sym}
use chisai_fs.Base.{
  ℕ, ◌^◌, ◌<◌, ◌≡◌, refl, ap, ◌∙◌, false, Option, some, List, ◌∷◌, ◌++◌, arith, ◌==◌, get_elem?,
  All-replicate,
}
use chisai_fs.Base.Outcome.{ok}
use chisai_fs.BlockGroup.{BlockGroup, Kind}
use chisai_fs.BlockGroup.Alloc.{IsAllocated}
use chisai_fs.Device.{Device}
use chisai_fs.Device.Laws.{DeviceLaws}
use chisai_fs.Dir.{Dir, dir_file_inode_idx}
use chisai_fs.Dir.Entries
use chisai_fs.Dir.Entries.{entries, lookup, has}
use chisai_fs.Dir.Lookup.{dir_file_inode_idx-lookup}
use chisai_fs.Fs.{Filesystem, FileInfo, Code, err_ok, fs_inode_alloc, fs_save_inode}
use chisai_fs.Fs.Create.{insert_into, make_file, fs_create_file}
use chisai_fs.Fs.Layout.{IsIndex}
use chisai_fs.Fs.Path.{parent, fs_path_to_parent}
use chisai_fs.Fs.Tree.{Image, image, IsMounted, marked, HasInode, HasDir, Resolves}
use chisai_fs.Fs.Tree.Grows.{IsLarger, Grows, Resolves-Grows, Resolves-name}
use chisai_fs.Fs.Tree.Parent.{IsFileName, fs_path_to_parent-Resolves, lookup_new}
use chisai_fs.Fs.Tree.Saves.{with_bytes-IsMounted}
use chisai_fs.Fs.Tree.Insert.{fs_alloc-with_groups, save_inode_on, insert_into_on}
use chisai_fs.Fs.Tree.Walk.{image_read}
use chisai_fs.Fs.Tree.Allocs.{allocated-IsIndex, allocated-IsMounted, allocated-Keeps, now_marked}
use chisai_fs.Fs.Tree.DirWrites.{with_dir-HasDir, with_dir-Grows}
use chisai_fs.Fs.Tree.Writes.{
  Keeps, Keeps-trans, Grows-Keeps, with_groups, with_inode, with_dir, with_inode-Keeps,
  with_inode-HasInode,
}
use chisai_fs.Inode.{Inode, inode_init, inode_set_mode}
use chisai_fs.Inode.Laws
use chisai_fs.Inode.Laws.{IsWord, inode_save-patch}

-- The inode of a new file.
abbrev pub new_file : ℕ → Inode
new_file mode = inode_set_mode inode_init mode

pub new_file-IsValid : (mode : ℕ) → mode < 2 ^ 32 → Laws.IsValid (new_file mode)
unfolding inode_set_mode inode_init
new_file-IsValid mode h = record {
  mode = h;
  nlink = omega arith;
  blkcnt = omega arith;
  size = omega arith;
  twelve = refl;
  direct_blks = All-replicate IsWord 12 0 (omega arith);
  indirect_blk = omega arith;
  double_indirect_blk = omega arith;
}

module _ (d : Device) (fs : Filesystem d) where
  pub make_file_of :
      (inode : Inode) (dir : Dir) (name : List ℕ) (mode idx : ℕ) {fs1 fs2 fs3 : Filesystem d}
      → fs_inode_alloc d fs ≡ ok idx fs1
      → (idx == 0) ≡ false
      → insert_into d inode dir name idx fs1 ≡ ok tt fs2
      → fs_save_inode d (new_file mode) idx fs2 ≡ ok tt fs3
      → make_file d inode dir name mode fs
        ≡ ok (err_ok, some (record { inode = new_file mode; idx = idx })) fs3
  unfolding make_file
  make_file_of inode dir name mode idx alloc positive inserted saved =
      rw (alloc, positive, inserted, saved)

  pub create_of :
      (path name : List ℕ) (inode : Inode) (dir : Dir) (mode : ℕ) {fs1 fs2 : Filesystem d}
      {r : Code × Option FileInfo}
      → fs_path_to_parent d path fs ≡ ok (parent inode dir name) fs1
      → dir_file_inode_idx dir name ≡ some 0
      → make_file d inode dir name mode fs1 ≡ ok r fs2
      → fs_create_file d path mode fs ≡ ok r fs2
  unfolding fs_create_file
  create_of path name inode dir mode found missing made = rw (found, missing, made)

-- The image behind the creation of a file.
abbrev pub made : Image → ℕ → Dir → ℕ → Inode → List BlockGroup → Image
made m block dir idx inode grps = with_inode (with_dir (with_groups m grps) block dir) idx inode

-- A directory with a new name in it, and a new inode behind the name.
module _ (size : ℕ) (m : Image) (v : IsMounted size m) (block idx : ℕ) (dir dir' : Dir)
    (inode : Inode) (grps : List BlockGroup) (there : HasDir m block dir)
    (valid' : Entries.IsValid dir') (larger : IsLarger dir dir')
    (a : IsAllocated m.sb.data_block_per_groups Kind.inodes m.blk_grps idx grps)
    (valid : Laws.IsValid inode) where
  behind_dir : Keeps (with_dir m block dir') (made m block dir' idx inode grps)
  behind_dir =
      let m1 = with_dir m block dir' in
      let m2 = with_inode m1 idx inode in
      Keeps-trans
        (with_inode-Keeps size m1 (with_bytes-IsMounted size m m1.bytes v) idx inode
          (allocated-IsIndex size m v Kind.inodes idx grps a) a.was_free valid)
        (allocated-Keeps size m2 (with_bytes-IsMounted size m m2.bytes v) Kind.inodes idx grps a)

  pub made-Grows : Grows m (made m block dir' idx inode grps)
  made-Grows = Grows-Keeps (with_dir-Grows size m v block dir dir' there valid' larger) behind_dir

  pub made-HasDir : HasDir (made m block dir' idx inode grps) block dir'
  made-HasDir =
      behind_dir.dirs block dir' (with_dir-HasDir size m v block dir' there.index there.used valid')

  pub made-HasInode : HasInode (made m block dir' idx inode grps) idx inode
  made-HasInode =
      let m1 = with_dir (with_groups m grps) block dir' in
      with_inode-HasInode size m1
        (with_bytes-IsMounted size (with_groups m grps) m1.bytes
          (allocated-IsMounted size m v Kind.inodes idx grps a))
        idx inode (allocated-IsIndex size m v Kind.inodes idx grps a)
        (now_marked size m v Kind.inodes idx grps a) valid

module _ {d : Device} {size : ℕ} {byte : d.State → ℕ → ℕ} (laws : DeviceLaws d size byte)
    (fs : Filesystem d) (v : IsMounted size (image byte fs)) where
  -- On a mounted device with a free inode, `fs_create_file` of a new name of 1 to 27 bytes, in a
  -- directory that a path leads to and that is not full, returns CHISAI_ERR_OK. The inode that it
  -- returns was free; the whole path leads to it afterwards; every inode stays, every directory keeps
  -- its names, and the device stays mounted, with the sizes of its superblock.
  pub fs_create_file-Resolves :
      (parent_path name : List ℕ) (p block free mode : ℕ) (parent_inode : Inode) (dir : Dir)
      → IsFileName name
      → Resolves (image byte fs) parent_path p parent_inode
      → get_elem? parent_inode.direct_blks 0 ≡ some block
      → HasDir (image byte fs) block dir
      → dir.size < 15
      → has name (entries dir) ≡ false
      → IsIndex fs.sb free
      → marked (image byte fs) Kind.inodes free ≡ 0
      → mode < 2 ^ 32
      → (idx : ℕ) × (fs' : Filesystem d) × (fs_create_file d (parent_path ++ (b'/' ∷ name)) mode fs
          ≡ ok (err_ok, some (record { inode = new_file mode; idx = idx })) fs')
        × (marked (image byte fs) Kind.inodes idx ≡ 0)
        × Resolves (image byte fs') (parent_path ++ (b'/' ∷ name)) idx (new_file mode)
        × Grows (image byte fs) (image byte fs')
        × IsMounted size (image byte fs')
        × ((image byte fs').sb ≡ (image byte fs).sb)
  fs_create_file-Resolves parent_path name p block free mode parent_inode dir n r at there room
        missing i unused small =
      let m = image byte fs in
      let new = new_file mode in
      let (s1, found, same1) =
        fs_path_to_parent-Resolves laws fs v parent_path name p block parent_inode dir n r at
          there in
      let e1 = image_read byte fs same1 refl in
      let (idx, grps, fs2, alloc, positive, a, e2) =
        fs_alloc-with_groups laws (record fs { device = s1 }) e1 v Kind.inodes free i unused in
      let index = allocated-IsIndex size m v Kind.inodes idx grps a in
      let valid = new_file-IsValid mode small in
      let m2 = with_groups m grps in
      let v2 = allocated-IsMounted size m v Kind.inodes idx grps a in
      let there2 = (allocated-Keeps size m v Kind.inodes idx grps a).dirs block dir there in
      let (dir', fs3, inserted, e3, valid', larger, found_new) =
        insert_into_on laws fs2 e2 v2 parent_inode dir name idx block at there2 room n missing
          index in
      let v3 = with_bytes-IsMounted size m2 (with_dir m2 block dir').bytes v2 in
      let (fs4, saved, e4) = save_inode_on laws fs3 e3 v3 idx new index valid in
      let last = made m block dir' idx new grps in
      let grows = made-Grows size m v block idx dir dir' new grps there valid' larger a valid in
      let has_dir = made-HasDir size m v block idx dir dir' new grps there valid' larger a valid in
      let has_inode =
        made-HasInode size m v block idx dir dir' new grps there valid' larger a valid in
      let leads =
        Resolves-name last parent_path name p block idx parent_inode new dir'
          (Resolves-Grows m last parent_path p parent_inode grows r) at has_dir n.string n.no_slash
          n.some_name found_new index.0 has_inode in
      (
        idx,
        fs4,
        create_of d fs (parent_path ++ (b'/' ∷ name)) name parent_inode dir mode found
            (dir_file_inode_idx-lookup dir there.valid name n.string
              ∙ ap some (lookup_new name idx (entries dir) missing).0)
            (make_file_of d (record fs { device = s1 }) parent_inode dir name mode idx alloc
              positive inserted saved),
        a.was_free,
        subst (λ x. Resolves x (parent_path ++ (b'/' ∷ name)) idx new) (sym e4) leads,
        subst (Grows m) (sym e4) grows,
        subst (IsMounted size) (sym e4) (with_bytes-IsMounted size m2 last.bytes v2),
        ap (λ (x : Image). x.sb) e4,
      )
