-- ===== src/Fs/Tree/Mkdir.antt =====
-- `fs_mkdir` on the tree.
use mathlib.Core.Path.{subst, sym}
use chisai_fs.Base.{
  ℕ, ◌-◌, ◌^◌, ◌<◌, ◌≡◌, refl, ap, ◌∙◌, false, some, List, ◌∷◌, ◌++◌, arith, ◌==◌, get_elem?,
  All-replicate,
}
use chisai_fs.Base.Outcome.{ok}
use chisai_fs.BlockGroup.{Kind}
use chisai_fs.Device.{Device}
use chisai_fs.Device.Laws.{DeviceLaws}
use chisai_fs.Dir.{Dir, dir_init, dir_file_inode_idx}
use chisai_fs.Dir.Entries.{entries, has}
use chisai_fs.Dir.Lookup.{dir_file_inode_idx-lookup}
use chisai_fs.Fs.{
  Filesystem, Code, err_ok, fs_inode_alloc, fs_data_alloc, fs_save_dir, fs_save_inode,
}
use chisai_fs.Fs.Create.{dir_mode, new_dir_inode, insert_into, make_dir, fs_mkdir}
use chisai_fs.Fs.Layout.{IsIndex}
use chisai_fs.Fs.Path.{parent, fs_path_to_parent}
use chisai_fs.Fs.Tree.{Image, image, IsMounted, marked, HasDir, Resolves}
use chisai_fs.Fs.Tree.Grows.{Grows, Resolves-Grows, Resolves-name}
use chisai_fs.Fs.Tree.Insert.{fs_alloc-with_groups, save_dir_on, save_inode_on, insert_into_on}
use chisai_fs.Fs.Tree.MadeDir.{IsMade, dir_init-IsValid, made_dir-IsMade}
use chisai_fs.Fs.Tree.Parent.{IsFileName, fs_path_to_parent-Resolves, lookup_new}
use chisai_fs.Fs.Tree.Saves.{with_bytes-IsMounted}
use chisai_fs.Fs.Tree.Walk.{image_read}
use chisai_fs.Fs.Tree.Allocs.{allocated-IsIndex, allocated-IsMounted, allocated-Keeps}
use chisai_fs.Fs.Tree.Writes.{Keeps-trans, with_groups, with_inode, with_dir}
use chisai_fs.Inode.{
  Inode, inode_init, inode_set_mode, inode_set_nlink, inode_set_size, inode_add_block,
}
use chisai_fs.Inode.Laws
use chisai_fs.Inode.Laws.{IsWord}

new_dir_inode-IsValid :
    (mode block : ℕ)
    → dir_mode mode < 2 ^ 32
    → block < 2 ^ 32
    → Laws.IsValid (new_dir_inode mode block)
unfolding new_dir_inode inode_init inode_set_mode inode_set_nlink inode_set_size inode_add_block
new_dir_inode-IsValid mode block h b = record {
  mode = h;
  nlink = omega arith;
  blkcnt = omega arith;
  size = omega arith;
  twelve = refl;
  direct_blks = (b, All-replicate IsWord 11 0 (omega arith));
  indirect_blk = omega arith;
  double_indirect_blk = omega arith;
}

-- The block of a new directory.
new_dir_inode-at :
    (mode block : ℕ) → get_elem? (new_dir_inode mode block).direct_blks 0 ≡ some block
unfolding new_dir_inode inode_init inode_set_mode inode_set_nlink inode_set_size inode_add_block
new_dir_inode-at mode block = refl

module _ (d : Device) (fs : Filesystem d) where
  make_dir_of :
      (inode : Inode) (dir : Dir) (name : List ℕ) (mode block idx : ℕ)
      {fs1 fs2 fs3 fs4 fs5 : Filesystem d}
      → fs_data_alloc d fs ≡ ok block fs1
      → (block == 0) ≡ false
      → fs_inode_alloc d fs1 ≡ ok idx fs2
      → (idx == 0) ≡ false
      → insert_into d inode dir name idx fs2 ≡ ok tt fs3
      → fs_save_inode d (new_dir_inode mode block) idx fs3 ≡ ok tt fs4
      → fs_save_dir d dir_init block fs4 ≡ ok tt fs5
      → make_dir d inode dir name mode fs ≡ ok err_ok fs5
  unfolding make_dir
  make_dir_of inode dir name mode block idx block_alloc some_block alloc some_inode inserted saved
        dir_saved =
      rw (block_alloc, some_block, alloc, some_inode, inserted, saved, dir_saved)

  mkdir_of :
      (path name : List ℕ) (inode : Inode) (dir : Dir) (mode : ℕ) {fs1 fs2 : Filesystem d}
      {r : Code}
      → fs_path_to_parent d path fs ≡ ok (parent inode dir name) fs1
      → dir_file_inode_idx dir name ≡ some 0
      → make_dir d inode dir name mode fs1 ≡ ok r fs2
      → fs_mkdir d path mode fs ≡ ok r fs2
  unfolding fs_mkdir
  mkdir_of path name inode dir mode found missing made = rw (found, missing, made)

module _ {d : Device} {size : ℕ} {byte : d.State → ℕ → ℕ} (laws : DeviceLaws d size byte)
    (fs : Filesystem d) {m : Image} (e : image byte fs ≡ m) (v : IsMounted size m) where
  make_dir-IsMade :
      (name : List ℕ) (block free free_block mode : ℕ) (parent_inode : Inode) (dir : Dir)
      → IsFileName name
      → get_elem? parent_inode.direct_blks 0 ≡ some block
      → HasDir m block dir
      → dir.size < 15
      → has name (entries dir) ≡ false
      → IsIndex m.sb free
      → marked m Kind.inodes free ≡ 0
      → IsIndex m.sb free_block
      → marked m Kind.blocks free_block ≡ 0
      → dir_mode mode < 2 ^ 32
      → (idx : ℕ) × (new : ℕ) × (fs' : Filesystem d) × (make_dir d parent_inode dir name mode fs
          ≡ ok err_ok fs')
        × IsMade size m (image byte fs') name block idx new (new_dir_inode mode new)
  make_dir-IsMade name block free free_block mode parent_inode dir n at there room missing i unused
        i' unused' small =
      let (new, grps1, fs2, block_alloc, some_block, b, e2) =
        fs_alloc-with_groups laws fs e v Kind.blocks free_block i' unused' in
      let m1 = with_groups m grps1 in
      let w1 = allocated-IsMounted size m v Kind.blocks new grps1 b in
      let (idx, grps, fs3, alloc, some_inode, a, e3) =
        fs_alloc-with_groups laws fs2 e2 w1 Kind.inodes free i (b.other_kept (free - 1) ∙ unused) in
      let m2 = with_groups m grps in
      let w2 = allocated-IsMounted size m1 w1 Kind.inodes idx grps a in
      let inode = new_dir_inode mode new in
      let index = allocated-IsIndex size m1 w1 Kind.inodes idx grps a in
      let block_index = allocated-IsIndex size m v Kind.blocks new grps1 b in
      let valid =
        new_dir_inode-IsValid mode new small
          (omega (arith, block_index.1, v.laid_out.indices_fit)) in
      let there2 =
        (Keeps-trans (allocated-Keeps size m v Kind.blocks new grps1 b)
            (allocated-Keeps size m1 w1 Kind.inodes idx grps a)).dirs
          block dir there in
      let (dir', fs4, inserted, e4, valid', larger, named) =
        insert_into_on laws fs3 e3 w2 parent_inode dir name idx block at there2 room n missing
          index in
      let m3 = with_dir m2 block dir' in
      let (fs5, saved, e5) =
        save_inode_on laws fs4 e4 (with_bytes-IsMounted size m2 m3.bytes w2) idx inode index
          valid in
      let m4 = with_inode m3 idx inode in
      let (fs6, dir_saved, e6) =
        save_dir_on laws fs5 e5 (with_bytes-IsMounted size m2 m4.bytes w2) new dir_init block_index
          dir_init-IsValid.storable in
      let made =
        made_dir-IsMade size m v block idx new dir dir' inode grps1 grps there valid' larger b a
          valid name named in
      (
        idx,
        new,
        fs6,
        make_dir_of d fs parent_inode dir name mode new idx block_alloc some_block alloc some_inode
            inserted saved dir_saved,
        subst (λ x. IsMade size m x name block idx new inode) (sym e6) made,
      )

module _ {d : Device} {size : ℕ} {byte : d.State → ℕ → ℕ} (laws : DeviceLaws d size byte)
    (fs : Filesystem d) (v : IsMounted size (image byte fs)) where
  -- On a mounted device with a free inode and a free data block, `fs_mkdir` of a new name of 1 to 27
  -- bytes, in a directory that a path leads to and that has fewer than 15 entries, returns
  -- CHISAI_ERR_OK. The whole path leads to an inode that was free, whose first block was free and
  -- holds an empty directory; every inode stays what it is, every directory keeps its names, and the
  -- device stays well-formed.
  pub fs_mkdir-Resolves :
      (parent_path name : List ℕ) (p block free free_block mode : ℕ) (parent_inode : Inode)
      (dir : Dir)
      → IsFileName name
      → Resolves (image byte fs) parent_path p parent_inode
      → get_elem? parent_inode.direct_blks 0 ≡ some block
      → HasDir (image byte fs) block dir
      → dir.size < 15
      → has name (entries dir) ≡ false
      → IsIndex fs.sb free
      → marked (image byte fs) Kind.inodes free ≡ 0
      → IsIndex fs.sb free_block
      → marked (image byte fs) Kind.blocks free_block ≡ 0
      → dir_mode mode < 2 ^ 32
      → (idx new : ℕ) × (fs' : Filesystem d) × (fs_mkdir d (parent_path ++ (b'/' ∷ name)) mode fs
          ≡ ok err_ok fs')
        × (marked (image byte fs) Kind.inodes idx ≡ 0)
        × (marked (image byte fs) Kind.blocks new ≡ 0)
        × Resolves (image byte fs') (parent_path ++ (b'/' ∷ name)) idx (new_dir_inode mode new)
        × (get_elem? (new_dir_inode mode new).direct_blks 0 ≡ some new)
        × HasDir (image byte fs') new dir_init
        × Grows (image byte fs) (image byte fs')
        × IsMounted size (image byte fs')
  fs_mkdir-Resolves parent_path name p block free free_block mode parent_inode dir n r at there room
        missing i unused i' unused' small =
      let (s1, found, same1) =
        fs_path_to_parent-Resolves laws fs v parent_path name p block parent_inode dir n r at
          there in
      let (idx, new, fs', made, t) =
        make_dir-IsMade laws (record fs { device = s1 }) (image_read byte fs same1 refl) v name
          block free free_block mode parent_inode dir n at there room missing i unused i' unused'
          small in
      (
        idx,
        new,
        fs',
        mkdir_of d fs (parent_path ++ (b'/' ∷ name)) name parent_inode dir mode found
            (dir_file_inode_idx-lookup dir there.valid name n.string
              ∙ ap some (lookup_new name idx (entries dir) missing).0)
            made,
        t.inode_was_free,
        t.block_was_free,
        Resolves-name (image byte fs') parent_path name p block idx parent_inode
            (new_dir_inode mode new) t.dir
            (Resolves-Grows (image byte fs) (image byte fs') parent_path p parent_inode t.grows r)
            at t.has_parent n.string n.no_slash n.some_name t.named t.positive t.has_inode,
        new_dir_inode-at mode new,
        t.has_dir,
        t.grows,
        t.mounted,
      )
