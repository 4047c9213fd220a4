-- ===== src/Fs/Tree/Full.antt =====
-- `fs_create_file` in a directory that is full.
use mathlib.Core.Path.{subst, sym}
use chisai_fs.Base.{ℕ, ◌^◌, ◌<◌, ◌≡◌, refl, ap, ◌∙◌, false, some, List, ◌∷◌, ◌++◌, get_elem?}
use chisai_fs.Base.Outcome.{ok}
use chisai_fs.BlockGroup.{Kind}
use chisai_fs.Device.{Device}
use chisai_fs.Device.Laws.{DeviceLaws}
use chisai_fs.Dir.{Dir, dir_insert}
use chisai_fs.Dir.Entries.{entries, lookup}
use chisai_fs.Dir.Insert.{dir_insert_full}
use chisai_fs.Dir.Lookup.{dir_file_inode_idx-lookup}
use chisai_fs.Fs.{Filesystem, err_ok, fs_save_dir}
use chisai_fs.Fs.Create.{insert_into, fs_create_file}
use chisai_fs.Fs.Layout.{IsIndex}
use chisai_fs.Fs.Tree.{image, IsMounted, marked, HasInode, HasDir, Resolves}
use chisai_fs.Fs.Tree.Insert.{fs_alloc-with_groups, save_dir_on, save_inode_on}
use chisai_fs.Fs.Tree.Make.{
  new_file, new_file-IsValid, make_file_of, create_of, made-HasDir, made-HasInode,
}
use chisai_fs.Fs.Tree.Parent.{IsFileName, fs_path_to_parent-Resolves}
use chisai_fs.Fs.Tree.Saves.{with_bytes-IsMounted}
use chisai_fs.Fs.Tree.Walk.{image_read}
use chisai_fs.Fs.Tree.Allocs.{allocated-IsIndex, allocated-IsMounted}
use chisai_fs.Fs.Tree.Writes.{with_groups, with_dir}
use chisai_fs.Inode.{Inode}

insert_into_full :
    (d : Device) (fs : Filesystem d) (inode : Inode) (dir : Dir) (name : List ℕ) (idx block : ℕ)
    {fs' : Filesystem d}
    → dir_insert dir name idx ≡ some (false, dir)
    → get_elem? inode.direct_blks 0 ≡ some block
    → fs_save_dir d dir block fs ≡ ok tt fs'
    → insert_into d inode dir name idx fs ≡ ok tt fs'
unfolding insert_into
insert_into_full d fs inode dir name idx block refused at saved = rw (refused, at, saved)

module _ {d : Device} {size : ℕ} {byte : d.State → ℕ → ℕ} (laws : DeviceLaws d size byte)
    (fs : Filesystem d) (v : IsMounted size (image byte fs)) where
  -- On a mounted device with a free inode, `fs_create_file` of a new name in a directory that a path
  -- leads to and that has all of its 15 entries returns CHISAI_ERR_OK and an inode that was free. The
  -- inode is taken and on the device, but the directory is as it was: it does not have the name.
  pub fs_create_file-HasDir_full :
      (parent_path name : List ℕ) (p block free mode : ℕ) (parent_inode : Inode) (dir : Dir)
      → IsFileName name
      → Resolves (image byte fs) parent_path p parent_inode
      → get_elem? parent_inode.direct_blks 0 ≡ some block
      → HasDir (image byte fs) block dir
      → dir.size ≡ 15
      → lookup name (entries dir) ≡ 0
      → IsIndex fs.sb free
      → marked (image byte fs) Kind.inodes free ≡ 0
      → mode < 2 ^ 32
      → (idx : ℕ) × (fs' : Filesystem d) × (fs_create_file d (parent_path ++ (b'/' ∷ name)) mode fs
          ≡ ok (err_ok, some (record { inode = new_file mode; idx = idx })) fs')
        × (marked (image byte fs) Kind.inodes idx ≡ 0)
        × HasInode (image byte fs') idx (new_file mode)
        × HasDir (image byte fs') block dir
  fs_create_file-HasDir_full parent_path name p block free mode parent_inode dir n r at there full
        missing i unused small =
      let m = image byte fs in
      let new = new_file mode in
      let (s1, found, same1) =
        fs_path_to_parent-Resolves laws fs v parent_path name p block parent_inode dir n r at
          there in
      let e1 = image_read byte fs same1 refl in
      let (idx, grps, fs2, alloc, positive, a, e2) =
        fs_alloc-with_groups laws (record fs { device = s1 }) e1 v Kind.inodes free i unused in
      let index = allocated-IsIndex size m v Kind.inodes idx grps a in
      let valid = new_file-IsValid mode small in
      let m2 = with_groups m grps in
      let v2 = allocated-IsMounted size m v Kind.inodes idx grps a in
      let (fs3, dir_saved, e3) =
        save_dir_on laws fs2 e2 v2 block dir there.index there.valid.storable in
      let v3 = with_bytes-IsMounted size m2 (with_dir m2 block dir).bytes v2 in
      let (fs4, saved, e4) = save_inode_on laws fs3 e3 v3 idx new index valid in
      (
        idx,
        fs4,
        create_of d fs (parent_path ++ (b'/' ∷ name)) name parent_inode dir mode found
            (dir_file_inode_idx-lookup dir there.valid name n.string ∙ ap some missing)
            (make_file_of d (record fs { device = s1 }) parent_inode dir name mode idx alloc
              positive
              (insert_into_full d fs2 parent_inode dir name idx block
                (dir_insert_full dir there.valid name idx full) at dir_saved)
              saved),
        a.was_free,
        subst (λ x. HasInode x idx new) (sym e4)
            (made-HasInode size m v block idx dir dir new grps there there.valid (λ _ _. refl) a
              valid),
        subst (λ x. HasDir x block dir) (sym e4)
            (made-HasDir size m v block idx dir dir new grps there there.valid (λ _ _. refl) a
              valid),
      )
