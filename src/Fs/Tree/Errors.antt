-- ===== src/Fs/Tree/Errors.antt =====
-- The operations on the tree where a name is there already, and where it is not.
use chisai_fs.Base.{
  ℕ, ◌≤◌, ◌≡◌, refl, ap, ◌∙◌, false, none, some, List, ◌∷◌, ◌++◌, arith, ◌==◌, get_elem?,
}
use chisai_fs.Base.Outcome.{ok, aborted}
use chisai_fs.BlockGroup.{blkgrps_exist}
use chisai_fs.Device.{Device}
use chisai_fs.Device.Laws.{DeviceLaws}
use chisai_fs.Dir.{Dir, dir_file_inode_idx, dir_remove}
use chisai_fs.Dir.Entries.{entries, lookup}
use chisai_fs.Dir.Lookup.{dir_file_inode_idx-lookup}
use chisai_fs.Dir.Remove.{dir_remove-entries}
use chisai_fs.Fs.{Filesystem, enoent, eexist, fs_find_inode}
use chisai_fs.Fs.Create.{fs_create_file, fs_mkdir, fs_rename_file, fs_remove_file}
use chisai_fs.Fs.Path.{parent, fs_path_to_parent}
use chisai_fs.Fs.Tree.{image, IsMounted, HasDir, Resolves}
use chisai_fs.Fs.Tree.Parent.{IsFileName, fs_path_to_parent-Resolves}
use chisai_fs.Inode.{Inode}

module _ (d : Device) (fs fs' : Filesystem d) (path name : List ℕ) (inode : Inode) (dir : Dir)
    (found : fs_path_to_parent d path fs ≡ ok (parent inode dir name) fs') where
  create_taken :
      {idx : ℕ}
      → dir_file_inode_idx dir name ≡ some idx
      → (idx == 0) ≡ false
      → (mode : ℕ) → fs_create_file d path mode fs ≡ ok (eexist, none) fs'
  unfolding fs_create_file
  create_taken named positive mode = rw (found, named, positive)

  mkdir_taken :
      {idx : ℕ}
      → dir_file_inode_idx dir name ≡ some idx
      → (idx == 0) ≡ false
      → (mode : ℕ) → fs_mkdir d path mode fs ≡ ok eexist fs'
  unfolding fs_mkdir
  mkdir_taken named positive mode = rw (found, named, positive)

  rename_missing :
      dir_file_inode_idx dir name ≡ some 0
      → (to : List ℕ) → fs_rename_file d path to fs ≡ ok enoent fs'
  unfolding fs_rename_file
  rename_missing named to = rw (found, named)

  remove_missing :
      {dir' : Dir}
      → dir_remove dir name ≡ some (0, dir')
      → fs_find_inode d 0 fs' ≡ ok none fs'
      → fs_remove_file d path fs ≡ aborted
  unfolding fs_remove_file
  remove_missing removed gone = rw (found, removed, gone)

-- The index 0 is no inode.
fs_find_inode_zero : (d : Device) (fs : Filesystem d) → fs_find_inode d 0 fs ≡ ok none fs
unfolding fs_find_inode blkgrps_exist
fs_find_inode_zero d fs = refl

module _ {d : Device} {size : ℕ} {byte : d.State → ℕ → ℕ} (laws : DeviceLaws d size byte)
    (fs : Filesystem d) (v : IsMounted size (image byte fs)) where
  -- On a mounted device, in a directory that a path leads to, `fs_create_file` and `fs_mkdir` of a name
  -- that an entry with an index other than 0 has return CHISAI_ERR_EXIST. No byte of the device
  -- changes, and the bitmaps stay.
  pub fs_create_file-eexist :
      (parent_path name : List ℕ) (p block mode : ℕ) (inode : Inode) (dir : Dir)
      → IsFileName name
      → Resolves (image byte fs) parent_path p inode
      → get_elem? inode.direct_blks 0 ≡ some block
      → HasDir (image byte fs) block dir
      → 1 ≤ lookup name (entries dir)
      → (s' : d.State) × (fs_create_file d (parent_path ++ (b'/' ∷ name)) mode fs
          ≡ ok (eexist, none) (record fs { device = s' }))
        × (fs_mkdir d (parent_path ++ (b'/' ∷ name)) mode fs
            ≡ ok eexist (record fs { device = s' }))
        × (byte s' ≡ byte fs.device)
  fs_create_file-eexist parent_path name p block mode inode dir n r at there taken =
      let path = parent_path ++ (b'/' ∷ name) in
      let (s', found, same) =
        fs_path_to_parent-Resolves laws fs v parent_path name p block inode dir n r at there in
      let named = dir_file_inode_idx-lookup dir there.valid name n.string in
      let fs' = record fs { device = s' } in
      (
        s',
        create_taken d fs fs' path name inode dir found named (ground arith) mode,
        mkdir_taken d fs fs' path name inode dir found named (ground arith) mode,
        same,
      )

  -- On a mounted device, in a directory that a path leads to and that has no entry of a name,
  -- `fs_rename_file` from the name returns CHISAI_ERR_NOENT, with no byte of the device and no bitmap
  -- changed, but `fs_remove_file` of the name fails an assertion.
  pub fs_rename_file-enoent :
      (parent_path name to : List ℕ) (p block : ℕ) (inode : Inode) (dir : Dir)
      → IsFileName name
      → Resolves (image byte fs) parent_path p inode
      → get_elem? inode.direct_blks 0 ≡ some block
      → HasDir (image byte fs) block dir
      → lookup name (entries dir) ≡ 0
      → (s' : d.State) × (fs_rename_file d (parent_path ++ (b'/' ∷ name)) to fs
          ≡ ok enoent (record fs { device = s' }))
        × (byte s' ≡ byte fs.device)
        × (fs_remove_file d (parent_path ++ (b'/' ∷ name)) fs ≡ aborted)
  fs_rename_file-enoent parent_path name to p block inode dir n r at there missing =
      let path = parent_path ++ (b'/' ∷ name) in
      let (s', found, same) =
        fs_path_to_parent-Resolves laws fs v parent_path name p block inode dir n r at there in
      let named = dir_file_inode_idx-lookup dir there.valid name n.string ∙ ap some missing in
      let (dir', removed, valid, rest) = dir_remove-entries dir there.valid name n.string in
      let fs' = record fs { device = s' } in
      (
        s',
        rename_missing d fs fs' path name inode dir found named to,
        same,
        remove_missing d fs fs' path name inode dir found
            (removed ∙ ap (λ (x : ℕ). some (x, dir')) missing) (fs_find_inode_zero d fs'),
      )
