-- ===== src/Mount/Made.antt =====
-- `chisai_fuse_mkdir` and then `chisai_fuse_getattr` of the same path.
use chisai_fs.Base.{ℕ, ◌^◌, ◌<◌, ◌≡◌, refl, bit_or, true, false, some, List, ◌∷◌, ◌++◌, get_elem?}
use chisai_fs.Base.Outcome.{ok}
use chisai_fs.BlockGroup.{Kind}
use chisai_fs.Device.{Device}
use chisai_fs.Device.Laws.{DeviceLaws}
use chisai_fs.Dir.{Dir}
use chisai_fs.Dir.Entries.{entries, has}
use chisai_fs.Fs.{Filesystem, FileInfo, err_ok}
use chisai_fs.Fs.Create.{dir_mode, new_dir_inode, fs_mkdir}
use chisai_fs.Fs.Layout.{IsIndex}
use chisai_fs.Fs.Path.{fs_get_metadata}
use chisai_fs.Fs.Tree.{image, IsMounted, marked, HasDir, Resolves}
use chisai_fs.Fs.Tree.Mkdir.{fs_mkdir-Resolves}
use chisai_fs.Fs.Tree.Parent.{IsFileName}
use chisai_fs.Fs.Tree.Walk.{fs_get_metadata-Resolves}
use chisai_fs.Inode.{
  Inode, inode_init, inode_set_mode, inode_set_nlink, inode_set_size, inode_add_block,
}
use chisai_fs.Mount.{Mount, Stat, code, chisai_fuse_tostat}
use chisai_fs.Mount.Tree.{chisai_fuse_mkdir, chisai_fuse_getattr}

-- The attributes of an empty directory that has just been made: a directory with the mode asked for,
-- two links, one page of 4096 bytes, and the numbers that stand for owner and group.
pub record IsNewDirStat (idx mode : ℕ) (stat : Stat) : Type 0 where
  pub st_ino : stat.st_ino ≡ idx
  pub st_mode : stat.st_mode ≡ bit_or 0o40000 mode
  pub st_nlink : stat.st_nlink ≡ 2
  pub st_size : stat.st_size ≡ 4096
  pub st_blocks : stat.st_blocks ≡ 9
  pub st_uid : stat.st_uid ≡ 0x00616d69
  pub st_gid : stat.st_gid ≡ 0x0052696e

new_dir_inode-IsNewDirStat :
    (idx mode new : ℕ)
    → IsNewDirStat idx mode
        (chisai_fuse_tostat (record { inode = new_dir_inode mode new; idx = idx }))
unfolding chisai_fuse_tostat new_dir_inode inode_init inode_set_mode inode_set_nlink inode_set_size
    inode_add_block
new_dir_inode-IsNewDirStat idx mode new = record {
  st_ino = refl;
  st_mode = refl;
  st_nlink = refl;
  st_size = refl;
  st_blocks = refl;
  st_uid = refl;
  st_gid = refl;
}

module _ (d : Device) (mt : Mount d) (path : List ℕ) where
  fuse_mkdir_of :
      (mode : ℕ) {fs' : Filesystem d}
      → fs_mkdir d path mode mt.fs ≡ ok err_ok fs'
      → chisai_fuse_mkdir d path mode mt ≡ ok (code err_ok) (record mt { fs = fs' })
  unfolding chisai_fuse_mkdir
  fuse_mkdir_of mode made = rw made

  fuse_getattr_of :
      {info : FileInfo} {fs' : Filesystem d}
      → fs_get_metadata d path mt.fs ≡ ok (err_ok, some info) fs'
      → chisai_fuse_getattr d (some path) true mt
        ≡ ok (code err_ok, some (chisai_fuse_tostat info)) (record mt { fs = fs' })
  unfolding chisai_fuse_getattr
  fuse_getattr_of found = rw found

module _ {d : Device} {size : ℕ} {byte : d.State → ℕ → ℕ} (laws : DeviceLaws d size byte)
    (mt : Mount d) (v : IsMounted size (image byte mt.fs)) where
  -- On a mounted device with a free inode and a free data block, `chisai_fuse_mkdir` of a new name of 1
  -- to 27 bytes, in a directory that a path leads to and that has fewer than 15 entries, returns 0, and
  -- `chisai_fuse_getattr` of the whole path then returns 0 with the attributes of a new
  -- directory: its type and that mode, 2 links, 4096 bytes in 9 blocks, the numbers of owner and group,
  -- and the number of an inode that was free before.
  pub chisai_fuse_getattr-chisai_fuse_mkdir :
      (parent_path name : List ℕ) (p block free free_block mode : ℕ) (parent_inode : Inode)
      (dir : Dir)
      → IsFileName name
      → Resolves (image byte mt.fs) parent_path p parent_inode
      → get_elem? parent_inode.direct_blks 0 ≡ some block
      → HasDir (image byte mt.fs) block dir
      → dir.size < 15
      → has name (entries dir) ≡ false
      → IsIndex mt.fs.sb free
      → marked (image byte mt.fs) Kind.inodes free ≡ 0
      → IsIndex mt.fs.sb free_block
      → marked (image byte mt.fs) Kind.blocks free_block ≡ 0
      → dir_mode mode < 2 ^ 32
      → (idx : ℕ) × (stat : Stat) × (mt' mt'' : Mount d) × (chisai_fuse_mkdir d
            (parent_path ++ (b'/' ∷ name))
            mode
            mt
          ≡ ok (code err_ok) mt')
        × (chisai_fuse_getattr d (some (parent_path ++ (b'/' ∷ name))) true mt'
            ≡ ok (code err_ok, some stat) mt'')
        × IsNewDirStat idx mode stat
        × (marked (image byte mt.fs) Kind.inodes idx ≡ 0)
  chisai_fuse_getattr-chisai_fuse_mkdir parent_path name p block free free_block mode parent_inode
        dir n r at there room missing i unused i' unused' small =
      let path = parent_path ++ (b'/' ∷ name) in
      let (idx, new, fs', made, was_free, block_free, leads, first, has_dir, grows, v') =
        fs_mkdir-Resolves laws mt.fs v parent_path name p block free free_block mode parent_inode
          dir n r at there room missing i unused i' unused' small in
      let (s', found, same) =
        fs_get_metadata-Resolves laws fs' v' path idx (new_dir_inode mode new) leads in
      (
        idx,
        chisai_fuse_tostat (record { inode = new_dir_inode mode new; idx = idx }),
        record mt { fs = fs' },
        record mt { fs = record fs' { device = s' } },
        fuse_mkdir_of d mt path mode made,
        fuse_getattr_of d (record mt { fs = fs' }) path found,
        new_dir_inode-IsNewDirStat idx mode new,
        was_free,
      )
