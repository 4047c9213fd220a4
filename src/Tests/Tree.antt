-- ===== src/Tests/Tree.antt =====
-- Paths on the mounted disk of one group.
use chisai_fs.Base.{
  ℕ, get_elem?, set, drop, replicate, List, false, ◌^◌, ◌≡◌, refl, true, none, some, [], ◌∷◌, ◌++◌,
  arith,
}
use chisai_fs.Base.Outcome.{ok, undefined, aborted}
use chisai_fs.Base.CString.{same_string, c_str}
use chisai_fs.BlockGroup.{Kind}
use chisai_fs.Device.Syscalls.{MemoryFile, memory_byte}
use chisai_fs.Dir.Entries.{has, lookup}
use chisai_fs.Fs.{Filesystem, FileInfo, err_ok, eexist, enoent}
use chisai_fs.Fs.Create.{fs_create_file, fs_mkdir, fs_rename_file, fs_remove_file, new_dir_inode}
use chisai_fs.Dir.{dir_init}
use chisai_fs.Fs.Tree.Errors.{fs_create_file-eexist, fs_rename_file-enoent}
use chisai_fs.Fs.Tree.Full.{fs_create_file-HasDir_full}
use chisai_fs.Fs.Tree.Mkdir.{fs_mkdir-Resolves}
use chisai_fs.Fs.File.{fs_truncate_file}
use chisai_fs.Fs.Path.{fs_get_metadata}
use chisai_fs.Fs.Tree.{image, IsMounted, marked, HasInode, HasDir, Resolves}
use chisai_fs.Fs.Tree.Grows.{Grows}
use chisai_fs.Fs.Tree.Make.{new_file, fs_create_file-Resolves}
use chisai_fs.Fs.Tree.Walk.{fs_get_metadata-Resolves}
use chisai_fs.Fs.Truncate.{fs_truncate_file-full_blocks}
use chisai_fs.Fs.Listing.{names_of}
use chisai_fs.Mount.{Stat, Mount, file, dir, code}
use chisai_fs.Mount.Listing.{filled_names, chisai_fuse_readdir-names_of}
use chisai_fs.Mount.Made.{IsNewDirStat, chisai_fuse_getattr-chisai_fuse_mkdir}
use chisai_fs.Mount.Tree.{chisai_fuse_mkdir, chisai_fuse_getattr, Filled, chisai_fuse_readdir}
use chisai_fs.Mount.Dangling.{chisai_fuse_reopen_dangling}
use chisai_fs.Mount.Open.{chisai_fuse_read, chisai_fuse_write, chisai_fuse_fgetattr}
use chisai_fs.Tests.Disk.{disk, disk_laws, file_inode}
use chisai_fs.Tests.Mounted.{
  small_fs, small_root, small-IsMounted, small-HasDir, small-Resolves, name_a, name_a-IsFileName,
  name_b, name_b-IsFileName, fs_of, fs_of-IsMounted, fs_of-HasDir, fs_of-Resolves,
}
use chisai_fs.Tests.Names.{names, names-IsValid, full_names, full_names-IsValid}

fs_get_metadata-Resolves_example :
    (s' : MemoryFile) × (fs_get_metadata disk [] small_fs
      ≡ ok
          (err_ok, some (record { inode = small_root; idx = 2 }))
          (record small_fs { device = s' }))
    × (memory_byte s' ≡ memory_byte small_fs.device)
fs_get_metadata-Resolves_example =
    fs_get_metadata-Resolves disk_laws small_fs small-IsMounted [] 2 small_root small-Resolves

fs_create_file-Resolves_example :
    (idx : ℕ) × (fs' : Filesystem disk) × (fs_create_file disk
        ([] ++ (b'/' ∷ name_b))
        0o100644
        small_fs
      ≡ ok (err_ok, some (record { inode = new_file 0o100644; idx = idx })) fs')
    × (marked (image memory_byte small_fs) Kind.inodes idx ≡ 0)
    × Resolves (image memory_byte fs') ([] ++ (b'/' ∷ name_b)) idx (new_file 0o100644)
    × Grows (image memory_byte small_fs) (image memory_byte fs')
    × IsMounted (2 ^ 23) (image memory_byte fs')
    × ((image memory_byte fs').sb ≡ (image memory_byte small_fs).sb)
unfolding has same_string c_str
fs_create_file-Resolves_example =
    fs_create_file-Resolves disk_laws small_fs small-IsMounted [] name_b 2 1 3 0o100644 small_root
      names name_b-IsFileName small-Resolves refl small-HasDir (omega arith) refl
      (omega arith, omega arith) refl (omega arith)

abbrev reopening : Mount disk
reopening = record {
  fs = small_fs;
  device_fd = 0;
  fds = 3 ∷ [];
  reopen = true;
  objects = some (file (record { inode = file_inode; idx = 3 })) ∷ [];
}

chisai_fuse_reopen_dangling_example :
    (chisai_fuse_read disk (some []) (0 ∷ []) 1 0 0 reopening ≡ undefined)
    × (chisai_fuse_write disk (some []) (0 ∷ []) 1 0 0 reopening ≡ undefined)
    × (chisai_fuse_fgetattr disk (some []) true (some 0) reopening ≡ undefined)
chisai_fuse_reopen_dangling_example =
    chisai_fuse_reopen_dangling disk reopening [] 0 refl refl
      (fs_get_metadata-Resolves disk_laws small_fs small-IsMounted [] 2 small_root small-Resolves).1
      (0 ∷ []) 1 0

-- A file of 512 bytes in its one block.
abbrev full_file : FileInfo
full_file = record { inode = record file_inode { size = 512; blkcnt = 2 }; idx = 3 }

fs_truncate_file-full_blocks_example : fs_truncate_file disk full_file 100 small_fs ≡ aborted
fs_truncate_file-full_blocks_example =
    fs_truncate_file-full_blocks disk full_file 1 100 small_fs refl refl refl refl (omega arith)

fs_mkdir-Resolves_example :
    (idx new : ℕ) × (fs' : Filesystem disk) × (fs_mkdir disk ([] ++ (b'/' ∷ name_b)) 0o755 small_fs
      ≡ ok err_ok fs')
    × (marked (image memory_byte small_fs) Kind.inodes idx ≡ 0)
    × (marked (image memory_byte small_fs) Kind.blocks new ≡ 0)
    × Resolves (image memory_byte fs') ([] ++ (b'/' ∷ name_b)) idx (new_dir_inode 0o755 new)
    × (get_elem? (new_dir_inode 0o755 new).direct_blks 0 ≡ some new)
    × HasDir (image memory_byte fs') new dir_init
    × Grows (image memory_byte small_fs) (image memory_byte fs')
    × IsMounted (2 ^ 23) (image memory_byte fs')
unfolding has same_string c_str
fs_mkdir-Resolves_example =
    fs_mkdir-Resolves disk_laws small_fs small-IsMounted [] name_b 2 1 3 2 0o755 small_root names
      name_b-IsFileName small-Resolves refl small-HasDir (omega arith) refl
      (omega arith, omega arith) refl (omega arith, omega arith) refl (omega arith)

fs_create_file-eexist_example :
    (s' : MemoryFile) × (fs_create_file disk ([] ++ (b'/' ∷ name_a)) 0o100644 small_fs
      ≡ ok (eexist, none) (record small_fs { device = s' }))
    × (fs_mkdir disk ([] ++ (b'/' ∷ name_a)) 0o100644 small_fs
        ≡ ok eexist (record small_fs { device = s' }))
    × (memory_byte s' ≡ memory_byte small_fs.device)
unfolding lookup same_string c_str
fs_create_file-eexist_example =
    fs_create_file-eexist disk_laws small_fs small-IsMounted [] name_a 2 1 0o100644 small_root names
      name_a-IsFileName small-Resolves refl small-HasDir (omega arith)

fs_rename_file-enoent_example :
    (s' : MemoryFile) × (fs_rename_file disk ([] ++ (b'/' ∷ name_b)) [] small_fs
      ≡ ok enoent (record small_fs { device = s' }))
    × (memory_byte s' ≡ memory_byte small_fs.device)
    × (fs_remove_file disk ([] ++ (b'/' ∷ name_b)) small_fs ≡ aborted)
unfolding lookup same_string c_str
fs_rename_file-enoent_example =
    fs_rename_file-enoent disk_laws small_fs small-IsMounted [] name_b [] 2 1 small_root names
      name_b-IsFileName small-Resolves refl small-HasDir refl

fs_create_file-HasDir_full_example :
    (idx : ℕ) × (fs' : Filesystem disk) × (fs_create_file disk
        ([] ++ (b'/' ∷ name_b))
        0o100644
        (fs_of full_names)
      ≡ ok (err_ok, some (record { inode = new_file 0o100644; idx = idx })) fs')
    × (marked (image memory_byte (fs_of full_names)) Kind.inodes idx ≡ 0)
    × HasInode (image memory_byte fs') idx (new_file 0o100644)
    × HasDir (image memory_byte fs') 1 full_names
unfolding lookup same_string c_str
fs_create_file-HasDir_full_example =
    fs_create_file-HasDir_full disk_laws (fs_of full_names)
      (fs_of-IsMounted full_names full_names-IsValid) [] name_b 2 1 3 0o100644 small_root full_names
      name_b-IsFileName (fs_of-Resolves full_names full_names-IsValid) refl
      (fs_of-HasDir full_names full_names-IsValid) refl refl (omega arith, omega arith) refl
      (omega arith)

-- The root directory is open.
abbrev listing : Mount disk
listing = record {
  fs = small_fs;
  device_fd = 0;
  fds = 3 ∷ [];
  reopen = false;
  objects = some (dir (record { dir = names; pos = 0 })) ∷ [];
}

chisai_fuse_readdir-names_of_example :
    (filled : List Filled) × (chisai_fuse_readdir disk
        (some [])
        true
        (some 0)
        (replicate 28 0)
        listing
      ≡ ok
          (code err_ok, filled)
          (record listing {
            objects = set listing.objects 0 (some (dir (record { dir = names; pos = 3 })));
          }))
    × (filled_names filled ≡ drop 0 (names_of names))
chisai_fuse_readdir-names_of_example =
    chisai_fuse_readdir-names_of disk listing 0 (record { dir = names; pos = 0 }) []
      (replicate 28 0) refl names-IsValid (omega arith) (omega arith)

chisai_fuse_getattr-chisai_fuse_mkdir_example :
    (idx : ℕ) × (stat : Stat) × (mt' mt'' : Mount disk) × (chisai_fuse_mkdir disk
        ([] ++ (b'/' ∷ name_b))
        0o755
        listing
      ≡ ok (code err_ok) mt')
    × (chisai_fuse_getattr disk (some ([] ++ (b'/' ∷ name_b))) true mt'
        ≡ ok (code err_ok, some stat) mt'')
    × IsNewDirStat idx 0o755 stat
    × (marked (image memory_byte small_fs) Kind.inodes idx ≡ 0)
unfolding has same_string c_str
chisai_fuse_getattr-chisai_fuse_mkdir_example =
    chisai_fuse_getattr-chisai_fuse_mkdir disk_laws listing small-IsMounted [] name_b 2 1 3 2 0o755
      small_root names name_b-IsFileName small-Resolves refl small-HasDir (omega arith) refl
      (omega arith, omega arith) refl (omega arith, omega arith) refl (omega arith)
