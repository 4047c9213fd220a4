-- ===== src/Tests/Store.antt =====
-- An inode and a directory saved again on the disk of one group that has the inode of "a" on it.
use mathlib.Core.Path.{subst}
use chisai_fs.Base.{ℕ, ◌^◌, ◌≡◌, ◌≢◌, refl, sym, arith}
use chisai_fs.Base.Outcome.{ok}
use chisai_fs.Device.Syscalls.{MemoryFile, memory_byte}
use chisai_fs.Dir.{Dir}
use chisai_fs.Fs.{fs_save_inode, fs_save_dir}
use chisai_fs.Fs.Tree.{image, IsMounted, HasInode, HasDir}
use chisai_fs.Fs.Tree.Stored.{
  FindsInode, FindsDir, fs_find_inode-fs_save_inode, fs_find_dir-fs_save_dir,
}
use chisai_fs.Inode.{Inode}
use chisai_fs.Tests.Disk.{disk, disk_laws, file_inode, file_inode-IsValid}
use chisai_fs.Tests.Names.{names, names-IsValid}
use chisai_fs.Tests.Removed.{file_fs, file_image_eq, file_image-IsMounted}

running-IsMounted : IsMounted (2 ^ 23) (image memory_byte file_fs)
running-IsMounted = subst (IsMounted (2 ^ 23)) (sym file_image_eq) file_image-IsMounted

fs_find_inode-fs_save_inode_example :
    (s' : MemoryFile) × (fs_save_inode disk file_inode 2 file_fs
      ≡ ok tt (record file_fs { device = s' }))
    × FindsInode disk (record file_fs { device = s' }) 2 file_inode
    × ((j : ℕ) (other : Inode)
        → j ≢ 2
        → HasInode (image memory_byte file_fs) j other
        → FindsInode disk (record file_fs { device = s' }) j other)
    × ((block : ℕ) (dir : Dir)
        → HasDir (image memory_byte file_fs) block dir
        → FindsDir disk (record file_fs { device = s' }) block dir)
fs_find_inode-fs_save_inode_example =
    fs_find_inode-fs_save_inode disk_laws file_fs 2 file_inode running-IsMounted
      (omega arith, omega arith) refl file_inode-IsValid

fs_find_dir-fs_save_dir_example :
    (s' : MemoryFile) × (fs_save_dir disk names 3 file_fs ≡ ok tt (record file_fs { device = s' }))
    × FindsDir disk (record file_fs { device = s' }) 3 names
    × ((j : ℕ) (other : Dir)
        → j ≢ 3
        → HasDir (image memory_byte file_fs) j other
        → FindsDir disk (record file_fs { device = s' }) j other)
    × ((idx : ℕ) (inode : Inode)
        → HasInode (image memory_byte file_fs) idx inode
        → FindsInode disk (record file_fs { device = s' }) idx inode)
fs_find_dir-fs_save_dir_example =
    fs_find_dir-fs_save_dir disk_laws file_fs 3 names running-IsMounted (omega arith, omega arith)
      refl names-IsValid
