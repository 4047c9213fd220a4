-- ===== src/Tests/Content.antt =====
-- Three bytes across the end of the first block of a file.
use mathlib.Core.Path.{subst}
use chisai_fs.Base.{
  ℕ, ◌+◌, ◌^◌, ◌≤◌, ◌<◌, ◌≡◌, ◌≢◌, ◌⊎◌, refl, sym, inl, inr, Bool-cases, ==_iff, ◌/◌, true, false,
  List, some, ◌++◌, [], ◌∷◌, arith, ◌==◌, if◌then◌else◌, replicate, take, passes, passes_at,
  IsBytes,
}
use chisai_fs.Base.Outcome.{ok}
use chisai_fs.Device.Syscalls.{memory_byte}
use chisai_fs.Fs.{Filesystem, FileInfo, err_ok}
use chisai_fs.Fs.Content.{nth_block, address, HasByte, IsFile}
use chisai_fs.Fs.Content.Back.{fs_read_file-fs_write_file}
use chisai_fs.Fs.Content.Read.{read_size, IsRead, fs_read_file-IsRead}
use chisai_fs.Fs.Content.Room.{IsFull}
use chisai_fs.Fs.Content.Save.{SavesFile, fs_write_file-SavesFile}
use chisai_fs.Fs.Content.Truncated.{IsReleasable, IsTruncated, fs_truncate_file-IsTruncated}
use chisai_fs.Fs.File.{fs_read_file, fs_write_file, fs_truncate_file}
use chisai_fs.Fs.Tree.Removed.{HasNext}
use chisai_fs.Inode.{Inode}
use chisai_fs.Fs.Layout.{IsIndex}
use chisai_fs.Fs.Tree.{image, IsMounted, HasInode, marked}
use chisai_fs.BlockGroup.{Kind}
use chisai_fs.Tests.Disk.{disk, disk_laws, file_inode, file_inode-IsValid}
use chisai_fs.Base.CString.{same_string, c_str}
use chisai_fs.Dir.Entries.{has}
use chisai_fs.Mount.{Mount, count}
use chisai_fs.Mount.Contents.{chisai_fuse_read-chisai_fuse_create}
use chisai_fs.Mount.Open.{chisai_fuse_create, chisai_fuse_write, chisai_fuse_read}
use chisai_fs.Tests.Mounted.{
  small_fs, small_root, small-IsMounted, small-HasDir, small-Resolves, name_b, name_b-IsFileName,
}
use chisai_fs.Tests.Names.{names}
use chisai_fs.Tests.Removed.{
  file_fs, file_image, file_image_eq, file_image-IsMounted, file_image-HasFile,
}

-- The file has one block.
only_block : (n : ℕ) → n < 12 → ((n == 0) ≡ false) → nth_block file_inode n ≡ 0
unfolding passes
only_block n lt other =
    let none_there : (if n == 0 then true else (nth_block file_inode n == 0)) ≡ true =
      passes_at 12 (λ i. if i == 0 then true else (nth_block file_inode i == 0)) n refl lt in
    ground (arith, none_there)

file_image-IsFile : IsFile file_image file_inode
file_image-IsFile = record {
  valid = file_inode-IsValid;
  blocks = λ n lt there. the_block n lt there (Bool-cases (n == 0));
  apart = λ n n' lt lt' ne there same.
      one_place n n' ne (Bool-cases (n == 0)) (Bool-cases (n' == 0)) lt lt' there same;
}
  where
    the_block :
        (n : ℕ)
        → n < 12
        → 1 ≤ nth_block file_inode n
        → ((n == 0) ≡ true) ⊎ ((n == 0) ≡ false)
        → IsIndex file_image.sb (nth_block file_inode n)
          × (marked file_image Kind.blocks (nth_block file_inode n) ≡ 1)
    the_block n lt there (inl e) =
        subst
          (λ i.
            IsIndex file_image.sb (nth_block file_inode i)
            × (marked file_image Kind.blocks (nth_block file_inode i) ≡ 1))
          (sym ((==_iff n 0).0 e)) ((omega arith, omega arith), refl)
    the_block n lt there (inr e) = absurd (omega (arith, only_block n lt e))

    one_place :
        (n n' : ℕ)
        → n ≢ n'
        → ((n == 0) ≡ true) ⊎ ((n == 0) ≡ false)
        → ((n' == 0) ≡ true) ⊎ ((n' == 0) ≡ false)
        → n < 12
        → n' < 12
        → 1 ≤ nth_block file_inode n
        → nth_block file_inode n ≢ nth_block file_inode n'
    one_place n n' ne (inl e) (inl e') lt lt' there same = ne (ground (arith, e, e'))
    one_place n n' ne (inl e) (inr e') lt lt' there same =
        absurd (omega (arith, only_block n' lt' e', same))
    one_place n n' ne (inr e) p' lt lt' there same = absurd (omega (arith, only_block n lt e))

mounted_file : IsMounted (2 ^ 23) (image memory_byte file_fs)
mounted_file = subst (IsMounted (2 ^ 23)) (sym file_image_eq) file_image-IsMounted

content_of_file : IsFile (image memory_byte file_fs) file_inode
content_of_file = subst (λ m. IsFile m file_inode) (sym file_image_eq) file_image-IsFile

file_on_disk : HasInode (image memory_byte file_fs) 7 file_inode
file_on_disk = subst (λ m. HasInode m 7 file_inode) (sym file_image_eq) file_image-HasFile

abbrev opened : FileInfo
opened = record { inode = file_inode; idx = 7 }

abbrev three : List ℕ
three = 1 ∷ 2 ∷ 3 ∷ []

three-IsBytes : IsBytes three
three-IsBytes = (omega arith, (omega arith, (omega arith, tt)))

fs_write_file-SavesFile_example :
    SavesFile disk_laws file_fs opened three 3 510 9 mounted_file refl content_of_file file_on_disk
      (omega arith)
fs_write_file-SavesFile_example =
    fs_write_file-SavesFile disk_laws file_fs opened three 3 510 9 mounted_file refl content_of_file
      file_on_disk (omega arith) (omega arith) three-IsBytes

fs_read_file-fs_write_file_example :
    (total : ℕ) × (file' : FileInfo) × (fs' fs'' : Filesystem disk) × (out' : List ℕ)
    × (fs_write_file disk opened three 3 510 file_fs ≡ ok (total, file') fs')
    × ((total ≡ 3) ⊎ ((total ≤ 3) × IsFull (image memory_byte fs')))
    × (fs_read_file disk file' (replicate 3 0) total 510 fs' ≡ ok (err_ok, total, out') fs'')
    × (take total out' ≡ take total three)
fs_read_file-fs_write_file_example =
    fs_read_file-fs_write_file disk_laws file_fs opened three (replicate 3 0) 3 510 9 mounted_file
      refl content_of_file file_on_disk (omega arith) (omega arith) three-IsBytes (omega arith)

-- Five bytes of the first block.
first_bytes :
    (i : ℕ)
    → i < read_size 9 file_inode
    → HasByte
        (image memory_byte file_fs)
        file_inode
        (0 + i)
        (memory_byte file_fs.device (address (image memory_byte file_fs) file_inode (0 + i)))
first_bytes i lt =
    let first : (0 + i) / 512 ≡ 0 = omega arith in
    record {
      direct = omega (arith, first);
      there = subst (λ n. 1 ≤ nth_block file_inode n) (sym first) (omega arith);
      stored = refl;
    }

fs_read_file-IsRead_example :
    (buf' : List ℕ) × (s' : disk.State) × (fs_read_file disk opened (replicate 6 7) 9 0 file_fs
      ≡ ok (err_ok, read_size 9 file_inode, buf') (record file_fs { device = s' }))
    × (memory_byte s' ≡ memory_byte file_fs.device)
    × IsRead
        (read_size 9 file_inode)
        (λ i. memory_byte file_fs.device (address (image memory_byte file_fs) file_inode (0 + i)))
        (replicate 6 7)
        buf'
fs_read_file-IsRead_example =
    fs_read_file-IsRead disk_laws file_fs opened (replicate 6 7) 9 0 9
      (λ i. memory_byte file_fs.device (address (image memory_byte file_fs) file_inode (0 + i)))
      mounted_file content_of_file refl first_bytes (omega arith)

abbrev quiet_mount : Mount disk
quiet_mount = record { fs = small_fs; device_fd = 0; fds = 3 ∷ []; reopen = false; objects = [] }

chisai_fuse_read-chisai_fuse_create_example :
    (fh total : ℕ) × (mt' mt'' mt''' : Mount disk) × (out' : List ℕ) × (chisai_fuse_create disk
        ([] ++ (b'/' ∷ name_b))
        0o100644
        quiet_mount
      ≡ ok (err_ok, fh) mt')
    × (chisai_fuse_write disk (some ([] ++ (b'/' ∷ name_b))) three 3 510 fh mt'
        ≡ ok (count total, fh) mt'')
    × ((total ≡ 3) ⊎ ((total ≤ 3) × IsFull (image memory_byte mt''.fs)))
    × (chisai_fuse_read disk (some ([] ++ (b'/' ∷ name_b))) (replicate 3 0) total 510 fh mt''
        ≡ ok (count total, out', fh) mt''')
    × (take total out' ≡ take total three)
unfolding has same_string c_str
chisai_fuse_read-chisai_fuse_create_example =
    chisai_fuse_read-chisai_fuse_create disk_laws quiet_mount small-IsMounted [] name_b 2 1 3
      0o100644 small_root names three (replicate 3 0) 3 510 9 refl name_b-IsFileName small-Resolves
      refl small-HasDir (omega arith) refl (omega arith, omega arith) refl (omega arith) refl
      (omega arith) (omega arith) three-IsBytes (omega arith)

-- The one block of the file is released.
the_block-IsReleasable : IsReleasable 0 1 (image memory_byte file_fs) file_inode
the_block-IsReleasable n low high =
    let first : n ≡ 0 = omega arith in
    subst
      (λ i.
        (1 ≤ nth_block file_inode i)
        × HasNext (image memory_byte file_fs) Kind.blocks (nth_block file_inode i))
      (sym first) (omega arith, omega arith)

fs_truncate_file-IsTruncated_example :
    (inode : Inode) × (fs' : Filesystem disk) × (fs_truncate_file disk opened 2 file_fs
      ≡ ok (err_ok, record opened { inode = inode }) fs')
    × (inode.size ≡ 2)
    × IsTruncated
        (2 ^ 23)
        0
        1
        7
        (image memory_byte file_fs)
        file_inode
        (image memory_byte fs')
        inode
fs_truncate_file-IsTruncated_example =
    fs_truncate_file-IsTruncated disk_laws file_fs opened 2 1 mounted_file content_of_file
      file_on_disk (omega arith) refl (omega arith) the_block-IsReleasable
