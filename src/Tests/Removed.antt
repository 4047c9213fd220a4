-- ===== src/Tests/Removed.antt =====
-- The disk of one group with the inode of "a" on it, which is removed.
use mathlib.Core.Path.{subst}
use chisai_fs.Base.{◌^◌, ◌≡◌, refl, sym, ap, inr, [], ◌∷◌, ◌++◌, arith}
use chisai_fs.Base.CString.{same_string, c_str}
use chisai_fs.Base.Outcome.{ok}
use chisai_fs.BlockGroup.{BlockGroup, Kind}
use chisai_fs.BlockGroup.Valid.{IsTable}
use chisai_fs.Device.Syscalls.{MemoryFile, memory, memory_byte, memory-KernelLaws}
use chisai_fs.Dir.Entries.{lookup}
use chisai_fs.Fs.{Filesystem, inode_offset, err_ok}
use chisai_fs.Fs.Create.{fs_remove_file}
use chisai_fs.Fs.Path.{tokens}
use chisai_fs.Fs.Tree.{Image, image, IsMounted, HasInode, HasDir, Resolves, here}
use chisai_fs.Fs.Tree.Removed.{IsRemoved, fs_remove_file-IsRemoved}
use chisai_fs.Fs.Tree.Writes.{Keeps, with_groups, with_inode, with_inode-Keeps, with_inode-HasInode}
use chisai_fs.Inode.{inode_encode}
use chisai_fs.Inode.Laws.{inode_encode-IsBytes, length-inode_encode}
use chisai_fs.Tests.Disk.{disk, disk_laws, file_inode, file_inode-IsValid}
use chisai_fs.Tests.Group.{single, byte-IsValid}
use chisai_fs.Tests.Mounted.{
  small_super, small_group, small_root, small_fs, small-IsMounted, small-HasDir, small-HasRoot,
  name_a, name_a-IsFileName,
}
use chisai_fs.Tests.Names.{names}

-- The inodes 1, 2 and 7 are taken.
abbrev file_group : BlockGroup
file_group = record small_group { inode_bitmap = record { size = 1; inner = 67 ∷ [] } }

file_group-IsTable : (k : Kind) → IsTable 8 k file_group
file_group-IsTable Kind.inodes = record {
  valid = byte-IsValid 67 (omega arith);
  sized = refl;
  next_free = inr (omega arith, omega arith, refl);
}
file_group-IsTable Kind.blocks = record {
  valid = byte-IsValid 5 (omega arith);
  sized = refl;
  next_free = inr (omega arith, omega arith, refl);
}

abbrev with_file : MemoryFile
with_file =
    (memory.sys_write (memory.lseek small_fs.device (inode_offset small_super 6144 7))
      (inode_encode file_inode)).1

abbrev pub file_fs : Filesystem disk
file_fs = record {
  sb = small_super;
  blk_grps = file_group ∷ [];
  device = with_file;
  blkgrp_size = 6144;
}

-- The image before the bit is set, and behind it.
abbrev unmarked : Image
unmarked = with_inode (image memory_byte small_fs) 7 file_inode

abbrev pub file_image : Image
file_image = with_groups unmarked (file_group ∷ [])

pub file_image_eq : image memory_byte file_fs ≡ file_image
unfolding inode_offset
file_image_eq =
    ap (λ f. record file_image { bytes = f })
      ((memory-KernelLaws (2 ^ 23)).write_data
        (memory.lseek small_fs.device (inode_offset small_super 6144 7)) (inode_encode file_inode)
        (omega (arith, length-inode_encode file_inode refl)) (inode_encode-IsBytes file_inode))

pub file_image-IsMounted : IsMounted (2 ^ 23) file_image
file_image-IsMounted = record {
  laid_out = small-IsMounted.laid_out;
  groups = single file_group refl refl file_group-IsTable;
  all_groups = refl;
  room = small-IsMounted.room;
  wide = small-IsMounted.wide;
}

unmarked-Keeps : Keeps (image memory_byte small_fs) unmarked
unmarked-Keeps =
    with_inode-Keeps (2 ^ 23) (image memory_byte small_fs) small-IsMounted 7 file_inode
      (omega arith, omega arith) refl file_inode-IsValid

pub file_image-HasRoot : HasInode file_image 2 small_root
file_image-HasRoot =
    let h = unmarked-Keeps.inodes 2 small_root small-HasRoot in
    record { index = h.index; used = refl; stored = h.stored; valid = h.valid }

pub file_image-HasDir : HasDir file_image 1 names
file_image-HasDir =
    let h = unmarked-Keeps.dirs 1 names small-HasDir in
    record { index = h.index; used = refl; stored = h.stored; valid = h.valid }

pub file_image-HasFile : HasInode file_image 7 file_inode
file_image-HasFile =
    with_inode-HasInode (2 ^ 23) (with_groups (image memory_byte small_fs) (file_group ∷ []))
      (record {
        laid_out = small-IsMounted.laid_out;
        groups = file_image-IsMounted.groups;
        all_groups = refl;
        room = small-IsMounted.room;
        wide = small-IsMounted.wide;
      })
      7 file_inode (omega arith, omega arith) refl file_inode-IsValid

file_image-Resolves : Resolves file_image [] 2 small_root
unfolding tokens
file_image-Resolves = record { root = small_root; has_root = file_image-HasRoot; leads = here }

fs_remove_file-IsRemoved_example :
    (fs' : Filesystem disk) × (fs_remove_file disk ([] ++ (b'/' ∷ name_a)) file_fs ≡ ok err_ok fs')
    × IsRemoved (2 ^ 23) (image memory_byte file_fs) (image memory_byte fs') name_a 1 7 3 names
unfolding lookup same_string c_str
fs_remove_file-IsRemoved_example =
    fs_remove_file-IsRemoved disk_laws file_fs
      (subst (IsMounted (2 ^ 23)) (sym file_image_eq) file_image-IsMounted) [] name_a 2 1 7 3
      small_root file_inode names name_a-IsFileName
      (subst (λ x. Resolves x [] 2 small_root) (sym file_image_eq) file_image-Resolves) refl
      (subst (λ x. HasDir x 1 names) (sym file_image_eq) file_image-HasDir) refl
      (subst (λ x. HasInode x 7 file_inode) (sym file_image_eq) file_image-HasFile) refl
      (omega arith, omega arith) (λ e. omega arith) (omega arith) (omega arith)
