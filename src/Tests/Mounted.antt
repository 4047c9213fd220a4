-- ===== src/Tests/Mounted.antt =====
-- A mounted disk of one group of 8 inodes and 8 data blocks, whose root directory has the file "a".
use mathlib.Core.Path.{subst}
use chisai_fs.Base.{
  ℕ, ◌^◌, ◌≡◌, refl, sym, ap, ◌∙◌, inr, List, [], ◌∷◌, arith, replicate, All-replicate,
}
use chisai_fs.BlockGroup.{BlockGroup, Kind}
use chisai_fs.BlockGroup.Valid.{IsTable}
use chisai_fs.Device.Laws.{patch}
use chisai_fs.Device.Syscalls.{MemoryFile, memory, memory_byte, memory-KernelLaws}
use chisai_fs.Dir.{Dir}
use chisai_fs.Dir.Entries
use chisai_fs.Dir.Bytes.{length-dir_encode, dir_encode-IsBytes}
use chisai_fs.Dir.Store.{dir_encode}
use chisai_fs.Fs.{Filesystem, inode_offset, data_offset}
use chisai_fs.Fs.Path.{tokens}
use chisai_fs.Fs.Tree.{Image, image, IsMounted, HasInode, HasDir, Resolves, here}
use chisai_fs.Fs.Tree.Parent.{IsFileName}
use chisai_fs.Fs.Tree.Saves.{with_bytes-IsMounted}
use chisai_fs.Fs.Tree.DirWrites.{with_dir-inodes, with_dir-HasDir}
use chisai_fs.Fs.Tree.Writes.{with_inode, with_dir, with_inode-HasInode}
use chisai_fs.Inode.{Inode, inode_encode}
use chisai_fs.Inode.Laws
use chisai_fs.Inode.Laws.{IsWord, inode_encode-IsBytes, length-inode_encode}
use chisai_fs.Superblock.{Superblock}
use chisai_fs.Tests.Disk.{disk, zeros_file}
use chisai_fs.Tests.Group.{single, byte-IsValid}
use chisai_fs.Tests.Names.{names, names-IsValid}

abbrev pub small_super : Superblock
small_super = record {
  magic = 0x52696B6F;
  block_size = 512;
  blocks_cnt = 8;
  inodes_cnt = 8;
  free_blocks = 0;
  free_inodes = 0;
  groups = 1;
  data_block_per_groups = 8;
}

-- The inodes 1 and 2 are taken, and the data blocks 1 and 3.
abbrev pub small_group : BlockGroup
small_group = record {
  groups = 1;
  blk_inode_num = 8;
  blkgrp_size = 6144;
  data_bitmap = record { size = 1; inner = 5 ∷ [] };
  inode_bitmap = record { size = 1; inner = 3 ∷ [] };
  next_data = 2;
  next_inode = 3;
}

small_group-IsTable : (k : Kind) → IsTable 8 k small_group
small_group-IsTable Kind.inodes = record {
  valid = byte-IsValid 3 (omega arith);
  sized = refl;
  next_free = inr (omega arith, omega arith, refl);
}
small_group-IsTable Kind.blocks = record {
  valid = byte-IsValid 5 (omega arith);
  sized = refl;
  next_free = inr (omega arith, omega arith, refl);
}

abbrev pub small_root : Inode
small_root = record {
  mode = 0o40777;
  nlink = 2;
  blkcnt = 0;
  size = 0;
  direct_blks = 1 ∷ replicate 11 0;
  indirect_blk = 0;
  double_indirect_blk = 0;
}

small_root-IsValid : Laws.IsValid small_root
small_root-IsValid = record {
  mode = omega arith;
  nlink = omega arith;
  blkcnt = omega arith;
  size = omega arith;
  twelve = refl;
  direct_blks = (omega arith, All-replicate IsWord 11 0 (omega arith));
  indirect_blk = omega arith;
  double_indirect_blk = omega arith;
}

abbrev blank_image : Image
blank_image = record {
  sb = small_super;
  total = 6144;
  blk_grps = small_group ∷ [];
  bytes = memory_byte zeros_file;
}

pub blank_image-IsMounted : IsMounted (2 ^ 23) blank_image
blank_image-IsMounted = record {
  laid_out = record {
    positive = omega arith;
    some_blocks = omega arith;
    whole = refl;
    group_fits = omega arith;
    disk_fits = omega arith;
    indices_fit = omega arith;
  };
  groups = single small_group refl refl small_group-IsTable;
  all_groups = refl;
  room = omega arith;
  wide = omega arith;
}

-- The root inode, then its directory in data block 1.
abbrev with_root : MemoryFile
with_root =
    (memory.sys_write (memory.lseek zeros_file (inode_offset small_super 6144 2))
      (inode_encode small_root)).1

abbrev pub file_of : Dir → MemoryFile
file_of dir =
    (memory.sys_write (memory.lseek with_root (data_offset small_super 6144 1)) (dir_encode dir)).1

abbrev pub fs_of : Dir → Filesystem disk
fs_of dir = record {
  sb = small_super;
  blk_grps = small_group ∷ [];
  device = file_of dir;
  blkgrp_size = 6144;
}

abbrev root_image : Image
root_image = with_inode blank_image 2 small_root

root_image-IsMounted : IsMounted (2 ^ 23) root_image
root_image-IsMounted =
    with_bytes-IsMounted (2 ^ 23) blank_image root_image.bytes blank_image-IsMounted

-- The disk with a directory in the block of the root.
module _ (dir : Dir) (valid : Entries.IsValid dir) where
  abbrev image_of : Image
  image_of = with_dir root_image 1 dir

  image_of_eq : image memory_byte (fs_of dir) ≡ image_of
  unfolding inode_offset data_offset
  image_of_eq =
      let laws = memory-KernelLaws (2 ^ 23) in
      let inode =
        laws.write_data (memory.lseek zeros_file (inode_offset small_super 6144 2))
          (inode_encode small_root) (omega (arith, length-inode_encode small_root refl))
          (inode_encode-IsBytes small_root) in
      let written =
        laws.write_data (memory.lseek with_root (data_offset small_super 6144 1)) (dir_encode dir)
          (omega (arith, length-dir_encode dir valid.storable))
          (dir_encode-IsBytes dir valid.storable) in
      ap (λ f. record blank_image { bytes = f })
        (written ∙ ap (λ f. patch f (data_offset small_super 6144 1) (dir_encode dir)) inode)

  pub fs_of-IsMounted : IsMounted (2 ^ 23) (image memory_byte (fs_of dir))
  fs_of-IsMounted =
      subst (IsMounted (2 ^ 23)) (sym image_of_eq)
        (with_bytes-IsMounted (2 ^ 23) blank_image image_of.bytes blank_image-IsMounted)

  pub fs_of-HasDir : HasDir (image memory_byte (fs_of dir)) 1 dir
  fs_of-HasDir =
      subst (λ x. HasDir x 1 dir) (sym image_of_eq)
        (with_dir-HasDir (2 ^ 23) root_image root_image-IsMounted 1 dir (omega arith, omega arith)
          refl valid)

  fs_of-HasRoot : HasInode (image memory_byte (fs_of dir)) 2 small_root
  fs_of-HasRoot =
      subst (λ x. HasInode x 2 small_root) (sym image_of_eq)
        (with_dir-inodes (2 ^ 23) root_image root_image-IsMounted 1 dir (omega arith, omega arith)
          valid 2 small_root
          (with_inode-HasInode (2 ^ 23) blank_image blank_image-IsMounted 2 small_root
            (omega arith, omega arith) refl small_root-IsValid))

  -- The path "" leads to the root.
  pub fs_of-Resolves : Resolves (image memory_byte (fs_of dir)) [] 2 small_root
  unfolding tokens
  fs_of-Resolves = record { root = small_root; has_root = fs_of-HasRoot; leads = here }

-- With the names of `names`.
abbrev pub small_fs : Filesystem disk
small_fs = fs_of names

pub small-IsMounted : IsMounted (2 ^ 23) (image memory_byte small_fs)
small-IsMounted = fs_of-IsMounted names names-IsValid

pub small-HasDir : HasDir (image memory_byte small_fs) 1 names
small-HasDir = fs_of-HasDir names names-IsValid

pub small-HasRoot : HasInode (image memory_byte small_fs) 2 small_root
small-HasRoot = fs_of-HasRoot names names-IsValid

pub small-Resolves : Resolves (image memory_byte small_fs) [] 2 small_root
small-Resolves = fs_of-Resolves names names-IsValid

abbrev pub name_b : List ℕ
name_b = b'b' ∷ []

pub name_b-IsFileName : IsFileName name_b
name_b-IsFileName = record {
  string = (λ e. omega arith, tt);
  bytes = (omega arith, tt);
  no_slash = (λ e. omega arith, tt);
  some_name = omega arith;
  short = omega arith;
}

abbrev pub name_a : List ℕ
name_a = b'a' ∷ []

pub name_a-IsFileName : IsFileName name_a
name_a-IsFileName = record {
  string = (λ e. omega arith, tt);
  bytes = (omega arith, tt);
  no_slash = (λ e. omega arith, tt);
  some_name = omega arith;
  short = omega arith;
}
