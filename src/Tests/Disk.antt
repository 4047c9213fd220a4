-- ===== src/Tests/Disk.antt =====
-- src/chisai-deviceop.c over a disk in memory, and what the components store on it.
use chisai_fs.Base.{
  ℕ, ◌+◌, ◌*◌, ◌^◌, ◌≤◌, ◌<◌, ◌≡◌, refl, ◌⊎◌, none, some, List, [], ◌∷◌, arith, get_elem?,
  All-replicate, length, replicate,
}
use chisai_fs.Base.Ensures.{Halts}
use chisai_fs.Base.Outcome.{ok}
use chisai_fs.BlockGroup.{BlockGroup, Kind}
use chisai_fs.BlockGroup.Take.{IsFresh}
use chisai_fs.BlockGroup.Load.{blkgrps_load}
use chisai_fs.BlockGroup.Load.Loaded.{blkgrps_load-IsValid}
use chisai_fs.BlockGroup.Valid
use chisai_fs.BlockGroup.Valid.{blank}
use chisai_fs.Config.{blkgrp_bytes}
use chisai_fs.Device.{Device, chisai_device, device_data_save, device_data_load}
use chisai_fs.Device.Laws.{DeviceLaws, slice, patch}
use chisai_fs.Device.Syscalls.{
  MemoryFile, memory, memory_byte, memory-KernelLaws, chisai_device-DeviceLaws,
  device_data_load-device_data_save,
}
use chisai_fs.Dir.Bytes.{dir_load-save}
use chisai_fs.Dir.Store.{dir_encode, dir_save, dir_load}
use chisai_fs.Fs.{Filesystem, FileInfo}
use chisai_fs.Fs.File.{fs_write_file, fs_read_file}
use chisai_fs.Fs.Halts.{fs_write_file-Halts, fs_read_file-Halts}
use chisai_fs.Inode
use chisai_fs.Inode.{Inode, inode_encode, inode_save, inode_load}
use chisai_fs.Inode.Laws.{IsWord, inode_load-save}
use chisai_fs.Superblock.{Superblock, format_groups}
use chisai_fs.Superblock.Laws
use chisai_fs.Superblock.Format.{IsSane, IsMost, group_bytes, format_groups-IsMost}
use chisai_fs.Tests.Names.{names, names-IsStorable}

abbrev pub disk : Device
disk = chisai_device memory

-- 8 MB of zeros.
abbrev pub zeros_file : MemoryFile
zeros_file = record { content = λ i. 0; position = 0 }

device_data_load-device_data_save_example :
    (f' f'' : MemoryFile) × (device_data_save disk 700 (1 ∷ 2 ∷ []) zeros_file ≡ ok tt f')
    × (device_data_load disk 700 2 f' ≡ ok (1 ∷ 2 ∷ []) f'')
    × ((at n : ℕ)
        → at + n ≤ 2 ^ 23
        → (at + n ≤ 700) ⊎ (702 ≤ at)
        → (old : List ℕ) × (g g' : MemoryFile) × (device_data_load disk at n zeros_file ≡ ok old g)
          × (device_data_load disk at n f'' ≡ ok old g'))
device_data_load-device_data_save_example =
    device_data_load-device_data_save (memory-KernelLaws (2 ^ 23)) 700 (1 ∷ 2 ∷ []) zeros_file
      (omega arith) (omega arith, (omega arith, tt))

pub disk_laws : DeviceLaws disk (2 ^ 23) memory_byte
disk_laws = chisai_device-DeviceLaws (memory-KernelLaws (2 ^ 23))

dir_load-save_example :
    (s' s'' : MemoryFile) × (dir_save disk names 1000 zeros_file ≡ ok tt s')
    × (dir_load disk 1000 s' ≡ ok names s'')
    × (memory_byte s'' ≡ patch (memory_byte zeros_file) 1000 (dir_encode names))
dir_load-save_example = dir_load-save disk_laws names 1000 zeros_file names-IsStorable (omega arith)

abbrev pub file_inode : Inode
file_inode = record {
  mode = 0o100644;
  nlink = 1;
  blkcnt = 1;
  size = 5;
  direct_blks = 3 ∷ replicate 11 0;
  indirect_blk = 0;
  double_indirect_blk = 0;
}

pub file_inode-IsValid : Inode.Laws.IsValid file_inode
file_inode-IsValid = record {
  mode = omega arith;
  nlink = omega arith;
  blkcnt = omega arith;
  size = omega arith;
  twelve = refl;
  direct_blks = (omega arith, All-replicate IsWord 11 0 (omega arith));
  indirect_blk = omega arith;
  double_indirect_blk = omega arith;
}

inode_load-save_example :
    (s' s'' : MemoryFile) × (inode_save disk file_inode 1536 zeros_file ≡ ok tt s')
    × (inode_load disk 1536 s' ≡ ok file_inode s'')
    × (memory_byte s'' ≡ patch (memory_byte zeros_file) 1536 (inode_encode file_inode))
inode_load-save_example =
    inode_load-save disk_laws file_inode 1536 zeros_file file_inode-IsValid (omega arith)

abbrev pub super : Superblock
super = record {
  magic = 0x52696B6F;
  block_size = 512;
  blocks_cnt = 8192;
  inodes_cnt = 8192;
  free_blocks = 8000;
  free_inodes = 8100;
  groups = 2;
  data_block_per_groups = 4096;
}

super-IsValid : Laws.IsValid super
super-IsValid = record {
  magic = omega arith;
  block_size = omega arith;
  blocks_cnt = omega arith;
  inodes_cnt = omega arith;
  free_blocks = omega arith;
  free_inodes = omega arith;
  groups = omega arith;
  data_block_per_groups = omega arith;
}

-- Sectors of 512 bytes, 8 MB of them.
sane : IsSane 512 16384
sane = record { wide_enough = omega arith; group_fits = omega arith; disk_fits = omega arith }

format_groups-IsMost_example :
    ((format_groups 512 16384 ≡ none) × (16384 * 512 < 512 + group_bytes 512))
    ⊎ ((groups : ℕ) × (format_groups 512 16384 ≡ some groups)
        × IsMost (16384 * 512) 512 (group_bytes 512) groups)
format_groups-IsMost_example = format_groups-IsMost 512 16384 sane

blkgrps_load-IsValid_example :
    (s' : MemoryFile) × (blk_grps' : List BlockGroup) × (blkgrps_load disk 512
        (blank ∷ blank ∷ [])
        2
        zeros_file
      ≡ ok blk_grps' s')
    × (memory_byte s' ≡ memory_byte zeros_file)
    × Valid.IsValid 4096 blk_grps'
    × (length blk_grps' ≡ 2)
    × ((j : ℕ)
        → (g : BlockGroup) → get_elem? blk_grps' j ≡ some g
        → ((k : Kind) → IsFresh 4096 k g)
          × (g.data_bitmap.inner ≡ slice (memory_byte zeros_file) (512 + blkgrp_bytes 512 * j) 512)
          × (g.inode_bitmap.inner
              ≡ slice (memory_byte zeros_file) (512 + blkgrp_bytes 512 * j + 512) 512))
unfolding blkgrp_bytes
blkgrps_load-IsValid_example =
    blkgrps_load-IsValid disk_laws 4096 512 refl (omega arith) (omega arith) (blank ∷ blank ∷ [])
      zeros_file (omega arith) (omega arith) (omega arith) (omega arith) (omega arith)

abbrev mounted : Filesystem disk
mounted = record { sb = super; blk_grps = blank ∷ []; device = zeros_file; blkgrp_size = 2622464 }

abbrev opened : FileInfo
opened = record { inode = file_inode; idx = 3 }

fs_write_file-Halts_example : Halts (fs_write_file disk opened (1 ∷ 2 ∷ 3 ∷ []) 3 0 mounted)
fs_write_file-Halts_example = fs_write_file-Halts disk opened (1 ∷ 2 ∷ 3 ∷ []) 3 0 mounted

fs_read_file-Halts_example : Halts (fs_read_file disk opened (0 ∷ 0 ∷ 0 ∷ []) 3 0 mounted)
fs_read_file-Halts_example = fs_read_file-Halts disk opened (0 ∷ 0 ∷ 0 ∷ []) 3 0 mounted
