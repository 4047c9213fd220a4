-- ===== src/Tests/Formatted.antt =====
-- The mount of a formatted disk of 8 MB.
use chisai_fs.Base.{ℕ, List, replicate}
use chisai_fs.BlockGroup.{BlockGroup}
use chisai_fs.BlockGroup.Valid.{blank}
use chisai_fs.Device.Syscalls.{MemoryFile, memory}
use chisai_fs.Fs.{Filesystem}
use chisai_fs.Superblock.{superblock_of, superblock_encode}
use chisai_fs.Tests.Disk.{disk, zeros_file}

-- Three groups of sectors of 512 bytes.
abbrev formatted_bytes : List ℕ
formatted_bytes = superblock_encode (superblock_of 512 3)

abbrev formatted_file : MemoryFile
formatted_file = (memory.sys_write zeros_file formatted_bytes).1

-- What a process starts with.
abbrev unmounted : Filesystem disk
unmounted = record {
  sb = superblock_of 0 0;
  blk_grps = List.[];
  device = formatted_file;
  blkgrp_size = 0;
}

abbrev blank_groups : ℕ → List BlockGroup
blank_groups n = replicate n blank
