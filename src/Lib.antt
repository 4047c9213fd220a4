-- ===== src/Lib.antt =====
-- chisai-fs, a small file system over FUSE: a block device is formatted with a superblock, and
-- divided into groups; each group has a bitmap of its data blocks, one of its inodes, the inodes of
-- 128 bytes and the data blocks. A directory is one data block.
--
-- Which file models which part:
--   * Base: shared types, the Boolean tests, arrays as lists (Arrays has what stands at an index),
--     machine words and their bytes, Macros those of include/utils on numbers, C strings, and
--     Base/Outcome: what a call ends in. A failed assertion, `die` and an access that C leaves
--     undefined are results of their own (`aborted`, `died`, `undefined`); where a component has
--     only the last of them, its functions return `Option`, with `none` for it.
--   * Config: include/chisai-core/config.h.
--   * Bitvec: utils/bitvec.c. Byte has `__builtin_popcount` and `__builtin_ffs` on a byte, Laws the
--     operations on one bit, Search the two scans.
--   * Device: include/chisai-core/device.h and src/chisai-deviceop.c. A device is a parameter, with
--     its reads and writes; lseek, read and write are the parameter `Kernel`. Laws and Syscalls
--     have what is relied on, and a disk in memory that behaves so.
--   * BlockGroup: src/chisai-core/block_group.c. The functions for inodes and for data blocks are
--     one definition over `Kind`. Valid has the invariant of the array and its abstract view
--     `taken`; Take is allocation in one group, Alloc in the array; Load is `blkgrps_load`.
--   * Superblock: src/chisai-core/superblock.c and src/chisai-format.c. Laws and Stored have its bytes
--     on the device, Format what formatting makes of a device.
--   * Inode: src/chisai-core/inode.c.
--   * Dir: src/chisai-core/dir.c. Store and Bytes have its bytes on the device; Entries the
--     abstract view of a directory as the list of its entries; Lookup, Insert and Remove the
--     operations.
--   * Fs: src/chisai-core/fs.c. The state is `Filesystem`: the superblock and the groups in memory,
--     the device, and BLKGRP_SIZE. Path has the walk along a path, Create the operations on the
--     tree, Block and File the contents of files, Init the mount, Halts the termination of reads
--     and writes, Layout the places on the device, Store the saving and the loading of inodes and
--     directories, Truncate a file of full blocks. Fs/Tree is the tree that a mounted device holds,
--     as a relation between paths and inodes apart from the code, the mount that makes it, and the
--     operations on it; Listing has `fs_get_data`. Fs/Content is what a file contains, as the byte
--     at each position: Blocks and Chunks have the two steps of a write on the device, Rounds, Room
--     and Loop the code of a round and the loop, Save the whole of `fs_write_file`, Reads and Read
--     `fs_read_file`, Back the two together, Cut and Truncated `fs_truncate_file`. It is about the
--     12 direct blocks of a file.
--   * Mount: src/chisai-mount.c. The state is `Mount`: the file system, REOPEN, the descriptors,
--     and the objects behind `fi->fh`. Tree and Open have the handlers, Table the table of them as
--     one function, Dangling the pointers across a reopening, Listing the loop of readdir, Made a
--     directory that is made and found, Contents a file that is made, written and read.
--   * Main: src/main.c.
--   * Tests: the theorems at concrete devices, tables, directories and names.
--
-- Numbers are natural numbers, with the wrap-around of the source's unsigned types written out; the
-- signed sizes and offsets are taken to be not negative. A struct on the device is its bytes as
-- x86-64 lays them out, lowest first, with padding 0. The loops over a count recurse on the rounds
-- left. The loop of `fs_write_file` has `size` rounds of fuel, that of `fs_read_file` the size cut
-- to that of the file: each round moves at least one byte. The loop of readdir has the entries of
-- the directory, three rounds more, for the two links and the end.
--
-- Not modelled: utils/log.c and the logging; `free` but for the objects behind `fi->fh`, and
-- allocations that fail. The FUSE library is a parameter.
mod Base
pub mod Config
pub mod Bitvec
pub mod Device
pub mod BlockGroup
pub mod Superblock
pub mod Inode
pub mod Dir
pub mod Fs
pub mod Mount
pub mod Main
pub mod Tests
