-- ===== src/Superblock.antt =====
-- src/chisai-core/superblock.c, include/chisai-core/superblock.h and src/chisai-format.c: the
-- superblock, its bytes on the device, and the formatting of a device.
-- A struct in memory is its fields; on the device it is its bytes as x86-64 lays them out, lowest
-- byte first. Every field here is 32 bits wide.
pub mod Laws
pub mod Format
pub mod Stored
use chisai_fs.Base.{
  ℕ, ◌+◌, ◌-◌, ◌*◌, ◌/◌, ◌%◌, ◌^◌, Bool, true, false, Option, none, some, List, [], ◌++◌, u32, u64,
  leb, ltb, ◌==◌, if◌then◌else◌, take, drop, le_bytes, of_bytes, length,
}
use chisai_fs.Base.Macros.{assert_le}
use chisai_fs.Base.Outcome.{Cmd, pure, assert, or_die, require, ◌>>=◌, ◌>>◌}
use chisai_fs.Config.{byte_bits, blkgrp_bytes}
use chisai_fs.Device.{Device, device_data_save, device_data_load}

pub record Superblock : Type 0 where
  pub magic : ℕ
  pub block_size : ℕ
  pub blocks_cnt : ℕ
  pub inodes_cnt : ℕ
  pub free_blocks : ℕ
  pub free_inodes : ℕ
  pub groups : ℕ
  pub data_block_per_groups : ℕ

-- MAGIC
abbrev pub magic_number : ℕ
magic_number = 0x52696B6F

-- sizeof(superblock_t)
abbrev pub superblock_bytes : ℕ
superblock_bytes = 32

unfoldable pub superblock_encode : Superblock → List ℕ
superblock_encode sb =
    le_bytes 4 sb.magic
    ++ (le_bytes 4 sb.block_size
        ++ (le_bytes 4 sb.blocks_cnt
            ++ (le_bytes 4 sb.inodes_cnt
                ++ (le_bytes 4 sb.free_blocks
                    ++ (le_bytes 4 sb.free_inodes
                        ++ (le_bytes 4 sb.groups ++ le_bytes 4 sb.data_block_per_groups))))))

-- The 32-bit field at an offset.
abbrev pub u32_at : List ℕ → ℕ → ℕ
u32_at bytes off = of_bytes (take 4 (drop off bytes))

unfoldable pub superblock_decode : List ℕ → Superblock
superblock_decode bytes = record {
  magic = u32_at bytes 0;
  block_size = u32_at bytes 4;
  blocks_cnt = u32_at bytes 8;
  inodes_cnt = u32_at bytes 12;
  free_blocks = u32_at bytes 16;
  free_inodes = u32_at bytes 20;
  groups = u32_at bytes 24;
  data_block_per_groups = u32_at bytes 28;
}

-- The value that `superblock_init` stores, behind its assertion.
unfoldable pub superblock_of : ℕ → ℕ → Superblock
superblock_of blk_size groups = record {
  magic = magic_number;
  block_size = blk_size;
  blocks_cnt = u32 (blk_size * byte_bits * groups);
  inodes_cnt = u32 (blk_size * byte_bits * groups);
  free_blocks = u32 (blk_size * byte_bits * groups);
  free_inodes = u32 (blk_size * byte_bits * groups);
  groups = groups;
  data_block_per_groups = u32 (blk_size * byte_bits);
}

unfoldable pub superblock_init : {S : Type 0} → ℕ → ℕ → Cmd S Superblock
superblock_init blk_size groups = do
  assert_le superblock_bytes blk_size
  pure (superblock_of blk_size groups)

module _ (d : Device) where
  unfoldable pub superblock_save : Superblock → Cmd d.State (Unit {0})
  superblock_save sb = device_data_save d 0 (superblock_encode sb)

  -- A short read leaves the struct partly unset.
  unfoldable pub superblock_load : Cmd d.State Superblock
  superblock_load = do
    bytes ← device_data_load d 0 superblock_bytes
    require (length bytes == superblock_bytes)
    pure (superblock_decode bytes)

-- The two ioctl calls of `chisai_format`, BLKSSZGET and BLKGETSIZE: the sector size and the number
-- of sectors, or `none` where the call fails.
pub record Geometry : Type 0 where
  pub blk_size : Option ℕ
  pub blk_cnt : Option ℕ

-- The number of groups for `blk_cnt` sectors of `blk_size` bytes; `none` where the device is too
-- small for one, on which the program dies.
unfoldable pub format_groups : ℕ → ℕ → Option ℕ
format_groups blk_size blk_cnt =
    let disk_size = u64 (blk_cnt * blk_size) in
    let blk_group_size = blkgrp_bytes blk_size in
    if ltb disk_size (u64 (blk_size + blk_group_size))
    then none
    else some (u32 ((disk_size - blk_size) / blk_group_size))

module _ (d : Device) where
  format_device : ℕ → ℕ → Cmd d.State (Unit {0})
  format_device blk_size groups = do sb ← superblock_init blk_size groups; superblock_save d sb

  -- `open` is taken to succeed. A group of 0 bytes would be a division by zero.
  unfoldable pub chisai_format : Geometry → Cmd d.State (Unit {0})
  unfolding format_device
  chisai_format geometry = do
    blk_size ← or_die geometry.blk_size
    blk_cnt ← or_die geometry.blk_cnt
    groups ← or_die (format_groups blk_size blk_cnt)
    require (ltb 0 (blkgrp_bytes blk_size))
    format_device blk_size groups
