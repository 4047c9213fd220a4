-- ===== src/Config.antt =====
-- include/chisai-core/config.h and the sizes that the disk layout is made of.
use chisai_fs.Base.{ℕ, ◌+◌, ◌*◌, ◌^◌, ◌<◌, ◌≡◌, u32, arith}

abbrev pub inode_size : ℕ
inode_size = 128

abbrev pub byte_bits : ℕ
byte_bits = 8

abbrev pub chisai_file_len : ℕ
chisai_file_len = 28

abbrev pub chisai_file_per_dir : ℕ
chisai_file_per_dir = 15

-- (2 * blk_size) + (blk_size * BYTE_BITS) * (INODE_SIZE + blk_size), in unsigned int
unfoldable pub blkgrp_bytes : ℕ → ℕ
blkgrp_bytes blk_size = u32 (2 * blk_size + blk_size * byte_bits * (inode_size + blk_size))

-- Where nothing wraps, a group is its two bitmaps, its inodes and its data blocks.
pub blkgrp_bytes_lem :
    (blk_size : ℕ)
    → 2 * blk_size + blk_size * 8 * (128 + blk_size) < 2 ^ 32
    → blkgrp_bytes blk_size ≡ 2 * blk_size + blk_size * 8 * (128 + blk_size)
unfolding blkgrp_bytes
blkgrp_bytes_lem blk_size h = omega arith
