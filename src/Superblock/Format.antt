-- ===== src/Superblock/Format.antt =====
-- What `chisai_format` makes of a device.
use native.Mathlib.Nat.{div-mul-le_self, lt-div-mul-add}
use chisai_fs.Base.{
  ℕ, ◌+◌, ◌-◌, ◌*◌, ◌/◌, ◌%◌, ◌^◌, ◌≤◌, ◌<◌, ◌≡◌, ap, ◌∙◌, ◌⊎◌, some, none, arith, u32, u64, ltb,
  Bool-cases, inl, inr, if◌then◌else◌,
}
use chisai_fs.Config.{blkgrp_bytes, blkgrp_bytes_lem}
use chisai_fs.Device.{Device}
use chisai_fs.Superblock.{Superblock, format_groups}

-- Sizes for which the arithmetic of `chisai_format` does not wrap: a block that holds the
-- superblock, groups of less than 2 ^ 32 bytes, a disk of less than 2 ^ 47.
pub record IsSane (blk_size blk_cnt : ℕ) : Type 0 where
  pub wide_enough : 32 ≤ blk_size
  pub group_fits : 2 * blk_size + blk_size * 8 * (128 + blk_size) < 2 ^ 32
  pub disk_fits : blk_cnt * blk_size < 2 ^ 47

-- The bytes of one group.
abbrev pub group_bytes : ℕ → ℕ
group_bytes blk_size = 2 * blk_size + blk_size * 8 * (128 + blk_size)

group_bytes-le : (blk_size : ℕ) → 32 ≤ blk_size → 2 ^ 15 ≤ group_bytes blk_size
group_bytes-le blk_size h =
    let wide : 32 * 128 ≤ blk_size * (128 + blk_size) = grind arith in omega arith

-- The greatest number of groups that fits behind a block.
pub record IsMost (disk blk group groups : ℕ) : Type 0 where
  pub one_at_least : 1 ≤ groups
  pub fit : blk + groups * group ≤ disk
  pub no_more : disk < blk + (groups + 1) * group

quotient-IsMost :
    (disk blk group : ℕ)
    → 0 < group
    → blk + group ≤ disk
    → IsMost disk blk group ((disk - blk) / group)
quotient-IsMost disk blk group p h = record {
  one_at_least = grind arith;
  fit = omega (arith, div-mul-le_self (disk - blk) group);
  no_more = omega (arith, lt-div-mul-add {a = disk - blk} {b = group} p);
}

few_groups :
    (groups group disk : ℕ)
    → groups * group ≤ disk
    → 2 ^ 15 ≤ group
    → disk < 2 ^ 47
    → groups < 2 ^ 32
few_groups groups group disk h wide small =
    let e : groups * 2 ^ 15 ≤ groups * group = grind arith in omega arith

format_groups_of :
    (blk_size blk_cnt disk : ℕ)
    → u64 (blk_cnt * blk_size) ≡ disk
    → u64 (blk_size + blkgrp_bytes blk_size) ≡ blk_size + group_bytes blk_size
    → blkgrp_bytes blk_size ≡ group_bytes blk_size
    → format_groups blk_size blk_cnt ≡ (
        if ltb disk (blk_size + group_bytes blk_size)
        then none
        else some (u32 ((disk - blk_size) / group_bytes blk_size)))
unfolding format_groups
format_groups_of blk_size blk_cnt disk e f g = rw (e, f, g)

-- The number of groups that `chisai_format` puts on a device of sectors of 32 bytes or more, for which
-- one group has less than 2 ^ 32 bytes, and of less than 2 ^ 47 bytes in all: none exactly if the
-- superblock block and one group do not fit, and else the greatest number of groups that fits behind
-- the superblock block.
pub format_groups-IsMost :
    (blk_size blk_cnt : ℕ)
    → IsSane blk_size blk_cnt
    → ((format_groups blk_size blk_cnt ≡ none)
        × (blk_cnt * blk_size < blk_size + group_bytes blk_size))
      ⊎ ((groups : ℕ) × (format_groups blk_size blk_cnt ≡ some groups)
          × IsMost (blk_cnt * blk_size) blk_size (group_bytes blk_size) groups)
format_groups-IsMost blk_size blk_cnt h =
    let disk = blk_cnt * blk_size in
    let group = group_bytes blk_size in
    let whole = blkgrp_bytes_lem blk_size h.group_fits in
    let runs =
      format_groups_of blk_size blk_cnt disk (omega (arith, h.disk_fits))
        (omega (arith, whole, h.group_fits)) whole in
    elim (Bool-cases (ltb disk (blk_size + group))) [
      | inl small ↦ inl (runs ∙ rw small, ground arith)
      | inr room ↦
          let wide = group_bytes-le blk_size h.wide_enough in
          let most = quotient-IsMost disk blk_size group (omega (arith, wide)) (ground arith) in
          let few =
            few_groups ((disk - blk_size) / group) group disk (omega (arith, most.fit)) wide
              h.disk_fits in
          inr ((disk - blk_size) / group, runs ∙ rw room (ap some (omega arith)), most)
    ]

-- What a superblock says of a device of `groups` groups: the counts, of as many blocks and inodes as
-- the bitmaps have bits, wrap at 32 bits.
pub record Describes (blk_size groups : ℕ) (sb : Superblock) : Type 0 where
  pub magic : sb.magic ≡ 0x52696B6F
  pub block_size : sb.block_size ≡ blk_size
  pub same_groups : sb.groups ≡ groups
  pub data_block_per_groups : sb.data_block_per_groups ≡ 8 * blk_size
  pub blocks_cnt : sb.blocks_cnt ≡ 8 * blk_size * groups % 2 ^ 32
  pub inodes_cnt : sb.inodes_cnt ≡ 8 * blk_size * groups % 2 ^ 32
  pub free_blocks : sb.free_blocks ≡ 8 * blk_size * groups % 2 ^ 32
  pub free_inodes : sb.free_inodes ≡ 8 * blk_size * groups % 2 ^ 32
