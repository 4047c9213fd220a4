-- ===== src/Fs/Content/Rounds.antt =====
-- What `fs_find_blk`, `fs_alloc_blk` and one round of the loops do in the direct blocks of a file.
use chisai_fs.Base.{
  ℕ, zero, suc, ◌+◌, ◌-◌, ◌/◌, ◌%◌, ◌^◌, ◌≤◌, ◌<◌, ◌≡◌, ◌∙◌, true, false, Option, some, List, arith,
  ◌==◌, ltb, leb, if◌then◌else◌, get_elem?, take, drop, length, u32, u64, bit_and_mask,
}
use chisai_fs.Base.Division.{lt_of_div-lt}
use chisai_fs.Base.Macros.{align_down_rest}
use chisai_fs.Base.Outcome.{ok}
use chisai_fs.Device.{Device, device_data_save}
use chisai_fs.Fs.{
  Filesystem, Code, err_ok, enoent, enomem, data_offset, fs_data_to_offset, fs_data_alloc,
}
use chisai_fs.Fs.Block.{attach_blk, fs_find_blk, fs_alloc_blk}
use chisai_fs.Fs.Content.Blocks.{with_block}
use chisai_fs.Fs.File.{
  off_in_block, chunk, is_enomem, Writing, block_for_write, write_chunk, write_loop,
}
use chisai_fs.Inode.{Inode, direct_blks_num}

-- The place in its block, for blocks of a power of two.
pub off_in_block-mod :
    (k off blk_size : ℕ)
    → blk_size ≡ 2 ^ k
    → 1 ≤ blk_size
    → blk_size ≤ 2 ^ 64
    → off < 2 ^ 64
    → off_in_block off blk_size ≡ off % blk_size
unfolding off_in_block
off_in_block-mod k off blk_size e some_size narrow small =
    let word : u64 off ≡ off = omega arith in
    align_down_rest off blk_size some_size narrow ∙ rw (word, e) (bit_and_mask k off)

-- A position in the direct blocks is small.
pub direct_small : (w pos : ℕ) → 0 < w → w < 2 ^ 32 → pos / w < 12 → pos < 2 ^ 64
direct_small w pos positive narrow direct =
    omega (arith, lt_of_div-lt w 12 pos positive direct, narrow)

-- A chunk lies in the block, and in what is left.
pub chunk-le :
    (blk_size size total at : ℕ)
    → at < blk_size
    → total < size
    → (1 ≤ chunk blk_size size total at)
      × (at + chunk blk_size size total at ≤ blk_size)
      × (total + chunk blk_size size total at ≤ size)
unfolding chunk
chunk-le blk_size size total at h l = ground arith

module _ (d : Device) (fs : Filesystem d) (inode : Inode) (off : ℕ)
    (divides : ltb 0 fs.sb.block_size ≡ true)
    (whole : u32 (off / fs.sb.block_size) ≡ off / fs.sb.block_size)
    (direct : ltb (off / fs.sb.block_size) direct_blks_num ≡ true) where
  pub find_direct :
      (old : Option ℕ) {b : ℕ}
      → get_elem? inode.direct_blks (off / fs.sb.block_size) ≡ some b
      → fs_find_blk d inode off old fs ≡ ok ((if b == 0 then enoent else err_ok), some b) fs
  unfolding fs_find_blk
  find_direct old at = rw (divides, whole, direct, at)

  pub alloc_full :
      {fs1 : Filesystem d}
      → fs_data_alloc d fs ≡ ok 0 fs1
      → fs_alloc_blk d inode off fs ≡ ok (enomem, inode, 0) fs1
  unfolding fs_alloc_blk
  alloc_full e = rw (divides, e)

  pub alloc_direct :
      {b : ℕ} {fs1 : Filesystem d}
      → fs_data_alloc d fs ≡ ok b fs1
      → (b == 0) ≡ false
      → fs_alloc_blk d inode off fs
        ≡ ok (err_ok, with_block inode (off / fs.sb.block_size) b, b) fs1
  unfolding fs_alloc_blk attach_blk
  alloc_direct e positive = rw (divides, e, positive, whole, direct)

module _ (d : Device) (fs : Filesystem d) (w : Writing) (off : ℕ) where
  pub block_found :
      {b : ℕ}
      → fs_find_blk d w.inode off w.blk_idx fs ≡ ok (err_ok, some b) fs
      → block_for_write d w off fs ≡ ok (record w { ret = err_ok; blk_idx = some b }) fs
  unfolding block_for_write
  block_found e = rw e

  pub block_made :
      {code : Code} {inode : Inode} {b : ℕ} {fs1 : Filesystem d}
      → fs_find_blk d w.inode off w.blk_idx fs ≡ ok (enoent, some 0) fs
      → fs_alloc_blk d w.inode off fs ≡ ok (code, inode, b) fs1
      → block_for_write d w off fs
        ≡ ok (record w { inode = inode; ret = code; blk_idx = some b }) fs1
  unfolding block_for_write
  block_made e e' = rw (e, e')

  pub chunk_written :
      (buf : List ℕ) (size b at : ℕ) {s' : d.State}
      → w.blk_idx ≡ some b
      → ltb 0 fs.sb.block_size ≡ true
      → ltb 0 fs.sb.data_block_per_groups ≡ true
      → off_in_block off fs.sb.block_size ≡ at
      → leb (w.total + chunk fs.sb.block_size size w.total at) (length buf) ≡ true
      → device_data_save d
          (u64 (at + data_offset fs.sb fs.blkgrp_size b))
          (take (chunk fs.sb.block_size size w.total at) (drop w.total buf))
          fs.device
        ≡ ok tt s'
      → write_chunk d w buf size off fs
        ≡ ok (w.total + chunk fs.sb.block_size size w.total at) (record fs { device = s' })
  unfolding write_chunk fs_data_to_offset
  chunk_written buf size b at found divides divides' place enough saved =
      rw (found, divides, divides', place, enough, saved)

pub write_end :
    (d : Device) (fuel : ℕ) (w : Writing) (buf : List ℕ) (size off : ℕ) (fs : Filesystem d)
    → ltb w.total size ≡ false
    → write_loop d fuel w buf size off fs ≡ ok w fs
unfolding write_loop
write_end d zero w buf size off fs done = rw done
write_end d (suc left) w buf size off fs done = rw done

module _ (d : Device) (fuel : ℕ) (w : Writing) (buf : List ℕ) (size off : ℕ)
    (fs : Filesystem d) where
  pub write_out :
      {w1 : Writing} {fs1 : Filesystem d}
      → ltb w.total size ≡ true
      → block_for_write d w off fs ≡ ok w1 fs1
      → is_enomem w1.ret ≡ true
      → write_loop d (suc fuel) w buf size off fs ≡ ok w1 fs1
  unfolding write_loop
  write_out more ready out = rw (more, ready, out)

  pub write_round :
      {w1 : Writing} {fs1 fs2 : Filesystem d} {total : ℕ}
      → ltb w.total size ≡ true
      → block_for_write d w off fs ≡ ok w1 fs1
      → is_enomem w1.ret ≡ false
      → write_chunk d w1 buf size off fs1 ≡ ok total fs2
      → write_loop d (suc fuel) w buf size off fs
        ≡ write_loop d fuel (record w1 { total = total }) buf size (off + (total - w1.total)) fs2
  unfolding write_loop
  write_round more ready in_room written = rw (more, ready, in_room, written)
