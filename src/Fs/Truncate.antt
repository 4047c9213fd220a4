-- ===== src/Fs/Truncate.antt =====
-- `fs_truncate_file` on a file whose blocks are full.
use chisai_fs.Base.{
  ℕ, suc, ◌+◌, ◌-◌, ◌*◌, ◌/◌, ◌≤◌, ◌≡◌, true, some, arith, get_elem?, ltb, leb, ap, ◌∙◌,
}
use chisai_fs.Base.Outcome.{aborted}
use chisai_fs.Device.{Device}
use chisai_fs.Fs.{Filesystem, FileInfo}
use chisai_fs.Fs.File.{release_loop, fs_truncate_file}
use chisai_fs.Inode.{Inode, inode_get_blkcnt}

module _ (d : Device) where
  -- The first round of the loop, at a block that was never allocated.
  release_loop-aborted :
      (new_blkcnt left : ℕ) (inode : Inode) (fs : Filesystem d)
      → get_elem? inode.direct_blks (new_blkcnt + left) ≡ some 0
      → release_loop d new_blkcnt (suc left) inode fs ≡ aborted
  unfolding release_loop
  release_loop-aborted new_blkcnt left inode fs e = rw e

  truncate_of :
      (file : FileInfo) (trct_size left : ℕ) (fs : Filesystem d)
      → ltb 0 fs.sb.block_size ≡ true
      → leb trct_size file.inode.size ≡ true
      → inode_get_blkcnt file.inode - trct_size / fs.sb.block_size ≡ left
      → release_loop d (trct_size / fs.sb.block_size) left file.inode fs ≡ aborted
      → fs_truncate_file d file trct_size fs ≡ aborted
  unfolding fs_truncate_file
  truncate_of file trct_size left fs positive smaller rounds stops =
      rw (positive, smaller, rounds, stops)

  -- A file of exactly `k` full blocks of 512 bytes, whose next block is not allocated, cannot be
  -- truncated: the loop starts at that block, and its assertion fails.
  pub fs_truncate_file-full_blocks :
      (file : FileInfo) (k trct_size : ℕ) (fs : Filesystem d)
      → fs.sb.block_size ≡ 512
      → file.inode.size ≡ 512 * k
      → file.inode.blkcnt ≡ file.inode.size / 512 + 1
      → get_elem? file.inode.direct_blks k ≡ some 0
      → trct_size ≤ file.inode.size
      → fs_truncate_file d file trct_size fs ≡ aborted
  fs_truncate_file-full_blocks file k trct_size fs block full counted unset smaller =
      let new = trct_size / fs.sb.block_size in
      let few : trct_size / 512 ≤ k = omega arith in
      let low : new ≤ k = rw block few in
      let last : new + (k - new) ≡ k = omega arith in
      truncate_of file trct_size (suc (k - new)) fs (ground arith) (ground arith)
        (unfold inode_get_blkcnt in omega arith)
        (release_loop-aborted new (k - new) file.inode fs
          (ap (get_elem? file.inode.direct_blks) last ∙ unset))
