-- ===== src/Fs/Halts.antt =====
-- How the loops of `fs_write_file` and `fs_read_file` end (src/chisai-core/fs.c).
mod Blocks
use chisai_fs.Base.{
  ℕ, zero, suc, ◌+◌, ◌-◌, ◌/◌, ◌^◌, u64, ◌==◌, inl, inr, Bool-cases, get_elem?, u32, ◌≤◌, ◌<◌, ◌≡◌,
  refl, not, Option, none, some, List, ltb, leb, length, arith, if◌then◌else◌, bit_and_le,
}
use chisai_fs.Base.Ensures.{
  Ensures, Halts, and_then-Ensures, pure-Ensures, lift-Halts, defined-Ensures, assert-Halts,
  require-Ensures,
}
use chisai_fs.Base.Macros.{align_down_rest}
use chisai_fs.Base.Outcome.{ok, died, Cmd, pure, assert}
use chisai_fs.Device.{Device, device_data_save, device_data_load}
use chisai_fs.Fs.{
  fs_inode_to_offset, Filesystem, FileInfo, on_device, fs_data_to_offset, fs_data_alloc,
  fs_save_inode,
}
use chisai_fs.BlockGroup.{blkgrps_data_alloc}
use chisai_fs.Fs.Block.{
  idx_bytes, read_into, found_blk, indirect_slot, clear_indirect, ensure_indirect, attach_blk,
  fs_find_blk, fs_alloc_blk,
}
use chisai_fs.Fs.File.{
  off_in_block, chunk, is_enoent, is_enomem, Writing, block_for_write, write_chunk, start_writing,
  write_loop, fs_write_file, is_ok, read_loop, fs_read_file,
}
use chisai_fs.Fs.Halts.Blocks.{
  save_at-Halts, load_at-Halts, offset-Halts, fs_find_blk-Halts, fs_alloc_blk-Halts,
}
use chisai_fs.Inode.{Inode, inode_save, direct_blks_num}

-- A place in a block is inside it.
off_in_block-lt : (off blk_size : ℕ) → 0 < blk_size → off_in_block off blk_size < blk_size
unfolding off_in_block
off_in_block-lt off blk_size h = elim (Bool-cases (leb blk_size (2 ^ 64))) [
  | inl narrow ↦
      let rest = align_down_rest off blk_size h (ground arith) in
      omega (arith, rest, bit_and_le (u64 off) (blk_size - 1))
  | inr wide ↦ let large : 2 ^ 64 < blk_size = ground arith in omega arith
]

-- A round of a copy takes at least one byte.
chunk_pos :
    (blk_size size total off : ℕ)
    → 0 < blk_size
    → total < size
    → 0 < chunk blk_size size total (off_in_block off blk_size)
unfolding chunk
chunk_pos blk_size size total off h l =
    let inside = off_in_block-lt off blk_size h in ground (arith, inside)

module _ (d : Device) where
  block_for_write_total :
      (w : Writing)
      → (off : ℕ) → (fs : Filesystem d)
      → Ensures (λ w' _. w'.total ≡ w.total) (block_for_write d w off fs)
  unfolding block_for_write
  block_for_write_total w off fs =
      and_then-Ensures _ _ _ (fs_find_blk-Halts d w.inode off w.blk_idx fs) λ r s _.
        elim (Bool-cases (is_enoent r.0)) [
          | inr e ↦ rw e (pure-Ensures _ _ s refl)
          | inl e ↦ rw e (
              and_then-Ensures _ _ _ (fs_alloc_blk-Halts d w.inode off s)
                λ _ s _. pure-Ensures _ _ s refl)
        ]

  write_chunk_moves :
      (w : Writing)
      → (buf : List ℕ) → (size off : ℕ) → (fs : Filesystem d) → w.total < size
      → Ensures (λ total _. w.total < total) (write_chunk d w buf size off fs)
  unfolding write_chunk
  write_chunk_moves w buf size off fs h =
      let blk_size = fs.sb.block_size in
      let wlen = chunk blk_size size w.total (off_in_block off blk_size) in
      and_then-Ensures _ _ _ (require-Ensures (ltb 0 blk_size) fs) λ _ s positive.
        and_then-Ensures _ _ _ (defined-Ensures w.blk_idx s) λ idx s _.
          and_then-Ensures _ _ _ (offset-Halts d idx s) λ offset s _.
            and_then-Ensures _ _ _ (require-Ensures (leb (w.total + wlen) (length buf)) s) λ _ s _.
              and_then-Ensures _ _ _ (save_at-Halts d _ _ s) λ _ s _.
                pure-Ensures _ (w.total + wlen) s
                  (omega (arith, chunk_pos blk_size size w.total off (ground arith) h))

  write_loop-Halts :
      (fuel : ℕ)
      → (w : Writing) → (buf : List ℕ) → (size off : ℕ) → (fs : Filesystem d)
      → size ≤ fuel + w.total
      → Halts (write_loop d fuel w buf size off fs)
  unfolding write_loop
  write_loop-Halts zero w buf size off fs h = elim (Bool-cases (ltb w.total size)) [
    | inl e ↦ absurd (ground arith)
    | inr e ↦ rw e (pure-Ensures _ _ fs tt)
  ]
  write_loop-Halts (suc fuel) w buf size off fs h = elim (Bool-cases (ltb w.total size)) [
    | inr e ↦ rw e (pure-Ensures _ _ fs tt)
    | inl e ↦ rw e (
        and_then-Ensures _ _ _ (block_for_write_total w off fs) λ w' s same.
          elim (Bool-cases (is_enomem w'.ret)) [
            | inl e' ↦ rw e' (pure-Ensures _ _ s tt)
            | inr e' ↦ rw e' (
                and_then-Ensures _ _ _ (write_chunk_moves w' buf size off s (ground arith))
                  λ total s more.
                    write_loop-Halts fuel (record w' { total = total }) buf size _ s (omega arith))
          ])
  ]

  checked-Halts :
      (w : Writing)
      → (size : ℕ) → (fs : Filesystem d)
      → Halts ((if is_enomem w.ret then pure tt else assert (w.total == size)) fs)
  checked-Halts w size fs = elim (Bool-cases (is_enomem w.ret)) [
    | inl e ↦ rw e (pure-Ensures _ tt fs tt)
    | inr e ↦ rw e (assert-Halts (w.total == size) fs)
  ]

  inode_offset-Halts : (idx : ℕ) → (fs : Filesystem d) → Halts (fs_inode_to_offset d idx fs)
  unfolding fs_inode_to_offset
  inode_offset-Halts idx fs =
      and_then-Ensures _ _ _ (require-Ensures (ltb 0 fs.sb.data_block_per_groups) fs)
        λ _ s _. pure-Ensures _ _ s tt

  fs_save_inode-Halts :
      (inode : Inode) → (idx : ℕ) → (fs : Filesystem d) → Halts (fs_save_inode d inode idx fs)
  unfolding fs_save_inode inode_save
  fs_save_inode-Halts inode idx fs =
      and_then-Ensures _ _ _ (inode_offset-Halts idx fs) λ _ s _. save_at-Halts d _ _ s

  -- `fs_write_file` does not run out of the `size` rounds that its loop is given, whatever the device,
  -- the file and the file system hold.
  pub fs_write_file-Halts :
      (file : FileInfo)
      → (buf : List ℕ) → (size off : ℕ) → (fs : Filesystem d)
      → Halts (fs_write_file d file buf size off fs)
  unfolding fs_write_file
  fs_write_file-Halts file buf size off fs =
      let start = start_writing file.inode in
      and_then-Ensures _ _ _
        (write_loop-Halts size start buf size off fs (unfold start_writing in omega arith))
        λ w s _. and_then-Ensures _ _ _ (checked-Halts w size s) λ _ s _.
          and_then-Ensures _ _ _ (fs_save_inode-Halts _ file.idx s) λ _ s _. pure-Ensures _ _ s tt

  -- One round of `read_loop` goes on with a larger `total`.
  read_loop-Halts :
      (fuel : ℕ)
      → (inode : Inode) → (buf : List ℕ) → (size off : ℕ) → (blk_idx : Option ℕ) → (total : ℕ)
      → (fs : Filesystem d) → size ≤ fuel + total
      → Halts (read_loop d fuel inode buf size off blk_idx total fs)
  unfolding read_loop
  read_loop-Halts zero inode buf size off blk_idx total fs h = elim (Bool-cases (ltb total size)) [
    | inl e ↦ absurd (ground arith)
    | inr e ↦ rw e (pure-Ensures _ _ fs tt)
  ]
  read_loop-Halts (suc fuel) inode buf size off blk_idx total fs h =
      elim (Bool-cases (ltb total size)) [
        | inr e ↦ rw e (pure-Ensures _ _ fs tt)
        | inl e ↦ rw e (
            and_then-Ensures _ _ _ (fs_find_blk-Halts d inode off blk_idx fs) λ found s _.
              elim (Bool-cases (not (is_ok found.0))) [
                | inl e' ↦ rw e' (pure-Ensures _ _ s tt)
                | inr e' ↦ rw e' (
                    let blk_size = s.sb.block_size in
                    let rlen = chunk blk_size size total (off_in_block off blk_size) in
                    and_then-Ensures _ _ _ (require-Ensures (ltb 0 blk_size) s) λ _ s positive.
                      and_then-Ensures _ _ _ (defined-Ensures found.1 s) λ idx s _.
                        and_then-Ensures _ _ _ (offset-Halts d idx s) λ offset s _.
                          and_then-Ensures _ _ _
                            (require-Ensures (leb (total + rlen) (length buf)) s)
                            λ _ s _. and_then-Ensures _ _ _ (load_at-Halts d _ rlen s) λ bytes s _.
                              let more : 0 < rlen =
                                chunk_pos blk_size size total off (ground arith) (ground arith) in
                              read_loop-Halts fuel inode _ size _ found.1 (total + rlen) s
                                (omega arith))
              ])
      ]

  -- `fs_read_file` does not run out of rounds either: the size of the read, cut to that of the file.
  pub fs_read_file-Halts :
      (file : FileInfo)
      → (buf : List ℕ) → (size off : ℕ) → (fs : Filesystem d)
      → Halts (fs_read_file d file buf size off fs)
  unfolding fs_read_file
  fs_read_file-Halts file buf size off fs =
      read_loop-Halts _ file.inode buf _ off none 0 fs (omega arith)
