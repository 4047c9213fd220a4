-- ===== src/Fs/Block.antt =====
-- The blocks of a file: `fs_find_blk` and `fs_alloc_blk`.
-- `blk_idx`, which the caller declares and both functions set, is `none` while it is unset. Offsets
-- in a file are taken to be not negative.
use chisai_fs.Base.{
  ℕ, zero, suc, ◌+◌, ◌-◌, ◌*◌, ◌/◌, Option, none, some, List, ◌++◌, ◌==◌, ltb, if◌then◌else◌,
  get_elem?, set, drop, length, le_bytes, of_bytes, u32, u64,
}
use chisai_fs.Base.Outcome.{pure, get, defined, require, ◌>>=◌, ◌>>◌}
use chisai_fs.Device.{Device, device_data_save, device_data_load}
use chisai_fs.Fs.{
  Code, err_ok, enoent, enomem, corrupt, Fs, on_device, fs_data_to_offset, fs_data_alloc,
}
use chisai_fs.Inode.{Inode, direct_blks_num}

-- sizeof(chisai_size_t)
abbrev pub idx_bytes : ℕ
idx_bytes = 4

-- A chisai_size_t after a read of its bytes, which can be short.
abbrev pub read_into : Option ℕ → List ℕ → Option ℕ
read_into (some old) bytes = some (of_bytes (bytes ++ drop (length bytes) (le_bytes idx_bytes old)))
read_into none bytes = if length bytes == idx_bytes then some (of_bytes bytes) else none

module _ (d : Device) where
  -- Where the index of the block `blk_num` stands in the indirect block.
  unfoldable pub indirect_slot : Inode → ℕ → Fs d ℕ
  indirect_slot inode blk_num = do
    offset ← fs_data_to_offset d inode.indirect_blk
    pure (u64 ((blk_num - direct_blks_num) * idx_bytes + offset))

  -- The code for an index that was found.
  abbrev pub found_blk : Option ℕ → Fs d (Code × Option ℕ)
  found_blk blk_idx = do idx ← defined blk_idx; pure (if idx == 0 then enoent else err_ok, some idx)

  -- Two levels of indirection are not written yet.
  unfoldable pub fs_find_blk : Inode → ℕ → Option ℕ → Fs d (Code × Option ℕ)
  fs_find_blk inode off blk_idx = do
    fs ← get
    require (ltb 0 fs.sb.block_size)
    let blk_num = u32 (off / fs.sb.block_size)
    let blk_idxs_per_block = fs.sb.block_size / idx_bytes
    if ltb blk_num direct_blks_num
        then found_blk (get_elem? inode.direct_blks blk_num)
        else if ltb blk_num (u32 (direct_blks_num + blk_idxs_per_block))
        then (do
          slot ← indirect_slot inode blk_num
          bytes ← on_device d (device_data_load d slot idx_bytes)
          found_blk (read_into blk_idx bytes))
        else pure (corrupt, blk_idx)

  -- The loop that clears a new indirect block, with the rounds left, at its `i`-th index.
  unfoldable pub clear_indirect : Inode → ℕ → ℕ → Fs d (Unit {0})
  clear_indirect inode zero i = pure tt
  clear_indirect inode (suc left) i = do
    offset ← fs_data_to_offset d inode.indirect_blk
    on_device d (device_data_save d (u64 (i * idx_bytes + offset)) (le_bytes idx_bytes 0))
    clear_indirect inode left (i + 1)

  -- The first block beyond the direct ones becomes the indirect block. The second allocation is not
  -- checked.
  unfoldable pub ensure_indirect : Inode → ℕ → ℕ → Fs d (Inode × ℕ)
  ensure_indirect inode blk_idxs_per_block blk_idx =
      if inode.indirect_blk == 0
      then (do
        let inode' = record inode { indirect_blk = blk_idx }
        clear_indirect inode' blk_idxs_per_block 0
        next_idx ← fs_data_alloc d
        pure (inode', next_idx))
      else pure (inode, blk_idx)

  -- The branches of `fs_alloc_blk`, with the block `blk_idx` in hand.
  unfoldable pub attach_blk : Inode → ℕ → ℕ → ℕ → Fs d (Code × Inode × ℕ)
  attach_blk inode blk_num blk_idxs_per_block blk_idx =
      if ltb blk_num direct_blks_num
      then pure
          (err_ok, record inode { direct_blks = set inode.direct_blks blk_num blk_idx }, blk_idx)
      else if ltb blk_num (u32 (direct_blks_num + blk_idxs_per_block))
      then (do
        (inode', blk_idx') ← ensure_indirect inode blk_idxs_per_block blk_idx
        slot ← indirect_slot inode' blk_num
        on_device d (device_data_save d slot (le_bytes idx_bytes blk_idx'))
        pure (err_ok, inode', blk_idx'))
      else pure (corrupt, inode, blk_idx)

  unfoldable pub fs_alloc_blk : Inode → ℕ → Fs d (Code × Inode × ℕ)
  fs_alloc_blk inode off = do
    fs ← get
    require (ltb 0 fs.sb.block_size)
    blk_idx ← fs_data_alloc d
    if blk_idx == 0
        then pure (enomem, inode, 0)
        else attach_blk inode (u32 (off / fs.sb.block_size)) (fs.sb.block_size / idx_bytes) blk_idx
