-- ===== src/Fs/File.antt =====
-- `fs_write_file`, `fs_read_file` and `fs_truncate_file`.
-- Offsets and sizes are taken to be not negative, and a returned size to fit an `int`.
use chisai_fs.Base.{
  ℕ, zero, suc, ◌+◌, ◌-◌, ◌/◌, ◌^◌, Bool, true, false, not, Option, none, some, List, ◌++◌, ltb,
  leb, if◌then◌else◌, get_elem?, set, take, drop, length, u32, u64,
}
use chisai_fs.Base.Macros.{min, assert_eq, assert_ne, assert_ge, align_down}
use chisai_fs.Base.Outcome.{out_of_fuel, pure, get, defined, require, ◌>>=◌, ◌>>◌}
use chisai_fs.Device.{Device, device_data_save, device_data_load}
use chisai_fs.Fs.{
  Code, err_ok, enoent, enomem, eexist, einval, efbig, enametoolong, corrupt, Fs, FileInfo,
  on_device, fs_data_to_offset, fs_data_release, fs_save_inode,
}
use chisai_fs.Fs.Block.{fs_find_blk, fs_alloc_blk}
use chisai_fs.Inode.{Inode, inode_set_size, inode_get_size, inode_get_blkcnt}

abbrev pub is_enoent : Code → Bool
is_enoent enoent = true
is_enoent err_ok = false
is_enoent enomem = false
is_enoent eexist = false
is_enoent einval = false
is_enoent efbig = false
is_enoent enametoolong = false
is_enoent corrupt = false

abbrev pub is_enomem : Code → Bool
is_enomem enomem = true
is_enomem enoent = false
is_enomem err_ok = false
is_enomem eexist = false
is_enomem einval = false
is_enomem efbig = false
is_enomem enametoolong = false
is_enomem corrupt = false

abbrev pub is_ok : Code → Bool
is_ok err_ok = true
is_ok enoent = false
is_ok enomem = false
is_ok eexist = false
is_ok einval = false
is_ok efbig = false
is_ok enametoolong = false
is_ok corrupt = false

-- off - ALIGN_DOWN(off, blk_size)
unfoldable pub off_in_block : ℕ → ℕ → ℕ
off_in_block off blk_size = u64 (off + 2 ^ 64 - align_down off blk_size)

-- min(size - total, blk_size - off_inblk)
unfoldable pub chunk : ℕ → ℕ → ℕ → ℕ → ℕ
chunk blk_size size total off_inblk = min (size - total) (blk_size - off_inblk)

-- The variables of the loop of `fs_write_file`.
pub record Writing : Type 0 where
  pub inode : Inode
  pub ret : Code
  pub blk_idx : Option ℕ
  pub total : ℕ

unfoldable pub start_writing : Inode → Writing
start_writing inode = record { inode = inode; ret = err_ok; blk_idx = none; total = 0 }

module _ (d : Device) where
  -- The block for the offset: the one found, or a new one.
  unfoldable pub block_for_write : Writing → ℕ → Fs d Writing
  block_for_write w off = do
    (ret, blk_idx) ← fs_find_blk d w.inode off w.blk_idx
    if is_enoent ret
        then (do
          (ret', inode, new_idx) ← fs_alloc_blk d w.inode off
          pure (record w { inode = inode; ret = ret'; blk_idx = some new_idx }))
        else pure (record w { ret = ret; blk_idx = blk_idx })

  -- One device write, behind the test for ENOMEM. The result is the new `total`. `fs_find_blk` has
  -- divided by the block size.
  unfoldable pub write_chunk : Writing → List ℕ → ℕ → ℕ → Fs d ℕ
  write_chunk w buf size off = do
    fs ← get
    require (ltb 0 fs.sb.block_size)
    idx ← defined w.blk_idx
    offset ← fs_data_to_offset d idx
    let off_inblk = off_in_block off fs.sb.block_size
    let wlen = chunk fs.sb.block_size size w.total off_inblk
    require (leb (w.total + wlen) (length buf))
    on_device d (device_data_save d (u64 (off_inblk + offset)) (take wlen (drop w.total buf)))
    pure (w.total + wlen)

  -- The loop, on fuel.
  unfoldable pub write_loop : ℕ → Writing → List ℕ → ℕ → ℕ → Fs d Writing
  write_loop zero w buf size off = if ltb w.total size then (λ _. out_of_fuel) else pure w
  write_loop (suc fuel) w buf size off =
      if ltb w.total size
      then (do
        w' ← block_for_write w off
        if is_enomem w'.ret then pure w' else (do
          total ← write_chunk w' buf size off
          write_loop fuel (record w' { total = total }) buf size (off + (total - w'.total))))
      else pure w

  -- `total` is returned; the file information is changed. Each round moves `total` on, so that
  -- `size` rounds are enough. An empty write reads `ret` before it is set, to no effect.
  unfoldable pub fs_write_file : FileInfo → List ℕ → ℕ → ℕ → Fs d (ℕ × FileInfo)
  fs_write_file file buf size off = do
    let old_file_sz = u32 (inode_get_size file.inode)
    w ← write_loop size (start_writing file.inode) buf size off
    if is_enomem w.ret then pure tt else assert_eq w.total size
    let new_size = if ltb off old_file_sz then w.total else u64 (w.total + old_file_sz)
    let inode = inode_set_size w.inode new_size
    fs_save_inode d inode file.idx
    pure (w.total, record file { inode = inode })

  -- The caller's buffer after a read into it at `total`.
  abbrev pub filled_at : List ℕ → ℕ → List ℕ → List ℕ
  filled_at buf total bytes = take total buf ++ (bytes ++ drop (total + length bytes) buf)

  -- The loop of `fs_read_file`, on fuel: the code, `total` and the buffer.
  unfoldable pub read_loop : ℕ → Inode → List ℕ → ℕ → ℕ → Option ℕ → ℕ → Fs d (Code × ℕ × List ℕ)
  read_loop zero inode buf size off blk_idx total =
      if ltb total size then (λ _. out_of_fuel) else pure (err_ok, total, buf)
  read_loop (suc fuel) inode buf size off blk_idx total =
      if ltb total size
      then (do
        (ret, found_idx) ← fs_find_blk d inode off blk_idx
        if not (is_ok ret) then pure (ret, total, buf) else (do
          fs ← get
          require (ltb 0 fs.sb.block_size)
          idx ← defined found_idx
          offset ← fs_data_to_offset d idx
          let off_inblk = off_in_block off fs.sb.block_size
          let rlen = chunk fs.sb.block_size size total off_inblk
          require (leb (total + rlen) (length buf))
          bytes ← on_device d (device_data_load d (u64 (off_inblk + offset)) rlen)
          read_loop fuel inode (filled_at buf total bytes) size (off + rlen) found_idx
              (total + rlen)))
      else pure (err_ok, total, buf)

  -- A code other than CHISAI_ERR_OK is returned, else `total`.
  unfoldable pub fs_read_file : FileInfo → List ℕ → ℕ → ℕ → Fs d (Code × ℕ × List ℕ)
  fs_read_file file buf size off =
      let size' = min size file.inode.size in read_loop size' file.inode buf size' off none 0

  -- The loop of `fs_truncate_file`, from the last block down, with the rounds left.
  unfoldable pub release_loop : ℕ → ℕ → Inode → Fs d Inode
  release_loop new_blkcnt zero inode = pure inode
  release_loop new_blkcnt (suc left) inode = do
    data_idx ← defined (get_elem? inode.direct_blks (new_blkcnt + left))
    assert_ne data_idx 0
    fs_data_release d data_idx
    let direct_blks = set inode.direct_blks (new_blkcnt + left) 0
    release_loop new_blkcnt left (record inode { direct_blks = direct_blks })

  unfoldable pub fs_truncate_file : FileInfo → ℕ → Fs d (Code × FileInfo)
  fs_truncate_file file trct_size = do
    fs ← get
    require (ltb 0 fs.sb.block_size)
    let new_blkcnt = trct_size / fs.sb.block_size
    assert_ge file.inode.size trct_size
    released ← release_loop new_blkcnt (inode_get_blkcnt file.inode - new_blkcnt) file.inode
    let inode = inode_set_size released trct_size
    fs_save_inode d inode file.idx
    pure (err_ok, record file { inode = inode })
