-- ===== src/Fs/Content/Back.antt =====
-- `fs_read_file` behind `fs_write_file`.
use mathlib.Core.Path.{subst}
use chisai_fs.Base.{
  ℕ, ◌+◌, ◌*◌, ◌^◌, ◌≤◌, ◌<◌, ◌≡◌, ◌⊎◌, inl, inr, ap, ◌∙◌, List, arith, ltb, if◌then◌else◌, get_or,
  take, length, take_ext, u32, IsBytes,
}
use chisai_fs.Base.Outcome.{ok}
use chisai_fs.Device.{Device}
use chisai_fs.Device.Laws.{DeviceLaws}
use chisai_fs.Fs.{Filesystem, FileInfo, err_ok}
use chisai_fs.Fs.Content.{HasByte, IsFile}
use chisai_fs.Fs.Content.Read.{read_size, fs_read_file-IsRead}
use chisai_fs.Fs.Content.Room.{IsFull}
use chisai_fs.Fs.Content.Save.{fs_write_file-SavesFile}
use chisai_fs.Fs.File.{fs_read_file, fs_write_file}
use chisai_fs.Fs.Tree.{image, IsMounted, HasInode}
use chisai_fs.Superblock.{Superblock}

le_new_size :
    (off old total bytes : ℕ) → bytes ≡ (if ltb off old then total else total + old) → total ≤ bytes
le_new_size off old total bytes sized = ground (arith, sized)

module _ {d : Device} {size : ℕ} {byte : d.State → ℕ → ℕ} (laws : DeviceLaws d size byte) where
  -- A file that has the bytes of `buf` is read.
  read_back :
      (fs' : Filesystem d) (file' : FileInfo) (buf out : List ℕ) (total off k : ℕ)
      → IsMounted size (image byte fs')
      → IsFile (image byte fs') file'.inode
      → fs'.sb.block_size ≡ 2 ^ k
      → total ≤ file'.inode.size
      → ((i : ℕ) → i < total → HasByte (image byte fs') file'.inode (off + i) (get_or buf i 0))
      → total ≤ length buf
      → total ≤ length out
      → (fs'' : Filesystem d) × (out' : List ℕ) × (fs_read_file d file' out total off fs'
          ≡ ok (err_ok, total, out') fs'')
        × (take total out' ≡ take total buf)
  read_back fs' file' buf out total off k v f power inside written enough room =
      let whole : read_size total file'.inode ≡ total = ground arith in
      let has =
        λ (i : ℕ) (lt : i < read_size total file'.inode). written i (omega (arith, whole, lt)) in
      let (out', s', runs, holds, read) =
        fs_read_file-IsRead laws fs' file' out total off k (λ i. get_or buf i 0) v f power has
          (omega (arith, whole)) in
      (
        record fs' { device = s' },
        out',
        subst
            (λ n.
              fs_read_file d file' out total off fs'
              ≡ ok (err_ok, n, out') (record fs' { device = s' }))
            whole runs,
        take_ext 0 total out' buf (omega (arith, read.same_length)) enough
            (λ i lt. read.bytes i (omega (arith, whole, lt))),
      )

  -- Bytes are written at an offset in the direct blocks of a file that is on a mounted device, whose
  -- block size is a power of two, from a buffer that has as many, and read back into a buffer that
  -- has room for them. Then `fs_write_file` returns how many it wrote, which are all or else no data
  -- block is left, and `fs_read_file` gives just these.
  pub fs_read_file-fs_write_file :
      (fs : Filesystem d) (file : FileInfo) (buf out : List ℕ) (count off k : ℕ)
      → IsMounted size (image byte fs)
      → fs.sb.block_size ≡ 2 ^ k
      → IsFile (image byte fs) file.inode
      → HasInode (image byte fs) file.idx file.inode
      → off + count ≤ 12 * 2 ^ k
      → count ≤ length buf
      → IsBytes buf
      → count ≤ length out
      → (total : ℕ) × (file' : FileInfo) × (fs' fs'' : Filesystem d) × (out' : List ℕ)
        × (fs_write_file d file buf count off fs ≡ ok (total, file') fs')
        × ((total ≡ count) ⊎ ((total ≤ count) × IsFull (image byte fs')))
        × (fs_read_file d file' out total off fs' ≡ ok (err_ok, total, out') fs'')
        × (take total out' ≡ take total buf)
  fs_read_file-fs_write_file fs file buf out count off k v power f h small enough bytes room =
      let (total, inode, fs', wrote, all, sized, saved) =
        fs_write_file-SavesFile laws fs file buf count off k v power f h small enough bytes in
      let within : total ≤ count = elim all [ inl e ↦ omega (arith, e) | inr (le, _) ↦ le ] in
      let inside : total ≤ inode.size =
        le_new_size off (u32 file.inode.size) total inode.size sized in
      let power' : fs'.sb.block_size ≡ 2 ^ k =
        ap (λ (x : Superblock). x.block_size) saved.same_sb ∙ power in
      let file' : FileInfo = record file { inode = inode } in
      let (fs'', out', read, same) =
        read_back fs' file' buf out total off k saved.mounted saved.file power' inside saved.written
          (omega (arith, within, enough)) (omega (arith, within, room)) in
      (total, file', fs', fs'', out', wrote, all, read, same)
