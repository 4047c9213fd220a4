-- ===== src/Fs/Content.antt =====
-- The contents of a file, apart from the code that reads and writes them: the byte at each position,
-- in the direct blocks of its inode.
pub mod Blocks
pub mod Chunks
pub mod Rounds
pub mod Room
pub mod Loop
pub mod Save
pub mod Reads
pub mod Read
pub mod Back
pub mod Cut
pub mod Truncated
use chisai_fs.Base.{ℕ, ◌+◌, ◌*◌, ◌/◌, ◌%◌, ◌≤◌, ◌<◌, ◌≡◌, ◌≢◌, ◌⊎◌, List, get_or}
use chisai_fs.BlockGroup.{Kind}
use chisai_fs.Dir.{Dir}
use chisai_fs.Fs.{data_offset}
use chisai_fs.Fs.Layout.{IsIndex}
use chisai_fs.Fs.Tree.{Image, IsMounted, marked, HasInode, HasDir}
use chisai_fs.Inode.{Inode}
use chisai_fs.Inode.Laws

-- The data block behind the `n`-th direct block of a file, 0 where there is none.
abbrev pub nth_block : Inode → ℕ → ℕ
nth_block inode n = get_or inode.direct_blks n 0

-- Where the byte at a position of the file stands on the device.
abbrev pub address : Image → Inode → ℕ → ℕ
address m inode pos =
    data_offset m.sb m.total (nth_block inode (pos / m.sb.block_size)) + pos % m.sb.block_size

-- The file has the byte `v` at the position.
pub record HasByte (m : Image) (inode : Inode) (pos v : ℕ) : Type 0 where
  pub direct : pos / m.sb.block_size < 12
  pub there : 1 ≤ nth_block inode (pos / m.sb.block_size)
  pub stored : m.bytes (address m inode pos) ≡ v

-- The direct blocks of a file are taken, and no two of them are the same.
pub record IsFile (m : Image) (inode : Inode) : Type 0 where
  pub valid : Laws.IsValid inode
  pub blocks :
      (n : ℕ)
      → n < 12
      → 1 ≤ nth_block inode n
      → IsIndex m.sb (nth_block inode n) × (marked m Kind.blocks (nth_block inode n) ≡ 1)
  pub apart :
      (n n' : ℕ)
      → n < 12
      → n' < 12
      → n ≢ n'
      → 1 ≤ nth_block inode n
      → nth_block inode n ≢ nth_block inode n'

-- A data block that the file does not have.
abbrev pub IsForeign : Inode → ℕ → Type 0
IsForeign inode block = (n : ℕ) → n < 12 → nth_block inode n ≢ block

-- What a write of the bytes `lo` to `hi` of `buf` at the position `off` makes of the image and the
-- inode: the file has them there, and all that was elsewhere in the file, and outside the file, is
-- as it was.
pub record Wrote (size : ℕ) (buf : List ℕ) (off lo hi : ℕ) (m : Image) (inode : Inode) (m' : Image)
    (inode' : Inode) : Type 0 where
  pub mounted : IsMounted size m'
  pub same_sb : m'.sb ≡ m.sb
  pub file : IsFile m' inode'
  pub same_size : inode'.size ≡ inode.size
  pub written : (i : ℕ) → lo ≤ i → i < hi → HasByte m' inode' (off + i) (get_or buf i 0)
  pub kept :
      (pos v : ℕ)
      → (pos < off + lo) ⊎ (off + hi ≤ pos)
      → HasByte m inode pos v
      → HasByte m' inode' pos v
  pub inodes : (idx : ℕ) (other : Inode) → HasInode m idx other → HasInode m' idx other
  pub dirs :
      (block : ℕ) (dir : Dir)
      → HasDir m block dir
      → IsForeign inode block
      → HasDir m' block dir × IsForeign inode' block

-- What `fs_write_file` makes of the image and the inode of a file: the first `total` bytes of `buf`
-- are in the file at `off`, the inode is on the device, and all else is as it was.
pub record Saved (size : ℕ) (buf : List ℕ) (off total idx : ℕ) (m : Image) (inode : Inode)
    (m' : Image) (inode' : Inode) : Type 0 where
  pub mounted : IsMounted size m'
  pub same_sb : m'.sb ≡ m.sb
  pub file : IsFile m' inode'
  pub on_disk : HasInode m' idx inode'
  pub written : (i : ℕ) → i < total → HasByte m' inode' (off + i) (get_or buf i 0)
  pub kept :
      (pos v : ℕ)
      → (pos < off) ⊎ (off + total ≤ pos)
      → HasByte m inode pos v
      → HasByte m' inode' pos v
  pub inodes : (j : ℕ) (other : Inode) → j ≢ idx → HasInode m j other → HasInode m' j other
  pub dirs :
      (block : ℕ) (dir : Dir) → HasDir m block dir → IsForeign inode block → HasDir m' block dir
