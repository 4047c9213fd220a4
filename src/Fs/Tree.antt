-- ===== src/Fs/Tree.antt =====
-- The tree of files and directories that a mounted device holds, apart from the code that walks it:
-- the inodes and directories that stand on the device, and where a path leads.
pub mod Reads
pub mod Walk
pub mod Grows
pub mod Writes
pub mod DirWrites
pub mod Stored
pub mod Allocs
pub mod Parent
pub mod Saves
pub mod Insert
pub mod Make
pub mod MadeDir
pub mod Mkdir
pub mod Errors
pub mod Full
pub mod Root
pub mod Removed
pub mod Init
use chisai_fs.Base.{ℕ, ◌+◌, ◌-◌, ◌*◌, ◌≤◌, ◌≡◌, some, List, [], ◌∷◌, get_elem?, length}
use chisai_fs.Base.CString.{IsString}
use chisai_fs.BlockGroup.{BlockGroup, Kind}
use chisai_fs.BlockGroup.Valid
use chisai_fs.BlockGroup.Valid.{taken}
use chisai_fs.Device.{Device}
use chisai_fs.Device.Laws.{slice}
use chisai_fs.Dir.{Dir}
use chisai_fs.Dir.Entries
use chisai_fs.Dir.Entries.{entries, lookup}
use chisai_fs.Dir.Store.{dir_bytes, dir_encode}
use chisai_fs.Fs.{Filesystem, inode_offset, data_offset}
use chisai_fs.Fs.Layout.{IsLaidOut, IsIndex}
use chisai_fs.Fs.Path.{tokens}
use chisai_fs.Inode.{Inode, inode_bytes, inode_encode, root_inode}
use chisai_fs.Inode.Laws
use chisai_fs.Superblock.{Superblock}

-- What the tree depends on: the layout, the bitmaps in memory and the bytes of the device. The free
-- counts of the superblock are left out.
pub record Image : Type 0 where
  pub sb : Superblock
  pub total : ℕ
  pub blk_grps : List BlockGroup
  pub bytes : ℕ → ℕ

abbrev pub without_counts : Superblock → Superblock
without_counts sb = record sb { free_blocks = 0; free_inodes = 0 }

abbrev pub image : {d : Device} → (d.State → ℕ → ℕ) → Filesystem d → Image
image byte fs = record {
  sb = without_counts fs.sb;
  total = fs.blkgrp_size;
  blk_grps = fs.blk_grps;
  bytes = byte fs.device;
}

-- The bitmaps are well-formed and as many as the layout says, all groups lie on a device of `size`
-- bytes, and a directory fits in a block.
pub record IsMounted (size : ℕ) (m : Image) : Type 0 where
  pub laid_out : IsLaidOut m.sb m.total
  pub groups : Valid.IsValid m.sb.data_block_per_groups m.blk_grps
  pub all_groups : length m.blk_grps ≡ m.sb.groups
  pub room : m.sb.block_size + m.sb.groups * m.total ≤ size
  pub wide : dir_bytes ≤ m.sb.block_size

abbrev pub marked : Image → Kind → ℕ → ℕ
marked m k idx = taken k m.sb.data_block_per_groups m.blk_grps (idx - 1)

-- The index is taken, and the inode stands in its place.
pub record HasInode (m : Image) (idx : ℕ) (inode : Inode) : Type 0 where
  pub index : IsIndex m.sb idx
  pub used : marked m Kind.inodes idx ≡ 1
  pub stored : slice m.bytes (inode_offset m.sb m.total idx) inode_bytes ≡ inode_encode inode
  pub valid : Laws.IsValid inode

-- The data block is taken, and the directory stands in it.
pub record HasDir (m : Image) (idx : ℕ) (dir : Dir) : Type 0 where
  pub index : IsIndex m.sb idx
  pub used : marked m Kind.blocks idx ≡ 1
  pub stored : slice m.bytes (data_offset m.sb m.total idx) dir_bytes ≡ dir_encode dir
  pub valid : Entries.IsValid dir

-- The components `tokens` lead from an inode to the target, through directories that have each of
-- them as an entry.
pub data Leads (m : Image) (target : ℕ) (target_inode : Inode)
    : List (List ℕ) → ℕ → Inode → Type 0 where
  here : Leads m target target_inode [] target target_inode
  step :
      {idx block next : ℕ} {inode next_inode : Inode} {dir : Dir} {token : List ℕ}
      {rest : List (List ℕ)}
      → get_elem? inode.direct_blks 0 ≡ some block
      → HasDir m block dir
      → IsString token
      → lookup token (entries dir) ≡ next
      → 1 ≤ next
      → HasInode m next next_inode
      → Leads m target target_inode rest next next_inode
      → Leads m target target_inode (token ∷ rest) idx inode

-- The path leads from the root to the inode.
pub record Resolves (m : Image) (path : List ℕ) (idx : ℕ) (inode : Inode) : Type 0 where
  pub root : Inode
  pub has_root : HasInode m root_inode root
  pub leads : Leads m idx inode (tokens path) root_inode root
