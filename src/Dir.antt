-- ===== src/Dir.antt =====
-- src/chisai-core/dir.c and include/chisai-core/dir.h: a directory, its 488 bytes on the device, and
-- its three operations. `none` is an access outside an array.
pub mod Entries
pub mod Store
pub mod Bytes
pub mod Lookup
pub mod Insert
pub mod Remove
use chisai_fs.Base.{
  ℕ, zero, suc, ◌+◌, ◌-◌, Bool, true, false, Option, none, some, List, [], ◌∷◌, ◌++◌, ◌==◌, leb,
  ◌>>=◌, if◌then◌else◌, get_elem?, set, replicate, take, drop, le_bytes, of_bytes, length,
}
use chisai_fs.Base.CString.{strcmp_eq, strcpy}
use chisai_fs.Config.{chisai_file_len, chisai_file_per_dir}

pub record DirNode : Type 0 where
  pub name : List ℕ
  pub idx : ℕ

pub record Dir : Type 0 where
  pub node : List DirNode
  pub size : ℕ
  pub checksum : ℕ

abbrev pub blank_node : DirNode
blank_node = record { name = replicate chisai_file_len 0; idx = 0 }

unfoldable pub dir_init : Dir
dir_init = record { node = replicate chisai_file_per_dir blank_node; size = 0; checksum = 0 }

-- The loop with the rounds left, at node `i`.
dir_file_inode_idx_loop : Dir → List ℕ → ℕ → ℕ → Option ℕ
dir_file_inode_idx_loop dir file_path zero i = some 0
dir_file_inode_idx_loop dir file_path (suc left) i =
    let continue = dir_file_inode_idx_loop dir file_path left (i + 1) in
    do
      n ← get_elem? dir.node i
      same ← strcmp_eq n.name file_path
      if same then some n.idx else continue

-- The inode index of a file, 0 where the directory has none of that name.
unfoldable pub dir_file_inode_idx : Dir → List ℕ → Option ℕ
unfolding dir_file_inode_idx_loop
dir_file_inode_idx dir file_path = dir_file_inode_idx_loop dir file_path dir.size 0

unfoldable pub dir_insert : Dir → List ℕ → ℕ → Option (Bool × Dir)
dir_insert dir file_path inode_idx =
    if leb chisai_file_per_dir dir.size then some (false, dir) else do
      n ← get_elem? dir.node dir.size
      name ← strcpy n.name file_path
      some (
        true,
        record dir {
          node = set dir.node dir.size (record { name = name; idx = inode_idx });
          size = dir.size + 1;
        },
      )

-- The last node takes the place of node `i`.
dir_remove_at : Dir → ℕ → Option Dir
dir_remove_at dir i = do
  last ← get_elem? dir.node (dir.size - 1)
  some (record dir { node = set dir.node i last; size = dir.size - 1 })

dir_remove_loop : Dir → List ℕ → ℕ → ℕ → Option (ℕ × Dir)
dir_remove_loop dir file_path zero i = some (0, dir)
dir_remove_loop dir file_path (suc left) i =
    let continue = dir_remove_loop dir file_path left (i + 1) in
    do
      n ← get_elem? dir.node i
      same ← strcmp_eq n.name file_path
      if same then (do dir' ← dir_remove_at dir i; some (n.idx, dir')) else continue

-- The inode index of the file that was removed, 0 where there is none.
unfoldable pub dir_remove : Dir → List ℕ → Option (ℕ × Dir)
unfolding dir_remove_loop dir_remove_at
dir_remove dir file_path = dir_remove_loop dir file_path dir.size 0
