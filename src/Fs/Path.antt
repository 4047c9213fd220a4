-- ===== src/Fs/Path.antt =====
-- Paths: `fs_path_to_inode`, `__fs_get_dir`, `fs_path_to_parent`, `fs_get_metadata`, `fs_get_dir`.
-- A path is the list of its bytes. `strdup` is taken to succeed.
pub mod Tokens
use chisai_fs.Base.{
  ℕ, Option, none, some, List, [], ◌∷◌, ◌==◌, ltb, if◌then◌else◌, get_elem?, replicate, length,
}
use chisai_fs.Base.CString.{strcpy}
use chisai_fs.Base.Outcome.{pure, defined, ◌>>=◌}
use chisai_fs.Config.{chisai_file_len}
use chisai_fs.Device.{Device}
use chisai_fs.Dir.{Dir, dir_file_inode_idx}
use chisai_fs.Fs.{
  Code, err_ok, enoent, corrupt, enametoolong, DirInfo, FileInfo, Fs, fs_find_inode, fs_find_dir,
}
use chisai_fs.Inode.{Inode, root_inode}

-- The parts of a path between its slashes: the first, and the others.
pub segments : List ℕ → List ℕ × List (List ℕ)
segments [] = ([], [])
segments (c ∷ cs) =
    let (first, rest) = segments cs in if c == b'/' then ([], first ∷ rest) else (c ∷ first, rest)

pub drop_empty : List (List ℕ) → List (List ℕ)
drop_empty [] = []
drop_empty ([] ∷ ts) = drop_empty ts
drop_empty ((c ∷ cs) ∷ ts) = (c ∷ cs) ∷ drop_empty ts

-- The tokens that strtok(path, "/") gives in turn.
unfoldable pub tokens : List ℕ → List (List ℕ)
unfolding segments drop_empty
tokens path = let (first, rest) = segments path in drop_empty (first ∷ rest)

-- strrchr(path, '/'): what stands before the last slash and behind it.
unfoldable pub split_last : List ℕ → Option (List ℕ × List ℕ)
split_last [] = none
split_last (c ∷ cs) = elim (split_last cs) [
  | some (parent, file) ↦ some (c ∷ parent, file)
  | none ↦ if c == b'/' then some ([], cs) else none
]

-- What `fs_path_to_parent` hands back: a code, or the parent's inode, its directory and the name.
pub data Parent : Type 0 where
  failed : Code → Parent
  parent : Inode → Dir → List ℕ → Parent

module _ (d : Device) where
  -- The loop of `fs_path_to_inode`, over the tokens left. `none` is NO_INODE.
  unfoldable pub walk : List (List ℕ) → ℕ → Inode → Fs d (Option (ℕ × Inode))
  walk [] inode_idx inode = pure (some (inode_idx, inode))
  walk (token ∷ rest) inode_idx inode = do
    data_idx ← defined (get_elem? inode.direct_blks 0)
    found ← fs_find_dir d data_idx
    elim found [
      | none ↦ pure none
      | some dir ↦ do
        next_idx ← defined (dir_file_inode_idx dir token)
        if next_idx == 0 then pure none else (do
          next ← fs_find_inode d next_idx
          elim next [ none ↦ pure none | some next_inode ↦ walk rest next_idx next_inode ])
    ]

  unfoldable pub fs_path_to_inode : List ℕ → Fs d (Option (ℕ × Inode))
  fs_path_to_inode path = do
    root ← fs_find_inode d root_inode
    elim root [ none ↦ pure none | some inode ↦ walk (tokens path) root_inode inode ]

  -- `none` for the file information where a code other than CHISAI_ERR_OK is returned.
  unfoldable pub fs_get_metadata : List ℕ → Fs d (Code × Option FileInfo)
  fs_get_metadata path = do
    found ← fs_path_to_inode path
    pure (elim found [
      | none ↦ (enoent, none)
      | some (idx, inode) ↦ (err_ok, some (record { inode = inode; idx = idx }))
    ])

  -- __fs_get_dir, with the name that the caller keeps.
  unfoldable pub get_parent_dir : List ℕ → List ℕ → Fs d Parent
  get_parent_dir path name = do
    found ← fs_path_to_inode path
    elim found [
      | none ↦ pure (failed enoent)
      | some (_, dir_inode) ↦ do
        data_idx ← defined (get_elem? dir_inode.direct_blks 0)
        dir ← fs_find_dir d data_idx
        pure (elim dir [ none ↦ failed corrupt | some dir ↦ parent dir_inode dir name ])
    ]

  unfoldable pub fs_get_dir : List ℕ → Fs d (Code × Option DirInfo)
  unfolding get_parent_dir
  fs_get_dir path = do
    found ← get_parent_dir path []
    pure (elim found [
      | failed code ↦ (code, none)
      | parent _ dir _ ↦ (err_ok, some (record { dir = dir; pos = 0 }))
    ])

  -- The name is copied to the caller's array of CHISAI_FILE_LEN bytes before its length is tested.
  unfoldable pub fs_path_to_parent : List ℕ → Fs d Parent
  unfolding get_parent_dir
  fs_path_to_parent path = do
    (parent_path, file_path) ← defined (split_last path)
    _ ← defined (strcpy (replicate chisai_file_len 0) file_path)
    if ltb chisai_file_len (length file_path)
        then pure (failed enametoolong)
        else get_parent_dir parent_path file_path
