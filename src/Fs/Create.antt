-- ===== src/Fs/Create.antt =====
-- The operations on the directory tree: `fs_get_data`, `fs_mkdir`, `fs_create_file`,
-- `fs_rename_file`, `fs_remove_file`.
use chisai_fs.Base.{
  ℕ, ◌+◌, ◌-◌, bit_or, Bool, true, false, Option, none, some, List, [], ◌∷◌, ◌==◌, ltb,
  if◌then◌else◌, get_elem?, u32,
}
use chisai_fs.Base.CString.{strcpy, c_str, has_nul}
use chisai_fs.Base.Outcome.{aborted, pure, defined, ◌>>=◌, ◌>>◌}
use chisai_fs.Device.{Device}
use chisai_fs.Dir.{Dir, dir_init, dir_file_inode_idx, dir_insert, dir_remove}
use chisai_fs.Fs.{
  Code, err_ok, enoent, enomem, eexist, corrupt, DirInfo, FileInfo, Fs, s_ifdir, s_rwx,
  fs_find_inode, fs_inode_alloc, fs_data_alloc, fs_inode_release, fs_data_release, fs_save_inode,
  fs_save_dir,
}
use chisai_fs.Fs.Path.{failed, parent, fs_path_to_parent}
use chisai_fs.Inode.{
  Inode, inode_init, inode_set_mode, inode_set_nlink, inode_set_size, inode_add_block,
}

-- What `fs_get_data` leaves in the caller's hands: whether it returned 1, the directory information
-- with its position, the mode in the file information, and the name.
pub record Entry : Type 0 where
  pub more : Bool
  pub dir : DirInfo
  pub mode : ℕ
  pub name : List ℕ

abbrev next_entry : DirInfo → Option (List ℕ) → Option Entry
next_entry dir none = none
next_entry dir (some name) = some (record {
  more = true;
  dir = record dir { pos = u32 (dir.pos + 1) };
  mode = s_ifdir + s_rwx;
  name = name;
})

-- The source string of a strcpy, read from an array.
abbrev string_in : List ℕ → Option (List ℕ)
string_in array = if has_nul array then some (c_str array) else none

-- `name` is the caller's array. Of the file information, which is zeroed, only the mode is set.
unfoldable pub fs_get_data : DirInfo → List ℕ → Option Entry
fs_get_data dir name =
    if dir.pos == 0
    then next_entry dir (strcpy name (b'.' ∷ []))
    else if dir.pos == 1
    then next_entry dir (strcpy name (b'.' ∷ b'.' ∷ []))
    else if ltb (dir.pos - 2) dir.dir.size
    then elim (get_elem? dir.dir.node (dir.pos - 2)) [
      | none ↦ none
      | some n ↦ elim (string_in n.name) [ none ↦ none | some s ↦ next_entry dir (strcpy name s) ]
    ]
    else some (record { more = false; dir = dir; mode = 0; name = name })

-- S_IFDIR | mode
abbrev pub dir_mode : ℕ → ℕ
dir_mode mode = bit_or s_ifdir mode

-- The inode of a new directory, whose entries stand in the block `data_idx`.
unfoldable pub new_dir_inode : ℕ → ℕ → Inode
new_dir_inode mode data_idx =
    let inode = inode_set_nlink (inode_set_mode inode_init (dir_mode mode)) 2 in
    inode_add_block (inode_set_size inode 0x1000) data_idx

module _ (d : Device) where
  -- Step 3 of `fs_mkdir` and `fs_create_file`: a directory that is full is saved as it was.
  unfoldable pub insert_into : Inode → Dir → List ℕ → ℕ → Fs d (Unit {0})
  insert_into parent_inode parent_dir file_path inode_idx = do
    (_, dir) ← defined (dir_insert parent_dir file_path inode_idx)
    data_idx ← defined (get_elem? parent_inode.direct_blks 0)
    fs_save_dir d dir data_idx

  unfoldable pub make_dir : Inode → Dir → List ℕ → ℕ → Fs d Code
  make_dir parent_inode parent_dir file_path mode = do
    new_data_idx ← fs_data_alloc d
    if new_data_idx == 0 then pure enomem else (do
      new_inode_idx ← fs_inode_alloc d
      if new_inode_idx == 0 then pure enomem else (do
        insert_into parent_inode parent_dir file_path new_inode_idx
        fs_save_inode d (new_dir_inode mode new_data_idx) new_inode_idx
        fs_save_dir d dir_init new_data_idx
        pure err_ok))

  unfoldable pub fs_mkdir : List ℕ → ℕ → Fs d Code
  unfolding make_dir
  fs_mkdir path mode = do
    found ← fs_path_to_parent d path
    elim found [
      | failed code ↦ pure code
      | parent parent_inode parent_dir file_path ↦ do
        idx ← defined (dir_file_inode_idx parent_dir file_path)
        if idx == 0 then make_dir parent_inode parent_dir file_path mode else pure eexist
    ]

  unfoldable pub make_file : Inode → Dir → List ℕ → ℕ → Fs d (Code × Option FileInfo)
  make_file parent_inode parent_dir file_path mode = do
    new_inode_idx ← fs_inode_alloc d
    if new_inode_idx == 0 then pure (enomem, none) else (do
      insert_into parent_inode parent_dir file_path new_inode_idx
      let inode = inode_set_mode inode_init mode
      fs_save_inode d inode new_inode_idx
      pure (err_ok, some (record { inode = inode; idx = new_inode_idx })))

  -- With the file information that is handed back.
  unfoldable pub fs_create_file : List ℕ → ℕ → Fs d (Code × Option FileInfo)
  unfolding make_file
  fs_create_file path mode = do
    found ← fs_path_to_parent d path
    elim found [
      | failed code ↦ pure (code, none)
      | parent parent_inode parent_dir file_path ↦ do
        idx ← defined (dir_file_inode_idx parent_dir file_path)
        if idx == 0 then make_file parent_inode parent_dir file_path mode else pure (eexist, none)
    ]

  -- The second half of `fs_rename_file`.
  move_to : List ℕ → ℕ → Fs d Code
  move_to to inode_idx = do
    found ← fs_path_to_parent d to
    elim found [
      | failed code ↦ pure code
      | parent parent_inode parent_dir file_path ↦ do
        (inserted, dir) ← defined (dir_insert parent_dir file_path inode_idx)
        if inserted
            then (do
              data_idx ← defined (get_elem? parent_inode.direct_blks 0)
              fs_save_dir d dir data_idx
              pure err_ok)
            else pure corrupt
    ]

  unfoldable pub fs_rename_file : List ℕ → List ℕ → Fs d Code
  unfolding move_to
  fs_rename_file from to = do
    found ← fs_path_to_parent d from
    elim found [
      | failed code ↦ pure code
      | parent parent_inode parent_dir file_path ↦ do
        inode_idx ← defined (dir_file_inode_idx parent_dir file_path)
        if inode_idx == 0 then pure enoent else (do
          (removed, dir) ← defined (dir_remove parent_dir file_path)
          if removed == 0 then pure corrupt else (do
            data_idx ← defined (get_elem? parent_inode.direct_blks 0)
            fs_save_dir d dir data_idx
            move_to to inode_idx))
    ]

  unfoldable pub fs_remove_file : List ℕ → Fs d Code
  fs_remove_file path = do
    found ← fs_path_to_parent d path
    elim found [
      | failed code ↦ pure code
      | parent parent_inode parent_dir file_path ↦ do
        (inode_idx, dir) ← defined (dir_remove parent_dir file_path)
        inode ← fs_find_inode d inode_idx
        elim inode [
          | none ↦ λ _. aborted
          | some inode ↦ do
            data_idx ← defined (get_elem? inode.direct_blks 0)
            fs_data_release d data_idx
            fs_inode_release d inode_idx
            dir_idx ← defined (get_elem? parent_inode.direct_blks 0)
            fs_save_dir d dir dir_idx
            pure err_ok
        ]
    ]
