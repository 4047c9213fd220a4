-- ===== src/Mount/Tree.antt =====
-- The handlers on the directory tree: attributes, directories, names.
use mathlib.Core.Option
use chisai_fs.Base.{
  ℕ, zero, suc, ◌+◌, Bool, true, false, Option, none, some, List, [], ◌∷◌, replicate, if◌then◌else◌,
}
use chisai_fs.Base.Outcome.{out_of_fuel, pure, defined, ◌>>=◌, ◌>>◌}
use chisai_fs.Device.{Device}
use chisai_fs.Fs.{err_ok, einval, DirInfo, FileInfo}
use chisai_fs.Fs.Create.{fs_get_data, fs_mkdir, fs_rename_file, fs_remove_file}
use chisai_fs.Fs.Path.{fs_get_metadata, fs_get_dir}
use chisai_fs.Mount.{
  Ret, code, eperm, Stat, chisai_fuse_tostat, unset, dir, Fuse, on_fs, malloc_object, free_object,
  store_object, load_dir,
}

-- The file information that `fs_get_data` leaves: zeros but for the mode.
abbrev pub info_of_mode : ℕ → FileInfo
info_of_mode mode = record {
  inode = record {
    mode = mode;
    nlink = 0;
    blkcnt = 0;
    size = 0;
    direct_blks = replicate 12 0;
    indirect_blk = 0;
    double_indirect_blk = 0;
  };
  idx = 0;
}

-- The arguments of one call of `filler`, which are the name's array and the attributes.
abbrev pub Filled : Type 0
Filled = List ℕ × Stat

module _ (d : Device) where
  -- `some_stat` says whether the caller's `struct stat` is there.
  unfoldable pub chisai_fuse_getattr : Option (List ℕ) → Bool → Fuse d (Ret × Option Stat)
  chisai_fuse_getattr none some_stat = pure (code einval, none)
  chisai_fuse_getattr (some path) false = pure (code einval, none)
  chisai_fuse_getattr (some path) true = do
    (err, found) ← on_fs d (fs_get_metadata d path)
    pure (code err, Option.map chisai_fuse_tostat found)

  unfoldable pub chisai_fuse_access : Option (List ℕ) → Fuse d Ret
  chisai_fuse_access none = pure (code einval)
  chisai_fuse_access (some path) = do (err, _) ← on_fs d (fs_get_metadata d path); pure (code err)

  unfoldable pub chisai_fuse_mkdir : List ℕ → ℕ → Fuse d Ret
  chisai_fuse_mkdir path mode = do err ← on_fs d (fs_mkdir d path mode); pure (code err)

  unfoldable pub chisai_fuse_unlink : List ℕ → Fuse d Ret
  chisai_fuse_unlink path = do err ← on_fs d (fs_remove_file d path); pure (code err)

  unfoldable pub chisai_fuse_rename : List ℕ → List ℕ → Fuse d Ret
  chisai_fuse_rename from to = do err ← on_fs d (fs_rename_file d from to); pure (code err)

  -- The second result is the new `fi->fh`.
  unfoldable pub chisai_fuse_opendir : Option (List ℕ) → Option ℕ → Fuse d (Ret × Option ℕ)
  chisai_fuse_opendir none fi = pure (code einval, fi)
  chisai_fuse_opendir (some path) none = pure (code einval, none)
  chisai_fuse_opendir (some path) (some fh) = do
    new_fh ← malloc_object d unset
    (err, found) ← on_fs d (fs_get_dir d path)
    elim found [
      | none ↦ do free_object d new_fh; pure (code err, some fh)
      | some info ↦ do store_object d new_fh (dir info); pure (code err_ok, some new_fh)
    ]

  unfoldable pub chisai_fuse_releasedir : Option (List ℕ) → Option ℕ → Fuse d Ret
  chisai_fuse_releasedir none fi = pure (code einval)
  chisai_fuse_releasedir (some path) none = pure (code einval)
  chisai_fuse_releasedir (some path) (some fh) = do free_object d fh; pure eperm

  -- The loop, on fuel: what `filler` is called with, and the directory information afterwards.
  unfoldable pub readdir_loop : ℕ → DirInfo → List ℕ → Fuse d (List Filled × DirInfo)
  readdir_loop zero info name = λ _. out_of_fuel
  readdir_loop (suc fuel) info name = do
    entry ← defined (fs_get_data info name)
    if entry.more
        then (do
          (rest, last) ← readdir_loop fuel entry.dir entry.name
          pure ((entry.name, chisai_fuse_tostat (info_of_mode entry.mode)) ∷ rest, last))
        else pure ([], info)

  -- `name` is what the handler's array holds at first. Each round moves `pos` on.
  unfoldable pub chisai_fuse_readdir :
      Option (List ℕ) → Bool → Option ℕ → List ℕ → Fuse d (Ret × List Filled)
  chisai_fuse_readdir none buf fi name = pure (code einval, [])
  chisai_fuse_readdir (some path) false fi name = pure (code einval, [])
  chisai_fuse_readdir (some path) true none name = pure (code einval, [])
  chisai_fuse_readdir (some path) true (some fh) name = do
    info ← load_dir d fh
    (filled, last) ← readdir_loop (info.dir.size + 3) info name
    store_object d fh (dir last)
    pure (code err_ok, filled)
