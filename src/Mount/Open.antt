-- ===== src/Mount/Open.antt =====
-- The handlers on open files.
use chisai_fs.Base.{ℕ, Bool, true, false, Option, none, some, List, if◌then◌else◌}
use chisai_fs.Base.Outcome.{pure, get, put, ◌>>=◌, ◌>>◌}
use chisai_fs.Device.{Device}
use chisai_fs.Fs.{Code, err_ok, einval}
use chisai_fs.Fs.Create.{fs_create_file}
use chisai_fs.Fs.File.{is_ok, fs_write_file, fs_read_file, fs_truncate_file}
use chisai_fs.Fs.Path.{fs_get_metadata}
use chisai_fs.Mount.{
  Ret, code, count, Stat, chisai_fuse_tostat, unset, file, Fuse, on_fs, malloc_object, free_object,
  store_object, load_file,
}

module _ (d : Device) where
  -- The second result is the new `fi->fh`.
  unfoldable pub chisai_fuse_open : List ℕ → ℕ → Fuse d (Code × ℕ)
  chisai_fuse_open path fh = do
    new_fh ← malloc_object d unset
    (ret, found) ← on_fs d (fs_get_metadata d path)
    elim found [
      | none ↦ do free_object d new_fh; pure (ret, fh)
      | some info ↦ do store_object d new_fh (file info); pure (ret, new_fh)
    ]

  -- `fi->fh` is set also where the creation fails.
  unfoldable pub chisai_fuse_create : List ℕ → ℕ → Fuse d (Code × ℕ)
  chisai_fuse_create path mode = do
    new_fh ← malloc_object d unset
    (ret, created) ← on_fs d (fs_create_file d path mode)
    elim created [
      | none ↦ pure (ret, new_fh)
      | some info ↦ do store_object d new_fh (file info); pure (ret, new_fh)
    ]

  abbrev set_reopen : Bool → Fuse d (Unit {0})
  set_reopen b = do m ← get; put (record m { reopen = b })

  unfoldable pub chisai_fuse_truncate : List ℕ → ℕ → Fuse d Code
  chisai_fuse_truncate path size = do
    (ret, found) ← on_fs d (fs_get_metadata d path)
    elim found [
      | none ↦ pure ret
      | some info ↦ do
        (ret', _) ← on_fs d (fs_truncate_file d info size)
        if is_ok ret' then (do set_reopen true; pure ret') else pure ret'
    ]

  unfoldable pub chisai_fuse_release : Option (List ℕ) → Option ℕ → Fuse d Code
  chisai_fuse_release none fi = pure einval
  chisai_fuse_release (some path) none = pure einval
  chisai_fuse_release (some path) (some fh) = do free_object d fh; pure err_ok

  -- What stands behind the release in `chisai_fuse_reopen`.
  open_again : List ℕ → ℕ → Fuse d (Code × ℕ)
  open_again path fh = do
    (ret, new_fh) ← chisai_fuse_open path fh
    if is_ok ret then (do set_reopen false; pure (ret, new_fh)) else pure (ret, new_fh)

  unfoldable pub chisai_fuse_reopen : Option (List ℕ) → ℕ → Fuse d (Code × ℕ)
  unfolding open_again
  chisai_fuse_reopen path fh = do
    m ← get
    if m.reopen
        then (do
          ret ← chisai_fuse_release path (some fh)
          elim path [ none ↦ pure (ret, fh) | some p ↦ open_again p fh ])
        else pure (err_ok, fh)

  -- The handlers below keep the pointer of `fi->fh` from before `chisai_fuse_reopen`. The last result
  -- is `fi->fh` afterwards.
  unfoldable pub chisai_fuse_fgetattr :
      Option (List ℕ) → Bool → Option ℕ → Fuse d (Code × Option Stat × Option ℕ)
  chisai_fuse_fgetattr none some_stat fi = pure (einval, none, fi)
  chisai_fuse_fgetattr (some path) false fi = pure (einval, none, fi)
  chisai_fuse_fgetattr (some path) true none = pure (einval, none, none)
  chisai_fuse_fgetattr (some path) true (some fh) = do
    (ret, new_fh) ← chisai_fuse_reopen (some path) fh
    if is_ok ret
        then (do info ← load_file d fh; pure (err_ok, some (chisai_fuse_tostat info), some new_fh))
        else pure (ret, none, some new_fh)

  -- With the caller's buffer.
  unfoldable pub chisai_fuse_read : Option (List ℕ) → List ℕ → ℕ → ℕ → ℕ → Fuse d (Ret × List ℕ × ℕ)
  chisai_fuse_read path buf size off fh = do
    (ret, new_fh) ← chisai_fuse_reopen path fh
    if is_ok ret
        then (do
          info ← load_file d fh
          (ret', total, buf') ← on_fs d (fs_read_file d info buf size off)
          pure (if is_ok ret' then count total else code ret', buf', new_fh))
        else pure (code ret, buf, new_fh)

  unfoldable pub chisai_fuse_write : Option (List ℕ) → List ℕ → ℕ → ℕ → ℕ → Fuse d (Ret × ℕ)
  chisai_fuse_write path buf size off fh = do
    (ret, new_fh) ← chisai_fuse_reopen path fh
    if is_ok ret
        then (do
          info ← load_file d fh
          (total, info') ← on_fs d (fs_write_file d info buf size off)
          store_object d fh (file info')
          pure (count total, new_fh))
        else pure (code ret, new_fh)
