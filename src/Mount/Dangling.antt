-- ===== src/Mount/Dangling.antt =====
-- The pointer that the handlers on open files keep across `chisai_fuse_reopen`.
use chisai_fs.Base.{
  ℕ, ◌≡◌, ◌∙◌, Bool, true, lt_of_get_elem?, length-set, get_elem?-set_ne, get_elem?-append,
  get_elem?-set_self, Option, none, some, List, [], ◌∷◌, ◌++◌, arith, get_elem?, set, length,
}
use chisai_fs.Base.Outcome.{ok, undefined}
use chisai_fs.Device.{Device}
use chisai_fs.Fs.{Filesystem, err_ok, FileInfo}
use chisai_fs.Fs.Path.{fs_get_metadata}
use chisai_fs.Mount.{
  Object, Mount, file, unset, malloc_object, free_object, store_object, load_object, load_file,
}
use chisai_fs.Mount.Open.{
  chisai_fuse_open, chisai_fuse_release, chisai_fuse_reopen, chisai_fuse_fgetattr, chisai_fuse_read,
  chisai_fuse_write,
}

module _ (d : Device) (m : Mount d) (path : List ℕ) (fh : ℕ) {o : Object} {info : FileInfo}
    {fs' : Filesystem d} (raised : m.reopen ≡ true) (held : get_elem? m.objects fh ≡ some (some o))
    (found : fs_get_metadata d path m.fs ≡ ok (err_ok, some info) fs') where
  -- The objects after the file has been released and opened again.
  abbrev objects_after : List (Option Object)
  objects_after =
      set (set m.objects fh none ++ (some unset ∷ [])) (length (set m.objects fh none))
        (some (file info))

  reopened :
      chisai_fuse_reopen d (some path) fh m
      ≡ ok
          (err_ok, length (set m.objects fh none))
          (record m { fs = fs'; reopen = Bool.false; objects = objects_after })
  unfolding chisai_fuse_reopen chisai_fuse_release chisai_fuse_open free_object malloc_object
      store_object
  reopened = rw (raised, held, found)

  freed : get_elem? objects_after fh ≡ some none
  freed =
      let inside = lt_of_get_elem? m.objects fh held in
      let same = length-set m.objects fh none in
      get_elem?-set_ne (set m.objects fh none ++ (some unset ∷ [])) (length (set m.objects fh none))
        fh (some (file info)) (λ e. omega (arith, inside, same))
      ∙ get_elem?-append (set m.objects fh none) (some unset ∷ []) fh (omega (arith, inside, same))
      ∙ get_elem?-set_self m.objects fh none inside

  -- With REOPEN raised, a read, a write and an fgetattr of an open file whose path is still found follow
  -- the pointer that `chisai_fuse_reopen` has freed.
  pub chisai_fuse_reopen_dangling :
      (buf : List ℕ)
      → (size off : ℕ)
      → (chisai_fuse_read d (some path) buf size off fh m ≡ undefined)
        × (chisai_fuse_write d (some path) buf size off fh m ≡ undefined)
        × (chisai_fuse_fgetattr d (some path) true (some fh) m ≡ undefined)
  unfolding chisai_fuse_read chisai_fuse_write chisai_fuse_fgetattr load_file load_object
  chisai_fuse_reopen_dangling buf size off =
      (rw (reopened, freed), rw (reopened, freed), rw (reopened, freed))
