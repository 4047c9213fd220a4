-- ===== src/Mount/Listing.antt =====
-- `chisai_fuse_readdir` against the entries of a directory.
use mathlib.Core.Path.{sym}
use chisai_fs.Base.{
  ℕ, zero, suc, ◌+◌, ◌-◌, ◌≤◌, ◌<◌, ◌≡◌, ap, ◌∙◌, true, some, set, List, [], ◌∷◌, map, arith,
  length, get_elem?, drop, drop_all, drop_cons,
}
use chisai_fs.Base.CString.{c_str}
use chisai_fs.Base.Outcome.{ok}
use chisai_fs.Device.{Device}
use chisai_fs.Dir.Entries.{IsValid}
use chisai_fs.Fs.{err_ok, DirInfo, s_ifdir, s_rwx}
use chisai_fs.Fs.Create.{fs_get_data}
use chisai_fs.Mount.{code, Mount, dir, chisai_fuse_tostat, load_dir, load_object, store_object}
use chisai_fs.Mount.Tree.{Filled, info_of_mode, readdir_loop, chisai_fuse_readdir}
use chisai_fs.Fs.Listing.{names_of, length-names_of, more_entry, get_end, get_more}

module _ (d : Device) (fuel : ℕ) (info : DirInfo) (name : List ℕ) (m : Mount d) where
  loop_more :
      {out : List ℕ} {rest : List Filled} {last : DirInfo}
      → fs_get_data info name ≡ some (more_entry info out)
      → readdir_loop d fuel (record info { pos = info.pos + 1 }) out m ≡ ok (rest, last) m
      → readdir_loop d (suc fuel) info name m
        ≡ ok ((out, chisai_fuse_tostat (info_of_mode (s_ifdir + s_rwx))) ∷ rest, last) m
  unfolding readdir_loop
  loop_more got rest = rw (got, rest)

  loop_end : info.pos ≡ info.dir.size + 2 → readdir_loop d (suc fuel) info name m ≡ ok ([], info) m
  unfolding readdir_loop
  loop_end e = rw (get_end info name e)

-- The strings in the arrays that `filler` is given.
abbrev pub filled_names : List Filled → List (List ℕ)
filled_names = map (λ (x : Filled). c_str (x.0))

-- The loop with enough fuel ends, behind the last entry, and has listed what was left.
readdir_loop-lists :
    (d : Device) (m : Mount d) (left fuel : ℕ) (info : DirInfo) (name : List ℕ)
    → IsValid info.dir
    → 28 ≤ length name
    → info.pos + left ≡ info.dir.size + 2
    → left < fuel
    → (filled : List Filled) × (readdir_loop d fuel info name m
        ≡ ok (filled, record info { pos = info.dir.size + 2 }) m)
      × (filled_names filled ≡ drop info.pos (names_of info.dir))
readdir_loop-lists d m left zero info name v room count enough = absurd (omega arith)
readdir_loop-lists d m zero (suc fuel) info name v room count enough =
    let e : info.pos ≡ info.dir.size + 2 = omega arith in
    (
      [],
      loop_end d fuel info name m e ∙ ap (λ p. ok ([], record info { pos = p }) m) e,
      sym (drop_all info.pos (names_of info.dir) (omega (arith, length-names_of info.dir v, e))),
    )
readdir_loop-lists d m (suc left) (suc fuel) info name v room count enough =
    let (out, got, at, len) = get_more info name v room (omega arith) in
    let next : info.pos + 1 ≡ suc info.pos = omega arith in
    let (rest, returns, listed) =
      readdir_loop-lists d m left fuel (record info { pos = info.pos + 1 }) out v (omega arith)
        (omega arith) (omega arith) in
    (
      (out, chisai_fuse_tostat (info_of_mode (s_ifdir + s_rwx))) ∷ rest,
      loop_more d fuel info name m got returns,
      ap (λ t. c_str out ∷ t) (listed ∙ ap (λ i. drop i (names_of info.dir)) next)
          ∙ sym (drop_cons (names_of info.dir) info.pos at),
    )

module _ (d : Device) (m : Mount d) (fh : ℕ) (info : DirInfo) where
  readdir_of :
      (path name : List ℕ) {filled : List Filled} {last : DirInfo}
      → get_elem? m.objects fh ≡ some (some (dir info))
      → readdir_loop d (info.dir.size + 3) info name m ≡ ok (filled, last) m
      → chisai_fuse_readdir d (some path) true (some fh) name m
        ≡ ok (code err_ok, filled) (record m { objects = set m.objects fh (some (dir last)) })
  unfolding chisai_fuse_readdir load_dir load_object store_object
  readdir_of path name held listed = rw (held, listed)

  -- On an open directory that is well-formed, with no more behind its position than its entries,
  -- `chisai_fuse_readdir` with an array of at least 28 bytes ends and returns 0. It has filled in the
  -- names from the position on of the list that is ".", "..", and the names of the entries in order;
  -- the position is then behind the last.
  pub chisai_fuse_readdir-names_of :
      (path name : List ℕ)
      → get_elem? m.objects fh ≡ some (some (dir info))
      → IsValid info.dir
      → info.pos ≤ info.dir.size + 2
      → 28 ≤ length name
      → (filled : List Filled) × (chisai_fuse_readdir d (some path) true (some fh) name m
          ≡ ok
              (code err_ok, filled)
              (record m {
                objects = set m.objects fh (some (dir (record info { pos = info.dir.size + 2 })));
              }))
        × (filled_names filled ≡ drop info.pos (names_of info.dir))
  chisai_fuse_readdir-names_of path name held v before room =
      let (filled, returns, listed) =
        readdir_loop-lists d m (info.dir.size + 2 - info.pos) (info.dir.size + 3) info name v room
          (omega arith) (omega arith) in
      (filled, readdir_of path name held returns, listed)
