-- ===== src/Fs/Tree/Parent.antt =====
-- `fs_path_to_parent` on a path whose directory is there, and the entries behind a new one.
use chisai_fs.Base.{
  ℕ, ◌≤◌, ◌<◌, ◌≡◌, refl, ◌∙◌, false, some, List, [], ◌∷◌, ◌++◌, arith, ltb, get_elem?, length,
  replicate, length-replicate, IsBytes,
}
use chisai_fs.Base.CString.{IsString, same_string_refl, strcpy, strcpy_lem}
use chisai_fs.Base.Outcome.{ok}
use chisai_fs.Device.{Device}
use chisai_fs.Device.Laws.{DeviceLaws}
use chisai_fs.Dir.{Dir}
use chisai_fs.Dir.Entries.{Entry, lookup, has}
use chisai_fs.Fs.{Filesystem, fs_find_dir}
use chisai_fs.Fs.Path.{parent, split_last, fs_path_to_inode, get_parent_dir, fs_path_to_parent}
use chisai_fs.Fs.Path.Tokens.{IsName, split_last-append}
use chisai_fs.Fs.Tree.{image, IsMounted, HasDir, Resolves}
use chisai_fs.Fs.Tree.Reads.{fs_find_dir-HasDir}
use chisai_fs.Fs.Tree.Walk.{image_read, fs_path_to_inode-Resolves}
use chisai_fs.Inode.{Inode}
use mathlib.Core.Path.{subst, sym}

-- A name that a directory takes: 1 to 27 bytes without NUL and slash.
pub record IsFileName (name : List ℕ) : Type 0 where
  pub string : IsString name
  pub bytes : IsBytes name
  pub no_slash : IsName name
  pub some_name : 1 ≤ length name
  pub short : length name < 28

parent_of :
    (d : Device) (parent_path name : List ℕ) (p block : ℕ) (inode : Inode) (dir : Dir)
    (fs : Filesystem d) {out : List ℕ} {s1 s2 : d.State}
    → split_last (parent_path ++ (b'/' ∷ name)) ≡ some (parent_path, name)
    → strcpy (replicate 28 0) name ≡ some out
    → ltb 28 (length name) ≡ false
    → fs_path_to_inode d parent_path fs ≡ ok (some (p, inode)) (record fs { device = s1 })
    → get_elem? inode.direct_blks 0 ≡ some block
    → fs_find_dir d block (record fs { device = s1 }) ≡ ok (some dir) (record fs { device = s2 })
    → fs_path_to_parent d (parent_path ++ (b'/' ∷ name)) fs
      ≡ ok (parent inode dir name) (record fs { device = s2 })
unfolding fs_path_to_parent get_parent_dir
parent_of d parent_path name p block inode dir fs split copied short walked at found =
    rw (split, copied, short, walked, at, found)

module _ {d : Device} {size : ℕ} {byte : d.State → ℕ → ℕ} (laws : DeviceLaws d size byte)
    (fs : Filesystem d) (v : IsMounted size (image byte fs)) where
  -- The parent's inode, its directory and the name are found, and no byte of the device changes.
  pub fs_path_to_parent-Resolves :
      (parent_path name : List ℕ) (p block : ℕ) (inode : Inode) (dir : Dir)
      → IsFileName name
      → Resolves (image byte fs) parent_path p inode
      → get_elem? inode.direct_blks 0 ≡ some block
      → HasDir (image byte fs) block dir
      → (s' : d.State) × (fs_path_to_parent d (parent_path ++ (b'/' ∷ name)) fs
          ≡ ok (parent inode dir name) (record fs { device = s' }))
        × (byte s' ≡ byte fs.device)
  fs_path_to_parent-Resolves parent_path name p block inode dir n r at there =
      let (s1, walked, same1) =
        fs_path_to_inode-Resolves laws (image byte fs) v parent_path p inode r fs refl in
      let e1 = image_read byte fs same1 refl in
      let (s2, found, same2) =
        fs_find_dir-HasDir laws (record fs { device = s1 }) (subst (IsMounted size) (sym e1) v)
          block dir (subst (λ m. HasDir m block dir) (sym e1) there) in
      let (out, copied, same_name, nul, len, out_bytes) =
        strcpy_lem (replicate 28 0) name n.string
          (omega (arith, n.short, length-replicate {A = ℕ} 28 0)) in
      (
        s2,
        parent_of d parent_path name p block inode dir fs
            (split_last-append parent_path name n.no_slash) copied (ground (arith, n.short)) walked
            at found,
        same2 ∙ same1,
      )

-- The entry behind the others is found, if there was none of its name.
pub lookup_new :
    (name : List ℕ) (idx : ℕ) (es : List Entry)
    → has name es ≡ false
    → (lookup name es ≡ 0) × (lookup name (es ++ ((name, idx) ∷ [])) ≡ idx)
unfolding has lookup
lookup_new name idx [] h = (refl, rw (same_string_refl name))
lookup_new name idx ((other, i) ∷ es) h = ground (arith, lookup_new name idx es)

-- What was found is found still.
pub lookup_old :
    (name : List ℕ) (es : List Entry) (e : Entry)
    → 1 ≤ lookup name es
    → lookup name (es ++ (e ∷ [])) ≡ lookup name es
unfolding lookup
lookup_old name [] e h = absurd (omega arith)
lookup_old name ((other, i) ∷ es) e h = ground (arith, lookup_old name es e)
