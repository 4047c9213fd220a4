-- ===== src/Fs/Tree/Walk.antt =====
-- The walk of `fs_path_to_inode` follows the tree.
use mathlib.Core.Path.{subst}
use chisai_fs.Base.{ℕ, ◌≡◌, refl, sym, ap, ◌∙◌, false, some, List, ◌∷◌, arith, get_elem?, ◌==◌}
use chisai_fs.Base.Outcome.{ok}
use chisai_fs.Device.{Device}
use chisai_fs.Device.Laws.{DeviceLaws}
use chisai_fs.Dir.{Dir, dir_file_inode_idx}
use chisai_fs.Dir.Lookup.{dir_file_inode_idx-lookup}
use chisai_fs.Fs.{Filesystem, err_ok, fs_find_inode, fs_find_dir}
use chisai_fs.Fs.Path.{walk, tokens, fs_path_to_inode, fs_get_metadata}
use chisai_fs.Fs.Tree.{Image, image, IsMounted, HasInode, HasDir, Leads, here, step, Resolves}
use chisai_fs.Fs.Tree.Reads.{fs_find_inode-HasInode, fs_find_dir-HasDir}
use chisai_fs.Inode.{Inode, root_inode}

-- Reading changes the state of the device but not the image.
pub image_read :
    {d : Device} (byte : d.State → ℕ → ℕ) (fs : Filesystem d) {s' : d.State} {m : Image}
    → byte s' ≡ byte fs.device
    → image byte fs ≡ m
    → image byte (record fs { device = s' }) ≡ m
image_read byte fs same e = ap (λ f. record (image byte fs) { bytes = f }) same ∙ e

-- One round of the loop.
walk_round :
    (d : Device) (token : List ℕ) (rest : List (List ℕ)) (idx block next : ℕ)
    (inode next_inode : Inode) (dir : Dir) (fs : Filesystem d) {s1 s2 : d.State}
    → get_elem? inode.direct_blks 0 ≡ some block
    → fs_find_dir d block fs ≡ ok (some dir) (record fs { device = s1 })
    → dir_file_inode_idx dir token ≡ some next
    → (next == 0) ≡ false
    → fs_find_inode d next (record fs { device = s1 })
      ≡ ok (some next_inode) (record fs { device = s2 })
    → walk d (token ∷ rest) idx inode fs ≡ walk d rest next next_inode (record fs { device = s2 })
unfolding walk
walk_round d token rest idx block next inode next_inode dir fs at found named positive loaded =
    rw (at, found, named, positive, loaded)

module _ {d : Device} {size : ℕ} {byte : d.State → ℕ → ℕ} (laws : DeviceLaws d size byte)
    (m : Image) (v : IsMounted size m) where
  walk-Leads :
      {target : ℕ} {target_inode : Inode} {toks : List (List ℕ)} {idx : ℕ} {inode : Inode}
      → Leads m target target_inode toks idx inode
      → (fs : Filesystem d) → image byte fs ≡ m
      → (s' : d.State) × (walk d toks idx inode fs
          ≡ ok (some (target, target_inode)) (record fs { device = s' }))
        × (byte s' ≡ byte fs.device)
  walk-Leads here fs e = (fs.device, unfold walk in refl, refl)
  walk-Leads {target} {target_inode}
        (step {idx} {block} {next} {inode} {next_inode} {dir} {token} {rest} at dir_there string
          named positive inode_there leads)
        fs e =
      let (s1, found, same1) =
        fs_find_dir-HasDir laws fs (subst (IsMounted size) (sym e) v) block dir
          (subst (λ m. HasDir m block dir) (sym e) dir_there) in
      let e1 = image_read byte fs same1 e in
      let (s2, loaded, same2) =
        fs_find_inode-HasInode laws (record fs { device = s1 }) (subst (IsMounted size) (sym e1) v)
          next next_inode (subst (λ m. HasInode m next next_inode) (sym e1) inode_there) in
      let e2 = image_read byte (record fs { device = s1 }) same2 e1 in
      let (s3, walked, same3) = walk-Leads leads (record fs { device = s2 }) e2 in
      (
        s3,
        walk_round d token rest idx block next inode next_inode dir fs at found
              (dir_file_inode_idx-lookup dir dir_there.valid token string ∙ ap some named)
              (ground arith) loaded
            ∙ walked,
        same3 ∙ same2 ∙ same1,
      )

  path_of :
      (path : List ℕ) (idx : ℕ) (inode root : Inode) (fs : Filesystem d) {s1 s2 : d.State}
      → fs_find_inode d root_inode fs ≡ ok (some root) (record fs { device = s1 })
      → walk d (tokens path) root_inode root (record fs { device = s1 })
        ≡ ok (some (idx, inode)) (record fs { device = s2 })
      → fs_path_to_inode d path fs ≡ ok (some (idx, inode)) (record fs { device = s2 })
  unfolding fs_path_to_inode
  path_of path idx inode root fs found walked = rw (found, walked)

  -- `fs_path_to_inode` returns the index and the inode that the path leads to.
  pub fs_path_to_inode-Resolves :
      (path : List ℕ) (idx : ℕ) (inode : Inode)
      → Resolves m path idx inode
      → (fs : Filesystem d) → image byte fs ≡ m
      → (s' : d.State) × (fs_path_to_inode d path fs
          ≡ ok (some (idx, inode)) (record fs { device = s' }))
        × (byte s' ≡ byte fs.device)
  fs_path_to_inode-Resolves path idx inode r fs e =
      let (s1, found, same1) =
        fs_find_inode-HasInode laws fs (subst (IsMounted size) (sym e) v) root_inode r.root
          (subst (λ m. HasInode m root_inode r.root) (sym e) r.has_root) in
      let (s2, walked, same2) =
        walk-Leads r.leads (record fs { device = s1 }) (image_read byte fs same1 e) in
      (s2, path_of path idx inode r.root fs found walked, same2 ∙ same1)

module _ {d : Device} {size : ℕ} {byte : d.State → ℕ → ℕ} (laws : DeviceLaws d size byte)
    (fs : Filesystem d) (v : IsMounted size (image byte fs)) where
  metadata_of :
      (path : List ℕ) (idx : ℕ) (inode : Inode) {s' : d.State}
      → fs_path_to_inode d path fs ≡ ok (some (idx, inode)) (record fs { device = s' })
      → fs_get_metadata d path fs
        ≡ ok (err_ok, some (record { inode = inode; idx = idx })) (record fs { device = s' })
  unfolding fs_get_metadata
  metadata_of path idx inode walked = rw walked

  -- On a mounted device, `fs_get_metadata` of a path that leads to an inode returns it and its index,
  -- and changes nothing but the state of the device, of which no byte changes.
  pub fs_get_metadata-Resolves :
      (path : List ℕ) (idx : ℕ) (inode : Inode)
      → Resolves (image byte fs) path idx inode
      → (s' : d.State) × (fs_get_metadata d path fs
          ≡ ok (err_ok, some (record { inode = inode; idx = idx })) (record fs { device = s' }))
        × (byte s' ≡ byte fs.device)
  fs_get_metadata-Resolves path idx inode r =
      let (s', walked, same) =
        fs_path_to_inode-Resolves laws (image byte fs) v path idx inode r fs refl in
      (s', metadata_of path idx inode walked, same)

-- What a path leads to stands on the device.
Leads-HasInode :
    {m : Image} {target : ℕ} {target_inode : Inode} {toks : List (List ℕ)} {idx : ℕ} {inode : Inode}
    → HasInode m idx inode
    → Leads m target target_inode toks idx inode
    → HasInode m target target_inode
Leads-HasInode h here = h
Leads-HasInode h (step at there string found some_next next rest) = Leads-HasInode next rest

pub Resolves-HasInode :
    (m : Image) (path : List ℕ) (idx : ℕ) (inode : Inode)
    → Resolves m path idx inode
    → HasInode m idx inode
Resolves-HasInode m path idx inode r = Leads-HasInode r.has_root r.leads
