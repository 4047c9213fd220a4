-- ===== src/Fs/Tree/DirWrites.antt =====
-- A write of a directory on the image.
use mathlib.Core.Path.{subst}
use chisai_fs.Base.{ℕ, ◌≡◌, ◌≢◌, inl, inr, refl, sym, ap, ◌∙◌, arith, ◌==◌, Bool-cases, ==_iff}
use chisai_fs.BlockGroup.{Kind}
use chisai_fs.Device.Laws.{slice, slice-patch_self, slice-patch_ne}
use chisai_fs.Dir.{Dir}
use chisai_fs.Dir.Bytes.{length-dir_encode, dir_decode-encode}
use chisai_fs.Dir.Entries
use chisai_fs.Dir.Entries.{entries, lookup}
use chisai_fs.Dir.Store.{dir_bytes, dir_encode, dir_decode}
use chisai_fs.Fs.{inode_offset, data_offset}
use chisai_fs.Fs.Layout.{IsIndex, Disjoint, data_offset-Disjoint}
use chisai_fs.Fs.Tree.{Image, IsMounted, marked, HasInode, HasDir}
use chisai_fs.Fs.Tree.Grows.{IsLarger, Grows}
use chisai_fs.Fs.Tree.Writes.{Keeps, with_dir, narrow, inode_dir_apart}
use chisai_fs.Inode.{Inode, inode_bytes}

module _ (size : ℕ) (m : Image) (v : IsMounted size m) where
  pub with_dir-HasDir :
      (block : ℕ) (dir : Dir)
      → IsIndex m.sb block
      → marked m Kind.blocks block ≡ 1
      → Entries.IsValid dir
      → HasDir (with_dir m block dir) block dir
  with_dir-HasDir block dir i used valid = record {
    index = i;
    used = used;
    stored =
        ap (slice (with_dir m block dir).bytes (data_offset m.sb m.total block))
          (sym (length-dir_encode dir valid.storable))
        ∙ slice-patch_self m.bytes (data_offset m.sb m.total block) (dir_encode dir);
    valid = valid;
  }

  -- What a write of a directory leaves alone.
  pub with_dir-inodes :
      (block : ℕ) (dir : Dir)
      → IsIndex m.sb block
      → Entries.IsValid dir
      → (idx : ℕ) (inode : Inode) → HasInode m idx inode
      → HasInode (with_dir m block dir) idx inode
  with_dir-inodes block dir i valid idx inode h = record {
    index = h.index;
    used = h.used;
    stored =
        slice-patch_ne m.bytes (data_offset m.sb m.total block) (dir_encode dir)
          (inode_offset m.sb m.total idx) inode_bytes
          (subst
            (λ n.
              Disjoint (inode_offset m.sb m.total idx) inode_bytes (data_offset m.sb m.total block)
                n)
            (sym (length-dir_encode dir valid.storable))
            (inode_dir_apart size m v idx block h.index i))
        ∙ h.stored;
    valid = h.valid;
  }

  pub with_dir-dirs :
      (block : ℕ) (dir : Dir)
      → IsIndex m.sb block
      → Entries.IsValid dir
      → (j : ℕ) (other_dir : Dir) → j ≢ block
      → HasDir m j other_dir
      → HasDir (with_dir m block dir) j other_dir
  with_dir-dirs block dir i valid j other_dir ne h = record {
    index = h.index;
    used = h.used;
    stored =
        slice-patch_ne m.bytes (data_offset m.sb m.total block) (dir_encode dir)
          (data_offset m.sb m.total j) dir_bytes
          (subst
            (λ n.
              Disjoint (data_offset m.sb m.total j) dir_bytes (data_offset m.sb m.total block) n)
            (sym (length-dir_encode dir valid.storable))
            (narrow _ m.sb.block_size _ m.sb.block_size dir_bytes dir_bytes
              (data_offset-Disjoint m.sb m.total v.laid_out j block h.index i ne) v.wide v.wide))
        ∙ h.stored;
    valid = h.valid;
  }

  -- One block holds one directory.
  HasDir-unique :
      (block : ℕ) (dir dir' : Dir) → HasDir m block dir → HasDir m block dir' → dir ≡ dir'
  HasDir-unique block dir dir' h h' =
      sym (dir_decode-encode dir h.valid.storable)
      ∙ ap dir_decode (sym h.stored ∙ h'.stored)
      ∙ dir_decode-encode dir' h'.valid.storable

  -- A directory replaced by a larger one.
  pub with_dir-Grows :
      (block : ℕ) (dir dir' : Dir)
      → HasDir m block dir
      → Entries.IsValid dir'
      → IsLarger dir dir'
      → Grows m (with_dir m block dir')
  with_dir-Grows block dir dir' h valid larger = record {
    inodes = with_dir-inodes block dir' h.index valid;
    dirs = λ j old there. elim (Bool-cases (j == block)) [
      | inl e ↦
          let same = (==_iff j block).0 e in
          let equal = HasDir-unique block dir old h (subst (λ b. HasDir m b old) same there) in
          (
            dir',
            subst (λ b. HasDir (with_dir m block dir') b dir') (sym same)
                (with_dir-HasDir block dir' h.index h.used valid),
            subst (λ x. IsLarger x dir') equal larger,
          )
      | inr e ↦ (
        old,
        with_dir-dirs block dir' h.index valid j old (λ s. absurd (ground arith)) there,
        λ name p. refl,
      )
    ];
  }

  -- A directory written where none was keeps all that stands on the device.
  pub with_dir-Keeps :
      (block : ℕ) (dir : Dir)
      → IsIndex m.sb block
      → marked m Kind.blocks block ≡ 0
      → Entries.IsValid dir
      → Keeps m (with_dir m block dir)
  with_dir-Keeps block dir i free valid = record {
    inodes = with_dir-inodes block dir i valid;
    dirs = λ j old there.
        with_dir-dirs block dir i valid j old (λ e. absurd (ground (arith, there.used, free, e)))
          there;
  }
