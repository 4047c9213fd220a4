-- ===== src/Fs/Tree/Writes.antt =====
-- What the writes of the file system do to the image; a write of an inode.
use mathlib.Core.Path.{subst}
use chisai_fs.Base.{ℕ, ◌≤◌, ◌≡◌, ◌≢◌, inl, inr, sym, ap, ◌∙◌, List, arith}
use chisai_fs.BlockGroup.{BlockGroup, Kind}
use chisai_fs.Device.Laws.{slice, patch, slice-patch_self, slice-patch_ne}
use chisai_fs.Dir.{Dir}
use chisai_fs.Dir.Store.{dir_bytes, dir_encode}
use chisai_fs.Fs.{inode_offset, data_offset}
use chisai_fs.Fs.Layout.{
  IsIndex, Disjoint, inode_offset-Disjoint, inode_offset-data_offset-Disjoint,
}
use chisai_fs.Fs.Tree.{Image, IsMounted, marked, HasInode, HasDir}
use chisai_fs.Fs.Tree.Grows.{Grows}
use chisai_fs.Inode.{Inode, inode_bytes, inode_encode}
use chisai_fs.Inode.Laws
use chisai_fs.Inode.Laws.{length-inode_encode}

-- Every inode and every directory stays as it is.
pub record Keeps (m m' : Image) : Type 0 where
  pub inodes : (idx : ℕ) (inode : Inode) → HasInode m idx inode → HasInode m' idx inode
  pub dirs : (block : ℕ) (dir : Dir) → HasDir m block dir → HasDir m' block dir

pub Keeps-trans : {m m' m'' : Image} → Keeps m m' → Keeps m' m'' → Keeps m m''
Keeps-trans k k' = record {
  inodes = λ idx inode h. k'.inodes idx inode (k.inodes idx inode h);
  dirs = λ block dir h. k'.dirs block dir (k.dirs block dir h);
}

pub Grows-Keeps : {m m' m'' : Image} → Grows m m' → Keeps m' m'' → Grows m m''
Grows-Keeps g k = record {
  inodes = λ idx inode h. k.inodes idx inode (g.inodes idx inode h);
  dirs = λ block dir h.
      let (dir', there, larger) = g.dirs block dir h in (dir', k.dirs block dir' there, larger);
}

abbrev pub with_groups : Image → List BlockGroup → Image
with_groups m grps = record m { blk_grps = grps }

abbrev pub with_inode : Image → ℕ → Inode → Image
with_inode m idx inode = record m {
  bytes = patch m.bytes (inode_offset m.sb m.total idx) (inode_encode inode);
}

abbrev pub with_dir : Image → ℕ → Dir → Image
with_dir m block dir = record m {
  bytes = patch m.bytes (data_offset m.sb m.total block) (dir_encode dir);
}

pub narrow : (a n b w n' w' : ℕ) → Disjoint a n b w → n' ≤ n → w' ≤ w → Disjoint a n' b w'
narrow a n b w n' w' (inl h) p q = inl (omega arith)
narrow a n b w n' w' (inr h) p q = inr (omega arith)

flip : (a n b w : ℕ) → Disjoint a n b w → Disjoint b w a n
flip a n b w (inl h) = inr h
flip a n b w (inr h) = inl h

module _ (size : ℕ) (m : Image) (v : IsMounted size m) where
  pub inode_dir_apart :
      (idx block : ℕ)
      → IsIndex m.sb idx
      → IsIndex m.sb block
      → Disjoint
          (inode_offset m.sb m.total idx)
          inode_bytes
          (data_offset m.sb m.total block)
          dir_bytes
  inode_dir_apart idx block h h' =
      narrow _ 128 _ m.sb.block_size inode_bytes dir_bytes
        (inode_offset-data_offset-Disjoint m.sb m.total v.laid_out idx block h h').0 (omega arith)
        v.wide

  -- What a write of an inode leaves alone.
  pub with_inode-inodes :
      (idx : ℕ) (inode : Inode)
      → IsIndex m.sb idx
      → Laws.IsValid inode
      → (j : ℕ) (other_inode : Inode) → j ≢ idx
      → HasInode m j other_inode
      → HasInode (with_inode m idx inode) j other_inode
  with_inode-inodes idx inode i valid j other_inode ne h = record {
    index = h.index;
    used = h.used;
    stored =
        slice-patch_ne m.bytes (inode_offset m.sb m.total idx) (inode_encode inode)
          (inode_offset m.sb m.total j) inode_bytes
          (subst
            (λ n.
              Disjoint (inode_offset m.sb m.total j) inode_bytes (inode_offset m.sb m.total idx) n)
            (sym (length-inode_encode inode valid.twelve))
            (narrow _ 128 _ 128 inode_bytes inode_bytes
              (inode_offset-Disjoint m.sb m.total v.laid_out j idx h.index i ne) (omega arith)
              (omega arith)))
        ∙ h.stored;
    valid = h.valid;
  }

  pub with_inode-dirs :
      (idx : ℕ) (inode : Inode)
      → IsIndex m.sb idx
      → Laws.IsValid inode
      → (block : ℕ) (dir : Dir) → HasDir m block dir
      → HasDir (with_inode m idx inode) block dir
  with_inode-dirs idx inode i valid block dir h = record {
    index = h.index;
    used = h.used;
    stored =
        slice-patch_ne m.bytes (inode_offset m.sb m.total idx) (inode_encode inode)
          (data_offset m.sb m.total block) dir_bytes
          (subst
            (λ n.
              Disjoint (data_offset m.sb m.total block) dir_bytes (inode_offset m.sb m.total idx) n)
            (sym (length-inode_encode inode valid.twelve))
            (flip _ _ _ _ (inode_dir_apart idx block i h.index)))
        ∙ h.stored;
    valid = h.valid;
  }

  -- An inode written where none was keeps all that stands on the device.
  pub with_inode-Keeps :
      (idx : ℕ) (inode : Inode)
      → IsIndex m.sb idx
      → marked m Kind.inodes idx ≡ 0
      → Laws.IsValid inode
      → Keeps m (with_inode m idx inode)
  with_inode-Keeps idx inode i free valid = record {
    inodes = λ j other_inode h.
        with_inode-inodes idx inode i valid j other_inode
          (λ e. absurd (ground (arith, h.used, free, e))) h;
    dirs = with_inode-dirs idx inode i valid;
  }

  pub with_inode-HasInode :
      (idx : ℕ) (inode : Inode)
      → IsIndex m.sb idx
      → marked m Kind.inodes idx ≡ 1
      → Laws.IsValid inode
      → HasInode (with_inode m idx inode) idx inode
  with_inode-HasInode idx inode i used valid = record {
    index = i;
    used = used;
    stored =
        ap (slice (with_inode m idx inode).bytes (inode_offset m.sb m.total idx))
          (sym (length-inode_encode inode valid.twelve))
        ∙ slice-patch_self m.bytes (inode_offset m.sb m.total idx) (inode_encode inode);
    valid = valid;
  }
