-- ===== src/Fs/Tree/Allocs.antt =====
-- What an allocation does to the image.
use mathlib.Core.Path.{subst}
use chisai_fs.Base.{ℕ, ◌-◌, ◌*◌, ◌≤◌, ◌≡◌, ◌∙◌, List, arith}
use chisai_fs.BlockGroup.{BlockGroup, Kind}
use chisai_fs.BlockGroup.Alloc.{IsAllocated}
use chisai_fs.Fs.Layout.{IsIndex}
use chisai_fs.Fs.Tree.{Image, IsMounted, marked}
use chisai_fs.Fs.Tree.Writes.{Keeps, with_groups}

module _ (size : ℕ) (m : Image) (v : IsMounted size m) where
  -- An allocated index was an index, and was free.
  pub allocated-IsIndex :
      (k : Kind) (idx : ℕ) (grps : List BlockGroup)
      → IsAllocated m.sb.data_block_per_groups k m.blk_grps idx grps
      → IsIndex m.sb idx
  allocated-IsIndex k idx grps a =
      (a.not_zero, subst (λ g. idx ≤ g * m.sb.data_block_per_groups) v.all_groups a.in_range)

  pub allocated-IsMounted :
      (k : Kind) (idx : ℕ) (grps : List BlockGroup)
      → IsAllocated m.sb.data_block_per_groups k m.blk_grps idx grps
      → IsMounted size (with_groups m grps)
  allocated-IsMounted k idx grps a = record {
    laid_out = v.laid_out;
    groups = a.valid;
    all_groups = a.same_length ∙ v.all_groups;
    room = v.room;
    wide = v.wide;
  }

  -- What was taken stays taken, in both bitmaps.
  pub still_marked :
      (k k' : Kind) (idx : ℕ) (grps : List BlockGroup)
      → IsAllocated m.sb.data_block_per_groups k m.blk_grps idx grps
      → (j : ℕ) → marked m k' j ≡ 1
      → marked (with_groups m grps) k' j ≡ 1
  still_marked Kind.inodes Kind.inodes idx grps a j h = ground (arith, a.marked (j - 1))
  still_marked Kind.inodes Kind.blocks idx grps a j h = a.other_kept (j - 1) ∙ h
  still_marked Kind.blocks Kind.inodes idx grps a j h = a.other_kept (j - 1) ∙ h
  still_marked Kind.blocks Kind.blocks idx grps a j h = ground (arith, a.marked (j - 1))

  pub now_marked :
      (k : Kind) (idx : ℕ) (grps : List BlockGroup)
      → IsAllocated m.sb.data_block_per_groups k m.blk_grps idx grps
      → marked (with_groups m grps) k idx ≡ 1
  now_marked k idx grps a = ground (arith, a.marked (idx - 1))

  -- An allocation keeps all that stands on the device.
  pub allocated-Keeps :
      (k : Kind) (idx : ℕ) (grps : List BlockGroup)
      → IsAllocated m.sb.data_block_per_groups k m.blk_grps idx grps
      → Keeps m (with_groups m grps)
  allocated-Keeps k idx grps a = record {
    inodes = λ j inode h. record {
      index = h.index;
      used = still_marked k Kind.inodes idx grps a j h.used;
      stored = h.stored;
      valid = h.valid;
    };
    dirs = λ j dir h. record {
      index = h.index;
      used = still_marked k Kind.blocks idx grps a j h.used;
      stored = h.stored;
      valid = h.valid;
    };
  }
