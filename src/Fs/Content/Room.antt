-- ===== src/Fs/Content/Room.antt =====
-- The block for a position of a file: the one that is there, or a new one.
use mathlib.Core.Path.{subst, sym}
use chisai_fs.Base.{
  ℕ, ◌-◌, ◌*◌, ◌/◌, ◌≤◌, ◌<◌, ◌≡◌, ◌⊎◌, inl, inr, refl, ap, ◌∙◌, true, false, some, List, arith,
  ◌==◌, ltb, Bool-cases, get_elem?-eq-get_or, u32,
}
use chisai_fs.Base.Outcome.{ok}
use chisai_fs.BlockGroup.{BlockGroup, Kind, before, blkgrps_alloc}
use chisai_fs.BlockGroup.Alloc.{blkgrps_alloc-IsAllocated}
use chisai_fs.Device.{Device}
use chisai_fs.Device.Laws.{DeviceLaws}
use chisai_fs.Fs.{Filesystem, err_ok, enoent, enomem, fs_data_alloc}
use chisai_fs.Fs.Block.{fs_find_blk}
use chisai_fs.Fs.Content.{nth_block, IsFile, Wrote}
use chisai_fs.Fs.Content.Blocks.{Wrote-refl, with_block, at_new, with_block-Wrote}
use chisai_fs.Fs.Content.Rounds.{find_direct, alloc_full, alloc_direct, block_found, block_made}
use chisai_fs.Fs.File.{Writing, block_for_write}
use chisai_fs.Fs.Layout.{IsIndex}
use chisai_fs.Fs.Tree.{Image, image, IsMounted, marked}
use chisai_fs.Fs.Tree.Insert.{data_alloc_of}
use chisai_fs.Fs.Tree.Writes.{with_groups}

-- Every data block is taken.
abbrev pub IsFull : Image → Type 0
IsFull m = (idx : ℕ) → IsIndex m.sb idx → marked m Kind.blocks idx ≡ 1

data_alloc_full_of :
    (d : Device) (fs : Filesystem d) {idx : ℕ} {grps : List BlockGroup}
    → blkgrps_alloc Kind.blocks fs.blk_grps ≡ some (idx, grps)
    → idx ≡ 0
    → fs_data_alloc d fs ≡ ok 0 (record fs { blk_grps = grps })
unfolding fs_data_alloc
data_alloc_full_of d fs returns zero_idx = rw (returns, zero_idx)

-- What stands behind the search for a block: one of the file's, or none where all are taken.
pub record IsReady (m : Image) (n : ℕ) (w : Writing) : Type 0 where
  pub no_error : w.ret ≡ err_ok
  pub block : w.blk_idx ≡ some (nth_block w.inode n)
  pub there : 1 ≤ nth_block w.inode n

pub record IsOut (m : Image) (w : Writing) : Type 0 where
  pub error : w.ret ≡ enomem
  pub full : IsFull m

module _ {d : Device} {size : ℕ} {byte : d.State → ℕ → ℕ} (laws : DeviceLaws d size byte)
    (buf : List ℕ) (off : ℕ) (fs : Filesystem d) (v : IsMounted size (image byte fs)) where
  positive : ltb 0 fs.sb.block_size ≡ true
  positive = ground (arith, v.laid_out.positive)

  pub block_for_write-Wrote :
      (w : Writing) (pos lo : ℕ)
      → IsFile (image byte fs) w.inode
      → pos / fs.sb.block_size < 12
      → (w' : Writing) × (fs' : Filesystem d) × (block_for_write d w pos fs ≡ ok w' fs')
        × (w'.total ≡ w.total)
        × Wrote size buf off lo lo (image byte fs) w.inode (image byte fs') w'.inode
        × (IsReady (image byte fs') (pos / fs.sb.block_size) w' ⊎ IsOut (image byte fs') w')
  block_for_write-Wrote w pos lo f direct =
      let n = pos / fs.sb.block_size in
      let whole : u32 n ≡ n = omega arith in
      let low : ltb n 12 ≡ true = ground arith in
      let at =
        get_elem?-eq-get_or w.inode.direct_blks n 0 (omega (arith, f.valid.twelve, direct)) in
      let found = find_direct d fs w.inode pos positive whole low w.blk_idx at in
      elim (Bool-cases (nth_block w.inode n == 0)) [
        | inr there ↦ (
          record w { ret = err_ok; blk_idx = some (nth_block w.inode n) },
          fs,
          block_found d fs w pos (found ∙ rw there refl),
          refl,
          Wrote-refl size (image byte fs) v w.inode f buf off lo,
          inl (record { no_error = refl; block = refl; there = ground arith }),
        )
        | inl absent ↦
            let none_there : nth_block w.inode n ≡ 0 = ground arith in
            let missing : fs_find_blk d w.inode pos w.blk_idx fs ≡ ok (enoent, some 0) fs =
              found ∙ rw none_there refl in
            let (idx, grps, returns, result) =
              blkgrps_alloc-IsAllocated fs.sb.data_block_per_groups Kind.blocks fs.blk_grps
                v.groups in
            elim result [
              | inl a ↦
                  let some_idx : (idx == 0) ≡ false = ground (arith, a.not_zero) in
                  let new =
                    at_new size (image byte fs) v w.inode f n idx grps direct none_there a in
                  (
                    record w { inode = with_block w.inode n idx; ret = err_ok; blk_idx = some idx },
                    record fs {
                      blk_grps = grps;
                      sb = record (fs.sb) { free_blocks = before fs.sb.free_blocks };
                    },
                    block_made d fs w pos missing (
                        alloc_direct d fs w.inode pos positive whole low
                          (data_alloc_of d fs returns some_idx) some_idx),
                    refl,
                    with_block-Wrote size (image byte fs) v w.inode f n idx grps direct none_there a
                        buf off lo,
                    inl (record {
                      no_error = refl;
                      block = ap some (sym new);
                      there = omega (arith, new, a.not_zero);
                    }),
                  )
              | inr (zero_idx, same, full) ↦ (
                record w { inode = w.inode; ret = enomem; blk_idx = some 0 },
                record fs { blk_grps = grps },
                block_made d fs w pos missing (
                    alloc_full d fs w.inode pos positive whole low
                      (data_alloc_full_of d fs returns zero_idx)),
                refl,
                subst
                    (λ g.
                      Wrote size buf off lo lo (image byte fs) w.inode
                        (with_groups (image byte fs) g) w.inode)
                    (sym same) (Wrote-refl size (image byte fs) v w.inode f buf off lo),
                inr (record {
                  error = refl;
                  full =
                      subst (λ g. IsFull (with_groups (image byte fs) g)) (sym same)
                        λ i inside. full (i - 1) (omega arith) (
                          subst (λ g. i - 1 < g * fs.sb.data_block_per_groups) (sym v.all_groups)
                            (omega (arith, inside.0, inside.1)));
                }),
              )
            ]
      ]
