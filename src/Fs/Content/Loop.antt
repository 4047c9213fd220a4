-- ===== src/Fs/Content/Loop.antt =====
-- The loop of `fs_write_file` on the contents of a file.
use mathlib.Core.Path.{subst, sym}
use chisai_fs.Base.{
  ℕ, zero, suc, ◌+◌, ◌*◌, ◌/◌, ◌%◌, ◌^◌, ◌≤◌, ◌<◌, ◌≡◌, ◌⊎◌, inl, inr, ap, ◌∙◌, true, List, arith,
  ltb, Bool-cases, take, drop, length, length-take, length-drop, u64, IsByte, IsBytes, All-take,
  All-drop,
}
use chisai_fs.Base.Division.{div-lt, mod-lt}
use chisai_fs.Base.Outcome.{ok}
use chisai_fs.Device.{Device, device_data_save}
use chisai_fs.Device.Laws.{DeviceLaws, device_data_save-patch}
use chisai_fs.Fs.{Filesystem, err_ok, data_offset}
use chisai_fs.Fs.Content.{nth_block, IsFile, Wrote}
use chisai_fs.Fs.Content.Blocks.{Wrote-refl, Wrote-trans}
use chisai_fs.Fs.Content.Chunks.{chunk-Wrote}
use chisai_fs.Fs.Content.Room.{IsReady, IsOut, block_for_write-Wrote}
use chisai_fs.Fs.Content.Rounds.{
  off_in_block-mod, direct_small, chunk-le, chunk_written, write_end, write_out, write_round,
}
use chisai_fs.Fs.File.{is_enomem, chunk, Writing, block_for_write, write_chunk, write_loop}
use chisai_fs.Fs.Layout.{inode_offset-data_offset-Disjoint}
use chisai_fs.Fs.Tree.{image, IsMounted}
use chisai_fs.Fs.Tree.Reads.{divides}
use chisai_fs.Superblock.{Superblock}

module _ {d : Device} {size : ℕ} {byte : d.State → ℕ → ℕ} (laws : DeviceLaws d size byte)
    (buf : List ℕ) (off count k : ℕ) (bytes : IsBytes buf) (enough : count ≤ length buf) where
  -- One device write.
  write_chunk-Wrote :
      (w : Writing) (fs : Filesystem d)
      → IsMounted size (image byte fs)
      → fs.sb.block_size ≡ 2 ^ k
      → IsFile (image byte fs) w.inode
      → IsReady (image byte fs) ((off + w.total) / fs.sb.block_size) w
      → (off + w.total) / fs.sb.block_size < 12
      → w.total < count
      → (wlen : ℕ) × (s' : d.State) × (write_chunk d w buf count (off + w.total) fs
          ≡ ok (w.total + wlen) (record fs { device = s' }))
        × (1 ≤ wlen)
        × (w.total + wlen ≤ count)
        × Wrote size buf off w.total
            (w.total + wlen)
            (image byte fs)
            w.inode
            (image byte (record fs { device = s' }))
            w.inode
  unfolding data_offset
  write_chunk-Wrote w fs v power f ready direct more =
      let blk = fs.sb.block_size in
      let pos = off + w.total in
      let at = pos % blk in
      let b = nth_block w.inode (pos / blk) in
      let wlen = chunk blk count w.total at in
      let positive : 0 < blk = v.laid_out.positive in
      let (some_bytes, in_block, in_count) =
        chunk-le blk count w.total at (mod-lt blk pos positive) more in
      let index = (f.blocks (pos / blk) direct ready.there).0 in
      let (_, _, low, _, high) =
        inode_offset-data_offset-Disjoint (image byte fs).sb fs.blkgrp_size v.laid_out b b index
          index in
      let narrow : blk < 2 ^ 32 = omega (arith, v.laid_out.whole, v.laid_out.group_fits) in
      let pos_small : pos < 2 ^ 64 = direct_small blk pos positive narrow direct in
      let piece = take wlen (drop w.total buf) in
      let len : length piece ≡ wlen =
        omega (arith, length-take wlen (drop w.total buf), length-drop w.total buf) in
      let whole : u64 (at + data_offset fs.sb fs.blkgrp_size b)
          ≡ data_offset fs.sb fs.blkgrp_size b + at =
        omega (arith, in_block, high, v.laid_out.disk_fits) in
      let (s', saved, holds) =
        device_data_save-patch laws (data_offset fs.sb fs.blkgrp_size b + at) piece fs.device
          (omega (arith, in_block, high, v.room, len))
          (All-take IsByte wlen (drop w.total buf) (All-drop IsByte w.total buf bytes)) in
      (
        wlen,
        s',
        chunk_written d fs w pos buf count b at ready.block (ground arith) (divides laws fs v)
            (off_in_block-mod k pos blk power positive (omega (arith, narrow))
              (omega (arith, pos_small)))
            (ground arith) (ap (λ a. device_data_save d a piece fs.device) whole ∙ saved),
        some_bytes,
        in_count,
        subst
            (λ g.
              Wrote size buf off w.total (w.total + wlen) (image byte fs) w.inode
                (record (image byte fs) { bytes = g }) w.inode)
            (sym holds)
            (chunk-Wrote size (image byte fs) v w.inode f buf off w.total wlen direct ready.there
              in_block (omega arith)),
      )

  -- One round, behind the search for its block.
  chunk_round :
      (fuel : ℕ) (w w1 : Writing) (fs fs1 : Filesystem d)
      → fs.sb.block_size ≡ 2 ^ k
      → ltb w.total count ≡ true
      → (off + w.total) / fs.sb.block_size < 12
      → block_for_write d w (off + w.total) fs ≡ ok w1 fs1
      → w1.total ≡ w.total
      → Wrote size buf off w.total w.total (image byte fs) w.inode (image byte fs1) w1.inode
      → IsReady (image byte fs1) ((off + w.total) / fs.sb.block_size) w1
      → (total : ℕ) × (s' : d.State) × (write_loop d (suc fuel) w buf count (off + w.total) fs
          ≡ write_loop d fuel
              (record w1 { total = total })
              buf
              count
              (off + total)
              (record fs1 { device = s' }))
        × (w.total + 1 ≤ total)
        × (total ≤ count)
        × Wrote size buf off w.total total
            (image byte fs)
            w.inode
            (image byte (record fs1 { device = s' }))
            w1.inode
  chunk_round fuel w w1 fs fs1 power more direct found same wrote ready =
      let pos = off + w.total in
      let lt : w.total < count = ground arith in
      let power1 : fs1.sb.block_size ≡ 2 ^ k =
        ap (λ (x : Superblock). x.block_size) wrote.same_sb ∙ power in
      let place : pos / fs.sb.block_size ≡ (off + w1.total) / fs1.sb.block_size =
        ap (λ (b : ℕ). pos / b) (power ∙ sym power1)
        ∙ ap (λ (t : ℕ). (off + t) / fs1.sb.block_size) (sym same) in
      let (wlen, s', written, some_bytes, in_count, wrote') =
        write_chunk-Wrote w1 fs1 wrote.mounted power1 wrote.file
          (subst (λ n. IsReady (image byte fs1) n w1) place ready)
          (subst (λ n. n < 12) place direct) (omega (arith, same, lt)) in
      (
        w1.total + wlen,
        s',
        write_round d fuel w buf count pos fs more found (ap is_enomem ready.no_error)
              (ap (λ (t : ℕ). write_chunk d w1 buf count (off + t) fs1) (sym same) ∙ written)
            ∙ ap
                (λ (o : ℕ).
                  write_loop d fuel (record w1 { total = w1.total + wlen }) buf count o
                    (record fs1 { device = s' }))
                (omega (arith, same)),
        omega (arith, same, some_bytes),
        in_count,
        Wrote-trans (omega arith) (omega (arith, same)) wrote (
            subst
              (λ lo.
                Wrote size buf off lo (w1.total + wlen) (image byte fs1) w1.inode
                  (image byte (record fs1 { device = s' })) w1.inode)
              same wrote'),
      )

  -- The loop writes all that is left, or stops where every data block is taken.
  pub write_loop-Wrote :
      (fuel : ℕ) (w : Writing) (fs : Filesystem d)
      → IsMounted size (image byte fs)
      → fs.sb.block_size ≡ 2 ^ k
      → IsFile (image byte fs) w.inode
      → off + count ≤ 12 * 2 ^ k
      → count ≤ fuel + w.total
      → w.total ≤ count
      → w.ret ≡ err_ok
      → (w' : Writing) × (fs' : Filesystem d) × (write_loop d fuel w buf count (off + w.total) fs
          ≡ ok w' fs')
        × (w.total ≤ w'.total)
        × (w'.total ≤ count)
        × Wrote size buf off w.total w'.total (image byte fs) w.inode (image byte fs') w'.inode
        × (((w'.ret ≡ err_ok) × (w'.total ≡ count)) ⊎ IsOut (image byte fs') w')
  write_loop-Wrote zero w fs v power f small fuel_left below no_error = (
    w,
    fs,
    write_end d 0 w buf count (off + w.total) fs (ground arith),
    omega arith,
    below,
    Wrote-refl size (image byte fs) v w.inode f buf off w.total,
    inl (no_error, omega arith),
  )
  write_loop-Wrote (suc fuel) w fs v power f small fuel_left below no_error =
      elim (Bool-cases (ltb w.total count)) [
        | inr done ↦ (
          w,
          fs,
          write_end d (suc fuel) w buf count (off + w.total) fs done,
          omega arith,
          below,
          Wrote-refl size (image byte fs) v w.inode f buf off w.total,
          inl (no_error, ground arith),
        )
        | inl more ↦
            let pos = off + w.total in
            let lt : w.total < count = ground arith in
            let direct : pos / fs.sb.block_size < 12 =
              div-lt fs.sb.block_size 12 pos v.laid_out.positive (rw power (omega arith)) in
            let (w1, fs1, ready, same, wrote1, state) =
              block_for_write-Wrote laws buf off fs v w pos w.total f direct in
            elim state [
              | inr out ↦ (
                w1,
                fs1,
                write_out d fuel w buf count pos fs more ready (ap is_enomem out.error),
                omega (arith, same),
                omega (arith, same, lt),
                subst
                    (λ t.
                      Wrote size buf off w.total t (image byte fs) w.inode (image byte fs1)
                        w1.inode)
                    (sym same) wrote1,
                inr out,
              )
              | inl in_hand ↦
                  let (total, s2, round, moved, in_count, wrote2) =
                    chunk_round fuel w w1 fs fs1 power more direct ready same wrote1 in_hand in
                  let (w', fs', runs, more_than, within, wrote3, result) =
                    write_loop-Wrote fuel (record w1 { total = total }) (record fs1 { device = s2 })
                      wrote2.mounted (ap (λ (x : Superblock). x.block_size) wrote2.same_sb ∙ power)
                      wrote2.file small (omega (arith, moved)) in_count in_hand.no_error in
                  (
                    w',
                    fs',
                    round ∙ runs,
                    omega (arith, moved, more_than),
                    within,
                    Wrote-trans (omega (arith, moved)) more_than wrote2 wrote3,
                    result,
                  )
            ]
      ]
