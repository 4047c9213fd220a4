-- ===== src/Fs/Content/Truncated.antt =====
-- `fs_truncate_file` on the contents of a file.
use mathlib.Core.Path.{subst, sym}
use chisai_fs.Base.{
  ℕ, zero, suc, ◌+◌, ◌-◌, ◌/◌, ◌%◌, ◌^◌, ◌≤◌, ◌<◌, ◌≡◌, ◌≢◌, inl, refl, ap, ◌∙◌, true, false, some,
  List, arith, ◌==◌, ltb, leb, get_elem?, get_elem?-eq-get_or, u32,
}
use chisai_fs.Base.Outcome.{ok}
use chisai_fs.BlockGroup.{BlockGroup, Kind}
use chisai_fs.Device.{Device}
use chisai_fs.Device.Laws.{DeviceLaws}
use chisai_fs.Dir.{Dir}
use chisai_fs.Fs.{Filesystem, FileInfo, err_ok, data_offset, fs_data_release, fs_save_inode}
use chisai_fs.Fs.Content.{nth_block, HasByte, IsFile, IsForeign}
use chisai_fs.Fs.Content.Blocks.{with_block}
use chisai_fs.Fs.Content.Cut.{IsCut, IsCut-refl, at_kept, without-IsFile, without-IsCut}
use chisai_fs.Fs.Content.Save.{set_size-IsValid, with_inode-HasByte}
use chisai_fs.Fs.File.{release_loop, fs_truncate_file}
use chisai_fs.Fs.Tree.{Image, image, IsMounted, marked, HasInode, HasDir}
use chisai_fs.Fs.Tree.Removed.{HasNext, released, released-IsMounted, data_release_of}
use chisai_fs.Fs.Tree.Saves.{with_bytes-IsMounted, fs_save_inode-with_inode}
use chisai_fs.Fs.Tree.Writes.{
  with_groups, with_inode, with_inode-HasInode, with_inode-inodes, with_inode-dirs,
}
use chisai_fs.Inode.{Inode, inode_set_size, inode_get_blkcnt}

-- A file system with other bitmaps and another number of free blocks.
abbrev with_free : (d : Device) → Filesystem d → List BlockGroup → ℕ → Filesystem d
with_free d fs grps free = record fs { blk_grps = grps; sb = record (fs.sb) { free_blocks = free } }

-- The blocks `lo` to `hi` of the file are there, in groups that are not full by their `next`.
abbrev pub IsReleasable : ℕ → ℕ → Image → Inode → Type 0
IsReleasable lo hi m inode =
    (n : ℕ) → lo ≤ n → n < hi → (1 ≤ nth_block inode n) × HasNext m Kind.blocks (nth_block inode n)

release_round :
    (d : Device) (lo left : ℕ) (inode : Inode) (fs : Filesystem d) {b : ℕ} {fs1 : Filesystem d}
    → get_elem? inode.direct_blks (lo + left) ≡ some b
    → (b == 0) ≡ false
    → fs_data_release d b fs ≡ ok tt fs1
    → release_loop d lo (suc left) inode fs
      ≡ release_loop d lo left (with_block inode (lo + left) 0) fs1
unfolding release_loop
release_round d lo left inode fs at some_block freed = rw (at, some_block, freed)

module _ {d : Device} {size : ℕ} (byte : d.State → ℕ → ℕ) where
  -- The loop frees the blocks from the last down.
  release_loop-IsCut :
      (lo left : ℕ) (inode : Inode) (fs : Filesystem d)
      → IsMounted size (image byte fs)
      → IsFile (image byte fs) inode
      → lo + left ≤ 12
      → IsReleasable lo (lo + left) (image byte fs) inode
      → (inode' : Inode) × (grps : List BlockGroup) × (free : ℕ) × (release_loop d lo left inode fs
          ≡ ok inode' (with_free d fs grps free))
        × IsCut size lo (lo + left) (image byte fs) inode grps inode'
  unfolding release_loop
  release_loop-IsCut lo zero inode fs v f fits can = (
    inode,
    fs.blk_grps,
    fs.sb.free_blocks,
    refl,
    subst (λ hi. IsCut size lo hi (image byte fs) inode fs.blk_grps inode) (omega arith)
        (IsCut-refl size lo (image byte fs) inode v f),
  )
  release_loop-IsCut lo (suc left) inode fs v f fits can =
      let m = image byte fs in
      let n = lo + left in
      let b = nth_block inode n in
      let low : n < 12 = omega arith in
      let (there, next) = can n (omega arith) (omega arith) in
      let (grps1, returns, r) = released size m v Kind.blocks b (f.blocks n low there).0 next in
      let fs1 = with_free d fs grps1 (u32 (fs.sb.free_blocks + 1)) in
      let (inode', grps, free, runs, cut) =
        release_loop-IsCut lo left (with_block inode n 0) fs1
          (released-IsMounted size m v Kind.blocks b grps1 r)
          (without-IsFile size m v inode f n grps1 low there r) (omega arith)
          (λ i from to.
            let same = at_kept size m v inode f n grps1 low there r i (λ e. omega (arith, e)) in
            let (there', next') = can i from (omega arith) in
            subst (λ x. (1 ≤ x) × HasNext (with_groups m grps1) Kind.blocks x) (sym same)
              (there', subst (λ x. 1 ≤ x) (sym (r.next_kept Kind.blocks _)) next')) in
      let at = get_elem?-eq-get_or inode.direct_blks n 0 (omega (arith, f.valid.twelve)) in
      (
        inode',
        grps,
        free,
        release_round d lo left inode fs at (ground (arith, there)) (data_release_of d fs b returns)
            ∙ runs,
        subst (λ hi. IsCut size lo hi m inode grps inode') (omega arith)
            (without-IsCut size m v inode f n grps1 low there r lo grps inode' (omega arith) cut),
      )

-- What `fs_truncate_file` makes of the image and the inode: the blocks `lo` to `hi` are free and no
-- longer in the file, its inode is on the device, and all else is as it was.
pub record IsTruncated (size lo hi idx : ℕ) (m : Image) (inode : Inode) (m' : Image)
    (inode' : Inode) : Type 0 where
  pub mounted : IsMounted size m'
  pub file : IsFile m' inode'
  pub on_disk : HasInode m' idx inode'
  pub bytes :
      (pos x : ℕ) → pos / m.sb.block_size < lo → HasByte m inode pos x → HasByte m' inode' pos x
  pub gone : (n : ℕ) → lo ≤ n → n < hi → nth_block inode' n ≡ 0
  pub freed : (n : ℕ) → lo ≤ n → n < hi → marked m' Kind.blocks (nth_block inode n) ≡ 0
  pub others :
      (j : ℕ) → 1 ≤ j → IsForeign inode j → marked m' Kind.blocks j ≡ marked m Kind.blocks j
  pub inodes : (j : ℕ) (other : Inode) → j ≢ idx → HasInode m j other → HasInode m' j other
  pub dirs :
      (block : ℕ) (dir : Dir) → HasDir m block dir → IsForeign inode block → HasDir m' block dir

set_size-IsTruncated :
    (size lo hi idx : ℕ) (m : Image) (inode : Inode) (grps : List BlockGroup) (inode' : Inode)
    (bytes : ℕ)
    → IsCut size lo hi m inode grps inode'
    → HasInode m idx inode
    → bytes < 2 ^ 63
    → IsTruncated size lo hi idx m inode
        (with_inode (with_groups m grps) idx (inode_set_size inode' bytes))
        (inode_set_size inode' bytes)
unfolding inode_set_size
set_size-IsTruncated size lo hi idx m inode grps inode' bytes c h fits =
    let m1 = with_groups m grps in
    let resized = inode_set_size inode' bytes in
    let valid = set_size-IsValid inode' bytes c.file.valid fits in
    let used = c.inodes idx ∙ h.used in
    record {
      mounted = with_bytes-IsMounted size m1 (with_inode m1 idx resized).bytes c.mounted;
      file = record { valid = valid; blocks = c.file.blocks; apart = c.file.apart };
      on_disk = with_inode-HasInode size m1 c.mounted idx resized h.index used valid;
      bytes = λ pos x low byte.
          let same = c.kept (pos / m.sb.block_size) (inl low) in
          let kept : HasByte m1 inode' pos x = record {
            direct = byte.direct;
            there = subst (λ b. 1 ≤ b) (sym same) byte.there;
            stored =
                ap (λ (b : ℕ). m.bytes (data_offset m.sb m.total b + pos % m.sb.block_size)) same
                ∙ byte.stored;
          } in
          let written =
            with_inode-HasByte size m1 c.mounted idx resized h.index valid inode' pos x c.file
              kept in
          record { direct = written.direct; there = written.there; stored = written.stored };
      gone = c.gone;
      freed = c.freed;
      others = c.others;
      inodes = λ j other ne there.
          with_inode-inodes size m1 c.mounted idx resized h.index valid j other ne (record {
            index = there.index;
            used = c.inodes j ∙ there.used;
            stored = there.stored;
            valid = there.valid;
          });
      dirs = λ block dir there foreign.
          with_inode-dirs size m1 c.mounted idx resized h.index valid block dir (record {
            index = there.index;
            used = c.others block there.index.0 foreign ∙ there.used;
            stored = there.stored;
            valid = there.valid;
          });
    }

truncate_file_of :
    (d : Device) (file : FileInfo) (trct_size left : ℕ) (fs : Filesystem d) {inode : Inode}
    {fs1 fs2 : Filesystem d}
    → ltb 0 fs.sb.block_size ≡ true
    → leb trct_size file.inode.size ≡ true
    → file.inode.blkcnt - trct_size / fs.sb.block_size ≡ left
    → release_loop d (trct_size / fs.sb.block_size) left file.inode fs ≡ ok inode fs1
    → fs_save_inode d (inode_set_size inode trct_size) file.idx fs1 ≡ ok tt fs2
    → fs_truncate_file d file trct_size fs
      ≡ ok (err_ok, record file { inode = inode_set_size inode trct_size }) fs2
unfolding fs_truncate_file inode_get_blkcnt
truncate_file_of d file trct_size left fs positive smaller rounds looped saved =
    rw (positive, smaller, rounds, looped, saved)

module _ {d : Device} {size : ℕ} {byte : d.State → ℕ → ℕ} (laws : DeviceLaws d size byte) where
  -- A file that is on a mounted device is cut to a size no larger than its own. Its blocks from the one
  -- where the new size ends to the one that its count of blocks gives are direct blocks, are there,
  -- and lie in groups that are not full by their `next`. Then `fs_truncate_file` returns
  -- CHISAI_ERR_OK: these blocks are free and the others as they were, the bytes of the blocks in
  -- front are still in the file, its inode is on the device with the new size, and the other inodes
  -- and the directories in other blocks are as they were.
  pub fs_truncate_file-IsTruncated :
      (fs : Filesystem d) (file : FileInfo) (trct_size left : ℕ)
      → IsMounted size (image byte fs)
      → IsFile (image byte fs) file.inode
      → HasInode (image byte fs) file.idx file.inode
      → trct_size ≤ file.inode.size
      → file.inode.blkcnt ≡ trct_size / fs.sb.block_size + left
      → file.inode.blkcnt ≤ 12
      → IsReleasable (trct_size / fs.sb.block_size) file.inode.blkcnt (image byte fs) file.inode
      → (inode : Inode) × (fs' : Filesystem d) × (fs_truncate_file d file trct_size fs
          ≡ ok (err_ok, record file { inode = inode }) fs')
        × (inode.size ≡ trct_size)
        × IsTruncated size
            (trct_size / fs.sb.block_size)
            file.inode.blkcnt
            file.idx
            (image byte fs)
            file.inode
            (image byte fs')
            inode
  unfolding inode_set_size
  fs_truncate_file-IsTruncated fs file trct_size left v f h smaller counted fits can =
      let m = image byte fs in
      let lo = trct_size / fs.sb.block_size in
      let size_fits : trct_size < 2 ^ 63 = omega (arith, smaller, f.valid.size) in
      let (inode, grps, free, runs, cut) =
        release_loop-IsCut byte lo left file.inode fs v f (omega (arith, counted, fits))
          (subst (λ hi. IsReleasable lo hi m file.inode) counted can) in
      let fs1 = with_free d fs grps free in
      let (s2, saved, holds) =
        fs_save_inode-with_inode laws fs1 cut.mounted file.idx (inode_set_size inode trct_size)
          h.index (set_size-IsValid inode trct_size cut.file.valid size_fits) in
      (
        inode_set_size inode trct_size,
        record fs1 { device = s2 },
        truncate_file_of d file trct_size left fs (ground (arith, v.laid_out.positive))
            (ground arith) (omega (arith, counted)) runs saved,
        refl,
        subst
            (λ x.
              IsTruncated size lo file.inode.blkcnt file.idx m file.inode x
                (inode_set_size inode trct_size))
            (sym holds)
            (set_size-IsTruncated size lo file.inode.blkcnt file.idx m file.inode grps inode
              trct_size (subst (λ hi. IsCut size lo hi m file.inode grps inode) (sym counted) cut) h
              size_fits),
      )
