-- ===== src/Fs/Content/Save.antt =====
-- `fs_write_file`: the loop, and the inode with its new size.
use mathlib.Core.Path.{subst, sym}
use chisai_fs.Base.{
  ℕ, ◌+◌, ◌*◌, ◌/◌, ◌^◌, ◌≤◌, ◌<◌, ◌≡◌, ◌⊎◌, inl, inr, refl, ap, ◌∙◌, true, false, List, arith,
  ◌==◌, ltb, if◌then◌else◌, length, u32, u64, IsBytes,
}
use chisai_fs.Base.Division.{mod-lt}
use chisai_fs.Base.Outcome.{ok}
use chisai_fs.BlockGroup.{Kind}
use chisai_fs.Device.{Device}
use chisai_fs.Device.Laws.{DeviceLaws, patch_out}
use chisai_fs.Fs.{Filesystem, FileInfo, err_ok, inode_offset, fs_save_inode}
use chisai_fs.Fs.Content.{nth_block, address, HasByte, IsFile, Wrote, Saved}
use chisai_fs.Fs.Content.Loop.{write_loop-Wrote}
use chisai_fs.Fs.Content.Room.{IsFull, IsOut}
use chisai_fs.Fs.File.{is_enomem, Writing, start_writing, write_loop, fs_write_file}
use chisai_fs.Fs.Layout.{IsIndex, inode_offset-data_offset-Disjoint}
use chisai_fs.Fs.Tree.{Image, image, IsMounted, marked, HasInode}
use chisai_fs.Fs.Tree.Saves.{with_bytes-IsMounted, fs_save_inode-with_inode}
use chisai_fs.Fs.Tree.Writes.{with_inode, with_inode-HasInode, with_inode-inodes, with_inode-dirs}
use chisai_fs.Inode.{Inode, inode_bytes, inode_encode, inode_set_size, inode_get_size}
use chisai_fs.Inode.Laws
use chisai_fs.Inode.Laws.{length-inode_encode}

-- The size that `fs_write_file` gives a file.
abbrev pub new_size : ℕ → ℕ → ℕ → ℕ
new_size off old total = if ltb off old then total else u64 (total + old)

pub set_size-IsValid :
    (inode : Inode) (size : ℕ)
    → Laws.IsValid inode
    → size < 2 ^ 63
    → Laws.IsValid (inode_set_size inode size)
unfolding inode_set_size
set_size-IsValid inode size v h = record {
  mode = v.mode;
  nlink = v.nlink;
  blkcnt = omega arith;
  size = h;
  twelve = v.twelve;
  direct_blks = v.direct_blks;
  indirect_blk = v.indirect_blk;
  double_indirect_blk = v.double_indirect_blk;
}

module _ (size : ℕ) (m : Image) (v : IsMounted size m) (idx : ℕ) (stored_inode : Inode)
    (i : IsIndex m.sb idx) (valid : Laws.IsValid stored_inode) where
  -- A write of an inode touches no byte of a file.
  pub with_inode-HasByte :
      (inode : Inode) (pos x : ℕ)
      → IsFile m inode
      → HasByte m inode pos x
      → HasByte (with_inode m idx stored_inode) inode pos x
  with_inode-HasByte inode pos x f h =
      let b = nth_block inode (pos / m.sb.block_size) in
      let (apart, _, _, _, _) =
        inode_offset-data_offset-Disjoint m.sb m.total v.laid_out idx b i
          (f.blocks (pos / m.sb.block_size) h.direct h.there).0 in
      let len = length-inode_encode stored_inode valid.twelve in
      let short : inode_bytes ≤ 128 = omega arith in
      let lt = mod-lt m.sb.block_size pos v.laid_out.positive in
      record {
        direct = h.direct;
        there = h.there;
        stored =
            patch_out m.bytes (inode_offset m.sb m.total idx) (inode_encode stored_inode)
              (address m inode pos)
              (elim apart [
                | inl p ↦ inr (omega (arith, p, len, short))
                | inr p ↦ inl (omega (arith, p, lt))
              ])
            ∙ h.stored;
      }

-- The inode of a file, written with a new size.
set_size-Saved :
    (size : ℕ) (buf : List ℕ) (off total idx : ℕ) (m : Image) (inode : Inode) (m' : Image)
    (inode' : Inode) (bytes : ℕ)
    → Wrote size buf off 0 total m inode m' inode'
    → IsIndex m.sb idx
    → marked m' Kind.inodes idx ≡ 1
    → bytes < 2 ^ 63
    → Saved size buf off total idx m inode
        (with_inode m' idx (inode_set_size inode' bytes))
        (inode_set_size inode' bytes)
unfolding inode_set_size
set_size-Saved size buf off total idx m inode m' inode' bytes w i used fits =
    let resized = inode_set_size inode' bytes in
    let valid = set_size-IsValid inode' bytes w.file.valid fits in
    let index : IsIndex m'.sb idx = subst (λ sb. IsIndex sb idx) (sym w.same_sb) i in
    let bytes_kept = λ (pos x : ℕ) (h : HasByte m' inode' pos x).
      with_inode-HasByte size m' w.mounted idx resized index valid inode' pos x w.file h in
    record {
      mounted = with_bytes-IsMounted size m' (with_inode m' idx resized).bytes w.mounted;
      same_sb = w.same_sb;
      file = record { valid = valid; blocks = w.file.blocks; apart = w.file.apart };
      on_disk = with_inode-HasInode size m' w.mounted idx resized index used valid;
      written =
          λ j lt. same_blocks (bytes_kept (off + j) _ (w.written j (omega arith) (omega arith)));
      kept = λ pos x outside h. same_blocks (bytes_kept pos x (w.kept pos x (side pos outside) h));
      inodes = λ j other ne h.
          with_inode-inodes size m' w.mounted idx resized index valid j other ne
            (w.inodes j other h);
      dirs = λ block dir h foreign.
          with_inode-dirs size m' w.mounted idx resized index valid block dir
            (w.dirs block dir h foreign).0;
    }
  where
    side : (pos : ℕ) → (pos < off) ⊎ (off + total ≤ pos) → (pos < off + 0) ⊎ (off + total ≤ pos)
    side pos (inl p) = inl (omega arith)
    side pos (inr p) = inr p

    same_blocks :
        {n : Image} {pos x : ℕ}
        → HasByte n inode' pos x
        → HasByte n (inode_set_size inode' bytes) pos x
    same_blocks h = record { direct = h.direct; there = h.there; stored = h.stored }

module _ (d : Device) (fs : Filesystem d) (file : FileInfo) (buf : List ℕ) (size off : ℕ) where
  fs_write_file_of :
      {w : Writing} {fs1 fs2 : Filesystem d}
      → write_loop d size (start_writing file.inode) buf size off fs ≡ ok w fs1
      → (is_enomem w.ret ≡ true) ⊎ ((is_enomem w.ret ≡ false) × ((w.total == size) ≡ true))
      → fs_save_inode d
          (inode_set_size w.inode (new_size off (u32 file.inode.size) w.total))
          file.idx
          fs1
        ≡ ok tt fs2
      → fs_write_file d file buf size off fs
        ≡ ok
            (
              w.total,
              record file {
                inode = inode_set_size w.inode (new_size off (u32 file.inode.size) w.total);
              },
            )
            fs2
  unfolding fs_write_file inode_get_size
  fs_write_file_of looped (inl out) saved = rw (looped, out, saved)
  fs_write_file_of looped (inr (in_room, all)) saved = rw (looped, in_room, all, saved)

-- A file of less than 12 blocks is no larger than a size can be.
size_fits :
    (size : ℕ) (m : Image) (off count total old k : ℕ)
    → IsMounted size m
    → m.sb.block_size ≡ 2 ^ k
    → off + count ≤ 12 * 2 ^ k
    → total ≤ count
    → (new_size off (u32 old) total < 2 ^ 63)
      × (new_size off (u32 old) total ≡ (if ltb off (u32 old) then total else total + u32 old))
size_fits size m off count total old k v power small within =
    let group : 2 * m.sb.block_size ≤ m.total = omega (arith, v.laid_out.whole) in
    let fits : total + u32 old < 2 ^ 40 =
      omega (arith, within, small, power, group, v.laid_out.group_fits) in
    (ground (arith, fits), ground (arith, fits))

module _ {d : Device} {size : ℕ} {byte : d.State → ℕ → ℕ} (laws : DeviceLaws d size byte)
    (fs : Filesystem d) (file : FileInfo) (buf : List ℕ) (count off k : ℕ)
    (v : IsMounted size (image byte fs)) (power : fs.sb.block_size ≡ 2 ^ k)
    (f : IsFile (image byte fs) file.inode) (h : HasInode (image byte fs) file.idx file.inode)
    (small : off + count ≤ 12 * 2 ^ k) where
  -- What `fs_write_file` gives.
  abbrev pub SavesFile : Type 0
  SavesFile =
      (total : ℕ) × (inode : Inode) × (fs' : Filesystem d) × (fs_write_file d file buf count off fs
        ≡ ok (total, record file { inode = inode }) fs')
      × ((total ≡ count) ⊎ ((total ≤ count) × IsFull (image byte fs')))
      × (inode.size
          ≡ (if ltb off (u32 file.inode.size) then total else total + u32 file.inode.size))
      × Saved size buf off total file.idx (image byte fs) file.inode (image byte fs') inode

  ended :
      (w : Writing) (fs1 : Filesystem d)
      → ((w.ret ≡ err_ok) × (w.total ≡ count)) ⊎ IsOut (image byte fs1) w
      → (is_enomem w.ret ≡ true) ⊎ ((is_enomem w.ret ≡ false) × ((w.total == count) ≡ true))
  ended w fs1 (inl (good, all)) = inr (ap is_enomem good, ground (arith, all))
  ended w fs1 (inr out) = inl (ap is_enomem out.error)

  -- Behind the loop.
  looped-SavesFile :
      (w : Writing) (fs1 : Filesystem d)
      → write_loop d count (start_writing file.inode) buf count off fs ≡ ok w fs1
      → w.total ≤ count
      → Wrote size buf off 0 w.total (image byte fs) file.inode (image byte fs1) w.inode
      → ((w.ret ≡ err_ok) × (w.total ≡ count)) ⊎ IsOut (image byte fs1) w
      → SavesFile
  unfolding inode_set_size
  looped-SavesFile w fs1 looped within wrote result =
      let bytes = new_size off (u32 file.inode.size) w.total in
      let (fits, same) =
        size_fits size (image byte fs) off count w.total file.inode.size k v power small within in
      let still = wrote.inodes file.idx file.inode h in
      let (s2, saved, holds) =
        fs_save_inode-with_inode laws fs1 wrote.mounted file.idx (inode_set_size w.inode bytes)
          still.index (set_size-IsValid w.inode bytes wrote.file.valid fits) in
      (
        w.total,
        inode_set_size w.inode bytes,
        record fs1 { device = s2 },
        fs_write_file_of d fs file buf count off looped (ended w fs1 result) saved,
        elim result [ inl (_, all) ↦ inl all | inr out ↦ inr (within, out.full) ],
        same,
        subst
            (λ m.
              Saved size buf off w.total file.idx (image byte fs) file.inode m
                (inode_set_size w.inode bytes))
            (sym holds)
            (set_size-Saved size buf off w.total file.idx (image byte fs) file.inode
              (image byte fs1) w.inode bytes wrote h.index still.used fits),
      )

  -- Bytes are written at an offset in the direct blocks of a file that is on a mounted device, whose
  -- block size is a power of two, from a buffer that has as many. Then `fs_write_file`
  -- returns how many, which are all or else no data block is left, the file has them, its inode is on
  -- the device with its new size, and the other bytes of the file, the other inodes, and the
  -- directories in other blocks are as they were.
  pub fs_write_file-SavesFile : count ≤ length buf → IsBytes buf → SavesFile
  unfolding start_writing
  fs_write_file-SavesFile enough bytes =
      let start = start_writing file.inode in
      let here : off + 0 ≡ off = omega arith in
      let (w, fs1, looped, _, within, wrote, result) =
        write_loop-Wrote laws buf off count k bytes enough count start fs v power f small
          (omega arith) (omega arith) refl in
      looped-SavesFile w fs1
        (subst (λ o. write_loop d count start buf count o fs ≡ ok w fs1) here looped) within wrote
        result
