-- ===== src/Fs/Content/Reads.antt =====
-- The loop of `fs_read_file` on the contents of a file.
use mathlib.Core.Path.{sym}
use chisai_fs.Base.{
  ℕ, zero, suc, ◌+◌, ◌-◌, ◌/◌, ◌%◌, ◌^◌, ◌≤◌, ◌<◌, ◌≡◌, refl, ap, ◌∙◌, true, false, Option, some,
  List, ◌++◌, arith, ltb, leb, get_or, take, drop, length, length-take, length-drop, length-append,
  u64, get_or-append, get_or-take, get_or-drop,
}
use chisai_fs.Base.Division.{mod-lt, place_shift}
use chisai_fs.Base.Outcome.{ok}
use chisai_fs.Device.{Device, device_data_load}
use chisai_fs.Device.Laws.{DeviceLaws, slice, length-slice, get_or-slice, device_data_load-slice}
use chisai_fs.Fs.{Filesystem, err_ok, data_offset, fs_data_to_offset}
use chisai_fs.Fs.Block.{fs_find_blk}
use chisai_fs.Fs.Content.{nth_block, address, HasByte, IsFile}
use chisai_fs.Fs.Content.Rounds.{chunk-le}
use chisai_fs.Fs.File.{off_in_block, chunk, filled_at, read_loop}
use chisai_fs.Fs.Layout.{inode_offset-data_offset-Disjoint}
use chisai_fs.Fs.Tree.{image, IsMounted}
use chisai_fs.Inode.{Inode}

-- A buffer with bytes put into it.
module _ (d : Device) (buf : List ℕ) (total : ℕ) (bytes : List ℕ)
    (room : total + length bytes ≤ length buf) where
  pub length-filled_at : length (filled_at d buf total bytes) ≡ length buf
  length-filled_at = omega (
    arith,
    room,
    length-append (take total buf) (bytes ++ drop (total + length bytes) buf),
    length-append bytes (drop (total + length bytes) buf),
    length-take total buf,
    length-drop (total + length bytes) buf,
  )

  cut : length (take total buf) ≡ total
  cut = omega (arith, room, length-take total buf)

  pub filled_before :
      (i : ℕ) → i < total → get_or (filled_at d buf total bytes) i 0 ≡ get_or buf i 0
  filled_before i lt =
      let low : ltb i (length (take total buf)) ≡ true = ground (arith, cut) in
      get_or-append 0 (take total buf) (bytes ++ drop (total + length bytes) buf) i
      ∙ rw low (get_or-take 0 total buf i lt)

  pub filled_here :
      (i : ℕ)
      → i < length bytes
      → get_or (filled_at d buf total bytes) (total + i) 0 ≡ get_or bytes i 0
  filled_here i lt =
      let high : ltb (total + i) (length (take total buf)) ≡ false = ground (arith, cut) in
      let low : ltb i (length bytes) ≡ true = ground arith in
      let place : total + i - length (take total buf) ≡ i = omega (arith, cut) in
      get_or-append 0 (take total buf) (bytes ++ drop (total + length bytes) buf) (total + i)
      ∙ rw (high, place) (get_or-append 0 bytes (drop (total + length bytes) buf) i ∙ rw low refl)

  pub filled_behind :
      (i : ℕ) → total + length bytes ≤ i → get_or (filled_at d buf total bytes) i 0 ≡ get_or buf i 0
  filled_behind i le =
      let high : ltb i (length (take total buf)) ≡ false = ground (arith, cut) in
      let high' : ltb (i - length (take total buf)) (length bytes) ≡ false = ground (arith, cut) in
      let place : total + length bytes + (i - length (take total buf) - length bytes) ≡ i =
        omega (arith, cut) in
      get_or-append 0 (take total buf) (bytes ++ drop (total + length bytes) buf) i
      ∙ rw high (
          get_or-append 0 bytes (drop (total + length bytes) buf) (i - length (take total buf))
          ∙ rw high' (
              get_or-drop 0 (total + length bytes) buf (i - length (take total buf) - length bytes)
              ∙ ap (λ j. get_or buf j 0) place))

pub read_end :
    (d : Device) (fuel : ℕ) (inode : Inode) (buf : List ℕ) (size off : ℕ) (blk_idx : Option ℕ)
    (total : ℕ) (fs : Filesystem d)
    → ltb total size ≡ false
    → read_loop d fuel inode buf size off blk_idx total fs ≡ ok (err_ok, total, buf) fs
unfolding read_loop
read_end d zero inode buf size off blk_idx total fs done = rw done
read_end d (suc left) inode buf size off blk_idx total fs done = rw done

pub read_round :
    (d : Device) (fuel : ℕ) (inode : Inode) (buf : List ℕ) (size off : ℕ) (blk_idx : Option ℕ)
    (total : ℕ) (fs : Filesystem d) (b at wlen : ℕ) {bytes : List ℕ} {s' : d.State}
    → ltb total size ≡ true
    → fs_find_blk d inode off blk_idx fs ≡ ok (err_ok, some b) fs
    → ltb 0 fs.sb.block_size ≡ true
    → ltb 0 fs.sb.data_block_per_groups ≡ true
    → off_in_block off fs.sb.block_size ≡ at
    → chunk fs.sb.block_size size total at ≡ wlen
    → leb (total + wlen) (length buf) ≡ true
    → device_data_load d (u64 (at + data_offset fs.sb fs.blkgrp_size b)) wlen fs.device
      ≡ ok bytes s'
    → read_loop d (suc fuel) inode buf size off blk_idx total fs
      ≡ read_loop d fuel inode
          (filled_at d buf total bytes)
          size
          (off + wlen)
          (some b)
          (total + wlen)
          (record fs { device = s' })
unfolding read_loop fs_data_to_offset
read_round d fuel inode buf size off blk_idx total fs b at wlen more found some_size some_blocks
      place is_chunk enough loaded =
    rw (more, found, some_size, some_blocks, place, is_chunk, enough, loaded)

module _ {d : Device} {size : ℕ} {byte : d.State → ℕ → ℕ} (laws : DeviceLaws d size byte)
    (fs : Filesystem d) (v : IsMounted size (image byte fs)) (inode : Inode)
    (f : IsFile (image byte fs) inode) (off count k : ℕ) (power : fs.sb.block_size ≡ 2 ^ k)
    (values : ℕ → ℕ)
    (has : (i : ℕ) → i < count → HasByte (image byte fs) inode (off + i) (values i)) where
  -- One device read, on a device that holds what it held.
  pub load_chunk :
      (total : ℕ) (s : d.State)
      → byte s ≡ byte fs.device
      → total < count
      → (wlen : ℕ) × (bytes : List ℕ) × (s' : d.State) × (chunk fs.sb.block_size count total
            ((off + total) % fs.sb.block_size)
          ≡ wlen)
        × (1 ≤ wlen)
        × (total + wlen ≤ count)
        × (length bytes ≡ wlen)
        × (device_data_load d
              (u64 (
                (off + total) % fs.sb.block_size
                + data_offset fs.sb fs.blkgrp_size
                    (nth_block inode ((off + total) / fs.sb.block_size))))
              wlen
              s
            ≡ ok bytes s')
        × (byte s' ≡ byte fs.device)
        × ((i : ℕ) → i < wlen → get_or bytes i 0 ≡ values (total + i))
  unfolding data_offset
  load_chunk total s holds more =
      let blk = fs.sb.block_size in
      let pos = off + total in
      let at = pos % blk in
      let h = has total more in
      let b = nth_block inode (pos / blk) in
      let wlen = chunk blk count total at in
      let (some_bytes, in_block, in_count) =
        chunk-le blk count total at (mod-lt blk pos v.laid_out.positive) more in
      let index = (f.blocks (pos / blk) h.direct h.there).0 in
      let (_, _, _, _, high) =
        inode_offset-data_offset-Disjoint (image byte fs).sb fs.blkgrp_size v.laid_out b b index
          index in
      let start = data_offset fs.sb fs.blkgrp_size b + at in
      let whole : u64 (at + data_offset fs.sb fs.blkgrp_size b) ≡ start =
        omega (arith, in_block, high, v.laid_out.disk_fits) in
      let (s', loaded, same) =
        device_data_load-slice laws start wlen s (omega (arith, in_block, high, v.room)) in
      (
        wlen,
        slice (byte s) start wlen,
        s',
        refl,
        some_bytes,
        in_count,
        length-slice (byte s) start wlen,
        ap (λ a. device_data_load d a wlen s) whole ∙ loaded,
        same ∙ holds,
        λ i lt.
            let (quotient, remainder) =
              place_shift blk pos i v.laid_out.positive (omega (arith, lt, in_block)) in
            let next : off + (total + i) ≡ pos + i = omega arith in
            let there = has (total + i) (omega (arith, lt, in_count)) in
            let place : address (image byte fs) inode (off + (total + i)) ≡ start + i =
              ap (address (image byte fs) inode) next
              ∙ ap
                  (λ (q : ℕ).
                    data_offset fs.sb fs.blkgrp_size (nth_block inode q) + (pos + i) % blk)
                  quotient
              ∙ omega (arith, remainder) in
            get_or-slice (byte s) start wlen i lt
            ∙ ap (λ g. g (start + i)) holds
            ∙ ap (byte fs.device) (sym place)
            ∙ there.stored,
      )
