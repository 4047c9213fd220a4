-- ===== src/Fs/Content/Read.antt =====
-- `fs_read_file` on the contents of a file.
use mathlib.Core.Path.{subst, sym}
use chisai_fs.Base.{
  ℕ, zero, suc, ◌+◌, ◌-◌, ◌/◌, ◌%◌, ◌^◌, ◌≤◌, ◌<◌, ◌≡◌, inl, inr, refl, ap, ◌∙◌, true, false,
  Option, none, some, List, arith, ◌==◌, ltb, if◌then◌else◌, Bool-cases, get_or,
  get_elem?-eq-get_or, length, u32, u64,
}
use chisai_fs.Base.Outcome.{ok}
use chisai_fs.Device.{Device, device_data_load}
use chisai_fs.Device.Laws.{DeviceLaws}
use chisai_fs.Fs.{Filesystem, FileInfo, err_ok, data_offset}
use chisai_fs.Fs.Content.{nth_block, HasByte, IsFile}
use chisai_fs.Fs.Content.Reads.{
  length-filled_at, filled_before, filled_here, filled_behind, read_end, read_round, load_chunk,
}
use chisai_fs.Fs.Content.Rounds.{off_in_block-mod, direct_small, find_direct}
use chisai_fs.Fs.File.{chunk, filled_at, read_loop, fs_read_file}
use chisai_fs.Fs.Tree.{image, IsMounted}
use chisai_fs.Fs.Tree.Reads.{divides}
use chisai_fs.Inode.{Inode}

-- What a read leaves in the buffer of the caller: `count` bytes, and behind them what was there.
pub record IsRead (count : ℕ) (values : ℕ → ℕ) (buf buf' : List ℕ) : Type 0 where
  pub same_length : length buf' ≡ length buf
  pub bytes : (i : ℕ) → i < count → get_or buf' i 0 ≡ values i
  pub rest : (i : ℕ) → count ≤ i → get_or buf' i 0 ≡ get_or buf i 0

module _ {d : Device} {size : ℕ} {byte : d.State → ℕ → ℕ} (laws : DeviceLaws d size byte)
    (fs : Filesystem d) (v : IsMounted size (image byte fs)) (inode : Inode)
    (f : IsFile (image byte fs) inode) (off count k : ℕ) (power : fs.sb.block_size ≡ 2 ^ k)
    (values : ℕ → ℕ)
    (has : (i : ℕ) → i < count → HasByte (image byte fs) inode (off + i) (values i)) where
  -- The buffer behind one round.
  round_bytes :
      (buf bytes : List ℕ) (total wlen : ℕ)
      → length bytes ≡ wlen
      → total + wlen ≤ length buf
      → ((i : ℕ) → i < total → get_or buf i 0 ≡ values i)
      → ((i : ℕ) → i < wlen → get_or bytes i 0 ≡ values (total + i))
      → (i : ℕ) → i < total + wlen
      → get_or (filled_at d buf total bytes) i 0 ≡ values i
  round_bytes buf bytes total wlen len room old new i lt =
      let room' : total + length bytes ≤ length buf = omega (arith, len) in
      elim (Bool-cases (ltb i total)) [
        | inl first ↦ filled_before d buf total bytes room' i (ground arith) ∙ old i (ground arith)
        | inr second ↦
            let high : total ≤ i = ground arith in
            let place : total + (i - total) ≡ i = omega arith in
            ap (λ j. get_or (filled_at d buf total bytes) j 0) (sym place)
            ∙ filled_here d buf total bytes room' (i - total) (omega (arith, len))
            ∙ new (i - total) (omega arith)
            ∙ ap values place
      ]

  -- One round.
  round_of :
      (fuel : ℕ) (buf : List ℕ) (blk_idx : Option ℕ) (total : ℕ) (s : d.State) (wlen : ℕ)
      (bytes : List ℕ) (s1 : d.State)
      → ltb total count ≡ true
      → HasByte (image byte fs) inode (off + total) (values total)
      → chunk fs.sb.block_size count total ((off + total) % fs.sb.block_size) ≡ wlen
      → total + wlen ≤ length buf
      → device_data_load d
          (u64 (
            (off + total) % fs.sb.block_size
            + data_offset fs.sb fs.blkgrp_size
                (nth_block inode ((off + total) / fs.sb.block_size))))
          wlen
          s
        ≡ ok bytes s1
      → read_loop d
          (suc fuel)
          inode
          buf
          count
          (off + total)
          blk_idx
          total
          (record fs { device = s })
        ≡ read_loop d fuel inode
            (filled_at d buf total bytes)
            count
            (off + (total + wlen))
            (some (nth_block inode ((off + total) / fs.sb.block_size)))
            (total + wlen)
            (record fs { device = s1 })
  round_of fuel buf blk_idx total s wlen bytes s1 more h is_chunk room loaded =
      let pos = off + total in
      let b = nth_block inode (pos / fs.sb.block_size) in
      let running = record fs { device = s } in
      let positive : ltb 0 fs.sb.block_size ≡ true = ground (arith, v.laid_out.positive) in
      let whole : u32 (pos / fs.sb.block_size) ≡ pos / fs.sb.block_size = omega (arith, h.direct) in
      let low : ltb (pos / fs.sb.block_size) 12 ≡ true = ground (arith, h.direct) in
      let there : (b == 0) ≡ false = ground (arith, h.there) in
      let narrow : fs.sb.block_size < 2 ^ 32 =
        omega (arith, v.laid_out.whole, v.laid_out.group_fits) in
      let pos_small : pos < 2 ^ 64 =
        direct_small fs.sb.block_size pos v.laid_out.positive narrow h.direct in
      let at =
        get_elem?-eq-get_or inode.direct_blks (pos / fs.sb.block_size) 0
          (omega (arith, f.valid.twelve, h.direct)) in
      read_round d fuel inode buf count pos blk_idx total running b (pos % fs.sb.block_size) wlen
        more (find_direct d running inode pos positive whole low blk_idx at ∙ rw there refl)
        positive (divides laws fs v)
        (off_in_block-mod k pos fs.sb.block_size power v.laid_out.positive (omega (arith, narrow))
          (omega (arith, pos_small)))
        is_chunk (ground arith) loaded
      ∙ ap
          (λ (o : ℕ).
            read_loop d fuel inode (filled_at d buf total bytes) count o (some b) (total + wlen)
              (record fs { device = s1 }))
          (omega arith)

  -- The loop fills the buffer.
  read_loop-IsRead :
      (fuel : ℕ) (buf : List ℕ) (blk_idx : Option ℕ) (total : ℕ) (s : d.State)
      → byte s ≡ byte fs.device
      → count ≤ length buf
      → count ≤ fuel + total
      → total ≤ count
      → ((i : ℕ) → i < total → get_or buf i 0 ≡ values i)
      → (buf' : List ℕ) × (s' : d.State) × (read_loop d fuel inode buf count
            (off + total)
            blk_idx
            total
            (record fs { device = s })
          ≡ ok (err_ok, count, buf') (record fs { device = s' }))
        × (byte s' ≡ byte fs.device)
        × IsRead count values buf buf'
  read_loop-IsRead zero buf blk_idx total s holds enough fuel_left below old =
      let all : total ≡ count = omega arith in
      (
        buf,
        s,
        read_end d 0 inode buf count (off + total) blk_idx total (record fs { device = s })
              (ground arith)
            ∙ ap (λ t. ok (err_ok, t, buf) (record fs { device = s })) all,
        holds,
        record {
          same_length = refl;
          bytes = λ i lt. old i (omega (arith, lt));
          rest = λ i le. refl;
        },
      )
  read_loop-IsRead (suc fuel) buf blk_idx total s holds enough fuel_left below old =
      elim (Bool-cases (ltb total count)) [
        | inr done ↦
            let all : total ≡ count = ground arith in
            (
              buf,
              s,
              read_end d (suc fuel) inode buf count (off + total) blk_idx total
                    (record fs { device = s }) done
                  ∙ ap (λ t. ok (err_ok, t, buf) (record fs { device = s })) all,
              holds,
              record {
                same_length = refl;
                bytes = λ i lt. old i (omega (arith, lt, all));
                rest = λ i le. refl;
              },
            )
        | inl more ↦
            let (wlen, bytes, s1, is_chunk, some_bytes, in_count, len, loaded, holds1, new) =
              load_chunk laws fs v inode f off count k power values has total s holds
                (ground arith) in
            let room : total + length bytes ≤ length buf = omega (arith, len, in_count) in
            let (buf', s', runs, holds', read) =
              read_loop-IsRead fuel (filled_at d buf total bytes)
                (some (nth_block inode ((off + total) / fs.sb.block_size))) (total + wlen) s1 holds1
                (omega (arith, length-filled_at d buf total bytes room)) (omega (arith, some_bytes))
                in_count (round_bytes buf bytes total wlen len (omega (arith, in_count)) old new) in
            (
              buf',
              s',
              round_of fuel buf blk_idx total s wlen bytes s1 more (has total (ground arith))
                    is_chunk (omega (arith, in_count)) loaded
                  ∙ runs,
              holds',
              record {
                same_length = read.same_length ∙ length-filled_at d buf total bytes room;
                bytes = read.bytes;
                rest = λ i le.
                    read.rest i le
                    ∙ filled_behind d buf total bytes room i (omega (arith, len, in_count, le));
              },
            )
      ]

-- The bytes that `fs_read_file` reads.
abbrev pub read_size : ℕ → Inode → ℕ
read_size count inode = if ltb count inode.size then count else inode.size

module _ {d : Device} {size : ℕ} {byte : d.State → ℕ → ℕ} (laws : DeviceLaws d size byte) where
  -- A file on a mounted device, whose block size is a power of two, has a byte in its direct blocks
  -- at each of the positions that are read, which are as many as asked for but no more than the size
  -- of the file, and the buffer has room. Then `fs_read_file` returns their number, and the buffer
  -- has these bytes and is as it was behind them. The bytes of the device and the rest of the state
  -- are as they were.
  pub fs_read_file-IsRead :
      (fs : Filesystem d) (file : FileInfo) (buf : List ℕ) (count off k : ℕ) (values : ℕ → ℕ)
      (v : IsMounted size (image byte fs)) (f : IsFile (image byte fs) file.inode)
      (power : fs.sb.block_size ≡ 2 ^ k)
      (has : (i : ℕ)
        → i < read_size count file.inode
        → HasByte (image byte fs) file.inode (off + i) (values i))
      → read_size count file.inode ≤ length buf
      → (buf' : List ℕ) × (s' : d.State) × (fs_read_file d file buf count off fs
          ≡ ok (err_ok, read_size count file.inode, buf') (record fs { device = s' }))
        × (byte s' ≡ byte fs.device)
        × IsRead (read_size count file.inode) values buf buf'
  unfolding fs_read_file
  fs_read_file-IsRead fs file buf count off k values v f power has enough =
      let n = read_size count file.inode in
      let here : off + 0 ≡ off = omega arith in
      let (buf', s', runs, holds, read) =
        read_loop-IsRead laws fs v file.inode f off n k power values has n buf none 0 fs.device refl
          enough (omega arith) (omega arith) (λ i lt. absurd (omega arith)) in
      (
        buf',
        s',
        subst
            (λ o.
              read_loop d n file.inode buf n o none 0 fs
              ≡ ok (err_ok, n, buf') (record fs { device = s' }))
            here runs,
        holds,
        read,
      )
