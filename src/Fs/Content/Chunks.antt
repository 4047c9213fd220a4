-- ===== src/Fs/Content/Chunks.antt =====
-- A part of a data block of a file is written.
use mathlib.Core.Path.{subst, sym}
use chisai_fs.Base.{
  ℕ, ◌+◌, ◌-◌, ◌*◌, ◌/◌, ◌%◌, ◌≤◌, ◌<◌, ◌≡◌, ◌⊎◌, inl, inr, refl, ap, ◌∙◌, List, arith, ◌==◌,
  Bool-cases, get_or, take, drop, length, length-take, length-drop, get_or-take, get_or-drop,
}
use chisai_fs.Base.Division.{place_eq, mod-lt, place_shift}
use chisai_fs.Device.Laws.{slice, patch, slice-patch_ne, patch_in, patch_out}
use chisai_fs.Dir.Store.{dir_bytes}
use chisai_fs.Fs.{data_offset, inode_offset}
use chisai_fs.Fs.Content.{nth_block, address, HasByte, IsFile, Wrote}
use chisai_fs.Fs.Layout.{IsIndex, Disjoint, data_offset-Disjoint, inode_offset-data_offset-Disjoint}
use chisai_fs.Fs.Tree.{Image, IsMounted}
use chisai_fs.Fs.Tree.Saves.{with_bytes-IsMounted}
use chisai_fs.Inode.{Inode, inode_bytes}

-- The image behind a write of bytes at a place in a data block.
abbrev pub with_chunk : Image → ℕ → ℕ → List ℕ → Image
with_chunk m b at bytes = record m { bytes = patch m.bytes (data_offset m.sb m.total b + at) bytes }

module _ (size : ℕ) (m : Image) (v : IsMounted size m) (inode : Inode) (f : IsFile m inode)
    (buf : List ℕ) (off lo wlen : ℕ) (direct : (off + lo) / m.sb.block_size < 12)
    (there : 1 ≤ nth_block inode ((off + lo) / m.sb.block_size))
    (room : (off + lo) % m.sb.block_size + wlen ≤ m.sb.block_size)
    (enough : lo + wlen ≤ length buf) where
  abbrev n : ℕ
  n = (off + lo) / m.sb.block_size

  abbrev at : ℕ
  at = (off + lo) % m.sb.block_size

  abbrev b : ℕ
  b = nth_block inode n

  abbrev bytes : List ℕ
  bytes = take wlen (drop lo buf)

  abbrev chunk_image : Image
  chunk_image = with_chunk m b at bytes

  index : IsIndex m.sb b
  index = (f.blocks n direct there).0

  len : length bytes ≡ wlen
  len = omega (arith, length-take wlen (drop lo buf), length-drop lo buf)

  -- The place of an index inside the chunk.
  inside :
      (i : ℕ)
      → lo ≤ i
      → i < lo + wlen
      → ((off + i) / m.sb.block_size ≡ n) × ((off + i) % m.sb.block_size ≡ at + (i - lo))
  inside i low high =
      let whole : off + lo + (i - lo) ≡ off + i = omega arith in
      let (quotient, remainder) =
        place_shift m.sb.block_size (off + lo) (i - lo) v.laid_out.positive (omega arith) in
      (
        ap (λ (x : ℕ). x / m.sb.block_size) (sym whole) ∙ quotient,
        ap (λ (x : ℕ). x % m.sb.block_size) (sym whole) ∙ remainder,
      )

  chunk-written :
      (i : ℕ) → lo ≤ i → i < lo + wlen → HasByte chunk_image inode (off + i) (get_or buf i 0)
  chunk-written i low high =
      let (quotient, remainder) = inside i low high in
      let start = data_offset m.sb m.total b + at in
      let place : address m inode (off + i) ≡ start + (i - lo) =
        ap (λ (q : ℕ). data_offset m.sb m.total (nth_block inode q) + (off + i) % m.sb.block_size)
          quotient
        ∙ omega (arith, remainder) in
      record {
        direct = omega (arith, quotient, direct);
        there = subst (λ q. 1 ≤ nth_block inode q) (sym quotient) there;
        stored =
            ap chunk_image.bytes place
            ∙ patch_in m.bytes start bytes (start + (i - lo)) (omega arith) (omega (arith, len))
            ∙ ap (λ j. get_or bytes j 0) (omega arith)
            ∙ get_or-take 0 wlen (drop lo buf) (i - lo) (omega arith)
            ∙ get_or-drop 0 lo buf (i - lo)
            ∙ ap (λ j. get_or buf j 0) (omega arith);
      }

  -- A byte of the file outside the chunk is not touched.
  untouched :
      (pos : ℕ)
      → (pos < off + lo) ⊎ (off + (lo + wlen) ≤ pos)
      → pos / m.sb.block_size < 12
      → 1 ≤ nth_block inode (pos / m.sb.block_size)
      → chunk_image.bytes (address m inode pos) ≡ m.bytes (address m inode pos)
  untouched pos outside below has =
      patch_out m.bytes (data_offset m.sb m.total b + at) bytes (address m inode pos)
        (elim (Bool-cases (pos / m.sb.block_size == n)) [
          | inl e ↦
              let same : pos / m.sb.block_size ≡ n = ground arith in
              let block : data_offset m.sb m.total (nth_block inode (pos / m.sb.block_size))
                  ≡ data_offset m.sb m.total b =
                ap (λ q. data_offset m.sb m.total (nth_block inode q)) same in
              let here : pos ≡ n * m.sb.block_size + pos % m.sb.block_size =
                sym (place_eq m.sb.block_size pos v.laid_out.positive)
                ∙ ap (λ (q : ℕ). q * m.sb.block_size + pos % m.sb.block_size) same in
              let start = place_eq m.sb.block_size (off + lo) v.laid_out.positive in
              elim outside [
                | inl before ↦ inl (omega (arith, block, here, start))
                | inr behind ↦ inr (omega (arith, block, here, start, len))
              ]
          | inr e ↦
              let other = (f.blocks (pos / m.sb.block_size) below has).0 in
              let lt = mod-lt m.sb.block_size pos v.laid_out.positive in
              elim (data_offset-Disjoint m.sb m.total v.laid_out
                (nth_block inode (pos / m.sb.block_size)) b other index
                (f.apart (pos / m.sb.block_size) n below direct (λ q. absurd (ground arith)) has)) [
                  | inl p ↦ inl (omega (arith, p, lt))
                  | inr p ↦ inr (omega (arith, p, len, room))
                ]
        ])

  -- A piece of the device that has no byte in common with the data block is not touched.
  untouched_piece :
      (a w w' : ℕ)
      → Disjoint a w (data_offset m.sb m.total b) m.sb.block_size
      → w' ≤ w
      → slice chunk_image.bytes a w' ≡ slice m.bytes a w'
  untouched_piece a w w' apart narrow =
      slice-patch_ne m.bytes (data_offset m.sb m.total b + at) bytes a w'
        (elim apart [ inl p ↦ inl (omega arith) | inr p ↦ inr (omega (arith, len, room)) ])

  pub chunk-Wrote : Wrote size buf off lo (lo + wlen) m inode chunk_image inode
  chunk-Wrote = record {
    mounted = with_bytes-IsMounted size m chunk_image.bytes v;
    same_sb = refl;
    file = record { valid = f.valid; blocks = f.blocks; apart = f.apart };
    same_size = refl;
    written = chunk-written;
    kept = λ pos x outside h. record {
      direct = h.direct;
      there = h.there;
      stored = untouched pos outside h.direct h.there ∙ h.stored;
    };
    inodes = λ idx other h. record {
      index = h.index;
      used = h.used;
      stored =
          untouched_piece (inode_offset m.sb m.total idx) 128 inode_bytes
            (inode_offset-data_offset-Disjoint m.sb m.total v.laid_out idx b h.index index).0
            (omega arith)
          ∙ h.stored;
      valid = h.valid;
    };
    dirs = λ block dir h foreign. (
      record {
        index = h.index;
        used = h.used;
        stored =
            untouched_piece (data_offset m.sb m.total block) m.sb.block_size dir_bytes
              (data_offset-Disjoint m.sb m.total v.laid_out block b h.index index
                (λ e. foreign n direct (sym e)))
              v.wide
            ∙ h.stored;
        valid = h.valid;
      },
      foreign,
    );
  }
