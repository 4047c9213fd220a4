-- ===== src/BlockGroup/Load/Group.antt =====
-- Loading one group: its bitmaps are what the device holds, and both `next`s are up to date.
use mathlib.Core.Path.{subst, subst₂}
use chisai_fs.Base.{
  ℕ, ◌+◌, ◌*◌, ◌^◌, ◌≤◌, ◌<◌, ◌≡◌, ap, sym, ◌∙◌, some, List, [], ◌++◌, arith, length, drop,
  drop_all, replicate, u64, length-replicate,
}
use mathlib.Core.List.{append-nil}
use chisai_fs.Base.Outcome.{ok}
use chisai_fs.Bitvec.{Bitvec, bitvec_init}
use chisai_fs.Bitvec.Laws
use chisai_fs.Bitvec.Laws.{bit_at}
use chisai_fs.Bitvec.Search.{FirstClear}
use chisai_fs.BlockGroup.{BlockGroup, Kind, blkgrp_update_next}
use chisai_fs.BlockGroup.Take.{update_next_lem, IsFresh}
use chisai_fs.BlockGroup.Load.{filled, load_bitmap, load_group}
use chisai_fs.BlockGroup.Valid.{IsTable, IsTable-other, IsChange}
use chisai_fs.Device.{Device, device_data_load}
use chisai_fs.Device.Laws.{DeviceLaws, slice, device_data_load-slice, length-slice, slice-IsBytes}

-- A bitmap read in full is what the device holds there.
filled_whole :
    (n : ℕ) (bytes : List ℕ)
    → length bytes ≡ n
    → filled (bitvec_init n) bytes ≡ record { size = n; inner = bytes }
unfolding bitvec_init
filled_whole n bytes e =
    let rest : drop (length bytes) (replicate n 0) ≡ [] =
      drop_all (length bytes) (replicate n 0) (omega (arith, length-replicate {A = ℕ} n 0)) in
    ap (λ t. record { size = n; inner = t }) (ap (λ t. bytes ++ t) rest ∙ append-nil bytes)

-- What loading puts into a group: the bitmaps that the device holds from `off` on, and both `next`s
-- up to date.
pub record IsLoaded (n blk_size : ℕ) (f : ℕ → ℕ) (off : ℕ) (g g' : BlockGroup) : Type 0 where
  pub same_groups : g'.groups ≡ g.groups
  pub same_inode_num : g'.blk_inode_num ≡ g.blk_inode_num
  pub data_bits : g'.data_bitmap.inner ≡ slice f off blk_size
  pub inode_bits : g'.inode_bitmap.inner ≡ slice f (off + blk_size) blk_size
  pub tables : (k : Kind) → IsTable n k g'
  pub fresh : (k : Kind) → IsFresh n k g'

-- Two bitmaps put into a group, and both `next`s brought up to date.
updated_twice :
    (n blk_size : ℕ) (f : ℕ → ℕ) (off : ℕ) (g : BlockGroup)
    → n ≡ 8 * blk_size
    → n < 2 ^ 32
    → ((i : ℕ) → f i < 256)
    → (g1 g2 : BlockGroup) × (blkgrp_update_next Kind.blocks (record g {
      data_bitmap = record { size = blk_size; inner = slice f off blk_size };
      inode_bitmap = record { size = blk_size; inner = slice f (off + blk_size) blk_size };
    })
        ≡ some g1)
      × (blkgrp_update_next Kind.inodes g1 ≡ some g2)
      × IsLoaded n blk_size f off g g2
updated_twice n blk_size f off g e small bytes =
    let data_bits : Bitvec = record { size = blk_size; inner = slice f off blk_size } in
    let inode_bits : Bitvec = record {
      size = blk_size;
      inner = slice f (off + blk_size) blk_size;
    } in
    let valid = λ (at : ℕ). slice_valid at in
    let (g1, found1, c1, same1, fresh1) =
      update_next_lem n Kind.blocks (record g { inode_bitmap = inode_bits }) data_bits small
        (slice_valid off) (sym e) in
    let inode1 : g1.inode_bitmap ≡ inode_bits = c1.other_bitmap in
    let (g2, found2, c2, same2, fresh2) =
      update_next_lem n Kind.inodes g1 g1.inode_bitmap small
        (subst Laws.IsValid (sym inode1) (slice_valid (off + blk_size)))
        (ap (λ (w : Bitvec). 8 * w.size) inode1 ∙ sym e) in
    (
      g1,
      g2,
      found1,
      found2,
      record {
        same_groups = c2.same_groups ∙ c1.same_groups;
        same_inode_num = c2.same_inode_num ∙ c1.same_inode_num;
        data_bits = ap (λ (w : Bitvec). w.inner) (c2.other_bitmap ∙ same1);
        inode_bits = ap (λ (w : Bitvec). w.inner) (same2 ∙ inode1);
        tables = both_tables g1 g2 c1 c2;
        fresh = both_fresh g1 g2 c1 c2 fresh1 fresh2;
      },
    )
  where
    slice_valid : (at : ℕ) → Laws.IsValid (record { size = blk_size; inner = slice f at blk_size })
    slice_valid at = record {
      sized = sym (length-slice f at blk_size);
      bytes = slice-IsBytes f at blk_size bytes;
    }

    both_tables :
        {h : BlockGroup} (g1 g2 : BlockGroup)
        → IsChange n Kind.blocks h g1
        → IsChange n Kind.inodes g1 g2
        → (k : Kind) → IsTable n k g2
    both_tables g1 g2 c1 c2 Kind.inodes = c2.table
    both_tables g1 g2 c1 c2 Kind.blocks =
        IsTable-other n Kind.blocks g1 g2 c2.other_bitmap c2.other_next c1.table

    both_fresh :
        {h : BlockGroup} (g1 g2 : BlockGroup)
        → IsChange n Kind.blocks h g1
        → IsChange n Kind.inodes g1 g2
        → IsFresh n Kind.blocks g1
        → IsFresh n Kind.inodes g2
        → (k : Kind) → IsFresh n k g2
    both_fresh g1 g2 c1 c2 fresh1 fresh2 Kind.inodes = fresh2
    both_fresh g1 g2 c1 c2 fresh1 fresh2 Kind.blocks =
        subst₂ (λ w r. FirstClear n (bit_at w) r) (sym c2.other_bitmap) (sym c2.other_next) fresh1

module _ (d : Device) (blk_size off : ℕ) (s : d.State) where
  load_bitmap_of :
      {s' : d.State} {bytes : List ℕ}
      → device_data_load d off blk_size s ≡ ok bytes s'
      → length bytes ≡ blk_size
      → load_bitmap d blk_size off s ≡ ok (record { size = blk_size; inner = bytes }) s'
  unfolding load_bitmap
  load_bitmap_of {s'} {bytes} loaded e =
      rw loaded (ap (λ w. ok w s') (filled_whole blk_size bytes e))

  load_group_of :
      (g : BlockGroup) {g1 g2 : BlockGroup} {s1 s2 : d.State} {data_bits inode_bits : Bitvec}
      → load_bitmap d blk_size off s ≡ ok data_bits s1
      → load_bitmap d blk_size (u64 (off + blk_size)) s1 ≡ ok inode_bits s2
      → blkgrp_update_next Kind.blocks
          (record g { data_bitmap = data_bits; inode_bitmap = inode_bits })
        ≡ some g1
      → blkgrp_update_next Kind.inodes g1 ≡ some g2
      → load_group d blk_size off g s ≡ ok g2 s2
  unfolding load_group
  load_group_of g first second u1 u2 = rw (first, second, u1, u2)

module _ {d : Device} {size : ℕ} {byte : d.State → ℕ → ℕ} (laws : DeviceLaws d size byte)
    (n blk_size : ℕ) (e : n ≡ 8 * blk_size) (small : n < 2 ^ 32) (addressable : size < 2 ^ 64) where
  load_bitmap-slice :
      (off : ℕ) (s : d.State)
      → off + blk_size ≤ size
      → (s' : d.State) × (load_bitmap d blk_size off s
          ≡ ok (record { size = blk_size; inner = slice (byte s) off blk_size }) s')
        × (byte s' ≡ byte s)
  load_bitmap-slice off s fits =
      let (s', returns, same) = device_data_load-slice laws off blk_size s fits in
      (s', load_bitmap_of d blk_size off s returns (length-slice (byte s) off blk_size), same)

  pub load_group-IsLoaded :
      (off : ℕ) (g : BlockGroup) (s : d.State) (f : ℕ → ℕ)
      → byte s ≡ f
      → off + 2 * blk_size ≤ size
      → (s' : d.State) × (g' : BlockGroup) × (load_group d blk_size off g s ≡ ok g' s')
        × (byte s' ≡ f)
        × IsLoaded n blk_size f off g g'
  load_group-IsLoaded off g s f holds fits =
      let (s1, first, same1) = load_bitmap-slice off s (omega arith) in
      let (s2, second, same2) = load_bitmap-slice (off + blk_size) s1 (omega arith) in
      let (g1, g2, u1, u2, loaded) =
        updated_twice n blk_size f off g e small
          (λ i. subst (λ h. h i < 256) holds (laws.holds_bytes s i)) in
      let whole : u64 (off + blk_size) ≡ off + blk_size = omega arith in
      (
        s2,
        g2,
        load_group_of d blk_size off s g
            (first
              ∙ ap (λ h. ok (record { size = blk_size; inner = slice h off blk_size }) s1) holds)
            (ap (λ at. load_bitmap d blk_size at s1) whole
              ∙ second
              ∙ ap
                  (λ h.
                    ok (record { size = blk_size; inner = slice h (off + blk_size) blk_size }) s2)
                  (same1 ∙ holds))
            u1 u2,
        same2 ∙ same1 ∙ holds,
        loaded,
      )
