-- ===== src/BlockGroup/Stale.antt =====
-- Release does not bring `next_inode` or `next_data` up to date: what that does to a full group.
use mathlib.Core.Path.{subst}
use native.Mathlib.Nat.{div-eq_of_lt}
use chisai_fs.Base.{
  ℕ, suc, ◌-◌, ◌*◌, ◌/◌, ◌%◌, ◌^◌, ◌≤◌, ◌<◌, ◌≡◌, refl, ap, ◌∙◌, false, none, some, List, arith,
  ◌==◌, length, get_elem?, get_or, set, get_elem?-set_self, get_or_of_get_elem?, lt_of_get_elem?,
  sym,
}
use chisai_fs.Base.Division.{mod-lt}
use chisai_fs.Bitvec.{Bitvec, bitvec_set, bitvec_count_zeros}
use chisai_fs.Bitvec.Laws
use chisai_fs.Bitvec.Laws.{bit_at, bitvec_reset-IsUpdate, bitvec_set_outside}
use chisai_fs.Bitvec.Search.{bitvec_count_zeros-zeros, some_zero, zeros-le}
use chisai_fs.Bitvec.Byte.{zeros}
use chisai_fs.BlockGroup.{
  BlockGroup, Kind, bitmap, next, with_bitmap, before, blkgrps_release, blkgrps_alloc, blkgrp_alloc,
  blkgrp_free_num,
}
use chisai_fs.BlockGroup.Release.{
  group_of, release_of, grp_found, grp-IsTable, grp_divide, grp_modulo, in_bitmap,
}
use chisai_fs.BlockGroup.Valid.{IsValid, blank}

blkgrp_alloc-none :
    (k : Kind) (g : BlockGroup)
    → bitvec_set (bitmap k g) (before (next k g)) ≡ none
    → blkgrp_alloc k g ≡ none
unfolding blkgrp_alloc
blkgrp_alloc-none k g e = rw e

-- A group whose `next` is 0 cannot be allocated from: the index wraps to 2 ^ 32 - 1.
blkgrp_alloc_wraps :
    (k : Kind) (g : BlockGroup)
    → next k g ≡ 0
    → Laws.IsValid (bitmap k g)
    → 8 * (bitmap k g).size < 2 ^ 32
    → blkgrp_alloc k g ≡ none
blkgrp_alloc_wraps k g e valid small = blkgrp_alloc-none k g (
    ap (λ r. bitvec_set (bitmap k g) (before r)) e
    ∙ bitvec_set_outside (bitmap k g) (2 ^ 32 - 1) valid (omega arith))

free_num_of :
    (k : Kind) (g : BlockGroup) {sum : ℕ}
    → bitvec_count_zeros (bitmap k g) ≡ some sum
    → blkgrp_free_num k g ≡ some (sum % 2 ^ 32)
unfolding blkgrp_free_num
free_num_of k g e = rw e

-- The first round of the loop, at a group with a free bit that cannot be allocated from.
alloc_stuck :
    (k : Kind) (blk_grps : List BlockGroup) {g : BlockGroup} {left free : ℕ}
    → get_elem? blk_grps 0 ≡ some g
    → g.groups ≡ suc left
    → blkgrp_free_num k g ≡ some free
    → 1 ≤ free
    → blkgrp_alloc k g ≡ none
    → blkgrps_alloc k blk_grps ≡ none
unfolding blkgrps_alloc
alloc_stuck k blk_grps {free} first count counted h stuck =
    let e : (free == 0) ≡ false = ground arith in rw (first, count, first, counted, e, stuck)

-- A group with a clear bit `b` and `next` 0, in front of the array.
stuck_at_head :
    (k : Kind) (blk_grps : List BlockGroup) (g : BlockGroup) (left b : ℕ)
    → get_elem? blk_grps 0 ≡ some g
    → g.groups ≡ suc left
    → Laws.IsValid (bitmap k g)
    → 8 * (bitmap k g).size < 2 ^ 32
    → b < 8 * (bitmap k g).size
    → bit_at (bitmap k g) b ≡ 0
    → next k g ≡ 0
    → blkgrps_alloc k blk_grps ≡ none
stuck_at_head k blk_grps g left b first count valid small lt clear e =
    let m = 8 * (bitmap k g).size in
    let sum = zeros m (bit_at (bitmap k g)) in
    let low = some_zero m (bit_at (bitmap k g)) b lt clear in
    let high = zeros-le m (bit_at (bitmap k g)) in
    let whole : sum % 2 ^ 32 ≡ sum = omega arith in
    alloc_stuck k blk_grps first count
      (free_num_of k g (bitvec_count_zeros-zeros (bitmap k g) valid) ∙ ap some whole) low
      (blkgrp_alloc_wraps k g e valid small)

cleared_fields :
    (k : Kind) (g : BlockGroup) (u : Bitvec)
    → (bitmap k (with_bitmap k u g) ≡ u)
      × (next k (with_bitmap k u g) ≡ next k g)
      × ((with_bitmap k u g).groups ≡ g.groups)
cleared_fields Kind.inodes g u = (refl, refl, refl)
cleared_fields Kind.blocks g u = (refl, refl, refl)

-- The first group is full, and the source knows it: `next` is 0. Then the release of any index of
-- that group succeeds, and the allocation after it writes outside the bitmap, though the released
-- index is free.
pub blkgrps_alloc-release_full :
    (n : ℕ) (k : Kind) (blk_grps : List BlockGroup) (idx : ℕ) (v : IsValid n blk_grps)
    → 1 ≤ idx
    → idx ≤ n
    → next k v.head ≡ 0
    → (blk_grps' : List BlockGroup) × (blkgrps_release k blk_grps idx ≡ some blk_grps')
      × (blkgrps_alloc k blk_grps' ≡ none)
blkgrps_alloc-release_full n k blk_grps idx v low high full =
    let inside = lt_of_get_elem? blk_grps 0 v.at_head in
    let total : n ≤ length blk_grps * n = grind (arith, inside) in
    let g = group_of n blk_grps idx in
    let found = grp_found n k blk_grps idx v low (omega arith) in
    let t = grp-IsTable n k blk_grps idx v low (omega arith) in
    let here : (idx - 1) / n ≡ 0 = div-eq_of_lt (omega arith) in
    let same : g ≡ v.head =
      ap (λ i. get_or blk_grps i blank) here ∙ get_or_of_get_elem? blk_grps 0 blank v.at_head in
    let (u, stored, update) =
      bitvec_reset-IsUpdate (bitmap k g) ((idx - 1) % n) t.valid
        (in_bitmap n k blk_grps idx v low (omega arith)) in
    let (bm, nx, gr) = cleared_fields k g u in
    let h = with_bitmap k u g in
    let sized : 8 * (bitmap k h).size ≡ n =
      ap (λ (w : Bitvec). 8 * w.size) bm ∙ omega (arith, update.same_size, t.sized) in
    (
      set blk_grps ((idx - 1) / n) h,
      release_of k blk_grps idx (ground arith) v.at_head
          (grp_divide n k blk_grps idx v low (omega arith))
          (grp_modulo n k blk_grps idx v low (omega arith)) found stored,
      stuck_at_head k (set blk_grps ((idx - 1) / n) h) h (length blk_grps - 1) ((idx - 1) % n)
          (ap (λ i. get_elem? (set blk_grps i h) 0) here ∙ get_elem?-set_self blk_grps 0 h inside)
          (gr ∙ ap (λ (x : BlockGroup). x.groups) same ∙ omega (arith, v.counted))
          (subst Laws.IsValid (sym bm) update.valid) (omega (arith, v.fits))
          (omega (arith, mod-lt n (idx - 1) v.positive))
          (ap (λ w. bit_at w ((idx - 1) % n)) bm ∙ update.bits ((idx - 1) % n) ∙ ground arith)
          (nx ∙ ap (next k) same ∙ full),
    )
