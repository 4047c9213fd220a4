-- ===== src/BlockGroup/Alloc.antt =====
-- Allocation: what `blkgrps_inode_alloc` and `blkgrps_data_alloc` do to the array.
pub mod First
use chisai_fs.Base.{
  ℕ, zero, suc, ◌+◌, ◌-◌, ◌*◌, ◌/◌, ◌%◌, ◌^◌, ◌≤◌, ◌<◌, ◌≡◌, refl, ap, ◌∙◌, ◌⊎◌, inl, inr, some,
  List, arith, ◌==◌, if◌then◌else◌, length, get_elem?, get_or, set, Bool-cases, u32, false,
  length-set, get_elem?-eq-get_or, get_or_of_get_elem?, lt_of_get_elem?,
}
use chisai_fs.Base.Division.{div-lt, mod-lt, place-lt, div_of_place, mod_of_place, place_test}
use chisai_fs.Bitvec.{Bitvec, bitvec_set, bitvec_count_zeros}
use chisai_fs.Bitvec.Byte.{zeros}
use chisai_fs.Bitvec.Laws
use chisai_fs.Bitvec.Laws.{bit_at, bitvec_set-IsUpdate}
use chisai_fs.Bitvec.Search.{
  bitvec_count_zeros-zeros, bitvec_find_first_set-FirstClear, zeros-le, zeros_full, some_zero,
  FirstClear,
}
use chisai_fs.BlockGroup.{
  BlockGroup, Kind, bitmap, next, with_bitmap, with_next, before, blkgrp_update_next, blkgrp_alloc,
  blkgrp_free_num, blkgrps_alloc_loop, blkgrps_alloc,
}
use chisai_fs.BlockGroup.Update.{IsValid-set, taken-set, taken-set-other}
use chisai_fs.BlockGroup.Valid.{
  IsTable, IsChange, IsValid, taken, other, blank, NextFree, NextFree-of_FirstClear,
}
use chisai_fs.BlockGroup.Take.{IsTaken, blkgrp_alloc_lem, full_of_free_num}

-- What allocation of index `r` does to the array.
pub record IsAllocated (n : ℕ) (k : Kind) (blk_grps : List BlockGroup) (r : ℕ)
    (blk_grps' : List BlockGroup) : Type 0 where
  pub valid : IsValid n blk_grps'
  pub same_length : length blk_grps' ≡ length blk_grps
  pub not_zero : 1 ≤ r
  pub in_range : r ≤ length blk_grps * n
  pub was_free : taken k n blk_grps (r - 1) ≡ 0
  pub marked : (j : ℕ) → taken k n blk_grps' j ≡ (if r - 1 == j then 1 else taken k n blk_grps j)
  pub other_kept : (j : ℕ) → taken (other k) n blk_grps' j ≡ taken (other k) n blk_grps j

-- Every index is taken, from group `i` on.
abbrev pub AllTaken : ℕ → Kind → List BlockGroup → ℕ → Type 0
AllTaken n k blk_grps i = (j : ℕ) → i ≤ j / n → j < length blk_grps * n → taken k n blk_grps j ≡ 1

module _ (k : Kind) (left i : ℕ) (blk_grps : List BlockGroup) {g : BlockGroup} {free : ℕ}
    (found : get_elem? blk_grps i ≡ some g) (counted : blkgrp_free_num k g ≡ some free) where
  -- One round of the loop, at a group that is full and at one that is not.
  loop_full :
      free ≡ 0
      → blkgrps_alloc_loop k (suc left) i blk_grps ≡ blkgrps_alloc_loop k left (i + 1) blk_grps
  unfolding blkgrps_alloc_loop
  loop_full e = rw (found, counted, e)

  pub loop_alloc :
      {g' head : BlockGroup} {idx : ℕ}
      → 1 ≤ free
      → blkgrp_alloc k g ≡ some (idx, g')
      → get_elem? (set blk_grps i g') 0 ≡ some head
      → blkgrps_alloc_loop k (suc left) i blk_grps
        ≡ some (u32 (i * head.blk_inode_num + idx), set blk_grps i g')
  unfolding blkgrps_alloc_loop
  loop_alloc h stored first =
      let e : (free == 0) ≡ false = ground arith in rw (found, counted, e, stored, first)

pub group-lt : {n : ℕ} {blk_grps : List BlockGroup} → IsValid n blk_grps → n < 2 ^ 32
group-lt {n} {blk_grps} v =
    let inside = lt_of_get_elem? blk_grps 0 v.at_head in grind (arith, inside, v.fits)

module _ (n : ℕ) (k : Kind) (blk_grps : List BlockGroup) (v : IsValid n blk_grps) where
  marked :
      (i b : ℕ) (g g' : BlockGroup)
      → get_elem? blk_grps i ≡ some g
      → IsTaken n k g b g'
      → (j : ℕ)
      → (if i == j / n then bit_at (bitmap k g') (j % n) else taken k n blk_grps j)
        ≡ (if i * n + b == j then 1 else taken k n blk_grps j)
  marked i b g g' found t j =
      rw (place_test n i b j v.positive t.in_group) (elim (Bool-cases (i == j / n)) [
        | inl here ↦
            let e : j / n ≡ i = ground arith in
            rw (here, e, get_or_of_get_elem? blk_grps i blank found) (t.bits (j % n))
        | inr elsewhere ↦ rw elsewhere
      ])

  -- Taking a free bit of group `i` is allocating the index behind it.
  pub IsAllocated-IsTaken :
      (i b : ℕ) (g g' : BlockGroup)
      → get_elem? blk_grps i ≡ some g
      → IsTaken n k g b g'
      → IsAllocated n k blk_grps (i * n + (b + 1)) (set blk_grps i g')
  IsAllocated-IsTaken i b g g' found t =
      let inside = lt_of_get_elem? blk_grps i found in
      let last : i * n + (b + 1) - 1 ≡ i * n + b = omega arith in
      let group = get_or_of_get_elem? blk_grps i blank found in
      record {
        valid = IsValid-set n blk_grps i k g g' v found t.change;
        same_length = length-set blk_grps i g';
        not_zero = omega arith;
        in_range = omega (arith, place-lt n (length blk_grps) i b inside t.in_group);
        was_free =
            rw (last, div_of_place n i b t.in_group, mod_of_place n i b t.in_group, group)
              t.was_clear;
        marked = λ j. taken-set n k blk_grps i j g' inside ∙ rw last (marked i b g g' found t j);
        other_kept = λ j. taken-set-other n k blk_grps i j g g' found t.change;
      }

  AllTaken-step :
      (i : ℕ) (g : BlockGroup)
      → get_elem? blk_grps i ≡ some g
      → ((b : ℕ) → b < n → bit_at (bitmap k g) b ≡ 1)
      → AllTaken n k blk_grps (i + 1)
      → AllTaken n k blk_grps i
  AllTaken-step i g found full rest j p q = elim (Bool-cases (i == j / n)) [
    | inl here ↦
        let e : j / n ≡ i = ground arith in
        rw (e, get_or_of_get_elem? blk_grps i blank found) (full (j % n) (mod-lt n j v.positive))
    | inr later ↦ rest j (ground arith) q
  ]

  -- The loop at a group with a free bit.
  loop_takes :
      (left i free : ℕ) (g : BlockGroup)
      → get_elem? blk_grps i ≡ some g
      → blkgrp_free_num k g ≡ some free
      → 1 ≤ free
      → 1 ≤ next k g
      → next k g ≤ n
      → bit_at (bitmap k g) (next k g - 1) ≡ 0
      → (r : ℕ) × (blk_grps' : List BlockGroup) × (blkgrps_alloc_loop k (suc left) i blk_grps
          ≡ some (r, blk_grps'))
        × IsAllocated n k blk_grps r blk_grps'
  loop_takes left i free g found counted h low high clear =
      let (g', stored, t) =
        blkgrp_alloc_lem n k g (group-lt v) (v.tables i g found k) low high clear in
      let done = IsAllocated-IsTaken i (next k g - 1) g g' found t in
      let index : u32 (i * done.valid.head.blk_inode_num + next k g) ≡ i * n + (next k g - 1 + 1) =
        ap (λ (m : ℕ). u32 (i * m + next k g)) done.valid.numbered
        ∙ omega (arith, done.in_range, v.fits) in
      (
        i * n + (next k g - 1 + 1),
        set blk_grps i g',
        loop_alloc k left i blk_grps found counted h stored done.valid.at_head
            ∙ ap (λ (r : ℕ). some (r, set blk_grps i g')) index,
        done,
      )

  blkgrps_alloc_loop_lem :
      (left i : ℕ)
      → i + left ≡ length blk_grps
      → (r : ℕ) × (blk_grps' : List BlockGroup) × (blkgrps_alloc_loop k left i blk_grps
          ≡ some (r, blk_grps'))
        × (IsAllocated n k blk_grps r blk_grps'
            ⊎ ((r ≡ 0) × (blk_grps' ≡ blk_grps) × AllTaken n k blk_grps i))
  blkgrps_alloc_loop_lem zero i e = (
    0,
    blk_grps,
    unfold blkgrps_alloc_loop in refl,
    inr (refl, refl, λ j p q. absurd (omega (arith, div-lt n (length blk_grps) j v.positive q))),
  )
  blkgrps_alloc_loop_lem (suc left) i e =
      let g = get_or blk_grps i blank in
      let found = get_elem?-eq-get_or blk_grps i blank (omega arith) in
      let (free, counted, state) = full_of_free_num n k g (group-lt v) (v.tables i g found k) in
      elim state [
        | inl (h, low, high, clear) ↦
            let (r, blk_grps', returns, done) =
              loop_takes left i free g found counted h low high clear in
            (r, blk_grps', returns, inl done)
        | inr (none_free, full) ↦
            let (r, blk_grps', returns, result) =
              blkgrps_alloc_loop_lem left (i + 1) (omega arith) in
            (
              r,
              blk_grps',
              loop_full k left i blk_grps found counted none_free ∙ returns,
              elim result [
                | inl done ↦ inl done
                | inr (zero_index, same, rest) ↦
                    inr (zero_index, same, AllTaken-step i g found full rest)
              ],
            )
      ]

  -- `blkgrps_inode_alloc` and `blkgrps_data_alloc` on a well-formed array: either they return an
  -- index that was free, mark it and nothing else, and keep the array well-formed; or they return 0
  -- and change nothing, and then every index is taken.
  pub blkgrps_alloc-IsAllocated :
      (r : ℕ) × (blk_grps' : List BlockGroup) × (blkgrps_alloc k blk_grps ≡ some (r, blk_grps'))
      × (IsAllocated n k blk_grps r blk_grps'
          ⊎ ((r ≡ 0) × (blk_grps' ≡ blk_grps) × AllTaken n k blk_grps 0))
  unfolding blkgrps_alloc
  blkgrps_alloc-IsAllocated =
      let (r, blk_grps', returns, result) =
        blkgrps_alloc_loop_lem v.head.groups 0 (omega (arith, v.counted)) in
      (r, blk_grps', start v.at_head returns, result)
    where
      start :
          {head : BlockGroup} {out : ℕ × List BlockGroup}
          → get_elem? blk_grps 0 ≡ some head
          → blkgrps_alloc_loop k head.groups 0 blk_grps ≡ some out
          → blkgrps_alloc k blk_grps ≡ some out
      start first rest = rw first rest
