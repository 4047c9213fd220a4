-- ===== src/BlockGroup/Alloc/First.antt =====
-- The first group of the array, where its `next` is the lowest free index.
use mathlib.Core.Path.{subst, sym}
use mathlib.Core.Option.{some-injective}
use chisai_fs.Base.{
  ℕ, suc, ◌+◌, ◌-◌, ◌*◌, ◌≤◌, ◌≡◌, ap, ◌∙◌, inl, inr, some, List, arith, length, get_elem?, set,
  u32, lt_of_get_elem?, ltb, ◌==◌, Bool-cases,
}
use chisai_fs.Bitvec.Laws.{bit_at}
use chisai_fs.Bitvec.Search.{FirstClear}
use chisai_fs.BlockGroup.{BlockGroup, Kind, bitmap, next, blkgrps_alloc_loop, blkgrps_alloc}
use chisai_fs.BlockGroup.Alloc.{IsAllocated, loop_alloc, group-lt, IsAllocated-IsTaken}
use chisai_fs.BlockGroup.Take.{IsFresh, IsTaken, blkgrp_alloc_lem, full_of_free_num}
use chisai_fs.BlockGroup.Valid.{IsValid}

-- The lowest clear bit is the first, or the second.
pub FirstClear-one : (n : ℕ) (f : ℕ → ℕ) (r : ℕ) → FirstClear n f r → 1 ≤ n → f 0 ≡ 0 → r ≡ 1
FirstClear-one n f r (inl (e, all)) p c = absurd (omega (arith, all 0 (omega arith)))
FirstClear-one n f r (inr (low, high, at, below)) p c = elim (Bool-cases (ltb 0 (r - 1))) [
  | inl more ↦ absurd (omega (arith, below 0 (ground arith)))
  | inr first ↦ ground arith
]

pub FirstClear-two :
    (n : ℕ) (f : ℕ → ℕ) (r : ℕ) → FirstClear n f r → 2 ≤ n → f 0 ≡ 1 → f 1 ≡ 0 → r ≡ 2
FirstClear-two n f r (inl (e, all)) p b c = absurd (omega (arith, all 1 (omega arith)))
FirstClear-two n f r (inr (low, high, at, below)) p b c = elim (Bool-cases (ltb 1 (r - 1))) [
  | inl more ↦ absurd (omega (arith, below 1 (ground arith)))
  | inr few ↦ elim (Bool-cases (r - 1 == 0)) [
    | inl first ↦ let e : r - 1 ≡ 0 = ground arith in absurd (omega (arith, sym (ap f e) ∙ at, b))
    | inr second ↦ ground arith
  ]
]

alloc_of :
    (k : Kind) (blk_grps : List BlockGroup) (left : ℕ) {g : BlockGroup} {out : ℕ × List BlockGroup}
    → get_elem? blk_grps 0 ≡ some g
    → g.groups ≡ suc left
    → blkgrps_alloc_loop k (suc left) 0 blk_grps ≡ some out
    → blkgrps_alloc k blk_grps ≡ some out
unfolding blkgrps_alloc
alloc_of k blk_grps left first count rest = rw (first, count) rest

FirstClear-found :
    (n : ℕ) (f : ℕ → ℕ) (r : ℕ) → FirstClear n f r → 1 ≤ r → (r ≤ n) × (f (r - 1) ≡ 0)
FirstClear-found n f r (inl (e, all)) low = absurd (omega arith)
FirstClear-found n f r (inr (low', high, at, below)) low = (high, at)

module _ (n : ℕ) (k : Kind) (blk_grps : List BlockGroup) (v : IsValid n blk_grps) (g : BlockGroup)
    (first : get_elem? blk_grps 0 ≡ some g) (low : 1 ≤ next k g) (fresh : IsFresh n k g) where
  -- The first group has a free index, and gives it.
  blkgrps_alloc-first :
      (g' : BlockGroup) × (blkgrps_alloc k blk_grps ≡ some (next k g, set blk_grps 0 g'))
      × IsTaken n k g (next k g - 1) g'
      × IsAllocated n k blk_grps (next k g) (set blk_grps 0 g')
  blkgrps_alloc-first =
      let (high, clear) = FirstClear-found n (bit_at (bitmap k g)) (next k g) fresh low in
      let some_group = lt_of_get_elem? blk_grps 0 first in
      let same : v.head ≡ g = some-injective _ _ (sym v.at_head ∙ first) in
      let count : g.groups ≡ suc (length blk_grps - 1) =
        ap (λ (x : BlockGroup). x.groups) (sym same) ∙ v.counted ∙ omega arith in
      let (free, counted, state) = full_of_free_num n k g (group-lt v) (v.tables 0 g first k) in
      let free_one : 1 ≤ free = elim state [
        | inl s ↦ s.0
        | inr (none_free, full) ↦ absurd (omega (arith, full (next k g - 1) (omega arith), clear))
      ] in
      let (g', stored, t) =
        blkgrp_alloc_lem n k g (group-lt v) (v.tables 0 g first k) low high clear in
      let index : 0 * n + (next k g - 1 + 1) ≡ next k g = omega arith in
      let done =
        subst (λ r. IsAllocated n k blk_grps r (set blk_grps 0 g')) index
          (IsAllocated-IsTaken n k blk_grps v 0 (next k g - 1) g g' first t) in
      let whole : u32 (0 * done.valid.head.blk_inode_num + next k g) ≡ next k g =
        omega (arith, done.in_range, v.fits) in
      (
        g',
        alloc_of k blk_grps (length blk_grps - 1) first count (
            loop_alloc k (length blk_grps - 1) 0 blk_grps first counted free_one stored
              done.valid.at_head
            ∙ ap (λ (r : ℕ). some (r, set blk_grps 0 g')) whole),
        t,
        done,
      )

  pub blkgrps_alloc-first_at :
      (r : ℕ)
      → next k g ≡ r
      → (g' : BlockGroup) × (blkgrps_alloc k blk_grps ≡ some (r, set blk_grps 0 g'))
        × IsTaken n k g (r - 1) g'
        × IsAllocated n k blk_grps r (set blk_grps 0 g')
  blkgrps_alloc-first_at r e =
      subst
        (λ x.
          (g' : BlockGroup) × (blkgrps_alloc k blk_grps ≡ some (x, set blk_grps 0 g'))
          × IsTaken n k g (x - 1) g'
          × IsAllocated n k blk_grps x (set blk_grps 0 g'))
        e blkgrps_alloc-first
