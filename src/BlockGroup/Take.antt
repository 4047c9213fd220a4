-- ===== src/BlockGroup/Take.antt =====
-- Allocation in one group: `blkgrp_inode_alloc`, `blkgrp_data_alloc` and the counts of free bits.
use chisai_fs.Base.{
  ℕ, ◌-◌, ◌*◌, ◌%◌, ◌^◌, ◌≤◌, ◌<◌, ◌≡◌, refl, ap, ◌∙◌, ◌⊎◌, inl, inr, some, arith, ◌==◌,
  if◌then◌else◌,
}
use chisai_fs.Bitvec.{Bitvec, bitvec_set, bitvec_count_zeros}
use chisai_fs.Bitvec.Byte.{zeros}
use chisai_fs.Bitvec.Laws
use chisai_fs.Bitvec.Laws.{bit_at, bitvec_set-IsUpdate}
use chisai_fs.Bitvec.Search.{
  bitvec_count_zeros-zeros, bitvec_find_first_set-FirstClear, zeros-le, zeros_full, some_zero,
  FirstClear,
}
use chisai_fs.BlockGroup.{
  BlockGroup, Kind, bitmap, next, with_bitmap, with_next, before, blkgrp_update_next, blkgrp_alloc,
  blkgrp_free_num,
}
use chisai_fs.BlockGroup.Valid.{IsTable, IsChange, NextFree, NextFree-of_FirstClear}

-- A group after `blkgrp_update_next` over a new bitmap of the same size.
updated-IsChange :
    (n : ℕ) (k : Kind) (g : BlockGroup) (v : Bitvec) (r : ℕ)
    → Laws.IsValid v
    → 8 * v.size ≡ n
    → FirstClear n (bit_at v) r
    → IsChange n k g (with_next k r (with_bitmap k v g))
updated-IsChange n Kind.inodes g v r valid sized first = record {
  same_groups = refl;
  same_inode_num = refl;
  table = record {
    valid = valid;
    sized = sized;
    next_free = NextFree-of_FirstClear n (bit_at v) r first;
  };
  other_bitmap = refl;
  other_next = refl;
}
updated-IsChange n Kind.blocks g v r valid sized first = record {
  same_groups = refl;
  same_inode_num = refl;
  table = record {
    valid = valid;
    sized = sized;
    next_free = NextFree-of_FirstClear n (bit_at v) r first;
  };
  other_bitmap = refl;
  other_next = refl;
}

bitmap-updated :
    (k : Kind) (g : BlockGroup) (v : Bitvec) (r : ℕ)
    → bitmap k (with_next k r (with_bitmap k v g)) ≡ v
bitmap-updated Kind.inodes g v r = refl
bitmap-updated Kind.blocks g v r = refl

next-updated :
    (k : Kind) (g : BlockGroup) (v : Bitvec) (r : ℕ)
    → next k (with_next k r (with_bitmap k v g)) ≡ r
next-updated Kind.inodes g v r = refl
next-updated Kind.blocks g v r = refl

-- `next` is up to date: one plus the lowest clear bit, or 0.
abbrev pub IsFresh : ℕ → Kind → BlockGroup → Type 0
IsFresh n k g = FirstClear n (bit_at (bitmap k g)) (next k g)

bitmap-with_bitmap : (k : Kind) (g : BlockGroup) (v : Bitvec) → bitmap k (with_bitmap k v g) ≡ v
bitmap-with_bitmap Kind.inodes g v = refl
bitmap-with_bitmap Kind.blocks g v = refl

FirstClear-le : (n : ℕ) (f : ℕ → ℕ) (r : ℕ) → FirstClear n f r → r ≤ n
FirstClear-le n f r (inl (e, _)) = omega arith
FirstClear-le n f r (inr (_, p, _, _)) = p

-- `blkgrp_update_next` over a new bitmap.
pub update_next_lem :
    (n : ℕ) (k : Kind) (g : BlockGroup) (v : Bitvec)
    → n < 2 ^ 32
    → Laws.IsValid v
    → 8 * v.size ≡ n
    → (g' : BlockGroup) × (blkgrp_update_next k (with_bitmap k v g) ≡ some g')
      × IsChange n k g g'
      × (bitmap k g' ≡ v)
      × IsFresh n k g'
unfolding blkgrp_update_next
update_next_lem n k g v small valid sized =
    let (r, found, first) = bitvec_find_first_set-FirstClear v valid in
    let first' : FirstClear n (bit_at v) r = rw sized at first in
    let whole : r % 2 ^ 32 ≡ r = omega (arith, FirstClear-le n (bit_at v) r first') in
    (
      with_next k r (with_bitmap k v g),
      rw (bitmap-with_bitmap k g v, found, whole),
      updated-IsChange n k g v r valid sized first',
      bitmap-updated k g v r,
      rw (bitmap-updated k g v r, next-updated k g v r) first',
    )

-- What allocation does to one group: the index it gives was clear, and is set afterwards.
pub record IsTaken (n : ℕ) (k : Kind) (g : BlockGroup) (b : ℕ) (g' : BlockGroup) : Type 0 where
  pub change : IsChange n k g g'
  pub in_group : b < n
  pub was_clear : bit_at (bitmap k g) b ≡ 0
  pub fresh : IsFresh n k g'
  pub bits : (j : ℕ) → bit_at (bitmap k g') j ≡ (if b == j then 1 else bit_at (bitmap k g) j)

blkgrp_alloc_of :
    (k : Kind) (g : BlockGroup) {v : Bitvec} {g' : BlockGroup}
    → bitvec_set (bitmap k g) (before (next k g)) ≡ some v
    → blkgrp_update_next k (with_bitmap k v g) ≡ some g'
    → blkgrp_alloc k g ≡ some (next k g, g')
unfolding blkgrp_alloc
blkgrp_alloc_of k g stored found = rw (stored, found)

pub blkgrp_alloc_lem :
    (n : ℕ) (k : Kind) (g : BlockGroup)
    → n < 2 ^ 32
    → IsTable n k g
    → 1 ≤ next k g
    → next k g ≤ n
    → bit_at (bitmap k g) (next k g - 1) ≡ 0
    → (g' : BlockGroup) × (blkgrp_alloc k g ≡ some (next k g, g')) × IsTaken n k g (next k g - 1) g'
blkgrp_alloc_lem n k g small t low high clear =
    let place : before (next k g) ≡ next k g - 1 = omega arith in
    let (v, stored, update) =
      bitvec_set-IsUpdate (bitmap k g) (next k g - 1) t.valid (omega (arith, t.sized)) in
    let (g', found, change, same, fresh) =
      update_next_lem n k g v small update.valid (omega (arith, update.same_size, t.sized)) in
    (
      g',
      blkgrp_alloc_of k g (ap (bitvec_set (bitmap k g)) place ∙ stored) found,
      record {
        change = change;
        in_group = omega arith;
        was_clear = clear;
        fresh = fresh;
        bits = λ j. rw same (update.bits j);
      },
    )

-- What the count of free bits of a group says: there is one at `next`, or all are set.
pub full_of_free_num :
    (n : ℕ) (k : Kind) (g : BlockGroup)
    → n < 2 ^ 32
    → IsTable n k g
    → (free : ℕ) × (blkgrp_free_num k g ≡ some free)
      × (((1 ≤ free) × (1 ≤ next k g) × (next k g ≤ n) × (bit_at (bitmap k g) (next k g - 1) ≡ 0))
          ⊎ ((free ≡ 0) × ((b : ℕ) → b < n → bit_at (bitmap k g) b ≡ 1)))
unfolding blkgrp_free_num
full_of_free_num n k g small t = (
  zeros n (bit_at (bitmap k g)),
  free_num_of (bitvec_count_zeros-zeros (bitmap k g) t.valid)
      ∙ ap some (rw t.sized (omega (arith, zeros-le n (bit_at (bitmap k g))))),
  choose t.next_free,
)
  where
    free_num_of :
        {sum : ℕ}
        → bitvec_count_zeros (bitmap k g) ≡ some sum
        → blkgrp_free_num k g ≡ some (sum % 2 ^ 32)
    free_num_of e = rw e

    choose :
        NextFree n (bit_at (bitmap k g)) (next k g)
        → ((1 ≤ zeros n (bit_at (bitmap k g)))
            × (1 ≤ next k g)
            × (next k g ≤ n)
            × (bit_at (bitmap k g) (next k g - 1) ≡ 0))
          ⊎ ((zeros n (bit_at (bitmap k g)) ≡ 0) × ((b : ℕ) → b < n → bit_at (bitmap k g) b ≡ 1))
    choose (inl (e, all)) = inr (zeros_full n (bit_at (bitmap k g)) all, all)
    choose (inr (p, q, c)) =
        inl (some_zero n (bit_at (bitmap k g)) (next k g - 1) (omega arith) c, p, q, c)
