-- ===== src/Tests/Group.antt =====
-- src/chisai-core/block_group.c at one group of 8 indices.
use mathlib.Core.Path.{subst}
use mathlib.Core.Option.{some-injective}
use chisai_fs.Base.{
  ℕ, zero, suc, ◌-◌, ◌≤◌, ◌<◌, ◌≡◌, passes, passes_at, ==_iff, refl, ◌⊎◌, inl, inr, not, none, some,
  List, [], ◌∷◌, arith, ◌==◌, get_elem?,
}
use chisai_fs.Bitvec.Laws
use chisai_fs.BlockGroup.{BlockGroup, Kind, blkgrps_exist, blkgrps_alloc, blkgrps_release}
use chisai_fs.BlockGroup.Alloc.{IsAllocated, AllTaken, blkgrps_alloc-IsAllocated}
use chisai_fs.BlockGroup.Release.{IsReleased, blkgrps_exist-taken, blkgrps_release-IsReleased}
use chisai_fs.BlockGroup.Stale.{blkgrps_alloc-release_full}
use chisai_fs.BlockGroup.Valid.{IsTable, IsValid, taken}

-- The indices 1 and 3 of the data blocks are taken, and no inode.
abbrev group : BlockGroup
group = record {
  groups = 1;
  blk_inode_num = 8;
  blkgrp_size = 0;
  data_bitmap = record { size = 1; inner = 5 ∷ [] };
  inode_bitmap = record { size = 1; inner = 0 ∷ [] };
  next_data = 2;
  next_inode = 1;
}

-- Every data block is taken.
abbrev full_group : BlockGroup
full_group = record group { data_bitmap = record { size = 1; inner = 255 ∷ [] }; next_data = 0 }

pub byte-IsValid : (b : ℕ) → b ≤ 255 → Laws.IsValid (record { size = 1; inner = b ∷ [] })
byte-IsValid b h = record { sized = refl; bytes = (omega arith, tt) }

-- An array of one group is well-formed if the group's tables are.
pub single :
    (g : BlockGroup)
    → g.groups ≡ 1
    → g.blk_inode_num ≡ 8
    → ((k : Kind) → IsTable 8 k g)
    → IsValid 8 (g ∷ [])
single g count number tables = record {
  head = g;
  at_head = refl;
  counted = count;
  numbered = number;
  positive = omega arith;
  fits = omega arith;
  tables = at;
}
  where
    at : (i : ℕ) → (g' : BlockGroup) → get_elem? (g ∷ []) i ≡ some g' → (k : Kind) → IsTable 8 k g'
    at zero g' e k = subst (λ x. IsTable 8 k x) (some-injective _ _ e) (tables k)
    at (suc i) g' e k = absurd (cc)

group-IsTable : (k : Kind) → IsTable 8 k group
group-IsTable Kind.inodes = record {
  valid = byte-IsValid 0 (omega arith);
  sized = refl;
  next_free = inr (omega arith, omega arith, refl);
}
group-IsTable Kind.blocks = record {
  valid = byte-IsValid 5 (omega arith);
  sized = refl;
  next_free = inr (omega arith, omega arith, refl);
}

full_bits : (j : ℕ) → j < 8 → Laws.bits_of (255 ∷ []) j ≡ 1
unfolding passes
full_bits j h =
    (==_iff (Laws.bits_of (255 ∷ []) j) 1).0
      (passes_at 8 (λ i. Laws.bits_of (255 ∷ []) i == 1) j refl h)

full_group-IsTable : (k : Kind) → IsTable 8 k full_group
full_group-IsTable Kind.inodes = record {
  valid = byte-IsValid 0 (omega arith);
  sized = refl;
  next_free = inr (omega arith, omega arith, refl);
}
full_group-IsTable Kind.blocks = record {
  valid = byte-IsValid 255 (omega arith);
  sized = refl;
  next_free = inl (refl, full_bits);
}

abbrev groups : List BlockGroup
groups = group ∷ []

groups-IsValid : IsValid 8 groups
groups-IsValid = single group refl refl group-IsTable

blkgrps_alloc-IsAllocated_example :
    (r : ℕ) × (blk_grps' : List BlockGroup) × (blkgrps_alloc Kind.blocks groups
      ≡ some (r, blk_grps'))
    × (IsAllocated 8 Kind.blocks groups r blk_grps'
        ⊎ ((r ≡ 0) × (blk_grps' ≡ groups) × AllTaken 8 Kind.blocks groups 0))
blkgrps_alloc-IsAllocated_example = blkgrps_alloc-IsAllocated 8 Kind.blocks groups groups-IsValid

blkgrps_exist-taken_example :
    blkgrps_exist Kind.blocks groups 3 ≡ some (not (taken Kind.blocks 8 groups (3 - 1) == 0))
blkgrps_exist-taken_example =
    blkgrps_exist-taken 8 Kind.blocks groups 3 groups-IsValid (omega arith) (omega arith)

blkgrps_release-IsReleased_example :
    (blk_grps' : List BlockGroup) × (blkgrps_release Kind.blocks groups 3 ≡ some blk_grps')
    × IsReleased 8 Kind.blocks groups 3 blk_grps'
blkgrps_release-IsReleased_example =
    blkgrps_release-IsReleased 8 Kind.blocks groups 3 groups-IsValid (omega arith) (omega arith)
      (omega arith)

blkgrps_alloc-release_full_example :
    (blk_grps' : List BlockGroup) × (blkgrps_release Kind.blocks (full_group ∷ []) 3
      ≡ some blk_grps')
    × (blkgrps_alloc Kind.blocks blk_grps' ≡ none)
unfolding single
blkgrps_alloc-release_full_example =
    blkgrps_alloc-release_full 8 Kind.blocks (full_group ∷ []) 3
      (single full_group refl refl full_group-IsTable) (omega arith) (omega arith) refl
