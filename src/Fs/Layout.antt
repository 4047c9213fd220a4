-- ===== src/Fs/Layout.antt =====
-- Where inodes and data blocks stand on the device: `fs_inode_to_offset` and `fs_data_to_offset`.
use chisai_fs.Base.{
  ℕ, ◌+◌, ◌-◌, ◌*◌, ◌/◌, ◌%◌, ◌^◌, ◌≤◌, ◌<◌, ◌≡◌, ◌≢◌, ◌⊎◌, inl, inr, arith, u32, u64, ltb, ◌==◌,
  ==_iff, Bool-cases,
}
use chisai_fs.Base.Division.{div-lt, mod-lt, mul-room, place_eq, eq_of_place}
use chisai_fs.BlockGroup.{before}
use chisai_fs.Fs.{inode_offset, data_offset}
use chisai_fs.Superblock.{Superblock}

-- A disk as `chisai_format` lays it out and `fs_init` takes it up: a group of `total` bytes is two
-- bitmaps, and for each bit an inode and a data block; nothing wraps up to the last of `groups`.
pub record IsLaidOut (sb : Superblock) (total : ℕ) : Type 0 where
  pub positive : 0 < sb.block_size
  pub some_blocks : 0 < sb.data_block_per_groups
  pub whole :
      total
      ≡ 2 * sb.block_size
        + 128 * sb.data_block_per_groups
        + sb.block_size * sb.data_block_per_groups
  pub group_fits : total < 2 ^ 32
  pub disk_fits : sb.block_size + sb.groups * total < 2 ^ 64
  pub indices_fit : sb.groups * sb.data_block_per_groups < 2 ^ 32

-- An index of the device, from 1 on.
abbrev pub IsIndex : Superblock → ℕ → Type 0
IsIndex sb idx = (1 ≤ idx) × (idx ≤ sb.groups * sb.data_block_per_groups)

-- The `n` bytes from `a` on and the `m` bytes from `b` on have none in common.
abbrev pub Disjoint : ℕ → ℕ → ℕ → ℕ → Type 0
Disjoint a n b m = (a + n ≤ b) ⊎ (b + m ≤ a)

-- Numbered pieces of `w` bytes do not overlap.
pieces_apart : (w i j : ℕ) → i ≢ j → Disjoint (w * i) w (w * j) w
pieces_apart w i j ne = elim (Bool-cases (ltb i j)) [
  | inl e ↦ inl (mul-room w i j (ground arith))
  | inr e ↦ inr (mul-room w j i (ground (arith, ne)))
]

-- The sums of the source, where nothing wraps.
data_sum :
    (blk n total groups g b : ℕ)
    → total ≡ 2 * blk + 128 * n + blk * n
    → total < 2 ^ 32
    → blk + groups * total < 2 ^ 64
    → g < groups
    → b < n
    → u64 (blk + g * total + u32 (2 * blk) + u32 (128 * n) + u32 (blk * b))
      ≡ blk + g * total + 2 * blk + 128 * n + blk * b
data_sum blk n total groups g b e small fits hg hb =
    omega (arith, mul-room blk b n hb, mul-room total g groups hg)

inode_sum :
    (blk n total groups g b : ℕ)
    → total ≡ 2 * blk + 128 * n + blk * n
    → total < 2 ^ 32
    → blk + groups * total < 2 ^ 64
    → g < groups
    → b < n
    → u64 (blk + g * total + u32 (2 * blk) + u32 (128 * b)) ≡ blk + g * total + 2 * blk + 128 * b
inode_sum blk n total groups g b e small fits hg hb = omega (arith, mul-room total g groups hg)

module _ (sb : Superblock) (total : ℕ) (v : IsLaidOut sb total) where
  abbrev grp : ℕ → ℕ
  grp idx = (idx - 1) / sb.data_block_per_groups

  abbrev place : ℕ → ℕ
  place idx = (idx - 1) % sb.data_block_per_groups

  grp-lt : (idx : ℕ) → IsIndex sb idx → grp idx < sb.groups
  grp-lt idx h =
      div-lt sb.data_block_per_groups sb.groups (idx - 1) v.some_blocks (omega (arith, h.0, h.1))

  place-lt : (idx : ℕ) → place idx < sb.data_block_per_groups
  place-lt idx = mod-lt sb.data_block_per_groups (idx - 1) v.some_blocks

  before_eq : (idx : ℕ) → IsIndex sb idx → before idx ≡ idx - 1
  before_eq idx h = omega (arith, h.0, h.1, v.indices_fit)

  data_offset_eq :
      (idx : ℕ)
      → IsIndex sb idx
      → data_offset sb total idx
        ≡ sb.block_size
          + grp idx * total
          + 2 * sb.block_size
          + 128 * sb.data_block_per_groups
          + sb.block_size * place idx
  unfolding data_offset
  data_offset_eq idx h = rw (before_eq idx h) (
      data_sum sb.block_size sb.data_block_per_groups total sb.groups (grp idx) (place idx) v.whole
        v.group_fits v.disk_fits (grp-lt idx h) (place-lt idx))

  inode_offset_eq :
      (idx : ℕ)
      → IsIndex sb idx
      → inode_offset sb total idx
        ≡ sb.block_size + grp idx * total + 2 * sb.block_size + 128 * place idx
  unfolding inode_offset
  inode_offset_eq idx h = rw (before_eq idx h) (
      inode_sum sb.block_size sb.data_block_per_groups total sb.groups (grp idx) (place idx) v.whole
        v.group_fits v.disk_fits (grp-lt idx h) (place-lt idx))

  same_index :
      (idx idx' : ℕ)
      → IsIndex sb idx
      → IsIndex sb idx'
      → grp idx ≡ grp idx'
      → place idx ≡ place idx'
      → idx ≡ idx'
  same_index idx idx' h h' e f =
      let n = sb.data_block_per_groups in
      omega (
        arith,
        place_eq n (idx - 1) v.some_blocks,
        eq_of_place n (grp idx) (place idx) (idx' - 1) v.some_blocks e f,
        h.0,
        h'.0,
      )

  -- Indices of different groups, or of one group at different places.
  apart :
      (idx idx' : ℕ)
      → IsIndex sb idx
      → IsIndex sb idx'
      → idx ≢ idx'
      → Disjoint (total * grp idx) total (total * grp idx') total
        ⊎ ((grp idx ≡ grp idx') × (place idx ≢ place idx'))
  apart idx idx' h h' ne = elim (Bool-cases (grp idx == grp idx')) [
    | inl e ↦
        let same = (==_iff (grp idx) (grp idx')).0 e in
        inr (same, λ f. ne (same_index idx idx' h h' same f))
    | inr e ↦ inl (pieces_apart total (grp idx) (grp idx') (ground arith))
  ]

  -- The bytes of a data block lie in its group, behind the inodes; those of an inode before them.
  data_room :
      (idx : ℕ)
      → sb.block_size * place idx + sb.block_size ≤ sb.block_size * sb.data_block_per_groups
  data_room idx = mul-room sb.block_size (place idx) sb.data_block_per_groups (place-lt idx)

  group_room : (idx : ℕ) → IsIndex sb idx → total * grp idx + total ≤ total * sb.groups
  group_room idx h = mul-room total (grp idx) sb.groups (grp-lt idx h)

  -- On a disk as it is formatted, two different data blocks have no byte in common.
  pub data_offset-Disjoint :
      (idx idx' : ℕ)
      → IsIndex sb idx
      → IsIndex sb idx'
      → idx ≢ idx'
      → Disjoint (data_offset sb total idx) sb.block_size (data_offset sb total idx') sb.block_size
  data_offset-Disjoint idx idx' h h' ne =
      let e = data_offset_eq idx h in
      let e' = data_offset_eq idx' h' in
      let r = data_room idx in
      let r' = data_room idx' in
      elim (apart idx idx' h h' ne) [
        | inl (inl p) ↦ inl (omega (arith, e, e', r, v.whole, p))
        | inl (inr p) ↦ inr (omega (arith, e, e', r', v.whole, p))
        | inr (same, differ) ↦ elim (pieces_apart sb.block_size (place idx) (place idx') differ) [
          | inl p ↦ inl (rw (e, e', same) (omega (arith, p)))
          | inr p ↦ inr (rw (e, e', same) (omega (arith, p)))
        ]
      ]

  -- On a disk as it is formatted, two different inodes have no byte in common.
  pub inode_offset-Disjoint :
      (idx idx' : ℕ)
      → IsIndex sb idx
      → IsIndex sb idx'
      → idx ≢ idx'
      → Disjoint (inode_offset sb total idx) 128 (inode_offset sb total idx') 128
  inode_offset-Disjoint idx idx' h h' ne =
      let e = inode_offset_eq idx h in
      let e' = inode_offset_eq idx' h' in
      let r = place-lt idx in
      let r' = place-lt idx' in
      elim (apart idx idx' h h' ne) [
        | inl (inl p) ↦ inl (omega (arith, e, e', r, v.whole, p))
        | inl (inr p) ↦ inr (omega (arith, e, e', r', v.whole, p))
        | inr (same, differ) ↦ elim (pieces_apart 128 (place idx) (place idx') differ) [
          | inl p ↦ inl (rw (e, e', same) (omega (arith, p)))
          | inr p ↦ inr (rw (e, e', same) (omega (arith, p)))
        ]
      ]

  -- On a disk as it is formatted, no inode has a byte in common with a data block, and both lie
  -- behind the superblock and the first two bitmaps, and before the end of the last group.
  pub inode_offset-data_offset-Disjoint :
      (idx idx' : ℕ)
      → IsIndex sb idx
      → IsIndex sb idx'
      → Disjoint (inode_offset sb total idx) 128 (data_offset sb total idx') sb.block_size
        × (3 * sb.block_size ≤ inode_offset sb total idx)
        × (3 * sb.block_size ≤ data_offset sb total idx')
        × (inode_offset sb total idx + 128 ≤ sb.block_size + sb.groups * total)
        × (data_offset sb total idx' + sb.block_size ≤ sb.block_size + sb.groups * total)
  inode_offset-data_offset-Disjoint idx idx' h h' =
      let e = inode_offset_eq idx h in
      let e' = data_offset_eq idx' h' in
      let r = place-lt idx in
      let r' = data_room idx' in
      (
        elim (Bool-cases (grp idx == grp idx')) [
          | inl same ↦
              let s = (==_iff (grp idx) (grp idx')).0 same in inl (rw (e, e', s) (omega (arith, r)))
          | inr differ ↦ elim (pieces_apart total (grp idx) (grp idx') (ground arith)) [
            | inl p ↦ inl (omega (arith, e, e', r, v.whole, p))
            | inr p ↦ inr (omega (arith, e, e', r', v.whole, p))
          ]
        ],
        omega (arith, e),
        omega (arith, e'),
        omega (arith, e, r, v.whole, group_room idx h),
        omega (arith, e', r', v.whole, group_room idx' h'),
      )
