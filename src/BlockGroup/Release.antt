-- ===== src/BlockGroup/Release.antt =====
-- `blkgrps_inode_exist`, `blkgrps_data_exist` and `blkgrps_inode_release`, `blkgrps_data_release`.
use chisai_fs.Base.{
  ℕ, ◌-◌, ◌*◌, ◌/◌, ◌%◌, ◌≤◌, ◌<◌, ◌≡◌, refl, sym, ap, ◌∙◌, inl, inr, false, not, some, List, arith,
  ◌==◌, if◌then◌else◌, length, get_elem?, get_or, set, Bool-cases, get_or-set, get_or_of_get_elem?,
  length-set, get_elem?-eq-get_or, lt_of_get_elem?,
}
use chisai_fs.Base.Division.{div-lt, mod-lt, place_eq, place_test}
use chisai_fs.Bitvec.{Bitvec, bitvec_get, bitvec_reset}
use chisai_fs.Bitvec.Laws.{bit_at, bitvec_get-bit_at, bitvec_reset-IsUpdate, IsUpdate}
use chisai_fs.BlockGroup.{
  BlockGroup, Kind, bitmap, next, with_bitmap, divide, modulo, blkgrps_exist, blkgrps_release,
}
use chisai_fs.BlockGroup.Update.{IsValid-set, taken-set, taken-set-other}
use chisai_fs.BlockGroup.Valid.{IsTable, IsChange, IsValid, taken, other, blank, NextFree}

-- The group that holds the index `idx` of the source, counted from 1.
abbrev pub group_of : ℕ → List BlockGroup → ℕ → BlockGroup
group_of n blk_grps idx = get_or blk_grps ((idx - 1) / n) blank

divide_lem : (x n : ℕ) → 0 < n → divide x n ≡ some (x / n)
divide_lem x n h = ground arith

modulo_lem : (x n : ℕ) → 0 < n → modulo x n ≡ some (x % n)
modulo_lem x n h = ground arith

module _ (k : Kind) (blk_grps : List BlockGroup) (idx : ℕ) {i b : ℕ} {head g : BlockGroup}
    (pos : (idx == 0) ≡ false) (first : get_elem? blk_grps 0 ≡ some head)
    (grp : divide (idx - 1) head.blk_inode_num ≡ some i)
    (place : modulo (idx - 1) head.blk_inode_num ≡ some b)
    (found : get_elem? blk_grps i ≡ some g) where
  exist_of :
      {c : ℕ}
      → bitvec_get (bitmap k g) b ≡ some c
      → blkgrps_exist k blk_grps idx ≡ some (not (c == 0))
  unfolding blkgrps_exist
  exist_of stored = rw (pos, first, grp, place, found, stored)

  pub release_of :
      {v : Bitvec}
      → bitvec_reset (bitmap k g) b ≡ some v
      → blkgrps_release k blk_grps idx ≡ some (set blk_grps i (with_bitmap k v g))
  unfolding blkgrps_release
  release_of stored = rw (pos, first, grp, place, found, stored)

module _ (n : ℕ) (k : Kind) (blk_grps : List BlockGroup) (idx : ℕ) (v : IsValid n blk_grps)
    (low : 1 ≤ idx) (high : idx ≤ length blk_grps * n) where
  pub grp_found : get_elem? blk_grps ((idx - 1) / n) ≡ some (group_of n blk_grps idx)
  grp_found =
      get_elem?-eq-get_or blk_grps ((idx - 1) / n) blank
        (div-lt n (length blk_grps) (idx - 1) v.positive (omega arith))

  pub grp-IsTable : IsTable n k (group_of n blk_grps idx)
  grp-IsTable = v.tables ((idx - 1) / n) (group_of n blk_grps idx) grp_found k

  pub grp_divide : divide (idx - 1) v.head.blk_inode_num ≡ some ((idx - 1) / n)
  grp_divide = ap (divide (idx - 1)) v.numbered ∙ divide_lem (idx - 1) n v.positive

  pub grp_modulo : modulo (idx - 1) v.head.blk_inode_num ≡ some ((idx - 1) % n)
  grp_modulo = ap (modulo (idx - 1)) v.numbered ∙ modulo_lem (idx - 1) n v.positive

  pub in_bitmap : (idx - 1) % n < 8 * (bitmap k (group_of n blk_grps idx)).size
  in_bitmap = omega (arith, grp-IsTable.sized, mod-lt n (idx - 1) v.positive)

  -- On a well-formed array, `blkgrps_inode_exist` and `blkgrps_data_exist` say whether the index is
  -- taken, for every index in range.
  pub blkgrps_exist-taken :
      blkgrps_exist k blk_grps idx ≡ some (not (taken k n blk_grps (idx - 1) == 0))
  blkgrps_exist-taken =
      exist_of k blk_grps idx (ground arith) v.at_head grp_divide grp_modulo grp_found (
        bitvec_get-bit_at (bitmap k (group_of n blk_grps idx)) ((idx - 1) % n) grp-IsTable.valid
          in_bitmap)

-- What the release of index `idx` does to the array.
pub record IsReleased (n : ℕ) (k : Kind) (blk_grps : List BlockGroup) (idx : ℕ)
    (blk_grps' : List BlockGroup) : Type 0 where
  pub valid : IsValid n blk_grps'
  pub same_length : length blk_grps' ≡ length blk_grps
  pub cleared : (j : ℕ) → taken k n blk_grps' j ≡ (if idx - 1 == j then 0 else taken k n blk_grps j)
  pub other_kept : (j : ℕ) → taken (other k) n blk_grps' j ≡ taken (other k) n blk_grps j
  pub next_kept :
      (k' : Kind) (i : ℕ) → next k' (get_or blk_grps' i blank) ≡ next k' (get_or blk_grps i blank)

next-with_bitmap :
    (k k' : Kind) (u : Bitvec) (g : BlockGroup) → next k' (with_bitmap k u g) ≡ next k' g
next-with_bitmap Kind.inodes Kind.inodes u g = refl
next-with_bitmap Kind.inodes Kind.blocks u g = refl
next-with_bitmap Kind.blocks Kind.inodes u g = refl
next-with_bitmap Kind.blocks Kind.blocks u g = refl

-- Clearing a bit keeps `next` at a free bit, if it was at one.
NextFree-cleared :
    (n : ℕ) (f f' : ℕ → ℕ) (b r : ℕ)
    → 1 ≤ r
    → NextFree n f r
    → ((j : ℕ) → f' j ≡ (if b == j then 0 else f j))
    → NextFree n f' r
NextFree-cleared n f f' b r h (inl (e, _)) bits = absurd (omega arith)
NextFree-cleared n f f' b r h (inr (p, q, c)) bits = inr (p, q, ground (arith, bits (r - 1)))

cleared-IsChange :
    (n : ℕ) (k : Kind) (g : BlockGroup) (b : ℕ) (u : Bitvec)
    → IsTable n k g
    → 1 ≤ next k g
    → IsUpdate (bitmap k g) b 0 u
    → IsChange n k g (with_bitmap k u g) × (bitmap k (with_bitmap k u g) ≡ u)
cleared-IsChange n Kind.inodes g b u t h c = (
  record {
    same_groups = refl;
    same_inode_num = refl;
    table = record {
      valid = c.valid;
      sized = omega (arith, c.same_size, t.sized);
      next_free =
          NextFree-cleared n (bit_at g.inode_bitmap) (bit_at u) b g.next_inode h t.next_free c.bits;
    };
    other_bitmap = refl;
    other_next = refl;
  },
  refl,
)
cleared-IsChange n Kind.blocks g b u t h c = (
  record {
    same_groups = refl;
    same_inode_num = refl;
    table = record {
      valid = c.valid;
      sized = omega (arith, c.same_size, t.sized);
      next_free =
          NextFree-cleared n (bit_at g.data_bitmap) (bit_at u) b g.next_data h t.next_free c.bits;
    };
    other_bitmap = refl;
    other_next = refl;
  },
  refl,
)

module _ (n : ℕ) (k : Kind) (blk_grps : List BlockGroup) (idx : ℕ) (v : IsValid n blk_grps)
    (low : 1 ≤ idx) (high : idx ≤ length blk_grps * n) where
  -- On a well-formed array, `blkgrps_inode_release` and `blkgrps_data_release` of an index in range,
  -- whose group is not full by its `next`, free that index and nothing else, and keep the array
  -- well-formed.
  pub blkgrps_release-IsReleased :
      1 ≤ next k (group_of n blk_grps idx)
      → (blk_grps' : List BlockGroup) × (blkgrps_release k blk_grps idx ≡ some blk_grps')
        × IsReleased n k blk_grps idx blk_grps'
  blkgrps_release-IsReleased h =
      let g = group_of n blk_grps idx in
      let i = (idx - 1) / n in
      let b = (idx - 1) % n in
      let found = grp_found n k blk_grps idx v low high in
      let t = grp-IsTable n k blk_grps idx v low high in
      let (u, stored, update) =
        bitvec_reset-IsUpdate (bitmap k g) b t.valid (in_bitmap n k blk_grps idx v low high) in
      let (change, same) = cleared-IsChange n k g b u t h update in
      (
        set blk_grps i (with_bitmap k u g),
        release_of k blk_grps idx (ground arith) v.at_head (grp_divide n k blk_grps idx v low high)
            (grp_modulo n k blk_grps idx v low high) found stored,
        record {
          valid = IsValid-set n blk_grps i k g (with_bitmap k u g) v found change;
          same_length = length-set blk_grps i (with_bitmap k u g);
          cleared = λ j.
              taken-set n k blk_grps i j (with_bitmap k u g) (lt_of_get_elem? blk_grps i found)
              ∙ cleared_bits u (update.bits) same j;
          other_kept = λ j. taken-set-other n k blk_grps i j g (with_bitmap k u g) found change;
          next_kept = λ k' j.
              ap (next k') (
                get_or-set blank blk_grps i j (with_bitmap k u g)
                  (lt_of_get_elem? blk_grps i found))
              ∙ elim (Bool-cases (i == j)) [
                | inl here ↦
                    let e : i ≡ j = ground arith in
                    rw here (
                      next-with_bitmap k k' u g
                      ∙ ap (next k') (sym (get_or_of_get_elem? blk_grps i blank found))
                      ∙ ap (λ x. next k' (get_or blk_grps x blank)) e)
                | inr elsewhere ↦ rw elsewhere
              ];
        },
      )
    where
      cleared_bits :
          (u : Bitvec)
          → ((j : ℕ)
              → bit_at u j
                ≡ (if (idx - 1) % n == j then 0 else bit_at (bitmap k (group_of n blk_grps idx)) j))
          → bitmap k (with_bitmap k u (group_of n blk_grps idx)) ≡ u
          → (j : ℕ)
          → (if (idx - 1) / n == j / n
              then bit_at (bitmap k (with_bitmap k u (group_of n blk_grps idx))) (j % n)
              else taken k n blk_grps j)
            ≡ (if idx - 1 == j then 0 else taken k n blk_grps j)
      cleared_bits u bits same j =
          let test =
            place_test n ((idx - 1) / n) ((idx - 1) % n) j v.positive
              (mod-lt n (idx - 1) v.positive) in
          let whole = place_eq n (idx - 1) v.positive in
          let test' : (idx - 1 == j)
              ≡ (if (idx - 1) / n == j / n then (idx - 1) % n == j % n else false) =
            rw whole at test in
          rw (same, test')
            (elim (Bool-cases ((idx - 1) / n == j / n)) [
              | inl here ↦
                  let e : j / n ≡ (idx - 1) / n = ground arith in rw (here, e) (bits (j % n))
              | inr elsewhere ↦ rw elsewhere
            ])
