-- ===== src/BlockGroup/Load/Loaded.antt =====
-- The loop of `blkgrps_load`, and the array that it leaves.
use mathlib.Core.Path.{subst, subst₂}
use chisai_fs.Base.{
  ℕ, zero, suc, ◌+◌, ◌*◌, ◌^◌, ◌≤◌, ◌<◌, ◌≡◌, refl, ap, sym, ◌∙◌, inl, inr, some, List, arith,
  length, get_elem?, set, get_or, u32, u64, ◌==◌, Bool-cases, get_elem?-eq-get_or, get_elem?-set,
  get_elem?-set_self, length-set, lt_of_get_elem?,
}
use chisai_fs.Base.Outcome.{ok}
use chisai_fs.BlockGroup.{BlockGroup, Kind}
use chisai_fs.BlockGroup.Take.{IsFresh}
use chisai_fs.BlockGroup.Load.{load_group, load_loop, blkgrps_load}
use chisai_fs.BlockGroup.Load.Group.{IsLoaded, load_group-IsLoaded}
use chisai_fs.Base.Division.{mul-room}
use chisai_fs.BlockGroup.Valid.{IsValid, blank}
use chisai_fs.Config.{byte_bits, blkgrp_bytes, blkgrp_bytes_lem}
use chisai_fs.Device.{Device}
use chisai_fs.Device.Laws.{DeviceLaws, slice}

-- The head of the array, as `blkgrps_load` fills it in.
abbrev with_numbers : ℕ → ℕ → BlockGroup → BlockGroup
with_numbers blk_size groups head = record head {
  groups = groups;
  blk_inode_num = u32 (blk_size * byte_bits);
  blkgrp_size = blkgrp_bytes blk_size;
}

blkgrps_load_of :
    (d : Device) (blk_size groups : ℕ) (blk_grps : List BlockGroup) (s : d.State)
    {head : BlockGroup}
    → get_elem? blk_grps 0 ≡ some head
    → blkgrps_load d blk_size blk_grps groups s
      ≡ load_loop d blk_size
          (blkgrp_bytes blk_size)
          groups
          0
          (set blk_grps 0 (with_numbers blk_size groups head))
          s
unfolding blkgrps_load
blkgrps_load_of d blk_size groups blk_grps s first = rw first

module _ (d : Device) (blk_size total left i : ℕ) (blk_grps : List BlockGroup) (s : d.State) where
  load_loop_of :
      {g g' : BlockGroup} {s' : d.State}
      → get_elem? blk_grps i ≡ some g
      → load_group d blk_size (u64 (blk_size + u64 (total * i))) g s ≡ ok g' s'
      → load_loop d blk_size total (suc left) i blk_grps s
        ≡ load_loop d blk_size total left (i + 1) (set blk_grps i g') s'
  unfolding load_loop
  load_loop_of found loaded = rw (found, loaded)

module _ {d : Device} {size : ℕ} {byte : d.State → ℕ → ℕ} (laws : DeviceLaws d size byte)
    (n blk_size : ℕ) (e : n ≡ 8 * blk_size) (small : n < 2 ^ 32) (addressable : size < 2 ^ 64) where
  -- What the loop has done to element `j`, when it starts at element `i`.
  abbrev Result : ℕ → (ℕ → ℕ) → ℕ → List BlockGroup → List BlockGroup → Type 0
  Result total f i blk_grps blk_grps' =
      (length blk_grps' ≡ length blk_grps)
      × ((j : ℕ) (g : BlockGroup)
          → get_elem? blk_grps j ≡ some g
          → ((j < i → get_elem? blk_grps' j ≡ some g)
              × (i ≤ j
                  → (g' : BlockGroup) × (get_elem? blk_grps' j ≡ some g')
                    × IsLoaded n blk_size f (blk_size + total * j) g g')))

  Result-step :
      (total i : ℕ) (f : ℕ → ℕ) (blk_grps blk_grps' : List BlockGroup) (g g' : BlockGroup)
      → get_elem? blk_grps i ≡ some g
      → IsLoaded n blk_size f (blk_size + total * i) g g'
      → Result total f (i + 1) (set blk_grps i g') blk_grps'
      → Result total f i blk_grps blk_grps'
  Result-step total i f blk_grps blk_grps' g g' found loaded (len, rest) =
      let inside = lt_of_get_elem? blk_grps i found in
      (
        len ∙ length-set blk_grps i g',
        λ j h at. elim (Bool-cases (i == j)) [
          | inl here ↦
              let same : j ≡ i = ground arith in
              let both : h ≡ g = ground (arith, at, found) in
              (
                λ lt. absurd (omega arith),
                λ le. (
                  g',
                  (rest j g' (ground (arith, get_elem?-set blk_grps i j g' inside))).0
                      (omega arith),
                  subst₂ (λ m x. IsLoaded n blk_size f (blk_size + total * m) x g') (sym same)
                      (sym both) loaded,
                ),
              )
          | inr elsewhere ↦
              let next_rest = rest j h (ground (arith, get_elem?-set blk_grps i j g' inside)) in
              (λ lt. next_rest.0 (omega arith), λ le. next_rest.1 (ground arith))
        ],
      )

  load_loop-Result :
      (total left i : ℕ) (blk_grps : List BlockGroup) (s : d.State) (f : ℕ → ℕ)
      → byte s ≡ f
      → i + left ≡ length blk_grps
      → 2 * blk_size ≤ total
      → blk_size + total * length blk_grps ≤ size
      → (s' : d.State) × (blk_grps' : List BlockGroup) × (load_loop d blk_size total left i blk_grps
            s
          ≡ ok blk_grps' s')
        × (byte s' ≡ f)
        × Result total f i blk_grps blk_grps'
  load_loop-Result total zero i blk_grps s f holds count wide fits = (
    s,
    blk_grps,
    unfold load_loop in refl,
    holds,
    (refl, λ j g at. (λ lt. at, λ le. absurd (omega (arith, lt_of_get_elem? blk_grps j at)))),
  )
  load_loop-Result total (suc left) i blk_grps s f holds count wide fits =
      let g = get_or blk_grps i blank in
      let found = get_elem?-eq-get_or blk_grps i blank (omega arith) in
      let room : blk_size + total * i + total ≤ size =
        omega (arith, mul-room total i (length blk_grps) (omega arith)) in
      let whole : u64 (blk_size + u64 (total * i)) ≡ blk_size + total * i = omega arith in
      let (s1, g', loaded, holds1, is) =
        load_group-IsLoaded laws n blk_size e small addressable (blk_size + total * i) g s f holds
          (omega arith) in
      let (s2, blk_grps', returns, holds2, result) =
        load_loop-Result total left (i + 1) (set blk_grps i g') s1 f holds1
          (omega (arith, length-set blk_grps i g')) wide (rw length-set fits) in
      (
        s2,
        blk_grps',
        load_loop_of d blk_size total left i blk_grps s found
              (ap (λ at. load_group d blk_size at g s) whole ∙ loaded)
            ∙ returns,
        holds2,
        Result-step total i f blk_grps blk_grps' g g' found is result,
      )

  -- A group of the array that the loop leaves is a loaded one.
  IsLoaded-at :
      (total : ℕ) (f : ℕ → ℕ) (blk_grps blk_grps' : List BlockGroup) (j : ℕ) (g : BlockGroup)
      → Result total f 0 blk_grps blk_grps'
      → get_elem? blk_grps' j ≡ some g
      → IsLoaded n blk_size f (blk_size + total * j) (get_or blk_grps j blank) g
  IsLoaded-at total f blk_grps blk_grps' j g (len, each) at =
      let inside = lt_of_get_elem? blk_grps' j at in
      let here = get_elem?-eq-get_or blk_grps j blank (omega arith) in
      let (g', at', loaded) = (each j (get_or blk_grps j blank) here).1 (omega arith) in
      let same : g' ≡ g = ground (arith, at, at') in
      subst (λ x. IsLoaded n blk_size f (blk_size + total * j) (get_or blk_grps j blank) x) same
        loaded

  loaded-IsValid :
      (total : ℕ) (f : ℕ → ℕ) (blk_grps blk_grps' : List BlockGroup) (head : BlockGroup)
      → 0 < blk_size
      → length blk_grps * n < 2 ^ 32
      → get_elem? blk_grps 0 ≡ some head
      → head.groups ≡ length blk_grps
      → head.blk_inode_num ≡ n
      → Result total f 0 blk_grps blk_grps'
      → IsValid n blk_grps'
  loaded-IsValid total f blk_grps blk_grps' head positive fits first count num (len, each) =
      let (head', at, loaded) = (each 0 head first).1 (omega arith) in
      record {
        head = head';
        at_head = at;
        counted = loaded.same_groups ∙ count ∙ sym len;
        numbered = loaded.same_inode_num ∙ num;
        positive = omega arith;
        fits = rw len fits;
        tables = λ j g there. (IsLoaded-at total f blk_grps blk_grps' j g (len, each) there).tables;
      }

  -- On a device that holds all groups, with sizes for which nothing wraps, `blkgrps_load` returns: its array is well-formed
  -- and as long as it was, every
  -- `next` is the lowest free index of its group, and the bitmaps of group `j` are the bytes of the
  -- device at `blk_size + blkgrp_size * j`, the data bitmap before the inode bitmap. The device
  -- keeps its bytes.
  pub blkgrps_load-IsValid :
      (blk_grps : List BlockGroup) (s : d.State)
      → 0 < length blk_grps
      → length blk_grps * n < 2 ^ 32
      → 2 * blk_size + blk_size * 8 * (128 + blk_size) < 2 ^ 32
      → 0 < blk_size
      → blk_size + blkgrp_bytes blk_size * length blk_grps ≤ size
      → (s' : d.State) × (blk_grps' : List BlockGroup) × (blkgrps_load d blk_size blk_grps
            (length blk_grps)
            s
          ≡ ok blk_grps' s')
        × (byte s' ≡ byte s)
        × IsValid n blk_grps'
        × (length blk_grps' ≡ length blk_grps)
        × ((j : ℕ) (g : BlockGroup)
            → get_elem? blk_grps' j ≡ some g
            → ((k : Kind) → IsFresh n k g)
              × (g.data_bitmap.inner
                  ≡ slice (byte s) (blk_size + blkgrp_bytes blk_size * j) blk_size)
              × (g.inode_bitmap.inner
                  ≡ slice (byte s) (blk_size + blkgrp_bytes blk_size * j + blk_size) blk_size))
  blkgrps_load-IsValid blk_grps s count fits narrow positive room =
      let old = get_or blk_grps 0 blank in
      let first = get_elem?-eq-get_or blk_grps 0 blank count in
      let head = with_numbers blk_size (length blk_grps) old in
      let start = set blk_grps 0 head in
      let len = length-set blk_grps 0 head in
      let wide : 2 * blk_size ≤ blkgrp_bytes blk_size =
        omega (arith, blkgrp_bytes_lem blk_size narrow) in
      let (s', blk_grps', returns, same, result) =
        load_loop-Result (blkgrp_bytes blk_size) (length blk_grps) 0 start s (byte s) refl
          (omega (arith, len)) wide (rw length-set room) in
      (
        s',
        blk_grps',
        blkgrps_load_of d blk_size (length blk_grps) blk_grps s first ∙ returns,
        same,
        loaded-IsValid (blkgrp_bytes blk_size) (byte s) start blk_grps' head positive
            (rw length-set fits) (get_elem?-set_self blk_grps 0 head count) (sym len) (omega arith)
            result,
        result.0 ∙ len,
        λ j g at.
            let loaded =
              IsLoaded-at (blkgrp_bytes blk_size) (byte s) start blk_grps' j g result at in
            (loaded.fresh, loaded.data_bits, loaded.inode_bits),
      )
