-- ===== src/Fs/Content/Cut.antt =====
-- What the release of the last blocks of a file makes of it.
use mathlib.Core.Path.{subst, sym}
use chisai_fs.Base.{
  ℕ, ◌+◌, ◌-◌, ◌≤◌, ◌<◌, ◌≡◌, ◌≢◌, ◌⊎◌, inl, inr, refl, ap, ◌∙◌, List, arith, ◌==◌, if◌then◌else◌,
  Bool-cases, length-set, get_or-set, All-set,
}
use chisai_fs.BlockGroup.{BlockGroup, Kind}
use chisai_fs.BlockGroup.Release.{IsReleased}
use chisai_fs.Fs.Content.{nth_block, IsFile, IsForeign}
use chisai_fs.Fs.Content.Blocks.{with_block}
use chisai_fs.Fs.Layout.{IsIndex}
use chisai_fs.Fs.Tree.{Image, IsMounted, marked}
use chisai_fs.Fs.Tree.Removed.{released_kept, released_free}
use chisai_fs.Fs.Tree.Writes.{with_groups}
use chisai_fs.Inode.{Inode}
use chisai_fs.Inode.Laws.{IsWord}

-- The blocks `lo` to `hi` of the file are free, and all else is as it was.
pub record IsCut (size lo hi : ℕ) (m : Image) (inode : Inode) (grps' : List BlockGroup)
    (inode' : Inode) : Type 0 where
  pub mounted : IsMounted size (with_groups m grps')
  pub file : IsFile (with_groups m grps') inode'
  pub kept : (n : ℕ) → (n < lo) ⊎ (hi ≤ n) → nth_block inode' n ≡ nth_block inode n
  pub gone : (n : ℕ) → lo ≤ n → n < hi → nth_block inode' n ≡ 0
  pub freed :
      (n : ℕ) → lo ≤ n → n < hi → marked (with_groups m grps') Kind.blocks (nth_block inode n) ≡ 0
  pub others :
      (j : ℕ)
      → 1 ≤ j
      → IsForeign inode j
      → marked (with_groups m grps') Kind.blocks j ≡ marked m Kind.blocks j
  pub inodes : (j : ℕ) → marked (with_groups m grps') Kind.inodes j ≡ marked m Kind.inodes j

pub IsCut-refl :
    (size at : ℕ) (m : Image) (inode : Inode)
    → IsMounted size m
    → IsFile m inode
    → IsCut size at at m inode m.blk_grps inode
IsCut-refl size at m inode v f = record {
  mounted = v;
  file = f;
  kept = λ n outside. refl;
  gone = λ n low high. absurd (omega arith);
  freed = λ n low high. absurd (omega arith);
  others = λ j some_block foreign. refl;
  inodes = λ j. refl;
}

module _ (size : ℕ) (m : Image) (v : IsMounted size m) (inode : Inode) (f : IsFile m inode) (n : ℕ)
    (grps : List BlockGroup) (below : n < 12) (there : 1 ≤ nth_block inode n)
    (r : IsReleased m.sb.data_block_per_groups Kind.blocks m.blk_grps
      (nth_block inode n)
      grps) where
  abbrev without : Inode
  without = with_block inode n 0

  abbrev b : ℕ
  b = nth_block inode n

  at_set : (i : ℕ) → nth_block without i ≡ (if n == i then 0 else nth_block inode i)
  at_set i = get_or-set 0 inode.direct_blks n i 0 (omega (arith, f.valid.twelve))

  pub at_gone : nth_block without n ≡ 0
  at_gone = ground (arith, at_set n)

  pub at_kept : (i : ℕ) → n ≢ i → nth_block without i ≡ nth_block inode i
  at_kept i ne = elim (Bool-cases (n == i)) [
    | inl e ↦ absurd (ne (ground arith))
    | inr e ↦ at_set i ∙ rw e refl
  ]

  -- A block that is left is one that was there, at another place.
  left_at : (i : ℕ) → 1 ≤ nth_block without i → (n ≢ i) × (nth_block without i ≡ nth_block inode i)
  left_at i has =
      let ne : n ≢ i = λ e. absurd (omega (arith, at_gone, has, ap (nth_block without) e)) in
      (ne, at_kept i ne)

  still_used :
      (j : ℕ) → 1 ≤ j → j ≢ b → marked (with_groups m grps) Kind.blocks j ≡ marked m Kind.blocks j
  still_used j some_block ne = released_kept size m v Kind.blocks b grps r j there some_block ne

  pub without-IsFile : IsFile (with_groups m grps) without
  without-IsFile = record {
    valid = record {
      mode = f.valid.mode;
      nlink = f.valid.nlink;
      blkcnt = f.valid.blkcnt;
      size = f.valid.size;
      twelve = length-set inode.direct_blks n 0 ∙ f.valid.twelve;
      direct_blks = All-set IsWord inode.direct_blks n 0 f.valid.direct_blks (omega arith);
      indirect_blk = f.valid.indirect_blk;
      double_indirect_blk = f.valid.double_indirect_blk;
    };
    blocks = λ i low has.
        let (ne, same) = left_at i has in
        let (index, used) = f.blocks i low (subst (λ x. 1 ≤ x) same has) in
        subst (λ x. IsIndex m.sb x × (marked (with_groups m grps) Kind.blocks x ≡ 1)) (sym same)
          (
            index,
            still_used (nth_block inode i) index.0 (λ e. f.apart n i below low ne there (sym e))
                ∙ used,
          );
    apart = λ i j low high ne has same.
        let (ne', at) = left_at i has in
        let (ne'', at') = left_at j (subst (λ x. 1 ≤ x) same has) in
        f.apart i j low high ne (subst (λ x. 1 ≤ x) at has) (sym at ∙ same ∙ at');
  }

  -- The blocks before it go as well.
  pub without-IsCut :
      (lo : ℕ) (grps' : List BlockGroup) (inode' : Inode)
      → lo ≤ n
      → IsCut size lo n (with_groups m grps) without grps' inode'
      → IsCut size lo (n + 1) m inode grps' inode'
  without-IsCut lo grps' inode' le c = record {
    mounted = c.mounted;
    file = c.file;
    kept = λ i outside. elim outside [
      | inl low ↦ c.kept i (inl low) ∙ at_kept i (λ e. omega (arith, e))
      | inr high ↦ c.kept i (inr (omega arith)) ∙ at_kept i (λ e. omega (arith, e))
    ];
    gone = λ i low high. elim (Bool-cases (n == i)) [
      | inl e ↦
          let here : i ≡ n = ground arith in
          ap (nth_block inode') here ∙ c.kept n (inr (omega arith)) ∙ at_gone
      | inr e ↦ c.gone i low (ground arith)
    ];
    freed = λ i low high. elim (Bool-cases (n == i)) [
      | inl e ↦
          let here : i ≡ n = ground arith in
          ap (λ (x : ℕ). marked (with_groups m grps') Kind.blocks (nth_block inode x)) here
          ∙ c.others b there foreign_now
          ∙ released_free size m v Kind.blocks b grps r
      | inr e ↦
          ap (marked (with_groups m grps') Kind.blocks)
            (sym (at_kept i (λ q. absurd (ground arith))))
          ∙ c.freed i low (ground arith)
    ];
    others = λ j some_block foreign.
        c.others j some_block (λ i low e. still_foreign j some_block foreign i low e)
        ∙ still_used j some_block (λ e. foreign n below (sym e));
    inodes = λ j. c.inodes j ∙ r.other_kept (j - 1);
  }
    where
      foreign_now : IsForeign without b
      foreign_now i low e =
          let (ne, at) = left_at i (omega (arith, e, there)) in
          f.apart n i below low ne there (sym e ∙ at)

      still_foreign : (j : ℕ) → 1 ≤ j → IsForeign inode j → IsForeign without j
      still_foreign j some_block foreign i low e =
          let (ne, at) = left_at i (omega (arith, e, some_block)) in foreign i low (sym at ∙ e)
