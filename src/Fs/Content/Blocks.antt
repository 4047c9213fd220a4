-- ===== src/Fs/Content/Blocks.antt =====
-- The steps of a write: a new data block, and a part of a block.
use mathlib.Core.Path.{subst, sym}
use chisai_fs.Base.{
  ℕ, ◌+◌, ◌/◌, ◌%◌, ◌≤◌, ◌<◌, ◌≡◌, ◌≢◌, inl, inr, refl, ap, ◌∙◌, List, arith, ◌==◌, ltb, Bool-cases,
  set, length-set, get_or-set, All-set,
}
use chisai_fs.BlockGroup.{BlockGroup, Kind}
use chisai_fs.BlockGroup.Alloc.{IsAllocated}
use chisai_fs.Fs.{data_offset}
use chisai_fs.Fs.Content.{nth_block, IsFile, Wrote}
use chisai_fs.Fs.Layout.{IsIndex}
use chisai_fs.Fs.Tree.{Image, IsMounted, marked}
use chisai_fs.Fs.Tree.Allocs.{
  allocated-IsIndex, allocated-IsMounted, allocated-Keeps, still_marked, now_marked,
}
use chisai_fs.Fs.Tree.Writes.{Keeps, with_groups}
use chisai_fs.Inode.{Inode}
use chisai_fs.Inode.Laws.{IsWord}

-- One write after another.
pub Wrote-trans :
    {size : ℕ} {buf : List ℕ} {off lo mid hi : ℕ} {m m' m'' : Image} {inode inode' inode'' : Inode}
    → lo ≤ mid
    → mid ≤ hi
    → Wrote size buf off lo mid m inode m' inode'
    → Wrote size buf off mid hi m' inode' m'' inode''
    → Wrote size buf off lo hi m inode m'' inode''
Wrote-trans {off = off} {mid = mid} p q w w' = record {
  mounted = w'.mounted;
  same_sb = w'.same_sb ∙ w.same_sb;
  file = w'.file;
  same_size = w'.same_size ∙ w.same_size;
  written = λ i low high. elim (Bool-cases (ltb i mid)) [
    | inl first ↦ w'.kept (off + i) _ (inl (ground arith)) (w.written i low (ground arith))
    | inr second ↦ w'.written i (ground arith) high
  ];
  kept = λ pos v outside h. elim outside [
    | inl before ↦ w'.kept pos v (inl (omega arith)) (w.kept pos v (inl before) h)
    | inr behind ↦ w'.kept pos v (inr behind) (w.kept pos v (inr (omega arith)) h)
  ];
  inodes = λ idx other h. w'.inodes idx other (w.inodes idx other h);
  dirs = λ block dir h foreign.
      let (h', foreign') = w.dirs block dir h foreign in w'.dirs block dir h' foreign';
}

-- An inode with a new data block as its `n`-th.
abbrev pub with_block : Inode → ℕ → ℕ → Inode
with_block inode n b = record inode { direct_blks = set inode.direct_blks n b }

module _ (size : ℕ) (m : Image) (v : IsMounted size m) (inode : Inode) (f : IsFile m inode) where
  pub Wrote-refl : (buf : List ℕ) (off lo : ℕ) → Wrote size buf off lo lo m inode m inode
  Wrote-refl buf off lo = record {
    mounted = v;
    same_sb = refl;
    file = f;
    same_size = refl;
    written = λ i low high. absurd (omega arith);
    kept = λ pos x outside h. h;
    inodes = λ idx other h. h;
    dirs = λ block dir h foreign. (h, foreign);
  }

  module _ (n b : ℕ) (grps : List BlockGroup) (lt : n < 12) (none_there : nth_block inode n ≡ 0)
      (a : IsAllocated m.sb.data_block_per_groups Kind.blocks m.blk_grps b grps) where
    pub at_new : nth_block (with_block inode n b) n ≡ b
    at_new = ground (arith, get_or-set 0 inode.direct_blks n n b (omega (arith, f.valid.twelve)))

    at_new_as : (i : ℕ) → n ≡ i → nth_block (with_block inode n b) i ≡ b
    at_new_as i e = subst (λ j. nth_block (with_block inode n b) j ≡ b) e at_new

    at_old : (i : ℕ) → n ≢ i → nth_block (with_block inode n b) i ≡ nth_block inode i
    at_old i ne =
        ground (arith, ne, get_or-set 0 inode.direct_blks n i b (omega (arith, f.valid.twelve)))

    -- The new block was not one of the file.
    was_foreign : (i : ℕ) → i < 12 → 1 ≤ nth_block inode i → nth_block inode i ≢ b
    was_foreign i below there same =
        let used = (f.blocks i below there).1 in
        absurd (omega (arith, ap (marked m Kind.blocks) same, used, a.was_free))

    index : IsIndex m.sb b
    index = allocated-IsIndex size m v Kind.blocks b grps a

    with_block-IsFile : IsFile (with_groups m grps) (with_block inode n b)
    with_block-IsFile = record {
      valid = record {
        mode = f.valid.mode;
        nlink = f.valid.nlink;
        blkcnt = f.valid.blkcnt;
        size = f.valid.size;
        twelve = length-set inode.direct_blks n b ∙ f.valid.twelve;
        direct_blks =
            All-set IsWord inode.direct_blks n b f.valid.direct_blks
              (omega (arith, index.1, v.laid_out.indices_fit));
        indirect_blk = f.valid.indirect_blk;
        double_indirect_blk = f.valid.double_indirect_blk;
      };
      blocks = λ i below there. elim (Bool-cases (n == i)) [
        | inl e ↦
            let same = at_new_as i (ground arith) in
            subst (λ x. IsIndex m.sb x × (marked (with_groups m grps) Kind.blocks x ≡ 1)) (sym same)
              (index, now_marked size m v Kind.blocks b grps a)
        | inr e ↦
            let same = at_old i (λ q. absurd (ground arith)) in
            let (i', used) = f.blocks i below (subst (λ x. 1 ≤ x) same there) in
            subst (λ x. IsIndex m.sb x × (marked (with_groups m grps) Kind.blocks x ≡ 1)) (sym same)
              (i', still_marked size m v Kind.blocks Kind.blocks b grps a _ used)
      ];
      apart = λ i j low high ne there same. elim (Bool-cases (n == i)) [
        | inl e ↦
            let new = at_new_as i (ground arith) in
            let old = at_old j (λ q. ne (sym (ground arith) ∙ q)) in
            was_foreign j high (omega (arith, same, new, old, index.0)) (sym old ∙ sym same ∙ new)
        | inr e ↦ elim (Bool-cases (n == j)) [
          | inl e' ↦
              let new = at_new_as j (ground arith) in
              let old = at_old i (λ q. absurd (ground arith)) in
              was_foreign i low (omega (arith, there, old)) (sym old ∙ same ∙ new)
          | inr e' ↦
              let old = at_old i (λ q. absurd (ground arith)) in
              let old' = at_old j (λ q. absurd (ground arith)) in
              f.apart i j low high ne (omega (arith, there, old)) (sym old ∙ same ∙ old')
        ]
      ];
    }

    -- A new data block where the file had none.
    pub with_block-Wrote :
        (buf : List ℕ) (off lo : ℕ)
        → Wrote size buf off lo lo m inode (with_groups m grps) (with_block inode n b)
    with_block-Wrote buf off lo = record {
      mounted = allocated-IsMounted size m v Kind.blocks b grps a;
      same_sb = refl;
      file = with_block-IsFile;
      same_size = refl;
      written = λ i low high. absurd (omega arith);
      kept = λ pos x outside h.
          let same =
            at_old (pos / m.sb.block_size)
              (λ e. absurd (omega (arith, h.there, none_there, ap (nth_block inode) e))) in
          record {
            direct = h.direct;
            there = omega (arith, h.there, same);
            stored =
                ap (λ (k : ℕ). m.bytes (data_offset m.sb m.total k + pos % m.sb.block_size)) same
                ∙ h.stored;
          };
      inodes = λ idx other h. kept_all.inodes idx other h;
      dirs = λ block dir h foreign. (
        kept_all.dirs block dir h,
        λ i below e. elim (Bool-cases (n == i)) [
          | inl q ↦
              let new = at_new_as i (ground arith) in
              absurd (omega (arith, h.used, a.was_free, ap (marked m Kind.blocks) (sym new ∙ e)))
          | inr q ↦ foreign i below (sym (at_old i (λ z. absurd (ground arith))) ∙ e)
        ],
      );
    }
      where
        kept_all : Keeps m (with_groups m grps)
        kept_all = allocated-Keeps size m v Kind.blocks b grps a
