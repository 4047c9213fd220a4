-- ===== src/Fs/Tree/Root.antt =====
-- `fs_create_root` on a device whose first inodes and first data block are free.
use mathlib.Core.Path.{subst, sym}
use chisai_fs.Base.{
  ℕ, ◌≤◌, ◌≡◌, refl, ap, ◌∙◌, some, List, [], arith, get_elem?, set, get_elem?-set_self,
  lt_of_get_elem?, All-replicate,
}
use chisai_fs.Base.Outcome.{ok}
use chisai_fs.Bitvec.Laws.{bit_at}
use chisai_fs.BlockGroup.{BlockGroup, Kind, blkgrps_alloc}
use chisai_fs.BlockGroup.Valid
use chisai_fs.BlockGroup.Alloc.{IsAllocated}
use chisai_fs.BlockGroup.Alloc.First.{FirstClear-one, FirstClear-two, blkgrps_alloc-first_at}
use chisai_fs.BlockGroup.Take.{IsFresh}
use chisai_fs.Device.{Device}
use chisai_fs.Device.Laws.{DeviceLaws}
use chisai_fs.Dir.{dir_init}
use chisai_fs.Fs.{Filesystem, fs_inode_alloc, fs_data_alloc, fs_save_dir, fs_save_inode}
use chisai_fs.Fs.Init.{root_inode_of, fs_create_root}
use chisai_fs.Fs.Path.{tokens}
use chisai_fs.Fs.Tree.{Image, image, IsMounted, HasDir, Resolves, here}
use chisai_fs.Fs.Tree.Insert.{alloc_on, save_dir_on, save_inode_on}
use chisai_fs.Fs.Tree.MadeDir.{dir_init-IsValid}
use chisai_fs.Fs.Tree.Saves.{with_bytes-IsMounted}
use chisai_fs.Fs.Tree.Allocs.{allocated-IsIndex, allocated-IsMounted, allocated-Keeps, now_marked}
use chisai_fs.Fs.Tree.DirWrites.{with_dir-HasDir}
use chisai_fs.Fs.Tree.Writes.{
  with_groups, with_inode, with_dir, with_inode-Keeps, with_inode-HasInode,
}
use chisai_fs.Inode.{inode_init, inode_set_mode, inode_set_nlink, inode_add_block}
use chisai_fs.Inode.Laws
use chisai_fs.Inode.Laws.{IsWord}

root_inode_of-IsValid : Laws.IsValid (root_inode_of 1)
unfolding root_inode_of inode_init inode_set_mode inode_set_nlink inode_add_block
root_inode_of-IsValid = record {
  mode = omega arith;
  nlink = omega arith;
  blkcnt = omega arith;
  size = omega arith;
  twelve = refl;
  direct_blks = (omega arith, All-replicate IsWord 11 0 (omega arith));
  indirect_blk = omega arith;
  double_indirect_blk = omega arith;
}

create_root_of :
    (d : Device) (fs : Filesystem d) {fs1 fs2 fs3 fs4 fs5 : Filesystem d}
    → fs_data_alloc d fs ≡ ok 1 fs1
    → fs_save_dir d dir_init 1 fs1 ≡ ok tt fs2
    → fs_inode_alloc d fs2 ≡ ok 1 fs3
    → fs_inode_alloc d fs3 ≡ ok 2 fs4
    → fs_save_inode d (root_inode_of 1) 2 fs4 ≡ ok tt fs5
    → fs_create_root d fs ≡ ok tt fs5
unfolding fs_create_root
create_root_of d fs block_alloc dir_saved first second saved =
    rw (block_alloc, dir_saved, first, second, saved)

-- What a device holds that has an empty root directory.
pub record IsRooted (size : ℕ) (m : Image) : Type 0 where
  pub mounted : IsMounted size m
  pub resolves : Resolves m [] 2 (root_inode_of 1)
  pub has_dir : HasDir m 1 dir_init

-- The first group, with its first data block and its first two inodes free.
pub record IsUnused (n : ℕ) (g : BlockGroup) : Type 0 where
  pub fresh : (k : Kind) → IsFresh n k g
  pub block : bit_at g.data_bitmap 0 ≡ 0
  pub inode : bit_at g.inode_bitmap 0 ≡ 0
  pub next_inode : bit_at g.inode_bitmap 1 ≡ 0
  pub wide : 2 ≤ n

-- The allocation of the first data block and of the first two inodes.
first_indices :
    (n : ℕ) (grps : List BlockGroup) (g : BlockGroup)
    → Valid.IsValid n grps
    → get_elem? grps 0 ≡ some g
    → IsUnused n g
    → (grps1 grps2 grps3 : List BlockGroup) × (blkgrps_alloc Kind.blocks grps ≡ some (1, grps1))
      × IsAllocated n Kind.blocks grps 1 grps1
      × (blkgrps_alloc Kind.inodes grps1 ≡ some (1, grps2))
      × IsAllocated n Kind.inodes grps1 1 grps2
      × (blkgrps_alloc Kind.inodes grps2 ≡ some (2, grps3))
      × IsAllocated n Kind.inodes grps2 2 grps3
first_indices n grps g v first u =
    let inside = lt_of_get_elem? grps 0 first in
    let block = FirstClear-one n _ _ (u.fresh Kind.blocks) (omega (arith, u.wide)) u.block in
    let (g1, returns1, t1, a1) =
      blkgrps_alloc-first_at n Kind.blocks grps v g first (omega (arith, block))
        (u.fresh Kind.blocks) 1 block in
    let grps1 = set grps 0 g1 in
    let first1 = get_elem?-set_self grps 0 g1 inside in
    let fresh1 : IsFresh n Kind.inodes g1 =
      rw (t1.change.other_bitmap, t1.change.other_next) (u.fresh Kind.inodes) in
    let zero1 = ap (λ w. bit_at w 0) t1.change.other_bitmap ∙ u.inode in
    let one = FirstClear-one n _ _ fresh1 (omega (arith, u.wide)) zero1 in
    let (g2, returns2, t2, a2) =
      blkgrps_alloc-first_at n Kind.inodes grps1 a1.valid g1 first1 (omega (arith, one)) fresh1 1
        one in
    let grps2 = set grps1 0 g2 in
    let first2 = get_elem?-set_self grps1 0 g2 (lt_of_get_elem? grps1 0 first1) in
    let two =
      FirstClear-two n _ _ t2.fresh u.wide (t2.bits 0)
        (t2.bits 1 ∙ ap (λ w. bit_at w 1) t1.change.other_bitmap ∙ u.next_inode) in
    let (g3, returns3, t3, a3) =
      blkgrps_alloc-first_at n Kind.inodes grps2 a2.valid g2 first2 (omega (arith, two)) t2.fresh 2
        two in
    (grps1, grps2, set grps2 0 g3, returns1, a1, returns2, a2, returns3, a3)

-- The three allocations.
module _ (size : ℕ) (m : Image) (v : IsMounted size m) (grps1 grps2 grps3 : List BlockGroup)
    (b : IsAllocated m.sb.data_block_per_groups Kind.blocks m.blk_grps 1 grps1)
    (a : IsAllocated m.sb.data_block_per_groups Kind.inodes grps1 1 grps2)
    (c : IsAllocated m.sb.data_block_per_groups Kind.inodes grps2 2 grps3) where
  abbrev rooted : Image
  rooted = with_inode (with_dir (with_groups m grps3) 1 dir_init) 2 (root_inode_of 1)

  v1 : IsMounted size (with_groups m grps1)
  v1 = allocated-IsMounted size m v Kind.blocks 1 grps1 b

  v2 : IsMounted size (with_groups m grps2)
  v2 = allocated-IsMounted size (with_groups m grps1) v1 Kind.inodes 1 grps2 a

  v3 : IsMounted size (with_groups m grps3)
  v3 = allocated-IsMounted size (with_groups m grps2) v2 Kind.inodes 2 grps3 c

  rooted-IsRooted : IsRooted size rooted
  unfolding tokens
  rooted-IsRooted =
      let valid = root_inode_of-IsValid in
      let m1 = with_dir (with_groups m grps1) 1 dir_init in
      let m2 = with_groups m1 grps2 in
      let m3 = with_inode m2 2 (root_inode_of 1) in
      let m4 = with_dir (with_groups m grps3) 1 dir_init in
      let w1 = with_bytes-IsMounted size (with_groups m grps1) m1.bytes v1 in
      let w2 = with_bytes-IsMounted size (with_groups m grps2) m2.bytes v2 in
      let w3 = with_bytes-IsMounted size (with_groups m grps2) m3.bytes v2 in
      let w4 = with_bytes-IsMounted size (with_groups m grps3) m4.bytes v3 in
      let index = allocated-IsIndex size (with_groups m grps2) v2 Kind.inodes 2 grps3 c in
      let dir1 =
        with_dir-HasDir size (with_groups m grps1) v1 1 dir_init
          (allocated-IsIndex size m v Kind.blocks 1 grps1 b)
          (now_marked size m v Kind.blocks 1 grps1 b) dir_init-IsValid in
      let dir2 = (allocated-Keeps size m1 w1 Kind.inodes 1 grps2 a).dirs 1 dir_init dir1 in
      let dir3 =
        (with_inode-Keeps size m2 w2 2 (root_inode_of 1) index c.was_free valid).dirs 1 dir_init
          dir2 in
      let root =
        with_inode-HasInode size m4 w4 2 (root_inode_of 1) index
          (now_marked size (with_groups m grps2) v2 Kind.inodes 2 grps3 c) valid in
      record {
        mounted = with_bytes-IsMounted size (with_groups m grps3) rooted.bytes v3;
        resolves = record { root = root_inode_of 1; has_root = root; leads = here };
        has_dir = (allocated-Keeps size m3 w3 Kind.inodes 2 grps3 c).dirs 1 dir_init dir3;
      }

module _ {d : Device} {size : ℕ} {byte : d.State → ℕ → ℕ} (laws : DeviceLaws d size byte)
    (fs : Filesystem d) {m : Image} (e : image byte fs ≡ m) (v : IsMounted size m) where
  pub fs_create_root-IsRooted :
      (g : BlockGroup)
      → get_elem? m.blk_grps 0 ≡ some g
      → IsUnused m.sb.data_block_per_groups g
      → (fs' : Filesystem d) × (fs_create_root d fs ≡ ok tt fs') × IsRooted size (image byte fs')
  fs_create_root-IsRooted g first u =
      let (grps1, grps2, grps3, returns1, b, returns2, a, returns3, c) =
        first_indices m.sb.data_block_per_groups m.blk_grps g v.groups first u in
      let m1 = with_groups m grps1 in
      let v1 = allocated-IsMounted size m v Kind.blocks 1 grps1 b in
      let (fs1, block_alloc, e1) = alloc_on laws fs e v Kind.blocks returns1 refl in
      let m2 = with_dir m1 1 dir_init in
      let (fs2, dir_saved, e2) =
        save_dir_on laws fs1 e1 v1 1 dir_init (allocated-IsIndex size m v Kind.blocks 1 grps1 b)
          dir_init-IsValid.storable in
      let v2 = with_bytes-IsMounted size m1 m2.bytes v1 in
      let (fs3, alloc1, e3) = alloc_on laws fs2 e2 v2 Kind.inodes returns2 refl in
      let v3 = allocated-IsMounted size m2 v2 Kind.inodes 1 grps2 a in
      let (fs4, alloc2, e4) = alloc_on laws fs3 e3 v3 Kind.inodes returns3 refl in
      let m3 = with_groups m2 grps2 in
      let v4 = allocated-IsMounted size m3 v3 Kind.inodes 2 grps3 c in
      let (fs5, saved, e5) =
        save_inode_on laws fs4 e4 v4 2 (root_inode_of 1)
          (allocated-IsIndex size m3 v3 Kind.inodes 2 grps3 c) root_inode_of-IsValid in
      (
        fs5,
        create_root_of d fs block_alloc dir_saved alloc1 alloc2 saved,
        subst (IsRooted size) (sym e5) (rooted-IsRooted size m v grps1 grps2 grps3 b a c),
      )
