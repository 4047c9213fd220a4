-- ===== src/Fs/Tree/MadeDir.antt =====
-- The image behind `fs_mkdir`: what stands on the device after its writes and allocations.
use mathlib.Core.Path.{sym}
use chisai_fs.Base.{ℕ, ◌-◌, ◌≤◌, ◌≡◌, refl, ◌∙◌, List, arith, All-replicate, IsByte}
use chisai_fs.BlockGroup.{BlockGroup, Kind}
use chisai_fs.BlockGroup.Alloc.{IsAllocated}
use chisai_fs.Dir.{Dir, blank_node, dir_init}
use chisai_fs.Dir.Bytes.{IsNode}
use chisai_fs.Dir.Entries
use chisai_fs.Dir.Entries.{entries, lookup, has}
use chisai_fs.Fs.Layout.{IsIndex}
use chisai_fs.Fs.Tree.{Image, IsMounted, marked, HasInode, HasDir}
use chisai_fs.Fs.Tree.Grows.{IsLarger, Grows}
use chisai_fs.Fs.Tree.Saves.{with_bytes-IsMounted}
use chisai_fs.Fs.Tree.Allocs.{allocated-IsIndex, allocated-IsMounted, allocated-Keeps, now_marked}
use chisai_fs.Fs.Tree.DirWrites.{with_dir-HasDir, with_dir-inodes, with_dir-Grows, with_dir-Keeps}
use chisai_fs.Fs.Tree.Writes.{
  Keeps, Keeps-trans, Grows-Keeps, with_groups, with_inode, with_dir, with_inode-Keeps,
  with_inode-HasInode,
}
use chisai_fs.Inode.{Inode}
use chisai_fs.Inode.Laws
use chisai_fs.Inode.Laws.{IsWord}

-- A new directory is well-formed.
pub dir_init-IsValid : Entries.IsValid dir_init
unfolding dir_init
dir_init-IsValid = record {
  storable = record {
    fifteen = refl;
    nodes =
        All-replicate IsNode 15 blank_node
          (refl, All-replicate IsByte 28 0 (omega arith), omega arith);
    size = omega arith;
    checksum = omega arith;
  };
  bounded = omega arith;
  terminated = λ i n lt at. absurd (omega arith);
}

-- The image behind the creation of a directory: the bytes, and the two allocations.
abbrev pub made_dir : Image → ℕ → Dir → ℕ → Inode → ℕ → List BlockGroup → Image
made_dir m block dir idx inode new grps =
    with_dir (with_inode (with_dir (with_groups m grps) block dir) idx inode) new dir_init

-- What the creation of the directory `name` in the block `block` makes of the image `m`.
pub record IsMade (size : ℕ) (m m' : Image) (name : List ℕ) (block idx new : ℕ) (inode : Inode)
    : Type 0 where
  pub inode_was_free : marked m Kind.inodes idx ≡ 0
  pub block_was_free : marked m Kind.blocks new ≡ 0
  pub positive : 1 ≤ idx
  pub dir : Dir
  pub has_parent : HasDir m' block dir
  pub named : lookup name (entries dir) ≡ idx
  pub has_inode : HasInode m' idx inode
  pub has_dir : HasDir m' new dir_init
  pub grows : Grows m m'
  pub mounted : IsMounted size m'

module _ (size : ℕ) (m : Image) (v : IsMounted size m) (block idx new : ℕ) (dir dir' : Dir)
    (inode : Inode) (grps1 grps : List BlockGroup) (there : HasDir m block dir)
    (valid' : Entries.IsValid dir') (larger : IsLarger dir dir')
    (b : IsAllocated m.sb.data_block_per_groups Kind.blocks m.blk_grps new grps1)
    (a : IsAllocated m.sb.data_block_per_groups Kind.inodes grps1 idx grps)
    (valid : Laws.IsValid inode) where
  v1 : IsMounted size (with_groups m grps1)
  v1 = allocated-IsMounted size m v Kind.blocks new grps1 b

  v2 : IsMounted size (with_groups m grps)
  v2 = allocated-IsMounted size (with_groups m grps1) v1 Kind.inodes idx grps a

  made_dir-IsMounted : IsMounted size (made_dir m block dir' idx inode new grps)
  made_dir-IsMounted =
      with_bytes-IsMounted size (with_groups m grps)
        (made_dir m block dir' idx inode new grps).bytes v2

  new_block : IsIndex m.sb new
  new_block = allocated-IsIndex size m v Kind.blocks new grps1 b

  new_inode : IsIndex m.sb idx
  new_inode = allocated-IsIndex size (with_groups m grps1) v1 Kind.inodes idx grps a

  -- The index was free before the data block was taken, too.
  inode_was_free : marked m Kind.inodes idx ≡ 0
  inode_was_free = sym (b.other_kept (idx - 1)) ∙ a.was_free

  -- The three writes with the bitmaps as they were, and then the two allocations.
  behind_parent : Keeps (with_dir m block dir') (made_dir m block dir' idx inode new grps)
  behind_parent =
      let m1 = with_dir m block dir' in
      let m2 = with_inode m1 idx inode in
      let m3 = with_dir m2 new dir_init in
      let m4 = with_groups m3 grps1 in
      let v3 = with_bytes-IsMounted size m m3.bytes v in
      Keeps-trans
        (with_inode-Keeps size m1 (with_bytes-IsMounted size m m1.bytes v) idx inode new_inode
          inode_was_free valid)
        (Keeps-trans
          (with_dir-Keeps size m2 (with_bytes-IsMounted size m m2.bytes v) new dir_init new_block
            b.was_free dir_init-IsValid)
          (Keeps-trans (allocated-Keeps size m3 v3 Kind.blocks new grps1 b) (
            allocated-Keeps size m4 (with_bytes-IsMounted size (with_groups m grps1) m3.bytes v1)
              Kind.inodes idx grps a)))

  made_dir-Grows : Grows m (made_dir m block dir' idx inode new grps)
  made_dir-Grows =
      Grows-Keeps (with_dir-Grows size m v block dir dir' there valid' larger) behind_parent

  made_dir-HasDir : HasDir (made_dir m block dir' idx inode new grps) block dir'
  made_dir-HasDir =
      behind_parent.dirs block dir'
        (with_dir-HasDir size m v block dir' there.index there.used valid')

  made_dir-HasInode : HasInode (made_dir m block dir' idx inode new grps) idx inode
  made_dir-HasInode =
      let m1 = with_dir (with_groups m grps) block dir' in
      let m2 = with_inode m1 idx inode in
      with_dir-inodes size m2 (with_bytes-IsMounted size (with_groups m grps) m2.bytes v2) new
        dir_init new_block dir_init-IsValid idx inode
        (with_inode-HasInode size m1 (with_bytes-IsMounted size (with_groups m grps) m1.bytes v2)
          idx inode new_inode (now_marked size (with_groups m grps1) v1 Kind.inodes idx grps a)
          valid)

  made_dir-HasDir-new : HasDir (made_dir m block dir' idx inode new grps) new dir_init
  made_dir-HasDir-new =
      let m2 = with_inode (with_dir (with_groups m grps) block dir') idx inode in
      with_dir-HasDir size m2 (with_bytes-IsMounted size (with_groups m grps) m2.bytes v2) new
        dir_init new_block (a.other_kept (new - 1) ∙ now_marked size m v Kind.blocks new grps1 b)
        dir_init-IsValid

  pub made_dir-IsMade :
      (name : List ℕ)
      → lookup name (entries dir') ≡ idx
      → IsMade size m (made_dir m block dir' idx inode new grps) name block idx new inode
  made_dir-IsMade name named = record {
    inode_was_free = inode_was_free;
    block_was_free = b.was_free;
    positive = new_inode.0;
    dir = dir';
    has_parent = made_dir-HasDir;
    named = named;
    has_inode = made_dir-HasInode;
    has_dir = made_dir-HasDir-new;
    grows = made_dir-Grows;
    mounted = made_dir-IsMounted;
  }
