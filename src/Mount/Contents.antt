-- ===== src/Mount/Contents.antt =====
-- `chisai_fuse_create`, `chisai_fuse_write` and `chisai_fuse_read` of the same open file.
use chisai_fs.Base.{
  ℕ, ◌+◌, ◌*◌, ◌^◌, ◌≤◌, ◌<◌, ◌≡◌, ◌⊎◌, ap, ◌∙◌, false, Option, some, List, [], ◌∷◌, ◌++◌, arith,
  get_elem?, get_or-replicate, set, take, length, length-append, get_elem?-set_self,
  lt_of_get_elem?, IsBytes,
}
use chisai_fs.Base.Outcome.{ok}
use chisai_fs.BlockGroup.{Kind}
use chisai_fs.Device.{Device}
use chisai_fs.Device.Laws.{DeviceLaws}
use chisai_fs.Dir.{Dir}
use chisai_fs.Dir.Entries.{entries, has}
use chisai_fs.Fs.{Filesystem, FileInfo, err_ok}
use chisai_fs.Fs.Content.{nth_block, IsFile}
use chisai_fs.Fs.Content.Back.{fs_read_file-fs_write_file}
use chisai_fs.Fs.Content.Room.{IsFull}
use chisai_fs.Fs.Create.{fs_create_file}
use chisai_fs.Fs.File.{fs_write_file, fs_read_file}
use chisai_fs.Fs.Layout.{IsIndex}
use chisai_fs.Fs.Tree.{Image, image, IsMounted, marked, HasInode, HasDir, Resolves}
use chisai_fs.Fs.Tree.Make.{new_file, new_file-IsValid, fs_create_file-Resolves}
use chisai_fs.Fs.Tree.Parent.{IsFileName}
use chisai_fs.Fs.Tree.Walk.{Resolves-HasInode}
use chisai_fs.Superblock.{Superblock}
use chisai_fs.Inode.{Inode, inode_init, inode_set_mode}
use chisai_fs.Mount.{Mount, count, file, unset, malloc_object, store_object, load_object, load_file}
use chisai_fs.Mount.Open.{
  chisai_fuse_create, chisai_fuse_reopen, chisai_fuse_read, chisai_fuse_write,
}

-- A mount behind an operation on an open file.
abbrev with_open : (d : Device) → Mount d → Filesystem d → ℕ → FileInfo → Mount d
with_open d mt fs fh info = record mt { fs = fs; objects = set mt.objects fh (some (file info)) }

module _ (d : Device) (mt : Mount d) where
  fuse_create_of :
      (path : List ℕ) (mode : ℕ) {info : FileInfo} {fs' : Filesystem d}
      → fs_create_file d path mode mt.fs ≡ ok (err_ok, some info) fs'
      → chisai_fuse_create d path mode mt
        ≡ ok
            (err_ok, length mt.objects)
            (with_open d
              (record mt { objects = mt.objects ++ (some unset ∷ []) })
              fs'
              (length mt.objects)
              info)
  unfolding chisai_fuse_create malloc_object store_object
  fuse_create_of path mode created = rw created

  module _ (path : Option (List ℕ)) (fh : ℕ) (info : FileInfo) (quiet : mt.reopen ≡ false)
      (held : get_elem? mt.objects fh ≡ some (some (file info))) where
    fuse_write_of :
        (buf : List ℕ) (size off : ℕ) {total : ℕ} {info' : FileInfo} {fs' : Filesystem d}
        → fs_write_file d info buf size off mt.fs ≡ ok (total, info') fs'
        → chisai_fuse_write d path buf size off fh mt
          ≡ ok (count total, fh) (with_open d mt fs' fh info')
    unfolding chisai_fuse_write chisai_fuse_reopen load_file load_object store_object
    fuse_write_of buf size off wrote = rw (quiet, held, wrote)

    fuse_read_of :
        (buf : List ℕ) (size off : ℕ) {total : ℕ} {buf' : List ℕ} {fs' : Filesystem d}
        → fs_read_file d info buf size off mt.fs ≡ ok (err_ok, total, buf') fs'
        → chisai_fuse_read d path buf size off fh mt
          ≡ ok (count total, buf', fh) (record mt { fs = fs' })
    unfolding chisai_fuse_read chisai_fuse_reopen load_file load_object
    fuse_read_of buf size off read = rw (quiet, held, read)

module _ {d : Device} {size : ℕ} {byte : d.State → ℕ → ℕ} (laws : DeviceLaws d size byte) where
  -- Through an open file, with REOPEN down: bytes that `chisai_fuse_write` puts at an offset in the
  -- direct blocks are what `chisai_fuse_read` gives, all of them, or as many as `chisai_fuse_write`
  -- returns when every data block is taken.
  pub chisai_fuse_read-chisai_fuse_write :
      (mt : Mount d) (path : Option (List ℕ)) (fh : ℕ) (info : FileInfo) (buf out : List ℕ)
      (n off k : ℕ)
      → mt.reopen ≡ false
      → get_elem? mt.objects fh ≡ some (some (file info))
      → IsMounted size (image byte mt.fs)
      → mt.fs.sb.block_size ≡ 2 ^ k
      → IsFile (image byte mt.fs) info.inode
      → HasInode (image byte mt.fs) info.idx info.inode
      → off + n ≤ 12 * 2 ^ k
      → n ≤ length buf
      → IsBytes buf
      → n ≤ length out
      → (total : ℕ) × (mt' mt'' : Mount d) × (out' : List ℕ) × (chisai_fuse_write d path buf n off
            fh mt
          ≡ ok (count total, fh) mt')
        × ((total ≡ n) ⊎ ((total ≤ n) × IsFull (image byte mt'.fs)))
        × (chisai_fuse_read d path out total off fh mt' ≡ ok (count total, out', fh) mt'')
        × (take total out' ≡ take total buf)
  chisai_fuse_read-chisai_fuse_write mt path fh info buf out n off k quiet held v power f h small
        enough bytes room =
      let (total, info', fs', fs'', out', wrote, all, read, same) =
        fs_read_file-fs_write_file laws mt.fs info buf out n off k v power f h small enough bytes
          room in
      let mt' = with_open d mt fs' fh info' in
      let inside = lt_of_get_elem? mt.objects fh held in
      (
        total,
        mt',
        record mt' { fs = fs'' },
        out',
        fuse_write_of d mt path fh info quiet held buf n off wrote,
        all,
        fuse_read_of d mt' path fh info' quiet
            (get_elem?-set_self mt.objects fh (some (file info')) inside) out total off read,
        same,
      )

-- A file that has just been made has no blocks.
no_blocks : (mode n : ℕ) → nth_block (new_file mode) n ≡ 0
unfolding inode_init inode_set_mode
no_blocks mode n = get_or-replicate 0 12 n

new_file-IsFile : (m : Image) (mode : ℕ) → mode < 2 ^ 32 → IsFile m (new_file mode)
new_file-IsFile m mode small = record {
  valid = new_file-IsValid mode small;
  blocks = λ n lt there. absurd (omega (arith, no_blocks mode n));
  apart = λ n n' lt lt' ne there same. absurd (omega (arith, no_blocks mode n));
}

module _ {d : Device} {size : ℕ} {byte : d.State → ℕ → ℕ} (laws : DeviceLaws d size byte)
    (mt : Mount d) (v : IsMounted size (image byte mt.fs)) where
  -- On a mounted device with a free inode, whose block size is a power of two, and with REOPEN down,
  -- a file is made by
  -- `chisai_fuse_create` of a new name of 1 to 27 bytes, in a directory that a path leads to and that
  -- is not full. Then bytes that `chisai_fuse_write` puts at an offset in its direct blocks, through
  -- the pointer that `chisai_fuse_create` has set, are what `chisai_fuse_read` gives: all of them, or
  -- as many as `chisai_fuse_write` returns when every data block is taken.
  pub chisai_fuse_read-chisai_fuse_create :
      (parent_path name : List ℕ) (p block free mode : ℕ) (parent_inode : Inode) (dir : Dir)
      (buf out : List ℕ) (n off k : ℕ)
      → mt.reopen ≡ false
      → IsFileName name
      → Resolves (image byte mt.fs) parent_path p parent_inode
      → get_elem? parent_inode.direct_blks 0 ≡ some block
      → HasDir (image byte mt.fs) block dir
      → dir.size < 15
      → has name (entries dir) ≡ false
      → IsIndex mt.fs.sb free
      → marked (image byte mt.fs) Kind.inodes free ≡ 0
      → mode < 2 ^ 32
      → mt.fs.sb.block_size ≡ 2 ^ k
      → off + n ≤ 12 * 2 ^ k
      → n ≤ length buf
      → IsBytes buf
      → n ≤ length out
      → (fh total : ℕ) × (mt' mt'' mt''' : Mount d) × (out' : List ℕ) × (chisai_fuse_create d
            (parent_path ++ (b'/' ∷ name))
            mode
            mt
          ≡ ok (err_ok, fh) mt')
        × (chisai_fuse_write d (some (parent_path ++ (b'/' ∷ name))) buf n off fh mt'
            ≡ ok (count total, fh) mt'')
        × ((total ≡ n) ⊎ ((total ≤ n) × IsFull (image byte mt''.fs)))
        × (chisai_fuse_read d (some (parent_path ++ (b'/' ∷ name))) out total off fh mt''
            ≡ ok (count total, out', fh) mt''')
        × (take total out' ≡ take total buf)
  chisai_fuse_read-chisai_fuse_create parent_path name p block free mode parent_inode dir buf out n
        off k quiet is_name r at there room missing i unused small power in_blocks enough bytes
        out_room =
      let path = parent_path ++ (b'/' ∷ name) in
      let (idx, fs', created, was_free, leads, grows, v', same_sb) =
        fs_create_file-Resolves laws mt.fs v parent_path name p block free mode parent_inode dir
          is_name r at there room missing i unused small in
      let info : FileInfo = record { inode = new_file mode; idx = idx } in
      let objects = mt.objects ++ (some unset ∷ []) in
      let fh = length mt.objects in
      let mt' = with_open d (record mt { objects = objects }) fs' fh info in
      let (total, mt'', mt''', out', wrote, all, read, same) =
        chisai_fuse_read-chisai_fuse_write laws mt' (some path) fh info buf out n off k quiet
          (get_elem?-set_self objects fh (some (file info))
            (omega (arith, length-append mt.objects (some unset ∷ []))))
          v' (ap (λ (x : Superblock). x.block_size) same_sb ∙ power)
          (new_file-IsFile (image byte fs') mode small)
          (Resolves-HasInode (image byte fs') path idx (new_file mode) leads) in_blocks enough bytes
          out_room in
      (
        fh,
        total,
        mt',
        mt'',
        mt''',
        out',
        fuse_create_of d mt path mode created,
        wrote,
        all,
        read,
        same,
      )
