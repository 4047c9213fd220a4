-- ===== src/Mount.antt =====
-- src/chisai-mount.c and include/chisai-mount.h: the handlers that FUSE calls. This file has their
-- state, the objects they allocate, and the handlers that keep no object; the children have the rest.
-- A pointer that a handler may be given as NULL is an `Option`. The output of `info` is left out.
pub mod Tree
pub mod Open
pub mod Table
pub mod Dangling
pub mod Listing
pub mod Made
pub mod Contents
use chisai_fs.Base.{
  ℕ, Bool, true, false, Option, none, some, List, [], ◌∷◌, ◌++◌, ◌==◌, if◌then◌else◌, get_elem?,
  set, length,
}
use chisai_fs.Base.Outcome.{Cmd, died, pure, get, put, defined, on, ◌>>=◌, ◌>>◌}
use chisai_fs.BlockGroup.{BlockGroup}
use chisai_fs.Device.{Device}
use chisai_fs.Fs.{Filesystem, Fs, FileInfo, DirInfo, Code}
use chisai_fs.Fs.Init.{fs_init}
use chisai_fs.Inode.{Inode}

-- What a handler returns: one of the codes of fs.h, -EPERM, or a number of bytes.
pub data Ret : Type 0 where
  code : Code → Ret
  eperm : Ret
  count : ℕ → Ret

-- The fields of `struct stat` that are set.
pub record Stat : Type 0 where
  pub st_ino : ℕ
  pub st_mode : ℕ
  pub st_nlink : ℕ
  pub st_size : ℕ
  pub st_blocks : ℕ
  pub st_uid : ℕ
  pub st_gid : ℕ

-- MAGIC_UID, MAGIC_GID
abbrev pub magic_uid : ℕ
magic_uid = 0x00616d69

abbrev pub magic_gid : ℕ
magic_gid = 0x0052696e

unfoldable pub chisai_fuse_tostat : FileInfo → Stat
chisai_fuse_tostat info = record {
  st_ino = info.idx;
  st_mode = info.inode.mode;
  st_nlink = info.inode.nlink;
  st_size = info.inode.size;
  st_blocks = info.inode.blkcnt;
  st_uid = magic_uid;
  st_gid = magic_gid;
}

-- What a pointer in `fi->fh` can point to; `unset` is memory that nothing has been written to.
pub data Object : Type 0 where
  unset : Object
  file : FileInfo → Object
  dir : DirInfo → Object

-- `objects` is what malloc has returned, in order: a pointer is its number, and `none` stands where it
-- was freed. No number comes back, as C gives a freed pointer no meaning. `reopen` is REOPEN, `fds` the
-- descriptors that the process has open, `device_fd` the field of `fs`.
pub record Mount (d : Device) : Type 0 where
  pub fs : Filesystem d
  pub device_fd : ℕ
  pub fds : List ℕ
  pub reopen : Bool
  pub objects : List (Option Object)

-- The descriptors but the first of this number.
unfoldable pub without : ℕ → List ℕ → List ℕ
without fd [] = []
without fd (x ∷ xs) = let rest = without fd xs in if fd == x then xs else x ∷ rest

module _ (d : Device) where
  abbrev pub Fuse : Type 0 → Type 0
  Fuse A = Cmd (Mount d) A

  abbrev pub on_fs : {A : Type 0} → Fs d A → Fuse A
  on_fs = on (λ (m : Mount d). m.fs) (λ m fs. record m { fs = fs })

  -- malloc, which is taken to succeed, of an object that nothing has been written to.
  unfoldable pub malloc_object : Object → Fuse ℕ
  malloc_object object = do
    m ← get
    put (record m { objects = m.objects ++ (some object ∷ []) })
    pure (length m.objects)

  -- A second free is undefined.
  unfoldable pub free_object : ℕ → Fuse (Unit {0})
  free_object fh = do
    m ← get
    found ← defined (get_elem? m.objects fh)
    _ ← defined found
    put (record m { objects = set m.objects fh none })

  -- A pointer that is followed.
  unfoldable pub load_object : ℕ → Fuse Object
  load_object fh = do m ← get; found ← defined (get_elem? m.objects fh); defined found

  unfoldable pub store_object : ℕ → Object → Fuse (Unit {0})
  store_object fh object = do m ← get; put (record m { objects = set m.objects fh (some object) })

  -- The pointer as a pointer to `struct chisai_file_info`, or to `struct chisai_dir_info`.
  unfoldable pub load_file : ℕ → Fuse FileInfo
  load_file fh = do
    object ← load_object fh
    defined (elim object [ file info ↦ some info | unset ↦ none | dir info ↦ none ])

  unfoldable pub load_dir : ℕ → Fuse DirInfo
  load_dir fh = do
    object ← load_object fh
    defined (elim object [ dir info ↦ some info | unset ↦ none | file info ↦ none ])

  -- `opened` is what `open` returns on the device, and `malloc_groups` what malloc does.
  unfoldable pub chisai_mount : Option ℕ → (ℕ → List BlockGroup) → Fuse (Unit {0})
  chisai_mount none malloc_groups m = died
  chisai_mount (some fd) malloc_groups m =
      on_fs (fs_init d malloc_groups) (record m { fds = fd ∷ m.fds })

  unfoldable pub chisai_fuse_init : Fuse (Unit {0})
  chisai_fuse_init = pure tt

  -- close(fs.device_fd)
  unfoldable pub chisai_fuse_destroy : Fuse (Unit {0})
  chisai_fuse_destroy = do m ← get; put (record m { fds = without m.device_fd m.fds })

  unfoldable pub chisai_fuse_statfs : Fuse Ret
  chisai_fuse_statfs = pure eperm

  unfoldable pub chisai_fuse_fsync : Fuse Ret
  chisai_fuse_fsync = pure (code Code.err_ok)

  unfoldable pub chisai_fuse_flush : Fuse Ret
  chisai_fuse_flush = pure (code Code.err_ok)

  unfoldable pub chisai_fuse_link : Fuse Ret
  chisai_fuse_link = pure eperm

  unfoldable pub chisai_fuse_mknod : Fuse Ret
  chisai_fuse_mknod = pure eperm

  unfoldable pub chisai_fuse_chmod : Fuse Ret
  chisai_fuse_chmod = pure (code Code.err_ok)

  unfoldable pub chisai_fuse_chown : Fuse Ret
  chisai_fuse_chown = pure eperm

  unfoldable pub chisai_fuse_utimens : Fuse Ret
  chisai_fuse_utimens = pure (code Code.err_ok)
