-- ===== src/Mount/Table.antt =====
-- `chisai_fuse_opts`: the table of handlers, as one step of the mounted file system.
use chisai_fs.Base.{ℕ, Bool, Option, some, List}
use chisai_fs.Base.Outcome.{pure, ◌>>=◌, ◌>>◌}
use chisai_fs.Device.{Device}
use chisai_fs.Mount.{
  Ret, code, Stat, Fuse, chisai_fuse_init, chisai_fuse_destroy, chisai_fuse_statfs,
  chisai_fuse_fsync, chisai_fuse_flush, chisai_fuse_link, chisai_fuse_mknod, chisai_fuse_chmod,
  chisai_fuse_chown, chisai_fuse_utimens,
}
use chisai_fs.Mount.Open.{
  chisai_fuse_open, chisai_fuse_create, chisai_fuse_truncate, chisai_fuse_release,
  chisai_fuse_fgetattr, chisai_fuse_read, chisai_fuse_write,
}
use chisai_fs.Mount.Tree.{
  Filled, chisai_fuse_getattr, chisai_fuse_access, chisai_fuse_mkdir, chisai_fuse_unlink,
  chisai_fuse_rename, chisai_fuse_opendir, chisai_fuse_releasedir, chisai_fuse_readdir,
}

-- A call of FUSE, with the arguments that its handler reads.
pub data Request : Type 0 where
  init destroy statfs link symlink mknod chmod chown utimens fsync flush : Request
  getattr : Option (List ℕ) → Bool → Request
  access : Option (List ℕ) → Request
  mkdir : List ℕ → ℕ → Request
  rmdir unlink : List ℕ → Request
  opendir : Option (List ℕ) → Option ℕ → Request
  releasedir : Option (List ℕ) → Option ℕ → Request
  readdir : Option (List ℕ) → Bool → Option ℕ → List ℕ → Request
  rename : List ℕ → List ℕ → Request
  open_file : List ℕ → ℕ → Request
  create : List ℕ → ℕ → Request
  truncate : List ℕ → ℕ → Request
  release : Option (List ℕ) → Option ℕ → Request
  fgetattr : Option (List ℕ) → Bool → Option ℕ → Request
  read : Option (List ℕ) → List ℕ → ℕ → ℕ → ℕ → Request
  write : Option (List ℕ) → List ℕ → ℕ → ℕ → ℕ → Request

-- What the kernel gets back: a number, and what the handler has filled in.
pub data Reply : Type 0 where
  done : Reply
  number : Ret → Reply
  attributes : Ret → Option Stat → Reply
  handle : Ret → Option ℕ → Reply
  listing : Ret → List Filled → Reply
  content : Ret → List ℕ → ℕ → Reply

module _ (d : Device) where
  unfoldable pub chisai_fuse_opts : Request → Fuse d Reply
  chisai_fuse_opts init = do chisai_fuse_init d; pure done
  chisai_fuse_opts destroy = do chisai_fuse_destroy d; pure done
  chisai_fuse_opts statfs = do ret ← chisai_fuse_statfs d; pure (number ret)
  chisai_fuse_opts link = do ret ← chisai_fuse_link d; pure (number ret)
  chisai_fuse_opts symlink = do ret ← chisai_fuse_link d; pure (number ret)
  chisai_fuse_opts mknod = do ret ← chisai_fuse_mknod d; pure (number ret)
  chisai_fuse_opts chmod = do ret ← chisai_fuse_chmod d; pure (number ret)
  chisai_fuse_opts chown = do ret ← chisai_fuse_chown d; pure (number ret)
  chisai_fuse_opts utimens = do ret ← chisai_fuse_utimens d; pure (number ret)
  chisai_fuse_opts fsync = do ret ← chisai_fuse_fsync d; pure (number ret)
  chisai_fuse_opts flush = do ret ← chisai_fuse_flush d; pure (number ret)
  chisai_fuse_opts (getattr path some_stat) = do
    (ret, stat) ← chisai_fuse_getattr d path some_stat
    pure (attributes ret stat)
  chisai_fuse_opts (access path) = do ret ← chisai_fuse_access d path; pure (number ret)
  chisai_fuse_opts (mkdir path mode) = do ret ← chisai_fuse_mkdir d path mode; pure (number ret)
  chisai_fuse_opts (rmdir path) = do ret ← chisai_fuse_unlink d path; pure (number ret)
  chisai_fuse_opts (unlink path) = do ret ← chisai_fuse_unlink d path; pure (number ret)
  chisai_fuse_opts (opendir path fi) = do
    (ret, fh) ← chisai_fuse_opendir d path fi
    pure (handle ret fh)
  chisai_fuse_opts (releasedir path fi) = do
    ret ← chisai_fuse_releasedir d path fi
    pure (number ret)
  chisai_fuse_opts (readdir path buf fi name) = do
    (ret, filled) ← chisai_fuse_readdir d path buf fi name
    pure (listing ret filled)
  chisai_fuse_opts (rename from to) = do ret ← chisai_fuse_rename d from to; pure (number ret)
  chisai_fuse_opts (open_file path fh) = do
    (ret, new_fh) ← chisai_fuse_open d path fh
    pure (handle (code ret) (some new_fh))
  chisai_fuse_opts (create path mode) = do
    (ret, fh) ← chisai_fuse_create d path mode
    pure (handle (code ret) (some fh))
  chisai_fuse_opts (truncate path size) = do
    ret ← chisai_fuse_truncate d path size
    pure (number (code ret))
  chisai_fuse_opts (release path fi) = do
    ret ← chisai_fuse_release d path fi
    pure (number (code ret))
  chisai_fuse_opts (fgetattr path some_stat fi) = do
    (ret, stat, _) ← chisai_fuse_fgetattr d path some_stat fi
    pure (attributes (code ret) stat)
  chisai_fuse_opts (read path buf size off fh) = do
    (ret, buf', new_fh) ← chisai_fuse_read d path buf size off fh
    pure (content ret buf' new_fh)
  chisai_fuse_opts (write path buf size off fh) = do
    (ret, new_fh) ← chisai_fuse_write d path buf size off fh
    pure (handle ret (some new_fh))
