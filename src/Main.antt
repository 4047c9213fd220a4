-- ===== src/Main.antt =====
-- src/main.c: the command line. `fuse_opt_parse` and `fuse_main` are the FUSE library's.
pub mod Runs
use chisai_fs.Base.{ℕ, Bool, true, false, Option, none, some, List, [], ◌∷◌, ◌++◌}
use chisai_fs.Base.Outcome.{Cmd, ok, died, pure, ◌>>=◌, ◌>>◌}

-- The keys that FUSE calls the processing function with: an argument that is no option, an option
-- that no template matches, and KEY_FORMAT.
pub data Key : Type 0 where
  nonopt opt format : Key

-- The static variables `device` and `format`.
pub record Options : Type 0 where
  pub device : Option (List ℕ)
  pub format : Bool

-- Whether the argument is kept for FUSE: the source returns 1 where it is. `strdup` is taken to
-- succeed.
unfoldable pub lfs_fuse_opt_proc : List ℕ → Key → Options → Bool × Options
lfs_fuse_opt_proc arg Key.nonopt options = elim options.device [
  | none ↦ (false, record options { device = some arg })
  | some _ ↦ (true, options)
]
lfs_fuse_opt_proc arg Key.format options = (false, record options { format = true })
lfs_fuse_opt_proc arg Key.opt options = (true, options)

abbrev kept : Bool → List ℕ → List (List ℕ) → List (List ℕ)
kept true arg rest = arg ∷ rest
kept false arg rest = rest

-- `fuse_opt_parse` calls the function once for each argument, in order, and leaves those kept.
unfoldable pub parse : List (List ℕ × Key) → Options → List (List ℕ) × Options
parse [] options = ([], options)
parse ((arg, key) ∷ args) options =
    let (keep, options') = lfs_fuse_opt_proc arg key options in
    let (rest, last) = parse args options' in (kept keep arg rest, last)

abbrev pub no_options : Options
no_options = record { device = none; format = false }

-- The world `W` is what `chisai_format`, `chisai_mount` and `fuse_main` work on; `fuse_main` returns
-- whether it failed.
module _ {W : Type 0} (chisai_format chisai_mount : List ℕ → Cmd W (Unit {0}))
    (fuse_main : List (List ℕ) → Cmd W Bool) where
  -- A failure of FUSE is fatal.
  unfoldable pub mount_and_serve : List ℕ → List (List ℕ) → Cmd W (Unit {0})
  mount_and_serve device args = do
    chisai_mount device
    err ← fuse_main (args ++ ((b'-' ∷ b's' ∷ []) ∷ []))
    elim err [ true ↦ λ _. died | false ↦ pure tt ]

  -- What stands behind the parsing.
  unfoldable pub run : List (List ℕ) × Options → Cmd W (Unit {0})
  run (rest, options) = elim options.device [
    | none ↦ λ _. died
    | some device ↦ elim options.format [
      | true ↦ chisai_format device
      | false ↦ mount_and_serve device rest
    ]
  ]

  -- The arguments behind the program's name, each with the key that its form gives.
  unfoldable pub main : List (List ℕ × Key) → Cmd W (Unit {0})
  main args = run (parse args no_options)
