-- ===== src/Tests/Command.antt =====
-- The command line `chisai -f disk -d`.
use chisai_fs.Base.{ℕ, Bool, false, List, [], ◌∷◌}
use chisai_fs.Base.Outcome.{Cmd, pure}
use chisai_fs.Main.{Key}

-- A world that records the devices that were formatted, mounted, and the arguments of FUSE.
data Call : Type 0 where
  formatted mounted : List ℕ → Call
  served : List (List ℕ) → Call

abbrev formats : List ℕ → Cmd (List Call) (Unit {0})
formats device w = pure tt (formatted device ∷ w)

abbrev mounts : List ℕ → Cmd (List Call) (Unit {0})
mounts device w = pure tt (mounted device ∷ w)

abbrev serves : List (List ℕ) → Cmd (List Call) Bool
serves args w = pure false (served args ∷ w)

abbrev line : List (List ℕ × Key)
line = (b'-' ∷ b'f' ∷ [], Key.opt) ∷ (b'd' ∷ [], Key.nonopt) ∷ (b'-' ∷ b'd' ∷ [], Key.opt) ∷ []
