-- ===== src/Main/Runs.antt =====
-- What `main` does with its arguments.
use chisai_fs.Base.{ℕ, Bool, true, false, Option, none, some, List, [], ◌∷◌}
use chisai_fs.Main.{Key}

-- The first argument that is no option.
pub first_nonopt : List (List ℕ × Key) → Option (List ℕ)
first_nonopt [] = none
first_nonopt ((arg, Key.nonopt) ∷ args) = some arg
first_nonopt ((arg, Key.opt) ∷ args) = first_nonopt args
first_nonopt ((arg, Key.format) ∷ args) = first_nonopt args

-- Whether `--format` is among them.
pub asks_format : List (List ℕ × Key) → Bool
asks_format [] = false
asks_format ((arg, Key.nonopt) ∷ args) = asks_format args
asks_format ((arg, Key.opt) ∷ args) = asks_format args
asks_format ((arg, Key.format) ∷ args) = true

-- All but `--format`.
not_format : List (List ℕ × Key) → List (List ℕ)
not_format [] = []
not_format ((arg, Key.nonopt) ∷ args) = arg ∷ not_format args
not_format ((arg, Key.opt) ∷ args) = arg ∷ not_format args
not_format ((arg, Key.format) ∷ args) = not_format args

-- All but `--format` and the first that is no option.
pub for_fuse : List (List ℕ × Key) → List (List ℕ)
for_fuse [] = []
for_fuse ((arg, Key.nonopt) ∷ args) = not_format args
for_fuse ((arg, Key.opt) ∷ args) = arg ∷ for_fuse args
for_fuse ((arg, Key.format) ∷ args) = for_fuse args
