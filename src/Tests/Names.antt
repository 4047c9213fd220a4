-- ===== src/Tests/Names.antt =====
-- src/chisai-core/dir.c at a directory with the file "a", whose inode is 7.
use mathlib.Core.Path.{subst}
use mathlib.Core.Option.{some-injective}
use mathlib.Core.List.{Perm}
use chisai_fs.Base.{
  ℕ, zero, suc, ◌<◌, ◌≡◌, refl, ◌⊎◌, true, false, some, List, [], ◌∷◌, ◌++◌, arith, All-replicate,
  All-get_elem?, IsByte, replicate, get_elem?,
}
use chisai_fs.Base.CString.{has_nul}
use chisai_fs.Dir.{Dir, DirNode, blank_node, dir_file_inode_idx, dir_insert, dir_remove}
use chisai_fs.Dir.Bytes.{IsNode, IsStorable}
use chisai_fs.Dir.Entries.{IsValid, entries, lookup, has}
use chisai_fs.Dir.Insert.{dir_insert-entries}
use chisai_fs.Dir.Lookup.{dir_file_inode_idx-lookup}
use chisai_fs.Dir.Remove.{dir_remove-entries}

abbrev pub names : Dir
names = record {
  node = record { name = b'a' ∷ replicate 27 0; idx = 7 } ∷ replicate 14 blank_node;
  size = 1;
  checksum = 0;
}

pub names-IsStorable : IsStorable names
names-IsStorable = record {
  fifteen = refl;
  nodes = (
    (refl, (omega arith, All-replicate IsByte 27 0 (omega arith)), omega arith),
    All-replicate IsNode 14 blank_node (refl, All-replicate IsByte 28 0 (omega arith), omega arith),
  );
  size = omega arith;
  checksum = omega arith;
}

pub names-IsValid : IsValid names
names-IsValid = record { storable = names-IsStorable; bounded = omega arith; terminated = at }
  where
    at : (i : ℕ) → (n : DirNode) → i < 1 → get_elem? names.node i ≡ some n → has_nul n.name ≡ true
    at zero n lt e =
        subst (λ x. has_nul x.name ≡ true) (some-injective _ _ e) (unfold has_nul in refl)
    at (suc i) n lt e = absurd (omega arith)

abbrev a_node : DirNode
a_node = record { name = b'a' ∷ replicate 27 0; idx = 7 }

-- All nodes have the name "a".
abbrev pub full_names : Dir
full_names = record { node = replicate 15 a_node; size = 15; checksum = 0 }

pub full_names-IsValid : IsValid full_names
full_names-IsValid = record {
  storable = record {
    fifteen = refl;
    nodes = All-replicate IsNode 15 a_node full_node;
    size = omega arith;
    checksum = omega arith;
  };
  bounded = omega arith;
  terminated = λ i n lt e.
      (All-get_elem? (λ (x : DirNode). has_nul x.name ≡ true) full_names.node i
        (All-replicate (λ (x : DirNode). has_nul x.name ≡ true) 15 a_node (unfold has_nul in refl))
        e);
}
  where
    full_node : IsNode a_node
    full_node = (refl, (omega arith, All-replicate IsByte 27 0 (omega arith)), omega arith)

abbrev name_b : List ℕ
name_b = b'b' ∷ []

abbrev name_a : List ℕ
name_a = b'a' ∷ []

dir_insert-entries_example :
    (dir' : Dir) × (dir_insert names name_b 9 ≡ some (true, dir'))
    × IsValid dir'
    × (entries dir' ≡ entries names ++ ((name_b, 9) ∷ []))
dir_insert-entries_example =
    dir_insert-entries names names-IsValid name_b 9 (omega arith) (λ e. omega arith, tt)
      (omega arith, tt) (omega arith) (omega arith)

dir_file_inode_idx-lookup_example :
    dir_file_inode_idx names name_a ≡ some (lookup name_a (entries names))
dir_file_inode_idx-lookup_example =
    dir_file_inode_idx-lookup names names-IsValid name_a (λ e. omega arith, tt)

dir_remove-entries_example :
    (dir' : Dir) × (dir_remove names name_a ≡ some (lookup name_a (entries names), dir'))
    × IsValid dir'
    × (Perm ((name_a, lookup name_a (entries names)) ∷ entries dir') (entries names)
        ⊎ ((has name_a (entries names) ≡ false)
            × (lookup name_a (entries names) ≡ 0)
            × (dir' ≡ names)))
dir_remove-entries_example = dir_remove-entries names names-IsValid name_a (λ e. omega arith, tt)
