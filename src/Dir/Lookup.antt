-- ===== src/Dir/Lookup.antt =====
-- `dir_file_inode_idx` against the entries of the directory.
use chisai_fs.Base.{
  ℕ, zero, suc, ◌+◌, ◌<◌, ◌≡◌, refl, ap, ◌∙◌, Bool, some, List, ◌∷◌, map, arith, if◌then◌else◌,
  get_elem?, get_or, take, drop, drop_cons, get_elem?-eq-get_or,
}
use chisai_fs.Base.CString.{c_str, same_string, IsString, strcmp_eq, strcmp_eq-same_string}
use chisai_fs.Dir.{Dir, DirNode, blank_node, dir_file_inode_idx, dir_file_inode_idx_loop}
use chisai_fs.Dir.Entries.{Entry, entry, entries, lookup, IsValid}

module _ (dir : Dir) (path : List ℕ) (left i : ℕ) where
  -- One round of each loop, at a node that can be compared.
  lookup_round :
      {n : DirNode} {same : Bool}
      → get_elem? dir.node i ≡ some n
      → strcmp_eq n.name path ≡ some same
      → dir_file_inode_idx_loop dir path (suc left) i
        ≡ (if same then some n.idx else dir_file_inode_idx_loop dir path left (i + 1))
  unfolding dir_file_inode_idx_loop
  lookup_round at e = rw (at, e)

-- The entries from node `i` on, `left` of them.
abbrev pub segment : Dir → ℕ → ℕ → List Entry
segment dir left i = map entry (take left (drop i dir.node))

module _ (dir : Dir) (v : IsValid dir) (path : List ℕ) (h : IsString path) where
  pub node_at : (i : ℕ) → i < dir.size → get_elem? dir.node i ≡ some (get_or dir.node i blank_node)
  node_at i lt =
      get_elem?-eq-get_or dir.node i blank_node (omega (arith, v.bounded, v.storable.fifteen))

  pub compared :
      (i : ℕ)
      → i < dir.size
      → strcmp_eq (get_or dir.node i blank_node).name path
        ≡ some (same_string (c_str (get_or dir.node i blank_node).name) path)
  compared i lt =
      strcmp_eq-same_string (get_or dir.node i blank_node).name path
        (v.terminated i (get_or dir.node i blank_node) lt (node_at i lt)) h

  pub segment_cons :
      (left i : ℕ)
      → i < dir.size
      → segment dir (suc left) i ≡ entry (get_or dir.node i blank_node) ∷ segment dir left (suc i)
  segment_cons left i lt =
      ap (λ t. map entry (take (suc left) t)) (drop_cons dir.node i (node_at i lt))

  lookup_loop-lookup :
      (left i : ℕ)
      → i + left ≡ dir.size
      → dir_file_inode_idx_loop dir path left i ≡ some (lookup path (segment dir left i))
  lookup_loop-lookup zero i e = unfold dir_file_inode_idx_loop lookup in refl
  lookup_loop-lookup (suc left) i e =
      let lt : i < dir.size = omega arith in
      let n = get_or dir.node i blank_node in
      let next : i + 1 ≡ suc i = omega arith in
      lookup_round dir path left i (node_at i lt) (compared i lt)
      ∙ ap (λ t. if same_string (c_str n.name) path then some n.idx else t)
          (lookup_loop-lookup left (i + 1) (omega arith))
      ∙ rw (segment_cons left i lt, next) (split n (segment dir left (suc i)))
    where
      split :
          (n : DirNode) (rest : List Entry)
          → (if same_string (c_str n.name) path then some n.idx else some (lookup path rest))
            ≡ some (lookup path (entry n ∷ rest))
      split n rest = unfold lookup in ground arith

  -- On a well-formed directory and a name without NUL, `dir_file_inode_idx` is the lookup among the entries.
  pub dir_file_inode_idx-lookup : dir_file_inode_idx dir path ≡ some (lookup path (entries dir))
  unfolding dir_file_inode_idx
  dir_file_inode_idx-lookup = lookup_loop-lookup dir.size 0 (omega arith)
