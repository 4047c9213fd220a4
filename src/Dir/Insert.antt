-- ===== src/Dir/Insert.antt =====
-- `dir_insert` against the entries of the directory.
use mathlib.Core.List.{map-append}
use chisai_fs.Base.{
  ℕ, suc, ◌+◌, ◌^◌, ◌<◌, ◌≡◌, ap, ◌∙◌, inl, inr, true, false, some, List, [], ◌∷◌, ◌++◌, map, arith,
  ◌==◌, leb, get_elem?, get_or, set, take, length, Bool-cases, take-set_last, get_elem?-set,
  get_elem?-eq-get_or, length-set, All-set, All-get_elem?, IsBytes,
}
use chisai_fs.Base.CString.{has_nul, IsString, strcpy, strcpy_lem}
use chisai_fs.Dir.{Dir, DirNode, blank_node, dir_insert}
use chisai_fs.Dir.Bytes.{IsNode}
use chisai_fs.Dir.Entries.{entry, entries, IsValid}

insert_of :
    (dir : Dir) (path : List ℕ) (idx : ℕ) {n : DirNode} {name : List ℕ}
    → leb 15 dir.size ≡ false
    → get_elem? dir.node dir.size ≡ some n
    → strcpy n.name path ≡ some name
    → dir_insert dir path idx
      ≡ some (
        true,
        record dir {
          node = set dir.node dir.size (record { name = name; idx = idx });
          size = dir.size + 1;
        },
      )
unfolding dir_insert
insert_of dir path idx room at copied = rw (room, at, copied)

-- A directory after a node has been put behind its entries.
inserted-IsValid :
    (dir : Dir) (n : DirNode)
    → IsValid dir
    → dir.size < 15
    → IsNode n
    → has_nul n.name ≡ true
    → IsValid (record dir { node = set dir.node dir.size n; size = dir.size + 1 })
inserted-IsValid dir n v lt fits nul = record {
  storable = record {
    fifteen = length-set dir.node dir.size n ∙ v.storable.fifteen;
    nodes = All-set IsNode dir.node dir.size n v.storable.nodes fits;
    size = omega arith;
    checksum = v.storable.checksum;
  };
  bounded = omega arith;
  terminated = λ i m below at. elim (Bool-cases (dir.size == i)) [
    | inl new ↦
        let e : m ≡ n =
          ground (arith, get_elem?-set dir.node dir.size i n (omega (arith, v.storable.fifteen))) in
        ap (λ (x : DirNode). has_nul x.name) e ∙ nul
    | inr old ↦
        v.terminated i m (ground arith)
          (ground (arith, get_elem?-set dir.node dir.size i n (omega (arith, v.storable.fifteen))))
  ];
}

entries-inserted :
    (dir : Dir) (n : DirNode)
    → dir.size < length dir.node
    → entries (record dir { node = set dir.node dir.size n; size = dir.size + 1 })
      ≡ entries dir ++ (entry n ∷ [])
entries-inserted dir n lt =
    let next : dir.size + 1 ≡ suc dir.size = omega arith in
    ap (λ k. map entry (take k (set dir.node dir.size n))) next
    ∙ ap (map entry) (take-set_last dir.node dir.size n lt)
    ∙ map-append entry (take dir.size dir.node) (n ∷ [])

module _ (dir : Dir) (v : IsValid dir) (path : List ℕ) (idx : ℕ) where
  -- A full directory refuses, and is unchanged.
  pub dir_insert_full : dir.size ≡ 15 → dir_insert dir path idx ≡ some (false, dir)
  unfolding dir_insert
  dir_insert_full e = ground arith

  free_node :
      dir.size < 15 → get_elem? dir.node dir.size ≡ some (get_or dir.node dir.size blank_node)
  free_node lt =
      get_elem?-eq-get_or dir.node dir.size blank_node (omega (arith, v.storable.fifteen))

  -- A well-formed directory that is not full takes a name of at most 27 bytes: it succeeds, its entries are those
  -- from before and the new one behind them, and it is well-formed.
  pub dir_insert-entries :
      dir.size < 15
      → IsString path
      → IsBytes path
      → length path < 28
      → idx < 2 ^ 32
      → (dir' : Dir) × (dir_insert dir path idx ≡ some (true, dir'))
        × IsValid dir'
        × (entries dir' ≡ entries dir ++ ((path, idx) ∷ []))
  dir_insert-entries lt s bytes short small =
      let n = get_or dir.node dir.size blank_node in
      let (long, old_bytes, _) =
        All-get_elem? IsNode dir.node dir.size v.storable.nodes (free_node lt) in
      let (name, copied, same, nul, len, new_bytes) = strcpy_lem n.name path s (omega arith) in
      let new : DirNode = record { name = name; idx = idx } in
      (
        record dir { node = set dir.node dir.size new; size = dir.size + 1 },
        insert_of dir path idx (ground arith) (free_node lt) copied,
        inserted-IsValid dir new v lt (omega arith, new_bytes old_bytes bytes, small) nul,
        entries-inserted dir new (omega (arith, v.storable.fifteen))
            ∙ ap (λ t. entries dir ++ ((t, idx) ∷ [])) same,
      )
