-- ===== src/Dir/Remove.antt =====
-- `dir_remove` against the entries of the directory.
use mathlib.Core.Path.{subst, subst₂}
use mathlib.Core.List.{Perm}
use mathlib.Core.List.Perm
use chisai_fs.Base.{
  ℕ, zero, suc, ◌+◌, ◌-◌, ◌<◌, ◌≡◌, refl, sym, ap, ◌∙◌, ◌⊎◌, inl, inr, Bool, true, false, some,
  List, ◌∷◌, arith, ◌==◌, ◌>>=◌, if◌then◌else◌, get_elem?, get_or, set, take, length, Bool-cases,
  get_elem?-take, take-set, get_elem?-set, length-set, length-take, All-set, All-get_elem?,
}
use chisai_fs.Base.CString.{c_str, same_string, has_nul, IsString, strcmp_eq, same_string_iff}
use chisai_fs.Dir.{Dir, DirNode, blank_node, dir_remove, dir_remove_loop, dir_remove_at}
use chisai_fs.Dir.Bytes.{IsNode}
use chisai_fs.Dir.Lookup.{node_at, compared, segment, segment_cons}
use chisai_fs.Dir.Entries.{Entry, entry, entries, lookup, has, IsValid, swap_remove-perm}

module _ (dir : Dir) (path : List ℕ) (left i : ℕ) where
  remove_round :
      {n : DirNode} {same : Bool}
      → get_elem? dir.node i ≡ some n
      → strcmp_eq n.name path ≡ some same
      → dir_remove_loop dir path (suc left) i ≡ (
          if same
          then (dir_remove_at dir i >>= λ dir'. some (n.idx, dir'))
          else dir_remove_loop dir path left (i + 1))
  unfolding dir_remove_loop
  remove_round at e = rw (at, e)

remove_at_of :
    (dir : Dir) (j : ℕ) {last : DirNode}
    → get_elem? dir.node (dir.size - 1) ≡ some last
    → dir_remove_at dir j ≡ some (record dir { node = set dir.node j last; size = dir.size - 1 })
unfolding dir_remove_at
remove_at_of dir j at = rw at

-- A directory after its last node has taken the place of node `j`.
removed-IsValid :
    (dir : Dir) (j : ℕ) (last : DirNode)
    → IsValid dir
    → j < dir.size
    → get_elem? dir.node (dir.size - 1) ≡ some last
    → IsValid (record dir { node = set dir.node j last; size = dir.size - 1 })
removed-IsValid dir j last v lt at = record {
  storable = record {
    fifteen = length-set dir.node j last ∙ v.storable.fifteen;
    nodes =
        All-set IsNode dir.node j last v.storable.nodes
          (All-get_elem? IsNode dir.node (dir.size - 1) v.storable.nodes at);
    size = omega (arith, v.bounded);
    checksum = v.storable.checksum;
  };
  bounded = omega (arith, v.bounded);
  terminated = λ i m below there. elim (Bool-cases (j == i)) [
    | inl here ↦
        let e : m ≡ last =
          ground (
            arith,
            get_elem?-set dir.node j i last (omega (arith, v.bounded, v.storable.fifteen)),
          ) in
        ap (λ (x : DirNode). has_nul x.name) e ∙ v.terminated (dir.size - 1) last (omega arith) at
    | inr elsewhere ↦ v.terminated i m (omega arith) (
        ground
          (arith, get_elem?-set dir.node j i last (omega (arith, v.bounded, v.storable.fifteen))))
  ];
}

-- The entries are those that were there, less the one of node `j`.
entries-removed :
    (dir : Dir) (j : ℕ) (last n : DirNode)
    → IsValid dir
    → j < dir.size
    → get_elem? dir.node (dir.size - 1) ≡ some last
    → get_elem? dir.node j ≡ some n
    → Perm
        (entry n ∷ entries (record dir { node = set dir.node j last; size = dir.size - 1 }))
        (entries dir)
entries-removed dir j last n v lt at found =
    let xs = take dir.size dir.node in
    let len : length xs ≡ suc (dir.size - 1) =
      omega (arith, length-take dir.size dir.node, v.bounded, v.storable.fifteen) in
    let front = take-set dir.node (dir.size - 1) dir.size j last (omega arith) in
    let perm =
      swap_remove-perm (dir.size - 1) j xs last n len
        (get_elem?-take dir.node dir.size (dir.size - 1) (omega arith) ∙ at)
        (get_elem?-take dir.node dir.size j lt ∙ found) in
    Perm.map entry (subst (λ t. Perm (n ∷ t) xs) (sym front) perm)

module _ (dir : Dir) (v : IsValid dir) (path : List ℕ) (h : IsString path) where
  -- The first node of the name, from node `i` on, and what the loop does there.
  abbrev Hit : ℕ → ℕ → Type 0
  Hit left i =
      (j : ℕ) × (j < dir.size)
      × (same_string (c_str (get_or dir.node j blank_node).name) path ≡ true)
      × (lookup path (segment dir left i) ≡ (get_or dir.node j blank_node).idx)
      × (dir_remove_loop dir path left i
          ≡ (dir_remove_at dir j >>= λ dir'. some ((get_or dir.node j blank_node).idx, dir')))

  abbrev Miss : ℕ → ℕ → Type 0
  Miss left i =
      (has path (segment dir left i) ≡ false)
      × (lookup path (segment dir left i) ≡ 0)
      × (dir_remove_loop dir path left i ≡ some (0, dir))

  lookup_here :
      (n : DirNode) (rest : List Entry)
      → same_string (c_str n.name) path ≡ true
      → lookup path (entry n ∷ rest) ≡ n.idx
  unfolding lookup
  lookup_here n rest e = rw e

  lookup_later :
      (n : DirNode) (rest : List Entry)
      → same_string (c_str n.name) path ≡ false
      → (lookup path (entry n ∷ rest) ≡ lookup path rest)
        × (has path (entry n ∷ rest) ≡ has path rest)
  unfolding lookup has
  lookup_later n rest e = (rw e, rw e)

  remove_loop_lem : (left i : ℕ) → i + left ≡ dir.size → Hit left i ⊎ Miss left i
  remove_loop_lem zero i e =
      inr (unfold has in refl, unfold lookup in refl, unfold dir_remove_loop in refl)
  remove_loop_lem (suc left) i e =
      let lt : i < dir.size = omega arith in
      let n = get_or dir.node i blank_node in
      let round =
        remove_round dir path left i (node_at dir v path h i lt) (compared dir v path h i lt) in
      let cons = segment_cons dir v path h left i lt in
      let next : i + 1 ≡ suc i = omega arith in
      elim (Bool-cases (same_string (c_str n.name) path)) [
        | inl same ↦ inl (
          i,
          lt,
          same,
          ap (lookup path) cons ∙ lookup_here n (segment dir left (suc i)) same,
          round ∙ rw same,
        )
        | inr differ ↦
            let (later, no_more) = lookup_later n (segment dir left (suc i)) differ in
            let moved = ap (λ k. segment dir left k) next in
            elim (remove_loop_lem left (i + 1) (omega arith)) [
              | inl (j, below, same, found, runs) ↦ inl (
                j,
                below,
                same,
                ap (lookup path) cons ∙ later ∙ ap (lookup path) (sym moved) ∙ found,
                round ∙ rw differ runs,
              )
              | inr (absent, zero_index, runs) ↦ inr (
                ap (has path) cons ∙ no_more ∙ ap (has path) (sym moved) ∙ absent,
                ap (lookup path) cons ∙ later ∙ ap (lookup path) (sym moved) ∙ zero_index,
                round ∙ rw differ runs,
              )
            ]
      ]

  -- On a well-formed directory and a name without NUL, `dir_remove` returns the index that a lookup of the name gives. If the directory has the name,
  -- one entry of that name goes, the others stay, in some order, and the directory is well-formed.
  -- If not, the index is 0 and the directory is unchanged.
  pub dir_remove-entries :
      (dir' : Dir) × (dir_remove dir path ≡ some (lookup path (entries dir), dir'))
      × IsValid dir'
      × (Perm ((path, lookup path (entries dir)) ∷ entries dir') (entries dir)
          ⊎ ((has path (entries dir) ≡ false) × (lookup path (entries dir) ≡ 0) × (dir' ≡ dir)))
  unfolding dir_remove
  dir_remove-entries = elim (remove_loop_lem dir.size 0 (omega arith)) [
    | inl (j, lt, same, found, runs) ↦
        let n = get_or dir.node j blank_node in
        let last = get_or dir.node (dir.size - 1) blank_node in
        let at = node_at dir v path h (dir.size - 1) (omega arith) in
        let name = same_string_iff (c_str n.name) path same in
        (
          record dir { node = set dir.node j last; size = dir.size - 1 },
          runs
              ∙ ap (λ o. o >>= λ dir'. some (n.idx, dir')) (remove_at_of dir j at)
              ∙ ap
                  (λ (x : ℕ).
                    some (x, record dir { node = set dir.node j last; size = dir.size - 1 }))
                  (sym found),
          removed-IsValid dir j last v lt at,
          inl (
              subst₂
                (λ p x.
                  Perm
                    ((p, x)
                      ∷ entries (record dir { node = set dir.node j last; size = dir.size - 1 }))
                    (entries dir))
                name (sym found)
                (entries-removed dir j last n v lt at (node_at dir v path h j lt))),
        )
    | inr (absent, zero_index, runs) ↦ (
      dir,
      runs ∙ ap (λ (x : ℕ). some (x, dir)) (sym zero_index),
      v,
      inr (absent, zero_index, refl),
    )
  ]
