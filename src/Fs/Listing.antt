-- ===== src/Fs/Listing.antt =====
-- `fs_get_data` against the entries of a directory.
use mathlib.Core.Path.{sym}
use mathlib.Core.Option.{some-injective}
use chisai_fs.Base.{
  ℕ, zero, suc, ◌+◌, ◌-◌, ◌≤◌, ◌<◌, ◌≡◌, refl, ap, ◌∙◌, inl, inr, true, false, some, List, [], ◌∷◌,
  map, arith, ◌==◌, ltb, length, length-take, get_elem?, get_or, take, get_elem?-eq-get_or,
  All-get_elem?, Bool-cases, u32,
}
use chisai_fs.Base.CString.{c_str-lt, c_str-IsString, c_str, has_nul, strcpy, strcpy_lem}
use chisai_fs.Dir.{Dir, DirNode, blank_node}
use chisai_fs.Dir.Bytes.{IsNode}
use chisai_fs.Dir.Entries.{Entry, entry, entries, IsValid}
use chisai_fs.Fs.{DirInfo, s_ifdir, s_rwx}
use chisai_fs.Fs.Create
use chisai_fs.Fs.Create.{fs_get_data}

-- What a listing of a directory has: the two links, and the names of its entries in order.
abbrev pub names_of : Dir → List (List ℕ)
names_of d = (b'.' ∷ []) ∷ (b'.' ∷ b'.' ∷ []) ∷ map (λ (e : Entry). e.0) (entries d)

-- The name of node `i`.
get_elem?-names :
    (f : DirNode → Entry) (n : ℕ) (nodes : List DirNode) (i : ℕ) {node : DirNode}
    → i < n
    → get_elem? nodes i ≡ some node
    → get_elem? (map (λ (e : Entry). e.0) (map f (take n nodes))) i ≡ some ((f node).0)
get_elem?-names f zero nodes i lt at = absurd (omega arith)
get_elem?-names f (suc n) [] i lt at = cc
get_elem?-names f (suc n) (x ∷ nodes) zero lt at =
    ap (λ (y : DirNode). some ((f y).0)) (some-injective _ _ at)
get_elem?-names f (suc n) (x ∷ nodes) (suc i) lt at = get_elem?-names f n nodes i (omega arith) at

length-maps :
    (f : DirNode → Entry) (nodes : List DirNode)
    → length (map (λ (e : Entry). e.0) (map f nodes)) ≡ length nodes
length-maps f [] = refl
length-maps f (x ∷ nodes) = ap suc (length-maps f nodes)

pub length-names_of : (d : Dir) → IsValid d → length (names_of d) ≡ d.size + 2
length-names_of d v =
    let maps = length-maps entry (take d.size d.node) in
    omega (arith, maps, length-take d.size d.node, v.storable.fifteen, v.bounded)

-- What `fs_get_data` returns where there is a name.
abbrev pub more_entry : DirInfo → List ℕ → Create.Entry
more_entry info name = record {
  more = true;
  dir = record info { pos = info.pos + 1 };
  mode = s_ifdir + s_rwx;
  name = name;
}

module _ (info : DirInfo) (name : List ℕ) where
  get_dot :
      {out : List ℕ}
      → info.pos ≡ 0
      → strcpy name (b'.' ∷ []) ≡ some out
      → fs_get_data info name ≡ some (more_entry info out)
  unfolding fs_get_data
  get_dot e copied = rw (e, copied)

  get_dot_dot :
      {out : List ℕ}
      → info.pos ≡ 1
      → strcpy name (b'.' ∷ b'.' ∷ []) ≡ some out
      → fs_get_data info name ≡ some (more_entry info out)
  unfolding fs_get_data
  get_dot_dot e copied = rw (e, copied)

  get_node :
      {node : DirNode} {out : List ℕ}
      → (info.pos == 0) ≡ false
      → (info.pos == 1) ≡ false
      → ltb (info.pos - 2) info.dir.size ≡ true
      → get_elem? info.dir.node (info.pos - 2) ≡ some node
      → has_nul node.name ≡ true
      → strcpy name (c_str node.name) ≡ some out
      → u32 (info.pos + 1) ≡ info.pos + 1
      → fs_get_data info name ≡ some (more_entry info out)
  unfolding fs_get_data
  get_node e0 e1 lt at nul copied whole = rw (e0, e1, lt, at, nul, copied, whole)

  pub get_end :
      info.pos ≡ info.dir.size + 2
      → fs_get_data info name ≡ some (record { more = false; dir = info; mode = 0; name = name })
  unfolding fs_get_data
  get_end e = ground arith

-- A round of the loop before the end: the name at the position, in an array of the same size.
pub get_more :
    (info : DirInfo) (name : List ℕ)
    → IsValid info.dir
    → 28 ≤ length name
    → info.pos < info.dir.size + 2
    → (out : List ℕ) × (fs_get_data info name ≡ some (more_entry info out))
      × (get_elem? (names_of info.dir) info.pos ≡ some (c_str out))
      × (length out ≡ length name)
get_more info name v room lt = elim (Bool-cases (info.pos == 0)) [
  | inl dot ↦
      let e : info.pos ≡ 0 = ground arith in
      let (out, copied, same, nul, len, _) =
        strcpy_lem name (b'.' ∷ []) (λ z. omega arith, tt) (omega arith) in
      (
        out,
        get_dot info name e copied,
        ap (get_elem? (names_of info.dir)) e ∙ ap some (sym same),
        len,
      )
  | inr not_dot ↦ elim (Bool-cases (info.pos == 1)) [
    | inl dot_dot ↦
        let e : info.pos ≡ 1 = ground arith in
        let (out, copied, same, nul, len, _) =
          strcpy_lem name (b'.' ∷ b'.' ∷ []) (λ z. omega arith, (λ z. omega arith, tt))
            (omega arith) in
        (
          out,
          get_dot_dot info name e copied,
          ap (get_elem? (names_of info.dir)) e ∙ ap some (sym same),
          len,
        )
    | inr not_dot_dot ↦
        let i = info.pos - 2 in
        let e : info.pos ≡ suc (suc i) = ground arith in
        let below : i < info.dir.size = omega arith in
        let node = get_or info.dir.node i blank_node in
        let at =
          get_elem?-eq-get_or info.dir.node i blank_node
            (omega (arith, v.storable.fifteen, v.bounded)) in
        let ends = v.terminated i node below at in
        let width = (All-get_elem? IsNode info.dir.node i v.storable.nodes at).0 in
        let (out, copied, same, nul, len, _) =
          strcpy_lem name (c_str node.name) (c_str-IsString node.name)
            (omega (arith, c_str-lt node.name ends, width)) in
        (
          out,
          get_node info name not_dot not_dot_dot (ground arith) at ends copied
              (omega (arith, v.bounded)),
          ap (get_elem? (names_of info.dir)) e
              ∙ get_elem?-names entry info.dir.size info.dir.node i below at
              ∙ ap some (sym same),
          len,
        )
  ]
]
