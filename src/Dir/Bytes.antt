-- ===== src/Dir/Bytes.antt =====
-- A directory on the device: what is saved is what is loaded.
use chisai_fs.Base.{
  ℕ, zero, suc, ◌+◌, ◌*◌, ◌^◌, ◌≤◌, ◌<◌, ◌≡◌, refl, sym, ap, ◌∙◌, List, [], ◌∷◌, ◌++◌, arith,
  length, take, drop, le_bytes, of_bytes, IsByte, IsBytes, All, All-append, length-append,
  length-le_bytes, le_bytes-IsBytes, word_back, word_alone, take_of_length, drop_of_length,
  drop-drop,
}
use mathlib.Core.List.{append_assoc}
use chisai_fs.Base.Outcome.{ok}
use chisai_fs.Device.{Device, device_data_load}
use chisai_fs.Device.Laws.{
  DeviceLaws, slice, patch, device_data_save-patch, device_data_load-slice, slice-patch_self,
}
use chisai_fs.Dir.{Dir, DirNode}
use chisai_fs.Dir.Store.{
  dir_bytes, nodes_encode, nodes_decode, dir_encode, dir_decode, dir_save, dir_load,
}

-- A node has a name array of 28 bytes and an index of 32 bits.
abbrev pub IsNode : DirNode → Type 0
IsNode n = (length n.name ≡ 28) × IsBytes n.name × (n.idx < 2 ^ 32)

pub record IsStorable (dir : Dir) : Type 0 where
  pub fifteen : length dir.node ≡ 15
  pub nodes : All IsNode dir.node
  pub size : dir.size < 2 ^ 32
  pub checksum : dir.checksum < 2 ^ 32

length-nodes_encode :
    (ns : List DirNode) → All IsNode ns → length (nodes_encode ns) ≡ 32 * length ns
unfolding nodes_encode
length-nodes_encode [] h = refl
length-nodes_encode (n ∷ ns) h = omega (
  arith,
  length-append n.name (le_bytes 4 n.idx ++ nodes_encode ns),
  length-append (le_bytes 4 n.idx) (nodes_encode ns),
  length-le_bytes 4 n.idx,
  length-nodes_encode ns h.1,
  h.0.0,
)

nodes_encode-IsBytes : (ns : List DirNode) → All IsNode ns → IsBytes (nodes_encode ns)
unfolding nodes_encode
nodes_encode-IsBytes [] h = tt
nodes_encode-IsBytes (n ∷ ns) h =
    All-append IsByte n.name (le_bytes 4 n.idx ++ nodes_encode ns) h.0.1 (
      All-append IsByte (le_bytes 4 n.idx) (nodes_encode ns) (le_bytes-IsBytes 4 n.idx)
        (nodes_encode-IsBytes ns h.1))

-- One node in front of the bytes of others.
node_decoded :
    (n : DirNode) (rest : List ℕ)
    → IsNode n
    → (take 28 (n.name ++ (le_bytes 4 n.idx ++ rest)) ≡ n.name)
      × (of_bytes (take 4 (drop 28 (n.name ++ (le_bytes 4 n.idx ++ rest)))) ≡ n.idx)
      × (drop 32 (n.name ++ (le_bytes 4 n.idx ++ rest)) ≡ rest)
node_decoded n rest h =
    let after = drop_of_length 28 n.name (le_bytes 4 n.idx ++ rest) h.0 in
    (
      take_of_length 28 n.name (le_bytes 4 n.idx ++ rest) h.0,
      ap (λ t. of_bytes (take 4 t)) after ∙ word_back n.idx rest h.2,
      sym (drop-drop 28 4 (n.name ++ (le_bytes 4 n.idx ++ rest)))
          ∙ ap (drop 4) after
          ∙ drop_of_length 4 (le_bytes 4 n.idx) rest (length-le_bytes 4 n.idx),
    )

nodes_decode-encode :
    (k : ℕ) (ns : List DirNode) (rest : List ℕ)
    → length ns ≡ k
    → All IsNode ns
    → nodes_decode k (nodes_encode ns ++ rest) ≡ ns
unfolding nodes_encode nodes_decode
nodes_decode-encode zero [] rest e h = refl
nodes_decode-encode zero (n ∷ ns) rest e h = absurd (omega arith)
nodes_decode-encode (suc k) [] rest e h = absurd (omega arith)
nodes_decode-encode (suc k) (n ∷ ns) rest e h =
    let shape : (n.name ++ (le_bytes 4 n.idx ++ nodes_encode ns)) ++ rest
        ≡ n.name ++ (le_bytes 4 n.idx ++ (nodes_encode ns ++ rest)) =
      append_assoc n.name (le_bytes 4 n.idx ++ nodes_encode ns) rest
      ∙ ap (λ t. n.name ++ t) (append_assoc (le_bytes 4 n.idx) (nodes_encode ns) rest) in
    let (name, idx, after) = node_decoded n (nodes_encode ns ++ rest) h.0 in
    let name' = ap (take 28) shape ∙ name in
    let idx' = ap (λ t. of_bytes (take 4 (drop 28 t))) shape ∙ idx in
    let after' = ap (drop 32) shape ∙ after in
    let others = ap (nodes_decode k) after' ∙ nodes_decode-encode k ns rest (omega arith) h.1 in
    λ i. record { name = name' i; idx = idx' i } ∷ others i

module _ (dir : Dir) (v : IsStorable dir) where
  pub length-dir_encode : length (dir_encode dir) ≡ dir_bytes
  unfolding dir_encode
  length-dir_encode = omega (
    arith,
    length-append (nodes_encode dir.node) (le_bytes 4 dir.size ++ le_bytes 4 dir.checksum),
    length-append (le_bytes 4 dir.size) (le_bytes 4 dir.checksum),
    length-le_bytes 4 dir.size,
    length-le_bytes 4 dir.checksum,
    length-nodes_encode dir.node v.nodes,
    v.fifteen,
  )

  pub dir_encode-IsBytes : IsBytes (dir_encode dir)
  unfolding dir_encode
  dir_encode-IsBytes =
      All-append IsByte (nodes_encode dir.node) (le_bytes 4 dir.size ++ le_bytes 4 dir.checksum)
        (nodes_encode-IsBytes dir.node v.nodes)
        (All-append IsByte (le_bytes 4 dir.size) (le_bytes 4 dir.checksum)
          (le_bytes-IsBytes 4 dir.size) (le_bytes-IsBytes 4 dir.checksum))

  tail_found : drop 480 (dir_encode dir) ≡ le_bytes 4 dir.size ++ le_bytes 4 dir.checksum
  unfolding dir_encode
  tail_found =
      drop_of_length 480 (nodes_encode dir.node) (le_bytes 4 dir.size ++ le_bytes 4 dir.checksum)
        (omega (arith, length-nodes_encode dir.node v.nodes, v.fifteen))

  checksum_found : drop 484 (dir_encode dir) ≡ le_bytes 4 dir.checksum
  checksum_found =
      sym (drop-drop 480 4 (dir_encode dir))
      ∙ ap (drop 4) tail_found
      ∙ drop_of_length 4 (le_bytes 4 dir.size) (le_bytes 4 dir.checksum)
          (length-le_bytes 4 dir.size)

  node_found : nodes_decode 15 (dir_encode dir) ≡ dir.node
  unfolding dir_encode
  node_found =
      nodes_decode-encode 15 dir.node (le_bytes 4 dir.size ++ le_bytes 4 dir.checksum) v.fifteen
        v.nodes

  pub dir_decode-encode : dir_decode (dir_encode dir) ≡ dir
  unfolding dir_decode
  dir_decode-encode =
      let size =
        ap (λ t. of_bytes (take 4 t)) tail_found
        ∙ word_back dir.size (le_bytes 4 dir.checksum) v.size in
      let checksum =
        ap (λ t. of_bytes (take 4 t)) checksum_found ∙ word_alone dir.checksum v.checksum in
      λ i. record { node = node_found i; size = size i; checksum = checksum i }

dir_load_of :
    (d : Device) (offset : ℕ) (s s' : d.State) (bytes : List ℕ)
    → device_data_load d offset dir_bytes s ≡ ok bytes s'
    → length bytes ≡ dir_bytes
    → dir_load d offset s ≡ ok (dir_decode bytes) s'
unfolding dir_load
dir_load_of d offset s s' bytes e len = rw (e, len)

module _ {d : Device} {size : ℕ} {byte : d.State → ℕ → ℕ} (laws : DeviceLaws d size byte) where
  -- `dir_save` inside the device returns, and writes the bytes of the directory at the offset.
  pub dir_save-patch :
      (dir : Dir) (offset : ℕ) (s : d.State)
      → IsStorable dir
      → offset + dir_bytes ≤ size
      → (s' : d.State) × (dir_save d dir offset s ≡ ok tt s')
        × (byte s' ≡ patch (byte s) offset (dir_encode dir))
  unfolding dir_save
  dir_save-patch dir offset s v room =
      device_data_save-patch laws offset (dir_encode dir) s (omega (arith, length-dir_encode dir v))
        (dir_encode-IsBytes dir v)

  -- `dir_load` returns the directory whose bytes the device holds at the offset.
  pub dir_load-encode :
      (dir : Dir) (offset : ℕ) (s : d.State)
      → IsStorable dir
      → offset + dir_bytes ≤ size
      → slice (byte s) offset dir_bytes ≡ dir_encode dir
      → (s' : d.State) × (dir_load d offset s ≡ ok dir s') × (byte s' ≡ byte s)
  dir_load-encode dir offset s v room holds =
      let (s', loaded, same) = device_data_load-slice laws offset dir_bytes s room in
      (
        s',
        dir_load_of d offset s s' (dir_encode dir) (loaded ∙ ap (λ bytes. ok bytes s') holds)
              (length-dir_encode dir v)
            ∙ ap (λ x. ok x s') (dir_decode-encode dir v),
        same,
      )

  -- `dir_save` of a directory that can be stored, inside the device, returns; `dir_load` at the same
  -- offset then returns that directory, and the device has changed in its 488 bytes only.
  pub dir_load-save :
      (dir : Dir) (offset : ℕ) (s : d.State)
      → IsStorable dir
      → offset + dir_bytes ≤ size
      → (s' s'' : d.State) × (dir_save d dir offset s ≡ ok tt s')
        × (dir_load d offset s' ≡ ok dir s'')
        × (byte s'' ≡ patch (byte s) offset (dir_encode dir))
  dir_load-save dir offset s v room =
      let (s', saved, holds) = dir_save-patch dir offset s v room in
      let written : slice (byte s') offset dir_bytes ≡ dir_encode dir =
        ap (λ f. slice f offset dir_bytes) holds
        ∙ ap (slice (patch (byte s) offset (dir_encode dir)) offset) (sym (length-dir_encode dir v))
        ∙ slice-patch_self (byte s) offset (dir_encode dir) in
      let (s'', loaded, same) = dir_load-encode dir offset s' v room written in
      (s', s'', saved, loaded, same ∙ holds)
