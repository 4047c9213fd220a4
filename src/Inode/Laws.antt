-- ===== src/Inode/Laws.antt =====
-- An inode on the device: what is saved is what is loaded.
use chisai_fs.Base.{
  ℕ, zero, suc, ◌+◌, ◌*◌, ◌^◌, ◌≤◌, ◌<◌, ◌≡◌, refl, sym, ap, ap₂, ◌∙◌, List, [], ◌∷◌, ◌++◌, arith,
  length, take, drop, le_bytes, of_bytes, IsByte, IsBytes, All, All-append, length-append,
  length-le_bytes, le_bytes-IsBytes, word_back, word_alone, drop_of_length, drop-drop,
}
use chisai_fs.Base.Outcome.{ok}
use chisai_fs.Device.{Device, device_data_load}
use chisai_fs.Device.Laws.{
  DeviceLaws, slice, patch, device_data_save-patch, device_data_load-slice, slice-patch_self,
}
use chisai_fs.Inode.{
  Inode, inode_bytes, words_encode, words_decode, inode_encode, inode_decode, inode_save,
  inode_load,
}

abbrev pub IsWord : ℕ → Type 0
IsWord w = w < 2 ^ 32

pub record IsValid (inode : Inode) : Type 0 where
  pub mode : inode.mode < 2 ^ 32
  pub nlink : inode.nlink < 2 ^ 63
  pub blkcnt : inode.blkcnt < 2 ^ 63
  pub size : inode.size < 2 ^ 63
  pub twelve : length inode.direct_blks ≡ 12
  pub direct_blks : All IsWord inode.direct_blks
  pub indirect_blk : inode.indirect_blk < 2 ^ 32
  pub double_indirect_blk : inode.double_indirect_blk < 2 ^ 32

length-words_encode : (ws : List ℕ) → length (words_encode ws) ≡ 4 * length ws
unfolding words_encode
length-words_encode [] = refl
length-words_encode (w ∷ ws) =
    length-append (le_bytes 4 w) (words_encode ws)
    ∙ omega (arith, length-le_bytes 4 w, length-words_encode ws)

words_encode-IsBytes : (ws : List ℕ) → IsBytes (words_encode ws)
unfolding words_encode
words_encode-IsBytes [] = tt
words_encode-IsBytes (w ∷ ws) =
    All-append IsByte (le_bytes 4 w) (words_encode ws) (le_bytes-IsBytes 4 w)
      (words_encode-IsBytes ws)

words_decode-encode :
    (n : ℕ) (ws rest : List ℕ)
    → length ws ≡ n
    → All IsWord ws
    → words_decode n (words_encode ws ++ rest) ≡ ws
unfolding words_encode words_decode le_bytes of_bytes
words_decode-encode zero [] rest e h = refl
words_decode-encode zero (w ∷ ws) rest e h = absurd (omega arith)
words_decode-encode (suc n) [] rest e h = absurd (omega arith)
words_decode-encode (suc n) (w ∷ ws) rest e h =
    ap₂ ◌∷◌ (omega (arith, h.0)) (words_decode-encode n ws rest (omega arith) h.1)

-- The fields behind the array of direct blocks.
abbrev tail_bytes : Inode → List ℕ
tail_bytes inode = le_bytes 4 inode.indirect_blk ++ le_bytes 4 inode.double_indirect_blk

pub length-inode_encode :
    (inode : Inode) → length inode.direct_blks ≡ 12 → length (inode_encode inode) ≡ inode_bytes
unfolding inode_encode le_bytes
length-inode_encode inode e =
    let tail = length-append (words_encode inode.direct_blks) (tail_bytes inode) in
    omega (arith, tail, length-words_encode inode.direct_blks)

IsBytes-le_bytes : (k n : ℕ) (rest : List ℕ) → IsBytes rest → IsBytes (le_bytes k n ++ rest)
IsBytes-le_bytes k n rest h = All-append IsByte (le_bytes k n) rest (le_bytes-IsBytes k n) h

pub inode_encode-IsBytes : (inode : Inode) → IsBytes (inode_encode inode)
unfolding inode_encode
inode_encode-IsBytes inode = IsBytes-le_bytes 4 inode.mode _ (
    IsBytes-le_bytes 4 0 _ (
      IsBytes-le_bytes 8 inode.nlink _ (
        IsBytes-le_bytes 8 inode.blkcnt _ (
          IsBytes-le_bytes 8 inode.size _ (
            All-append IsByte (words_encode inode.direct_blks) (tail_bytes inode)
              (words_encode-IsBytes inode.direct_blks)
              (IsBytes-le_bytes 4 inode.indirect_blk _
                (le_bytes-IsBytes 4 inode.double_indirect_blk)))))))

-- The three parts of a decoded inode.
direct_decoded :
    (inode : Inode)
    → IsValid inode
    → words_decode 12 (drop 32 (inode_encode inode)) ≡ inode.direct_blks
unfolding inode_encode le_bytes
direct_decoded inode v =
    words_decode-encode 12 inode.direct_blks (tail_bytes inode) v.twelve v.direct_blks

tail_found : (inode : Inode) → IsValid inode → drop 80 (inode_encode inode) ≡ tail_bytes inode
unfolding inode_encode le_bytes
tail_found inode v =
    drop_of_length 48 (words_encode inode.direct_blks) (tail_bytes inode)
      (omega (arith, length-words_encode inode.direct_blks, v.twelve))

double_found :
    (inode : Inode)
    → IsValid inode
    → drop 84 (inode_encode inode) ≡ le_bytes 4 inode.double_indirect_blk
double_found inode v =
    sym (drop-drop 80 4 (inode_encode inode))
    ∙ ap (drop 4) (tail_found inode v)
    ∙ drop_of_length 4 (le_bytes 4 inode.indirect_blk) (le_bytes 4 inode.double_indirect_blk)
        (length-le_bytes 4 inode.indirect_blk)

head_found :
    (inode : Inode)
    → IsValid inode
    → (of_bytes (take 4 (inode_encode inode)) ≡ inode.mode)
      × (of_bytes (take 8 (drop 8 (inode_encode inode))) ≡ inode.nlink)
      × (of_bytes (take 8 (drop 16 (inode_encode inode))) ≡ inode.blkcnt)
      × (of_bytes (take 8 (drop 24 (inode_encode inode))) ≡ inode.size)
unfolding inode_encode le_bytes of_bytes
head_found inode v =
    (omega (arith, v.mode), omega (arith, v.nlink), omega (arith, v.blkcnt), omega (arith, v.size))

inode_decode-encode : (inode : Inode) → IsValid inode → inode_decode (inode_encode inode) ≡ inode
unfolding inode_decode
inode_decode-encode inode v =
    let (mode, nlink, blkcnt, size) = head_found inode v in
    let direct = direct_decoded inode v in
    let indirect =
      ap (λ t. of_bytes (take 4 t)) (tail_found inode v)
      ∙ word_back inode.indirect_blk (le_bytes 4 inode.double_indirect_blk) v.indirect_blk in
    let double =
      ap (λ t. of_bytes (take 4 t)) (double_found inode v)
      ∙ word_alone inode.double_indirect_blk v.double_indirect_blk in
    λ i. record {
      mode = mode i;
      nlink = nlink i;
      blkcnt = blkcnt i;
      size = size i;
      direct_blks = direct i;
      indirect_blk = indirect i;
      double_indirect_blk = double i;
    }

inode_load_of :
    (d : Device) (offset : ℕ) (s s' : d.State) (bytes : List ℕ)
    → device_data_load d offset inode_bytes s ≡ ok bytes s'
    → length bytes ≡ inode_bytes
    → inode_load d offset s ≡ ok (inode_decode bytes) s'
unfolding inode_load
inode_load_of d offset s s' bytes e len = rw (e, len)

module _ {d : Device} {size : ℕ} {byte : d.State → ℕ → ℕ} (laws : DeviceLaws d size byte) where
  -- `inode_save` inside the device returns, and writes the bytes of the inode at the offset.
  pub inode_save-patch :
      (inode : Inode) (offset : ℕ) (s : d.State)
      → IsValid inode
      → offset + inode_bytes ≤ size
      → (s' : d.State) × (inode_save d inode offset s ≡ ok tt s')
        × (byte s' ≡ patch (byte s) offset (inode_encode inode))
  unfolding inode_save
  inode_save-patch inode offset s v room =
      device_data_save-patch laws offset (inode_encode inode) s
        (omega (arith, length-inode_encode inode v.twelve)) (inode_encode-IsBytes inode)

  -- `inode_load` returns the inode whose bytes the device holds at the offset.
  pub inode_load-encode :
      (inode : Inode) (offset : ℕ) (s : d.State)
      → IsValid inode
      → offset + inode_bytes ≤ size
      → slice (byte s) offset inode_bytes ≡ inode_encode inode
      → (s' : d.State) × (inode_load d offset s ≡ ok inode s') × (byte s' ≡ byte s)
  inode_load-encode inode offset s v room holds =
      let (s', loaded, same) = device_data_load-slice laws offset inode_bytes s room in
      (
        s',
        inode_load_of d offset s s' (inode_encode inode) (loaded ∙ ap (λ bytes. ok bytes s') holds)
              (length-inode_encode inode v.twelve)
            ∙ ap (λ x. ok x s') (inode_decode-encode inode v),
        same,
      )

  -- `inode_save` of an inode whose fields are in range, inside the device, returns; `inode_load` at the
  -- same offset then returns that inode, and the device has changed in its 88 bytes only.
  pub inode_load-save :
      (inode : Inode) (offset : ℕ) (s : d.State)
      → IsValid inode
      → offset + inode_bytes ≤ size
      → (s' s'' : d.State) × (inode_save d inode offset s ≡ ok tt s')
        × (inode_load d offset s' ≡ ok inode s'')
        × (byte s'' ≡ patch (byte s) offset (inode_encode inode))
  inode_load-save inode offset s v room =
      let (s', saved, holds) = inode_save-patch inode offset s v room in
      let written : slice (byte s') offset inode_bytes ≡ inode_encode inode =
        ap (λ f. slice f offset inode_bytes) holds
        ∙ ap (slice (patch (byte s) offset (inode_encode inode)) offset)
            (sym (length-inode_encode inode v.twelve))
        ∙ slice-patch_self (byte s) offset (inode_encode inode) in
      let (s'', loaded, same) = inode_load-encode inode offset s' v room written in
      (s', s'', saved, loaded, same ∙ holds)
