-- ===== src/Dir/Store.antt =====
-- The 488 bytes of a `dir_t` on the device: 15 nodes of a 28-byte name and an index, then `size` and
-- `checksum`.
use chisai_fs.Base.{ℕ, zero, suc, List, [], ◌∷◌, ◌++◌, ◌==◌, take, drop, le_bytes, of_bytes, length}
use chisai_fs.Base.Outcome.{Cmd, pure, require, ◌>>=◌, ◌>>◌}
use chisai_fs.Config.{chisai_file_len, chisai_file_per_dir}
use chisai_fs.Device.{Device, device_data_save, device_data_load}
use chisai_fs.Dir.{Dir, DirNode}

-- sizeof(struct dir_node), sizeof(dir_t)
abbrev pub dir_node_bytes : ℕ
dir_node_bytes = 32

abbrev pub dir_bytes : ℕ
dir_bytes = 488

unfoldable pub nodes_encode : List DirNode → List ℕ
nodes_encode [] = []
nodes_encode (n ∷ ns) = n.name ++ (le_bytes 4 n.idx ++ nodes_encode ns)

unfoldable pub nodes_decode : ℕ → List ℕ → List DirNode
nodes_decode zero bytes = []
nodes_decode (suc k) bytes =
    record {
      name = take chisai_file_len bytes;
      idx = of_bytes (take 4 (drop chisai_file_len bytes));
    }
    ∷ nodes_decode k (drop dir_node_bytes bytes)

unfoldable pub dir_encode : Dir → List ℕ
dir_encode dir = nodes_encode dir.node ++ (le_bytes 4 dir.size ++ le_bytes 4 dir.checksum)

unfoldable pub dir_decode : List ℕ → Dir
dir_decode bytes = record {
  node = nodes_decode chisai_file_per_dir bytes;
  size = of_bytes (take 4 (drop 480 bytes));
  checksum = of_bytes (take 4 (drop 484 bytes));
}

module _ (d : Device) where
  unfoldable pub dir_save : Dir → ℕ → Cmd d.State (Unit {0})
  dir_save dir offset = device_data_save d offset (dir_encode dir)

  -- A short read leaves the struct partly unset.
  unfoldable pub dir_load : ℕ → Cmd d.State Dir
  dir_load offset = do
    bytes ← device_data_load d offset dir_bytes
    require (length bytes == dir_bytes)
    pure (dir_decode bytes)
